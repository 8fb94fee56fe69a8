-- ===== src/Agent/Examples/Logs.antt =====
-- The theorems about the audit log and the stream of log entries.
use keelos.Prelude.{◌≡◌, refl, String, format, true, none, some, false, err, [], ◌∷◌, Result, ok}
use keelos.Agent.Logs.{StreamLogsRequest, stream_logs}
use keelos.Agent.Audit.{AuditEntry, AuditLog, Disk, Call, append, serve, grpc_status_from_response}
use keelos.Agent.Audit.Laws.{Refines, serve-Refines, serve-lost, spec_serve}

abbrev output : String
output =
    "2024-01-01T00:00:00 kern.warn: link down\n2024-01-01T00:00:01 kern.err: oops\n2024-01-01T00:00:02 boot\n"

abbrev request : StreamLogsRequest
request = record { level = "error"; component = "kernel"; tail_lines = 2 }

sent :
    stream_logs "now" request (ok output)
    ≡ ok (
        record {
          timestamp = "2024-01-01T00:00:01";
          level = "error";
          component = "kernel";
          message = "oops";
        }
        ∷ [])
unfolding stream_logs
sent = refl

-- A JSON form that is good enough to tell entries apart.
abbrev to_string : AuditEntry → Result String String
to_string e = ok (format (e.method ∷ " " ∷ e.status ∷ []))

abbrev healthy : Disk
healthy = record { write_fault = none; dir_fault = false; open_fault = false }

abbrev get_status : Call
get_status = record {
  path = "/GetStatus";
  result = ok (record { grpc_status = some "7"; http_status = 200 });
  now = "t";
  elapsed_ms = 3;
  disk = healthy;
}

abbrev reboot : Call
reboot = record get_status { path = "/Reboot"; result = err "reset" }

abbrev log : AuditLog
log = record { writer = true; file = some "old\n" }

recorded :
    (serve to_string (get_status ∷ reboot ∷ []) log).0.file
    ≡ some "old\n/GetStatus PERMISSION_DENIED\n/Reboot ERROR: reset\n"
unfolding serve grpc_status_from_response
recorded = refl

serve-Refines_example :
    Refines to_string "old\n"
      (serve to_string (get_status ∷ reboot ∷ []) log).0
      (spec_serve (get_status ∷ reboot ∷ []) []).0
    × ((serve to_string (get_status ∷ reboot ∷ []) log).1
        ≡ (spec_serve (get_status ∷ reboot ∷ []) []).1)
serve-Refines_example =
    serve-Refines to_string "old\n" (get_status ∷ reboot ∷ []) log [] (refl, (refl, tt))
      (refl, refl)

-- The disk is full, and the file cannot be opened again.
abbrev torn : Call
torn = record get_status {
  disk = record { write_fault = some "/Get"; dir_fault = false; open_fault = true };
}

serve-lost_example :
    (serve to_string (torn ∷ get_status ∷ []) log).0.file ≡ append "/Get" (some "old\n")
unfolding grpc_status_from_response
serve-lost_example =
    serve-lost to_string torn (get_status ∷ []) log "/GetStatus PERMISSION_DENIED" "/Get" refl refl
      refl refl
