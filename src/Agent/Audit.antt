-- ===== src/Agent/Audit.antt =====
-- cmd/keel-agent/src/audit.rs: the audit log and the service that records every request in it. The
-- faults of the disk, the clock and `serde_json` are what a call is given; nothing else moves the
-- file behind the open handle.
pub mod Laws
use Prim.Native.String
use keelos.Prelude.{
  ℕ, if◌then◌else◌, String, format, show, Bool, true, false, Option, none, some, List, [], ◌∷◌,
  Result, ok, err, unwrap_or,
}
use keelos.Prelude.Dict.{Dict, get}

pub record AuditEntry : Type 0 where
  pub timestamp : String
  pub method : String
  pub status : String
  pub duration_ms : ℕ

-- Whether `writer` holds an open file, and the text of the file at `path`.
pub record AuditLog : Type 0 where
  pub writer : Bool
  pub file : Option String

-- What a call finds: the fault of a write, as the part of the line that is written before it, and
-- those of making the directory and of opening the file.
pub record Disk : Type 0 where
  pub write_fault : Option String
  pub dir_fault : Bool
  pub open_fault : Bool

-- Whether the file could be opened, and the file behind it.
unfoldable pub open_file : Disk → Option String → Bool × Option String
open_file disk file =
    if disk.dir_fault
    then (false, file)
    else if disk.open_fault
    then (false, file)
    else (true, some (unwrap_or file ""))

unfoldable pub new : Disk → Option String → AuditLog
unfolding open_file
new disk file = let (opened, text) = open_file disk file in record { writer = opened; file = text }

abbrev pub append : String → Option String → Option String
append text file = some (String.◌++◌ (unwrap_or file "") text)

abbrev pub reopened : Disk → Option String → AuditLog
reopened disk file =
    let (opened, text) = open_file disk file in record { writer = opened; file = text }

-- `writeln!`, and what follows its failure.
abbrev pub write_line : Option String → Disk → String → AuditLog → AuditLog
write_line none disk line log = record log { file = append (format (line ∷ "\n" ∷ [])) log.file }
write_line (some part) disk line log = reopened disk (append part log.file)

abbrev pub record_line : Result String String → Disk → AuditLog → AuditLog
record_line (ok line) disk log =
    if log.writer then write_line disk.write_fault disk line log else log
record_line (err _) disk log = log

unfoldable pub record_entry :
    (AuditEntry → Result String String) → Disk → AuditEntry → AuditLog → AuditLog
record_entry to_string disk entry log = record_line (to_string entry) disk log

abbrev pub grpc_codes : Dict String
grpc_codes =
    ("0", "OK")
    ∷ ("1", "CANCELLED")
    ∷ ("2", "UNKNOWN")
    ∷ ("3", "INVALID_ARGUMENT")
    ∷ ("4", "DEADLINE_EXCEEDED")
    ∷ ("5", "NOT_FOUND")
    ∷ ("6", "ALREADY_EXISTS")
    ∷ ("7", "PERMISSION_DENIED")
    ∷ ("8", "RESOURCE_EXHAUSTED")
    ∷ ("9", "FAILED_PRECONDITION")
    ∷ ("10", "ABORTED")
    ∷ ("11", "OUT_OF_RANGE")
    ∷ ("12", "UNIMPLEMENTED")
    ∷ ("13", "INTERNAL")
    ∷ ("14", "UNAVAILABLE")
    ∷ ("15", "DATA_LOSS")
    ∷ ("16", "UNAUTHENTICATED")
    ∷ []

unfoldable pub grpc_code_name : String → String
unfolding get
grpc_code_name code = unwrap_or (get code grpc_codes) (format ("CODE_" ∷ code ∷ []))

-- A response: its `grpc-status` header, if it has one and it is a text, and the status of HTTP.
pub record Response : Type 0 where
  pub grpc_status : Option String
  pub http_status : ℕ

unfoldable pub grpc_status_from_response : Response → String
unfolding grpc_code_name show
grpc_status_from_response resp = elim resp.grpc_status [
  | some s ↦ grpc_code_name s
  | none ↦ format ("HTTP " ∷ show resp.http_status ∷ [])
]

abbrev pub status_of : Result Response String → String
status_of (ok resp) = grpc_status_from_response resp
status_of (err e) = format ("ERROR: " ∷ e ∷ [])

-- One request to the service: its path, what the inner service answers, and what the recording
-- finds.
pub record Call : Type 0 where
  pub path : String
  pub result : Result Response String
  pub now : String
  pub elapsed_ms : ℕ
  pub disk : Disk

abbrev pub entry_of : Call → AuditEntry
entry_of c = record {
  timestamp = c.now;
  method = c.path;
  status = status_of c.result;
  duration_ms = c.elapsed_ms;
}

unfoldable pub call :
    (AuditEntry → Result String String) → Call → AuditLog → AuditLog × Result Response String
unfolding record_entry
call to_string c log = (record_entry to_string c.disk (entry_of c) log, c.result)

-- The requests one after the other, with their answers: `record` holds the lock of the writer.
unfoldable pub serve :
    (AuditEntry → Result String String)
    → List Call
    → AuditLog
    → AuditLog × List (Result Response String)
unfolding call
serve to_string [] log = (log, [])
serve to_string (c ∷ cs) log =
    let (next, answer) = call to_string c log in
    let (last, answers) = serve to_string cs next in (last, answer ∷ answers)
