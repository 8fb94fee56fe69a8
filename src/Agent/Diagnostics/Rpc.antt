-- ===== src/Agent/Diagnostics/Rpc.antt =====
-- cmd/keel-agent/src/lib.rs: the RPCs about diagnostics, behind their authorisation. Their errors
-- are replies with `success` false.
pub mod Laws
use keelos.Prelude.{
  ℕ, ◌-◌, ◌/◌, ◌%◌, ltb, if◌then◌else◌, String, format, Bool, true, false, Option, none, some, List,
  [], ◌∷◌, map, Result, ok, err,
}
use keelos.Prelude.Dict.{Dict}
use keelos.Agent.Io.{Io}
use keelos.Agent.Diagnostics.{
  DiagnosticsManager, DebugSession, RecoverySession, Env, enable_debug_mode, enable_recovery_mode,
  get_debug_status,
}
use keelos.Agent.Diagnostics.Dumps.{Sources, collect_crash_dump, create_system_snapshot}
use keelos.Agent.Diagnostics.Crash.{CrashFinding, analyze_crash_dump}

pub record EnableDebugModeRequest : Type 0 where
  pub duration_secs : ℕ
  pub reason : String

pub record EnableDebugModeResponse : Type 0 where
  pub success : Bool
  pub message : String
  pub session_id : String
  pub expires_at : String

pub record GetDebugStatusResponse : Type 0 where
  pub enabled : Bool
  pub session_id : String
  pub expires_at : String
  pub reason : String
  pub remaining_secs : ℕ

pub record CollectCrashDumpResponse : Type 0 where
  pub success : Bool
  pub message : String
  pub dump_path : String
  pub dump_size_bytes : ℕ
  pub created_at : String

pub record CreateSystemSnapshotResponse : Type 0 where
  pub success : Bool
  pub message : String
  pub snapshot_id : String
  pub snapshot_path : String
  pub size_bytes : ℕ
  pub created_at : String

pub record EnableRecoveryModeResponse : Type 0 where
  pub success : Bool
  pub message : String
  pub expires_at : String

pub record AnalyzeCrashDumpResponse : Type 0 where
  pub success : Bool
  pub message : String
  pub severity : String
  pub findings : List CrashFinding
  pub summary : String

module _ (to_rfc3339 : ℕ → String) where
  abbrev pub debug_response : Result DebugSession String → EnableDebugModeResponse
  debug_response (ok session) = record {
    success = true;
    message = "Debug mode enabled";
    session_id = session.session_id;
    expires_at = to_rfc3339 session.expires_at;
  }
  debug_response (err e) = record { success = false; message = e; session_id = ""; expires_at = "" }

  unfoldable pub enable_debug_rpc :
      Env
      → EnableDebugModeRequest
      → DiagnosticsManager
      → EnableDebugModeResponse × DiagnosticsManager
  enable_debug_rpc env req m =
      let (r, after) = enable_debug_mode to_rfc3339 env req.duration_secs req.reason m in
      (debug_response r, after)

  -- `num_seconds` of the difference, 0 unless it is positive, as a u32.
  abbrev pub remaining_at : ℕ → DebugSession → ℕ
  remaining_at now session =
      if ltb now session.expires_at
      then ((session.expires_at - now) / 1000000000) % 4294967296
      else 0

  abbrev pub status_response : ℕ → Option DebugSession → GetDebugStatusResponse
  status_response now (some session) = record {
    enabled = true;
    session_id = session.session_id;
    expires_at = to_rfc3339 session.expires_at;
    reason = session.reason;
    remaining_secs = remaining_at now session;
  }
  status_response now none = record {
    enabled = false;
    session_id = "";
    expires_at = "";
    reason = "";
    remaining_secs = 0;
  }

  -- The clock is read by the manager first and again for what remains.
  unfoldable pub get_debug_status_rpc : ℕ → ℕ → DiagnosticsManager → GetDebugStatusResponse
  get_debug_status_rpc checked_at now m = status_response now (get_debug_status checked_at m)

  abbrev recovery_response : Result RecoverySession String → EnableRecoveryModeResponse
  recovery_response (ok session) = record {
    success = true;
    message = format ("Recovery mode enabled (reason: " ∷ session.reason ∷ ")" ∷ []);
    expires_at = to_rfc3339 session.expires_at;
  }
  recovery_response (err e) = record { success = false; message = e; expires_at = "" }

  unfoldable pub enable_recovery_rpc :
      Env
      → EnableDebugModeRequest
      → DiagnosticsManager
      → EnableRecoveryModeResponse × DiagnosticsManager
  enable_recovery_rpc env req m =
      let (r, after) = enable_recovery_mode to_rfc3339 env req.duration_secs req.reason m in
      (recovery_response r, after)

-- `created_at` is the time behind the call.
abbrev dump_response : String → Result (String × ℕ) String → CollectCrashDumpResponse
dump_response created_at (ok (path, size)) = record {
  success = true;
  message = "Crash dump collected successfully";
  dump_path = path;
  dump_size_bytes = size;
  created_at = created_at;
}
dump_response created_at (err e) = record {
  success = false;
  message = format ("Failed to collect crash dump: " ∷ e ∷ []);
  dump_path = "";
  dump_size_bytes = 0;
  created_at = "";
}

unfoldable pub collect_crash_dump_rpc :
    Bool → Bool → String → Sources → Dict String → CollectCrashDumpResponse × Dict String
collect_crash_dump_rpc include_kernel include_userspace created_at env files =
    let (after, r) = collect_crash_dump include_kernel include_userspace env files in
    (dump_response created_at r, after)

abbrev snapshot_response :
    String → Result (String × String × ℕ) String → CreateSystemSnapshotResponse
snapshot_response created_at (ok (id, path, size)) = record {
  success = true;
  message = "System snapshot created successfully";
  snapshot_id = id;
  snapshot_path = path;
  size_bytes = size;
  created_at = created_at;
}
snapshot_response created_at (err e) = record {
  success = false;
  message = format ("Failed to create snapshot: " ∷ e ∷ []);
  snapshot_id = "";
  snapshot_path = "";
  size_bytes = 0;
  created_at = "";
}

unfoldable pub create_system_snapshot_rpc :
    String
    → Bool
    → Bool
    → String
    → Sources
    → Dict String
    → CreateSystemSnapshotResponse × Dict String
create_system_snapshot_rpc label include_config include_logs created_at env files =
    let (after, r) = create_system_snapshot label include_config include_logs env files in
    (snapshot_response created_at r, after)

abbrev analysis_response :
    Result (String × List CrashFinding × String) String → AnalyzeCrashDumpResponse
analysis_response (ok (severity, findings, summary)) = record {
  success = true;
  message = "Crash dump analyzed successfully";
  severity = severity;
  findings = findings;
  summary = summary;
}
analysis_response (err e) = record {
  success = false;
  message = format ("Failed to analyze crash dump: " ∷ e ∷ []);
  severity = "";
  findings = [];
  summary = "";
}

unfoldable pub analyze_crash_dump_rpc : String → Io String → AnalyzeCrashDumpResponse
analyze_crash_dump_rpc dump_path content = analysis_response (analyze_crash_dump dump_path content)
