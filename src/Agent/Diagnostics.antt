-- ===== src/Agent/Diagnostics.antt =====
-- cmd/keel-agent/src/diagnostics.rs: the sessions of the debug mode and of the recovery mode. The
-- text form of a time is a parameter.
pub mod Laws
pub mod Crash
pub mod Dumps
pub mod Rpc
use keelos.Prelude.{
  ℕ, ◌+◌, ◌*◌, ◌==◌, ltb, if◌then◌else◌, String, format, Option, none, some, List, [], ◌∷◌, Result,
  ok, err,
}

abbrev pub max_session_duration_secs : ℕ
max_session_duration_secs = 3600

abbrev pub default_session_duration_secs : ℕ
default_session_duration_secs = 900

pub record DebugSession : Type 0 where
  pub session_id : String
  pub reason : String
  pub expires_at : ℕ

pub record RecoverySession : Type 0 where
  pub reason : String
  pub expires_at : ℕ

pub record DiagnosticsManager : Type 0 where
  pub debug_session : Option DebugSession
  pub recovery_session : Option RecoverySession

abbrev pub new : DiagnosticsManager
new = record { debug_session = none; recovery_session = none }

-- What a call reads: the time of the check, the time at which the session starts, a fresh UUID.
pub record Env : Type 0 where
  pub checked_at : ℕ
  pub started_at : ℕ
  pub uuid : String

unfoldable pub clamp_duration : ℕ → ℕ
clamp_duration duration_secs =
    if duration_secs == 0
    then default_session_duration_secs
    else if ltb max_session_duration_secs duration_secs
    then max_session_duration_secs
    else duration_secs

-- `Utc::now() + Duration::seconds(..)`, in nanoseconds.
abbrev pub expiry : Env → ℕ → ℕ
expiry env duration_secs = env.started_at + clamp_duration duration_secs * 1000000000

abbrev pub new_debug : Env → ℕ → String → DebugSession
new_debug env duration_secs reason = record {
  session_id = env.uuid;
  reason = reason;
  expires_at = expiry env duration_secs;
}

abbrev new_recovery : Env → ℕ → String → RecoverySession
new_recovery env duration_secs reason = record {
  reason = reason;
  expires_at = expiry env duration_secs;
}

abbrev pub start_debug :
    Env → ℕ → String → DiagnosticsManager → Result DebugSession String × DiagnosticsManager
start_debug env duration_secs reason m =
    let new_session = new_debug env duration_secs reason in
    (ok new_session, record m { debug_session = some new_session })

abbrev start_recovery :
    Env → ℕ → String → DiagnosticsManager → Result RecoverySession String × DiagnosticsManager
start_recovery env duration_secs reason m =
    let new_session = new_recovery env duration_secs reason in
    (ok new_session, record m { recovery_session = some new_session })

abbrev pub debug_unless :
    (ℕ → String)
    → Option DebugSession
    → Env
    → ℕ
    → String
    → DiagnosticsManager
    → Result DebugSession String × DiagnosticsManager
debug_unless to_rfc3339 none env duration_secs reason m = start_debug env duration_secs reason m
debug_unless to_rfc3339 (some existing) env duration_secs reason m =
    if ltb env.checked_at existing.expires_at
    then (
      err (
          format (
            "Debug mode already active (session: "
            ∷ existing.session_id
            ∷ ", expires: "
            ∷ to_rfc3339 existing.expires_at
            ∷ ")"
            ∷ [])),
      m,
    )
    else start_debug env duration_secs reason m

abbrev recovery_unless :
    (ℕ → String)
    → Option RecoverySession
    → Env
    → ℕ
    → String
    → DiagnosticsManager
    → Result RecoverySession String × DiagnosticsManager
recovery_unless to_rfc3339 none env duration_secs reason m =
    start_recovery env duration_secs reason m
recovery_unless to_rfc3339 (some existing) env duration_secs reason m =
    if ltb env.checked_at existing.expires_at
    then (
      err (
          format (
            "Recovery mode already active (expires: " ∷ to_rfc3339 existing.expires_at ∷ ")" ∷ [])),
      m,
    )
    else start_recovery env duration_secs reason m

unfoldable pub enable_debug_mode :
    (ℕ → String)
    → Env
    → ℕ
    → String
    → DiagnosticsManager
    → Result DebugSession String × DiagnosticsManager
enable_debug_mode to_rfc3339 env duration_secs reason m =
    debug_unless to_rfc3339 m.debug_session env duration_secs reason m

unfoldable pub enable_recovery_mode :
    (ℕ → String)
    → Env
    → ℕ
    → String
    → DiagnosticsManager
    → Result RecoverySession String × DiagnosticsManager
enable_recovery_mode to_rfc3339 env duration_secs reason m =
    recovery_unless to_rfc3339 m.recovery_session env duration_secs reason m

abbrev unexpired : ℕ → Option DebugSession → Option DebugSession
unexpired now none = none
unexpired now (some s) = if ltb now s.expires_at then some s else none

unfoldable pub get_debug_status : ℕ → DiagnosticsManager → Option DebugSession
get_debug_status now m = unexpired now m.debug_session
