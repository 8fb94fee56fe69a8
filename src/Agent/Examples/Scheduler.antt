-- ===== src/Agent/Examples/Scheduler.antt =====
-- The theorems about the scheduler at concrete schedules.
use keelos.Prelude.{
  ℕ, ◌≡◌, refl, arith, String, str_eq, if◌then◌else◌, Bool, true, false, not, ◌&&◌, is_some, Option,
  none, some, [], ◌∷◌, Result, ok, err, ◌==◌, eq_iff, inl, inr, Bool-cases,
}
use keelos.Prelude.Dict.{Dict, get, modify}
use keelos.Agent.Scheduler.{
  ScheduleStatus, completed, UpdateSchedule, UpdateScheduler, Env, Codec, ScheduleRequest,
  new_schedule, get_latest_active_schedule,
}
use keelos.Agent.Scheduler.Writes.{cancel_schedule, load_schedules}
use keelos.Agent.Scheduler.Durable.{Op, IsFaithful, IsStored, run, run-IsStored}

abbrev request : Option ℕ → ScheduleRequest
request at = record {
  source_url = "http://os/image";
  expected_sha256 = some "ab12";
  scheduled_at = at;
  maintenance_window_secs = some 60;
  enable_auto_rollback = true;
  health_check_timeout_secs = none;
  pre_update_hook = none;
  post_update_hook = none;
  is_delta = false;
  fallback_to_full = false;
  full_image_url = none;
}

abbrev schedule : UpdateSchedule
schedule = new_schedule (request (some 100)) "s1" 50

abbrev started : UpdateSchedule
started = record (new_schedule (request (some 10)) "s0" 5) {
  status = completed;
  started_at = some 20;
}

abbrev unplanned : UpdateSchedule
unplanned = new_schedule (request none) "s2" 60

abbrev older : UpdateSchedule
older = record (new_schedule (request (some 1)) "s3" 0) { status = completed; started_at = some 3 }

abbrev scheduler : UpdateScheduler
scheduler = record {
  schedules = ("s0", started) ∷ ("s1", schedule) ∷ ("s2", unplanned) ∷ ("s3", older) ∷ [];
  file = none;
}

is_latest : get_latest_active_schedule scheduler ≡ some started
unfolding get_latest_active_schedule new_schedule
is_latest = refl

-- A text form for the one map that holds one cancelled schedule with nothing optional.
abbrev plain : ScheduleStatus → UpdateSchedule
plain st = record {
  id = "s1";
  source_url = "u";
  expected_sha256 = none;
  scheduled_at = none;
  maintenance_window_secs = none;
  enable_auto_rollback = false;
  pre_update_hook = none;
  post_update_hook = none;
  health_check_timeout_secs = none;
  is_delta = false;
  fallback_to_full = false;
  full_image_url = none;
  rollback_triggered = false;
  rollback_reason = none;
  status = st;
  created_at = 0;
  started_at = none;
  completed_at = none;
  error_message = none;
}

abbrev status_text : ScheduleStatus → String
status_text ScheduleStatus.pending = "pending"
status_text ScheduleStatus.running = "running"
status_text ScheduleStatus.completed = "completed"
status_text ScheduleStatus.failed = "failed"
status_text ScheduleStatus.cancelled = "cancelled"
status_text ScheduleStatus.rolled_back = "rolled_back"

abbrev is_plain : UpdateSchedule → Bool
is_plain s =
    str_eq s.id "s1"
    && str_eq s.source_url "u"
    && not (is_some s.expected_sha256)
    && not (is_some s.scheduled_at)
    && not (is_some s.maintenance_window_secs)
    && not s.enable_auto_rollback
    && not (is_some s.pre_update_hook)
    && not (is_some s.post_update_hook)
    && not (is_some s.health_check_timeout_secs)
    && not s.is_delta
    && not s.fallback_to_full
    && not (is_some s.full_image_url)
    && not s.rollback_triggered
    && not (is_some s.rollback_reason)
    && (s.created_at == 0)
    && not (is_some s.started_at)
    && not (is_some s.completed_at)
    && not (is_some s.error_message)

plain-is_plain : (s : UpdateSchedule) → is_plain s ≡ true → s ≡ plain s.status
plain-is_plain s h = ground (arith, eq_iff s.id "s1", eq_iff s.source_url "u")

abbrev text_of : Dict UpdateSchedule → Result String String
text_of ((k, s) ∷ []) =
    if str_eq k "s1" && is_plain s then ok (status_text s.status) else err "unsupported"
text_of _ = err "unsupported"

abbrev status_of : String → ScheduleStatus
status_of t =
    if str_eq t "pending"
    then ScheduleStatus.pending
    else if str_eq t "running"
    then ScheduleStatus.running
    else if str_eq t "completed"
    then ScheduleStatus.completed
    else if str_eq t "failed"
    then ScheduleStatus.failed
    else if str_eq t "cancelled"
    then ScheduleStatus.cancelled
    else ScheduleStatus.rolled_back

abbrev codec : Codec
codec = record { to_string = text_of; from_str = λ t. ok (("s1", plain (status_of t)) ∷ []) }

status-text : (st : ScheduleStatus) → status_of (status_text st) ≡ st
status-text ScheduleStatus.pending = refl
status-text ScheduleStatus.running = refl
status-text ScheduleStatus.completed = refl
status-text ScheduleStatus.failed = refl
status-text ScheduleStatus.cancelled = refl
status-text ScheduleStatus.rolled_back = refl

codec-IsFaithful : IsFaithful codec
codec-IsFaithful [] t h = absurd (ground arith)
codec-IsFaithful (a ∷ b ∷ m) t h = absurd (ground arith)
codec-IsFaithful ((k, s) ∷ []) t h = elim (Bool-cases (str_eq k "s1" && is_plain s)) [
  | inl e ↦ ground (arith, e, eq_iff k "s1", plain-is_plain s, status-text s.status)
  | inr e ↦ absurd (ground (arith, e))
]

abbrev stored : ScheduleStatus → UpdateScheduler
stored st = record { schedules = ("s1", plain st) ∷ []; file = some (status_text st) }

abbrev env : Env
env = record { now = 70; write_fault = none }

stored-IsStored : IsStored codec (stored ScheduleStatus.pending)
unfolding load_schedules
stored-IsStored = refl

ran :
    run codec (Op.cancel "s1") env (stored ScheduleStatus.pending)
    ≡ (stored ScheduleStatus.cancelled, ok tt)
unfolding cancel_schedule get modify
ran = refl

run-IsStored_example : IsStored codec (stored ScheduleStatus.cancelled)
run-IsStored_example =
    run-IsStored codec (Op.cancel "s1") env (stored ScheduleStatus.pending)
      (stored ScheduleStatus.cancelled) codec-IsFaithful stored-IsStored ran

found : get "s1" scheduler.schedules ≡ some schedule
unfolding get
found = refl
