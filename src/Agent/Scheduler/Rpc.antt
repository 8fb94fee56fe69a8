-- ===== src/Agent/Scheduler/Rpc.antt =====
-- cmd/keel-agent/src/lib.rs: the RPCs about schedules, behind their authorisation. `DateTime` as
-- a text (chrono) is a parameter; a time is a number of nanoseconds.
pub mod Laws
use keelos.Prelude.{
  ℕ, ltb, if◌then◌else◌, String, is_empty, format, Bool, true, false, Option, none, some, List, [],
  ◌∷◌, map, keep, unwrap_or, Result, ok, err, ◌>>=◌,
}
use keelos.Prelude.Dict.{values}
use keelos.Agent.Status.{Status, internal, invalid_argument}
use keelos.Agent.Scheduler.{
  UpdateSchedule, UpdateScheduler, Env, Codec, Outcome, ScheduleRequest, status_name,
}
use keelos.Agent.Scheduler.Writes.{schedule_update, cancel_schedule}

-- `DateTime::parse_from_rfc3339` and `to_rfc3339`.
pub record Times : Type 0 where
  pub parse : String → Result ℕ String
  pub print : ℕ → String

pub record ScheduleUpdateRequest : Type 0 where
  pub source_url : String
  pub expected_sha256 : String
  pub scheduled_at : String
  pub maintenance_window_secs : ℕ
  pub enable_auto_rollback : Bool
  pub health_check_timeout_secs : ℕ
  pub pre_update_hook : String
  pub post_update_hook : String
  pub is_delta : Bool
  pub fallback_to_full : Bool
  pub full_image_url : String

pub record ScheduleUpdateResponse : Type 0 where
  pub schedule_id : String
  pub status : String
  pub scheduled_at : String

pub record ProtoUpdateSchedule : Type 0 where
  pub id : String
  pub source_url : String
  pub expected_sha256 : String
  pub scheduled_at : String
  pub status : String
  pub enable_auto_rollback : Bool
  pub created_at : String

pub record CancelScheduledUpdateResponse : Type 0 where
  pub success : Bool
  pub message : String

pub record RollbackEvent : Type 0 where
  pub timestamp : String
  pub reason : String
  pub from_partition : String
  pub to_partition : String
  pub automatic : Bool

abbrev pub non_empty : String → Option String
non_empty s = if is_empty s then none else some s

abbrev pub positive : ℕ → Option ℕ
positive n = if ltb 0 n then some n else none

module _ (t : Times) where
  abbrev pub time_text : Option ℕ → String
  time_text none = ""
  time_text (some at) = t.print at

  abbrev pub parsed : Result ℕ String → Result (Option ℕ) Status
  parsed (ok at) = ok (some at)
  parsed (err e) =
      err (record { code = invalid_argument; message = format ("Invalid scheduled_at: " ∷ e ∷ []) })

  unfoldable pub parse_scheduled_at : String → Result (Option ℕ) Status
  parse_scheduled_at text = if is_empty text then ok none else parsed (t.parse text)

  -- The arguments that the handler passes to the scheduler.
  abbrev pub request_of : ScheduleUpdateRequest → Option ℕ → ScheduleRequest
  request_of req at = record {
    source_url = req.source_url;
    expected_sha256 = non_empty req.expected_sha256;
    scheduled_at = at;
    maintenance_window_secs = positive req.maintenance_window_secs;
    enable_auto_rollback = req.enable_auto_rollback;
    health_check_timeout_secs = positive req.health_check_timeout_secs;
    pre_update_hook = non_empty req.pre_update_hook;
    post_update_hook = non_empty req.post_update_hook;
    is_delta = req.is_delta;
    fallback_to_full = req.fallback_to_full;
    full_image_url = non_empty req.full_image_url;
  }

  abbrev pub scheduled :
      UpdateScheduler × Result UpdateSchedule String
      → UpdateScheduler × Result ScheduleUpdateResponse Status
  unfolding status_name
  scheduled (u, ok s) = (
    u,
    ok (record {
      schedule_id = s.id;
      status = status_name s.status;
      scheduled_at = time_text s.scheduled_at;
    }),
  )
  scheduled (u, err e) = (
    u,
    err (record { code = internal; message = format ("Failed to schedule update: " ∷ e ∷ []) }),
  )

  abbrev pub schedule_at :
      Codec
      → ScheduleUpdateRequest
      → String
      → Env
      → Result (Option ℕ) Status
      → UpdateScheduler
      → UpdateScheduler × Result ScheduleUpdateResponse Status
  unfolding schedule_update scheduled
  schedule_at j req id env (ok at) u = scheduled (schedule_update j (request_of req at) id env u)
  schedule_at j req id env (err e) u = (u, err e)

  -- `schedule_update` of the service; `id` is the new UUID.
  unfoldable pub schedule_rpc :
      Codec
      → ScheduleUpdateRequest
      → String
      → Env
      → UpdateScheduler
      → UpdateScheduler × Result ScheduleUpdateResponse Status
  unfolding schedule_at parse_scheduled_at
  schedule_rpc j req id env u = schedule_at j req id env (parse_scheduled_at req.scheduled_at) u

  abbrev pub proto_of : UpdateSchedule → ProtoUpdateSchedule
  unfolding status_name
  proto_of s = record {
    id = s.id;
    source_url = s.source_url;
    expected_sha256 = unwrap_or s.expected_sha256 "";
    scheduled_at = time_text s.scheduled_at;
    status = status_name s.status;
    enable_auto_rollback = s.enable_auto_rollback;
    created_at = t.print s.created_at;
  }

  unfoldable pub get_update_schedule : UpdateScheduler → List ProtoUpdateSchedule
  unfolding proto_of
  get_update_schedule u = map proto_of (values u.schedules)

  abbrev pub event_of : UpdateSchedule → RollbackEvent
  event_of s = record {
    timestamp = time_text s.completed_at;
    reason = unwrap_or s.rollback_reason "Unknown";
    from_partition = "unknown";
    to_partition = "unknown";
    automatic = s.enable_auto_rollback;
  }

  unfoldable pub get_rollback_history : UpdateScheduler → List RollbackEvent
  get_rollback_history u = map event_of (keep (λ s. s.rollback_triggered) (values u.schedules))

abbrev pub cancelled_response : Outcome → UpdateScheduler × CancelScheduledUpdateResponse
cancelled_response (u, ok _) =
    (u, record { success = true; message = "Update cancelled successfully" })
cancelled_response (u, err e) = (u, record { success = false; message = e })

unfoldable pub cancel_scheduled_update :
    Codec → String → Env → UpdateScheduler → UpdateScheduler × CancelScheduledUpdateResponse
unfolding cancel_schedule
cancel_scheduled_update j id env u = cancelled_response (cancel_schedule j id env u)
