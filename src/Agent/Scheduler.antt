-- ===== src/Agent/Scheduler.antt =====
-- cmd/keel-agent/src/update_scheduler.rs: the schedules and their storage. Each method holds the
-- lock of the map while it changes it, so it is one step. A time is a number of nanoseconds since
-- the epoch; `Utc::now()`, the new id and the faults of the disk are what a call is given.
pub mod Writes
pub mod Queries
pub mod Durable
pub mod Lifecycle
pub mod Rpc
use keelos.Prelude.{
  ℕ, ◌+◌, ◌*◌, leb, ◌==◌, if◌then◌else◌, String, format, Bool, true, false, ◌&&◌, Option, none,
  some, List, [], ◌∷◌, keep, Result, ok, err, unwrap_or,
}
use keelos.Prelude.Dict.{Dict, get, put, modify, values}

pub data ScheduleStatus : Type 0 where
  pending running completed failed cancelled rolled_back : ScheduleStatus

pub record UpdateSchedule : Type 0 where
  pub id : String
  pub source_url : String
  pub expected_sha256 : Option String
  pub scheduled_at : Option ℕ
  pub maintenance_window_secs : Option ℕ  -- u32
  pub enable_auto_rollback : Bool
  pub pre_update_hook : Option String
  pub post_update_hook : Option String
  pub health_check_timeout_secs : Option ℕ  -- u32
  pub is_delta : Bool
  pub fallback_to_full : Bool
  pub full_image_url : Option String
  pub rollback_triggered : Bool
  pub rollback_reason : Option String
  pub status : ScheduleStatus
  pub created_at : ℕ
  pub started_at : Option ℕ
  pub completed_at : Option ℕ
  pub error_message : Option String

-- `Display for ScheduleStatus`.
unfoldable pub status_name : ScheduleStatus → String
status_name pending = "pending"
status_name running = "running"
status_name completed = "completed"
status_name failed = "failed"
status_name cancelled = "cancelled"
status_name rolled_back = "rolled_back"

-- The map in memory, and the file at the storage path.
pub record UpdateScheduler : Type 0 where
  pub schedules : Dict UpdateSchedule
  pub file : Option String

-- What a call finds: the time, and the fault of a write with what it leaves in the file.
pub record Env : Type 0 where
  pub now : ℕ
  pub write_fault : Option (String × Option String)

-- `serde_json` at the type of the map.
pub record Codec : Type 0 where
  pub to_string : Dict UpdateSchedule → Result String String
  pub from_str : String → Result (Dict UpdateSchedule) String

abbrev pub Outcome : Type 0
Outcome = UpdateScheduler × Result (Unit {0}) String

-- The arguments of `schedule_update`.
pub record ScheduleRequest : Type 0 where
  pub source_url : String
  pub expected_sha256 : Option String
  pub scheduled_at : Option ℕ
  pub maintenance_window_secs : Option ℕ
  pub enable_auto_rollback : Bool
  pub health_check_timeout_secs : Option ℕ
  pub pre_update_hook : Option String
  pub post_update_hook : Option String
  pub is_delta : Bool
  pub fallback_to_full : Bool
  pub full_image_url : Option String

unfoldable pub new_schedule : ScheduleRequest → String → ℕ → UpdateSchedule
new_schedule r id now = record {
  id = id;
  source_url = r.source_url;
  expected_sha256 = r.expected_sha256;
  scheduled_at = r.scheduled_at;
  maintenance_window_secs = r.maintenance_window_secs;
  enable_auto_rollback = r.enable_auto_rollback;
  pre_update_hook = r.pre_update_hook;
  post_update_hook = r.post_update_hook;
  health_check_timeout_secs = r.health_check_timeout_secs;
  is_delta = r.is_delta;
  fallback_to_full = r.fallback_to_full;
  full_image_url = r.full_image_url;
  rollback_triggered = false;
  rollback_reason = none;
  status = pending;
  created_at = now;
  started_at = none;
  completed_at = none;
  error_message = none;
}

-- The filter of `register_rollback` and `get_latest_active_schedule`.
abbrev pub is_active : UpdateSchedule → Bool
is_active s = elim s.status [ completed ↦ true | running ↦ true | _ ↦ false ]

-- The order of `Option<DateTime<Utc>>`: `None` is the least.
abbrev pub leq_time : Option ℕ → Option ℕ → Bool
leq_time none b = true
leq_time (some a) none = false
leq_time (some a) (some b) = leb a b

-- `max_by_key(|s| s.started_at)`: of equal keys the last.
unfoldable pub max_by_start : UpdateSchedule → List UpdateSchedule → UpdateSchedule
max_by_start best [] = best
max_by_start best (s ∷ rest) =
    max_by_start (if leq_time best.started_at s.started_at then s else best) rest

unfoldable pub latest : List UpdateSchedule → Option UpdateSchedule
unfolding max_by_start
latest [] = none
latest (s ∷ rest) = some (max_by_start s rest)

unfoldable pub get_latest_active_schedule : UpdateScheduler → Option UpdateSchedule
unfolding latest
get_latest_active_schedule u = latest (keep is_active (values u.schedules))

abbrev pub nanos_per_sec : ℕ
nanos_per_sec = 1000000000

-- The branches behind the two `let … else`.
unfoldable pub within : ℕ → Option ℕ → Option ℕ → Bool
within now none window = true
within now (some at) none = true
within now (some at) (some secs) = if secs == 0 then true else leb now (at + secs * nanos_per_sec)

unfoldable pub is_within_maintenance_window : ℕ → UpdateSchedule → Bool
unfolding within
is_within_maintenance_window now s = within now s.scheduled_at s.maintenance_window_secs

abbrev pub is_due : ℕ → UpdateSchedule → Bool
is_due now s = elim s.status [
  | pending ↦ elim s.scheduled_at [ none ↦ false | some at ↦ leb at now ]
  | _ ↦ false
]

unfoldable pub get_due_schedules : ℕ → UpdateScheduler → List UpdateSchedule
get_due_schedules now u = keep (is_due now) (values u.schedules)

unfoldable pub get_schedule : String → UpdateScheduler → Option UpdateSchedule
get_schedule id u = get id u.schedules
