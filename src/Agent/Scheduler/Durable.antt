-- ===== src/Agent/Scheduler/Durable.antt =====
-- The file after a successful write is the map in memory.
use keelos.Prelude.{
  ◌≡◌, arith, inl, inr, String, Option, Option-cases, Result, Result-cases, ok, err,
}
use keelos.Prelude.Dict.{Dict, get, put, modify}
use keelos.Agent.Scheduler.{
  ScheduleStatus, UpdateSchedule, UpdateScheduler, Env, Codec, ScheduleRequest, new_schedule,
  get_latest_active_schedule,
}
use keelos.Agent.Scheduler.Writes
use keelos.Agent.Scheduler.Writes.{
  with_map, roll_back, persist_schedules, schedule_update, cancel_schedule, update_status,
  trigger_rollback, register_rollback, load_schedules,
}

-- What `serde_json` promises of the derived instances: reading gives back what was written.
abbrev pub IsFaithful : Codec → Type 0
IsFaithful j = (m : Dict UpdateSchedule) (s : String) → j.to_string m ≡ ok s → j.from_str s ≡ ok m

-- The operations that change the map, but for the one that returns the new schedule.
pub data Op : Type 0 where
  schedule : ScheduleRequest → String → Op
  cancel : String → Op
  set_status : String → ScheduleStatus → Option String → Op
  rollback : String → String → Op
  register : String → Op

abbrev pub is_ok {ℓ} : {A : Type ℓ} → Result A String → Result (Unit {0}) String
is_ok (ok a) = ok tt
is_ok (err e) = err e

module _ (j : Codec) where
  abbrev pub run : Op → Env → UpdateScheduler → UpdateScheduler × Result (Unit {0}) String
  run (schedule r id) env u = let (u', result) = schedule_update j r id env u in (u', is_ok result)
  run (cancel id) env u = cancel_schedule j id env u
  run (set_status id st e) env u = update_status j id st e env u
  run (rollback id reason) env u = trigger_rollback j id reason env u
  run (register reason) env u = register_rollback j reason env u

  -- The file holds the map, as far as a restart can see.
  abbrev pub IsStored : UpdateScheduler → Type 0
  IsStored u = load_schedules j u.file ≡ u.schedules

  persist-IsStored :
      (env : Env) (u u' : UpdateScheduler)
      → IsFaithful j
      → persist_schedules j env u ≡ (u', ok tt)
      → IsStored u'
  unfolding persist_schedules load_schedules
  persist-IsStored env u u' law h = elim (Result-cases (j.to_string u.schedules)) [
    | inl (s, e) ↦ ground (arith, law u.schedules s e)
    | inr (x, e) ↦ ground arith
  ]

  -- After any operation that returns `Ok`, a restart loads the map that is in memory, if the file
  -- held the map before and `serde_json` reads back what it writes.
  pub run-IsStored :
      (op : Op) (env : Env) (u u' : UpdateScheduler)
      → IsFaithful j
      → IsStored u
      → run op env u ≡ (u', ok tt)
      → IsStored u'
  unfolding schedule_update cancel_schedule update_status trigger_rollback register_rollback
  run-IsStored (schedule r id) env u u' law old h =
      let m = put id (new_schedule r id env.now) u.schedules in
      persist-IsStored env (with_map m u) u' law (ground arith)
  run-IsStored (cancel id) env u u' law old h = elim (Option-cases (get id u.schedules)) [
    | inl e ↦ ground arith
    | inr (s, e) ↦
        persist-IsStored env (with_map (modify id Writes.cancel u.schedules) u) u' law
          (ground arith)
  ]
  run-IsStored (set_status id st x) env u u' law old h = elim (Option-cases (get id u.schedules)) [
    | inl e ↦ ground arith
    | inr (s, e) ↦
        let m = modify id (Writes.set_status st x env.now) u.schedules in
        persist-IsStored env (with_map m u) u' law (ground arith)
  ]
  run-IsStored (rollback id reason) env u u' law old h = elim (Option-cases (get id u.schedules)) [
    | inl e ↦ ground arith
    | inr (s, e) ↦
        let m = modify id (roll_back reason env.now) u.schedules in
        persist-IsStored env (with_map m u) u' law (ground arith)
  ]
  run-IsStored (register reason) env u u' law old h =
      elim (Option-cases (get_latest_active_schedule u)) [
        | inl e ↦ ground arith
        | inr (s, e) ↦
            let m = modify s.id (roll_back reason env.now) u.schedules in
            persist-IsStored env (with_map m u) u' law (ground arith)
      ]
