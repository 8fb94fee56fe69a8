-- ===== src/Agent/Scheduler/Rpc/Laws.antt =====
-- What a client's schedule becomes, whatever it is told.
use keelos.Prelude.{
  ℕ, ◌≤◌, ◌≡◌, refl, sym, ap, arith, inl, inr, Bool-cases, String, str_eq, is_empty, is_empty-true,
  Option, some, List, [], ◌∷◌, map, In, Result-cases, ok, unwrap_or,
}
use keelos.Prelude.Dict.{Dict, put, values}
use keelos.Agent.Scheduler.{
  UpdateSchedule, UpdateScheduler, Env, Codec, new_schedule, get_due_schedules, status_name,
}
use keelos.Agent.Scheduler.Queries.{get_due_schedules_iff}
use keelos.Agent.Scheduler.Writes.{schedule_update, persist_schedules}
use keelos.Agent.Scheduler.Rpc.{
  Times, ScheduleUpdateRequest, ScheduleUpdateResponse, ProtoUpdateSchedule, parse_scheduled_at,
  request_of, schedule_rpc, get_update_schedule, proto_of, time_text, non_empty,
}

In-put : (k : String) (v : UpdateSchedule) (m : Dict UpdateSchedule) → In v (values (put k v m))
unfolding put
In-put k v [] = inl refl
In-put k v ((j, w) ∷ m) = elim (Bool-cases (str_eq j k)) [
  | inl e ↦ rw e (inl refl)
  | inr e ↦ rw e (inr (In-put k v m))
]

In-map : {A B : Type 0} (f : A → B) (a : A) (xs : List A) → In a xs → In (f a) (map f xs)
In-map f a [] m = absurd m
In-map f a (x ∷ xs) (inl e) = inl (ap f e)
In-map f a (x ∷ xs) (inr m) = inr (In-map f a xs m)

unwrap-non_empty : (s : String) → unwrap_or (non_empty s) "" ≡ s
unwrap-non_empty s = elim (Bool-cases (is_empty s)) [
  | inl e ↦ rw e (sym (is_empty-true s e))
  | inr e ↦ rw e refl
]

module _ (t : Times) (j : Codec) where
  -- The map after a request whose time could be read, whether or not it could be stored.
  schedule_rpc-schedules :
      (req : ScheduleUpdateRequest) (id : String) (env : Env) (u : UpdateScheduler) (at : Option ℕ)
      → parse_scheduled_at t req.scheduled_at ≡ ok at
      → (schedule_rpc t j req id env u).0.schedules
        ≡ put id (new_schedule (request_of t req at) id env.now) u.schedules
  unfolding schedule_rpc schedule_update persist_schedules
  schedule_rpc-schedules req id env u at h = ground (arith, h)

  -- The schedule of a request whose time could be read is due from that time on, also when the
  -- request is answered with the error that the schedules could not be stored.
  pub schedule_rpc-due :
      (req : ScheduleUpdateRequest) (id : String) (env : Env) (u : UpdateScheduler) (at now : ℕ)
      → parse_scheduled_at t req.scheduled_at ≡ ok (some at)
      → at ≤ now
      → In
          (new_schedule (request_of t req (some at)) id env.now)
          (get_due_schedules now (schedule_rpc t j req id env u).0)
  unfolding new_schedule
  schedule_rpc-due req id env u at now h le =
      let s = new_schedule (request_of t req (some at)) id env.now in
      let after = (schedule_rpc t j req id env u).0 in
      let e = schedule_rpc-schedules req id env u (some at) h in
      (get_due_schedules_iff now after s).1 (rw e (In-put id s u.schedules), (refl, (at, refl, le)))

  schedule_rpc-ok :
      (req : ScheduleUpdateRequest) (id : String) (env : Env) (u : UpdateScheduler)
      (r : ScheduleUpdateResponse)
      → (schedule_rpc t j req id env u).1 ≡ ok r
      → (at : Option ℕ) × (parse_scheduled_at t req.scheduled_at ≡ ok at)
        × (r.schedule_id ≡ id)
        × (r.scheduled_at ≡ time_text t at)
  unfolding schedule_rpc schedule_update persist_schedules new_schedule
  schedule_rpc-ok req id env u r h = elim (Result-cases (parse_scheduled_at t req.scheduled_at)) [
    | inl (at, e) ↦ (at, e, ground (arith, e, h), ground (arith, e, h))
    | inr (x, e) ↦ absurd (ground (arith, e, h))
  ]

  -- A schedule that a client has been promised is listed as it was asked for: under the id of the
  -- answer and with its time, with the source and the digest of the request, and pending.
  pub schedule_rpc-listed :
      (req : ScheduleUpdateRequest) (id : String) (env : Env) (u : UpdateScheduler)
      (r : ScheduleUpdateResponse)
      → (schedule_rpc t j req id env u).1 ≡ ok r
      → (p : ProtoUpdateSchedule) × In p (get_update_schedule t (schedule_rpc t j req id env u).0)
        × (p.id ≡ r.schedule_id)
        × (p.scheduled_at ≡ r.scheduled_at)
        × (p.source_url ≡ req.source_url)
        × (p.expected_sha256 ≡ req.expected_sha256)
        × (p.status ≡ "pending")
  unfolding get_update_schedule new_schedule status_name
  schedule_rpc-listed req id env u r h =
      let (at, e, same_id, same_time) = schedule_rpc-ok req id env u r h in
      let s = new_schedule (request_of t req at) id env.now in
      (
        proto_of t s,
        In-map (proto_of t) s (values (schedule_rpc t j req id env u).0.schedules)
            (rw (schedule_rpc-schedules req id env u at e) (In-put id s u.schedules)),
        sym same_id,
        sym same_time,
        refl,
        unwrap-non_empty req.expected_sha256,
        refl,
      )
