-- ===== src/Agent/Executor/Histories.antt =====
-- What holds over every history of the executor's steps and the clients' requests.
use keelos.Prelude.{
  ◌≡◌, ◌≢◌, sym, eq_iff, ◌∙◌, inl, inr, refl, arith, String, eq_refl, Bool-cases, true, Option,
  none, some, List, [], ◌∷◌, All,
}
use keelos.Prelude.Dict.{get, get-modify}
use keelos.Agent.Scheduler
use keelos.Agent.Scheduler.{
  ScheduleStatus, pending, running, completed, failed, cancelled, UpdateSchedule, UpdateScheduler,
  is_within_maintenance_window,
}
use keelos.Agent.Scheduler.Writes.{cancel, set_status, update_status, cancel_schedule}
use keelos.Agent.Scheduler.Durable.{Op}
use keelos.Agent.Scheduler.Lifecycle.{IsSound, run-IsSound}
use keelos.Agent.Executor.{
  Env, World, Phase, asleep, queue, executing, Event, step, advance, call, start, register, outcome,
  tick, request, happen, history, execute_scheduled_update,
}

module _ (j : Scheduler.Codec) where
  start-IsSound :
      (e : Scheduler.Env) (s : UpdateSchedule) (rest : List UpdateSchedule) (w : World)
      → All IsSound w.scheduler.schedules
      → All IsSound (start j e s rest w).scheduler.schedules
  unfolding start
  start-IsSound e s rest w h = elim (Bool-cases (is_within_maintenance_window e.now s)) [
    | inl b ↦ rw (start, b) (run-IsSound j (Op.set_status s.id running none) e w.scheduler h)
    | inr b ↦
        rw (start, b)
          (run-IsSound j (Op.set_status s.id failed (some "Maintenance window expired")) e
            w.scheduler h)
  ]

  advance-IsSound :
      (env : Env) (e : Scheduler.Env) (p : Phase) (w : World)
      → All IsSound w.scheduler.schedules
      → All IsSound (advance j env e p w).scheduler.schedules
  unfolding advance register
  advance-IsSound env e asleep w h = h
  advance-IsSound env e (queue []) w h = h
  advance-IsSound env e (queue (s ∷ rest)) w h = start-IsSound e s rest w h
  advance-IsSound env e (executing s rest) w h =
      let r = (execute_scheduled_update env s w.machine).1 in
      run-IsSound j (Op.set_status s.id (outcome r).0 (outcome r).1) e w.scheduler h

  -- Every history of steps of the executor and of requests keeps every entry of the map sound.
  pub history-IsSound :
      (events : List (Event j)) (w : World)
      → All IsSound w.scheduler.schedules
      → All IsSound (history j events w).scheduler.schedules
  unfolding history happen request tick
  history-IsSound [] w h = h
  history-IsSound (step env e ∷ rest) w h =
      history-IsSound rest (tick j env e w) (advance-IsSound env e w.phase w h)
  history-IsSound (call op e ∷ rest) w h =
      history-IsSound rest (request j op e w) (run-IsSound j op e w.scheduler h)

  get-update_status :
      (id : String) (st : ScheduleStatus) (x : Option String) (e : Scheduler.Env)
      (u : UpdateScheduler) (c : UpdateSchedule)
      → get id u.schedules ≡ some c
      → get id (update_status j id st x e u).0.schedules ≡ some (set_status st x e.now c)
  unfolding update_status
  get-update_status id st x e u c h =
      ground (arith, get-modify id id (set_status st x e.now) u.schedules, eq_refl id)

  get-cancelled :
      (id : String) (e : Scheduler.Env) (u : UpdateScheduler) (c : UpdateSchedule)
      → get id u.schedules ≡ some c
      → c.status ≡ pending
      → get id (cancel_schedule j id e u).0.schedules ≡ some (cancel c)
  unfolding cancel_schedule
  get-cancelled id e u c h p = ground (arith, get-modify id id cancel u.schedules, eq_refl id)

  get-other_status :
      (id k : String) (st : ScheduleStatus) (x : Option String) (e : Scheduler.Env)
      (u : UpdateScheduler)
      → k ≢ id
      → get k (update_status j id st x e u).0.schedules ≡ get k u.schedules
  unfolding update_status
  get-other_status id k st x e u n = ground (
    arith,
    get-modify id k (set_status st x e.now) u.schedules,
    eq_iff id k,
    (λ (q : id ≡ k). n (sym q)),
  )

  -- A schedule that waits behind one that is being executed, and that a client cancels meanwhile,
  -- is executed all the same: the request cancels it in memory, the first schedule ends, and the
  -- step after that marks the cancelled one as running, provided that its maintenance window is
  -- open then.
  pub cancelled_is_executed :
      (env env' : Env) (e f g : Scheduler.Env) (t s c : UpdateSchedule) (rest : List UpdateSchedule)
      (w : World)
      → w.phase ≡ executing t (s ∷ rest)
      → s.id ≢ t.id
      → get s.id w.scheduler.schedules ≡ some c
      → c.status ≡ pending
      → is_within_maintenance_window g.now s ≡ true
      → (get s.id (history j (call (Op.cancel s.id) e ∷ []) w).scheduler.schedules
          ≡ some (cancel c))
        × (get s.id
              (history j
                (call (Op.cancel s.id) e ∷ step env f ∷ step env' g ∷ [])
                w).scheduler.schedules
            ≡ some (set_status running none g.now (cancel c)))
        × ((history j (call (Op.cancel s.id) e ∷ step env f ∷ step env' g ∷ []) w).phase
            ≡ executing s rest)
  unfolding history happen tick request advance register
  cancelled_is_executed env env' e f g t s c rest w p n found q v =
      let k = get-cancelled s.id e w.scheduler c found q in
      let u = (request j (Op.cancel s.id) e w).scheduler in
      let r = (execute_scheduled_update env t w.machine).1 in
      let l = get-other_status t.id s.id (outcome r).0 (outcome r).1 f u n ∙ k in
      let u' = (update_status j t.id (outcome r).0 (outcome r).1 f u).0 in
      (
        k,
        rw (p, start, v) (get-update_status s.id running none g u' (cancel c) l),
        rw (p, start, v) refl,
      )
