-- ===== src/Agent/Executor/Requests.antt =====
-- What becomes of a client's request in the executor of cmd/keel-agent/src/main.rs.
use keelos.Prelude.{
  ℕ, suc, ◌+◌, ◌*◌, ◌≡◌, ◌≤◌, ◌<◌, ◌⊎◌, inl, inr, refl, ◌∙◌, ap, arith, Bool-cases, String, true,
  some, List, [], ◌∷◌, ◌++◌, length, In, ok,
}
use keelos.Agent.Scheduler
use keelos.Agent.Scheduler.{
  UpdateSchedule, UpdateScheduler, is_within_maintenance_window, get_due_schedules, new_schedule,
}
use keelos.Agent.Scheduler.Rpc.{
  Times, ScheduleUpdateRequest, parse_scheduled_at, request_of, schedule_rpc,
}
use keelos.Agent.Scheduler.Rpc.Laws.{schedule_rpc-due}
use keelos.Agent.Executor.{
  Env, World, Phase, asleep, queue, executing, Event, step, call, advance, start, tick, request,
  happen, history,
}

-- The steps that are left of a round.
abbrev pub left : Phase → ℕ
left asleep = 0
left (queue l) = 1 + 2 * length l
left (executing s l) = 2 + 2 * length l

-- A schedule that is still to be taken in this round.
abbrev Waits : UpdateSchedule → Phase → Type 0
Waits s asleep = ⊥
Waits s (queue l) = In s l
Waits s (executing x l) = In s l

-- The next step takes the schedule.
abbrev pub IsNext : UpdateSchedule → Phase → Type 0
IsNext s p = (rest : List UpdateSchedule) × (p ≡ queue (s ∷ rest))

module _ (j : Scheduler.Codec) where
  abbrev pub steps : List (Event j) → ℕ
  steps [] = 0
  steps (step env e ∷ rest) = suc (steps rest)
  steps (call op e ∷ rest) = steps rest

  -- A step of a round in which the schedule waits.
  advance-Waits :
      (env : Env) (e : Scheduler.Env) (s : UpdateSchedule) (p : Phase) (w : World)
      → Waits s p
      → IsNext s p
        ⊎ (Waits s (advance j env e p w).phase × (left (advance j env e p w).phase < left p))
  unfolding advance start
  advance-Waits env e s asleep w h = absurd h
  advance-Waits env e s (queue []) w h = absurd h
  advance-Waits env e s (queue (x ∷ rest)) w (inl k) = inl (rest, ap (λ y. queue (y ∷ rest)) k)
  advance-Waits env e s (queue (x ∷ rest)) w (inr m) =
      elim (Bool-cases (is_within_maintenance_window e.now x)) [
        | inl b ↦ inr (rw (start, b) (m, omega arith))
        | inr b ↦ inr (rw (start, b) (m, omega arith))
      ]
  advance-Waits env e s (executing x rest) w m = inr (m, omega arith)

  has_left : (s : UpdateSchedule) (p : Phase) → Waits s p → 0 < left p
  has_left s asleep h = absurd h
  has_left s (queue l) h = omega arith
  has_left s (executing x l) h = omega arith

  -- In a history with as many steps as are left of the round, its turn comes.
  turn_comes :
      (s : UpdateSchedule) (events : List (Event j)) (w : World)
      → Waits s w.phase
      → left w.phase ≤ steps events
      → (before : List (Event j)) × (after : List (Event j)) × (events ≡ before ++ after)
        × IsNext s (history j before w).phase
  unfolding history happen tick request
  turn_comes s [] w h k = absurd (omega (arith, k, has_left s w.phase h))
  turn_comes s (step env e ∷ rest) w h k = elim (advance-Waits env e s w.phase w h) [
    | inl n ↦ ([], step env e ∷ rest, refl, n)
    | inr (m, d) ↦
        let (before, after, p, q) = turn_comes s rest (tick j env e w) m (omega (arith, k, d)) in
        (step env e ∷ before, after, ap (λ l. step env e ∷ l) p, q)
  ]
  turn_comes s (call op e ∷ rest) w h k =
      let (before, after, p, q) = turn_comes s rest (request j op e w) h k in
      (call op e ∷ before, after, ap (λ l. call op e ∷ l) p, q)

  takes :
      (env : Env) (e : Scheduler.Env) (s : UpdateSchedule) (rest : List UpdateSchedule) (w : World)
      → w.phase ≡ queue (s ∷ rest)
      → is_within_maintenance_window e.now s ≡ true
      → (tick j env e w).phase ≡ executing s rest
  unfolding tick advance
  takes env e s rest w p v = ap (λ (q : Phase). (advance j env e q w).phase) p ∙ rw (start, v) refl

  -- A request to schedule an update, whose time can be read, has its turn in the executor whatever
  -- it is answered, also if the answer is that the schedules could not be stored. If the executor
  -- is asleep and its next step is at the requested time or later, there is, in each history with
  -- enough further steps and with any requests between them, a moment at which the schedule heads
  -- the queue, and from which a step within the maintenance window executes it.
  pub requested_has_turn :
      (t : Times) (req : ScheduleUpdateRequest) (id : String) (f e g : Scheduler.Env)
      (env env' : Env) (at : ℕ) (events : List (Event j)) (w : World)
      → parse_scheduled_at t req.scheduled_at ≡ ok (some at)
      → at ≤ e.now
      → w.phase ≡ asleep
      → 1 + 2 * length (get_due_schedules e.now (schedule_rpc t j req id f w.scheduler).0)
        ≤ steps events
      → is_within_maintenance_window g.now (new_schedule (request_of t req (some at)) id f.now)
        ≡ true
      → let s = new_schedule (request_of t req (some at)) id f.now in
        let asked = record w { scheduler = (schedule_rpc t j req id f w.scheduler).0 } in
        (before : List (Event j)) × (after : List (Event j)) × (events ≡ before ++ after)
        × ((rest : List UpdateSchedule) × ((history j (step env e ∷ before) asked).phase
              ≡ queue (s ∷ rest))
            × ((tick j env' g (history j (step env e ∷ before) asked)).phase ≡ executing s rest))
  unfolding history happen tick advance
  requested_has_turn t req id f e g env env' at events w h le p k v =
      let s = new_schedule (request_of t req (some at)) id f.now in
      let asked : World = record w { scheduler = (schedule_rpc t j req id f w.scheduler).0 } in
      let due = get_due_schedules e.now asked.scheduler in
      let woken : World = record asked { phase = queue due } in
      let wakes : tick j env e asked ≡ woken = ap (λ (q : Phase). advance j env e q asked) p in
      let m = schedule_rpc-due t j req id f w.scheduler at e.now h le in
      let (before, after, split, (rest, n)) = turn_comes s events woken m k in
      let n' : (history j before (tick j env e asked)).phase ≡ queue (s ∷ rest) =
        ap (λ (x : World). (history j before x).phase) wakes ∙ n in
      (
        before,
        after,
        split,
        (rest, n', takes env' g s rest (history j before (tick j env e asked)) n' v),
      )
