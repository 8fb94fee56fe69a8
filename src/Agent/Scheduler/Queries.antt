-- ===== src/Agent/Scheduler/Queries.antt =====
-- What the queries of the scheduler return.
use keelos.Prelude.{
  ℕ, ◌+◌, ◌*◌, ◌≤◌, ◌<◌, ◌≡◌, ◌↔◌, ◌⊎◌, inl, inr, refl, arith, Bool-cases, true, false, Option,
  Option-cases, none, some, List, [], ◌∷◌, In, In-keep, if◌then◌else◌,
}
use mathlib.Core.Path.{subst}
use keelos.Prelude.Dict.{values}
use keelos.Agent.Scheduler.{
  pending, running, completed, UpdateSchedule, UpdateScheduler, is_active, is_due, leq_time,
  max_by_start, latest, get_latest_active_schedule, get_due_schedules, is_within_maintenance_window,
  nanos_per_sec,
}

abbrev pub IsDue : ℕ → UpdateSchedule → Type 0
IsDue now s = (s.status ≡ pending) × ((at : ℕ) × (s.scheduled_at ≡ some at) × (at ≤ now))

is_due_iff : (now : ℕ) (s : UpdateSchedule) → (is_due now s ≡ true) ↔ IsDue now s
is_due_iff now s = elim (Option-cases s.scheduled_at) [
  | inl e ↦ ((λ h. ground arith), (λ h. let (p, (at, f, le)) = h in ground arith))
  | inr (t, e) ↦
      ((λ h. (ground arith, (t, e, ground arith))), (λ h. let (p, (at, f, le)) = h in ground arith))
]

-- The due schedules are exactly the pending ones with a start time that has come.
pub get_due_schedules_iff :
    (now : ℕ) (u : UpdateScheduler) (s : UpdateSchedule)
    → In s (get_due_schedules now u) ↔ (In s (values u.schedules) × IsDue now s)
unfolding get_due_schedules
get_due_schedules_iff now u s = (
  (λ h.
      let (m, due) = (In-keep (is_due now) (values u.schedules) s).0 h in
      (m, (is_due_iff now s).0 due)),
  (λ h. (In-keep (is_due now) (values u.schedules) s).1 (h.0, (is_due_iff now s).1 h.1)),
)

leq_time_refl : (a : Option ℕ) → leq_time a a ≡ true
leq_time_refl none = refl
leq_time_refl (some a) = ground arith

leq_time_trans :
    (a b c : Option ℕ) → leq_time a b ≡ true → leq_time b c ≡ true → leq_time a c ≡ true
leq_time_trans none b c h k = refl
leq_time_trans (some a) none c h k = cc
leq_time_trans (some a) (some b) none h k = k
leq_time_trans (some a) (some b) (some c) h k = ground arith

leq_time_total : (a b : Option ℕ) → leq_time a b ≡ false → leq_time b a ≡ true
leq_time_total none b h = cc
leq_time_total (some a) none h = refl
leq_time_total (some a) (some b) h = ground arith

-- `s` is an element of the list, and none started after it.
abbrev pub IsLatest : List UpdateSchedule → UpdateSchedule → Type 0
IsLatest l s = In s l × ((t : UpdateSchedule) → In t l → leq_time t.started_at s.started_at ≡ true)

-- The larger of two, in front of a list with its latest element.
IsLatest-cons :
    (a b s : UpdateSchedule) (rest : List UpdateSchedule)
    → IsLatest ((if leq_time a.started_at b.started_at then b else a) ∷ rest) s
    → IsLatest (a ∷ b ∷ rest) s
IsLatest-cons a b s rest h = elim (Bool-cases (leq_time a.started_at b.started_at)) [
  | inl e ↦
      let (m, top) = rw e at h in
      (
        elim m [ inl i ↦ inr (inl i) | inr r ↦ inr (inr r) ],
        λ t k. elim k [
          | inl i ↦
              rw (← i) (leq_time_trans a.started_at b.started_at s.started_at e (top b (inl refl)))
          | inr r ↦ elim r [ inl i ↦ top t (inl i) | inr r' ↦ top t (inr r') ]
        ],
      )
  | inr e ↦
      let (m, top) = rw e at h in
      (
        elim m [ inl i ↦ inl i | inr r ↦ inr (inr r) ],
        λ t k. elim k [
          | inl i ↦ top t (inl i)
          | inr r ↦ elim r [
            | inl i ↦ rw (← i) (
                leq_time_trans b.started_at a.started_at s.started_at
                  (leq_time_total a.started_at b.started_at e) (top a (inl refl)))
            | inr r' ↦ top t (inr r')
          ]
        ],
      )
]

max_by_start-IsLatest :
    (best : UpdateSchedule) (l : List UpdateSchedule) → IsLatest (best ∷ l) (max_by_start best l)
unfolding max_by_start
max_by_start-IsLatest best [] = (
  inl refl,
  λ t k. elim k [ inl i ↦ rw (← i) (leq_time_refl best.started_at) | inr m ↦ absurd m ],
)
max_by_start-IsLatest best (s ∷ rest) =
    IsLatest-cons best s _ rest
      (max_by_start-IsLatest (if leq_time best.started_at s.started_at then s else best) rest)

latest-IsLatest : (l : List UpdateSchedule) (s : UpdateSchedule) → latest l ≡ some s → IsLatest l s
unfolding latest
latest-IsLatest [] s h = cc
latest-IsLatest (a ∷ rest) s h = subst (IsLatest (a ∷ rest)) (cc h) (max_by_start-IsLatest a rest)

abbrev pub IsActive : UpdateSchedule → Type 0
IsActive s = (s.status ≡ completed) ⊎ (s.status ≡ running)

is_active_iff : (s : UpdateSchedule) → (is_active s ≡ true) ↔ IsActive s
is_active_iff s = ((λ h. ground arith), (λ h. ground arith))

-- The latest active schedule is one of the map that is completed or running, and no other such
-- schedule started after it.
pub get_latest_active_schedule_max :
    (u : UpdateScheduler) (s t : UpdateSchedule)
    → get_latest_active_schedule u ≡ some s
    → In t (values u.schedules)
    → IsActive t
    → In s (values u.schedules) × IsActive s × (leq_time t.started_at s.started_at ≡ true)
unfolding get_latest_active_schedule
get_latest_active_schedule_max u s t h k a =
    let (m, top) = latest-IsLatest _ s h in
    let (there, active) = (In-keep is_active (values u.schedules) s).0 m in
    (
      there,
      (is_active_iff s).0 active,
      top t ((In-keep is_active (values u.schedules) t).1 (k, (is_active_iff t).1 a)),
    )

-- The window test fails exactly when a start time and a window of at least one second are set and
-- the window has passed.
pub is_within_maintenance_window_iff :
    (now : ℕ) (s : UpdateSchedule)
    → (is_within_maintenance_window now s ≡ false) ↔ (
        (at : ℕ) × (secs : ℕ) × (s.scheduled_at ≡ some at)
        × (s.maintenance_window_secs ≡ some secs)
        × (0 < secs)
        × (at + secs * nanos_per_sec < now))
unfolding is_within_maintenance_window
is_within_maintenance_window_iff now s = (
  (λ h. elim (Option-cases s.scheduled_at) [
    | inl e ↦ ground arith
    | inr (at, e) ↦ elim (Option-cases s.maintenance_window_secs) [
      | inl f ↦ ground arith
      | inr (secs, f) ↦ (at, secs, e, f, ground arith, ground arith)
    ]
  ]),
  (λ h. let (at, secs, e, f, pos, late) = h in ground arith),
)
