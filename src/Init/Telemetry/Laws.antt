-- ===== src/Init/Telemetry/Laws.antt =====
-- The phases of a boot and its whole.
use keelos.Prelude.{
  ◌≡◌, refl, arith, ℕ, ◌+◌, ◌-◌, ◌≤◌, String, str_eq, Option, none, some, List, [], ◌∷◌, Bool-cases,
  inl, inr,
}
use keelos.Prelude.Dict.{Dict, put}
use keelos.Init.Telemetry.{
  BootPhaseTracker, new, completed, start_phase, end_current_phase, get_metrics,
}

-- A call, with the times that it reads.
data Call : Type 0 where
  starts : String → ℕ → ℕ → Call
  ends : ℕ → Call

abbrev perform : Call → BootPhaseTracker → BootPhaseTracker
perform (starts name ended started) t = start_phase name ended started t
perform (ends now) t = end_current_phase now t

unfoldable run : List Call → BootPhaseTracker → BootPhaseTracker
run [] t = t
run (c ∷ cs) t = run cs (perform c t)

-- No time of a history lies before the one that is read before it, and none after `last`.
abbrev Ordered : ℕ → List Call → ℕ → Type 0
Ordered now [] last = now ≤ last
Ordered now (starts name ended started ∷ cs) last =
    (now ≤ ended) × (ended ≤ started) × Ordered started cs last
Ordered now (ends at ∷ cs) last = (now ≤ at) × Ordered at cs last

unfoldable total : Dict ℕ → ℕ
total [] = 0
total ((name, d) ∷ m) = d + total m

total-put : (name : String) (d : ℕ) (m : Dict ℕ) → total (put name d m) ≤ d + total m
unfolding total put
total-put name d [] = omega arith
total-put name d ((other, e) ∷ m) = elim (Bool-cases (str_eq other name)) [
  | inl h ↦ rw h (omega arith)
  | inr h ↦ rw h (omega (arith, total-put name d m))
]

-- When the current phase started, or the time that is given where there is none.
abbrev since : ℕ → Option (String × ℕ) → ℕ
since now none = now
since now (some (name, start)) = start

total-completed :
    (origin now : ℕ) (o : Option (String × ℕ)) (phases : Dict ℕ)
    → since now o ≤ now
    → origin + total phases ≤ since now o
    → origin + total (completed now o phases) ≤ now
total-completed origin now none phases l h = h
total-completed origin now (some (name, start)) phases l h =
    omega (arith, l, h, total-put name (now - start) phases)

-- The durations fit in between a time and the start of the current phase, which is not in the future.
record Fits (origin now : ℕ) (t : BootPhaseTracker) : Type 0 where
  started : since now t.current_phase ≤ now
  fits : origin + total t.phases ≤ since now t.current_phase

later-Fits :
    (origin now later : ℕ) (t : BootPhaseTracker)
    → now ≤ later
    → Fits origin now t
    → (since later t.current_phase ≤ later)
      × (origin + total t.phases ≤ since later t.current_phase)
later-Fits origin now later t l f = later-since t.current_phase f.started f.fits
  where
    later-since :
        (o : Option (String × ℕ))
        → since now o ≤ now
        → origin + total t.phases ≤ since now o
        → (since later o ≤ later) × (origin + total t.phases ≤ since later o)
    later-since none s h = (omega arith, omega (arith, l, h))
    later-since (some (name, start)) s h = (omega (arith, l, s), h)

completed-Fits :
    (origin now later : ℕ) (t : BootPhaseTracker)
    → now ≤ later
    → Fits origin now t
    → origin + total (completed later t.current_phase t.phases) ≤ later
completed-Fits origin now later t l f =
    let (s, h) = later-Fits origin now later t l f in
    total-completed origin later t.current_phase t.phases s h

run-total :
    (cs : List Call) (origin now last : ℕ) (t : BootPhaseTracker)
    → Fits origin now t
    → Ordered now cs last
    → origin + total (run cs t).phases ≤ last
unfolding run start_phase end_current_phase
run-total [] origin now last t f o =
    let (s, h) = later-Fits origin now last t o f in omega (arith, s, h)
run-total (starts name ended started ∷ cs) origin now last t f (b, c, o) =
    let h = completed-Fits origin now ended t b f in
    run-total cs origin started last (start_phase name ended started t)
      (record { started = omega arith; fits = omega (arith, h, c) }) o
run-total (ends at ∷ cs) origin now last t f (b, o) =
    let h = completed-Fits origin now at t b f in
    run-total cs origin at last (end_current_phase at t)
      (record { started = omega arith; fits = h }) o

run-start_time : (cs : List Call) (t : BootPhaseTracker) → (run cs t).start_time ≡ t.start_time
unfolding run start_phase end_current_phase
run-start_time [] t = refl
run-start_time (starts name ended started ∷ cs) t =
    run-start_time cs (start_phase name ended started t)
run-start_time (ends at ∷ cs) t = run-start_time cs (end_current_phase at t)

-- Whatever phases a boot starts and ends, and whatever their names, the durations that the metrics
-- show add up to no more than the boot's total time, if the clock never goes back.
durations-bound :
    (cs : List Call) (begin last : ℕ)
    → Ordered begin cs last
    → let m = get_metrics last (run cs (new begin)) in total m.phases ≤ m.total_boot_time
unfolding get_metrics total
durations-bound cs begin last o =
    let h =
      run-total cs begin begin last (new begin)
        (record { started = omega arith; fits = omega arith }) o in
    omega (arith, h, run-start_time cs (new begin))
