-- ===== src/Agent/Diagnostics/Laws.antt =====
-- The debug sessions that a history of requests starts.
use keelos.Prelude.{
  ℕ, ◌+◌, ◌*◌, ◌≤◌, ◌≡◌, ◌⊎◌, inl, inr, refl, sym, arith, ltb, String, Option, Bool-cases, none,
  some, List, [], ◌∷◌, All, Result, ok, err,
}
use mathlib.Core.Path.{subst}
use keelos.Agent.Diagnostics.{
  DebugSession, DiagnosticsManager, Env, clamp_duration, enable_debug_mode, start_debug,
  debug_unless,
}

-- A request for the debug mode, with what the call reads.
pub record Request : Type 0 where
  pub env : Env
  pub duration_secs : ℕ
  pub reason : String

-- The sessions that a history of requests starts, each with the time of its start.
abbrev started : ℕ → Result DebugSession String → List (ℕ × DebugSession) → List (ℕ × DebugSession)
started t (ok s) rest = (t, s) ∷ rest
started t (err e) rest = rest

unfoldable pub sessions : (ℕ → String) → List Request → DiagnosticsManager → List (ℕ × DebugSession)
sessions to_rfc3339 [] m = []
sessions to_rfc3339 (r ∷ rs) m =
    let x = enable_debug_mode to_rfc3339 r.env r.duration_secs r.reason m in
    started r.env.started_at x.0 (sessions to_rfc3339 rs x.1)

-- Each session lasts from a second to an hour, and starts when the one before it has expired.
abbrev pub Separate : ℕ → List (ℕ × DebugSession) → Type 0
Separate until [] = Unit
Separate until ((t, s) ∷ rest) =
    (until ≤ t)
    × (t + 1000000000 ≤ s.expires_at)
    × (s.expires_at ≤ t + 3600 * 1000000000)
    × Separate s.expires_at rest

-- When the session of a manager expires.
abbrev pub expires : Option DebugSession → ℕ
expires none = 0
expires (some s) = s.expires_at

pub clamp_bounds : (d : ℕ) → (1 ≤ clamp_duration d) × (clamp_duration d ≤ 3600)
unfolding clamp_duration
clamp_bounds d = (ground arith, ground arith)

-- A request starts a session when none is active at its check, and changes nothing otherwise.
unless-cases :
    (to_rfc3339 : ℕ → String) (o : Option DebugSession) (r : Request) (m : DiagnosticsManager)
    → let x = debug_unless to_rfc3339 o r.env r.duration_secs r.reason m in
      ((x ≡ start_debug r.env r.duration_secs r.reason m) × (expires o ≤ r.env.checked_at))
      ⊎ ((e : String) × (x ≡ (err e, m)))
unless-cases to_rfc3339 none r m = inl (refl, omega arith)
unless-cases to_rfc3339 (some s) r m = elim (Bool-cases (ltb r.env.checked_at s.expires_at)) [
  | inl e ↦ rw e (inr (_, refl))
  | inr e ↦ rw e (inl (refl, ground (arith, e)))
]

-- When no request starts its session at a time before that of its check, the debug sessions that
-- a history of requests starts never overlap, and each lasts from a second to an hour, whatever
-- durations were asked for; the first does not start before the session that was there expires.
pub sessions-Separate :
    (to_rfc3339 : ℕ → String) (rs : List Request) (m : DiagnosticsManager)
    → All (λ r. r.env.checked_at ≤ r.env.started_at) rs
    → Separate (expires m.debug_session) (sessions to_rfc3339 rs m)
unfolding sessions enable_debug_mode
sessions-Separate to_rfc3339 [] m h = tt
sessions-Separate to_rfc3339 (r ∷ rs) m (h, hs) =
    let P : Result DebugSession String × DiagnosticsManager → Type 0 = λ x.
      Separate (expires m.debug_session)
        (started r.env.started_at x.0 (sessions to_rfc3339 rs x.1)) in
    let (lo, hi) = clamp_bounds r.duration_secs in
    elim (unless-cases to_rfc3339 m.debug_session r m) [
      | inl (e, l) ↦ subst P (sym e) (
        omega (arith, l, h),
        omega (arith, lo),
        omega (arith, hi),
        sessions-Separate to_rfc3339 rs (start_debug r.env r.duration_secs r.reason m).1 hs,
      )
      | inr (t, e) ↦ subst P (sym e) (sessions-Separate to_rfc3339 rs m hs)
    ]
