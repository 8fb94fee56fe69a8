-- ===== src/Agent/Diagnostics/Rpc/Laws.antt =====
-- What the status of the debug mode says of the request that enabled it.
use keelos.Prelude.{
  ◌≡◌, refl, ℕ, ◌+◌, ◌-◌, ◌/◌, ◌≤◌, ◌<◌, ltb, arith, String, true, Option, Bool-cases, inl, inr,
  none, some, ok,
}
use keelos.Agent.Diagnostics.{
  DiagnosticsManager, DebugSession, Env, clamp_duration, expiry, new_debug, debug_unless,
  enable_debug_mode, get_debug_status,
}
use keelos.Agent.Diagnostics.Laws.{clamp_bounds}
use keelos.Agent.Diagnostics.Rpc.{
  EnableDebugModeRequest, debug_response, enable_debug_rpc, remaining_at, get_debug_status_rpc,
}

module _ (to_rfc3339 : ℕ → String) where
  debug_unless-ok :
      (existing : Option DebugSession) (env : Env) (d : ℕ) (reason : String)
      (m : DiagnosticsManager)
      → (debug_response to_rfc3339 (debug_unless to_rfc3339 existing env d reason m).0).success
        ≡ true
      → debug_unless to_rfc3339 existing env d reason m
        ≡ (ok (new_debug env d reason), record m { debug_session = some (new_debug env d reason) })
  debug_unless-ok none env d reason m h = refl
  debug_unless-ok (some s) env d reason m h = elim (Bool-cases (ltb env.checked_at s.expires_at)) [
    | inl e ↦ absurd (ground (arith, e, h))
    | inr e ↦ rw e refl
  ]

  -- What remains of a session, in seconds that are not begun.
  remaining-bounds :
      (env : Env) (d now : ℕ) (reason : String)
      → env.started_at ≤ now
      → now ≤ expiry env d
      → let left = remaining_at to_rfc3339 now (new_debug env d reason) in
        let gone = (now - env.started_at) / 1000000000 in
        (left + gone ≤ clamp_duration d) × (clamp_duration d ≤ left + gone + 1)
  remaining-bounds env d now reason from until =
      let c = (clamp_bounds d).1 in
      elim (Bool-cases (ltb now (expiry env d))) [
        | inl e ↦ rw e (omega (arith, c, from, until), omega (arith, c, from, until))
        | inr e ↦ rw e (ground (arith, e, until), ground (arith, e, until))
      ]

  -- Where the debug mode is enabled on request, a client that asks for the status before the session
  -- has expired is told so, with the identifier and the expiry of the reply to the request and with
  -- the request's reason; the seconds that are said to remain and the whole seconds since the
  -- start add up to the duration of the request, brought within its limits, or to one less.
  pub enable-status :
      (env : Env) (req : EnableDebugModeRequest) (m : DiagnosticsManager) (checked_at now : ℕ)
      → (enable_debug_rpc to_rfc3339 env req m).0.success ≡ true
      → checked_at < expiry env req.duration_secs
      → env.started_at ≤ now
      → now ≤ expiry env req.duration_secs
      → let (reply, after) = enable_debug_rpc to_rfc3339 env req m in
        let status = get_debug_status_rpc to_rfc3339 checked_at now after in
        let gone = (now - env.started_at) / 1000000000 in
        (status.enabled ≡ true)
        × (status.session_id ≡ reply.session_id)
        × (status.expires_at ≡ reply.expires_at)
        × (status.reason ≡ req.reason)
        × (status.remaining_secs + gone ≤ clamp_duration req.duration_secs)
        × (clamp_duration req.duration_secs ≤ status.remaining_secs + gone + 1)
  unfolding enable_debug_rpc enable_debug_mode get_debug_status_rpc get_debug_status
  enable-status env req m checked_at now h before from until =
      let active : ltb checked_at (expiry env req.duration_secs) ≡ true = ground (arith, before) in
      let bounds = remaining-bounds env req.duration_secs now req.reason from until in
      rw (debug_unless-ok m.debug_session env req.duration_secs req.reason m h, active)
        (refl, refl, refl, refl, bounds.0, bounds.1)
