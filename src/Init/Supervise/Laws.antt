-- ===== src/Init/Supervise/Laws.antt =====
-- How long the agent waits, and which services the loop brings back.
use keelos.Prelude.{
  ap, ◌∙◌, ◌++◌, some, Option-cases, ℕ, ◌%◌, ◌^◌, ◌≤◌, ◌<◌, ◌≡◌, ◌≢◌, ◌↔◌, ◌⊎◌, inl, inr, zero, suc,
  arith, min, true, none, List, [], ◌∷◌,
}
use keelos.Init.Supervise.{
  Child, Services, Found, reap_zombies, member, has_exited, restart_delay, check_containerd,
  check_agent, check_kubelet, check_bootstrap, check_restart, also, round, supervise,
}

containerd-others :
    (f : Found) (s : Services)
    → ((check_containerd f s).0.agent ≡ s.agent) × ((check_containerd f s).0.reaped ≡ s.reaped)
unfolding check_containerd
containerd-others f s = elim (Option-cases s.containerd) [
  | inl e ↦ (ground (arith, e), ground (arith, e))
  | inr (p, e) ↦ (ground (arith, e), ground (arith, e))
]

kubelet-others :
    (f : Found) (s : Services)
    → ((check_kubelet f s).0.agent ≡ s.agent) × ((check_kubelet f s).0.reaped ≡ s.reaped)
unfolding check_kubelet
kubelet-others f s = elim (Option-cases s.kubelet) [
  | inl e ↦ (ground (arith, e), ground (arith, e))
  | inr (p, e) ↦ (ground (arith, e), ground (arith, e))
]

bootstrap-others :
    (f : Found) (s : Services)
    → ((check_bootstrap f s).0.agent ≡ s.agent) × ((check_bootstrap f s).0.reaped ≡ s.reaped)
unfolding check_bootstrap
bootstrap-others f s = (ground arith, ground arith)

restart-others :
    (f : Found) (s : Services)
    → ((check_restart f s).0.agent ≡ s.agent) × ((check_restart f s).0.reaped ≡ s.reaped)
unfolding check_restart
restart-others f s = (ground arith, ground arith)

-- The checks of a round but for the agent's change neither the agent nor what has been reaped.
round-agent :
    (f : Found) (s : Services)
    → let a = (check_agent f (check_containerd f (reap_zombies f s)).0).0 in
      ((round f s).0.agent ≡ a.agent) × ((round f s).0.reaped ≡ a.reaped)
unfolding round
round-agent f s =
    let a = (check_agent f (check_containerd f (reap_zombies f s)).0).0 in
    let k = (check_kubelet f a).0 in
    let b = (check_bootstrap f k).0 in
    (
      (restart-others f b).0 ∙ (bootstrap-others f k).0 ∙ (kubelet-others f a).0,
      (restart-others f b).1 ∙ (bootstrap-others f k).1 ∙ (kubelet-others f a).1,
    )

-- The agent has exited, and its exit status has been taken.
abbrev pub IsReaped : Child → Services → Type 0
IsReaped p s = (s.agent ≡ some p) × (member p s.reaped ≡ true)

check_agent-IsReaped :
    (p : Child) (f : Found) (s : Services) → IsReaped p s → IsReaped p (check_agent f s).0
unfolding check_agent has_exited
check_agent-IsReaped p f s (a, m) = (ground (arith, a, m), ground (arith, a, m))

member-append : (p : Child) (xs ys : List Child) → member p ys ≡ true → member p (xs ++ ys) ≡ true
member-append p [] ys h = h
member-append p (x ∷ xs) ys h = ground (arith, member-append p xs ys h)

member-append_left :
    (p : Child) (xs ys : List Child) → member p xs ≡ true → member p (xs ++ ys) ≡ true
member-append_left p [] ys h = absurd (ground arith)
member-append_left p (x ∷ xs) ys h = ground (arith, member-append_left p xs ys)

round-IsReaped :
    (p : Child) (f : Found) (s : Services)
    → s.agent ≡ some p
    → member p (f.exited ++ s.reaped) ≡ true
    → IsReaped p (round f s).0
unfolding reap_zombies
round-IsReaped p f s a m =
    let r = reap_zombies f s in
    let (ca, cr) = containerd-others f r in
    let (q, n) = check_agent-IsReaped p f (check_containerd f r).0 (ca ∙ a, ap (member p) cr ∙ m) in
    let (ra, rr) = round-agent f s in (ra ∙ q, ap (member p) rr ∙ n)

rounds-IsReaped :
    (p : Child) (fs : List Found) (s : Services) → IsReaped p s → IsReaped p (supervise fs s).0
unfolding supervise
rounds-IsReaped p [] s h = h
rounds-IsReaped p (f ∷ rest) s (a, m) =
    rounds-IsReaped p rest (round f s).0
      (round-IsReaped p f s a (member-append p f.exited s.reaped m))

-- An agent that has exited when a round starts is never restarted: the round reaps it with the other
-- zombies, `try_wait` gives an error from then on, and after any further rounds, whatever they find,
-- the loop still holds the same child.
pub supervise-reaped :
    (p : Child) (f : Found) (fs : List Found) (s : Services)
    → s.agent ≡ some p
    → member p f.exited ≡ true
    → (supervise (f ∷ fs) s).0.agent ≡ some p
unfolding supervise
supervise-reaped p f fs s a m =
    let h = round-IsReaped p f s a (member-append_left p f.exited s.reaped m) in
    (rounds-IsReaped p fs (round f s).0 h).0

check_bootstrap-kubelet :
    (f : Found) (s : Services)
    → f.bootstrap_exists ≡ true
    → f.spawn_kubelet ≢ none
    → (check_bootstrap f s).0.kubelet ≢ none
unfolding check_bootstrap
check_bootstrap-kubelet f s b n h = ground arith

check_restart-kubelet :
    (f : Found) (s : Services)
    → f.respawn_kubelet ≢ none
    → s.kubelet ≢ none
    → (check_restart f s).0.kubelet ≢ none
unfolding check_restart
check_restart-kubelet f s m n h = ground arith

-- A round that finds the bootstrap kubeconfig, and whose attempts to start kubelet succeed, leaves
-- a kubelet running, also when it has just exited.
pub round-kubelet :
    (f : Found) (s : Services)
    → f.bootstrap_exists ≡ true
    → f.spawn_kubelet ≢ none
    → f.respawn_kubelet ≢ none
    → (round f s).0.kubelet ≢ none
unfolding round
round-kubelet f s b n m =
    let s' =
      (also (also (check_containerd f (reap_zombies f s)) (check_agent f)) (check_kubelet f)).0 in
    check_restart-kubelet f (check_bootstrap f s').0 m (check_bootstrap-kubelet f s' b n)

lt_or_le : (a b : ℕ) → (a < b) ⊎ (b ≤ a)
lt_or_le a b = omega arith

pow_pos : (n : ℕ) → 1 ≤ 2 ^ n
pow_pos zero = omega arith
pow_pos (suc n) = omega (arith, pow_pos n)

pow_small : (n : ℕ) → n < 6 → 2 ^ n < 60
pow_small zero h = omega arith
pow_small (suc zero) h = omega arith
pow_small (suc (suc zero)) h = omega arith
pow_small (suc (suc (suc zero))) h = omega arith
pow_small (suc (suc (suc (suc zero)))) h = omega arith
pow_small (suc (suc (suc (suc (suc zero))))) h = omega arith
pow_small (suc (suc (suc (suc (suc (suc n)))))) h = absurd (omega (arith, h))

pow_large : (n : ℕ) → 6 ≤ n → 60 ≤ 2 ^ n
pow_large zero h = absurd (omega (arith, h))
pow_large (suc n) h = elim (lt_or_le n 6) [
  | inr l ↦ omega (arith, pow_large n l)
  | inl l ↦ rw (last l) (omega arith)
]
  where
    last : n < 6 → n ≡ 5
    last l = omega (arith, l, h)

min_small : (a b : ℕ) → a ≤ b → min a b ≡ a
min_small a b h = omega (arith, h)

min_large : (a b : ℕ) → b ≤ a → min a b ≡ b
min_large a b h = omega (arith, h)

-- The back-off is between 1 and 60 seconds, and is 60 seconds exactly when the number of restarts,
-- modulo 64, is at least 6: it starts again at one second with every 64 restarts.
pub restart_delay_iff :
    (n : ℕ)
    → (1 ≤ restart_delay n) × (restart_delay n ≤ 60) × ((restart_delay n ≡ 60) ↔ (6 ≤ n % 64))
unfolding restart_delay
restart_delay_iff n = elim (lt_or_le (n % 64) 6) [
  | inl l ↦
      let e = min_small (2 ^ (n % 64)) 60 (omega (arith, pow_small (n % 64) l)) in
      let p = pow_pos (n % 64) in
      let q = pow_small (n % 64) l in
      (
        omega (arith, e, p),
        omega (arith, e, q),
        ((λ k. omega (arith, e, q, k)), (λ k. omega (arith, k, l))),
      )
  | inr l ↦
      let e = min_large (2 ^ (n % 64)) 60 (pow_large (n % 64) l) in
      (omega (arith, e), omega (arith, e), ((λ k. l), (λ k. e)))
]
