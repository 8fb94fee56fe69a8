-- ===== src/Agent/Disk/Boot/Laws.antt =====
-- What a record keeps, what a rollback goes back to, and when the boots are a loop.
use keelos.Prelude.{
  Result, ℕ, zero, suc, ◌%◌, ◌^◌, ◌<◌, ◌≤◌, ◌≡◌, ◌↔◌, refl, ap, ◌∙◌, arith, inl, inr, String, true,
  none, some, Result-cases, Option-cases, ok, err,
}
use keelos.Agent.Disk.{get_active_partition}
use keelos.Agent.Disk.Boot.Switch.{IsSgdisk, Boots, switch-Boots}
use keelos.Agent.Disk.Boot.{
  RollbackState, Codec, Env, Boot, Step, switch_boot_partition, load_rollback_state,
  save_rollback_state, recorded, forgotten, forget, store, counted, cleared,
  record_active_partition_for_rollback, rollback_to_previous_partition, increment_boot_counter,
  clear_boot_counter, get_boot_counter, is_boot_loop,
}

-- What `serde_json` promises of the derived instances: reading gives back what was written.
abbrev pub IsFaithful : Codec → Type 0
IsFaithful j = (r : RollbackState) (s : String) → j.to_string r ≡ ok s → j.from_str s ≡ ok r

-- No text of the state is refused: every field is a number, a string or an `Option` of one.
abbrev pub IsTotal : Codec → Type 0
IsTotal j = (r : RollbackState) → (s : String) × (j.to_string r ≡ ok s)

module _ (env : Env) where
  -- A rollback without a recorded partition is refused and changes nothing.
  pub rollback_refused :
      (b : Boot)
      → (load_rollback_state env b).previous_partition ≡ none
      → (rollback_to_previous_partition env b).0 ≡ b
  unfolding rollback_to_previous_partition
  rollback_refused b h = ground arith

  -- What a save that returns `Ok` leaves: only the file differs, and it holds the state.
  pub saved :
      (r : RollbackState) (b : Boot)
      → IsFaithful env.codec
      → (save_rollback_state r env b).1 ≡ ok tt
      → (load_rollback_state env (save_rollback_state r env b).0 ≡ r)
        × ((save_rollback_state r env b).0.table ≡ b.table)
  unfolding save_rollback_state load_rollback_state
  saved r b law h = elim (Result-cases (env.codec.to_string r)) [
    | inl (s, e) ↦ (ground (arith, law r s e), ground arith)
    | inr (x, e) ↦ absurd (ground arith)
  ]

  stored-table : (b : Boot) (x : Result String String) → (store env b x).0.table ≡ b.table
  stored-table b (ok text) = refl
  stored-table b (err e) = refl

  -- A save, whatever it returns, changes no boot flag.
  save-table : (r : RollbackState) (b : Boot) → (save_rollback_state r env b).0.table ≡ b.table
  unfolding save_rollback_state
  save-table r b = elim (Option-cases env.dir_fault) [
    | inl d ↦ rw (save_rollback_state, d) (stored-table b (env.codec.to_string r))
    | inr (e, d) ↦ rw (save_rollback_state, d) refl
  ]

  -- Nor does a record.
  pub record-table : (b : Boot) → (record_active_partition_for_rollback env b).0.table ≡ b.table
  unfolding record_active_partition_for_rollback
  record-table b = elim (Result-cases (get_active_partition env.system)) [
    | inl (a, h) ↦
        rw (record_active_partition_for_rollback, h)
          (save-table (recorded a env.now (load_rollback_state env b)) b)
    | inr (e, h) ↦ rw (record_active_partition_for_rollback, h) refl
  ]

  saves :
      (r : RollbackState) (b : Boot)
      → IsTotal env.codec
      → env.dir_fault ≡ none
      → env.state_fault ≡ none
      → (save_rollback_state r env b).1 ≡ ok tt
  unfolding save_rollback_state
  saves r b total d f = ground (arith, (total r).1)

  -- Behind a rollback that returns `Ok`.
  forgets :
      (x : Step)
      → IsFaithful env.codec
      → (forget env x).1 ≡ ok tt
      → (x.1 ≡ ok tt)
        × ((forget env x).0.table ≡ x.0.table)
        × ((load_rollback_state env (forget env x).0).previous_partition ≡ none)
  unfolding forget
  forgets (b, err e) law h = absurd (ground arith)
  forgets (b, ok tt) law h =
      let r = forgotten (load_rollback_state env b) in
      let (l, t) = saved r b law h in (refl, t, ap (λ (q : RollbackState). q.previous_partition) l)

  pub rollback_to :
      (n : ℕ) (b : Boot)
      → IsSgdisk env.sgdisk
      → IsFaithful env.codec
      → (load_rollback_state env b).previous_partition ≡ some n
      → (rollback_to_previous_partition env b).1 ≡ ok tt
      → Boots env.sgdisk n b.table (rollback_to_previous_partition env b).0.table
        × ((load_rollback_state env (rollback_to_previous_partition env b).0).previous_partition
            ≡ none)
  unfolding rollback_to_previous_partition
  rollback_to n b g law e =
      rw (rollback_to_previous_partition, e)
        (λ h.
          let (o, t, l) = forgets (switch_boot_partition n env b) law h in
          (rw t (switch-Boots env n b g o), l))

  -- `n` calls of increment_boot_counter.
  abbrev pub boots : ℕ → Boot → Boot
  boots zero b = b
  boots (suc n) b = (increment_boot_counter env (boots n b)).0

  counter-boots :
      (n : ℕ) (b : Boot)
      → IsFaithful env.codec
      → IsTotal env.codec
      → env.dir_fault ≡ none
      → env.state_fault ≡ none
      → get_boot_counter env (boots n (clear_boot_counter env b).0) ≡ n % 2 ^ 32
  unfolding get_boot_counter clear_boot_counter increment_boot_counter
  counter-boots zero b law total d f =
      let r = cleared (load_rollback_state env b) in
      ap (λ (q : RollbackState). q.boot_counter) (saved r b law (saves r b total d f)).0
  counter-boots (suc n) b law total d f =
      let b' = boots n (clear_boot_counter env b).0 in
      let r = counted (load_rollback_state env b') in
      ap (λ (q : RollbackState). q.boot_counter) (saved r b' law (saves r b' total d f)).0
      ∙ omega (arith, counter-boots n b law total d f)

  -- Where every write succeeds, `n` boots after the counter was cleared are a boot loop exactly
  -- when `n` is at least three, as long as the 32-bit counter has not wrapped.
  pub is_boot_loop_iff :
      (n : ℕ) (b : Boot)
      → IsFaithful env.codec
      → IsTotal env.codec
      → env.dir_fault ≡ none
      → env.state_fault ≡ none
      → n < 2 ^ 32
      → (is_boot_loop env (boots n (clear_boot_counter env b).0) ≡ true) ↔ (3 ≤ n)
  unfolding is_boot_loop
  is_boot_loop_iff n b law total d f small =
      let e = counter-boots n b law total d f in
      ((λ h. ground (arith, e)), (λ h. ground (arith, e)))
