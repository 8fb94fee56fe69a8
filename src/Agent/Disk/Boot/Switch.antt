-- ===== src/Agent/Disk/Boot/Switch.antt =====
-- cmd/keel-agent/src/disk.rs: what a switch of the boot partition does to the flags of the disks.
use keelos.Prelude.{
  ℕ, ◌≡◌, ◌≢◌, ◌⊎◌, ◌∙◌, refl, arith, inl, inr, Bool-cases, String, true, false, ◌||◌, ok, err,
}
use keelos.Agent.Io.{Io}
use keelos.Agent.Disk.{default_disk, other_index}
use keelos.Agent.Disk.Boot.{
  Table, Output, Sgdisk, Env, Boot, clear_args, set_args, program_of, set_done, clear_done,
  switch_boot_partition,
}

-- What the manual of sgdisk says of the two runs: one that succeeds sets or clears the flag of its
-- partition of its disk, and no run changes another flag.
pub record IsSgdisk (g : Sgdisk) : Type 0 where
  pub sets :
      (p : String) (n : ℕ) (t : Table) (o : Output)
      → (g.run p (set_args n) t).1 ≡ ok o
      → o.is_success ≡ true
      → (g.run p (set_args n) t).0 default_disk n ≡ true
  pub clears :
      (p : String) (n : ℕ) (t : Table) (o : Output)
      → (g.run p (clear_args n) t).1 ≡ ok o
      → o.is_success ≡ true
      → (g.run p (clear_args n) t).0 default_disk n ≡ false
  pub set_only :
      (p : String) (n m : ℕ) (d : String) (t : Table)
      → (d ≢ default_disk) ⊎ (m ≢ n)
      → (g.run p (set_args n) t).0 d m ≡ t d m
  pub clear_only :
      (p : String) (n m : ℕ) (d : String) (t : Table)
      → (d ≢ default_disk) ⊎ (m ≢ n)
      → (g.run p (clear_args n) t).0 d m ≡ t d m

-- The run that clears the flag of the slot beside `n` exits with an error: this is only logged.
abbrev pub ClearFails : Sgdisk → ℕ → Table → Type 0
ClearFails g n t =
    (o : Output) × ((g.run (program_of g) (clear_args (other_index n)) t).1 ≡ ok o)
    × (o.is_success ≡ false)

-- Of the two slots of the default disk, the flags have `n` booted.
abbrev pub Boots : Sgdisk → ℕ → Table → Table → Type 0
Boots g n before after =
    (after default_disk n ≡ true)
    × ((after default_disk (other_index n) ≡ false) ⊎ ClearFails g n before)

pub Boots-cong :
    (g : Sgdisk) (n : ℕ) (t t' after : Table) → t ≡ t' → Boots g n t after → Boots g n t' after
Boots-cong g n t t' after e h = rw (← e) h

pub other_index-other : (n : ℕ) → other_index n ≢ n
unfolding other_index
other_index-other n h = ground (arith, h)

module _ (env : Env) where
  set_done-table : (n : ℕ) (b : Boot) (x : Table × Io Output) → (set_done env n b x).0.table ≡ x.0
  set_done-table n b (t, err e) = refl
  set_done-table n b (t, ok o) = ground arith

  set_done-ok :
      (n : ℕ) (b : Boot) (x : Table × Io Output)
      → (set_done env n b x).1 ≡ ok tt
      → (o : Output) × (x.1 ≡ ok o) × (o.is_success ≡ true)
  set_done-ok n b (t, err e) h = ground arith
  set_done-ok n b (t, ok o) h = (o, refl, ground arith)

  -- What the second run is given and leaves.
  Set : ℕ → Table → Table × Io Output
  Set n t = env.sgdisk.run (program_of env.sgdisk) (set_args n) t

  sets_flag :
      (n : ℕ) (b : Boot) (t : Table)
      → IsSgdisk env.sgdisk
      → (set_done env n b (Set n t)).1 ≡ ok tt
      → (set_done env n b (Set n t)).0.table default_disk n ≡ true
  unfolding Set
  sets_flag n b t g h =
      let (o, e, s) = set_done-ok n b (Set n t) h in
      rw (set_done-table n b (Set n t)) (g.sets (program_of env.sgdisk) n t o e s)

  keeps_flag :
      (n m : ℕ) (d : String) (b : Boot) (t : Table)
      → IsSgdisk env.sgdisk
      → (d ≢ default_disk) ⊎ (m ≢ n)
      → (set_done env n b (Set n t)).0.table d m ≡ t d m
  unfolding Set
  keeps_flag n m d b t g e =
      rw (set_done-table n b (Set n t)) (g.set_only (program_of env.sgdisk) n m d t e)

  clear_done-boots :
      (n : ℕ) (b : Boot) (x : Table × Io Output)
      → IsSgdisk env.sgdisk
      → ((o : Output) → x.1 ≡ ok o → o.is_success ≡ true → x.0 default_disk (other_index n) ≡ false)
      → (clear_done env (program_of env.sgdisk) n b x).1 ≡ ok tt
      → ((clear_done env (program_of env.sgdisk) n b x).0.table default_disk n ≡ true)
        × (((clear_done env (program_of env.sgdisk) n b x).0.table default_disk (other_index n)
              ≡ false)
            ⊎ ((o : Output) × (x.1 ≡ ok o) × (o.is_success ≡ false)))
  unfolding Set
  clear_done-boots n b (t, err e) g c h = absurd (ground arith)
  clear_done-boots n b (t, ok o) g c h = (
    sets_flag n b t g h,
    elim (Bool-cases o.is_success) [
      | inl s ↦ inl (
          rw (keeps_flag n (other_index n) default_disk b t g (inr (other_index-other n)))
            (c o refl s))
      | inr s ↦ inr (o, refl, s)
    ],
  )

  clear_done-only :
      (n m : ℕ) (d : String) (b : Boot) (x : Table × Io Output)
      → IsSgdisk env.sgdisk
      → (d ≢ default_disk) ⊎ (m ≢ n)
      → (clear_done env (program_of env.sgdisk) n b x).0.table d m ≡ x.0 d m
  unfolding Set
  clear_done-only n m d b (t, err e) g k = refl
  clear_done-only n m d b (t, ok o) g k = keeps_flag n m d b t g k

  -- If sgdisk does what its manual says, a switch that returns `Ok` leaves the target bootable, and
  -- the other slot not, unless the run that clears it exited with an error.
  pub switch-Boots :
      (n : ℕ) (b : Boot)
      → IsSgdisk env.sgdisk
      → (switch_boot_partition n env b).1 ≡ ok tt
      → Boots env.sgdisk n b.table (switch_boot_partition n env b).0.table
  unfolding switch_boot_partition
  switch-Boots n b g = elim (Bool-cases (env.sgdisk.in_usr_sbin || env.sgdisk.in_sbin)) [
    | inl i ↦
        rw (switch_boot_partition, i)
          (λ h.
            let p = program_of env.sgdisk in
            let k = other_index n in
            clear_done-boots n b (env.sgdisk.run p (clear_args k) b.table) g (g.clears p k b.table)
              h)
    | inr i ↦ rw (switch_boot_partition, i) (λ h. absurd (ground arith))
  ]

  -- A switch, whatever it returns, changes no flag of another disk.
  pub switch-elsewhere :
      (n m : ℕ) (d : String) (b : Boot)
      → IsSgdisk env.sgdisk
      → d ≢ default_disk
      → (switch_boot_partition n env b).0.table d m ≡ b.table d m
  unfolding switch_boot_partition
  switch-elsewhere n m d b g e = elim (Bool-cases (env.sgdisk.in_usr_sbin || env.sgdisk.in_sbin)) [
    | inl i ↦
        let p = program_of env.sgdisk in
        let k = other_index n in
        let x = env.sgdisk.run p (clear_args k) b.table in
        rw (switch_boot_partition, i)
          (clear_done-only n m d b x g (inl e) ∙ g.clear_only p k m d b.table (inl e))
    | inr i ↦ rw (switch_boot_partition, i) refl
  ]
