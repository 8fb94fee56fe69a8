-- ===== src/Agent/Executor/Parts.antt =====
-- cmd/keel-agent/src/main.rs: what the parts of an execution do, and its hooks.
use keelos.Prelude.{
  Bool-cases, ap, ◌∙◌, List, [], ◌∷◌, split_whitespace, Option, none, ℕ, ◌≡◌, ◌≢◌, ◌⊎◌, inl, inr,
  refl, arith, String, is_empty, false, some, ok, err,
}
use keelos.Prelude.Dict.{get}
use keelos.Agent.Io.{Io}
use keelos.Agent.Disk.{PartitionInfo, default_disk}
use keelos.Agent.Disk.Flash.{Disks}
use keelos.Agent.Disk.Flash.Laws.{Holds, flash-Holds}
use keelos.Agent.Disk.Flash.Untouched.{flash-other}
use keelos.Agent.Disk.Boot.{
  Table, Boot, switch_boot_partition, record_active_partition_for_rollback,
}
use keelos.Agent.Disk.Boot.Switch.{IsSgdisk, Boots, Boots-cong, switch-Boots, switch-elsewhere}
use keelos.Agent.Disk.Boot.Laws.{record-table}
use keelos.Agent.Scheduler.{UpdateSchedule}
use keelos.Agent.Executor.{
  Machine, Env, Exit, Hook, Act, ran, run_parts, execute_hook, run_hook, fallback_url, switched,
  record_and_switch, post_hook, flashed, flash_schedule, pre_hook,
}

-- The hooks change neither the devices nor the boot flags and files.
abbrev pub IsHarmless : Hook → Type 0
IsHarmless hook =
    (program : String) (args : List String) (m : Machine) → (hook program args m).0 ≡ m

module _ (hook : Hook) (h : IsHarmless hook) where
  ran-still : (x : Machine × Io Exit) → (ran x).0 ≡ x.0
  ran-still (m, ok exit) = ground arith
  ran-still (m, err e) = refl

  parts-still : (parts : List String) (m : Machine) → (run_parts hook parts m).0 ≡ m
  parts-still [] m = refl
  parts-still (program ∷ args) m = ran-still (hook program args m) ∙ h program args m

  pub hook-still : (command : Option String) (m : Machine) → (run_hook hook command m).0 ≡ m
  unfolding run_hook execute_hook
  hook-still none m = refl
  hook-still (some c) m = elim (Bool-cases (is_empty c)) [
    | inl e ↦ rw (run_hook, execute_hook, e) refl
    | inr e ↦ rw (run_hook, execute_hook, e) (parts-still (split_whitespace c) m)
  ]

module _ (env : Env) (s : UpdateSchedule) (inactive : PartitionInfo) where
  -- The flash's result, behind the hook that is run before it.
  Flash : Machine → Disks × Io ℕ
  Flash m = flash_schedule env s inactive.device m.disks

  switched-ok :
      (m : Machine) (x : Boot × Io (Unit {0}))
      → (switched m x).1 ≡ ok tt
      → (x.1 ≡ ok tt) × ((switched m x).0.boot ≡ x.0) × ((switched m x).0.disks ≡ m.disks)
  switched-ok m (b, ok tt) h = (refl, refl, refl)
  switched-ok m (b, err e) h = absurd (ground arith)

  switched-disks : (m : Machine) (x : Boot × Io (Unit {0})) → (switched m x).0.disks ≡ m.disks
  switched-disks m (b, ok tt) = refl
  switched-disks m (b, err e) = refl

  post-disks : (a : Act) → (post_hook env inactive a).0.disks ≡ a.0.disks
  unfolding post_hook record_and_switch
  post-disks (m, ok tt) = switched-disks m (
      switch_boot_partition inactive.index env.boot
        (record_active_partition_for_rollback env.boot m.boot).0)
  post-disks (m, err e) = refl

  post-Boots :
      (a : Act)
      → IsSgdisk env.boot.sgdisk
      → (post_hook env inactive a).1 ≡ ok tt
      → Boots env.boot.sgdisk inactive.index a.0.boot.table (post_hook env inactive a).0.boot.table
  unfolding post_hook record_and_switch
  post-Boots (m, ok tt) g h =
      let b = (record_active_partition_for_rollback env.boot m.boot).0 in
      let x = switch_boot_partition inactive.index env.boot b in
      let (o, e, d) = switched-ok m x h in
      rw (ap (λ (b : Boot). b.table) e) (
        Boots-cong env.boot.sgdisk inactive.index b.table m.boot.table x.0.table
          (record-table env.boot m.boot) (switch-Boots env.boot inactive.index b g o))
  post-Boots (m, err e) g h = absurd (ground arith)

  switched-elsewhere :
      (d : String) (k : ℕ) (m : Machine) (x : Boot × Io (Unit {0}))
      → (switched m x).0.boot.table d k ≡ x.0.table d k
  switched-elsewhere d k m (b, ok tt) = refl
  switched-elsewhere d k m (b, err e) = refl

  post-elsewhere :
      (d : String) (k : ℕ) (a : Act)
      → IsSgdisk env.boot.sgdisk
      → d ≢ default_disk
      → (post_hook env inactive a).0.boot.table d k ≡ a.0.boot.table d k
  unfolding post_hook record_and_switch
  post-elsewhere d k (m, ok tt) g n =
      let b = (record_active_partition_for_rollback env.boot m.boot).0 in
      let x = switch_boot_partition inactive.index env.boot b in
      switched-elsewhere d k m x
      ∙ switch-elsewhere env.boot inactive.index k d b g n
      ∙ ap (λ (t : Table). t d k) (record-table env.boot m.boot)
  post-elsewhere d k (m, err e) g n = refl

  flash-verified :
      (expected : String) (m : Machine) (n : ℕ)
      → s.expected_sha256 ≡ some expected
      → is_empty expected ≡ false
      → (Flash m).1 ≡ ok n
      → Holds env.tools inactive.device expected (Flash m).0
  unfolding Flash flash_schedule
  flash-verified expected m n e f = rw e (λ h.
      flash-Holds env.tools env.boot.system s.source_url inactive.device expected s.is_delta
        (fallback_url s) m.disks n f h)

  module _ (h : IsHarmless env.hook) where
    -- The machine behind the hook that is run after the flash.
    after_flash :
        (m : Machine) (d : Disks)
        → (run_hook env.hook s.post_update_hook (record m { disks = d })).0 ≡ record m { disks = d }
    after_flash m d = hook-still env.hook h s.post_update_hook (record m { disks = d })

    flashed-disks : (m : Machine) (x : Disks × Io ℕ) → (flashed env s inactive m x).0.disks ≡ x.0
    unfolding flashed
    flashed-disks m (d, ok saved) =
        post-disks (run_hook env.hook s.post_update_hook (record m { disks = d }))
        ∙ ap (λ (m : Machine). m.disks) (after_flash m d)
    flashed-disks m (d, err e) = refl

    flashed-ok :
        (m : Machine) (x : Disks × Io ℕ)
        → IsSgdisk env.boot.sgdisk
        → (flashed env s inactive m x).1 ≡ ok tt
        → (n : ℕ) × (x.1 ≡ ok n)
          × Boots env.boot.sgdisk inactive.index m.boot.table
              (flashed env s inactive m x).0.boot.table
    unfolding flashed
    flashed-ok m (d, ok saved) g e =
        let a = run_hook env.hook s.post_update_hook (record m { disks = d }) in
        (
          saved,
          refl,
          Boots-cong env.boot.sgdisk inactive.index a.0.boot.table m.boot.table
              (post_hook env inactive a).0.boot.table
              (ap (λ (m : Machine). m.boot.table) (after_flash m d)) (post-Boots a g e),
        )
    flashed-ok m (d, err x) g e = absurd (ground arith)

    flashed-boot :
        (m : Machine) (x : Disks × Io ℕ)
        → ((flashed env s inactive m x).0.boot ≡ m.boot) ⊎ ((n : ℕ) × (x.1 ≡ ok n))
    unfolding flashed
    flashed-boot m (d, ok saved) = inr (saved, refl)
    flashed-boot m (d, err e) = inl refl

    flashed-elsewhere :
        (d : String) (k : ℕ) (m : Machine) (x : Disks × Io ℕ)
        → IsSgdisk env.boot.sgdisk
        → d ≢ default_disk
        → (flashed env s inactive m x).0.boot.table d k ≡ m.boot.table d k
    unfolding flashed
    flashed-elsewhere d k m (f, ok saved) g n =
        post-elsewhere d k (run_hook env.hook s.post_update_hook (record m { disks = f })) g n
        ∙ ap (λ (m : Machine). m.boot.table d k) (after_flash m f)
    flashed-elsewhere d k m (f, err e) g n = refl

    pub pre-ok :
        (expected : String) (a : Act)
        → IsSgdisk env.boot.sgdisk
        → s.expected_sha256 ≡ some expected
        → is_empty expected ≡ false
        → (pre_hook env s inactive a).1 ≡ ok tt
        → Holds env.tools inactive.device expected (pre_hook env s inactive a).0.disks
          × Boots env.boot.sgdisk inactive.index a.0.boot.table
              (pre_hook env s inactive a).0.boot.table
    unfolding pre_hook Flash
    pre-ok expected (m, ok tt) g e f k =
        let (n, o, t) = flashed-ok m (Flash m) g k in
        (rw (flashed-disks m (Flash m)) (flash-verified expected m n e f o), t)
    pre-ok expected (m, err x) g e f k = absurd (ground arith)

    pub pre-boot :
        (expected : String) (a : Act)
        → s.expected_sha256 ≡ some expected
        → is_empty expected ≡ false
        → ((pre_hook env s inactive a).0.boot ≡ a.0.boot)
          ⊎ Holds env.tools inactive.device expected (pre_hook env s inactive a).0.disks
    unfolding pre_hook Flash
    pre-boot expected (m, err x) e f = inl refl
    pre-boot expected (m, ok tt) e f = elim (flashed-boot m (Flash m)) [
      | inl k ↦ inl k
      | inr (n, o) ↦ inr (rw (flashed-disks m (Flash m)) (flash-verified expected m n e f o))
    ]

    pub pre-other :
        (k : String) (a : Act)
        → k ≢ inactive.device
        → get k (pre_hook env s inactive a).0.disks ≡ get k a.0.disks
    unfolding pre_hook Flash flash_schedule
    pre-other k (m, err x) n = refl
    pre-other k (m, ok tt) n = rw (flashed-disks m (Flash m)) (
        flash-other env.tools env.boot.system s.source_url inactive.device k s.expected_sha256
          s.is_delta (fallback_url s) m.disks n)

    pub pre-elsewhere :
        (d : String) (k : ℕ) (a : Act)
        → IsSgdisk env.boot.sgdisk
        → d ≢ default_disk
        → (pre_hook env s inactive a).0.boot.table d k ≡ a.0.boot.table d k
    unfolding pre_hook Flash
    pre-elsewhere d k (m, ok tt) g n = flashed-elsewhere d k m (Flash m) g n
    pre-elsewhere d k (m, err x) g n = refl
