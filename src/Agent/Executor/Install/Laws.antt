-- ===== src/Agent/Executor/Install/Laws.antt =====
-- What the stream tells a client, and what it leaves on the machine.
use keelos.Prelude.{
  ℕ, ◌≡◌, any, is_ok, refl, sym, arith, inl, inr, String, Bool, none, Result-cases, ok, err,
}
use keelos.Agent.Io.{Io}
use keelos.Agent.Disk.{PartitionInfo, other_index, get_inactive_partition}
use keelos.Agent.Disk.Flash.{Disks, flash_image}
use keelos.Agent.Disk.Boot.{
  Table, Output, set_args, Env, Boot, switch_boot_partition, set_done, clear_done,
  load_rollback_state, rollback_to_previous_partition, program_of, clear_args,
}
use keelos.Agent.Disk.Boot.Laws.{rollback_refused}
use keelos.Agent.Executor.{Machine}
use keelos.Agent.Executor
use keelos.Agent.Executor.Install.{
  InstallUpdateRequest, UpdateProgress, fallback_of, non_empty, switch_done, flash_done,
  run_install,
}

abbrev pub succeeded : UpdateProgress → Bool
succeeded p = p.success

module _ (req : InstallUpdateRequest) (env : Executor.Env) where
  switch_done-reports :
      (inactive : PartitionInfo) (saved : ℕ) (m : Machine) (x : Boot × Io (Unit {0}))
      → any succeeded (switch_done req inactive saved m x).1.items
        ≡ is_ok (switch_done req inactive saved m x).1.end
  switch_done-reports inactive saved m (b, ok tt) = refl
  switch_done-reports inactive saved m (b, err e) = refl

  flash_done-reports :
      (inactive : PartitionInfo) (m : Machine) (x : Disks × Io ℕ)
      → any succeeded (flash_done req inactive env m x).1.items
        ≡ is_ok (flash_done req inactive env m x).1.end
  unfolding flash_done
  flash_done-reports inactive m (d, ok saved) =
      switch_done-reports inactive saved (record m { disks = d })
        (switch_boot_partition inactive.index env.boot m.boot)
  flash_done-reports inactive m (d, err e) = refl

  Flash : PartitionInfo → Machine → Disks × Io ℕ
  Flash inactive m =
      flash_image env.tools env.boot.system req.source_url inactive.device
        (non_empty req.expected_sha256) req.is_delta (fallback_of req) m.disks

  install_with :
      (inactive : PartitionInfo) (m : Machine)
      → get_inactive_partition env.boot.system ≡ ok inactive
      → flash_done req inactive env m (Flash inactive m) ≡ run_install req env m
  unfolding run_install Flash
  install_with inactive m a = rw (run_install, a) refl

  -- The stream holds a message that reports success exactly when it ends without an error.
  pub install-reports :
      (m : Machine)
      → any succeeded (run_install req env m).1.items ≡ is_ok (run_install req env m).1.end
  unfolding run_install
  install-reports m = elim (Result-cases (get_inactive_partition env.boot.system)) [
    | inl (inactive, a) ↦
        rw (sym (install_with inactive m a)) (flash_done-reports inactive m (Flash inactive m))
    | inr (e, a) ↦ rw (run_install, a) refl
  ]

  set_done-state_file :
      (e : Env) (n : ℕ) (b : Boot) (x : Table × Io Output)
      → (set_done e n b x).0.state_file ≡ b.state_file
  set_done-state_file e n b (t, err i) = refl
  set_done-state_file e n b (t, ok o) = ground arith

  clear_done-state_file :
      (e : Env) (p : String) (n : ℕ) (b : Boot) (x : Table × Io Output)
      → (clear_done e p n b x).0.state_file ≡ b.state_file
  clear_done-state_file e p n b (t, err i) = refl
  clear_done-state_file e p n b (t, ok o) =
      set_done-state_file e n b (e.sgdisk.run p (set_args n) t)

  switch-state_file :
      (e : Env) (n : ℕ) (b : Boot) → (switch_boot_partition n e b).0.state_file ≡ b.state_file
  unfolding switch_boot_partition
  switch-state_file e n b =
      let p = program_of e.sgdisk in
      ground
        (arith, clear_done-state_file e p n b (e.sgdisk.run p (clear_args (other_index n)) b.table))

  switch_done-boot :
      (inactive : PartitionInfo) (saved : ℕ) (m : Machine) (x : Boot × Io (Unit {0}))
      → (switch_done req inactive saved m x).0.boot ≡ x.0
  switch_done-boot inactive saved m (b, ok tt) = refl
  switch_done-boot inactive saved m (b, err e) = refl

  flash_done-state_file :
      (inactive : PartitionInfo) (m : Machine) (x : Disks × Io ℕ)
      → (flash_done req inactive env m x).0.boot.state_file ≡ m.boot.state_file
  unfolding flash_done
  flash_done-state_file inactive m (d, ok saved) =
      let x = switch_boot_partition inactive.index env.boot m.boot in
      rw (switch_done-boot inactive saved (record m { disks = d }) x)
        (switch-state_file env.boot inactive.index m.boot)
  flash_done-state_file inactive m (d, err e) = refl

  install-state_file : (m : Machine) → (run_install req env m).0.boot.state_file ≡ m.boot.state_file
  unfolding run_install
  install-state_file m = elim (Result-cases (get_inactive_partition env.boot.system)) [
    | inl (inactive, a) ↦
        rw (sym (install_with inactive m a)) (flash_done-state_file inactive m (Flash inactive m))
    | inr (e, a) ↦ rw (run_install, a) refl
  ]

  -- An installation records no partition for a rollback: on a machine with no record, a rollback
  -- after it changes nothing, and so leaves the new partition to be booted.
  pub install-no_rollback :
      (m : Machine)
      → (load_rollback_state env.boot m.boot).previous_partition ≡ none
      → (rollback_to_previous_partition env.boot (run_install req env m).0.boot).0
        ≡ (run_install req env m).0.boot
  unfolding load_rollback_state
  install-no_rollback m h =
      rollback_refused env.boot (run_install req env m).0.boot
        (rw (load_rollback_state, install-state_file m) h)
