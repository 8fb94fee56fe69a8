-- ===== src/Agent/Executor/Laws.antt =====
-- What an execution has done when it returns, and what it never does.
use keelos.Prelude.{◌≡◌, ◌≢◌, ◌⊎◌, inl, inr, refl, sym, ap, ◌∙◌, String, is_empty, false, some, ok}
use keelos.Prelude.Dict.{get}
use keelos.Agent.Disk.{PartitionInfo, get_active_partition, get_inactive_partition}
use keelos.Agent.Disk.Slots.{inactive-other}
use keelos.Agent.Disk.Flash.Laws.{Holds}
use keelos.Agent.Scheduler.{UpdateSchedule}
use keelos.Agent.Executor.{Machine, Act, Env, run_hook, pre_hook, execute_scheduled_update}
use keelos.Agent.Executor.Parts.{IsHarmless, hook-still, pre-boot, pre-other}

module _ (env : Env) (s : UpdateSchedule) (inactive : PartitionInfo) where
  -- What is left to do behind the hook that is run before the flash.
  Rest : Machine → Act
  Rest m = pre_hook env s inactive (run_hook env.hook s.pre_update_hook m)

  execute-pre :
      (m : Machine)
      → get_inactive_partition env.boot.system ≡ ok inactive
      → Rest m ≡ execute_scheduled_update env s m
  unfolding execute_scheduled_update Rest
  execute-pre m a = rw (execute_scheduled_update, a) refl

  hook-keeps : (m : Machine) → IsHarmless env.hook → (run_hook env.hook s.pre_update_hook m).0 ≡ m
  hook-keeps m h = hook-still env.hook h s.pre_update_hook m

  -- If the hooks change neither devices nor boot flags and files, an execution, whatever it
  -- returns, has changed the boot flags and the files of the rollback only if the inactive
  -- partition holds an image with the digest of the schedule, which has one.
  pub execute-boot :
      (expected : String) (m : Machine)
      → IsHarmless env.hook
      → get_inactive_partition env.boot.system ≡ ok inactive
      → s.expected_sha256 ≡ some expected
      → is_empty expected ≡ false
      → ((execute_scheduled_update env s m).0.boot ≡ m.boot)
        ⊎ Holds env.tools inactive.device expected (execute_scheduled_update env s m).0.disks
  unfolding Rest
  execute-boot expected m h a e f = rw (sym (execute-pre m a)) (
      let r = run_hook env.hook s.pre_update_hook m in
      elim (pre-boot env s inactive h expected r e f) [
        | inl k ↦ inl (k ∙ ap (λ (m : Machine). m.boot) (hook-keeps m h))
        | inr k ↦ inr k
      ])

  -- If the hooks change neither devices nor boot flags and files, the image of an execution,
  -- whatever it returns, is written to no device but the inactive partition, and not to the
  -- active one. The partition table of /dev/sda is apart from the devices.
  pub execute-other :
      (active : PartitionInfo) (k : String) (m : Machine)
      → IsHarmless env.hook
      → get_active_partition env.boot.system ≡ ok active
      → get_inactive_partition env.boot.system ≡ ok inactive
      → k ≢ inactive.device
      → (get k (execute_scheduled_update env s m).0.disks ≡ get k m.disks)
        × (get active.device (execute_scheduled_update env s m).0.disks ≡ get active.device m.disks)
  unfolding Rest
  execute-other active k m h c a n = rw (sym (execute-pre m a)) (
      let r = run_hook env.hook s.pre_update_hook m in
      let (d, x) = inactive-other env.boot.system active inactive c a in
      let q = ap (λ (m : Machine). m.disks) (hook-keeps m h) in
      (
        pre-other env s inactive h k r n ∙ ap (get k) q,
        pre-other env s inactive h active.device r (λ y. d (sym y)) ∙ ap (get active.device) q,
      ))
