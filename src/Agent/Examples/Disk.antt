-- ===== src/Agent/Examples/Disk.antt =====
-- The theorems about flashing and booting at a concrete machine.
use keelos.Prelude.{ℕ, String, ◌≡◌, ◌≢◌, ◌↔◌, ◌≤◌, refl, arith, eq_iff, true, false, none, some, ok}
use keelos.Prelude.Dict.{get}
use keelos.Agent.Disk.{other_index}
use keelos.Agent.Disk.Slots.{inactive-other}
use keelos.Agent.Disk.Flash.{flash_image}
use keelos.Agent.Disk.Flash.Laws.{Holds, flash-Holds}
use keelos.Agent.Disk.Flash.Untouched.{flash-other}
use keelos.Agent.Disk.Boot.{clear_boot_counter, is_boot_loop}
use keelos.Agent.Disk.Boot.Laws.{boots, is_boot_loop_iff}
use keelos.Agent.Examples.RollbackCodec.{codec-IsFaithful, codec-IsTotal}
use keelos.Agent.Examples.Machine.{
  system, tools, disks, env, boot, virtio_system, virtio_active, virtio_inactive,
}

flashed :
    (flash_image tools system "http://os/delta" "/dev/sda3"
      (some "AB12")
      true
      (some "http://os/image")
      disks).1
    ≡ ok 0
unfolding flash_image get
flashed = refl

flash-Holds_example :
    Holds tools "/dev/sda3" "AB12"
      (flash_image tools system "http://os/delta" "/dev/sda3"
        (some "AB12")
        true
        (some "http://os/image")
        disks).0
flash-Holds_example =
    flash-Holds tools system "http://os/delta" "/dev/sda3" "AB12" true (some "http://os/image")
      disks 0 refl flashed

not_target : ◌≢◌ {A = String} "/dev/sda2" "/dev/sda3"
not_target h = ground (arith, eq_iff "/dev/sda2" "/dev/sda3")

flash-other_example :
    get "/dev/sda2"
      (flash_image tools system "http://os/image" "/dev/sda3" (some "ff") false none disks).0
    ≡ get "/dev/sda2" disks
flash-other_example =
    flash-other tools system "http://os/image" "/dev/sda3" "/dev/sda2" (some "ff") false none disks
      not_target

one-three : ◌≢◌ {A = ℕ} 1 3
one-three h = omega (arith, h)

one-other_index : 1 ≢ other_index 3
unfolding other_index
one-other_index h = omega (arith, h)

is_boot_loop_iff_example :
    (is_boot_loop env (boots env 3 (clear_boot_counter env boot).0) ≡ true) ↔ (3 ≤ 3)
is_boot_loop_iff_example =
    is_boot_loop_iff env 3 boot codec-IsFaithful codec-IsTotal refl refl (omega arith)

inactive-other_example : (◌≢◌ {A = String} "/dev/vda3" "/dev/vda2") × (3 ≡ other_index 2)
inactive-other_example =
    inactive-other virtio_system (record { device = "/dev/vda2"; index = 2 })
      (record { device = "/dev/vda3"; index = 3 }) virtio_active virtio_inactive
