-- ===== src/Agent/Executor/Install.antt =====
-- cmd/keel-agent/src/lib.rs: `install_update`, the stream of its progress, and `trigger_rollback`.
pub mod Laws
use keelos.Prelude.{
  ℕ, ltb, if◌then◌else◌, String, is_empty, format, show, Bool, true, false, ◌&&◌, not, Option, none,
  some, List, [], ◌∷◌, ◌++◌, Result, ok, err, ◌>>◌,
}
use keelos.Agent.Status.{Status, internal}
use keelos.Agent.Io.{IoError, Io}
use keelos.Agent.Rbac.{operator, admin, authorize}
use keelos.Agent.Disk.{PartitionInfo, get_inactive_partition}
use keelos.Agent.Disk.Flash.{Disks, flash_image}
use keelos.Agent.Disk.Boot.{Boot, switch_boot_partition, rollback_to_previous_partition}
use keelos.Agent.Executor.{Machine, Env}

pub record InstallUpdateRequest : Type 0 where
  pub source_url : String
  pub expected_sha256 : String
  pub is_delta : Bool
  pub fallback_to_full : Bool
  pub full_image_url : String

pub record UpdateProgress : Type 0 where
  pub percentage : ℕ
  pub message : String
  pub success : Bool
  pub download_speed_bps : ℕ
  pub eta_seconds : ℕ
  pub phase : String
  pub bytes_saved : ℕ

-- What a client sees: the messages, and the error with which the stream ends, if it ends with one.
pub record Stream : Type 0 where
  pub items : List UpdateProgress
  pub end : Result (Unit {0}) Status

abbrev pub progress : ℕ → String → String → ℕ → UpdateProgress
progress p message phase saved = record {
  percentage = p;
  message = message;
  success = false;
  download_speed_bps = 0;
  eta_seconds = 0;
  phase = phase;
  bytes_saved = saved;
}

abbrev pub internal_error : String → String → Result (Unit {0}) Status
internal_error what e = err (record { code = internal; message = format (what ∷ e ∷ []) })

abbrev pub non_empty : String → Option String
non_empty s = if is_empty s then none else some s

abbrev pub fallback_of : InstallUpdateRequest → Option String
fallback_of req =
    if req.fallback_to_full && not (is_empty req.full_image_url)
    then some req.full_image_url
    else none

abbrev pub before_flash : InstallUpdateRequest → PartitionInfo → List UpdateProgress
before_flash req inactive =
    progress 0 "Identifying target partition..." "preparing" 0
    ∷ progress 10 (format ("Target partition identified: " ∷ inactive.device ∷ [])) "preparing" 0
    ∷ progress 20
        (if req.is_delta
          then format ("Downloading delta and patching to " ∷ inactive.device ∷ "..." ∷ [])
          else format ("Downloading and flashing to " ∷ inactive.device ∷ "..." ∷ []))
        "downloading" 0
    ∷ []

abbrev pub after_flash : ℕ → List UpdateProgress
after_flash saved = progress 80 "Image flashed. Toggling boot flags..." "verifying" saved ∷ []

abbrev pub final : ℕ → UpdateProgress
final saved = record {
  percentage = 100;
  message =
      if ltb 0 saved
      then format
          ("Update installed successfully. Saved " ∷ show saved ∷ " bytes. Reboot to apply." ∷ [])
      else "Update installed successfully. Reboot to apply.";
  success = true;
  download_speed_bps = 0;
  eta_seconds = 0;
  phase = "completed";
  bytes_saved = saved;
}

abbrev pub switch_done :
    InstallUpdateRequest → PartitionInfo → ℕ → Machine → Boot × Io (Unit {0}) → Machine × Stream
switch_done req inactive saved m (b, ok tt) = (
  record m { boot = b },
  record {
    items = before_flash req inactive ++ after_flash saved ++ (final saved ∷ []);
    end = ok tt;
  },
)
switch_done req inactive saved m (b, err e) = (
  record m { boot = b },
  record {
    items = before_flash req inactive ++ after_flash saved;
    end = internal_error "Failed to switch boot partition: " e.message;
  },
)

abbrev pub flash_done :
    InstallUpdateRequest → PartitionInfo → Env → Machine → Disks × Io ℕ → Machine × Stream
unfolding switch_boot_partition
flash_done req inactive env m (d, ok saved) =
    switch_done req inactive saved (record m { disks = d })
      (switch_boot_partition inactive.index env.boot m.boot)
flash_done req inactive env m (d, err e) = (
  record m { disks = d },
  record { items = before_flash req inactive; end = internal_error "Flash error: " e.message },
)

-- The stream, read to its end.
unfoldable pub run_install : InstallUpdateRequest → Env → Machine → Machine × Stream
unfolding get_inactive_partition flash_image flash_done
run_install req env m = elim (get_inactive_partition env.boot.system) [
  | err e ↦ (
    m,
    record {
      items = progress 0 "Identifying target partition..." "preparing" 0 ∷ [];
      end = internal_error "Failed to get inactive partition: " e.message;
    },
  )
  | ok inactive ↦ flash_done req inactive env m (
      flash_image env.tools env.boot.system req.source_url inactive.device
        (non_empty req.expected_sha256) req.is_delta (fallback_of req) m.disks)
]

pub record TriggerRollbackResponse : Type 0 where
  pub success : Bool
  pub message : String

abbrev pub rolled_back : Machine → Boot × Io (Unit {0}) → Machine × TriggerRollbackResponse
rolled_back m (b, ok tt) = (
  record m { boot = b },
  record {
    success = true;
    message = "Rollback completed. System will reboot to previous partition.";
  },
)
rolled_back m (b, err e) = (
  record m { boot = b },
  record { success = false; message = format ("Rollback failed: " ∷ e.message ∷ []) },
)

module _ {Cert : Type 0} (organizations : Cert → Result (List (Option String)) String) where
  unfoldable pub install_update :
      Option (List Cert) → InstallUpdateRequest → Env → Machine → Result (Machine × Stream) Status
  unfolding authorize run_install
  install_update certs req env m =
      authorize organizations certs operator >> ok (run_install req env m)

  unfoldable pub trigger_rollback :
      Option (List Cert) → Env → Machine → Result (Machine × TriggerRollbackResponse) Status
  unfolding authorize rollback_to_previous_partition
  trigger_rollback certs env m =
      authorize organizations certs admin
      >> ok (rolled_back m (rollback_to_previous_partition env.boot m.boot))
