-- ===== src/Init/Telemetry.antt =====
-- cmd/keel-init/src/telemetry.rs: the durations of the phases of the boot. The text form of the
-- metrics (serde_json) is left out.
pub mod Laws
use keelos.Prelude.{ℕ, ◌-◌, String, Option, none, some, []}
use keelos.Prelude.Dict.{Dict, put}

-- The times are those of a clock that never goes back; a duration is 0 if it would be negative.
pub record BootPhaseTracker : Type 0 where
  pub start_time : ℕ
  pub phases : Dict ℕ
  pub current_phase : Option (String × ℕ)

pub record BootMetrics : Type 0 where
  pub total_boot_time : ℕ
  pub phases : Dict ℕ

abbrev pub new : ℕ → BootPhaseTracker
new now = record { start_time = now; phases = []; current_phase = none }

abbrev pub completed : ℕ → Option (String × ℕ) → Dict ℕ → Dict ℕ
completed now none phases = phases
completed now (some (name, start)) phases = put name (now - start) phases

-- The phase that ends and the one that starts read the clock one after the other.
unfoldable pub start_phase : String → ℕ → ℕ → BootPhaseTracker → BootPhaseTracker
start_phase name ended started t = record t {
  phases = completed ended t.current_phase t.phases;
  current_phase = some (name, started);
}

unfoldable pub end_current_phase : ℕ → BootPhaseTracker → BootPhaseTracker
end_current_phase now t = record t {
  phases = completed now t.current_phase t.phases;
  current_phase = none;
}

unfoldable pub get_metrics : ℕ → BootPhaseTracker → BootMetrics
get_metrics now t = record { total_boot_time = now - t.start_time; phases = t.phases }
