-- ===== src/Resource/Snapshot.antt =====
-- The snapshot of src/resource.rs, its thresholds and the decision before a run starts.
use commit_ci_preflight.Prelude.{ℕ, ◌*◌, Bool, not, ◌&&◌, ◌||◌, ltb, leb, ◌==◌, if◌then◌else◌}
use commit_ci_preflight.Outcome.{Outcome, ok, ◌>>◌, reject}

-- `Process` carries a `ProcessError`, whose payload nothing here reads.
pub data ResourceProbeError : Type 0 where
  malformed_output contradictory_snapshot overflow cancelled command_failed process :
      ResourceProbeError
  watchdog_panicked watchdog_state_poisoned : ResourceProbeError

abbrev pub Probed {ℓ} : Type ℓ → Type ℓ
Probed A = Outcome ResourceProbeError A

pub record ResourceSnapshot : Type 0 where
  pub available_percent : ℕ
  pub reclaimable_uncompressed_bytes : ℕ
  pub compressor_occupied_bytes : ℕ
  pub total_memory_bytes : ℕ
  pub swap_used_bytes : ℕ
  pub swap_total_bytes : ℕ

abbrev pub max_percent : ℕ
max_percent = 100

abbrev pub min_prestart_available_percent : ℕ
min_prestart_available_percent = 20

abbrev pub min_prestart_free_bytes : ℕ
min_prestart_free_bytes = 3 * 1024 * 1024 * 1024

abbrev pub hard_available_percent : ℕ
hard_available_percent = 3

abbrev pub hard_reclaimable_bytes : ℕ
hard_reclaimable_bytes = 512 * 1024 * 1024

abbrev pub hard_compressor_percent : ℕ
hard_compressor_percent = 70

abbrev pub hard_compressor_companion_available_percent : ℕ
hard_compressor_companion_available_percent = 8

abbrev pub soft_available_percent : ℕ
soft_available_percent = 10

abbrev pub soft_reclaimable_bytes : ℕ
soft_reclaimable_bytes = 1536 * 1024 * 1024

abbrev pub soft_compressor_percent : ℕ
soft_compressor_percent = 55

abbrev pub soft_swap_bytes : ℕ
soft_swap_bytes = 4 * 1024 * 1024 * 1024

abbrev pub soft_swap_growth_bytes : ℕ
soft_swap_growth_bytes = 1024 * 1024 * 1024

abbrev pub soft_required_signals : ℕ
soft_required_signals = 2

abbrev pub soft_consecutive_samples : ℕ
soft_consecutive_samples = 15

abbrev pub soft_trend_window_samples : ℕ
soft_trend_window_samples = 16

-- The products are of `u128`, where they do not overflow.
unfoldable pub ratio_at_least : (value total percent : ℕ) → Bool
ratio_at_least value total percent = leb (total * percent) (value * 100)

unfoldable pub is_contradictory : ResourceSnapshot → Bool
is_contradictory s =
    ltb max_percent s.available_percent
    || s.total_memory_bytes == 0
    || ltb s.total_memory_bytes s.reclaimable_uncompressed_bytes
    || ltb s.total_memory_bytes s.compressor_occupied_bytes
    || ltb s.swap_total_bytes s.swap_used_bytes

unfoldable pub validate : ResourceSnapshot → Probed (Unit {0})
unfolding is_contradictory
validate s = reject (is_contradictory s) contradictory_snapshot

unfoldable pub compressor_percent_at_least : ResourceSnapshot → ℕ → Bool
unfolding ratio_at_least
compressor_percent_at_least s percent =
    ratio_at_least s.compressor_occupied_bytes s.total_memory_bytes percent

unfoldable pub has_hard_compound_compression : ResourceSnapshot → Bool
unfolding compressor_percent_at_least
has_hard_compound_compression s =
    compressor_percent_at_least s hard_compressor_percent
    && (leb s.available_percent hard_compressor_companion_available_percent
        || ltb s.reclaimable_uncompressed_bytes soft_reclaimable_bytes
        || leb soft_swap_bytes s.swap_used_bytes)

pub data PreStartDecision : Type 0 where
  admit deny : PreStartDecision

unfoldable pub evaluate_pre_start : ResourceSnapshot → Probed PreStartDecision
unfolding validate has_hard_compound_compression
evaluate_pre_start s = do
  validate s
  ok (
      if leb min_prestart_available_percent s.available_percent
        && leb min_prestart_free_bytes s.reclaimable_uncompressed_bytes
        && not (has_hard_compound_compression s)
      then admit
      else deny)
