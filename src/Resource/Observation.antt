-- ===== src/Resource/Observation.antt =====
-- `ResourceObservation` of src/resource.rs: the extrema of the samples of a run. The mutex around
-- the summary is not poisoned, since nothing panics while it is held.
use commit_ci_preflight.Prelude.{ℕ, ◌+◌, ltb, if◌then◌else◌, ◌^◌, ◌-◌}
use commit_ci_preflight.Resource.Snapshot.{ResourceSnapshot}

pub record ResourceObservationSummary : Type 0 where
  pub baseline : ResourceSnapshot
  pub last_snapshot : ResourceSnapshot
  pub sample_count : ℕ
  pub minimum_available_percent : ℕ
  pub minimum_reclaimable_uncompressed_bytes : ℕ
  pub maximum_compressor_occupied_bytes : ℕ
  pub maximum_swap_used_bytes : ℕ

abbrev pub min : ℕ → ℕ → ℕ
min a b = if ltb b a then b else a

abbrev pub max : ℕ → ℕ → ℕ
max a b = if ltb a b then b else a

-- `saturating_add(1)` of `u64`.
abbrev pub saturating_suc_u64 : ℕ → ℕ
saturating_suc_u64 n = if ltb n (2 ^ 64 - 1) then n + 1 else 2 ^ 64 - 1

unfoldable pub new : ResourceSnapshot → ResourceObservationSummary
new s = record {
  baseline = s;
  last_snapshot = s;
  sample_count = 1;
  minimum_available_percent = s.available_percent;
  minimum_reclaimable_uncompressed_bytes = s.reclaimable_uncompressed_bytes;
  maximum_compressor_occupied_bytes = s.compressor_occupied_bytes;
  maximum_swap_used_bytes = s.swap_used_bytes;
}

unfoldable pub record_sample :
    ResourceObservationSummary → ResourceSnapshot → ResourceObservationSummary
record_sample o s = record o {
  sample_count = saturating_suc_u64 o.sample_count;
  minimum_available_percent = min o.minimum_available_percent s.available_percent;
  minimum_reclaimable_uncompressed_bytes =
      min o.minimum_reclaimable_uncompressed_bytes s.reclaimable_uncompressed_bytes;
  maximum_compressor_occupied_bytes =
      max o.maximum_compressor_occupied_bytes s.compressor_occupied_bytes;
  maximum_swap_used_bytes = max o.maximum_swap_used_bytes s.swap_used_bytes;
  last_snapshot = s;
}
