-- ===== src/Config/Storage.antt =====
-- `normalize_storage` of src/config.rs.
pub mod Laws
use commit_ci_preflight.Prelude.{
  ℕ, ◌+◌, ◌^◌, String, Bool, not, ◌||◌, Option, none, some, List, [], ◌∷◌, ◌++◌, ltb, if◌then◌else◌,
  str_eq,
}
use commit_ci_preflight.Outcome.{ok, ◌>>=◌, ◌>>◌, reject, ok_or}
use commit_ci_preflight.Config.Data.{
  StorageConfig, NormalizedStorage, NormalizedCheck, NormalizedArtifactContract, max_storage_bytes,
  min_receipt_journal_reserve_bytes,
}
use commit_ci_preflight.Config.Failure.{
  invalid_field, out_of_range, missing_storage_policy, Checked,
}
use commit_ci_preflight.Config.Fields.{validate_bounded}
use commit_ci_preflight.Config.Runtime.{is_some}

abbrev pub u64_mod : ℕ
u64_mod = 2 ^ 64

-- `u64::checked_add`.
abbrev pub checked_add : ℕ → ℕ → Option ℕ
checked_add a b = if ltb (a + b) u64_mod then some (a + b) else none

-- `and_then(|total| total.checked_add(b))`.
abbrev pub then_add : Option ℕ → ℕ → Option ℕ
then_add none b = none
then_add (some total) b = checked_add total b

-- `checks.iter().flat_map(|check| check.artifact_contracts.iter())`.
abbrev pub all_contracts : List NormalizedCheck → List NormalizedArtifactContract
all_contracts [] = []
all_contracts (check ∷ checks) = check.artifact_contracts ++ all_contracts checks

-- The `try_fold` over the contracts.
unfoldable pub total_max_bytes : ℕ → List NormalizedArtifactContract → Option ℕ
total_max_bytes total [] = some total
total_max_bytes total (artifact ∷ artifacts) =
    let next = total_max_bytes (total + artifact.max_bytes) artifacts in
    if ltb (total + artifact.max_bytes) u64_mod then next else none

-- The sum of a policy's four parts, which `storage::required_bytes` computes too.
unfoldable pub sum_of_parts : (a b c d : ℕ) → Option ℕ
sum_of_parts a b c d = then_add (then_add (checked_add a b) c) d

unfoldable pub normalize_present_storage :
    StorageConfig → List NormalizedCheck → Checked (Option NormalizedStorage)
unfolding total_max_bytes sum_of_parts validate_bounded
normalize_present_storage storage checks = do
  validate_bounded "storage.min_free_bytes" storage.min_free_bytes 1 max_storage_bytes
  validate_bounded "storage.receipt_journal_reserve_bytes" storage.receipt_journal_reserve_bytes
      min_receipt_journal_reserve_bytes max_storage_bytes
  validate_bounded "storage.max_cache_growth_bytes" storage.max_cache_growth_bytes 0
      max_storage_bytes
  max_artifact_bytes ←
      ok_or (total_max_bytes 0 (all_contracts checks)) (invalid_field "storage.max_artifact_bytes")
  required ←
      ok_or
        (sum_of_parts storage.min_free_bytes storage.receipt_journal_reserve_bytes
          storage.max_cache_growth_bytes max_artifact_bytes)
        (invalid_field "storage")
  reject (ltb max_storage_bytes required)
      (out_of_range "storage.required_free_bytes" 1 max_storage_bytes required)
  ok (
      some (record {
        min_free_bytes = storage.min_free_bytes;
        receipt_journal_reserve_bytes = storage.receipt_journal_reserve_bytes;
        max_cache_growth_bytes = storage.max_cache_growth_bytes;
        max_artifact_bytes = max_artifact_bytes;
      }))

-- `matches!(schema_version, "1.2" | "1.3")`.
abbrev pub has_storage_policy : String → Bool
has_storage_policy schema_version = str_eq schema_version "1.2" || str_eq schema_version "1.3"

unfoldable pub normalize_storage :
    String → Option StorageConfig → List NormalizedCheck → Checked (Option NormalizedStorage)
unfolding normalize_present_storage
normalize_storage schema_version storage checks =
    if not (has_storage_policy schema_version)
    then (do reject (is_some storage) (invalid_field "storage"); ok none)
    else (do s ← ok_or storage missing_storage_policy; normalize_present_storage s checks)
