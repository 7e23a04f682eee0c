-- ===== src/Config/Storage/Laws.antt =====
-- The storage policy that `normalize_storage` (src/config.rs) lets through.
use commit_ci_preflight.Prelude.{
  ℕ, ◌+◌, ◌≤◌, String, true, false, Bool-cases, inl, inr, ◌≡◌, ◌∙◌, List, [], ◌∷◌, Option, none,
  some, arith, ltb,
}
use mathlib.Core.Path.{subst}
use commit_ci_preflight.Outcome.{
  ok, ok_or, ok_inj, some_inj, >>=-eq-ok, >>-eq-ok, reject->>-eq-ok, ok_or-eq-ok,
}
use commit_ci_preflight.Config.Data.{
  StorageConfig, NormalizedStorage, NormalizedCheck, NormalizedArtifactContract, max_storage_bytes,
  min_receipt_journal_reserve_bytes,
}
use commit_ci_preflight.Config.Failure.{invalid_field, out_of_range}
use commit_ci_preflight.Config.Fields.{validate_bounded}
use commit_ci_preflight.Config.Fields.Accepted.{validate_bounded_ok}
use commit_ci_preflight.Config.Storage.{
  all_contracts, total_max_bytes, sum_of_parts, normalize_present_storage, normalize_storage,
  has_storage_policy,
}

abbrev pub sum_max_bytes : List NormalizedArtifactContract → ℕ
sum_max_bytes [] = 0
sum_max_bytes (artifact ∷ artifacts) = artifact.max_bytes + sum_max_bytes artifacts

total_max_bytes_lem :
    (total : ℕ) (artifacts : List NormalizedArtifactContract) {sum : ℕ}
    → total_max_bytes total artifacts ≡ some sum
    → sum ≡ total + sum_max_bytes artifacts
unfolding total_max_bytes
total_max_bytes_lem total [] h = ground arith
total_max_bytes_lem total (artifact ∷ artifacts) {sum} h =
    ground (arith, total_max_bytes_lem (total + artifact.max_bytes) artifacts {sum = sum})

sum_of_parts_lem : (a b c d : ℕ) {sum : ℕ} → sum_of_parts a b c d ≡ some sum → sum ≡ a + b + c + d
unfolding sum_of_parts
sum_of_parts_lem a b c d h = ground arith

-- What the policy of a plan leaves to the preflight.
pub record IsWithinBudget (n : NormalizedStorage) (checks : List NormalizedCheck) : Type 0 where
  pub some_free : 1 ≤ n.min_free_bytes
  pub reserve : min_receipt_journal_reserve_bytes ≤ n.receipt_journal_reserve_bytes
  pub artifacts : n.max_artifact_bytes ≡ sum_max_bytes (all_contracts checks)
  pub total :
      n.min_free_bytes + n.receipt_journal_reserve_bytes + n.max_cache_growth_bytes
        + n.max_artifact_bytes
      ≤ max_storage_bytes

zero_add : (n : ℕ) → 0 + n ≡ n
zero_add n = omega arith

at_most :
    (required total : ℕ)
    → required ≡ total
    → ltb max_storage_bytes required ≡ false
    → total ≤ max_storage_bytes
at_most required total e h = ground arith

normalize_present_storage-IsWithinBudget :
    (storage : StorageConfig) (checks : List NormalizedCheck) (n : NormalizedStorage)
    → normalize_present_storage storage checks ≡ ok (some n)
    → IsWithinBudget n checks
unfolding normalize_present_storage
normalize_present_storage-IsWithinBudget storage checks n h =
    let (free, h1) =
      >>-eq-ok
        (validate_bounded "storage.min_free_bytes" storage.min_free_bytes 1 max_storage_bytes) _
        h in
    let (reserve, h2) =
      >>-eq-ok
        (validate_bounded "storage.receipt_journal_reserve_bytes"
          storage.receipt_journal_reserve_bytes min_receipt_journal_reserve_bytes max_storage_bytes)
        _ h1 in
    let (growth, h3) =
      >>-eq-ok
        (validate_bounded "storage.max_cache_growth_bytes" storage.max_cache_growth_bytes 0
          max_storage_bytes)
        _ h2 in
    let (artifacts, a, h4) =
      >>=-eq-ok
        (ok_or (total_max_bytes 0 (all_contracts checks))
          (invalid_field "storage.max_artifact_bytes"))
        _ h3 in
    let (required, r, h5) =
      >>=-eq-ok
        (ok_or
          (sum_of_parts storage.min_free_bytes storage.receipt_journal_reserve_bytes
            storage.max_cache_growth_bytes artifacts)
          (invalid_field "storage"))
        _ h4 in
    let (bounded, h6) =
      reject->>-eq-ok (ltb max_storage_bytes required)
        (out_of_range "storage.required_free_bytes" 1 max_storage_bytes required) _ h5 in
    let sum =
      sum_of_parts_lem storage.min_free_bytes storage.receipt_journal_reserve_bytes
        storage.max_cache_growth_bytes artifacts {sum = required}
        (ok_or-eq-ok _ (invalid_field "storage") r) in
    subst (λ n. IsWithinBudget n checks) (some_inj (ok_inj h6))
      (record {
        some_free =
            (validate_bounded_ok "storage.min_free_bytes" storage.min_free_bytes 1 max_storage_bytes
              free).0;
        reserve =
            (validate_bounded_ok "storage.receipt_journal_reserve_bytes"
              storage.receipt_journal_reserve_bytes min_receipt_journal_reserve_bytes
              max_storage_bytes reserve).0;
        artifacts =
            total_max_bytes_lem 0 (all_contracts checks) {sum = artifacts}
              (ok_or-eq-ok _ (invalid_field "storage.max_artifact_bytes") a)
            ∙ zero_add (sum_max_bytes (all_contracts checks));
        total = at_most required _ sum bounded;
      })

-- A plan that normalize_storage gives a policy is of schema 1.2 or 1.3, its artifact bytes are the
-- exact sum over all contracts, the free space and the reserve are at least their minima, and the
-- four parts together are at most the largest allowed sum.
pub normalize_storage-IsWithinBudget :
    (version : String) (storage : Option StorageConfig) (checks : List NormalizedCheck)
    (n : NormalizedStorage)
    → normalize_storage version storage checks ≡ ok (some n)
    → (has_storage_policy version ≡ true) × IsWithinBudget n checks
unfolding normalize_storage
normalize_storage-IsWithinBudget version none checks n h =
    elim (Bool-cases (has_storage_policy version)) [
      | inl supported ↦ absurd (cc (rw supported at h))
      | inr other ↦ absurd (cc (rw other at h))
    ]
normalize_storage-IsWithinBudget version (some storage) checks n h =
    elim (Bool-cases (has_storage_policy version)) [
      | inl supported ↦
          (supported, normalize_present_storage-IsWithinBudget storage checks n (rw supported at h))
      | inr other ↦ absurd (cc (rw other at h))
    ]

-- The storage of the plan is the configured one, if any.
abbrev pub IsStorageOf : Option StorageConfig → Option NormalizedStorage → Type 0
IsStorageOf none none = Unit
IsStorageOf none (some n) = ⊥
IsStorageOf (some storage) none = ⊥
IsStorageOf (some storage) (some n) =
    (n.min_free_bytes ≡ storage.min_free_bytes)
    × (n.receipt_journal_reserve_bytes ≡ storage.receipt_journal_reserve_bytes)
    × (n.max_cache_growth_bytes ≡ storage.max_cache_growth_bytes)

normalize_present_storage-IsStorageOf :
    (storage : StorageConfig) (checks : List NormalizedCheck) (made : Option NormalizedStorage)
    → normalize_present_storage storage checks ≡ ok made
    → IsStorageOf (some storage) made
unfolding normalize_present_storage
normalize_present_storage-IsStorageOf storage checks none h = absurd (ground arith)
normalize_present_storage-IsStorageOf storage checks (some n) h = ground arith

pub normalize_storage-IsStorageOf :
    (version : String) (storage : Option StorageConfig) (checks : List NormalizedCheck)
    (made : Option NormalizedStorage)
    → normalize_storage version storage checks ≡ ok made
    → IsStorageOf storage made
unfolding normalize_storage
normalize_storage-IsStorageOf version none checks none h = tt
normalize_storage-IsStorageOf version none checks (some n) h = absurd (ground arith)
normalize_storage-IsStorageOf version (some storage) checks made h =
    elim (Bool-cases (has_storage_policy version)) [
      | inl has ↦ normalize_present_storage-IsStorageOf storage checks made (rw has at h)
      | inr has_none ↦ absurd (ground arith)
    ]
