-- ===== src/Storage/Laws.antt =====
-- What the preflight of src/storage.rs decides on a policy that the configuration let through.
use commit_ci_preflight.Prelude.{
  ℕ, ◌+◌, ◌≤◌, ◌<◌, String, true, false, ◌≡◌, refl, List, Option, some, arith, ltb, ◌⊎◌, inl, inr,
  Bool-cases,
}
use commit_ci_preflight.Outcome.{ok, err, ◌>>=◌, ◌>>◌, reject}
use commit_ci_preflight.Config.Data.{
  NormalizedStorage, StorageConfig, NormalizedCheck, max_storage_bytes,
}
use commit_ci_preflight.Config.Storage.{checked_add, then_add, normalize_storage}
use commit_ci_preflight.Config.Storage.Laws.{normalize_storage-IsWithinBudget}
use commit_ci_preflight.Storage.{insufficient, StoragePreflight, Checked, required_bytes, preflight}

-- The four parts of a policy together.
abbrev pub total_of : NormalizedStorage → ℕ
total_of n =
    n.min_free_bytes + n.receipt_journal_reserve_bytes + n.max_cache_growth_bytes
    + n.max_artifact_bytes

sum_fits :
    (a b c d : ℕ)
    → a + b + c + d ≤ max_storage_bytes
    → then_add (then_add (checked_add a b) c) d ≡ some (a + b + c + d)
sum_fits a b c d h = ground arith

required_bytes_fits :
    (n : NormalizedStorage) → total_of n ≤ max_storage_bytes → required_bytes n ≡ ok (total_of n)
unfolding required_bytes
required_bytes_fits n h =
    rw
      (sum_fits n.min_free_bytes n.receipt_journal_reserve_bytes n.max_cache_growth_bytes
        n.max_artifact_bytes h)
      refl

-- How the preflight ends: the probe fails, or there is room for the whole policy, or it says how
-- much room there is and how much the policy requires.
abbrev pub IsDecided : NormalizedStorage → Checked ℕ → Checked StoragePreflight → Type 0
IsDecided n (err e) result = result ≡ err e
IsDecided n (ok available) result =
    (total_of n ≤ available
      × (result ≡ ok (record { available_bytes = available; required_bytes = total_of n })))
    ⊎ (available < total_of n × (result ≡ err (insufficient available (total_of n))))

less : (a b : ℕ) → ltb a b ≡ true → a < b
less a b h = ground arith

at_least : (a b : ℕ) → ltb a b ≡ false → b ≤ a
at_least a b h = ground arith

decided :
    (n : NormalizedStorage) (found : Checked ℕ)
    → IsDecided n found (
        found >>= λ available.
        reject (ltb available (total_of n)) (insufficient available (total_of n))
        >> ok (record { available_bytes = available; required_bytes = total_of n }))
decided n (err e) = refl
decided n (ok available) = elim (Bool-cases (ltb available (total_of n))) [
  | inl short ↦ inr (less available (total_of n) short, rw short refl)
  | inr enough ↦ inl (at_least available (total_of n) enough, rw enough refl)
]

-- On a policy that normalize_storage made, the preflight never reports an overflow: it fails with
-- the probe, or it compares the available space with the exact sum of the four parts of the policy
-- and succeeds or reports both numbers.
pub preflight-IsDecided :
    (version : String) (storage : Option StorageConfig) (checks : List NormalizedCheck)
    (n : NormalizedStorage) (cache_root : String) (available_bytes : String → Checked ℕ)
    → normalize_storage version storage checks ≡ ok (some n)
    → IsDecided n (available_bytes cache_root) (preflight n cache_root available_bytes)
unfolding preflight
preflight-IsDecided version storage checks n cache_root available_bytes h =
    let (_, budget) = normalize_storage-IsWithinBudget version storage checks n h in
    rw (required_bytes_fits n budget.total) (decided n (available_bytes cache_root))
