-- ===== src/Storage.antt =====
-- The storage preflight of src/storage.rs. The probe of the file system is a parameter.
pub mod Laws
use commit_ci_preflight.Prelude.{ℕ, String, ltb}
use commit_ci_preflight.Outcome.{Outcome, ok, ◌>>=◌, ◌>>◌, reject, ok_or}
use commit_ci_preflight.Config.Data.{NormalizedStorage}
use commit_ci_preflight.Config.Storage.{checked_add, then_add}

-- The path and the source of a failed probe are left out.
pub data StorageError : Type 0 where
  probe policy_overflow : StorageError
  insufficient : (available_bytes required_bytes : ℕ) → StorageError

pub record StoragePreflight : Type 0 where
  pub available_bytes : ℕ  -- u64
  pub required_bytes : ℕ  -- u64

abbrev pub Checked : Type 0 → Type 0
Checked A = Outcome StorageError A

unfoldable pub required_bytes : NormalizedStorage → Checked ℕ
required_bytes policy =
    ok_or
      (then_add
        (then_add (checked_add policy.min_free_bytes policy.receipt_journal_reserve_bytes)
          policy.max_cache_growth_bytes)
        policy.max_artifact_bytes)
      policy_overflow

-- `available_bytes` is the probe's method.
unfoldable pub preflight :
    NormalizedStorage → String → (available_bytes : String → Checked ℕ) → Checked StoragePreflight
unfolding required_bytes
preflight policy cache_root available_bytes = do
  required ← required_bytes policy
  available ← available_bytes cache_root
  reject (ltb available required) (insufficient available required)
  ok (record { available_bytes = available; required_bytes = required })
