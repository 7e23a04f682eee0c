-- ===== src/Config/Failure.antt =====
-- `ConfigError` of src/config.rs. The payloads of errors that other crates raise are left out.
use commit_ci_preflight.Prelude.{ℕ, String, List}
use commit_ci_preflight.Outcome.{Outcome}

pub data ConfigError : Type 0 where
  io parse receipt : ConfigError
  unsupported_schema_version : String → ConfigError
  config_too_large : (actual maximum : ℕ) → ConfigError
  invalid_field : String → ConfigError
  out_of_range : (field : String) → (minimum maximum actual : ℕ) → ConfigError
  too_many_items : (field : String) → (actual maximum : ℕ) → ConfigError
  no_checks no_required_checks : ConfigError
  duplicate_id : (field id : String) → ConfigError
  duplicate_value : String → ConfigError
  duplicate_artifact : String → ConfigError
  path_overlap : (first second : String) → ConfigError
  self_dependency : String → ConfigError
  unknown_dependency : (check dependency : String) → ConfigError
  unknown_environment_cache : (name cache_id : String) → ConfigError
  missing_storage_policy missing_runtime_capability_policy : ConfigError
  dependency_cycle : List String → ConfigError
  plan_digest_mismatch : ConfigError
  -- Not of the source: a panic of the process, which the source rules out by `expect`.
  panicked : ConfigError

-- What a validator returns.
abbrev pub Verdict : Type 0
Verdict = Outcome ConfigError (Unit {0})

abbrev pub Checked {ℓ} : Type ℓ → Type ℓ
Checked A = Outcome ConfigError A
