-- ===== src/Config/Plan.antt =====
-- `ConfigV1::parse`, `validate_top_level`, `into_plan` and `canonical_bytes` of src/config.rs.
pub mod Laws
use commit_ci_preflight.Prelude.{ℕ, String, Bool, not, ◌||◌, Option, List, ltb, str_eq}
use commit_ci_preflight.Outcome.{ok, ◌>>=◌, ◌>>◌, reject, ok_or, map_err}
use commit_ci_preflight.Text.{len}
use commit_ci_preflight.Canonical.Digest.{Serialize, Codec, canonical_json, canonical_digest}
use commit_ci_preflight.Config.Data.{
  ConfigV1, NormalizedReceipt, ExecutionPlanV1, ExecutionPlanEnvelopeV1, config_schema_version,
  max_config_bytes, max_cpu_count, max_memory_mib, max_pids,
}
use commit_ci_preflight.Config.Failure.{
  ConfigError, unsupported_schema_version, config_too_large, invalid_field, plan_digest_mismatch,
  Verdict, Checked,
}
use commit_ci_preflight.Config.Fields.{
  validate_repository_identity, validate_image_reference, validate_bounded, validate_relative_path,
}
use commit_ci_preflight.Config.Runtime.{normalize_runtime}
use commit_ci_preflight.Config.Caches.{normalize_caches}
use commit_ci_preflight.Config.Environment.{normalize_environment}
use commit_ci_preflight.Config.Checks.{normalize_checks}
use commit_ci_preflight.Config.Storage.{normalize_storage}
use commit_ci_preflight.Config.Isolation.{validate_path_isolation}

-- `toml::from_str` is the parameter.
unfoldable pub parse : (String → Option ConfigV1) → String → Checked ConfigV1
parse from_str input = do
  reject (ltb max_config_bytes (len input)) (config_too_large (len input) max_config_bytes)
  ok_or (from_str input) ConfigError.parse

abbrev pub is_supported_version : String → Bool
is_supported_version version =
    str_eq version config_schema_version
    || str_eq version "1.1"
    || str_eq version "1.2"
    || str_eq version "1.3"

unfoldable pub validate_top_level : ConfigV1 → Verdict
validate_top_level config = do
  reject (not (is_supported_version config.schema_version))
      (unsupported_schema_version config.schema_version)
  validate_repository_identity config.project
  validate_image_reference config.runtime.image
  validate_bounded "runtime.cpu_count" config.runtime.cpu_count 1 max_cpu_count
  validate_bounded "runtime.memory_mib" config.runtime.memory_mib 64 max_memory_mib
  validate_bounded "runtime.pids_limit" config.runtime.pids_limit 1 max_pids
  validate_relative_path "receipt.output" config.receipt.output
  reject (str_eq config.receipt.output ".") (invalid_field "receipt.output")
  validate_bounded "receipt.freshness_seconds" config.receipt.freshness_seconds 1 31_536_000

module _ (codec : Codec) ⦃text : Serialize String⦄ ⦃plan : Serialize ExecutionPlanV1⦄ where
  -- `into_plan` up to the digest.
  unfoldable pub normalize_plan : ConfigV1 → Checked ExecutionPlanV1
  normalize_plan config = do
    validate_top_level config
    caches ← normalize_caches config.caches
    runtime ← normalize_runtime config.schema_version config.runtime
    environment ← normalize_environment codec config.schema_version config.environment caches
    checks ← normalize_checks config.checks
    storage ← normalize_storage config.schema_version config.storage checks
    let receipt : NormalizedReceipt = record {
      output = config.receipt.output;
      freshness_seconds = config.receipt.freshness_seconds;
    }
    validate_path_isolation receipt caches checks
    ok (record {
      schema_version = config.schema_version;
      project = config.project;
      runtime = runtime;
      receipt = receipt;
      environment = environment;
      caches = caches;
      storage = storage;
      checks = checks;
    })

  unfoldable pub into_plan : ConfigV1 → Checked ExecutionPlanEnvelopeV1
  into_plan config = do
    normalized ← normalize_plan config
    digest ← map_err (λ e. ConfigError.receipt) (canonical_digest codec normalized)
    ok (record {
      plan_digest = digest;
      plan = normalized;
      fixed_environment = config.environment.fixed;
    })

module _ (codec : Codec) ⦃plan : Serialize ExecutionPlanV1⦄
    ⦃envelope : Serialize ExecutionPlanEnvelopeV1⦄ where
  unfoldable pub canonical_bytes : ExecutionPlanEnvelopeV1 → Checked (List ℕ)
  canonical_bytes sealed = do
    expected ← map_err (λ e. ConfigError.receipt) (canonical_digest codec sealed.plan)
    reject (not (str_eq sealed.plan_digest expected)) plan_digest_mismatch
    map_err (λ e. ConfigError.receipt) (canonical_json codec sealed)
