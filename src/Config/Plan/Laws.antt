-- ===== src/Config/Plan/Laws.antt =====
-- What a plan that `ConfigV1::into_plan` (src/config.rs) returns satisfies.
use commit_ci_preflight.Prelude.{
  arith, ℕ, String, not, ◌≡◌, ◌≢◌, refl, List, Option, none, some, str_eq, eq_refl,
}
use mathlib.Core.Path.{subst}
use commit_ci_preflight.Outcome.{
  Outcome, ok, err, ◌>>◌, reject, ok_inj, map_err, map_err-eq-ok, >>=-eq-ok, >>-eq-ok,
}
use commit_ci_preflight.Canonical.Digest.{Serialize, Codec, canonical_digest, canonical_json}
use commit_ci_preflight.Config.Data.{
  ConfigV1, ExecutionPlanV1, ExecutionPlanEnvelopeV1, NormalizedReceipt, NormalizedStorage,
  NormalizedCheck, RuntimeConfig, NormalizedRuntime, RuntimePullPolicy, RuntimeSwapMode,
}
use commit_ci_preflight.Config.Failure.{ConfigError, plan_digest_mismatch, Checked}
use commit_ci_preflight.Config.Runtime.{capability_policies, normalize_runtime}
use commit_ci_preflight.Config.Caches.{normalize_caches}
use commit_ci_preflight.Config.Caches.Laws.{AreCachesOf, normalize_caches-AreCachesOf}
use commit_ci_preflight.Config.Environment.{normalize_environment}
use commit_ci_preflight.Config.Checks.{normalize_checks}
use commit_ci_preflight.Config.Checks.Order.{AreChecksOf, normalize_checks-AreChecksOf}
use commit_ci_preflight.Config.Storage.{normalize_storage}
use commit_ci_preflight.Config.Storage.Laws.{
  IsWithinBudget, IsStorageOf, normalize_storage-IsWithinBudget, normalize_storage-IsStorageOf,
}
use commit_ci_preflight.Config.Isolation.{mount_paths, validate_path_isolation}
use commit_ci_preflight.Config.Isolation.Apart.{artifact_paths, IsIsolated}
use commit_ci_preflight.Config.Isolation.Laws.{validate_path_isolation_iff}
use commit_ci_preflight.Config.Plan.{validate_top_level, normalize_plan, into_plan, canonical_bytes}

-- The storage of a plan is absent, or it leaves room for the artifacts.
abbrev pub HasBudget : Option NormalizedStorage → List NormalizedCheck → Type 0
HasBudget none checks = Unit
HasBudget (some n) checks = IsWithinBudget n checks

-- What the plan copies of the configuration of its runtime.
pub record IsRuntimeOf (config : RuntimeConfig) (runtime : NormalizedRuntime) : Type 0 where
  pub kind : runtime.kind ≡ config.kind
  pub image : runtime.image ≡ config.image
  pub cpu_count : runtime.cpu_count ≡ config.cpu_count
  pub memory_mib : runtime.memory_mib ≡ config.memory_mib
  pub pids_limit : runtime.pids_limit ≡ config.pids_limit
  pub network : runtime.network ≡ config.network
  pub pull_policy : runtime.pull_policy ≡ config.pull_policy
  pub swap_mode : runtime.swap_mode ≡ config.swap_mode

-- The project, the runtime, the receipt, the caches, the storage and the checks of the plan are
-- the configured ones, the checks in a run order; its paths are kept apart, and its storage is within
-- the bounds.
pub record IsPlanOf (config : ConfigV1) (plan : ExecutionPlanV1) : Type 0 where
  pub schema_version : plan.schema_version ≡ config.schema_version
  pub project : plan.project ≡ config.project
  pub runtime : IsRuntimeOf config.runtime plan.runtime
  pub output : plan.receipt.output ≡ config.receipt.output
  pub freshness_seconds : plan.receipt.freshness_seconds ≡ config.receipt.freshness_seconds
  pub caches : AreCachesOf config.caches plan.caches
  pub checks : AreChecksOf config.checks plan.checks
  pub storage : IsStorageOf config.storage plan.storage
  pub isolated :
      IsIsolated plan.receipt.output (mount_paths plan.caches) (artifact_paths plan.checks)
  pub budget : HasBudget plan.storage plan.checks

capability_policies_lem :
    (version : String) (config : RuntimeConfig)
    {policies : Option RuntimePullPolicy × Option RuntimeSwapMode}
    → capability_policies version config ≡ ok policies
    → (policies.0 ≡ config.pull_policy) × (policies.1 ≡ config.swap_mode)
unfolding capability_policies
capability_policies_lem version config h = ground arith

normalize_runtime-IsRuntimeOf :
    (version : String) (config : RuntimeConfig) (runtime : NormalizedRuntime)
    → normalize_runtime version config ≡ ok runtime
    → IsRuntimeOf config runtime
unfolding normalize_runtime
normalize_runtime-IsRuntimeOf version config runtime h =
    let (policies, chosen, h1) = >>=-eq-ok (capability_policies version config) _ h in
    let (pull, swap) = capability_policies_lem version config chosen in
    subst (IsRuntimeOf config) (ok_inj h1) (record {
      kind = refl;
      image = refl;
      cpu_count = refl;
      memory_mib = refl;
      pids_limit = refl;
      network = refl;
      pull_policy = pull;
      swap_mode = swap;
    })

budget_of :
    (version : String) (config : ConfigV1) (checks : List NormalizedCheck)
    (storage : Option NormalizedStorage)
    → normalize_storage version config.storage checks ≡ ok storage
    → HasBudget storage checks
budget_of version config checks none h = tt
budget_of version config checks (some n) h =
    (normalize_storage-IsWithinBudget version config.storage checks n h).1

module _ (codec : Codec) ⦃text : Serialize String⦄ ⦃plan : Serialize ExecutionPlanV1⦄ where
  normalize_plan-IsPlanOf :
      (config : ConfigV1) (p : ExecutionPlanV1)
      → normalize_plan codec config ≡ ok p
      → IsPlanOf config p
  unfolding normalize_plan
  normalize_plan-IsPlanOf config p h =
      let (_, h1) = >>-eq-ok (validate_top_level config) _ h in
      let (caches, cached, h2) = >>=-eq-ok (normalize_caches config.caches) _ h1 in
      let (runtime, ran, h3) =
        >>=-eq-ok (normalize_runtime config.schema_version config.runtime) _ h2 in
      let (environment, _, h4) =
        >>=-eq-ok (normalize_environment codec config.schema_version config.environment caches) _
          h3 in
      let (checks, sorted, h5) = >>=-eq-ok (normalize_checks config.checks) _ h4 in
      let (storage, stored, h6) =
        >>=-eq-ok (normalize_storage config.schema_version config.storage checks) _ h5 in
      let receipt : NormalizedReceipt = record {
        output = config.receipt.output;
        freshness_seconds = config.receipt.freshness_seconds;
      } in
      let (apart, h7) = >>-eq-ok (validate_path_isolation receipt caches checks) _ h6 in
      subst (IsPlanOf config) (ok_inj h7) (record {
        schema_version = refl;
        project = refl;
        runtime = normalize_runtime-IsRuntimeOf config.schema_version config.runtime runtime ran;
        output = refl;
        freshness_seconds = refl;
        caches = normalize_caches-AreCachesOf config.caches caches cached;
        checks = normalize_checks-AreChecksOf config.checks checks sorted;
        storage =
            normalize_storage-IsStorageOf config.schema_version config.storage checks storage
              stored;
        isolated = (validate_path_isolation_iff receipt caches checks).0 apart;
        budget = budget_of config.schema_version config checks storage stored;
      })

  -- A plan that into_plan returns has the schema version, project, receipt, runtime and storage of
  -- the configuration (its storage with the artifact bytes added), a cache for each configured
  -- cache and no other, and the configured checks in the sense of normalize_checks, each field of
  -- them kept, each id once and each check after its dependencies; no cache mount, artifact or
  -- receipt path is another of them or lies below another; its storage, if any, is within the
  -- bounds; and its envelope carries the digest of its canonical JSON and the configured fixed
  -- environment.
  pub into_plan-IsPlanOf :
      (config : ConfigV1) (envelope : ExecutionPlanEnvelopeV1)
      → into_plan codec config ≡ ok envelope
      → IsPlanOf config envelope.plan
        × (canonical_digest codec envelope.plan ≡ ok envelope.plan_digest)
        × (envelope.fixed_environment ≡ config.environment.fixed)
  unfolding into_plan
  into_plan-IsPlanOf config envelope h =
      let (p, made, h1) = >>=-eq-ok (normalize_plan codec config) _ h in
      let (digest, d, h2) =
        >>=-eq-ok (map_err (λ e. ConfigError.receipt) (canonical_digest codec p)) _ h1 in
      subst
        (λ (e : ExecutionPlanEnvelopeV1).
          IsPlanOf config e.plan
          × (canonical_digest codec e.plan ≡ ok e.plan_digest)
          × (e.fixed_environment ≡ config.environment.fixed))
        (ok_inj h2)
        (
          normalize_plan-IsPlanOf config p made,
          map_err-eq-ok (λ e. ConfigError.receipt) (canonical_digest codec p) d,
          refl,
        )

bytes_of :
    (digest : String) (bytes : Checked (List ℕ))
    → bytes ≢ err plan_digest_mismatch
    → (reject (not (str_eq digest digest)) plan_digest_mismatch >> bytes) ≢ err plan_digest_mismatch
bytes_of digest bytes h k = h (rw (eq_refl digest) at k)

renamed {ℓ κ} :
    {A : Type ℓ} {E : Type κ} (m : Outcome E A)
    → map_err (λ e. ConfigError.receipt) m ≢ err plan_digest_mismatch
renamed (ok a) h = cc
renamed (err e) h = cc

module _ (codec : Codec) ⦃text : Serialize String⦄ ⦃plan : Serialize ExecutionPlanV1⦄
    ⦃sealed : Serialize ExecutionPlanEnvelopeV1⦄ where
  -- The canonical bytes of an envelope that into_plan returned never fail with a plan digest
  -- mismatch.
  pub into_plan-canonical_bytes :
      (config : ConfigV1) (envelope : ExecutionPlanEnvelopeV1)
      → into_plan codec config ≡ ok envelope
      → canonical_bytes codec envelope ≢ err plan_digest_mismatch
  unfolding canonical_bytes
  into_plan-canonical_bytes config envelope h =
      let (_, digest, _) = into_plan-IsPlanOf codec config envelope h in
      rw digest (
        bytes_of envelope.plan_digest
          (map_err (λ e. ConfigError.receipt) (canonical_json codec envelope))
          (renamed (canonical_json codec envelope)))
