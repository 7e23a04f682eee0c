-- ===== src/Config/Runtime.antt =====
-- `normalize_runtime` of src/config.rs.
use commit_ci_preflight.Prelude.{
  String, Bool, true, false, Option, none, some, if◌then◌else◌, str_eq,
}
use commit_ci_preflight.Outcome.{ok, ◌>>=◌, ◌>>◌, reject, ok_or}
use commit_ci_preflight.Config.Data.{
  RuntimeConfig, NormalizedRuntime, RuntimePullPolicy, RuntimeSwapMode,
}
use commit_ci_preflight.Config.Failure.{invalid_field, missing_runtime_capability_policy, Checked}

abbrev pub is_some {ℓ} : {A : Type ℓ} → Option A → Bool
is_some none = false
is_some (some a) = true

-- The pair that the first statement of `normalize_runtime` binds.
unfoldable pub capability_policies :
    String → RuntimeConfig → Checked (Option RuntimePullPolicy × Option RuntimeSwapMode)
capability_policies schema_version runtime =
    if str_eq schema_version "1.3"
    then (do
      pull_policy ← ok_or runtime.pull_policy missing_runtime_capability_policy
      swap_mode ← ok_or runtime.swap_mode missing_runtime_capability_policy
      ok (some pull_policy, some swap_mode))
    else (do
      reject (is_some runtime.pull_policy) (invalid_field "runtime.pull_policy")
      reject (is_some runtime.swap_mode) (invalid_field "runtime.swap_mode")
      ok (none, none))

unfoldable pub normalize_runtime : String → RuntimeConfig → Checked NormalizedRuntime
unfolding capability_policies
normalize_runtime schema_version runtime =
    capability_policies schema_version runtime >>= λ policies. ok (record {
      kind = runtime.kind;
      image = runtime.image;
      cpu_count = runtime.cpu_count;
      memory_mib = runtime.memory_mib;
      pids_limit = runtime.pids_limit;
      network = runtime.network;
      pull_policy = policies.0;
      swap_mode = policies.1;
    })
