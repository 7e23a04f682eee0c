-- ===== src/Resource/Status.antt =====
-- The status reports of src/resource.rs.
use commit_ci_preflight.Prelude.{ℕ, Option, none, some, String}
use commit_ci_preflight.Outcome.{ok, ◌>>◌, ◌>>=◌}
use commit_ci_preflight.Resource.Snapshot.{
  ResourceSnapshot, Probed, validate, PreStartDecision, evaluate_pre_start,
}

pub data ResourceCapability : Type 0 where
  supported_enforced unsupported_not_enforced : ResourceCapability

pub data ResourceDecision : Type 0 where
  admit deny clear soft_pressure hard_pressure unknown : ResourceDecision

pub record ResourceStatusV1 : Type 0 where
  pub schema_version : String
  pub policy_version : String
  pub platform : String
  pub capability : ResourceCapability
  pub decision : ResourceDecision
  pub available_percent : Option ℕ
  pub reclaimable_uncompressed_bytes : Option ℕ
  pub compressor_occupied_bytes : Option ℕ
  pub total_memory_bytes : Option ℕ
  pub swap_used_bytes : Option ℕ
  pub swap_total_bytes : Option ℕ
  pub consecutive_soft_samples : ℕ

-- `platform` is what `ResourcePlatform::current().as_str()` gives on the host.
unfoldable pub status_with_capability : String → ResourceCapability → ResourceStatusV1
status_with_capability platform capability = record {
  schema_version = "1.0";
  policy_version = "macos-v5";
  platform = platform;
  capability = capability;
  decision = unknown;
  available_percent = none;
  reclaimable_uncompressed_bytes = none;
  compressor_occupied_bytes = none;
  total_memory_bytes = none;
  swap_used_bytes = none;
  swap_total_bytes = none;
  consecutive_soft_samples = 0;
}

abbrev decision_of : PreStartDecision → ResourceDecision
decision_of PreStartDecision.admit = ResourceDecision.admit
decision_of PreStartDecision.deny = ResourceDecision.deny

unfoldable pub status_from_snapshot : ResourceSnapshot → Probed ResourceStatusV1
unfolding validate evaluate_pre_start
status_from_snapshot s = do
  validate s
  decision ← evaluate_pre_start s
  ok (record {
    schema_version = "1.0";
    policy_version = "macos-v5";
    platform = "macos";
    capability = supported_enforced;
    decision = decision_of decision;
    available_percent = some s.available_percent;
    reclaimable_uncompressed_bytes = some s.reclaimable_uncompressed_bytes;
    compressor_occupied_bytes = some s.compressor_occupied_bytes;
    total_memory_bytes = some s.total_memory_bytes;
    swap_used_bytes = some s.swap_used_bytes;
    swap_total_bytes = some s.swap_total_bytes;
    consecutive_soft_samples = 0;
  })
