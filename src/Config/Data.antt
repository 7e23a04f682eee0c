-- ===== src/Config/Data.antt =====
-- The configuration and the normalised plan of src/config.rs, field by field. Integers are natural
-- numbers; the width that the source gives them is written beside each.
use commit_ci_preflight.Prelude.{ℕ, String, Bool, Option, List}
use commit_ci_preflight.Ordered.Map.{Map}

abbrev pub config_schema_version : String
config_schema_version = "1.0"

abbrev pub max_config_bytes : ℕ
max_config_bytes = 1_048_576

abbrev pub max_checks : ℕ
max_checks = 128

abbrev pub max_caches : ℕ
max_caches = 32

abbrev pub max_argv_parts : ℕ
max_argv_parts = 64

abbrev pub max_string_bytes : ℕ
max_string_bytes = 4096

abbrev pub max_timeout_seconds : ℕ
max_timeout_seconds = 86_400

abbrev pub max_memory_mib : ℕ
max_memory_mib = 262_144

abbrev pub max_cpu_count : ℕ
max_cpu_count = 256

abbrev pub max_pids : ℕ
max_pids = 65_536

abbrev pub max_storage_bytes : ℕ
max_storage_bytes = 1_099_511_627_776

abbrev pub min_receipt_journal_reserve_bytes : ℕ
min_receipt_journal_reserve_bytes = 4_096

pub data RuntimeKind : Type 0 where
  docker_compatible host : RuntimeKind

pub data RuntimePullPolicy : Type 0 where
  never : RuntimePullPolicy

pub data RuntimeSwapMode : Type 0 where
  disabled : RuntimeSwapMode

pub data ArtifactKind : Type 0 where
  regular_file directory : ArtifactKind

pub record RuntimeConfig : Type 0 where
  pub kind : RuntimeKind
  pub image : String
  pub cpu_count : ℕ  -- u16
  pub memory_mib : ℕ  -- u64
  pub pids_limit : ℕ  -- u32
  pub network : Bool
  pub pull_policy : Option RuntimePullPolicy
  pub swap_mode : Option RuntimeSwapMode

pub record ReceiptConfig : Type 0 where
  pub output : String
  pub freshness_seconds : ℕ  -- u64

pub record RuntimeInternalEnvironmentConfig : Type 0 where
  pub name : String
  pub cache_id : String

pub record EnvironmentConfig : Type 0 where
  pub allow : List String
  pub fixed : Map String
  pub runtime_internal : List RuntimeInternalEnvironmentConfig
  pub remote_secret_only : List String

pub record CacheConfig : Type 0 where
  pub id : String
  pub mount_path : String

pub record StorageConfig : Type 0 where
  pub min_free_bytes : ℕ  -- u64
  pub receipt_journal_reserve_bytes : ℕ  -- u64
  pub max_cache_growth_bytes : ℕ  -- u64

pub record ArtifactContractConfig : Type 0 where
  pub path : String
  pub kind : ArtifactKind
  pub max_bytes : ℕ  -- u64
  pub max_entries : ℕ  -- u64

pub record CheckConfig : Type 0 where
  pub id : String
  pub required : Bool
  pub argv : List String
  pub working_directory : String
  pub timeout_seconds : ℕ  -- u64
  pub depends_on : List String
  pub artifacts : List String
  pub artifact_contracts : List ArtifactContractConfig

pub record ConfigV1 : Type 0 where
  pub schema_version : String
  pub project : String
  pub runtime : RuntimeConfig
  pub receipt : ReceiptConfig
  pub environment : EnvironmentConfig
  pub caches : List CacheConfig
  pub storage : Option StorageConfig
  pub checks : List CheckConfig

pub record NormalizedRuntime : Type 0 where
  pub kind : RuntimeKind
  pub image : String
  pub cpu_count : ℕ  -- u16
  pub memory_mib : ℕ  -- u64
  pub pids_limit : ℕ  -- u32
  pub network : Bool
  pub pull_policy : Option RuntimePullPolicy
  pub swap_mode : Option RuntimeSwapMode

pub record NormalizedReceipt : Type 0 where
  pub output : String
  pub freshness_seconds : ℕ  -- u64

pub record NormalizedFixedEnvironment : Type 0 where
  pub name : String
  pub value_digest : String

pub record NormalizedRuntimeInternalEnvironment : Type 0 where
  pub name : String
  pub cache_id : String
  pub container_target : String

pub record NormalizedEnvironment : Type 0 where
  pub inherit : List String
  pub fixed : List NormalizedFixedEnvironment
  pub runtime_internal : List NormalizedRuntimeInternalEnvironment
  pub remote_secret_only : List String

pub record NormalizedCache : Type 0 where
  pub id : String
  pub mount_path : String

pub record NormalizedStorage : Type 0 where
  pub min_free_bytes : ℕ  -- u64
  pub receipt_journal_reserve_bytes : ℕ  -- u64
  pub max_cache_growth_bytes : ℕ  -- u64
  pub max_artifact_bytes : ℕ  -- u64

pub record NormalizedArtifactContract : Type 0 where
  pub path : String
  pub kind : ArtifactKind
  pub max_bytes : ℕ  -- u64
  pub max_entries : ℕ  -- u64
  pub producer_check : String

pub record NormalizedCheck : Type 0 where
  pub id : String
  pub required : Bool
  pub argv : List String
  pub working_directory : String
  pub timeout_seconds : ℕ  -- u64
  pub depends_on : List String
  pub artifacts : List String
  pub artifact_contracts : List NormalizedArtifactContract

pub record ExecutionPlanV1 : Type 0 where
  pub schema_version : String
  pub project : String
  pub runtime : NormalizedRuntime
  pub receipt : NormalizedReceipt
  pub environment : NormalizedEnvironment
  pub caches : List NormalizedCache
  pub storage : Option NormalizedStorage
  pub checks : List NormalizedCheck

pub record ExecutionPlanEnvelopeV1 : Type 0 where
  pub plan_digest : String
  pub plan : ExecutionPlanV1
  pub fixed_environment : Map String
