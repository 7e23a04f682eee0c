-- ===== src/Receipt/Data.antt =====
-- The evidence types of src/receipt.rs, field by field, and RuntimeCapabilityEvidenceV1 of
-- src/runtime.rs.
use commit_ci_preflight.Prelude.{ℕ, ℤ, String, Bool, Option, List}
use commit_ci_preflight.Config.Data.{ArtifactKind, ExecutionPlanV1}
use commit_ci_preflight.Receipt.Status.{EvidenceStatus}

abbrev pub receipt_schema_version : String
receipt_schema_version = "1.0"

abbrev pub receipt_v2_schema_version : String
receipt_v2_schema_version = "2.0"

abbrev pub source_snapshot_schema_version : String
source_snapshot_schema_version = "1.0"

pub data SourceSnapshotStrategy : Type 0 where
  git_object git_archive detached_worktree : SourceSnapshotStrategy

pub record ProducerEvidence : Type 0 where
  pub name : String
  pub version : String

pub record RepositoryEvidence : Type 0 where
  pub repository : String
  pub commit_sha : String
  pub dirty : Bool

pub record RunEvidence : Type 0 where
  pub run_id : String
  pub generation : ℕ  -- u64
  pub started_at_utc : String
  pub finished_at_utc : String

pub record PlatformEvidence : Type 0 where
  pub host_os : String
  pub host_arch : String
  pub runtime_kind : String
  pub runtime_version : String
  pub image_reference : String
  pub image_digest : String

pub record SourceSnapshotEvidence : Type 0 where
  pub schema_version : String
  pub strategy : SourceSnapshotStrategy
  pub manifest_digest : String
  pub entry_count : ℕ  -- u64

pub record ArtifactEvidence : Type 0 where
  pub path : String
  pub kind : ArtifactKind
  pub producer_check : String
  pub entry_count : ℕ  -- u64
  pub total_bytes : ℕ  -- u64
  pub manifest_digest : String

pub record CheckEvidence : Type 0 where
  pub id : String
  pub required : Bool
  pub argv : List String
  pub working_directory : String
  pub status : EvidenceStatus
  pub exit_code : Option ℤ  -- i32
  pub duration_ms : ℕ  -- u64
  pub timed_out : Bool
  pub cancelled : Bool
  pub output_digest : Option String
  pub incomplete_reason : Option String

pub record RuntimeCapabilityEvidenceV1 : Type 0 where
  pub schema_version : String
  pub memory_limit_supported : Bool
  pub swap_limit_supported : Bool
  pub context_digest : String
  pub resolved_image_id : String
  pub resolved_image_reference : String

pub record ReceiptV1 : Type 0 where
  pub schema_version : String
  pub producer : ProducerEvidence
  pub repository : RepositoryEvidence
  pub run : RunEvidence
  pub platform : PlatformEvidence
  pub configuration_digest : String
  pub checks : List CheckEvidence
  pub overall_status : EvidenceStatus
  pub incomplete_reason : Option String
  pub redaction_policy_version : String

pub record ReceiptEnvelopeV1 : Type 0 where
  pub receipt_id : String
  pub receipt : ReceiptV1

pub record ReceiptV2 : Type 0 where
  pub schema_version : String
  pub producer : ProducerEvidence
  pub repository : RepositoryEvidence
  pub run : RunEvidence
  pub source_snapshot : SourceSnapshotEvidence
  pub platform : PlatformEvidence
  pub configuration_digest : String
  pub execution_plan : ExecutionPlanV1
  pub runtime_capability_evidence : Option RuntimeCapabilityEvidenceV1
  pub artifact_manifest : List ArtifactEvidence
  pub checks : List CheckEvidence
  pub overall_status : EvidenceStatus
  pub incomplete_reason : Option String
  pub redaction_policy_version : String

pub record ReceiptEnvelopeV2 : Type 0 where
  pub receipt_id : String
  pub receipt : ReceiptV2
