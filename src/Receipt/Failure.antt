-- ===== src/Receipt/Failure.antt =====
-- `ReceiptError` of src/receipt.rs. The payloads of errors that other crates raise are left out.
use commit_ci_preflight.Prelude.{ℕ, String}
use commit_ci_preflight.Outcome.{Outcome}
use commit_ci_preflight.Receipt.Status.{EvidenceStatus}

pub data ReceiptError : Type 0 where
  serialization : ReceiptError
  unsupported_schema_version : String → ReceiptError
  unsupported_source_snapshot_schema_version : String → ReceiptError
  empty_field control_character : String → ReceiptError
  invalid_commit_sha : String → ReceiptError
  invalid_repository_identity : ReceiptError
  invalid_sha256 invalid_timestamp : String → ReceiptError
  invalid_run_window image_digest_mismatch : ReceiptError
  unsafe_path : String → ReceiptError
  no_checks no_required_checks : ReceiptError
  duplicate_check_id invalid_command invalid_check_result : String → ReceiptError
  missing_incomplete_reason unexpected_incomplete_reason : String → ReceiptError
  invalid_source_snapshot_entry_count : ℕ → ReceiptError
  overall_status_mismatch : (expected actual : EvidenceStatus) → ReceiptError
  digest_mismatch execution_plan_digest_mismatch : (expected actual : String) → ReceiptError
  execution_plan_check_mismatch : String → ReceiptError
  duplicate_artifact_evidence artifact_manifest_mismatch : String → ReceiptError
  missing_runtime_capability_evidence unexpected_runtime_capability_evidence : ReceiptError
  invalid_runtime_capability_evidence : String → ReceiptError
  runtime_capability_evidence_mismatch : ReceiptError

abbrev pub Verdict : Type 0
Verdict = Outcome ReceiptError (Unit {0})

abbrev pub Checked {ℓ} : Type ℓ → Type ℓ
Checked A = Outcome ReceiptError A
