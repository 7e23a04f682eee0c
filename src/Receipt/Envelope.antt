-- ===== src/Receipt/Envelope.antt =====
-- `validate`, `seal`, `verify` and `canonical_bytes` of both receipt versions (src/receipt.rs).
pub mod Laws
use commit_ci_preflight.Prelude.{ℕ, String, not, ◌==◌, List, length, str_eq}
use commit_ci_preflight.Outcome.{ok, ◌>>=◌, ◌>>◌, reject}
use commit_ci_preflight.Canonical.Digest.{Serialize, Codec, canonical_json, canonical_digest}
use commit_ci_preflight.Config.Data.{ExecutionPlanV1}
use commit_ci_preflight.Receipt.Failure.{
  digest_mismatch, execution_plan_digest_mismatch, execution_plan_check_mismatch, Verdict, Checked,
}
use commit_ci_preflight.Receipt.Data.{
  ReceiptV1, ReceiptEnvelopeV1, ReceiptV2, ReceiptEnvelopeV2, receipt_schema_version,
  receipt_v2_schema_version,
}
use commit_ci_preflight.Receipt.Common
use commit_ci_preflight.Receipt.Common.{ReceiptCommon}
use commit_ci_preflight.Receipt.Manifest.{
  validate_source_snapshot, validate_planned, validate_artifact_manifest,
  validate_runtime_capability_evidence,
}

abbrev pub common_v1 : ReceiptV1 → ReceiptCommon
common_v1 receipt = record {
  expected_schema_version = receipt_schema_version;
  schema_version = receipt.schema_version;
  producer = receipt.producer;
  repository = receipt.repository;
  run = receipt.run;
  platform = receipt.platform;
  configuration_digest = receipt.configuration_digest;
  checks = receipt.checks;
  overall_status = receipt.overall_status;
  incomplete_reason = receipt.incomplete_reason;
  redaction_policy_version = receipt.redaction_policy_version;
}

abbrev pub common_v2 : ReceiptV2 → ReceiptCommon
common_v2 receipt = record {
  expected_schema_version = receipt_v2_schema_version;
  schema_version = receipt.schema_version;
  producer = receipt.producer;
  repository = receipt.repository;
  run = receipt.run;
  platform = receipt.platform;
  configuration_digest = receipt.configuration_digest;
  checks = receipt.checks;
  overall_status = receipt.overall_status;
  incomplete_reason = receipt.incomplete_reason;
  redaction_policy_version = receipt.redaction_policy_version;
}

unfoldable pub validate_v1 : ReceiptV1 → Verdict
validate_v1 receipt = Common.validate (common_v1 receipt)

module _ (codec : Codec) ⦃v1 : Serialize ReceiptV1⦄ where
  unfoldable pub seal_v1 : ReceiptV1 → Checked ReceiptEnvelopeV1
  seal_v1 receipt = do
    validate_v1 receipt
    receipt_id ← canonical_digest codec receipt
    ok (record { receipt_id = receipt_id; receipt = receipt })

  unfoldable pub verify_v1 : ReceiptEnvelopeV1 → Verdict
  verify_v1 envelope = do
    validate_v1 envelope.receipt
    expected ← canonical_digest codec envelope.receipt
    reject (not (str_eq envelope.receipt_id expected))
        (digest_mismatch expected envelope.receipt_id)

  unfoldable pub canonical_bytes_v1 :
      ⦃e : Serialize ReceiptEnvelopeV1⦄ → ReceiptEnvelopeV1 → Checked (List ℕ)
  canonical_bytes_v1 envelope = verify_v1 envelope >> canonical_json codec envelope

module _ (codec : Codec) ⦃plan : Serialize ExecutionPlanV1⦄ where
  unfoldable pub validate_v2 : ReceiptV2 → Verdict
  validate_v2 receipt = do
    Common.validate (common_v2 receipt)
    validate_source_snapshot receipt.source_snapshot
    expected_plan_digest ← canonical_digest codec receipt.execution_plan
    reject (not (str_eq receipt.configuration_digest expected_plan_digest))
        (execution_plan_digest_mismatch expected_plan_digest receipt.configuration_digest)
    validate_runtime_capability_evidence receipt.execution_plan receipt.runtime_capability_evidence
    reject (not (length receipt.execution_plan.checks == length receipt.checks))
        (execution_plan_check_mismatch "check set")
    validate_planned receipt.checks receipt.execution_plan.checks
    validate_artifact_manifest receipt.execution_plan.checks receipt.artifact_manifest

module _ (codec : Codec) ⦃plan : Serialize ExecutionPlanV1⦄ ⦃v2 : Serialize ReceiptV2⦄ where
  unfoldable pub seal_v2 : ReceiptV2 → Checked ReceiptEnvelopeV2
  seal_v2 receipt = do
    validate_v2 codec receipt
    receipt_id ← canonical_digest codec receipt
    ok (record { receipt_id = receipt_id; receipt = receipt })

  unfoldable pub verify_v2 : ReceiptEnvelopeV2 → Verdict
  verify_v2 envelope = do
    validate_v2 codec envelope.receipt
    expected ← canonical_digest codec envelope.receipt
    reject (not (str_eq envelope.receipt_id expected))
        (digest_mismatch expected envelope.receipt_id)

  unfoldable pub canonical_bytes_v2 :
      ⦃e : Serialize ReceiptEnvelopeV2⦄ → ReceiptEnvelopeV2 → Checked (List ℕ)
  canonical_bytes_v2 envelope = verify_v2 envelope >> canonical_json codec envelope
