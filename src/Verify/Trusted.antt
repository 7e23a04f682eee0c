-- ===== src/Verify/Trusted.antt =====
-- `verify_trusted_plan_receipt_document` of src/verify.rs.
pub mod Meets
pub mod Laws
use commit_ci_preflight.Prelude.{
  ℕ, String, Bool, true, false, not, List, Option, none, some, if◌then◌else◌, str_eq, any, is_empty,
}
use commit_ci_preflight.Outcome.{ok, ◌>>=◌, ok_or}
use commit_ci_preflight.Canonical.Digest.{Serialize, Codec}
use commit_ci_preflight.Config.Data.{ExecutionPlanV1, ExecutionPlanEnvelopeV1}
use commit_ci_preflight.Receipt.Failure.{serialization}
use commit_ci_preflight.Receipt.Data.{
  SourceSnapshotStrategy, git_object, git_archive, detached_worktree, ReceiptV1, ReceiptV2,
  ReceiptEnvelopeV2,
}
use commit_ci_preflight.Verify.Policy.{
  VerificationPolicyV1_1, ProducerContractV1_1, baseline, same_producer,
}
use commit_ci_preflight.Verify.Report.{
  fail, VerificationReportV1, receipt, Checked, finding, push_if, decide, is_status_pass,
}
use commit_ci_preflight.Verify.Document.{Decoder, verify_receipt_document}
use commit_ci_preflight.Verify.PlanDiff.{Findings, compare_plan_value}

abbrev pub same_strategy : SourceSnapshotStrategy → SourceSnapshotStrategy → Bool
same_strategy git_object git_object = true
same_strategy git_archive git_archive = true
same_strategy detached_worktree detached_worktree = true
same_strategy _ _ = false

-- The producer's `if`, `else if`.
unfoldable pub check_producer : VerificationPolicyV1_1 → ProducerContractV1_1 → Findings → Findings
check_producer policy producer findings =
    if any (λ candidate. same_producer candidate producer) policy.revoked_producers
    then push_if true
        (finding "policy.producer_revoked" "producer"
          "receipt producer is explicitly revoked by trusted policy")
        findings
    else push_if
        (not (any (λ candidate. same_producer candidate producer) policy.supported_producers))
        (finding "policy.producer_unsupported" "producer"
          "receipt producer is not supported by trusted policy")
        findings

-- `finalize_trusted_plan_report` once the findings are known.
unfoldable pub finalize_trusted_plan_report : VerificationReportV1 → Findings → VerificationReportV1
finalize_trusted_plan_report report findings =
    let policy_status = if is_empty findings then report.policy_status else fail in
    record report {
      policy_status = policy_status;
      decision = decide report.integrity_status policy_status;
      findings = findings;
    }

unfoldable pub check_plan_digest :
    VerificationPolicyV1_1 → ExecutionPlanEnvelopeV1 → Findings → Findings
check_plan_digest policy trusted_plan findings =
    push_if (not (str_eq trusted_plan.plan_digest policy.configuration_digest))
      (finding "policy.trusted_config_digest" "trusted_config"
        "trusted configuration does not reconstruct the policy execution-plan digest")
      findings

module _ ⦃plan : Serialize ExecutionPlanV1⦄ where
  unfoldable pub compare_execution_plan :
      (trusted receipt : ExecutionPlanV1) → Findings → Checked Findings
  unfolding compare_plan_value
  compare_execution_plan trusted recorded findings = do
    trusted_value ← ok_or (plan.to_value trusted) (receipt serialization)
    receipt_value ← ok_or (plan.to_value recorded) (receipt serialization)
    ok (compare_plan_value trusted_value receipt_value "" findings)

  -- The statements after the strict parse as a receipt v2.
  unfoldable pub check_trusted :
      VerificationPolicyV1_1 → ExecutionPlanEnvelopeV1 → ReceiptV2 → Findings → Checked Findings
  unfolding check_producer
  check_trusted policy trusted_plan recorded findings = do
    compared ← compare_execution_plan trusted_plan.plan recorded.execution_plan findings
    ok (
        check_producer policy
          (record { name = recorded.producer.name; version = recorded.producer.version })
          (push_if
            (not (same_strategy recorded.source_snapshot.strategy policy.source_snapshot_strategy))
            (finding "policy.source_snapshot_strategy" "source_snapshot.strategy"
              "receipt source snapshot strategy is not accepted by trusted policy")
            compared))

  -- The findings added to a report whose integrity is established.
  unfoldable pub trusted_findings :
      VerificationPolicyV1_1
      → ExecutionPlanEnvelopeV1
      → Option ReceiptEnvelopeV2
      → Findings
      → Checked Findings
  unfolding check_trusted check_plan_digest
  trusted_findings policy trusted_plan none findings = ok (
      push_if true
        (finding "policy.receipt_schema" "receipt.schema_version"
          "trusted-plan policy requires a strict receipt v2")
        (check_plan_digest policy trusted_plan findings))
  trusted_findings policy trusted_plan (some envelope) findings =
      check_trusted policy trusted_plan envelope.receipt
        (check_plan_digest policy trusted_plan findings)

module _ (codec : Codec) (decoder : Decoder) ⦃plan : Serialize ExecutionPlanV1⦄
    ⦃s1 : Serialize ReceiptV1⦄ ⦃s2 : Serialize ReceiptV2⦄ where
  unfoldable pub verify_trusted_plan_receipt_document :
      List ℕ
      → VerificationPolicyV1_1
      → ExecutionPlanEnvelopeV1
      → (expected_commit evaluated_at_utc : String) → Checked VerificationReportV1
  unfolding verify_receipt_document trusted_findings finalize_trusted_plan_report
  verify_trusted_plan_receipt_document bytes policy trusted_plan expected_commit evaluated_at_utc =
      verify_receipt_document codec decoder bytes (baseline policy) expected_commit evaluated_at_utc
      >>= λ baseline_report.
          let report : VerificationReportV1 = record baseline_report {
            assurance_scope = "integrity_and_trusted_plan_policy";
          } in
          let extended =
            trusted_findings policy trusted_plan (decoder.receipt_v2 bytes) report.findings
            >>= λ findings. ok (finalize_trusted_plan_report report findings) in
          if is_status_pass report.integrity_status then extended else ok report
