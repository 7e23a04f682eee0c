-- ===== src/Tests/Decisions.antt =====
-- Receipts and the decisions on them, at concrete inputs.
use commit_ci_preflight.Prelude.{
  ℕ, ℤ, pos, String, Bool, true, false, ◌≡◌, refl, List, [], ◌∷◌, Option, none, some, ◌↔◌, ◌≢◌, All,
  any,
}
use mathlib.Core.List.{Memᴰ}
use commit_ci_preflight.Outcome.{ok}
use commit_ci_preflight.Receipt.Data.{CheckEvidence}
use commit_ci_preflight.Receipt.Common
use commit_ci_preflight.Receipt.Common.Laws.{
  RanClean, required_statuses, derive_overall_status_iff, validate_lem, validate_pass-RanClean,
}
use commit_ci_preflight.Receipt.Common.{validate_check}
use commit_ci_preflight.Receipt.Status.{pass, fail, pending, is_fail, derive_overall_status}
use commit_ci_preflight.Canonical.Digest.{canonical_digest}
use commit_ci_preflight.Receipt.Envelope.Laws.{
  verify_v1-seal_iff, verify_v2-seal_iff, validate_v2-plan_digest,
}
use commit_ci_preflight.Receipt.Envelope.{
  common_v1, seal_v1, verify_v1, seal_v2, verify_v2, validate_v2,
}
use commit_ci_preflight.Verify.Policy
use commit_ci_preflight.Config.Data.{NormalizedCheck}
use commit_ci_preflight.Receipt.Manifest.Laws.{IsEvidenceOf, validate_v2-IsEvidenceOf}
use commit_ci_preflight.Verify.Utc.{parse_utc_seconds}
use commit_ci_preflight.Verify.Utc.Agreement.{require_timestamp-parses}
use commit_ci_preflight.Receipt.Timestamp.{require_timestamp}
use commit_ci_preflight.Verify.Document.{
  VerifiedReceipt, v1, view, open_envelope, validate_commit, verify_receipt_document,
}
use commit_ci_preflight.Verify.Report.{VerificationReportV1, VerificationDecision}
use commit_ci_preflight.Verify.Document.Laws.{
  verify_receipt_document-RanClean, verify_receipt_document-pass_iff, verify_receipt_document_total,
}
use commit_ci_preflight.Verify.Document.Consistent.{IsConsistent}
use commit_ci_preflight.Verify.Evaluate.{evaluate_policy}
use commit_ci_preflight.Verify.Evaluate.Meets.{Meets}
use commit_ci_preflight.Verify.Evaluate.Laws.{evaluate_policy_iff}
use commit_ci_preflight.Tests.Samples
use commit_ci_preflight.Tests.Samples.{receipt, unit_tests}

receipt_valid : Common.validate (common_v1 receipt) ≡ ok tt
unfolding Common.validate Common.validate_header commit_ci_preflight.Receipt.Fields.require_text
    commit_ci_preflight.Receipt.Fields.validate_repository_identity commit_ci_preflight.Text.split
    commit_ci_preflight.Receipt.Fields.validate_commit_sha commit_ci_preflight.Text.as_bytes
    commit_ci_preflight.Receipt.Timestamp.require_timestamp commit_ci_preflight.Ordered.Order.str_lt
    commit_ci_preflight.Receipt.Fields.validate_sha256 commit_ci_preflight.Text.rsplit_once
    Common.validate_results commit_ci_preflight.Receipt.Fields.validate_relative_path
    commit_ci_preflight.Receipt.Fields.validate_incomplete_reason
receipt_valid = refl

time_parsed : parse_utc_seconds "2026-01-01T00:10:00Z" ≡ some (pos 1_767_226_200)
unfolding parse_utc_seconds
time_parsed = refl

policy_valid : Policy.validate Samples.policy ≡ ok tt
unfolding Policy.validate Policy.validate_project commit_ci_preflight.Text.as_bytes
    commit_ci_preflight.Text.split Policy.validate_digest Policy.validate_image_reference
policy_valid = refl

report_made :
    verify_receipt_document Samples.codec Samples.decoder ⦃plan = Samples.plan_values⦄
      ⦃s1 = Samples.receipt_v1_values⦄ ⦃s2 = Samples.receipt_v2_values⦄ Samples.bytes Samples.policy
      Samples.commit "2026-01-01T00:10:00Z"
    ≡ ok Samples.report
unfolding verify_receipt_document Policy.validate Policy.validate_project
    commit_ci_preflight.Text.as_bytes commit_ci_preflight.Text.split Policy.validate_digest
    Policy.validate_image_reference parse_utc_seconds commit_ci_preflight.Receipt.Envelope.verify_v1
    commit_ci_preflight.Receipt.Envelope.validate_v1 Common.validate Common.validate_header
    commit_ci_preflight.Receipt.Fields.require_text
    commit_ci_preflight.Receipt.Fields.validate_repository_identity
    commit_ci_preflight.Receipt.Fields.validate_commit_sha
    commit_ci_preflight.Receipt.Timestamp.require_timestamp commit_ci_preflight.Ordered.Order.str_lt
    commit_ci_preflight.Receipt.Fields.validate_sha256
    commit_ci_preflight.Canonical.Digest.canonical_digest
    commit_ci_preflight.Canonical.Digest.canonical_json
    commit_ci_preflight.Canonical.Digest.encode_hex commit_ci_preflight.Canonical.Json.insert_field
    commit_ci_preflight.Canonical.Json.normalize_json commit_ci_preflight.Ordered.Map.get
    commit_ci_preflight.Ordered.Map.insert commit_ci_preflight.Ordered.Set.extend
    commit_ci_preflight.Ordered.Set.insert commit_ci_preflight.Prelude.◌*ℤ◌
    commit_ci_preflight.Prelude.◌+ℤ◌ commit_ci_preflight.Prelude.◌-ℤ◌ Common.required_statuses_from
    Common.validate_check Common.validate_results commit_ci_preflight.Receipt.Envelope.validate_v2
    commit_ci_preflight.Receipt.Envelope.verify_v2
    commit_ci_preflight.Receipt.Fields.validate_incomplete_reason
    commit_ci_preflight.Receipt.Fields.validate_relative_path
    commit_ci_preflight.Receipt.Manifest.expected_artifacts
    commit_ci_preflight.Receipt.Manifest.observe_artifacts
    commit_ci_preflight.Receipt.Manifest.validate_artifact_manifest
    commit_ci_preflight.Receipt.Manifest.validate_planned
    commit_ci_preflight.Receipt.Manifest.validate_runtime_capability_evidence
    commit_ci_preflight.Receipt.Manifest.validate_runtime_evidence
    commit_ci_preflight.Receipt.Manifest.validate_source_snapshot
    commit_ci_preflight.Receipt.Status.derive_overall_status
    commit_ci_preflight.Receipt.Timestamp.days_in_month
    commit_ci_preflight.Receipt.Timestamp.divisible_by
    commit_ci_preflight.Receipt.Timestamp.is_leap_year
    commit_ci_preflight.Receipt.Timestamp.parse_decimal commit_ci_preflight.Text.is_blank
    commit_ci_preflight.Text.rsplit_once commit_ci_preflight.Text.strip_prefix open_envelope
    commit_ci_preflight.Verify.Document.parse_envelope
    commit_ci_preflight.Verify.Document.parse_version
    commit_ci_preflight.Verify.Document.report_from commit_ci_preflight.Verify.Document.report_on
    validate_commit commit_ci_preflight.Verify.Document.verify_envelope
    commit_ci_preflight.Verify.Evaluate.check_equal
    commit_ci_preflight.Verify.Evaluate.check_freshness
    commit_ci_preflight.Verify.Evaluate.check_identity
    commit_ci_preflight.Verify.Evaluate.check_results
    commit_ci_preflight.Verify.Evaluate.check_source
    commit_ci_preflight.Verify.Evaluate.evaluate_policy Policy.validate_name
    Policy.validate_platforms Policy.validate_required_checks
    commit_ci_preflight.Verify.Utc.civil_seconds commit_ci_preflight.Verify.Utc.days_from_civil
    commit_ci_preflight.Verify.Utc.decimal commit_ci_preflight.Verify.Utc.leap
    commit_ci_preflight.Verify.Utc.seconds_from_civil
report_made = refl

verify_receipt_document-RanClean_example :
    (envelope : VerifiedReceipt) × (open_envelope Samples.codec Samples.decoder
        ⦃plan = Samples.plan_values⦄ ⦃s1 = Samples.receipt_v1_values⦄
        ⦃s2 = Samples.receipt_v2_values⦄ Samples.bytes
      ≡ ok envelope)
    × ((view envelope).repository.commit_sha ≡ Samples.commit)
    × ((check : CheckEvidence) × Memᴰ check (view envelope).checks
        × (check.id ≡ "unit")
        × RanClean check)
verify_receipt_document-RanClean_example =
    verify_receipt_document-RanClean Samples.codec Samples.decoder ⦃plan = Samples.plan_values⦄
      ⦃s1 = Samples.receipt_v1_values⦄ ⦃s2 = Samples.receipt_v2_values⦄ Samples.bytes Samples.policy
      Samples.commit "2026-01-01T00:10:00Z" Samples.report "unit" report_made refl refl

verify_receipt_document-pass_iff_example : (Samples.report.decision ≡ VerificationDecision.pass) ↔ (
    (envelope : VerifiedReceipt) × (open_envelope Samples.codec Samples.decoder
        ⦃plan = Samples.plan_values⦄ ⦃s1 = Samples.receipt_v1_values⦄
        ⦃s2 = Samples.receipt_v2_values⦄ Samples.bytes
      ≡ ok envelope)
    × Meets (view envelope) Samples.policy Samples.commit (pos 1_767_226_200))
verify_receipt_document-pass_iff_example =
    verify_receipt_document-pass_iff Samples.codec Samples.decoder ⦃plan = Samples.plan_values⦄
      ⦃s1 = Samples.receipt_v1_values⦄ ⦃s2 = Samples.receipt_v2_values⦄ Samples.bytes Samples.policy
      Samples.commit "2026-01-01T00:10:00Z" (pos 1_767_226_200) Samples.report time_parsed
      report_made

commit_valid : validate_commit Samples.commit ≡ ok tt
unfolding validate_commit commit_ci_preflight.Text.as_bytes
commit_valid = refl

verify_receipt_document_total_example :
    (report : VerificationReportV1) × (verify_receipt_document Samples.codec Samples.decoder
        ⦃plan = Samples.plan_values⦄ ⦃s1 = Samples.receipt_v1_values⦄
        ⦃s2 = Samples.receipt_v2_values⦄ [] Samples.policy Samples.commit "2026-01-01T00:10:00Z"
      ≡ ok report)
    × IsConsistent report
verify_receipt_document_total_example =
    verify_receipt_document_total Samples.codec Samples.decoder ⦃plan = Samples.plan_values⦄
      ⦃s1 = Samples.receipt_v1_values⦄ ⦃s2 = Samples.receipt_v2_values⦄ [] Samples.policy
      Samples.commit "2026-01-01T00:10:00Z" (pos 1_767_226_200) policy_valid commit_valid
      time_parsed

evaluate_policy_iff_example :
    (evaluate_policy
        (view (v1 Samples.envelope))
        Samples.policy
        Samples.commit
        (pos 1_767_226_200)
        []
      ≡ [])
    ↔ Meets (view (v1 Samples.envelope)) Samples.policy Samples.commit (pos 1_767_226_200)
evaluate_policy_iff_example =
    evaluate_policy_iff (view (v1 Samples.envelope)) Samples.policy Samples.commit
      (pos 1_767_226_200)

derive_overall_status_iff_example :
    ((derive_overall_status (pending ∷ fail ∷ []) ≡ fail)
      ↔ (any is_fail (pending ∷ fail ∷ []) ≡ true))
    × ((derive_overall_status (pending ∷ fail ∷ []) ≡ pass)
        ↔ All (λ status. status ≡ pass) (pending ∷ fail ∷ []))
derive_overall_status_iff_example = derive_overall_status_iff (pending ∷ fail ∷ [])

validate_lem_example :
    All (λ check. validate_check check ≡ ok tt) (unit_tests ∷ [])
    × (required_statuses (unit_tests ∷ []) ≢ [])
    × (pass ≡ derive_overall_status (required_statuses (unit_tests ∷ [])))
validate_lem_example = validate_lem (common_v1 receipt) receipt_valid

validate_pass-RanClean_example : RanClean unit_tests
validate_pass-RanClean_example =
    validate_pass-RanClean (common_v1 receipt) unit_tests receipt_valid refl (Memᴰ.head refl) refl

verify_v1-seal_iff_example :
    (verify_v1 Samples.codec ⦃v1 = Samples.receipt_v1_values⦄ Samples.envelope ≡ ok tt)
    ↔ (seal_v1 Samples.codec ⦃v1 = Samples.receipt_v1_values⦄ receipt ≡ ok Samples.envelope)
verify_v1-seal_iff_example =
    verify_v1-seal_iff Samples.codec ⦃v1 = Samples.receipt_v1_values⦄ Samples.envelope

verify_v2-seal_iff_example :
    (verify_v2 Samples.codec ⦃plan = Samples.plan_values⦄ ⦃v2 = Samples.receipt_v2_values⦄
        Samples.envelope_v2
      ≡ ok tt)
    ↔ (seal_v2 Samples.codec ⦃plan = Samples.plan_values⦄ ⦃v2 = Samples.receipt_v2_values⦄
          Samples.receipt_v2
        ≡ ok Samples.envelope_v2)
verify_v2-seal_iff_example =
    verify_v2-seal_iff Samples.codec ⦃plan = Samples.plan_values⦄ ⦃v2 = Samples.receipt_v2_values⦄
      Samples.envelope_v2

receipt_v2_valid : validate_v2 Samples.codec ⦃plan = Samples.plan_values⦄ Samples.receipt_v2 ≡ ok tt
unfolding validate_v2 Common.validate Common.validate_header
    commit_ci_preflight.Receipt.Fields.require_text
    commit_ci_preflight.Receipt.Fields.validate_repository_identity commit_ci_preflight.Text.split
    commit_ci_preflight.Receipt.Fields.validate_commit_sha commit_ci_preflight.Text.as_bytes
    commit_ci_preflight.Receipt.Timestamp.require_timestamp commit_ci_preflight.Ordered.Order.str_lt
    commit_ci_preflight.Receipt.Fields.validate_sha256 commit_ci_preflight.Text.rsplit_once
    Common.validate_results commit_ci_preflight.Receipt.Fields.validate_relative_path
    commit_ci_preflight.Receipt.Fields.validate_incomplete_reason
    commit_ci_preflight.Receipt.Manifest.validate_source_snapshot canonical_digest
    commit_ci_preflight.Receipt.Manifest.validate_runtime_capability_evidence
    commit_ci_preflight.Canonical.Digest.canonical_json
    commit_ci_preflight.Canonical.Digest.encode_hex commit_ci_preflight.Canonical.Json.insert_field
    commit_ci_preflight.Canonical.Json.normalize_json commit_ci_preflight.Ordered.Map.get
    commit_ci_preflight.Ordered.Map.insert commit_ci_preflight.Ordered.Set.insert
    Common.required_statuses_from validate_check
    commit_ci_preflight.Receipt.Manifest.expected_artifacts
    commit_ci_preflight.Receipt.Manifest.observe_artifacts
    commit_ci_preflight.Receipt.Manifest.validate_artifact_manifest
    commit_ci_preflight.Receipt.Manifest.validate_planned
    commit_ci_preflight.Receipt.Manifest.validate_runtime_evidence derive_overall_status
    commit_ci_preflight.Receipt.Timestamp.days_in_month
    commit_ci_preflight.Receipt.Timestamp.divisible_by
    commit_ci_preflight.Receipt.Timestamp.is_leap_year
    commit_ci_preflight.Receipt.Timestamp.parse_decimal commit_ci_preflight.Text.is_blank
    commit_ci_preflight.Text.strip_prefix
receipt_v2_valid = refl

validate_v2-plan_digest_example :
    canonical_digest Samples.codec ⦃s = Samples.plan_values⦄ Samples.plan ≡ ok Samples.zeros
validate_v2-plan_digest_example =
    validate_v2-plan_digest Samples.codec ⦃plan = Samples.plan_values⦄ Samples.receipt_v2
      receipt_v2_valid

abbrev planned_unit : NormalizedCheck
planned_unit = record {
  id = "unit";
  required = true;
  argv = "cargo" ∷ "test" ∷ [];
  working_directory = ".";
  timeout_seconds = 600;
  depends_on = [];
  artifacts = [];
  artifact_contracts = [];
}

validate_v2-IsEvidenceOf_example :
    (evidence : CheckEvidence) × Memᴰ evidence (unit_tests ∷ [])
    × IsEvidenceOf evidence planned_unit
    × RanClean evidence
validate_v2-IsEvidenceOf_example =
    validate_v2-IsEvidenceOf Samples.codec ⦃plan = Samples.plan_values⦄ Samples.receipt_v2
      planned_unit receipt_v2_valid refl (Memᴰ.head refl) refl

trusted_policy_valid : Policy.validate_v1_1 Samples.trusted_policy ≡ ok tt
unfolding Policy.validate_v1_1 Policy.validate Policy.validate_project
    commit_ci_preflight.Text.as_bytes commit_ci_preflight.Text.split Policy.validate_digest
    Policy.validate_image_reference Policy.validate_trusted_config_path
    Policy.validate_producer_contract
trusted_policy_valid = refl

time_required : require_timestamp "run.finished_at_utc" "2024-02-29T23:59:59Z" ≡ ok tt
unfolding require_timestamp
time_required = refl

require_timestamp-parses_example : (t : ℤ) × (parse_utc_seconds "2024-02-29T23:59:59Z" ≡ some t)
require_timestamp-parses_example =
    require_timestamp-parses "run.finished_at_utc" "2024-02-29T23:59:59Z" time_required
