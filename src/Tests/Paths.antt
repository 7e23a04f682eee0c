-- ===== src/Tests/Paths.antt =====
-- A verification by the path of a policy, at concrete inputs.
use commit_ci_preflight.Prelude.{ℕ, String, ◌≡◌, refl, List, [], ◌∷◌, Option, none, some}
use commit_ci_preflight.Outcome.{ok, err}
use commit_ci_preflight.Config.Data.{ExecutionPlanEnvelopeV1}
use commit_ci_preflight.Receipt.Data.{ReceiptEnvelopeV2}
use commit_ci_preflight.Verify.Policy.{baseline}
use commit_ci_preflight.Verify.Document.{verify_receipt_document}
use commit_ci_preflight.Verify.Report.{
  VerificationReportV1, VerificationDecision, VerificationError, TrustedPlanError, trusted_plan,
}
use commit_ci_preflight.Verify.Trusted.Meets.{MeetsTrusted}
use commit_ci_preflight.Verify.Load.{
  v1_1, load_verification_policy_document, validate_verification_policy_path,
  verify_receipt_document_for_policy_path,
}
use commit_ci_preflight.Verify.Load.Laws.{
  IsLoadedFrom, verify_receipt_document_for_policy_path-invalid,
  verify_receipt_document_for_policy_path-MeetsTrusted,
}
use commit_ci_preflight.Tests.Samples
use commit_ci_preflight.Tests.Plans.{plan_values-IsOrdered}

abbrev policy_file : String
policy_file = "ci/policy.toml"

policy_loaded :
    load_verification_policy_document Samples.trusted_host policy_file
    ≡ ok (v1_1 Samples.trusted_policy)
unfolding load_verification_policy_document commit_ci_preflight.Verify.Policy.validate_v1_1
    commit_ci_preflight.Verify.Policy.validate commit_ci_preflight.Verify.Policy.validate_project
    commit_ci_preflight.Text.as_bytes commit_ci_preflight.Text.split
    commit_ci_preflight.Verify.Policy.validate_digest
    commit_ci_preflight.Verify.Policy.validate_image_reference
    commit_ci_preflight.Verify.Policy.validate_trusted_config_path
    commit_ci_preflight.Verify.Policy.validate_producer_contract
policy_loaded = refl

path_report_made :
    verify_receipt_document_for_policy_path Samples.trusted_host Samples.codec
      ⦃text = Samples.text_values⦄ ⦃plan = Samples.plan_values⦄ Samples.decoder_v2
      ⦃s1 = Samples.receipt_v1_values⦄ ⦃s2 = Samples.receipt_v2_values⦄
      (λ bytes policy commit time. err VerificationError.matrix)
      Samples.bytes
      policy_file
      Samples.commit
      "2026-01-01T00:10:00Z"
    ≡ ok Samples.trusted_report
unfolding commit_ci_preflight.Verify.Document.verify_receipt_document
    commit_ci_preflight.Verify.Policy.validate commit_ci_preflight.Verify.Policy.validate_project
    commit_ci_preflight.Text.as_bytes commit_ci_preflight.Text.split
    commit_ci_preflight.Verify.Policy.validate_digest
    commit_ci_preflight.Verify.Policy.validate_image_reference
    commit_ci_preflight.Verify.Utc.parse_utc_seconds commit_ci_preflight.Receipt.Envelope.verify_v1
    commit_ci_preflight.Receipt.Envelope.validate_v1 commit_ci_preflight.Receipt.Common.validate
    commit_ci_preflight.Receipt.Common.validate_header
    commit_ci_preflight.Receipt.Fields.require_text
    commit_ci_preflight.Receipt.Fields.validate_repository_identity
    commit_ci_preflight.Receipt.Fields.validate_commit_sha
    commit_ci_preflight.Receipt.Timestamp.require_timestamp commit_ci_preflight.Ordered.Order.str_lt
    commit_ci_preflight.Receipt.Fields.validate_sha256
    commit_ci_preflight.Canonical.Digest.canonical_digest
    commit_ci_preflight.Canonical.Digest.canonical_json
    commit_ci_preflight.Canonical.Digest.encode_hex commit_ci_preflight.Canonical.Json.insert_field
    commit_ci_preflight.Canonical.Json.normalize_json commit_ci_preflight.Ordered.Map.get
    commit_ci_preflight.Ordered.Map.insert commit_ci_preflight.Ordered.Set.extend
    commit_ci_preflight.Ordered.Set.insert commit_ci_preflight.Prelude.◌*ℤ◌
    commit_ci_preflight.Prelude.◌+ℤ◌ commit_ci_preflight.Prelude.◌-ℤ◌
    commit_ci_preflight.Receipt.Common.required_statuses_from
    commit_ci_preflight.Receipt.Common.validate_check
    commit_ci_preflight.Receipt.Common.validate_results
    commit_ci_preflight.Receipt.Envelope.validate_v2 commit_ci_preflight.Receipt.Envelope.verify_v2
    commit_ci_preflight.Receipt.Fields.validate_incomplete_reason
    commit_ci_preflight.Receipt.Fields.validate_relative_path
    commit_ci_preflight.Receipt.Manifest.expected_artifacts
    commit_ci_preflight.Receipt.Manifest.observe_artifacts
    commit_ci_preflight.Receipt.Manifest.validate_artifact_manifest
    commit_ci_preflight.Receipt.Manifest.validate_planned
    commit_ci_preflight.Receipt.Manifest.validate_runtime_capability_evidence
    commit_ci_preflight.Receipt.Manifest.validate_runtime_evidence
    commit_ci_preflight.Receipt.Manifest.validate_source_snapshot
    commit_ci_preflight.Receipt.Status.derive_overall_status
    commit_ci_preflight.Receipt.Timestamp.days_in_month
    commit_ci_preflight.Receipt.Timestamp.divisible_by
    commit_ci_preflight.Receipt.Timestamp.is_leap_year
    commit_ci_preflight.Receipt.Timestamp.parse_decimal commit_ci_preflight.Text.is_blank
    commit_ci_preflight.Text.rsplit_once commit_ci_preflight.Text.strip_prefix
    commit_ci_preflight.Verify.Document.open_envelope
    commit_ci_preflight.Verify.Document.parse_envelope
    commit_ci_preflight.Verify.Document.parse_version
    commit_ci_preflight.Verify.Document.report_from commit_ci_preflight.Verify.Document.report_on
    commit_ci_preflight.Verify.Document.validate_commit
    commit_ci_preflight.Verify.Document.verify_envelope
    commit_ci_preflight.Verify.Evaluate.check_equal
    commit_ci_preflight.Verify.Evaluate.check_freshness
    commit_ci_preflight.Verify.Evaluate.check_identity
    commit_ci_preflight.Verify.Evaluate.check_results
    commit_ci_preflight.Verify.Evaluate.check_source
    commit_ci_preflight.Verify.Evaluate.evaluate_policy
    commit_ci_preflight.Verify.Policy.validate_name
    commit_ci_preflight.Verify.Policy.validate_platforms
    commit_ci_preflight.Verify.Policy.validate_required_checks
    commit_ci_preflight.Verify.Utc.civil_seconds commit_ci_preflight.Verify.Utc.days_from_civil
    commit_ci_preflight.Verify.Utc.decimal commit_ci_preflight.Verify.Utc.leap
    commit_ci_preflight.Verify.Utc.seconds_from_civil
    commit_ci_preflight.Verify.Trusted.verify_trusted_plan_receipt_document
    commit_ci_preflight.Verify.Trusted.check_producer
    commit_ci_preflight.Verify.Trusted.finalize_trusted_plan_report
    commit_ci_preflight.Verify.Trusted.check_plan_digest
    commit_ci_preflight.Verify.Trusted.compare_execution_plan
    commit_ci_preflight.Verify.Trusted.check_trusted
    commit_ci_preflight.Verify.Trusted.trusted_findings
    commit_ci_preflight.Verify.PlanDiff.compare_plan_value
    commit_ci_preflight.Verify.PlanDiff.same_value commit_ci_preflight.Config.Plan.into_plan
    commit_ci_preflight.Config.Plan.normalize_plan
    commit_ci_preflight.Config.Plan.validate_top_level
    commit_ci_preflight.Config.Fields.validate_repository_identity
    commit_ci_preflight.Config.Fields.validate_image_reference
    commit_ci_preflight.Config.Fields.validate_bounded
    commit_ci_preflight.Config.Fields.validate_relative_path
    commit_ci_preflight.Config.Caches.normalize_caches
    commit_ci_preflight.Config.Runtime.normalize_runtime
    commit_ci_preflight.Config.Environment.normalize_environment
    commit_ci_preflight.Config.Fields.unique_sorted
    commit_ci_preflight.Config.Checks.normalize_checks commit_ci_preflight.Config.Checks.admit_check
    commit_ci_preflight.Config.Caches.normalize_caches_from
    commit_ci_preflight.Config.Checks.collect_checks
    commit_ci_preflight.Config.Checks.complete_check commit_ci_preflight.Config.Checks.validate_argv
    commit_ci_preflight.Config.Checks.validate_artifact_contracts
    commit_ci_preflight.Config.Checks.validate_check
    commit_ci_preflight.Config.Checks.validate_contracts_from
    commit_ci_preflight.Config.Environment.bind_caches
    commit_ci_preflight.Config.Environment.digest_fixed
    commit_ci_preflight.Config.Environment.insert_names
    commit_ci_preflight.Config.Environment.sort_by
    commit_ci_preflight.Config.Fields.unique_sorted_from
    commit_ci_preflight.Config.Fields.validate_environment_name
    commit_ci_preflight.Config.Fields.validate_identifier
    commit_ci_preflight.Config.Fields.validate_text
    commit_ci_preflight.Config.Isolation.isolate_artifacts
    commit_ci_preflight.Config.Isolation.isolate_caches
    commit_ci_preflight.Config.Isolation.isolate_checks
    commit_ci_preflight.Config.Isolation.lies_below commit_ci_preflight.Config.Isolation.overlaps
    commit_ci_preflight.Config.Isolation.reject_overlaps
    commit_ci_preflight.Config.Isolation.reject_path_overlap
    commit_ci_preflight.Config.Isolation.validate_path_isolation
    commit_ci_preflight.Config.Runtime.capability_policies
    commit_ci_preflight.Config.Storage.normalize_present_storage
    commit_ci_preflight.Config.Storage.normalize_storage
    commit_ci_preflight.Config.Storage.sum_of_parts
    commit_ci_preflight.Config.Storage.total_max_bytes
    commit_ci_preflight.Config.Topology.add_dependents
    commit_ci_preflight.Config.Topology.blocked_ids
    commit_ci_preflight.Config.Topology.collect_dependents commit_ci_preflight.Config.Topology.drain
    commit_ci_preflight.Config.Topology.initial_indegree
    commit_ci_preflight.Config.Topology.ready_ids commit_ci_preflight.Config.Topology.release
    commit_ci_preflight.Config.Topology.start commit_ci_preflight.Config.Topology.topological_checks
    commit_ci_preflight.Config.Topology.validate_dependencies
    commit_ci_preflight.Config.Topology.validate_dependencies_of
    commit_ci_preflight.Config.Topology.validate_depends_on
    commit_ci_preflight.Config.Topology.visit commit_ci_preflight.Verify.Load.parse_policy
    commit_ci_preflight.Verify.Load.parse_version
    commit_ci_preflight.Verify.Load.load_verification_policy_document
    commit_ci_preflight.Verify.Load.load_config commit_ci_preflight.Verify.Load.load_trusted_plan
    commit_ci_preflight.Verify.Load.verify_with
    commit_ci_preflight.Verify.Load.verify_receipt_document_for_policy_path
    commit_ci_preflight.Verify.Policy.validate_v1_1
    commit_ci_preflight.Verify.Policy.validate_trusted_config_path
    commit_ci_preflight.Verify.Policy.validate_producer_contract
    commit_ci_preflight.Verify.Policy.validate_supported
    commit_ci_preflight.Verify.Policy.validate_revoked commit_ci_preflight.Config.Plan.parse
path_report_made = refl

verify_receipt_document_for_policy_path-MeetsTrusted_example :
    (loaded : ExecutionPlanEnvelopeV1) × IsLoadedFrom Samples.trusted_host Samples.codec
      Samples.decoder_v2 ⦃text = Samples.text_values⦄ ⦃plan = Samples.plan_values⦄
      ⦃s1 = Samples.receipt_v1_values⦄ ⦃s2 = Samples.receipt_v2_values⦄
      (λ bytes policy commit time. err VerificationError.matrix)
      Samples.trusted_policy
      policy_file
      loaded
    × ((envelope : ReceiptEnvelopeV2) × (Samples.decoder_v2.receipt_v2 Samples.bytes
          ≡ some envelope)
        × MeetsTrusted Samples.trusted_policy loaded envelope.receipt Samples.plan_values.to_value)
    × ((baseline_report : VerificationReportV1) × (verify_receipt_document Samples.codec
            Samples.decoder_v2 ⦃plan = Samples.plan_values⦄ ⦃s1 = Samples.receipt_v1_values⦄
            ⦃s2 = Samples.receipt_v2_values⦄ Samples.bytes
            (baseline Samples.trusted_policy)
            Samples.commit
            "2026-01-01T00:10:00Z"
          ≡ ok baseline_report)
        × (baseline_report.decision ≡ VerificationDecision.pass))
verify_receipt_document_for_policy_path-MeetsTrusted_example =
    verify_receipt_document_for_policy_path-MeetsTrusted Samples.trusted_host Samples.codec
      Samples.decoder_v2 ⦃text = Samples.text_values⦄ ⦃plan = Samples.plan_values⦄
      ⦃s1 = Samples.receipt_v1_values⦄ ⦃s2 = Samples.receipt_v2_values⦄
      (λ bytes policy commit time. err VerificationError.matrix) Samples.bytes policy_file
      Samples.commit "2026-01-01T00:10:00Z" Samples.trusted_policy Samples.trusted_report
      plan_values-IsOrdered policy_loaded path_report_made refl

path_invalid :
    validate_verification_policy_path Samples.rootless_host Samples.codec
      ⦃text = Samples.text_values⦄ ⦃plan = Samples.plan_values⦄ policy_file
    ≡ err (trusted_plan TrustedPlanError.policy_path)
unfolding validate_verification_policy_path commit_ci_preflight.Verify.Policy.validate_v1_1
    commit_ci_preflight.Verify.Policy.validate commit_ci_preflight.Verify.Policy.validate_project
    commit_ci_preflight.Text.as_bytes commit_ci_preflight.Text.split
    commit_ci_preflight.Verify.Policy.validate_digest
    commit_ci_preflight.Verify.Policy.validate_image_reference
    commit_ci_preflight.Verify.Policy.validate_trusted_config_path
    commit_ci_preflight.Verify.Policy.validate_producer_contract
path_invalid = refl

verify_receipt_document_for_policy_path-invalid_example :
    verify_receipt_document_for_policy_path Samples.rootless_host Samples.codec
      ⦃text = Samples.text_values⦄ ⦃plan = Samples.plan_values⦄ Samples.decoder_v2
      ⦃s1 = Samples.receipt_v1_values⦄ ⦃s2 = Samples.receipt_v2_values⦄
      (λ bytes policy commit time. err VerificationError.matrix)
      []
      policy_file
      Samples.commit
      "2026-01-01T00:10:00Z"
    ≡ err (trusted_plan TrustedPlanError.policy_path)
verify_receipt_document_for_policy_path-invalid_example =
    verify_receipt_document_for_policy_path-invalid Samples.rootless_host Samples.codec
      Samples.decoder_v2 ⦃text = Samples.text_values⦄ ⦃plan = Samples.plan_values⦄
      ⦃s1 = Samples.receipt_v1_values⦄ ⦃s2 = Samples.receipt_v2_values⦄
      (λ bytes policy commit time. err VerificationError.matrix) [] policy_file Samples.commit
      "2026-01-01T00:10:00Z" (trusted_plan TrustedPlanError.policy_path) path_invalid
