-- ===== src/Tests/Plans.antt =====
-- Plans compared, isolated and given storage, at concrete inputs.
use commit_ci_preflight.Prelude.{
  ℕ, ◌≤◌, suc, String, Bool, true, false, ◌≡◌, refl, List, [], ◌∷◌, Option, none, some, ◌↔◌, ◌≢◌,
  length, arith,
}
use mathlib.Core.Path.{subst}
use commit_ci_preflight.Outcome.{Outcome, ok, err, some_inj}
use commit_ci_preflight.Canonical.Json.{normalize_json, Value, number, text, object, field, end}
use commit_ci_preflight.Config.Data.{ExecutionPlanV1}
use commit_ci_preflight.Config.Storage.{normalize_storage, has_storage_policy}
use commit_ci_preflight.Config.Storage.Laws.{IsWithinBudget, normalize_storage-IsWithinBudget}
use commit_ci_preflight.Config.Isolation.{validate_path_isolation}
use commit_ci_preflight.Config.Isolation.Apart.{IsIsolated}
use commit_ci_preflight.Config.Isolation.Laws.{validate_path_isolation_iff}
use commit_ci_preflight.Receipt.Data.{ReceiptEnvelopeV2}
use commit_ci_preflight.Storage.{preflight}
use commit_ci_preflight.Storage.Laws.{IsDecided, preflight-IsDecided}
use commit_ci_preflight.Terminal.{finalize_owned_terminal}
use commit_ci_preflight.Terminal.Laws.{finalize_owned_terminal_lem}
use commit_ci_preflight.Verify.Policy.{baseline}
use commit_ci_preflight.Verify.Report.{VerificationReportV1, VerificationDecision}
use commit_ci_preflight.Verify.Document.{verify_receipt_document}
use commit_ci_preflight.Verify.PlanDiff.{compare_plan_value}
use commit_ci_preflight.Canonical.Json.Ordered.{IsOrdered}
use commit_ci_preflight.Verify.PlanDiff.Complete.{
  compare_plan_value-eq_iff, compare_plan_value-length,
}
use commit_ci_preflight.Verify.Trusted.{verify_trusted_plan_receipt_document}
use commit_ci_preflight.Verify.Trusted.Laws.{verify_trusted_plan_receipt_document-MeetsTrusted}
use commit_ci_preflight.Verify.Trusted.Meets.{MeetsTrusted}
use commit_ci_preflight.Tests.Samples
use commit_ci_preflight.Canonical.Json.Laws.{normalize_json-canonical, normalize_json-fixed_iff}
use commit_ci_preflight.Canonical.Digest.{canonical_digest}
use commit_ci_preflight.Config.Failure.{plan_digest_mismatch}
use commit_ci_preflight.Config.Plan.{into_plan, canonical_bytes}
use commit_ci_preflight.Config.Plan.Laws.{IsPlanOf, into_plan-IsPlanOf, into_plan-canonical_bytes}

abbrev object_of : String → Value
object_of memory = object (field "cpu" (number "2") (field "memory" (text memory) end))

object_of-IsOrdered : (memory : String) → IsOrdered (object_of memory)
unfolding IsOrdered commit_ci_preflight.Ordered.Order.str_lt
object_of-IsOrdered memory = (((refl, tt), (tt, tt)), (tt, (tt, tt)))

compare_plan_value-eq_iff_example :
    (compare_plan_value (object_of "1g") (object_of "2g") "" [] ≡ [])
    ↔ (object_of "1g" ≡ object_of "2g")
compare_plan_value-eq_iff_example =
    compare_plan_value-eq_iff (object_of "1g") (object_of "2g") "" (object_of-IsOrdered "1g")
      (object_of-IsOrdered "2g")

none_so_far : 0 ≤ 128
none_so_far = omega arith

compare_plan_value-length_example :
    length (compare_plan_value (object_of "1g") (object_of "2g") "" []) ≤ 128
compare_plan_value-length_example =
    compare_plan_value-length (object_of "1g") (object_of "2g") "" [] (object_of-IsOrdered "1g")
      none_so_far

pub plan_values-IsOrdered :
    (plan : ExecutionPlanV1) (value : Value)
    → Samples.plan_values.to_value plan ≡ some value
    → IsOrdered value
unfolding IsOrdered
plan_values-IsOrdered plan value h = subst IsOrdered (some_inj h) tt

trusted_report_made :
    verify_trusted_plan_receipt_document Samples.codec Samples.decoder_v2
      ⦃plan = Samples.plan_values⦄ ⦃s1 = Samples.receipt_v1_values⦄ ⦃s2 = Samples.receipt_v2_values⦄
      Samples.bytes Samples.trusted_policy Samples.trusted_plan Samples.commit
      "2026-01-01T00:10:00Z"
    ≡ ok Samples.trusted_report
unfolding commit_ci_preflight.Verify.Document.verify_receipt_document
    commit_ci_preflight.Verify.Policy.validate commit_ci_preflight.Verify.Policy.validate_project
    commit_ci_preflight.Text.as_bytes commit_ci_preflight.Text.split
    commit_ci_preflight.Verify.Policy.validate_digest
    commit_ci_preflight.Verify.Policy.validate_image_reference
    commit_ci_preflight.Verify.Utc.parse_utc_seconds commit_ci_preflight.Receipt.Envelope.verify_v1
    commit_ci_preflight.Receipt.Envelope.validate_v1 commit_ci_preflight.Receipt.Common.validate
    commit_ci_preflight.Receipt.Common.validate_header
    commit_ci_preflight.Receipt.Fields.require_text
    commit_ci_preflight.Receipt.Fields.validate_repository_identity
    commit_ci_preflight.Receipt.Fields.validate_commit_sha
    commit_ci_preflight.Receipt.Timestamp.require_timestamp commit_ci_preflight.Ordered.Order.str_lt
    commit_ci_preflight.Receipt.Fields.validate_sha256
    commit_ci_preflight.Canonical.Digest.canonical_digest
    commit_ci_preflight.Canonical.Digest.canonical_json
    commit_ci_preflight.Canonical.Digest.encode_hex commit_ci_preflight.Canonical.Json.insert_field
    commit_ci_preflight.Canonical.Json.normalize_json commit_ci_preflight.Ordered.Map.get
    commit_ci_preflight.Ordered.Map.insert commit_ci_preflight.Ordered.Set.extend
    commit_ci_preflight.Ordered.Set.insert commit_ci_preflight.Prelude.◌*ℤ◌
    commit_ci_preflight.Prelude.◌+ℤ◌ commit_ci_preflight.Prelude.◌-ℤ◌
    commit_ci_preflight.Receipt.Common.required_statuses_from
    commit_ci_preflight.Receipt.Common.validate_check
    commit_ci_preflight.Receipt.Common.validate_results
    commit_ci_preflight.Receipt.Envelope.validate_v2 commit_ci_preflight.Receipt.Envelope.verify_v2
    commit_ci_preflight.Receipt.Fields.validate_incomplete_reason
    commit_ci_preflight.Receipt.Fields.validate_relative_path
    commit_ci_preflight.Receipt.Manifest.expected_artifacts
    commit_ci_preflight.Receipt.Manifest.observe_artifacts
    commit_ci_preflight.Receipt.Manifest.validate_artifact_manifest
    commit_ci_preflight.Receipt.Manifest.validate_planned
    commit_ci_preflight.Receipt.Manifest.validate_runtime_capability_evidence
    commit_ci_preflight.Receipt.Manifest.validate_runtime_evidence
    commit_ci_preflight.Receipt.Manifest.validate_source_snapshot
    commit_ci_preflight.Receipt.Status.derive_overall_status
    commit_ci_preflight.Receipt.Timestamp.days_in_month
    commit_ci_preflight.Receipt.Timestamp.divisible_by
    commit_ci_preflight.Receipt.Timestamp.is_leap_year
    commit_ci_preflight.Receipt.Timestamp.parse_decimal commit_ci_preflight.Text.is_blank
    commit_ci_preflight.Text.rsplit_once commit_ci_preflight.Text.strip_prefix
    commit_ci_preflight.Verify.Document.open_envelope
    commit_ci_preflight.Verify.Document.parse_envelope
    commit_ci_preflight.Verify.Document.parse_version
    commit_ci_preflight.Verify.Document.report_from commit_ci_preflight.Verify.Document.report_on
    commit_ci_preflight.Verify.Document.validate_commit
    commit_ci_preflight.Verify.Document.verify_envelope
    commit_ci_preflight.Verify.Evaluate.check_equal
    commit_ci_preflight.Verify.Evaluate.check_freshness
    commit_ci_preflight.Verify.Evaluate.check_identity
    commit_ci_preflight.Verify.Evaluate.check_results
    commit_ci_preflight.Verify.Evaluate.check_source
    commit_ci_preflight.Verify.Evaluate.evaluate_policy
    commit_ci_preflight.Verify.Policy.validate_name
    commit_ci_preflight.Verify.Policy.validate_platforms
    commit_ci_preflight.Verify.Policy.validate_required_checks
    commit_ci_preflight.Verify.Utc.civil_seconds commit_ci_preflight.Verify.Utc.days_from_civil
    commit_ci_preflight.Verify.Utc.decimal commit_ci_preflight.Verify.Utc.leap
    commit_ci_preflight.Verify.Utc.seconds_from_civil verify_trusted_plan_receipt_document
    commit_ci_preflight.Verify.Trusted.check_producer
    commit_ci_preflight.Verify.Trusted.finalize_trusted_plan_report
    commit_ci_preflight.Verify.Trusted.check_plan_digest
    commit_ci_preflight.Verify.Trusted.compare_execution_plan
    commit_ci_preflight.Verify.Trusted.check_trusted
    commit_ci_preflight.Verify.Trusted.trusted_findings
    commit_ci_preflight.Verify.PlanDiff.compare_plan_value
    commit_ci_preflight.Verify.PlanDiff.same_value
trusted_report_made = refl

verify_trusted_plan_receipt_document-MeetsTrusted_example :
    ((envelope : ReceiptEnvelopeV2) × (Samples.decoder_v2.receipt_v2 Samples.bytes ≡ some envelope)
      × MeetsTrusted Samples.trusted_policy Samples.trusted_plan envelope.receipt
          Samples.plan_values.to_value)
    × ((baseline_report : VerificationReportV1) × (verify_receipt_document Samples.codec
            Samples.decoder_v2 ⦃plan = Samples.plan_values⦄ ⦃s1 = Samples.receipt_v1_values⦄
            ⦃s2 = Samples.receipt_v2_values⦄ Samples.bytes
            (baseline Samples.trusted_policy)
            Samples.commit
            "2026-01-01T00:10:00Z"
          ≡ ok baseline_report)
        × (baseline_report.decision ≡ VerificationDecision.pass))
verify_trusted_plan_receipt_document-MeetsTrusted_example =
    verify_trusted_plan_receipt_document-MeetsTrusted Samples.codec Samples.decoder_v2
      ⦃plan = Samples.plan_values⦄ ⦃s1 = Samples.receipt_v1_values⦄ ⦃s2 = Samples.receipt_v2_values⦄
      Samples.bytes Samples.trusted_policy Samples.trusted_plan Samples.commit
      "2026-01-01T00:10:00Z" Samples.trusted_report plan_values-IsOrdered trusted_report_made refl

validate_path_isolation_iff_example :
    (validate_path_isolation
        (record { output = "receipt.json"; freshness_seconds = 60 })
        (record { id = "cargo"; mount_path = "cache/cargo" } ∷ [])
        Samples.contracted
      ≡ ok tt)
    ↔ IsIsolated "receipt.json" ("cache/cargo" ∷ []) ("target/app" ∷ "target/doc" ∷ [])
validate_path_isolation_iff_example =
    validate_path_isolation_iff (record { output = "receipt.json"; freshness_seconds = 60 })
      (record { id = "cargo"; mount_path = "cache/cargo" } ∷ []) Samples.contracted

storage_planned :
    normalize_storage "1.2" (some Samples.storage) Samples.contracted
    ≡ ok (some Samples.storage_plan)
unfolding normalize_storage
storage_planned = refl

normalize_storage-IsWithinBudget_example :
    (has_storage_policy "1.2" ≡ true) × IsWithinBudget Samples.storage_plan Samples.contracted
normalize_storage-IsWithinBudget_example =
    normalize_storage-IsWithinBudget "1.2" (some Samples.storage) Samples.contracted
      Samples.storage_plan storage_planned

preflight-IsDecided_example :
    IsDecided Samples.storage_plan
      (ok 9_000)
      (preflight Samples.storage_plan "/cache" (λ path. ok 9_000))
preflight-IsDecided_example =
    preflight-IsDecided "1.2" (some Samples.storage) Samples.contracted Samples.storage_plan
      "/cache" (λ path. ok 9_000) storage_planned

-- The state counts the calls of the closures.
abbrev completes : Outcome String ℕ → ℕ → Outcome String ℕ × ℕ
completes result calls = (result, suc calls)

abbrev releases : ℕ → Outcome String (Unit {0}) × ℕ
releases calls = (err "lease", suc calls)

finalize_owned_terminal_lem_example :
    ((finalize_owned_terminal (ok 7) completes releases 0).1 ≡ (releases (completes (ok 7) 0).1).1)
    × (((finalize_owned_terminal (ok 7) completes releases 0).0 ≡ ok 7)
        ↔ (((completes (ok 7) 0).0 ≡ ok 7) × ((releases (completes (ok 7) 0).1).0 ≡ ok tt)))
finalize_owned_terminal_lem_example = finalize_owned_terminal_lem (ok 7) completes releases 0 7

config_planned :
    into_plan Samples.codec ⦃text = Samples.text_values⦄ ⦃plan = Samples.plan_values⦄ Samples.config
    ≡ ok Samples.config_plan
unfolding into_plan commit_ci_preflight.Config.Plan.normalize_plan
    commit_ci_preflight.Config.Plan.validate_top_level
    commit_ci_preflight.Config.Fields.validate_repository_identity commit_ci_preflight.Text.split
    commit_ci_preflight.Text.as_bytes commit_ci_preflight.Config.Fields.validate_image_reference
    commit_ci_preflight.Text.rsplit_once commit_ci_preflight.Text.strip_prefix
    commit_ci_preflight.Config.Fields.validate_bounded
    commit_ci_preflight.Config.Fields.validate_relative_path
    commit_ci_preflight.Config.Caches.normalize_caches
    commit_ci_preflight.Config.Runtime.normalize_runtime
    commit_ci_preflight.Config.Environment.normalize_environment
    commit_ci_preflight.Config.Fields.unique_sorted
    commit_ci_preflight.Config.Checks.normalize_checks commit_ci_preflight.Config.Checks.admit_check
    commit_ci_preflight.Ordered.Map.insert canonical_digest
    commit_ci_preflight.Canonical.Digest.canonical_json
    commit_ci_preflight.Canonical.Digest.encode_hex commit_ci_preflight.Canonical.Json.insert_field
    normalize_json commit_ci_preflight.Config.Caches.normalize_caches_from
    commit_ci_preflight.Config.Checks.collect_checks
    commit_ci_preflight.Config.Checks.complete_check commit_ci_preflight.Config.Checks.validate_argv
    commit_ci_preflight.Config.Checks.validate_artifact_contracts
    commit_ci_preflight.Config.Checks.validate_check
    commit_ci_preflight.Config.Checks.validate_contracts_from
    commit_ci_preflight.Config.Environment.bind_caches
    commit_ci_preflight.Config.Environment.digest_fixed
    commit_ci_preflight.Config.Environment.insert_names
    commit_ci_preflight.Config.Environment.sort_by
    commit_ci_preflight.Config.Fields.unique_sorted_from
    commit_ci_preflight.Config.Fields.validate_environment_name
    commit_ci_preflight.Config.Fields.validate_identifier
    commit_ci_preflight.Config.Fields.validate_text
    commit_ci_preflight.Config.Isolation.isolate_artifacts
    commit_ci_preflight.Config.Isolation.isolate_caches
    commit_ci_preflight.Config.Isolation.isolate_checks
    commit_ci_preflight.Config.Isolation.lies_below commit_ci_preflight.Config.Isolation.overlaps
    commit_ci_preflight.Config.Isolation.reject_overlaps
    commit_ci_preflight.Config.Isolation.reject_path_overlap validate_path_isolation
    commit_ci_preflight.Config.Runtime.capability_policies
    commit_ci_preflight.Config.Storage.normalize_present_storage normalize_storage
    commit_ci_preflight.Config.Storage.sum_of_parts
    commit_ci_preflight.Config.Storage.total_max_bytes
    commit_ci_preflight.Config.Topology.add_dependents
    commit_ci_preflight.Config.Topology.blocked_ids
    commit_ci_preflight.Config.Topology.collect_dependents commit_ci_preflight.Config.Topology.drain
    commit_ci_preflight.Config.Topology.initial_indegree
    commit_ci_preflight.Config.Topology.ready_ids commit_ci_preflight.Config.Topology.release
    commit_ci_preflight.Config.Topology.start commit_ci_preflight.Config.Topology.topological_checks
    commit_ci_preflight.Config.Topology.validate_dependencies
    commit_ci_preflight.Config.Topology.validate_dependencies_of
    commit_ci_preflight.Config.Topology.validate_depends_on
    commit_ci_preflight.Config.Topology.visit commit_ci_preflight.Ordered.Map.get
    commit_ci_preflight.Ordered.Order.str_lt commit_ci_preflight.Ordered.Set.extend
    commit_ci_preflight.Ordered.Set.insert
config_planned = refl

into_plan-IsPlanOf_example :
    IsPlanOf Samples.config Samples.config_plan.plan
    × (canonical_digest Samples.codec ⦃s = Samples.plan_values⦄ Samples.config_plan.plan
        ≡ ok Samples.zeros)
    × (Samples.config_plan.fixed_environment ≡ Samples.config.environment.fixed)
into_plan-IsPlanOf_example =
    into_plan-IsPlanOf Samples.codec ⦃text = Samples.text_values⦄ ⦃plan = Samples.plan_values⦄
      Samples.config Samples.config_plan config_planned

into_plan-canonical_bytes_example :
    canonical_bytes Samples.codec ⦃plan = Samples.plan_values⦄ ⦃envelope = Samples.envelope_values⦄
      Samples.config_plan
    ≢ err plan_digest_mismatch
into_plan-canonical_bytes_example =
    into_plan-canonical_bytes Samples.codec ⦃text = Samples.text_values⦄
      ⦃plan = Samples.plan_values⦄ ⦃sealed = Samples.envelope_values⦄ Samples.config
      Samples.config_plan config_planned

normalize_json-canonical_example :
    IsOrdered (normalize_json Samples.document)
    × (normalize_json (normalize_json Samples.document) ≡ normalize_json Samples.document)
normalize_json-canonical_example = normalize_json-canonical Samples.document

normalize_json-fixed_iff_example :
    (normalize_json Samples.document ≡ Samples.document) ↔ IsOrdered Samples.document
normalize_json-fixed_iff_example = normalize_json-fixed_iff Samples.document
