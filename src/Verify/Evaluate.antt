-- ===== src/Verify/Evaluate.antt =====
-- `evaluate_policy` of src/verify.rs.
pub mod Meets
pub mod Single
pub mod Laws
use commit_ci_preflight.Prelude.{
  ℕ, ◌-◌, ◌^◌, ℤ, pos, negsuc, ◌-ℤ◌, ltb_ℤ, String, Bool, not, ◌&&◌, List, [], ◌∷◌, map, Option,
  none, some, ltb, if◌then◌else◌, str_eq, any, keep, contains,
}
use commit_ci_preflight.Ordered.Set
use commit_ci_preflight.Receipt.Status.{EvidenceStatus, is_pass}
use commit_ci_preflight.Receipt.Data.{
  RepositoryEvidence, RunEvidence, PlatformEvidence, CheckEvidence,
}
use commit_ci_preflight.Receipt.Manifest.{same_texts}
use commit_ci_preflight.Verify.Policy.{AcceptedPlatformV1, VerificationPolicyV1}
use commit_ci_preflight.Verify.Utc.{parse_utc_seconds}
use commit_ci_preflight.Verify.Report.{VerificationFindingV1, finding, push_if}

pub record ReceiptPolicyView : Type 0 where
  pub repository : RepositoryEvidence
  pub run : RunEvidence
  pub platform : PlatformEvidence
  pub configuration_digest : String
  pub checks : List CheckEvidence
  pub overall_status : EvidenceStatus

abbrev Findings : Type 0
Findings = List VerificationFindingV1

unfoldable pub check_equal : (actual expected code field message : String) → Findings → Findings
check_equal actual expected code field message findings =
    push_if (not (str_eq actual expected)) (finding code field message) findings

abbrev pub accepts : PlatformEvidence → AcceptedPlatformV1 → Bool
accepts platform accepted =
    str_eq accepted.host_os platform.host_os
    && str_eq accepted.host_arch platform.host_arch
    && str_eq accepted.runtime_kind platform.runtime_kind

-- The ids of the required checks, collected into a set.
abbrev pub required_ids : List CheckEvidence → List String
required_ids checks = map (λ check. check.id) (keep (λ check. check.required) checks)

abbrev pub actual_required : List CheckEvidence → List String
actual_required checks = Set.extend [] (required_ids checks)

abbrev pub expected_required : VerificationPolicyV1 → List String
expected_required policy = Set.extend [] policy.required_checks

-- `max_age_seconds as i64`.
abbrev pub as_i64 : ℕ → ℤ
as_i64 n = if ltb n (2 ^ 63) then pos n else negsuc (2 ^ 64 - n - 1)

-- The last statement: the age of the receipt. Both times come of `parse_utc_seconds`, so their
-- difference is far inside an `i64`.
unfoldable pub check_freshness : Option ℤ → ℕ → ℤ → Findings → Findings
unfolding ◌-ℤ◌
check_freshness none max_age_seconds evaluated_at findings =
    push_if Bool.true
      (finding "policy.invalid_time" "run.finished_at_utc"
        "receipt completion time cannot be evaluated")
      findings
check_freshness (some finished_at) max_age_seconds evaluated_at findings =
    if ltb_ℤ evaluated_at finished_at
    then push_if Bool.true
        (finding "policy.future_receipt" "run.finished_at_utc"
          "receipt completion time is later than verification time")
        findings
    else push_if (ltb_ℤ (as_i64 max_age_seconds) (evaluated_at -ℤ finished_at))
        (finding "policy.stale_receipt" "run.finished_at_utc"
          "receipt exceeds repository freshness policy")
        findings

-- The statements on the source.
unfoldable pub check_source :
    ReceiptPolicyView → VerificationPolicyV1 → String → Findings → Findings
unfolding check_equal
check_source receipt policy expected_commit findings =
    let findings =
      check_equal receipt.repository.repository policy.project "policy.repository"
        "repository.repository" "receipt project does not match repository policy" findings in
    let findings =
      check_equal receipt.repository.commit_sha expected_commit "policy.commit"
        "repository.commit_sha" "receipt commit does not match the externally supplied commit"
        findings in
    push_if receipt.repository.dirty
      (finding "policy.dirty" "repository.dirty" "repository policy requires a clean checkout")
      findings

-- The statements on the configuration and the platform, after those on the source.
unfoldable pub check_identity :
    ReceiptPolicyView → VerificationPolicyV1 → String → Findings → Findings
unfolding check_source
check_identity receipt policy expected_commit findings =
    let findings = check_source receipt policy expected_commit findings in
    let findings =
      check_equal receipt.configuration_digest policy.configuration_digest "policy.configuration"
        "configuration_digest" "receipt configuration digest does not match repository policy"
        findings in
    let findings =
      check_equal receipt.platform.image_reference policy.image_reference "policy.image"
        "platform.image_reference" "receipt image does not match repository policy" findings in
    push_if (not (any (accepts receipt.platform) policy.platforms))
      (finding "policy.platform" "platform"
        "receipt platform tuple is not accepted by repository policy")
      findings

-- The statements on the results of the checks.
unfoldable pub check_results : ReceiptPolicyView → VerificationPolicyV1 → Findings → Findings
unfolding Set.extend
check_results receipt policy findings =
    let findings =
      push_if (not (is_pass receipt.overall_status))
        (finding "policy.overall_status" "overall_status"
          "repository policy requires an overall PASS receipt")
        findings in
    let findings =
      push_if (not (same_texts (actual_required receipt.checks) (expected_required policy)))
        (finding "policy.required_check_set" "checks"
          "required check set does not exactly match repository policy")
        findings in
    push_if
      (any (λ check. contains (expected_required policy) check.id && not (is_pass check.status))
        receipt.checks)
      (finding "policy.required_check_result" "checks.status"
        "one or more policy-required checks did not PASS")
      findings

unfoldable pub evaluate_policy :
    ReceiptPolicyView → VerificationPolicyV1 → String → ℤ → Findings → Findings
unfolding check_identity check_results check_freshness
evaluate_policy receipt policy expected_commit evaluated_at findings =
    check_freshness (parse_utc_seconds receipt.run.finished_at_utc) policy.max_age_seconds
      evaluated_at
      (check_results receipt policy (check_identity receipt policy expected_commit findings))
