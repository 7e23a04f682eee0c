-- ===== src/Verify/Evaluate/Laws.antt =====
-- `evaluate_policy` of src/verify.rs decides whether a receipt meets the policy.
use commit_ci_preflight.Prelude.{
  ℤ, String, false, not, ◌&&◌, ◌≡◌, refl, List, [], arith, str_eq, eq_iff, contains, any, ◌↔◌,
}
use commit_ci_preflight.Verify.Evaluate.Meets.{IsListed, HavePassed, Meets}
use commit_ci_preflight.Ordered.Set.{SameMembers}
use commit_ci_preflight.Receipt.Status.{pass, is_pass}
use commit_ci_preflight.Receipt.Manifest.{same_texts}
use commit_ci_preflight.Verify.Policy.{VerificationPolicyV1}
use commit_ci_preflight.Verify.Utc.{parse_utc_seconds}
use commit_ci_preflight.Verify.Report.{VerificationFindingV1, finding}
use commit_ci_preflight.Verify.Evaluate.{
  ReceiptPolicyView, accepts, required_ids, actual_required, expected_required, check_source,
  check_identity, check_results, evaluate_policy,
}
use commit_ci_preflight.Verify.Evaluate.Single.{
  push_three-nil_iff, same_sets_iff, IsListed-iff, is_pass_iff, HavePassed-iff, IsFresh-iff,
}

check_identity-nil_iff :
    (receipt : ReceiptPolicyView) (policy : VerificationPolicyV1) (commit : String)
    (findings : List VerificationFindingV1)
    → (check_identity receipt policy commit findings ≡ []) ↔ (
        (receipt.repository.repository ≡ policy.project)
        × (receipt.repository.commit_sha ≡ commit)
        × (receipt.repository.dirty ≡ false)
        × (receipt.configuration_digest ≡ policy.configuration_digest)
        × (receipt.platform.image_reference ≡ policy.image_reference)
        × IsListed receipt.platform policy.platforms
        × (findings ≡ []))
unfolding check_identity check_source
check_identity-nil_iff receipt policy commit findings = ground (
  arith,
  IsListed-iff receipt.platform policy.platforms,
  eq_iff receipt.repository.repository policy.project,
  eq_iff receipt.repository.commit_sha commit,
  eq_iff receipt.configuration_digest policy.configuration_digest,
  eq_iff receipt.platform.image_reference policy.image_reference,
  push_three-nil_iff (not (str_eq receipt.configuration_digest policy.configuration_digest))
      (not (str_eq receipt.platform.image_reference policy.image_reference))
      (not (any (accepts receipt.platform) policy.platforms))
      (finding "policy.configuration" "configuration_digest"
        "receipt configuration digest does not match repository policy")
      (finding "policy.image" "platform.image_reference"
        "receipt image does not match repository policy")
      (finding "policy.platform" "platform"
        "receipt platform tuple is not accepted by repository policy")
      (check_source receipt policy commit findings),
  push_three-nil_iff (not (str_eq receipt.repository.repository policy.project))
      (not (str_eq receipt.repository.commit_sha commit)) receipt.repository.dirty
      (finding "policy.repository" "repository.repository"
        "receipt project does not match repository policy")
      (finding "policy.commit" "repository.commit_sha"
        "receipt commit does not match the externally supplied commit")
      (finding "policy.dirty" "repository.dirty" "repository policy requires a clean checkout")
      findings,
)

check_results-nil_iff :
    (receipt : ReceiptPolicyView) (policy : VerificationPolicyV1)
    (findings : List VerificationFindingV1)
    → (check_results receipt policy findings ≡ []) ↔ (
        (receipt.overall_status ≡ pass)
        × SameMembers (required_ids receipt.checks) policy.required_checks
        × HavePassed policy.required_checks receipt.checks
        × (findings ≡ []))
unfolding check_results
check_results-nil_iff receipt policy findings = ground (
  arith,
  is_pass_iff receipt.overall_status,
  same_sets_iff (required_ids receipt.checks) policy.required_checks,
  HavePassed-iff policy receipt.checks,
  push_three-nil_iff (not (is_pass receipt.overall_status))
      (not (same_texts (actual_required receipt.checks) (expected_required policy)))
      (any (λ check. contains (expected_required policy) check.id && not (is_pass check.status))
        receipt.checks)
      (finding "policy.overall_status" "overall_status"
        "repository policy requires an overall PASS receipt")
      (finding "policy.required_check_set" "checks"
        "required check set does not exactly match repository policy")
      (finding "policy.required_check_result" "checks.status"
        "one or more policy-required checks did not PASS")
      findings,
)

-- evaluate_policy adds no finding exactly to a receipt that meets the policy: project, commit,
-- clean checkout, configuration digest, image, an accepted platform, overall PASS, the required
-- checks as the same set, each of them PASS, and a completion time that is not in the future and
-- not older than the policy allows.
pub evaluate_policy_iff :
    (receipt : ReceiptPolicyView) (policy : VerificationPolicyV1) (commit : String) (now : ℤ)
    → (evaluate_policy receipt policy commit now [] ≡ []) ↔ Meets receipt policy commit now
unfolding evaluate_policy
evaluate_policy_iff receipt policy commit now =
    let identity = check_identity receipt policy commit [] in
    let results = check_results receipt policy identity in
    let times =
      IsFresh-iff (parse_utc_seconds receipt.run.finished_at_utc) policy.max_age_seconds now
        results in
    let on_results = check_results-nil_iff receipt policy identity in
    let on_identity = check_identity-nil_iff receipt policy commit [] in
    (
      λ h.
          let (fresh, r) = times.0 h in
          let (overall, required, passed, i) = on_results.0 r in
          let (repository, commit_sha, clean, configuration, image, platform, _) =
            on_identity.0 i in
          record {
            repository = repository;
            commit_sha = commit_sha;
            clean = clean;
            configuration = configuration;
            image = image;
            platform = platform;
            overall = overall;
            required = required;
            results = passed;
            fresh = fresh;
          },
      λ m. times.1 (
        m.fresh,
        on_results.1 (
          m.overall,
          m.required,
          m.results,
          on_identity.1
              (m.repository, m.commit_sha, m.clean, m.configuration, m.image, m.platform, refl),
        ),
      ),
    )
