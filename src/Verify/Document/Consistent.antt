-- ===== src/Verify/Document/Consistent.antt =====
-- The reports that `verify_receipt_document` of src/verify.rs makes of an opened envelope.
use commit_ci_preflight.Prelude.{
  ℤ, String, ◌≡◌, refl, sym, List, [], ◌∷◌, none, arith, ◌↔◌, inl, inr, ◌⊎◌, length,
}
use mathlib.Core.Path.{subst}
use commit_ci_preflight.Outcome.{Outcome, ok, err, ok_inj}
use commit_ci_preflight.Verify.Policy.{VerificationPolicyV1}
use commit_ci_preflight.Verify.Report.{
  VerificationStatus, VerificationDecision, VerificationReportV1, VerificationFindingV1, exit_code,
}
use commit_ci_preflight.Verify.Evaluate.{evaluate_policy}
use commit_ci_preflight.Verify.Evaluate.Meets.{Meets}
use commit_ci_preflight.Verify.Evaluate.Laws.{evaluate_policy_iff}
use commit_ci_preflight.Verify.Document.{
  VerifiedReceipt, view, initial_report, policy_report, report_from,
}

-- The shape of every report: it passes exactly without findings, exits with 0 exactly then, and
-- where the integrity is not established the policy has not run and there is one finding.
pub record IsConsistent (report : VerificationReportV1) : Type 0 where
  pub passes : (report.decision ≡ VerificationDecision.pass) ↔ (report.findings ≡ [])
  pub exits : (exit_code report ≡ 0) ↔ (report.decision ≡ VerificationDecision.pass)
  pub reads :
      (report.integrity_status ≡ VerificationStatus.pass)
      ⊎ ((report.policy_status ≡ VerificationStatus.not_run)
          × (report.receipt_id ≡ none)
          × (length report.findings ≡ 1))

pub policy_report-pass_iff :
    (report : VerificationReportV1) (envelope : VerifiedReceipt)
    (findings : List VerificationFindingV1)
    → ((policy_report report envelope findings).decision ≡ VerificationDecision.pass)
      ↔ (findings ≡ [])
policy_report-pass_iff report envelope [] = ground arith
policy_report-pass_iff report envelope (first ∷ findings) = ground arith

pub policy_report-IsConsistent :
    (report : VerificationReportV1) (envelope : VerifiedReceipt)
    (findings : List VerificationFindingV1)
    → IsConsistent (policy_report report envelope findings)
unfolding exit_code
policy_report-IsConsistent report envelope [] = record {
  passes = ground arith;
  exits = ground arith;
  reads = inl refl;
}
policy_report-IsConsistent report envelope (first ∷ findings) = record {
  passes = ground arith;
  exits = ground arith;
  reads = inl refl;
}

pub report_from-IsConsistent :
    (p : VerificationPolicyV1) (commit time : String) (now : ℤ)
    (opened : Outcome VerificationFindingV1 VerifiedReceipt)
    → IsConsistent (report_from (initial_report time commit) p commit now opened)
unfolding report_from exit_code
report_from-IsConsistent p commit time now (err found) = record {
  passes = ground arith;
  exits = ground arith;
  reads = inr (refl, refl, refl);
}
report_from-IsConsistent p commit time now (ok envelope) =
    policy_report-IsConsistent (initial_report time commit) envelope
      (evaluate_policy (view envelope) p commit now [])

-- The report passes exactly on an opened envelope that meets the policy.
pub report_from-pass_iff :
    (p : VerificationPolicyV1) (commit time : String) (now : ℤ)
    (opened : Outcome VerificationFindingV1 VerifiedReceipt)
    → ((report_from (initial_report time commit) p commit now opened).decision
        ≡ VerificationDecision.pass)
      ↔ ((envelope : VerifiedReceipt) × (opened ≡ ok envelope) × Meets (view envelope) p commit now)
unfolding report_from
report_from-pass_iff p commit time now (err found) = (λ h. cc, λ (envelope, e, m). cc)
report_from-pass_iff p commit time now (ok envelope) =
    let meets = evaluate_policy_iff (view envelope) p commit now in
    let passes =
      policy_report-pass_iff (initial_report time commit) envelope
        (evaluate_policy (view envelope) p commit now []) in
    (
      λ h. (envelope, refl, meets.0 (passes.0 h)),
      λ (other, e, m).
          passes.1 (meets.1 (subst (λ x. Meets (view x) p commit now) (sym (ok_inj e)) m)),
    )
