-- ===== src/Verify/Trusted/Laws.antt =====
-- What the decision of `verify_trusted_plan_receipt_document` (src/verify.rs) means.
use commit_ci_preflight.Prelude.{
  ℕ, String, Bool, false, ◌&&◌, ◌≡◌, ◌≢◌, refl, ap, ◌∙◌, List, [], ◌∷◌, arith, some, length,
  Bool-cases, inl, inr, if◌then◌else◌,
}
use commit_ci_preflight.Outcome.{ok, err, ◌>>=◌, >>=-eq-ok, ok_inj}
use commit_ci_preflight.Canonical.Json.{Value}
use commit_ci_preflight.Canonical.Digest.{Serialize, Codec}
use commit_ci_preflight.Config.Data.{ExecutionPlanV1, ExecutionPlanEnvelopeV1}
use commit_ci_preflight.Receipt.Data.{ReceiptV1, ReceiptV2, ReceiptEnvelopeV2}
use commit_ci_preflight.Verify.Policy.{VerificationPolicyV1_1, baseline}
use commit_ci_preflight.Verify.Report.{
  VerificationDecision, VerificationReportV1, Checked, is_status_pass,
}
use commit_ci_preflight.Verify.Document.{Decoder, verify_receipt_document}
use commit_ci_preflight.Verify.Document.Laws.{verify_receipt_document-IsConsistent}
use commit_ci_preflight.Verify.Document.Consistent.{IsConsistent}
use commit_ci_preflight.Verify.PlanDiff.{Findings}
use commit_ci_preflight.Canonical.Json.Ordered.{IsOrdered}
use commit_ci_preflight.Verify.Trusted.{
  trusted_findings, finalize_trusted_plan_report, verify_trusted_plan_receipt_document,
}
use commit_ci_preflight.Verify.Trusted.Meets.{MeetsTrusted, trusted_findings-nil}

abbrev trusted_scope : VerificationReportV1 → VerificationReportV1
trusted_scope base = record base { assurance_scope = "integrity_and_trusted_plan_policy" }

empty-length : (findings : Findings) → findings ≡ [] → length findings ≢ 1
empty-length findings e = rw e (λ h. omega (arith, h))

unread-fails :
    (base : VerificationReportV1)
    → IsConsistent base
    → is_status_pass base.integrity_status ≡ false
    → base.decision ≢ VerificationDecision.pass
unread-fails base c unread passed = elim c.reads [
  | inl read ↦ ground (arith, read)
  | inr (not_run, no_id, one) ↦ empty-length base.findings (c.passes.0 passed) one
]

failed :
    (integrity : Bool)
    → (if integrity && false then VerificationDecision.pass else VerificationDecision.fail)
      ≢ VerificationDecision.pass
failed integrity h = ground arith

extended :
    (base report : VerificationReportV1) (found : Checked Findings)
    → (found >>= λ findings. ok (finalize_trusted_plan_report (trusted_scope base) findings))
      ≡ ok report
    → report.decision ≡ VerificationDecision.pass
    → found ≡ ok []
unfolding finalize_trusted_plan_report
extended base report (err e) h passed = absurd (cc)
extended base report (ok []) h passed = refl
extended base report (ok (f ∷ findings)) h passed =
    let same : finalize_trusted_plan_report (trusted_scope base) (f ∷ findings) ≡ report =
      ok_inj h in
    absurd (
      failed (is_status_pass base.integrity_status)
        (ap (λ (r : VerificationReportV1). r.decision) same ∙ passed))

finished :
    (base report : VerificationReportV1) (found : Checked Findings)
    → IsConsistent base
    → (if is_status_pass base.integrity_status
        then (found >>= λ findings. ok (finalize_trusted_plan_report (trusted_scope base) findings))
        else ok (trusted_scope base))
      ≡ ok report
    → report.decision ≡ VerificationDecision.pass
    → found ≡ ok []
finished base report found c h passed = elim (Bool-cases (is_status_pass base.integrity_status)) [
  | inr unread ↦
      let same : trusted_scope base ≡ report = ok_inj (rw unread at h) in
      absurd
        (unread-fails base c unread (ap (λ (r : VerificationReportV1). r.decision) same ∙ passed))
  | inl read ↦ extended base report found (rw read at h) passed
]

module _ (codec : Codec) (decoder : Decoder) ⦃plan : Serialize ExecutionPlanV1⦄
    ⦃s1 : Serialize ReceiptV1⦄ ⦃s2 : Serialize ReceiptV2⦄ where
  -- Where serde_json::to_value gives objects in the order of their keys, a report of
  -- verify_trusted_plan_receipt_document that decides PASS is on a receipt of version 2 whose
  -- producer is supported and not revoked, whose snapshot strategy is the policy's and whose plan
  -- is the trusted plan, which has the digest that the policy expects; and the baseline report on
  -- the same bytes decides PASS too.
  pub verify_trusted_plan_receipt_document-MeetsTrusted :
      (bytes : List ℕ) (policy : VerificationPolicyV1_1) (trusted : ExecutionPlanEnvelopeV1)
      (commit time : String) (report : VerificationReportV1)
      → ((p : ExecutionPlanV1) (value : Value) → plan.to_value p ≡ some value → IsOrdered value)
      → verify_trusted_plan_receipt_document codec decoder bytes policy trusted commit time
        ≡ ok report
      → report.decision ≡ VerificationDecision.pass
      → ((envelope : ReceiptEnvelopeV2) × (decoder.receipt_v2 bytes ≡ some envelope)
          × MeetsTrusted policy trusted envelope.receipt plan.to_value)
        × ((baseline_report : VerificationReportV1) × (verify_receipt_document codec decoder bytes
                (baseline policy)
                commit
                time
              ≡ ok baseline_report)
            × (baseline_report.decision ≡ VerificationDecision.pass))
  unfolding verify_trusted_plan_receipt_document
  verify_trusted_plan_receipt_document-MeetsTrusted bytes policy trusted commit time report ordered
        h passed =
      let (base, made, h1) =
        >>=-eq-ok (verify_receipt_document codec decoder bytes (baseline policy) commit time) _ h in
      let consistent =
        verify_receipt_document-IsConsistent codec decoder bytes (baseline policy) commit time base
          made in
      let found =
        finished base report
          (trusted_findings policy trusted (decoder.receipt_v2 bytes) base.findings) consistent h1
          passed in
      let (before, met) =
        trusted_findings-nil policy trusted (decoder.receipt_v2 bytes) base.findings ordered
          found in
      (met, (base, made, consistent.passes.1 before))
