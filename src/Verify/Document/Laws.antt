-- ===== src/Verify/Document/Laws.antt =====
-- What the decision of `verify_receipt_document` (src/verify.rs) means.
use commit_ci_preflight.Prelude.{
  ℕ, ℤ, String, true, ◌≡◌, refl, ap, sym, ◌∙◌, List, [], ◌∷◌, some, ◌↔◌, contains, Bool-cases, inl,
  inr, eq_iff, str_eq,
}
use mathlib.Core.List.{Memᴰ}
use mathlib.Core.Path.{subst}
use commit_ci_preflight.Outcome.{
  ok, ok_or, map_err, >>=-eq-ok, >>-eq-ok, map_err-eq-ok, ok_or-eq-ok, ok_inj,
}
use commit_ci_preflight.Canonical.Digest.{Serialize, Codec}
use commit_ci_preflight.Config.Data.{ExecutionPlanV1}
use commit_ci_preflight.Receipt.Data.{CheckEvidence, ReceiptV1, ReceiptV2}
use commit_ci_preflight.Receipt.Common
use commit_ci_preflight.Receipt.Common.{ReceiptCommon}
use commit_ci_preflight.Receipt.Common.Laws.{RanClean, validate_pass-RanClean}
use commit_ci_preflight.Receipt.Envelope.{
  common_v1, common_v2, verify_v1, verify_v2, validate_v1, validate_v2,
}
use commit_ci_preflight.Verify.Policy
use commit_ci_preflight.Verify.Policy.{VerificationPolicyV1}
use commit_ci_preflight.Verify.Utc.{parse_utc_seconds}
use commit_ci_preflight.Verify.Report.{
  VerificationDecision, VerificationReportV1, policy, invalid_evaluation_time,
}
use commit_ci_preflight.Verify.Evaluate.{required_ids}
use commit_ci_preflight.Verify.Evaluate.Meets.{Meets}
use commit_ci_preflight.Verify.Document.{
  Decoder, VerifiedReceipt, v1, v2, view, validate_commit, integrity_finding, parse_envelope,
  verify_envelope, open_envelope, report_on, verify_receipt_document,
}
use commit_ci_preflight.Verify.Document.Consistent.{
  IsConsistent, report_from-IsConsistent, report_from-pass_iff,
}

abbrev pub common_of : VerifiedReceipt → ReceiptCommon
common_of (v1 envelope) = common_v1 envelope.receipt
common_of (v2 envelope) = common_v2 envelope.receipt

module _ (codec : Codec) (decoder : Decoder) ⦃plan : Serialize ExecutionPlanV1⦄
    ⦃s1 : Serialize ReceiptV1⦄ ⦃s2 : Serialize ReceiptV2⦄ where
  verify_receipt_document_ok :
      (bytes : List ℕ) (p : VerificationPolicyV1) (commit time : String)
      (report : VerificationReportV1)
      → verify_receipt_document codec decoder bytes p commit time ≡ ok report
      → (now : ℤ) × (Policy.validate p ≡ ok tt)
        × (validate_commit commit ≡ ok tt)
        × (parse_utc_seconds time ≡ some now)
        × (report_on codec decoder bytes p commit time now ≡ report)
  unfolding verify_receipt_document
  verify_receipt_document_ok bytes p commit time report h =
      let (valid, h1) = >>-eq-ok (map_err policy (Policy.validate p)) _ h in
      let (hex, h2) = >>-eq-ok (validate_commit commit) _ h1 in
      let (now, parsed, h3) =
        >>=-eq-ok (ok_or (parse_utc_seconds time) invalid_evaluation_time) _ h2 in
      (
        now,
        map_err-eq-ok policy (Policy.validate p) valid,
        hex,
        ok_or-eq-ok (parse_utc_seconds time) invalid_evaluation_time parsed,
        ok_inj h3,
      )

  pub verify_receipt_document-IsConsistent :
      (bytes : List ℕ) (p : VerificationPolicyV1) (commit time : String)
      (report : VerificationReportV1)
      → verify_receipt_document codec decoder bytes p commit time ≡ ok report
      → IsConsistent report
  unfolding report_on
  verify_receipt_document-IsConsistent bytes p commit time report h =
      let (now, _, _, _, same) = verify_receipt_document_ok bytes p commit time report h in
      subst IsConsistent same
        (report_from-IsConsistent p commit time now (open_envelope codec decoder bytes))

  verify_envelope-valid :
      (envelope : VerifiedReceipt)
      → verify_envelope codec decoder envelope ≡ ok tt
      → Common.validate (common_of envelope) ≡ ok tt
  unfolding verify_envelope verify_v1 verify_v2 validate_v1 validate_v2
  verify_envelope-valid (v1 envelope) h =
      (>>-eq-ok (Common.validate (common_v1 envelope.receipt)) _ h).0
  verify_envelope-valid (v2 envelope) h =
      (>>-eq-ok (Common.validate (common_v2 envelope.receipt)) _
        (>>-eq-ok (validate_v2 codec envelope.receipt) _ h).0).0

  open_envelope-valid :
      (bytes : List ℕ) (envelope : VerifiedReceipt)
      → open_envelope codec decoder bytes ≡ ok envelope
      → Common.validate (common_of envelope) ≡ ok tt
  unfolding open_envelope
  open_envelope-valid bytes envelope h =
      let (opened, parsed, h1) = >>=-eq-ok (parse_envelope decoder bytes) _ h in
      let (verified, h2) =
        >>-eq-ok (map_err integrity_finding (verify_envelope codec decoder opened)) _ h1 in
      subst (λ e. Common.validate (common_of e) ≡ ok tt) (ok_inj h2)
        (verify_envelope-valid opened
          (map_err-eq-ok integrity_finding (verify_envelope codec decoder opened) verified))

  -- On a valid policy, a valid expected commit and a readable evaluation time, every sequence of
  -- bytes gives a report; the report decides PASS exactly without findings, its exit code is 0
  -- exactly on PASS, and either the integrity is established or the policy is not run, no receipt
  -- is named and there is one finding.
  pub verify_receipt_document_total :
      (bytes : List ℕ) (p : VerificationPolicyV1) (commit time : String) (now : ℤ)
      → Policy.validate p ≡ ok tt
      → validate_commit commit ≡ ok tt
      → parse_utc_seconds time ≡ some now
      → (report : VerificationReportV1) × (verify_receipt_document codec decoder bytes p commit time
          ≡ ok report)
        × IsConsistent report
  unfolding verify_receipt_document report_on
  verify_receipt_document_total bytes p commit time now valid hex parsed = (
    report_on codec decoder bytes p commit time now,
    rw (valid, hex, parsed) refl,
    report_from-IsConsistent p commit time now (open_envelope codec decoder bytes),
  )

  -- A report decides PASS exactly when the bytes hold an envelope whose integrity verifies and
  -- whose receipt meets the policy at the evaluation time.
  pub verify_receipt_document-pass_iff :
      (bytes : List ℕ) (p : VerificationPolicyV1) (commit time : String) (now : ℤ)
      (report : VerificationReportV1)
      → parse_utc_seconds time ≡ some now
      → verify_receipt_document codec decoder bytes p commit time ≡ ok report
      → (report.decision ≡ VerificationDecision.pass) ↔ (
          (envelope : VerifiedReceipt) × (open_envelope codec decoder bytes ≡ ok envelope)
          × Meets (view envelope) p commit now)
  unfolding report_on
  verify_receipt_document-pass_iff bytes p commit time now report parsed h =
      let (then, valid, hex, also, same) =
        verify_receipt_document_ok bytes p commit time report h in
      let times : then ≡ now = cc in
      subst
        (λ (r : VerificationReportV1). (r.decision ≡ VerificationDecision.pass) ↔ (
          (envelope : VerifiedReceipt) × (open_envelope codec decoder bytes ≡ ok envelope)
          × Meets (view envelope) p commit now))
        (ap (report_on codec decoder bytes p commit time) (sym times) ∙ same)
        (report_from-pass_iff p commit time now (open_envelope codec decoder bytes))

-- A required check of the given id among the checks.
abbrev pub Requires : List CheckEvidence → String → Type 0
Requires checks id =
    (check : CheckEvidence) × Memᴰ check checks × (check.id ≡ id) × (check.required ≡ true)

required_later :
    (first : CheckEvidence) (checks : List CheckEvidence) (id : String)
    → Requires checks id
    → Requires (first ∷ checks) id
required_later first checks id (c, m, e, r) = (c, Memᴰ.tail m, e, r)

required_ids_lem :
    (checks : List CheckEvidence) (id : String)
    → contains (required_ids checks) id ≡ true
    → Requires checks id
required_ids_lem [] id h = cc
required_ids_lem (check ∷ checks) id h = elim (Bool-cases check.required) [
  | inl needed ↦ elim (Bool-cases (str_eq check.id id)) [
    | inl same ↦ (check, Memᴰ.head refl, (eq_iff check.id id).0 same, needed)
    | inr other ↦
        required_later check checks id (required_ids_lem checks id (simp (needed, other) at h))
  ]
  | inr optional ↦ required_later check checks id (required_ids_lem checks id (simp optional at h))
]

checks_of : (envelope : VerifiedReceipt) → (common_of envelope).checks ≡ (view envelope).checks
checks_of (v1 envelope) = refl
checks_of (v2 envelope) = refl

overall_of :
    (envelope : VerifiedReceipt)
    → (common_of envelope).overall_status ≡ (view envelope).overall_status
overall_of (v1 envelope) = refl
overall_of (v2 envelope) = refl

-- A valid receipt that meets the policy proves each check that the policy requires.
Meets-RanClean :
    (envelope : VerifiedReceipt) (p : VerificationPolicyV1) (commit : String) (now : ℤ)
    (id : String)
    → Common.validate (common_of envelope) ≡ ok tt
    → Meets (view envelope) p commit now
    → contains p.required_checks id ≡ true
    → (check : CheckEvidence) × Memᴰ check (view envelope).checks × (check.id ≡ id) × RanClean check
Meets-RanClean envelope p commit now id valid m needed =
    let (check, member, same, required) =
      required_ids_lem (view envelope).checks id (m.required id ∙ needed) in
    (
      check,
      member,
      same,
      validate_pass-RanClean (common_of envelope) check valid (overall_of envelope ∙ m.overall)
          (subst (Memᴰ check) (sym (checks_of envelope)) member) required,
    )

module _ (codec : Codec) (decoder : Decoder) ⦃plan : Serialize ExecutionPlanV1⦄
    ⦃s1 : Serialize ReceiptV1⦄ ⦃s2 : Serialize ReceiptV2⦄ where
  -- If the report on a receipt decides PASS, the bytes hold an envelope whose integrity verifies
  -- and whose receipt is for the expected commit, and every check id that the policy requires names
  -- a check of the receipt that passed, exited with code 0, and was neither timed out nor
  -- cancelled.
  pub verify_receipt_document-RanClean :
      (bytes : List ℕ) (p : VerificationPolicyV1) (commit time : String)
      (report : VerificationReportV1) (id : String)
      → verify_receipt_document codec decoder bytes p commit time ≡ ok report
      → report.decision ≡ VerificationDecision.pass
      → contains p.required_checks id ≡ true
      → (envelope : VerifiedReceipt) × (open_envelope codec decoder bytes ≡ ok envelope)
        × ((view envelope).repository.commit_sha ≡ commit)
        × ((check : CheckEvidence) × Memᴰ check (view envelope).checks
            × (check.id ≡ id)
            × RanClean check)
  verify_receipt_document-RanClean bytes p commit time report id h passed needed =
      let (now, _, _, parsed, _) =
        verify_receipt_document_ok codec decoder bytes p commit time report h in
      let (envelope, opened, m) =
        (verify_receipt_document-pass_iff codec decoder bytes p commit time now report parsed h).0
          passed in
      (
        envelope,
        opened,
        m.commit_sha,
        Meets-RanClean envelope p commit now id
            (open_envelope-valid codec decoder bytes envelope opened) m needed,
      )
