-- ===== src/Verify/Load/Laws.antt =====
-- What a verification by the path of a policy (src/verify.rs) rests on.
use commit_ci_preflight.Prelude.{ℕ, String, false, not, ◌≡◌, ap, ◌∙◌, List, some, arith}
use commit_ci_preflight.Outcome.{
  Outcome, ok, err, ◌>>=◌, ok_or, map_err, map_err-eq-ok, >>=-eq-ok, reject->>-eq-ok, ok_or-eq-ok,
}
use commit_ci_preflight.Canonical.Json.{Value}
use commit_ci_preflight.Canonical.Json.Ordered.{IsOrdered}
use commit_ci_preflight.Canonical.Digest.{Serialize, Codec, canonical_digest}
use commit_ci_preflight.Config.Data.{ConfigV1, ExecutionPlanV1, ExecutionPlanEnvelopeV1}
use commit_ci_preflight.Config.Plan.{into_plan}
use commit_ci_preflight.Config.Plan.Laws.{IsPlanOf, into_plan-IsPlanOf}
use commit_ci_preflight.Receipt.Data.{ReceiptV1, ReceiptV2, ReceiptEnvelopeV2}
use commit_ci_preflight.Verify.Policy.{VerificationPolicyV1_1, baseline}
use commit_ci_preflight.Verify.Report.{
  VerificationReportV1, VerificationDecision, VerificationError, TrustedPlanError, policy_path,
  unsafe_configuration_path, policy_document, trusted_plan, Checked,
}
use commit_ci_preflight.Verify.Document.{Decoder, verify_receipt_document}
use commit_ci_preflight.Verify.Trusted.Meets.{MeetsTrusted}
use commit_ci_preflight.Verify.Trusted.Laws.{verify_trusted_plan_receipt_document-MeetsTrusted}
use commit_ci_preflight.Verify.Load.{
  Host, VerificationPolicyDocument, v1, v1_1, v2, FileKind, regular, is_regular,
  load_verification_policy_document, load_config, load_trusted_plan, validate_trusted_input,
  validate_verification_policy_path, verify_with, verify_receipt_document_for_policy_path,
}

regular_kind : (kind : FileKind) → not (is_regular kind) ≡ false → kind ≡ regular
regular_kind kind h = ground arith

abbrev done {ℓ κ} : {E : Type ℓ} {A : Type κ} → A → Outcome E (Unit {0})
done a = ok tt

same_error {ℓ κ μ} :
    {E : Type ℓ} {A : Type κ} {B : Type μ} (m : Outcome E A) (next : A → Outcome E B) (e : E)
    → (m >>= done) ≡ err e
    → (m >>= next) ≡ err e
same_error (ok a) next e h = absurd (cc)
same_error (err failure) next e h = cc

same_failure {ℓ κ μ ν} :
    {E : Type ℓ} {A : Type κ} {B : Type μ} {C : Type ν} (m : Outcome E A) (first : A → Outcome E B)
    (next : A → Outcome E C) (e : E)
    → ((a : A) → first a ≡ err e → next a ≡ err e)
    → (m >>= first) ≡ err e
    → (m >>= next) ≡ err e
same_failure (ok a) first next e same h = same a h
same_failure (err failure) first next e same h = cc

with_document {ℓ κ} :
    {E : Type ℓ} {A : Type κ} (found : Outcome E A) (document : A)
    (next : A → Checked VerificationReportV1) {report : VerificationReportV1}
    → found ≡ ok document
    → (map_err (λ e. policy_document) found >>= next) ≡ ok report
    → next document ≡ ok report
with_document found document next e h = rw e at h

module _ {M : Type 0} (host : Host M) (codec : Codec) (decoder : Decoder) ⦃text : Serialize String⦄
    ⦃plan : Serialize ExecutionPlanV1⦄ ⦃s1 : Serialize ReceiptV1⦄ ⦃s2 : Serialize ReceiptV2⦄
    (verify_matrix : List ℕ
      → M
      → (expected_commit evaluated_at_utc : String) → Checked VerificationReportV1) where
  verify_with-invalid :
      (document : VerificationPolicyDocument M) (bytes : List ℕ) (path commit time : String)
      (e : VerificationError)
      → validate_trusted_input host codec document path ≡ err e
      → verify_with host codec decoder verify_matrix document bytes path commit time ≡ err e
  unfolding verify_with
  verify_with-invalid (v1 p) bytes path commit time e h = absurd (cc)
  verify_with-invalid (v2 p) bytes path commit time e h = absurd (cc)
  verify_with-invalid (v1_1 p) bytes path commit time e h =
      same_error (map_err trusted_plan (load_trusted_plan host codec p path)) _ e h

  -- Where validate_verification_policy_path fails, every verification by this path fails with the
  -- same error, whatever the bytes of the receipt are.
  pub verify_receipt_document_for_policy_path-invalid :
      (bytes : List ℕ) (path commit time : String) (e : VerificationError)
      → validate_verification_policy_path host codec path ≡ err e
      → verify_receipt_document_for_policy_path host codec decoder verify_matrix bytes path commit
          time
        ≡ err e
  unfolding validate_verification_policy_path verify_receipt_document_for_policy_path
  verify_receipt_document_for_policy_path-invalid bytes path commit time e h =
      same_failure (map_err (λ e. policy_document) (load_verification_policy_document host path)) _
        _ e (λ document k. verify_with-invalid document bytes path commit time e k) h

  -- The configuration that the trusted plan is made of, and the plan that into_plan makes of it.
  pub record IsLoadedFrom (policy : VerificationPolicyV1_1) (path : String)
      (loaded : ExecutionPlanEnvelopeV1) : Type 0 where
    pub directory : String
    pub in_directory : host.parent path ≡ some directory
    pub is_file : host.symlink_metadata (host.join directory policy.trusted_config) ≡ some regular
    pub config : ConfigV1
    pub from_file : load_config host (host.join directory policy.trusted_config) ≡ ok config
    pub made : into_plan codec config ≡ ok loaded
    pub is_plan : IsPlanOf config loaded.plan
    pub digest : canonical_digest codec loaded.plan ≡ ok loaded.plan_digest

  load_trusted_plan-IsLoadedFrom :
      (policy : VerificationPolicyV1_1) (path : String) (loaded : ExecutionPlanEnvelopeV1)
      → load_trusted_plan host codec policy path ≡ ok loaded
      → IsLoadedFrom policy path loaded
  unfolding load_trusted_plan
  load_trusted_plan-IsLoadedFrom policy path loaded h =
      let (directory, d, h1) = >>=-eq-ok (ok_or (host.parent path) policy_path) _ h in
      let file = host.join directory policy.trusted_config in
      let (kind, k, h2) = >>=-eq-ok (ok_or (host.symlink_metadata file) TrustedPlanError.io) _ h1 in
      let (safe, h3) = reject->>-eq-ok (not (is_regular kind)) unsafe_configuration_path _ h2 in
      let h4 =
        map_err-eq-ok TrustedPlanError.config (load_config host file >>= into_plan codec) h3 in
      let (config, c, h5) = >>=-eq-ok (load_config host file) (into_plan codec) h4 in
      let plan_of = into_plan-IsPlanOf codec config loaded h5 in
      record {
        directory = directory;
        in_directory = ok_or-eq-ok (host.parent path) policy_path d;
        is_file =
            ok_or-eq-ok (host.symlink_metadata file) TrustedPlanError.io k
            ∙ ap some (regular_kind kind safe);
        config = config;
        from_file = c;
        made = h5;
        is_plan = plan_of.0;
        digest = plan_of.1;
      }

  -- Where serde_json::to_value gives objects in the order of their keys, a PASS by the path of a
  -- policy of version 1.1 is on a receipt of version 2 that meets the policy with a trusted plan;
  -- the trusted plan is the envelope that into_plan returns for the configuration that the policy
  -- names in its own directory, with the digest of the plan, and this configuration is a regular
  -- file and no symbolic link; and the baseline report on the same bytes decides PASS too.
  pub verify_receipt_document_for_policy_path-MeetsTrusted :
      (bytes : List ℕ) (path commit time : String) (policy : VerificationPolicyV1_1)
      (report : VerificationReportV1)
      → ((p : ExecutionPlanV1) (value : Value) → plan.to_value p ≡ some value → IsOrdered value)
      → load_verification_policy_document host path ≡ ok (v1_1 policy)
      → verify_receipt_document_for_policy_path host codec decoder verify_matrix bytes path commit
          time
        ≡ ok report
      → report.decision ≡ VerificationDecision.pass
      → (loaded : ExecutionPlanEnvelopeV1) × IsLoadedFrom policy path loaded
        × ((envelope : ReceiptEnvelopeV2) × (decoder.receipt_v2 bytes ≡ some envelope)
            × MeetsTrusted policy loaded envelope.receipt plan.to_value)
        × ((baseline_report : VerificationReportV1) × (verify_receipt_document codec decoder bytes
                (baseline policy)
                commit
                time
              ≡ ok baseline_report)
            × (baseline_report.decision ≡ VerificationDecision.pass))
  unfolding verify_receipt_document_for_policy_path verify_with
  verify_receipt_document_for_policy_path-MeetsTrusted bytes path commit time policy report ordered
        document h passed =
      let made =
        with_document (load_verification_policy_document host path) (v1_1 policy) _ document h in
      let (loaded, l, verified) =
        >>=-eq-ok (map_err trusted_plan (load_trusted_plan host codec policy path)) _ made in
      let (met, base) =
        verify_trusted_plan_receipt_document-MeetsTrusted codec decoder bytes policy loaded commit
          time report ordered verified passed in
      (
        loaded,
        load_trusted_plan-IsLoadedFrom policy path loaded
            (map_err-eq-ok trusted_plan (load_trusted_plan host codec policy path) l),
        met,
        base,
      )
