-- ===== src/Receipt/Envelope/Laws.antt =====
-- Sealing and verifying are two sides of one relation.
use commit_ci_preflight.Prelude.{String, not, ◌≡◌, ap, sym, ◌∙◌, ◌↔◌, arith, str_eq, eq_iff}
use commit_ci_preflight.Outcome.{ok, err, ◌>>=◌, ◌>>◌, reject, >>=-eq-ok, >>-eq-ok, reject->>-eq-ok}
use commit_ci_preflight.Canonical.Digest.{Serialize, Codec, canonical_digest}
use commit_ci_preflight.Config.Data.{ExecutionPlanV1}
use commit_ci_preflight.Receipt.Data.{ReceiptV1, ReceiptEnvelopeV1, ReceiptV2, ReceiptEnvelopeV2}
use commit_ci_preflight.Receipt.Failure.{
  digest_mismatch, execution_plan_digest_mismatch, Verdict, Checked,
}
use commit_ci_preflight.Receipt.Common
use commit_ci_preflight.Receipt.Manifest.{validate_source_snapshot}
use commit_ci_preflight.Receipt.Envelope.{
  common_v2, validate_v1, validate_v2, seal_v1, verify_v1, seal_v2, verify_v2,
}

sealed_v1 :
    (envelope : ReceiptEnvelopeV1) (valid : Verdict) (digest : Checked String)
    → ((valid
          >> (digest >>= λ d.
              reject (not (str_eq envelope.receipt_id d)) (digest_mismatch d envelope.receipt_id)))
        ≡ ok tt)
      ↔ ((valid >> (digest >>= λ d. ok (record envelope { receipt_id = d }))) ≡ ok envelope)
sealed_v1 envelope (err e) digest = ground arith
sealed_v1 envelope (ok u) (err e) = ground arith
sealed_v1 envelope (ok u) (ok d) = ground (arith, eq_iff envelope.receipt_id d)

sealed_v2 :
    (envelope : ReceiptEnvelopeV2) (valid : Verdict) (digest : Checked String)
    → ((valid
          >> (digest >>= λ d.
              reject (not (str_eq envelope.receipt_id d)) (digest_mismatch d envelope.receipt_id)))
        ≡ ok tt)
      ↔ ((valid >> (digest >>= λ d. ok (record envelope { receipt_id = d }))) ≡ ok envelope)
sealed_v2 envelope (err e) digest = ground arith
sealed_v2 envelope (ok u) (err e) = ground arith
sealed_v2 envelope (ok u) (ok d) = ground (arith, eq_iff envelope.receipt_id d)

-- An envelope of version 1 verifies exactly when sealing its receipt gives that envelope.
pub verify_v1-seal_iff :
    (codec : Codec) ⦃v1 : Serialize ReceiptV1⦄ (envelope : ReceiptEnvelopeV1)
    → (verify_v1 codec envelope ≡ ok tt) ↔ (seal_v1 codec envelope.receipt ≡ ok envelope)
unfolding verify_v1 seal_v1
verify_v1-seal_iff codec envelope =
    sealed_v1 envelope (validate_v1 envelope.receipt) (canonical_digest codec envelope.receipt)

-- An envelope of version 2 verifies exactly when sealing its receipt gives that envelope.
pub verify_v2-seal_iff :
    (codec : Codec) ⦃plan : Serialize ExecutionPlanV1⦄ ⦃v2 : Serialize ReceiptV2⦄
    (envelope : ReceiptEnvelopeV2)
    → (verify_v2 codec envelope ≡ ok tt) ↔ (seal_v2 codec envelope.receipt ≡ ok envelope)
unfolding verify_v2 seal_v2
verify_v2-seal_iff codec envelope =
    sealed_v2 envelope (validate_v2 codec envelope.receipt)
      (canonical_digest codec envelope.receipt)

-- A version 2 receipt that validates carries the digest of its own execution plan.
pub validate_v2-plan_digest :
    (codec : Codec) ⦃plan : Serialize ExecutionPlanV1⦄ (receipt : ReceiptV2)
    → validate_v2 codec receipt ≡ ok tt
    → canonical_digest codec receipt.execution_plan ≡ ok receipt.configuration_digest
unfolding validate_v2
validate_v2-plan_digest codec receipt h =
    let (common, h1) = >>-eq-ok (Common.validate (common_v2 receipt)) _ h in
    let (snapshot, h2) = >>-eq-ok (validate_source_snapshot receipt.source_snapshot) _ h1 in
    let (digest, e, h3) = >>=-eq-ok (canonical_digest codec receipt.execution_plan) _ h2 in
    let (same, h4) =
      reject->>-eq-ok (not (str_eq receipt.configuration_digest digest))
        (execution_plan_digest_mismatch digest receipt.configuration_digest) _ h3 in
    e ∙ ap ok (sym ((eq_iff receipt.configuration_digest digest).0 (ground arith)))
