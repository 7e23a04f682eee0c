-- ===== src/Verify/Trusted/Meets.antt =====
-- What it means that a receipt meets a trusted policy of src/verify.rs, and that no finding shows it.
use commit_ci_preflight.Prelude.{
  Bool, true, false, not, ◌≡◌, refl, ap, sym, ◌∙◌, [], arith, Option, none, some, str_eq, eq_iff,
  any, if◌then◌else◌,
}
use mathlib.Core.Path.{subst}
use commit_ci_preflight.Outcome.{ok, >>=-eq-ok, ok_inj, ok_or, ok_or-eq-ok}
use commit_ci_preflight.Canonical.Json.{Value}
use commit_ci_preflight.Canonical.Digest.{Serialize}
use commit_ci_preflight.Config.Data.{ExecutionPlanV1, ExecutionPlanEnvelopeV1}
use commit_ci_preflight.Receipt.Failure.{serialization}
use commit_ci_preflight.Receipt.Data.{SourceSnapshotStrategy, ReceiptV2, ReceiptEnvelopeV2}
use commit_ci_preflight.Verify.Policy.{VerificationPolicyV1_1, ProducerContractV1_1, same_producer}
use commit_ci_preflight.Verify.Report.{VerificationFindingV1, finding, receipt, push_if}
use commit_ci_preflight.Verify.PlanDiff.{Findings, compare_plan_value}
use commit_ci_preflight.Canonical.Json.Ordered.{IsOrdered}
use commit_ci_preflight.Verify.PlanDiff.Complete.{
  compare_plan_value-eq_iff, compare_plan_value-grows,
}
use commit_ci_preflight.Verify.Trusted.{
  same_strategy, check_producer, check_plan_digest, check_trusted, compare_execution_plan,
  trusted_findings,
}
use commit_ci_preflight.Verify.Evaluate.Single.{push_if-nil_iff}

abbrev pub producer_of : ReceiptV2 → ProducerContractV1_1
producer_of recorded = record { name = recorded.producer.name; version = recorded.producer.version }

pub same_strategy-eq : (a b : SourceSnapshotStrategy) → same_strategy a b ≡ true → a ≡ b
same_strategy-eq a b h = ground arith

-- The receipt meets what the trusted policy adds: its producer is supported and not revoked, its
-- snapshot strategy is the policy's, the trusted plan has the digest that the policy expects, and
-- the plan in the receipt is the trusted plan.
pub record MeetsTrusted (policy : VerificationPolicyV1_1) (trusted : ExecutionPlanEnvelopeV1)
    (recorded : ReceiptV2) (values : ExecutionPlanV1 → Option Value) : Type 0 where
  pub supported :
      any (λ candidate. same_producer candidate (producer_of recorded)) policy.supported_producers
      ≡ true
  pub not_revoked :
      any (λ candidate. same_producer candidate (producer_of recorded)) policy.revoked_producers
      ≡ false
  pub strategy : recorded.source_snapshot.strategy ≡ policy.source_snapshot_strategy
  pub plan_digest : trusted.plan_digest ≡ policy.configuration_digest
  pub same_plan :
      (value : Value) × (values trusted.plan ≡ some value)
      × (values recorded.execution_plan ≡ some value)

abbrev pub strategy_finding : VerificationFindingV1
strategy_finding =
    finding "policy.source_snapshot_strategy" "source_snapshot.strategy"
      "receipt source snapshot strategy is not accepted by trusted policy"

abbrev pub digest_finding : VerificationFindingV1
digest_finding =
    finding "policy.trusted_config_digest" "trusted_config"
      "trusted configuration does not reconstruct the policy execution-plan digest"

pub producer_tests :
    (revoked supported : Bool) (f g : VerificationFindingV1) (findings : Findings)
    → (if revoked then push_if true f findings else push_if (not supported) g findings) ≡ []
    → (supported ≡ true) × (revoked ≡ false) × (findings ≡ [])
producer_tests revoked supported f g findings h =
    ground (arith, push_if-nil_iff true f findings, push_if-nil_iff (not supported) g findings)

pub check_producer-nil :
    (policy : VerificationPolicyV1_1) (producer : ProducerContractV1_1) (findings : Findings)
    → check_producer policy producer findings ≡ []
    → (any (λ candidate. same_producer candidate producer) policy.supported_producers ≡ true)
      × (any (λ candidate. same_producer candidate producer) policy.revoked_producers ≡ false)
      × (findings ≡ [])
unfolding check_producer
check_producer-nil policy producer findings h =
    producer_tests (any (λ candidate. same_producer candidate producer) policy.revoked_producers)
      (any (λ candidate. same_producer candidate producer) policy.supported_producers)
      (finding "policy.producer_revoked" "producer"
        "receipt producer is explicitly revoked by trusted policy")
      (finding "policy.producer_unsupported" "producer"
        "receipt producer is not supported by trusted policy")
      findings h

module _ ⦃plan : Serialize ExecutionPlanV1⦄ where
  pub compare_execution_plan-nil :
      (trusted recorded : ExecutionPlanV1) (findings : Findings)
      → ((p : ExecutionPlanV1) (value : Value) → plan.to_value p ≡ some value → IsOrdered value)
      → compare_execution_plan trusted recorded findings ≡ ok []
      → (findings ≡ [])
        × ((value : Value) × (plan.to_value trusted ≡ some value)
            × (plan.to_value recorded ≡ some value))
  unfolding compare_execution_plan
  compare_execution_plan-nil trusted recorded findings ordered h =
      let (a, p, h1) = >>=-eq-ok (ok_or (plan.to_value trusted) (receipt serialization)) _ h in
      let (b, q, h2) = >>=-eq-ok (ok_or (plan.to_value recorded) (receipt serialization)) _ h1 in
      let t = ok_or-eq-ok (plan.to_value trusted) (receipt serialization) p in
      let r = ok_or-eq-ok (plan.to_value recorded) (receipt serialization) q in
      let e = ok_inj h2 in
      let nothing : findings ≡ [] =
        compare_plan_value-grows a b "" findings (ordered trusted a t) e in
      let same : a ≡ b =
        (compare_plan_value-eq_iff a b "" (ordered trusted a t) (ordered recorded b r)).0
          (subst (λ (f : Findings). compare_plan_value a b "" f ≡ []) nothing e) in
      (nothing, (a, t, r ∙ ap some (sym same)))

  pub trusted_findings-nil :
      (policy : VerificationPolicyV1_1) (trusted : ExecutionPlanEnvelopeV1)
      (found : Option ReceiptEnvelopeV2) (findings : Findings)
      → ((p : ExecutionPlanV1) (value : Value) → plan.to_value p ≡ some value → IsOrdered value)
      → trusted_findings policy trusted found findings ≡ ok []
      → (findings ≡ [])
        × ((envelope : ReceiptEnvelopeV2) × (found ≡ some envelope)
            × MeetsTrusted policy trusted envelope.receipt plan.to_value)
  unfolding trusted_findings check_trusted check_plan_digest
  trusted_findings-nil policy trusted none findings ordered h = absurd (
      ground (
        arith,
        push_if-nil_iff true
            (finding "policy.receipt_schema" "receipt.schema_version"
              "trusted-plan policy requires a strict receipt v2")
            (check_plan_digest policy trusted findings),
      ))
  trusted_findings-nil policy trusted (some envelope) findings ordered h =
      let digested = check_plan_digest policy trusted findings in
      let recorded = envelope.receipt in
      let (compared, p, h1) =
        >>=-eq-ok (compare_execution_plan trusted.plan recorded.execution_plan digested) _ h in
      let (supported, not_revoked, q) =
        check_producer-nil policy (producer_of recorded)
          (push_if
            (not (same_strategy recorded.source_snapshot.strategy policy.source_snapshot_strategy))
            strategy_finding compared)
          (ok_inj h1) in
      let (strategy, nothing) =
        (push_if-nil_iff
            (not (same_strategy recorded.source_snapshot.strategy policy.source_snapshot_strategy))
            strategy_finding compared).0
          q in
      let (before, same) =
        compare_execution_plan-nil trusted.plan recorded.execution_plan digested ordered
          (p ∙ ap ok nothing) in
      let (digest, none_before) =
        (push_if-nil_iff (not (str_eq trusted.plan_digest policy.configuration_digest))
            digest_finding findings).0
          before in
      (
        none_before,
        (
          envelope,
          refl,
          record {
            supported = supported;
            not_revoked = not_revoked;
            strategy =
                same_strategy-eq recorded.source_snapshot.strategy policy.source_snapshot_strategy
                  (ground (arith, strategy));
            plan_digest =
                (eq_iff trusted.plan_digest policy.configuration_digest).0 (ground (arith, digest));
            same_plan = same;
          },
        ),
      )
