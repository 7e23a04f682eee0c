-- ===== src/Verify/Policy/Laws.antt =====
-- The producers of a valid trusted policy (src/verify.rs).
use commit_ci_preflight.Prelude.{
  Bool, true, false, not, ◌||◌, ◌≡◌, refl, List, [], ◌∷◌, arith, str_eq, eq_iff, any, is_empty, All,
  Bool-cases, inl, inr,
}
use commit_ci_preflight.Outcome.{ok, ◌>>◌, reject, >>-eq-ok, reject-eq-ok, reject->>-eq-ok}
use commit_ci_preflight.Verify.Policy.{
  ProducerContractV1_1, VerificationPolicyV1_1, duplicate_value, invalid_field,
  unsupported_schema_version, same_producer, validate_producer_contract, validate_supported,
  validate_revoked, validate_trusted_config_path, validate, baseline, validate_v1_1,
  trusted_plan_policy_schema_version,
}

same_producer_trans :
    (r s p : ProducerContractV1_1)
    → same_producer s p ≡ true
    → same_producer r p ≡ true
    → same_producer r s ≡ true
same_producer_trans r s p h k = ground (
  arith,
  eq_iff s.name p.name,
  eq_iff s.version p.version,
  eq_iff r.name p.name,
  eq_iff r.version p.version,
  eq_iff r.name s.name,
  eq_iff r.version s.version,
)

or_right : (a b : Bool) → b ≡ true → (a || b) ≡ true
or_right a b h = ground arith

any_same :
    (r p : ProducerContractV1_1) (supported : List ProducerContractV1_1)
    → same_producer r p ≡ true
    → any (λ candidate. same_producer candidate p) supported ≡ true
    → any (same_producer r) supported ≡ true
any_same r p [] k h = cc
any_same r p (s ∷ supported) k h = elim (Bool-cases (same_producer s p)) [
  | inl same ↦ rw (same_producer_trans r s p same k) refl
  | inr other ↦
      or_right (same_producer r s) (any (same_producer r) supported)
        (any_same r p supported k (rw other at h))
]

revoked_apart :
    (supported seen revoked : List ProducerContractV1_1)
    → validate_revoked supported seen revoked ≡ ok tt
    → All (λ r. any (same_producer r) supported ≡ false) revoked
unfolding validate_revoked
revoked_apart supported seen [] h = tt
revoked_apart supported seen (r ∷ revoked) h =
    let (h1, h2) =
      >>-eq-ok
        (validate_producer_contract r
          >> reject (any (same_producer r) seen) (duplicate_value "revoked_producers")
          >> reject (any (same_producer r) supported) (duplicate_value "producer_contracts"))
        (validate_revoked supported (r ∷ seen) revoked) h in
    let (_, h3) =
      >>-eq-ok
        (validate_producer_contract r
          >> reject (any (same_producer r) seen) (duplicate_value "revoked_producers"))
        (reject (any (same_producer r) supported) (duplicate_value "producer_contracts")) h1 in
    (
      reject-eq-ok (any (same_producer r) supported) (duplicate_value "producer_contracts") h3,
      revoked_apart supported (r ∷ seen) revoked h2,
    )

none_revoked :
    (p : ProducerContractV1_1) (supported revoked : List ProducerContractV1_1)
    → All (λ r. any (same_producer r) supported ≡ false) revoked
    → any (λ candidate. same_producer candidate p) supported ≡ true
    → any (λ candidate. same_producer candidate p) revoked ≡ false
none_revoked p supported [] h s = refl
none_revoked p supported (r ∷ revoked) (apart, h) s = elim (Bool-cases (same_producer r p)) [
  | inl same ↦ absurd (cc (any_same r p supported same s))
  | inr other ↦ rw other (none_revoked p supported revoked h s)
]

-- In a valid trusted policy no supported producer is revoked.
pub validate_v1_1-disjoint :
    (policy : VerificationPolicyV1_1) (producer : ProducerContractV1_1)
    → validate_v1_1 policy ≡ ok tt
    → any (λ candidate. same_producer candidate producer) policy.supported_producers ≡ true
    → any (λ candidate. same_producer candidate producer) policy.revoked_producers ≡ false
unfolding validate_v1_1
validate_v1_1-disjoint policy producer h supported =
    let (_, h1) =
      reject->>-eq-ok (not (str_eq policy.schema_version trusted_plan_policy_schema_version))
        unsupported_schema_version _ h in
    let (_, h2) = >>-eq-ok (validate (baseline policy)) _ h1 in
    let (_, h3) = >>-eq-ok (validate_trusted_config_path policy.trusted_config) _ h2 in
    let (_, h4) =
      reject->>-eq-ok (is_empty policy.supported_producers) (invalid_field "supported_producers") _
        h3 in
    let (_, h5) = >>-eq-ok (validate_supported [] policy.supported_producers) _ h4 in
    none_revoked producer policy.supported_producers policy.revoked_producers
      (revoked_apart policy.supported_producers [] policy.revoked_producers h5) supported
