-- ===== src/Verify/Evaluate/Single.antt =====
-- The tests of `evaluate_policy` of src/verify.rs, one at a time.
use commit_ci_preflight.Prelude.{
  ℕ, ℤ, ◌≤ℤ◌, ltb_ℤ, ◌-ℤ◌, String, Bool, true, false, not, ◌&&◌, ◌≡◌, ap, sym, ◌∙◌, List, [], ◌∷◌,
  Option, none, some, arith, eq_iff, contains, any, ◌↔◌, Bool-cases, inl, inr,
}
use commit_ci_preflight.Verify.Evaluate.Meets.{IsListed, HavePassed, IsFresh}
use commit_ci_preflight.Ordered.Set
use commit_ci_preflight.Ordered.Set.{IsSorted-ext, extend-IsSorted, contains-extend, SameMembers}
use commit_ci_preflight.Receipt.Status.{EvidenceStatus, pass, is_pass}
use commit_ci_preflight.Receipt.Data.{CheckEvidence, PlatformEvidence}
use commit_ci_preflight.Receipt.Manifest.{same_texts}
use commit_ci_preflight.Verify.Policy.{AcceptedPlatformV1, VerificationPolicyV1}
use commit_ci_preflight.Verify.Report.{VerificationFindingV1, finding, push_if}
use commit_ci_preflight.Verify.Evaluate.{accepts, expected_required, as_i64, check_freshness}

pub push_if-nil_iff :
    (bad : Bool) (found : VerificationFindingV1) (findings : List VerificationFindingV1)
    → (push_if bad found findings ≡ []) ↔ ((bad ≡ false) × (findings ≡ []))
push_if-nil_iff true found [] = ground arith
push_if-nil_iff true found (first ∷ findings) = ground arith
push_if-nil_iff false found findings = ground arith

pub push_three-nil_iff :
    (a b c : Bool) (f g h : VerificationFindingV1) (findings : List VerificationFindingV1)
    → (push_if c h (push_if b g (push_if a f findings)) ≡ [])
      ↔ ((a ≡ false) × (b ≡ false) × (c ≡ false) × (findings ≡ []))
push_three-nil_iff a b c f g h findings = ground (
  arith,
  push_if-nil_iff c h (push_if b g (push_if a f findings)),
  push_if-nil_iff b g (push_if a f findings),
  push_if-nil_iff a f findings,
)

pub same_texts_iff : (xs ys : List String) → (same_texts xs ys ≡ true) ↔ (xs ≡ ys)
same_texts_iff [] [] = ground arith
same_texts_iff [] (y ∷ ys) = ground arith
same_texts_iff (x ∷ xs) [] = ground arith
same_texts_iff (x ∷ xs) (y ∷ ys) = ground (arith, same_texts_iff xs ys, eq_iff x y)

pub same_sets_iff :
    (xs ys : List String)
    → (same_texts (Set.extend [] xs) (Set.extend [] ys) ≡ true) ↔ SameMembers xs ys
same_sets_iff xs ys = (
  λ h s.
      sym (contains-extend [] xs s)
      ∙ (ap (λ (set : List String). contains set s)
            ((same_texts_iff (Set.extend [] xs) (Set.extend [] ys)).0 h)
          ∙ contains-extend [] ys s),
  λ same. (same_texts_iff (Set.extend [] xs) (Set.extend [] ys)).1 (
      IsSorted-ext (Set.extend [] xs) (Set.extend [] ys) (extend-IsSorted [] xs tt)
        (extend-IsSorted [] ys tt)
        (λ s. contains-extend [] xs s ∙ (same s ∙ sym (contains-extend [] ys s)))),
)

pub IsListed-iff :
    (platform : PlatformEvidence) (platforms : List AcceptedPlatformV1)
    → (any (accepts platform) platforms ≡ true) ↔ IsListed platform platforms
IsListed-iff platform [] = ground arith
IsListed-iff platform (accepted ∷ more) = ground (
  arith,
  IsListed-iff platform more,
  eq_iff accepted.host_os platform.host_os,
  eq_iff accepted.host_arch platform.host_arch,
  eq_iff accepted.runtime_kind platform.runtime_kind,
)

pub is_pass_iff : (s : EvidenceStatus) → (is_pass s ≡ true) ↔ (s ≡ pass)
is_pass_iff s = ground arith

pub HavePassed-iff :
    (policy : VerificationPolicyV1) (checks : List CheckEvidence)
    → (any
          (λ check. contains (expected_required policy) check.id && not (is_pass check.status))
          checks
        ≡ false)
      ↔ HavePassed policy.required_checks checks
HavePassed-iff policy [] = ground arith
HavePassed-iff policy (check ∷ checks) = ground (
  arith,
  HavePassed-iff policy checks,
  is_pass_iff check.status,
  contains-extend [] policy.required_checks check.id,
)

pub ltb_ℤ-false_iff : (a b : ℤ) → (ltb_ℤ a b ≡ false) ↔ (b ≤ℤ a)
ltb_ℤ-false_iff a b = ground arith

pub IsFresh-iff :
    (finished : Option ℤ) (max_age : ℕ) (now : ℤ) (findings : List VerificationFindingV1)
    → (check_freshness finished max_age now findings ≡ [])
      ↔ (IsFresh finished (as_i64 max_age) now × (findings ≡ []))
unfolding check_freshness
IsFresh-iff none max_age now findings = ground (
  arith,
  push_if-nil_iff true
      (finding "policy.invalid_time" "run.finished_at_utc"
        "receipt completion time cannot be evaluated")
      findings,
)
IsFresh-iff (some finished) max_age now findings = elim (Bool-cases (ltb_ℤ now finished)) [
  | inl future ↦ rw future (
      ground (
        arith,
        ltb_ℤ-false_iff now finished,
        push_if-nil_iff true
            (finding "policy.future_receipt" "run.finished_at_utc"
              "receipt completion time is later than verification time")
            findings,
      ))
  | inr past ↦ rw past (
      ground (
        arith,
        ltb_ℤ-false_iff now finished,
        ltb_ℤ-false_iff (as_i64 max_age) (now -ℤ finished),
        push_if-nil_iff (ltb_ℤ (as_i64 max_age) (now -ℤ finished))
            (finding "policy.stale_receipt" "run.finished_at_utc"
              "receipt exceeds repository freshness policy")
            findings,
      ))
]
