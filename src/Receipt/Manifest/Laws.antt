-- ===== src/Receipt/Manifest/Laws.antt =====
-- What a valid receipt of version 2 says of the checks of its own plan (src/receipt.rs).
use commit_ci_preflight.Prelude.{
  String, Bool, true, not, ◌&&◌, ◌==◌, ◌≡◌, refl, ap, sym, ◌∙◌, List, [], ◌∷◌, some, arith, str_eq,
  eq_iff, length, Bool-cases, inl, inr,
}
use mathlib.Core.List.{Memᴰ}
use mathlib.Core.Path.{subst, ap₂}
use commit_ci_preflight.Outcome.{
  ok, ok_or, >>=-eq-ok, >>-eq-ok, reject->>-eq-ok, ok_or-eq-ok, some_inj,
}
use commit_ci_preflight.Canonical.Digest.{Serialize, Codec, canonical_digest}
use commit_ci_preflight.Config.Data.{ExecutionPlanV1, NormalizedCheck}
use commit_ci_preflight.Receipt.Failure.{
  execution_plan_check_mismatch, execution_plan_digest_mismatch,
}
use commit_ci_preflight.Receipt.Status.{pass}
use commit_ci_preflight.Receipt.Data.{CheckEvidence, ReceiptV2}
use commit_ci_preflight.Receipt.Common
use commit_ci_preflight.Receipt.Common.Laws.{RanClean, validate_pass-RanClean}
use commit_ci_preflight.Receipt.Manifest.{
  same_texts, find_check, same_bool, matches_plan, validate_planned, validate_source_snapshot,
  validate_runtime_capability_evidence,
}
use commit_ci_preflight.Receipt.Envelope.{common_v2, validate_v2}

both : (a b : Bool) → (a && b) ≡ true → (a ≡ true) × (b ≡ true)
both a b h = ground arith

same_texts-eq : (xs ys : List String) → same_texts xs ys ≡ true → xs ≡ ys
same_texts-eq [] [] h = refl
same_texts-eq [] (y ∷ ys) h = cc
same_texts-eq (x ∷ xs) [] h = cc
same_texts-eq (x ∷ xs) (y ∷ ys) h =
    let (p, q) = both (str_eq x y) (same_texts xs ys) h in
    ap₂ ◌∷◌ ((eq_iff x y).0 p) (same_texts-eq xs ys q)

-- The evidence is of the planned check: the same id, argument vector, directory and requirement.
pub record IsEvidenceOf (evidence : CheckEvidence) (planned : NormalizedCheck) : Type 0 where
  pub id : evidence.id ≡ planned.id
  pub required : evidence.required ≡ planned.required
  pub argv : evidence.argv ≡ planned.argv
  pub working_directory : evidence.working_directory ≡ planned.working_directory

same_bool-eq : (a b : Bool) → same_bool a b ≡ true → a ≡ b
same_bool-eq a b h = ground arith

find_check_lem :
    (id : String) (checks : List CheckEvidence) {evidence : CheckEvidence}
    → find_check id checks ≡ some evidence
    → Memᴰ evidence checks × (evidence.id ≡ id)
find_check_lem id [] h = cc
find_check_lem id (first ∷ checks) {evidence} h = elim (Bool-cases (str_eq first.id id)) [
  | inl same ↦
      let e : first ≡ evidence = some_inj (rw same at h) in
      (Memᴰ.head (sym e), ap (λ (c : CheckEvidence). c.id) (sym e) ∙ (eq_iff first.id id).0 same)
  | inr other ↦
      let (m, e) = find_check_lem id checks {evidence = evidence} (rw other at h) in
      (Memᴰ.tail m, e)
]

matches_plan-IsEvidenceOf :
    (evidence : CheckEvidence) (planned : NormalizedCheck)
    → evidence.id ≡ planned.id
    → matches_plan evidence planned ≡ true
    → IsEvidenceOf evidence planned
matches_plan-IsEvidenceOf evidence planned e h =
    let (pq, r) =
      both (same_bool evidence.required planned.required && same_texts evidence.argv planned.argv)
        (str_eq evidence.working_directory planned.working_directory) h in
    let (p, q) =
      both (same_bool evidence.required planned.required) (same_texts evidence.argv planned.argv)
        pq in
    record {
      id = e;
      required = same_bool-eq evidence.required planned.required p;
      argv = same_texts-eq evidence.argv planned.argv q;
      working_directory = (eq_iff evidence.working_directory planned.working_directory).0 r;
    }

-- The evidence for the first planned check, or for a later one.
here :
    (checks : List CheckEvidence) (plan : List NormalizedCheck) (planned first : NormalizedCheck)
    (evidence : CheckEvidence)
    → Memᴰ evidence checks
    → IsEvidenceOf evidence first
    → (Memᴰ planned plan → (other : CheckEvidence) × Memᴰ other checks × IsEvidenceOf other planned)
    → Memᴰ planned (first ∷ plan)
    → (other : CheckEvidence) × Memᴰ other checks × IsEvidenceOf other planned
here checks plan planned first evidence member same later (Memᴰ.head e) =
    (evidence, member, subst (IsEvidenceOf evidence) (sym e) same)
here checks plan planned first evidence member same later (Memᴰ.tail m) = later m

validate_planned-IsEvidenceOf :
    (checks : List CheckEvidence) (plan : List NormalizedCheck) (planned : NormalizedCheck)
    → validate_planned checks plan ≡ ok tt
    → Memᴰ planned plan
    → (evidence : CheckEvidence) × Memᴰ evidence checks × IsEvidenceOf evidence planned
unfolding validate_planned
validate_planned-IsEvidenceOf checks [] planned h m = elim m [ ]
validate_planned-IsEvidenceOf checks (first ∷ plan) planned h m =
    let (evidence, e, h1) =
      >>=-eq-ok (ok_or (find_check first.id checks) (execution_plan_check_mismatch first.id)) _ h in
    let (mismatch, h2) =
      reject->>-eq-ok (not (matches_plan evidence first)) (execution_plan_check_mismatch first.id)
        (validate_planned checks plan) h1 in
    let (member, same) =
      find_check_lem first.id checks {evidence = evidence}
        (ok_or-eq-ok (find_check first.id checks) (execution_plan_check_mismatch first.id) e) in
    here checks plan planned first evidence member
      (matches_plan-IsEvidenceOf evidence first same (ground (arith, mismatch)))
      (λ n. validate_planned-IsEvidenceOf checks plan planned h2 n) m

validate_v2-planned :
    (codec : Codec) ⦃plan : Serialize ExecutionPlanV1⦄ (receipt : ReceiptV2)
    → validate_v2 codec receipt ≡ ok tt
    → (Common.validate (common_v2 receipt) ≡ ok tt)
      × (validate_planned receipt.checks receipt.execution_plan.checks ≡ ok tt)
unfolding validate_v2
validate_v2-planned codec receipt h =
    let (common, h1) = >>-eq-ok (Common.validate (common_v2 receipt)) _ h in
    let (_, h2) = >>-eq-ok (validate_source_snapshot receipt.source_snapshot) _ h1 in
    let (digest, _, h3) = >>=-eq-ok (canonical_digest codec receipt.execution_plan) _ h2 in
    let (_, h4) =
      reject->>-eq-ok (not (str_eq receipt.configuration_digest digest))
        (execution_plan_digest_mismatch digest receipt.configuration_digest) _ h3 in
    let (_, h5) =
      >>-eq-ok
        (validate_runtime_capability_evidence receipt.execution_plan
          receipt.runtime_capability_evidence)
        _ h4 in
    let (_, h6) =
      reject->>-eq-ok (not (length receipt.execution_plan.checks == length receipt.checks))
        (execution_plan_check_mismatch "check set") _ h5 in
    let (planned, _) =
      >>-eq-ok (validate_planned receipt.checks receipt.execution_plan.checks) _ h6 in
    (common, planned)

-- In a valid receipt of version 2 with overall status PASS every required check of the plan has
-- evidence with its id, argument vector and working directory, and this evidence passed, exited
-- with code 0, and was neither timed out nor cancelled.
pub validate_v2-IsEvidenceOf :
    (codec : Codec) ⦃plan : Serialize ExecutionPlanV1⦄ (receipt : ReceiptV2)
    (planned : NormalizedCheck)
    → validate_v2 codec receipt ≡ ok tt
    → receipt.overall_status ≡ pass
    → Memᴰ planned receipt.execution_plan.checks
    → planned.required ≡ true
    → (evidence : CheckEvidence) × Memᴰ evidence receipt.checks
      × IsEvidenceOf evidence planned
      × RanClean evidence
validate_v2-IsEvidenceOf codec receipt planned h passed m required =
    let (common, checked) = validate_v2-planned codec receipt h in
    let (evidence, member, same) =
      validate_planned-IsEvidenceOf receipt.checks receipt.execution_plan.checks planned checked
        m in
    (
      evidence,
      member,
      same,
      validate_pass-RanClean (common_v2 receipt) evidence common passed member
          (same.required ∙ required),
    )
