-- ===== src/Verify/PlanDiff/Loops.antt =====
-- The loops of `compare_plan_value` (src/verify.rs): the bound on the findings, and what it means
-- that a loop adds none.
use mathlib.Core.Path.{subst}
use commit_ci_preflight.Prelude.{
  ℕ, zero, suc, ◌+◌, ◌≤◌, ◌<◌, String as Text, true, ◌≡◌, ◌≢◌, List, [], ◌∷◌, arith, Option, none,
  some, leb, if◌then◌else◌, str_eq, eq_iff, contains, length, length-append, get_elem?, Bool-cases,
  inl, inr,
}
use commit_ci_preflight.Ordered.Map
use commit_ci_preflight.Ordered.Map.{Map}
use commit_ci_preflight.Canonical.Json.{Value}
use commit_ci_preflight.Verify.Report.{VerificationFindingV1, finding}
use commit_ci_preflight.Verify.PlanDiff.{
  Findings, max_plan_findings, Comparison, push_plan_finding, compare_found, compare_keys,
  compare_indices, ◌<>◌, escape_json_pointer, decimal_text, same_value,
}
use commit_ci_preflight.Canonical.Json.Ordered.{IsOrdered}

abbrev pushed : Text → VerificationFindingV1
pushed path =
    finding "policy.execution_plan.field_mismatch" ("execution_plan" <> path)
      "receipt execution-plan field does not match trusted configuration"

pub push_plan_finding-length :
    (path : Text) (findings : Findings)
    → length findings ≤ 128
    → length (push_plan_finding path findings) ≤ 128
unfolding push_plan_finding
push_plan_finding-length path findings h = ground (arith, length-append findings (pushed path ∷ []))

pub push_plan_finding-some :
    (path : Text) (findings : Findings) → push_plan_finding path findings ≢ []
unfolding push_plan_finding
push_plan_finding-some path [] h = cc
push_plan_finding-some path (f ∷ findings) h = ground arith

-- The findings stay within the bound, and none is taken away.
pub record IsBounded (c : Comparison) : Type 0 where
  pub bound :
      (r : Value) (path : Text) (findings : Findings)
      → length findings ≤ 128
      → length (c r path findings) ≤ 128
  pub grows :
      (r : Value) (path : Text) (findings : Findings) → c r path findings ≡ [] → findings ≡ []

-- One that adds no finding has been given an equal value.
pub record IsSound (v : Value) (c : Comparison) : Type 0 where
  pub bounded : IsBounded c
  pub finds :
      (r : Value) (path : Text) (findings : Findings)
      → IsOrdered r
      → c r path findings ≡ []
      → same_value v r ≡ true

abbrev pub IsBoundedIf : Option Comparison → Type 0
IsBoundedIf none = Unit
IsBoundedIf (some c) = IsBounded c

-- The pair of lookups on which a round of a loop adds no finding.
abbrev pub Agrees : Option Comparison → Option Value → Type 0
Agrees (some c) (some r) = (path : Text) × (findings : Findings) × (c r path findings ≡ [])
Agrees none none = Unit
Agrees _ _ = ⊥

pub compare_found-length :
    (c : Option Comparison) (r : Option Value) (path : Text) (findings : Findings)
    → IsBoundedIf c
    → length findings ≤ 128
    → length (compare_found c r path findings) ≤ 128
compare_found-length (some c) (some r) path findings b h = b.bound r path findings h
compare_found-length (some c) none path findings b h = push_plan_finding-length path findings h
compare_found-length none r path findings b h = push_plan_finding-length path findings h

pub compare_found-Agrees :
    (c : Option Comparison) (r : Option Value) (path : Text) (findings : Findings)
    → IsBoundedIf c
    → compare_found c r path findings ≡ []
    → (findings ≡ []) × Agrees c r
compare_found-Agrees (some c) (some r) path findings b h =
    (b.grows r path findings h, (path, findings, h))
compare_found-Agrees (some c) none path findings b h =
    absurd (push_plan_finding-some path findings h)
compare_found-Agrees none r path findings b h = absurd (push_plan_finding-some path findings h)

-- An early return of the loop, or the rest of it.
early-length :
    (found rest : Findings)
    → length found ≤ 128
    → length rest ≤ 128
    → length (if leb max_plan_findings (length found) then found else rest) ≤ 128
early-length found rest p q = ground arith

early-nil :
    (found rest : Findings)
    → (if leb max_plan_findings (length found) then found else rest) ≡ []
    → rest ≡ []
early-nil [] rest h = h
early-nil (f ∷ found) rest h = ground arith

module _ (trusted : Map Comparison) (receipt : Map Value) where
  pub compare_keys-length :
      (path : Text) (keys : List Text) (findings : Findings)
      → ((key : Text) → IsBoundedIf (Map.get key trusted))
      → length findings ≤ 128
      → length (compare_keys trusted receipt path keys findings) ≤ 128
  unfolding compare_keys
  compare_keys-length path [] findings b h = h
  compare_keys-length path (key ∷ keys) findings b h =
      let step : Text = path <> "/" <> escape_json_pointer key in
      let found : Findings =
        compare_found (Map.get key trusted) (Map.get key receipt) step findings in
      let first : length found ≤ 128 =
        compare_found-length (Map.get key trusted) (Map.get key receipt) step findings (b key) h in
      early-length found (compare_keys trusted receipt path keys found) first
        (compare_keys-length path keys found b first)

  -- A loop over keys that adds no finding agrees on each of them.
  pub compare_keys-Agrees :
      (path : Text) (keys : List Text) (findings : Findings)
      → ((key : Text) → IsBoundedIf (Map.get key trusted))
      → compare_keys trusted receipt path keys findings ≡ []
      → (findings ≡ [])
        × ((key : Text)
            → contains keys key ≡ true
            → Agrees (Map.get key trusted) (Map.get key receipt))
  unfolding compare_keys
  compare_keys-Agrees path [] findings b h = (h, λ key k. cc)
  compare_keys-Agrees path (key ∷ keys) findings b h =
      let step : Text = path <> "/" <> escape_json_pointer key in
      let found : Findings =
        compare_found (Map.get key trusted) (Map.get key receipt) step findings in
      let (none_found, later) =
        compare_keys-Agrees path keys found b
          (early-nil found (compare_keys trusted receipt path keys found) h) in
      let (none_before, here) =
        compare_found-Agrees (Map.get key trusted) (Map.get key receipt) step findings (b key)
          none_found in
      (
        none_before,
        λ other k. elim (Bool-cases (str_eq key other)) [
          | inl same ↦
              subst (λ x. Agrees (Map.get x trusted) (Map.get x receipt))
                ((eq_iff key other).0 same) here
          | inr apart ↦ later other (rw apart at k)
        ],
      )

module _ (trusted : List Comparison) (receipt : List Value) where
  pub compare_indices-length :
      (rounds index : ℕ) (path : Text) (findings : Findings)
      → ((i : ℕ) → IsBoundedIf (get_elem? trusted i))
      → length findings ≤ 128
      → length (compare_indices rounds index trusted receipt path findings) ≤ 128
  unfolding compare_indices
  compare_indices-length zero index path findings b h = h
  compare_indices-length (suc rounds) index path findings b h =
      let step : Text = path <> "/" <> decimal_text index in
      let found : Findings =
        compare_found (get_elem? trusted index) (get_elem? receipt index) step findings in
      let first : length found ≤ 128 =
        compare_found-length (get_elem? trusted index) (get_elem? receipt index) step findings
          (b index) h in
      early-length found (compare_indices rounds (suc index) trusted receipt path found) first
        (compare_indices-length rounds (suc index) path found b first)

  -- A loop over indices that adds no finding agrees on each of them.
  pub compare_indices-Agrees :
      (rounds index : ℕ) (path : Text) (findings : Findings)
      → ((i : ℕ) → IsBoundedIf (get_elem? trusted i))
      → compare_indices rounds index trusted receipt path findings ≡ []
      → (findings ≡ [])
        × ((k : ℕ)
            → k < rounds
            → Agrees (get_elem? trusted (index + k)) (get_elem? receipt (index + k)))
  unfolding compare_indices
  compare_indices-Agrees zero index path findings b h = (h, λ k below. absurd (omega arith))
  compare_indices-Agrees (suc rounds) index path findings b h =
      let step : Text = path <> "/" <> decimal_text index in
      let found : Findings =
        compare_found (get_elem? trusted index) (get_elem? receipt index) step findings in
      let (none_found, later) =
        compare_indices-Agrees rounds (suc index) path found b
          (early-nil found (compare_indices rounds (suc index) trusted receipt path found) h) in
      let (none_before, here) =
        compare_found-Agrees (get_elem? trusted index) (get_elem? receipt index) step findings
          (b index) none_found in
      (none_before, λ k below. at_offset k below here later)
    where
      at_offset :
          (k : ℕ)
          → k < suc rounds
          → Agrees (get_elem? trusted index) (get_elem? receipt index)
          → ((j : ℕ)
              → j < rounds
              → Agrees (get_elem? trusted (suc index + j)) (get_elem? receipt (suc index + j)))
          → Agrees (get_elem? trusted (index + k)) (get_elem? receipt (index + k))
      at_offset zero below here later = let e : index + 0 ≡ index = omega arith in rw e here
      at_offset (suc k) below here later =
          let e : index + suc k ≡ suc index + k = omega arith in rw e (later k (omega arith))
