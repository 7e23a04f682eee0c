-- ===== src/Verify/PlanDiff.antt =====
-- `compare_execution_plan` and `compare_plan_value` of src/verify.rs.
pub mod Objects
pub mod Loops
pub mod Parts
pub mod Children
pub mod Complete
use Prim.Native.Char.{code}
use Prim.Native.String
use Prim.Native.String.{[], ◌∷◌}
use commit_ci_preflight.Prelude
use commit_ci_preflight.Prelude.{
  ℕ, zero, suc, ◌+◌, ◌/◌, ◌%◌, String as Text, Bool, true, false, not, ◌&&◌, ◌||◌, List, Option,
  none, some, ltb, leb, ◌==◌, if◌then◌else◌, str_eq, length, get_elem?,
}
use commit_ci_preflight.Ordered.Set
use commit_ci_preflight.Ordered.Map
use commit_ci_preflight.Ordered.Map.{Map}
use commit_ci_preflight.Canonical.Json.{
  Value, Items, Fields, null, bool, number, text, array, object, nil, cons, end, field,
}
use commit_ci_preflight.Canonical.Json.Ordered.{entries}
use commit_ci_preflight.Receipt.Manifest.{same_bool}
use commit_ci_preflight.Verify.Report.{VerificationFindingV1, finding}

abbrev pub Findings : Type 0
Findings = List VerificationFindingV1

abbrev pub max_plan_findings : ℕ
max_plan_findings = 128

infixr 65 ◌<>◌
abbrev pub ◌<>◌ : Text → Text → Text
s <> t = String.◌++◌ s t

-- `value.replace('~', "~0").replace('/', "~1")`, both replacements in one pass.
unfoldable pub escape_json_pointer : Text → Text
escape_json_pointer [] = []
escape_json_pointer (c ∷ s) =
    let rest = escape_json_pointer s in
    if code c == b'~' then "~0" <> rest else if code c == b'/' then "~1" <> rest else c ∷ rest

-- The decimal digits of an index: `format!("{index}")`. One digit is made for each unit of fuel,
-- and a number has at most as many digits as its value plus one.
abbrev pub digit : ℕ → Text
digit n =
    if n == 0
    then "0"
    else if n == 1
    then "1"
    else if n == 2
    then "2"
    else if n == 3
    then "3"
    else if n == 4
    then "4"
    else if n == 5
    then "5"
    else if n == 6
    then "6"
    else if n == 7
    then "7"
    else if n == 8
    then "8"
    else "9"

unfoldable pub decimal_from : ℕ → ℕ → Text
decimal_from zero n = digit (n % 10)
decimal_from (suc fuel) n =
    let higher = decimal_from fuel (n / 10) in
    if ltb n 10 then digit n else higher <> digit (n % 10)

abbrev pub decimal_text : ℕ → Text
decimal_text n = decimal_from n n

unfoldable pub push_plan_finding : Text → Findings → Findings
push_plan_finding path findings =
    if ltb (length findings) max_plan_findings
    then Prelude.◌++◌ findings (
        List.◌∷◌
          (finding "policy.execution_plan.field_mismatch" ("execution_plan" <> path)
            "receipt execution-plan field does not match trusted configuration")
          List.[])
    else findings

-- `==` of two values. The entries of an object are in the order of their keys.
unfoldable mutual
  pub same_value : Value → Value → Bool
  same_value null null = true
  same_value (bool a) (bool b) = same_bool a b
  same_value (number a) (number b) = str_eq a b
  same_value (text a) (text b) = str_eq a b
  same_value (array a) (array b) = same_items a b
  same_value (object a) (object b) = same_fields a b
  same_value _ _ = false

  pub same_items : Items → Items → Bool
  same_items nil nil = true
  same_items (cons a xs) (cons b ys) = same_value a b && same_items xs ys
  same_items _ _ = false

  pub same_fields : Fields → Fields → Bool
  same_fields end end = true
  same_fields (field k a fs) (field j b gs) = str_eq k j && same_value a b && same_fields fs gs
  same_fields _ _ = false

abbrev pub items : Items → List Value
items nil = List.[]
items (cons v vs) = List.◌∷◌ v (items vs)

-- What a trusted value does with the receipt's value, the path and the findings.
abbrev pub Comparison : Type 0
Comparison = Value → Text → Findings → Findings

-- One round of either loop: the pair of `get`s.
abbrev pub compare_found : Option Comparison → Option Value → Text → Findings → Findings
compare_found (some compare) (some receipt) path findings = compare receipt path findings
compare_found (some compare) none path findings = push_plan_finding path findings
compare_found none receipt path findings = push_plan_finding path findings

-- The loop over the keys; it ends early when the findings are full.
unfoldable pub compare_keys : Map Comparison → Map Value → Text → List Text → Findings → Findings
unfolding push_plan_finding
compare_keys trusted receipt path List.[] findings = findings
compare_keys trusted receipt path (List.◌∷◌ key keys) findings =
    let found =
      compare_found (Map.get key trusted) (Map.get key receipt)
        (path <> "/" <> escape_json_pointer key) findings in
    let rest = compare_keys trusted receipt path keys found in
    if leb max_plan_findings (length found) then found else rest

-- The loop over the indices from `index` on, for so many rounds.
unfoldable pub compare_indices : ℕ → ℕ → List Comparison → List Value → Text → Findings → Findings
unfolding push_plan_finding
compare_indices zero index trusted receipt path findings = findings
compare_indices (suc rounds) index trusted receipt path findings =
    let found =
      compare_found (get_elem? trusted index) (get_elem? receipt index)
        (path <> "/" <> decimal_text index) findings in
    let rest = compare_indices rounds (suc index) trusted receipt path found in
    if leb max_plan_findings (length found) then found else rest

abbrev pub longest : List Comparison → List Value → ℕ
longest trusted receipt =
    if ltb (length trusted) (length receipt) then length receipt else length trusted

-- The `match (trusted, receipt)`, with the comparisons of the children of `trusted`.
abbrev pub compare_objects : Map Comparison → Comparison
compare_objects trusted (object receipt) path findings =
    compare_keys trusted (entries receipt) path
      (Set.extend List.[] (Prelude.◌++◌ (Map.keys trusted) (Map.keys (entries receipt)))) findings
compare_objects trusted receipt path findings = push_plan_finding path findings

abbrev pub compare_arrays : List Comparison → Comparison
compare_arrays trusted (array receipt) path findings =
    compare_indices (longest trusted (items receipt)) 0 trusted (items receipt) path findings
compare_arrays trusted receipt path findings = push_plan_finding path findings

-- The guard at the head of `compare_plan_value`.
abbrev pub unless_settled : Value → Comparison → Comparison
unless_settled trusted compare receipt path findings =
    if leb max_plan_findings (length findings) || same_value trusted receipt
    then findings
    else compare receipt path findings

unfoldable mutual
  unfolding compare_keys compare_indices same_value push_plan_finding

  pub compare_plan_value : Value → Comparison
  compare_plan_value (object fields) =
      unless_settled (object fields) (compare_objects (compare_fields fields))
  compare_plan_value (array values) =
      unless_settled (array values) (compare_arrays (compare_items values))
  compare_plan_value null = unless_settled null (λ receipt. push_plan_finding)
  compare_plan_value (bool b) = unless_settled (bool b) (λ receipt. push_plan_finding)
  compare_plan_value (number n) = unless_settled (number n) (λ receipt. push_plan_finding)
  compare_plan_value (text s) = unless_settled (text s) (λ receipt. push_plan_finding)

  pub compare_fields : Fields → Map Comparison
  compare_fields end = List.[]
  compare_fields (field k v fs) = List.◌∷◌ (k, compare_plan_value v) (compare_fields fs)

  pub compare_items : Items → List Comparison
  compare_items nil = List.[]
  compare_items (cons v vs) = List.◌∷◌ (compare_plan_value v) (compare_items vs)
