-- ===== src/Verify/PlanDiff/Parts.antt =====
-- The comparisons of `compare_plan_value` (src/verify.rs) on the children of a value.
use commit_ci_preflight.Prelude.{
  String as Text, true, ◌≡◌, refl, ap, List, arith, Option, none, some, str_eq, Bool-cases, inl,
  inr,
}
use commit_ci_preflight.Ordered.Map
use commit_ci_preflight.Ordered.Map.{Map, get-none}
use commit_ci_preflight.Canonical.Json.{Value, Items, Fields, nil, cons, end, field}
use commit_ci_preflight.Verify.PlanDiff.{
  Findings, Comparison, push_plan_finding, compare_plan_value, compare_fields, unless_settled,
  same_value,
}
use commit_ci_preflight.Canonical.Json.Ordered.{entries}
use commit_ci_preflight.Verify.PlanDiff.Objects.{FindsSame}
use commit_ci_preflight.Canonical.Json.Ordered.{IsOrdered, HasOrdered}
use commit_ci_preflight.Verify.PlanDiff.Loops.{
  IsBounded, IsSound, IsBoundedIf, Agrees, push_plan_finding-length, push_plan_finding-some,
}

-- The guard at the head of `compare_plan_value` keeps what the comparison below it does.
pub unless_settled-IsSound :
    (v : Value) (c : Comparison)
    → IsBounded c
    → ((r : Value) (path : Text) (findings : Findings)
        → IsOrdered r
        → c r path findings ≡ List.[]
        → same_value v r ≡ true)
    → IsSound v (unless_settled v c)
unless_settled-IsSound v c b finds = record {
  bounded = record {
    bound = λ r path findings h. ground (arith, b.bound r path findings h);
    grows = λ r path findings h. ground (arith, b.grows r path findings);
  };
  finds = λ r path findings o h. ground (arith, b.grows r path findings, finds r path findings o);
}

pub push-IsBounded : IsBounded (λ r. push_plan_finding)
push-IsBounded = record {
  bound = λ r path findings h. push_plan_finding-length path findings h;
  grows = λ r path findings h. absurd (push_plan_finding-some path findings h);
}

pub push-IsSound : (v : Value) → IsSound v (unless_settled v (λ r. push_plan_finding))
push-IsSound v =
    unless_settled-IsSound v (λ r. push_plan_finding) push-IsBounded
      (λ r path findings o h. absurd (push_plan_finding-some path findings h))

unfoldable pub AreSound : Items → Type 0
AreSound nil = Unit
AreSound (cons v vs) = IsSound v (compare_plan_value v) × AreSound vs

unfoldable pub HaveSound : Fields → Type 0
HaveSound end = Unit
HaveSound (field k v fs) = IsSound v (compare_plan_value v) × HaveSound fs

abbrev pub IsOrderedIf : Option Value → Type 0
IsOrderedIf none = Unit
IsOrderedIf (some r) = IsOrdered r

pub get-IsOrderedIf :
    (gs : Fields) (key : Text) → HasOrdered gs → IsOrderedIf (Map.get key (entries gs))
unfolding HasOrdered Map.get
get-IsOrderedIf end key o = tt
get-IsOrderedIf (field j w gs) key (p, o) = elim (Bool-cases (str_eq j key)) [
  | inl here ↦ rw here p
  | inr there ↦ rw there (get-IsOrderedIf gs key o)
]

pub compare_fields-keys : (fs : Fields) → Map.keys (compare_fields fs) ≡ Map.keys (entries fs)
unfolding compare_fields
compare_fields-keys end = refl
compare_fields-keys (field k v fs) = ap (List.◌∷◌ k) (compare_fields-keys fs)

pub compare_fields-IsBoundedIf :
    (fs : Fields) (key : Text) → HaveSound fs → IsBoundedIf (Map.get key (compare_fields fs))
unfolding compare_fields HaveSound Map.get
compare_fields-IsBoundedIf end key s = tt
compare_fields-IsBoundedIf (field k v fs) key (p, s) = elim (Bool-cases (str_eq k key)) [
  | inl here ↦ rw here p.bounded
  | inr there ↦ rw there (compare_fields-IsBoundedIf fs key s)
]

pub found_same :
    (v : Value) (r : Option Value)
    → IsSound v (compare_plan_value v)
    → IsOrderedIf r
    → Agrees (some (compare_plan_value v)) r
    → FindsSame (some v) r
found_same v none s o h = absurd h
found_same v (some r) s o (path, findings, h) = s.finds r path findings o h

pub compare_fields-FindsSame :
    (fs : Fields) (key : Text) (r : Option Value)
    → HaveSound fs
    → IsOrderedIf r
    → Agrees (Map.get key (compare_fields fs)) r
    → FindsSame (Map.get key (entries fs)) r
unfolding compare_fields HaveSound Map.get
compare_fields-FindsSame end key none s o h = tt
compare_fields-FindsSame end key (some r) s o h = absurd h
compare_fields-FindsSame (field k v fs) key r (p, s) o h = elim (Bool-cases (str_eq k key)) [
  | inl here ↦ rw here (found_same v r p o (rw here at h))
  | inr there ↦ rw there (compare_fields-FindsSame fs key r s o (rw there at h))
]
