-- ===== src/Verify/PlanDiff/Children.antt =====
-- `compare_plan_value` (src/verify.rs) on two objects and on two arrays.
use commit_ci_preflight.Prelude
use commit_ci_preflight.Prelude.{
  ℕ, zero, suc, ◌+◌, ◌≤◌, ◌<◌, String as Text, Bool, true, false, ◌||◌, ◌&&◌, ◌≡◌, ◌≢◌, refl, ap,
  sym, ◌∙◌, ◌↔◌, List, arith, Option, none, some, ltb, leb, if◌then◌else◌, str_eq, eq_iff, contains,
  contains-append, length, get_elem?, Bool-cases, inl, inr,
}
use commit_ci_preflight.Ordered.Set
use commit_ci_preflight.Ordered.Set.{IsSorted, contains-extend}
use commit_ci_preflight.Ordered.Map
use commit_ci_preflight.Ordered.Map.{Map, get-none}
use commit_ci_preflight.Canonical.Json.{Value, Items, Fields, array, object, nil, cons}
use commit_ci_preflight.Verify.PlanDiff.{
  Findings, compare_fields, compare_items, compare_objects, compare_arrays, longest, same_value,
  same_items, items,
}
use commit_ci_preflight.Canonical.Json.Ordered.{entries}
use commit_ci_preflight.Verify.PlanDiff.Objects.{same_fields-FindsSame}
use commit_ci_preflight.Canonical.Json.Ordered.{IsOrdered, AreOrdered}
use commit_ci_preflight.Verify.PlanDiff.Loops.{
  IsBoundedIf, Agrees, push_plan_finding-length, push_plan_finding-some, compare_keys-length,
  compare_keys-Agrees, compare_indices-length, compare_indices-Agrees,
}
use commit_ci_preflight.Verify.PlanDiff.Parts.{
  AreSound, HaveSound, get-IsOrderedIf, compare_fields-keys, compare_fields-IsBoundedIf, found_same,
  compare_fields-FindsSame,
}

compare_items-IsBoundedIf :
    (vs : Items) (i : ℕ) → AreSound vs → IsBoundedIf (get_elem? (compare_items vs) i)
unfolding compare_items AreSound
compare_items-IsBoundedIf nil i s = tt
compare_items-IsBoundedIf (cons v vs) zero (p, s) = p.bounded
compare_items-IsBoundedIf (cons v vs) (suc i) (p, s) = compare_items-IsBoundedIf vs i s

-- Arrays that agree at every index of the longer one are equal.
compare_items-same :
    (vs ws : Items)
    → AreSound vs
    → AreOrdered ws
    → ((k : ℕ)
        → k < longest (compare_items vs) (items ws)
        → Agrees (get_elem? (compare_items vs) k) (get_elem? (items ws) k))
    → same_items vs ws ≡ true
unfolding compare_items AreSound AreOrdered same_items
compare_items-same nil nil s o agree = refl
compare_items-same nil (cons w ws) s o agree = absurd (agree 0 (ground arith))
compare_items-same (cons v vs) nil s o agree = absurd (agree 0 (ground arith))
compare_items-same (cons v vs) (cons w ws) (p, s) (q, o) agree =
    let first : same_value v w ≡ true = found_same v (some w) p q (agree 0 (ground arith)) in
    let rest : same_items vs ws ≡ true =
      compare_items-same vs ws s o (λ k below. agree (suc k) (ground arith)) in
    ground arith

or_false : (a b : Bool) → (a || b) ≡ false → (a ≡ false) × (b ≡ false)
or_false a b h = ground arith

-- Every key of either object is compared.
union :
    (fs gs : Fields) (key : Text)
    → contains
        (Set.extend List.[] (Prelude.◌++◌ (Map.keys (compare_fields fs)) (Map.keys (entries gs))))
        key
      ≡ (contains (Map.keys (entries fs)) key || contains (Map.keys (entries gs)) key)
union fs gs key =
    contains-extend List.[] (Prelude.◌++◌ (Map.keys (compare_fields fs)) (Map.keys (entries gs)))
      key
    ∙ (contains-append (Map.keys (compare_fields fs)) (Map.keys (entries gs)) key
        ∙ ap (λ (keys : List Text). contains keys key || contains (Map.keys (entries gs)) key)
            (compare_fields-keys fs))

abbrev keys_of : Fields → Fields → List Text
keys_of fs gs =
    Set.extend List.[] (Prelude.◌++◌ (Map.keys (compare_fields fs)) (Map.keys (entries gs)))

pub compare_objects-length :
    (fs : Fields) (r : Value) (path : Text) (findings : Findings)
    → HaveSound fs
    → length findings ≤ 128
    → length (compare_objects (compare_fields fs) r path findings) ≤ 128
compare_objects-length fs (object gs) path findings s h =
    compare_keys-length (compare_fields fs) (entries gs) path (keys_of fs gs) findings
      (λ key. compare_fields-IsBoundedIf fs key s) h
compare_objects-length fs _ path findings s h = push_plan_finding-length path findings h

pub compare_objects-grows :
    (fs : Fields) (r : Value) (path : Text) (findings : Findings)
    → HaveSound fs
    → compare_objects (compare_fields fs) r path findings ≡ List.[]
    → findings ≡ List.[]
compare_objects-grows fs (object gs) path findings s h =
    (compare_keys-Agrees (compare_fields fs) (entries gs) path (keys_of fs gs) findings
      (λ key. compare_fields-IsBoundedIf fs key s) h).0
compare_objects-grows fs _ path findings s h = absurd (push_plan_finding-some path findings h)

pub compare_objects-same :
    (fs : Fields) (r : Value) (path : Text) (findings : Findings)
    → HaveSound fs
    → IsOrdered (object fs)
    → IsOrdered r
    → compare_objects (compare_fields fs) r path findings ≡ List.[]
    → same_value (object fs) r ≡ true
unfolding IsOrdered same_value
compare_objects-same fs (object gs) path findings s (p, _) (q, o) h =
    let agree =
      (compare_keys-Agrees (compare_fields fs) (entries gs) path (keys_of fs gs) findings
        (λ key. compare_fields-IsBoundedIf fs key s) h).1 in
    same_fields-FindsSame fs gs p q (λ key. elim (Bool-cases (contains (keys_of fs gs) key)) [
      | inl compared ↦
          compare_fields-FindsSame fs key (Map.get key (entries gs)) s (get-IsOrderedIf gs key o)
            (agree key compared)
      | inr absent ↦
          let (p, q) =
            or_false (contains (Map.keys (entries fs)) key) (contains (Map.keys (entries gs)) key)
              (sym (union fs gs key) ∙ absent) in
          rw (get-none key (entries fs) p, get-none key (entries gs) q) tt
    ])
compare_objects-same fs _ path findings s p q h = absurd (push_plan_finding-some path findings h)

pub compare_arrays-length :
    (vs : Items) (r : Value) (path : Text) (findings : Findings)
    → AreSound vs
    → length findings ≤ 128
    → length (compare_arrays (compare_items vs) r path findings) ≤ 128
compare_arrays-length vs (array ws) path findings s h =
    compare_indices-length (compare_items vs) (items ws) (longest (compare_items vs) (items ws)) 0
      path findings (λ i. compare_items-IsBoundedIf vs i s) h
compare_arrays-length vs _ path findings s h = push_plan_finding-length path findings h

compare_arrays-Agrees :
    (vs ws : Items) (path : Text) (findings : Findings)
    → AreSound vs
    → compare_arrays (compare_items vs) (array ws) path findings ≡ List.[]
    → (findings ≡ List.[])
      × ((k : ℕ)
          → k < longest (compare_items vs) (items ws)
          → Agrees (get_elem? (compare_items vs) (0 + k)) (get_elem? (items ws) (0 + k)))
compare_arrays-Agrees vs ws path findings s h =
    compare_indices-Agrees (compare_items vs) (items ws) (longest (compare_items vs) (items ws)) 0
      path findings (λ i. compare_items-IsBoundedIf vs i s) h

pub compare_arrays-grows :
    (vs : Items) (r : Value) (path : Text) (findings : Findings)
    → AreSound vs
    → compare_arrays (compare_items vs) r path findings ≡ List.[]
    → findings ≡ List.[]
compare_arrays-grows vs (array ws) path findings s h =
    (compare_arrays-Agrees vs ws path findings s h).0
compare_arrays-grows vs _ path findings s h = absurd (push_plan_finding-some path findings h)

pub compare_arrays-same :
    (vs : Items) (r : Value) (path : Text) (findings : Findings)
    → AreSound vs
    → IsOrdered r
    → compare_arrays (compare_items vs) r path findings ≡ List.[]
    → same_value (array vs) r ≡ true
unfolding IsOrdered same_value
compare_arrays-same vs (array ws) path findings s o h = compare_items-same vs ws s o (λ k below.
    let e : 0 + k ≡ k = omega arith in
    rw e at ((compare_arrays-Agrees vs ws path findings s h).1 k below))
compare_arrays-same vs _ path findings s o h = absurd (push_plan_finding-some path findings h)
