-- ===== src/Verify/PlanDiff/Complete.antt =====
-- `compare_plan_value` (src/verify.rs) misses no difference, and keeps its bound.
use mathlib.Core.Path.{subst}
use commit_ci_preflight.Prelude.{◌≤◌, String as Text, true, ◌≡◌, refl, ◌↔◌, List, length}
use commit_ci_preflight.Canonical.Json.{
  Value, Items, Fields, null, bool, number, text, array, object, nil, cons, end, field,
}
use commit_ci_preflight.Verify.PlanDiff.{
  Findings, compare_plan_value, compare_fields, compare_items, compare_objects, compare_arrays,
  same_value,
}
use commit_ci_preflight.Verify.PlanDiff.Objects.{same_value-eq, same_value_refl}
use commit_ci_preflight.Canonical.Json.Ordered.{IsOrdered, AreOrdered, HasOrdered}
use commit_ci_preflight.Verify.PlanDiff.Loops.{IsSound}
use commit_ci_preflight.Verify.PlanDiff.Parts.{
  unless_settled-IsSound, push-IsSound, AreSound, HaveSound,
}
use commit_ci_preflight.Verify.PlanDiff.Children.{
  compare_objects-length, compare_objects-grows, compare_objects-same, compare_arrays-length,
  compare_arrays-grows, compare_arrays-same,
}

mutual
  unfolding compare_plan_value IsOrdered AreSound HaveSound

  compare_plan_value-IsSound : (v : Value) → IsOrdered v → IsSound v (compare_plan_value v)
  compare_plan_value-IsSound (object fs) (p, o) =
      let s = compare_fields-HaveSound fs o in
      unless_settled-IsSound (object fs) (compare_objects (compare_fields fs))
        (record {
          bound = λ r path findings h. compare_objects-length fs r path findings s h;
          grows = λ r path findings h. compare_objects-grows fs r path findings s h;
        })
        (λ r path findings q h. compare_objects-same fs r path findings s (p, o) q h)
  compare_plan_value-IsSound (array vs) o =
      let s = compare_items-AreSound vs o in
      unless_settled-IsSound (array vs) (compare_arrays (compare_items vs))
        (record {
          bound = λ r path findings h. compare_arrays-length vs r path findings s h;
          grows = λ r path findings h. compare_arrays-grows vs r path findings s h;
        })
        (λ r path findings q h. compare_arrays-same vs r path findings s q h)
  compare_plan_value-IsSound null o = push-IsSound null
  compare_plan_value-IsSound (bool b) o = push-IsSound (bool b)
  compare_plan_value-IsSound (number n) o = push-IsSound (number n)
  compare_plan_value-IsSound (text t) o = push-IsSound (text t)

  compare_fields-HaveSound : (fs : Fields) → HasOrdered fs → HaveSound fs
  compare_fields-HaveSound end o = tt
  compare_fields-HaveSound (field k v fs) (p, o) =
      (compare_plan_value-IsSound v p, compare_fields-HaveSound fs o)

  compare_items-AreSound : (vs : Items) → AreOrdered vs → AreSound vs
  compare_items-AreSound nil o = tt
  compare_items-AreSound (cons v vs) (p, o) =
      (compare_plan_value-IsSound v p, compare_items-AreSound vs o)

settled :
    (t r : Value) (path : Text)
    → same_value t r ≡ true
    → compare_plan_value t r path List.[] ≡ List.[]
unfolding compare_plan_value
settled null r path h = rw h refl
settled (bool b) r path h = rw h refl
settled (number n) r path h = rw h refl
settled (text s) r path h = rw h refl
settled (array vs) r path h = rw h refl
settled (object fs) r path h = rw h refl

-- On values whose objects are in the order of their keys, compare_plan_value adds no finding
-- exactly when the two values are equal.
pub compare_plan_value-eq_iff :
    (trusted recorded : Value) (path : Text)
    → IsOrdered trusted
    → IsOrdered recorded
    → (compare_plan_value trusted recorded path List.[] ≡ List.[]) ↔ (trusted ≡ recorded)
compare_plan_value-eq_iff trusted recorded path o p = (
  λ h.
      same_value-eq trusted recorded
        ((compare_plan_value-IsSound trusted o).finds recorded path List.[] p h),
  λ e.
      settled trusted recorded path
        (subst (λ r. same_value trusted r ≡ true) e (same_value_refl trusted)),
)

-- compare_plan_value, on a trusted value whose objects are in the order of their keys and on at
-- most 128 findings, gives at most 128 findings.
pub compare_plan_value-length :
    (trusted recorded : Value) (path : Text) (findings : Findings)
    → IsOrdered trusted
    → length findings ≤ 128
    → length (compare_plan_value trusted recorded path findings) ≤ 128
compare_plan_value-length trusted recorded path findings o h =
    (compare_plan_value-IsSound trusted o).bounded.bound recorded path findings h

pub compare_plan_value-grows :
    (trusted recorded : Value) (path : Text) (findings : Findings)
    → IsOrdered trusted
    → compare_plan_value trusted recorded path findings ≡ List.[]
    → findings ≡ List.[]
compare_plan_value-grows trusted recorded path findings o h =
    (compare_plan_value-IsSound trusted o).bounded.grows recorded path findings h
