-- ===== src/Verify/PlanDiff/Objects.antt =====
-- What the equality of two values of serde_json means, for `compare_plan_value` of src/verify.rs.
use commit_ci_preflight.Prelude.{
  String, Bool, true, false, ◌&&◌, ◌≡◌, refl, ap, sym, ◌∙◌, arith, Option, none, some, str_eq,
  eq_iff, eq_refl, Bool-cases, inl, inr,
}
use mathlib.Core.Path.{subst, ap₂}
use commit_ci_preflight.Ordered.Set.{IsSorted, SameMembers, heads_equal, Above-contains}
use commit_ci_preflight.Ordered.Map
use commit_ci_preflight.Ordered.Map.{Map, contains-keys, get-none}
use commit_ci_preflight.Canonical.Json.{
  Value, Items, Fields, null, bool, number, text, array, object, nil, cons, end, field,
}
use commit_ci_preflight.Canonical.Json.Ordered.{entries}
use commit_ci_preflight.Verify.PlanDiff.{same_value, same_items, same_fields}

-- Two lookups that find equal values, or nothing.
abbrev pub FindsSame : Option Value → Option Value → Type 0
FindsSame none none = Unit
FindsSame (some v) (some r) = same_value v r ≡ true
FindsSame _ _ = ⊥

present_same : (a b : Option Value) → FindsSame a b → Map.present a ≡ Map.present b
present_same none none h = refl
present_same none (some r) h = absurd h
present_same (some v) none h = absurd h
present_same (some v) (some r) h = refl

keys_same :
    (fs gs : Fields)
    → ((key : String) → FindsSame (Map.get key (entries fs)) (Map.get key (entries gs)))
    → SameMembers (Map.keys (entries fs)) (Map.keys (entries gs))
keys_same fs gs same key =
    contains-keys key (entries fs)
    ∙ (present_same (Map.get key (entries fs)) (Map.get key (entries gs)) (same key)
        ∙ sym (contains-keys key (entries gs)))

-- Objects in the order of their keys are equal when every key finds the same in both.
pub same_fields-FindsSame :
    (fs gs : Fields)
    → IsSorted (Map.keys (entries fs))
    → IsSorted (Map.keys (entries gs))
    → ((key : String) → FindsSame (Map.get key (entries fs)) (Map.get key (entries gs)))
    → same_fields fs gs ≡ true
unfolding same_fields Map.get
same_fields-FindsSame end end p q same = refl
same_fields-FindsSame end (field j w gs) p q same = absurd (rw (eq_refl j) at (same j))
same_fields-FindsSame (field k v fs) end p q same = absurd (rw (eq_refl k) at (same k))
same_fields-FindsSame (field k v fs) (field j w gs) (p, h) (q, i) same =
    let e : k ≡ j =
      heads_equal k j (Map.keys (entries fs)) (Map.keys (entries gs)) (p, h) (q, i)
        (keys_same (field k v fs) (field j w gs) same) in
    let below : str_eq j k ≡ true = rw e (eq_refl j) in
    let first : same_value v w ≡ true = rw (eq_refl k, below) at (same k) in
    let rest : same_fields fs gs ≡ true = same_fields-FindsSame fs gs h i (λ key.
      elim (Bool-cases (str_eq k key)) [
        | inl here ↦
            subst (λ x. FindsSame (Map.get x (entries fs)) (Map.get x (entries gs)))
              ((eq_iff k key).0 here)
              (rw
                (
                  get-none k (entries fs) (Above-contains k (Map.keys (entries fs)) p),
                  get-none k (entries gs)
                      (rw (sym e) at (Above-contains j (Map.keys (entries gs)) q)),
                )
                tt)
        | inr there ↦
            let other : str_eq j key ≡ false = rw e at there in rw (there, other) at (same key)
      ]) in
    ground (arith, eq_iff k j)

and_true : (a b : Bool) → (a && b) ≡ true → (a ≡ true) × (b ≡ true)
and_true a b h = ground arith

field_eq :
    (k j : String) (a b : Value) (fs gs : Fields)
    → k ≡ j
    → a ≡ b
    → fs ≡ gs
    → field k a fs ≡ field j b gs
field_eq k j a b fs gs p q r = cc

-- `==` of two values is equality.
mutual
  unfolding same_value

  pub same_value-eq : (v r : Value) → same_value v r ≡ true → v ≡ r
  same_value-eq null null h = refl
  same_value-eq (bool a) (bool b) h = ground arith
  same_value-eq (number a) (number b) h = ap number ((eq_iff a b).0 h)
  same_value-eq (text a) (text b) h = ap text ((eq_iff a b).0 h)
  same_value-eq (array xs) (array ys) h = ap array (same_items-eq xs ys h)
  same_value-eq (object fs) (object gs) h = ap object (same_fields-eq fs gs h)
  same_value-eq _ _ h = cc

  same_items-eq : (xs ys : Items) → same_items xs ys ≡ true → xs ≡ ys
  same_items-eq nil nil h = refl
  same_items-eq (cons a xs) (cons b ys) h =
      let (p, q) = and_true (same_value a b) (same_items xs ys) h in
      ap₂ cons (same_value-eq a b p) (same_items-eq xs ys q)
  same_items-eq _ _ h = cc

  same_fields-eq : (fs gs : Fields) → same_fields fs gs ≡ true → fs ≡ gs
  same_fields-eq end end h = refl
  same_fields-eq (field k a fs) (field j b gs) h =
      let (keyed, q) = and_true (str_eq k j && same_value a b) (same_fields fs gs) h in
      let (p, o) = and_true (str_eq k j) (same_value a b) keyed in
      field_eq k j a b fs gs ((eq_iff k j).0 p) (same_value-eq a b o) (same_fields-eq fs gs q)
  same_fields-eq _ _ h = cc

mutual
  unfolding same_value

  pub same_value_refl : (v : Value) → same_value v v ≡ true
  same_value_refl null = refl
  same_value_refl (bool b) = ground arith
  same_value_refl (number a) = eq_refl a
  same_value_refl (text a) = eq_refl a
  same_value_refl (array xs) = same_items_refl xs
  same_value_refl (object fs) = same_fields_refl fs

  same_items_refl : (xs : Items) → same_items xs xs ≡ true
  same_items_refl nil = refl
  same_items_refl (cons a xs) = ground (arith, same_value_refl a, same_items_refl xs)

  same_fields_refl : (fs : Fields) → same_fields fs fs ≡ true
  same_fields_refl end = refl
  same_fields_refl (field k a fs) =
      ground (arith, eq_refl k, same_value_refl a, same_fields_refl fs)
