-- ===== src/Canonical/Json/Laws.antt =====
-- `normalize_json` of src/receipt.rs gives a canonical form.
use commit_ci_preflight.Prelude.{
  String, ◌≡◌, ◌↔◌, refl, ap, sym, ◌∙◌, ◌∷◌, str_eq, Bool-cases, inl, inr,
}
use mathlib.Core.Path.{ap₂, subst}
use commit_ci_preflight.Ordered.Order.{str_lt, str_lt_asym, str_lt-ne}
use commit_ci_preflight.Ordered.Set.{Above, IsSorted}
use commit_ci_preflight.Ordered.Map
use commit_ci_preflight.Canonical.Json.{
  Value, Items, Fields, null, bool, number, text, array, object, nil, cons, end, field,
  insert_field, normalize_json, normalize_items, collect_fields,
}
use commit_ci_preflight.Canonical.Json.Ordered.{entries, IsOrdered, AreOrdered, HasOrdered}

entries-insert_field :
    (k : String) (v : Value) (fs : Fields)
    → entries (insert_field k v fs) ≡ Map.insert k v (entries fs)
unfolding insert_field Map.insert
entries-insert_field k v end = refl
entries-insert_field k v (field j w fs) = elim (Bool-cases (str_lt k j)) [
  | inl below ↦ rw below refl
  | inr above ↦ elim (Bool-cases (str_eq j k)) [
    | inl same ↦ rw (above, same) refl
    | inr other ↦ rw (above, other) (ap (◌∷◌ (j, w)) (entries-insert_field k v fs))
  ]
]

insert_field-HasOrdered :
    (k : String) (v : Value) (fs : Fields)
    → IsOrdered v
    → HasOrdered fs
    → HasOrdered (insert_field k v fs)
unfolding insert_field HasOrdered
insert_field-HasOrdered k v end o h = (o, tt)
insert_field-HasOrdered k v (field j w fs) o (p, h) = elim (Bool-cases (str_lt k j)) [
  | inl below ↦ rw below (o, (p, h))
  | inr above ↦ elim (Bool-cases (str_eq j k)) [
    | inl same ↦ rw (above, same) (o, h)
    | inr other ↦ rw (above, other) (p, insert_field-HasOrdered k v fs o h)
  ]
]

-- The fields collected so far are in order, and so are the values in them.
abbrev IsCollected : Fields → Type 0
IsCollected fs = IsSorted (Map.keys (entries fs)) × HasOrdered fs

insert_field-IsCollected :
    (k : String) (v : Value) (fs : Fields)
    → IsOrdered v
    → IsCollected fs
    → IsCollected (insert_field k v fs)
insert_field-IsCollected k v fs o (p, h) = (
  subst (λ m. IsSorted (Map.keys m)) (sym (entries-insert_field k v fs))
      (Map.insert-IsSorted k v (entries fs) p),
  insert_field-HasOrdered k v fs o h,
)

mutual
  unfolding normalize_json IsOrdered

  pub normalize_json-IsOrdered : (v : Value) → IsOrdered (normalize_json v)
  normalize_json-IsOrdered null = tt
  normalize_json-IsOrdered (bool b) = tt
  normalize_json-IsOrdered (number n) = tt
  normalize_json-IsOrdered (text s) = tt
  normalize_json-IsOrdered (array vs) = normalize_items-AreOrdered vs
  normalize_json-IsOrdered (object fs) = collect_fields-IsCollected fs end (tt, tt)

  normalize_items-AreOrdered : (vs : Items) → AreOrdered (normalize_items vs)
  normalize_items-AreOrdered nil = tt
  normalize_items-AreOrdered (cons v vs) =
      (normalize_json-IsOrdered v, normalize_items-AreOrdered vs)

  collect_fields-IsCollected :
      (fs sorted : Fields) → IsCollected sorted → IsCollected (collect_fields fs sorted)
  collect_fields-IsCollected end sorted h = h
  collect_fields-IsCollected (field k v fs) sorted h =
      collect_fields-IsCollected fs (insert_field k (normalize_json v) sorted)
        (insert_field-IsCollected k (normalize_json v) sorted (normalize_json-IsOrdered v) h)

abbrev join : Fields → Fields → Fields
join end gs = gs
join (field k v fs) gs = field k v (join fs gs)

-- Every key of the first object comes before every key of the second.
abbrev IsBefore : Fields → Fields → Type 0
IsBefore end gs = Unit
IsBefore (field j w fs) gs = Above j (Map.keys (entries gs)) × IsBefore fs gs

insert_field_last :
    (k : String) (v : Value) (fs : Fields)
    → IsBefore fs (field k v end)
    → insert_field k v fs ≡ join fs (field k v end)
unfolding insert_field
insert_field_last k v end h = refl
insert_field_last k v (field j w fs) ((below, _), h) =
    rw (str_lt_asym j k below, str_lt-ne j k below) (ap (field j w) (insert_field_last k v fs h))

IsBefore-first :
    (k : String) (v : Value) (fs gs : Fields)
    → IsBefore fs (field k v gs)
    → IsBefore fs (field k v end)
IsBefore-first k v end gs h = tt
IsBefore-first k v (field j w fs) gs ((below, _), h) = ((below, tt), IsBefore-first k v fs gs h)

IsBefore-join :
    (k : String) (v : Value) (fs gs : Fields)
    → IsBefore fs (field k v gs)
    → Above k (Map.keys (entries gs))
    → IsBefore (join fs (field k v end)) gs
IsBefore-join k v end gs h a = (a, tt)
IsBefore-join k v (field j w fs) gs ((_, above), h) a = (above, IsBefore-join k v fs gs h a)

join_end : (fs : Fields) → join fs end ≡ fs
join_end end = refl
join_end (field k v fs) = ap (field k v) (join_end fs)

join_assoc :
    (k : String) (v : Value) (fs gs : Fields)
    → join (join fs (field k v end)) gs ≡ join fs (field k v gs)
join_assoc k v end gs = refl
join_assoc k v (field j w fs) gs = ap (field j w) (join_assoc k v fs gs)

mutual
  unfolding normalize_json IsOrdered

  pub normalize_json_stable : (v : Value) → IsOrdered v → normalize_json v ≡ v
  normalize_json_stable null o = refl
  normalize_json_stable (bool b) o = refl
  normalize_json_stable (number n) o = refl
  normalize_json_stable (text s) o = refl
  normalize_json_stable (array vs) o = ap array (normalize_items_stable vs o)
  normalize_json_stable (object fs) (p, o) = ap object (collect_fields_stable fs end p o tt)

  normalize_items_stable : (vs : Items) → AreOrdered vs → normalize_items vs ≡ vs
  normalize_items_stable nil o = refl
  normalize_items_stable (cons v vs) (p, o) =
      ap₂ cons (normalize_json_stable v p) (normalize_items_stable vs o)

  collect_fields_stable :
      (fs sorted : Fields)
      → IsSorted (Map.keys (entries fs))
      → HasOrdered fs
      → IsBefore sorted fs
      → collect_fields fs sorted ≡ join sorted fs
  collect_fields_stable end sorted p o b = sym (join_end sorted)
  collect_fields_stable (field k v fs) sorted (a, p) (q, o) b =
      let normal : normalize_json v ≡ v = normalize_json_stable v q in
      let last : insert_field k v sorted ≡ join sorted (field k v end) =
        insert_field_last k v sorted (IsBefore-first k v sorted fs b) in
      ap (λ x. collect_fields fs (insert_field k x sorted)) normal
      ∙ (ap (collect_fields fs) last
          ∙ (collect_fields_stable fs (join sorted (field k v end)) p o
                (IsBefore-join k v sorted fs b a)
              ∙ join_assoc k v sorted fs))

-- normalize_json gives a value whose objects are in the order of their keys, and normalising again
-- changes nothing.
pub normalize_json-canonical :
    (v : Value)
    → IsOrdered (normalize_json v) × (normalize_json (normalize_json v) ≡ normalize_json v)
normalize_json-canonical v = (
  normalize_json-IsOrdered v,
  normalize_json_stable (normalize_json v) (normalize_json-IsOrdered v),
)

-- normalize_json leaves a value as it is exactly when its objects, at every depth, are in the order
-- of their keys.
pub normalize_json-fixed_iff : (v : Value) → (normalize_json v ≡ v) ↔ IsOrdered v
normalize_json-fixed_iff v =
    (λ h. subst IsOrdered h (normalize_json-IsOrdered v), λ o. normalize_json_stable v o)
