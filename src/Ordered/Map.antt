-- ===== src/Ordered/Map.antt =====
-- `BTreeMap<String, V>` as its list of entries, ascending by key.
use commit_ci_preflight.Prelude.{
  ap, eq_refl, String, Bool, true, false, ◌||◌, ◌≡◌, refl, List, [], ◌∷◌, arith, Option, none, some,
  if◌then◌else◌, str_eq, eq_iff, contains, Bool-cases, inl, inr,
}
use commit_ci_preflight.Ordered.Order.{str_lt_irrefl, str_lt_asym, str_lt, str_lt_total}
use commit_ci_preflight.Ordered.Set.{Above-mem, Above, IsSorted, Above-trans}

abbrev pub Map {ℓ} : Type ℓ → Type ℓ
Map V = List (String × V)

module _ {ℓ} {V : Type ℓ} where
  unfoldable pub insert : String → V → Map V → Map V
  insert k v [] = (k, v) ∷ []
  insert k v ((j, w) ∷ m) =
      if str_lt k j
      then (k, v) ∷ (j, w) ∷ m
      else if str_eq j k
      then (k, v) ∷ m
      else (j, w) ∷ insert k v m

  unfoldable pub get : String → Map V → Option V
  get k [] = none
  get k ((j, w) ∷ m) = if str_eq j k then some w else get k m

  -- `get_mut(k)` followed by an assignment through the reference.
  unfoldable pub modify : String → (V → V) → Map V → Map V
  modify k f [] = []
  modify k f ((j, w) ∷ m) = if str_eq j k then (j, f w) ∷ m else (j, w) ∷ modify k f m

  abbrev pub keys : Map V → List String
  keys [] = []
  keys ((k, v) ∷ m) = k ∷ keys m

  abbrev pub values : Map V → List V
  values [] = []
  values ((k, v) ∷ m) = v ∷ values m

  pub get-insert :
      (k j : String) (v : V) (m : Map V)
      → get j (insert k v m) ≡ (if str_eq k j then some v else get j m)
  unfolding insert get
  get-insert k j v [] = refl
  get-insert k j v ((i, w) ∷ m) =
      ground (arith, eq_iff k j, eq_iff i k, eq_iff i j, get-insert k j v m)

  pub contains-keys-insert :
      (k j : String) (v : V) (m : Map V)
      → contains (keys (insert k v m)) j ≡ (str_eq k j || contains (keys m) j)
  unfolding insert
  contains-keys-insert k j v [] = refl
  contains-keys-insert k j v ((i, w) ∷ m) =
      ground (arith, eq_iff k j, eq_iff i k, eq_iff i j, contains-keys-insert k j v m)

  abbrev pub present : Option V → Bool
  present none = false
  present (some v) = true

  pub contains-keys : (k : String) (m : Map V) → contains (keys m) k ≡ present (get k m)
  unfolding get
  contains-keys k [] = refl
  contains-keys k ((j, w) ∷ m) = ground (arith, contains-keys k m)

  pub get-none : (k : String) (m : Map V) → contains (keys m) k ≡ false → get k m ≡ none
  get-none k m h = ground (arith, contains-keys k m)

  Above-insert :
      (b k : String) (v : V) (m : Map V)
      → str_lt b k ≡ true
      → Above b (keys m)
      → Above b (keys (insert k v m))
  unfolding insert
  Above-insert b k v [] h a = (h, tt)
  Above-insert b k v ((j, w) ∷ m) h (p, a) = elim (Bool-cases (str_lt k j)) [
    | inl below ↦ rw below (h, (p, a))
    | inr above ↦ elim (Bool-cases (str_eq j k)) [
      | inl same ↦ rw (above, same) (h, a)
      | inr other ↦ rw (above, other) (p, Above-insert b k v m h a)
    ]
  ]

  pub insert-IsSorted :
      (k : String) (v : V) (m : Map V) → IsSorted (keys m) → IsSorted (keys (insert k v m))
  unfolding insert
  insert-IsSorted k v [] h = (tt, tt)
  insert-IsSorted k v ((j, w) ∷ m) (p, h) = elim (Bool-cases (str_lt k j)) [
    | inl below ↦ rw below ((below, Above-trans k j (keys m) below p), (p, h))
    | inr above ↦ elim (Bool-cases (str_eq j k)) [
      | inl same ↦ let e : j ≡ k = (eq_iff j k).0 same in rw (above, same) (rw e at p, h)
      | inr other ↦
          let apart : str_lt j k ≡ true =
            ground (arith, eq_iff j k, str_lt_total k j, Bool-cases (str_lt j k)) in
          rw (above, other) (Above-insert j k v m apart p, insert-IsSorted k v m h)
    ]
  ]

  -- A write to a key that is there leaves the keys as they are.
  pub keys-insert_present :
      (k : String) (w : V) (m : Map V)
      → IsSorted (keys m)
      → {v : V} → get k m ≡ some v
      → keys (insert k w m) ≡ keys m
  unfolding insert get
  keys-insert_present k w [] h found = absurd (cc)
  keys-insert_present k w ((j, u) ∷ m) (above, h) {v} found = elim (Bool-cases (str_eq j k)) [
    | inl same ↦
        let e : j ≡ k = (eq_iff j k).0 same in rw e (ground (arith, str_lt_irrefl k, eq_refl k))
    | inr other ↦
        let later : get k m ≡ some v = rw other at found in
        let below : str_lt j k ≡ true =
          Above-mem j k (keys m) above (ground (arith, contains-keys k m)) in
        rw (str_lt_asym j k below)
          (rw other (ap (λ ks. j ∷ ks) (keys-insert_present k w m h {v = v} later)))
  ]
