-- ===== src/Ordered/Set.antt =====
-- `BTreeSet<String>` as its ascending list of elements.
use commit_ci_preflight.Prelude.{
  String, true, false, ◌||◌, ◌≡◌, refl, List, [], ◌∷◌, arith, if◌then◌else◌, str_eq, eq_iff,
  contains, Bool-cases, inl, inr,
}
use mathlib.Core.Path.{ap₂}
use commit_ci_preflight.Ordered.Order.{
  str_lt, str_lt_irrefl, str_lt_trans, str_lt_total, str_lt-ne, str_lt_asym,
}

-- `BTreeSet::insert`; that it returned false is `contains` beforehand.
unfoldable pub insert : String → List String → List String
insert a [] = a ∷ []
insert a (x ∷ xs) =
    if str_lt a x then a ∷ x ∷ xs else if str_eq x a then x ∷ xs else x ∷ insert a xs

pub contains-insert :
    (a s : String) (xs : List String) → contains (insert a xs) s ≡ (str_eq a s || contains xs s)
unfolding insert
contains-insert a s [] = refl
contains-insert a s (x ∷ xs) =
    ground (arith, contains-insert a s xs, eq_iff x a, eq_iff a s, eq_iff x s)

-- `extend`, and `collect` from the empty set.
unfoldable pub extend : List String → List String → List String
unfolding insert
extend set [] = set
extend set (x ∷ xs) = extend (insert x set) xs

-- Every element of `xs` lies above `a`.
abbrev pub Above : String → List String → Type 0
Above a [] = Unit
Above a (x ∷ xs) = (str_lt a x ≡ true) × Above a xs

abbrev pub IsSorted : List String → Type 0
IsSorted [] = Unit
IsSorted (x ∷ xs) = Above x xs × IsSorted xs

pub Above-trans : (a b : String) (xs : List String) → str_lt a b ≡ true → Above b xs → Above a xs
Above-trans a b [] h k = tt
Above-trans a b (x ∷ xs) h (p, k) = (str_lt_trans a b x h p, Above-trans a b xs h k)

pub Above-contains : (a : String) (xs : List String) → Above a xs → contains xs a ≡ false
Above-contains a [] h = refl
Above-contains a (x ∷ xs) (p, h) =
    ground (arith, Above-contains a xs h, eq_iff x a, str_lt-ne a x p, str_lt_irrefl a)

pub Above-mem :
    (a b : String) (xs : List String) → Above a xs → contains xs b ≡ true → str_lt a b ≡ true
Above-mem a b [] h k = cc
Above-mem a b (x ∷ xs) (p, h) k = ground (arith, eq_iff x b, Above-mem a b xs h)

Above-insert :
    (b a : String) (xs : List String) → str_lt b a ≡ true → Above b xs → Above b (insert a xs)
unfolding insert
Above-insert b a [] h k = (h, tt)
Above-insert b a (x ∷ xs) h (p, k) = elim (Bool-cases (str_lt a x)) [
  | inl below ↦ rw below (h, (p, k))
  | inr above ↦ elim (Bool-cases (str_eq x a)) [
    | inl same ↦ rw (above, same) (p, k)
    | inr other ↦ rw (above, other) (p, Above-insert b a xs h k)
  ]
]

pub insert-IsSorted : (a : String) (xs : List String) → IsSorted xs → IsSorted (insert a xs)
unfolding insert
insert-IsSorted a [] h = (tt, tt)
insert-IsSorted a (x ∷ xs) (p, h) = elim (Bool-cases (str_lt a x)) [
  | inl below ↦ rw below ((below, Above-trans a x xs below p), (p, h))
  | inr above ↦ elim (Bool-cases (str_eq x a)) [
    | inl same ↦ rw (above, same) (p, h)
    | inr other ↦
        let apart : str_lt x a ≡ true =
          ground (arith, eq_iff x a, str_lt_total a x, Bool-cases (str_lt x a)) in
        rw (above, other) (Above-insert x a xs apart p, insert-IsSorted a xs h)
  ]
]

pub extend-IsSorted : (set xs : List String) → IsSorted set → IsSorted (extend set xs)
unfolding extend
extend-IsSorted set [] h = h
extend-IsSorted set (x ∷ xs) h = extend-IsSorted (insert x set) xs (insert-IsSorted x set h)

pub contains-extend :
    (set xs : List String) (s : String)
    → contains (extend set xs) s ≡ (contains set s || contains xs s)
unfolding extend
contains-extend set [] s = ground arith
contains-extend set (x ∷ xs) s =
    ground (arith, contains-extend (insert x set) xs s, contains-insert x s set)

abbrev pub SameMembers : List String → List String → Type 0
SameMembers xs ys = (s : String) → contains xs s ≡ contains ys s

pub heads_equal :
    (x y : String) (xs ys : List String)
    → IsSorted (x ∷ xs)
    → IsSorted (y ∷ ys)
    → SameMembers (x ∷ xs) (y ∷ ys)
    → x ≡ y
heads_equal x y xs ys (p, h) (q, k) same = elim (Bool-cases (str_eq x y)) [
  | inl e ↦ (eq_iff x y).0 e
  | inr apart ↦
      let below : str_lt y x ≡ true =
        Above-mem y x ys q (ground (arith, same x, eq_iff x x, eq_iff y x, eq_iff x y)) in
      let above : str_lt x y ≡ true =
        Above-mem x y xs p (ground (arith, same y, eq_iff y y, eq_iff x y)) in
      absurd (ground (arith, str_lt_asym x y above))
]

-- Sets with the same members are equal.
pub IsSorted-ext : (xs ys : List String) → IsSorted xs → IsSorted ys → SameMembers xs ys → xs ≡ ys
IsSorted-ext [] [] h k same = refl
IsSorted-ext [] (y ∷ ys) h k same = absurd (ground (arith, same y, eq_iff y y))
IsSorted-ext (x ∷ xs) [] h k same = absurd (ground (arith, same x, eq_iff x x))
IsSorted-ext (x ∷ xs) (y ∷ ys) (p, h) (q, k) same =
    let e = heads_equal x y xs ys (p, h) (q, k) same in
    let rest : SameMembers xs ys = λ s.
      ground
        (arith, same s, e, eq_iff x s, eq_iff y s, Above-contains x xs p, Above-contains y ys q) in
    ap₂ ◌∷◌ e (IsSorted-ext xs ys h k rest)
