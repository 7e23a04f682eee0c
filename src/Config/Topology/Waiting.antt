-- ===== src/Config/Topology/Waiting.antt =====
-- How many of a check's dependencies are still to come.
use commit_ci_preflight.Prelude.{
  ℕ, suc, ◌+◌, ◌<◌, String, Bool, true, false, ◌||◌, ◌≡◌, refl, List, [], ◌∷◌, ◌++◌, arith,
  if◌then◌else◌, str_eq, eq_iff, length, contains, contains-append, Bool-cases, inl, inr, all,
}
use commit_ci_preflight.Ordered.Set.{IsSorted, Above-contains}

-- The number of the ids `xs` that are not among `done`.
pub waiting : List String → List String → ℕ
waiting done [] = 0
waiting done (x ∷ xs) = let rest = waiting done xs in if contains done x then rest else suc rest

abbrev pub one_if : Bool → ℕ
one_if true = 1
one_if false = 0

abbrev pub push : List String → String → List String
push done id = done ++ id ∷ []

pub contains-push :
    (done : List String) (id j : String)
    → contains (push done id) j ≡ (contains done j || str_eq id j)
contains-push done id j = ground (arith, contains-append done (id ∷ []) j)

pub waiting-nil : (xs : List String) → waiting [] xs ≡ length xs
unfolding waiting
waiting-nil [] = refl
waiting-nil (x ∷ xs) = omega (arith, waiting-nil xs)

waiting-push_absent :
    (done xs : List String) (id : String)
    → contains xs id ≡ false
    → waiting (push done id) xs ≡ waiting done xs
unfolding waiting
waiting-push_absent done [] id h = refl
waiting-push_absent done (x ∷ xs) id h =
    ground
      (arith, contains-push done id x, eq_iff id x, eq_iff x id, waiting-push_absent done xs id)

-- One more id done: one dependency fewer to wait for, where it is a dependency.
pub waiting-push :
    (done xs : List String) (id : String)
    → IsSorted xs
    → contains done id ≡ false
    → waiting done xs ≡ waiting (push done id) xs + one_if (contains xs id)
unfolding waiting
waiting-push done [] id h fresh = omega arith
waiting-push done (x ∷ xs) id (above, h) fresh = elim (Bool-cases (str_eq x id)) [
  | inl same ↦
      let e : x ≡ id = (eq_iff x id).0 same in
      ground (
        arith,
        contains-push done id x,
        eq_iff id x,
        waiting-push_absent done xs id (rw e at (Above-contains x xs above)),
      )
  | inr other ↦
      ground
        (arith, contains-push done id x, eq_iff id x, eq_iff x id, waiting-push done xs id h fresh)
]

pub waiting-pos :
    (done xs : List String) (id : String)
    → contains xs id ≡ true
    → contains done id ≡ false
    → 0 < waiting done xs
unfolding waiting
waiting-pos done [] id h fresh = absurd (cc h)
waiting-pos done (x ∷ xs) id h fresh = ground (arith, eq_iff x id, waiting-pos done xs id)

-- Nothing to wait for: all are done.
pub all_done : (done xs : List String) → waiting done xs ≡ 0 → all (contains done) xs ≡ true
unfolding waiting
all_done done [] h = refl
all_done done (x ∷ xs) h = ground (arith, all_done done xs)

-- Something to wait for: one that is not done.
pub some_waiting :
    (done xs : List String)
    → 0 < waiting done xs
    → (id : String) × (contains xs id ≡ true) × (contains done id ≡ false)
unfolding waiting
some_waiting done [] h = absurd (omega arith)
some_waiting done (x ∷ xs) h = elim (Bool-cases (contains done x)) [
  | inl old ↦
      let (id, listed, fresh) = some_waiting done xs (ground arith) in (id, ground arith, fresh)
  | inr new ↦ (x, ground (arith, eq_iff x x), new)
]
