-- ===== src/Config/Topology/Release.antt =====
-- The inner loop: what `release` does to the counts and to the ready set.
use commit_ci_preflight.Prelude.{
  ℕ, zero, suc, String, Bool, true, false, ◌&&◌, ◌||◌, ◌≡◌, refl, ◌∙◌, List, [], ◌∷◌, arith, Option,
  some, if◌then◌else◌, str_eq, eq_iff, eq_refl, contains, Bool-cases, inl, inr, ◌==◌,
}
use commit_ci_preflight.Ordered.Set
use commit_ci_preflight.Ordered.Set.{
  Above, IsSorted, Above-contains, contains-insert, insert-IsSorted,
}
use commit_ci_preflight.Ordered.Map
use commit_ci_preflight.Ordered.Map.{Map, get-insert, keys-insert_present}
use commit_ci_preflight.Config.Topology.{Kahn, release}

abbrev pub lowered : Bool → Option ℕ → Option ℕ
lowered true (some (suc n)) = some n
lowered _ o = o

abbrev pub is_one : Option ℕ → Bool
is_one (some (suc zero)) = true
is_one _ = false

-- Every child has an entry with a count that is not zero.
abbrev pub CanRelease : List String → Map ℕ → Type 0
CanRelease children indegree =
    (c : String) → contains children c ≡ true → (n : ℕ) × (Map.get c indegree ≡ some (suc n))

-- The loop ended in `s'`, with the counts of the children lowered by one.
pub record Released (children : List String) (s s' : Kahn) : Type 0 where
  pub ordered : s'.ordered ≡ s.ordered
  pub keys : IsSorted (Map.keys s.indegree) → Map.keys s'.indegree ≡ Map.keys s.indegree
  pub counts :
      (j : String) → Map.get j s'.indegree ≡ lowered (contains children j) (Map.get j s.indegree)
  pub ready :
      (j : String)
      → contains s'.ready j
        ≡ (contains s.ready j || (contains children j && is_one (Map.get j s.indegree)))
  pub sorted : IsSorted s.ready → IsSorted s'.ready

abbrev lower : String → ℕ → Kahn → Kahn
lower child count s = record s {
  indegree = Map.insert child count s.indegree;
  ready = if count == 0 then Set.insert child s.ready else s.ready;
}

ready-lower :
    (child j : String) (count : ℕ) (ready : List String)
    → contains (if count == 0 then Set.insert child ready else ready) j
      ≡ (contains ready j || (str_eq child j && count == 0))
ready-lower child j count ready = ground (arith, contains-insert child j ready)

IsSorted-lower :
    (child : String) (count : ℕ) (ready : List String)
    → IsSorted ready
    → IsSorted (if count == 0 then Set.insert child ready else ready)
IsSorted-lower child count ready h = elim (Bool-cases (count == 0)) [
  | inl e ↦ rw e (insert-IsSorted child ready h)
  | inr e ↦ rw e h
]

lowered-step :
    (child j : String) (children : List String) (count : ℕ) (m : Map ℕ)
    → contains children child ≡ false
    → Map.get child m ≡ some (suc count)
    → lowered (contains children j) (if str_eq child j then some count else Map.get j m)
      ≡ lowered (str_eq child j || contains children j) (Map.get j m)
lowered-step child j children count m absent found = elim (Bool-cases (str_eq child j)) [
  | inl same ↦
      let e : child ≡ j = (eq_iff child j).0 same in
      rw same (rw (rw e at absent) (rw (rw e at found) refl))
  | inr other ↦ rw other refl
]

ready-step :
    (child j : String) (children : List String) (count : ℕ) (m : Map ℕ) (r : Bool)
    → contains children child ≡ false
    → Map.get child m ≡ some (suc count)
    → ((r || (str_eq child j && count == 0))
        || (contains children j && is_one (if str_eq child j then some count else Map.get j m)))
      ≡ (r || ((str_eq child j || contains children j) && is_one (Map.get j m)))
ready-step child j children count m r absent found = elim (Bool-cases (str_eq child j)) [
  | inl same ↦
      let e : child ≡ j = (eq_iff child j).0 same in
      rw same (rw (rw e at absent) (rw (rw e at found) (one_cases r count)))
  | inr other ↦ rw other (ground arith)
]
  where
    one_cases :
        (r : Bool) (count : ℕ) → ((r || count == 0) || false) ≡ (r || is_one (some (suc count)))
    one_cases r zero = ground arith
    one_cases r (suc n) = ground arith

-- One child released, then the others.
Released-cons :
    (child : String) (children : List String) (count : ℕ) (s s' : Kahn)
    → contains children child ≡ false
    → Map.get child s.indegree ≡ some (suc count)
    → Released children (lower child count s) s'
    → Released (child ∷ children) s s'
Released-cons child children count s s' absent found r = record {
  ordered = r.ordered;
  keys = λ h.
      let same = keys-insert_present child count s.indegree h {v = suc count} found in
      r.keys (rw same h) ∙ same;
  counts = λ j.
      r.counts j
      ∙ rw (get-insert child j count s.indegree)
          (lowered-step child j children count s.indegree absent found);
  ready = λ j.
      r.ready j
      ∙ rw (get-insert child j count s.indegree, ready-lower child j count s.ready)
          (ready-step child j children count s.indegree (contains s.ready j) absent found);
  sorted = λ h. r.sorted (IsSorted-lower child count s.ready h);
}

still_CanRelease :
    (child : String) (children : List String) (count : ℕ) (m : Map ℕ)
    → contains children child ≡ false
    → CanRelease (child ∷ children) m
    → CanRelease children (Map.insert child count m)
still_CanRelease child children count m absent can c h =
    let (n, found) = can c (ground (arith, h)) in
    let apart : str_eq child c ≡ false = ground (arith, eq_iff child c) in
    (n, rw (get-insert child c count m) (rw apart found))

-- The loop neither panics nor underflows, and lowers exactly the counts of the children.
pub release-Released :
    (children : List String) (s : Kahn)
    → IsSorted children
    → CanRelease children s.indegree
    → (s' : Kahn) × (release children s ≡ some s') × Released children s s'
unfolding release
release-Released [] s h can = (
  s,
  refl,
  record {
    ordered = refl;
    keys = λ h. refl;
    counts = λ j. refl;
    ready = λ j. ground arith;
    sorted = λ h. h;
  },
)
release-Released (child ∷ children) s (above, h) can =
    let (count, found) = can child (ground (arith, eq_refl child)) in
    let absent = Above-contains child children above in
    let (s', ended, r) =
      release-Released children (lower child count s) h
        (still_CanRelease child children count s.indegree absent can) in
    (s', rw (found, release) ended, Released-cons child children count s s' absent found r)
