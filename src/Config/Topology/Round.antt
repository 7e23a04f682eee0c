-- ===== src/Config/Topology/Round.antt =====
-- The outer loop: its invariant, and that each round keeps it.
use commit_ci_preflight.Prelude.{
  ℕ, zero, suc, ◌+◌, ◌-◌, String, Bool, true, false, not, ◌&&◌, ◌||◌, ◌≡◌, refl, sym, ap, ◌∙◌, List,
  [], ◌∷◌, arith, some, str_eq, eq_iff, eq_refl, length, contains, Bool-cases, inl, inr, ◌==◌,
}
use commit_ci_preflight.Ordered.Set.{Above, IsSorted, Above-contains}
use commit_ci_preflight.Ordered.Map
use commit_ci_preflight.Ordered.Map.{Map, contains-keys}
use commit_ci_preflight.Config.Data.{CheckConfig}
use commit_ci_preflight.Config.Topology.{Kahn, collect_dependents}
use commit_ci_preflight.Config.Topology.Dependents.{deps, children, contains-children}
use commit_ci_preflight.Config.Topology.Waiting.{
  push, waiting, one_if, contains-push, waiting-push, waiting-pos,
}
use commit_ci_preflight.Config.Topology.Graph.{IsGraph, ids, Respects, AreDistinct, Normalised}
use commit_ci_preflight.Config.Topology.Release.{lowered, is_one, CanRelease}

-- What holds between two rounds. `ids s.ordered` are the checks done.
pub record Inv (by_id : Map CheckConfig) (s : Kahn) : Type 0 where
  pub keys : Map.keys s.indegree ≡ Map.keys by_id
  pub counts :
      (j : String)
      → contains (Map.keys by_id) j ≡ true
      → Map.get j s.indegree ≡ some (waiting (ids s.ordered) (deps by_id j))
  pub ready_sorted : IsSorted s.ready
  pub ready :
      (j : String)
      → contains s.ready j ≡ (
          contains (Map.keys by_id) j
          && (not (contains (ids s.ordered) j) && waiting (ids s.ordered) (deps by_id j) == 0))
  pub closed :
      (j : String)
      → contains (ids s.ordered) j ≡ true
      → (contains (Map.keys by_id) j ≡ true) × (waiting (ids s.ordered) (deps by_id j) ≡ 0)
  pub measure :
      length (ids s.ordered) + waiting (ids s.ordered) (Map.keys by_id) ≡ length (Map.keys by_id)
  pub distinct : AreDistinct (ids s.ordered)
  pub normalised : Normalised by_id s.ordered
  pub respects : Respects [] s.ordered

pub length-push : (xs : List String) (id : String) → length (push xs id) ≡ suc (length xs)
length-push [] id = refl
length-push (x ∷ xs) id = ap suc (length-push xs id)

abbrev pub below : Map CheckConfig → String → List String
below by_id id = children (collect_dependents by_id []) id

lowered-waiting : (b : Bool) (n m : ℕ) → n ≡ m + one_if b → lowered b (some n) ≡ some m
lowered-waiting true zero m h = absurd (omega arith)
lowered-waiting true (suc n) m h = ap some (omega arith)
lowered-waiting false n m h = ap some (omega arith)

is_one-some : (n : ℕ) → is_one (some n) ≡ (n == 1)
is_one-some zero = refl
is_one-some (suc zero) = refl
is_one-some (suc (suc n)) = ground arith

ready_bool :
    (same rest key old child one : Bool) (n m : ℕ)
    → (same || rest) ≡ (key && (not old && n == 0))
    → (same ≡ true → rest ≡ false)
    → (same ≡ true → child ≡ false)
    → (child ≡ true → key ≡ true)
    → (child ≡ true → one ≡ (n == 1))
    → (child ≡ true → old ≡ false)
    → n ≡ m + one_if child
    → (rest || (child && one)) ≡ (key && (not (old || same) && m == 0))
ready_bool true rest key old child one n m a b c d e f h = ground (arith, b refl, c refl)
ready_bool false rest key old true one n m a b c d e f h = ground (arith, d refl, e refl, f refl)
ready_bool false rest key old false one n m a b c d e f h = ground arith

-- Only a check of the graph has dependencies.
pub deps-key :
    (by_id : Map CheckConfig) (j d : String)
    → contains (deps by_id j) d ≡ true
    → contains (Map.keys by_id) j ≡ true
deps-key by_id j d h = ground (arith, contains-keys j by_id)

pub config_of :
    (by_id : Map CheckConfig) (id : String)
    → contains (Map.keys by_id) id ≡ true
    → (config : CheckConfig) × (Map.get id by_id ≡ some config)
config_of by_id id h = ground (arith, contains-keys id by_id)

-- The facts about one round: `id` is taken from the ready set, and `rest` stays.
module _ (by_id : Map CheckConfig) (g : IsGraph by_id) (s : Kahn) (inv : Inv by_id s) (id : String)
    (rest : List String) (e : s.ready ≡ id ∷ rest) where
  pub taken :
      (contains (Map.keys by_id) id ≡ true)
      × (contains (ids s.ordered) id ≡ false)
      × (waiting (ids s.ordered) (deps by_id id) ≡ 0)
  taken = ground (arith, inv.ready id, eq_refl id, ap (λ (r : List String). contains r id) e)

  step :
      (j : String)
      → waiting (ids s.ordered) (deps by_id j)
        ≡ waiting (push (ids s.ordered) id) (deps by_id j) + one_if (contains (deps by_id j) id)
  step j = waiting-push (ids s.ordered) (deps by_id j) id (g.deps_sorted j) taken.1

  pub IsSorted-ready : Above id rest × IsSorted rest
  IsSorted-ready = rw e at inv.ready_sorted

  -- A check that waits for `id` is not done.
  child_fresh :
      (j : String) → contains (deps by_id j) id ≡ true → contains (ids s.ordered) j ≡ false
  child_fresh j h =
      ground (arith, inv.closed j, waiting-pos (ids s.ordered) (deps by_id j) id h taken.1)

  pub can : CanRelease (below by_id id) s.indegree
  can c h =
      let child : contains (deps by_id c) id ≡ true =
        rw (contains-children by_id id c g.sorted) at h in
      let pos = waiting-pos (ids s.ordered) (deps by_id c) id child taken.1 in
      let n = waiting (ids s.ordered) (deps by_id c) in
      (n - 1, inv.counts c (deps-key by_id c id child) ∙ ap some (omega arith))

  pub ready_next :
      (j : String)
      → (contains rest j || (contains (deps by_id j) id && is_one (Map.get j s.indegree))) ≡ (
          contains (Map.keys by_id) j
          && (not (contains (push (ids s.ordered) id) j)
              && waiting (push (ids s.ordered) id) (deps by_id j) == 0))
  ready_next j = rw (contains-push (ids s.ordered) id j) (
      ready_bool (str_eq id j) (contains rest j) (contains (Map.keys by_id) j)
        (contains (ids s.ordered) j) (contains (deps by_id j) id) (is_one (Map.get j s.indegree))
        (waiting (ids s.ordered) (deps by_id j)) (waiting (push (ids s.ordered) id) (deps by_id j))
        (ap (λ (r : List String). contains r j) (sym e) ∙ inv.ready j)
        (λ same. rw ((eq_iff id j).0 same) at (Above-contains id rest IsSorted-ready.0))
        (λ same. rw (← (eq_iff id j).0 same) (g.no_self id)) (λ child. deps-key by_id j id child)
        (λ child. rw (inv.counts j (deps-key by_id j id child)) (is_one-some _))
        (λ child. child_fresh j child) (step j))

  pub counts_next :
      (j : String)
      → contains (Map.keys by_id) j ≡ true
      → lowered (contains (deps by_id j) id) (Map.get j s.indegree)
        ≡ some (waiting (push (ids s.ordered) id) (deps by_id j))
  counts_next j h = rw (inv.counts j h) (lowered-waiting (contains (deps by_id j) id) _ _ (step j))

  pub closed_next :
      (j : String)
      → contains (push (ids s.ordered) id) j ≡ true
      → (contains (Map.keys by_id) j ≡ true)
        × (waiting (push (ids s.ordered) id) (deps by_id j) ≡ 0)
  closed_next j h = elim (Bool-cases (str_eq id j)) [
    | inl same ↦
        let at_j : id ≡ j = (eq_iff id j).0 same in
        rw (← at_j) (taken.0, ground (arith, step id, taken))
    | inr other ↦
        let old : contains (ids s.ordered) j ≡ true =
          ground (arith, contains-push (ids s.ordered) id j) in
        ((inv.closed j old).0, ground (arith, step j, inv.closed j old))
  ]

  pub measure_next :
      length (push (ids s.ordered) id) + waiting (push (ids s.ordered) id) (Map.keys by_id)
      ≡ length (Map.keys by_id)
  measure_next = ground (
    arith,
    inv.measure,
    length-push (ids s.ordered) id,
    taken,
    waiting-push (ids s.ordered) (Map.keys by_id) id g.sorted taken.1,
  )
