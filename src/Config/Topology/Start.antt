-- ===== src/Config/Topology/Start.antt =====
-- The state before the first round, and the ids that are left in the end.
use commit_ci_preflight.Prelude.{
  ℕ, suc, String, Bool, true, false, ◌&&◌, ◌≡◌, refl, sym, ap, ◌∙◌, List, [], ◌∷◌, arith, Option,
  none, some, str_eq, eq_iff, length, contains, Bool-cases, inl, inr, ◌==◌, ltb,
}
use commit_ci_preflight.Ordered.Set.{IsSorted, Above-contains, contains-insert, insert-IsSorted}
use commit_ci_preflight.Ordered.Map
use commit_ci_preflight.Ordered.Map.{Map, contains-keys}
use commit_ci_preflight.Config.Data.{CheckConfig, NormalizedCheck}
use commit_ci_preflight.Config.Topology.{initial_indegree, ready_ids, start, blocked_ids}
use commit_ci_preflight.Config.Topology.Dependents.{deps}
use commit_ci_preflight.Config.Topology.Waiting.{waiting, waiting-nil}
use commit_ci_preflight.Config.Topology.Graph.{IsGraph, ids}
use commit_ci_preflight.Config.Topology.Round.{Inv}

keys-initial : (by_id : Map CheckConfig) → Map.keys (initial_indegree by_id) ≡ Map.keys by_id
unfolding initial_indegree
keys-initial [] = refl
keys-initial ((id, check) ∷ by_id) = ap (λ ks. id ∷ ks) (keys-initial by_id)

get-initial :
    (by_id : Map CheckConfig) (j : String)
    → contains (Map.keys by_id) j ≡ true
    → Map.get j (initial_indegree by_id) ≡ some (length (deps by_id j))
unfolding initial_indegree Map.get
get-initial [] j h = cc
get-initial ((id, check) ∷ by_id) j h = elim (Bool-cases (str_eq id j)) [
  | inl same ↦ rw same refl
  | inr other ↦ rw other (get-initial by_id j (ground arith))
]

ready_ids-IsSorted : (m : Map ℕ) → IsSorted (ready_ids m)
unfolding ready_ids
ready_ids-IsSorted [] = tt
ready_ids-IsSorted ((id, count) ∷ m) = elim (Bool-cases (count == 0)) [
  | inl e ↦ rw e (insert-IsSorted id (ready_ids m) (ready_ids-IsSorted m))
  | inr e ↦ rw e (ready_ids-IsSorted m)
]

abbrev pub has_count : (ℕ → Bool) → Option ℕ → Bool
has_count p none = false
has_count p (some n) = p n

ready_ids_absent :
    (m : Map ℕ) (j : String) → contains (Map.keys m) j ≡ false → contains (ready_ids m) j ≡ false
unfolding ready_ids
ready_ids_absent [] j h = refl
ready_ids_absent ((id, count) ∷ m) j h =
    ground (arith, ready_ids_absent m j, contains-insert id j (ready_ids m))

contains-ready_ids :
    (m : Map ℕ) (j : String)
    → IsSorted (Map.keys m)
    → contains (ready_ids m) j ≡ has_count (λ n. n == 0) (Map.get j m)
unfolding ready_ids Map.get
contains-ready_ids [] j h = refl
contains-ready_ids ((id, count) ∷ m) j (above, h) = elim (Bool-cases (str_eq id j)) [
  | inl same ↦
      let e : id ≡ j = (eq_iff id j).0 same in
      let absent = ready_ids_absent m j (rw e at (Above-contains id (Map.keys m) above)) in
      rw same (ground (arith, absent, same, contains-insert id j (ready_ids m)))
  | inr other ↦
      rw other (ground (arith, other, contains-ready_ids m j h, contains-insert id j (ready_ids m)))
]

blocked_ids_absent :
    (m : Map ℕ) (j : String) → contains (Map.keys m) j ≡ false → contains (blocked_ids m) j ≡ false
unfolding blocked_ids
blocked_ids_absent [] j h = refl
blocked_ids_absent ((id, count) ∷ m) j h = ground (arith, blocked_ids_absent m j)

pub contains-blocked_ids :
    (m : Map ℕ) (j : String)
    → IsSorted (Map.keys m)
    → contains (blocked_ids m) j ≡ has_count (ltb 0) (Map.get j m)
unfolding blocked_ids Map.get
contains-blocked_ids [] j h = refl
contains-blocked_ids ((id, count) ∷ m) j (above, h) = elim (Bool-cases (str_eq id j)) [
  | inl same ↦
      let e : id ≡ j = (eq_iff id j).0 same in
      let absent = blocked_ids_absent m j (rw e at (Above-contains id (Map.keys m) above)) in
      rw same (ground (arith, absent, same))
  | inr other ↦ rw other (ground (arith, other, contains-blocked_ids m j h))
]

has_zero :
    (by_id : Map CheckConfig) (j : String)
    → has_count (λ n. n == 0) (Map.get j (initial_indegree by_id))
      ≡ (contains (Map.keys by_id) j && (true && waiting [] (deps by_id j) == 0))
has_zero by_id j = elim (Bool-cases (contains (Map.keys by_id) j)) [
  | inl key ↦ rw (get-initial by_id j key, key, waiting-nil (deps by_id j)) refl
  | inr absent ↦
      rw (Map.get-none j (initial_indegree by_id) (rw (keys-initial by_id) absent), absent) refl
]

-- The state before the first round satisfies the invariant.
pub start-Inv : (by_id : Map CheckConfig) → IsGraph by_id → Inv by_id (start by_id)
unfolding start
start-Inv by_id g = record {
  keys = keys-initial by_id;
  counts = λ j h. get-initial by_id j h ∙ ap some (sym (waiting-nil (deps by_id j)));
  ready_sorted = ready_ids-IsSorted (initial_indegree by_id);
  ready = λ j.
      contains-ready_ids (initial_indegree by_id) j (rw (keys-initial by_id) g.sorted)
      ∙ has_zero by_id j;
  closed = λ j h. cc;
  measure = omega (arith, waiting-nil (Map.keys by_id));
  distinct = tt;
  normalised = tt;
  respects = tt;
}

pub length-keys {ℓ} : {V : Type ℓ} (m : Map V) → length (Map.keys m) ≡ length m
length-keys [] = refl
length-keys (entry ∷ m) = ap suc (length-keys m)

pub length-ids : (checks : List NormalizedCheck) → length (ids checks) ≡ length checks
length-ids [] = refl
length-ids (check ∷ checks) = ap suc (length-ids checks)
