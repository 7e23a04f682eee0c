-- ===== src/Config/Topology/Order.antt =====
-- `topological_checks` gives a run order, or reports checks that wait for one another.
use commit_ci_preflight.Prelude.{
  suc, ◌<◌, String, true, false, ◌&&◌, ◌≡◌, ◌≢◌, refl, ap, ◌∙◌, List, [], arith, some, length,
  contains, Bool-cases, inl, inr, ◌⊎◌, ◌==◌, ==_iff, ltb, Bool-ext,
}
use commit_ci_preflight.Outcome.{ok, err}
use commit_ci_preflight.Ordered.Map
use commit_ci_preflight.Ordered.Map.{Map}
use commit_ci_preflight.Config.Data.{CheckConfig, NormalizedCheck}
use commit_ci_preflight.Config.Failure.{dependency_cycle}
use commit_ci_preflight.Config.Topology.{Kahn, start, blocked_ids, conclude, topological_checks}
use commit_ci_preflight.Config.Topology.Dependents.{deps}
use commit_ci_preflight.Config.Topology.Waiting.{waiting, some_waiting, waiting-pos}
use commit_ci_preflight.Config.Topology.Graph.{IsGraph, ids, IsRunOrder, IsBlocked}
use commit_ci_preflight.Config.Topology.Round.{Inv}
use commit_ci_preflight.Config.Topology.Progress.{drain-Inv}
use commit_ci_preflight.Config.Topology.Start.{
  has_count, contains-blocked_ids, start-Inv, length-keys, length-ids,
}

-- What the result says of the graph: an order, or a set of checks that block one another.
abbrev pub IsVerdictOn : Map CheckConfig → Kahn → Type 0
IsVerdictOn by_id s =
    IsRunOrder by_id s.ordered × (conclude by_id (some s) ≡ ok s.ordered)
    ⊎ IsBlocked by_id (blocked_ids s.indegree)
      × (conclude by_id (some s) ≡ err (dependency_cycle (blocked_ids s.indegree)))

module _ (by_id : Map CheckConfig) (g : IsGraph by_id) (s : Kahn) (inv : Inv by_id s) where
  blocked_iff :
      (j : String)
      → contains (blocked_ids s.indegree) j
        ≡ (contains (Map.keys by_id) j && ltb 0 (waiting (ids s.ordered) (deps by_id j)))
  blocked_iff j = contains-blocked_ids s.indegree j (rw inv.keys g.sorted) ∙ by_key (Bool-cases _)
    where
      by_key :
          (contains (Map.keys by_id) j ≡ true) ⊎ (contains (Map.keys by_id) j ≡ false)
          → has_count (ltb 0) (Map.get j s.indegree)
            ≡ (contains (Map.keys by_id) j && ltb 0 (waiting (ids s.ordered) (deps by_id j)))
      by_key (inl key) = rw (inv.counts j key, key) refl
      by_key (inr absent) = rw (Map.get-none j s.indegree (rw inv.keys absent), absent) refl

  finished :
      length s.ordered ≡ length by_id
      → (j : String) → contains (ids s.ordered) j ≡ contains (Map.keys by_id) j
  finished full j =
      Bool-ext (contains (ids s.ordered) j) (contains (Map.keys by_id) j)
        (λ done. (inv.closed j done).0)
        (λ key. elim (Bool-cases (contains (ids s.ordered) j)) [
          | inl done ↦ done
          | inr missing ↦ absurd (
              omega (
                arith,
                waiting-pos (ids s.ordered) (Map.keys by_id) j key missing,
                inv.measure,
                full,
                length-ids s.ordered,
                length-keys by_id,
              ))
        ])

  module _ (idle : s.ready ≡ []) where
    -- With nothing ready, a check that is not done is blocked.
    stuck :
        (j : String)
        → contains (Map.keys by_id) j ≡ true
        → contains (ids s.ordered) j ≡ false
        → contains (blocked_ids s.indegree) j ≡ true
    stuck j key missing =
        ground (arith, blocked_iff j, inv.ready j, ap (λ (r : List String). contains r j) idle)

    IsBlocked-if : length s.ordered ≢ length by_id → IsBlocked by_id (blocked_ids s.indegree)
    IsBlocked-if short =
        let left : 0 < waiting (ids s.ordered) (Map.keys by_id) =
          omega (arith, inv.measure, short, length-ids s.ordered, length-keys by_id) in
        let (first, key, missing) = some_waiting (ids s.ordered) (Map.keys by_id) left in
        record {
          some_id = (first, stuck first key missing);
          listed = λ j h. ground (arith, blocked_iff j);
          waits = λ j h.
              let pos : 0 < waiting (ids s.ordered) (deps by_id j) =
                ground (arith, blocked_iff j) in
              let (d, needed, later) = some_waiting (ids s.ordered) (deps by_id j) pos in
              (d, needed, stuck d (g.known j d needed) later);
        }

    pub verdict : IsVerdictOn by_id s
    verdict = elim (Bool-cases (length s.ordered == length by_id)) [
      | inl full ↦ inl (
        record {
          distinct = inv.distinct;
          complete = finished ((==_iff _ _).0 full);
          normalised = inv.normalised;
          respects = inv.respects;
        },
        rw full refl,
      )
      | inr short ↦ inr (IsBlocked-if (λ e. ground (arith, e, short)), rw short refl)
    ]

-- Of checks whose dependencies are known, topological_checks returns a run order, or it reports a
-- dependency cycle with a set of ids each of which depends on another of the set; it never panics.
pub topological_checks_verdict :
    (by_id : Map CheckConfig)
    → IsGraph by_id
    → ((checks : List NormalizedCheck) × (topological_checks by_id ≡ ok checks)
        × IsRunOrder by_id checks)
      ⊎ ((blocked : List String) × (topological_checks by_id ≡ err (dependency_cycle blocked))
          × IsBlocked by_id blocked)
unfolding topological_checks
topological_checks_verdict by_id g =
    let inv = start-Inv by_id g in
    let enough : waiting (ids (start by_id).ordered) (Map.keys by_id) < suc (length by_id) =
      omega (arith, inv.measure, length-keys by_id) in
    let (s', ended, last, idle) = drain-Inv by_id g (suc (length by_id)) (start by_id) inv enough in
    elim (verdict by_id g s' last idle) [
      | inl (order, e) ↦ inl (s'.ordered, rw ended e, order)
      | inr (blocked, e) ↦ inr (blocked_ids s'.indegree, rw ended e, blocked)
    ]
