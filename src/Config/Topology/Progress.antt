-- ===== src/Config/Topology/Progress.antt =====
-- A round keeps the invariant, and the loop ends within its fuel.
use commit_ci_preflight.Prelude.{
  ◌⊎◌, ℕ, zero, suc, ◌<◌, String, ◌≡◌, refl, sym, ap, ◌∙◌, List, [], ◌∷◌, ◌++◌, arith, some, length,
  inl, inr,
}
use mathlib.Core.Path.{subst}
use commit_ci_preflight.Ordered.Set.{IsSorted}
use commit_ci_preflight.Ordered.Map
use commit_ci_preflight.Ordered.Map.{Map}
use commit_ci_preflight.Config.Data.{CheckConfig}
use commit_ci_preflight.Config.Topology.{Kahn, normalize_check, collect_dependents, visit, drain}
use commit_ci_preflight.Config.Topology.Dependents.{contains-children, children-IsSorted}
use commit_ci_preflight.Config.Topology.Waiting.{push, waiting, all_done}
use commit_ci_preflight.Config.Topology.Graph.{
  IsGraph, ids, ids-push, Respects, Respects-push, AreDistinct-push, Normalised-push,
}
use commit_ci_preflight.Config.Topology.Release.{Released, release-Released}
use commit_ci_preflight.Config.Topology.Round.{
  length-push, Inv, below, config_of, taken, IsSorted-ready, can, ready_next, counts_next,
  closed_next, measure_next,
}

abbrev after : Kahn → List String → CheckConfig → Kahn
after s rest config = record s { ready = rest; ordered = s.ordered ++ normalize_check config ∷ [] }

module _ (by_id : Map CheckConfig) (g : IsGraph by_id) (s : Kahn) (inv : Inv by_id s) (id : String)
    (rest : List String) (e : s.ready ≡ id ∷ rest) where
  ids_after :
      (config : CheckConfig)
      → Map.get id by_id ≡ some config
      → ids (s.ordered ++ normalize_check config ∷ []) ≡ push (ids s.ordered) id
  ids_after config found =
      ids-push s.ordered (normalize_check config)
      ∙ ap (push (ids s.ordered)) (g.named id config found)

  found_own :
      (config : CheckConfig)
      → Map.get id by_id ≡ some config
      → Map.get config.id by_id ≡ some config
  found_own config found =
      subst (λ x. Map.get x by_id ≡ some config) (sym (g.named id config found)) found

  length-after :
      (config : CheckConfig) (s' : Kahn)
      → Map.get id by_id ≡ some config
      → s'.ordered ≡ s.ordered ++ normalize_check config ∷ []
      → suc (length (ids s.ordered)) ≡ length (ids s'.ordered)
  length-after config s' found same =
      sym (ap length (ap ids same ∙ ids_after config found) ∙ length-push (ids s.ordered) id)

  Respects-next :
      (config : CheckConfig)
      → Map.get id by_id ≡ some config
      → Respects [] (s.ordered ++ normalize_check config ∷ [])
  Respects-next config found =
      let (key, fresh, idle) = taken by_id g s inv id rest e in
      let idle' : waiting (ids s.ordered) config.depends_on ≡ 0 = rw found at idle in
      Respects-push [] s.ordered (normalize_check config) inv.respects
        (all_done (ids s.ordered) config.depends_on idle')

  Inv-next :
      (config : CheckConfig) (s' : Kahn)
      → Map.get id by_id ≡ some config
      → Released (below by_id id) (after s rest config) s'
      → Inv by_id s'
  Inv-next config s' found r =
      let facts = taken by_id g s inv id rest e in
      let done : ids s'.ordered ≡ push (ids s.ordered) id =
        ap ids r.ordered ∙ ids_after config found in
      let sorted_keys : IsSorted (Map.keys s.indegree) = rw inv.keys g.sorted in
      record {
        keys = r.keys sorted_keys ∙ inv.keys;
        counts = λ j h. rw done (
            r.counts j
            ∙ rw (contains-children by_id id j g.sorted) (counts_next by_id g s inv id rest e j h));
        ready_sorted = r.sorted (IsSorted-ready by_id g s inv id rest e).1;
        ready = λ j. rw done (
            r.ready j
            ∙ rw (contains-children by_id id j g.sorted) (ready_next by_id g s inv id rest e j));
        closed = λ j. rw done (closed_next by_id g s inv id rest e j);
        measure = rw done (measure_next by_id g s inv id rest e);
        distinct = rw done (AreDistinct-push (ids s.ordered) id inv.distinct facts.1);
        normalised = rw r.ordered (
            Normalised-push by_id s.ordered (normalize_check config) inv.normalised
              (config, found_own config found, refl));
        respects = rw r.ordered (Respects-next config found);
      }

  -- One round: no panic, and the invariant holds again with one more check done.
  pub visit-Inv :
      (s' : Kahn) × (visit by_id (collect_dependents by_id []) id rest s ≡ some s')
      × Inv by_id s'
      × (suc (length (ids s.ordered)) ≡ length (ids s'.ordered))
  unfolding visit
  visit-Inv =
      let facts = taken by_id g s inv id rest e in
      let (config, found) = config_of by_id id facts.0 in
      let (s', ended, r) =
        release-Released (below by_id id) (after s rest config) (children-IsSorted by_id id)
          (can by_id g s inv id rest e) in
      let inv' = Inv-next config s' found r in
      (s', rw (found, visit) ended, inv', length-after config s' found r.ordered)

List-cases :
    (xs : List String) → (xs ≡ []) ⊎ ((x : String) × (rest : List String) × (xs ≡ x ∷ rest))
List-cases [] = inl refl
List-cases (x ∷ rest) = inr (x, rest, refl)

drain_idle :
    (by_id : Map CheckConfig) (dependents : Map (List String)) (fuel : ℕ) (s : Kahn)
    → s.ready ≡ []
    → drain (suc fuel) by_id dependents s ≡ some s
unfolding drain
drain_idle by_id dependents fuel s e = ground arith

-- With more fuel than checks still to come the loop ends by an empty ready set, without a panic.
pub drain-Inv :
    (by_id : Map CheckConfig) (g : IsGraph by_id) (fuel : ℕ) (s : Kahn)
    → Inv by_id s
    → waiting (ids s.ordered) (Map.keys by_id) < fuel
    → (s' : Kahn) × (drain fuel by_id (collect_dependents by_id []) s ≡ some s')
      × Inv by_id s'
      × (s'.ready ≡ [])
unfolding drain
drain-Inv by_id g zero s inv h = absurd (omega arith)
drain-Inv by_id g (suc fuel) s inv h = elim (List-cases s.ready) [
  | inl idle ↦ (s, drain_idle by_id (collect_dependents by_id []) fuel s idle, inv, idle)
  | inr (id, rest, e) ↦
      let (next, made, inv', grown) = visit-Inv by_id g s inv id rest e in
      let (s', ended, last, idle) =
        drain-Inv by_id g fuel next inv' (omega (arith, inv.measure, inv'.measure, grown)) in
      (s', rw (e, drain) (rw made ended), last, idle)
]
