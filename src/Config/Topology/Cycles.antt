-- ===== src/Config/Topology/Cycles.antt =====
-- A reported cycle is a real one: no run order exists.
use commit_ci_preflight.Prelude.{
  String, true, false, ◌≡◌, refl, sym, ap, ◌∙◌, List, [], ◌∷◌, arith, some, contains, Bool-cases,
  inl, inr, all, eq_iff, some, ◌↔◌,
}
use commit_ci_preflight.Outcome.{ok}
use commit_ci_preflight.Ordered.Map
use commit_ci_preflight.Ordered.Map.{Map}
use commit_ci_preflight.Config.Data.{CheckConfig, NormalizedCheck}
use commit_ci_preflight.Config.Topology.{topological_checks, normalize_check}
use commit_ci_preflight.Config.Topology.Dependents.{dependencies}
use commit_ci_preflight.Config.Topology.Waiting.{push, contains-push}
use commit_ci_preflight.Config.Topology.Graph.{
  IsGraph, ids, IsRunOrder, IsBlocked, Respects, Normalised,
}
use commit_ci_preflight.Config.Topology.Order.{topological_checks_verdict}

all-contains :
    (seen xs : List String) (d : String)
    → all (contains seen) xs ≡ true
    → contains xs d ≡ true
    → contains seen d ≡ true
all-contains seen [] d h k = cc
all-contains seen (x ∷ xs) d h k = ground (arith, all-contains seen xs d, eq_iff x d)

abbrev Apart : List String → List String → Type 0
Apart blocked xs = (d : String) → contains blocked d ≡ true → contains xs d ≡ false

module _ (by_id : Map CheckConfig) (blocked : List String) (b : IsBlocked by_id blocked) where
  -- A check whose dependencies were all seen is not blocked, if nothing seen is.
  not_blocked :
      (seen : List String) (check : NormalizedCheck) (config : CheckConfig)
      → Apart blocked seen
      → Map.get check.id by_id ≡ some config
      → check ≡ normalize_check config
      → all (contains seen) check.depends_on ≡ true
      → contains blocked check.id ≡ false
  not_blocked seen check config apart found same ready =
      elim (Bool-cases (contains blocked check.id)) [
        | inr free ↦ free
        | inl held ↦
            let (d, needed, waiting) = b.waits check.id held in
            let own : contains check.depends_on d ≡ true =
              ap (λ (c : NormalizedCheck). contains c.depends_on d) same
              ∙ (ap (λ o. contains (dependencies o) d) (sym found) ∙ needed) in
            cc (apart d waiting, all-contains seen check.depends_on d ready own)
      ]

  run-Apart :
      (seen : List String) (checks : List NormalizedCheck)
      → Apart blocked seen
      → Normalised by_id checks
      → Respects seen checks
      → Apart blocked (ids checks)
  run-Apart seen [] apart n r d h = refl
  run-Apart seen (check ∷ checks) apart ((config, found, same), n) (ready, r) d h =
      let free = not_blocked seen check config apart found same ready in
      let next : Apart blocked (push seen check.id) =
        λ e k. ground (arith, contains-push seen check.id e, apart e k, eq_iff check.id e) in
      let later = run-Apart (push seen check.id) checks next n r d h in
      ground (arith, eq_iff check.id d)

  pub no-IsRunOrder : (checks : List NormalizedCheck) → ¬ IsRunOrder by_id checks
  no-IsRunOrder checks order =
      let (j, held) = b.some_id in
      let apart = run-Apart [] checks (λ d h. refl) order.normalised order.respects j held in
      cc (apart, order.complete j, b.listed j held)

-- Of checks whose dependencies are known, topological_checks succeeds exactly when some run order
-- exists.
pub topological_checks_iff :
    (by_id : Map CheckConfig)
    → IsGraph by_id
    → ((checks : List NormalizedCheck) × (topological_checks by_id ≡ ok checks))
      ↔ ((checks : List NormalizedCheck) × IsRunOrder by_id checks)
topological_checks_iff by_id g = elim (topological_checks_verdict by_id g) [
  | inl (checks, e, order) ↦ ((λ h. (checks, order)), λ h. (checks, e))
  | inr (blocked, e, b) ↦
      ((λ h. absurd (cc (e, h.1))), λ h. absurd (no-IsRunOrder by_id blocked b h.0 h.1))
]
