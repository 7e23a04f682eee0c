-- ===== src/Config/Topology/Graph.antt =====
-- The checks as a graph, and what a list of checks must satisfy to be a run order.
use commit_ci_preflight.Prelude.{
  String, true, false, ◌≡◌, refl, List, [], ◌∷◌, ◌++◌, arith, some, eq_iff, contains, all,
}
use mathlib.Core.List.{append-nil, append_assoc}
use commit_ci_preflight.Ordered.Set.{IsSorted}
use commit_ci_preflight.Ordered.Map
use commit_ci_preflight.Ordered.Map.{Map}
use commit_ci_preflight.Config.Data.{CheckConfig, NormalizedCheck}
use commit_ci_preflight.Config.Topology.{normalize_check}
use commit_ci_preflight.Config.Topology.Dependents.{deps}
use commit_ci_preflight.Config.Topology.Waiting.{push, contains-push}

-- Checks keyed by their ids, whose dependencies are other checks, each named once.
pub record IsGraph (by_id : Map CheckConfig) : Type 0 where
  pub sorted : IsSorted (Map.keys by_id)
  pub named : (j : String) (check : CheckConfig) → Map.get j by_id ≡ some check → check.id ≡ j
  pub deps_sorted : (j : String) → IsSorted (deps by_id j)
  pub known : (j d : String) → contains (deps by_id j) d ≡ true → contains (Map.keys by_id) d ≡ true
  pub no_self : (j : String) → contains (deps by_id j) j ≡ false

abbrev pub ids : List NormalizedCheck → List String
ids [] = []
ids (check ∷ checks) = check.id ∷ ids checks

pub ids-push :
    (checks : List NormalizedCheck) (check : NormalizedCheck)
    → ids (checks ++ check ∷ []) ≡ push (ids checks) check.id
ids-push [] check = refl
ids-push (first ∷ checks) check = rw (ids-push checks check) refl

-- Every check comes after all of its dependencies, given that those of `seen` come before.
abbrev pub Respects : List String → List NormalizedCheck → Type 0
Respects seen [] = Unit
Respects seen (check ∷ checks) =
    (all (contains seen) check.depends_on ≡ true) × Respects (push seen check.id) checks

pub Respects-push :
    (seen : List String) (checks : List NormalizedCheck) (check : NormalizedCheck)
    → Respects seen checks
    → all (contains (seen ++ ids checks)) check.depends_on ≡ true
    → Respects seen (checks ++ check ∷ [])
Respects-push seen [] check h last = (rw append-nil at last, tt)
Respects-push seen (first ∷ checks) check (p, h) last = (
  p,
  Respects-push (push seen first.id) checks check h
      (rw (append_assoc seen (first.id ∷ []) (ids checks)) last),
)

-- No id is listed twice.
abbrev pub AreDistinct : List String → Type 0
AreDistinct [] = Unit
AreDistinct (x ∷ xs) = (contains xs x ≡ false) × AreDistinct xs

pub AreDistinct-push :
    (xs : List String) (id : String)
    → AreDistinct xs
    → contains xs id ≡ false
    → AreDistinct (push xs id)
AreDistinct-push [] id h fresh = (refl, tt)
AreDistinct-push (x ∷ xs) id (p, h) fresh = (
  ground (arith, contains-push xs id x, eq_iff id x, eq_iff x id),
  AreDistinct-push xs id h (ground arith),
)

-- Each listed check is the normal form of the check that the graph has under its id.
abbrev pub Normalised : Map CheckConfig → List NormalizedCheck → Type 0
Normalised by_id [] = Unit
Normalised by_id (check ∷ checks) =
    ((config : CheckConfig) × (Map.get check.id by_id ≡ some config)
      × (check ≡ normalize_check config))
    × Normalised by_id checks

pub Normalised-push :
    (by_id : Map CheckConfig) (checks : List NormalizedCheck) (check : NormalizedCheck)
    → Normalised by_id checks
    → (config : CheckConfig) × (Map.get check.id by_id ≡ some config)
      × (check ≡ normalize_check config)
    → Normalised by_id (checks ++ check ∷ [])
Normalised-push by_id [] check h new = (new, tt)
Normalised-push by_id (first ∷ checks) check (p, h) new =
    (p, Normalised-push by_id checks check h new)

-- A run order of the graph: every check once, after its dependencies.
pub record IsRunOrder (by_id : Map CheckConfig) (checks : List NormalizedCheck) : Type 0 where
  pub distinct : AreDistinct (ids checks)
  pub complete : (j : String) → contains (ids checks) j ≡ contains (Map.keys by_id) j
  pub normalised : Normalised by_id checks
  pub respects : Respects [] checks

-- Ids that all wait for one another: each has a dependency among them.
pub record IsBlocked (by_id : Map CheckConfig) (blocked : List String) : Type 0 where
  pub some_id : (j : String) × (contains blocked j ≡ true)
  pub listed : (j : String) → contains blocked j ≡ true → contains (Map.keys by_id) j ≡ true
  pub waits :
      (j : String)
      → contains blocked j ≡ true
      → (d : String) × (contains (deps by_id j) d ≡ true) × (contains blocked d ≡ true)
