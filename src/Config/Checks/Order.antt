-- ===== src/Config/Checks/Order.antt =====
-- `normalize_checks` as a whole: the order of the checks, and its errors.
use commit_ci_preflight.Prelude.{
  String, false, not, ◌||◌, ◌≡◌, refl, ◌∙◌, List, [], ◌∷◌, arith, any, contains, ltb, length,
  is_empty, ◌⊎◌, inl, inr, ◌≢◌,
}
use mathlib.Core.Path.{subst}
use commit_ci_preflight.Outcome.{
  Outcome-cases, ok, err, ◌>>=◌, ◌>>◌, reject, >>=-eq-ok, reject->>-eq-ok,
}
use commit_ci_preflight.Ordered.Map
use commit_ci_preflight.Ordered.Map.{Map, contains-keys-insert}
use commit_ci_preflight.Config.Data.{CheckConfig, NormalizedCheck, max_checks}
use commit_ci_preflight.Config.Failure.{
  ConfigError, no_checks, no_required_checks, too_many_items, dependency_cycle, panicked,
  duplicate_id, Checked,
}
use commit_ci_preflight.Config.Checks.{collect_checks, normalize_checks, admit_check}
use commit_ci_preflight.Config.Checks.Graph.{collect_checks-IsGraph}
use commit_ci_preflight.Config.Checks.Made.{
  config_ids, AreMadeFrom, collect_checks-AreDistinct, collect_checks-AreMadeFrom,
}
use commit_ci_preflight.Config.Checks.Errors.{
  is_sort_error, IsPlain, IsPlain-bind, IsPlain-reject, IsPlain-collect, IsPlain-dependencies,
}
use commit_ci_preflight.Config.Topology.{validate_dependencies, topological_checks}
use commit_ci_preflight.Config.Topology.Graph.{
  IsGraph, ids, IsRunOrder, IsBlocked, Respects, AreDistinct,
}
use commit_ci_preflight.Config.Topology.Order.{topological_checks_verdict}
use commit_ci_preflight.Config.Topology.Cycles.{no-IsRunOrder}

contains-keys-collect :
    (checks : List CheckConfig) (acc by_id : Map CheckConfig) (j : String)
    → collect_checks acc checks ≡ ok by_id
    → contains (Map.keys by_id) j ≡ (contains (Map.keys acc) j || contains (config_ids checks) j)
unfolding collect_checks
contains-keys-collect [] acc by_id j h = ground arith
contains-keys-collect (check ∷ checks) acc by_id j h =
    let (admitted, e, h1) = >>=-eq-ok (admit_check check) _ h in
    let (new, h2) =
      reject->>-eq-ok (contains (Map.keys acc) check.id) (duplicate_id "check.id" check.id)
        (collect_checks (Map.insert check.id admitted acc) checks) h1 in
    ground (
      arith,
      contains-keys-collect checks (Map.insert check.id admitted acc) by_id j h2,
      contains-keys-insert check.id j admitted acc,
    )

-- The three tests that `normalize_checks` makes before it collects the checks.
abbrev pub entry_tests : List CheckConfig → Checked (Unit {0})
entry_tests checks = do
  reject (is_empty checks) no_checks
  reject (ltb max_checks (length checks)) (too_many_items "checks" (length checks) max_checks)
  reject (not (any (λ check. check.required) checks)) no_required_checks

-- The tests, then the collected checks, then the sort.
split :
    (checks : List CheckConfig)
    → normalize_checks checks ≡ (
        entry_tests checks >>= λ u. collect_checks [] checks >>= λ by_id.
        validate_dependencies by_id >>= λ v. topological_checks by_id)
unfolding normalize_checks
split checks = ground arith

-- How the checks that passed every test are sorted.
record IsSortedFrom (checks : List CheckConfig) (r : Checked (List NormalizedCheck)) : Type 0 where
  by_id : Map CheckConfig
  collected : collect_checks [] checks ≡ ok by_id
  graph : IsGraph by_id
  sorted : topological_checks by_id ≡ r

-- The result is an error that the sort does not make.
abbrev FailsPlainly : Checked (List NormalizedCheck) → Type 0
FailsPlainly r = (e : ConfigError) × (r ≡ err e) × (is_sort_error e ≡ false)

after_collect :
    (checks : List CheckConfig) (by_id : Map CheckConfig)
    → collect_checks [] checks ≡ ok by_id
    → IsSortedFrom checks (validate_dependencies by_id >>= λ v. topological_checks by_id)
      ⊎ FailsPlainly (validate_dependencies by_id >>= λ v. topological_checks by_id)
after_collect checks by_id collected = elim (Outcome-cases (validate_dependencies by_id)) [
  | inl (u, valid) ↦ inl (record {
    by_id = by_id;
    collected = collected;
    graph = collect_checks-IsGraph checks by_id collected valid;
    sorted = rw valid refl;
  })
  | inr (e, invalid) ↦ inr (e, rw invalid refl, subst IsPlain invalid (IsPlain-dependencies by_id))
]

after_tests :
    (checks : List CheckConfig) (tests : Checked (Unit {0})) (collected : Checked (Map CheckConfig))
    → collect_checks [] checks ≡ collected
    → IsPlain tests
    → IsPlain collected
    → IsSortedFrom checks (
        tests >>= λ u.
        collected >>= λ by_id. validate_dependencies by_id >>= λ v. topological_checks by_id)
      ⊎ FailsPlainly (
          tests >>= λ u.
          collected >>= λ by_id. validate_dependencies by_id >>= λ v. topological_checks by_id)
after_tests checks (err e) collected same p q = inr (e, refl, p)
after_tests checks (ok u) (err e) same p q = inr (e, refl, q)
after_tests checks (ok u) (ok by_id) same p q = after_collect checks by_id same

sorted_or_plain :
    (checks : List CheckConfig)
    → IsSortedFrom checks (normalize_checks checks) ⊎ FailsPlainly (normalize_checks checks)
sorted_or_plain checks = rw (split checks) (
    after_tests checks (entry_tests checks) (collect_checks [] checks) refl
      (search (IsPlain-bind, IsPlain-reject) depth 8) (IsPlain-collect checks []))

-- The checks are the configured ones, each once, in a run order.
pub record AreChecksOf (configs : List CheckConfig) (checks : List NormalizedCheck) : Type 0 where
  pub configured : AreDistinct (config_ids configs)
  pub distinct : AreDistinct (ids checks)
  pub complete : (j : String) → contains (ids checks) j ≡ contains (config_ids configs) j
  pub made : AreMadeFrom configs checks
  pub respects : Respects [] checks

-- Where normalize_checks returns checks, no id is configured twice; the returned checks have
-- distinct ids, the same ids as the configured checks, and each is made from a configured check: it
-- has its id, required flag, argument vector, working directory, timeout and contracts (in their
-- order, with the check as producer), and its dependencies and artifacts in ascending order; and
-- each comes after all of its dependencies.
pub normalize_checks-AreChecksOf :
    (checks : List CheckConfig) (out : List NormalizedCheck)
    → normalize_checks checks ≡ ok out
    → AreChecksOf checks out
normalize_checks-AreChecksOf checks out h = elim (sorted_or_plain checks) [
  | inr (e, failed, plain) ↦ absurd (cc)
  | inl from ↦ elim (topological_checks_verdict from.by_id from.graph) [
    | inr (blocked, e, b) ↦ absurd (cc (e, from.sorted, h))
    | inl (found, e, order) ↦
        let same : found ≡ out = cc (e, from.sorted, h) in
        subst (AreChecksOf checks) same (record {
          configured = (collect_checks-AreDistinct checks [] from.by_id from.collected).0;
          distinct = order.distinct;
          complete =
              λ j. order.complete j ∙ contains-keys-collect checks [] from.by_id j from.collected;
          made = collect_checks-AreMadeFrom checks from.by_id found from.collected order.normalised;
          respects = order.respects;
        })
  ]
]

-- normalize_checks never panics and its loop never runs out of fuel, whatever the configured checks
-- are.
pub normalize_checks_total : (checks : List CheckConfig) → normalize_checks checks ≢ err panicked
normalize_checks_total checks h = elim (sorted_or_plain checks) [
  | inr (e, failed, plain) ↦ ground (arith, failed, plain, h)
  | inl from ↦ elim (topological_checks_verdict from.by_id from.graph) [
    | inr (blocked, e, b) ↦ cc (e, from.sorted, h)
    | inl (found, e, order) ↦ cc (e, from.sorted, h)
  ]
]

-- Where normalize_checks reports a dependency cycle, the ids that it names are collected checks,
-- each with a dependency among them, and no run order exists.
pub normalize_checks-cycle :
    (checks : List CheckConfig) (blocked : List String)
    → normalize_checks checks ≡ err (dependency_cycle blocked)
    → (by_id : Map CheckConfig) × (collect_checks [] checks ≡ ok by_id)
      × IsBlocked by_id blocked
      × ¬ ((out : List NormalizedCheck) × IsRunOrder by_id out)
normalize_checks-cycle checks blocked h = elim (sorted_or_plain checks) [
  | inr (e, failed, plain) ↦ absurd (ground (arith, failed, plain, h))
  | inl from ↦ elim (topological_checks_verdict from.by_id from.graph) [
    | inl (found, e, order) ↦ absurd (cc (e, from.sorted, h))
    | inr (named, e, b) ↦
        let same : named ≡ blocked = cc (e, from.sorted, h) in
        let held = subst (IsBlocked from.by_id) same b in
        (from.by_id, from.collected, held, λ o. no-IsRunOrder from.by_id blocked held o.0 o.1)
  ]
]
