-- ===== src/Tests/Configurations.antt =====
-- Configurations of a few checks, at concrete inputs.
use commit_ci_preflight.Prelude.{String, ◌≡◌, ◌≢◌, refl, List, [], ◌∷◌, ◌↔◌, ◌⊎◌, All, contains}
use commit_ci_preflight.Outcome.{ok, err}
use commit_ci_preflight.Ordered.Map.{Map}
use commit_ci_preflight.Ordered.Set.{IsSorted}
use commit_ci_preflight.Config.Data.{CheckConfig, NormalizedCheck}
use commit_ci_preflight.Config.Failure.{dependency_cycle, panicked}
use commit_ci_preflight.Config.Fields.{unique_sorted, validate_identifier}
use commit_ci_preflight.Config.Fields.Accepted.{IsFresh, unique_sorted_iff, unique_sorted-IsSorted}
use commit_ci_preflight.Config.Topology.{validate_dependencies, topological_checks}
use commit_ci_preflight.Config.Topology.Graph.{IsGraph, IsRunOrder, IsBlocked}
use commit_ci_preflight.Config.Topology.Order.{topological_checks_verdict}
use commit_ci_preflight.Config.Topology.Cycles.{topological_checks_iff}
use commit_ci_preflight.Config.Checks.{collect_checks, normalize_checks}
use commit_ci_preflight.Config.Checks.Graph.{collect_checks-IsGraph}
use commit_ci_preflight.Config.Checks.Order.{
  AreChecksOf, normalize_checks-AreChecksOf, normalize_checks_total, normalize_checks-cycle,
}
use commit_ci_preflight.Tests.Samples.{pipeline, pipeline_by_id, pipeline_plan, loop}

pipeline_collected : collect_checks [] pipeline ≡ ok pipeline_by_id
unfolding collect_checks commit_ci_preflight.Config.Checks.admit_check validate_identifier
    commit_ci_preflight.Text.as_bytes commit_ci_preflight.Config.Fields.validate_relative_path
    commit_ci_preflight.Config.Fields.validate_bounded unique_sorted
    commit_ci_preflight.Ordered.Map.insert commit_ci_preflight.Ordered.Order.str_lt
    commit_ci_preflight.Ordered.Set.insert
pipeline_collected = refl

pipeline_known : validate_dependencies pipeline_by_id ≡ ok tt
unfolding validate_dependencies
pipeline_known = refl

pipeline-IsGraph : IsGraph pipeline_by_id
pipeline-IsGraph = collect_checks-IsGraph pipeline pipeline_by_id pipeline_collected pipeline_known

pipeline_planned : normalize_checks pipeline ≡ ok pipeline_plan
unfolding normalize_checks commit_ci_preflight.Config.Checks.admit_check validate_identifier
    commit_ci_preflight.Text.as_bytes commit_ci_preflight.Config.Fields.validate_relative_path
    commit_ci_preflight.Config.Fields.validate_bounded unique_sorted
    commit_ci_preflight.Ordered.Map.insert validate_dependencies
    commit_ci_preflight.Ordered.Order.str_lt commit_ci_preflight.Ordered.Set.insert
    topological_checks commit_ci_preflight.Ordered.Map.get
pipeline_planned = refl

loop_reported : normalize_checks loop ≡ err (dependency_cycle ("build" ∷ "test" ∷ []))
unfolding normalize_checks commit_ci_preflight.Config.Checks.admit_check validate_identifier
    commit_ci_preflight.Text.as_bytes commit_ci_preflight.Config.Fields.validate_relative_path
    commit_ci_preflight.Config.Fields.validate_bounded unique_sorted
    commit_ci_preflight.Ordered.Map.insert validate_dependencies
    commit_ci_preflight.Ordered.Order.str_lt commit_ci_preflight.Ordered.Set.insert
    topological_checks
loop_reported = refl

names_sorted :
    unique_sorted "names" ("b" ∷ "a" ∷ []) (validate_identifier "names") ≡ ok ("a" ∷ "b" ∷ [])
unfolding unique_sorted validate_identifier commit_ci_preflight.Text.as_bytes
    commit_ci_preflight.Ordered.Set.insert commit_ci_preflight.Ordered.Order.str_lt
names_sorted = refl

topological_checks_verdict_example :
    ((checks : List NormalizedCheck) × (topological_checks pipeline_by_id ≡ ok checks)
      × IsRunOrder pipeline_by_id checks)
    ⊎ ((blocked : List String) × (topological_checks pipeline_by_id
          ≡ err (dependency_cycle blocked))
        × IsBlocked pipeline_by_id blocked)
topological_checks_verdict_example = topological_checks_verdict pipeline_by_id pipeline-IsGraph

topological_checks_iff_example :
    ((checks : List NormalizedCheck) × (topological_checks pipeline_by_id ≡ ok checks))
    ↔ ((checks : List NormalizedCheck) × IsRunOrder pipeline_by_id checks)
topological_checks_iff_example = topological_checks_iff pipeline_by_id pipeline-IsGraph

normalize_checks-AreChecksOf_example : AreChecksOf pipeline pipeline_plan
normalize_checks-AreChecksOf_example =
    normalize_checks-AreChecksOf pipeline pipeline_plan pipeline_planned

normalize_checks_total_example : normalize_checks loop ≢ err panicked
normalize_checks_total_example = normalize_checks_total loop

normalize_checks-cycle_example :
    (by_id : Map CheckConfig) × (collect_checks [] loop ≡ ok by_id)
    × IsBlocked by_id ("build" ∷ "test" ∷ [])
    × ¬ ((out : List NormalizedCheck) × IsRunOrder by_id out)
normalize_checks-cycle_example = normalize_checks-cycle loop ("build" ∷ "test" ∷ []) loop_reported

unique_sorted_iff_example :
    ((sorted : List String) × (unique_sorted "names" ("b" ∷ "a" ∷ []) (validate_identifier "names")
        ≡ ok sorted))
    ↔ (All (λ name. validate_identifier "names" name ≡ ok tt) ("b" ∷ "a" ∷ [])
        × IsFresh [] ("b" ∷ "a" ∷ []))
unique_sorted_iff_example = unique_sorted_iff "names" ("b" ∷ "a" ∷ []) (validate_identifier "names")

unique_sorted-IsSorted_example :
    IsSorted ("a" ∷ "b" ∷ [])
    × ((s : String) → contains ("a" ∷ "b" ∷ []) s ≡ contains ("b" ∷ "a" ∷ []) s)
unique_sorted-IsSorted_example =
    unique_sorted-IsSorted "names" ("b" ∷ "a" ∷ []) ("a" ∷ "b" ∷ []) (validate_identifier "names")
      names_sorted
