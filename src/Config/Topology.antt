-- ===== src/Config/Topology.antt =====
-- `validate_dependencies` and `topological_checks` of src/config.rs.
pub mod Waiting
pub mod Dependents
pub mod Release
pub mod Graph
pub mod Round
pub mod Progress
pub mod Start
pub mod Order
pub mod Cycles
use commit_ci_preflight.Prelude.{
  ℕ, zero, suc, String, Bool, true, false, not, Option, none, some, List, [], ◌∷◌, ◌++◌, ltb, ◌==◌,
  if◌then◌else◌, str_eq, length, contains,
}
use commit_ci_preflight.Outcome.{ok, err, ◌>>=◌, ◌>>◌, reject}
use commit_ci_preflight.Ordered.Set
use commit_ci_preflight.Ordered.Map
use commit_ci_preflight.Ordered.Map.{Map}
use commit_ci_preflight.Config.Data.{
  ArtifactContractConfig, CheckConfig, NormalizedArtifactContract, NormalizedCheck,
}
use commit_ci_preflight.Config.Failure.{
  self_dependency, unknown_dependency, dependency_cycle, panicked, Verdict, Checked,
}

-- The loop over one check's dependencies.
unfoldable pub validate_depends_on : Map CheckConfig → String → List String → Verdict
validate_depends_on by_id id [] = ok tt
validate_depends_on by_id id (dependency ∷ depends_on) = do
  reject (str_eq dependency id) (self_dependency id)
  reject (not (contains (Map.keys by_id) dependency)) (unknown_dependency id dependency)
  validate_depends_on by_id id depends_on

unfoldable pub validate_dependencies_of : Map CheckConfig → List CheckConfig → Verdict
unfolding validate_depends_on
validate_dependencies_of by_id [] = ok tt
validate_dependencies_of by_id (check ∷ checks) =
    validate_depends_on by_id check.id check.depends_on >> validate_dependencies_of by_id checks

unfoldable pub validate_dependencies : Map CheckConfig → Verdict
unfolding validate_dependencies_of
validate_dependencies by_id = validate_dependencies_of by_id (Map.values by_id)

abbrev pub normalize_contracts :
    String → List ArtifactContractConfig → List NormalizedArtifactContract
normalize_contracts id [] = []
normalize_contracts id (artifact ∷ contracts) =
    record {
      path = artifact.path;
      kind = artifact.kind;
      max_bytes = artifact.max_bytes;
      max_entries = artifact.max_entries;
      producer_check = id;
    }
    ∷ normalize_contracts id contracts

abbrev pub normalize_check : CheckConfig → NormalizedCheck
normalize_check check = record {
  id = check.id;
  required = check.required;
  argv = check.argv;
  working_directory = check.working_directory;
  timeout_seconds = check.timeout_seconds;
  depends_on = check.depends_on;
  artifacts = check.artifacts;
  artifact_contracts = normalize_contracts check.id check.artifact_contracts;
}

-- How many dependencies each check still waits for.
unfoldable pub initial_indegree : Map CheckConfig → Map ℕ
initial_indegree [] = []
initial_indegree ((id, check) ∷ by_id) = (id, length check.depends_on) ∷ initial_indegree by_id

abbrev pub or_default : Option (List String) → List String
or_default none = []
or_default (some ids) = ids

-- `dependents.entry(dependency).or_default().insert(id)` for each dependency.
unfoldable pub add_dependents : String → List String → Map (List String) → Map (List String)
add_dependents id [] dependents = dependents
add_dependents id (dependency ∷ depends_on) dependents =
    add_dependents id depends_on (
      Map.insert dependency (Set.insert id (or_default (Map.get dependency dependents))) dependents)

unfoldable pub collect_dependents : Map CheckConfig → Map (List String) → Map (List String)
unfolding add_dependents
collect_dependents [] dependents = dependents
collect_dependents ((id, check) ∷ by_id) dependents =
    collect_dependents by_id (add_dependents id check.depends_on dependents)

-- The ids whose count is zero.
unfoldable pub ready_ids : Map ℕ → List String
ready_ids [] = []
ready_ids ((id, count) ∷ indegree) =
    let rest = ready_ids indegree in if count == 0 then Set.insert id rest else rest

-- The variables of the loop.
pub record Kahn : Type 0 where
  pub indegree : Map ℕ
  pub ready : List String
  pub ordered : List NormalizedCheck

-- One round of the inner loop. `none` is a panic: the entry is missing, or the count is zero and
-- `*count -= 1` overflows (it would wrap in a build without overflow checks).
abbrev pub count_down : Option ℕ → String → Kahn → Option Kahn
count_down none child s = none
count_down (some zero) child s = none
count_down (some (suc count)) child s = some (record s {
  indegree = Map.insert child count s.indegree;
  ready = if count == 0 then Set.insert child s.ready else s.ready;
})

-- The inner loop over the children of the check that was taken.
unfoldable pub release : List String → Kahn → Option Kahn
release [] s = some s
release (child ∷ children) s = elim (count_down (Map.get child s.indegree) child s) [
  | none ↦ none
  | some s' ↦ release children s'
]

-- The body of the outer loop for the id that `pop_first` gave.
unfoldable pub visit :
    Map CheckConfig → Map (List String) → String → List String → Kahn → Option Kahn
unfolding release
visit by_id dependents id ready s = elim (Map.get id by_id) [
  | none ↦ none
  | some check ↦
      release (or_default (Map.get id dependents))
        (record s { ready = ready; ordered = s.ordered ++ normalize_check check ∷ [] })
]

-- The outer loop. `none` is a panic, or that the fuel ran out.
unfoldable pub drain : ℕ → Map CheckConfig → Map (List String) → Kahn → Option Kahn
unfolding visit
drain zero by_id dependents s = none
drain (suc fuel) by_id dependents s = elim s.ready [
  | [] ↦ some s
  | id ∷ ready ↦ elim (visit by_id dependents id ready s) [
    | none ↦ none
    | some s' ↦ drain fuel by_id dependents s'
  ]
]

unfoldable pub start : Map CheckConfig → Kahn
unfolding initial_indegree ready_ids
start by_id = record {
  indegree = initial_indegree by_id;
  ready = ready_ids (initial_indegree by_id);
  ordered = [];
}

-- The ids whose count is not zero.
unfoldable pub blocked_ids : Map ℕ → List String
blocked_ids [] = []
blocked_ids ((id, count) ∷ indegree) =
    let rest = blocked_ids indegree in if ltb 0 count then id ∷ rest else rest

abbrev pub conclude : Map CheckConfig → Option Kahn → Checked (List NormalizedCheck)
conclude by_id none = err panicked
conclude by_id (some s) =
    if length s.ordered == length by_id
    then ok s.ordered
    else err (dependency_cycle (blocked_ids s.indegree))

-- One round more than there are checks is fuel enough.
unfoldable pub topological_checks : Map CheckConfig → Checked (List NormalizedCheck)
unfolding drain start collect_dependents blocked_ids
topological_checks by_id =
    conclude by_id (drain (suc (length by_id)) by_id (collect_dependents by_id []) (start by_id))
