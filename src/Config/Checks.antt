-- ===== src/Config/Checks.antt =====
-- `normalize_checks` of src/config.rs and what it calls on each check.
pub mod Graph
pub mod Made
pub mod Errors
pub mod Order
use commit_ci_preflight.Prelude.{
  ℕ, String, Bool, not, ◌&&◌, ◌||◌, List, [], ◌∷◌, map, ltb, ◌==◌, str_eq, length, is_empty, any,
  contains,
}
use commit_ci_preflight.Outcome.{ok, ◌>>=◌, ◌>>◌, reject}
use commit_ci_preflight.Ordered.Set
use commit_ci_preflight.Ordered.Map
use commit_ci_preflight.Ordered.Map.{Map}
use commit_ci_preflight.Config.Data.{
  ArtifactKind, regular_file, directory, ArtifactContractConfig, CheckConfig, NormalizedCheck,
  max_argv_parts, max_checks, max_timeout_seconds,
}
use commit_ci_preflight.Config.Failure.{
  invalid_field, too_many_items, no_checks, no_required_checks, duplicate_id, duplicate_value,
  Verdict, Checked,
}
use commit_ci_preflight.Config.Fields.{
  validate_text, validate_identifier, validate_relative_path, validate_bounded, unique_sorted,
}
use commit_ci_preflight.Config.Topology.{validate_dependencies, topological_checks}

-- `for argument in &check.argv { validate_text("check.argv", argument)? }`.
unfoldable pub validate_argv : List String → Verdict
validate_argv [] = ok tt
validate_argv (argument ∷ argv) = validate_text "check.argv" argument >> validate_argv argv

unfoldable pub validate_check : CheckConfig → Verdict
unfolding validate_argv
validate_check check = do
  validate_identifier "check.id" check.id
  reject (is_empty check.argv || ltb max_argv_parts (length check.argv))
      (invalid_field "check.argv")
  validate_argv check.argv
  validate_relative_path "check.working_directory" check.working_directory
  validate_bounded "check.timeout_seconds" check.timeout_seconds 1 max_timeout_seconds

abbrev pub maximum_entries : ArtifactKind → ℕ
maximum_entries regular_file = 1
maximum_entries directory = 10_000

abbrev pub is_regular_file : ArtifactKind → Bool
is_regular_file regular_file = Bool.true
is_regular_file directory = Bool.false

-- The loop of `validate_artifact_contracts`; `paths` is the set of paths seen.
unfoldable pub validate_contracts_from :
    List String → List String → List ArtifactContractConfig → Verdict
validate_contracts_from artifacts paths [] = ok tt
validate_contracts_from artifacts paths (artifact ∷ contracts) =
    let rest = validate_contracts_from artifacts (Set.insert artifact.path paths) contracts in
    do
      validate_relative_path "check.artifact_contracts.path" artifact.path
      reject (str_eq artifact.path "." || not (contains artifacts artifact.path))
          (invalid_field "check.artifact_contracts.path")
      reject (contains paths artifact.path) (duplicate_value "check.artifact_contracts.path")
      validate_bounded "check.artifact_contracts.max_bytes" artifact.max_bytes 1 1_073_741_824
      validate_bounded "check.artifact_contracts.max_entries" artifact.max_entries 1
          (maximum_entries artifact.kind)
      reject (is_regular_file artifact.kind && not (artifact.max_entries == 1))
          (invalid_field "check.artifact_contracts.max_entries")
      rest

unfoldable pub validate_artifact_contracts : CheckConfig → Verdict
unfolding validate_contracts_from
validate_artifact_contracts check =
    validate_contracts_from check.artifacts [] check.artifact_contracts

-- What the loop body does once the two lists are replaced.
unfoldable pub complete_check : CheckConfig → Checked CheckConfig
unfolding validate_artifact_contracts
complete_check check = do
  reject (any (λ artifact. str_eq artifact ".") check.artifacts) (invalid_field "check.artifacts")
  validate_artifact_contracts check
  ok check

-- The body of the loop of `normalize_checks`, up to the insertion.
unfoldable pub admit_check : CheckConfig → Checked CheckConfig
unfolding validate_check complete_check
admit_check check = do
  validate_check check
  depends_on ←
      unique_sorted "check.depends_on" check.depends_on (validate_identifier "check.depends_on")
  artifacts ←
      unique_sorted "check.artifacts" check.artifacts (validate_relative_path "check.artifacts")
  complete_check (record check { depends_on = depends_on; artifacts = artifacts })

unfoldable pub collect_checks : Map CheckConfig → List CheckConfig → Checked (Map CheckConfig)
collect_checks by_id [] = ok by_id
collect_checks by_id (check ∷ checks) = admit_check check >>= λ admitted.
    let rest = collect_checks (Map.insert check.id admitted by_id) checks in
    reject (contains (Map.keys by_id) check.id) (duplicate_id "check.id" check.id) >> rest

unfoldable pub normalize_checks : List CheckConfig → Checked (List NormalizedCheck)
unfolding collect_checks
normalize_checks checks = do
  reject (is_empty checks) no_checks
  reject (ltb max_checks (length checks)) (too_many_items "checks" (length checks) max_checks)
  reject (not (any (λ check. check.required) checks)) no_required_checks
  by_id ← collect_checks [] checks
  validate_dependencies by_id
  topological_checks by_id
