-- ===== src/Receipt/Manifest.antt =====
-- The checks of `ReceiptV2::validate` against the execution plan (src/receipt.rs).
pub mod Laws
use commit_ci_preflight.Prelude.{
  String, Bool, true, false, not, ◌&&◌, ◌||◌, List, [], ◌∷◌, Option, none, some, ltb, ◌==◌,
  if◌then◌else◌, str_eq, length, any, contains,
}
use commit_ci_preflight.Outcome.{ok, ◌>>=◌, ◌>>◌, reject, ok_or, map_err}
use commit_ci_preflight.Ordered.Set
use commit_ci_preflight.Ordered.Map
use commit_ci_preflight.Ordered.Map.{Map}
use commit_ci_preflight.Config.Data.{
  ArtifactKind, regular_file, directory, NormalizedRuntime, NormalizedCheck,
  NormalizedArtifactContract, ExecutionPlanV1,
}
use commit_ci_preflight.Config.Checks.{is_regular_file}
use commit_ci_preflight.Config.Runtime.{is_some}
use commit_ci_preflight.Receipt.Failure.{
  execution_plan_check_mismatch, unsupported_source_snapshot_schema_version,
  invalid_source_snapshot_entry_count, duplicate_artifact_evidence, artifact_manifest_mismatch,
  missing_runtime_capability_evidence, unexpected_runtime_capability_evidence,
  invalid_runtime_capability_evidence, runtime_capability_evidence_mismatch, Verdict, Checked,
}
use commit_ci_preflight.Receipt.Data.{
  CheckEvidence, ArtifactEvidence, SourceSnapshotEvidence, RuntimeCapabilityEvidenceV1,
  source_snapshot_schema_version,
}
use commit_ci_preflight.Receipt.Fields.{require_text, validate_sha256}

unfoldable pub validate_source_snapshot : SourceSnapshotEvidence → Verdict
validate_source_snapshot snapshot = do
  reject (not (str_eq snapshot.schema_version source_snapshot_schema_version))
      (unsupported_source_snapshot_schema_version snapshot.schema_version)
  require_text "source_snapshot.manifest_digest" snapshot.manifest_digest
  validate_sha256 "source_snapshot.manifest_digest" snapshot.manifest_digest
  reject (snapshot.entry_count == 0) (invalid_source_snapshot_entry_count snapshot.entry_count)

-- `==` of two vectors of texts.
abbrev pub same_texts : List String → List String → Bool
same_texts [] [] = true
same_texts (x ∷ xs) (y ∷ ys) = str_eq x y && same_texts xs ys
same_texts _ _ = false

-- `checks.iter().find(|evidence| evidence.id == id)`.
abbrev pub find_check : String → List CheckEvidence → Option CheckEvidence
find_check id [] = none
find_check id (evidence ∷ checks) =
    if str_eq evidence.id id then some evidence else find_check id checks

abbrev pub same_bool : Bool → Bool → Bool
same_bool true b = b
same_bool false b = not b

abbrev pub matches_plan : CheckEvidence → NormalizedCheck → Bool
matches_plan evidence planned =
    same_bool evidence.required planned.required
    && same_texts evidence.argv planned.argv
    && str_eq evidence.working_directory planned.working_directory

-- The loop over the planned checks.
unfoldable pub validate_planned : List CheckEvidence → List NormalizedCheck → Verdict
validate_planned checks [] = ok tt
validate_planned checks (planned ∷ more) =
    ok_or (find_check planned.id checks) (execution_plan_check_mismatch planned.id) >>= λ evidence.
    reject (not (matches_plan evidence planned)) (execution_plan_check_mismatch planned.id)
    >> validate_planned checks more

abbrev pub kind_eq : ArtifactKind → ArtifactKind → Bool
kind_eq regular_file regular_file = true
kind_eq directory directory = true
kind_eq _ _ = false

abbrev pub expect_contracts :
    List NormalizedArtifactContract
    → Map NormalizedArtifactContract
    → Map NormalizedArtifactContract
expect_contracts [] expected = expected
expect_contracts (artifact ∷ contracts) expected =
    expect_contracts contracts (Map.insert artifact.path artifact expected)

-- The first loop of `validate_artifact_manifest`: the contracts by path.
unfoldable pub expected_artifacts :
    List NormalizedCheck → Map NormalizedArtifactContract → Map NormalizedArtifactContract
expected_artifacts [] expected = expected
expected_artifacts (check ∷ checks) expected =
    expected_artifacts checks (expect_contracts check.artifact_contracts expected)

abbrev pub breaks_contract : ArtifactEvidence → NormalizedArtifactContract → Bool
breaks_contract artifact planned =
    not (kind_eq artifact.kind planned.kind)
    || not (str_eq artifact.producer_check planned.producer_check)
    || (is_regular_file artifact.kind && not (artifact.entry_count == 1))
    || ltb planned.max_entries artifact.entry_count
    || ltb planned.max_bytes artifact.total_bytes

-- The loop over the manifest; the result is the set of paths observed.
unfoldable pub observe_artifacts :
    Map NormalizedArtifactContract → List String → List ArtifactEvidence → Checked (List String)
observe_artifacts expected observed [] = ok observed
observe_artifacts expected observed (artifact ∷ manifest) =
    let rest = observe_artifacts expected (Set.insert artifact.path observed) manifest in
    reject (contains observed artifact.path) (duplicate_artifact_evidence artifact.path)
    >> ok_or (Map.get artifact.path expected) (artifact_manifest_mismatch artifact.path)
    >>= λ planned.
        reject (breaks_contract artifact planned) (artifact_manifest_mismatch artifact.path)
        >> validate_sha256 "artifact.manifest_digest" artifact.manifest_digest
        >> rest

unfoldable pub validate_artifact_manifest : List NormalizedCheck → List ArtifactEvidence → Verdict
unfolding expected_artifacts observe_artifacts
validate_artifact_manifest checks manifest = do
  let expected = expected_artifacts checks []
  observed ← observe_artifacts expected [] manifest
  reject
      (not (length observed == length expected)
        || any (λ path. not (contains observed path)) (Map.keys expected))
      (artifact_manifest_mismatch "artifact set")

-- `== Some(Never)` and `== Some(Disabled)`: each type has one value.
unfoldable pub validate_runtime_evidence :
    NormalizedRuntime → Option RuntimeCapabilityEvidenceV1 → Verdict
validate_runtime_evidence runtime found = do
  reject (not (is_some runtime.pull_policy) || not (is_some runtime.swap_mode))
      runtime_capability_evidence_mismatch
  evidence ← ok_or found missing_runtime_capability_evidence
  reject
      (not (str_eq evidence.schema_version "1.0")
        || not evidence.memory_limit_supported
        || not evidence.swap_limit_supported)
      (invalid_runtime_capability_evidence "schema_version or capability booleans")
  map_err (λ e. invalid_runtime_capability_evidence "context_digest")
      (validate_sha256 "runtime_capability.context_digest" evidence.context_digest)
  map_err (λ e. invalid_runtime_capability_evidence "resolved_image_id")
      (validate_sha256 "runtime_capability.resolved_image_id" evidence.resolved_image_id)
  require_text "runtime_capability.resolved_image_reference" evidence.resolved_image_reference
  reject (not (str_eq evidence.resolved_image_reference runtime.image))
      runtime_capability_evidence_mismatch

unfoldable pub validate_runtime_capability_evidence :
    ExecutionPlanV1 → Option RuntimeCapabilityEvidenceV1 → Verdict
unfolding validate_runtime_evidence
validate_runtime_capability_evidence plan found =
    if str_eq plan.schema_version "1.3"
    then validate_runtime_evidence plan.runtime found
    else reject (is_some found) unexpected_runtime_capability_evidence
