-- ===== src/Receipt/Common.antt =====
-- `CheckEvidence::validate` and `ReceiptCommon::validate` of src/receipt.rs.
pub mod Laws
use commit_ci_preflight.Prelude.{
  ℕ, ℤ, is_zero, String, Bool, true, false, not, ◌&&◌, ◌||◌, List, [], ◌∷◌, ◌++◌, Option, none,
  some, ◌==◌, if◌then◌else◌, str_eq, is_empty, any, contains,
}
use commit_ci_preflight.Outcome.{ok, err, ◌>>=◌, ◌>>◌, reject}
use commit_ci_preflight.Text
use commit_ci_preflight.Text.{rsplit_once}
use commit_ci_preflight.Ordered.Order.{str_lt}
use commit_ci_preflight.Ordered.Set
use commit_ci_preflight.Config.Runtime.{is_some}
use commit_ci_preflight.Receipt.Status.{
  EvidenceStatus, pass, fail, pending, not_run, same_status, derive_overall_status,
}
use commit_ci_preflight.Receipt.Failure.{
  unsupported_schema_version, invalid_run_window, image_digest_mismatch, no_checks,
  no_required_checks, duplicate_check_id, invalid_command, invalid_check_result,
  overall_status_mismatch, Verdict, Checked,
}
use commit_ci_preflight.Receipt.Data.{
  CheckEvidence, ProducerEvidence, RepositoryEvidence, RunEvidence, PlatformEvidence,
}
use commit_ci_preflight.Receipt.Fields.{
  validate_incomplete_reason, require_text, validate_commit_sha, validate_repository_identity,
  validate_sha256, validate_relative_path,
}
use commit_ci_preflight.Receipt.Timestamp.{require_timestamp}

-- `exit_code == Some(0)`, and `matches!(exit_code, None | Some(0))`.
abbrev pub exited_zero : Option ℤ → Bool
exited_zero none = false
exited_zero (some code) = is_zero code

abbrev pub none_or_zero : Option ℤ → Bool
none_or_zero none = true
none_or_zero (some code) = is_zero code

-- The `match self.status`: whether the result contradicts the status.
abbrev pub is_inconsistent : EvidenceStatus → CheckEvidence → Bool
is_inconsistent pass check = not (exited_zero check.exit_code) || check.timed_out || check.cancelled
is_inconsistent fail check =
    none_or_zero check.exit_code && not check.timed_out && not check.cancelled
is_inconsistent _ check =
    is_some check.exit_code
    || not (check.duration_ms == 0)
    || check.timed_out
    || check.cancelled
    || is_some check.output_digest

abbrev pub validate_output_digest : Option String → Verdict
validate_output_digest none = ok tt
validate_output_digest (some digest) = validate_sha256 "check.output_digest" digest

unfoldable pub validate_check : CheckEvidence → Verdict
validate_check check = do
  require_text "check.id" check.id
  reject (is_empty check.argv || any Text.is_empty check.argv) (invalid_command check.id)
  validate_relative_path "check.working_directory" check.working_directory
  validate_incomplete_reason "check.incomplete_reason" check.status check.incomplete_reason
  reject (is_inconsistent check.status check) (invalid_check_result check.id)
  validate_output_digest check.output_digest

-- The loop over the checks, with the ids seen and the statuses of the required checks so far.
unfoldable pub required_statuses_from :
    List String → List EvidenceStatus → List CheckEvidence → Checked (List EvidenceStatus)
unfolding validate_check
required_statuses_from check_ids statuses [] = ok statuses
required_statuses_from check_ids statuses (check ∷ checks) =
    let rest =
      required_statuses_from (Set.insert check.id check_ids)
        (if check.required then statuses ++ check.status ∷ [] else statuses) checks in
    do
      validate_check check
      reject (contains check_ids check.id) (duplicate_check_id check.id)
      rest

pub record ReceiptCommon : Type 0 where
  pub expected_schema_version : String
  pub schema_version : String
  pub producer : ProducerEvidence
  pub repository : RepositoryEvidence
  pub run : RunEvidence
  pub platform : PlatformEvidence
  pub configuration_digest : String
  pub checks : List CheckEvidence
  pub overall_status : EvidenceStatus
  pub incomplete_reason : Option String
  pub redaction_policy_version : String

-- `image_reference.rsplit_once('@').map(|(_, digest)| digest) == Some(image_digest)`.
abbrev pub is_pinned_to : Option (String × String) → String → Bool
is_pinned_to none digest = false
is_pinned_to (some (name, after)) digest = str_eq after digest

-- The part of `ReceiptCommon::validate` above the checks.
unfoldable pub validate_header : ReceiptCommon → Verdict
validate_header common = do
  reject (not (str_eq common.schema_version common.expected_schema_version))
      (unsupported_schema_version common.schema_version)
  require_text "producer.name" common.producer.name
  require_text "producer.version" common.producer.version
  validate_repository_identity common.repository.repository
  validate_commit_sha common.repository.commit_sha
  require_text "run.run_id" common.run.run_id
  require_timestamp "run.started_at_utc" common.run.started_at_utc
  require_timestamp "run.finished_at_utc" common.run.finished_at_utc
  reject (str_lt common.run.finished_at_utc common.run.started_at_utc) invalid_run_window
  require_text "platform.host_os" common.platform.host_os
  require_text "platform.host_arch" common.platform.host_arch
  require_text "platform.runtime_kind" common.platform.runtime_kind
  require_text "platform.runtime_version" common.platform.runtime_version
  require_text "platform.image_reference" common.platform.image_reference
  validate_sha256 "platform.image_digest" common.platform.image_digest
  reject
      (not (
        is_pinned_to (rsplit_once b'@' common.platform.image_reference)
          common.platform.image_digest))
      image_digest_mismatch
  validate_sha256 "configuration_digest" common.configuration_digest
  require_text "redaction_policy_version" common.redaction_policy_version

-- The part of `ReceiptCommon::validate` from the checks on.
unfoldable pub validate_results : ReceiptCommon → Verdict
unfolding required_statuses_from derive_overall_status
validate_results common = do
  reject (is_empty common.checks) no_checks
  statuses ← required_statuses_from [] [] common.checks
  reject (is_empty statuses) no_required_checks
  reject (not (same_status common.overall_status (derive_overall_status statuses)))
      (overall_status_mismatch (derive_overall_status statuses) common.overall_status)
  validate_incomplete_reason "receipt.incomplete_reason" common.overall_status
      common.incomplete_reason

unfoldable pub validate : ReceiptCommon → Verdict
validate common = validate_header common >> validate_results common
