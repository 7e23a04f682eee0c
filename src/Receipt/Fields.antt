-- ===== src/Receipt/Fields.antt =====
-- The field validators of src/receipt.rs.
use commit_ci_preflight.Prelude.{
  String, Bool, true, false, not, ◌&&◌, ◌||◌, Option, none, some, ◌==◌, if◌then◌else◌, all, any,
}
use commit_ci_preflight.Outcome.{ok, err, ◌>>◌}
use commit_ci_preflight.Text.{
  chars, as_bytes, len, is_empty, is_blank, is_control, is_lower_hex, strip_prefix, split,
}
use commit_ci_preflight.Config.Fields.{is_name_char, is_safe_path, first_two}
use commit_ci_preflight.Canonical.Digest.{receipt_id_prefix}
use commit_ci_preflight.Receipt.Status.{EvidenceStatus, is_incomplete}
use commit_ci_preflight.Receipt.Failure.{
  missing_incomplete_reason, unexpected_incomplete_reason, empty_field, control_character,
  invalid_commit_sha, invalid_repository_identity, invalid_sha256, unsafe_path, Verdict,
}

-- `Some("")` after trimming and `None` are the same here.
abbrev pub is_absent : Option String → Bool
is_absent none = true
is_absent (some reason) = is_blank reason

unfoldable pub validate_incomplete_reason : String → EvidenceStatus → Option String → Verdict
unfolding is_blank
validate_incomplete_reason field status reason =
    if is_incomplete status
    then if is_absent reason then err (missing_incomplete_reason field) else ok tt
    else if is_absent reason
    then ok tt
    else err (unexpected_incomplete_reason field)

unfoldable pub require_text : String → String → Verdict
unfolding is_blank
require_text field value =
    if is_blank value
    then err (empty_field field)
    else if any is_control (chars value)
    then err (control_character field)
    else ok tt

abbrev pub is_commit_sha : String → Bool
is_commit_sha value = (len value == 40 || len value == 64) && all is_lower_hex (as_bytes value)

unfoldable pub validate_commit_sha : String → Verdict
validate_commit_sha value = if is_commit_sha value then ok tt else err (invalid_commit_sha value)

unfoldable pub validate_repository_identity : String → Verdict
unfolding require_text
validate_repository_identity value = do
  require_text "repository.repository" value
  let (owner, repository, more) = first_two (split b'/' value)
  if not (is_empty owner)
        && not (is_empty repository)
        && not more
        && all is_name_char (chars owner)
        && all is_name_char (chars repository)
      then ok tt
      else err invalid_repository_identity

abbrev pub is_hex64 : Option String → Bool
is_hex64 none = false
is_hex64 (some hex) = len hex == 64 && all is_lower_hex (as_bytes hex)

unfoldable pub validate_sha256 : String → String → Verdict
unfolding strip_prefix as_bytes
validate_sha256 field value =
    if is_hex64 (strip_prefix receipt_id_prefix value) then ok tt else err (invalid_sha256 field)

unfoldable pub validate_relative_path : String → String → Verdict
unfolding require_text
validate_relative_path field value = do
  require_text field value
  if is_safe_path value then ok tt else err (unsafe_path field)
