-- ===== src/Config/Fields.antt =====
-- The field validators of src/config.rs.
pub mod Accepted
use commit_ci_preflight.Prelude.{
  ℕ, String, Bool, true, false, not, ◌&&◌, ◌||◌, List, [], ◌∷◌, Option, none, some, ltb, leb, ◌==◌,
  if◌then◌else◌, str_eq, length, all, any, contains,
}
use commit_ci_preflight.Outcome.{Outcome, ok, err, ◌>>=◌, ◌>>◌, reject}
use commit_ci_preflight.Ordered.Set.{insert}
use commit_ci_preflight.Text.{
  chars, as_bytes, len, is_empty, is_control, is_whitespace, is_ascii_alphabetic,
  is_ascii_alphanumeric, is_lower_hex, contains_char, contains_str, starts_with_char, strip_prefix,
  split, rsplit_once,
}
use commit_ci_preflight.Config.Data.{max_string_bytes}
use commit_ci_preflight.Config.Failure.{
  ConfigError, invalid_field, out_of_range, duplicate_value, Verdict, Checked,
}

unfoldable pub validate_text : String → String → Verdict
validate_text field value =
    reject (is_empty value || ltb max_string_bytes (len value) || any is_control (chars value))
      (invalid_field field)

abbrev pub is_name_char : ℕ → Bool
is_name_char c = is_ascii_alphanumeric c || c == b'-' || c == b'_' || c == b'.'

-- The condition of `validate_identifier`.
abbrev pub is_identifier : String → Bool
is_identifier value =
    leb (len value) 64
    && all is_name_char (chars value)
    && not (str_eq value ".")
    && not (str_eq value "..")

unfoldable pub validate_identifier : String → String → Verdict
unfolding validate_text
validate_identifier field value = do
  validate_text field value
  if is_identifier value then ok tt else err (invalid_field field)

abbrev pub valid_environment_chars : List ℕ → Bool
valid_environment_chars [] = false
valid_environment_chars (c ∷ cs) =
    (c == b'_' || is_ascii_alphabetic c) && all (λ d. d == b'_' || is_ascii_alphanumeric d) cs

unfoldable pub validate_environment_name : String → Verdict
unfolding validate_text
validate_environment_name value = do
  validate_text "environment.allow" value
  if valid_environment_chars (chars value) then ok tt else err (invalid_field "environment.allow")

-- The first two parts, empty where the iterator has ended, and whether a third remains.
abbrev pub first_two : List String → String × String × Bool
first_two [] = ("", "", false)
first_two (a ∷ []) = (a, "", false)
first_two (a ∷ b ∷ []) = (a, b, false)
first_two (a ∷ b ∷ c ∷ rest) = (a, b, true)

unfoldable pub validate_repository_identity : String → Verdict
unfolding validate_identifier
validate_repository_identity value = do
  let (owner, repository, more) = first_two (split b'/' value)
  validate_identifier "project" owner
  validate_identifier "project" repository
  reject more (invalid_field "project")

abbrev pub is_safe_segment : String → Bool
is_safe_segment segment =
    not (is_empty segment) && not (str_eq segment ".") && not (str_eq segment "..")

-- The condition of `validate_relative_path`.
abbrev pub is_safe_path : String → Bool
is_safe_path value =
    str_eq value "."
    || (not (starts_with_char b'/' value)
        && not (starts_with_char b'~' value)
        && not (contains_char 92 value)
        && not (contains_char b':' value)
        && all is_safe_segment (split b'/' value))

unfoldable pub validate_relative_path : String → String → Verdict
unfolding validate_text
validate_relative_path field value = do
  validate_text field value
  if is_safe_path value then ok tt else err (invalid_field field)

-- A name and a digest "sha256:" with 64 hexadecimal digits.
abbrev pub is_pinned_image : String → String → Bool
is_pinned_image name hex =
    not (is_empty name)
    && not (any is_whitespace (chars name))
    && not (contains_char b'@' name)
    && not (contains_str "://" name)
    && not (contains_char 92 name)
    && len hex == 64
    && all is_lower_hex (as_bytes hex)

abbrev validate_image_digest : String → Option String → Verdict
validate_image_digest name none = err (invalid_field "runtime.image")
validate_image_digest name (some hex) =
    if is_pinned_image name hex then ok tt else err (invalid_field "runtime.image")

abbrev validate_image_parts : Option (String × String) → Verdict
validate_image_parts none = err (invalid_field "runtime.image")
validate_image_parts (some (name, digest)) =
    validate_image_digest name (strip_prefix "sha256:" digest)

unfoldable pub validate_image_reference : String → Verdict
unfolding validate_text
validate_image_reference value = do
  validate_text "runtime.image" value
  validate_image_parts (rsplit_once b'@' value)

unfoldable pub validate_bounded : String → ℕ → ℕ → ℕ → Verdict
validate_bounded field value minimum maximum =
    if leb minimum value && leb value maximum
    then ok tt
    else err (out_of_range field minimum maximum value)

-- The loop of `unique_sorted`, over the set built so far.
unfoldable pub unique_sorted_from :
    String → (String → Verdict) → List String → List String → Checked (List String)
unique_sorted_from field validate unique [] = ok unique
unique_sorted_from field validate unique (value ∷ values) =
    let rest = unique_sorted_from field validate (insert value unique) values in
    validate value >>= λ _. reject (contains unique value) (duplicate_value field) >>= λ _. rest

unfoldable pub unique_sorted : String → List String → (String → Verdict) → Checked (List String)
unfolding unique_sorted_from
unique_sorted field values validate = unique_sorted_from field validate [] values
