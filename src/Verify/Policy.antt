-- ===== src/Verify/Policy.antt =====
-- The policies of src/verify.rs and their validation.
pub mod Laws
use commit_ci_preflight.Prelude.{
  ℕ, String, Bool, not, ◌&&◌, ◌||◌, List, [], ◌∷◌, Option, none, some, ltb, leb, ◌==◌, str_eq,
  length, all, any, is_empty, contains,
}
use commit_ci_preflight.Outcome.{Outcome, ok, err, ◌>>◌, reject}
use commit_ci_preflight.Ordered.Set
use commit_ci_preflight.Text
use commit_ci_preflight.Text.{
  chars, as_bytes, len, is_control, is_ascii_alphanumeric, is_lower_hex, contains_char,
  starts_with_char, strip_prefix, split, rsplit_once,
}
use commit_ci_preflight.Config.Fields.{first_two, is_safe_segment}
use commit_ci_preflight.Receipt.Data.{SourceSnapshotStrategy}

abbrev pub policy_schema_version : String
policy_schema_version = "1.0"

abbrev pub trusted_plan_policy_schema_version : String
trusted_plan_policy_schema_version = "1.1"

abbrev pub max_required_checks : ℕ
max_required_checks = 128

abbrev pub max_platforms : ℕ
max_platforms = 32

abbrev pub max_freshness_seconds : ℕ
max_freshness_seconds = 31_536_000

pub record AcceptedPlatformV1 : Type 0 where
  pub host_os : String
  pub host_arch : String
  pub runtime_kind : String

pub record VerificationPolicyV1 : Type 0 where
  pub schema_version : String
  pub project : String
  pub configuration_digest : String
  pub required_checks : List String
  pub image_reference : String
  pub max_age_seconds : ℕ  -- u64
  pub platforms : List AcceptedPlatformV1

pub record ProducerContractV1_1 : Type 0 where
  pub name : String
  pub version : String

pub record VerificationPolicyV1_1 : Type 0 where
  pub schema_version : String
  pub project : String
  pub configuration_digest : String
  pub required_checks : List String
  pub image_reference : String
  pub max_age_seconds : ℕ  -- u64
  pub platforms : List AcceptedPlatformV1
  pub trusted_config : String
  pub source_snapshot_strategy : SourceSnapshotStrategy
  pub supported_producers : List ProducerContractV1_1
  pub revoked_producers : List ProducerContractV1_1

-- The payloads of errors that other crates raise are left out.
pub data PolicyError : Type 0 where
  io too_large invalid_utf8 parse unsupported_schema_version : PolicyError
  invalid_field duplicate_value : String → PolicyError

abbrev pub Verdict : Type 0
Verdict = Outcome PolicyError (Unit {0})

-- `valid_name`.
abbrev pub valid_name : String → Bool
valid_name value =
    not (Text.is_empty value)
    && all (λ byte. is_ascii_alphanumeric byte || byte == b'.' || byte == b'_' || byte == b'-')
        (as_bytes value)

unfoldable pub validate_project : String → Verdict
validate_project value = do
  reject (ltb 255 (len value) || any is_control (chars value)) (invalid_field "project")
  let (owner, repository, more) = first_two (split b'/' value)
  reject
      (Text.is_empty owner
        || Text.is_empty repository
        || more
        || not (valid_name owner)
        || not (valid_name repository))
      (invalid_field "project")

unfoldable pub validate_name : String → String → Verdict
validate_name field value =
    reject (ltb 128 (len value) || not (valid_name value)) (invalid_field field)

abbrev pub validate_hex : Option String → Verdict
validate_hex none = err (invalid_field "configuration_digest")
validate_hex (some hex) =
    reject (not (len hex == 64) || not (all is_lower_hex (as_bytes hex)))
      (invalid_field "configuration_digest")

unfoldable pub validate_digest : String → Verdict
unfolding strip_prefix as_bytes
validate_digest value = validate_hex (strip_prefix "sha256:" value)

abbrev pub rename_field : Verdict → Verdict
rename_field (ok u) = ok u
rename_field (err e) = err (invalid_field "image_reference")

abbrev validate_image_parts : Option (String × String) → Verdict
validate_image_parts none = err (invalid_field "image_reference")
validate_image_parts (some (name, digest)) =
    reject (Text.is_empty name || contains_char b'@' name || any is_control (chars name))
      (invalid_field "image_reference")
    >> rename_field (validate_digest digest)

unfoldable pub validate_image_reference : String → Verdict
unfolding rsplit_once validate_digest
validate_image_reference value = validate_image_parts (rsplit_once b'@' value)

-- The loop over `required_checks`, with the set of those seen.
unfoldable pub validate_required_checks : List String → List String → Verdict
unfolding validate_name
validate_required_checks checks [] = ok tt
validate_required_checks checks (check ∷ more) =
    let rest = validate_required_checks (Set.insert check checks) more in
    validate_name "required_checks" check
    >> reject (contains checks check) (duplicate_value "required_checks")
    >> rest

abbrev pub same_platform : AcceptedPlatformV1 → AcceptedPlatformV1 → Bool
same_platform a b =
    str_eq a.host_os b.host_os
    && str_eq a.host_arch b.host_arch
    && str_eq a.runtime_kind b.runtime_kind

-- The loop over `platforms`; `seen` holds the tuples inserted so far.
unfoldable pub validate_platforms : List AcceptedPlatformV1 → List AcceptedPlatformV1 → Verdict
unfolding validate_name
validate_platforms seen [] = ok tt
validate_platforms seen (platform ∷ more) =
    let rest = validate_platforms (platform ∷ seen) more in
    validate_name "platforms.host_os" platform.host_os
    >> validate_name "platforms.host_arch" platform.host_arch
    >> validate_name "platforms.runtime_kind" platform.runtime_kind
    >> reject (any (same_platform platform) seen) (duplicate_value "platforms")
    >> rest

unfoldable pub validate : VerificationPolicyV1 → Verdict
unfolding validate_required_checks validate_platforms
validate policy = do
  reject (not (str_eq policy.schema_version policy_schema_version)) unsupported_schema_version
  validate_project policy.project
  validate_digest policy.configuration_digest
  validate_image_reference policy.image_reference
  reject (not (leb 1 policy.max_age_seconds && leb policy.max_age_seconds max_freshness_seconds))
      (invalid_field "max_age_seconds")
  reject
      (is_empty policy.required_checks || ltb max_required_checks (length policy.required_checks))
      (invalid_field "required_checks")
  validate_required_checks [] policy.required_checks
  reject (is_empty policy.platforms || ltb max_platforms (length policy.platforms))
      (invalid_field "platforms")
  validate_platforms [] policy.platforms

unfoldable pub validate_trusted_config_path : String → Verdict
validate_trusted_config_path value =
    reject
      (Text.is_empty value
        || ltb 255 (len value)
        || starts_with_char b'/' value
        || starts_with_char b'~' value
        || contains_char 92 value
        || contains_char b':' value
        || any (λ segment. not (is_safe_segment segment)) (split b'/' value))
      (invalid_field "trusted_config")

unfoldable pub validate_producer_contract : ProducerContractV1_1 → Verdict
validate_producer_contract producer = do
  validate_name "producers.name" producer.name
  reject
      (Text.is_empty producer.version
        || ltb 128 (len producer.version)
        || any is_control (chars producer.version))
      (invalid_field "producers.version")

abbrev pub same_producer : ProducerContractV1_1 → ProducerContractV1_1 → Bool
same_producer a b = str_eq a.name b.name && str_eq a.version b.version

unfoldable pub validate_supported : List ProducerContractV1_1 → List ProducerContractV1_1 → Verdict
validate_supported seen [] = ok tt
validate_supported seen (producer ∷ more) =
    let rest = validate_supported (producer ∷ seen) more in
    validate_producer_contract producer
    >> reject (any (same_producer producer) seen) (duplicate_value "supported_producers")
    >> rest

unfoldable pub validate_revoked :
    (supported seen : List ProducerContractV1_1) → List ProducerContractV1_1 → Verdict
validate_revoked supported seen [] = ok tt
validate_revoked supported seen (producer ∷ more) =
    let rest = validate_revoked supported (producer ∷ seen) more in
    validate_producer_contract producer
    >> reject (any (same_producer producer) seen) (duplicate_value "revoked_producers")
    >> reject (any (same_producer producer) supported) (duplicate_value "producer_contracts")
    >> rest

abbrev pub baseline : VerificationPolicyV1_1 → VerificationPolicyV1
baseline policy = record {
  schema_version = policy_schema_version;
  project = policy.project;
  configuration_digest = policy.configuration_digest;
  required_checks = policy.required_checks;
  image_reference = policy.image_reference;
  max_age_seconds = policy.max_age_seconds;
  platforms = policy.platforms;
}

unfoldable pub validate_v1_1 : VerificationPolicyV1_1 → Verdict
unfolding validate_supported validate_revoked
validate_v1_1 policy = do
  reject (not (str_eq policy.schema_version trusted_plan_policy_schema_version))
      unsupported_schema_version
  validate (baseline policy)
  validate_trusted_config_path policy.trusted_config
  reject (is_empty policy.supported_producers) (invalid_field "supported_producers")
  validate_supported [] policy.supported_producers
  validate_revoked policy.supported_producers [] policy.revoked_producers
