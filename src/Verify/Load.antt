-- ===== src/Verify/Load.antt =====
-- The loading of policy files and the choice of a verification by the policy's version
-- (src/verify.rs), and `ConfigV1::load` of src/config.rs. Policies of version 2 are those of
-- src/matrix.rs: their type and their functions are parameters here.
pub mod Laws
use commit_ci_preflight.Prelude.{
  ℕ, ◌*◌, String, Bool, not, Option, none, some, List, ltb, length, if◌then◌else◌, str_eq,
}
use commit_ci_preflight.Outcome.{Outcome, ok, err, ◌>>=◌, ◌>>◌, reject, ok_or, map_err}
use commit_ci_preflight.Canonical.Digest.{Serialize, Codec}
use commit_ci_preflight.Config.Data.{
  ConfigV1, ExecutionPlanV1, ExecutionPlanEnvelopeV1, max_config_bytes,
}
use commit_ci_preflight.Config.Failure
use commit_ci_preflight.Config.Failure.{ConfigError, config_too_large}
use commit_ci_preflight.Config.Plan
use commit_ci_preflight.Config.Plan.{into_plan}
use commit_ci_preflight.Receipt.Data.{ReceiptV1, ReceiptV2}
use commit_ci_preflight.Verify.Policy
use commit_ci_preflight.Verify.Policy.{
  PolicyError, VerificationPolicyV1, VerificationPolicyV1_1, policy_schema_version,
  trusted_plan_policy_schema_version, validate, validate_v1_1,
}
use commit_ci_preflight.Verify.Report.{
  VerificationReportV1, VerificationError, TrustedPlanError, policy_path, unsafe_configuration_path,
  policy_document, trusted_plan, trusted_policy_path_required, Checked,
}
use commit_ci_preflight.Verify.Document.{Decoder, verify_receipt_document}
use commit_ci_preflight.Verify.Trusted.{verify_trusted_plan_receipt_document}

abbrev pub max_policy_bytes : ℕ
max_policy_bytes = 1024 * 1024

pub data VerificationPolicyDocument (M : Type 0) : Type 0 where
  v1 : VerificationPolicyV1 → VerificationPolicyDocument M
  v1_1 : VerificationPolicyV1_1 → VerificationPolicyDocument M
  v2 : M → VerificationPolicyDocument M

-- The payloads of errors that other crates and src/matrix.rs raise are left out.
pub data VerificationPolicyDocumentError : Type 0 where
  io too_large invalid_utf8 parse unsupported_schema_version : VerificationPolicyDocumentError
  v1 v1_1 : PolicyError → VerificationPolicyDocumentError
  v2 : VerificationPolicyDocumentError

pub data FileKind : Type 0 where
  regular symlink other : FileKind

abbrev pub is_regular : FileKind → Bool
is_regular regular = Bool.true
is_regular _ = Bool.false

-- The file system and the parsers. `schema_version` reads a text as TOML and takes its
-- `schema_version`, if that is a text.
pub record Host (M : Type 0) : Type 0 where
  pub metadata_len : String → Option ℕ
  pub read : String → Option (List ℕ)
  pub symlink_metadata : String → Option FileKind
  pub parent : String → Option String
  pub join : String → String → String
  pub from_utf8 : List ℕ → Option String
  pub schema_version : String → Option (Option String)
  pub policy_v1 : String → Option VerificationPolicyV1
  pub policy_v1_1 : String → Option VerificationPolicyV1_1
  pub policy_v2 : String → Option M
  pub config : String → Option ConfigV1

module _ {M : Type 0} (host : Host M) where
  -- `parse` of either policy.
  unfoldable pub parse_policy {ℓ} :
      {P : Type ℓ}
      → (from_str : String → Option P) → (check : P → Policy.Verdict) → List ℕ
      → Outcome PolicyError P
  parse_policy from_str check bytes = do
    reject (ltb max_policy_bytes (length bytes)) PolicyError.too_large
    source ← ok_or (host.from_utf8 bytes) PolicyError.invalid_utf8
    policy ← ok_or (from_str source) PolicyError.parse
    check policy
    ok policy

  -- The `match version`.
  unfoldable pub parse_version :
      List ℕ
      → String
      → Option String
      → Outcome VerificationPolicyDocumentError (VerificationPolicyDocument M)
  unfolding parse_policy
  parse_version bytes source none = err VerificationPolicyDocumentError.unsupported_schema_version
  parse_version bytes source (some version) =
      if str_eq version policy_schema_version
      then (map_err VerificationPolicyDocumentError.v1 (parse_policy host.policy_v1 validate bytes)
          >>= λ policy. ok (VerificationPolicyDocument.v1 policy))
      else if str_eq version trusted_plan_policy_schema_version
      then (map_err VerificationPolicyDocumentError.v1_1
            (parse_policy host.policy_v1_1 validate_v1_1 bytes)
          >>= λ policy. ok (VerificationPolicyDocument.v1_1 policy))
      else if str_eq version "2.0"
      then (ok_or (host.policy_v2 source) VerificationPolicyDocumentError.v2 >>= λ policy.
          ok (VerificationPolicyDocument.v2 policy))
      else err VerificationPolicyDocumentError.unsupported_schema_version

  unfoldable pub load_verification_policy_document :
      String → Outcome VerificationPolicyDocumentError (VerificationPolicyDocument M)
  unfolding parse_version
  load_verification_policy_document path = do
    size ← ok_or (host.metadata_len path) VerificationPolicyDocumentError.io
    reject (ltb max_policy_bytes size) VerificationPolicyDocumentError.too_large
    bytes ← ok_or (host.read path) VerificationPolicyDocumentError.io
    source ← ok_or (host.from_utf8 bytes) VerificationPolicyDocumentError.invalid_utf8
    version ← ok_or (host.schema_version source) VerificationPolicyDocumentError.parse
    parse_version bytes source version

  -- `ConfigV1::load`. A text that is not UTF-8 is an error of `read_to_string`.
  unfoldable pub load_config : String → Failure.Checked ConfigV1
  load_config path = do
    size ← ok_or (host.metadata_len path) ConfigError.io
    reject (ltb max_config_bytes size) (config_too_large size max_config_bytes)
    bytes ← ok_or (host.read path) ConfigError.io
    input ← ok_or (host.from_utf8 bytes) ConfigError.io
    Plan.parse host.config input

  module _ (codec : Codec) ⦃text : Serialize String⦄ ⦃plan : Serialize ExecutionPlanV1⦄ where
    unfoldable pub load_trusted_plan :
        VerificationPolicyV1_1 → String → Outcome TrustedPlanError ExecutionPlanEnvelopeV1
    unfolding load_config
    load_trusted_plan policy path = do
      directory ← ok_or (host.parent path) policy_path
      kind ←
          ok_or (host.symlink_metadata (host.join directory policy.trusted_config))
            TrustedPlanError.io
      reject (not (is_regular kind)) unsafe_configuration_path
      map_err TrustedPlanError.config
          (load_config (host.join directory policy.trusted_config) >>= into_plan codec)

    -- The `if let` of `validate_verification_policy_path`.
    abbrev pub validate_trusted_input : VerificationPolicyDocument M → String → Checked (Unit {0})
    validate_trusted_input (VerificationPolicyDocument.v1_1 policy) path =
        map_err trusted_plan (load_trusted_plan policy path) >>= λ loaded. ok tt
    validate_trusted_input document path = ok tt

    unfoldable pub validate_verification_policy_path : String → Checked (Unit {0})
    unfolding load_verification_policy_document load_trusted_plan
    validate_verification_policy_path path = do
      document ← map_err (λ e. policy_document) (load_verification_policy_document path)
      validate_trusted_input document path

    module _ (decoder : Decoder) ⦃s1 : Serialize ReceiptV1⦄ ⦃s2 : Serialize ReceiptV2⦄
        (verify_matrix : List ℕ
          → M
          → (expected_commit evaluated_at_utc : String) → Checked VerificationReportV1) where
      unfoldable pub verify_receipt_document_for_policy :
          List ℕ
          → VerificationPolicyDocument M
          → (expected_commit evaluated_at_utc : String) → Checked VerificationReportV1
      verify_receipt_document_for_policy bytes (VerificationPolicyDocument.v1 policy)
            expected_commit evaluated_at_utc =
          verify_receipt_document codec decoder bytes policy expected_commit evaluated_at_utc
      verify_receipt_document_for_policy bytes (VerificationPolicyDocument.v1_1 policy)
            expected_commit evaluated_at_utc =
          err trusted_policy_path_required
      verify_receipt_document_for_policy bytes (VerificationPolicyDocument.v2 policy)
            expected_commit evaluated_at_utc =
          verify_matrix bytes policy expected_commit evaluated_at_utc

      -- The `match &policy`.
      unfoldable pub verify_with :
          VerificationPolicyDocument M
          → List ℕ
          → (policy_path expected_commit evaluated_at_utc : String) → Checked VerificationReportV1
      unfolding verify_receipt_document_for_policy
      verify_with (VerificationPolicyDocument.v1_1 policy) bytes path expected_commit
            evaluated_at_utc =
          do
            loaded ← map_err trusted_plan (load_trusted_plan policy path)
            verify_trusted_plan_receipt_document codec decoder bytes policy loaded expected_commit
                evaluated_at_utc
      verify_with document bytes path expected_commit evaluated_at_utc =
          verify_receipt_document_for_policy bytes document expected_commit evaluated_at_utc

      unfoldable pub verify_receipt_document_for_policy_path :
          List ℕ
          → (policy_path expected_commit evaluated_at_utc : String) → Checked VerificationReportV1
      unfolding verify_with load_verification_policy_document
      verify_receipt_document_for_policy_path bytes path expected_commit evaluated_at_utc = do
        document ← map_err (λ e. policy_document) (load_verification_policy_document path)
        verify_with document bytes path expected_commit evaluated_at_utc
