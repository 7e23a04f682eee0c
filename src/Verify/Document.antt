-- ===== src/Verify/Document.antt =====
-- `verify_receipt_document` and `receipt_input_failure_report` of src/verify.rs.
pub mod Consistent
pub mod Laws
use commit_ci_preflight.Prelude.{
  ℕ, ◌*◌, String, Bool, true, false, not, ◌&&◌, ◌||◌, List, [], ◌∷◌, Option, none, some, ltb, ◌==◌,
  if◌then◌else◌, str_eq, length, all, is_empty, ℤ,
}
use commit_ci_preflight.Outcome.{Outcome, ok, err, ◌>>=◌, ◌>>◌, reject, ok_or, map_err}
use commit_ci_preflight.Text.{as_bytes, len, is_lower_hex}
use commit_ci_preflight.Canonical.Json.{Value, Fields, text, object, end, field}
use commit_ci_preflight.Canonical.Digest.{Serialize, Codec}
use commit_ci_preflight.Config.Data.{ExecutionPlanV1}
use commit_ci_preflight.Receipt.Failure
use commit_ci_preflight.Receipt.Failure.{ReceiptError}
use commit_ci_preflight.Receipt.Data.{ReceiptV1, ReceiptEnvelopeV1, ReceiptV2, ReceiptEnvelopeV2}
use commit_ci_preflight.Receipt.Envelope.{verify_v1, verify_v2}
use commit_ci_preflight.Verify.Policy
use commit_ci_preflight.Verify.Policy.{VerificationPolicyV1}
use commit_ci_preflight.Verify.Utc.{parse_utc_seconds}
use commit_ci_preflight.Verify.Report.{
  VerificationStatus, pass, fail, not_run, VerificationDecision, VerificationFindingV1,
  VerificationReportV1, VerificationError, policy, invalid_expected_commit, invalid_evaluation_time,
  Checked, finding, decide, verification_report_schema_version,
}
use commit_ci_preflight.Verify.Evaluate.{ReceiptPolicyView, evaluate_policy}

abbrev pub max_receipt_bytes : ℕ
max_receipt_bytes = 4 * 1024 * 1024

-- `serde_json::from_slice` at each type that it is used at.
pub record Decoder : Type 0 where
  pub value : List ℕ → Option Value
  pub receipt_v1 : List ℕ → Option ReceiptEnvelopeV1
  pub receipt_v2 : List ℕ → Option ReceiptEnvelopeV2

pub data VerifiedReceipt : Type 0 where
  v1 : ReceiptEnvelopeV1 → VerifiedReceipt
  v2 : ReceiptEnvelopeV2 → VerifiedReceipt

abbrev pub receipt_id : VerifiedReceipt → String
receipt_id (v1 envelope) = envelope.receipt_id
receipt_id (v2 envelope) = envelope.receipt_id

abbrev pub view : VerifiedReceipt → ReceiptPolicyView
view (v1 envelope) = record {
  repository = envelope.receipt.repository;
  run = envelope.receipt.run;
  platform = envelope.receipt.platform;
  configuration_digest = envelope.receipt.configuration_digest;
  checks = envelope.receipt.checks;
  overall_status = envelope.receipt.overall_status;
}
view (v2 envelope) = record {
  repository = envelope.receipt.repository;
  run = envelope.receipt.run;
  platform = envelope.receipt.platform;
  configuration_digest = envelope.receipt.configuration_digest;
  checks = envelope.receipt.checks;
  overall_status = envelope.receipt.overall_status;
}

unfoldable pub validate_commit : String → Checked (Unit {0})
validate_commit value =
    reject (not (len value == 40 || len value == 64) || not (all is_lower_hex (as_bytes value)))
      invalid_expected_commit

abbrev pub get_field : String → Fields → Option Value
get_field key end = none
get_field key (field k v fields) = if str_eq k key then some v else get_field key fields

abbrev pub as_object : Option Value → Fields
as_object (some (object fields)) = fields
as_object _ = end

abbrev pub as_str : Option Value → Option String
as_str (some (text s)) = some s
as_str _ = none

-- `pointer("/receipt/schema_version").and_then(as_str)`: a value that is no object has no fields.
abbrev pub schema_version_of : Value → Option String
schema_version_of document =
    as_str
      (get_field "schema_version" (as_object (get_field "receipt" (as_object (some document)))))

abbrev pub parse_or_shape : VerificationFindingV1
parse_or_shape =
    finding "receipt.parse_or_shape" "receipt" "receipt is not valid strict schema v1 or v2 JSON"

-- The finding for an error of `envelope.verify()`.
abbrev pub integrity_finding : ReceiptError → VerificationFindingV1
integrity_finding (Failure.unsupported_schema_version v) =
    finding "receipt.unsupported_schema" "receipt" "receipt schema version is unsupported"
integrity_finding (Failure.digest_mismatch e a) =
    finding "receipt.digest_mismatch" "receipt"
      "receipt payload does not match its integrity identifier"
integrity_finding _ =
    finding "receipt.semantic_invalid" "receipt" "receipt violates schema semantic invariants"

abbrev pub parsed_as {ℓ} :
    {A : Type ℓ} → (A → VerifiedReceipt) → Option A → Outcome VerificationFindingV1 VerifiedReceipt
parsed_as wrap none = err parse_or_shape
parsed_as wrap (some envelope) = ok (wrap envelope)

module _ (decoder : Decoder) where
  -- The matches on the version and on the typed parse.
  unfoldable pub parse_version :
      List ℕ → Option String → Outcome VerificationFindingV1 VerifiedReceipt
  parse_version bytes none = err (
      finding "receipt.parse_or_shape" "receipt.schema_version"
        "receipt schema version is missing or invalid")
  parse_version bytes (some version) =
      if str_eq version "1.0"
      then parsed_as v1 (decoder.receipt_v1 bytes)
      else if str_eq version "2.0"
      then parsed_as v2 (decoder.receipt_v2 bytes)
      else err (
          finding "receipt.unsupported_schema" "receipt.schema_version"
            "receipt schema version is unsupported")

  -- From the size test to the parsed envelope, or the one finding of an early return.
  unfoldable pub parse_envelope : List ℕ → Outcome VerificationFindingV1 VerifiedReceipt
  unfolding parse_version
  parse_envelope bytes = do
    reject (ltb max_receipt_bytes (length bytes)) (
        finding "receipt.too_large" "receipt" "receipt exceeds the bounded verification input size")
    document ← ok_or (decoder.value bytes) parse_or_shape
    parse_version bytes (schema_version_of document)

abbrev pub initial_report : (evaluated_at_utc expected_commit : String) → VerificationReportV1
initial_report evaluated_at_utc expected_commit = record {
  schema_version = verification_report_schema_version;
  assurance_scope = "integrity_and_repository_policy_only";
  evaluated_at_utc = evaluated_at_utc;
  expected_commit = expected_commit;
  receipt_id = none;
  integrity_status = fail;
  policy_status = not_run;
  decision = VerificationDecision.fail;
  findings = [];
}

abbrev pub status_of : List VerificationFindingV1 → VerificationStatus
status_of findings = if is_empty findings then pass else fail

-- The report once the envelope has been verified and the policy evaluated.
abbrev pub policy_report :
    VerificationReportV1 → VerifiedReceipt → List VerificationFindingV1 → VerificationReportV1
policy_report report envelope findings = record report {
  receipt_id = some (receipt_id envelope);
  integrity_status = pass;
  policy_status = status_of findings;
  decision = decide pass (status_of findings);
  findings = findings;
}

-- The report on an envelope, or on the finding of an early return.
unfoldable pub report_from :
    VerificationReportV1
    → VerificationPolicyV1
    → String
    → ℤ
    → Outcome VerificationFindingV1 VerifiedReceipt
    → VerificationReportV1
report_from report p expected_commit evaluated_at (err found) = record report {
  findings = found ∷ [];
}
report_from report p expected_commit evaluated_at (ok envelope) =
    policy_report report envelope
      (evaluate_policy (view envelope) p expected_commit evaluated_at [])

module _ (codec : Codec) (decoder : Decoder) ⦃plan : Serialize ExecutionPlanV1⦄
    ⦃s1 : Serialize ReceiptV1⦄ ⦃s2 : Serialize ReceiptV2⦄ where
  unfoldable pub verify_envelope : VerifiedReceipt → Outcome ReceiptError (Unit {0})
  verify_envelope (v1 envelope) = verify_v1 codec envelope
  verify_envelope (v2 envelope) = verify_v2 codec envelope

  -- The receipt with its integrity established, or the finding that ends the verification.
  unfoldable pub open_envelope : List ℕ → Outcome VerificationFindingV1 VerifiedReceipt
  unfolding parse_envelope verify_envelope
  open_envelope bytes = do
    envelope ← parse_envelope decoder bytes
    map_err integrity_finding (verify_envelope envelope)
    ok envelope

  unfoldable pub report_on :
      List ℕ
      → VerificationPolicyV1
      → (expected_commit evaluated_at_utc : String) → ℤ
      → VerificationReportV1
  unfolding open_envelope report_from
  report_on bytes p expected_commit evaluated_at_utc evaluated_at =
      report_from (initial_report evaluated_at_utc expected_commit) p expected_commit evaluated_at
        (open_envelope bytes)

  unfoldable pub verify_receipt_document :
      List ℕ
      → VerificationPolicyV1
      → (expected_commit evaluated_at_utc : String) → Checked VerificationReportV1
  unfolding report_on validate_commit
  verify_receipt_document bytes p expected_commit evaluated_at_utc = do
    map_err policy (Policy.validate p)
    validate_commit expected_commit
    evaluated_at ← ok_or (parse_utc_seconds evaluated_at_utc) invalid_evaluation_time
    ok (report_on bytes p expected_commit evaluated_at_utc evaluated_at)

-- The report for a receipt that could not be read.
unfoldable pub receipt_input_failure_report :
    (expected_commit evaluated_at_utc : String) → Checked VerificationReportV1
unfolding validate_commit
receipt_input_failure_report expected_commit evaluated_at_utc = do
  validate_commit expected_commit
  evaluated_at ← ok_or (parse_utc_seconds evaluated_at_utc) invalid_evaluation_time
  ok (record (initial_report evaluated_at_utc expected_commit) {
    findings =
        finding "receipt.read_failed" "receipt"
          "receipt could not be read from the caller-supplied path"
        ∷ [];
  })
