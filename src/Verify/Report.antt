-- ===== src/Verify/Report.antt =====
-- The verification report of src/verify.rs.
use commit_ci_preflight.Prelude.{
  ℕ, String, Bool, true, false, ◌&&◌, Option, List, [], ◌∷◌, ◌++◌, if◌then◌else◌,
}
use commit_ci_preflight.Outcome.{Outcome}
use commit_ci_preflight.Verify.Policy.{PolicyError}
use commit_ci_preflight.Config.Failure.{ConfigError}
use commit_ci_preflight.Receipt.Failure.{ReceiptError}

abbrev pub verification_report_schema_version : String
verification_report_schema_version = "1.0"

pub data VerificationStatus : Type 0 where
  pass fail not_run : VerificationStatus

pub data VerificationDecision : Type 0 where
  pass fail : VerificationDecision

pub record VerificationFindingV1 : Type 0 where
  pub code : String
  pub field : String
  pub message : String

pub record VerificationReportV1 : Type 0 where
  pub schema_version : String
  pub assurance_scope : String
  pub evaluated_at_utc : String
  pub expected_commit : String
  pub receipt_id : Option String
  pub integrity_status : VerificationStatus
  pub policy_status : VerificationStatus
  pub decision : VerificationDecision
  pub findings : List VerificationFindingV1

abbrev pub finding : (code field message : String) → VerificationFindingV1
finding code field message = record { code = code; field = field; message = message }

abbrev pub is_status_pass : VerificationStatus → Bool
is_status_pass pass = true
is_status_pass _ = false

-- The `if` that sets `decision`.
abbrev pub decide : (integrity policy : VerificationStatus) → VerificationDecision
decide integrity policy =
    if is_status_pass integrity && is_status_pass policy
    then VerificationDecision.pass
    else VerificationDecision.fail

unfoldable pub exit_code : VerificationReportV1 → ℕ
exit_code report = elim report.decision [ pass ↦ 0 | fail ↦ 3 ]

-- `findings.push(finding)` under a test.
abbrev pub push_if :
    Bool → VerificationFindingV1 → List VerificationFindingV1 → List VerificationFindingV1
push_if true found findings = findings ++ found ∷ []
push_if false found findings = findings

-- The payloads of `Io` are left out.
pub data TrustedPlanError : Type 0 where
  policy_path io unsafe_configuration_path : TrustedPlanError
  config : ConfigError → TrustedPlanError

-- The texts of `PolicyDocument` and `Matrix` are left out.
pub data VerificationError : Type 0 where
  policy : PolicyError → VerificationError
  policy_document : VerificationError
  trusted_plan : TrustedPlanError → VerificationError
  trusted_policy_path_required invalid_expected_commit invalid_evaluation_time : VerificationError
  receipt : ReceiptError → VerificationError
  matrix : VerificationError

abbrev pub Checked {ℓ} : Type ℓ → Type ℓ
Checked A = Outcome VerificationError A
