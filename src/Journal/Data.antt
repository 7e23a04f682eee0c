-- ===== src/Journal/Data.antt =====
-- The types of src/run_journal.rs, the legal transitions and what recovery makes of a state.
use commit_ci_preflight.Prelude.{ℕ, Bool, true, false, Option, String, List}
use commit_ci_preflight.Outcome.{Outcome}

pub data RunJournalStateV1 : Type 0 where
  created admitted prepared executing finalizing cleanup_pending failed sealed : RunJournalStateV1

pub data RunFailureKindV1 : Type 0 where
  admission_rejected preparation_failed execution_failed finalization_failed : RunFailureKindV1
  cleanup_failed resource_pressure stale_commit invariant unknown : RunFailureKindV1

pub record RunJournalEntryV1 : Type 0 where
  pub schema_version : String
  pub run_id : String
  pub seq : ℕ
  pub state : RunJournalStateV1
  pub at_utc : String
  pub failure_kind : Option RunFailureKindV1

pub record RunOwnerMarkerV1 : Type 0 where
  pub schema_version : String
  pub owner : String
  pub purpose : String
  pub root_token : String
  pub run_id : String
  pub run_token : String

pub record RunJournalSourceV1 : Type 0 where
  pub schema_version : String
  pub commit_sha : String
  pub manifest_digest : String
  pub entry_count : ℕ
  pub resource_id : String

pub data RecoveryClassificationV1 : Type 0 where
  restartable cleanup_required terminal quarantined operator_required : RecoveryClassificationV1

pub record RecoveryRunStatusV1 : Type 0 where
  pub run_id : String
  pub state : Option RunJournalStateV1
  pub classification : RecoveryClassificationV1

pub record RecoveryStatusV1 : Type 0 where
  pub schema_version : String
  pub runs : List RecoveryRunStatusV1

pub record RecoveryApplyV1 : Type 0 where
  pub schema_version : String
  pub run_id : String
  pub outcome : RecoveryClassificationV1

-- The payloads of `Io` and `Durable` are the operating system's.
pub data RunJournalError : Type 0 where
  io durable invalid_run_id invalid_timestamp invalid_transition : RunJournalError
  corrupt ownership_mismatch non_actionable : RunJournalError

abbrev pub Journaled {ℓ} : Type ℓ → Type ℓ
Journaled A = Outcome RunJournalError A

abbrev pub schema_version : String
schema_version = "1.0"

unfoldable pub legal_transition : RunJournalStateV1 → RunJournalStateV1 → Bool
legal_transition created admitted = true
legal_transition created failed = true
legal_transition created cleanup_pending = true
legal_transition admitted prepared = true
legal_transition admitted failed = true
legal_transition admitted cleanup_pending = true
legal_transition prepared executing = true
legal_transition prepared failed = true
legal_transition prepared cleanup_pending = true
legal_transition executing finalizing = true
legal_transition executing failed = true
legal_transition executing cleanup_pending = true
legal_transition finalizing sealed = true
legal_transition finalizing failed = true
legal_transition finalizing cleanup_pending = true
legal_transition cleanup_pending failed = true
legal_transition _ _ = false

unfoldable pub classify : RunJournalStateV1 → RecoveryClassificationV1
classify created = restartable
classify admitted = restartable
classify prepared = restartable
classify executing = cleanup_required
classify finalizing = cleanup_required
classify cleanup_pending = cleanup_required
classify failed = terminal
classify sealed = terminal

unfoldable pub state_name : RunJournalStateV1 → String
state_name created = "created"
state_name admitted = "admitted"
state_name prepared = "prepared"
state_name executing = "executing"
state_name finalizing = "finalizing"
state_name cleanup_pending = "cleanup-pending"
state_name failed = "failed"
state_name sealed = "sealed"

-- The states that `matches!` and `==` ask for.
abbrev pub is_created : RunJournalStateV1 → Bool
is_created created = true
is_created _ = false

abbrev pub is_failed : RunJournalStateV1 → Bool
is_failed failed = true
is_failed _ = false

abbrev pub is_cleanup_pending : RunJournalStateV1 → Bool
is_cleanup_pending cleanup_pending = true
is_cleanup_pending _ = false

abbrev pub is_terminal : RecoveryClassificationV1 → Bool
is_terminal terminal = true
is_terminal _ = false

abbrev pub may_hold_admission : RunJournalStateV1 → Bool
may_hold_admission created = true
may_hold_admission admitted = true
may_hold_admission prepared = true
may_hold_admission executing = true
may_hold_admission finalizing = true
may_hold_admission _ = false
