-- ===== src/Journal/Store.antt =====
-- The operations of `RunJournalStore` in src/run_journal.rs. Each one is a function on the directory
-- `runs`, and takes how its durable operations go.
use Prim.Native.String
use commit_ci_preflight.Prelude.{
  ℕ, ◌+◌, Bool, true, false, not, ◌&&◌, Option, none, some, String as Text, List, [], ◌∷◌, ◌++◌,
  ◌==◌, if◌then◌else◌,
}
use commit_ci_preflight.Outcome.{ok, err, ◌>>=◌, reject, ok_or}
use commit_ci_preflight.Ordered.Map.{get, insert}
use commit_ci_preflight.Canonical.Digest.{Codec}
use commit_ci_preflight.Journal.Data.{
  RunJournalStateV1, created, cleanup_pending, RunFailureKindV1, RunJournalEntryV1, quarantined,
  operator_required, RecoveryRunStatusV1, RecoveryApplyV1, durable, invalid_transition, corrupt,
  non_actionable, Journaled, schema_version, legal_transition, classify, is_created, is_failed,
  is_cleanup_pending, is_terminal, may_hold_admission,
}
use commit_ci_preflight.Journal.Fields.{
  is_some, same_bool, validate_run_id, validate_timestamp, bounded_run_id,
}
use commit_ci_preflight.Journal.Files.{
  Node, file, Place, folder, foreign, place_exists, Runs, Fault, create_new, create_new_directory,
  rename_place,
}
use commit_ci_preflight.Journal.Reading.{
  run_marker, Serde, entry_name, plain_directory, last, derived_run_token, validate_run_marker,
  read_entries,
}

abbrev pub quarantine_prefix : Text
quarantine_prefix = "quarantined-"

abbrev pub Step {ℓ} : Type ℓ → Type ℓ
Step A = Runs × Journaled A

-- A `?` on a check that changes nothing.
abbrev pub check {ℓ κ} : {A : Type ℓ} {B : Type κ} → Journaled A → Runs → (A → Step B) → Step B
check (err e) runs next = (runs, err e)
check (ok a) runs next = next a

-- A `?` on an operation that leaves other directories.
abbrev pub act {ℓ κ} : {A : Type ℓ} {B : Type κ} → Step A → (Runs → A → Step B) → Step B
act (runs, err e) next = (runs, err e)
act (runs, ok a) next = next runs a

-- `create_new` in the directory of a run, which is there.
abbrev create_in : Fault → Text → Text → List ℕ → Runs → Option Place → Step (Unit {0})
create_in fault run_id name bytes runs none = (runs, err durable)
create_in fault run_id name bytes runs (some (foreign target)) = (runs, err durable)
create_in fault run_id name bytes runs (some (folder entries)) =
    let (entries', done) = create_new fault name bytes entries in
    (insert run_id (folder entries') runs, done)

unfoldable pub create_file : Fault → Text → Text → List ℕ → Runs → Step (Unit {0})
unfolding create_new get insert
create_file fault run_id name bytes runs = create_in fault run_id name bytes runs (get run_id runs)

unfoldable pub quarantined_result : Text → RecoveryApplyV1
quarantined_result run_id = record {
  schema_version = schema_version;
  run_id = run_id;
  outcome = quarantined;
}

unfoldable pub operator_status : Text → RecoveryRunStatusV1
unfolding bounded_run_id
operator_status run_id = record {
  run_id = bounded_run_id run_id;
  state = none;
  classification = operator_required;
}

abbrev same_bytes : List ℕ → List ℕ → Bool
same_bytes [] [] = true
same_bytes [] (b ∷ bs) = false
same_bytes (a ∷ rest) [] = false
same_bytes (a ∷ rest) (b ∷ bs) = a == b && same_bytes rest bs

-- `push(b'\n')`.
abbrev with_newline : List ℕ → List ℕ
with_newline bytes = bytes ++ 10 ∷ []

abbrev pub may_follow : RunJournalStateV1 → RunJournalStateV1 → Option RunFailureKindV1 → Bool
may_follow previous state failure_kind =
    legal_transition previous state
    && not (is_created previous && is_cleanup_pending state)
    && same_bool (is_failed state) (is_some failure_kind)

-- The bytes of `validate_owned_tree`.
abbrev pub owns : Option Node → List ℕ → Bool
owns (some (file bytes)) marker = same_bytes bytes marker
owns _ marker = false

unfoldable pub quarantine_owned_tree :
    Fault → Text → Text → List ℕ → Runs → Option Place → Step (Unit {0})
unfolding get rename_place
quarantine_owned_tree fault from to marker runs (some (folder entries)) =
    check (reject (not (owns (get run_marker entries) marker)) durable) runs
      λ _. rename_place fault from to entries runs
quarantine_owned_tree fault from to marker runs _ = (runs, err durable)

module _ (serde : Serde) (codec : Codec) (root_token : Text) where
  unfoldable pub append_entry :
      Fault
      → Text
      → ℕ
      → RunJournalStateV1
      → Text
      → Option RunFailureKindV1
      → Runs
      → Step RunJournalEntryV1
  unfolding create_file entry_name
  append_entry fault run_id seq state at_utc failure_kind runs =
      let entry : RunJournalEntryV1 = record {
        schema_version = schema_version;
        run_id = run_id;
        seq = seq;
        state = state;
        at_utc = at_utc;
        failure_kind = failure_kind;
      } in
      check (ok_or (serde.encode_entry entry) corrupt) runs λ bytes.
        act (create_file fault run_id (entry_name seq state) (with_newline bytes) runs)
          λ runs' done. (runs', ok entry)

  unfoldable pub run_marker_bytes : Text → Journaled (List ℕ)
  unfolding derived_run_token
  run_marker_bytes run_id = do
    token ← derived_run_token serde codec root_token run_id
    bytes ←
        ok_or
          (serde.encode_marker (record {
            schema_version = schema_version;
            owner = "commit-ci-preflight";
            purpose = "run-journal-entry";
            root_token = root_token;
            run_id = run_id;
            run_token = token;
          }))
          corrupt
    ok (with_newline bytes)

  -- The faults of the directory, of the marker and of the entry.
  unfoldable pub create_run : Fault → Fault → Fault → Text → Text → Runs → Step RunJournalEntryV1
  unfolding validate_run_id validate_timestamp create_new_directory run_marker_bytes create_file
      append_entry
  create_run made marked appended run_id at_utc runs = check (validate_run_id run_id) runs λ _.
      check (validate_timestamp at_utc) runs λ _.
        act (create_new_directory made run_id runs) λ runs1 _.
          check (run_marker_bytes run_id) runs1 λ bytes.
            act (create_file marked run_id run_marker bytes runs1)
              λ runs2 _. append_entry appended run_id 0 created at_utc none runs2

  -- Both refusals of the source are `InvalidTransition`.
  unfoldable pub transition :
      Fault
      → Text
      → RunJournalStateV1
      → Text
      → Option RunFailureKindV1
      → Runs
      → Step RunJournalEntryV1
  unfolding validate_run_id validate_timestamp read_entries legal_transition append_entry
  transition fault run_id state at_utc failure_kind runs = check (validate_run_id run_id) runs λ _.
      check (validate_timestamp at_utc) runs λ _.
        check (read_entries serde codec root_token run_id runs) runs λ entries.
          check (ok_or (last entries) corrupt) runs λ previous.
            check (reject (not (may_follow previous.state state failure_kind)) invalid_transition)
              runs λ _. append_entry fault run_id (previous.seq + 1) state at_utc failure_kind runs

  unfoldable pub transition_cleanup_pending_after_admission_acquired :
      Fault → Text → Text → Runs → Step RunJournalEntryV1
  unfolding validate_run_id validate_timestamp read_entries append_entry
  transition_cleanup_pending_after_admission_acquired fault run_id at_utc runs =
      check (validate_run_id run_id) runs λ _. check (validate_timestamp at_utc) runs λ _.
        check (read_entries serde codec root_token run_id runs) runs λ entries.
          check (ok_or (last entries) corrupt) runs λ previous.
            check (reject (not (may_hold_admission previous.state)) invalid_transition) runs
              λ _. append_entry fault run_id (previous.seq + 1) cleanup_pending at_utc none runs

  unfoldable pub apply : Fault → Text → Runs → Step RecoveryApplyV1
  unfolding validate_run_id get validate_run_marker read_entries classify run_marker_bytes
      quarantine_owned_tree quarantined_result
  apply fault run_id runs =
      let quarantine = String.◌++◌ quarantine_prefix run_id in
      check (validate_run_id run_id) runs λ _.
        if place_exists (get quarantine runs)
        then check (reject (place_exists (get run_id runs)) corrupt) runs (λ _.
          check (plain_directory (get quarantine runs)) runs λ entries.
            check (validate_run_marker serde codec root_token entries run_id) runs
              λ _. (runs, ok (quarantined_result run_id)))
        else check (read_entries serde codec root_token run_id runs) runs (λ entries.
          check (ok_or (last entries) corrupt) runs λ latest.
            check (reject (is_terminal (classify latest.state)) non_actionable) runs λ _.
              check (run_marker_bytes run_id) runs λ marker.
                act (quarantine_owned_tree fault run_id quarantine marker runs (get run_id runs))
                  λ runs' _. (runs', ok (quarantined_result run_id)))
