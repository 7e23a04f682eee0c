-- ===== src/Journal/Resources.antt =====
-- `reserve_resource`, `bind_source` and `status` of `RunJournalStore` in src/run_journal.rs.
use commit_ci_preflight.Prelude.{
  ℕ, Bool, false, not, ◌&&◌, Option, none, some, String as Text, List, [], ◌∷◌, ◌++◌, ◌==◌,
  if◌then◌else◌, contains,
}
use commit_ci_preflight.Outcome.{ok, err, reject, ok_or}
use commit_ci_preflight.Text.{strip_prefix}
use commit_ci_preflight.Ordered.Map.{get, insert}
use commit_ci_preflight.Canonical.Digest.{Codec}
use commit_ci_preflight.Journal.Data.{
  RunJournalEntryV1, RunJournalSourceV1, quarantined, operator_required, RecoveryRunStatusV1,
  RecoveryStatusV1, durable, corrupt, ownership_mismatch, Journaled, schema_version, classify,
}
use commit_ci_preflight.Journal.Fields.{
  is_err, validate_run_id, validate_resource_id, validate_hex_identity, validate_digest,
  bounded_run_id,
}
use commit_ci_preflight.Journal.Files.{
  Node, file, directory, link, Folder, Place, folder, foreign, Runs, Fault, success, refused,
  unsynced, partial,
}
use commit_ci_preflight.Journal.Reading.{
  resources_dir, source_binding, Serde, plain_directory, last, validate_run_marker, read_entries,
}
use commit_ci_preflight.Journal.Store.{
  quarantine_prefix, Step, check, act, create_file, operator_status,
}

-- `create_new_directory` of `resources`, and the match on its error: the names that it holds.
unfoldable pub make_resources : Fault → Option Node → Folder → Folder × Journaled (List Text)
unfolding insert
make_resources fault (some (directory names)) entries = (entries, ok names)
make_resources fault (some (file bytes)) entries = (entries, err ownership_mismatch)
make_resources fault (some (link target)) entries = (entries, err ownership_mismatch)
make_resources success none entries = (insert resources_dir (directory []) entries, ok [])
make_resources refused none entries = (entries, err durable)
make_resources unsynced none entries = (insert resources_dir (directory []) entries, err durable)
make_resources (partial n) none entries = (insert resources_dir (directory []) entries, err durable)

module _ (serde : Serde) (codec : Codec) (root_token : Text) where
  -- The result stands for the path `runs/<run_id>/resources/<resource_id>`.
  unfoldable pub reserve_resource : Fault → Text → Text → Runs → Step (Text × Text)
  unfolding validate_run_id validate_resource_id get insert validate_run_marker make_resources
  reserve_resource fault run_id resource_id runs = check (validate_run_id run_id) runs λ _.
      check (validate_resource_id resource_id) runs λ _.
        check (plain_directory (get run_id runs)) runs λ entries.
          check (validate_run_marker serde codec root_token entries run_id) runs λ _.
            let (entries', made) = make_resources fault (get resources_dir entries) entries in
            check made (insert run_id (folder entries') runs) λ names.
              check (reject (contains names resource_id) ownership_mismatch)
                (insert run_id (folder entries') runs)
                λ _. (insert run_id (folder entries') runs, ok (run_id, resource_id))

  unfoldable pub bind_source : Fault → Text → Text → Text → ℕ → Runs → Step RunJournalSourceV1
  unfolding validate_run_id validate_hex_identity validate_digest get validate_run_marker
      create_file
  bind_source fault run_id commit_sha manifest_digest entry_count runs =
      let binding : RunJournalSourceV1 = record {
        schema_version = schema_version;
        commit_sha = commit_sha;
        manifest_digest = manifest_digest;
        entry_count = entry_count;
        resource_id = "source-snapshot-v1";
      } in
      check (validate_run_id run_id) runs λ _. check (validate_hex_identity commit_sha) runs λ _.
        check (validate_digest manifest_digest) runs λ _.
          check (reject (entry_count == 0) corrupt) runs λ _.
            check (plain_directory (get run_id runs)) runs λ entries.
              check (validate_run_marker serde codec root_token entries run_id) runs λ _.
                check (ok_or (serde.encode_source binding) corrupt) runs λ bytes.
                  act (create_file fault run_id source_binding (bytes ++ 10 ∷ []) runs)
                    λ runs' _. (runs', ok binding)

  abbrev is_quarantined : Text → Place → Bool
  is_quarantined run_id (folder entries) =
      not (is_err (validate_run_id run_id))
      && not (is_err (validate_run_marker serde codec root_token entries run_id))
  is_quarantined run_id (foreign target) = false

  abbrev quarantine_status : Text → Place → RecoveryRunStatusV1
  quarantine_status run_id place = record {
    run_id = bounded_run_id run_id;
    state = none;
    classification = if is_quarantined run_id place then quarantined else operator_required;
  }

  abbrev journal_status : Text → Journaled (List RunJournalEntryV1) → RecoveryRunStatusV1
  journal_status name (err e) = operator_status name
  journal_status name (ok entries) = elim (last entries) [
    | none ↦ operator_status name
    | some latest ↦ record {
      run_id = name;
      state = some latest.state;
      classification = classify latest.state;
    }
  ]

  -- The body of the loop of `status`.
  unfoldable pub run_status : Runs → Text → Place → RecoveryRunStatusV1
  unfolding strip_prefix validate_run_id validate_run_marker bounded_run_id read_entries classify
      operator_status
  run_status runs name place = elim (strip_prefix quarantine_prefix name) [
    | some run_id ↦ quarantine_status run_id place
    | none ↦
        if is_err (validate_run_id name)
        then operator_status "unknown"
        else journal_status name (read_entries serde codec root_token name runs)
  ]

  unfoldable pub statuses : Runs → Runs → List RecoveryRunStatusV1
  unfolding run_status
  statuses runs [] = []
  statuses runs ((name, place) ∷ rest) = run_status runs name place ∷ statuses runs rest

  unfoldable pub status : Runs → RecoveryStatusV1
  unfolding statuses
  status runs = record { schema_version = schema_version; runs = statuses runs runs }
