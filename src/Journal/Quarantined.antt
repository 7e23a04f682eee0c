-- ===== src/Journal/Quarantined.antt =====
-- `apply` and `status` of src/run_journal.rs: what `status` tells of a quarantined run.
use mathlib.Core.List.{Memᴰ}
use commit_ci_preflight.Prelude.{
  ◌≡◌, refl, ap, true, false, none, some, String as Text, [], ◌∷◌, str_eq, eq_iff, eq_refl,
  Bool-cases, inl, inr, arith,
}
use commit_ci_preflight.Outcome.{ok, reject, reject-eq-ok}
use commit_ci_preflight.Journal.Token.{strip_prefix-append}
use commit_ci_preflight.Canonical.Digest.{Codec}
use commit_ci_preflight.Ordered.Set.{IsSorted}
use commit_ci_preflight.Ordered.Map.{get, insert, keys, get-insert}
use commit_ci_preflight.Journal.Data.{RecoveryApplyV1, RecoveryRunStatusV1, quarantined, corrupt}
use commit_ci_preflight.Journal.Fields.{validate_run_id, bounded_run_id}
use commit_ci_preflight.Journal.Files.{Folder, Place, folder, place_exists, Runs, success, remove}
use commit_ci_preflight.Journal.Reading.{Serde, plain_directory, validate_run_marker}
use commit_ci_preflight.Journal.Resources.{run_status, statuses, status}
use commit_ci_preflight.Journal.Store.{quarantine_prefix, Step, apply}
use commit_ci_preflight.Journal.Path.{plain_directory-eq-ok}
use commit_ci_preflight.Journal.Transition.{check-eq-ok}
use commit_ci_preflight.Journal.Rename.{quarantine_of, quarantine-ne, get-remove_self}
use commit_ci_preflight.Journal.Recovery.{quarantines, apply-done}

abbrev pub quarantined_status : Text → RecoveryRunStatusV1
quarantined_status run_id = record { run_id = run_id; state = none; classification = quarantined }

module _ (serde : Serde) (codec : Codec) (root_token run_id : Text) where
  statuses-get :
      (runs : Runs) (name : Text) (place : Place) (m : Runs)
      → get name m ≡ some place
      → Memᴰ
          (run_status serde codec root_token runs name place)
          (statuses serde codec root_token runs m)
  unfolding get statuses
  statuses-get runs name place [] h = absurd (ground arith)
  statuses-get runs name place ((k, p) ∷ m) h = elim (Bool-cases (str_eq k name)) [
    | inl same ↦
        let names = (eq_iff k name).0 same in
        let values : p ≡ place = ground arith in Memᴰ.head (cc)
    | inr apart ↦ Memᴰ.tail (statuses-get runs name place m (rw apart at h))
  ]

  run_status-quarantined :
      (files : Folder) (runs : Runs)
      → validate_run_id run_id ≡ ok tt
      → validate_run_marker serde codec root_token files run_id ≡ ok tt
      → run_status serde codec root_token runs (quarantine_of run_id) (folder files)
        ≡ quarantined_status run_id
  unfolding run_status bounded_run_id
  run_status-quarantined files runs valid marked =
      rw (run_status, strip_prefix-append quarantine_prefix run_id, valid, marked) refl

  status-listed :
      (files : Folder) (runs : Runs)
      → get (quarantine_of run_id) runs ≡ some (folder files)
      → validate_run_id run_id ≡ ok tt
      → validate_run_marker serde codec root_token files run_id ≡ ok tt
      → Memᴰ (quarantined_status run_id) (status serde codec root_token runs).runs
  unfolding status
  status-listed files runs found valid marked =
      rw (← run_status-quarantined files runs valid marked)
        (statuses-get runs (quarantine_of run_id) (folder files) runs found)

  module _ (runs : Runs) (sorted : IsSorted (keys runs)) where
    apply-listed_there :
        {r : RecoveryApplyV1} {done : Runs}
        → place_exists (get (quarantine_of run_id) runs) ≡ true
        → apply serde codec root_token success run_id runs ≡ (done, ok r)
        → Memᴰ (quarantined_status run_id) (status serde codec root_token done).runs
          × (place_exists (get run_id done) ≡ false)
    unfolding apply status
    apply-listed_there {r} {done} there h =
        let (_, valid, h1) = check-eq-ok (validate_run_id run_id) runs _ h in
        let (_, gone, h2) =
          check-eq-ok (reject (place_exists (get run_id runs)) corrupt) runs _ (rw there at h1) in
        let (files, found, h3) =
          check-eq-ok (plain_directory (get (quarantine_of run_id) runs)) runs _ h2 in
        let (_, marked, h4) =
          check-eq-ok (validate_run_marker serde codec root_token files run_id) runs _ h3 in
        let same : runs ≡ done = ap (λ (m : Step RecoveryApplyV1). m.0) h4 in
        let at_rest = plain_directory-eq-ok (get (quarantine_of run_id) runs) found in
        rw (← same) (status-listed files runs at_rest valid marked, reject-eq-ok _ corrupt gone)

    apply-listed_absent :
        {r : RecoveryApplyV1} {done : Runs}
        → place_exists (get (quarantine_of run_id) runs) ≡ false
        → apply serde codec root_token success run_id runs ≡ (done, ok r)
        → Memᴰ (quarantined_status run_id) (status serde codec root_token done).runs
          × (place_exists (get run_id done) ≡ false)
    apply-listed_absent {r} {done} absent h =
        let (files, marker, q) = quarantines serde codec root_token run_id runs sorted absent h in
        let (done_is, _) = apply-done serde codec root_token run_id runs sorted files marker q h in
        let rest = remove run_id runs in
        let name = quarantine_of run_id in
        let found = get-insert name name (folder files) rest in
        let gone = get-insert name run_id (folder files) rest in
        rw (← done_is) (
          status-listed files (insert name (folder files) rest) (rw (eq_refl name) at found) q.valid
              q.marked,
          rw (gone, quarantine-ne run_id, get-remove_self run_id runs sorted) refl,
        )

    -- Where the names of the runs directory ascend and apply succeeds on a run, status lists the
    -- run as quarantined, and no path under its own name exists.
    pub apply-listed :
        {r : RecoveryApplyV1} {done : Runs}
        → apply serde codec root_token success run_id runs ≡ (done, ok r)
        → Memᴰ (quarantined_status run_id) (status serde codec root_token done).runs
          × (place_exists (get run_id done) ≡ false)
    apply-listed h = elim (Bool-cases (place_exists (get (quarantine_of run_id) runs))) [
      | inl there ↦ apply-listed_there there h
      | inr absent ↦ apply-listed_absent absent h
    ]
