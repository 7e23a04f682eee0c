-- ===== src/Journal/Recovery.antt =====
-- `apply` of src/run_journal.rs: an interrupted quarantine can be repeated.
use commit_ci_preflight.Prelude.{
  ℕ, ◌≡◌, refl, sym, ap, ◌∙◌, true, false, Option, none, some, String as Text, List, eq_refl,
  Bool-cases, inl, inr,
}
use commit_ci_preflight.Outcome.{ok, ok_or, reject, ok_inj}
use commit_ci_preflight.Canonical.Digest.{Codec}
use commit_ci_preflight.Ordered.Set.{IsSorted}
use commit_ci_preflight.Ordered.Map.{get, insert, keys, get-insert}
use commit_ci_preflight.Journal.Data.{
  RecoveryApplyV1, RunJournalEntryV1, corrupt, non_actionable, classify, is_terminal,
}
use commit_ci_preflight.Journal.Fields.{validate_run_id}
use commit_ci_preflight.Journal.Files.{
  rename_place, Folder, Place, folder, place_exists, Runs, Fault, success, remove,
}
use commit_ci_preflight.Journal.Reading.{
  Serde, run_marker, last, plain_directory, validate_run_marker, read_entries,
}
use commit_ci_preflight.Journal.Store.{
  Step, act, owns, run_marker_bytes, quarantined_result, quarantine_owned_tree, apply,
}
use commit_ci_preflight.Journal.Path.{read_entries-folder}
use commit_ci_preflight.Journal.Transition.{check-eq-ok, act-state, act-eq-ok}
use commit_ci_preflight.Journal.Rename.{
  quarantine_of, quarantine-ne, get-remove_self, rename_place-free, quarantine_owned_tree-rename,
  rename_place-ok, quarantine_owned_tree-parts,
}

module _ (serde : Serde) (codec : Codec) (root_token run_id : Text) (runs : Runs)
    (sorted : IsSorted (keys runs)) where
  -- Where the quarantine is there already, nothing is written.
  apply-there :
      (fault other : Fault)
      → place_exists (get (quarantine_of run_id) runs) ≡ true
      → apply serde codec root_token fault run_id runs
        ≡ apply serde codec root_token other run_id runs
  unfolding apply
  apply-there fault other there = rw there

  pub apply-there_state :
      {r : RecoveryApplyV1} {done : Runs}
      → place_exists (get (quarantine_of run_id) runs) ≡ true
      → apply serde codec root_token success run_id runs ≡ (done, ok r)
      → done ≡ runs
  unfolding apply
  apply-there_state {r} {done} there h =
      let (_, _, h1) = check-eq-ok (validate_run_id run_id) runs _ h in
      let (_, _, h2) =
        check-eq-ok (reject (place_exists (get run_id runs)) corrupt) runs _ (rw there at h1) in
      let (files, _, h3) =
        check-eq-ok (plain_directory (get (quarantine_of run_id) runs)) runs _ h2 in
      let (_, _, h4) =
        check-eq-ok (validate_run_marker serde codec root_token files run_id) runs _ h3 in
      sym (ap (λ (m : Step RecoveryApplyV1). m.0) h4)

  -- What `apply` has checked where it quarantines the run.
  pub record Quarantines (files : Folder) (marker : List ℕ) : Type 0 where
    pub valid : validate_run_id run_id ≡ ok tt
    found : get run_id runs ≡ some (folder files)
    pub marked : validate_run_marker serde codec root_token files run_id ≡ ok tt
    runs_to :
        (fault : Fault)
        → apply serde codec root_token fault run_id runs
          ≡ act
              (quarantine_owned_tree fault run_id
                (quarantine_of run_id)
                marker
                runs
                (some (folder files)))
              (λ runs' _. (runs', ok (quarantined_result run_id)))
    owned : owns (get run_marker files) marker ≡ true
    free : get (quarantine_of run_id) runs ≡ none

  apply-runs :
      (fault : Fault) (entries : List RunJournalEntryV1) (latest : RunJournalEntryV1)
      (marker : List ℕ) (place : Option Place)
      → place_exists (get (quarantine_of run_id) runs) ≡ false
      → validate_run_id run_id ≡ ok tt
      → read_entries serde codec root_token run_id runs ≡ ok entries
      → ok_or (last entries) corrupt ≡ ok latest
      → reject (is_terminal (classify latest.state)) non_actionable ≡ ok tt
      → run_marker_bytes serde codec root_token run_id ≡ ok marker
      → get run_id runs ≡ place
      → apply serde codec root_token fault run_id runs
        ≡ act
            (quarantine_owned_tree fault run_id (quarantine_of run_id) marker runs place)
            (λ runs' _. (runs', ok (quarantined_result run_id)))
  unfolding apply
  apply-runs fault entries latest marker place absent valid read ended open_ made found =
      rw (absent, valid, read, ended, open_, made) (rw found refl)

  pub quarantines :
      {r : RecoveryApplyV1} {done : Runs}
      → place_exists (get (quarantine_of run_id) runs) ≡ false
      → apply serde codec root_token success run_id runs ≡ (done, ok r)
      → (files : Folder) × (marker : List ℕ) × Quarantines files marker
  unfolding apply
  quarantines {r} {done} absent h =
      let (_, valid, h1) = check-eq-ok (validate_run_id run_id) runs _ h in
      let (entries, read, h2) =
        check-eq-ok (read_entries serde codec root_token run_id runs) runs _ (rw absent at h1) in
      let (latest, ended, h3) = check-eq-ok (ok_or (last entries) corrupt) runs _ h2 in
      let (_, open_, h4) =
        check-eq-ok (reject (is_terminal (classify latest.state)) non_actionable) runs _ h3 in
      let (marker, made, h5) =
        check-eq-ok (run_marker_bytes serde codec root_token run_id) runs _ h4 in
      let (files, found, marked, _, _, _) =
        read_entries-folder serde codec root_token run_id runs read in
      let (_, went, _) =
        act-eq-ok
          (quarantine_owned_tree success run_id (quarantine_of run_id) marker runs
            (get run_id runs))
          _ h5 in
      let (owned, free) =
        quarantine_owned_tree-parts run_id (quarantine_of run_id) files marker runs
          (get run_id runs) found went in
      (
        files,
        marker,
        record {
          valid = valid;
          found = found;
          marked = marked;
          runs_to = λ fault.
              apply-runs fault entries latest marker (some (folder files)) absent valid read ended
                open_ made found;
          owned = owned;
          free = free;
        },
      )

  -- Once the tree has been renamed.
  apply-renamed :
      (files : Folder)
      → validate_run_id run_id ≡ ok tt
      → validate_run_marker serde codec root_token files run_id ≡ ok tt
      → apply serde codec root_token success run_id
          (insert (quarantine_of run_id) (folder files) (remove run_id runs))
        ≡ (
          insert (quarantine_of run_id) (folder files) (remove run_id runs),
          ok (quarantined_result run_id),
        )
  unfolding apply
  apply-renamed files valid marked =
      let m = remove run_id runs in
      let q = quarantine_of run_id in
      rw
        (
          valid,
          get-insert q q (folder files) m,
          eq_refl q,
          get-insert q run_id (folder files) m,
          quarantine-ne run_id,
          get-remove_self run_id runs sorted,
          marked,
        )
        refl

  -- What is left of the directory after the quarantine.
  apply-left :
      (fault : Fault) (files : Folder) (marker : List ℕ)
      → Quarantines files marker
      → (apply serde codec root_token fault run_id runs).0
        ≡ (rename_place fault run_id (quarantine_of run_id) files runs).0
  apply-left fault files marker q =
      let tree =
        quarantine_owned_tree fault run_id (quarantine_of run_id) marker runs
          (some (folder files)) in
      ap (λ (m : Step RecoveryApplyV1). m.0) (q.runs_to fault)
      ∙ act-state tree (quarantined_result run_id)
      ∙ ap (λ (m : Step (Unit {0})). m.0)
          (quarantine_owned_tree-rename run_id (quarantine_of run_id) files marker runs fault
            q.owned)

  pub apply-done :
      (files : Folder) (marker : List ℕ) {r : RecoveryApplyV1} {done : Runs}
      → Quarantines files marker
      → apply serde codec root_token success run_id runs ≡ (done, ok r)
      → (insert (quarantine_of run_id) (folder files) (remove run_id runs) ≡ done)
        × (quarantined_result run_id ≡ r)
  apply-done files marker {r} {done} q h =
      let q_name = quarantine_of run_id in
      let (_, went, result) =
        act-eq-ok (quarantine_owned_tree success run_id q_name marker runs (some (folder files))) _
          (sym (q.runs_to success) ∙ h) in
      let renamed = quarantine_owned_tree-rename run_id q_name files marker runs success q.owned in
      let moved =
        (rename_place-ok run_id q_name files marker runs
          (sym (ap (λ (m : Step (Unit {0})). m.1) renamed) ∙ went)).1 in
      (
        sym moved
            ∙ sym (apply-left success files marker q)
            ∙ ap (λ (m : Step RecoveryApplyV1). m.0) h,
        ok_inj (ap (λ (m : Step RecoveryApplyV1). m.1) result),
      )

  apply-retry_absent :
      (fault : Fault) (files : Folder) (marker : List ℕ) {r : RecoveryApplyV1} {done : Runs}
      → Quarantines files marker
      → apply serde codec root_token success run_id runs ≡ (done, ok r)
      → apply serde codec root_token success run_id
          (apply serde codec root_token fault run_id runs).0
        ≡ (done, ok r)
  apply-retry_absent fault files marker {r} {done} q h =
      let (done_is, r_is) = apply-done files marker q h in
      let left = apply-left fault files marker q in
      elim (rename_place-free fault run_id (quarantine_of run_id) files runs q.free) [
        | inl same ↦ rw (left ∙ same) h
        | inr gone ↦ rw (left ∙ gone, ← r_is, ← done_is) (apply-renamed files q.valid q.marked)
      ]

  -- Where the names of the runs directory ascend and apply succeeds on a run, then after an apply
  -- that failed at any of its durable steps, or succeeded, a second apply gives the same result and
  -- the same directory.
  pub apply-retry :
      (fault : Fault) {r : RecoveryApplyV1} {done : Runs}
      → apply serde codec root_token success run_id runs ≡ (done, ok r)
      → apply serde codec root_token success run_id
          (apply serde codec root_token fault run_id runs).0
        ≡ (done, ok r)
  apply-retry fault {r} {done} h =
      elim (Bool-cases (place_exists (get (quarantine_of run_id) runs))) [
        | inl there ↦
            let same = apply-there_state there h in
            let kept =
              ap (λ (m : Step RecoveryApplyV1). m.0) (apply-there fault success there ∙ h) ∙ same in
            rw kept h
        | inr absent ↦
            let (files, marker, q) = quarantines absent h in
            apply-retry_absent fault files marker q h
      ]
