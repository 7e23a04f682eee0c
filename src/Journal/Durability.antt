-- ===== src/Journal/Durability.antt =====
-- `transition` of src/run_journal.rs keeps the journal readable, or leaves a torn last file.
use commit_ci_preflight.Prelude.{
  ℕ, ◌≡◌, refl, ap, sym, ◌∙◌, ◌⊎◌, Option, none, some, String as Text, List, [], ◌∷◌, ◌++◌, arith,
  take, inl, inr,
}
use commit_ci_preflight.Outcome.{ok, err, ok_inj}
use commit_ci_preflight.Canonical.Digest.{Codec}
use commit_ci_preflight.Ordered.Map.{get, insert}
use commit_ci_preflight.Journal.Data.{
  RunJournalStateV1, RunFailureKindV1, RunJournalEntryV1, durable, Journaled,
}
use commit_ci_preflight.Journal.Files.{
  Node, file, Folder, folder, Runs, Fault, success, refused, unsynced, partial, create_new,
}
use commit_ci_preflight.Journal.Reading.{Serde, entry_name, read_entries}
use commit_ci_preflight.Journal.Store.{Step, create_file, append_entry}
use commit_ci_preflight.Journal.Transition.{act-state, act-eq-ok, next_entry}

-- What a durable write does to the directory, at a name that is free.
pub create_new-free :
    (fault : Fault) (name : Text) (bytes : List ℕ) (files : Folder)
    → get name files ≡ none
    → ((create_new fault name bytes files).0 ≡ files)
      ⊎ ((n : ℕ) × ((create_new fault name bytes files).0
            ≡ insert name (file (take n bytes)) files))
      ⊎ ((create_new fault name bytes files).0 ≡ insert name (file bytes) files)
unfolding create_new
create_new-free success name bytes files free = rw free (inr (inr refl))
create_new-free refused name bytes files free = rw free (inl refl)
create_new-free unsynced name bytes files free = rw free (inr (inr refl))
create_new-free (partial n) name bytes files free = rw free (inr (inl (n, refl)))

pub create_new-there :
    (fault : Fault) (name : Text) (bytes : List ℕ) (files : Folder) (node : Node)
    → get name files ≡ some node
    → create_new fault name bytes files ≡ (files, err durable)
unfolding create_new
create_new-there fault name bytes files node there = rw there

pub create_new-ok :
    (name : Text) (bytes : List ℕ) (files : Folder)
    → (create_new success name bytes files).1 ≡ ok tt
    → (create_new success name bytes files).0 ≡ insert name (file bytes) files
unfolding create_new
create_new-ok name bytes files h = ground arith

module _ (serde : Serde) (codec : Codec) (root_token : Text) (run_id : Text) where
  -- The reading depends on the directory of the run alone.
  pub read_entries-get :
      (before after : Runs)
      → get run_id after ≡ get run_id before
      → read_entries serde codec root_token run_id after
        ≡ read_entries serde codec root_token run_id before
  unfolding read_entries
  read_entries-get before after same = rw same

  module _ (runs : Runs) (files : Folder) (fault : Fault) (seq : ℕ) (state : RunJournalStateV1)
      (at_utc : Text) (kind : Option RunFailureKindV1) (bytes : List ℕ)
      (found : get run_id runs ≡ some (folder files))
      (encoded : serde.encode_entry (next_entry run_id seq state at_utc kind) ≡ some bytes) where
    abbrev made : Folder × Journaled (Unit {0})
    made = create_new fault (entry_name seq state) (bytes ++ 10 ∷ []) files

    created_file :
        create_file fault run_id (entry_name seq state) (bytes ++ 10 ∷ []) runs
        ≡ (insert run_id (folder made.0) runs, made.1)
    unfolding create_file
    created_file = rw found

    pub append_entry-files :
        (append_entry serde codec root_token fault run_id seq state at_utc kind runs).0
        ≡ insert run_id (folder made.0) runs
    unfolding append_entry
    append_entry-files = rw encoded (
        act-state (create_file fault run_id (entry_name seq state) (bytes ++ 10 ∷ []) runs)
          (next_entry run_id seq state at_utc kind)
        ∙ rw created_file)

    pub append_entry-result :
        {entry : RunJournalEntryV1} {runs' : Runs}
        → append_entry serde codec root_token fault run_id seq state at_utc kind runs
          ≡ (runs', ok entry)
        → (made.1 ≡ ok tt) × (entry ≡ next_entry run_id seq state at_utc kind)
    unfolding append_entry
    append_entry-result {entry} {runs'} h =
        let (done, went, result) =
          act-eq-ok (create_file fault run_id (entry_name seq state) (bytes ++ 10 ∷ []) runs) _
            (rw encoded at h) in
        (
          (sym (ap (λ (m : Step (Unit {0})). m.1) created_file) ∙ went),
          ok_inj (sym (ap (λ (m : Step RunJournalEntryV1). m.1) result)),
        )
