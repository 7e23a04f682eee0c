-- ===== src/Journal/Appended.antt =====
-- What `read_entries` of src/run_journal.rs gives after a transition, however its write goes.
use commit_ci_preflight.Prelude.{
  ◌<◌, ◌≡◌, refl, sym, ◌∙◌, true, false, none, some, String as Text, List, [], ◌∷◌, ◌++◌, arith,
  length, eq_refl,
}
use mathlib.Core.Path.{subst}
use commit_ci_preflight.Outcome.{ok, ◌>>=◌, some_inj}
use commit_ci_preflight.Canonical.Digest.{Codec}
use commit_ci_preflight.Ordered.Set.{IsSorted}
use commit_ci_preflight.Ordered.Map.{get, insert, keys, get-insert}
use commit_ci_preflight.Journal.Data.{RunJournalStateV1, RunJournalEntryV1}
use commit_ci_preflight.Journal.Files.{Node, Folder, folder, Runs}
use commit_ci_preflight.Journal.Reading.{
  Serde, is_reserved, entry_name, entry_files, resources_dir, resources_are_plain,
  validate_run_marker, check_source, read_entry, read_files, read_entries,
}
use commit_ci_preflight.Journal.Names.{
  entry_name-ne-run_marker, entry_name-ne-resources_dir, entry_name-ne-source_binding,
}
use commit_ci_preflight.Journal.Path.{
  read_entries-IsJournal, read_entries-folder, read_files-Continues,
}
use commit_ci_preflight.Journal.Bounds.{length-IsJournal}
use commit_ci_preflight.Journal.Insertion.{
  entry_files-insert, Named-AllBelow, read_files-append, validate_run_marker-insert,
  check_source-insert, get-resources-insert,
}

-- The names in the directory of a run ascend, as `read_dir` and `sort` give them.
abbrev pub IsListed : Text → Runs → Type 0
IsListed run_id runs =
    (files : Folder) → get run_id runs ≡ some (folder files) → IsSorted (keys files)

folder_inj : {files files' : Folder} → folder files ≡ folder files' → files ≡ files'
folder_inj h = cc

-- What `read_entries` found in the directory.
abbrev Reads : Serde → Codec → Text → Text → List RunJournalEntryV1 → Folder → Type 0
Reads serde codec root_token run_id entries files =
    (validate_run_marker serde codec root_token files run_id ≡ ok tt)
    × (resources_are_plain (get resources_dir files) ≡ true)
    × (check_source serde codec root_token files ≡ ok tt)
    × (read_files serde codec root_token run_id [] (entry_files files) ≡ ok entries)

module _ (serde : Serde) (codec : Codec) (root_token : Text) (run_id : Text) where
  -- The checks that pass give the files.
  read_entries-of :
      (runs : Runs) (files : Folder)
      → get run_id runs ≡ some (folder files)
      → validate_run_marker serde codec root_token files run_id ≡ ok tt
      → resources_are_plain (get resources_dir files) ≡ true
      → check_source serde codec root_token files ≡ ok tt
      → read_entries serde codec root_token run_id runs
        ≡ read_files serde codec root_token run_id [] (entry_files files)
  unfolding read_entries
  read_entries-of runs files found marked plain bound = rw (found, marked, plain, bound)

  module _ (runs : Runs) (files : Folder) (state : RunJournalStateV1) (node : Node)
      (entries : List RunJournalEntryV1)
      (h : read_entries serde codec root_token run_id runs ≡ ok entries)
      (found : get run_id runs ≡ some (folder files)) (sorted : IsSorted (keys files)) where
    abbrev name : Text
    name = entry_name (length entries) state

    few : length entries < 8
    few = omega (
      arith,
      length-IsJournal run_id entries (read_entries-IsJournal serde codec root_token run_id runs h),
    )

    free : is_reserved name ≡ false
    free =
        rw
          (
            entry_name-ne-run_marker (length entries) state few,
            entry_name-ne-resources_dir (length entries) state few,
            entry_name-ne-source_binding (length entries) state few,
          )
          refl

    abbrev longer : Folder
    longer = insert name node files

    checks : Reads serde codec root_token run_id entries files
    checks =
        let (files', found', marked, plain, bound, read) =
          read_entries-folder serde codec root_token run_id runs h in
        let same : files' ≡ files = folder_inj (some_inj (sym found' ∙ found)) in
        subst (Reads serde codec root_token run_id entries) same (marked, plain, bound, read)

    files-longer : entry_files longer ≡ entry_files files ++ (name, node) ∷ []
    files-longer =
        let (read, joined, path, named) =
          read_files-Continues serde codec root_token run_id [] (entry_files files) checks.3 in
        let path' = rw (← joined) at path in
        let named' = rw (← joined) at named in
        entry_files-insert name node files free sorted (
          Named-AllBelow run_id (length entries) state 0 none entries (entry_files files) few
            (omega arith) path' named')

    pub read_entries-insert :
        read_entries serde codec root_token run_id (insert run_id (folder longer) runs) ≡ (
          read_entry serde codec root_token run_id entries name node >>= λ e.
          ok (entries ++ e ∷ []))
    read_entries-insert =
        read_entries-of (insert run_id (folder longer) runs) longer
          (rw (get-insert run_id run_id (folder longer) runs, eq_refl run_id) refl)
          (validate_run_marker-insert serde codec root_token run_id name node files
              (entry_name-ne-run_marker (length entries) state few)
            ∙ checks.0)
          (rw
            (get-resources-insert serde codec root_token run_id name node files
              (entry_name-ne-resources_dir (length entries) state few))
            checks.1)
          (check_source-insert serde codec root_token run_id name node files
              (entry_name-ne-source_binding (length entries) state few)
            ∙ checks.2)
        ∙ (rw files-longer (
            read_files-append serde codec root_token run_id [] (entry_files files) name node
              checks.3))
