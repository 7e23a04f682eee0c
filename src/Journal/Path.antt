-- ===== src/Journal/Path.antt =====
-- What `read_entries` of src/run_journal.rs accepts is a path of the legal transitions.
use commit_ci_preflight.Prelude.{
  ℕ, suc, ◌≡◌, refl, sym, ◌∙◌, Bool, true, false, not, ◌&&◌, ◌||◌, ◌==◌, ==_iff, Option, none, some,
  String as Text, List, [], ◌∷◌, ◌++◌, arith, length, length-append, str_eq, eq_iff,
}
use mathlib.Core.Path.{subst}
use mathlib.Core.List.{append-nil, append_assoc}
use commit_ci_preflight.Outcome.{ok, >>=-eq-ok, >>-eq-ok, reject->>-eq-ok, reject-eq-ok, ok_inj}
use commit_ci_preflight.Canonical.Digest.{Codec}
use commit_ci_preflight.Ordered.Map.{get}
use commit_ci_preflight.Journal.Data.{
  RunJournalStateV1, created, RunJournalEntryV1, ownership_mismatch, corrupt, is_created, is_failed,
  schema_version,
}
use commit_ci_preflight.Journal.Fields.{
  is_err, is_some, same_bool, validate_entry, validate_timestamp,
}
use commit_ci_preflight.Journal.Files.{Node, Folder, Place, folder, foreign, Runs}
use commit_ci_preflight.Journal.Reading.{
  Serde, entry_name, plain_directory, last, follows, decode_file, validate_run_marker,
  resources_are_plain, resources_dir, check_source, read_entry, read_files, read_entries,
  entry_files,
}

-- One entry, at its place in the journal of a run.
pub record IsEntry (run_id : Text) (seq : ℕ) (entry : RunJournalEntryV1) : Type 0 where
  pub of_run : entry.run_id ≡ run_id
  pub numbered : entry.seq ≡ seq
  pub explained : is_some entry.failure_kind ≡ is_failed entry.state
  pub starts : seq ≡ 0 → entry.state ≡ created

-- The entries from a place on, after the entry before it.
abbrev pub Continues : Text → ℕ → Option RunJournalEntryV1 → List RunJournalEntryV1 → Type 0
Continues run_id seq previous [] = Unit
Continues run_id seq previous (entry ∷ entries) =
    IsEntry run_id seq entry
    × (follows previous entry ≡ true)
    × Continues run_id (suc seq) (some entry) entries

-- A whole journal: it starts with `created`, and every next state is a legal one.
abbrev pub IsJournal : Text → List RunJournalEntryV1 → Type 0
IsJournal run_id entries = Continues run_id 0 none entries

created_only : (state : RunJournalStateV1) → is_created state ≡ true → state ≡ created
created_only state h = ground arith

-- The conditions that `validate_entry` refuses, taken apart.
accepted :
    (version run number late kind first start : Bool)
    → (not version || not run || not number || late || not kind || (first && not start)) ≡ false
    → (run ≡ true) × (number ≡ true) × (kind ≡ true) × (first ≡ true → start ≡ true)
accepted version run number late kind first start h = ground arith

same_bool-eq : (a b : Bool) → same_bool a b ≡ true → b ≡ a
same_bool-eq a b h = ground arith

validate_entry-IsEntry :
    (entry : RunJournalEntryV1) (run_id : Text) (seq : ℕ)
    → validate_entry entry run_id seq ≡ ok tt
    → IsEntry run_id seq entry
unfolding validate_entry
validate_entry-IsEntry entry run_id seq h =
    let (run, number, kind, start) =
      accepted (str_eq entry.schema_version schema_version) (str_eq entry.run_id run_id)
        (entry.seq == seq) (is_err (validate_timestamp entry.at_utc))
        (same_bool (is_failed entry.state) (is_some entry.failure_kind)) (seq == 0)
        (is_created entry.state) (reject-eq-ok _ corrupt h) in
    record {
      of_run = (eq_iff entry.run_id run_id).0 run;
      numbered = (==_iff entry.seq seq).0 number;
      explained = same_bool-eq (is_failed entry.state) (is_some entry.failure_kind) kind;
      starts = λ e. created_only entry.state (start ((==_iff seq 0).1 e));
    }

last-append :
    (entries : List RunJournalEntryV1) (entry : RunJournalEntryV1)
    → last (entries ++ entry ∷ []) ≡ some entry
last-append [] entry = refl
last-append (e ∷ []) entry = refl
last-append (e ∷ f ∷ rest) entry = last-append (f ∷ rest) entry

length-snoc :
    (entries : List RunJournalEntryV1) (entry : RunJournalEntryV1)
    → length (entries ++ entry ∷ []) ≡ suc (length entries)
length-snoc entries entry = omega (arith, length-append entries (entry ∷ []))

-- The names of the files are those of the entries.
abbrev pub Named : List RunJournalEntryV1 → Folder → Type 0
Named [] [] = Unit
Named [] (f ∷ files) = ⊥
Named (entry ∷ entries) [] = ⊥
Named (entry ∷ entries) ((name, node) ∷ files) =
    (name ≡ entry_name entry.seq entry.state) × Named entries files

abbrev pub EntryParts : Text → List RunJournalEntryV1 → Text → RunJournalEntryV1 → Type 0
EntryParts run_id done name entry =
    IsEntry run_id (length done) entry
    × (name ≡ entry_name entry.seq entry.state)
    × (follows (last done) entry ≡ true)

pub not-eq-false : (b : Bool) → not b ≡ false → b ≡ true
not-eq-false b h = ground arith

pub plain_directory-eq-ok :
    (place : Option Place) {files : Folder}
    → plain_directory place ≡ ok files
    → place ≡ some (folder files)
plain_directory-eq-ok none h = cc
plain_directory-eq-ok (some (folder files)) h = cc
plain_directory-eq-ok (some (foreign target)) h = cc

module _ (serde : Serde) (codec : Codec) (root_token : Text) (run_id : Text) where
  pub read_entry-parts :
      (done : List RunJournalEntryV1) (name : Text) (node : Node) {entry : RunJournalEntryV1}
      → read_entry serde codec root_token run_id done name node ≡ ok entry
      → EntryParts run_id done name entry
  unfolding read_entry
  read_entry-parts done name node {entry} h =
      let (e, _, h1) = >>=-eq-ok (decode_file serde codec root_token node) _ h in
      let (valid, h2) = >>-eq-ok (validate_entry e run_id (length done)) _ h1 in
      let (named, h3) =
        reject->>-eq-ok (not (str_eq name (entry_name e.seq e.state))) corrupt _ h2 in
      let (legal, h4) = reject->>-eq-ok (not (follows (last done) e)) corrupt _ h3 in
      let same : e ≡ entry = cc in
      let whole = validate_entry-IsEntry e run_id (length done) valid in
      let parts : EntryParts run_id done name e = (
        whole,
        (eq_iff name (entry_name e.seq e.state)).0 (not-eq-false _ named),
        not-eq-false _ legal,
      ) in
      subst (EntryParts run_id done name) same parts

  pub read_files-Continues :
      (done : List RunJournalEntryV1) (files : Folder) {out : List RunJournalEntryV1}
      → read_files serde codec root_token run_id done files ≡ ok out
      → (entries : List RunJournalEntryV1) × (out ≡ done ++ entries)
        × Continues run_id (length done) (last done) entries
        × Named entries files
  unfolding read_files
  read_files-Continues done [] {out} h = ([], sym (ok_inj h) ∙ sym (append-nil done), tt, tt)
  read_files-Continues done ((name, node) ∷ files) {out} h =
      let (entry, e, h1) =
        >>=-eq-ok (read_entry serde codec root_token run_id done name node) _ h in
      let (whole, named, legal) = read_entry-parts done name node e in
      let (entries, joined, rest, names) = read_files-Continues (done ++ entry ∷ []) files h1 in
      (
        entry ∷ entries,
        joined ∙ append_assoc done (entry ∷ []) entries,
        (whole, legal, rw (last-append done entry, length-snoc done entry) at rest),
        (named, names),
      )

  pub read_entries-folder :
      (runs : Runs) {entries : List RunJournalEntryV1}
      → read_entries serde codec root_token run_id runs ≡ ok entries
      → (files : Folder) × (get run_id runs ≡ some (folder files))
        × (validate_run_marker serde codec root_token files run_id ≡ ok tt)
        × (resources_are_plain (get resources_dir files) ≡ true)
        × (check_source serde codec root_token files ≡ ok tt)
        × (read_files serde codec root_token run_id [] (entry_files files) ≡ ok entries)
  unfolding read_entries
  read_entries-folder runs {entries} h =
      let (files, found, h1) = >>=-eq-ok (plain_directory (get run_id runs)) _ h in
      let (marked, h2) = >>-eq-ok (validate_run_marker serde codec root_token files run_id) _ h1 in
      let (plain, h3) =
        reject->>-eq-ok (not (resources_are_plain (get resources_dir files))) ownership_mismatch _
          h2 in
      let (bound, h4) = >>-eq-ok (check_source serde codec root_token files) _ h3 in
      (
        files,
        plain_directory-eq-ok (get run_id runs) found,
        marked,
        not-eq-false _ plain,
        bound,
        h4,
      )

  pub read_entries-IsJournal :
      (runs : Runs) {entries : List RunJournalEntryV1}
      → read_entries serde codec root_token run_id runs ≡ ok entries
      → IsJournal run_id entries
  read_entries-IsJournal runs h =
      let (files, _, _, _, _, read) = read_entries-folder runs h in
      let (entries, joined, path, _) = read_files-Continues [] (entry_files files) read in
      rw joined path
