-- ===== src/Journal/Written.antt =====
-- `transition` of src/run_journal.rs, and `read_entries` after it.
use commit_ci_preflight.Prelude.{
  ℕ, ◌+◌, ◌≡◌, refl, ap, sym, ◌∙◌, ◌⊎◌, true, Option, none, some, String as Text, List, [], ◌∷◌,
  ◌++◌, arith, length, take, eq_refl, Option-cases, inl, inr, and-eq-true,
}
use commit_ci_preflight.Outcome.{ok, err}
use commit_ci_preflight.Canonical.Digest.{Codec}
use commit_ci_preflight.Ordered.Map.{get, insert, get-insert}
use commit_ci_preflight.Journal.Data.{
  RunJournalStateV1, RunFailureKindV1, RunJournalEntryV1, corrupt, Journaled,
}
use commit_ci_preflight.Journal.Fields.{validate_timestamp}
use commit_ci_preflight.Journal.Files.{file, Folder, folder, Runs, Fault}
use commit_ci_preflight.Journal.Reading.{Serde, entry_name, last, read_entries}
use commit_ci_preflight.Journal.Store.{append_entry, may_follow}
use commit_ci_preflight.Journal.Path.{read_entries-IsJournal}
use commit_ci_preflight.Journal.Appended.{IsListed, read_entries-insert}
use commit_ci_preflight.Journal.Transition.{seq-last, next_entry, read_entry-next, read_entry-torn}
use commit_ci_preflight.Journal.Durability.{
  create_new-free, create_new-there, read_entries-get, append_entry-files,
}

-- serde_json reads back what it wrote, and the newline after it.
abbrev pub ReadsBack : Serde → Type 0
ReadsBack serde =
    (entry : RunJournalEntryV1) (bytes : List ℕ)
    → serde.encode_entry entry ≡ some bytes
    → serde.decode_entry (bytes ++ 10 ∷ []) ≡ some entry

-- serde_json reads an object that was cut off as an error, unless only the newline is missing.
abbrev pub ReadsPrefixes : Serde → Type 0
ReadsPrefixes serde =
    (entry : RunJournalEntryV1) (bytes : List ℕ) (n : ℕ)
    → serde.encode_entry entry ≡ some bytes
    → (serde.decode_entry (take n (bytes ++ 10 ∷ [])) ≡ none)
      ⊎ (serde.decode_entry (take n (bytes ++ 10 ∷ [])) ≡ some entry)

-- The journal as before, with the new entry, or not readable.
abbrev pub AfterWrite :
    List RunJournalEntryV1 → RunJournalStateV1 → Journaled (List RunJournalEntryV1) → Type 0
AfterWrite entries state result =
    (result ≡ ok entries)
    ⊎ ((entry : RunJournalEntryV1) × (result ≡ ok (entries ++ entry ∷ [])) × (entry.state ≡ state))
    ⊎ (result ≡ err corrupt)

module _ (serde : Serde) (codec : Codec) (root_token run_id : Text) (runs : Runs)
    (entries : List RunJournalEntryV1)
    (readable : read_entries serde codec root_token run_id runs ≡ ok entries)
    (listed : IsListed run_id runs) where
  module _ (state : RunJournalStateV1) (at_utc : Text) (kind : Option RunFailureKindV1)
      (previous : RunJournalEntryV1) (latest : last entries ≡ some previous)
      (timely : validate_timestamp at_utc ≡ ok tt)
      (allowed : may_follow previous.state state kind ≡ true) where
    abbrev seq : ℕ
    seq = previous.seq + 1

    numbered : seq ≡ length entries
    numbered = omega (
      arith,
      seq-last run_id 0 none entries previous
          (read_entries-IsJournal serde codec root_token run_id runs readable) latest,
    )

    -- The file of the next entry, with bytes that decode to it.
    pub read-next :
        (files : Folder) (bytes : List ℕ)
        → get run_id runs ≡ some (folder files)
        → serde.decode_entry bytes ≡ some (next_entry run_id seq state at_utc kind)
        → read_entries serde codec root_token run_id
            (insert run_id (folder (insert (entry_name seq state) (file bytes) files)) runs)
          ≡ ok (entries ++ next_entry run_id seq state at_utc kind ∷ [])
    read-next files bytes found decoded =
        let (open_, explained) = and-eq-true _ _ allowed in
        let (legal, _) = and-eq-true _ _ open_ in
        rw (ap (λ (n : ℕ). entry_name n state) numbered) (
          read_entries-insert serde codec root_token run_id runs files state (file bytes) entries
            readable found (listed files found)
          ∙ rw
              (read_entry-next serde codec root_token run_id state at_utc kind seq entries previous
                bytes decoded timely latest legal explained numbered (omega arith))
              refl)

    read-torn :
        (files : Folder) (bytes : List ℕ)
        → get run_id runs ≡ some (folder files)
        → serde.decode_entry bytes ≡ none
        → read_entries serde codec root_token run_id
            (insert run_id (folder (insert (entry_name seq state) (file bytes) files)) runs)
          ≡ err corrupt
    read-torn files bytes found torn = rw (ap (λ (n : ℕ). entry_name n state) numbered) (
        read_entries-insert serde codec root_token run_id runs files state (file bytes) entries
          readable found (listed files found)
        ∙ rw
            (read_entry-torn serde codec root_token run_id entries
              (entry_name (length entries) state) bytes torn)
            refl)

    read-same :
        (files : Folder)
        → get run_id runs ≡ some (folder files)
        → read_entries serde codec root_token run_id (insert run_id (folder files) runs)
          ≡ ok entries
    read-same files found =
        read_entries-get serde codec root_token run_id runs (insert run_id (folder files) runs)
          (rw (get-insert run_id run_id (folder files) runs, eq_refl run_id) (sym found))
        ∙ readable

    -- However the write goes.
    pub append_entry-AfterWrite :
        ReadsBack serde
        → ReadsPrefixes serde
        → (fault : Fault) (files : Folder) (bytes : List ℕ) → get run_id runs ≡ some (folder files)
        → serde.encode_entry (next_entry run_id seq state at_utc kind) ≡ some bytes
        → AfterWrite entries state (
            read_entries serde codec root_token run_id
              (append_entry serde codec root_token fault run_id seq state at_utc kind runs).0)
    append_entry-AfterWrite whole prefixes fault files bytes found encoded =
        let written = bytes ++ 10 ∷ [] in
        let name = entry_name seq state in
        rw
          (append_entry-files serde codec root_token run_id runs files fault seq state at_utc kind
            bytes found encoded)
          (elim (Option-cases (get name files)) [
            | inr (node, there) ↦
                rw (create_new-there fault name written files node there)
                  (inl (read-same files found))
            | inl free ↦ elim (create_new-free fault name written files free) [
              | inl same ↦ rw same (inl (read-same files found))
              | inr (inl (n, cut)) ↦
                  rw cut
                    (elim (prefixes (next_entry run_id seq state at_utc kind) bytes n encoded) [
                      | inl torn ↦ inr (inr (read-torn files (take n written) found torn))
                      | inr complete ↦
                          inr (inl (_, read-next files (take n written) found complete, refl))
                    ])
              | inr (inr full) ↦ rw full (
                  inr (
                    inl (
                      _,
                      read-next files written found
                          (whole (next_entry run_id seq state at_utc kind) bytes encoded),
                      refl,
                    )))
            ]
          ])
