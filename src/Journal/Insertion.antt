-- ===== src/Journal/Insertion.antt =====
-- What one more file in the directory of a run changes for `read_entries` of src/run_journal.rs.
use commit_ci_preflight.Prelude.{
  ℕ, suc, ◌+◌, ◌≤◌, ◌<◌, ◌≡◌, refl, ap, sym, ◌∙◌, true, false, Option, some, String as Text, List,
  [], ◌∷◌, ◌++◌, arith, length, str_eq, eq_iff, Bool-cases, inl, inr,
}
use commit_ci_preflight.Outcome.{ok, ◌>>=◌, >>=-eq-ok, ok_inj}
use commit_ci_preflight.Canonical.Digest.{Codec}
use commit_ci_preflight.Ordered.Order.{str_lt, str_lt_irrefl, str_lt_asym}
use commit_ci_preflight.Ordered.Set.{Above, Above-trans, IsSorted}
use commit_ci_preflight.Ordered.Map.{get, insert, keys, get-insert}
use commit_ci_preflight.Journal.Data.{RunJournalStateV1, RunJournalEntryV1}
use commit_ci_preflight.Journal.Files.{Node, Folder}
use commit_ci_preflight.Journal.Reading.{
  Serde, run_marker, resources_dir, source_binding, is_reserved, entry_name, entry_files,
  validate_run_marker, check_source, read_entry, read_files,
}
use commit_ci_preflight.Journal.Names.{str_lt-entry_name}
use commit_ci_preflight.Journal.Path.{Continues, Named}

-- Every file lies before the name.
abbrev pub AllBelow : Text → Folder → Type 0
AllBelow name [] = Unit
AllBelow name ((j, node) ∷ files) = (str_lt j name ≡ true) × AllBelow name files

nothing-Above :
    (name : Text) (files : Folder)
    → Above name (keys files)
    → AllBelow name (entry_files files)
    → entry_files files ≡ []
unfolding entry_files
nothing-Above name [] above below = refl
nothing-Above name ((j, node) ∷ files) (over, above) below = elim (Bool-cases (is_reserved j)) [
  | inl own ↦ rw own (nothing-Above name files above (rw own at below))
  | inr other ↦
      let under : str_lt j name ≡ true = (rw other at below).0 in
      absurd (ground (arith, str_lt_asym j name under))
]

pub entry_files-insert :
    (name : Text) (node : Node) (files : Folder)
    → is_reserved name ≡ false
    → IsSorted (keys files)
    → AllBelow name (entry_files files)
    → entry_files (insert name node files) ≡ entry_files files ++ (name, node) ∷ []
unfolding entry_files insert
entry_files-insert name node [] free sorted below = rw free
entry_files-insert name node ((j, w) ∷ files) free (above, sorted) below =
    elim (Bool-cases (str_lt name j)) [
      | inl before ↦
          let empty =
            nothing-Above name ((j, w) ∷ files)
              (before, Above-trans name j (keys files) before above) below in
          rw (before, free)
            (ap (λ (rest : Folder). (name, node) ∷ rest) empty
              ∙ sym (ap (λ (rest : Folder). rest ++ (name, node) ∷ []) empty))
      | inr after ↦ elim (Bool-cases (str_eq j name)) [
        | inl same ↦
            let e : j ≡ name = (eq_iff j name).0 same in
            let other : is_reserved j ≡ false = rw e free in
            let under : str_lt j name ≡ true = (rw other at below).0 in
            absurd (cc (str_lt_irrefl name, e, under))
        | inr apart ↦
            rw (after, apart)
              (elim (Bool-cases (is_reserved j)) [
                | inl own ↦
                    rw own (entry_files-insert name node files free sorted (rw own at below))
                | inr other ↦ rw other (
                    ap (λ rest. (j, w) ∷ rest)
                      (entry_files-insert name node files free sorted (rw other at below).1))
              ])
      ]
    ]

-- The names of a journal lie before the name of the next entry.
pub Named-AllBelow :
    (run_id : Text) (n : ℕ) (state : RunJournalStateV1) (seq : ℕ)
    (previous : Option RunJournalEntryV1) (entries : List RunJournalEntryV1) (files : Folder)
    → n < 8
    → seq + length entries ≤ n
    → Continues run_id seq previous entries
    → Named entries files
    → AllBelow (entry_name n state) files
Named-AllBelow run_id n state seq previous [] [] few room path named = tt
Named-AllBelow run_id n state seq previous [] (f ∷ files) few room path named = absurd named
Named-AllBelow run_id n state seq previous (e ∷ entries) [] few room path named = tt
Named-AllBelow run_id n state seq previous (e ∷ entries) ((j, node) ∷ files) few room
      (whole, _, path) (name, named) =
    (
      rw (name, whole.numbered) (str_lt-entry_name seq n e.state state (omega arith) few),
      Named-AllBelow run_id n state (suc seq) (some e) entries files few (omega arith) path named,
    )

module _ (serde : Serde) (codec : Codec) (root_token : Text) (run_id : Text) where
  -- One more file is read after the others.
  pub read_files-append :
      (done : List RunJournalEntryV1) (files : Folder) (name : Text) (node : Node)
      {out : List RunJournalEntryV1}
      → read_files serde codec root_token run_id done files ≡ ok out
      → read_files serde codec root_token run_id done (files ++ (name, node) ∷ [])
        ≡ (read_entry serde codec root_token run_id out name node >>= λ e. ok (out ++ e ∷ []))
  unfolding read_files
  read_files-append done [] name node {out} h = rw (ok_inj h)
  read_files-append done ((j, w) ∷ files) name node h =
      let (e, now, h1) = >>=-eq-ok (read_entry serde codec root_token run_id done j w) _ h in
      rw now (read_files-append (done ++ e ∷ []) files name node h1)

  -- The other files of the directory are the same.
  module _ (name : Text) (node : Node) (files : Folder) where
    pub validate_run_marker-insert :
        str_eq name run_marker ≡ false
        → validate_run_marker serde codec root_token (insert name node files) run_id
          ≡ validate_run_marker serde codec root_token files run_id
    unfolding validate_run_marker
    validate_run_marker-insert apart = rw (get-insert name run_marker node files, apart)

    pub check_source-insert :
        str_eq name source_binding ≡ false
        → check_source serde codec root_token (insert name node files)
          ≡ check_source serde codec root_token files
    unfolding check_source
    check_source-insert apart = rw (get-insert name source_binding node files, apart)

    pub get-resources-insert :
        str_eq name resources_dir ≡ false
        → get resources_dir (insert name node files) ≡ get resources_dir files
    get-resources-insert apart = rw (get-insert name resources_dir node files, apart)
