-- ===== src/Journal/Bounds.antt =====
-- A journal of src/run_journal.rs is short, and nothing follows its terminal state.
use commit_ci_preflight.Prelude.{
  ℕ, suc, ◌+◌, ◌≤◌, ◌<◌, ◌≡◌, ◌≢◌, true, false, Option, none, some, String as Text, List, [], ◌∷◌,
  arith, length,
}
use commit_ci_preflight.Outcome.{ok}
use commit_ci_preflight.Canonical.Digest.{Codec}
use commit_ci_preflight.Journal.Data.{
  RunJournalStateV1, created, admitted, prepared, executing, finalizing, cleanup_pending, failed,
  sealed, RunJournalEntryV1, legal_transition, classify, terminal,
}
use commit_ci_preflight.Journal.Files.{Runs}
use commit_ci_preflight.Journal.Reading.{Serde, read_entries}
use commit_ci_preflight.Journal.Path.{Continues, IsJournal, read_entries-IsJournal}

-- How far a run has come.
rank : RunJournalStateV1 → ℕ
rank created = 0
rank admitted = 1
rank prepared = 2
rank executing = 3
rank finalizing = 4
rank cleanup_pending = 5
rank failed = 6
rank sealed = 6

rank-le : (state : RunJournalStateV1) → rank state ≤ 6
unfolding rank
rank-le state = ground arith

legal_transition-rank :
    (previous next : RunJournalStateV1)
    → legal_transition previous next ≡ true
    → rank previous < rank next
unfolding legal_transition rank
legal_transition-rank previous next h = ground arith

legal_transition-terminal :
    (previous next : RunJournalStateV1)
    → classify previous ≡ terminal
    → legal_transition previous next ≡ false
unfolding legal_transition classify
legal_transition-terminal previous next h = ground arith

length-Continues :
    (run_id : Text) (seq : ℕ) (previous : RunJournalEntryV1) (entries : List RunJournalEntryV1)
    → Continues run_id seq (some previous) entries
    → length entries + rank previous.state ≤ 6
length-Continues run_id seq previous [] path = omega (arith, rank-le previous.state)
length-Continues run_id seq previous (entry ∷ entries) (_, legal, path) = omega (
  arith,
  length-Continues run_id (suc seq) entry entries path,
  legal_transition-rank previous.state entry.state legal,
)

pub length-IsJournal :
    (run_id : Text) (entries : List RunJournalEntryV1)
    → IsJournal run_id entries
    → length entries ≤ 7
length-IsJournal run_id [] path = omega arith
length-IsJournal run_id (entry ∷ entries) (_, _, path) =
    omega (arith, length-Continues run_id 1 entry entries path)

-- No entry but the last one is terminal.
abbrev pub EndsAtTerminal : List RunJournalEntryV1 → Type 0
EndsAtTerminal [] = Unit
EndsAtTerminal (entry ∷ []) = Unit
EndsAtTerminal (entry ∷ next ∷ rest) =
    (classify entry.state ≢ terminal) × EndsAtTerminal (next ∷ rest)

Continues-EndsAtTerminal :
    (run_id : Text) (seq : ℕ) (previous : Option RunJournalEntryV1)
    (entries : List RunJournalEntryV1)
    → Continues run_id seq previous entries
    → EndsAtTerminal entries
Continues-EndsAtTerminal run_id seq previous [] path = tt
Continues-EndsAtTerminal run_id seq previous (entry ∷ []) path = tt
Continues-EndsAtTerminal run_id seq previous (entry ∷ next ∷ rest) (_, _, path) = (
  (λ over. cc (path.1, legal_transition-terminal entry.state next.state over)),
  Continues-EndsAtTerminal run_id (suc seq) (some entry) (next ∷ rest) path,
)

-- A journal that read_entries accepts has its entries numbered from 0, starts with created, makes
-- only legal transitions, and gives a failure kind exactly to a failed entry; it has at most seven
-- entries, and none before the last one is terminal.
pub read_entries-IsBounded :
    (serde : Serde) (codec : Codec) (root_token run_id : Text) (runs : Runs)
    {entries : List RunJournalEntryV1}
    → read_entries serde codec root_token run_id runs ≡ ok entries
    → IsJournal run_id entries × (length entries ≤ 7) × EndsAtTerminal entries
read_entries-IsBounded serde codec root_token run_id runs {entries} h =
    let path = read_entries-IsJournal serde codec root_token run_id runs h in
    (
      path,
      length-IsJournal run_id entries path,
      Continues-EndsAtTerminal run_id 0 none entries path,
    )
