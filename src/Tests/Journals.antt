-- ===== src/Tests/Journals.antt =====
-- The run journal at concrete runs.
use commit_ci_preflight.Prelude.{
  ℕ, ◌≤◌, ◌≡◌, refl, ◌⊎◌, inl, inr, List, [], ◌∷◌, ◌++◌, Option, none, some, String as Text, Bool,
  true, false, not, ◌&&◌, ◌==◌, if◌then◌else◌, str_eq, eq_iff, length, arith, suc, zero, Bool-cases,
}
use mathlib.Core.Path.{subst}
use commit_ci_preflight.Outcome.{ok}
use commit_ci_preflight.Canonical.Json.{text}
use commit_ci_preflight.Tests.Samples.{codec}
use commit_ci_preflight.Ordered.Map.{get, keys}
use commit_ci_preflight.Ordered.Set.{IsSorted}
use commit_ci_preflight.Journal.Data.{
  RunJournalStateV1, created, admitted, RunJournalEntryV1, RunOwnerMarkerV1,
}
use commit_ci_preflight.Journal.Fields.{is_some}
use commit_ci_preflight.Journal.Files.{Folder, folder, file, Runs, success, partial}
use commit_ci_preflight.Journal.Reading.{Serde, run_marker, read_entries}
use commit_ci_preflight.Journal.Store.{transition, create_run}
use commit_ci_preflight.Journal.Path.{IsJournal}
use commit_ci_preflight.Journal.Bounds.{EndsAtTerminal, read_entries-IsBounded}
use commit_ci_preflight.Journal.Appended.{IsListed}
use commit_ci_preflight.Journal.Written.{ReadsBack, ReadsPrefixes, AfterWrite}
use commit_ci_preflight.Journal.Crash.{transition-read_entries, transition-AfterWrite}

abbrev pub run : Text
run = "0123456789abcdef0123456789abcdef0123456789abcdef0123456789abcdef"

abbrev first : RunJournalEntryV1
first = record {
  schema_version = "1.0";
  run_id = run;
  seq = 0;
  state = created;
  at_utc = "2026-01-01T00:00:00Z";
  failure_kind = none;
}

abbrev second : RunJournalEntryV1
second = record first { seq = 1; state = admitted; at_utc = "2026-01-01T00:00:05Z" }

abbrev is_admitted : RunJournalStateV1 → Bool
is_admitted admitted = true
is_admitted _ = false

abbrev is_created : RunJournalStateV1 → Bool
is_created created = true
is_created _ = false

abbrev is_first : RunJournalEntryV1 → Bool
is_first e =
    str_eq e.schema_version "1.0"
    && str_eq e.run_id run
    && e.seq == 0
    && is_created e.state
    && str_eq e.at_utc "2026-01-01T00:00:00Z"
    && not (is_some e.failure_kind)

abbrev is_second : RunJournalEntryV1 → Bool
is_second e =
    str_eq e.schema_version "1.0"
    && str_eq e.run_id run
    && e.seq == 1
    && is_admitted e.state
    && str_eq e.at_utc "2026-01-01T00:00:05Z"
    && not (is_some e.failure_kind)

first_only : (e : RunJournalEntryV1) → is_first e ≡ true → e ≡ first
first_only e h = ground (
  arith,
  eq_iff e.schema_version "1.0",
  eq_iff e.run_id run,
  eq_iff e.at_utc "2026-01-01T00:00:00Z",
)

second_only : (e : RunJournalEntryV1) → is_second e ≡ true → e ≡ second
second_only e h = ground (
  arith,
  eq_iff e.schema_version "1.0",
  eq_iff e.run_id run,
  eq_iff e.at_utc "2026-01-01T00:00:05Z",
)

abbrev marker : RunOwnerMarkerV1
marker = record {
  schema_version = "1.0";
  owner = "commit-ci-preflight";
  purpose = "run-journal-entry";
  root_token = run;
  run_id = run;
  run_token = "0000000000000000000000000000000000000000000000000000000000000000";
}

-- Two entries, each written as one letter.
abbrev decode_letter : List ℕ → Option RunJournalEntryV1
decode_letter [] = none
decode_letter (letter ∷ rest) =
    if letter == b'A' then some first else if letter == b'B' then some second else none

abbrev pub serde : Serde
serde = record {
  encode_entry =
      λ e. if is_first e then some (b'A' ∷ []) else if is_second e then some (b'B' ∷ []) else none;
  decode_entry = decode_letter;
  encode_marker = λ m. some (b'M' ∷ []);
  decode_marker = λ bytes. some marker;
  encode_source = λ source. none;
  decode_source = λ bytes. none;
  seed_value = λ seed. some (text seed.run_id);
}

-- The letter of an entry, and the entry of a letter.
letters :
    (e : RunJournalEntryV1) (bytes : List ℕ)
    → serde.encode_entry e ≡ some bytes
    → ((e ≡ first) × (bytes ≡ b'A' ∷ [])) ⊎ ((e ≡ second) × (bytes ≡ b'B' ∷ []))
letters e bytes h = elim (Bool-cases (is_first e)) [
  | inl one ↦ inl (first_only e one, cc (rw one at h))
  | inr other ↦ elim (Bool-cases (is_second e)) [
    | inl two ↦ inr (second_only e two, cc (rw (other, two) at h))
    | inr neither ↦ absurd (cc (rw (other, neither) at h))
  ]
]

serde-ReadsBack : ReadsBack serde
serde-ReadsBack e bytes h = elim (letters e bytes h) [
  | inl (one, a) ↦ rw (a, one) refl
  | inr (two, b) ↦ rw (b, two) refl
]

serde-ReadsPrefixes : ReadsPrefixes serde
serde-ReadsPrefixes e bytes zero h = inl refl
serde-ReadsPrefixes e bytes (suc n) h = elim (letters e bytes h) [
  | inl (one, a) ↦ rw (a, one) (inr refl)
  | inr (two, b) ↦ rw (b, two) (inr refl)
]

abbrev pub files : Folder
files =
    (run_marker, file (b'M' ∷ 10 ∷ []))
    ∷ ("00000000000000000000-created.json", file (b'A' ∷ 10 ∷ []))
    ∷ []

abbrev pub runs : Runs
runs = (run, folder files) ∷ []

made :
    create_run serde codec run success success success run "2026-01-01T00:00:00Z" []
    ≡ (runs, ok first)
unfolding create_run commit_ci_preflight.Ordered.Order.str_lt
made = refl

readable : read_entries serde codec run run runs ≡ ok (first ∷ [])
unfolding read_entries
readable = refl

files-IsSorted : IsSorted (keys files)
unfolding commit_ci_preflight.Ordered.Order.str_lt
files-IsSorted = ((refl, tt), (tt, tt))

listed : IsListed run runs
unfolding get
listed other found =
    let same : files ≡ other = cc in subst (λ (f : Folder). IsSorted (keys f)) same files-IsSorted

read_entries-IsBounded_example :
    IsJournal run (first ∷ []) × (length (first ∷ []) ≤ 7) × EndsAtTerminal (first ∷ [])
read_entries-IsBounded_example = read_entries-IsBounded serde codec run run runs readable

abbrev runs_admitted : Runs
runs_admitted =
    (
      run,
      folder (
          (run_marker, file (b'M' ∷ 10 ∷ []))
          ∷ ("00000000000000000000-created.json", file (b'A' ∷ 10 ∷ []))
          ∷ ("00000000000000000001-admitted.json", file (b'B' ∷ 10 ∷ []))
          ∷ []),
    )
    ∷ []

admitted_run :
    transition serde codec run success run admitted "2026-01-01T00:00:05Z" none runs
    ≡ (runs_admitted, ok second)
unfolding transition commit_ci_preflight.Ordered.Order.str_lt
admitted_run = refl

transition-read_entries_example :
    read_entries serde codec run run runs_admitted ≡ ok ((first ∷ []) ++ second ∷ [])
transition-read_entries_example =
    transition-read_entries serde codec run run runs (first ∷ []) readable listed admitted
      "2026-01-01T00:00:05Z" none serde-ReadsBack admitted_run

transition-AfterWrite_example : AfterWrite (first ∷ []) admitted (
    read_entries serde codec run run
      (transition serde codec run (partial 1) run admitted "2026-01-01T00:00:05Z" none runs).0)
transition-AfterWrite_example =
    transition-AfterWrite serde codec run run runs (first ∷ []) readable listed admitted
      "2026-01-01T00:00:05Z" none (partial 1) serde-ReadsBack serde-ReadsPrefixes
