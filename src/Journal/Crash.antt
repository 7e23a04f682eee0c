-- ===== src/Journal/Crash.antt =====
-- `transition` of src/run_journal.rs as a whole: where it succeeds and where its write is cut off.
use commit_ci_preflight.Prelude.{
  ℕ, ◌+◌, ◌≡◌, sym, ap, ◌∙◌, true, not, Option, none, some, String as Text, List, [], ◌∷◌, ◌++◌,
  Option-cases, inl, inr,
}
use commit_ci_preflight.Outcome.{ok, err, ok_or, reject, reject-eq-ok, ok_or-eq-ok}
use commit_ci_preflight.Canonical.Digest.{Codec}
use commit_ci_preflight.Journal.Data.{
  RunJournalStateV1, RunFailureKindV1, RunJournalEntryV1, corrupt, invalid_transition,
}
use commit_ci_preflight.Journal.Fields.{validate_run_id, validate_timestamp}
use commit_ci_preflight.Journal.Files.{Runs, Fault, success}
use commit_ci_preflight.Journal.Reading.{Serde, entry_name, last, read_entries}
use commit_ci_preflight.Journal.Store.{Step, append_entry, may_follow, transition}
use commit_ci_preflight.Journal.Path.{read_entries-folder, not-eq-false}
use commit_ci_preflight.Journal.Appended.{IsListed}
use commit_ci_preflight.Journal.Transition.{check-keeps, check-eq-ok, next_entry}
use commit_ci_preflight.Journal.Durability.{create_new-ok, append_entry-files, append_entry-result}
use commit_ci_preflight.Journal.Written.{
  ReadsBack, ReadsPrefixes, AfterWrite, read-next, append_entry-AfterWrite,
}

module _ (serde : Serde) (codec : Codec) (root_token run_id : Text) (runs : Runs)
    (entries : List RunJournalEntryV1)
    (readable : read_entries serde codec root_token run_id runs ≡ ok entries)
    (listed : IsListed run_id runs) where
  append_entry-unencoded :
      (fault : Fault) (seq : ℕ) (state : RunJournalStateV1) (at_utc : Text)
      (kind : Option RunFailureKindV1)
      → serde.encode_entry (next_entry run_id seq state at_utc kind) ≡ none
      → append_entry serde codec root_token fault run_id seq state at_utc kind runs
        ≡ (runs, err corrupt)
  unfolding append_entry
  append_entry-unencoded fault seq state at_utc kind none_ = rw none_

  -- The arguments of the append, once every check has passed.
  module _ (state : RunJournalStateV1) (at_utc : Text) (kind : Option RunFailureKindV1)
      (es : List RunJournalEntryV1) (previous : RunJournalEntryV1)
      (timely : validate_timestamp at_utc ≡ ok tt)
      (e : read_entries serde codec root_token run_id runs ≡ ok es)
      (latest : ok_or (last es) corrupt ≡ ok previous)
      (allowed : reject (not (may_follow previous.state state kind)) invalid_transition
        ≡ ok tt) where
    latest_of : last entries ≡ some previous
    latest_of = let same : es ≡ entries = cc in rw (← same) (ok_or-eq-ok (last es) corrupt latest)

    may : may_follow previous.state state kind ≡ true
    may = not-eq-false _ (reject-eq-ok _ invalid_transition allowed)

    checked-AfterWrite :
        (fault : Fault)
        → ReadsBack serde
        → ReadsPrefixes serde
        → AfterWrite entries state (
            read_entries serde codec root_token run_id
              (append_entry serde codec root_token fault run_id
                (previous.seq + 1)
                state
                at_utc
                kind
                runs).0)
    checked-AfterWrite fault whole prefixes =
        elim (Option-cases
          (serde.encode_entry (next_entry run_id (previous.seq + 1) state at_utc kind))) [
            | inl none_ ↦
                rw (append_entry-unencoded fault (previous.seq + 1) state at_utc kind none_)
                  (inl readable)
            | inr (bytes, encoded) ↦
                let (files, found, _, _, _, _) =
                  read_entries-folder serde codec root_token run_id runs readable in
                append_entry-AfterWrite serde codec root_token run_id runs entries readable listed
                  state at_utc kind previous latest_of timely may whole prefixes fault files bytes
                  found encoded
          ]

    checked-read :
        ReadsBack serde
        → {entry : RunJournalEntryV1} {runs' : Runs}
        → append_entry serde codec root_token success run_id
            (previous.seq + 1)
            state
            at_utc
            kind
            runs
          ≡ (runs', ok entry)
        → read_entries serde codec root_token run_id runs' ≡ ok (entries ++ entry ∷ [])
    checked-read whole {entry} {runs'} h =
        elim (Option-cases
          (serde.encode_entry (next_entry run_id (previous.seq + 1) state at_utc kind))) [
            | inl none_ ↦
                absurd
                  (cc (append_entry-unencoded success (previous.seq + 1) state at_utc kind none_))
            | inr (bytes, encoded) ↦
                let (files, found, _, _, _, _) =
                  read_entries-folder serde codec root_token run_id runs readable in
                let (went, same) =
                  append_entry-result serde codec root_token run_id runs files success
                    (previous.seq + 1) state at_utc kind bytes found encoded h in
                let wrote =
                  create_new-ok (entry_name (previous.seq + 1) state) (bytes ++ 10 ∷ []) files
                    went in
                let there =
                  append_entry-files serde codec root_token run_id runs files success
                    (previous.seq + 1) state at_utc kind bytes found encoded in
                let left = sym (ap (λ (m : Step RunJournalEntryV1). m.0) h) ∙ there in
                rw (same, left, wrote)
                  (read-next serde codec root_token run_id runs entries readable listed state at_utc
                    kind previous latest_of timely may files (bytes ++ 10 ∷ []) found
                    (whole (next_entry run_id (previous.seq + 1) state at_utc kind) bytes encoded))
          ]

  -- Where serde_json reads back what it wrote and reads nothing else from a prefix of it, and the
  -- names of the run directory ascend, a transition on a readable journal whose write fails at any
  -- point leaves a journal that reads as before, or with one new entry in the requested state, or
  -- as corrupt.
  pub transition-AfterWrite :
      (state : RunJournalStateV1) (at_utc : Text) (kind : Option RunFailureKindV1) (fault : Fault)
      → ReadsBack serde
      → ReadsPrefixes serde
      → AfterWrite entries state (
          read_entries serde codec root_token run_id
            (transition serde codec root_token fault run_id state at_utc kind runs).0)
  unfolding transition
  transition-AfterWrite state at_utc kind fault whole prefixes =
      let P =
        λ (r : Runs). AfterWrite entries state (read_entries serde codec root_token run_id r) in
      let before : P runs = inl readable in
      check-keeps P (validate_run_id run_id) runs _ before λ _ _.
        check-keeps P (validate_timestamp at_utc) runs _ before λ _ timely.
          check-keeps P (read_entries serde codec root_token run_id runs) runs _ before λ es e.
            check-keeps P (ok_or (last es) corrupt) runs _ before λ previous latest.
              check-keeps P (reject (not (may_follow previous.state state kind)) invalid_transition)
                runs _ before
                λ _ allowed.
                  checked-AfterWrite state at_utc kind es previous timely e latest allowed fault
                    whole prefixes

  -- Where serde_json reads back what it wrote and the names of the run directory ascend, a
  -- transition that succeeds on a readable journal leaves a journal that reads as the old entries
  -- followed by the new entry.
  pub transition-read_entries :
      (state : RunJournalStateV1) (at_utc : Text) (kind : Option RunFailureKindV1)
      {entry : RunJournalEntryV1} {runs' : Runs}
      → ReadsBack serde
      → transition serde codec root_token success run_id state at_utc kind runs ≡ (runs', ok entry)
      → read_entries serde codec root_token run_id runs' ≡ ok (entries ++ entry ∷ [])
  unfolding transition
  transition-read_entries state at_utc kind whole h =
      let (_, _, h1) = check-eq-ok (validate_run_id run_id) runs _ h in
      let (_, timely, h2) = check-eq-ok (validate_timestamp at_utc) runs _ h1 in
      let (es, e, h3) = check-eq-ok (read_entries serde codec root_token run_id runs) runs _ h2 in
      let (previous, latest, h4) = check-eq-ok (ok_or (last es) corrupt) runs _ h3 in
      let (_, allowed, h5) =
        check-eq-ok (reject (not (may_follow previous.state state kind)) invalid_transition) runs _
          h4 in
      checked-read state at_utc kind es previous timely e latest allowed whole h5
