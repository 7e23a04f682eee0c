-- ===== src/Journal/Transition.antt =====
-- `transition` of src/run_journal.rs: what the journal is afterwards.
use commit_ci_preflight.Prelude.{
  ℕ, suc, ◌+◌, ◌<◌, ◌≡◌, refl, ap, true, false, Option, none, some, String as Text, List, [], ◌∷◌,
  arith, length, eq_refl, ◌==◌, ==_iff,
}
use commit_ci_preflight.Outcome.{ok, err}
use commit_ci_preflight.Canonical.Digest.{Codec}
use commit_ci_preflight.Journal.Data.{
  RunJournalStateV1, RunFailureKindV1, RunJournalEntryV1, corrupt, Journaled, schema_version,
  legal_transition, is_failed,
}
use commit_ci_preflight.Journal.Fields.{is_some, same_bool, validate_entry, validate_timestamp}
use commit_ci_preflight.Journal.Files.{file, Runs}
use commit_ci_preflight.Journal.Reading.{Serde, entry_name, last, read_entry}
use commit_ci_preflight.Journal.Store.{Step, check, act}
use commit_ci_preflight.Journal.Path.{Continues}

-- What holds of the directory holds after a check, whether it passes or not.
pub check-keeps {ℓ κ} :
    {A : Type ℓ} {B : Type κ} (P : Runs → Type 0) (m : Journaled A) (runs : Runs)
    (next : A → Step B)
    → P runs
    → ((a : A) → m ≡ ok a → P (next a).0)
    → P (check m runs next).0
check-keeps P (ok a) runs next h k = k a refl
check-keeps P (err e) runs next h k = h

pub check-eq-ok {ℓ κ} :
    {A : Type ℓ} {B : Type κ} (m : Journaled A) (runs : Runs) (next : A → Step B) {runs' : Runs}
    {b : B}
    → check m runs next ≡ (runs', ok b)
    → (a : A) × (m ≡ ok a) × (next a ≡ (runs', ok b))
check-eq-ok (ok a) runs next h = (a, refl, h)
check-eq-ok (err e) runs next h = cc

pub act-state {ℓ κ} :
    {A : Type ℓ} {B : Type κ} (m : Step A) (b : B) → (act m (λ runs _. (runs, ok b))).0 ≡ m.0
act-state (runs, ok a) b = refl
act-state (runs, err e) b = refl

pub act-eq-ok {ℓ κ} :
    {A : Type ℓ} {B : Type κ} (m : Step A) (next : Runs → A → Step B) {runs' : Runs} {b : B}
    → act m next ≡ (runs', ok b)
    → (a : A) × (m.1 ≡ ok a) × (next m.0 a ≡ (runs', ok b))
act-eq-ok (runs, ok a) next h = (a, refl, h)
act-eq-ok (runs, err e) next h = cc

-- The last entry carries the number before the next one.
pub seq-last :
    (run_id : Text) (seq : ℕ) (previous : Option RunJournalEntryV1)
    (entries : List RunJournalEntryV1) (entry : RunJournalEntryV1)
    → Continues run_id seq previous entries
    → last entries ≡ some entry
    → entry.seq + 1 ≡ seq + length entries
seq-last run_id seq previous [] entry path found = absurd (cc)
seq-last run_id seq previous (e ∷ []) entry (whole, _, path) found =
    let same : e ≡ entry = cc in
    omega (arith, whole.numbered, ap (λ (x : RunJournalEntryV1). x.seq) same)
seq-last run_id seq previous (e ∷ f ∷ rest) entry (_, _, path) found =
    omega (arith, seq-last run_id (suc seq) (some e) (f ∷ rest) entry path found)

not_zero : (n : ℕ) → 0 < n → (n == 0) ≡ false
not_zero n h = ground arith

abbrev pub next_entry :
    Text → ℕ → RunJournalStateV1 → Text → Option RunFailureKindV1 → RunJournalEntryV1
next_entry run_id seq state at_utc failure_kind = record {
  schema_version = schema_version;
  run_id = run_id;
  seq = seq;
  state = state;
  at_utc = at_utc;
  failure_kind = failure_kind;
}

module _ (run_id : Text) (state : RunJournalStateV1) (at_utc : Text)
    (kind : Option RunFailureKindV1) (seq : ℕ) where
  validate-next_entry :
      validate_timestamp at_utc ≡ ok tt
      → same_bool (is_failed state) (is_some kind) ≡ true
      → 0 < seq
      → validate_entry (next_entry run_id seq state at_utc kind) run_id seq ≡ ok tt
  unfolding validate_entry
  validate-next_entry timely explained later =
      rw (timely, explained, not_zero seq later, eq_refl run_id, (==_iff seq seq).1 refl) refl

module _ (serde : Serde) (codec : Codec) (root_token : Text) (run_id : Text) where
  -- The next entry is read back from bytes that decode to it.
  pub read_entry-next :
      (state : RunJournalStateV1) (at_utc : Text) (kind : Option RunFailureKindV1) (seq : ℕ)
      (entries : List RunJournalEntryV1) (previous : RunJournalEntryV1) (bytes : List ℕ)
      → serde.decode_entry bytes ≡ some (next_entry run_id seq state at_utc kind)
      → validate_timestamp at_utc ≡ ok tt
      → last entries ≡ some previous
      → legal_transition previous.state state ≡ true
      → same_bool (is_failed state) (is_some kind) ≡ true
      → seq ≡ length entries
      → 0 < seq
      → read_entry serde codec root_token run_id entries
          (entry_name (length entries) state)
          (file bytes)
        ≡ ok (next_entry run_id seq state at_utc kind)
  unfolding read_entry
  read_entry-next state at_utc kind seq entries previous bytes decoded timely latest legal explained
        numbered later =
      rw
        (
          decoded,
          ← numbered,
          validate-next_entry run_id state at_utc kind seq timely explained later,
          eq_refl (entry_name seq state),
          latest,
          legal,
        )
        refl

  pub read_entry-torn :
      (entries : List RunJournalEntryV1) (name : Text) (bytes : List ℕ)
      → serde.decode_entry bytes ≡ none
      → read_entry serde codec root_token run_id entries name (file bytes) ≡ err corrupt
  unfolding read_entry
  read_entry-torn entries name bytes torn = rw torn
