-- ===== src/Journal/Root.antt =====
-- `initialize` and `open` of `RunJournalStore` in src/run_journal.rs, on the entry `run-journal-v1` of
-- the cache root, which is a plain directory with an absolute path.
use commit_ci_preflight.Prelude.{
  ℕ, Bool, true, false, not, ◌&&◌, Option, none, some, String as Text, List, [], ◌∷◌, ◌++◌, take,
  if◌then◌else◌, str_eq,
}
use commit_ci_preflight.Outcome.{ok, err, ◌>>=◌, ◌>>◌, reject, ok_or}
use commit_ci_preflight.Canonical.Json.{Value}
use commit_ci_preflight.Canonical.Digest.{Codec}
use commit_ci_preflight.Journal.Data.{
  Journaled, durable, corrupt, ownership_mismatch, schema_version,
}
use commit_ci_preflight.Journal.Fields.{is_err, is_some, validate_run_id}
use commit_ci_preflight.Journal.Files.{
  Node, file, node_exists, Runs, Fault, success, refused, unsynced, partial,
}
use commit_ci_preflight.Journal.Reading.{read_json_marker, token_digest}

pub record RootOwnerMarkerV1 : Type 0 where
  pub schema_version : Text
  pub owner : Text
  pub purpose : Text
  pub root_token : Text

pub record OwnershipTokenSeed : Type 0 where
  pub schema_version : Text
  pub purpose : Text
  pub parent_token : Option Text
  pub run_id : Option Text
  pub unix_nanos : ℕ
  pub process_id : ℕ
  pub sequence : ℕ

-- serde_json on the marker of the root and on the seed of its token.
pub record RootSerde : Type 0 where
  pub encode_root : RootOwnerMarkerV1 → Option (List ℕ)
  pub decode_root : List ℕ → Option RootOwnerMarkerV1
  pub token_value : OwnershipTokenSeed → Option Value

-- What `new_ownership_token` reads of the system; the clock fails before the epoch.
pub record Moment : Type 0 where
  pub unix_nanos : Option ℕ
  pub process_id : ℕ
  pub sequence : ℕ

-- A plain directory, or anything else that stands under its name.
pub data Entry (A : Type 0) : Type 0 where
  plain : A → Entry A
  other : Entry A

-- The directory of the journal: its marker, `runs`, and the names of what else it holds.
pub record JournalRoot : Type 0 where
  pub marker : Option Node
  pub runs : Option (Entry Runs)
  pub others : List Text

abbrev pub empty_root : JournalRoot
empty_root = record { marker = none; runs = none; others = [] }

-- `create_directory`, which adopts a plain directory.
unfoldable pub create_directory :
    {A : Type 0} → Fault → A → Option (Entry A) → Option (Entry A) × Journaled A
create_directory refused empty place = (place, err durable)
create_directory success empty none = (some (plain empty), ok empty)
create_directory unsynced empty none = (some (plain empty), err durable)
create_directory (partial n) empty none = (some (plain empty), err durable)
create_directory fault empty (some (plain a)) = (some (plain a), ok a)
create_directory fault empty (some other) = (some other, err durable)

abbrev validate_token : Text → Journaled (Unit {0})
validate_token value = validate_run_id value

abbrev pub root_marker : Text → RootOwnerMarkerV1
root_marker root_token = record {
  schema_version = schema_version;
  owner = "commit-ci-preflight";
  purpose = "run-journal-root";
  root_token = root_token;
}

abbrev is_root_marker : RootOwnerMarkerV1 → Bool
is_root_marker marker =
    str_eq marker.schema_version schema_version
    && str_eq marker.owner "commit-ci-preflight"
    && str_eq marker.purpose "run-journal-root"
    && not (is_err (validate_token marker.root_token))

abbrev is_nil : List Text → Bool
is_nil [] = true
is_nil (name ∷ names) = false

-- `ensure_unowned_root_is_empty`.
abbrev pub is_empty_root : JournalRoot → Bool
is_empty_root root = not (is_some root.marker) && not (is_some root.runs) && is_nil root.others

-- `create_new` of the marker.
unfoldable pub write_marker : Fault → List ℕ → JournalRoot → JournalRoot × Journaled (Unit {0})
write_marker fault bytes root = elim root.marker [
  | some node ↦ (root, err durable)
  | none ↦ elim fault [
    | success ↦ (record root { marker = some (file bytes) }, ok tt)
    | refused ↦ (root, err durable)
    | unsynced ↦ (record root { marker = some (file bytes) }, err durable)
    | partial n ↦ (record root { marker = some (file (take n bytes)) }, err durable)
  ]
]

module _ (serde : RootSerde) (codec : Codec) where
  unfoldable pub read_root_marker : Option Node → Journaled RootOwnerMarkerV1
  unfolding read_json_marker validate_run_id
  read_root_marker node = do
    marker ← read_json_marker serde.decode_root node
    reject (not (is_root_marker marker)) ownership_mismatch
    ok marker

  -- `new_ownership_token("run-journal-root", None, None)`.
  unfoldable pub new_root_token : Moment → Journaled Text
  unfolding token_digest
  new_root_token moment = do
    unix_nanos ← ok_or moment.unix_nanos corrupt
    token_digest codec ⦃s = record { to_value = serde.token_value }⦄ (record {
      schema_version = schema_version;
      purpose = "run-journal-root";
      parent_token = none;
      run_id = none;
      unix_nanos = unix_nanos;
      process_id = moment.process_id;
      sequence = moment.sequence;
    })

  unfoldable pub root_marker_bytes : Text → Journaled (List ℕ)
  root_marker_bytes root_token = do
    bytes ← ok_or (serde.encode_root (root_marker root_token)) corrupt
    ok (bytes ++ 10 ∷ [])

  -- A new token and the bytes of its marker.
  unfoldable pub fresh_root : Moment → Journaled (Text × List ℕ)
  unfolding new_root_token root_marker_bytes
  fresh_root moment = do
    token ← new_root_token moment
    bytes ← root_marker_bytes token
    ok (token, bytes)

  abbrev pub write_fresh :
      Fault → Journaled (Text × List ℕ) → JournalRoot → JournalRoot × Journaled Text
  write_fresh marked (err e) root = (root, err e)
  write_fresh marked (ok (token, bytes)) root =
      let (root', done) = write_marker marked bytes root in (root', done >> ok token)

  -- The token of the root, and the marker where there is none.
  unfoldable pub own_root : Fault → Moment → JournalRoot → JournalRoot × Journaled Text
  unfolding read_root_marker fresh_root write_marker
  own_root marked moment root =
      if node_exists root.marker
      then (root, (do marker ← read_root_marker root.marker; ok marker.root_token))
      else if not (is_empty_root root)
      then (root, err ownership_mismatch)
      else write_fresh marked (fresh_root moment) root

  -- The directory `runs`, once the root is owned.
  abbrev pub list_root :
      Fault → JournalRoot × Journaled Text → Option (Entry JournalRoot) × Journaled Text
  list_root listed (root, err e) = (some (plain root), err e)
  list_root listed (root, ok token) =
      let (runs, done) = create_directory listed [] root.runs in
      (some (plain (record root { runs = runs })), done >>= λ names. ok token)

  abbrev pub own_place :
      Fault
      → Fault
      → Moment
      → Option (Entry JournalRoot) × Journaled JournalRoot
      → Option (Entry JournalRoot) × Journaled Text
  own_place marked listed moment (place, err e) = (place, err e)
  own_place marked listed moment (place, ok root) = list_root listed (own_root marked moment root)

  -- The faults of the root, of its marker and of `runs`. The result stands for the store by its
  -- token.
  unfoldable pub initialize :
      Fault
      → Fault
      → Fault
      → Moment
      → Option (Entry JournalRoot)
      → Option (Entry JournalRoot) × Journaled Text
  unfolding create_directory own_root
  initialize made marked listed moment place =
      own_place marked listed moment (create_directory made empty_root place)

  -- `open`: the token of the store, where there is one.
  unfoldable pub open_store : Option (Entry JournalRoot) → Journaled (Option Text)
  unfolding read_root_marker
  open_store none = ok none
  open_store (some other) = err ownership_mismatch
  open_store (some (plain root)) = do
    marker ← read_root_marker root.marker
    elim root.runs [
      | some (plain runs) ↦ ok (some marker.root_token)
      | some other ↦ err ownership_mismatch
      | none ↦ err ownership_mismatch
    ]
