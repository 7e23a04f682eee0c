-- ===== src/Journal/Reading.antt =====
-- What src/run_journal.rs reads: the owner marker, the source binding and the entries of a run.
use Prim.Native.String
use commit_ci_preflight.Prelude.{
  ℕ, zero, suc, ◌/◌, ◌%◌, Bool, true, false, not, ◌&&◌, ◌||◌, Option, none, some, String as Text,
  List, [], ◌∷◌, ◌++◌, ltb, ◌==◌, if◌then◌else◌, str_eq, length,
}
use commit_ci_preflight.Outcome.{ok, err, ◌>>=◌, ◌>>◌, reject, ok_or, map_err}
use commit_ci_preflight.Text.{strip_prefix}
use commit_ci_preflight.Ordered.Map.{get}
use commit_ci_preflight.Canonical.Json.{Value}
use commit_ci_preflight.Canonical.Digest.{
  Codec, Serialize, canonical_digest, char_at, receipt_id_prefix,
}
use commit_ci_preflight.Journal.Data.{
  RunJournalStateV1, RunJournalEntryV1, RunOwnerMarkerV1, RunJournalSourceV1, Journaled, corrupt,
  ownership_mismatch, schema_version, legal_transition, state_name,
}
use commit_ci_preflight.Journal.Fields.{
  is_err, validate_hex_identity, validate_digest, validate_entry,
}
use commit_ci_preflight.Journal.Files.{
  Node, file, directory, link, node_exists, Folder, Place, folder, foreign, Runs,
}

abbrev pub run_marker : Text
run_marker = ".ccp-run-owner-v1.json"

abbrev pub resources_dir : Text
resources_dir = "resources"

abbrev pub source_binding : Text
source_binding = "source-snapshot-v1.json"

pub record RunTokenSeed : Type 0 where
  pub schema_version : Text
  pub purpose : Text
  pub root_token : Text
  pub run_id : Text

-- serde_json on the types of the journal: `to_vec` and `from_slice`.
pub record Serde : Type 0 where
  pub encode_entry : RunJournalEntryV1 → Option (List ℕ)
  pub decode_entry : List ℕ → Option RunJournalEntryV1
  pub encode_marker : RunOwnerMarkerV1 → Option (List ℕ)
  pub decode_marker : List ℕ → Option RunOwnerMarkerV1
  pub encode_source : RunJournalSourceV1 → Option (List ℕ)
  pub decode_source : List ℕ → Option RunJournalSourceV1
  pub seed_value : RunTokenSeed → Option Value

-- The digits of `n`, the last `count` of them, before `rest`.
unfoldable pub padded : ℕ → ℕ → Text → Text
padded zero n rest = rest
padded (suc count) n rest = padded count (n / 10) (String.◌∷◌ (char_at "0123456789" (n % 10)) rest)

-- `format!("{seq:020}-{}.json", state_name(state))`; a `u64` has at most 20 digits.
unfoldable pub entry_name : ℕ → RunJournalStateV1 → Text
unfolding padded state_name
entry_name seq state = padded 20 seq (String.◌++◌ "-" (String.◌++◌ (state_name state) ".json"))

unfoldable pub read_json_marker {ℓ} : {A : Type ℓ} → (List ℕ → Option A) → Option Node → Journaled A
read_json_marker decode none = err ownership_mismatch
read_json_marker decode (some (file bytes)) = do
  reject (ltb 4096 (length bytes)) ownership_mismatch
  ok_or (decode bytes) ownership_mismatch
read_json_marker decode (some (directory names)) = err ownership_mismatch
read_json_marker decode (some (link target)) = err ownership_mismatch

-- `validate_existing_plain_directory` of an entry of `runs`.
abbrev pub plain_directory : Option Place → Journaled Folder
plain_directory none = err ownership_mismatch
plain_directory (some (folder entries)) = ok entries
plain_directory (some (foreign target)) = err ownership_mismatch

-- The check of `resources`, where it exists.
abbrev pub resources_are_plain : Option Node → Bool
resources_are_plain none = true
resources_are_plain (some (file bytes)) = false
resources_are_plain (some (directory names)) = true
resources_are_plain (some (link target)) = not target

abbrev pub is_reserved : Text → Bool
is_reserved name = str_eq name run_marker || str_eq name resources_dir || str_eq name source_binding

-- The files of the entries, ascending by name.
unfoldable pub entry_files : Folder → Folder
entry_files [] = []
entry_files ((name, node) ∷ rest) =
    let others = entry_files rest in if is_reserved name then others else (name, node) ∷ others

abbrev pub last : List RunJournalEntryV1 → Option RunJournalEntryV1
last [] = none
last (entry ∷ []) = some entry
last (entry ∷ next ∷ rest) = last (next ∷ rest)

-- Whether the entry may stand after the last one.
abbrev pub follows : Option RunJournalEntryV1 → RunJournalEntryV1 → Bool
follows none entry = true
follows (some previous) entry = legal_transition previous.state entry.state

unfoldable pub is_bound : RunJournalSourceV1 → Bool
unfolding validate_hex_identity validate_digest
is_bound binding =
    str_eq binding.schema_version schema_version
    && not (is_err (validate_hex_identity binding.commit_sha))
    && not (is_err (validate_digest binding.manifest_digest))
    && not (binding.entry_count == 0)
    && str_eq binding.resource_id "source-snapshot-v1"

unfoldable pub token_digest {ℓ} : Codec → {A : Type ℓ} ⦃s : Serialize A⦄ → A → Journaled Text
unfolding canonical_digest strip_prefix
token_digest codec ⦃s⦄ value = do
  digest ← map_err (λ _. corrupt) (canonical_digest codec ⦃s = s⦄ value)
  ok_or (strip_prefix receipt_id_prefix digest) corrupt

module _ (serde : Serde) (codec : Codec) (root_token : Text) where
  unfoldable pub derived_run_token : Text → Journaled Text
  unfolding token_digest
  derived_run_token run_id =
      token_digest codec ⦃s = record { to_value = serde.seed_value }⦄ (record {
        schema_version = schema_version;
        purpose = "run-journal-entry";
        root_token = root_token;
        run_id = run_id;
      })

  -- The conditions before the one that derives the token.
  abbrev marker_fits : RunOwnerMarkerV1 → Text → Bool
  marker_fits marker run_id =
      str_eq marker.schema_version schema_version
      && str_eq marker.owner "commit-ci-preflight"
      && str_eq marker.purpose "run-journal-entry"
      && str_eq marker.root_token root_token
      && str_eq marker.run_id run_id

  -- `validate_run_marker` in a plain directory.
  unfoldable pub validate_run_marker : Folder → Text → Journaled (Unit {0})
  unfolding get read_json_marker derived_run_token
  validate_run_marker entries run_id = do
    marker ← read_json_marker serde.decode_marker (get run_marker entries)
    reject (not (marker_fits marker run_id)) ownership_mismatch
    token ← derived_run_token run_id
    reject (not (str_eq marker.run_token token)) ownership_mismatch

  -- The check of the source binding, where it exists.
  unfoldable pub check_source : Folder → Journaled (Unit {0})
  unfolding get read_json_marker is_bound
  check_source entries =
      if node_exists (get source_binding entries)
      then (do
        binding ← read_json_marker serde.decode_source (get source_binding entries)
        reject (not (is_bound binding)) corrupt)
      else ok tt

  -- `symlink_metadata`, the file's type and `from_slice`.
  abbrev pub decode_file : Node → Journaled RunJournalEntryV1
  decode_file (file bytes) = ok_or (serde.decode_entry bytes) corrupt
  decode_file (directory names) = err corrupt
  decode_file (link target) = err corrupt

  -- The body of the loop of `read_entries`.
  unfoldable pub read_entry :
      Text → List RunJournalEntryV1 → Text → Node → Journaled RunJournalEntryV1
  unfolding validate_entry entry_name legal_transition
  read_entry run_id entries name node = do
    entry ← decode_file node
    validate_entry entry run_id (length entries)
    reject (not (str_eq name (entry_name entry.seq entry.state))) corrupt
    reject (not (follows (last entries) entry)) corrupt
    ok entry

  unfoldable pub read_files :
      Text → List RunJournalEntryV1 → Folder → Journaled (List RunJournalEntryV1)
  unfolding read_entry
  read_files run_id entries [] = ok entries
  read_files run_id entries ((name, node) ∷ files) = do
    entry ← read_entry run_id entries name node
    read_files run_id (entries ++ entry ∷ []) files

  unfoldable pub read_entries : Text → Runs → Journaled (List RunJournalEntryV1)
  unfolding validate_run_marker check_source read_files entry_files get
  read_entries run_id runs = do
    entries ← plain_directory (get run_id runs)
    validate_run_marker entries run_id
    reject (not (resources_are_plain (get resources_dir entries))) ownership_mismatch
    check_source entries
    read_files run_id [] (entry_files entries)
