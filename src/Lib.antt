-- ===== src/Lib.antt =====
-- Commit CI Preflight: the configuration, receipts and verification of local CI runs.
--
-- The program turns a configuration into an execution plan, runs the plan, seals what happened into
-- a receipt, and verifies a receipt against repository policy. A plan is known by the digest of its
-- canonical JSON; a receipt of version 2 carries the plan and its digest, and its envelope carries
-- the digest of the receipt. A verification opens the envelope (receipt::verify), then evaluates
-- the policy on it; with a trusted configuration it also compares the plan in the receipt with the
-- plan that the configuration gives.
--
-- Files and the code they are about:
--   Prelude, Outcome, Ordered, Text: lists, integers and Result; BTreeSet and BTreeMap as ascending
--     lists; str as a text of characters with its UTF-8 bytes.
--   Canonical: src/receipt.rs, normalize_json, canonical_json, canonical_digest, encode_hex.
--   Config: src/config.rs. Config/Data has the types, Config/Fields the field validators,
--     Config/Runtime, Config/Caches, Config/Environment, Config/Checks, Config/Storage and
--     Config/Isolation one part of the plan each, Config/Topology validate_dependencies and
--     topological_checks, Config/Plan ConfigV1::parse, validate_top_level and into_plan.
--   Receipt: src/receipt.rs. Receipt/Data has the types, Receipt/Fields and Receipt/Timestamp the
--     field validators, Receipt/Common CheckEvidence::validate and ReceiptCommon::validate,
--     Receipt/Manifest what only version 2 has, Receipt/Envelope seal, verify and canonical_bytes.
--   Verify: src/verify.rs. Verify/Policy has both policies, Verify/Report the report, Verify/Utc
--     parse_utc_seconds, Verify/Evaluate evaluate_policy, Verify/Document verify_receipt_document,
--     Verify/PlanDiff compare_plan_value, Verify/Trusted verify_trusted_plan_receipt_document,
--     Verify/Load the loading of policies and ConfigV1::load.
--   Resource: src/resource.rs. Resource/Snapshot has the thresholds and evaluate_pre_start,
--     Resource/Watchdog WatchdogState (Resource/Watchdog/History its decision read off the history),
--     Resource/Probe and Resource/Sample the parsers and ResourceProbe::sample, Resource/Thread the
--     loop of ResourceWatchdog, Resource/Observation and Resource/Status the reports. Text/Codes has
--     the methods of str that the parsers call, on code points.
--   Journal: src/run_journal.rs on the operations of src/durable_fs.rs. Journal/Files has the
--     directory of runs and its durable operations, Journal/Reading read_entries and the markers,
--     Journal/Store create_run, transition and apply, Journal/Resources reserve_resource, bind_source
--     and status, Journal/Root initialize and open.
--   Storage: src/storage.rs. Terminal: src/terminal.rs.
--   Tests: samples, and the theorems at them.
--
-- The model. Functions of the source are functions with the same names; a loop is a function by
-- clauses with the loop's variables as arguments; Result is Outcome, and each ? is a bind. Unsigned
-- integers are natural numbers with the overflow checks of the source written out; i64 and i32 are
-- the integers of Prelude/Int. What the source does with expect or an unchecked subtraction is the
-- constructor panicked of ConfigError, which the source does not have. The loop of
-- topological_checks runs on fuel, one unit for each round; a round takes a check for good, so the
-- number of checks is enough, and normalize_checks_total shows that panicked, which also stands for
-- running out, is never the result. decimal_from of Verify/PlanDiff has as fuel the number that it
-- prints, which has no more digits than that.
--
-- The watchdog thread is a function over its rounds: a round holds what the thread reads from the
-- other threads and from its commands. The directory of runs is a map from names to directories; a
-- durable operation takes a Fault, which says whether it is refused, stops after some bytes of its
-- write, or only fails to sync; the names in it are Unicode.
--
-- Parameters: the TOML parser, serde_json::to_value (the instances of Serialize),
-- serde_json::to_vec and SHA-256 (Codec), serde_json::from_slice (Decoder), the file
-- system and TOML (Host), the policies of version 2 of src/matrix.rs, the probe of free space,
-- serde_json on the types of the journal (Serde, RootSerde), the clock, process id
-- and counter of a token (Moment), and the commands that the resource probe runs
-- (Runner). Without the feature preserve_order serde_json keeps the entries of an object in the order
-- of their keys; the theorems that need this say so.
--
-- Not modelled: the JSON schema printers, Display and source of the error types and the payloads of
-- errors that other crates raise, format_unix_utc of src/verify.rs, and the other modules of src/: admission, the resource history, runs,
-- processes, caches, snapshots, the matrix, benchmarks, sessions and the command line.
pub mod Prelude
pub mod Outcome
pub mod Text
pub mod Receipt
pub mod Canonical
pub mod Config
pub mod Verify
pub mod Resource
pub mod Journal
pub mod Storage
pub mod Terminal
mod Tests
pub mod Ordered
