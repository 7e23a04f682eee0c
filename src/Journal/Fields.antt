-- ===== src/Journal/Fields.antt =====
-- The validators of src/run_journal.rs.
use commit_ci_preflight.Prelude.{
  ℕ, ◌%◌, Bool, true, false, not, ◌&&◌, ◌||◌, Option, none, some, String, List, ltb, leb, ◌==◌,
  if◌then◌else◌, str_eq, all,
}
use commit_ci_preflight.Outcome.{ok, err, ◌>>=◌, ◌>>◌, reject, ok_or}
use commit_ci_preflight.Text.{as_bytes, len, is_empty, is_ascii_digit, is_lower_hex, strip_prefix}
use commit_ci_preflight.Receipt.Timestamp.{
  parse_decimal_from, slice, separators_are_valid, days_in_month,
}
use commit_ci_preflight.Journal.Data.{
  RunJournalEntryV1, invalid_run_id, invalid_timestamp, corrupt, Journaled, is_created, is_failed,
  schema_version,
}

abbrev pub is_err {ℓ} : {A : Type ℓ} → Journaled A → Bool
is_err (ok a) = false
is_err (err e) = true

abbrev pub is_some {ℓ} : {A : Type ℓ} → Option A → Bool
is_some none = false
is_some (some a) = true

abbrev is_resource_byte : ℕ → Bool
is_resource_byte byte = (leb b'a' byte && leb byte b'z') || is_ascii_digit byte || byte == b'-'

unfoldable pub validate_resource_id : String → Journaled (Unit {0})
unfolding as_bytes
validate_resource_id value =
    reject
      (not (not (is_empty value) && leb (len value) 64 && all is_resource_byte (as_bytes value)))
      invalid_run_id

unfoldable pub validate_hex_identity : String → Journaled (Unit {0})
unfolding as_bytes
validate_hex_identity value =
    reject (not ((len value == 40 || len value == 64) && all is_lower_hex (as_bytes value))) corrupt

abbrev is_hex_digest : String → Bool
is_hex_digest hex = len hex == 64 && all is_lower_hex (as_bytes hex)

unfoldable pub validate_digest : String → Journaled (Unit {0})
unfolding strip_prefix as_bytes
validate_digest value = elim (strip_prefix "sha256:" value) [
  | none ↦ err corrupt
  | some hex ↦ reject (not (is_hex_digest hex)) corrupt
]

unfoldable pub validate_run_id : String → Journaled (Unit {0})
unfolding as_bytes
validate_run_id value = reject (not (is_hex_digest value)) invalid_run_id

unfoldable pub bounded_run_id : String → String
unfolding validate_run_id
bounded_run_id value = if is_err (validate_run_id value) then "unknown" else value

-- `month` is one of the twelve where this is not 0.
abbrev is_real_time : (year month day hour minute second : ℕ) → Bool
is_real_time year month day hour minute second =
    let leap = year % 4 == 0 && (not (year % 100 == 0) || year % 400 == 0) in
    let max_day = days_in_month leap month in
    not (year == 0)
    && (leb 1 day && leb day max_day)
    && ltb hour 24
    && ltb minute 60
    && ltb second 60

-- The digits of `&value[start..end]`; at most four, so `parse` does not overflow.
abbrev number : List ℕ → ℕ → ℕ → Journaled ℕ
number bytes from count = ok_or (parse_decimal_from 0 (slice from count bytes)) invalid_timestamp

abbrev digits_are_valid : List ℕ → Bool
digits_are_valid bytes =
    all is_ascii_digit (slice 0 4 bytes)
    && all is_ascii_digit (slice 5 2 bytes)
    && all is_ascii_digit (slice 8 2 bytes)
    && all is_ascii_digit (slice 11 2 bytes)
    && all is_ascii_digit (slice 14 2 bytes)
    && all is_ascii_digit (slice 17 2 bytes)

unfoldable pub validate_timestamp : String → Journaled (Unit {0})
unfolding as_bytes days_in_month
validate_timestamp value = do
  let bytes = as_bytes value
  reject (not (separators_are_valid bytes && digits_are_valid bytes)) invalid_timestamp
  year ← number bytes 0 4
  month ← number bytes 5 2
  day ← number bytes 8 2
  hour ← number bytes 11 2
  minute ← number bytes 14 2
  second ← number bytes 17 2
  reject (not (is_real_time year month day hour minute second)) invalid_timestamp

-- `==` of two Booleans.
abbrev pub same_bool : Bool → Bool → Bool
same_bool true b = b
same_bool false b = not b

unfoldable pub validate_entry : RunJournalEntryV1 → String → ℕ → Journaled (Unit {0})
unfolding validate_timestamp
validate_entry entry run_id seq =
    reject
      (not (str_eq entry.schema_version schema_version)
        || not (str_eq entry.run_id run_id)
        || not (entry.seq == seq)
        || is_err (validate_timestamp entry.at_utc)
        || not (same_bool (is_failed entry.state) (is_some entry.failure_kind))
        || (seq == 0 && not (is_created entry.state)))
      corrupt
