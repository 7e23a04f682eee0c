-- ===== src/Receipt/Timestamp.antt =====
-- `require_timestamp` of src/receipt.rs.
use commit_ci_preflight.Prelude.{
  ℕ, ◌+◌, ◌-◌, ◌*◌, ◌/◌, String, Bool, not, ◌&&◌, ◌||◌, List, [], ◌∷◌, Option, none, some, ltb, leb,
  ◌==◌, if◌then◌else◌, length, take, drop, get_elem?,
}
use commit_ci_preflight.Outcome.{◌>>=◌, ◌>>◌, reject, ok_or}
use commit_ci_preflight.Text.{as_bytes, is_ascii_digit}
use commit_ci_preflight.Receipt.Failure.{invalid_timestamp, Verdict}
use commit_ci_preflight.Receipt.Fields.{require_text}

-- The `try_fold` of `parse_decimal`. At most four digits are read, so `u32` does not overflow.
abbrev pub parse_decimal_from : ℕ → List ℕ → Option ℕ
parse_decimal_from value [] = some value
parse_decimal_from value (byte ∷ bytes) =
    let next = parse_decimal_from (value * 10 + (byte - b'0')) bytes in
    if is_ascii_digit byte then next else none

unfoldable pub parse_decimal : List ℕ → Option ℕ
parse_decimal bytes = parse_decimal_from 0 bytes

-- `&bytes[from..from + count]`, in range wherever it is used.
abbrev pub slice : ℕ → ℕ → List ℕ → List ℕ
slice from count bytes = take count (drop from bytes)

-- `bytes[index] == byte`, in range wherever it is used.
abbrev pub byte_at : ℕ → ℕ → List ℕ → Bool
byte_at index byte bytes = elim (get_elem? bytes index) [ none ↦ Bool.false | some b ↦ b == byte ]

abbrev pub separators_are_valid : List ℕ → Bool
separators_are_valid bytes =
    length bytes == 20
    && byte_at 4 b'-' bytes
    && byte_at 7 b'-' bytes
    && byte_at 10 b'T' bytes
    && byte_at 13 b':' bytes
    && byte_at 16 b':' bytes
    && byte_at 19 b'Z' bytes

unfoldable pub divisible_by : ℕ → ℕ → Bool
divisible_by value divisor = value / divisor * divisor == value

unfoldable pub is_leap_year : ℕ → Bool
unfolding divisible_by
is_leap_year year = divisible_by year 4 && (not (divisible_by year 100) || divisible_by year 400)

unfoldable pub days_in_month : Bool → ℕ → ℕ
days_in_month leap_year month =
    if month == 1
      || month == 3
      || month == 5
      || month == 7
      || month == 8
      || month == 10
      || month == 12
    then 31
    else if month == 4 || month == 6 || month == 9 || month == 11
    then 30
    else if month == 2
    then if leap_year then 29 else 28
    else 0

abbrev pub is_calendar_time : (days year day hour minute second : ℕ) → Bool
is_calendar_time days year day hour minute second =
    ltb 0 year && (leb 1 day && leb day days) && leb hour 23 && leb minute 59 && leb second 59

unfoldable pub require_timestamp : String → String → Verdict
unfolding require_text as_bytes parse_decimal is_leap_year days_in_month
require_timestamp field value = do
  require_text field value
  let bytes = as_bytes value
  reject (not (separators_are_valid bytes)) (invalid_timestamp field)
  year ← ok_or (parse_decimal (slice 0 4 bytes)) (invalid_timestamp field)
  month ← ok_or (parse_decimal (slice 5 2 bytes)) (invalid_timestamp field)
  day ← ok_or (parse_decimal (slice 8 2 bytes)) (invalid_timestamp field)
  hour ← ok_or (parse_decimal (slice 11 2 bytes)) (invalid_timestamp field)
  minute ← ok_or (parse_decimal (slice 14 2 bytes)) (invalid_timestamp field)
  second ← ok_or (parse_decimal (slice 17 2 bytes)) (invalid_timestamp field)
  reject
      (not (is_calendar_time (days_in_month (is_leap_year year) month) year day hour minute second))
      (invalid_timestamp field)
