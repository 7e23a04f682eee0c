-- ===== src/Verify/Utc.antt =====
-- `parse_utc_seconds` of src/verify.rs and the functions that it calls.
pub mod Seconds
pub mod Agreement
use commit_ci_preflight.Prelude.{
  ℕ, ◌+◌, ◌-◌, ◌*◌, ◌/◌, ◌%◌, ◌^◌, ℤ, pos, negsuc, sub_ℕ, ◌+ℤ◌, ◌*ℤ◌, String as Text, Bool, not,
  ◌&&◌, ◌||◌, List, Option, none, some, ltb, leb, ◌==◌, if◌then◌else◌,
}
use commit_ci_preflight.Text.{as_bytes}
use commit_ci_preflight.Receipt.Timestamp.{
  parse_decimal_from, slice, separators_are_valid, days_in_month,
}

infixl 5 ◌>>=◌
abbrev pub ◌>>=◌ {ℓ κ} : {A : Type ℓ} {B : Type κ} → Option A → (A → Option B) → Option B
none >>= f = none
some a >>= f = f a

-- `decimal`, the same loop as `parse_decimal` of the receipt.
unfoldable pub decimal : List ℕ → Option ℕ
decimal bytes = parse_decimal_from 0 bytes

unfoldable pub leap : ℕ → Bool
leap year = year % 4 == 0 && (not (year % 100 == 0) || year % 400 == 0)

-- An `i64` that an arithmetic operation gave, unless it overflowed.
abbrev pub checked_i64 : ℤ → Option ℤ
checked_i64 (pos n) = if ltb n (2 ^ 63) then some (pos n) else none
checked_i64 (negsuc n) = if ltb n (2 ^ 63) then some (negsuc n) else none

-- Days from 1 March of the year 0. The year is at least 1, so no difference is negative.
unfoldable pub days_from_civil : (year month day : ℕ) → ℕ
days_from_civil year month day =
    let adjusted_year : ℕ = year - (if leb month 2 then 1 else 0) in
    let era : ℕ = adjusted_year / 400 in
    let year_of_era : ℕ = adjusted_year - era * 400 in
    let shifted_month : ℕ = if ltb 2 month then month - 3 else month + 9 in
    let day_of_year : ℕ = (153 * shifted_month + 2) / 5 + day - 1 in
    let day_of_era : ℕ = year_of_era * 365 + year_of_era / 4 - year_of_era / 100 + day_of_year in
    era * 146_097 + day_of_era

unfoldable pub seconds_from_civil : (year month day hour minute second : ℕ) → Option ℤ
unfolding days_from_civil ◌+ℤ◌ ◌*ℤ◌
seconds_from_civil year month day hour minute second = do
  product ← checked_i64 (sub_ℕ (days_from_civil year month day) 719_468 *ℤ pos 86_400)
  checked_i64 (product +ℤ pos (hour * 3_600 + minute * 60 + second))

abbrev pub is_rejected : (days year day hour minute second : ℕ) → Bool
is_rejected days year day hour minute second =
    year == 0 || not (leb 1 day && leb day days) || ltb 23 hour || ltb 59 minute || ltb 59 second

-- The range test and what follows it.
unfoldable pub civil_seconds : (year month day hour minute second : ℕ) → Option ℤ
unfolding leap days_in_month seconds_from_civil
civil_seconds year month day hour minute second =
    if is_rejected (days_in_month (leap year) month) year day hour minute second
    then none
    else seconds_from_civil year month day hour minute second

unfoldable pub parse_utc_seconds : Text → Option ℤ
unfolding as_bytes decimal civil_seconds
parse_utc_seconds value =
    let bytes = as_bytes value in
    if not (separators_are_valid bytes) then none else (do
      year ← decimal (slice 0 4 bytes)
      month ← decimal (slice 5 2 bytes)
      day ← decimal (slice 8 2 bytes)
      hour ← decimal (slice 11 2 bytes)
      minute ← decimal (slice 14 2 bytes)
      second ← decimal (slice 17 2 bytes)
      civil_seconds year month day hour minute second)
