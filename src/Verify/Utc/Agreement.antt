-- ===== src/Verify/Utc/Agreement.antt =====
-- The two readers of times, `require_timestamp` of src/receipt.rs and `parse_utc_seconds` of
-- src/verify.rs, agree.
use commit_ci_preflight.Prelude.{
  ℕ, zero, suc, ◌+◌, ◌-◌, ◌*◌, ◌/◌, ◌%◌, ◌≤◌, ℤ, String, Bool, true, false, not, ◌≡◌, refl, ◌∙◌,
  List, [], ◌∷◌, some, arith, ◌==◌, length, take, drop,
}
use commit_ci_preflight.Outcome.{
  ok, reject, ok_or, >>=-eq-ok, >>-eq-ok, reject->>-eq-ok, ok_or-eq-ok,
}
use commit_ci_preflight.Text.{as_bytes}
use commit_ci_preflight.Receipt.Failure.{ReceiptError, invalid_timestamp}
use commit_ci_preflight.Receipt.Fields.{require_text}
use commit_ci_preflight.Receipt.Timestamp.{
  parse_decimal_from, parse_decimal, slice, separators_are_valid, is_leap_year, divisible_by,
  days_in_month, is_calendar_time, require_timestamp,
}
use commit_ci_preflight.Verify.Utc.{decimal, leap, is_rejected, civil_seconds, parse_utc_seconds}
use commit_ci_preflight.Verify.Utc.Seconds.{seconds_some, unless_none, six_some}

-- The largest value after so many digits more.
abbrev largest : ℕ → ℕ → ℕ
largest zero m = m
largest (suc k) m = largest k (m * 10 + 9)

largest-grows : (k m n : ℕ) → n ≤ m → n ≤ largest k m
largest-grows zero m n h = h
largest-grows (suc k) m n h = largest-grows k (m * 10 + 9) n (omega (arith, h))

parse_decimal_from-largest :
    (k m value : ℕ) (bytes : List ℕ) {n : ℕ}
    → length bytes ≤ k
    → value ≤ m
    → parse_decimal_from value bytes ≡ some n
    → n ≤ largest k m
parse_decimal_from-largest k m value [] short below h = largest-grows k m _ (ground arith)
parse_decimal_from-largest zero m value (b ∷ bytes) short below h = absurd (ground arith)
parse_decimal_from-largest (suc k) m value (b ∷ bytes) {n} short below h =
    parse_decimal_from-largest k (m * 10 + 9) (value * 10 + (b - 48)) bytes {n = n}
      (omega (arith, short)) (ground arith) (ground arith)

length-take : (count : ℕ) (bytes : List ℕ) → length (take count bytes) ≤ count
length-take zero bytes = omega arith
length-take (suc n) [] = omega arith
length-take (suc n) (b ∷ bytes) = omega (arith, length-take n bytes)

rem_4 : (y : ℕ) → (y % 4 == 0) ≡ (y / 4 * 4 == y)
rem_4 y = ground arith

rem_100 : (y : ℕ) → (y % 100 == 0) ≡ (y / 100 * 100 == y)
rem_100 y = ground arith

rem_400 : (y : ℕ) → (y % 400 == 0) ≡ (y / 400 * 400 == y)
rem_400 y = ground arith

leap_same : (year : ℕ) → leap year ≡ is_leap_year year
unfolding leap is_leap_year divisible_by
leap_same year = rw (rem_4 year, rem_100 year, rem_400 year) refl

two_digits :
    (from : ℕ) (bytes : List ℕ) {n : ℕ} → parse_decimal (slice from 2 bytes) ≡ some n → n ≤ 99
unfolding parse_decimal
two_digits from bytes {n} h =
    parse_decimal_from-largest 2 0 0 (slice from 2 bytes) {n = n} (length-take 2 (drop from bytes))
      (omega arith) h

four_digits :
    (from : ℕ) (bytes : List ℕ) {n : ℕ} → parse_decimal (slice from 4 bytes) ≡ some n → n ≤ 9999
unfolding parse_decimal
four_digits from bytes {n} h =
    parse_decimal_from-largest 4 0 0 (slice from 4 bytes) {n = n} (length-take 4 (drop from bytes))
      (omega arith) h

days_at_most : (leap_year : Bool) (month : ℕ) → days_in_month leap_year month ≤ 31
unfolding days_in_month
days_at_most leap_year month = ground arith

not_rejected :
    (days year day hour minute second : ℕ)
    → is_calendar_time days year day hour minute second ≡ true
    → is_rejected days year day hour minute second ≡ false
not_rejected days year day hour minute second h = ground arith

calendar_bounds :
    (days year day hour minute second : ℕ)
    → is_calendar_time days year day hour minute second ≡ true
    → (day ≤ days) × (hour ≤ 23) × (minute ≤ 59) × (second ≤ 59)
calendar_bounds days year day hour minute second h = ground arith

civil_some :
    (year month day hour minute second : ℕ)
    → year ≤ 9999
    → month ≤ 99
    → is_calendar_time (days_in_month (is_leap_year year) month) year day hour minute second ≡ true
    → (t : ℤ) × (civil_seconds year month day hour minute second ≡ some t)
unfolding civil_seconds
civil_some year month day hour minute second y m valid =
    let (d, h, n, s) =
      calendar_bounds (days_in_month (is_leap_year year) month) year day hour minute second valid in
    let kept : is_rejected (days_in_month (leap year) month) year day hour minute second ≡ false =
      rw (leap_same year) (
        not_rejected (days_in_month (is_leap_year year) month) year day hour minute second valid) in
    let (t, e) =
      seconds_some year month day hour minute second y m
        (omega (arith, d, days_at_most (is_leap_year year) month)) h n s in
    (t, rw kept e)

decimal_of :
    (bytes : List ℕ) (bad : ReceiptError) {n : ℕ}
    → ok_or (parse_decimal bytes) bad ≡ ok n
    → decimal bytes ≡ some n
unfolding parse_decimal decimal
decimal_of bytes bad h = ok_or-eq-ok _ bad h

accepted : (test : Bool) (bad : ReceiptError) → reject (not test) bad ≡ ok tt → test ≡ true
accepted test bad h = ground arith

-- Every time that require_timestamp accepts is one that parse_utc_seconds reads: the two calendars
-- agree and no arithmetic overflows.
pub require_timestamp-parses :
    (field value : String)
    → require_timestamp field value ≡ ok tt
    → (t : ℤ) × (parse_utc_seconds value ≡ some t)
unfolding require_timestamp parse_utc_seconds
require_timestamp-parses field value h =
    let bytes = as_bytes value in
    let bad = invalid_timestamp field in
    let (_, h1) = >>-eq-ok (require_text field value) _ h in
    let (separated, h2) = reject->>-eq-ok (not (separators_are_valid bytes)) bad _ h1 in
    let (year, e1, h3) = >>=-eq-ok (ok_or (parse_decimal (slice 0 4 bytes)) bad) _ h2 in
    let (month, e2, h4) = >>=-eq-ok (ok_or (parse_decimal (slice 5 2 bytes)) bad) _ h3 in
    let (day, e3, h5) = >>=-eq-ok (ok_or (parse_decimal (slice 8 2 bytes)) bad) _ h4 in
    let (hour, e4, h6) = >>=-eq-ok (ok_or (parse_decimal (slice 11 2 bytes)) bad) _ h5 in
    let (minute, e5, h7) = >>=-eq-ok (ok_or (parse_decimal (slice 14 2 bytes)) bad) _ h6 in
    let (second, e6, h8) = >>=-eq-ok (ok_or (parse_decimal (slice 17 2 bytes)) bad) _ h7 in
    let valid : is_calendar_time (days_in_month (is_leap_year year) month) year day hour minute
          second
        ≡ true =
      accepted _ bad h8 in
    let (t, e) =
      civil_some year month day hour minute second
        (four_digits 0 bytes {n = year} (ok_or-eq-ok _ bad e1))
        (two_digits 5 bytes {n = month} (ok_or-eq-ok _ bad e2)) valid in
    (
      t,
      unless_none (not (separators_are_valid bytes)) _ separated
          ∙ (six_some (decimal (slice 0 4 bytes)) (decimal (slice 5 2 bytes))
                (decimal (slice 8 2 bytes)) (decimal (slice 11 2 bytes))
                (decimal (slice 14 2 bytes)) (decimal (slice 17 2 bytes)) civil_seconds year month
                day hour minute second (decimal_of (slice 0 4 bytes) bad {n = year} e1)
                (decimal_of (slice 5 2 bytes) bad {n = month} e2)
                (decimal_of (slice 8 2 bytes) bad {n = day} e3)
                (decimal_of (slice 11 2 bytes) bad {n = hour} e4)
                (decimal_of (slice 14 2 bytes) bad {n = minute} e5)
                (decimal_of (slice 17 2 bytes) bad {n = second} e6)
              ∙ e),
    )
