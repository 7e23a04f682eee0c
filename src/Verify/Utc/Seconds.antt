-- ===== src/Verify/Utc/Seconds.antt =====
-- The seconds of a date of the years 1 to 9999 fit in an `i64` (`parse_utc_seconds` of
-- src/verify.rs).
use commit_ci_preflight.Prelude.{
  ℕ, ◌+◌, ◌-◌, ◌*◌, ◌/◌, ◌^◌, ◌≤◌, ℤ, pos, negsuc, sub_ℕ, ◌+ℤ◌, ◌*ℤ◌, pos_part, neg_part, Bool,
  false, ◌≡◌, refl, Option, none, some, arith, ltb, leb, if◌then◌else◌,
}
use commit_ci_preflight.Verify.Utc.{◌>>=◌, checked_i64, days_from_civil, seconds_from_civil}

sub_parts : (a b : ℕ) → (pos_part (sub_ℕ a b) ≤ a) × (neg_part (sub_ℕ a b) ≤ b)
sub_parts a b = ground arith

mul_parts :
    (x : ℤ)
    → (pos_part (x *ℤ pos 86_400) ≤ pos_part x * 86_400)
      × (neg_part (x *ℤ pos 86_400) ≤ neg_part x * 86_400)
unfolding ◌*ℤ◌
mul_parts x =
    let (p, q) =
      sub_parts (pos_part x * 86_400 + neg_part x * 0) (pos_part x * 0 + neg_part x * 86_400) in
    (omega (arith, p), omega (arith, q))

add_parts :
    (x : ℤ) (n : ℕ)
    → (pos_part (x +ℤ pos n) ≤ pos_part x + n) × (neg_part (x +ℤ pos n) ≤ neg_part x)
unfolding ◌+ℤ◌
add_parts x n =
    let (p, q) = sub_parts (pos_part x + n) (neg_part x + 0) in (omega (arith, p), omega (arith, q))

checked_fits : (z : ℤ) → pos_part z ≤ 2 ^ 60 → neg_part z ≤ 2 ^ 60 → checked_i64 z ≡ some z
checked_fits (pos n) p q = ground arith
checked_fits (negsuc n) p q = ground arith

day_count :
    (x y : ℕ)
    → x ≤ 9999
    → y ≤ 4000
    → x / 400 * 146_097
        + ((x - x / 400 * 400) * 365 + (x - x / 400 * 400) / 4 - (x - x / 400 * 400) / 100 + y)
      ≤ 2_000_000_000
day_count x y h k = omega (arith, h, k)

day_of_year :
    (shifted day : ℕ) → shifted ≤ 108 → day ≤ 31 → (153 * shifted + 2) / 5 + day - 1 ≤ 4000
day_of_year shifted day h k = omega (arith, h, k)

days_bound :
    (year month day : ℕ)
    → year ≤ 9999
    → month ≤ 99
    → day ≤ 31
    → days_from_civil year month day ≤ 2_000_000_000
unfolding days_from_civil
days_bound year month day y m d =
    day_count (year - (if leb month 2 then 1 else 0))
      ((153 * (if ltb 2 month then month - 3 else month + 9) + 2) / 5 + day - 1) (omega (arith, y))
      (day_of_year (if ltb 2 month then month - 3 else month + 9) day (ground arith) d)

seconds_of :
    (days seconds : ℕ)
    → days ≤ 2_000_000_000
    → seconds ≤ 86_400
    → (t : ℤ) × ((checked_i64 (sub_ℕ days 719_468 *ℤ pos 86_400) >>= λ product.
          checked_i64 (product +ℤ pos seconds))
        ≡ some t)
seconds_of days seconds d s =
    let days_off = sub_ℕ days 719_468 in
    let (p, q) = sub_parts days 719_468 in
    let (u, v) = mul_parts days_off in
    let product = days_off *ℤ pos 86_400 in
    let (x, y) = add_parts product seconds in
    (
      product +ℤ pos seconds,
      rw (checked_fits product (omega (arith, p, u, d)) (omega (arith, q, v))) (
          checked_fits (product +ℤ pos seconds) (omega (arith, p, u, d, x, s))
            (omega (arith, q, v, y))),
    )

pub seconds_some :
    (year month day hour minute second : ℕ)
    → year ≤ 9999
    → month ≤ 99
    → day ≤ 31
    → hour ≤ 23
    → minute ≤ 59
    → second ≤ 59
    → (t : ℤ) × (seconds_from_civil year month day hour minute second ≡ some t)
unfolding seconds_from_civil
seconds_some year month day hour minute second y m d h n s =
    seconds_of (days_from_civil year month day) (hour * 3_600 + minute * 60 + second)
      (days_bound year month day y m d) (omega (arith, h, n, s))

pub unless_none {ℓ} :
    {A : Type ℓ} (test : Bool) (found : Option A)
    → test ≡ false
    → (if test then none else found) ≡ found
unless_none test found h = rw h refl

-- Six options that are there.
pub six_some :
    (o1 o2 o3 o4 o5 o6 : Option ℕ) (next : ℕ → ℕ → ℕ → ℕ → ℕ → ℕ → Option ℤ) (a b c d e f : ℕ)
    → o1 ≡ some a
    → o2 ≡ some b
    → o3 ≡ some c
    → o4 ≡ some d
    → o5 ≡ some e
    → o6 ≡ some f
    → (o1 >>= λ a. o2 >>= λ b. o3 >>= λ c. o4 >>= λ d. o5 >>= λ e. o6 >>= λ f. next a b c d e f)
      ≡ next a b c d e f
six_some o1 o2 o3 o4 o5 o6 next a b c d e f p q r s t u = rw (p, q, r, s, t, u) refl
