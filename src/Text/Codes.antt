-- ===== src/Text/Codes.antt =====
-- The methods of Rust's `str` that read the output of a command, over the code points of the text,
-- and `std::str::from_utf8`.
use commit_ci_preflight.Prelude.{
  ℕ, zero, suc, ◌+◌, ◌-◌, ◌*◌, Bool, true, false, not, ◌&&◌, ◌||◌, Option, none, some, List, [],
  ◌∷◌, ◌++◌, ltb, leb, ◌==◌, if◌then◌else◌,
}
use mathlib.Core.List.{reverse}
use commit_ci_preflight.Text.{is_whitespace, is_ascii_digit}

-- The decoder between two bytes: how many bytes are still due, the bits so far, and the range in
-- which the next byte has to be.
pub record Decoder : Type 0 where
  pub due : ℕ
  pub bits : ℕ
  pub low : ℕ
  pub high : ℕ

abbrev idle : Decoder
idle = record { due = 0; bits = 0; low = 128; high = 191 }

abbrev started : ℕ → ℕ → ℕ → ℕ → Option (Decoder × List ℕ)
started due bits low high = some (record { due = due; bits = bits; low = low; high = high }, [])

-- The table of well-formed sequences of the Unicode standard.
abbrev lead_byte : ℕ → Option (Decoder × List ℕ)
lead_byte b =
    if ltb b 128
    then some (idle, b ∷ [])
    else if ltb b 194
    then none
    else if ltb b 224
    then started 1 (b - 192) 128 191
    else if b == 224
    then started 2 0 160 191
    else if b == 237
    then started 2 13 128 159
    else if ltb b 240
    then started 2 (b - 224) 128 191
    else if b == 240
    then started 3 0 144 191
    else if ltb b 244
    then started 3 (b - 240) 128 191
    else if b == 244
    then started 3 4 128 143
    else none

abbrev next_byte : ℕ → Decoder → ℕ → Option (Decoder × List ℕ)
next_byte zero d b = lead_byte b
next_byte (suc due) d b =
    let bits : ℕ = d.bits * 64 + (b - 128) in
    if not (leb d.low b && leb b d.high)
    then none
    else if due == 0
    then some (idle, bits ∷ [])
    else started due bits 128 191

decode : Decoder → List ℕ → Option (List ℕ)
decode d [] = if d.due == 0 then some [] else none
decode d (b ∷ bytes) = elim (next_byte d.due d b) [
  | none ↦ none
  | some (d', codes) ↦ elim (decode d' bytes) [ none ↦ none | some rest ↦ some (codes ++ rest) ]
]

unfoldable pub from_utf8 : List ℕ → Option (List ℕ)
unfolding decode
from_utf8 bytes = decode idle bytes

unfoldable pub codes_eq : List ℕ → List ℕ → Bool
codes_eq [] [] = true
codes_eq [] (b ∷ bs) = false
codes_eq (a ∷ as') [] = false
codes_eq (a ∷ as') (b ∷ bs) = a == b && codes_eq as' bs

unfoldable pub strip_prefix_codes : List ℕ → List ℕ → Option (List ℕ)
strip_prefix_codes [] s = some s
strip_prefix_codes (p ∷ ps) [] = none
strip_prefix_codes (p ∷ ps) (c ∷ s) =
    let rest = strip_prefix_codes ps s in if p == c then rest else none

unfoldable pub strip_suffix_codes : List ℕ → List ℕ → Option (List ℕ)
unfolding strip_prefix_codes
strip_suffix_codes suffix s = elim (strip_prefix_codes (reverse suffix) (reverse s)) [
  | none ↦ none
  | some rest ↦ some (reverse rest)
]

abbrev push_code : ℕ → List (List ℕ) → List (List ℕ)
push_code c [] = (c ∷ []) ∷ []
push_code c (line ∷ lines) = (c ∷ line) ∷ lines

abbrev pub starts_with : ℕ → List ℕ → Bool
starts_with c [] = false
starts_with c (d ∷ s) = d == c

-- `lines`: a line ends before "\n" or "\r\n".
unfoldable pub lines : List ℕ → List (List ℕ)
lines [] = []
lines (c ∷ s) =
    let rest = lines s in
    if c == 10 then [] ∷ rest else if c == 13 && starts_with 10 s then rest else push_code c rest

unfoldable pub trim_start : List ℕ → List ℕ
trim_start [] = []
trim_start (c ∷ s) = let rest = trim_start s in if is_whitespace c then rest else c ∷ s

unfoldable pub trim : List ℕ → List ℕ
unfolding trim_start
trim s = reverse (trim_start (reverse (trim_start s)))

abbrev before_and_after : ℕ → Option (List ℕ × List ℕ) → Option (List ℕ × List ℕ)
before_and_after c none = none
before_and_after c (some (before, after)) = some (c ∷ before, after)

unfoldable pub split_once : ℕ → List ℕ → Option (List ℕ × List ℕ)
split_once a [] = none
split_once a (c ∷ s) =
    let rest = split_once a s in if c == a then some ([], s) else before_and_after c rest

-- The words of a text; the first one is open while no white space stands before it.
words : List ℕ → List (List ℕ)
words [] = [] ∷ []
words (c ∷ s) = let rest = words s in if is_whitespace c then [] ∷ rest else push_code c rest

abbrev drop_empty : List (List ℕ) → List (List ℕ)
drop_empty [] = []
drop_empty ([] ∷ parts) = drop_empty parts
drop_empty ((c ∷ word) ∷ parts) = (c ∷ word) ∷ drop_empty parts

unfoldable pub split_whitespace : List ℕ → List (List ℕ)
unfolding words
split_whitespace s = drop_empty (words s)

abbrev pub all_digits : List ℕ → Bool
all_digits [] = true
all_digits (c ∷ s) = is_ascii_digit c && all_digits s

unfoldable pub decimal_value : ℕ → List ℕ → ℕ
decimal_value value [] = value
decimal_value value (c ∷ s) = decimal_value (value * 10 + (c - b'0')) s

abbrev without_sign : List ℕ → List ℕ
without_sign [] = []
without_sign (c ∷ s) = if c == b'+' then s else c ∷ s

abbrev is_empty_codes : List ℕ → Bool
is_empty_codes [] = true
is_empty_codes (c ∷ s) = false

-- `parse` into an unsigned type with `bound` values: one "+" may stand before the digits.
unfoldable pub parse_unsigned : ℕ → List ℕ → Option ℕ
unfolding decimal_value
parse_unsigned bound s =
    let digits = without_sign s in
    let value = decimal_value 0 digits in
    if is_empty_codes digits || not (all_digits digits)
    then none
    else if ltb value bound
    then some value
    else none
