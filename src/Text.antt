-- ===== src/Text.antt =====
-- The methods of Rust's `str` and `char` that the validators use, over native texts.
-- A text is a list of code points; `as_bytes` gives its UTF-8 encoding.
pub mod Codes
use Prim.Native.Char.{Char, code}
use Prim.Native.String.{[], ◌∷◌}
use commit_ci_preflight.Prelude
use commit_ci_preflight.Prelude.{
  ℕ, zero, suc, ◌+◌, ◌-◌, ◌*◌, ◌/◌, ◌%◌, String, Bool, true, false, not, ◌&&◌, ◌||◌, Option, none,
  some, List, ltb, leb, ◌==◌, if◌then◌else◌, length, str_eq,
}

-- The code points of a text: `chars`.
abbrev pub chars : String → List ℕ
chars [] = List.[]
chars (c ∷ s) = List.◌∷◌ (code c) (chars s)

-- The UTF-8 encoding of one code point.
abbrev pub encode_utf8 : ℕ → List ℕ
encode_utf8 c =
    if ltb c 128
    then List.◌∷◌ c List.[]
    else if ltb c 2048
    then List.◌∷◌ (192 + c / 64) (List.◌∷◌ (128 + c % 64) List.[])
    else if ltb c 65536
    then List.◌∷◌ (224 + c / 4096) (List.◌∷◌ (128 + c / 64 % 64) (List.◌∷◌ (128 + c % 64) List.[]))
    else List.◌∷◌ (240 + c / 262144) (
        List.◌∷◌ (128 + c / 4096 % 64)
          (List.◌∷◌ (128 + c / 64 % 64) (List.◌∷◌ (128 + c % 64) List.[])))

-- `as_bytes`, and `bytes`.
unfoldable pub as_bytes : String → List ℕ
as_bytes [] = List.[]
as_bytes (c ∷ s) = Prelude.◌++◌ (encode_utf8 (code c)) (as_bytes s)

-- `len`: the number of bytes.
abbrev pub len : String → ℕ
len s = length (as_bytes s)

abbrev pub is_empty : String → Bool
is_empty [] = true
is_empty (c ∷ s) = false

-- `char::is_control`: the general category Cc.
abbrev pub is_control : ℕ → Bool
is_control c = ltb c 32 || (leb 127 c && ltb c 160)

-- `char::is_whitespace`: the property White_Space.
abbrev pub is_whitespace : ℕ → Bool
is_whitespace c =
    (leb 9 c && leb c 13)
    || c == 32
    || c == 133
    || c == 160
    || c == 5760
    || (leb 8192 c && leb c 8202)
    || c == 8232
    || c == 8233
    || c == 8239
    || c == 8287
    || c == 12288

abbrev pub is_ascii_digit : ℕ → Bool
is_ascii_digit c = leb b'0' c && leb c b'9'

abbrev pub is_ascii_alphabetic : ℕ → Bool
is_ascii_alphabetic c = (leb b'a' c && leb c b'z') || (leb b'A' c && leb c b'Z')

abbrev pub is_ascii_alphanumeric : ℕ → Bool
is_ascii_alphanumeric c = is_ascii_digit c || is_ascii_alphabetic c

-- `byte.is_ascii_digit() || (b'a'..=b'f').contains(&byte)`.
abbrev pub is_lower_hex : ℕ → Bool
is_lower_hex c = is_ascii_digit c || (leb b'a' c && leb c b'f')

-- `contains(c)` and `starts_with(c)` for a character.
abbrev pub contains_char : ℕ → String → Bool
contains_char a [] = false
contains_char a (c ∷ s) = code c == a || contains_char a s

abbrev pub starts_with_char : ℕ → String → Bool
starts_with_char a [] = false
starts_with_char a (c ∷ s) = code c == a

-- `strip_prefix`.
unfoldable pub strip_prefix : String → String → Option String
strip_prefix [] s = some s
strip_prefix (p ∷ ps) [] = none
strip_prefix (p ∷ ps) (c ∷ s) = if code p == code c then strip_prefix ps s else none

abbrev pub is_prefix : String → String → Bool
is_prefix [] s = true
is_prefix (p ∷ ps) [] = false
is_prefix (p ∷ ps) (c ∷ s) = code p == code c && is_prefix ps s

-- `contains(t)` for a text.
abbrev pub contains_str : String → String → Bool
contains_str t [] = is_empty t
contains_str t (c ∷ s) = is_prefix t (c ∷ s) || contains_str t s

-- Puts a character before the first part.
abbrev pub push_head : Char → List String → List String
push_head c List.[] = List.◌∷◌ (c ∷ []) List.[]
push_head c (List.◌∷◌ p ps) = List.◌∷◌ (c ∷ p) ps

-- `split(c)`: always at least one part.
unfoldable pub split : ℕ → String → List String
split a [] = List.◌∷◌ [] List.[]
split a (c ∷ s) = let rest = split a s in if code c == a then List.◌∷◌ [] rest else push_head c rest

abbrev split_at_last : ℕ → Char → String → Option (String × String) → Option (String × String)
split_at_last a c s none = if code c == a then some ([], s) else none
split_at_last a c s (some (before, after)) = some (c ∷ before, after)

-- `rsplit_once(c)`: the parts before and after the last `c`.
unfoldable pub rsplit_once : ℕ → String → Option (String × String)
rsplit_once a [] = none
rsplit_once a (c ∷ s) = split_at_last a c s (rsplit_once a s)

-- Whether `trim()` leaves nothing.
unfoldable pub is_blank : String → Bool
is_blank [] = true
is_blank (c ∷ s) = is_whitespace (code c) && is_blank s
