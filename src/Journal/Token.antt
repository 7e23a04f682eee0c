-- ===== src/Journal/Token.antt =====
-- `new_ownership_token` of src/run_journal.rs: the digest that it makes has the form of a token.
use Prim.Native.Char.{Char, code}
use Prim.Native.String
use text.Mathlib.TextLemmas.{nil-append, cons-append}
use commit_ci_preflight.Prelude.{
  ℕ, ◌*◌, ◌/◌, ◌%◌, zero, suc, ◌≡◌, refl, sym, ap, ◌∙◌, Bool, true, ◌&&◌, some, String as Text,
  List, [], ◌∷◌, ltb, length, all, arith, and-eq-true,
}
use commit_ci_preflight.Outcome.{
  ok, map_err, >>=-eq-ok, map_err-eq-ok, ok_or-eq-ok, ok_inj, some_inj,
}
use commit_ci_preflight.Journal.Data.{corrupt}
use commit_ci_preflight.Journal.Fields.{validate_run_id}
use commit_ci_preflight.Journal.Reading.{token_digest}
use commit_ci_preflight.Text.{as_bytes, is_lower_hex, strip_prefix}
use commit_ci_preflight.Canonical.Digest.{
  char_at, hex, encode_hex, Codec, Serialize, receipt_id_prefix, canonical_digest, canonical_json,
}

pub strip_prefix-append : (p s : Text) → strip_prefix p (String.◌++◌ p s) ≡ some s
unfolding strip_prefix
strip_prefix-append String.[] s = ap some (nil-append s)
strip_prefix-append (String.◌∷◌ c p) s =
    rw (cons-append c p s) (ground (arith, strip_prefix-append p s))

-- A character that is one byte, and a lower hexadecimal digit.
abbrev is_hex_char : Char → Bool
is_hex_char c = ltb (code c) 128 && is_lower_hex (code c)

abbrev all_hex : Text → Bool
all_hex String.[] = true
all_hex (String.◌∷◌ c s) = is_hex_char c && all_hex s

char_at-is_hex_char :
    (s : Text) (index : ℕ) → all_hex s ≡ true → is_hex_char (char_at s index) ≡ true
char_at-is_hex_char String.[] index h = refl
char_at-is_hex_char (String.◌∷◌ c s) zero h = (and-eq-true _ _ h).0
char_at-is_hex_char (String.◌∷◌ c s) (suc index) h =
    char_at-is_hex_char s index (and-eq-true _ _ h).1

-- A text of `n` lower hexadecimal digits.
abbrev IsHex : ℕ → Text → Type 0
IsHex n s = (length (as_bytes s) ≡ n) × (all is_lower_hex (as_bytes s) ≡ true)

IsHex-cons :
    (c : Char) (s : Text) {n : ℕ}
    → is_hex_char c ≡ true
    → IsHex n s
    → IsHex (suc n) (String.◌∷◌ c s)
unfolding as_bytes
IsHex-cons c s h (count, digits) =
    let (one, digit) = and-eq-true (ltb (code c) 128) _ h in
    rw (one, digit, digits) (ap suc count, refl)

encode_hex-IsHex : (bytes : List ℕ) → IsHex (2 * length bytes) (encode_hex bytes)
unfolding as_bytes encode_hex
encode_hex-IsHex [] = (refl, refl)
encode_hex-IsHex (byte ∷ bytes) =
    let both : 2 * suc (length bytes) ≡ suc (suc (2 * length bytes)) = omega arith in
    let high = char_at-is_hex_char hex (byte / 16) refl in
    let low = char_at-is_hex_char hex (byte % 16) refl in
    rw both (
      IsHex-cons (char_at hex (byte / 16)) (String.◌∷◌ (char_at hex (byte % 16)) (encode_hex bytes))
        high (IsHex-cons (char_at hex (byte % 16)) (encode_hex bytes) low (encode_hex-IsHex bytes)))

-- The documented length of SHA-256.
abbrev pub IsSha256 : Codec → Type 0
IsSha256 codec = (bytes : List ℕ) → length (codec.sha256 bytes) ≡ 32

validate_run_id-encode_hex :
    (bytes : List ℕ) → length bytes ≡ 32 → validate_run_id (encode_hex bytes) ≡ ok tt
unfolding validate_run_id
validate_run_id-encode_hex bytes count =
    let (long, digits) = encode_hex-IsHex bytes in
    let full : length (as_bytes (encode_hex bytes)) ≡ 64 = omega (arith, long, count) in
    rw (full, digits) refl

-- Every token is valid.
pub token_digest-validate_run_id {ℓ} :
    (codec : Codec) {A : Type ℓ} (s : Serialize A) (value : A) {token : Text}
    → IsSha256 codec
    → token_digest codec ⦃s = s⦄ value ≡ ok token
    → validate_run_id token ≡ ok tt
unfolding token_digest canonical_digest
token_digest-validate_run_id codec s value {token} hashes h =
    let (digest, made, h1) =
      >>=-eq-ok (map_err (λ _. corrupt) (canonical_digest codec ⦃s = s⦄ value)) _ h in
    let made1 = map_err-eq-ok (λ _. corrupt) (canonical_digest codec ⦃s = s⦄ value) made in
    let (bytes, _, h2) = >>=-eq-ok (canonical_json codec ⦃s = s⦄ value) _ made1 in
    let text = encode_hex (codec.sha256 bytes) in
    let found = ok_or-eq-ok (strip_prefix receipt_id_prefix digest) corrupt h1 in
    let same =
      sym (strip_prefix-append receipt_id_prefix text)
      ∙ ap (strip_prefix receipt_id_prefix) (ok_inj h2)
      ∙ found in
    rw (← some_inj same) (validate_run_id-encode_hex (codec.sha256 bytes) (hashes bytes))
