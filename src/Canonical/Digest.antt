-- ===== src/Canonical/Digest.antt =====
-- `canonical_json`, `canonical_digest` and `encode_hex` of src/receipt.rs.
use Prim.Native.Char.{Char}
use Prim.Native.String.{[], ◌∷◌}
use Prim.Native.String
use commit_ci_preflight.Prelude.{ℕ, ◌/◌, ◌%◌, zero, suc, String as Text, Option, List}
use commit_ci_preflight.Outcome.{ok, ◌>>=◌, ok_or}
use commit_ci_preflight.Canonical.Json.{Value, normalize_json}
use commit_ci_preflight.Receipt.Failure.{serialization, Checked}

-- What serde derives for a type: its JSON value (`serde_json::to_value`).
pub record Serialize {ℓ} (A : Type ℓ) : Type ℓ where
  pub to_value : A → Option Value

-- The functions of serde_json and sha2 on bytes.
pub record Codec : Type 0 where
  pub to_vec : Value → Option (List ℕ)
  pub sha256 : List ℕ → List ℕ

abbrev pub receipt_id_prefix : Text
receipt_id_prefix = "sha256:"

abbrev pub hex : Text
hex = "0123456789abcdef"

-- `HEX[index]`; every index that `encode_hex` makes of a byte is below 16.
abbrev pub char_at : Text → ℕ → Char
char_at [] index = "0"
char_at (c ∷ s) zero = c
char_at (c ∷ s) (suc index) = char_at s index

-- `byte >> 4` and `byte & 0x0f` index the table.
unfoldable pub encode_hex : List ℕ → Text
encode_hex List.[] = []
encode_hex (List.◌∷◌ byte bytes) =
    char_at hex (byte / 16) ∷ (char_at hex (byte % 16) ∷ encode_hex bytes)

module _ (codec : Codec) where
  unfoldable pub canonical_json {ℓ} : {A : Type ℓ} ⦃s : Serialize A⦄ → A → Checked (List ℕ)
  unfolding normalize_json
  canonical_json ⦃s⦄ value = do
    tree ← ok_or (s.to_value value) serialization
    ok_or (codec.to_vec (normalize_json tree)) serialization

  unfoldable pub canonical_digest {ℓ} : {A : Type ℓ} ⦃s : Serialize A⦄ → A → Checked Text
  unfolding canonical_json encode_hex
  canonical_digest ⦃s⦄ value = do
    bytes ← canonical_json ⦃s = s⦄ value
    ok (String.◌++◌ receipt_id_prefix (encode_hex (codec.sha256 bytes)))
