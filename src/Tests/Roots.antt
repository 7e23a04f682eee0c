-- ===== src/Tests/Roots.antt =====
-- The root of the journal at a fresh cache root.
use commit_ci_preflight.Prelude.{
  ◌≡◌, refl, inl, inr, Option, none, some, String as Text, [], ◌∷◌, if◌then◌else◌, str_eq, eq_iff,
  arith, Bool-cases, length, ◌==◌,
}
use commit_ci_preflight.Outcome.{ok}
use commit_ci_preflight.Canonical.Json.{text}
use commit_ci_preflight.Tests.Samples.{codec}
use commit_ci_preflight.Journal.Files.{file, success}
use commit_ci_preflight.Journal.Token.{IsSha256}
use commit_ci_preflight.Journal.Root.{
  RootSerde, Moment, Entry, plain, JournalRoot, root_marker, initialize, open_store,
}
use commit_ci_preflight.Journal.Ownership.{ReadsBackRoot}
use commit_ci_preflight.Journal.Opening.{runs_of, initialize-open_store}

abbrev zero_token : Text
zero_token = "0000000000000000000000000000000000000000000000000000000000000000"

abbrev root_serde : RootSerde
root_serde = record {
  encode_root = λ marker. if str_eq marker.root_token zero_token then some (b'R' ∷ []) else none;
  decode_root = λ bytes. if length bytes == 2 then some (root_marker zero_token) else none;
  token_value = λ seed. some (text seed.purpose);
}

codec-IsSha256 : IsSha256 codec
codec-IsSha256 bytes = refl

root_serde-ReadsBackRoot : ReadsBackRoot root_serde
root_serde-ReadsBackRoot token bytes valid h = elim (Bool-cases (str_eq token zero_token)) [
  | inl same ↦
      let is_zero = (eq_iff token zero_token).0 same in
      let letter : bytes ≡ b'R' ∷ [] = ground arith in rw (is_zero, letter) (omega arith, refl)
  | inr apart ↦ absurd (ground arith)
]

abbrev moment : Moment
moment = record { unix_nanos = some 1000; process_id = 7; sequence = 0 }

abbrev fresh_place : Option (Entry JournalRoot)
fresh_place =
    some (
      plain (record { marker = some (file (b'R' ∷ 10 ∷ [])); runs = some (plain []); others = [] }))

initialized :
    initialize root_serde codec success success success moment none ≡ (fresh_place, ok zero_token)
unfolding initialize
initialized = refl

initialize-open_store_example :
    (open_store root_serde codec fresh_place ≡ ok (some zero_token))
    × (runs_of fresh_place ≡ runs_of none)
    × ((moment' : Moment)
        → initialize root_serde codec success success success moment' fresh_place
          ≡ (fresh_place, ok zero_token))
initialize-open_store_example =
    initialize-open_store root_serde codec codec-IsSha256 root_serde-ReadsBackRoot success success
      success moment none initialized
