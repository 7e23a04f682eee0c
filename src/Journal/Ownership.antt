-- ===== src/Journal/Ownership.antt =====
-- The marker of the root in src/run_journal.rs: what the owner of a root has written or read.
use commit_ci_preflight.Prelude.{
  ℕ, ◌≤◌, ◌≡◌, refl, sym, ap, ◌∙◌, true, false, Option, some, String as Text, List, [], ◌∷◌, ◌++◌,
  length, ltb, Bool-cases, inl, inr, arith,
}
use mathlib.Core.Path.{subst}
use commit_ci_preflight.Outcome.{ok, err, ◌>>=◌, ok_or, >>=-eq-ok, >>-eq-ok, ok_or-eq-ok, ok_inj}
use commit_ci_preflight.Canonical.Digest.{Codec}
use commit_ci_preflight.Journal.Data.{Journaled, corrupt}
use commit_ci_preflight.Journal.Fields.{validate_run_id}
use commit_ci_preflight.Journal.Files.{Node, file, node_exists, Fault}
use commit_ci_preflight.Journal.Token.{IsSha256, token_digest-validate_run_id}
use commit_ci_preflight.Journal.Root.{
  RootSerde, Moment, JournalRoot, root_marker, is_empty_root, write_marker, read_root_marker,
  new_root_token, root_marker_bytes, fresh_root, write_fresh, own_root,
}

-- serde_json reads back the marker of a root that it wrote, and it fits the bound of the reader.
abbrev pub ReadsBackRoot : RootSerde → Type 0
ReadsBackRoot serde =
    (token : Text) (bytes : List ℕ)
    → validate_run_id token ≡ ok tt
    → serde.encode_root (root_marker token) ≡ some bytes
    → (length (bytes ++ 10 ∷ []) ≤ 4096)
      × (serde.decode_root (bytes ++ 10 ∷ []) ≡ some (root_marker token))

write_marker-ok :
    (fault : Fault) (bytes : List ℕ) (root : JournalRoot)
    → (write_marker fault bytes root).1 ≡ ok tt
    → ((write_marker fault bytes root).0.marker ≡ some (file bytes))
      × ((write_marker fault bytes root).0.runs ≡ root.runs)
unfolding write_marker
write_marker-ok fault bytes root h = ground arith

module _ (serde : RootSerde) (codec : Codec) where
  -- What a token that has been made or read says of the marker.
  abbrev pub IsMarked : Text → Option Node → Type 0
  IsMarked token node =
      (node_exists node ≡ true)
      × ((read_root_marker serde codec node >>= λ marker. ok marker.root_token) ≡ ok token)

  abbrev pub Owns : Text → JournalRoot → JournalRoot → Type 0
  Owns token root root' = IsMarked token root'.marker × (root'.runs ≡ root.runs)

  written-IsMarked :
      (token : Text) (bytes : List ℕ)
      → validate_run_id token ≡ ok tt
      → length bytes ≤ 4096
      → serde.decode_root bytes ≡ some (root_marker token)
      → IsMarked token (some (file bytes))
  unfolding read_root_marker
  written-IsMarked token bytes valid short decoded =
      let fits : ltb 4096 (length bytes) ≡ false = ground arith in
      rw (fits, decoded) (rw valid (refl, refl))

  pub own_root-again :
      (marked : Fault) (moment : Moment) (root : JournalRoot) {token : Text}
      → IsMarked token root.marker
      → own_root serde codec marked moment root ≡ (root, ok token)
  unfolding own_root
  own_root-again marked moment root (there, read) = rw there (ap (λ m. (root, m)) read)

  module _ (hashes : IsSha256 codec) (reads_back : ReadsBackRoot serde) where
    valid_token :
        (moment : Moment) {token : Text}
        → new_root_token serde codec moment ≡ ok token
        → validate_run_id token ≡ ok tt
    unfolding new_root_token
    valid_token moment h =
        let (nanos, _, h1) = >>=-eq-ok (ok_or moment.unix_nanos corrupt) _ h in
        token_digest-validate_run_id codec (record { to_value = serde.token_value }) _ hashes h1

    fresh_root-IsMarked :
        (moment : Moment) {token : Text} {bytes : List ℕ}
        → fresh_root serde codec moment ≡ ok (token, bytes)
        → IsMarked token (some (file bytes))
    unfolding fresh_root new_root_token root_marker_bytes read_root_marker
    fresh_root-IsMarked moment {token} {bytes} h =
        let (made, fresh, h1) = >>=-eq-ok (new_root_token serde codec moment) _ h in
        let (written, encoded, h2) = >>=-eq-ok (root_marker_bytes serde codec made) _ h1 in
        let (text, to_vec, h3) =
          >>=-eq-ok (ok_or (serde.encode_root (root_marker made)) corrupt) _ encoded in
        let valid = valid_token moment fresh in
        let encoded_as = ok_or-eq-ok (serde.encode_root (root_marker made)) corrupt to_vec in
        let (short, decoded) = reads_back made text valid encoded_as in
        let pair = ok_inj h2 in
        let marked = written-IsMarked made (text ++ 10 ∷ []) valid short decoded in
        subst (λ (p : Text × List ℕ). IsMarked p.0 (some (file p.1)))
          (ap (λ (b : List ℕ). (made, b)) (ok_inj h3) ∙ pair) marked

    write_fresh-Owns :
        (marked : Fault) (fresh : Journaled (Text × List ℕ)) (root : JournalRoot) {token : Text}
        → ((made : Text) (bytes : List ℕ)
            → fresh ≡ ok (made, bytes)
            → IsMarked made (some (file bytes)))
        → (write_fresh serde codec marked fresh root).1 ≡ ok token
        → Owns token root (write_fresh serde codec marked fresh root).0
    write_fresh-Owns marked (err e) root good h = absurd cc
    write_fresh-Owns marked (ok (made, bytes)) root {token} good h =
        let (wrote, same) = >>-eq-ok (write_marker marked bytes root).1 (ok made) h in
        let (at_marker, kept) = write_marker-ok marked bytes root wrote in
        let is_marked = good made bytes refl in
        (
          subst (λ (n : Option Node). IsMarked token n) (sym at_marker)
              (subst (λ (t : Text). IsMarked t (some (file bytes))) (ok_inj same) is_marked),
          kept,
        )

    pub own_root-Owns :
        (marked : Fault) (moment : Moment) (root : JournalRoot) {token : Text}
        → (own_root serde codec marked moment root).1 ≡ ok token
        → Owns token root (own_root serde codec marked moment root).0
    unfolding own_root
    own_root-Owns marked moment root {token} h = elim (Bool-cases (node_exists root.marker)) [
      | inl there ↦ let read = rw there at h in rw there ((there, read), refl)
      | inr absent ↦ elim (Bool-cases (is_empty_root root)) [
        | inr full ↦ absurd (ground arith)
        | inl empty ↦
            rw (absent, empty)
              (write_fresh-Owns marked (fresh_root serde codec moment) root
                (λ made bytes e. fresh_root-IsMarked moment e) (rw (absent, empty) at h))
      ]
    ]
