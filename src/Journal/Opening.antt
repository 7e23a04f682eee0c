-- ===== src/Journal/Opening.antt =====
-- `initialize` of src/run_journal.rs: what it leaves can be opened, and initialised again.
use commit_ci_preflight.Prelude.{
  ◌≡◌, refl, sym, ap, ◌∙◌, ◌⊎◌, Option, none, some, String as Text, [], inl, inr,
}
use commit_ci_preflight.Outcome.{ok, err, >>=-eq-ok, ok_inj}
use commit_ci_preflight.Canonical.Digest.{Codec}
use commit_ci_preflight.Journal.Data.{Journaled}
use commit_ci_preflight.Journal.Files.{Runs, Fault, success, refused, unsynced, partial}
use commit_ci_preflight.Journal.Token.{IsSha256}
use commit_ci_preflight.Journal.Root.{
  RootSerde, Moment, Entry, plain, other, JournalRoot, empty_root, create_directory,
  read_root_marker, own_root, list_root, own_place, initialize, open_store,
}
use commit_ci_preflight.Journal.Ownership.{
  ReadsBackRoot, IsMarked, Owns, own_root-Owns, own_root-again,
}

abbrev listed_runs : Option (Entry Runs) → Runs
listed_runs (some (plain runs)) = runs
listed_runs _ = []

-- The runs below the entry of the journal.
abbrev pub runs_of : Option (Entry JournalRoot) → Runs
runs_of (some (plain root)) = listed_runs root.runs
runs_of _ = []

create_directory-ok :
    {A : Type 0} (fault : Fault) (empty : A) (place : Option (Entry A)) {a : A}
    → (create_directory fault empty place).1 ≡ ok a
    → ((create_directory fault empty place).0 ≡ some (plain a))
      × ((place ≡ some (plain a)) ⊎ ((place ≡ none) × (empty ≡ a)))
unfolding create_directory
create_directory-ok success empty none h = (cc, inr (refl, cc))
create_directory-ok refused empty place h = absurd (cc)
create_directory-ok unsynced empty none h = absurd (cc)
create_directory-ok (partial n) empty none h = absurd (cc)
create_directory-ok success empty (some (plain b)) h = (cc, inl cc)
create_directory-ok unsynced empty (some (plain b)) h = (cc, inl cc)
create_directory-ok (partial n) empty (some (plain b)) h = (cc, inl cc)
create_directory-ok success empty (some other) h = absurd (cc)
create_directory-ok unsynced empty (some other) h = absurd (cc)
create_directory-ok (partial n) empty (some other) h = absurd (cc)

listed_runs-before :
    (place : Option (Entry Runs)) (names : Runs)
    → (place ≡ some (plain names)) ⊎ ((place ≡ none) × ([] ≡ names))
    → names ≡ listed_runs place
listed_runs-before place names (inl there) = rw there refl
listed_runs-before place names (inr (absent, empty)) = rw absent (sym empty)

module _ (serde : RootSerde) (codec : Codec) (hashes : IsSha256 codec)
    (reads_back : ReadsBackRoot serde) where
  -- A directory of the journal that is whole, with its token and its runs.
  abbrev IsStore : Text → Runs → Option (Entry JournalRoot) → Type 0
  IsStore token runs place =
      (root : JournalRoot) × (place ≡ some (plain root))
      × IsMarked serde codec token root.marker
      × (root.runs ≡ some (plain runs))

  list_root-IsStore :
      (listed : Fault) (root : JournalRoot) (own : JournalRoot × Journaled Text) {token : Text}
      {place : Option (Entry JournalRoot)}
      → (own.1 ≡ ok token → Owns serde codec token root own.0)
      → list_root serde codec listed own ≡ (place, ok token)
      → IsStore token (listed_runs root.runs) place
  list_root-IsStore listed root (root', err e) owns h = absurd (cc)
  list_root-IsStore listed root (root', ok made) {token} owns h =
      let result = ap (λ (m : Option (Entry JournalRoot) × Journaled Text). m.1) h in
      let left = ap (λ (m : Option (Entry JournalRoot) × Journaled Text). m.0) h in
      let (names, there, same) = >>=-eq-ok (create_directory listed [] root'.runs).1 _ result in
      let (at_runs, before) = create_directory-ok listed [] root'.runs there in
      let (marked, kept) = owns same in
      let is_names = ap listed_runs (sym kept) ∙ sym (listed_runs-before root'.runs names before) in
      (
        record root' { runs = (create_directory listed [] root'.runs).0 },
        sym left,
        marked,
        rw is_names at_runs,
      )

  own_place-IsStore :
      (made marked listed : Fault) (moment : Moment) (place : Option (Entry JournalRoot))
      (created : Option (Entry JournalRoot) × Journaled JournalRoot) {token : Text}
      {place' : Option (Entry JournalRoot)}
      → ((root : JournalRoot) → created.1 ≡ ok root → runs_of place ≡ listed_runs root.runs)
      → own_place serde codec marked listed moment created ≡ (place', ok token)
      → IsStore token (runs_of place) place'
  own_place-IsStore made marked listed moment place (left, err e) kept h = absurd cc
  own_place-IsStore made marked listed moment place (left, ok root) kept h = rw (kept root refl) (
      list_root-IsStore listed root (own_root serde codec marked moment root)
        (own_root-Owns serde codec hashes reads_back marked moment root) h)

  runs_of-created :
      (made : Fault) (place : Option (Entry JournalRoot)) (root : JournalRoot)
      → (create_directory made empty_root place).1 ≡ ok root
      → runs_of place ≡ listed_runs root.runs
  runs_of-created made place root h = elim ((create_directory-ok made empty_root place h).1) [
    | inl there ↦ rw there refl
    | inr (absent, empty) ↦ rw (absent, ← empty) refl
  ]

  initialize-IsStore :
      (made marked listed : Fault) (moment : Moment) (place : Option (Entry JournalRoot))
      {token : Text} {place' : Option (Entry JournalRoot)}
      → initialize serde codec made marked listed moment place ≡ (place', ok token)
      → IsStore token (runs_of place) place'
  unfolding initialize
  initialize-IsStore made marked listed moment place h =
      own_place-IsStore made marked listed moment place (create_directory made empty_root place)
        (runs_of-created made place) h

  IsStore-open :
      (token : Text) (runs : Runs) (place : Option (Entry JournalRoot))
      → IsStore token runs place
      → open_store serde codec place ≡ ok (some token)
  unfolding open_store
  IsStore-open token runs place (root, whole, (_, read), there) =
      let (marker, parsed, same) = >>=-eq-ok (read_root_marker serde codec root.marker) _ read in
      rw (whole, there) (rw parsed (ap (λ (t : Text). ok (some t)) (ok_inj same)))

  IsStore-again :
      (marked : Fault) (moment : Moment) (token : Text) (runs : Runs)
      (place : Option (Entry JournalRoot))
      → IsStore token runs place
      → initialize serde codec success marked success moment place ≡ (place, ok token)
  unfolding initialize
  IsStore-again marked moment token runs place (root, whole, marked_, there) =
      rw whole (rw (own_root-again serde codec marked moment root marked_, there) refl)

  -- Where SHA-256 gives 32 bytes and serde_json reads back the marker of a root in at most 4096
  -- bytes, an initialize that succeeds, whatever its faults were, leaves a directory on which open
  -- gives the same token, which holds the same runs as before, and on which every later initialize
  -- without a fault gives the same token and changes nothing.
  pub initialize-open_store :
      (made marked listed : Fault) (moment : Moment) (place : Option (Entry JournalRoot))
      {token : Text} {place' : Option (Entry JournalRoot)}
      → initialize serde codec made marked listed moment place ≡ (place', ok token)
      → (open_store serde codec place' ≡ ok (some token))
        × (runs_of place' ≡ runs_of place)
        × ((moment' : Moment)
            → initialize serde codec success success success moment' place' ≡ (place', ok token))
  initialize-open_store made marked listed moment place {token} {place'} h =
      let store = initialize-IsStore made marked listed moment place h in
      let (root, whole, _, there) = store in
      (
        IsStore-open token (runs_of place) place' store,
        rw whole (ap listed_runs there),
        λ moment'. IsStore-again success moment' token (runs_of place) place' store,
      )
