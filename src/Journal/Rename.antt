-- ===== src/Journal/Rename.antt =====
-- `quarantine_owned_tree` of src/run_journal.rs: what the rename of an owned tree leaves.
use Prim.Native.String
use text.Mathlib.TextLemmas.{length-append as count-append}
use commit_ci_preflight.Prelude.{
  ℕ, ◌≡◌, refl, sym, ap, ◌∙◌, ◌⊎◌, true, false, Option, none, some, String as Text, List, [], ◌∷◌,
  arith, str_eq, eq_iff, Bool-cases, inl, inr,
}
use commit_ci_preflight.Outcome.{ok}
use commit_ci_preflight.Ordered.Set.{IsSorted, Above-contains}
use commit_ci_preflight.Ordered.Map.{Map, get, insert, keys, get-none}
use commit_ci_preflight.Journal.Files.{
  Folder, Place, folder, Runs, Fault, success, refused, unsynced, partial, remove, rename_place,
}
use commit_ci_preflight.Journal.Reading.{run_marker}
use commit_ci_preflight.Journal.Store.{quarantine_prefix, Step, owns, quarantine_owned_tree}

abbrev pub quarantine_of : Text → Text
quarantine_of run_id = String.◌++◌ quarantine_prefix run_id

pub quarantine-ne : (run_id : Text) → str_eq (quarantine_of run_id) run_id ≡ false
quarantine-ne run_id = elim (Bool-cases (str_eq (quarantine_of run_id) run_id)) [
  | inr apart ↦ apart
  | inl same ↦ absurd (
      omega (
        arith,
        count-append quarantine_prefix run_id,
        ap String.count ((eq_iff (quarantine_of run_id) run_id).0 same),
      ))
]

pub get-remove_self {ℓ} :
    {V : Type ℓ} (k : Text) (m : Map V) → IsSorted (keys m) → get k (remove k m) ≡ none
unfolding get remove
get-remove_self k [] sorted = refl
get-remove_self k ((j, v) ∷ m) (above, sorted) = elim (Bool-cases (str_eq j k)) [
  | inl same ↦
      rw same (get-none k m (Above-contains k (keys m) (rw ((eq_iff j k).0 same) at above)))
  | inr apart ↦ rw (apart, apart) (get-remove_self k m sorted)
]

-- What is left of a rename onto a free name.
pub rename_place-free :
    (fault : Fault) (from to : Text) (files : Folder) (runs : Runs)
    → get to runs ≡ none
    → ((rename_place fault from to files runs).0 ≡ runs)
      ⊎ ((rename_place fault from to files runs).0 ≡ insert to (folder files) (remove from runs))
unfolding rename_place
rename_place-free success from to files runs free = rw free (inr refl)
rename_place-free refused from to files runs free = rw free (inl refl)
rename_place-free unsynced from to files runs free = rw free (inr refl)
rename_place-free (partial n) from to files runs free = rw free (inr refl)

module _ (from to : Text) (files : Folder) (marker : List ℕ) (runs : Runs) where
  pub quarantine_owned_tree-rename :
      (fault : Fault)
      → owns (get run_marker files) marker ≡ true
      → quarantine_owned_tree fault from to marker runs (some (folder files))
        ≡ rename_place fault from to files runs
  unfolding quarantine_owned_tree
  quarantine_owned_tree-rename fault owned = rw owned

  quarantine_owned_tree-owned :
      (fault : Fault)
      → (quarantine_owned_tree fault from to marker runs (some (folder files))).1 ≡ ok tt
      → owns (get run_marker files) marker ≡ true
  unfolding quarantine_owned_tree
  quarantine_owned_tree-owned fault h = ground arith

  pub rename_place-ok :
      (rename_place success from to files runs).1 ≡ ok tt
      → (get to runs ≡ none)
        × ((rename_place success from to files runs).0
            ≡ insert to (folder files) (remove from runs))
  unfolding rename_place
  rename_place-ok h = ground arith

  pub quarantine_owned_tree-parts :
      (place : Option Place)
      → place ≡ some (folder files)
      → (quarantine_owned_tree success from to marker runs place).1 ≡ ok tt
      → (owns (get run_marker files) marker ≡ true) × (get to runs ≡ none)
  quarantine_owned_tree-parts place found h =
      let went = rw found at h in
      let owned = quarantine_owned_tree-owned success went in
      let renamed =
        sym (ap (λ (m : Step (Unit {0})). m.1) (quarantine_owned_tree-rename success owned))
        ∙ went in
      (owned, (rename_place-ok renamed).0)
