-- ===== src/Config/Fields/Accepted.antt =====
-- What the field validators establish when they accept.
use commit_ci_preflight.Prelude.{
  ℕ, ◌≤◌, String, true, false, ◌||◌, ◌≡◌, refl, ◌↔◌, List, [], ◌∷◌, arith, contains, All,
}
use mathlib.Core.Path.{subst}
use commit_ci_preflight.Outcome.{ok, reject, >>=-eq-ok}
use commit_ci_preflight.Ordered.Set.{insert, IsSorted, insert-IsSorted, contains-insert}
use commit_ci_preflight.Config.Failure.{duplicate_value, Verdict}
use commit_ci_preflight.Config.Fields.{
  unique_sorted_from, unique_sorted, validate_bounded, validate_relative_path, is_safe_path,
}

pub validate_bounded_ok :
    (field : String) (value minimum maximum : ℕ)
    → validate_bounded field value minimum maximum ≡ ok tt
    → (minimum ≤ value) × (value ≤ maximum)
unfolding validate_bounded
validate_bounded_ok field value minimum maximum h = ground arith

pub validate_relative_path_ok :
    (field value : String) → validate_relative_path field value ≡ ok tt → is_safe_path value ≡ true
unfolding validate_relative_path
validate_relative_path_ok field value h = ground arith

-- No text of the list repeats another or stands in `seen`.
abbrev pub IsFresh : List String → List String → Type 0
IsFresh seen [] = Unit
IsFresh seen (value ∷ values) = (contains seen value ≡ false) × IsFresh (insert value seen) values

-- What an accepted list of texts looks like, and what is made of it.
pub record IsUnique (validate : String → Verdict) (seen values sorted : List String) : Type 0 where
  pub valid : All (λ value. validate value ≡ ok tt) values
  pub fresh : IsFresh seen values
  pub members : (s : String) → contains sorted s ≡ (contains seen s || contains values s)

module _ (field : String) (validate : String → Verdict) where
  unique_sorted_from-IsUnique :
      (seen values sorted : List String)
      → unique_sorted_from field validate seen values ≡ ok sorted
      → IsUnique validate seen values sorted
  unfolding unique_sorted_from
  unique_sorted_from-IsUnique seen [] sorted h = record {
    valid = tt;
    fresh = tt;
    members = λ s. ground arith;
  }
  unique_sorted_from-IsUnique seen (value ∷ values) sorted h =
      let (u, accepted, h') = >>=-eq-ok (validate value) _ h in
      let (u', new, h'') = >>=-eq-ok (reject (contains seen value) (duplicate_value field)) _ h' in
      let rest = unique_sorted_from-IsUnique (insert value seen) values sorted h'' in
      record {
        valid = (accepted, rest.valid);
        fresh = (ground arith, rest.fresh);
        members = λ s. ground (arith, rest.members s, contains-insert value s seen);
      }

  unique_sorted_from-IsSorted :
      (seen values sorted : List String)
      → IsSorted seen
      → unique_sorted_from field validate seen values ≡ ok sorted
      → IsSorted sorted
  unfolding unique_sorted_from
  unique_sorted_from-IsSorted seen [] sorted s h = subst IsSorted (cc) s
  unique_sorted_from-IsSorted seen (value ∷ values) sorted s h =
      unique_sorted_from-IsSorted (insert value seen) values sorted (insert-IsSorted value seen s)
        (ground arith)

  unique_sorted_from_complete :
      (seen values : List String)
      → All (λ value. validate value ≡ ok tt) values
      → IsFresh seen values
      → (sorted : List String) × (unique_sorted_from field validate seen values ≡ ok sorted)
  unfolding unique_sorted_from
  unique_sorted_from_complete seen [] v f = (seen, refl)
  unique_sorted_from_complete seen (value ∷ values) (p, v) (q, f) =
      let (sorted, e) = unique_sorted_from_complete (insert value seen) values v f in
      (sorted, rw (p, q) e)

-- unique_sorted accepts a list exactly when every text is valid and none repeats.
pub unique_sorted_iff :
    (field : String) (values : List String) (validate : String → Verdict)
    → ((sorted : List String) × (unique_sorted field values validate ≡ ok sorted))
      ↔ (All (λ value. validate value ≡ ok tt) values × IsFresh [] values)
unfolding unique_sorted
unique_sorted_iff field values validate = (
  λ h. let u = unique_sorted_from-IsUnique field validate [] values h.0 h.1 in (u.valid, u.fresh),
  λ h. unique_sorted_from_complete field validate [] values h.0 h.1,
)

-- What unique_sorted returns is ascending and has the same texts as its input.
pub unique_sorted-IsSorted :
    (field : String) (values sorted : List String) (validate : String → Verdict)
    → unique_sorted field values validate ≡ ok sorted
    → IsSorted sorted × ((s : String) → contains sorted s ≡ contains values s)
unfolding unique_sorted
unique_sorted-IsSorted field values sorted validate h = (
  unique_sorted_from-IsSorted field validate [] values sorted tt h,
  λ s. (unique_sorted_from-IsUnique field validate [] values sorted h).members s,
)
