-- ===== src/Config/Checks/Errors.antt =====
-- Only the topological sort reports a cycle, and nothing before it panics.
use commit_ci_preflight.Prelude.{
  ℕ, String, Bool, true, false, ◌≡◌, refl, List, [], ◌∷◌, contains, if◌then◌else◌,
}
use commit_ci_preflight.Outcome.{ok, err, ◌>>=◌, reject}
use commit_ci_preflight.Ordered.Set
use commit_ci_preflight.Ordered.Map
use commit_ci_preflight.Ordered.Map.{Map}
use commit_ci_preflight.Config.Data.{CheckConfig, ArtifactContractConfig}
use commit_ci_preflight.Config.Failure.{
  ConfigError, dependency_cycle, panicked, invalid_field, duplicate_value, duplicate_id, Checked,
  Verdict,
}
use commit_ci_preflight.Config.Fields.{
  validate_text, validate_identifier, validate_relative_path, validate_bounded, unique_sorted_from,
  unique_sorted,
}
use commit_ci_preflight.Config.Checks.{
  validate_argv, validate_check, validate_contracts_from, validate_artifact_contracts,
  complete_check, admit_check, collect_checks,
}
use commit_ci_preflight.Config.Topology.{
  validate_depends_on, validate_dependencies_of, validate_dependencies,
}

abbrev pub is_sort_error : ConfigError → Bool
is_sort_error (dependency_cycle ids) = true
is_sort_error panicked = true
is_sort_error _ = false

-- The result is no error of the sort.
abbrev pub IsPlain {ℓ} : {A : Type ℓ} → Checked A → Type 0
IsPlain (ok a) = Unit
IsPlain (err e) = is_sort_error e ≡ false

pub IsPlain-bind {ℓ κ} :
    {A : Type ℓ} {B : Type κ} (m : Checked A) (f : A → Checked B)
    → IsPlain m
    → ((a : A) → IsPlain (f a))
    → IsPlain (m >>= f)
IsPlain-bind (ok a) f h k = k a
IsPlain-bind (err e) f h k = h

pub IsPlain-reject :
    (bad : Bool) (e : ConfigError) → is_sort_error e ≡ false → IsPlain (reject bad e)
IsPlain-reject true e h = h
IsPlain-reject false e h = tt

IsPlain-text : (field value : String) → IsPlain (validate_text field value)
unfolding validate_text
IsPlain-text field value = IsPlain-reject _ (invalid_field field) refl

IsPlain-if {ℓ} :
    {A : Type ℓ} (b : Bool) (x y : Checked A) → IsPlain x → IsPlain y → IsPlain (if b then x else y)
IsPlain-if true x y h k = h
IsPlain-if false x y h k = k

IsPlain-identifier : (field value : String) → IsPlain (validate_identifier field value)
unfolding validate_identifier
IsPlain-identifier field value =
    IsPlain-bind (validate_text field value) _ (IsPlain-text field value)
      (λ u. IsPlain-if _ (ok tt) (err (invalid_field field)) tt refl)

IsPlain-path : (field value : String) → IsPlain (validate_relative_path field value)
unfolding validate_relative_path
IsPlain-path field value =
    IsPlain-bind (validate_text field value) _ (IsPlain-text field value)
      (λ u. IsPlain-if _ (ok tt) (err (invalid_field field)) tt refl)

IsPlain-bounded : (field : String) (value lo hi : ℕ) → IsPlain (validate_bounded field value lo hi)
unfolding validate_bounded
IsPlain-bounded field value lo hi =
    IsPlain-if _ (ok tt) (err (ConfigError.out_of_range field lo hi value)) tt refl

IsPlain-unique_from :
    (field : String) (validate : String → Verdict) (seen values : List String)
    → ((v : String) → IsPlain (validate v))
    → IsPlain (unique_sorted_from field validate seen values)
unfolding unique_sorted_from
IsPlain-unique_from field validate seen [] h = tt
IsPlain-unique_from field validate seen (value ∷ values) h =
    IsPlain-bind (validate value) _ (h value) (λ u.
      IsPlain-bind (reject (contains seen value) (duplicate_value field)) _
        (IsPlain-reject (contains seen value) (duplicate_value field) refl)
        (λ u'. IsPlain-unique_from field validate (Set.insert value seen) values h))

IsPlain-unique :
    (field : String) (values : List String) (validate : String → Verdict)
    → ((v : String) → IsPlain (validate v))
    → IsPlain (unique_sorted field values validate)
unfolding unique_sorted
IsPlain-unique field values validate h = IsPlain-unique_from field validate [] values h

IsPlain-argv : (argv : List String) → IsPlain (validate_argv argv)
unfolding validate_argv
IsPlain-argv [] = tt
IsPlain-argv (argument ∷ argv) =
    IsPlain-bind (validate_text "check.argv" argument) _ (IsPlain-text "check.argv" argument)
      (λ u. IsPlain-argv argv)

ruleset plain_rules = (
  IsPlain-bind, IsPlain-reject, IsPlain-text, IsPlain-identifier, IsPlain-path, IsPlain-bounded,
  IsPlain-unique, IsPlain-argv,
)

IsPlain-check : (check : CheckConfig) → IsPlain (validate_check check)
unfolding validate_check
IsPlain-check check = search plain_rules depth 12

IsPlain-contracts :
    (artifacts paths : List String) (contracts : List ArtifactContractConfig)
    → IsPlain (validate_contracts_from artifacts paths contracts)
unfolding validate_contracts_from
IsPlain-contracts artifacts paths [] = tt
IsPlain-contracts artifacts paths (artifact ∷ contracts) =
    let rest = IsPlain-contracts artifacts (Set.insert artifact.path paths) contracts in
    search plain_rules depth 20

IsPlain-complete : (check : CheckConfig) → IsPlain (complete_check check)
unfolding complete_check validate_artifact_contracts
IsPlain-complete check = search (plain_rules, IsPlain-contracts) depth 12

IsPlain-admit : (check : CheckConfig) → IsPlain (admit_check check)
unfolding admit_check
IsPlain-admit check = search (plain_rules, IsPlain-check, IsPlain-complete) depth 12

pub IsPlain-collect :
    (checks : List CheckConfig) (by_id : Map CheckConfig) → IsPlain (collect_checks by_id checks)
unfolding collect_checks
IsPlain-collect [] by_id = tt
IsPlain-collect (check ∷ checks) by_id =
    IsPlain-bind (admit_check check) _ (IsPlain-admit check) (λ admitted.
      IsPlain-bind (reject (contains (Map.keys by_id) check.id) (duplicate_id "check.id" check.id))
        _
        (IsPlain-reject (contains (Map.keys by_id) check.id) (duplicate_id "check.id" check.id)
          refl)
        (λ u. IsPlain-collect checks (Map.insert check.id admitted by_id)))

IsPlain-depends_on :
    (by_id : Map CheckConfig) (id : String) (depends_on : List String)
    → IsPlain (validate_depends_on by_id id depends_on)
unfolding validate_depends_on
IsPlain-depends_on by_id id [] = tt
IsPlain-depends_on by_id id (d ∷ depends_on) =
    let rest = IsPlain-depends_on by_id id depends_on in search plain_rules depth 12

IsPlain-dependencies_of :
    (by_id : Map CheckConfig) (checks : List CheckConfig)
    → IsPlain (validate_dependencies_of by_id checks)
unfolding validate_dependencies_of
IsPlain-dependencies_of by_id [] = tt
IsPlain-dependencies_of by_id (check ∷ checks) =
    IsPlain-bind (validate_depends_on by_id check.id check.depends_on) _
      (IsPlain-depends_on by_id check.id check.depends_on)
      (λ u. IsPlain-dependencies_of by_id checks)

pub IsPlain-dependencies : (by_id : Map CheckConfig) → IsPlain (validate_dependencies by_id)
unfolding validate_dependencies
IsPlain-dependencies by_id = IsPlain-dependencies_of by_id (Map.values by_id)
