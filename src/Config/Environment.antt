-- ===== src/Config/Environment.antt =====
-- `normalize_environment` of src/config.rs, and `NormalizedEnvironment::names`.
use Prim.Native.String
use commit_ci_preflight.Prelude.{
  String as Text, not, ◌&&◌, ◌||◌, List, [], ◌∷◌, ◌++◌, map, if◌then◌else◌, str_eq, is_empty,
  contains,
}
use commit_ci_preflight.Outcome.{ok, ◌>>=◌, ◌>>◌, reject, ok_or, map_err}
use commit_ci_preflight.Ordered.Order.{str_lt}
use commit_ci_preflight.Ordered.Set
use commit_ci_preflight.Ordered.Map
use commit_ci_preflight.Ordered.Map.{Map}
use commit_ci_preflight.Canonical.Digest.{Serialize, Codec, canonical_digest}
use commit_ci_preflight.Config.Data.{
  RuntimeInternalEnvironmentConfig, EnvironmentConfig, NormalizedFixedEnvironment,
  NormalizedRuntimeInternalEnvironment, NormalizedEnvironment, NormalizedCache,
  config_schema_version,
}
use commit_ci_preflight.Config.Failure.{
  ConfigError, invalid_field, duplicate_value, unknown_environment_cache, Checked,
}
use commit_ci_preflight.Config.Fields.{
  validate_text, validate_identifier, validate_environment_name, unique_sorted,
}

-- `sort_by` on a name: elements of equal names keep their order.
module _ {ℓ} {A : Type ℓ} (name : A → Text) where
  abbrev pub insert_by : A → List A → List A
  insert_by a [] = a ∷ []
  insert_by a (b ∷ rest) = if str_lt (name b) (name a) then b ∷ insert_by a rest else a ∷ b ∷ rest

  unfoldable pub sort_by : List A → List A
  unfolding str_lt
  sort_by [] = []
  sort_by (a ∷ rest) = insert_by a (sort_by rest)

unfoldable pub names : NormalizedEnvironment → List Text
unfolding sort_by
names environment =
    sort_by (λ name. name)
      (environment.inherit
        ++ (map (λ binding. binding.name) environment.fixed
            ++ map (λ binding. binding.name) environment.runtime_internal))

-- `for name in values { if !names.insert(name.clone()) { return Err(..) } }`.
unfoldable pub insert_names : List Text → List Text → Checked (List Text)
insert_names seen [] = ok seen
insert_names seen (name ∷ more) =
    let rest = insert_names (Set.insert name seen) more in
    reject (contains seen name) (duplicate_value "environment") >> rest

-- `caches.iter().map(..).collect::<BTreeMap<_, _>>()`.
abbrev pub cache_targets : List NormalizedCache → Map Text → Map Text
cache_targets [] targets = targets
cache_targets (cache ∷ caches) targets =
    cache_targets caches (Map.insert cache.id cache.mount_path targets)

-- The loop over `runtime_internal`: the names seen, and the bindings made.
unfoldable pub bind_caches :
    Map Text
    → List Text
    → List NormalizedRuntimeInternalEnvironment
    → List RuntimeInternalEnvironmentConfig
    → Checked (List Text × List NormalizedRuntimeInternalEnvironment)
bind_caches targets seen made [] = ok (seen, made)
bind_caches targets seen made (binding ∷ more) =
    validate_environment_name binding.name
    >> validate_identifier "environment.runtime_internal.cache_id" binding.cache_id
    >> reject (contains seen binding.name) (duplicate_value "environment")
    >> ok_or (Map.get binding.cache_id targets)
        (unknown_environment_cache binding.name binding.cache_id)
    >>= λ mount_path.
        bind_caches targets (Set.insert binding.name seen)
          (made
            ++ record {
              name = binding.name;
              cache_id = binding.cache_id;
              container_target = String.◌++◌ "/workspace/" mount_path;
            }
              ∷ [])
          more

module _ (codec : Codec) ⦃text : Serialize Text⦄ where
  -- The loop over `fixed`: the names seen, and the digests made.
  unfoldable pub digest_fixed :
      List Text
      → List NormalizedFixedEnvironment
      → Map Text
      → Checked (List Text × List NormalizedFixedEnvironment)
  digest_fixed seen made [] = ok (seen, made)
  digest_fixed seen made ((name, value) ∷ more) =
      validate_environment_name name
      >> validate_text "environment.fixed" value
      >> reject (contains seen name) (duplicate_value "environment")
      >> map_err (λ e. ConfigError.receipt) (canonical_digest codec value)
      >>= λ digest.
          digest_fixed (Set.insert name seen)
            (made ++ record { name = name; value_digest = digest } ∷ []) more

  unfoldable pub normalize_environment :
      Text → EnvironmentConfig → List NormalizedCache → Checked NormalizedEnvironment
  unfolding insert_names bind_caches digest_fixed sort_by
  normalize_environment schema_version environment caches = do
    inherit ← unique_sorted "environment.allow" environment.allow validate_environment_name
    remote_secret_only ←
        unique_sorted "environment.remote_secret_only" environment.remote_secret_only
          validate_environment_name
    reject
        (str_eq schema_version config_schema_version
          && (not (is_empty environment.fixed)
              || not (is_empty environment.runtime_internal)
              || not (is_empty remote_secret_only)))
        (invalid_field "environment")
    reject (not (str_eq schema_version config_schema_version) && not (is_empty inherit))
        (invalid_field "environment.allow")
    digests ← digest_fixed (Set.extend [] inherit) [] environment.fixed
    bound ← bind_caches (cache_targets caches []) digests.0 [] environment.runtime_internal
    all_names ← insert_names bound.0 remote_secret_only
    ok (record {
      inherit = inherit;
      fixed = sort_by (λ binding. binding.name) digests.1;
      runtime_internal = sort_by (λ binding. binding.name) bound.1;
      remote_secret_only = remote_secret_only;
    })
