-- ===== src/Config/Caches.antt =====
-- `normalize_caches` of src/config.rs.
pub mod Laws
use commit_ci_preflight.Prelude.{String, List, [], ◌∷◌, str_eq, ltb, length, contains}
use commit_ci_preflight.Outcome.{ok, ◌>>=◌, ◌>>◌, reject}
use commit_ci_preflight.Ordered.Set
use commit_ci_preflight.Ordered.Map
use commit_ci_preflight.Ordered.Map.{Map}
use commit_ci_preflight.Config.Data.{CacheConfig, NormalizedCache, max_caches}
use commit_ci_preflight.Config.Failure.{
  invalid_field, too_many_items, duplicate_id, duplicate_value, Checked,
}
use commit_ci_preflight.Config.Fields.{validate_identifier, validate_relative_path}

abbrev pub normalize_cache : CacheConfig → NormalizedCache
normalize_cache cache = record { id = cache.id; mount_path = cache.mount_path }

-- The loop, over the caches by id and the mount paths seen.
unfoldable pub normalize_caches_from :
    Map NormalizedCache → List String → List CacheConfig → Checked (Map NormalizedCache)
normalize_caches_from by_id mount_paths [] = ok by_id
normalize_caches_from by_id mount_paths (cache ∷ caches) =
    let rest =
      normalize_caches_from (Map.insert cache.id (normalize_cache cache) by_id)
        (Set.insert cache.mount_path mount_paths) caches in
    do
      validate_identifier "cache.id" cache.id
      validate_relative_path "cache.mount_path" cache.mount_path
      reject (str_eq cache.mount_path ".") (invalid_field "cache.mount_path")
      reject (contains (Map.keys by_id) cache.id) (duplicate_id "cache.id" cache.id)
      reject (contains mount_paths cache.mount_path) (duplicate_value "cache.mount_path")
      rest

unfoldable pub normalize_caches : List CacheConfig → Checked (List NormalizedCache)
unfolding normalize_caches_from
normalize_caches caches = do
  reject (ltb max_caches (length caches)) (too_many_items "caches" (length caches) max_caches)
  by_id ← normalize_caches_from [] [] caches
  ok (Map.values by_id)
