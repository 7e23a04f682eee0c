-- ===== src/Config/Caches/Laws.antt =====
-- The caches that `normalize_caches` (src/config.rs) returns are the configured ones.
use commit_ci_preflight.Prelude.{
  String, false, ◌≡◌, refl, ap, List, [], ◌∷◌, arith, str_eq, contains, Bool-cases, ◌⊎◌, inl, inr,
  ltb, length,
}
use mathlib.Core.Path.{subst}
use mathlib.Core.List.{Memᴰ}
use mathlib.Core.List.Memᴰ.{cases_cons}
use commit_ci_preflight.Outcome.{ok, ok_inj, >>-eq-ok, >>=-eq-ok, reject->>-eq-ok}
use commit_ci_preflight.Ordered.Order.{str_lt}
use commit_ci_preflight.Ordered.Set
use commit_ci_preflight.Ordered.Map
use commit_ci_preflight.Ordered.Map.{Map}
use commit_ci_preflight.Config.Data.{CacheConfig, NormalizedCache, max_caches}
use commit_ci_preflight.Config.Failure.{
  invalid_field, too_many_items, duplicate_id, duplicate_value,
}
use commit_ci_preflight.Config.Fields.{validate_identifier, validate_relative_path}
use commit_ci_preflight.Config.Caches.{normalize_cache, normalize_caches_from, normalize_caches}

-- The two caches have the same id and the same path.
abbrev pub IsCacheOf : NormalizedCache → CacheConfig → Type 0
IsCacheOf made cache = (made.id ≡ cache.id) × (made.mount_path ≡ cache.mount_path)

-- The made caches are the configured ones: each is one of them, and none is left out.
pub record AreCachesOf (configs : List CacheConfig) (made : List NormalizedCache) : Type 0 where
  pub configured :
      (x : NormalizedCache)
      → Memᴰ x made
      → (cache : CacheConfig) × Memᴰ cache configs × IsCacheOf x cache
  pub kept :
      (cache : CacheConfig)
      → Memᴰ cache configs
      → (x : NormalizedCache) × Memᴰ x made × IsCacheOf x cache

module _ (k : String) (v : NormalizedCache) where
  values-insert_mem : (m : Map NormalizedCache) → Memᴰ v (Map.values (Map.insert k v m))
  unfolding Map.insert
  values-insert_mem [] = Memᴰ.head refl
  values-insert_mem ((j, w) ∷ m) = elim (Bool-cases (str_lt k j)) [
    | inl below ↦ rw below (Memᴰ.head refl)
    | inr above ↦ elim (Bool-cases (str_eq j k)) [
      | inl same ↦ rw (above, same) (Memᴰ.head refl)
      | inr other ↦ rw (above, other) (Memᴰ.tail (values-insert_mem m))
    ]
  ]

  values-insert_keeps :
      (m : Map NormalizedCache) (x : NormalizedCache)
      → contains (Map.keys m) k ≡ false
      → Memᴰ x (Map.values m)
      → Memᴰ x (Map.values (Map.insert k v m))
  unfolding Map.insert
  values-insert_keeps [] x new h = elim h [ ]
  values-insert_keeps ((j, w) ∷ m) x new h = elim (Bool-cases (str_lt k j)) [
    | inl below ↦ rw below (Memᴰ.tail h)
    | inr above ↦
        let other : str_eq j k ≡ false = ground (arith, new) in
        rw (above, other)
          (elim (cases_cons h) [
            | inl here ↦ Memᴰ.head here
            | inr later ↦ Memᴰ.tail (values-insert_keeps m x (ground (arith, new)) later)
          ])
  ]

  values-insert_cases :
      (m : Map NormalizedCache) (x : NormalizedCache)
      → Memᴰ x (Map.values (Map.insert k v m))
      → (x ≡ v) ⊎ Memᴰ x (Map.values m)
  unfolding Map.insert
  values-insert_cases [] x h = cases_cons h
  values-insert_cases ((j, w) ∷ m) x h = elim (Bool-cases (str_lt k j)) [
    | inl below ↦ cases_cons (rw below at h)
    | inr above ↦ elim (Bool-cases (str_eq j k)) [
      | inl same ↦ elim (cases_cons (rw (above, same) at h)) [
        | inl here ↦ inl here
        | inr later ↦ inr (Memᴰ.tail later)
      ]
      | inr other ↦ elim (cases_cons (rw (above, other) at h)) [
        | inl here ↦ inr (Memᴰ.head here)
        | inr later ↦ elim (values-insert_cases m x later) [
          | inl new ↦ inl new
          | inr old ↦ inr (Memᴰ.tail old)
        ]
      ]
    ]
  ]

-- What the loop has made after the caches, of what it started with.
record IsExtended (acc : Map NormalizedCache) (caches : List CacheConfig)
    (by_id : Map NormalizedCache) : Type 0 where
  old : (x : NormalizedCache) → Memᴰ x (Map.values acc) → Memᴰ x (Map.values by_id)
  new :
      (x : NormalizedCache)
      → Memᴰ x (Map.values by_id)
      → Memᴰ x (Map.values acc)
        ⊎ ((cache : CacheConfig) × Memᴰ cache caches × (x ≡ normalize_cache cache))
  all : (cache : CacheConfig) → Memᴰ cache caches → Memᴰ (normalize_cache cache) (Map.values by_id)

insert-IsExtended :
    (acc by_id : Map NormalizedCache) (cache : CacheConfig) (caches : List CacheConfig)
    → contains (Map.keys acc) cache.id ≡ false
    → IsExtended (Map.insert cache.id (normalize_cache cache) acc) caches by_id
    → IsExtended acc (cache ∷ caches) by_id
insert-IsExtended acc by_id cache caches fresh later = record {
  old = λ x m. later.old x (values-insert_keeps cache.id (normalize_cache cache) acc x fresh m);
  new = λ x m. elim (later.new x m) [
    | inr (c, there, e) ↦ inr (c, Memᴰ.tail there, e)
    | inl before ↦ elim (values-insert_cases cache.id (normalize_cache cache) acc x before) [
      | inl e ↦ inr (cache, Memᴰ.head refl, e)
      | inr old ↦ inl old
    ]
  ];
  all = λ c m. elim (cases_cons m) [
    | inr there ↦ later.all c there
    | inl e ↦
        rw e (
          later.old (normalize_cache cache)
            (values-insert_mem cache.id (normalize_cache cache) acc))
  ];
}

normalize_caches_from-IsExtended :
    (acc : Map NormalizedCache) (paths : List String) (caches : List CacheConfig)
    (by_id : Map NormalizedCache)
    → normalize_caches_from acc paths caches ≡ ok by_id
    → IsExtended acc caches by_id
unfolding normalize_caches_from
normalize_caches_from-IsExtended acc paths [] by_id h =
    subst (IsExtended acc []) (ok_inj h)
      (record { old = λ x m. m; new = λ x m. inl m; all = λ c m. elim m [ ] })
normalize_caches_from-IsExtended acc paths (cache ∷ caches) by_id h =
    let (_, h1) = >>-eq-ok (validate_identifier "cache.id" cache.id) _ h in
    let (_, h2) = >>-eq-ok (validate_relative_path "cache.mount_path" cache.mount_path) _ h1 in
    let (_, h3) =
      reject->>-eq-ok (str_eq cache.mount_path ".") (invalid_field "cache.mount_path") _ h2 in
    let (fresh, h4) =
      reject->>-eq-ok (contains (Map.keys acc) cache.id) (duplicate_id "cache.id" cache.id) _ h3 in
    let (_, h5) =
      reject->>-eq-ok (contains paths cache.mount_path) (duplicate_value "cache.mount_path") _ h4 in
    insert-IsExtended acc by_id cache caches fresh (
      normalize_caches_from-IsExtended (Map.insert cache.id (normalize_cache cache) acc)
        (Set.insert cache.mount_path paths) caches by_id h5)

pub normalize_caches-AreCachesOf :
    (caches : List CacheConfig) (made : List NormalizedCache)
    → normalize_caches caches ≡ ok made
    → AreCachesOf caches made
unfolding normalize_caches
normalize_caches-AreCachesOf caches made h =
    let (_, h1) =
      reject->>-eq-ok (ltb max_caches (length caches))
        (too_many_items "caches" (length caches) max_caches) _ h in
    let (by_id, ran, h2) = >>=-eq-ok (normalize_caches_from [] [] caches) _ h1 in
    let e = normalize_caches_from-IsExtended [] [] caches by_id ran in
    subst (AreCachesOf caches) (ok_inj h2) (record {
      configured = λ x m. elim (e.new x m) [
        | inl nowhere ↦ elim nowhere [ ]
        | inr (cache, there, same) ↦ (
          cache,
          there,
          (
            ap (λ (c : NormalizedCache). c.id) same,
            ap (λ (c : NormalizedCache). c.mount_path) same,
          ),
        )
      ];
      kept = λ cache m. (normalize_cache cache, e.all cache m, (refl, refl));
    })
