-- ===== src/Config/Isolation/Laws.antt =====
-- The paths that `validate_path_isolation` (src/config.rs) accepts.
use commit_ci_preflight.Prelude.{
  String, ◌≡◌, refl, sym, ◌∙◌, ◌↔◌, List, [], ◌∷◌, ◌++◌, contains, All,
}
use commit_ci_preflight.Outcome.{Outcome, ok, err, ◌>>=◌, ◌>>◌, reject, >>=-eq-ok, >>-eq-ok}
use commit_ci_preflight.Ordered.Set
use commit_ci_preflight.Config.Data.{NormalizedReceipt, NormalizedCache, NormalizedCheck}
use commit_ci_preflight.Config.Failure.{duplicate_artifact}
use commit_ci_preflight.Config.Isolation.{
  reject_path_overlap, reject_overlaps, mount_paths, isolate_caches, isolate_artifacts,
  isolate_checks, validate_path_isolation,
}
use commit_ci_preflight.Config.Isolation.Apart.{
  IsApart, ArePairwiseApart, artifact_paths, IsIsolated, reject_path_overlap_iff,
  reject_overlaps_iff, All-insert, All-apart-seen, All-flip,
}

isolate_caches_iff :
    (receipt : NormalizedReceipt) (caches : List NormalizedCache)
    → (isolate_caches receipt caches ≡ ok tt) ↔ (
        ArePairwiseApart (mount_paths caches)
        × All (λ mount. IsApart mount receipt.output) (mount_paths caches))
unfolding isolate_caches
isolate_caches_iff receipt [] = (λ h. (tt, tt), λ h. refl)
isolate_caches_iff receipt (cache ∷ caches) =
    let apart = reject_overlaps_iff cache.mount_path (mount_paths caches) in
    let flip = All-flip cache.mount_path (mount_paths caches) in
    let output = reject_path_overlap_iff cache.mount_path receipt.output in
    let rest = isolate_caches_iff receipt caches in
    (
      λ h.
          let (h1, h2) =
            >>-eq-ok
              (reject_overlaps cache.mount_path (mount_paths caches)
                >> reject_path_overlap cache.mount_path receipt.output)
              (isolate_caches receipt caches) h in
          let (p, q) =
            >>-eq-ok (reject_overlaps cache.mount_path (mount_paths caches))
              (reject_path_overlap cache.mount_path receipt.output) h1 in
          let (r, o) = rest.0 h2 in ((flip.0 (apart.0 p), r), (output.0 q, o)),
      λ ((p, r), (q, o)). rw (apart.1 (flip.1 p), output.1 q) (rest.1 (r, o)),
    )

bind_flat {ℓ κ μ} :
    {E : Type ℓ} {A : Type κ} {B : Type μ} (m : Outcome E A) (next : A → Outcome E (Unit {0}))
    (found : A → Outcome E B)
    → ((a : A) → next a ≡ (found a >>= λ out. ok tt))
    → (m >>= next) ≡ ((m >>= found) >>= λ out. ok tt)
bind_flat (err failure) next found h = refl
bind_flat (ok a) next found h = h a

All-map {ℓ κ μ} :
    {A : Type ℓ} (P : A → Type κ) (Q : A → Type μ)
    → ((a : A) → P a → Q a)
    → (xs : List A) → All P xs
    → All Q xs
All-map P Q f [] h = tt
All-map P Q f (x ∷ xs) (p, h) = (f x p, All-map P Q f xs h)

All-zip {ℓ κ μ} :
    {A : Type ℓ} (P : A → Type κ) (Q : A → Type μ) (xs : List A)
    → All P xs
    → All Q xs
    → All (λ a. P a × Q a) xs
All-zip P Q [] h k = tt
All-zip P Q (x ∷ xs) (p, h) (q, k) = ((p, q), All-zip P Q xs h k)

>>-assoc {ℓ κ} :
    {E : Type ℓ} {A B : Type κ} (test : Outcome E (Unit {0})) (found : Outcome E A)
    (next : A → Outcome E B)
    → (test >> (found >>= next)) ≡ ((test >> found) >>= next)
>>-assoc (err failure) found next = refl
>>-assoc (ok u) found next = refl

module _ (receipt : NormalizedReceipt) (caches : List NormalizedCache) where
  -- What each artifact needs that is not about the other artifacts.
  abbrev Fits : String → Type 0
  Fits artifact = IsApart artifact receipt.output × All (IsApart artifact) (mount_paths caches)

  abbrev IsAccepted : (seen artifacts : List String) → Type 0
  IsAccepted seen artifacts =
      All (λ artifact. All (IsApart artifact) seen) artifacts
      × ArePairwiseApart artifacts
      × All Fits artifacts

  All-insert-All :
      (a : String) (seen artifacts : List String)
      → All (λ artifact. All (IsApart artifact) (Set.insert a seen)) artifacts ↔ (
          All (λ b. IsApart b a) artifacts
          × All (λ artifact. All (IsApart artifact) seen) artifacts)
  All-insert-All a seen [] = (λ h. (tt, tt), λ h. tt)
  All-insert-All a seen (b ∷ artifacts) =
      let here = All-insert (IsApart b) a seen in
      let rest = All-insert-All a seen artifacts in
      (
        λ (p, h). let (x, y) = here.0 p in let (u, v) = rest.0 h in ((x, u), (y, v)),
        λ ((x, u), (y, v)). (here.1 (x, y), rest.1 (u, v)),
      )

  isolate_artifacts_iff :
      (seen artifacts : List String)
      → ((out : List String) × (isolate_artifacts receipt caches seen artifacts ≡ ok out))
        ↔ IsAccepted seen artifacts
  unfolding isolate_artifacts
  isolate_artifacts_iff seen [] = (λ h. (tt, tt, tt), λ h. (seen, refl))
  isolate_artifacts_iff seen (a ∷ artifacts) =
      let apart = reject_overlaps_iff a seen in
      let output = reject_path_overlap_iff a receipt.output in
      let mounts = reject_overlaps_iff a (mount_paths caches) in
      let more = All-insert-All a seen artifacts in
      let rest = isolate_artifacts_iff (Set.insert a seen) artifacts in
      (
        λ (out, h).
            let new = reject (contains seen a) (duplicate_artifact a) in
            let (h1, h4) =
              >>-eq-ok
                (new
                  >> reject_overlaps a seen
                  >> reject_path_overlap a receipt.output
                  >> reject_overlaps a (mount_paths caches))
                (isolate_artifacts receipt caches (Set.insert a seen) artifacts) h in
            let (h2, r) =
              >>-eq-ok (new >> reject_overlaps a seen >> reject_path_overlap a receipt.output)
                (reject_overlaps a (mount_paths caches)) h1 in
            let (h3, q) =
              >>-eq-ok (new >> reject_overlaps a seen) (reject_path_overlap a receipt.output) h2 in
            let (_, p) = >>-eq-ok new (reject_overlaps a seen) h3 in
            let (u, pairs, fits) = rest.0 (out, h4) in
            let (x, y) = more.0 u in ((apart.0 p, y), (x, pairs), ((output.0 q, mounts.0 r), fits)),
        λ ((p, y), (x, pairs), ((q, r), fits)).
            let (out, e) = rest.1 (more.1 (x, y), pairs, fits) in
            (out, rw (All-apart-seen a seen p, apart.1 p, output.1 q, mounts.1 r) e),
      )

  isolate_artifacts-append :
      (seen first later : List String)
      → isolate_artifacts receipt caches seen (first ++ later) ≡ (
          isolate_artifacts receipt caches seen first >>= λ out.
          isolate_artifacts receipt caches out later)
  unfolding isolate_artifacts
  isolate_artifacts-append seen [] later = refl
  isolate_artifacts-append seen (a ∷ first) later =
      rw (isolate_artifacts-append (Set.insert a seen) first later) (
        >>-assoc
          (reject (contains seen a) (duplicate_artifact a)
            >> reject_overlaps a seen
            >> reject_path_overlap a receipt.output
            >> reject_overlaps a (mount_paths caches))
          (isolate_artifacts receipt caches (Set.insert a seen) first)
          (λ out. isolate_artifacts receipt caches out later))

  -- The nested loops are one loop over all artifacts.
  isolate_checks_flat :
      (seen : List String) (checks : List NormalizedCheck)
      → isolate_checks receipt caches seen checks
        ≡ (isolate_artifacts receipt caches seen (artifact_paths checks) >>= λ out. ok tt)
  unfolding isolate_checks isolate_artifacts
  isolate_checks_flat seen [] = refl
  isolate_checks_flat seen (check ∷ checks) =
      rw (isolate_artifacts-append seen check.artifacts (artifact_paths checks)) (
        bind_flat (isolate_artifacts receipt caches seen check.artifacts)
          (λ out. isolate_checks receipt caches out checks)
          (λ out. isolate_artifacts receipt caches out (artifact_paths checks))
          (λ out. isolate_checks_flat out checks))

  -- validate_path_isolation accepts exactly the plans in which no cache mount, artifact or receipt
  -- path is another of them or lies below another.
  pub validate_path_isolation_iff :
      (checks : List NormalizedCheck)
      → (validate_path_isolation receipt caches checks ≡ ok tt)
        ↔ IsIsolated receipt.output (mount_paths caches) (artifact_paths checks)
  unfolding validate_path_isolation
  validate_path_isolation_iff checks =
      let mounts = isolate_caches_iff receipt caches in
      let artifacts = isolate_artifacts_iff [] (artifact_paths checks) in
      let flat = isolate_checks_flat [] checks in
      let found = isolate_artifacts receipt caches [] (artifact_paths checks) in
      (
        λ h.
            let (h1, h2) =
              >>-eq-ok (isolate_caches receipt caches) (isolate_checks receipt caches [] checks)
                h in
            let (m, o) = mounts.0 h1 in
            let (out, e, _) = >>=-eq-ok found (λ x. ok tt) (sym flat ∙ h2) in
            let (_, pairs, fits) = artifacts.0 (out, e) in
            record {
              mounts_apart = m;
              mounts_output = o;
              artifacts_apart = pairs;
              artifacts_output = All-map _ _ (λ a f. f.0) (artifact_paths checks) fits;
              artifacts_mounts = All-map _ _ (λ a f. f.1) (artifact_paths checks) fits;
            },
        λ i.
            let (out, e) = artifacts.1 (
              All-map _ _ (λ a f. tt) (artifact_paths checks) i.artifacts_output,
              i.artifacts_apart,
              All-zip _ _ (artifact_paths checks) i.artifacts_output i.artifacts_mounts,
            ) in
            let checked : isolate_checks receipt caches [] checks ≡ ok tt = flat ∙ rw e refl in
            rw (mounts.1 (i.mounts_apart, i.mounts_output)) checked,
      )
