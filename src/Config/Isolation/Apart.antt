-- ===== src/Config/Isolation/Apart.antt =====
-- What it means that the paths of a plan are kept apart, for `validate_path_isolation` of
-- src/config.rs.
use commit_ci_preflight.Prelude.{
  String, true, false, ◌≡◌, refl, ◌∙◌, ◌↔◌, List, [], ◌∷◌, ◌++◌, arith, str_eq, eq_iff, eq_refl,
  contains, All, Bool-cases, inl, inr,
}
use mathlib.Core.Path.{subst}
use commit_ci_preflight.Outcome.{ok}
use commit_ci_preflight.Ordered.Set
use commit_ci_preflight.Ordered.Order.{str_lt}
use commit_ci_preflight.Config.Data.{NormalizedCheck}
use commit_ci_preflight.Config.Isolation.{overlaps, reject_path_overlap, reject_overlaps}

-- Neither path is the other or lies below it.
abbrev pub IsApart : String → String → Type 0
IsApart a b = overlaps a b ≡ false

-- Each path is apart from those before it.
abbrev pub ArePairwiseApart : List String → Type 0
ArePairwiseApart [] = Unit
ArePairwiseApart (a ∷ paths) = All (λ b. IsApart b a) paths × ArePairwiseApart paths

abbrev pub artifact_paths : List NormalizedCheck → List String
artifact_paths [] = []
artifact_paths (check ∷ checks) = check.artifacts ++ artifact_paths checks

-- The receipt, the cache mounts and the artifacts of a plan are kept apart.
pub record IsIsolated (output : String) (mounts artifacts : List String) : Type 0 where
  pub mounts_apart : ArePairwiseApart mounts
  pub mounts_output : All (λ mount. IsApart mount output) mounts
  pub artifacts_apart : ArePairwiseApart artifacts
  pub artifacts_output : All (λ artifact. IsApart artifact output) artifacts
  pub artifacts_mounts : All (λ artifact. All (IsApart artifact) mounts) artifacts

pub overlaps_comm : (a b : String) → overlaps a b ≡ overlaps b a
unfolding overlaps
overlaps_comm a b = ground (arith, eq_iff a b, eq_iff b a)

pub overlaps_refl : (a : String) → overlaps a a ≡ true
unfolding overlaps
overlaps_refl a = ground (arith, eq_refl a)

pub reject_path_overlap_iff : (a b : String) → (reject_path_overlap a b ≡ ok tt) ↔ IsApart a b
unfolding reject_path_overlap
reject_path_overlap_iff a b = ground arith

pub reject_overlaps_iff :
    (path : String) (paths : List String)
    → (reject_overlaps path paths ≡ ok tt) ↔ All (IsApart path) paths
unfolding reject_overlaps
reject_overlaps_iff path [] = ground arith
reject_overlaps_iff path (other ∷ paths) =
    ground (arith, reject_path_overlap_iff path other, reject_overlaps_iff path paths)

pub All-insert {ℓ} :
    (P : String → Type ℓ) (a : String) (set : List String)
    → All P (Set.insert a set) ↔ (P a × All P set)
unfolding Set.insert
All-insert P a [] = (λ h. h, λ h. h)
All-insert P a (x ∷ xs) = elim (Bool-cases (str_lt a x)) [
  | inl below ↦ rw below (λ h. h, λ h. h)
  | inr above ↦ elim (Bool-cases (str_eq x a)) [
    | inl same ↦ rw (above, same) (λ h. (subst P ((eq_iff x a).0 same) h.0, h), λ h. h.1)
    | inr other ↦
        let rest = All-insert P a xs in
        rw (above, other)
          (λ (p, h). let (q, k) = rest.0 h in (q, (p, k)), λ (q, (p, k)). (p, rest.1 (q, k)))
  ]
]

pub All-apart-seen :
    (a : String) (seen : List String) → All (IsApart a) seen → contains seen a ≡ false
All-apart-seen a [] h = refl
All-apart-seen a (x ∷ seen) (p, h) =
    ground (arith, All-apart-seen a seen h, eq_iff x a, overlaps_refl a)

pub All-flip :
    (a : String) (paths : List String) → All (IsApart a) paths ↔ All (λ b. IsApart b a) paths
All-flip a [] = (λ h. h, λ h. h)
All-flip a (x ∷ paths) =
    let rest = All-flip a paths in
    (λ (p, h). (overlaps_comm x a ∙ p, rest.0 h), λ (p, h). (overlaps_comm a x ∙ p, rest.1 h))
