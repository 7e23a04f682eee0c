-- ===== src/Config/Isolation.antt =====
-- `validate_path_isolation` of src/config.rs.
pub mod Apart
pub mod Laws
use commit_ci_preflight.Prelude.{
  String, Bool, false, ◌||◌, Option, none, some, List, [], ◌∷◌, str_eq, contains,
}
use commit_ci_preflight.Outcome.{ok, ◌>>=◌, ◌>>◌, reject}
use commit_ci_preflight.Ordered.Set
use commit_ci_preflight.Text.{strip_prefix, starts_with_char}
use commit_ci_preflight.Config.Data.{NormalizedReceipt, NormalizedCache, NormalizedCheck}
use commit_ci_preflight.Config.Failure.{path_overlap, duplicate_artifact, Verdict, Checked}

-- `first.strip_prefix(second).is_some_and(|suffix| suffix.starts_with('/'))`.
abbrev pub has_slash : Option String → Bool
has_slash none = false
has_slash (some suffix) = starts_with_char b'/' suffix

-- Whether `path` lies below the directory `parent`.
unfoldable pub lies_below : String → String → Bool
unfolding strip_prefix
lies_below path parent = has_slash (strip_prefix parent path)

unfoldable pub overlaps : String → String → Bool
unfolding lies_below
overlaps first second = str_eq first second || lies_below first second || lies_below second first

unfoldable pub reject_path_overlap : String → String → Verdict
unfolding overlaps
reject_path_overlap first second = reject (overlaps first second) (path_overlap first second)

-- `for other in paths { reject_path_overlap(path, other)? }`.
unfoldable pub reject_overlaps : String → List String → Verdict
unfolding reject_path_overlap
reject_overlaps path [] = ok tt
reject_overlaps path (other ∷ paths) = reject_path_overlap path other >> reject_overlaps path paths

abbrev pub mount_paths : List NormalizedCache → List String
mount_paths [] = []
mount_paths (cache ∷ caches) = cache.mount_path ∷ mount_paths caches

-- The first loop.
unfoldable pub isolate_caches : NormalizedReceipt → List NormalizedCache → Verdict
unfolding reject_overlaps
isolate_caches receipt [] = ok tt
isolate_caches receipt (cache ∷ caches) =
    reject_overlaps cache.mount_path (mount_paths caches)
    >> reject_path_overlap cache.mount_path receipt.output
    >> isolate_caches receipt caches

-- The loop over one check's artifacts; `artifacts` is the set of those seen.
unfoldable pub isolate_artifacts :
    NormalizedReceipt → List NormalizedCache → List String → List String → Checked (List String)
unfolding reject_overlaps
isolate_artifacts receipt caches artifacts [] = ok artifacts
isolate_artifacts receipt caches artifacts (artifact ∷ more) =
    let rest = isolate_artifacts receipt caches (Set.insert artifact artifacts) more in
    reject (contains artifacts artifact) (duplicate_artifact artifact)
    >> reject_overlaps artifact artifacts
    >> reject_path_overlap artifact receipt.output
    >> reject_overlaps artifact (mount_paths caches)
    >> rest

unfoldable pub isolate_checks :
    NormalizedReceipt → List NormalizedCache → List String → List NormalizedCheck → Verdict
unfolding isolate_artifacts
isolate_checks receipt caches artifacts [] = ok tt
isolate_checks receipt caches artifacts (check ∷ checks) =
    isolate_artifacts receipt caches artifacts check.artifacts >>= λ seen.
    isolate_checks receipt caches seen checks

unfoldable pub validate_path_isolation :
    NormalizedReceipt → List NormalizedCache → List NormalizedCheck → Verdict
unfolding isolate_caches isolate_checks
validate_path_isolation receipt caches checks =
    isolate_caches receipt caches >> isolate_checks receipt caches [] checks
