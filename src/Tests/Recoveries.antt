-- ===== src/Tests/Recoveries.antt =====
-- The quarantine of a run of the journal.
use commit_ci_preflight.Prelude.{◌≡◌, refl, [], ◌∷◌, false}
use commit_ci_preflight.Outcome.{ok}
use commit_ci_preflight.Tests.Samples.{codec}
use commit_ci_preflight.Ordered.Map.{get}
use commit_ci_preflight.Journal.Files.{folder, place_exists, Runs, success, unsynced}
use commit_ci_preflight.Journal.Store.{apply, quarantined_result}
use commit_ci_preflight.Journal.Recovery.{apply-retry}
use commit_ci_preflight.Journal.Resources.{status}
use commit_ci_preflight.Journal.Quarantined.{quarantined_status, apply-listed}
use commit_ci_preflight.Tests.Journals.{run, files, runs, serde}
use mathlib.Core.List.{Memᴰ}

abbrev quarantined_runs : Runs
quarantined_runs =
    ("quarantined-0123456789abcdef0123456789abcdef0123456789abcdef0123456789abcdef", folder files)
    ∷ []

applied : apply serde codec run success run runs ≡ (quarantined_runs, ok (quarantined_result run))
unfolding apply
applied = refl

apply-retry_example :
    apply serde codec run success run (apply serde codec run unsynced run runs).0
    ≡ (quarantined_runs, ok (quarantined_result run))
apply-retry_example = apply-retry serde codec run run runs (tt, tt) unsynced applied

apply-listed_example :
    Memᴰ (quarantined_status run) (status serde codec run quarantined_runs).runs
    × (place_exists (get run quarantined_runs) ≡ false)
apply-listed_example = apply-listed serde codec run run runs (tt, tt) applied
