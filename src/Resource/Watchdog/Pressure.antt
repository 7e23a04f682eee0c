-- ===== src/Resource/Watchdog/Pressure.antt =====
-- When the watchdog of src/resource.rs has to trip, and when it must not.
use commit_ci_preflight.Prelude.{
  ◌≤◌, ◌<◌, ◌≡◌, ◌≢◌, sym, ◌∙◌, true, false, leb, none, List, [], ◌∷◌, ◌++◌, arith, length,
  Bool-cases, inl, inr,
}
use commit_ci_preflight.Outcome.{ok}
use commit_ci_preflight.Resource.Snapshot.{
  ResourceSnapshot, is_contradictory, validate, admit, evaluate_pre_start, soft_required_signals,
}
use commit_ci_preflight.Resource.Watchdog.{
  WatchdogState, push_sample, is_hard, soft_signals, judge, count_soft, observe, continue,
}
use commit_ci_preflight.Resource.Watchdog.History.{
  observe_all, AreValid, is_soft, is_swap_growing, soft_run,
}
use commit_ci_preflight.Resource.Watchdog.Laws.{observe_all-verdict, observe_all-Tracks}

-- Two of the signals that one sample shows by itself.
abbrev pub AreStrained : List ResourceSnapshot → Type 0
AreStrained [] = Unit
AreStrained (s ∷ older) =
    (leb soft_required_signals (soft_signals s false) ≡ true) × AreStrained older

strained-soft :
    (s : ResourceSnapshot) (older : List ResourceSnapshot)
    → leb soft_required_signals (soft_signals s false) ≡ true
    → is_soft s older ≡ true
unfolding is_soft soft_signals
strained-soft s older strained = elim (Bool-cases (is_swap_growing s older)) [
  | inl growing ↦ rw growing (ground arith)
  | inr still ↦ rw still strained
]

length-soft_run :
    (newer older : List ResourceSnapshot)
    → AreStrained newer
    → length newer ≤ soft_run (newer ++ older)
unfolding soft_run
length-soft_run [] older strained = omega arith
length-soft_run (s ∷ newer) older (strained, rest) =
    rw (strained-soft s (newer ++ older) strained) (omega (arith, length-soft_run newer older rest))

-- Whatever samples came before, at least fifteen newer samples that each show two soft signals by
-- themselves have tripped the watchdog, where no sample is contradictory.
pub observe_all-trips :
    (newer older : List ResourceSnapshot)
    → AreValid (newer ++ older)
    → AreStrained newer
    → 15 ≤ length newer
    → (observe_all (newer ++ older)).first_trip ≢ none
observe_all-trips newer older valid strained long quiet =
    let none_yet = sym (observe_all-verdict (newer ++ older) valid) ∙ quiet in
    let tracked = rw none_yet at (observe_all-Tracks (newer ++ older) valid) in
    omega (arith, tracked.1, length-soft_run newer older strained)

-- Before the run starts and while it goes on.
validate-admitted :
    (s : ResourceSnapshot) → evaluate_pre_start s ≡ ok admit → is_contradictory s ≡ false
unfolding evaluate_pre_start validate
validate-admitted s admitted = ground arith

admitted-easy : (s : ResourceSnapshot) → evaluate_pre_start s ≡ ok admit → is_hard s ≡ false
unfolding evaluate_pre_start is_hard validate
admitted-easy s admitted = ground arith

judge-easy :
    (w : WatchdogState) (s : ResourceSnapshot)
    → is_hard s ≡ false
    → w.consecutive_soft_samples < 14
    → (judge w s).1 ≡ ok continue
unfolding judge count_soft
judge-easy w s easy few = ground arith

-- A sample that would be admitted before a start lets a watchdog continue that has not tripped and
-- has counted less than fourteen soft samples in a row.
pub observe-admitted :
    (w : WatchdogState) (s : ResourceSnapshot)
    → evaluate_pre_start s ≡ ok admit
    → w.first_trip ≡ none
    → w.consecutive_soft_samples < 14
    → (observe w s).1 ≡ ok continue
unfolding observe validate
observe-admitted w s admitted quiet few = ground (
  arith,
  validate-admitted s admitted,
  judge-easy (record w { swap_window = push_sample w.swap_window s.swap_used_bytes }) s
      (admitted-easy s admitted) few,
)
