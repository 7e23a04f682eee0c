-- ===== src/Resource/Watchdog/History.antt =====
-- What a watchdog has to decide, read off the whole history of its samples, the newest first:
-- no window, no counter and no latch.
use commit_ci_preflight.Prelude.{
  ℕ, suc, ◌-◌, ◌≡◌, Bool, false, leb, if◌then◌else◌, Option, none, some, List, [], ◌∷◌, get_elem?,
}
use commit_ci_preflight.Resource.Snapshot.{
  ResourceSnapshot, soft_swap_growth_bytes, soft_required_signals, soft_consecutive_samples,
  is_contradictory,
}
use commit_ci_preflight.Resource.Watchdog.{
  WatchdogTripReason, hard_pressure, soft_pressure, WatchdogState, default, is_hard, soft_signals,
  observe,
}

-- The state of a watchdog that has observed the history.
unfoldable pub observe_all : List ResourceSnapshot → WatchdogState
observe_all [] = default
observe_all (s ∷ older) = (observe (observe_all older) s).0

abbrev pub AreValid : List ResourceSnapshot → Type 0
AreValid [] = Unit
AreValid (s ∷ older) = (is_contradictory s ≡ false) × AreValid older

abbrev grown : Option ResourceSnapshot → ResourceSnapshot → Bool
grown none s = false
grown (some oldest) s = leb soft_swap_growth_bytes (s.swap_used_bytes - oldest.swap_used_bytes)

-- The swap that is used grew by the threshold within the last sixteen samples.
unfoldable pub is_swap_growing : ResourceSnapshot → List ResourceSnapshot → Bool
is_swap_growing s older = grown (get_elem? older 14) s

unfoldable pub is_soft : ResourceSnapshot → List ResourceSnapshot → Bool
is_soft s older = leb soft_required_signals (soft_signals s (is_swap_growing s older))

-- How many of the newest samples are soft.
unfoldable pub soft_run : List ResourceSnapshot → ℕ
soft_run [] = 0
soft_run (s ∷ older) = let longer = suc (soft_run older) in if is_soft s older then longer else 0

abbrev pub first : Option WatchdogTripReason → Option WatchdogTripReason → Option WatchdogTripReason
first none later = later
first (some reason) later = some reason

abbrev pub reason_now : ResourceSnapshot → List ResourceSnapshot → Option WatchdogTripReason
reason_now s older =
    if is_hard s
    then some hard_pressure
    else if leb soft_consecutive_samples (soft_run (s ∷ older))
    then some soft_pressure
    else none

-- The reason of the first sample at which there was one.
unfoldable pub verdict : List ResourceSnapshot → Option WatchdogTripReason
verdict [] = none
verdict (s ∷ older) = first (verdict older) (reason_now s older)
