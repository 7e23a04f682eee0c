-- ===== src/Resource/Watchdog.antt =====
-- The watchdog of src/resource.rs: `WatchdogState`, and the loop of its thread over the events of
-- the rounds.
pub mod History
pub mod Window
pub mod Laws
pub mod Pressure
use commit_ci_preflight.Prelude.{
  ℕ, zero, suc, ◌+◌, ◌-◌, ◌*◌, Bool, false, ◌&&◌, ◌||◌, ltb, leb, ◌==◌, if◌then◌else◌, Option, none,
  some, List, [], ◌∷◌, ◌++◌, length, drop,
}
use commit_ci_preflight.Outcome.{Outcome, ok, err}
use commit_ci_preflight.Resource.Snapshot.{
  ResourceSnapshot, ResourceProbeError, Probed, validate, has_hard_compound_compression,
  compressor_percent_at_least, hard_available_percent, hard_reclaimable_bytes,
  soft_available_percent, soft_reclaimable_bytes, soft_compressor_percent, soft_swap_bytes,
  soft_swap_growth_bytes, soft_required_signals, soft_consecutive_samples,
  soft_trend_window_samples,
}

pub data WatchdogTripReason : Type 0 where
  hard_pressure soft_pressure probe_failure : WatchdogTripReason

pub data WatchdogDecision : Type 0 where
  continue : WatchdogDecision
  tripped : WatchdogTripReason → WatchdogDecision

-- `swap_window` is the deque from its front to its back.
pub record WatchdogState : Type 0 where
  pub consecutive_soft_samples : ℕ
  pub first_trip : Option WatchdogTripReason
  pub swap_window : List ℕ

-- `WatchdogState::default()`.
abbrev pub default : WatchdogState
default = record { consecutive_soft_samples = 0; first_trip = none; swap_window = [] }

-- `push_back`, then `pop_front` where the window is too long.
unfoldable pub push_sample : List ℕ → ℕ → List ℕ
push_sample window sample =
    let longer = window ++ sample ∷ [] in
    if ltb soft_trend_window_samples (length longer) then drop 1 longer else longer

-- `saturating_sub` of the front; the caller has tested that the window is full.
abbrev pub grown_since : List ℕ → ℕ → Bool
grown_since [] sample = false
grown_since (front ∷ window) sample = leb soft_swap_growth_bytes (sample - front)

unfoldable pub swap_growth : List ℕ → ℕ → Bool
swap_growth window sample = length window == soft_trend_window_samples && grown_since window sample

unfoldable pub is_hard : ResourceSnapshot → Bool
unfolding has_hard_compound_compression
is_hard s =
    leb s.available_percent hard_available_percent
    || ltb s.reclaimable_uncompressed_bytes hard_reclaimable_bytes
    || has_hard_compound_compression s

-- `u8::from`.
abbrev pub as_u8 : Bool → ℕ
as_u8 b = if b then 1 else 0

unfoldable pub soft_signals : ResourceSnapshot → Bool → ℕ
unfolding compressor_percent_at_least
soft_signals s growth =
    as_u8 (ltb s.available_percent soft_available_percent)
    + as_u8 (ltb s.reclaimable_uncompressed_bytes soft_reclaimable_bytes)
    + as_u8 (compressor_percent_at_least s soft_compressor_percent)
    + as_u8 (leb soft_swap_bytes s.swap_used_bytes)
    + as_u8 growth

-- `saturating_add` of `u8`.
abbrev pub saturating_suc_u8 : ℕ → ℕ
saturating_suc_u8 n = if ltb n 255 then n + 1 else 255

abbrev pub Observed : Type 0
Observed = WatchdogState × Probed WatchdogDecision

abbrev trip : WatchdogState → WatchdogTripReason → Observed
trip w reason = (record w { first_trip = some reason }, ok (tripped reason))

-- The branch for at least two soft signals.
unfoldable pub count_soft : WatchdogState → Observed
count_soft w =
    let counted = record w {
      consecutive_soft_samples = saturating_suc_u8 w.consecutive_soft_samples;
    } in
    if leb soft_consecutive_samples counted.consecutive_soft_samples
    then trip counted soft_pressure
    else (counted, ok continue)

-- The rest of `observe` once the window has the new sample.
unfoldable pub judge : WatchdogState → ResourceSnapshot → Observed
unfolding is_hard soft_signals swap_growth count_soft
judge w s =
    if is_hard s
    then trip w hard_pressure
    else if leb soft_required_signals (soft_signals s (swap_growth w.swap_window s.swap_used_bytes))
    then count_soft w
    else (record w { consecutive_soft_samples = 0 }, ok continue)

abbrev observe_from : Option WatchdogTripReason → WatchdogState → ResourceSnapshot → Observed
observe_from (some reason) w s = (w, ok (tripped reason))
observe_from none w s =
    judge (record w { swap_window = push_sample w.swap_window s.swap_used_bytes }) s

abbrev observe_if_valid : Probed (Unit {0}) → WatchdogState → ResourceSnapshot → Observed
observe_if_valid (err e) w s = (w, err e)
observe_if_valid (ok _) w s = observe_from w.first_trip w s

unfoldable pub observe : WatchdogState → ResourceSnapshot → Observed
unfolding validate judge push_sample
observe w s = observe_if_valid (validate s) w s
