-- ===== src/Resource/Watchdog/Laws.antt =====
-- The watchdog of src/resource.rs decides what its history says, whatever the samples are.
use commit_ci_preflight.Prelude.{
  ℕ, suc, ◌+◌, ◌≤◌, ◌<◌, ◌≡◌, refl, ◌∙◌, Bool, true, false, leb, Option, none, some, List, [], ◌∷◌,
  arith, Bool-cases, inl, inr,
}
use native.Mathlib.Decide.{dec_lt}
use commit_ci_preflight.Outcome.{ok}
use commit_ci_preflight.Resource.Snapshot.{
  ResourceSnapshot, is_contradictory, validate, soft_required_signals,
}
use commit_ci_preflight.Resource.Watchdog.{
  WatchdogTripReason, hard_pressure, soft_pressure, WatchdogState, push_sample, is_hard,
  soft_signals, swap_growth, judge, count_soft, observe, continue,
}
use commit_ci_preflight.Resource.Watchdog.History.{
  observe_all, AreValid, is_soft, soft_run, verdict, reason_now, first,
}
use commit_ci_preflight.Resource.Watchdog.Window.{newest, push_sample-newest, swap_growth-newest}

leb-true : (n : ℕ) → 15 ≤ n → leb 15 n ≡ true
leb-true n k = ground arith

leb-false : (n : ℕ) → n < 15 → leb 15 n ≡ false
leb-false n k = ground arith

-- A state that has not tripped.
abbrev pub untripped : ℕ → List ℕ → WatchdogState
untripped n window = record {
  consecutive_soft_samples = n;
  first_trip = none;
  swap_window = window;
}

observe-untripped :
    (n : ℕ) (window : List ℕ) (s : ResourceSnapshot)
    → is_contradictory s ≡ false
    → observe (untripped n window) s ≡ judge (untripped n (push_sample window s.swap_used_bytes)) s
unfolding observe validate
observe-untripped n window s valid = rw valid

observe-latched :
    (w : WatchdogState) (s : ResourceSnapshot) (reason : WatchdogTripReason)
    → w.first_trip ≡ some reason
    → (observe w s).0.first_trip ≡ some reason
unfolding observe validate
observe-latched w s reason e = ground arith

module _ (n : ℕ) (window : List ℕ) (s : ResourceSnapshot) where
  judge-hard : is_hard s ≡ true → (judge (untripped n window) s).0.first_trip ≡ some hard_pressure
  unfolding judge
  judge-hard hard = rw hard

  abbrev signals : Bool
  signals = leb soft_required_signals (soft_signals s (swap_growth window s.swap_used_bytes))

  judge-calm :
      is_hard s ≡ false
      → signals ≡ false
      → judge (untripped n window) s ≡ (untripped 0 window, ok continue)
  unfolding judge
  judge-calm easy calm = rw (easy, calm)

  judge-soft :
      is_hard s ≡ false
      → signals ≡ true
      → n < 14
      → judge (untripped n window) s ≡ (untripped (n + 1) window, ok continue)
  unfolding judge count_soft
  judge-soft easy soft few = rw (easy, soft) (ground arith)

  judge-soft_last :
      is_hard s ≡ false
      → signals ≡ true
      → n ≡ 14
      → (judge (untripped n window) s).0.first_trip ≡ some soft_pressure
  unfolding judge count_soft
  judge-soft_last easy soft last = rw (easy, soft) (ground arith)

-- What the state is after a history, by its verdict.
abbrev pub Tracks : List ResourceSnapshot → WatchdogState → Option WatchdogTripReason → Type 0
Tracks h w none = (w ≡ untripped (soft_run h) (newest 16 h)) × (soft_run h < 15)
Tracks h w (some reason) = w.first_trip ≡ some reason

-- The branches of one sample after a history that has not tripped, read on the history.
module _ (s : ResourceSnapshot) (older : List ResourceSnapshot)
    (valid : is_contradictory s ≡ false) where
  abbrev before : WatchdogState
  before = untripped (soft_run older) (newest 16 older)

  abbrev entered : WatchdogState
  entered = untripped (soft_run older) (newest 16 (s ∷ older))

  observe-entered : observe before s ≡ judge entered s
  observe-entered =
      observe-untripped (soft_run older) (newest 16 older) s valid ∙ rw (push_sample-newest s older)

  signals-soft : signals (soft_run older) (newest 16 (s ∷ older)) s ≡ is_soft s older
  unfolding is_soft
  signals-soft = rw (swap_growth-newest s older)

  soft_run-soft : is_soft s older ≡ true → soft_run (s ∷ older) ≡ suc (soft_run older)
  unfolding soft_run
  soft_run-soft soft = rw soft

  soft_run-calm : is_soft s older ≡ false → soft_run (s ∷ older) ≡ 0
  unfolding soft_run
  soft_run-calm calm = rw calm

  step-hard : is_hard s ≡ true → Tracks (s ∷ older) (observe before s).0 (reason_now s older)
  step-hard hard =
      rw (hard, observe-entered) (judge-hard (soft_run older) (newest 16 (s ∷ older)) s hard)

  step-calm :
      is_hard s ≡ false
      → is_soft s older ≡ false
      → Tracks (s ∷ older) (observe before s).0 (reason_now s older)
  step-calm easy calm =
      let rest = soft_run-calm calm in
      let there =
        judge-calm (soft_run older) (newest 16 (s ∷ older)) s easy (signals-soft ∙ calm) in
      rw (easy, rest, observe-entered, there) ((rw rest), omega (arith, rest))

  step-soft :
      is_hard s ≡ false
      → is_soft s older ≡ true
      → soft_run older < 15
      → Tracks (s ∷ older) (observe before s).0 (reason_now s older)
  step-soft easy soft few = elim (dec_lt (soft_run older) 14) [
    | yes more ↦
        let longer = soft_run-soft soft in
        let there =
          judge-soft (soft_run older) (newest 16 (s ∷ older)) s easy (signals-soft ∙ soft) more in
        rw (easy, longer, observe-entered, there)
          (rw (leb-false (suc (soft_run older)) (omega arith))
            (rw longer (ground arith), omega (arith, longer)))
    | no last ↦
        let longer = soft_run-soft soft in
        rw (easy, longer, observe-entered)
          (rw (leb-true (suc (soft_run older)) (omega arith)) (
            judge-soft_last (soft_run older) (newest 16 (s ∷ older)) s easy (signals-soft ∙ soft)
              (omega arith)))
  ]

-- One sample keeps the state in step with the history.
step-Tracks :
    (s : ResourceSnapshot) (older : List ResourceSnapshot) (w : WatchdogState)
    → is_contradictory s ≡ false
    → (v : Option WatchdogTripReason) → Tracks older w v
    → Tracks (s ∷ older) (observe w s).0 (first v (reason_now s older))
step-Tracks s older w valid (some reason) h = observe-latched w s reason h
step-Tracks s older w valid none (e, few) = rw e (elim (Bool-cases (is_hard s)) [
  | inl hard ↦ step-hard s older valid hard
  | inr easy ↦ elim (Bool-cases (is_soft s older)) [
    | inl soft ↦ step-soft s older valid easy soft few
    | inr calm ↦ step-calm s older valid easy calm
  ]
])

pub observe_all-Tracks :
    (h : List ResourceSnapshot) → AreValid h → Tracks h (observe_all h) (verdict h)
unfolding observe_all verdict soft_run newest
observe_all-Tracks [] valid = (refl, omega arith)
observe_all-Tracks (s ∷ older) (valid, before) =
    step-Tracks s older (observe_all older) valid (verdict older) (observe_all-Tracks older before)

Tracks-first_trip :
    (h : List ResourceSnapshot) (w : WatchdogState) (v : Option WatchdogTripReason)
    → Tracks h w v
    → w.first_trip ≡ v
Tracks-first_trip h w none (e, few) = rw e
Tracks-first_trip h w (some reason) e = e

-- After any sequence of samples none of which is contradictory, the watchdog has tripped for
-- exactly the reason that the whole history of the samples gives: the first sample of hard
-- pressure, or the first of fifteen soft samples in a row, where growing swap is measured against
-- the sample fifteen before.
pub observe_all-verdict :
    (h : List ResourceSnapshot) → AreValid h → (observe_all h).first_trip ≡ verdict h
observe_all-verdict h valid =
    Tracks-first_trip h (observe_all h) (verdict h) (observe_all-Tracks h valid)
