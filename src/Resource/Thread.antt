-- ===== src/Resource/Thread.antt =====
-- The thread of `ResourceWatchdog` in src/resource.rs. What the other threads do between two of its
-- reads is the round: the stop flag before and after the pause, the cancellation, and the commands.
pub mod Laws
use commit_ci_preflight.Prelude.{
  Bool, true, false, Option, none, some, List, [], ◌∷◌, if◌then◌else◌,
}
use commit_ci_preflight.Outcome.{ok, err}
use commit_ci_preflight.Resource.Snapshot.{
  ResourceSnapshot, ResourceProbeError, cancelled, watchdog_panicked, Probed,
}
use commit_ci_preflight.Resource.Observation.{ResourceObservationSummary, record_sample}
use commit_ci_preflight.Resource.Watchdog.{
  WatchdogTripReason, probe_failure, WatchdogDecision, continue, tripped, WatchdogState, default,
  observe,
}
use commit_ci_preflight.Resource.Sample.{Runner, Sampled, Stopped, failed, panicked, sample}

pub record Round : Type 0 where
  pub stopped_before : Bool
  pub stopped_after_pause : Bool
  pub cancelled_by_user : Bool
  pub run : Runner

pub data Phase : Type 0 where
  running ended : Phase
  crashed unreachable : Phase  -- the two panics: of the parser, and of the last arm

-- `cancelled_for_pressure` is whether `cancel_resource_pressure` has been called.
pub record Thread : Type 0 where
  pub state : WatchdogState
  pub observation : Option ResourceObservationSummary
  pub trip : Option WatchdogTripReason
  pub cancelled_for_pressure : Bool
  pub phase : Phase

unfoldable pub spawn : Option ResourceObservationSummary → Thread
spawn observation = record {
  state = default;
  observation = observation;
  trip = none;
  cancelled_for_pressure = false;
  phase = running;
}

abbrev record_observed :
    Option ResourceObservationSummary → ResourceSnapshot → Option ResourceObservationSummary
record_observed none s = none
record_observed (some summary) s = some (record_sample summary s)

abbrev keep_first : Option WatchdogTripReason → WatchdogTripReason → Option WatchdogTripReason
keep_first none reason = some reason
keep_first (some earlier) reason = some earlier

-- The match on the decision.
unfoldable pub conclude : Thread → Probed WatchdogDecision → Thread
conclude t (ok continue) = t
conclude t (ok (tripped reason)) = record t {
  trip = keep_first t.trip reason;
  cancelled_for_pressure = true;
  phase = ended;
}
conclude t (err e) = record t { phase = unreachable }

abbrev observed : Thread → ResourceSnapshot → WatchdogState → Thread
observed t s state = record t { observation = record_observed t.observation s; state = state }

-- The match on the sample.
unfoldable pub judge_sample : Thread → Sampled ResourceSnapshot → Thread
unfolding conclude observe
judge_sample t (ok s) =
    let (state, decision) = observe t.state s in conclude (observed t s state) decision
judge_sample t (err (failed cancelled)) = conclude t (ok continue)
judge_sample t (err (failed e)) = conclude t (ok (tripped probe_failure))
judge_sample t (err panicked) = record t { phase = crashed }

-- One turn of the loop.
unfoldable pub turn : Thread → Round → Thread
unfolding sample judge_sample
turn t r =
    if r.stopped_before
    then record t { phase = ended }
    else if r.stopped_after_pause
    then record t { phase = ended }
    else if r.cancelled_by_user
    then record t { phase = ended }
    else judge_sample t (sample r.run)

abbrev pub turn_in : Phase → Thread → Round → Thread
turn_in running t r = turn t r
turn_in _ t r = t

-- The thread after the rounds, the first one first.
unfoldable pub run_thread : Thread → List Round → Thread
unfolding turn
run_thread t [] = t
run_thread t (r ∷ rounds) = run_thread (turn_in t.phase t r) rounds

abbrev has_panicked : Phase → Bool
has_panicked running = false
has_panicked ended = false
has_panicked crashed = true
has_panicked unreachable = true

-- `stop_and_join` of a thread that has come to its end. Nothing panics while the trip is locked.
unfoldable pub stop_and_join : Thread → Probed (Option WatchdogTripReason)
stop_and_join t = if has_panicked t.phase then err watchdog_panicked else ok t.trip
