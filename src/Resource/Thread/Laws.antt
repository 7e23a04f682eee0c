-- ===== src/Resource/Thread/Laws.antt =====
-- The thread of the watchdog of src/resource.rs, over every sequence of rounds.
use commit_ci_preflight.Prelude.{
  ◌≡◌, ◌≢◌, refl, Bool, true, false, Option, none, List, [], ◌∷◌, arith,
}
use commit_ci_preflight.Outcome.{ok, err}
use commit_ci_preflight.Resource.Snapshot.{
  ResourceSnapshot, is_contradictory, validate, cancelled, Probed,
}
use commit_ci_preflight.Resource.Observation.{ResourceObservationSummary}
use commit_ci_preflight.Resource.Watchdog.{
  WatchdogState, WatchdogDecision, continue, tripped, probe_failure, observe, judge, count_soft,
  push_sample,
}
use commit_ci_preflight.Resource.Sample.{Sampled, failed, panicked, sample}
use commit_ci_preflight.Resource.Sample.Laws.{sample-valid}
use commit_ci_preflight.Resource.Thread.{
  Round, Phase, running, ended, crashed, unreachable, Thread, spawn, conclude, judge_sample, turn,
  turn_in, run_thread,
}

-- The reason, the cancellation and the end of the thread go together.
pub record IsConsistent (t : Thread) : Type 0 where
  pub reachable : t.phase ≢ unreachable
  pub untripped : t.cancelled_for_pressure ≡ false → t.trip ≡ none
  pub known : t.cancelled_for_pressure ≡ true → t.trip ≢ none
  pub final : t.cancelled_for_pressure ≡ true → t.phase ≡ ended

spawn-IsConsistent : (o : Option ResourceObservationSummary) → IsConsistent (spawn o)
unfolding spawn
spawn-IsConsistent o = ground arith

abbrev decided : Probed WatchdogDecision → Bool
decided (ok d) = true
decided (err e) = false

judge-decides : (w : WatchdogState) (s : ResourceSnapshot) → decided (judge w s).1 ≡ true
unfolding judge count_soft
judge-decides w s = ground arith

-- `observe` returns a decision for a snapshot that is not contradictory.
observe-decides :
    (w : WatchdogState) (s : ResourceSnapshot)
    → is_contradictory s ≡ false
    → decided (observe w s).1 ≡ true
unfolding observe validate
observe-decides w s valid = ground (
  arith,
  judge-decides (record w { swap_window = push_sample w.swap_window s.swap_used_bytes }) s,
)

conclude-IsConsistent :
    (t : Thread) (d : Probed WatchdogDecision)
    → IsConsistent t
    → t.phase ≡ running
    → decided d ≡ true
    → IsConsistent (conclude t d)
unfolding conclude
conclude-IsConsistent t (ok continue) h p e = h
conclude-IsConsistent t (ok (tripped reason)) h p e = ground arith
conclude-IsConsistent t (err _) h p e = absurd (cc)

abbrev Plausible : Sampled ResourceSnapshot → Type 0
Plausible (ok s) = is_contradictory s ≡ false
Plausible (err e) = Unit

judge_sample-IsConsistent :
    (t : Thread) (m : Sampled ResourceSnapshot)
    → IsConsistent t
    → t.phase ≡ running
    → Plausible m
    → IsConsistent (judge_sample t m)
unfolding judge_sample
judge_sample-IsConsistent t (ok s) h p valid =
    conclude-IsConsistent _ (observe t.state s).1 (ground arith) p (observe-decides t.state s valid)
judge_sample-IsConsistent t (err (failed cancelled)) h p _ =
    conclude-IsConsistent t (ok continue) h p refl
judge_sample-IsConsistent t (err (failed e)) h p _ =
    conclude-IsConsistent t (ok (tripped probe_failure)) h p refl
judge_sample-IsConsistent t (err panicked) h p _ = ground arith

sample-Plausible : (r : Round) → Plausible (sample r.run)
sample-Plausible r = go (sample r.run) refl
  where
    go : (m : Sampled ResourceSnapshot) → sample r.run ≡ m → Plausible m
    go (ok s) e = sample-valid r.run e
    go (err e) _ = tt

turn-IsConsistent :
    (t : Thread) (r : Round) → IsConsistent t → t.phase ≡ running → IsConsistent (turn t r)
unfolding turn
turn-IsConsistent t r h p =
    ground (arith, judge_sample-IsConsistent t (sample r.run) h p (sample-Plausible r))

turn_in-IsConsistent :
    (t : Thread) (r : Round) → IsConsistent t → IsConsistent (turn_in t.phase t r)
turn_in-IsConsistent t r h = go t.phase refl
  where
    go : (p : Phase) → t.phase ≡ p → IsConsistent (turn_in p t r)
    go running e = turn-IsConsistent t r h e
    go ended e = h
    go crashed e = h
    go unreachable e = h

runs-IsConsistent :
    (t : Thread) (rounds : List Round) → IsConsistent t → IsConsistent (run_thread t rounds)
unfolding run_thread
runs-IsConsistent t [] h = h
runs-IsConsistent t (r ∷ rounds) h =
    runs-IsConsistent (turn_in t.phase t r) rounds (turn_in-IsConsistent t r h)

-- Over every sequence of rounds, whatever the commands print, the watchdog thread never reaches the
-- unreachable arm, and it has a reason exactly where it has cancelled the run for resource
-- pressure, after which it has ended.
pub run_thread-IsConsistent :
    (o : Option ResourceObservationSummary) (rounds : List Round)
    → IsConsistent (run_thread (spawn o) rounds)
run_thread-IsConsistent o rounds = runs-IsConsistent (spawn o) rounds (spawn-IsConsistent o)
