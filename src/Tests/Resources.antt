-- ===== src/Tests/Resources.antt =====
-- The resource guard at concrete samples.
use commit_ci_preflight.Prelude.{
  ℕ, ◌*◌, ◌≡◌, ◌≢◌, refl, List, [], ◌∷◌, ◌++◌, none, some, arith, false,
}
use commit_ci_preflight.Outcome.{ok, err}
use commit_ci_preflight.Text.{chars}
use commit_ci_preflight.Resource.Snapshot.{
  ResourceSnapshot, command_failed, admit, evaluate_pre_start, Probed,
}
use commit_ci_preflight.Resource.Observation.{new}
use commit_ci_preflight.Resource.Watchdog.{
  WatchdogTripReason, soft_pressure, hard_pressure, WatchdogState, default, continue, tripped,
  observe,
}
use commit_ci_preflight.Resource.Watchdog.History.{observe_all, verdict, AreValid}
use commit_ci_preflight.Resource.Watchdog.Laws.{observe_all-verdict}
use commit_ci_preflight.Resource.Watchdog.Pressure.{
  AreStrained, observe_all-trips, observe-admitted,
}
use commit_ci_preflight.Resource.Sample.{
  memory_pressure, vm_stat, mem_size, swap_usage, Runner, panicked, sample, parse_size,
}
use commit_ci_preflight.Resource.Thread.{Round, spawn, run_thread, stop_and_join}
use commit_ci_preflight.Resource.Thread.Laws.{IsConsistent, run_thread-IsConsistent}

abbrev gib : ℕ
gib = 1024 * 1024 * 1024

abbrev healthy : ResourceSnapshot
healthy = record {
  available_percent = 60;
  reclaimable_uncompressed_bytes = 8 * gib;
  compressor_occupied_bytes = gib;
  total_memory_bytes = 16 * gib;
  swap_used_bytes = 0;
  swap_total_bytes = 8 * gib;
}

-- Two soft signals: little memory, and much swap in use.
abbrev strained : ResourceSnapshot
strained = record healthy { available_percent = 9; swap_used_bytes = 5 * gib }

abbrev fifteen : List ResourceSnapshot
fifteen =
    strained ∷ strained ∷ strained ∷ strained ∷ strained ∷ strained ∷ strained ∷ strained ∷ strained
    ∷ strained ∷ strained ∷ strained ∷ strained ∷ strained ∷ strained ∷ []

history_valid : AreValid (fifteen ++ healthy ∷ [])
unfolding commit_ci_preflight.Resource.Snapshot.is_contradictory
history_valid = (
  refl,
  (
    refl,
    (
      refl,
      (
        refl,
        (
          refl,
          (
            refl,
            (refl, (refl, (refl, (refl, (refl, (refl, (refl, (refl, (refl, (refl, tt)))))))))),
          ),
        ),
      ),
    ),
  ),
)

fifteen_strained : AreStrained fifteen
unfolding commit_ci_preflight.Resource.Watchdog.soft_signals
fifteen_strained = (
  refl,
  (
    refl,
    (
      refl,
      (
        refl,
        (refl, (refl, (refl, (refl, (refl, (refl, (refl, (refl, (refl, (refl, (refl, tt))))))))))),
      ),
    ),
  ),
)

verdict-fifteen : verdict (fifteen ++ healthy ∷ []) ≡ some soft_pressure
unfolding verdict commit_ci_preflight.Resource.Watchdog.is_hard
    commit_ci_preflight.Resource.Watchdog.History.soft_run
    commit_ci_preflight.Resource.Watchdog.History.is_soft
    commit_ci_preflight.Resource.Watchdog.soft_signals
    commit_ci_preflight.Resource.Watchdog.History.is_swap_growing
verdict-fifteen = refl

observe_all-verdict_example :
    (observe_all (fifteen ++ healthy ∷ [])).first_trip ≡ verdict (fifteen ++ healthy ∷ [])
observe_all-verdict_example = observe_all-verdict (fifteen ++ healthy ∷ []) history_valid

observe_all-trips_example : (observe_all (fifteen ++ healthy ∷ [])).first_trip ≢ none
observe_all-trips_example =
    observe_all-trips fifteen (healthy ∷ []) history_valid fifteen_strained (omega arith)

observe-admitted_example : (observe default healthy).1 ≡ ok continue
unfolding evaluate_pre_start
observe-admitted_example = observe-admitted default healthy refl refl (omega arith)

-- The output of a host of 16 GiB.
abbrev host : Runner
host memory_pressure = ok (chars "System-wide memory free percentage: 60%\n")
host vm_stat = ok (
    chars
      "Mach Virtual Memory Statistics: (page size of 16384 bytes)\nPages free: 1000.\nPages speculative: 10.\nPages inactive: 300000.\nPages occupied by compressor: 5.\n")
host mem_size = ok (chars "17179869184\n")
host swap_usage =
    ok (chars "vm.swapusage: total = 2048.00M  used = 512.50M  free = 1535.50M  (encrypted)\n")

sample-host :
    sample host
    ≡ ok (record {
      available_percent = 60;
      reclaimable_uncompressed_bytes = 301010 * 16384;
      compressor_occupied_bytes = 5 * 16384;
      total_memory_bytes = 17179869184;
      swap_used_bytes = 537395200;
      swap_total_bytes = 2048 * 1024 * 1024;
    })
unfolding sample
sample-host = refl

-- A last character that is not ASCII.
parse_size_panics : parse_size (49 ∷ 46 ∷ 48 ∷ 233 ∷ []) ≡ err panicked
unfolding parse_size
parse_size_panics = refl

abbrev broken : Runner
broken command = err command_failed

abbrev round_of : Runner → Round
round_of run = record {
  stopped_before = false;
  stopped_after_pause = false;
  cancelled_by_user = false;
  run = run;
}

abbrev rounds : List Round
rounds = round_of host ∷ round_of broken ∷ round_of host ∷ []

joined_rounds :
    stop_and_join (run_thread (spawn (some (new healthy))) rounds)
    ≡ ok (some WatchdogTripReason.probe_failure)
unfolding run_thread spawn stop_and_join new
joined_rounds = refl

run_thread-IsConsistent_example : IsConsistent (run_thread (spawn (some (new healthy))) rounds)
run_thread-IsConsistent_example = run_thread-IsConsistent (some (new healthy)) rounds
