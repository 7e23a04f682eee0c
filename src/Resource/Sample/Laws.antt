-- ===== src/Resource/Sample/Laws.antt =====
-- A sample of src/resource.rs is a snapshot that is not contradictory.
use commit_ci_preflight.Prelude.{◌≡◌, false, ℕ, arith}
use commit_ci_preflight.Outcome.{ok, >>=-eq-ok, map_err-eq-ok}
use commit_ci_preflight.Resource.Snapshot.{ResourceSnapshot, is_contradictory, validate}
use commit_ci_preflight.Resource.Probe.{VmStat, parse_memory_pressure, parse_vm_stat, parse_memsize}
use commit_ci_preflight.Resource.Sample.{
  Runner, memory_pressure, vm_stat, mem_size, swap_usage, failed, lift, sample, snapshot_of,
  parse_swap_usage,
}

snapshot_of-valid :
    (available total : ℕ) (swap : ℕ × ℕ) (stat : VmStat) {s : ResourceSnapshot}
    → snapshot_of available total swap stat ≡ ok s
    → is_contradictory s ≡ false
unfolding snapshot_of validate
snapshot_of-valid available total (swap_total, swap_used) stat {s} h = ground arith

pub sample-valid :
    (run : Runner) {s : ResourceSnapshot} → sample run ≡ ok s → is_contradictory s ≡ false
unfolding sample
sample-valid run {s} h =
    let (o1, _, h1) = >>=-eq-ok (lift (run memory_pressure)) _ h in
    let (o2, _, h2) = >>=-eq-ok (lift (run vm_stat)) _ h1 in
    let (o3, _, h3) = >>=-eq-ok (lift (run mem_size)) _ h2 in
    let (o4, _, h4) = >>=-eq-ok (lift (run swap_usage)) _ h3 in
    let (available, _, h5) = >>=-eq-ok (lift (parse_memory_pressure o1)) _ h4 in
    let (stat, _, h6) = >>=-eq-ok (lift (parse_vm_stat o2)) _ h5 in
    let (total, _, h7) = >>=-eq-ok (lift (parse_memsize o3)) _ h6 in
    let (swap, _, h8) = >>=-eq-ok (parse_swap_usage o4) _ h7 in
    snapshot_of-valid available total swap stat
      (map_err-eq-ok failed (snapshot_of available total swap stat) h8)
