-- ===== src/Resource/Sample.antt =====
-- `parse_swap_usage`, `parse_size` and `ResourceProbe::sample` of src/resource.rs.
pub mod Laws
use commit_ci_preflight.Prelude.{
  ℕ, ◌+◌, ◌-◌, ◌*◌, ◌/◌, ◌^◌, Bool, true, false, not, ◌&&◌, ◌||◌, Option, none, some, List, [], ◌∷◌,
  ltb, leb, ◌==◌, if◌then◌else◌, length, is_empty, get_elem?,
}
use mathlib.Core.List.{reverse}
use commit_ci_preflight.Outcome.{Outcome, ok, err, ◌>>=◌, ◌>>◌, reject, ok_or, map_err}
use commit_ci_preflight.Text.{chars}
use commit_ci_preflight.Text.Codes.{
  from_utf8, codes_eq, strip_prefix_codes, split_once, split_whitespace, all_digits, parse_unsigned,
}
use commit_ci_preflight.Resource.Snapshot.{
  ResourceSnapshot, ResourceProbeError, malformed_output, contradictory_snapshot, overflow, Probed,
  validate,
}
use commit_ci_preflight.Resource.Probe.{
  u64_values, u128_values, checked, VmStat, parse_memory_pressure, parse_vm_stat, parse_memsize,
  pages_to_bytes,
}

pub data ResourceCommand : Type 0 where
  memory_pressure vm_stat mem_size swap_usage : ResourceCommand

-- How a sample ends without a snapshot: with an error, or with a panic of the thread.
pub data Stopped : Type 0 where
  failed : ResourceProbeError → Stopped
  panicked : Stopped

abbrev pub Sampled {ℓ} : Type ℓ → Type ℓ
Sampled A = Outcome Stopped A

abbrev pub lift {ℓ} : {A : Type ℓ} → Probed A → Sampled A
lift m = map_err failed m

abbrev pub malformed : Stopped
malformed = failed malformed_output

abbrev multiplier_of : ℕ → Option ℕ
multiplier_of unit =
    if unit == b'B'
    then some 1
    else if unit == b'K'
    then some (2 ^ 10)
    else if unit == b'M'
    then some (2 ^ 20)
    else if unit == b'G'
    then some (2 ^ 30)
    else if unit == b'T'
    then some (2 ^ 40)
    else none

-- `10_u128.pow(fraction.len())`; the fraction has one or two digits.
abbrev scale_of : List ℕ → ℕ
scale_of fraction = 10 ^ length fraction

abbrev is_number : List ℕ → List ℕ → Bool
is_number whole fraction =
    not (is_empty whole || is_empty fraction || ltb 2 (length fraction))
    && all_digits whole
    && all_digits fraction

-- The last lines of `parse_size`.
unfoldable pub scaled_bytes : (multiplier : ℕ) → List ℕ → List ℕ → Sampled ℕ
unfolding parse_unsigned
scaled_bytes multiplier whole fraction = do
  let scale = scale_of fraction
  units ← ok_or (parse_unsigned u64_values whole) malformed
  scaled ← ok_or (checked u128_values (units * scale)) (failed overflow)
  hundredths ← ok_or (parse_unsigned u64_values fraction) (failed overflow)
  numerator ← ok_or (checked u128_values (scaled + hundredths)) (failed overflow)
  product ← ok_or (checked u128_values (numerator * multiplier)) (failed overflow)
  ok_or (checked u64_values (product / scale)) (failed overflow)

-- The part after `split_at`, with the number reversed. The last byte is no character of its own,
-- and `split_at` panics, where the last character is not ASCII.
unfoldable pub parse_size_reversed : List ℕ → Sampled ℕ
unfolding split_once scaled_bytes
parse_size_reversed [] = err malformed
parse_size_reversed (unit ∷ reversed) = if leb 128 unit then err panicked else (do
  multiplier ← ok_or (multiplier_of unit) malformed
  (whole, fraction) ← ok_or (split_once b'.' (reverse reversed)) malformed
  reject (not (is_number whole fraction)) malformed
  scaled_bytes multiplier whole fraction)

unfoldable pub parse_size : List ℕ → Sampled ℕ
unfolding parse_size_reversed
parse_size value = parse_size_reversed (reverse value)

-- `tokens[index]`, in range wherever it is used.
abbrev token : List (List ℕ) → ℕ → List ℕ
token tokens index = elim (get_elem? tokens index) [ none ↦ [] | some word ↦ word ]

unfoldable pub has_swap_shape : List (List ℕ) → Bool
unfolding codes_eq
has_swap_shape tokens =
    codes_eq (token tokens 0) (chars "total")
    && codes_eq (token tokens 1) (chars "=")
    && codes_eq (token tokens 3) (chars "used")
    && codes_eq (token tokens 4) (chars "=")
    && codes_eq (token tokens 6) (chars "free")
    && codes_eq (token tokens 7) (chars "=")
    && (not (length tokens == 10) || codes_eq (token tokens 9) (chars "(encrypted)"))

-- `u8::is_ascii_whitespace` of the first byte.
abbrev starts_with_space : List ℕ → Bool
starts_with_space [] = false
starts_with_space (c ∷ s) = c == 32 || c == 9 || c == 10 || c == 12 || c == 13

abbrev filter_option {ℓ} : {A : Type ℓ} → (A → Bool) → Option A → Option A
filter_option test none = none
filter_option test (some a) = if test a then some a else none

abbrev abs_diff : ℕ → ℕ → ℕ
abs_diff a b = if ltb a b then b - a else a - b

unfoldable pub swap_of_tokens : List (List ℕ) → Sampled (ℕ × ℕ)
unfolding has_swap_shape parse_size
swap_of_tokens tokens = do
  reject (not (length tokens == 9) && not (length tokens == 10)) malformed
  reject (not (has_swap_shape tokens)) malformed
  total ← parse_size (token tokens 2)
  used ← parse_size (token tokens 5)
  free ← parse_size (token tokens 8)
  sum ← ok_or (checked u64_values (used + free)) (failed overflow)
  reject (ltb 1 (abs_diff sum total)) (failed contradictory_snapshot)
  ok (total, used)

unfoldable pub parse_swap_usage : List ℕ → Sampled (ℕ × ℕ)
unfolding from_utf8 strip_prefix_codes split_whitespace swap_of_tokens
parse_swap_usage input = do
  text ← ok_or (from_utf8 input) malformed
  rest ←
      ok_or (filter_option starts_with_space (strip_prefix_codes (chars "vm.swapusage:") text))
        malformed
  swap_of_tokens (split_whitespace rest)

-- `ResourceCommandRunner::run`: the bytes that a command printed.
abbrev pub Runner : Type 0
Runner = ResourceCommand → Probed (List ℕ)

unfoldable pub reclaimable_pages : VmStat → Option ℕ
reclaimable_pages stat = elim (checked u64_values (stat.free_pages + stat.speculative_pages)) [
  | none ↦ none
  | some pages ↦ checked u64_values (pages + stat.inactive_pages)
]

unfoldable pub snapshot_of : (available total : ℕ) → ℕ × ℕ → VmStat → Probed ResourceSnapshot
unfolding reclaimable_pages pages_to_bytes validate
snapshot_of available total (swap_total, swap_used) stat = do
  pages ← ok_or (reclaimable_pages stat) overflow
  reclaimable ← pages_to_bytes pages stat.page_size
  compressor ← pages_to_bytes stat.compressor_pages stat.page_size
  let snapshot : ResourceSnapshot = record {
    available_percent = available;
    reclaimable_uncompressed_bytes = reclaimable;
    compressor_occupied_bytes = compressor;
    total_memory_bytes = total;
    swap_used_bytes = swap_used;
    swap_total_bytes = swap_total;
  }
  validate snapshot
  ok snapshot

unfoldable pub sample : Runner → Sampled ResourceSnapshot
unfolding parse_memory_pressure parse_vm_stat parse_memsize parse_swap_usage snapshot_of
sample run = do
  memory_pressure_output ← lift (run memory_pressure)
  vm_stat_output ← lift (run vm_stat)
  memsize_output ← lift (run mem_size)
  swap_usage_output ← lift (run swap_usage)
  available ← lift (parse_memory_pressure memory_pressure_output)
  stat ← lift (parse_vm_stat vm_stat_output)
  total ← lift (parse_memsize memsize_output)
  swap ← parse_swap_usage swap_usage_output
  lift (snapshot_of available total swap stat)
