-- ===== src/Resource/Probe.antt =====
-- The probe of src/resource.rs: the parsers of three of its commands. Text is a list of
-- code points.
use commit_ci_preflight.Prelude.{
  ℕ, ◌*◌, ◌^◌, Bool, true, false, not, ◌||◌, Option, none, some, List, [], ◌∷◌, ltb, ◌==◌,
  if◌then◌else◌, is_empty,
}
use commit_ci_preflight.Outcome.{ok, err, ◌>>=◌, ◌>>◌, reject, ok_or}
use commit_ci_preflight.Text.{chars}
use commit_ci_preflight.Text.Codes.{
  from_utf8, codes_eq, strip_prefix_codes, strip_suffix_codes, lines, trim, split_once, all_digits,
  parse_unsigned,
}
use commit_ci_preflight.Resource.Snapshot.{malformed_output, overflow, Probed, max_percent}

abbrev pub u8_values : ℕ
u8_values = 2 ^ 8

abbrev pub u64_values : ℕ
u64_values = 2 ^ 64

abbrev pub u128_values : ℕ
u128_values = 2 ^ 128

-- A result of `checked_add`, `checked_mul` or `try_from` of the exact value.
abbrev pub checked : ℕ → ℕ → Option ℕ
checked values n = if ltb n values then some n else none

abbrev pub present {ℓ} : {A : Type ℓ} → Option A → Bool
present none = false
present (some a) = true

unfoldable pub pages_to_bytes : ℕ → ℕ → Probed ℕ
pages_to_bytes pages page_size = ok_or (checked u64_values (pages * page_size)) overflow

percent_of_value : Option ℕ → List ℕ → Probed (Option ℕ)
unfolding trim strip_suffix_codes parse_unsigned
percent_of_value found value = do
  reject (present found) malformed_output
  digits ← ok_or (strip_suffix_codes (b'%' ∷ []) (trim value)) malformed_output
  percent ← ok_or (parse_unsigned u8_values digits) malformed_output
  reject (ltb max_percent percent) malformed_output
  ok (some percent)

-- The body of the loop of `parse_memory_pressure`.
pressure_line : Option ℕ → List ℕ → Probed (Option ℕ)
unfolding strip_prefix_codes percent_of_value
pressure_line found line =
    elim (strip_prefix_codes (chars "System-wide memory free percentage:") line) [
      | none ↦ ok found
      | some value ↦ percent_of_value found value
    ]

pressure_lines : Option ℕ → List (List ℕ) → Probed (Option ℕ)
unfolding pressure_line
pressure_lines found [] = ok found
pressure_lines found (line ∷ rest) = do next ← pressure_line found line; pressure_lines next rest

unfoldable pub parse_memory_pressure : List ℕ → Probed ℕ
unfolding from_utf8 lines pressure_lines
parse_memory_pressure input = do
  text ← ok_or (from_utf8 input) malformed_output
  found ← pressure_lines none (lines text)
  ok_or found malformed_output

unfoldable pub parse_page_count : List ℕ → Probed ℕ
unfolding strip_suffix_codes parse_unsigned
parse_page_count value = do
  digits ← ok_or (strip_suffix_codes (b'.' ∷ []) value) malformed_output
  reject (is_empty digits || not (all_digits digits)) malformed_output
  ok_or (parse_unsigned u64_values digits) malformed_output

pub record Slots : Type 0 where
  pub free : Option ℕ
  pub speculative : Option ℕ
  pub inactive : Option ℕ
  pub compressor : Option ℕ

pub data Slot : Type 0 where
  free speculative inactive compressor : Slot

-- The key of a line, and the variable that it names.
unfoldable pub slot_of : List ℕ → Option Slot
unfolding codes_eq
slot_of key =
    if codes_eq key (chars "Pages free")
    then some Slot.free
    else if codes_eq key (chars "Pages speculative")
    then some Slot.speculative
    else if codes_eq key (chars "Pages inactive")
    then some Slot.inactive
    else if codes_eq key (chars "Pages occupied by compressor")
    then some Slot.compressor
    else none

abbrev read_slot : Slot → Slots → Option ℕ
read_slot Slot.free slots = slots.free
read_slot Slot.speculative slots = slots.speculative
read_slot Slot.inactive slots = slots.inactive
read_slot Slot.compressor slots = slots.compressor

abbrev write_slot : Slot → ℕ → Slots → Slots
write_slot Slot.free n slots = record slots { free = some n }
write_slot Slot.speculative n slots = record slots { speculative = some n }
write_slot Slot.inactive n slots = record slots { inactive = some n }
write_slot Slot.compressor n slots = record slots { compressor = some n }

fill_slot : Slots → Option Slot → List ℕ → Probed Slots
unfolding trim parse_page_count
fill_slot slots none value = ok slots
fill_slot slots (some slot) value = do
  reject (present (read_slot slot slots)) malformed_output
  count ← parse_page_count (trim value)
  ok (write_slot slot count slots)

-- The body of the loop of `parse_vm_stat`.
vm_stat_line : Slots → List ℕ → Probed Slots
unfolding split_once slot_of fill_slot
vm_stat_line slots line = elim (split_once b':' line) [
  | none ↦ ok slots
  | some (key, value) ↦ fill_slot slots (slot_of key) value
]

vm_stat_lines : Slots → List (List ℕ) → Probed Slots
unfolding vm_stat_line
vm_stat_lines slots [] = ok slots
vm_stat_lines slots (line ∷ rest) = do next ← vm_stat_line slots line; vm_stat_lines next rest

abbrev or_else {ℓ} : {A : Type ℓ} → Option A → Option A → Option A
or_else none other = other
or_else (some a) other = some a

abbrev and_then {ℓ κ} : {A : Type ℓ} {B : Type κ} → Option A → (A → Option B) → Option B
and_then none next = none
and_then (some a) next = next a

unfoldable pub parse_page_size : List ℕ → Option ℕ
unfolding strip_prefix_codes strip_suffix_codes parse_unsigned
parse_page_size header =
    and_then
      (and_then
        (or_else
          (strip_prefix_codes (chars "Mach Virtual Memory Statistics: (page size of ") header)
          (strip_prefix_codes (chars "Mach Virtual Memory Statistics: (page size: ") header))
        (strip_suffix_codes (chars " bytes)")))
      (parse_unsigned u64_values)

pub record VmStat : Type 0 where
  pub page_size : ℕ
  pub free_pages : ℕ
  pub speculative_pages : ℕ
  pub inactive_pages : ℕ
  pub compressor_pages : ℕ

vm_stat_of_lines : List (List ℕ) → Probed VmStat
unfolding parse_page_size vm_stat_lines
vm_stat_of_lines [] = err malformed_output
vm_stat_of_lines (header ∷ rest) = do
  page_size ← ok_or (parse_page_size header) malformed_output
  reject (page_size == 0) malformed_output
  slots ←
      vm_stat_lines (record { free = none; speculative = none; inactive = none; compressor = none })
        rest
  free_pages ← ok_or slots.free malformed_output
  speculative_pages ← ok_or slots.speculative malformed_output
  inactive_pages ← ok_or slots.inactive malformed_output
  compressor_pages ← ok_or slots.compressor malformed_output
  ok (record {
    page_size = page_size;
    free_pages = free_pages;
    speculative_pages = speculative_pages;
    inactive_pages = inactive_pages;
    compressor_pages = compressor_pages;
  })

unfoldable pub parse_vm_stat : List ℕ → Probed VmStat
unfolding from_utf8 lines vm_stat_of_lines
parse_vm_stat input = do
  text ← ok_or (from_utf8 input) malformed_output
  vm_stat_of_lines (lines text)

unfoldable pub parse_memsize : List ℕ → Probed ℕ
unfolding from_utf8 trim parse_unsigned
parse_memsize input = do
  text ← ok_or (from_utf8 input) malformed_output
  let digits = trim text
  reject (is_empty digits || not (all_digits digits)) malformed_output
  value ← ok_or (parse_unsigned u64_values digits) malformed_output
  reject (value == 0) malformed_output
  ok value
