-- ===== src/Journal/Names.antt =====
-- The file names of the entries of src/run_journal.rs ascend with their numbers.
use Prim.Native.Char.{Char, code}
use Prim.Native.String.{[], ◌∷◌}
use Prim.Native.String
use commit_ci_preflight.Prelude.{
  ℕ, zero, suc, ◌+◌, ◌<◌, ◌≡◌, refl, ◌∙◌, true, false, String as Text, arith, eq_iff, str_eq,
}
use commit_ci_preflight.Ordered.Order.{str_lt, str_lt-ne}
use commit_ci_preflight.Canonical.Digest.{char_at}
use commit_ci_preflight.Journal.Data.{RunJournalStateV1, state_name}
use commit_ci_preflight.Journal.Reading.{
  entry_name, padded, run_marker, resources_dir, source_binding,
}

zeros : ℕ → Text → Text
zeros zero s = s
zeros (suc n) s = "0" ∷ zeros n s

digit : ℕ → Char
digit n = char_at "0123456789" n

tail : RunJournalStateV1 → Text
tail state = String.◌++◌ "-" (String.◌++◌ (state_name state) ".json")

entry_name_small :
    (n : ℕ) (state : RunJournalStateV1)
    → n < 8
    → entry_name n state ≡ zeros 19 (digit n ∷ tail state)
unfolding entry_name padded digit tail zeros
entry_name_small zero state h = refl
entry_name_small (suc zero) state h = refl
entry_name_small (suc (suc zero)) state h = refl
entry_name_small (suc (suc (suc zero))) state h = refl
entry_name_small (suc (suc (suc (suc zero)))) state h = refl
entry_name_small (suc (suc (suc (suc (suc zero))))) state h = refl
entry_name_small (suc (suc (suc (suc (suc (suc zero)))))) state h = refl
entry_name_small (suc (suc (suc (suc (suc (suc (suc zero))))))) state h = refl
entry_name_small (suc (suc (suc (suc (suc (suc (suc (suc n)))))))) state h = absurd (omega arith)

code-digit : (n : ℕ) → n < 8 → code (digit n) ≡ 48 + n
unfolding digit
code-digit zero h = refl
code-digit (suc zero) h = refl
code-digit (suc (suc zero)) h = refl
code-digit (suc (suc (suc zero))) h = refl
code-digit (suc (suc (suc (suc zero)))) h = refl
code-digit (suc (suc (suc (suc (suc zero))))) h = refl
code-digit (suc (suc (suc (suc (suc (suc zero)))))) h = refl
code-digit (suc (suc (suc (suc (suc (suc (suc zero))))))) h = refl
code-digit (suc (suc (suc (suc (suc (suc (suc (suc n)))))))) h = absurd (omega arith)

str_lt-zeros : (n : ℕ) (s t : Text) → str_lt (zeros n s) (zeros n t) ≡ str_lt s t
unfolding str_lt zeros
str_lt-zeros zero s t = refl
str_lt-zeros (suc n) s t = ground (arith, str_lt-zeros n s t)

str_lt-digit : (m n : ℕ) (s t : Text) → m < n → n < 8 → str_lt (digit m ∷ s) (digit n ∷ t) ≡ true
unfolding str_lt
str_lt-digit m n s t h k = ground (arith, code-digit m, code-digit n)

pub str_lt-entry_name :
    (m n : ℕ) (before after : RunJournalStateV1)
    → m < n
    → n < 8
    → str_lt (entry_name m before) (entry_name n after) ≡ true
str_lt-entry_name m n before after h k =
    rw (entry_name_small m before (omega arith), entry_name_small n after k)
      (str_lt-zeros 19 (digit m ∷ tail before) (digit n ∷ tail after)
        ∙ str_lt-digit m n (tail before) (tail after) h k)

str_lt-ne_sym : (s t : Text) → str_lt s t ≡ true → str_eq t s ≡ false
str_lt-ne_sym s t h = ground (arith, str_lt-ne s t h, eq_iff s t, eq_iff t s)

-- None of them is one of the other names that the journal uses.
module _ (n : ℕ) (state : RunJournalStateV1) (h : n < 8) where
  pub entry_name-ne-run_marker : str_eq (entry_name n state) run_marker ≡ false
  unfolding str_lt zeros
  entry_name-ne-run_marker = rw (entry_name_small n state h) (str_lt-ne_sym run_marker _ refl)

  pub entry_name-ne-resources_dir : str_eq (entry_name n state) resources_dir ≡ false
  unfolding str_lt zeros
  entry_name-ne-resources_dir = rw (entry_name_small n state h) (str_lt-ne _ resources_dir refl)

  pub entry_name-ne-source_binding : str_eq (entry_name n state) source_binding ≡ false
  unfolding str_lt zeros
  entry_name-ne-source_binding = rw (entry_name_small n state h) (str_lt-ne _ source_binding refl)
