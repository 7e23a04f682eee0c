-- ===== src/Resource/Watchdog/Window.antt =====
-- The deque of the watchdog of src/resource.rs holds the swap of the newest sixteen samples.
use commit_ci_preflight.Prelude.{
  ℕ, zero, suc, ◌-◌, ◌≤◌, ◌<◌, ◌≡◌, refl, sym, ◌∙◌, false, leb, none, some, List, [], ◌∷◌, ◌++◌,
  arith, length, length-append, drop, get_elem?, Option-cases, inl, inr,
}
use native.Mathlib.Decide.{dec_lt}
use commit_ci_preflight.Resource.Snapshot.{ResourceSnapshot, soft_swap_growth_bytes}
use commit_ci_preflight.Resource.Watchdog.{push_sample, swap_growth}
use commit_ci_preflight.Resource.Watchdog.History.{is_swap_growing}

-- The swap of the newest `n` samples, the oldest of them first.
unfoldable pub newest : ℕ → List ResourceSnapshot → List ℕ
newest zero h = []
newest (suc n) [] = []
newest (suc n) (s ∷ older) = newest n older ++ s.swap_used_bytes ∷ []

length-newest :
    (n : ℕ) (h : List ResourceSnapshot)
    → (n ≤ length h → length (newest n h) ≡ n) × (length h ≤ n → length (newest n h) ≡ length h)
unfolding newest
length-newest zero [] = (λ _. refl, λ _. refl)
length-newest zero (s ∷ older) = (λ _. refl, λ k. absurd (omega arith))
length-newest (suc n) [] = (λ k. absurd (omega arith), λ _. refl)
length-newest (suc n) (s ∷ older) =
    let joined = length-append (newest n older) (s.swap_used_bytes ∷ []) in
    (
      (λ k. omega (arith, joined, (length-newest n older).0 (omega arith))),
      (λ k. omega (arith, joined, (length-newest n older).1 (omega arith))),
    )

drop-append : (xs ys : List ℕ) → 0 < length xs → drop 1 (xs ++ ys) ≡ drop 1 xs ++ ys
drop-append [] ys h = absurd (omega arith)
drop-append (x ∷ xs) ys h = refl

drop-newest :
    (n : ℕ) (h : List ResourceSnapshot) → n < length h → drop 1 (newest (suc n) h) ≡ newest n h
unfolding newest
drop-newest n [] k = absurd (omega arith)
drop-newest zero (s ∷ older) k = refl
drop-newest (suc n) (s ∷ older) k =
    rw
      (drop-append (newest (suc n) older) (s.swap_used_bytes ∷ [])
        (omega (arith, (length-newest (suc n) older).0 (omega arith))))
      (rw (drop-newest n older (omega arith)))

newest-short : (n : ℕ) (h : List ResourceSnapshot) → length h ≤ n → newest (suc n) h ≡ newest n h
unfolding newest
newest-short zero [] k = refl
newest-short zero (s ∷ older) k = absurd (omega arith)
newest-short (suc n) [] k = refl
newest-short (suc n) (s ∷ older) k = rw (newest-short n older (omega arith))

newest-step :
    (n : ℕ) (s : ResourceSnapshot) (older : List ResourceSnapshot)
    → newest (suc n) (s ∷ older) ≡ newest n older ++ s.swap_used_bytes ∷ []
unfolding newest
newest-step n s older = refl

push_sample-room :
    (window : List ℕ) (sample : ℕ)
    → length window < 16
    → push_sample window sample ≡ window ++ sample ∷ []
unfolding push_sample
push_sample-room window sample k = ground (arith, length-append window (sample ∷ []))

push_sample-full :
    (window : List ℕ) (sample : ℕ)
    → length window ≡ 16
    → push_sample window sample ≡ drop 1 window ++ sample ∷ []
unfolding push_sample
push_sample-full window sample k =
    ground
      (arith, length-append window (sample ∷ []), drop-append window (sample ∷ []) (omega arith))

-- A new sample takes the place of the seventeenth newest.
pub push_sample-newest :
    (s : ResourceSnapshot) (older : List ResourceSnapshot)
    → push_sample (newest 16 older) s.swap_used_bytes ≡ newest 16 (s ∷ older)
push_sample-newest s older = elim (dec_lt (length older) 16) [
  | yes few ↦
      push_sample-room (newest 16 older) s.swap_used_bytes
        (omega (arith, (length-newest 16 older).1 (omega arith)))
      ∙ rw (newest-short 15 older (omega arith)) (sym (newest-step 15 s older))
  | no many ↦
      push_sample-full (newest 16 older) s.swap_used_bytes
        ((length-newest 16 older).0 (omega arith))
      ∙ rw (drop-newest 15 older (omega arith)) (sym (newest-step 15 s older))
]

get-bound : (n : ℕ) (h : List ResourceSnapshot) → get_elem? h n ≡ none → length h ≤ n
get-bound n [] e = omega arith
get-bound zero (s ∷ older) e = absurd (cc)
get-bound (suc n) (s ∷ older) e = omega (arith, get-bound n older e)

-- The front of a full window is the sample that entered it first.
newest-front :
    (n : ℕ) (h : List ResourceSnapshot) (o : ResourceSnapshot)
    → get_elem? h n ≡ some o
    → (rest : List ℕ) × (newest (suc n) h ≡ o.swap_used_bytes ∷ rest) × (length rest ≡ n)
unfolding newest
newest-front n [] o e = absurd (cc)
newest-front zero (s ∷ older) o e = ([], ground arith, refl)
newest-front (suc n) (s ∷ older) o e =
    let (rest, front, long) = newest-front n older o e in
    (
      rest ++ s.swap_used_bytes ∷ [],
      (rw front),
      omega (arith, length-append rest (s.swap_used_bytes ∷ [])),
    )

swap_growth-short :
    (window : List ℕ) (sample : ℕ) → length window < 16 → swap_growth window sample ≡ false
unfolding swap_growth
swap_growth-short window sample k = ground arith

swap_growth-front :
    (front : ℕ) (rest : List ℕ) (sample : ℕ)
    → length rest ≡ 15
    → swap_growth (front ∷ rest) sample ≡ leb soft_swap_growth_bytes (sample - front)
unfolding swap_growth
swap_growth-front front rest sample k = ground arith

-- The test on the window is the one on the history.
pub swap_growth-newest :
    (s : ResourceSnapshot) (older : List ResourceSnapshot)
    → swap_growth (newest 16 (s ∷ older)) s.swap_used_bytes ≡ is_swap_growing s older
unfolding is_swap_growing
swap_growth-newest s older = elim (Option-cases (get_elem? older 14)) [
  | inl short ↦ rw short (
      swap_growth-short (newest 16 (s ∷ older)) s.swap_used_bytes (
        omega (
          arith,
          get-bound 14 older short,
          (length-newest 16 (s ∷ older)).1 (omega (arith, get-bound 14 older short)),
        )))
  | inr (o, found) ↦
      let (rest, front, long) = newest-front 15 (s ∷ older) o found in
      rw (found, front) (swap_growth-front o.swap_used_bytes rest s.swap_used_bytes long)
]
