-- ===== src/Ordered/Order.antt =====
-- The order of Rust's `String` (of its UTF-8 bytes, which is that of its code points).
use Prim.Native.Char.{code}
use Prim.Native.String.{[], ◌∷◌}
use text.Mathlib.TextEquality.{Char-path}
use commit_ci_preflight.Prelude.{
  String, Bool, true, false, ◌≡◌, refl, arith, ltb, if◌then◌else◌, str_eq, eq_iff,
}
use mathlib.Core.Path.{ap₂}

unfoldable pub str_lt : String → String → Bool
str_lt [] [] = false
str_lt [] (d ∷ t) = true
str_lt (c ∷ s) [] = false
str_lt (c ∷ s) (d ∷ t) =
    if ltb (code c) (code d) then true else if ltb (code d) (code c) then false else str_lt s t

pub str_lt_irrefl : (s : String) → str_lt s s ≡ false
unfolding str_lt
str_lt_irrefl [] = refl
str_lt_irrefl (c ∷ s) = ground (arith, str_lt_irrefl s)

pub str_lt_trans : (s t u : String) → str_lt s t ≡ true → str_lt t u ≡ true → str_lt s u ≡ true
unfolding str_lt
str_lt_trans [] [] u h k = cc
str_lt_trans [] (d ∷ t) [] h k = cc
str_lt_trans [] (d ∷ t) (e ∷ u) h k = refl
str_lt_trans (c ∷ s) [] u h k = cc
str_lt_trans (c ∷ s) (d ∷ t) [] h k = cc
str_lt_trans (c ∷ s) (d ∷ t) (e ∷ u) h k = ground (arith, str_lt_trans s t u)

pub str_lt_total : (s t : String) → str_lt s t ≡ false → str_lt t s ≡ false → s ≡ t
unfolding str_lt
str_lt_total [] [] h k = refl
str_lt_total [] (d ∷ t) h k = cc
str_lt_total (c ∷ s) [] h k = cc
str_lt_total (c ∷ s) (d ∷ t) h k =
    ap₂ ◌∷◌ (Char-path c d (ground arith)) (str_lt_total s t (ground arith) (ground arith))

pub str_lt_asym : (s t : String) → str_lt s t ≡ true → str_lt t s ≡ false
str_lt_asym s t h = ground (arith, str_lt_irrefl s, str_lt_trans s t s h)

pub str_lt-ne : (s t : String) → str_lt s t ≡ true → str_eq s t ≡ false
str_lt-ne s t h = ground (arith, eq_iff s t, str_lt_irrefl s)
