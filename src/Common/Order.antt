-- ===== src/Common/Order.antt =====
-- The order of texts by their code points, which is that of their UTF-8 bytes.

use Prim.Native.String.{String}
use Prim.Native.Char.{code}
use Prim.Native.Nat.{ℕ}
use mathlib.Core.Path.{◌≡◌, refl, sym}
use mathlib.Core.Logic.{inl, inr}
use mathlib.Core.Bool.{Bool, true, false, ◌&&◌, ◌||◌}
use mathlib.Core.List.{List, [], ◌∷◌}
use text.Mathlib.TextEquality.{Char-path, eq_iff}
use text.Mathlib.Text.{◌==◌ as str_eq}
use native.Mathlib.Omega.{arith}
use nuncio.Common.Tests.{ltb, ◌==◌, Bool-cases}
use nuncio.Common.Text.{codes}

pub codes_lt : List ℕ → List ℕ → Bool
codes_lt [] [] = false
codes_lt [] (b ∷ bs) = true
codes_lt (a ∷ as') [] = false
codes_lt (a ∷ as') (b ∷ bs) = ltb a b || (a == b && codes_lt as' bs)

unfoldable pub str_lt : String → String → Bool
unfolding codes_lt
str_lt s t = codes_lt (codes s) (codes t)

codes_lt_irrefl : (a : List ℕ) → codes_lt a a ≡ false
unfolding codes_lt
codes_lt_irrefl [] = refl
codes_lt_irrefl (n ∷ a) = let rest = codes_lt_irrefl a in ground arith

codes_lt_trans : (a b c : List ℕ) → codes_lt a b ≡ true → codes_lt b c ≡ true → codes_lt a c ≡ true
unfolding codes_lt
codes_lt_trans [] [] c h k = cc h
codes_lt_trans [] (y ∷ b) [] h k = cc k
codes_lt_trans [] (y ∷ b) (z ∷ c) h k = refl
codes_lt_trans (x ∷ a) [] c h k = cc h
codes_lt_trans (x ∷ a) (y ∷ b) [] h k = cc k
codes_lt_trans (x ∷ a) (y ∷ b) (z ∷ c) h k = let rest = codes_lt_trans a b c in ground arith

codes_lt_total : (a b : List ℕ) → codes_lt a b ≡ false → codes_lt b a ≡ false → a ≡ b
unfolding codes_lt
codes_lt_total [] [] h k = refl
codes_lt_total [] (y ∷ b) h k = cc h
codes_lt_total (x ∷ a) [] h k = cc k
codes_lt_total (x ∷ a) (y ∷ b) h k =
    let same : x ≡ y = ground arith in
    let below : codes_lt a b ≡ false = ground arith in
    let above : codes_lt b a ≡ false = ground arith in cc (same, codes_lt_total a b below above)

codes-inj : (s t : String) → codes s ≡ codes t → s ≡ t
codes-inj String.[] String.[] h = refl
codes-inj String.[] (String.◌∷◌ d t) h = cc h
codes-inj (String.◌∷◌ c s) String.[] h = cc h
codes-inj (String.◌∷◌ c s) (String.◌∷◌ d t) h =
    let first : code c ≡ code d = cc h in
    let rest : codes s ≡ codes t = cc h in cc (Char-path c d first, codes-inj s t rest)

pub str_lt_irrefl : (s : String) → str_lt s s ≡ false
unfolding str_lt
str_lt_irrefl s = codes_lt_irrefl (codes s)

pub str_lt_trans : (s t u : String) → str_lt s t ≡ true → str_lt t u ≡ true → str_lt s u ≡ true
unfolding str_lt
str_lt_trans s t u h k = codes_lt_trans (codes s) (codes t) (codes u) h k

pub str_lt_total : (s t : String) → str_lt s t ≡ false → str_eq t s ≡ false → str_lt t s ≡ true
unfolding str_lt
str_lt_total s t h k = elim (Bool-cases (codes_lt (codes t) (codes s))) [
  | inl above ↦ above
  | inr apart ↦
      cc ((eq_iff t s).1 (sym (codes-inj s t (codes_lt_total (codes s) (codes t) h apart))), k)
]

-- If `s` is below `t` then `t` is not below `s`.
pub str_lt_asym : (s t : String) → str_lt s t ≡ true → str_lt t s ≡ false
str_lt_asym s t h = elim (Bool-cases (str_lt t s)) [
  | inl both ↦ cc (str_lt_trans s t s h both, str_lt_irrefl s)
  | inr apart ↦ apart
]
