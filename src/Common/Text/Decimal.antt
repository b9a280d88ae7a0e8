-- ===== src/Common/Text/Decimal.antt =====
-- What `{}` prints of an unsigned integer: its digits, which read back as the number.
use Prim.Native.Nat.{ℕ, zero, suc, ◌+◌, ◌*◌, ◌/◌, ◌%◌, ◌≤◌, ◌<◌}
use Prim.Native.Char.{Char, code}
use Prim.Native.String.{String}
use mathlib.Core.Path.{◌≡◌, refl, sym, ap, ◌∙◌, subst}
use mathlib.Core.Logic.{inl, inr}
use mathlib.Core.Bool.{Bool, true, false}
use mathlib.Core.List.{[], ◌∷◌}
use text.Mathlib.TextLemmas.{nil-append, cons-append, append-nil, append_assoc}
use native.Mathlib.Omega.{arith}
use nuncio.Common.Tests.{if◌then◌else◌, ltb, ◌==◌, Bool-cases}
use nuncio.Common.Text.{codes, ◌⧺◌, digit, decimal_from, decimal, push, split_from, split}

abbrev pub IsDigit : Char → Type 0
IsDigit c = (48 ≤ code c) × (code c ≤ 57)

abbrev pub Digits : String → Type 0
Digits String.[] = Unit
Digits (String.◌∷◌ c s) = IsDigit c × Digits s

-- Some digits.
abbrev pub Number : String → Type 0
Number String.[] = ⊥
Number (String.◌∷◌ c s) = IsDigit c × Digits s

codes-digit : (d : ℕ) → d < 10 → codes (digit d) ≡ (48 + d) ∷ []
unfolding digit
codes-digit zero h = refl
codes-digit (suc zero) h = refl
codes-digit (suc (suc zero)) h = refl
codes-digit (suc (suc (suc zero))) h = refl
codes-digit (suc (suc (suc (suc zero)))) h = refl
codes-digit (suc (suc (suc (suc (suc zero))))) h = refl
codes-digit (suc (suc (suc (suc (suc (suc zero)))))) h = refl
codes-digit (suc (suc (suc (suc (suc (suc (suc zero))))))) h = refl
codes-digit (suc (suc (suc (suc (suc (suc (suc (suc zero)))))))) h = refl
codes-digit (suc (suc (suc (suc (suc (suc (suc (suc (suc zero))))))))) h = refl
codes-digit (suc (suc (suc (suc (suc (suc (suc (suc (suc (suc d)))))))))) h =
    absurd (omega (arith, h))

-- A text of one character, in front of another text.
pub single :
    (w : String) (n : ℕ) (s : String)
    → codes w ≡ n ∷ []
    → (c : Char) × (w ⧺ s ≡ String.◌∷◌ c s) × (code c ≡ n)
single String.[] n s h = cc h
single (String.◌∷◌ c String.[]) n s h = (c, simp (cons-append, nil-append), cc h)
single (String.◌∷◌ c (String.◌∷◌ d w)) n s h = cc h

digit_cons :
    (d : ℕ) (s : String) → d < 10 → (c : Char) × (digit d ⧺ s ≡ String.◌∷◌ c s) × (code c ≡ 48 + d)
digit_cons d s h = single (digit d) (48 + d) s (codes-digit d h)

digit-Number : (d : ℕ) (s : String) → d < 10 → Digits s → Number (digit d ⧺ s)
digit-Number d s h k =
    let (c, e, f) = digit_cons d s h in
    subst Number (sym e) ((omega (arith, f), omega (arith, f, h)), k)

pub Number-Digits : (s : String) → Number s → Digits s
Number-Digits String.[] h = absurd h
Number-Digits (String.◌∷◌ c s) h = h

decimal_from-Number :
    (fuel n : ℕ) (s : String) → n < fuel → Digits s → Number (decimal_from fuel n s)
unfolding decimal_from
decimal_from-Number zero n s h k = absurd (omega (arith, h))
decimal_from-Number (suc fuel) n s h k = elim (Bool-cases (ltb n 10)) [
  | inl small ↦ rw small (digit-Number n s (ground arith) k)
  | inr large ↦ rw large (
      decimal_from-Number fuel (n / 10) (digit (n % 10) ⧺ s) (ground arith)
        (Number-Digits (digit (n % 10) ⧺ s) (digit-Number (n % 10) s (omega arith) k)))
]

pub decimal-Number : (n : ℕ) → Number (decimal n)
unfolding decimal
decimal-Number n = decimal_from-Number (suc n) n "" (omega arith) tt

-- A reader that takes up one digit after the other reads the number.
module _ {X : Type 0} (read : ℕ → String → X)
    (step : (k d : ℕ) (c : Char) (s : String)
      → d < 10
      → code c ≡ 48 + d
      → read k (String.◌∷◌ c s) ≡ read (k * 10 + d) s) where
  read-digit : (k d : ℕ) (s : String) → d < 10 → read k (digit d ⧺ s) ≡ read (k * 10 + d) s
  read-digit k d s h = let (c, e, f) = digit_cons d s h in ap (read k) e ∙ step k d c s h f

  read-decimal_from :
      (fuel n : ℕ) (s : String) → n < fuel → read 0 (decimal_from fuel n s) ≡ read n s
  unfolding decimal_from
  read-decimal_from zero n s h = absurd (omega (arith, h))
  read-decimal_from (suc fuel) n s h = elim (Bool-cases (ltb n 10)) [
    | inl small ↦ rw small (read-digit 0 n s (ground arith) ∙ ap (λ k. read k s) (omega arith))
    | inr large ↦
        let sum : n / 10 * 10 + n % 10 ≡ n = omega arith in
        rw large (
          read-decimal_from fuel (n / 10) (digit (n % 10) ⧺ s) (ground arith)
          ∙ read-digit (n / 10) (n % 10) s (omega arith)
          ∙ ap (λ k. read k s) sum)
  ]

  pub read-decimal : (n : ℕ) → read 0 (decimal n) ≡ read n ""
  unfolding decimal
  read-decimal n = read-decimal_from (suc n) n "" (omega arith)

-- Digits are no dots.
split_from-Digits :
    (part w t : String) → Digits w → split_from 46 part (w ⧺ t) ≡ split_from 46 (part ⧺ w) t
unfolding split_from push
split_from-Digits part String.[] t h = rw (nil-append, append-nil) refl
split_from-Digits part (String.◌∷◌ c w) t ((low, high), h) =
    let plain : (code c == 46) ≡ false = ground arith in
    let one : (part ⧺ String.◌∷◌ c "") ⧺ w ≡ part ⧺ String.◌∷◌ c w =
      append_assoc part (String.◌∷◌ c "") w
      ∙ ap (λ v. part ⧺ v) (cons-append c "" w ∙ ap (String.◌∷◌ c) (nil-append w)) in
    ap (split_from 46 part) (cons-append c w t)
    ∙ kept (code c == 46) plain
    ∙ split_from-Digits (part ⧺ String.◌∷◌ c "") w t h
    ∙ ap (λ v. split_from 46 v t) one
  where
    kept :
        (b : Bool)
        → b ≡ false
        → (if b
            then part ∷ split_from 46 "" (w ⧺ t)
            else split_from 46 (part ⧺ String.◌∷◌ c "") (w ⧺ t))
          ≡ split_from 46 (part ⧺ String.◌∷◌ c "") (w ⧺ t)
    kept true e = cc e
    kept false e = refl

at_dot : (w t : String) → split_from 46 w ("." ⧺ t) ≡ w ∷ split_from 46 "" t
unfolding split_from
at_dot w t = let (c, e, f) = single "." 46 t refl in ap (split_from 46 w) e ∙ rw f refl

-- The part before the first dot, and the others.
pub split-dot : (w t : String) → Digits w → split 46 (w ⧺ ("." ⧺ t)) ≡ w ∷ split 46 t
unfolding split split_from
split-dot w t h =
    split_from-Digits "" w ("." ⧺ t) h
    ∙ ap (λ v. split_from 46 v ("." ⧺ t)) (nil-append w)
    ∙ at_dot w t

pub split-last : (w : String) → Digits w → split 46 w ≡ w ∷ []
unfolding split split_from
split-last w h =
    ap (split_from 46 "") (sym (append-nil w))
    ∙ split_from-Digits "" w "" h
    ∙ ap (λ v. v ∷ []) (nil-append w)
