-- ===== src/Core/Update/Printed.antt =====
-- How crates/nuncio-core/src/update.rs reads versions that are numbers between dots.
use Prim.Native.Char.{code, Char}
use nuncio.Common.{
  ℕ, ◌+◌, ◌*◌, ◌-◌, ◌^◌, ◌<◌, String, ◌≡◌, ◌↔◌, refl, sym, ap, ◌∙◌, Bool, true, false, List, [],
  ◌∷◌, some, map, All, leb, ◌==◌, arith,
}
use mathlib.Core.Path.{subst}
use text.Mathlib.TextLemmas.{cons-append, append-nil}
use nuncio.Common.Text.{◌⧺◌, decimal, split}
use nuncio.Common.Text.Decimal.{
  Digits, Number, Number-Digits, single, decimal-Number, read-decimal, split-dot, split-last,
}
use nuncio.Core.Update.{digits_value, parse_u64, or_zero, without_v, parse_v, is_newer_version}
use nuncio.Core.Update.Order.{Precedes, is_newer_version_iff}

-- The number fits `u64`.
abbrev pub IsU64 : ℕ → Type 0
IsU64 n = n < 2 ^ 64

-- The numbers, with dots between them.
abbrev pub version_of : ℕ → List ℕ → String
version_of n [] = decimal n
version_of n (m ∷ ms) = decimal n ⧺ ("." ⧺ version_of m ms)

-- With a "v" in front, or as it is.
abbrev pub tagged : Bool → String → String
tagged true s = "v" ⧺ s
tagged false s = s

digits_value-step :
    (k d : ℕ) (c : Char) (s : String)
    → d < 10
    → code c ≡ 48 + d
    → digits_value k (String.◌∷◌ c s) ≡ digits_value (k * 10 + d) s
unfolding digits_value
digits_value-step k d c s h e =
    let low : leb 48 (code c) ≡ true = ground arith in
    let high : leb (code c) 57 ≡ true = ground arith in
    let value : code c - 48 ≡ d = omega arith in rw (low, high, value) refl

parse_u64-digits_value : (w : String) → Number w → parse_u64 w ≡ digits_value 0 w
unfolding parse_u64
parse_u64-digits_value String.[] h = absurd h
parse_u64-digits_value (String.◌∷◌ c String.[]) h = refl
parse_u64-digits_value (String.◌∷◌ c (String.◌∷◌ d s)) ((low, high), h) =
    let unsigned : (code c == 43) ≡ false = ground arith in rw unsigned refl

parse_u64-decimal : (n : ℕ) → IsU64 n → parse_u64 (decimal n) ≡ some n
unfolding digits_value
parse_u64-decimal n h =
    parse_u64-digits_value (decimal n) (decimal-Number n)
    ∙ read-decimal digits_value digits_value-step n
    ∙ ground arith

decimal-Digits : (n : ℕ) → Digits (decimal n)
decimal-Digits n = Number-Digits (decimal n) (decimal-Number n)

split-version_of : (n : ℕ) (ns : List ℕ) → split 46 (version_of n ns) ≡ map decimal (n ∷ ns)
split-version_of n [] = split-last (decimal n) (decimal-Digits n)
split-version_of n (m ∷ ms) =
    split-dot (decimal n) (version_of m ms) (decimal-Digits n)
    ∙ ap (λ l. decimal n ∷ l) (split-version_of m ms)

read_back : (ns : List ℕ) → All IsU64 ns → map (λ p. or_zero (parse_u64 p)) (map decimal ns) ≡ ns
unfolding or_zero
read_back [] h = refl
read_back (n ∷ ns) (small, h) = rw (parse_u64-decimal n small) (ap (λ l. n ∷ l) (read_back ns h))

without_v-Number : (w t : String) → Number w → without_v (w ⧺ t) ≡ w ⧺ t
unfolding without_v
without_v-Number String.[] t h = absurd h
without_v-Number (String.◌∷◌ c w) t ((low, high), h) =
    let small : (code c == 118) ≡ false = ground arith in
    let capital : (code c == 86) ≡ false = ground arith in rw (cons-append, small, capital) refl

without_v-version_of : (n : ℕ) (ns : List ℕ) → without_v (version_of n ns) ≡ version_of n ns
without_v-version_of n [] =
    ap without_v (sym (append-nil (decimal n)))
    ∙ without_v-Number (decimal n) "" (decimal-Number n)
    ∙ append-nil (decimal n)
without_v-version_of n (m ∷ ms) =
    without_v-Number (decimal n) ("." ⧺ version_of m ms) (decimal-Number n)

without_v-v : (s : String) → without_v ("v" ⧺ s) ≡ without_v s
unfolding without_v
without_v-v s = let (c, e, f) = single "v" 118 s refl in ap without_v e ∙ rw f refl

without_v-tagged :
    (b : Bool) (n : ℕ) (ns : List ℕ) → without_v (tagged b (version_of n ns)) ≡ version_of n ns
without_v-tagged true n ns = without_v-v (version_of n ns) ∙ without_v-version_of n ns
without_v-tagged false n ns = without_v-version_of n ns

parse_v-tagged :
    (b : Bool) (n : ℕ) (ns : List ℕ)
    → All IsU64 (n ∷ ns)
    → parse_v (tagged b (version_of n ns)) ≡ n ∷ ns
unfolding parse_v
parse_v-tagged b n ns h =
    ap (λ s. map (λ p. or_zero (parse_u64 p)) (split 46 s)) (without_v-tagged b n ns)
    ∙ ap (map (λ p. or_zero (parse_u64 p))) (split-version_of n ns)
    ∙ read_back (n ∷ ns) h

-- Of two versions that are unsigned 64-bit numbers printed with dots between them, each with or
-- without a "v" in front, the latest is newer exactly when, at the first position where the numbers
-- of the two differ, its number is the greater one; missing numbers are read as 0.
pub is_newer_version-tagged :
    (b : Bool) (n : ℕ) (ns : List ℕ) (c : Bool) (m : ℕ) (ms : List ℕ)
    → All IsU64 (n ∷ ns)
    → All IsU64 (m ∷ ms)
    → (is_newer_version (tagged b (version_of n ns)) (tagged c (version_of m ms)) ≡ true)
      ↔ Precedes (n ∷ ns) (m ∷ ms)
is_newer_version-tagged b n ns c m ms h k =
    subst
      (λ l.
        (is_newer_version (tagged b (version_of n ns)) (tagged c (version_of m ms)) ≡ true)
        ↔ Precedes (n ∷ ns) l)
      (parse_v-tagged c m ms k)
      (subst
        (λ l.
          (is_newer_version (tagged b (version_of n ns)) (tagged c (version_of m ms)) ≡ true)
          ↔ Precedes l (parse_v (tagged c (version_of m ms))))
        (parse_v-tagged b n ns h)
        (is_newer_version_iff (tagged b (version_of n ns)) (tagged c (version_of m ms))))
