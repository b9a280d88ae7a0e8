-- ===== src/Common/Text.antt =====
-- The methods of `str` that the program calls, over the characters of a text. `codes` lists code
-- points; the functions below agree with the byte-wise methods of Rust on every text.
pub mod Decimal
use Prim.Native.Nat.{ℕ, zero, suc, ◌+◌, ◌/◌, ◌%◌}
use Prim.Native.Char.{Char, code}
use Prim.Native.String
use Prim.Native.String.{String}
use mathlib.Core.Path.{◌≡◌, refl, subst}
use mathlib.Core.Logic.{◌↔◌}
use native.Mathlib.Omega.{arith}
use mathlib.Core.Bool.{Bool, true, false, ◌&&◌, ◌||◌}
use mathlib.Core.List.{List, [], ◌∷◌, map, ◌++◌, append_assoc}
use text.Mathlib.TextLemmas.{nil-append, cons-append}
use text.Mathlib.Text.{◌==◌ as str_eq}
use nuncio.Common.Tests.{leb, ltb, ◌==◌, if◌then◌else◌}
use nuncio.Common.Int.{ℤ, pos, negsuc}

abbrev pub codes : String → List ℕ
codes String.[] = []
codes (String.◌∷◌ c s) = code c ∷ codes s

infixr 60 ◌⧺◌
-- Concatenation of texts, as in `format!`.
abbrev pub ◌⧺◌ : String → String → String
s ⧺ t = String.◌++◌ s t

-- `u8::to_ascii_lowercase`
pub ascii_lower : ℕ → ℕ
ascii_lower c = if leb b'A' c && leb c b'Z' then c + 32 else c

pub codes_eq : List ℕ → List ℕ → Bool
codes_eq [] [] = true
codes_eq (a ∷ as') (b ∷ bs) = a == b && codes_eq as' bs
codes_eq _ _ = false

codes_eq_sound : (a b : List ℕ) → codes_eq a b ≡ true → a ≡ b
unfolding codes_eq
codes_eq_sound [] [] h = refl
codes_eq_sound [] (y ∷ b) h = cc h
codes_eq_sound (x ∷ a) [] h = cc h
codes_eq_sound (x ∷ a) (y ∷ b) h =
    let here : x ≡ y = ground arith in
    let there : codes_eq a b ≡ true = ground arith in cc (here, codes_eq_sound a b there)

codes_eq_refl : (a : List ℕ) → codes_eq a a ≡ true
unfolding codes_eq
codes_eq_refl [] = refl
codes_eq_refl (x ∷ a) = let rest = codes_eq_refl a in ground arith

-- Two lists of code points are the same exactly when they are equal.
pub codes_eq_iff : (a b : List ℕ) → (codes_eq a b ≡ true) ↔ (a ≡ b)
codes_eq_iff a b = (codes_eq_sound a b, λ e. subst (λ l. codes_eq a l ≡ true) e (codes_eq_refl a))

unfoldable pub eq_ignore_ascii_case : String → String → Bool
unfolding ascii_lower codes_eq
eq_ignore_ascii_case s t = codes_eq (map ascii_lower (codes s)) (map ascii_lower (codes t))

-- `starts_with` on code points.
pub prefix_of : List ℕ → List ℕ → Bool
prefix_of [] s = true
prefix_of (a ∷ p) [] = false
prefix_of (a ∷ p) (b ∷ s) = a == b && prefix_of p s

pub infix_of : List ℕ → List ℕ → Bool
unfolding prefix_of
infix_of p [] = prefix_of p []
infix_of p (b ∷ s) = prefix_of p (b ∷ s) || infix_of p s

unfoldable pub contains : String → String → Bool
unfolding infix_of prefix_of
contains s t = infix_of (codes t) (codes s)

unfoldable pub contains_char : String → ℕ → Bool
unfolding infix_of prefix_of
contains_char s c = infix_of (c ∷ []) (codes s)

suffix_of : List ℕ → List ℕ → Bool
unfolding codes_eq
suffix_of p [] = codes_eq p []
suffix_of p (b ∷ s) = codes_eq p (b ∷ s) || suffix_of p s

unfoldable pub ends_with : String → String → Bool
unfolding suffix_of
ends_with s t = suffix_of (codes t) (codes s)

unfoldable pub starts_with : String → String → Bool
unfolding prefix_of
starts_with s t = prefix_of (codes t) (codes s)

-- `char::is_whitespace`: the code points with the property White_Space.
unfoldable pub is_whitespace : ℕ → Bool
is_whitespace c =
    (leb 9 c && leb c 13)
    || c == 32
    || c == 0x85
    || c == 0xa0
    || c == 0x1680
    || (leb 0x2000 c && leb c 0x200a)
    || c == 0x2028
    || c == 0x2029
    || c == 0x202f
    || c == 0x205f
    || c == 0x3000

push : String → Char → String
push s c = s ⧺ String.◌∷◌ c ""

unfoldable pub trim_start : String → String
unfolding is_whitespace
trim_start String.[] = ""
trim_start (String.◌∷◌ c s) = if is_whitespace (code c) then trim_start s else String.◌∷◌ c s

unfoldable pub trim_end : String → String
unfolding is_whitespace
trim_end String.[] = ""
trim_end (String.◌∷◌ c s) =
    let rest = trim_end s in
    if str_eq rest "" && is_whitespace (code c) then "" else String.◌∷◌ c rest

unfoldable pub trim : String → String
unfolding trim_start trim_end
trim s = trim_end (trim_start s)

-- `split(c)`: the parts between the separators, at least one.
split_from : ℕ → String → String → List String
unfolding push
split_from sep part String.[] = part ∷ []
split_from sep part (String.◌∷◌ c s) =
    let closed = part ∷ split_from sep "" s in
    let longer = split_from sep (push part c) s in if code c == sep then closed else longer

unfoldable pub split : ℕ → String → List String
unfolding split_from
split sep s = split_from sep "" s

digit : ℕ → String
digit d =
    if d == 0
    then "0"
    else if d == 1
    then "1"
    else if d == 2
    then "2"
    else if d == 3
    then "3"
    else if d == 4
    then "4"
    else if d == 5
    then "5"
    else if d == 6
    then "6"
    else if d == 7
    then "7"
    else if d == 8
    then "8"
    else "9"

-- Every round drops a digit, so `n + 1` rounds are enough.
decimal_from : ℕ → ℕ → String → String
unfolding digit
decimal_from zero n s = s
decimal_from (suc fuel) n s =
    let rest = decimal_from fuel (n / 10) (digit (n % 10) ⧺ s) in
    if ltb n 10 then digit n ⧺ s else rest

-- `{}` of an unsigned and of a signed integer.
unfoldable pub decimal : ℕ → String
unfolding decimal_from
decimal n = decimal_from (suc n) n ""

unfoldable pub decimal_ℤ : ℤ → String
unfolding decimal
decimal_ℤ (pos n) = decimal n
decimal_ℤ (negsuc n) = "-" ⧺ decimal (suc n)

-- UTF-8, as `as_bytes` gives it.
utf8 : ℕ → List ℕ
utf8 c =
    if ltb c 0x80
    then c ∷ []
    else if ltb c 0x800
    then (0xc0 + c / 64) ∷ (0x80 + c % 64) ∷ []
    else if ltb c 0x10000
    then (0xe0 + c / 4096) ∷ (0x80 + c / 64 % 64) ∷ (0x80 + c % 64) ∷ []
    else (0xf0 + c / 262144) ∷ (0x80 + c / 4096 % 64) ∷ (0x80 + c / 64 % 64) ∷ (0x80 + c % 64) ∷ []

unfoldable pub as_bytes : String → List ℕ
unfolding utf8
as_bytes String.[] = []
as_bytes (String.◌∷◌ c s) = utf8 (code c) ++ as_bytes s

pub as_bytes-append : (s t : String) → as_bytes (s ⧺ t) ≡ as_bytes s ++ as_bytes t
unfolding as_bytes
as_bytes-append String.[] t = simp nil-append
as_bytes-append (String.◌∷◌ c s) t = simp (cons-append, as_bytes-append s t, append_assoc)
