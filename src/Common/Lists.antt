-- ===== src/Common/Lists.antt =====
-- Lists measured by native numbers, and predicates on lists by recursion.
use Prim.Native.Nat.{ℕ, zero, suc, ◌+◌, ◌≤◌, ◌<◌}
use mathlib.Core.Path.{◌≡◌, refl, ap}
use mathlib.Core.Logic.{◌⊎◌, inl, inr}
use mathlib.Core.Bool.{Bool, true, false, ◌&&◌, ◌||◌}
use mathlib.Core.List.{List, [], ◌∷◌, ◌++◌, map}
use mathlib.Core.Option.{Option, none, some}
use native.Mathlib.Omega.{arith}
use nuncio.Common.Tests.{if◌then◌else◌}

module _ {ℓ} {A : Type ℓ} where
  abbrev pub length : List A → ℕ
  length [] = 0
  length (x ∷ xs) = suc (length xs)

  abbrev pub is_empty : List A → Bool
  is_empty [] = true
  is_empty (x ∷ xs) = false

  -- `iter().any(..)` and `iter().all(..)`
  abbrev pub any : (A → Bool) → List A → Bool
  any p [] = false
  any p (x ∷ xs) = p x || any p xs

  abbrev pub all : (A → Bool) → List A → Bool
  all p [] = true
  all p (x ∷ xs) = p x && all p xs

  -- `iter().filter(..)`, on a test
  abbrev pub keep : (A → Bool) → List A → List A
  keep p [] = []
  keep p (x ∷ xs) = let rest = keep p xs in if p x then x ∷ rest else rest

  -- `iter().find(..)`
  abbrev pub find : (A → Bool) → List A → Option A
  find p [] = none
  find p (x ∷ xs) = if p x then some x else find p xs

  abbrev pub head? : List A → Option A
  head? [] = none
  head? (x ∷ xs) = some x

  abbrev pub last? : List A → Option A
  last? [] = none
  last? (x ∷ []) = some x
  last? (x ∷ y ∷ xs) = last? (y ∷ xs)

  abbrev pub take : ℕ → List A → List A
  take zero xs = []
  take (suc n) [] = []
  take (suc n) (x ∷ xs) = x ∷ take n xs

  abbrev pub drop : ℕ → List A → List A
  drop zero xs = xs
  drop (suc n) [] = []
  drop (suc n) (x ∷ xs) = drop n xs

  pub take-append-drop : (n : ℕ) (xs : List A) → take n xs ++ drop n xs ≡ xs
  take-append-drop zero xs = refl
  take-append-drop (suc n) [] = refl
  take-append-drop (suc n) (x ∷ xs) = ap (λ ys. x ∷ ys) (take-append-drop n xs)

  -- A list is all taken, or as much of it as asked.
  pub length-take_cases :
      (n : ℕ) (xs : List A)
      → ((length (take n xs) ≡ n) × (length (drop n xs) + n ≡ length xs))
        ⊎ ((length (take n xs) < n) × (take n xs ≡ xs) × (drop n xs ≡ []))
  length-take_cases zero xs = inl (refl, omega arith)
  length-take_cases (suc n) [] = inr (omega arith, refl, refl)
  length-take_cases (suc n) (x ∷ xs) = elim (length-take_cases n xs) [
    | inl (t, d) ↦ inl (omega arith, omega arith)
    | inr (t, e, d) ↦ inr (omega arith, ap (λ ys. x ∷ ys) e, d)
  ]

  pub take-empty : (n : ℕ) (xs : List A) → take (suc n) xs ≡ [] → xs ≡ []
  take-empty n [] e = refl
  take-empty n (x ∷ xs) e = cc e

  pub length-append : (xs ys : List A) → length (xs ++ ys) ≡ length xs + length ys
  length-append [] ys = omega arith
  length-append (x ∷ xs) ys = omega (arith, length-append xs ys)

  pub take-all : (n : ℕ) (xs : List A) → length xs ≤ n → take n xs ≡ xs
  take-all zero [] h = refl
  take-all zero (x ∷ xs) h = absurd (omega (arith, h))
  take-all (suc n) [] h = refl
  take-all (suc n) (x ∷ xs) h = ap (λ ys. x ∷ ys) (take-all n xs (omega arith))

module _ {ℓ κ} {A : Type ℓ} where
  abbrev pub All : (A → Type κ) → List A → Type κ
  All P [] = Unit
  All P (x ∷ xs) = P x × All P xs

  pub All-of : (P : A → Type κ) → ((a : A) → P a) → (xs : List A) → All P xs
  All-of P f [] = tt
  All-of P f (x ∷ xs) = (f x, All-of P f xs)

  pub All-take : (P : A → Type κ) (n : ℕ) (xs : List A) → All P xs → All P (take n xs)
  All-take P zero xs h = tt
  All-take P (suc n) [] h = tt
  All-take P (suc n) (x ∷ xs) (p, h) = (p, All-take P n xs h)

  pub All-append : (P : A → Type κ) (xs ys : List A) → All P xs → All P ys → All P (xs ++ ys)
  All-append P [] ys h k = k
  All-append P (x ∷ xs) ys (p, h) k = (p, All-append P xs ys h k)

module _ {ℓ κ} {A : Type ℓ} {B : Type κ} where
  pub length-map : (xs : List A) (f : A → B) → length (map f xs) ≡ length xs
  length-map [] f = refl
  length-map (x ∷ xs) f = ap suc (length-map xs f)

module _ {ℓ κ μ} {A : Type ℓ} where
  pub All-both :
      (P : A → Type κ) (Q : A → Type μ) (xs : List A)
      → All P xs
      → All Q xs
      → All (λ a. P a × Q a) xs
  All-both P Q [] h k = tt
  All-both P Q (x ∷ xs) (p, h) (q, k) = ((p, q), All-both P Q xs h k)

  pub All-imp :
      (P : A → Type κ) (Q : A → Type μ)
      → ((a : A) → P a → Q a)
      → (xs : List A) → All P xs
      → All Q xs
  All-imp P Q f [] h = tt
  All-imp P Q f (x ∷ xs) (p, h) = (f x p, All-imp P Q f xs h)

module _ {ℓ κ μ} {A : Type ℓ} {B : Type κ} where
  pub All-map :
      (P : B → Type μ) (f : A → B) (xs : List A) → All (λ a. P (f a)) xs → All P (map f xs)
  All-map P f [] h = tt
  All-map P f (x ∷ xs) (p, h) = (p, All-map P f xs h)

module _ {ℓ} {A : Type ℓ} where
  -- What was selected passes the test.
  pub All-kept : (q : A → Bool) (xs : List A) → All (λ a. q a ≡ true) (keep q xs)
  All-kept q [] = tt
  All-kept q (x ∷ xs) = chosen (q x) refl (All-kept q xs)
    where
      chosen :
          (b : Bool)
          → q x ≡ b
          → All (λ a. q a ≡ true) (keep q xs)
          → All (λ a. q a ≡ true) (if b then x ∷ keep q xs else keep q xs)
      chosen true e h = (e, h)
      chosen false e h = h

  -- A selection from a wider one.
  pub keep-keep :
      (p q : A → Bool)
      → ((a : A) → q a ≡ true → p a ≡ true)
      → (xs : List A) → keep q (keep p xs) ≡ keep q xs
  keep-keep p q wider [] = refl
  keep-keep p q wider (x ∷ xs) = chosen (p x) (q x) refl refl (keep-keep p q wider xs)
    where
      chosen :
          (b c : Bool)
          → p x ≡ b
          → q x ≡ c
          → keep q (keep p xs) ≡ keep q xs
          → keep q (if b then x ∷ keep p xs else keep p xs)
            ≡ (if c then x ∷ keep q xs else keep q xs)
      chosen true true e f h = rw f (ap (λ l. x ∷ l) h)
      chosen true false e f h = rw f h
      chosen false true e f h = cc (wider x f, e)
      chosen false false e f h = h

module _ {ℓ κ} {A : Type ℓ} where
  -- What all have, the selected ones have too.
  pub All-keep :
      (P : A → Type κ) (q : A → Bool) (xs : List A)
      → All P xs
      → All (λ a. P a × (q a ≡ true)) (keep q xs)
  All-keep P q [] h = tt
  All-keep P q (x ∷ xs) (p, h) = chosen (q x) refl (All-keep P q xs h)
    where
      chosen :
          (b : Bool)
          → q x ≡ b
          → All (λ a. P a × (q a ≡ true)) (keep q xs)
          → All (λ a. P a × (q a ≡ true)) (if b then x ∷ keep q xs else keep q xs)
      chosen true e k = ((p, e), k)
      chosen false e k = k
