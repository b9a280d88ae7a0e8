-- ===== src/Common/Sort.antt =====
-- `sort_by_key` of Rust's standard library, and the `ORDER BY` of the store: a stable sort. It is an
-- insertion sort here; the laws below are what the callers rely on.
use mathlib.Core.List.{Perm}
use mathlib.Core.List.Perm
use nuncio.Common.Tests.{if◌then◌else◌, Bool-cases, if_true_intro}
use mathlib.Core.Path.{◌≡◌, refl, ap, ◌∙◌}
use mathlib.Core.Bool.{Bool, true, false}
use nuncio.Common.Int.{ℤ, leb_ℤ, ◌≤ℤ◌}
use nuncio.Common.Lists.{All, All-imp}
use mathlib.Core.Logic.{inl, inr}
use mathlib.Core.List.{List, [], ◌∷◌}
use native.Mathlib.Omega.{arith}

module _ {ℓ} {A : Type ℓ} (key : A → ℤ) where
  -- Before the first element whose key is not smaller.
  pub insert : A → List A → List A
  insert x [] = x ∷ []
  insert x (y ∷ ys) = if leb_ℤ (key x) (key y) then x ∷ y ∷ ys else y ∷ insert x ys

  unfoldable pub sort_by_key : List A → List A
  unfolding insert
  sort_by_key [] = []
  sort_by_key (x ∷ xs) = insert x (sort_by_key xs)

  -- Every element's key is at most the keys that follow.
  abbrev pub IsSorted : List A → Type 0
  IsSorted [] = Unit
  IsSorted (x ∷ xs) = All (λ y. key x ≤ℤ key y) xs × IsSorted xs

  All-insert : (P : A → Type 0) (x : A) (xs : List A) → P x → All P xs → All P (insert x xs)
  unfolding insert
  All-insert P x [] p h = (p, tt)
  All-insert P x (y ∷ ys) p (q, h) = elim (Bool-cases (leb_ℤ (key x) (key y))) [
    | inl le ↦ rw le (p, (q, h))
    | inr gt ↦ rw gt (q, All-insert P x ys p h)
  ]

  insert-IsSorted : (x : A) (xs : List A) → IsSorted xs → IsSorted (insert x xs)
  unfolding insert
  insert-IsSorted x [] s = (tt, tt)
  insert-IsSorted x (y ∷ ys) (h, s) = elim (Bool-cases (leb_ℤ (key x) (key y))) [
    | inl le ↦ rw le ((ground arith, All-imp _ _ (λ z lt. ground arith) ys h), (h, s))
    | inr gt ↦
        rw gt (All-insert (λ z. key y ≤ℤ key z) x ys (ground arith) h, insert-IsSorted x ys s)
  ]

  pub sort_by_key-IsSorted : (xs : List A) → IsSorted (sort_by_key xs)
  unfolding sort_by_key
  sort_by_key-IsSorted [] = tt
  sort_by_key-IsSorted (x ∷ xs) = insert-IsSorted x (sort_by_key xs) (sort_by_key-IsSorted xs)

  insert-perm : (x : A) (xs : List A) → Perm (insert x xs) (x ∷ xs)
  unfolding insert
  insert-perm x [] = Perm.refl (x ∷ [])
  insert-perm x (y ∷ ys) = elim (Bool-cases (leb_ℤ (key x) (key y))) [
    | inl le ↦ rw le (Perm.refl (x ∷ y ∷ ys))
    | inr gt ↦ rw gt (Perm.trans (Perm.cons y (insert-perm x ys)) (Perm.swap x y ys))
  ]

  pub sort_by_key-perm : (xs : List A) → Perm (sort_by_key xs) xs
  unfolding sort_by_key
  sort_by_key-perm [] = Perm.refl []
  sort_by_key-perm (x ∷ xs) =
      Perm.trans (insert-perm x (sort_by_key xs)) (Perm.cons x (sort_by_key-perm xs))

  pub All-sort_by_key : (P : A → Type 0) (xs : List A) → All P xs → All P (sort_by_key xs)
  unfolding sort_by_key
  All-sort_by_key P [] h = tt
  All-sort_by_key P (x ∷ xs) (p, h) = All-insert P x (sort_by_key xs) p (All-sort_by_key P xs h)

  insert-filled : (x : A) (xs : List A) → insert x xs ≡ [] → ⊥
  unfolding insert
  insert-filled x [] e = cc e
  insert-filled x (y ∷ ys) e = either (leb_ℤ (key x) (key y)) e
    where
      either : (b : Bool) → (if b then x ∷ y ∷ ys else y ∷ insert x ys) ≡ [] → ⊥
      either true e = cc e
      either false e = cc e

  -- Only the empty list is sorted to the empty one.
  pub sort_by_key-empty : (xs : List A) → sort_by_key xs ≡ [] → xs ≡ []
  unfolding sort_by_key
  sort_by_key-empty [] e = refl
  sort_by_key-empty (x ∷ xs) e = absurd (insert-filled x (sort_by_key xs) e)

  insert-first : (x : A) (xs : List A) → All (λ y. key x ≤ℤ key y) xs → insert x xs ≡ x ∷ xs
  unfolding insert
  insert-first x [] h = refl
  insert-first x (y ∷ ys) (le, h) =
      if_true_intro (leb_ℤ (key x) (key y)) (x ∷ y ∷ ys) (y ∷ insert x ys) (ground arith) refl

  -- What is sorted stays as it is.
  pub sort_by_key-eq : (xs : List A) → IsSorted xs → sort_by_key xs ≡ xs
  unfolding sort_by_key
  sort_by_key-eq [] s = refl
  sort_by_key-eq (x ∷ xs) (h, s) = ap (insert x) (sort_by_key-eq xs s) ∙ insert-first x xs h
