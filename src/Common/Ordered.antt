-- ===== src/Common/Ordered.antt =====
-- Sorting by a text that no two elements share.
use mathlib.Core.Path.{◌≡◌, refl, ap, ◌∙◌, sym}
use mathlib.Core.Logic.{inl, inr}
use mathlib.Core.Bool.{Bool, true, false}
use mathlib.Core.List.{List, [], ◌∷◌, ◌++◌, Perm}
use mathlib.Core.List.Perm
use Prim.Native.String.{String}
use text.Mathlib.Text.{◌==◌ as str_eq}
use nuncio.Common.Tests.{if◌then◌else◌, Bool-cases}
use Prim.Native.Nat.{◌+◌}
use native.Mathlib.Omega.{arith}
use nuncio.Common.Lists.{All, All-imp, keep, length}
use nuncio.Common.Order.{str_lt, str_lt_irrefl, str_lt_trans, str_lt_total, str_lt_asym}

module _ {ℓ} {A : Type ℓ} (key : A → String) where
  -- Before the first element whose key is not below.
  pub insert : A → List A → List A
  insert x [] = x ∷ []
  insert x (y ∷ ys) = if str_lt (key y) (key x) then y ∷ insert x ys else x ∷ y ∷ ys

  unfoldable pub sort_by_text : List A → List A
  unfolding insert
  sort_by_text [] = []
  sort_by_text (x ∷ xs) = insert x (sort_by_text xs)

  -- No two elements have one key.
  abbrev pub IsDistinct : List A → Type 0
  IsDistinct [] = Unit
  IsDistinct (x ∷ xs) = All (λ y. str_eq (key x) (key y) ≡ false) xs × IsDistinct xs

  -- Every key is below the keys that follow.
  abbrev pub IsAscending : List A → Type 0
  IsAscending [] = Unit
  IsAscending (x ∷ xs) = All (λ y. str_lt (key x) (key y) ≡ true) xs × IsAscending xs

  All-insert : (P : A → Type 0) (x : A) (xs : List A) → P x → All P xs → All P (insert x xs)
  unfolding insert
  All-insert P x [] p h = (p, tt)
  All-insert P x (y ∷ ys) p (q, h) = elim (Bool-cases (str_lt (key y) (key x))) [
    | inl below ↦ rw below (q, All-insert P x ys p h)
    | inr above ↦ rw above (p, (q, h))
  ]

  insert-IsAscending :
      (x : A) (xs : List A)
      → All (λ y. str_eq (key x) (key y) ≡ false) xs
      → IsAscending xs
      → IsAscending (insert x xs)
  unfolding insert
  insert-IsAscending x [] d s = (tt, tt)
  insert-IsAscending x (y ∷ ys) (e, d) (h, s) = elim (Bool-cases (str_lt (key y) (key x))) [
    | inl below ↦
        rw below (
          All-insert (λ z. str_lt (key y) (key z) ≡ true) x ys below h,
          insert-IsAscending x ys d s,
        )
    | inr above ↦
        let less : str_lt (key x) (key y) ≡ true = str_lt_total (key y) (key x) above e in
        rw above
          ((less, All-imp _ _ (λ z m. str_lt_trans (key x) (key y) (key z) less m) ys h), (h, s))
  ]

  pub All-keep : (P : A → Type 0) (q : A → Bool) (xs : List A) → All P xs → All P (keep q xs)
  All-keep P q [] h = tt
  All-keep P q (x ∷ xs) (p, h) = chosen (q x) (All-keep P q xs h)
    where
      chosen : (b : Bool) → All P (keep q xs) → All P (if b then x ∷ keep q xs else keep q xs)
      chosen true k = (p, k)
      chosen false k = k

  pub keep-IsDistinct : (q : A → Bool) (xs : List A) → IsDistinct xs → IsDistinct (keep q xs)
  keep-IsDistinct q [] h = tt
  keep-IsDistinct q (x ∷ xs) (d, h) = chosen (q x) (keep-IsDistinct q xs h)
    where
      chosen :
          (b : Bool) → IsDistinct (keep q xs) → IsDistinct (if b then x ∷ keep q xs else keep q xs)
      chosen true k = (All-keep (λ y. str_eq (key x) (key y) ≡ false) q xs d, k)
      chosen false k = k

  pub All-sort : (P : A → Type 0) (xs : List A) → All P xs → All P (sort_by_text xs)
  unfolding sort_by_text
  All-sort P [] h = tt
  All-sort P (x ∷ xs) (p, h) = All-insert P x (sort_by_text xs) p (All-sort P xs h)

  pub sort_by_text-IsAscending : (xs : List A) → IsDistinct xs → IsAscending (sort_by_text xs)
  unfolding sort_by_text
  sort_by_text-IsAscending [] h = tt
  sort_by_text-IsAscending (x ∷ xs) (d, h) =
      insert-IsAscending x (sort_by_text xs) (All-sort (λ y. str_eq (key x) (key y) ≡ false) xs d)
        (sort_by_text-IsAscending xs h)

  insert-perm : (x : A) (xs : List A) → Perm (insert x xs) (x ∷ xs)
  unfolding insert
  insert-perm x [] = Perm.refl (x ∷ [])
  insert-perm x (y ∷ ys) = elim (Bool-cases (str_lt (key y) (key x))) [
    | inl below ↦ rw below (Perm.trans (Perm.cons y (insert-perm x ys)) (Perm.swap x y ys))
    | inr above ↦ rw above (Perm.refl (x ∷ y ∷ ys))
  ]

  pub sort_by_text-perm : (xs : List A) → Perm (sort_by_text xs) xs
  unfolding sort_by_text
  sort_by_text-perm [] = Perm.refl []
  sort_by_text-perm (x ∷ xs) =
      Perm.trans (insert-perm x (sort_by_text xs)) (Perm.cons x (sort_by_text-perm xs))

  -- In front of what is above it, an element is inserted first.
  insert-first :
      (x : A) (xs : List A) → All (λ y. str_lt (key y) (key x) ≡ false) xs → insert x xs ≡ x ∷ xs
  unfolding insert
  insert-first x [] h = refl
  insert-first x (y ∷ ys) (e, h) = rw e refl

  -- Selecting after an insertion is inserting, or not, after the selection.
  keep-insert-true :
      (q : A → Bool) (x : A) (ys : List A)
      → q x ≡ true
      → IsAscending ys
      → keep q (insert x ys) ≡ insert x (keep q ys)
  unfolding insert
  keep-insert-true q x [] e s = rw e refl
  keep-insert-true q x (y ∷ ys) e (h, s) = elim (Bool-cases (str_lt (key y) (key x))) [
    | inl below ↦ rw below (passed (q y) (keep-insert-true q x ys e s) below)
    | inr above ↦
        rw (above, e)
          (sym (
            insert-first x (keep q (y ∷ ys)) (
              All-keep (λ z. str_lt (key z) (key x) ≡ false) q (y ∷ ys)
                (above, All-imp _ _ (λ z m. not_below z m above) ys h))))
  ]
    where
      not_below :
          (z : A)
          → str_lt (key y) (key z) ≡ true
          → str_lt (key y) (key x) ≡ false
          → str_lt (key z) (key x) ≡ false
      not_below z m above = elim (Bool-cases (str_lt (key z) (key x))) [
        | inl below ↦ cc (str_lt_trans (key y) (key z) (key x) m below, above)
        | inr apart ↦ apart
      ]

      passed :
          (b : Bool)
          → keep q (insert x ys) ≡ insert x (keep q ys)
          → str_lt (key y) (key x) ≡ true
          → (if b then y ∷ keep q (insert x ys) else keep q (insert x ys))
            ≡ insert x (if b then y ∷ keep q ys else keep q ys)
      passed true k below = rw below (ap (λ l. y ∷ l) k)
      passed false k below = k

  keep-insert-false :
      (q : A → Bool) (x : A) (ys : List A) → q x ≡ false → keep q (insert x ys) ≡ keep q ys
  unfolding insert
  keep-insert-false q x [] e = rw e refl
  keep-insert-false q x (y ∷ ys) e = elim (Bool-cases (str_lt (key y) (key x))) [
    | inl below ↦ rw below (ap (λ l. if q y then y ∷ l else l) (keep-insert-false q x ys e))
    | inr above ↦ rw (above, e) refl
  ]

  pub keep-sort_by_text :
      (q : A → Bool) (xs : List A)
      → IsDistinct xs
      → keep q (sort_by_text xs) ≡ sort_by_text (keep q xs)
  unfolding sort_by_text
  keep-sort_by_text q [] h = refl
  keep-sort_by_text q (x ∷ xs) (d, h) = elim (Bool-cases (q x)) [
    | inl e ↦ rw e (
        keep-insert-true q x (sort_by_text xs) e (sort_by_text-IsAscending xs h)
        ∙ ap (insert x) (keep-sort_by_text q xs h))
    | inr e ↦ rw e (keep-insert-false q x (sort_by_text xs) e ∙ keep-sort_by_text q xs h)
  ]

  -- The last of a list that is not empty.
  abbrev pub last_of : A → List A → A
  last_of x [] = x
  last_of x (y ∷ ys) = last_of y ys

  keep-all : (q : A → Bool) (xs : List A) → All (λ y. q y ≡ true) xs → keep q xs ≡ xs
  keep-all q [] h = refl
  keep-all q (x ∷ xs) (e, h) = rw e (ap (λ l. x ∷ l) (keep-all q xs h))

  -- What is above the last element of the front of a list is the rest of the list.
  pub keep-above :
      (x : A) (xs ys : List A)
      → IsAscending (x ∷ (xs ++ ys))
      → keep (λ y. str_lt (key (last_of x xs)) (key y)) (x ∷ (xs ++ ys)) ≡ ys
  keep-above x [] ys (h, s) = rw (str_lt_irrefl (key x)) (keep-all _ ys h)
  keep-above x (y ∷ xs) ys (h, s) =
      rw (str_lt_asym (key x) (key (last_of y xs)) (below_last x y xs ys h)) (keep-above y xs ys s)
    where
      below_last :
          (x y : A) (xs ys : List A)
          → All (λ z. str_lt (key x) (key z) ≡ true) (y ∷ (xs ++ ys))
          → str_lt (key x) (key (last_of y xs)) ≡ true
      below_last x y [] ys (e, h) = e
      below_last x y (z ∷ xs) ys (e, h) = below_last x z xs ys h

  -- Nothing in a list is above its last element.
  pub last_of-top :
      (x : A) (xs : List A)
      → IsAscending (x ∷ xs)
      → All (λ y. str_lt (key (last_of x xs)) (key y) ≡ false) (x ∷ xs)
  last_of-top x [] s = (str_lt_irrefl (key x), tt)
  last_of-top x (y ∷ ys) ((below, h), s) =
      let (top, tops) = last_of-top y ys s in
      (not_above (key x) (key y) (key (last_of y ys)) below top, (top, tops))
    where
      not_above : (s t u : String) → str_lt s t ≡ true → str_lt u t ≡ false → str_lt u s ≡ false
      not_above s t u h k = elim (Bool-cases (str_lt u s)) [
        | inl above ↦ cc (str_lt_trans u s t above h, k)
        | inr apart ↦ apart
      ]

  pub IsAscending-front : (xs ys : List A) → IsAscending (xs ++ ys) → IsAscending xs
  IsAscending-front [] ys s = tt
  IsAscending-front (x ∷ xs) ys (h, s) = (front xs ys h, IsAscending-front xs ys s)
    where
      front :
          (xs ys : List A)
          → All (λ y. str_lt (key x) (key y) ≡ true) (xs ++ ys)
          → All (λ y. str_lt (key x) (key y) ≡ true) xs
      front [] ys h = tt
      front (z ∷ zs) ys (e, h) = (e, front zs ys h)

  length-insert : (x : A) (xs : List A) → length (insert x xs) ≡ length xs + 1
  unfolding insert
  length-insert x [] = omega arith
  length-insert x (y ∷ ys) = elim (Bool-cases (str_lt (key y) (key x))) [
    | inl below ↦ rw below (omega (arith, length-insert x ys))
    | inr above ↦ rw above (omega arith)
  ]

  pub length-sort_by_text : (xs : List A) → length (sort_by_text xs) ≡ length xs
  unfolding sort_by_text
  length-sort_by_text [] = refl
  length-sort_by_text (x ∷ xs) =
      length-insert x (sort_by_text xs) ∙ omega (arith, length-sort_by_text xs)

  pub All-last_of : (P : A → Type 0) (x : A) (xs : List A) → All P (x ∷ xs) → P (last_of x xs)
  All-last_of P x [] (p, h) = p
  All-last_of P x (y ∷ ys) (p, h) = All-last_of P y ys h

  pub All-front : (P : A → Type 0) (xs ys : List A) → All P (xs ++ ys) → All P xs
  All-front P [] ys h = tt
  All-front P (x ∷ xs) ys (p, h) = (p, All-front P xs ys h)
