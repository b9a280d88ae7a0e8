-- ===== src/Core/Update/Order.antt =====
-- The order on versions that crates/nuncio-core/src/update.rs decides.
use nuncio.Common.{
  ℕ, zero, suc, sym, ◌∙◌, ◌<◌, String, ◌≡◌, ◌↔◌, refl, Bool, true, List, [], ◌∷◌, ◌⊎◌, inl, inr,
  arith,
}
use nuncio.Core.Update.{is_newer, is_newer_version, parse_v, compare_at}

-- The number at a position, 0 past the end.
abbrev pub at : ℕ → List ℕ → ℕ
at i [] = 0
at zero (x ∷ a) = x
at (suc i) (x ∷ a) = at i a

-- At the first position where the numbers differ, the later ones are the greater.
abbrev pub Precedes : List ℕ → List ℕ → Type 0
Precedes a b = (i : ℕ) × (at i a < at i b) × ((j : ℕ) → j < i → at j a ≡ at j b)

abbrev tail : List ℕ → List ℕ
tail [] = []
tail (x ∷ a) = a

at-tail : (i : ℕ) (a : List ℕ) → at (suc i) a ≡ at i (tail a)
at-tail i [] = refl
at-tail i (x ∷ a) = refl

-- The first position decides, or the others.
Precedes-iff :
    (a b : List ℕ)
    → Precedes a b ↔ ((at 0 a < at 0 b) ⊎ ((at 0 a ≡ at 0 b) × Precedes (tail a) (tail b)))
Precedes-iff a b = (split, join)
  where
    split : Precedes a b → (at 0 a < at 0 b) ⊎ ((at 0 a ≡ at 0 b) × Precedes (tail a) (tail b))
    split (zero, less, same) = inl less
    split (suc i, less, same) = inr (
      same 0 (omega arith),
      (
        i,
        omega (arith, less, at-tail i a, at-tail i b),
        λ j h. sym (at-tail j a) ∙ same (suc j) (omega (arith, h)) ∙ at-tail j b,
      ),
    )

    below :
        (i : ℕ)
        → at 0 a ≡ at 0 b
        → ((j : ℕ) → j < i → at j (tail a) ≡ at j (tail b))
        → (j : ℕ) → j < suc i
        → at j a ≡ at j b
    below i e same zero h = e
    below i e same (suc j) h = at-tail j a ∙ same j (omega (arith, h)) ∙ sym (at-tail j b)

    join : (at 0 a < at 0 b) ⊎ ((at 0 a ≡ at 0 b) × Precedes (tail a) (tail b)) → Precedes a b
    join (inl less) = (0, less, λ j h. absurd (omega (arith, h)))
    join (inr (e, (i, less, same))) =
        (suc i, omega (arith, less, at-tail i a, at-tail i b), below i e same)

compare_at_iff :
    (x y : ℕ) (rest : Bool) → (compare_at x y rest ≡ true) ↔ ((x < y) ⊎ ((x ≡ y) × (rest ≡ true)))
unfolding compare_at
compare_at_iff x y rest = ground arith

-- One step of the loop, on what is known of the rest.
compare_at-Precedes :
    (a b : List ℕ) (rest : Bool)
    → (rest ≡ true) ↔ Precedes (tail a) (tail b)
    → (compare_at (at 0 a) (at 0 b) rest ≡ true) ↔ Precedes a b
compare_at-Precedes a b rest h = (
  λ e. (Precedes-iff a b).1 (elim ((compare_at_iff _ _ rest).0 e) [
    | inl less ↦ inl less
    | inr (same, r) ↦ inr (same, h.0 r)
  ]),
  λ p.
      (compare_at_iff _ _ rest).1
        (elim ((Precedes-iff a b).0 p) [ inl less ↦ inl less | inr (same, q) ↦ inr (same, h.1 q) ]),
)

is_newer_iff : (c l : List ℕ) → (is_newer c l ≡ true) ↔ Precedes c l
unfolding is_newer
is_newer_iff [] [] = (λ e. cc e, λ (i, less, same). absurd (omega (arith, less)))
is_newer_iff [] (y ∷ l) = compare_at-Precedes [] (y ∷ l) _ (is_newer_iff [] l)
is_newer_iff (x ∷ c) [] = compare_at-Precedes (x ∷ c) [] _ (is_newer_iff c [])
is_newer_iff (x ∷ c) (y ∷ l) = compare_at-Precedes (x ∷ c) (y ∷ l) _ (is_newer_iff c l)

-- The latest version is newer exactly when, at the first position where the numbers of the two differ,
-- its number is the greater one; missing numbers are read as 0.
pub is_newer_version_iff :
    (current latest : String)
    → (is_newer_version current latest ≡ true) ↔ Precedes (parse_v current) (parse_v latest)
unfolding is_newer_version
is_newer_version_iff current latest = is_newer_iff (parse_v current) (parse_v latest)
