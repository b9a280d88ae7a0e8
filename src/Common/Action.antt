-- ===== src/Common/Action.antt =====
-- Fallible operations on a state: the state is kept when an operation fails.
use nuncio.Common.Fallible.{Result, ok, err}

abbrev pub Action {ℓ κ μ} : Type ℓ → Type κ → Type μ → Type (ℓ ⊔ κ ⊔ μ)
Action S E A = S → Result E A × S

module _ {ℓ κ μ} {S : Type ℓ} {E : Type κ} {A : Type μ} where
  abbrev pub pure : A → Action S E A
  pure a s = (ok a, s)

  abbrev pub fail : E → Action S E A
  fail e s = (err e, s)

module _ {ℓ κ μ ν} {S : Type ℓ} {E : Type κ} {A : Type μ} {B : Type ν} where
  abbrev pub continue : (A → Action S E B) → Result E A × S → Result E B × S
  continue next (err e, s) = (err e, s)
  continue next (ok a, s) = next a s

  infixl 5 ◌>>=◌
  abbrev pub ◌>>=◌ : Action S E A → (A → Action S E B) → Action S E B
  (first >>= next) s = continue next (first s)

module _ {ℓ κ ν} {S : Type ℓ} {E : Type κ} {B : Type ν} where
  infixl 5 ◌>>◌
  abbrev pub ◌>>◌ : Action S E (Unit {0}) → Action S E B → Action S E B
  (first >> next) s = continue (λ _. next) (first s)

-- What a property of states needs in order to hold after an operation, whatever its result.
module _ {ℓ κ ξ} {S : Type ℓ} {E : Type κ} (P : S → Type ξ) where
  abbrev pub Keeps {μ} : {A : Type μ} → Action S E A → Type (ℓ ⊔ ξ)
  Keeps m = (s : S) → P s → P ((m s).1)

  pub >>=-Keeps {μ ν} :
      {A : Type μ} {B : Type ν} (first : Action S E A) (next : A → Action S E B)
      → Keeps first
      → ((a : A) → Keeps (next a))
      → Keeps (first >>= next)
  >>=-Keeps first next h k s p = continued (first s) (h s p)
    where
      continued : (o : Result E _ × S) → P (o.1) → P ((continue next o).1)
      continued (err e, t) q = q
      continued (ok a, t) q = k a t q

-- What an operation that succeeds ensures of its result and the state after it.
module _ {ℓ κ μ ξ} {S : Type ℓ} {E : Type κ} {A : Type μ} where
  abbrev pub Post : (A → S → Type ξ) → Result E A × S → Type ξ
  Post Q (ok a, t) = Q a t
  Post Q (err e, t) = Unit

  abbrev pub Ensures : (S → Type ξ) → Action S E A → (A → S → Type ξ) → Type (ℓ ⊔ ξ)
  Ensures P m Q = (s : S) → P s → Post Q (m s)

  -- Every operation ensures nothing.
  pub Unit-Ensures : (P : S → Type ξ) (m : Action S E A) → Ensures P m (λ a s. Unit)
  Unit-Ensures P m s h = trivial (m s)
    where
      trivial : (o : Result E A × S) → Post (λ a s. Unit) o
      trivial (ok a, t) = tt
      trivial (err e, t) = tt

  -- An operation that keeps a property ensures it as well.
  pub Keeps-Ensures :
      (P : S → Type ξ) (m : Action S E A) (Q : A → S → Type ξ)
      → Keeps P m
      → Ensures P m Q
      → Ensures P m (λ a s. P s × Q a s)
  Keeps-Ensures P m Q k e s h = both (m s) (k s h) (e s h)
    where
      both : (o : Result E A × S) → P (o.1) → Post Q o → Post (λ a s. P s × Q a s) o
      both (ok a, t) p q = (p, q)
      both (err x, t) p q = tt

  pub imp-Ensures :
      (P : S → Type ξ) (m : Action S E A) (Q R : A → S → Type ξ)
      → ((a : A) (s : S) → Q a s → R a s)
      → Ensures P m Q
      → Ensures P m R
  imp-Ensures P m Q R f e s h = implied (m s) (e s h)
    where
      implied : (o : Result E A × S) → Post Q o → Post R o
      implied (ok a, t) q = f a t q
      implied (err x, t) q = tt

module _ {ℓ κ ξ} {S : Type ℓ} {E : Type κ} where
  pub >>=-Ensures {μ ν} :
      {A : Type μ} {B : Type ν} (P : S → Type ξ) (first : Action S E A) (R : A → S → Type ξ)
      (next : A → Action S E B) (Q : B → S → Type ξ)
      → Ensures P first R
      → ((a : A) → Ensures (R a) (next a) Q)
      → Ensures P (first >>= next) Q
  >>=-Ensures P first R next Q h k s p = continued (first s) (h s p)
    where
      continued : (o : Result E _ × S) → Post R o → Post Q (continue next o)
      continued (err e, t) r = tt
      continued (ok a, t) r = k a t r
