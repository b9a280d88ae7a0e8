-- ===== src/Store/Outbox/Backoff.antt =====
-- The retry delays of crates/nuncio-filter/src/outbox.rs.
use nuncio.Common.{ℕ, zero, suc, ◌+◌, ◌*◌, ◌/◌, ◌%◌, ◌^◌, ◌≤◌, ◌<◌, min, ◌≡◌, arith}
use nuncio.Common.Int.{ℤ, pos}
use nuncio.Store.Outbox.{calculate_backoff_ms, as_u32}

pow_pos : (a : ℕ) → 1 ≤ 2 ^ a
pow_pos zero = omega arith
pow_pos (suc a) = omega (arith, pow_pos a)

pow_mono : (a b : ℕ) → a ≤ b → 2 ^ a ≤ 2 ^ b
pow_mono zero b h = pow_pos b
pow_mono (suc a) zero h = omega (arith, h)
pow_mono (suc a) (suc b) h = omega (arith, pow_mono a b (omega (arith, h)))

-- The delay for a factor that does not overflow.
abbrev delay : ℕ → ℕ
delay f = 500 * f + 500 * f / 4 % 100

delay-eq :
    (f : ℕ)
    → f ≤ 1024
    → (500 * (f % 2 ^ 64) % 2 ^ 64 + 500 * (f % 2 ^ 64) % 2 ^ 64 / 4 % 100) % 2 ^ 64 ≡ delay f
delay-eq f h = omega arith

delay_mono : (f g : ℕ) → f ≤ g → delay f ≤ delay g
delay_mono f g h = omega arith

calculate_backoff_ms_lem : (n : ℤ) → calculate_backoff_ms n ≡ delay (2 ^ min (as_u32 n) 10)
unfolding calculate_backoff_ms
calculate_backoff_ms_lem n = delay-eq _ (pow_mono (min (as_u32 n) 10) 10 (omega arith))

-- For retry counts that are not negative the delay is at least 525 ms, does not fall when the count
-- rises, and is at most 512 seconds.
pub calculate_backoff_ms_bounds :
    (a b : ℕ)
    → a ≤ b
    → b < 2 ^ 31
    → (525 ≤ calculate_backoff_ms (pos a))
      × (calculate_backoff_ms (pos a) ≤ calculate_backoff_ms (pos b))
      × (calculate_backoff_ms (pos b) ≤ 512000)
unfolding as_u32
calculate_backoff_ms_bounds a b h k =
    rw (calculate_backoff_ms_lem (pos a), calculate_backoff_ms_lem (pos b))
      (
        delay_mono 1 _ (pow_pos (min (a % 2 ^ 32) 10)),
        delay_mono _ _ (pow_mono (min (a % 2 ^ 32) 10) (min (b % 2 ^ 32) 10) (omega (arith, h, k))),
        delay_mono _ 1024 (pow_mono (min (b % 2 ^ 32) 10) 10 (omega arith)),
      )
