-- ===== src/Core/Update.antt =====
-- The comparison of versions in crates/nuncio-core/src/update.rs.
pub mod Order
pub mod Printed
use Prim.Native.Char.{code}
use nuncio.Common.{
  ℕ, ◌+◌, ◌-◌, ◌*◌, ◌^◌, String, Bool, true, false, ◌&&◌, ◌||◌, List, [], ◌∷◌, map, Option, none,
  some, if◌then◌else◌, ltb, leb, ◌==◌,
}
use nuncio.Common.Text.{split}

-- The value of some digits after `n`; the code stops at a value over `u64::MAX`, and fails as well.
unfoldable pub digits_value : ℕ → String → Option ℕ
digits_value n String.[] = if ltb n (2 ^ 64) then some n else none
digits_value n (String.◌∷◌ c s) =
    let rest = digits_value (n * 10 + (code c - b'0')) s in
    if leb b'0' (code c) && leb (code c) b'9' then rest else none

-- `str::parse::<u64>`
unfoldable pub parse_u64 : String → Option ℕ
parse_u64 String.[] = none
parse_u64 (String.◌∷◌ c String.[]) = digits_value 0 (String.◌∷◌ c String.[])
parse_u64 (String.◌∷◌ c (String.◌∷◌ d s)) =
    if code c == b'+'
    then digits_value 0 (String.◌∷◌ d s)
    else digits_value 0 (String.◌∷◌ c (String.◌∷◌ d s))

-- `unwrap_or(0)`
unfoldable pub or_zero : Option ℕ → ℕ
or_zero (some n) = n
or_zero none = 0

-- `trim_start_matches(['v', 'V'])`
unfoldable pub without_v : String → String
without_v String.[] = ""
without_v (String.◌∷◌ c s) =
    if code c == b'v' || code c == b'V' then without_v s else String.◌∷◌ c s

unfoldable pub parse_v : String → List ℕ
parse_v v = map (λ p. or_zero (parse_u64 p)) (split b'.' (without_v v))

-- The body of the loop over the positions.
unfoldable pub compare_at : (cv : ℕ) (lv : ℕ) (rest : Bool) → Bool
compare_at cv lv rest = if ltb cv lv then true else if ltb lv cv then false else rest

-- The loop: a missing number counts as 0.
unfoldable pub is_newer : (c : List ℕ) (l : List ℕ) → Bool
is_newer [] [] = false
is_newer [] (lv ∷ l) = compare_at 0 lv (is_newer [] l)
is_newer (cv ∷ c) [] = compare_at cv 0 (is_newer c [])
is_newer (cv ∷ c) (lv ∷ l) = compare_at cv lv (is_newer c l)

unfoldable pub is_newer_version : (current : String) (latest : String) → Bool
is_newer_version current latest = is_newer (parse_v current) (parse_v latest)
