-- ===== src/Double.antt =====
-- The comparisons of the type `double`, on 64-bit patterns of IEEE 754: the language's `<`, `!=` and
-- isnan, which src/ds/zset.cc and src/server/commands.cc use.
pub mod Laws
use byo_redis.Prelude.{ℕ, ◌+◌, ◌-◌, ◌%◌, ◌^◌, Bool, ◌&&◌, not, ltb, leb, ◌==◌, if◌then◌else◌}

-- the exponent is all ones and the fraction is not 0
abbrev pub isnan : ℕ → Bool
isnan x = ltb 9218868437227405312 (x % 2 ^ 63)

-- the place of a number in the order of the numbers; the two zeros have the same
unfoldable pub rank : ℕ → ℕ
rank x = if leb (2 ^ 63) x then 2 ^ 64 - x else 2 ^ 63 + x

abbrev pub both_numbers : ℕ → ℕ → Bool
both_numbers x y = not (isnan x) && not (isnan y)

unfoldable pub less : ℕ → ℕ → Bool
less x y = both_numbers x y && ltb (rank x) (rank y)

unfoldable pub unequal : ℕ → ℕ → Bool
unequal x y = not (both_numbers x y && (rank x == rank y))
