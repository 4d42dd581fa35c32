-- ===== src/Double/Laws.antt =====
-- Numbers, that is patterns that are not NaN, compare like their ranks.
use byo_redis.Prelude.{ℕ, ◌≡◌, true, false, not, ltb, ◌==◌, arith}
use byo_redis.Double.{isnan, rank, both_numbers, less, unequal}

pub both : (x y : ℕ) → isnan x ≡ false → isnan y ≡ false → both_numbers x y ≡ true
both x y n k = ground arith

pub less-rank : (x y : ℕ) → isnan x ≡ false → isnan y ≡ false → less x y ≡ ltb (rank x) (rank y)
unfolding less
less-rank x y n k = ground arith

pub unequal-rank :
    (x y : ℕ) → isnan x ≡ false → isnan y ≡ false → unequal x y ≡ not (rank x == rank y)
unfolding unequal
unequal-rank x y n k = ground arith
