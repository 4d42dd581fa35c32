-- ===== src/Zset/Order.antt =====
-- The order of the nodes: by score, and names by their bytes.
use byo_redis.Prelude.{
  ℕ, zero, suc, min, ◌≡◌, ◌≢◌, refl, Bool, true, false, not, List, [], ◌∷◌, take, length, ltb, ◌==◌,
  ==_iff, if◌then◌else◌, arith,
}
use byo_redis.Double.{isnan, rank}
use byo_redis.Double.Laws.{less-rank, unequal-rank}
use byo_redis.Zset.{ZNode, negative, null, positive, memcmp, zless}

-- names in dictionary order
abbrev pub lex : List ℕ → List ℕ → Bool
lex [] [] = false
lex [] (y ∷ ys) = true
lex (x ∷ xs) [] = false
lex (x ∷ xs) (y ∷ ys) = if ltb x y then true else if ltb y x then false else lex xs ys

-- the order of the names that zless takes from memcmp and the lengths
abbrev by_block : ℕ → List ℕ → List ℕ → Bool
by_block n xs ys = elim (memcmp (take n xs) (take n ys)) [
  | negative ↦ true
  | null ↦ ltb (length xs) (length ys)
  | positive ↦ false
]

by_block-lex :
    (n : ℕ) (xs ys : List ℕ) → n ≡ min (length xs) (length ys) → by_block n xs ys ≡ lex xs ys
by_block-lex zero [] [] h = refl
by_block-lex (suc n) [] ys h = absurd (omega arith)
by_block-lex zero [] (y ∷ ys) h = ground arith
by_block-lex zero (x ∷ xs) [] h = ground arith
by_block-lex (suc n) (x ∷ xs) [] h = absurd (omega arith)
by_block-lex zero (x ∷ xs) (y ∷ ys) h = absurd (omega arith)
by_block-lex (suc n) (x ∷ xs) (y ∷ ys) h = ground (arith, by_block-lex n xs ys (omega arith))

lex_trans : (xs ys zs : List ℕ) → lex xs ys ≡ true → lex ys zs ≡ true → lex xs zs ≡ true
lex_trans [] [] zs h k = ground arith
lex_trans [] (y ∷ ys) [] h k = ground arith
lex_trans [] (y ∷ ys) (z ∷ zs) h k = refl
lex_trans (x ∷ xs) [] zs h k = ground arith
lex_trans (x ∷ xs) (y ∷ ys) [] h k = ground arith
lex_trans (x ∷ xs) (y ∷ ys) (z ∷ zs) h k = ground (arith, lex_trans xs ys zs)

lex_total : (xs ys : List ℕ) → lex xs ys ≡ false → lex ys xs ≡ false → xs ≡ ys
lex_total [] [] h k = refl
lex_total [] (y ∷ ys) h k = ground arith
lex_total (x ∷ xs) [] h k = ground arith
lex_total (x ∷ xs) (y ∷ ys) h k = ground (arith, lex_total xs ys)

-- a node with a number for its score
abbrev pub IsNumber : ZNode → Type 0
IsNumber z = isnan z.score ≡ false

-- the order of (score, name) pairs
abbrev pub precedes : ZNode → ZNode → Bool
precedes y z =
    if rank y.score == rank z.score then lex y.name z.name else ltb (rank y.score) (rank z.score)

pub zless-precedes : (y z : ZNode) → IsNumber y → IsNumber z → zless y z ≡ precedes y z
unfolding zless
zless-precedes y z n k =
    rw
      (
        unequal-rank y.score z.score n k,
        less-rank y.score z.score n k,
        by_block-lex (min (length y.name) (length z.name)) y.name z.name refl,
      )
      (choose (rank y.score == rank z.score) _ _)
  where
    choose : (b : Bool) (p q : Bool) → (if not b then q else p) ≡ (if b then p else q)
    choose true p q = refl
    choose false p q = refl

pub precedes_trans :
    (x y z : ZNode) → precedes x y ≡ true → precedes y z ≡ true → precedes x z ≡ true
precedes_trans x y z h k = grind (arith, lex_trans x.name y.name z.name, ==_iff)

pub precedes_total : (y z : ZNode) → y.name ≢ z.name → precedes y z ≡ false → precedes z y ≡ true
precedes_total y z n h = grind (arith, lex_total y.name z.name, ==_iff)
