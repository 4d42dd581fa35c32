-- ===== src/Commands/Ranges.antt =====
-- do_zcount: the number of pairs between two keys.
use byo_redis.Prelude.{
  ℕ, ◌-◌, ◌<◌, ◌^◌, ◌≡◌, refl, ap, sym, ◌∙◌, inl, inr, Bool-cases, ◌&&◌, List, ◌∷◌, ◌++◌, Option,
  none, some, length, length-append, ltb, lt→ltb, if◌then◌else◌, arith,
}
use byo_redis.Prelude.Int.{ℤ, pos, ◌-ℤ◌, ltb_ℤ}
use byo_redis.Avl.{Tree, Ancestors}
use byo_redis.Avl.Shape.{inorder, count, length-inorder, before, after}
use byo_redis.Avl.Rank.{avl_rank-before}
use byo_redis.Zset.{ZNode, ZMemory, ZSet, zset_seekge}
use byo_redis.Zset.Order.{IsNumber}
use byo_redis.Zset.Names.{IsZset}
use byo_redis.Zset.Removal.{around}
use byo_redis.Zset.Seek.{
  Ceiling, past, first, first-rank, below-tally, count_below, zset_seekge-Ceiling,
}
use byo_redis.Commands.{rank_found, range_count}

-- the rank of the first pair that is not less, if there is one
abbrev rank_below : ℕ → ℕ → Option ℤ
rank_below n b = if ltb b n then some (pos b) else none

Ceiling-rank_found :
    (m : ZMemory) (z : ZSet) (key : ZNode) (o : Option (Ancestors × Tree))
    → IsZset m z
    → count z.root < 2 ^ 32
    → Ceiling m key (count z.root) (inorder z.root) o
    → rank_found o ≡ rank_below (count z.root) (count_below m key z.root)
Ceiling-rank_found m z key none v b (past low) =
    all_below (count_below m key z.root) (count z.root)
      (omega (arith, below-tally m key (inorder z.root) low, length-inorder z.root))
  where
    all_below : (c n : ℕ) → c ≡ n → none ≡ rank_below n c
    all_below c n e = ground arith
Ceiling-rank_found m z key (some x) v b (first p l a h s r w k c e low n) =
    some_below (length (before p ++ inorder l)) (count z.root) _
      (ap some (avl_rank-before p l a h s r h w k (omega (arith, c, b))))
      (first-rank m z key p l a h s r v e low n)
      (omega (
        arith,
        ap length (sym e ∙ around p l a h s r),
        length-append (before p ++ inorder l) (a ∷ (inorder r ++ after p)),
        length-inorder z.root,
      ))
  where
    some_below : (c n d : ℕ) {o : Option ℤ} → o ≡ some (pos c) → c ≡ d → c < n → o ≡ rank_below n d
    some_below c n d q e lt = ground (arith, lt→ltb c n)

-- the pairs between the two places, or 0 when no pair stands at the second or none at the first
abbrev pub counted : ℕ → ℕ → ℕ → ℤ
counted n b1 b2 = if ltb b1 n && ltb b2 n then pos (b2 - b1) else pos 0

difference :
    (b1 b2 : ℕ) → (let n = pos b2 -ℤ pos b1 in if ltb_ℤ n (pos 0) then pos 0 else n) ≡ pos (b2 - b1)
unfolding ◌-ℤ◌
difference b1 b2 = ground arith

-- In a sound set of fewer than 2 ^ 32 pairs, for scores that are not NaNs, do_zcount counts the pairs that are less
-- than the second key and not less than the first, which are none when the keys are the other way round. When no pair is as great as the second
-- key, or none as the first, it counts 0.
pub range_count-counted :
    (m : ZMemory) (z : ZSet) (score1 : ℕ) (name1 : List ℕ) (score2 : ℕ) (name2 : List ℕ)
    → IsZset m z
    → count z.root < 2 ^ 32
    → IsNumber (record { score = score1; name = name1 })
    → IsNumber (record { score = score2; name = name2 })
    → range_count m z score1 name1 score2 name2
      ≡ counted
          (count z.root)
          (count_below m (record { score = score1; name = name1 }) z.root)
          (count_below m (record { score = score2; name = name2 }) z.root)
unfolding range_count
range_count-counted m z score1 name1 score2 name2 v b n1 n2 =
    ap (λ o. between o (rank_found (zset_seekge m z score2 name2)))
      (Ceiling-rank_found m z _ (zset_seekge m z score1 name1) v b
        (zset_seekge-Ceiling m z score1 name1 v n1))
    ∙ ap (between (rank_below (count z.root) (count_below m _ z.root))) (
        Ceiling-rank_found m z _ (zset_seekge m z score2 name2) v b
          (zset_seekge-Ceiling m z score2 name2 v n2))
    ∙ both (count z.root) (count_below m _ z.root) (count_below m _ z.root)
  where
    between : Option ℤ → Option ℤ → ℤ
    between o1 o2 = elim o1 [
      | none ↦ pos 0
      | some rank1 ↦ elim o2 [
        | none ↦ pos 0
        | some rank2 ↦ let d = rank2 -ℤ rank1 in if ltb_ℤ d (pos 0) then pos 0 else d
      ]
    ]

    both : (n b1 b2 : ℕ) → between (rank_below n b1) (rank_below n b2) ≡ counted n b1 b2
    both n b1 b2 = elim (Bool-cases (ltb b1 n)) [
      | inl c ↦ elim (Bool-cases (ltb b2 n)) [
        | inl d ↦ rw (c, d) (difference b1 b2)
        | inr d ↦ rw (c, d) refl
      ]
      | inr c ↦ rw c refl
    ]
