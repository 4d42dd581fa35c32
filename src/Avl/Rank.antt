-- ===== src/Avl/Rank.antt =====
-- avl_rank: the position of a node in the order.
use byo_redis.Prelude.{ℕ, ◌+◌, ◌^◌, ◌<◌, ◌≡◌, refl, ap, [], ◌∷◌, ◌++◌, length, arith, length-append}
use native.Mathlib.Nat.{mod-eq_of_lt}
use byo_redis.Prelude.Int.{pos, ◌+ℤ◌}
use byo_redis.Avl.{Tree, node, in_left, in_right, Ancestors, skip, rank_loop, avl_rank}
use byo_redis.Avl.Shape.{
  inorder, count, length-inorder, IsAvl, IsPath, before, count_path, avl_size-count,
}

pub skip-count : (t : Tree) → IsAvl t → 1 + count t < 2 ^ 32 → skip t ≡ pos (1 + count t)
skip-count t v b = rw (avl_size-count t v (omega arith), mod-eq_of_lt b) refl

pos_sum : (m n : ℕ) → pos m +ℤ pos n ≡ pos (m + n)
unfolding ◌+ℤ◌
pos_sum m n = ground arith

rank_loop-pos :
    (n : ℕ) (p : Ancestors) (t : Tree) (hc : ℕ)
    → IsPath p hc
    → count_path p < 2 ^ 32
    → rank_loop (pos n) p t ≡ pos (n + length (before p))
unfolding rank_loop before
rank_loop-pos n [] t hc w b = ap pos (omega arith)
rank_loop-pos n (in_left a h s r ∷ p) t hc w b =
    rank_loop-pos n p (node t a h s r) h w.4 (omega arith)
rank_loop-pos n (in_right l a h s ∷ p) t hc w b =
    rw
      (
        skip-count l w.3 (omega arith),
        pos_sum n (1 + count l),
        rank_loop-pos (n + (1 + count l)) p (node l a h s t) h w.4 (omega arith),
      )
      (ap pos (
        omega (
          arith,
          length-append (before p) (inorder l ++ a ∷ []),
          length-append (inorder l) (a ∷ []),
          length-inorder l,
        )))

-- In an AVL tree of fewer than 2 ^ 32 nodes avl_rank is the number of addresses in front of the
-- node in the order of the whole tree.
pub avl_rank-before :
    (p : Ancestors) (l : Tree) (a h s : ℕ) (r : Tree) (hc : ℕ)
    → IsPath p hc
    → IsAvl (node l a h s r)
    → count (node l a h s r) + count_path p < 2 ^ 32
    → avl_rank p (node l a h s r) ≡ pos (length (before p ++ inorder l))
unfolding avl_rank
avl_rank-before p l a h s r hc w v b =
    rw
      (
        avl_size-count l v.4 (omega arith),
        rank_loop-pos (count l) p (node l a h s r) hc w (omega arith),
      )
      (ap pos (omega (arith, length-append (before p) (inorder l), length-inorder l)))
