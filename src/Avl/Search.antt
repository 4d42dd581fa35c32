-- ===== src/Avl/Search.antt =====
-- avl_offset: the way up to an ancestor that has the target below it.
use byo_redis.Prelude.{
  ℕ, zero, suc, ◌+◌, ◌^◌, ◌≤◌, ◌<◌, ◌≡◌, refl, ◌⊎◌, inl, inr, false, [], ◌∷◌, Option, none, length,
  arith,
}
use byo_redis.Prelude.Run.{Run, ok, Returns, Returns-map, Returns-if}
use byo_redis.Prelude.Int.{ℤ, pos, pos_part, neg_part}
use byo_redis.Avl.{
  Tree, nil, node, Frame, in_left, in_right, Ancestors, plug, left_of, right_of, eq_ℤ, parent_pos,
  offset_loop, is_null,
}
use byo_redis.Avl.Shape.{count, IsAvl, before, count_path, count-plug, avl_size-count}
use byo_redis.Avl.Rank.{skip-count}
use byo_redis.Avl.Offset.{
  place_of, Stepped, outside, IsTowards, here, rightwards, leftwards, forward, backward,
  place-right, place-left, left-IsAvl, right-IsAvl, count-parts, Stepped-child, down-Stepped,
}

-- the root of the tree that a subtree and its ancestors are
abbrev pub root : Ancestors → Tree → Tree
root [] t = t
root (f ∷ p) t = root p (plug f t)

plug-IsAvl : (f : Frame) (t : Tree) → IsAvl (plug f t) → IsAvl t
plug-IsAvl (in_left a h s r) t v = v.4
plug-IsAvl (in_right l a h s) t v = v.5

root-IsAvl : (p : Ancestors) (t : Tree) → IsAvl (root p t) → IsAvl t
root-IsAvl [] t v = v
root-IsAvl (f ∷ p) t v = plug-IsAvl f t (root-IsAvl p (plug f t) v)

parent_pos-IsTowards :
    (f : Frame) (p : Ancestors) (t : Tree) (at z : ℤ) (up down : ℕ)
    → is_null t ≡ false
    → IsAvl t
    → count t < 2 ^ 32
    → IsTowards at z (place_of (f ∷ p) t) up down
    → IsTowards (parent_pos f t at) z (place_of p (plug f t)) up down
unfolding parent_pos
parent_pos-IsTowards (in_right l a h s) p t at z up down nn v b w =
    rw (skip-count (left_of t) (left-IsAvl t v) (omega (arith, count-parts t nn)))
      (backward at z _ up down _ _ w (place-right p l t a h s nn))
parent_pos-IsTowards (in_left a h s r) p t at z up down nn v b w =
    rw (skip-count (right_of t) (right-IsAvl t v) (omega (arith, count-parts t nn)))
      (forward at z _ up down _ _ w (place-left p t r a h s nn))

-- a target outside the subtree sends the loop to the parent
far_up :
    (k : ℕ) (p : Ancestors) (l : Tree) (a h s : ℕ) (r : Tree) (at z : ℤ) (up down : ℕ)
    → IsAvl (node l a h s r)
    → count (node l a h s r) < 2 ^ 32
    → (up < length (before p) + down) ⊎ (length (before p) + count (node l a h s r) + down ≤ up)
    → IsTowards at z (place_of p (node l a h s r)) up down
    → Returns
        (elim p as (λ x. Run (Option (Ancestors × Tree))) [
          | [] ↦ ok none
          | f ∷ rest ↦
              offset_loop k rest (plug f (node l a h s r)) (parent_pos f (node l a h s r) at) z
        ])
        (Stepped p (node l a h s r) up down)
    → Returns (offset_loop (suc k) p (node l a h s r) at z) (Stepped p (node l a h s r) up down)
unfolding offset_loop
far_up k p l a h s r at z up down v b far w rest =
    rw (avl_size-count l v.4 (omega arith), avl_size-count r v.5 (omega arith))
      (Returns-if (eq_ℤ at z)
        (λ e. absurd (omega (arith, far, here at z (place_of p (node l a h s r)) up down w e)))
        (λ e.
          Returns-if _
            (λ y. absurd (
              omega
                (arith, far, rightwards at z (place_of p (node l a h s r)) up down (count r) w y)))
            (λ n.
              Returns-if _
                (λ y. absurd (
                  omega (
                    arith,
                    far,
                    leftwards at z (place_of p (node l a h s r)) up down (count l) w y,
                  )))
                (λ n'. rest))))

inside_or_far :
    (n c up down : ℕ)
    → ((n + down ≤ up) × (up < n + c + down)) ⊎ ((up < n + down) ⊎ (n + c + down ≤ up))
inside_or_far n c up down = omega arith

plug-not_null : (f : Frame) (t : Tree) → is_null (plug f t) ≡ false
plug-not_null (in_left a h s r) t = refl
plug-not_null (in_right l a h s) t = refl

up-Stepped :
    (k : ℕ) (p : Ancestors) (t : Tree) (at z : ℤ) (up down : ℕ)
    → is_null t ≡ false
    → IsAvl (root p t)
    → count t + count_path p < 2 ^ 32
    → length p + count t + count_path p < k
    → IsTowards at z (place_of p t) up down
    → Returns (offset_loop k p t at z) (Stepped p t up down)
up-Stepped zero p t at z up down nn v b f w = absurd (omega arith)
up-Stepped (suc k) p nil at z up down nn v b f w = ground arith
up-Stepped (suc k) [] (node l a h s r) at z up down nn v b f w =
    elim (inside_or_far (length (before [])) (count (node l a h s r)) up down) [
      | inl (lo, hi) ↦
          down-Stepped (suc k) [] (node l a h s r) at z up down v (omega arith) (omega arith) lo hi
            w
      | inr far ↦
          far_up k [] l a h s r at z up down v (omega arith) far w
            (none, refl, outside (unfold before in omega (arith, far)))
    ]
up-Stepped (suc k) (g ∷ p) (node l a h s r) at z up down nn v b f w =
    elim (inside_or_far (length (before (g ∷ p))) (count (node l a h s r)) up down) [
      | inl (lo, hi) ↦
          down-Stepped (suc k) (g ∷ p) (node l a h s r) at z up down (root-IsAvl (g ∷ p) _ v)
            (omega arith) (omega arith) lo hi w
      | inr far ↦
          far_up k (g ∷ p) l a h s r at z up down (root-IsAvl (g ∷ p) _ v) (omega arith) far w (
            Returns-map
              (up-Stepped k p (plug g (node l a h s r)) _ z up down
                (plug-not_null g (node l a h s r)) v
                (omega (arith, count-plug g p (node l a h s r)))
                (omega (arith, count-plug g p (node l a h s r)))
                (parent_pos-IsTowards g p (node l a h s r) at z up down refl
                  (root-IsAvl (g ∷ p) _ v) (omega arith) w))
              (Stepped-child g p (node l a h s r) up down))
    ]

-- The loop of avl_offset, from `pos` = 0 at a node of an AVL tree of fewer than 2 ^ 32 nodes, ends
-- on a fuel above the number of nodes and ancestors. It returns the node of the same tree that
-- stands `offset` places further in the order, or NULL when the tree has no such place.
pub offset_loop-Stepped :
    (k : ℕ) (p : Ancestors) (t : Tree) (offset : ℤ)
    → is_null t ≡ false
    → IsAvl (root p t)
    → count t + count_path p < 2 ^ 32
    → length p + count t + count_path p < k
    → Returns
        (offset_loop k p t (pos 0) offset)
        (Stepped p t (place_of p t + pos_part offset) (neg_part offset))
offset_loop-Stepped k p t offset nn v b f =
    up-Stepped k p t (pos 0) offset (place_of p t + pos_part offset) (neg_part offset) nn v b f
      (omega arith)
