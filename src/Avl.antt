-- ===== src/Avl.antt =====
-- include/byoredis/ds/avl.hh and src/ds/avl.cc: the AVL tree with parent pointers.
-- A tree is a term; a node carries its address and its `height` and `size` fields. A node that
-- the code holds a pointer to is a subtree with the path of its ancestors, the nearest first:
-- `node->parent` is the head of the path, and whether the node is the left or the right child of
-- its parent is the constructor of that frame. A read through NULL faults.
-- `height` is a uint32_t, and so is what avl_size returns, so that both are taken modulo 2 ^ 32.
pub mod Shape
pub mod Balance
pub mod Fix
pub mod Delete
pub mod Rank
pub mod Offset
pub mod Search
use byo_redis.Prelude.{
  ℕ, zero, suc, ◌+◌, ◌%◌, ◌^◌, max, Bool, true, false, ◌&&◌, not, List, [], ◌∷◌, Option, none, some,
  ltb, leb, ◌==◌, if◌then◌else◌,
}
use byo_redis.Prelude.Run.{Run, ok, fault, null_pointer, assert_failed, out_of_fuel, ◌>>=◌, check}
use byo_redis.Prelude.Int.{ℤ, pos, ◌+ℤ◌, ◌-ℤ◌, ltb_ℤ, pos_part, neg_part}

pub data Tree : Type 0 where
  nil : Tree
  node : (left : Tree) (address height size : ℕ) (right : Tree) → Tree

-- an ancestor, without the subtree that the path comes from
pub data Frame : Type 0 where
  in_left : (address height size : ℕ) (right : Tree) → Frame
  in_right : (left : Tree) (address height size : ℕ) → Frame

abbrev pub Ancestors : Type 0
Ancestors = List Frame

-- the parent, with the child in its place
abbrev pub plug : Frame → Tree → Tree
plug (in_left a h s r) t = node t a h s r
plug (in_right l a h s) t = node l a h s t

pub avl_init : ℕ → Tree
avl_init a = node nil a 1 1 nil

abbrev pub avl_height : Tree → ℕ
avl_height nil = 0
avl_height (node l a h s r) = h

unfoldable pub avl_size : Tree → ℕ
avl_size nil = 0
avl_size (node l a h s r) = s % 2 ^ 32

unfoldable pub avl_update : Tree → Run Tree
avl_update nil = fault null_pointer
avl_update (node l a h s r) = ok (
    node l a ((1 + max (avl_height l) (avl_height r)) % 2 ^ 32)
      ((1 + avl_size l + avl_size r) % 2 ^ 32) r)

unfoldable pub rot_left : Tree → Run Tree
rot_left (node l a h s (node inner b h' s' r)) = do
  low ← avl_update (node l a h s inner)
  avl_update (node low b h' s' r)
rot_left _ = fault null_pointer

unfoldable pub rot_right : Tree → Run Tree
rot_right (node (node l b h' s' inner) a h s r) = do
  low ← avl_update (node inner a h s r)
  avl_update (node l b h' s' low)
rot_right _ = fault null_pointer

unfoldable pub avl_fix_left : Tree → Run Tree
avl_fix_left (node (node ll b h' s' lr) a h s r) =
    if ltb (avl_height ll) (avl_height lr)
    then (do l ← rot_left (node ll b h' s' lr); rot_right (node l a h s r))
    else rot_right (node (node ll b h' s' lr) a h s r)
avl_fix_left _ = fault null_pointer

unfoldable pub avl_fix_right : Tree → Run Tree
avl_fix_right (node l a h s (node rl b h' s' rr)) =
    if ltb (avl_height rr) (avl_height rl)
    then (do r ← rot_right (node rl b h' s' rr); rot_left (node l a h s r))
    else rot_left (node l a h s (node rl b h' s' rr))
avl_fix_right _ = fault null_pointer

-- the two tests of a round of avl_fix, on the updated node
unfoldable pub fix_difference : Tree → Run Tree
fix_difference nil = fault null_pointer
fix_difference (node l a h s r) =
    if avl_height l == (avl_height r + 2) % 2 ^ 32
    then avl_fix_left (node l a h s r)
    else if avl_height r == (avl_height l + 2) % 2 ^ 32
    then avl_fix_right (node l a h s r)
    else ok (node l a h s r)

-- one round of the loop of avl_fix
unfoldable pub rebalance : Tree → Run Tree
rebalance t = avl_update t >>= fix_difference

-- the rounds from the parent on; the fixed subtree is attached to its parent first
unfoldable pub climb : Ancestors → Tree → Run Tree
climb [] t = ok t
climb (f ∷ p) t = rebalance (plug f t) >>= climb p

unfoldable pub avl_fix : Ancestors → Tree → Run Tree
avl_fix p t = rebalance t >>= climb p

-- `none` is no child: the test `!node->left` and so on
abbrev pub is_null : Tree → Bool
is_null nil = true
is_null (node l a h s r) = false

unfoldable pub avl_del_easy : Ancestors → Tree → Run Tree
avl_del_easy p nil = fault null_pointer
avl_del_easy p (node l a h s r) =
    let child = if is_null l then r else l in
    let detach : Run Tree = elim p [ [] ↦ ok child | f ∷ rest ↦ avl_fix rest (plug f child) ] in
    if is_null l then detach else check (is_null r) assert_failed detach

-- the loop that finds the in-order successor: the leftmost node below `t`
unfoldable pub leftmost : Ancestors → Tree → Ancestors × Tree
leftmost p nil = (p, nil)
leftmost p (node nil a h s r) = (p, node nil a h s r)
leftmost p (node (node ll b h' s' lr) a h s r) = leftmost (in_left a h s r ∷ p) (node ll b h' s' lr)

abbrev pub address_of : Tree → ℕ
address_of nil = 0
address_of (node l a h s r) = a

-- `*victim = *node` and the writes behind it: the node `victim` takes the place of `a`
unfoldable pub take_place : ℕ → ℕ → Tree → Tree
take_place a victim nil = nil
take_place a victim (node l b h s r) =
    node (take_place a victim l) (if b == a then victim else b) h s (take_place a victim r)

unfoldable pub avl_del : Ancestors → Tree → Run Tree
avl_del p nil = fault null_pointer
avl_del p (node l a h s r) =
    let two : Run Tree = do
      let found = leftmost (in_right l a h s ∷ p) r
      root ← avl_del_easy found.0 found.1
      ok (take_place a (address_of found.1) root)
    in if is_null l
      then avl_del_easy p (node l a h s r)
      else if is_null r
      then avl_del_easy p (node l a h s r)
      else two

-- `1 + avl_size(t)`, a uint32_t
abbrev pub skip : Tree → ℤ
skip t = pos ((1 + avl_size t) % 2 ^ 32)

abbrev pub left_of : Tree → Tree
left_of nil = nil
left_of (node l a h s r) = l

abbrev pub right_of : Tree → Tree
right_of nil = nil
right_of (node l a h s r) = r

abbrev pub eq_ℤ : ℤ → ℤ → Bool
eq_ℤ a b = pos_part a + neg_part b == pos_part b + neg_part a

-- `pos` after a step up: the node was a right or a left child
unfoldable pub parent_pos : Frame → Tree → ℤ → ℤ
parent_pos (in_right l a h s) t at = at -ℤ skip (left_of t)
parent_pos (in_left a h s r) t at = at +ℤ skip (right_of t)

-- The loop of avl_offset, on fuel: the node, its ancestors, `pos` and `offset`. The result `none`
-- is NULL.
unfoldable pub offset_loop : ℕ → Ancestors → Tree → ℤ → ℤ → Run (Option (Ancestors × Tree))
offset_loop zero p t at offset = fault out_of_fuel
offset_loop (suc k) p nil at offset = fault null_pointer
offset_loop (suc k) p (node l a h s r) at offset =
    let t = node l a h s r in
    let to_right = offset_loop k (in_right l a h s ∷ p) r (at +ℤ skip (left_of r)) offset in
    let to_left = offset_loop k (in_left a h s r ∷ p) l (at -ℤ skip (right_of l)) offset in
    let up : Run (Option (Ancestors × Tree)) = elim p [
      | [] ↦ ok none
      | f ∷ rest ↦ offset_loop k rest (plug f t) (parent_pos f t at) offset
    ] in
    if eq_ℤ at offset
    then ok (some (p, t))
    else if ltb_ℤ at offset && not (ltb_ℤ (at +ℤ pos (avl_size r)) offset)
    then to_right
    else if ltb_ℤ offset at && not (ltb_ℤ offset (at -ℤ pos (avl_size l)))
    then to_left
    else up

-- the loop of avl_rank: `rank` so far, the node and its ancestors
unfoldable pub rank_loop : ℤ → Ancestors → Tree → ℤ
rank_loop rank [] t = rank
rank_loop rank (in_left a h s r ∷ p) t = rank_loop rank p (node t a h s r)
rank_loop rank (in_right l a h s ∷ p) t = rank_loop (rank +ℤ skip l) p (node l a h s t)

unfoldable pub avl_rank : Ancestors → Tree → ℤ
avl_rank p t = rank_loop (pos (avl_size (left_of t))) p t
