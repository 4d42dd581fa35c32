-- ===== src/Tests/Trees.antt =====
-- Tests of src/ds/avl.cc.
use byo_redis.Prelude.{ℕ, ◌+◌, ◌≡◌, refl, [], ◌∷◌, ◌++◌, length, arith}
use byo_redis.Prelude.Run.{ok, Returns}
use byo_redis.Prelude.Int.{pos, negsuc, pos_part, neg_part}
use byo_redis.Avl.{
  Tree, nil, node, in_left, in_right, Ancestors, avl_init, avl_fix, avl_del, avl_rank, offset_loop,
  rebalance, climb, fix_difference, avl_update, avl_size, avl_fix_left, avl_fix_right, rot_left,
  rot_right,
}
use byo_redis.Avl.Shape.{inorder, IsAvl, IsPath, before, after, whole}
use byo_redis.Avl.Fix.{Fixed, avl_fix-insert}
use byo_redis.Avl.Delete.{Avoids, avl_del-Fixed}
use byo_redis.Avl.Rank.{avl_rank-before}
use byo_redis.Avl.Offset.{place_of, Stepped}
use byo_redis.Avl.Search.{root, offset_loop-Stepped}

abbrev leaf : ℕ → Tree
leaf a = node nil a 1 1 nil

-- the nodes at 30 and 40 below the node at 20, whose parent is at 10
abbrev pair : Tree
pair = node nil 30 2 2 (leaf 40)

abbrev pair-IsAvl : IsAvl pair
pair-IsAvl =
    (refl, refl, omega arith, omega arith, tt, (refl, refl, omega arith, omega arith, tt, tt))

-- the left child of the pair's parent has one node
abbrev path : Ancestors
path = in_right (leaf 10) 20 3 4 ∷ []

abbrev leaf-IsAvl : IsAvl (leaf 10)
leaf-IsAvl = (refl, refl, omega arith, omega arith, tt, tt)

abbrev path-IsPath : IsPath path 2
path-IsPath = (refl, omega arith, omega arith, leaf-IsAvl, tt)

-- a path to the place of a new leaf below the node at 50, whose parent at 40 has no other child
abbrev long_path : Ancestors
long_path = in_right nil 50 1 1 ∷ in_right nil 40 2 2 ∷ []

avl_fix-insert_example :
    Returns (avl_fix long_path (avl_init 60)) (Fixed (before long_path ++ 60 ∷ after long_path))
avl_fix-insert_example =
    avl_fix-insert long_path 60
      (refl, omega arith, omega arith, tt, (refl, omega arith, omega arith, tt, tt)) (omega arith)

-- the double rotation
rotated :
    avl_fix (in_left 50 1 1 nil ∷ in_right nil 40 2 2 ∷ []) (leaf 45)
    ≡ ok (node (leaf 40) 45 2 3 (leaf 50))
unfolding avl_fix rebalance climb fix_difference avl_update avl_size avl_fix_left avl_fix_right
    rot_left rot_right
rotated = refl

avoids : Avoids 30 (whole path (40 ∷ []))
unfolding before after inorder
avoids = ((λ e. omega arith), ((λ e. omega arith), ((λ e. omega arith), tt)))

avl_del-Fixed_example :
    Returns (avl_del path pair) (Fixed (whole path (inorder nil ++ inorder (leaf 40))))
unfolding inorder
avl_del-Fixed_example =
    avl_del-Fixed path nil (leaf 40) 30 2 2 pair-IsAvl path-IsPath (omega arith) avoids

avl_rank-before_example : avl_rank path pair ≡ pos (length (before path ++ inorder nil))
avl_rank-before_example =
    avl_rank-before path nil 30 2 2 (leaf 40) 2 path-IsPath pair-IsAvl (omega arith)

root-sound : IsAvl (root path pair)
root-sound = (refl, refl, omega arith, omega arith, leaf-IsAvl, pair-IsAvl)

offset_loop-Stepped_example :
    Returns
      (offset_loop 9 path pair (pos 0) (negsuc 1))
      (Stepped path pair (place_of path pair + pos_part (negsuc 1)) (neg_part (negsuc 1)))
offset_loop-Stepped_example =
    offset_loop-Stepped 9 path pair (negsuc 1) refl root-sound (omega arith) (omega arith)
