-- ===== src/Avl/Shape.antt =====
-- What a tree means and what the fields of its nodes promise.
use byo_redis.Prelude.{
  ℕ, ◌+◌, ◌^◌, ◌≤◌, ◌<◌, ◌≡◌, refl, max, List, [], ◌∷◌, ◌++◌, length, arith, length-append,
}
use mathlib.Core.List.{append_assoc}
use byo_redis.Avl.{Tree, nil, node, Frame, in_left, in_right, Ancestors, plug, avl_height, avl_size}

-- the addresses in order
unfoldable pub inorder : Tree → List ℕ
inorder nil = []
inorder (node l a h s r) = inorder l ++ a ∷ inorder r

pub inorder-node : (l r : Tree) (a h s : ℕ) → inorder (node l a h s r) ≡ inorder l ++ a ∷ inorder r
unfolding inorder
inorder-node l r a h s = refl

abbrev pub count : Tree → ℕ
count nil = 0
count (node l a h s r) = 1 + count l + count r

pub length-inorder : (t : Tree) → length (inorder t) ≡ count t
unfolding inorder
length-inorder nil = refl
length-inorder (node l a h s r) =
    omega (arith, length-append (inorder l) (a ∷ inorder r), length-inorder l, length-inorder r)

-- Both fields of each node are right, and the heights of two siblings differ by at most one.
abbrev pub IsAvl : Tree → Type 0
IsAvl nil = Unit
IsAvl (node l a h s r) =
    (h ≡ 1 + max (avl_height l) (avl_height r))
    × (s ≡ 1 + count l + count r)
    × (avl_height l ≤ avl_height r + 1)
    × (avl_height r ≤ avl_height l + 1)
    × IsAvl l
    × IsAvl r

-- Ancestors that form an AVL tree with a child of height `hc` at the end of the path. Their sizes
-- may be out of date.
abbrev pub IsPath : Ancestors → ℕ → Type 0
IsPath [] hc = Unit
IsPath (in_left a h s r ∷ p) hc =
    (h ≡ 1 + max hc (avl_height r))
    × (hc ≤ avl_height r + 1)
    × (avl_height r ≤ hc + 1)
    × IsAvl r
    × IsPath p h
IsPath (in_right l a h s ∷ p) hc =
    (h ≡ 1 + max (avl_height l) hc)
    × (hc ≤ avl_height l + 1)
    × (avl_height l ≤ hc + 1)
    × IsAvl l
    × IsPath p h

-- the addresses in front of the subtree that a path leads to, and behind it
unfoldable pub before : Ancestors → List ℕ
before [] = []
before (in_left a h s r ∷ p) = before p
before (in_right l a h s ∷ p) = before p ++ (inorder l ++ a ∷ [])

unfoldable pub after : Ancestors → List ℕ
after [] = []
after (in_left a h s r ∷ p) = (a ∷ inorder r) ++ after p
after (in_right l a h s ∷ p) = after p

-- the addresses of the whole tree
abbrev pub whole : Ancestors → List ℕ → List ℕ
whole p xs = before p ++ (xs ++ after p)

abbrev pub count_path : Ancestors → ℕ
count_path [] = 0
count_path (in_left a h s r ∷ p) = 1 + count r + count_path p
count_path (in_right l a h s ∷ p) = 1 + count l + count_path p

-- a step from the path to the subtree does not change the whole
pub whole-plug :
    (f : Frame) (p : Ancestors) (t : Tree)
    → whole (f ∷ p) (inorder t) ≡ whole p (inorder (plug f t))
unfolding before after inorder
whole-plug (in_left a h s r) p t = simp append_assoc
whole-plug (in_right l a h s) p t = simp append_assoc

pub count-plug :
    (f : Frame) (p : Ancestors) (t : Tree)
    → count t + count_path (f ∷ p) ≡ count (plug f t) + count_path p
count-plug (in_left a h s r) p t = omega arith
count-plug (in_right l a h s) p t = omega arith

pub height-le-count : (t : Tree) → IsAvl t → avl_height t ≤ count t
height-le-count nil v = omega arith
height-le-count (node l a h s r) v = omega (arith, height-le-count l v.4, height-le-count r v.5)

pub avl_size-count : (t : Tree) → IsAvl t → count t < 2 ^ 32 → avl_size t ≡ count t
unfolding avl_size
avl_size-count nil v h = refl
avl_size-count (node l a h s r) v b = omega arith
