-- ===== src/Avl/Offset.antt =====
-- avl_offset: the node that stands `offset` places further in the order.
use byo_redis.Prelude.{
  ℕ, zero, suc, ◌+◌, ◌^◌, ◌≤◌, ◌<◌, ◌≡◌, refl, sym, ◌∙◌, ◌⊎◌, true, false, ◌&&◌, not, [], ◌∷◌, ◌++◌,
  Option, none, some, ==_iff, length, arith, length-append,
}
use byo_redis.Prelude.Run.{Returns, Returns-map, Returns-if}
use byo_redis.Prelude.Int.{ℤ, pos, ◌+ℤ◌, ◌-ℤ◌, +ℤ_parts, -ℤ_parts, ltb_ℤ, pos_part, neg_part}
use byo_redis.Avl.{
  Tree, nil, node, Frame, in_left, in_right, Ancestors, plug, left_of, right_of, eq_ℤ, offset_loop,
  is_null,
}
use byo_redis.Avl.Shape.{
  inorder, count, length-inorder, IsAvl, before, whole, whole-plug, count-plug, count_path,
  avl_size-count,
}
use byo_redis.Avl.Rank.{skip-count}

-- the place of a node in the order of the whole tree
abbrev pub place_of : Ancestors → Tree → ℕ
place_of p t = length (before p) + count (left_of t)

-- What a search for the place `up - down` from the node `t` at the end of `p` returns: NULL when the
-- tree has no such place, or the node that has it.
pub data Stepped (p : Ancestors) (t : Tree) (up down : ℕ) : Option (Ancestors × Tree) → Type 0 where
  outside : (up < down) ⊎ (count t + count_path p + down ≤ up) → Stepped p t up down none
  inside :
      (p' : Ancestors) (t' : Tree)
      → is_null t' ≡ false
      → whole p' (inorder t') ≡ whole p (inorder t)
      → place_of p' t' + down ≡ up
      → Stepped p t up down (some (p', t'))

-- `pos` and `offset` differ by as much as the places of the node and of the target
abbrev pub IsTowards : ℤ → ℤ → ℕ → ℕ → ℕ → Type 0
IsTowards at z n up down = pos_part z + neg_part at + n + down ≡ up + neg_part z + pos_part at

-- the target is the node, or in one of the subtrees, and the tests say so
pub here : (at z : ℤ) (n up down : ℕ) → IsTowards at z n up down → eq_ℤ at z ≡ true → n + down ≡ up
here at z n up down h e =
    omega (arith, (==_iff (pos_part at + neg_part z) (pos_part z + neg_part at)).0 e)

pub elsewhere :
    (at z : ℤ) (n up down : ℕ)
    → IsTowards at z n up down
    → eq_ℤ at z ≡ false
    → (n + down < up) ⊎ (up < n + down)
elsewhere at z n up down h e =
    grind (arith, ==_iff (pos_part at + neg_part z) (pos_part z + neg_part at))

pub rightwards :
    (at z : ℤ) (n up down size : ℕ)
    → IsTowards at z n up down
    → ltb_ℤ at z && not (ltb_ℤ (at +ℤ pos size) z) ≡ true
    → (n + down < up) × (up ≤ n + size + down)
rightwards at z n up down size h e = ground (arith, +ℤ_parts at (pos size))

pub not_rightwards :
    (at z : ℤ) (n up down size : ℕ)
    → IsTowards at z n up down
    → ltb_ℤ at z && not (ltb_ℤ (at +ℤ pos size) z) ≡ false
    → (up ≤ n + down) ⊎ (n + size + down < up)
not_rightwards at z n up down size h e = ground (arith, +ℤ_parts at (pos size))

pub leftwards :
    (at z : ℤ) (n up down size : ℕ)
    → IsTowards at z n up down
    → ltb_ℤ z at && not (ltb_ℤ z (at -ℤ pos size)) ≡ true
    → (up < n + down) × (n + down ≤ up + size)
leftwards at z n up down size h e = ground (arith, -ℤ_parts at (pos size))

pub not_leftwards :
    (at z : ℤ) (n up down size : ℕ)
    → IsTowards at z n up down
    → ltb_ℤ z at && not (ltb_ℤ z (at -ℤ pos size)) ≡ false
    → (n + down ≤ up) ⊎ (up + size < n + down)
not_leftwards at z n up down size h e = ground (arith, -ℤ_parts at (pos size))

pub forward :
    (at z : ℤ) (n up down c n' : ℕ)
    → IsTowards at z n up down
    → n' ≡ n + c
    → IsTowards (at +ℤ pos c) z n' up down
forward at z n up down c n' h e = omega (arith, +ℤ_parts at (pos c))

pub backward :
    (at z : ℤ) (n up down c n' : ℕ)
    → IsTowards at z n up down
    → n ≡ n' + c
    → IsTowards (at -ℤ pos c) z n' up down
backward at z n up down c n' h e = omega (arith, -ℤ_parts at (pos c))

-- the place of the right child, and of the left one
pub place-right :
    (p : Ancestors) (l r : Tree) (a h s : ℕ)
    → is_null r ≡ false
    → place_of (in_right l a h s ∷ p) r ≡ place_of p (node l a h s r) + (1 + count (left_of r))
unfolding before
place-right p l r a h s e = omega (
  arith,
  length-append (before p) (inorder l ++ a ∷ []),
  length-append (inorder l) (a ∷ []),
  length-inorder l,
)

pub place-left :
    (p : Ancestors) (l r : Tree) (a h s : ℕ)
    → is_null l ≡ false
    → place_of p (node l a h s r) ≡ place_of (in_left a h s r ∷ p) l + (1 + count (right_of l))
unfolding before
place-left p nil r a h s e = ground arith
place-left p (node ll b h' s' lr) r a h s e = omega arith

not_null : (t : Tree) → 0 < count t → is_null t ≡ false
not_null nil h = absurd (omega arith)
not_null (node l a h s r) p = refl

pub left-IsAvl : (t : Tree) → IsAvl t → IsAvl (left_of t)
left-IsAvl nil v = tt
left-IsAvl (node l a h s r) v = v.4

pub right-IsAvl : (t : Tree) → IsAvl t → IsAvl (right_of t)
right-IsAvl nil v = tt
right-IsAvl (node l a h s r) v = v.5

pub count-parts :
    (t : Tree) → is_null t ≡ false → count t ≡ 1 + count (left_of t) + count (right_of t)
count-parts nil e = ground arith
count-parts (node l a h s r) e = refl

before-right :
    (p : Ancestors) (l : Tree) (a h s : ℕ)
    → length (before (in_right l a h s ∷ p)) ≡ length (before p) + count l + 1
unfolding before
before-right p l a h s = omega (
  arith,
  length-append (before p) (inorder l ++ a ∷ []),
  length-append (inorder l) (a ∷ []),
  length-inorder l,
)

before-left :
    (p : Ancestors) (r : Tree) (a h s : ℕ)
    → length (before (in_left a h s r ∷ p)) ≡ length (before p)
unfolding before
before-left p r a h s = refl

-- the search is the same from the parent
Stepped-parent :
    (f : Frame) (p : Ancestors) (t : Tree) (up down : ℕ) (o : Option (Ancestors × Tree))
    → Stepped (f ∷ p) t up down o
    → Stepped p (plug f t) up down o
Stepped-parent f p t up down none (outside w) = outside (omega (arith, w, count-plug f p t))
Stepped-parent f p t up down (some x) (inside p' t' e w i) = inside p' t' e (w ∙ whole-plug f p t) i

pub Stepped-child :
    (f : Frame) (p : Ancestors) (t : Tree) (up down : ℕ) (o : Option (Ancestors × Tree))
    → Stepped p (plug f t) up down o
    → Stepped (f ∷ p) t up down o
Stepped-child f p t up down none (outside w) = outside (omega (arith, w, count-plug f p t))
Stepped-child f p t up down (some x) (inside p' t' e w i) =
    inside p' t' e (w ∙ sym (whole-plug f p t)) i

-- A target inside the subtree is found below.
pub down-Stepped :
    (k : ℕ) (p : Ancestors) (t : Tree) (at z : ℤ) (up down : ℕ)
    → IsAvl t
    → count t < 2 ^ 32
    → count t < k
    → length (before p) + down ≤ up
    → up < length (before p) + count t + down
    → IsTowards at z (place_of p t) up down
    → Returns (offset_loop k p t at z) (Stepped p t up down)
unfolding offset_loop
down-Stepped zero p t at z up down v b f lo hi h = absurd (omega arith)
down-Stepped (suc k) p nil at z up down v b f lo hi h = absurd (omega arith)
down-Stepped (suc k) p (node l a hh s r) at z up down v b f lo hi h =
    rw (avl_size-count l v.4 (omega arith), avl_size-count r v.5 (omega arith))
      (Returns-if (eq_ℤ at z)
        (λ e. (
          some (p, node l a hh s r),
          refl,
          inside p (node l a hh s r) refl refl
              (here at z (place_of p (node l a hh s r)) up down h e),
        ))
        (λ e.
          Returns-if _
            (λ y.
              (let w = rightwards at z (place_of p (node l a hh s r)) up down (count r) h y in
                let nn = not_null r (omega arith) in
                let pr = place-right p l r a hh s nn in
                rw (skip-count (left_of r) (left-IsAvl r v.5) (omega (arith, count-parts r nn))) (
                  Returns-map
                    (down-Stepped k (in_right l a hh s ∷ p) r _ z up down v.5 (omega arith)
                      (omega arith) (omega (arith, before-right p l a hh s))
                      (omega (arith, before-right p l a hh s)) (forward at z _ up down _ _ h pr))
                    (Stepped-parent (in_right l a hh s) p r up down))))
            (λ n.
              Returns-if _
                (λ y.
                  (let w = leftwards at z (place_of p (node l a hh s r)) up down (count l) h y in
                    let nn = not_null l (omega arith) in
                    let pl = place-left p l r a hh s nn in
                    rw
                      (skip-count (right_of l) (right-IsAvl l v.4)
                        (omega (arith, count-parts l nn)))
                      (Returns-map
                        (down-Stepped k (in_left a hh s r ∷ p) l _ z up down v.4 (omega arith)
                          (omega arith) (omega (arith, before-left p r a hh s))
                          (omega (arith, before-left p r a hh s))
                          (backward at z _ up down _ _ h pl))
                        (Stepped-parent (in_left a hh s r) p l up down))))
                (λ n'. absurd (
                  omega (
                    arith,
                    elsewhere at z (place_of p (node l a hh s r)) up down h e,
                    not_rightwards at z (place_of p (node l a hh s r)) up down (count r) h n,
                    not_leftwards at z (place_of p (node l a hh s r)) up down (count l) h n',
                  ))))))
