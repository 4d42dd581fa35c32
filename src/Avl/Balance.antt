-- ===== src/Avl/Balance.antt =====
-- One round of avl_fix: the fields of a node are renewed, and a difference of two is rotated away.
use byo_redis.Prelude.{
  ==_iff, ◌≢◌, ℕ, ◌+◌, ◌%◌, ◌^◌, ◌≤◌, ◌<◌, ◌≡◌, refl, max, ◌∷◌, ◌++◌, arith, ltb, ◌==◌, true, false,
}
use mathlib.Core.List.{append_assoc}
use native.Mathlib.Nat.{mod-eq_of_lt}
use byo_redis.Prelude.Run.{ok, ◌>>=◌, Returns, Returns-if}
use byo_redis.Avl.{
  Tree, nil, node, avl_height, avl_size, avl_update, rot_left, rot_right, avl_fix_left,
  avl_fix_right, fix_difference, rebalance,
}
use byo_redis.Avl.Shape.{inorder, count, IsAvl, height-le-count, avl_size-count}

-- a node with right fields
abbrev pub renewed : Tree → ℕ → Tree → Tree
renewed l a r = node l a (1 + max (avl_height l) (avl_height r)) (1 + count l + count r) r

-- what the functions read off a subtree
record IsRead (t : Tree) : Type 0 where
  size : avl_size t ≡ count t
  height : avl_height t ≤ count t

IsAvl-IsRead : (t : Tree) → IsAvl t → count t < 2 ^ 32 → IsRead t
IsAvl-IsRead t v b = record { size = avl_size-count t v b; height = height-le-count t v }

module _ (l r : Tree) (a : ℕ) (vl : IsRead l) (vr : IsRead r)
    (b : 1 + count l + count r < 2 ^ 32) where
  avl_update-renewed : (h s : ℕ) → avl_update (node l a h s r) ≡ ok (renewed l a r)
  unfolding avl_update
  avl_update-renewed h s =
      let eh : (1 + max (avl_height l) (avl_height r)) % 2 ^ 32
          ≡ 1 + max (avl_height l) (avl_height r) =
        omega (arith, vl.height, vr.height) in
      let es : (1 + avl_size l + avl_size r) % 2 ^ 32 ≡ 1 + count l + count r =
        omega (arith, vl.size, vr.size) in
      rw (eh, es)

  renewed-IsRead : IsRead (renewed l a r)
  unfolding avl_size
  renewed-IsRead = record { size = omega arith; height = omega (arith, vl.height, vr.height) }

module _ (x y z : Tree) (a b h s h' s' : ℕ) (vx : IsRead x) (vy : IsRead y) (vz : IsRead z)
    (small : 2 + count x + count y + count z < 2 ^ 32) where
  rot_right-renewed : rot_right (node (node x b h' s' y) a h s z) ≡ ok (renewed x b (renewed y a z))
  unfolding rot_right
  rot_right-renewed = rw (avl_update-renewed y z a vy vz (omega arith) h s) (
      avl_update-renewed x (renewed y a z) b vx (renewed-IsRead y z a vy vz (omega arith))
        (omega arith) h' s')

  rot_left-renewed : rot_left (node x a h s (node y b h' s' z)) ≡ ok (renewed (renewed x a y) b z)
  unfolding rot_left
  rot_left-renewed = rw (avl_update-renewed x y a vx vy (omega arith) h s) (
      avl_update-renewed (renewed x a y) z b (renewed-IsRead x y a vx vy (omega arith)) vz
        (omega arith) h' s')

-- `t` is the tree of `l`, `a` and `r`, in balance
pub record Balanced (l : Tree) (a : ℕ) (r : Tree) (t : Tree) : Type 0 where
  pub avl : IsAvl t
  pub order : inorder t ≡ inorder l ++ a ∷ inorder r
  pub size : count t ≡ 1 + count l + count r
  pub low : max (avl_height l) (avl_height r) ≤ avl_height t
  pub high : avl_height t ≤ 1 + max (avl_height l) (avl_height r)
  pub level :
      avl_height l ≤ avl_height r + 1
      → avl_height r ≤ avl_height l + 1
      → avl_height t ≡ 1 + max (avl_height l) (avl_height r)

double_left :
    (x t r : Tree) (c a h s h' s' : ℕ)
    → IsAvl (node x c h' s' t)
    → IsAvl r
    → h' ≡ avl_height r + 2
    → avl_height x < avl_height t
    → 2 + count x + count t + count r < 2 ^ 32
    → Returns
        (rot_left (node x c h' s' t) >>= λ l. rot_right (node l a h s r))
        (Balanced (node x c h' s' t) a r)
unfolding inorder
double_left x nil r c a h s h' s' vl vr e lt b = absurd (omega arith)
double_left x (node y d h'' s'' z) r c a h s h' s' vl vr e lt b =
    let vx = IsAvl-IsRead x vl.4 (omega arith) in
    let vy = IsAvl-IsRead y vl.5.4 (omega arith) in
    let vz = IsAvl-IsRead z vl.5.5 (omega arith) in
    let vr' = IsAvl-IsRead r vr (omega arith) in
    let low = renewed x c y in
    (
      renewed low d (renewed z a r),
      rw (rot_left-renewed x y z c d h' s' h'' s'' vx vy vz (omega arith)) (
          rot_right-renewed low z r a d h s (1 + max (avl_height low) (avl_height z))
            (1 + count low + count z) (renewed-IsRead x y c vx vy (omega arith)) vz vr'
            (omega arith)),
      record {
        avl = (
          refl,
          refl,
          omega arith,
          omega arith,
          (refl, refl, omega arith, omega arith, vl.4, vl.5.4),
          (refl, refl, omega arith, omega arith, vl.5.5, vr),
        );
        order = simp append_assoc;
        size = omega arith;
        low = omega arith;
        high = omega arith;
        level = omega arith;
      },
    )

-- A left subtree that is too high by two is rotated to the right, its own right subtree first if
-- that is the higher one.
fix_left-Balanced :
    (l r : Tree) (a h s : ℕ)
    → IsAvl l
    → IsAvl r
    → avl_height l ≡ avl_height r + 2
    → 1 + count l + count r < 2 ^ 32
    → Returns (avl_fix_left (node l a h s r)) (Balanced l a r)
unfolding avl_fix_left inorder
fix_left-Balanced nil r a h s vl vr e b = absurd (omega arith)
fix_left-Balanced (node x c h' s' y) r a h s vl vr e b =
    let vx = IsAvl-IsRead x vl.4 (omega arith) in
    let vy = IsAvl-IsRead y vl.5 (omega arith) in
    let vr' = IsAvl-IsRead r vr (omega arith) in
    Returns-if (ltb (avl_height x) (avl_height y))
      (λ inner. double_left x y r c a h s h' s' vl vr e (ground arith) (omega arith))
      (λ outer.
        let high : avl_height y ≤ avl_height x = ground arith in
        (
          renewed x c (renewed y a r),
          rot_right-renewed x y r a c h s h' s' vx vy vr' (omega arith),
          record {
            avl = (
              refl,
              refl,
              omega arith,
              omega arith,
              vl.4,
              (refl, refl, omega arith, omega arith, vl.5, vr),
            );
            order = simp append_assoc;
            size = omega arith;
            low = omega arith;
            high = omega arith;
            level = omega arith;
          },
        ))

double_right :
    (l t x : Tree) (a c h s h' s' : ℕ)
    → IsAvl l
    → IsAvl (node t c h' s' x)
    → h' ≡ avl_height l + 2
    → avl_height x < avl_height t
    → 2 + count l + count t + count x < 2 ^ 32
    → Returns
        (rot_right (node t c h' s' x) >>= λ r. rot_left (node l a h s r))
        (Balanced l a (node t c h' s' x))
unfolding inorder
double_right l nil x a c h s h' s' vl vr e lt b = absurd (omega arith)
double_right l (node y d h'' s'' z) x a c h s h' s' vl vr e lt b =
    let vx = IsAvl-IsRead x vr.5 (omega arith) in
    let vy = IsAvl-IsRead y vr.4.4 (omega arith) in
    let vz = IsAvl-IsRead z vr.4.5 (omega arith) in
    let vl' = IsAvl-IsRead l vl (omega arith) in
    let high = renewed z c x in
    (
      renewed (renewed l a y) d high,
      rw (rot_right-renewed y z x c d h' s' h'' s'' vy vz vx (omega arith)) (
          rot_left-renewed l y high a d h s (1 + max (avl_height y) (avl_height high))
            (1 + count y + count high) vl' vy (renewed-IsRead z x c vz vx (omega arith))
            (omega arith)),
      record {
        avl = (
          refl,
          refl,
          omega arith,
          omega arith,
          (refl, refl, omega arith, omega arith, vl, vr.4.4),
          (refl, refl, omega arith, omega arith, vr.4.5, vr.5),
        );
        order = simp append_assoc;
        size = omega arith;
        low = omega arith;
        high = omega arith;
        level = omega arith;
      },
    )

-- A right subtree that is too high by two is rotated to the left, its own left subtree first if
-- that is the higher one.
fix_right-Balanced :
    (l r : Tree) (a h s : ℕ)
    → IsAvl l
    → IsAvl r
    → avl_height r ≡ avl_height l + 2
    → 1 + count l + count r < 2 ^ 32
    → Returns (avl_fix_right (node l a h s r)) (Balanced l a r)
unfolding avl_fix_right inorder
fix_right-Balanced l nil a h s vl vr e b = absurd (omega arith)
fix_right-Balanced l (node y c h' s' x) a h s vl vr e b =
    let vx = IsAvl-IsRead x vr.5 (omega arith) in
    let vy = IsAvl-IsRead y vr.4 (omega arith) in
    let vl' = IsAvl-IsRead l vl (omega arith) in
    Returns-if (ltb (avl_height x) (avl_height y))
      (λ inner. double_right l y x a c h s h' s' vl vr e (ground arith) (omega arith))
      (λ outer.
        let high : avl_height y ≤ avl_height x = ground arith in
        (
          renewed (renewed l a y) c x,
          rot_left-renewed l y x a c h s h' s' vl' vy vx (omega arith),
          record {
            avl = (
              refl,
              refl,
              omega arith,
              omega arith,
              (refl, refl, omega arith, omega arith, vl, vr.4),
              vr.5,
            );
            order = simp append_assoc;
            size = omega arith;
            low = omega arith;
            high = omega arith;
            level = omega arith;
          },
        ))

-- the tests of the round, at heights that do not wrap
two_above : (x y : ℕ) → y + 2 < 2 ^ 32 → (x == (y + 2) % 2 ^ 32) ≡ true → x ≡ y + 2
two_above x y b e = (==_iff x (y + 2)).0 (rw (mod-eq_of_lt b) at e)

not_two_above : (x y : ℕ) → y + 2 < 2 ^ 32 → (x == (y + 2) % 2 ^ 32) ≡ false → x ≢ y + 2
not_two_above x y b e = let e' : (x == y + 2) ≡ false = rw (mod-eq_of_lt b) at e in ground arith

-- On a node with two AVL subtrees whose heights differ by at most two, a round of avl_fix gives
-- an AVL tree of the same addresses in the same order; its height is that of the higher subtree
-- or one more, and always one more where nothing had to be rotated.
pub rebalance-Balanced :
    (l r : Tree) (a h s : ℕ)
    → IsAvl l
    → IsAvl r
    → avl_height l ≤ avl_height r + 2
    → avl_height r ≤ avl_height l + 2
    → 1 + count l + count r < 2 ^ 32
    → Returns (rebalance (node l a h s r)) (Balanced l a r)
unfolding rebalance fix_difference inorder
rebalance-Balanced l r a h s vl vr p q b =
    let vl' = IsAvl-IsRead l vl (omega arith) in
    let vr' = IsAvl-IsRead r vr (omega arith) in
    let hl = vl'.height in
    let hr = vr'.height in
    let small : avl_height r + 2 < 2 ^ 32 = omega arith in
    let small' : avl_height l + 2 < 2 ^ 32 = omega arith in
    let h' = 1 + max (avl_height l) (avl_height r) in
    let s' = 1 + count l + count r in
    rw (avl_update-renewed l r a vl' vr' b h s) (
      Returns-if (avl_height l == (avl_height r + 2) % 2 ^ 32)
        (λ e.
          fix_left-Balanced l r a h' s' vl vr (two_above (avl_height l) (avl_height r) small e) b)
        (λ n.
          Returns-if (avl_height r == (avl_height l + 2) % 2 ^ 32)
            (λ e.
              fix_right-Balanced l r a h' s' vl vr
                (two_above (avl_height r) (avl_height l) small' e) b)
            (λ m.
              let n' = not_two_above (avl_height l) (avl_height r) small n in
              let m' = not_two_above (avl_height r) (avl_height l) small' m in
              let left : avl_height l ≤ avl_height r + 1 = omega arith in
              let right : avl_height r ≤ avl_height l + 1 = omega arith in
              (
                renewed l a r,
                refl,
                record {
                  avl = (refl, refl, left, right, vl, vr);
                  order = refl;
                  size = refl;
                  low = omega arith;
                  high = omega arith;
                  level = λ _ _. refl;
                },
              ))))
