-- ===== src/Avl/Fix.antt =====
-- avl_fix: from a changed node up to the root.
use byo_redis.Prelude.{
  ℕ, ◌+◌, ◌^◌, ◌≤◌, ◌<◌, ◌≡◌, refl, ap, sym, ◌∙◌, max, List, [], ◌∷◌, ◌++◌, arith,
}
use mathlib.Core.List.{append-nil}
use byo_redis.Prelude.Run.{Returns}
use byo_redis.Avl.{Tree, nil, in_left, in_right, Ancestors, avl_init, avl_height, climb, avl_fix}
use byo_redis.Avl.Shape.{
  inorder, inorder-node, count, IsAvl, IsPath, before, after, whole, count_path, whole-plug,
}
use byo_redis.Avl.Balance.{rebalance-Balanced}

-- `root` is an AVL tree of the addresses `xs`, in this order
pub record Fixed (xs : List ℕ) (root : Tree) : Type 0 where
  pub avl : IsAvl root
  pub order : inorder root ≡ xs

-- a child whose height has moved from `hc` to `x` moves the height of its parent by one at most
height_moves :
    (x y hc h n : ℕ)
    → x ≤ hc + 1
    → hc ≤ x + 1
    → hc ≤ y + 1
    → y ≤ hc + 1
    → h ≡ 1 + max hc y
    → max x y ≤ n
    → n ≤ 1 + max x y
    → (x ≤ y + 1 → y ≤ x + 1 → n ≡ 1 + max x y)
    → (n ≤ h + 1) × (h ≤ n + 1)
height_moves x y hc h n a b c d e f g level = grind arith

-- The climb from an AVL subtree whose height has changed by at most one, along ancestors that
-- were in balance before the change, ends in an AVL tree of the same addresses in order.
pub climb-Fixed :
    (p : Ancestors) (t : Tree) (hc : ℕ)
    → IsAvl t
    → IsPath p hc
    → avl_height t ≤ hc + 1
    → hc ≤ avl_height t + 1
    → count t + count_path p < 2 ^ 32
    → Returns (climb p t) (Fixed (whole p (inorder t)))
unfolding climb
climb-Fixed [] t hc v w low high b =
    (t, refl, record { avl = v; order = unfold before after in sym (append-nil (inorder t)) })
climb-Fixed (in_left a h s r ∷ p) t hc v w low high b =
    let (t', run, k) =
      rebalance-Balanced t r a h s v w.3 (omega arith) (omega arith) (omega arith) in
    let near = height_moves _ _ hc h _ low high w.1 w.2 w.0 k.low k.high k.level in
    let above = climb-Fixed p t' h k.avl w.4 near.0 near.1 (omega (arith, k.size)) in
    let same : whole p (inorder t') ≡ whole (in_left a h s r ∷ p) (inorder t) =
      ap (whole p) (k.order ∙ sym (inorder-node t r a h s))
      ∙ sym (whole-plug (in_left a h s r) p t) in
    rw run (rw same at above)
climb-Fixed (in_right l a h s ∷ p) t hc v w low high b =
    let (t', run, k) =
      rebalance-Balanced l t a h s w.3 v (omega arith) (omega arith) (omega arith) in
    let near =
      height_moves _ _ hc h _ low high w.1 w.2 (omega arith) (omega (arith, k.low))
        (omega (arith, k.high)) (λ x y. omega (arith, k.level y x)) in
    let above = climb-Fixed p t' h k.avl w.4 near.0 near.1 (omega (arith, k.size)) in
    let same : whole p (inorder t') ≡ whole (in_right l a h s ∷ p) (inorder t) =
      ap (whole p) (k.order ∙ sym (inorder-node l t a h s))
      ∙ sym (whole-plug (in_right l a h s) p t) in
    rw run (rw same at above)

-- A new leaf at the end of a path of ancestors in balance, in a tree of fewer than 2 ^ 32 nodes:
-- `avl_fix` succeeds and returns an AVL tree of the old addresses with the new one in its place in
-- the order.
pub avl_fix-insert :
    (p : Ancestors) (a : ℕ)
    → IsPath p 0
    → 1 + count_path p < 2 ^ 32
    → Returns (avl_fix p (avl_init a)) (Fixed (before p ++ a ∷ after p))
unfolding avl_fix avl_init inorder
avl_fix-insert p a w b =
    let (t, run, k) =
      rebalance-Balanced nil nil a 1 1 tt tt (omega arith) (omega arith) (omega arith) in
    let above =
      climb-Fixed p t 0 k.avl w (omega (arith, k.high)) (omega arith) (omega (arith, k.size)) in
    let same : whole p (inorder t) ≡ before p ++ a ∷ after p = ap (whole p) k.order in
    rw run (rw same at above)
