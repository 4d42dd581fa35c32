-- ===== src/Zset/Insertion.antt =====
-- tree_insert: the new node goes to its place in the order.
use mathlib.Core.List.{append-nil}
use byo_redis.Prelude.{
  ℕ, ◌+◌, ◌<◌, ◌^◌, ◌≡◌, refl, ap, sym, ◌∙◌, inl, inr, Bool, true, false, List, [], ◌∷◌, ◌++◌, All,
  map, Bool-cases, arith,
}
use byo_redis.Prelude.Run.{Returns, Returns-map}
use byo_redis.Avl.{Tree, nil, node, Frame, plug, in_left, in_right, Ancestors, avl_height}
use byo_redis.Avl.Shape.{
  inorder, inorder-node, count, IsAvl, IsPath, before, after, whole, whole-plug, count-plug,
  count_path,
}
use byo_redis.Hashtable.Bag.{one, tally, tally-append}
use byo_redis.Avl.Fix.{avl_fix-insert}
use byo_redis.Zset.{ZNode, ZMemory, descend, tree_insert}
use byo_redis.Zset.Order.{IsNumber, precedes, zless-precedes, precedes_trans}
use byo_redis.Zset.Entries.{
  IsSorted, insert_entry, All-map_weaken, All-append, All-left, All-right, insert_entry-append,
}

pub map-append {ℓ κ} :
    {A : Type ℓ} {B : Type κ} (f : A → B) (xs ys : List A) → map f (xs ++ ys) ≡ map f xs ++ map f ys
map-append f [] ys = refl
map-append f (x ∷ xs) ys = ap (◌∷◌ (f x)) (map-append f xs ys)

-- a sorted list around one of its pairs
pub record Around (before : List ZNode) (e : ZNode) (after : List ZNode) : Type 0 where
  pub left_sorted : IsSorted before
  pub left : All (λ f. precedes f e ≡ true) before
  pub right : All (λ f. precedes e f ≡ true) after
  pub right_sorted : IsSorted after

pub IsSorted-Around :
    (xs : List ZNode) (e : ZNode) (ys : List ZNode) → IsSorted (xs ++ e ∷ ys) → Around xs e ys
IsSorted-Around [] e ys s = record { left_sorted = tt; left = tt; right = s.0; right_sorted = s.1 }
IsSorted-Around (x ∷ xs) e ys s =
    let rest = IsSorted-Around xs e ys s.1 in
    record {
      left_sorted = (All-left (λ f. precedes x f ≡ true) xs (e ∷ ys) s.0, rest.left_sorted);
      left = ((All-right (λ f. precedes x f ≡ true) xs (e ∷ ys) s.0).0, rest.left);
      right = rest.right;
      right_sorted = rest.right_sorted;
    }

-- the pairs of a tree
abbrev pub entries : ZMemory → Tree → List ZNode
entries m t = map m (inorder t)

pub entries-node :
    (m : ZMemory) (l r : Tree) (a h s : ℕ)
    → entries m (node l a h s r) ≡ entries m l ++ m a ∷ entries m r
entries-node m l r a h s =
    ap (map m) (inorder-node l r a h s) ∙ map-append m (inorder l) (a ∷ inorder r)

-- the way that the loop has gone down: what it left behind is not greater, what it has passed on
-- the right is
pub record Between (m : ZMemory) (x : ZNode) (p : Ancestors) : Type 0 where
  pub low : All (λ e. precedes x e ≡ false) (map m (before p))
  pub high : All (λ e. precedes x e ≡ true) (map m (after p))

Between-left :
    (m : ZMemory) (x : ZNode) (p : Ancestors) (r : Tree) (a h s : ℕ)
    → precedes x (m a) ≡ true
    → All (λ e. precedes (m a) e ≡ true) (entries m r)
    → Between m x p
    → Between m x (in_left a h s r ∷ p)
unfolding before after
Between-left m x p r a h s b right v = record {
  low = v.low;
  high = (
    b,
    rw (map-append m (inorder r) (after p)) (
        All-append (λ e. precedes x e ≡ true) (map m (inorder r)) (map m (after p))
          (All-map_weaken (map m (inorder r)) (λ f k. precedes_trans x (m a) f b k) right) v.high),
  );
}

Between-right :
    (m : ZMemory) (x : ZNode) (p : Ancestors) (l : Tree) (a h s : ℕ)
    → precedes x (m a) ≡ false
    → All (λ e. precedes e (m a) ≡ true) (entries m l)
    → Between m x p
    → Between m x (in_right l a h s ∷ p)
unfolding before after
Between-right m x p l a h s b left v = record {
  low =
      rw (map-append m (before p) (inorder l ++ a ∷ []), map-append m (inorder l) (a ∷ []))
        (All-append (λ e. precedes x e ≡ false) (map m (before p)) (map m (inorder l) ++ m a ∷ [])
          v.low
          (All-append (λ e. precedes x e ≡ false) (map m (inorder l)) (m a ∷ [])
            (All-map_weaken (map m (inorder l)) (λ f k. not_before f k) left) (b, tt)));
  high = v.high;
}
  where
    not_before : (f : ZNode) → precedes f (m a) ≡ true → precedes x f ≡ false
    not_before f k = elim (Bool-cases (precedes x f)) [
      | inl e ↦ cc (precedes_trans x f (m a) e k, b)
      | inr e ↦ e
    ]

-- the path that the loop ends with
pub record Descended (m : ZMemory) (x : ZNode) (p : Ancestors) (t : Tree) (q : Ancestors)
    : Type 0 where
  pub between : Between m x q
  pub same : before q ++ after q ≡ whole p (inorder t)
  pub path : IsPath q 0
  pub size : count_path q ≡ count t + count_path p

descend_up :
    (m : ZMemory) (x : ZNode) (f : Frame) (p : Ancestors) (t : Tree) (q : Ancestors)
    → Descended m x (f ∷ p) t q
    → Descended m x p (plug f t) q
descend_up m x f p t q d = record {
  between = d.between;
  same = d.same ∙ whole-plug f p t;
  path = d.path;
  size = d.size ∙ count-plug f p t;
}

pub descend-Descended :
    (m : ZMemory) (x : ZNode) (p : Ancestors) (t : Tree)
    → IsNumber x
    → All IsNumber (entries m t)
    → IsSorted (entries m t)
    → IsAvl t
    → IsPath p (avl_height t)
    → Between m x p
    → Descended m x p t (descend m x p t)
unfolding descend
descend-Descended m x p nil nx nt s v w b = record {
  between = b;
  same = unfold inorder in refl;
  path = w;
  size = omega arith;
}
descend-Descended m x p (node l a h z r) nx nt s v w b =
    let around =
      IsSorted-Around (entries m l) (m a) (entries m r) (rw (entries-node m l r a h z) at s) in
    let numbers : All IsNumber (entries m l ++ m a ∷ entries m r) =
      rw (entries-node m l r a h z) at nt in
    let nl = All-left IsNumber (entries m l) (m a ∷ entries m r) numbers in
    let nr = All-right IsNumber (entries m l) (m a ∷ entries m r) numbers in
    rw (zless-precedes x (m a) nx nr.0) (elim (Bool-cases (precedes x (m a))) [
      | inl e ↦ rw e (
          descend_up m x (in_left a h z r) p l _ (
            descend-Descended m x (in_left a h z r ∷ p) l nx nl around.left_sorted v.4
              (v.0, v.2, v.3, v.5, w) (Between-left m x p r a h z e around.right b)))
      | inr e ↦ rw e (
          descend_up m x (in_right l a h z) p r _ (
            descend-Descended m x (in_right l a h z ∷ p) r nx nr.1 around.right_sorted v.5
              (v.0, v.3, v.2, v.4, w) (Between-right m x p l a h z e around.left b)))
    ])

-- `t` is the AVL tree `root` with the node `a` in its place
pub record Inserted (m : ZMemory) (root : Tree) (a : ℕ) (t : Tree) : Type 0 where
  pub avl : IsAvl t
  pub list : entries m t ≡ insert_entry (m a) (entries m root)
  pub bag : (q : ℕ → Bool) → tally q (inorder t) ≡ one q a + tally q (inorder root)

-- In a sorted AVL tree of numbers and names tree_insert succeeds, and the new node is in its place in
-- the order.
pub tree_insert-Inserted :
    (m : ZMemory) (root : Tree) (a : ℕ)
    → IsNumber (m a)
    → All IsNumber (entries m root)
    → IsSorted (entries m root)
    → IsAvl root
    → count root + 1 < 2 ^ 32
    → Returns (tree_insert m root a) (Inserted m root a)
unfolding tree_insert before after
tree_insert-Inserted m root a n ns s v b =
    let d = descend-Descended m (m a) [] root n ns s v tt (record { low = tt; high = tt }) in
    let q = descend m (m a) [] root in
    let all : before q ++ after q ≡ inorder root = d.same ∙ append-nil (inorder root) in
    Returns-map (avl_fix-insert q a d.path (omega (arith, d.size))) (λ t k. record {
      avl = k.avl;
      list =
          ap (map m) k.order
          ∙ map-append m (before q) (a ∷ after q)
          ∙ sym (
              insert_entry-append (m a) (map m (before q)) (map m (after q)) d.between.low
                d.between.high)
          ∙ ap (insert_entry (m a)) (sym (map-append m (before q) (after q)) ∙ ap (map m) all);
      bag = λ c.
          ap (tally c) k.order
          ∙ omega (
            arith,
            tally-append c (before q) (a ∷ after q),
            tally-append c (before q) (after q),
            ap (tally c) all,
          );
    })
