-- ===== src/Zset/Seek.antt =====
-- zset_seekge: the first pair that is not less than the key, and how many pairs stand in front of it.
use mathlib.Core.List.{append_assoc, append-nil}
use byo_redis.Prelude.{
  ℕ, ◌+◌, ◌<◌, ◌^◌, ◌≡◌, refl, ap, sym, ◌∙◌, inl, inr, true, false, List, [], ◌∷◌, ◌++◌, Option,
  none, some, All, map, length, Bool-cases, if◌then◌else◌, arith,
}
use byo_redis.Prelude.Int.{ℤ, pos}
use byo_redis.Avl.{Tree, nil, node, in_left, in_right, Ancestors, avl_height, avl_rank}
use byo_redis.Avl.Shape.{
  inorder, inorder-node, length-inorder, count, IsAvl, IsPath, before, after, whole, whole-plug,
  count-plug, count_path,
}
use byo_redis.Avl.Rank.{avl_rank-before}
use byo_redis.Hashtable.Bag.{tally, tally-append}
use byo_redis.Zset.{ZNode, ZMemory, ZSet, seek, zset_seekge}
use byo_redis.Zset.Order.{IsNumber, precedes, zless-precedes, precedes_trans}
use byo_redis.Zset.Entries.{IsSorted, All-map_weaken, All-append, All-left, All-right}
use byo_redis.Zset.Insertion.{map-append, IsSorted-Around, entries, entries-node}
use byo_redis.Zset.Removal.{around, whole_root}
use byo_redis.Zset.Names.{IsZset}

-- the pairs at the addresses are less than the key
abbrev pub IsBelow : ZMemory → ZNode → List ℕ → Type 0
IsBelow m key xs = All (λ e. precedes e key ≡ true) (map m xs)

IsBelow-append :
    (m : ZMemory) (key : ZNode) (xs ys : List ℕ)
    → IsBelow m key xs
    → IsBelow m key ys
    → IsBelow m key (xs ++ ys)
IsBelow-append m key xs ys h k =
    rw (map-append m xs ys) (All-append (λ e. precedes e key ≡ true) (map m xs) (map m ys) h k)

-- What a search of a tree of the addresses `ws` returns: NULL when all pairs are less than the key, or
-- the node that all those less than the key stand in front of.
pub data Ceiling (m : ZMemory) (key : ZNode) (n : ℕ) (ws : List ℕ)
    : Option (Ancestors × Tree) → Type 0 where
  past : IsBelow m key ws → Ceiling m key n ws none
  first :
      (p : Ancestors) (l : Tree) (a h s : ℕ) (r : Tree)
      → IsPath p h
      → IsAvl (node l a h s r)
      → count (node l a h s r) + count_path p ≡ n
      → whole p (inorder (node l a h s r)) ≡ ws
      → IsBelow m key (before p ++ inorder l)
      → precedes (m a) key ≡ false
      → Ceiling m key n ws (some (p, node l a h s r))

seek-Ceiling :
    (m : ZMemory) (key : ZNode) (found : Option (Ancestors × Tree)) (p : Ancestors) (t : Tree)
    (n : ℕ) (ws : List ℕ)
    → IsNumber key
    → All IsNumber (entries m t)
    → IsSorted (entries m t)
    → IsAvl t
    → IsPath p (avl_height t)
    → count t + count_path p ≡ n
    → whole p (inorder t) ≡ ws
    → IsBelow m key (before p)
    → (IsBelow m key (before p ++ inorder t) → Ceiling m key n ws found)
    → Ceiling m key n ws (seek m key found p t)
unfolding seek
seek-Ceiling m key found p nil n ws nk nt s v w c e low k =
    k (unfold inorder in rw (append-nil (before p)) low)
seek-Ceiling m key found p (node l a h z r) n ws nk nt s v w c e low k =
    let around =
      IsSorted-Around (entries m l) (m a) (entries m r) (rw (entries-node m l r a h z) at s) in
    let numbers : All IsNumber (entries m l ++ m a ∷ entries m r) =
      rw (entries-node m l r a h z) at nt in
    let nl = All-left IsNumber (entries m l) (m a ∷ entries m r) numbers in
    let nr = All-right IsNumber (entries m l) (m a ∷ entries m r) numbers in
    rw (zless-precedes (m a) key nr.0 nk) (elim (Bool-cases (precedes (m a) key)) [
      | inl b ↦ rw b (
          seek-Ceiling m key found (in_right l a h z ∷ p) r n ws nk nr.1 around.right_sorted v.5
            (v.0, v.3, v.2, v.4, w) (count-plug (in_right l a h z) p r ∙ c)
            (whole-plug (in_right l a h z) p r ∙ e) (below_right b around.left)
            (λ q. k (rw (sym regroup) q)))
      | inr b ↦ rw b (
          seek-Ceiling m key (some (p, node l a h z r)) (in_left a h z r ∷ p) l n ws nk nl
            around.left_sorted v.4 (v.0, v.2, v.3, v.5, w) (count-plug (in_left a h z r) p l ∙ c)
            (whole-plug (in_left a h z r) p l ∙ e) (unfold before in low)
            (λ q. first p l a h z r w v c e (unfold before in q) b))
    ])
  where
    below_right :
        precedes (m a) key ≡ true
        → All (λ f. precedes f (m a) ≡ true) (entries m l)
        → IsBelow m key (before (in_right l a h z ∷ p))
    below_right b left =
        unfold before in
        IsBelow-append m key (before p) (inorder l ++ a ∷ []) low (
          IsBelow-append m key (inorder l) (a ∷ [])
            (All-map_weaken (entries m l) (λ f g. precedes_trans f (m a) key g b) left) (b, tt))

    regroup : before (in_right l a h z ∷ p) ++ inorder r ≡ before p ++ inorder (node l a h z r)
    regroup = unfold before in rw (inorder-node l r a h z) (simp append_assoc)

-- how many pairs are less than a key
abbrev pub count_below : ZMemory → ZNode → Tree → ℕ
count_below m key t = tally (λ a. precedes (m a) key) (inorder t)

pub below-tally :
    (m : ZMemory) (key : ZNode) (xs : List ℕ)
    → IsBelow m key xs
    → tally (λ a. precedes (m a) key) xs ≡ length xs
below-tally m key [] h = refl
below-tally m key (x ∷ xs) h =
    omega (arith, below-tally m key xs h.1, ap {B = ℕ} (λ c. if c then 1 else 0) h.0)

above-tally :
    (m : ZMemory) (key e : ZNode) (xs : List ℕ)
    → precedes e key ≡ false
    → All (λ f. precedes e f ≡ true) (map m xs)
    → tally (λ a. precedes (m a) key) xs ≡ 0
above-tally m key e [] b h = refl
above-tally m key e (x ∷ xs) b h = elim (Bool-cases (precedes (m x) key)) [
  | inl c ↦ cc (precedes_trans e (m x) key h.0 c, b)
  | inr c ↦ omega (arith, above-tally m key e xs b h.1, ap {B = ℕ} (λ d. if d then 1 else 0) c)
]

-- zset_seekge of a set in order
pub zset_seekge-Ceiling :
    (m : ZMemory) (z : ZSet) (score : ℕ) (name : List ℕ)
    → IsZset m z
    → IsNumber (record { score = score; name = name })
    → Ceiling m
        (record { score = score; name = name })
        (count z.root)
        (inorder z.root)
        (zset_seekge m z score name)
unfolding zset_seekge
zset_seekge-Ceiling m z score name v n =
    seek-Ceiling m _ none [] z.root _ _ n v.numbers v.sorted v.avl tt (omega arith)
      (whole_root (inorder z.root)) (unfold before in tt) (λ h. past (unfold before in h))

-- the node that a search finds stands behind as many pairs as are less than the key
pub first-rank :
    (m : ZMemory) (z : ZSet) (key : ZNode) (p : Ancestors) (l : Tree) (a h s : ℕ) (r : Tree)
    → IsZset m z
    → whole p (inorder (node l a h s r)) ≡ inorder z.root
    → IsBelow m key (before p ++ inorder l)
    → precedes (m a) key ≡ false
    → length (before p ++ inorder l) ≡ count_below m key z.root
first-rank m z key p l a h s r v e low b =
    let xs = before p ++ inorder l in
    let ys = inorder r ++ after p in
    let split : inorder z.root ≡ xs ++ a ∷ ys = sym e ∙ around p l a h s r in
    let sorted : IsSorted (map m xs ++ m a ∷ map m ys) =
      rw (map-append m xs (a ∷ ys)) at (rw split at v.sorted) in
    let high = (IsSorted-Around (map m xs) (m a) (map m ys) sorted).right in
    omega (
      arith,
      below-tally m key xs low,
      above-tally m key (m a) ys b high,
      tally-append (λ c. precedes (m c) key) xs (a ∷ ys),
      ap (tally (λ c. precedes (m c) key)) split,
      ap {B = ℕ} (λ d. if d then 1 else 0) b,
    )

-- the rank of what a search returns, and that of NULL behind the last pair
abbrev pub rank_of : ℕ → Option (Ancestors × Tree) → ℤ
rank_of n none = pos n
rank_of n (some x) = avl_rank (x.0) (x.1)

Ceiling-rank :
    (m : ZMemory) (z : ZSet) (key : ZNode) (o : Option (Ancestors × Tree))
    → IsZset m z
    → count z.root < 2 ^ 32
    → Ceiling m key (count z.root) (inorder z.root) o
    → rank_of (count z.root) o ≡ pos (count_below m key z.root)
Ceiling-rank m z key none v b (past low) =
    ap pos (omega (arith, below-tally m key (inorder z.root) low, length-inorder z.root))
Ceiling-rank m z key (some x) v b (first p l a h s r w k c e low n) =
    avl_rank-before p l a h s r h w k (omega (arith, c, b))
    ∙ ap pos (first-rank m z key p l a h s r v e low n)

-- In a sound set of fewer than 2 ^ 32 pairs, for a score that is not a NaN, the node that zset_seekge
-- finds has for its rank the number of pairs that are less than the key, and all pairs are less than
-- the key when it finds none.
pub zset_seekge-rank :
    (m : ZMemory) (z : ZSet) (score : ℕ) (name : List ℕ)
    → IsZset m z
    → IsNumber (record { score = score; name = name })
    → count z.root < 2 ^ 32
    → rank_of (count z.root) (zset_seekge m z score name)
      ≡ pos (count_below m (record { score = score; name = name }) z.root)
zset_seekge-rank m z score name v n b =
    Ceiling-rank m z _ (zset_seekge m z score name) v b (zset_seekge-Ceiling m z score name v n)
