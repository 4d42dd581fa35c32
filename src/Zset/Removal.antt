-- ===== src/Zset/Removal.antt =====
-- The node at an address is found in the tree, and avl_del takes it out.
use mathlib.Core.List.{append_assoc, append-nil}
use byo_redis.Prelude.{
  ℕ, ◌+◌, ◌<◌, ◌^◌, ◌≡◌, ◌≢◌, refl, ap, sym, ◌∙◌, Bool, true, false, List, [], ◌∷◌, ◌++◌, Option,
  none, some, All, map, ◌==◌, ==_iff, if◌then◌else◌, arith,
}
use byo_redis.Prelude.Run.{Run, fault, null_pointer, Returns, Returns-map}
use byo_redis.Avl.{Tree, nil, node, Frame, plug, in_left, in_right, Ancestors, avl_height, avl_del}
use byo_redis.Avl.Shape.{
  inorder, inorder-node, count, IsAvl, IsPath, before, after, whole, whole-plug, count-plug,
  count_path,
}
use byo_redis.Avl.Delete.{Avoids, avl_del-Fixed}
use byo_redis.Hashtable.Bag.{one, tally, tally-append}
use byo_redis.Zset.{ZNode, ZMemory, locate, detach}
use byo_redis.Zset.Entries.{
  IsUnique, without, All-map_weaken, All-append, All-right, without-append, without-eq,
  same_bytes_refl,
}
use byo_redis.Zset.Insertion.{map-append, entries}

-- what `locate` finds below the end of a path
pub data Located (a : ℕ) (p : Ancestors) (t : Tree) : Option (Ancestors × Tree) → Type 0 where
  absent : Avoids a (inorder t) → Located a p t none
  there :
      (p' : Ancestors) (l : Tree) (h s : ℕ) (r : Tree)
      → IsPath p' h
      → IsAvl (node l a h s r)
      → whole p' (inorder (node l a h s r)) ≡ whole p (inorder t)
      → count (node l a h s r) + count_path p' ≡ count t + count_path p
      → Located a p t (some (p', node l a h s r))

Located-up :
    (a : ℕ) (f : Frame) (p : Ancestors) (t : Tree) (x : Ancestors × Tree)
    → Located a (f ∷ p) t (some x)
    → Located a p (plug f t) (some x)
Located-up a f p t x (there p' l h s r w v e c) =
    there p' l h s r w v (e ∙ whole-plug f p t) (c ∙ count-plug f p t)

pub locate-Located :
    (a : ℕ) (p : Ancestors) (t : Tree)
    → IsAvl t
    → IsPath p (avl_height t)
    → Located a p t (locate a p t)
unfolding locate
locate-Located a p nil v w = absent (unfold inorder in tt)
locate-Located a p (node l b h s r) v w =
    choose (b == a) ((==_iff b a).0) (λ n q. cc ((==_iff b a).1 q, n))
      (locate a (in_left b h s r ∷ p) l) (locate a (in_right l b h s ∷ p) r)
      (locate-Located a (in_left b h s r ∷ p) l v.4 (v.0, v.2, v.3, v.5, w))
      (locate-Located a (in_right l b h s ∷ p) r v.5 (v.0, v.3, v.2, v.4, w))
  where
    choose :
        (c : Bool)
        → (c ≡ true → b ≡ a)
        → (c ≡ false → b ≢ a)
        → (x y : Option (Ancestors × Tree)) → Located a (in_left b h s r ∷ p) l x
        → Located a (in_right l b h s ∷ p) r y
        → Located a p (node l b h s r) (
            if c
            then some (p, node l b h s r)
            else elim x as (λ z. Option (Ancestors × Tree)) [ some found ↦ some found | none ↦ y ])
    choose true e n x y hx hy = rw (e refl) (there p l h s r w v refl refl)
    choose false e n (some x) y hx hy = Located-up a (in_left b h s r) p l x hx
    choose false e n none (some y) hx hy = Located-up a (in_right l b h s) p r y hy
    choose false e n none none (absent x) (absent y) = absent (
        rw (inorder-node l r b h s)
          (All-append (λ z. z ≢ a) (inorder l) (b ∷ inorder r) x (n refl, y)))

-- the name of a pair that others stand around is not theirs
IsUnique-apart :
    (xs : List ZNode) (e : ZNode) (ys : List ZNode)
    → IsUnique (xs ++ e ∷ ys)
    → All (λ f. f.name ≢ e.name) xs × All (λ f. f.name ≢ e.name) ys
IsUnique-apart [] e ys u = (tt, All-map_weaken ys (λ f h q. h (sym q)) u.0)
IsUnique-apart (x ∷ xs) e ys u =
    let rest = IsUnique-apart xs e ys u.1 in
    (((All-right (λ f. x.name ≢ f.name) xs (e ∷ ys) u.0).0, rest.0), rest.1)

other_names :
    (m : ZMemory) (a : ℕ) (xs : List ℕ) → All (λ f. f.name ≢ (m a).name) (map m xs) → Avoids a xs
other_names m a [] h = tt
other_names m a (x ∷ xs) h = ((λ e. h.0 (ap (λ b. (m b).name) e)), other_names m a xs h.1)

Avoids-tally : (a : ℕ) (xs : List ℕ) → Avoids a xs → tally (λ b. b == a) xs ≡ 0
Avoids-tally a [] h = refl
Avoids-tally a (x ∷ xs) h = omega (
  arith,
  Avoids-tally a xs h.1,
  ap {B = ℕ} (λ c. if c then 1 else 0) (differs (x == a) (==_iff x a).0),
)
  where
    differs : (c : Bool) → (c ≡ true → x ≡ a) → c ≡ false
    differs true e = absurd (h.0 (e refl))
    differs false e = refl

-- `t` is the AVL tree `root` without the node `a`
pub record Detached (m : ZMemory) (root : Tree) (a : ℕ) (t : Tree) : Type 0 where
  pub avl : IsAvl t
  pub list : entries m t ≡ without (m a).name (entries m root)
  pub bag : (q : ℕ → Bool) → tally q (inorder root) ≡ one q a + tally q (inorder t)

-- the parts of the order around a node, under its path
pub around :
    (p : Ancestors) (l : Tree) (a : ℕ) (h s : ℕ) (r : Tree)
    → whole p (inorder (node l a h s r)) ≡ (before p ++ inorder l) ++ a ∷ (inorder r ++ after p)
around p l a h s r = rw (inorder-node l r a h s) (simp append_assoc)

-- what is left when the node is taken out of the list around it
list_without :
    (m : ZMemory) (a : ℕ) (xs ys : List ℕ)
    → IsUnique (map m (xs ++ a ∷ ys))
    → (map m (xs ++ ys) ≡ without (m a).name (map m (xs ++ a ∷ ys))) × Avoids a (xs ++ ys)
list_without m a xs ys u =
    let (low, high) =
      IsUnique-apart (map m xs) (m a) (map m ys) (rw (map-append m xs (a ∷ ys)) at u) in
    (
      rw
          (
            map-append m xs ys,
            map-append m xs (a ∷ ys),
            without-append (m a).name (map m xs) (m a ∷ map m ys),
            same_bytes_refl (m a).name,
            without-eq (m a).name (map m xs) low,
            without-eq (m a).name (map m ys) high,
          )
          refl,
      All-append (λ z. z ≢ a) xs ys (other_names m a xs low) (other_names m a ys high),
    )

pub whole_root : (xs : List ℕ) → whole [] xs ≡ xs
unfolding before after
whole_root xs = append-nil xs

-- In an AVL tree of distinct names the node at an address is found and taken out.
pub detach-Detached :
    (m : ZMemory) (root : Tree) (a : ℕ)
    → IsUnique (entries m root)
    → IsAvl root
    → count root < 2 ^ 32
    → 0 < tally (λ b. b == a) (inorder root)
    → Returns (detach root a) (Detached m root a)
unfolding detach
detach-Detached m root a u v b at = found (locate a [] root) (locate-Located a [] root v tt)
  where
    found :
        (o : Option (Ancestors × Tree))
        → Located a [] root o
        → Returns
            (elim o as (λ x. Run Tree) [ none ↦ fault null_pointer | some x ↦ avl_del (x.0) (x.1) ])
            (Detached m root a)
    found none (absent h) = absurd (omega (arith, Avoids-tally a (inorder root) h))
    found (some x) (there p l h s r w n e c) =
        let xs = before p ++ inorder l in
        let ys = inorder r ++ after p in
        let all : inorder root ≡ xs ++ a ∷ ys =
          sym (e ∙ whole_root (inorder root)) ∙ around p l a h s r in
        let (left, avoids) = list_without m a xs ys (rw all at u) in
        let rest : whole p (inorder l ++ inorder r) ≡ xs ++ ys = simp append_assoc in
        Returns-map
          (avl_del-Fixed p l r a h s n w (unfold before after in omega (arith, c)) (rw rest avoids))
          (λ t k. record {
            avl = k.avl;
            list =
                ap (map m) (k.order ∙ rest)
                ∙ left
                ∙ ap (λ zs. without (m a).name (map m zs)) (sym all);
            bag = λ q.
                ap (tally q) all
                ∙ omega (
                  arith,
                  tally-append q xs (a ∷ ys),
                  tally-append q xs ys,
                  ap (tally q) (k.order ∙ rest),
                );
          })
