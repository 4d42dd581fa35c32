-- ===== src/Avl/Delete.antt =====
-- avl_del: a node is taken out of the tree.
use byo_redis.Prelude.{
  ℕ, ◌+◌, ◌^◌, ◌<◌, ◌≡◌, ◌≢◌, ◌⊎◌, inl, inr, refl, ap, sym, ◌∙◌, List, [], ◌∷◌, ◌++◌, arith, map,
  All, ◌==◌, if◌then◌else◌,
}
use mathlib.Core.List.{append_assoc, append-nil, map-append}
use byo_redis.Prelude.Run.{ok, ◌>>=◌, Returns}
use byo_redis.Avl.{
  Tree, nil, node, in_left, in_right, Ancestors, plug, avl_height, climb, avl_fix, avl_del_easy,
  leftmost, address_of, take_place, avl_del,
}
use byo_redis.Avl.Shape.{inorder, count, IsAvl, IsPath, before, after, whole, count_path}
use byo_redis.Avl.Fix.{Fixed, climb-Fixed}

-- a subtree shrunk by one below its ancestors
detach-Fixed :
    (p : Ancestors) (child : Tree) (h : ℕ)
    → IsAvl child
    → IsPath p h
    → h ≡ avl_height child + 1
    → count child + count_path p < 2 ^ 32
    → (Returns
        (elim p [ [] ↦ ok child | f ∷ rest ↦ avl_fix rest (plug f child) ])
        (Fixed (whole p (inorder child))))
unfolding avl_fix
detach-Fixed [] child h v w e b = (
  child,
  refl,
  record { avl = v; order = unfold before after in sym (append-nil (inorder child)) },
)
detach-Fixed (f ∷ p) child h v w e b =
    unfold climb in climb-Fixed (f ∷ p) child h v w (omega arith) (omega arith) b

-- The node at the end of the path has at most one child: it goes, and the tree is in balance.
pub del_easy-Fixed :
    (p : Ancestors) (l r : Tree) (a h s : ℕ)
    → IsAvl (node l a h s r)
    → IsPath p h
    → count (node l a h s r) + count_path p < 2 ^ 32
    → (l ≡ nil) ⊎ (r ≡ nil)
    → Returns (avl_del_easy p (node l a h s r)) (Fixed (whole p (inorder l ++ inorder r)))
unfolding avl_del_easy inorder
del_easy-Fixed p nil r a h s v w b one = detach-Fixed p r h v.5 w (omega arith) (omega arith)
del_easy-Fixed p (node ll b h' s' lr) nil a h s v w c one =
    rw append-nil (detach-Fixed p (node ll b h' s' lr) h v.4 w (omega arith) (omega arith))
del_easy-Fixed p (node ll b h' s' lr) (node rl d h'' s'' rr) a h s v w c one = elim one [
  | inl e ↦ cc
  | inr e ↦ cc
]

-- what the search for the successor below `t` finds: the node of the first address of `t`
record Found (p : Ancestors) (t : Tree) (q : Ancestors) (v : Tree) : Type 0 where
  address : ℕ
  height : ℕ
  size : ℕ
  right : Tree
  rest : List ℕ
  shape : v ≡ node nil address height size right
  order : inorder t ≡ address ∷ rest
  front : before q ≡ before p
  back : inorder right ++ after q ≡ rest ++ after p
  avl : IsAvl (node nil address height size right)
  path : IsPath q height
  total : 1 + count right + count_path q ≡ count t + count_path p

leftmost-Found :
    (p : Ancestors) (l r : Tree) (a h s : ℕ)
    → IsAvl (node l a h s r)
    → IsPath p h
    → Found p (node l a h s r) (leftmost p (node l a h s r)).0 (leftmost p (node l a h s r)).1
unfolding leftmost inorder before after
leftmost-Found p nil r a h s v w = record {
  address = a;
  height = h;
  size = s;
  right = r;
  rest = inorder r;
  shape = refl;
  order = refl;
  front = refl;
  back = refl;
  avl = v;
  path = w;
  total = omega arith;
}
leftmost-Found p (node ll b h' s' lr) r a h s v w =
    let f = leftmost-Found (in_left a h s r ∷ p) ll lr b h' s' v.4 (v.0, v.2, v.3, v.5, w) in
    record {
      address = f.address;
      height = f.height;
      size = f.size;
      right = f.right;
      rest = f.rest ++ a ∷ inorder r;
      shape = f.shape;
      order = ap (λ xs. xs ++ a ∷ inorder r) f.order;
      front = f.front;
      back = f.back ∙ sym (append_assoc f.rest (a ∷ inorder r) (after p));
      avl = f.avl;
      path = f.path;
      total = omega (arith, f.total);
    }

-- the addresses when `b` takes the place of `a`
abbrev replaced : ℕ → ℕ → ℕ → ℕ
replaced a b x = if x == a then b else x

take_place-inorder :
    (a b : ℕ) (t : Tree) → inorder (take_place a b t) ≡ map (replaced a b) (inorder t)
unfolding take_place inorder
take_place-inorder a b nil = refl
take_place-inorder a b (node l c h s r) =
    rw (take_place-inorder a b l, take_place-inorder a b r, map-append) refl

take_place-IsAvl :
    (a b : ℕ) (t : Tree)
    → IsAvl t
    → IsAvl (take_place a b t)
      × (count (take_place a b t) ≡ count t)
      × (avl_height (take_place a b t) ≡ avl_height t)
unfolding take_place
take_place-IsAvl a b nil v = (tt, refl, refl)
take_place-IsAvl a b (node l c h s r) v =
    let (vl, nl, hl) = take_place-IsAvl a b l v.4 in
    let (vr, nr, hr) = take_place-IsAvl a b r v.5 in
    (
      (rw (hl, hr) v.0, rw (nl, nr) v.1, rw (hl, hr) v.2, rw (hl, hr) v.3, vl, vr),
      omega arith,
      refl,
    )

-- `a` is none of the addresses
abbrev pub Avoids : ℕ → List ℕ → Type 0
Avoids a = All (λ x. x ≢ a)

pub Avoids-append : (a : ℕ) (xs ys : List ℕ) → Avoids a (xs ++ ys) → Avoids a xs × Avoids a ys
Avoids-append a [] ys h = (tt, h)
Avoids-append a (x ∷ xs) ys h = let (p, q) = Avoids-append a xs ys h.1 in ((h.0, p), q)

map-replaced : (a b : ℕ) (xs : List ℕ) → Avoids a xs → map (replaced a b) xs ≡ xs
map-replaced a b [] h = refl
map-replaced a b (x ∷ xs) h = ground (arith, h.0, map-replaced a b xs h.1)

-- the successor `b` in the place of `a`
replaced-whole :
    (a b : ℕ) (xs ls rest ys : List ℕ)
    → Avoids a (xs ++ ((ls ++ b ∷ rest) ++ ys))
    → map (replaced a b) ((xs ++ (ls ++ a ∷ [])) ++ (rest ++ ys)) ≡ xs ++ ((ls ++ b ∷ rest) ++ ys)
replaced-whole a b xs ls rest ys h =
    let (hx, more) = Avoids-append a xs ((ls ++ b ∷ rest) ++ ys) h in
    let (middle, hy) = Avoids-append a (ls ++ b ∷ rest) ys more in
    let (hl, tail) = Avoids-append a ls (b ∷ rest) middle in
    let here : replaced a b a ≡ b = ground arith in
    simp
      (
        map-append,
        map-replaced a b xs hx,
        map-replaced a b ls hl,
        map-replaced a b rest tail.1,
        map-replaced a b ys hy,
        append_assoc,
      )
      (rw here)

-- the successor is detached and takes the place of the node `a`
successor-Fixed :
    (p : Ancestors) (l r : Tree) (a h s : ℕ) (q : Ancestors) (v : Tree)
    → Found (in_right l a h s ∷ p) r q v
    → count (node l a h s r) + count_path p < 2 ^ 32
    → Avoids a (whole p (inorder l ++ inorder r))
    → Returns
        (avl_del_easy q v >>= λ root. ok (take_place a (address_of v) root))
        (Fixed (whole p (inorder l ++ inorder r)))
successor-Fixed p l r a h s q v f small fresh =
    let b = f.address in
    let (root, run, k) =
      del_easy-Fixed q nil f.right b f.height f.size f.avl f.path (omega (arith, f.total))
        (inl refl) in
    let t = take_place-IsAvl a b root k.avl in
    let same : inorder root ≡ (before p ++ (inorder l ++ a ∷ [])) ++ (f.rest ++ after p) =
      k.order ∙ unfold inorder in rw (f.front, f.back) (unfold before after in refl) in
    let fresh' : Avoids a (before p ++ ((inorder l ++ b ∷ f.rest) ++ after p)) =
      rw (← f.order) fresh in
    let order : inorder (take_place a b root) ≡ whole p (inorder l ++ inorder r) =
      rw (take_place-inorder a b root, same, f.order)
        (replaced-whole a b (before p) (inorder l) f.rest (after p) fresh') in
    rw f.shape (rw run (take_place a b root, refl, record { avl = t.0; order = order }))

-- `avl_del` on any node of an AVL tree of fewer than 2 ^ 32 nodes, none of which has its address
-- besides, succeeds, with none, one or two children: the result is an AVL tree of exactly the other
-- addresses, in their order.
pub avl_del-Fixed :
    (p : Ancestors) (l r : Tree) (a h s : ℕ)
    → IsAvl (node l a h s r)
    → IsPath p h
    → count (node l a h s r) + count_path p < 2 ^ 32
    → Avoids a (whole p (inorder l ++ inorder r))
    → Returns (avl_del p (node l a h s r)) (Fixed (whole p (inorder l ++ inorder r)))
unfolding avl_del
avl_del-Fixed p nil r a h s v w c fresh = del_easy-Fixed p nil r a h s v w c (inl refl)
avl_del-Fixed p (node ll b h' s' lr) nil a h s v w c fresh =
    del_easy-Fixed p (node ll b h' s' lr) nil a h s v w c (inr refl)
avl_del-Fixed p (node ll b h' s' lr) (node rl d h'' s'' rr) a h s v w c fresh =
    let l = node ll b h' s' lr in
    let r = node rl d h'' s'' rr in
    successor-Fixed p l r a h s (leftmost (in_right l a h s ∷ p) r).0
      (leftmost (in_right l a h s ∷ p) r).1
      (leftmost-Found (in_right l a h s ∷ p) rl rr d h'' s'' v.5
        (omega arith, omega arith, omega arith, v.4, w))
      c fresh
