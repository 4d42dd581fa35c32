-- ===== src/Dlist/Ring.antt =====
-- A list of nodes that the links hold as a ring, seen from one of them.
use byo_redis.Prelude.{
  ℕ, ◌≡◌, ◌≢◌, refl, ap, sym, ◌∙◌, true, false, ◌==◌, ==_iff, Bool-cases, inl, inr, List, [], ◌∷◌,
  ◌++◌,
}
use std.Path.{subst}
use byo_redis.Avl.Delete.{Avoids, Avoids-append}
use byo_redis.Dlist.{DList, set_prev, set_next, dlist_init, dlist_detach, dlist_insert_before}

-- `b` follows `a`, and both know it
abbrev pub Follows : (ℕ → DList) → ℕ → ℕ → Type 0
Follows m a b = ((m a).next ≡ b) × ((m b).prev ≡ a)

-- the way from `a` over the nodes `xs` to `b`
abbrev pub Chain : (ℕ → DList) → ℕ → List ℕ → ℕ → Type 0
Chain m a [] b = Follows m a b
Chain m a (x ∷ xs) b = Follows m a x × Chain m x xs b

abbrev pub Distinct : List ℕ → Type 0
Distinct [] = Unit
Distinct (x ∷ xs) = Avoids x xs × Distinct xs

-- from `head` over the nodes `xs` back to `head`, and no node twice
pub record IsRing (m : ℕ → DList) (head : ℕ) (xs : List ℕ) : Type 0 where
  pub chain : Chain m head xs head
  pub distinct : Distinct (head ∷ xs)

differs : (a b : ℕ) → a ≢ b → (a == b) ≡ false
differs a b n = elim (Bool-cases (a == b)) [ inl e ↦ absurd (n ((==_iff a b).0 e)) | inr e ↦ e ]

equals : (a : ℕ) → (a == a) ≡ true
equals a = (==_iff a a).1 refl

-- the first and the last step of a way
next-ne :
    (m : ℕ → DList) (a b q : ℕ) (xs : List ℕ)
    → Chain m a xs b
    → Avoids q xs
    → q ≢ b
    → (m a).next ≢ q
next-ne m a b q [] c av n e = n (sym e ∙ c.0)
next-ne m a b q (x ∷ xs) c av n e = av.0 (sym (c.0.0) ∙ e)

prev-ne :
    (m : ℕ → DList) (a b q : ℕ) (xs : List ℕ) → Chain m a xs b → Avoids q (a ∷ xs) → (m b).prev ≢ q
prev-ne m a b q [] c av e = av.0 (sym (c.1) ∙ e)
prev-ne m a b q (x ∷ xs) c av e = prev-ne m x b q xs c.1 av.1 e

-- a new node in front of `target`, on a way to it
module _ (m : ℕ → DList) (target rookie : ℕ) where
  abbrev after_insert : ℕ → DList
  after_insert = dlist_insert_before m target rookie

  kept_next : (q : ℕ) → q ≢ rookie → q ≢ (m target).prev → (after_insert q).next ≡ (m q).next
  unfolding dlist_insert_before set_prev set_next
  kept_next q n d = rw (differs q rookie n, differs q (m target).prev d) refl

  kept_prev : (q : ℕ) → q ≢ rookie → q ≢ target → (after_insert q).prev ≡ (m q).prev
  unfolding dlist_insert_before set_prev set_next
  kept_prev q n d = rw (differs q rookie n, differs q target d) refl

  new_links :
      rookie ≢ target
      → (m target).prev ≢ rookie
      → Follows after_insert (m target).prev rookie × Follows after_insert rookie target
  unfolding dlist_insert_before set_prev set_next
  new_links n d =
      rw
        (
          differs (m target).prev rookie d,
          differs rookie target n,
          equals (m target).prev,
          equals rookie,
          equals target,
        )
        ((refl, refl), (refl, refl))

  insert-Chain :
      (a : ℕ) (xs : List ℕ)
      → Chain m a xs target
      → Distinct (a ∷ xs)
      → Avoids target xs
      → Avoids rookie (a ∷ xs)
      → rookie ≢ target
      → Chain after_insert a (xs ++ rookie ∷ []) target
  insert-Chain a [] c d t r n =
      let links = new_links n (λ e. r.0 (sym (c.1) ∙ e)) in
      ((ap (λ x. (after_insert x).next) (sym (c.1)) ∙ links.0.0, links.0.1 ∙ c.1), links.1)
  insert-Chain a (x ∷ xs) c d t r n = (
    (
      kept_next a r.0 (λ e. prev-ne m x target a xs c.1 d.0 (sym e)) ∙ c.0.0,
      kept_prev x r.1.0 t.0 ∙ c.0.1,
    ),
    insert-Chain x xs c.1 d.1 t.1 r.1 n,
  )

-- the node `x` taken out of a way
module _ (m : ℕ → DList) (x : ℕ) where
  abbrev after_detach : ℕ → DList
  after_detach = dlist_detach m x

  same_next : (q : ℕ) → (m x).prev ≢ q → (after_detach q).next ≡ (m q).next
  unfolding dlist_detach set_prev set_next
  same_next q d = rw (differs q (m x).prev (λ e. d (sym e))) refl

  same_prev : (q : ℕ) → (m x).next ≢ q → (after_detach q).prev ≡ (m q).prev
  unfolding dlist_detach set_prev set_next
  same_prev q d = rw (differs q (m x).next (λ e. d (sym e))) refl

  closed : Follows after_detach (m x).prev (m x).next
  unfolding dlist_detach set_prev set_next
  closed = rw (equals (m x).prev, equals (m x).next) (refl, refl)

  rest-Chain :
      (a b : ℕ) (xs : List ℕ)
      → Chain m a xs b
      → Avoids (m x).prev (a ∷ xs)
      → Avoids (m x).next xs
      → (m x).next ≢ b
      → Chain after_detach a xs b
  rest-Chain a b [] c p s n = (same_next a (λ e. p.0 (sym e)) ∙ c.0, same_prev b n ∙ c.1)
  rest-Chain a b (y ∷ ys) c p s n = (
    (same_next a (λ e. p.0 (sym e)) ∙ c.0.0, same_prev y (λ e. s.0 (sym e)) ∙ c.0.1),
    rest-Chain y b ys c.1 p.1 s.1 n,
  )

  joined : (p n : ℕ) → (m x).prev ≡ p → (m x).next ≡ n → Follows after_detach p n
  joined p n e f = (
    ap (λ u. (after_detach u).next) (sym e) ∙ closed.0 ∙ f,
    ap (λ u. (after_detach u).prev) (sym f) ∙ closed.1 ∙ e,
  )

  Chain-split :
      (a b : ℕ) (xs ys : List ℕ) → Chain m a (xs ++ x ∷ ys) b → Chain m a xs x × Chain m x ys b
  Chain-split a b [] ys c = c
  Chain-split a b (w ∷ ws) ys c = let r = Chain-split w b ws ys c.1 in ((c.0, r.0), r.1)

  detach-Chain :
      (a b : ℕ) (xs ys : List ℕ)
      → Chain m a (xs ++ x ∷ ys) b
      → Distinct (a ∷ (xs ++ x ∷ ys))
      → Avoids b (xs ++ x ∷ ys)
      → Chain after_detach a (xs ++ ys) b
  detach-Chain a b [] [] c d t = joined a b (c.0.1) (c.1.0)
  detach-Chain a b [] (y ∷ ys) c d t = (
    joined a y (c.0.1) (c.1.0.0),
    rest-Chain y b ys (c.1.1) (subst (λ u. Avoids u (y ∷ ys)) (sym (c.0.1)) (d.0.1))
        (subst (λ u. Avoids u ys) (sym (c.1.0.0)) (d.1.1.0)) (λ e. t.1.0 (sym (c.1.0.0) ∙ e)),
  )
  detach-Chain a b (w ∷ ws) ys c d t =
      let (before, behind) = Chain-split w b ws ys (c.1) in
      (
        (
          same_next a (prev-ne m w x a ws before (Avoids-append a (w ∷ ws) (x ∷ ys) (d.0)).0)
              ∙ c.0.0,
          same_prev w (next-ne m x b w ys behind ((Avoids-append w ws (x ∷ ys) (d.1.0)).1.1) (t.0))
              ∙ c.0.1,
        ),
        detach-Chain w b ws ys (c.1) (d.1) (t.1),
      )

Avoids-drop : (a x : ℕ) (xs ys : List ℕ) → Avoids a (xs ++ x ∷ ys) → Avoids a (xs ++ ys)
Avoids-drop a x [] ys h = h.1
Avoids-drop a x (w ∷ ws) ys h = (h.0, Avoids-drop a x ws ys h.1)

Distinct-drop : (x : ℕ) (xs ys : List ℕ) → Distinct (xs ++ x ∷ ys) → Distinct (xs ++ ys)
Distinct-drop x [] ys d = d.1
Distinct-drop x (w ∷ ws) ys d = (Avoids-drop w x ws ys (d.0), Distinct-drop x ws ys (d.1))

Avoids-snoc : (a x : ℕ) (xs : List ℕ) → Avoids a xs → x ≢ a → Avoids a (xs ++ x ∷ [])
Avoids-snoc a x [] h n = (n, tt)
Avoids-snoc a x (w ∷ ws) h n = (h.0, Avoids-snoc a x ws h.1 n)

Distinct-snoc : (x : ℕ) (xs : List ℕ) → Distinct xs → Avoids x xs → Distinct (xs ++ x ∷ [])
Distinct-snoc x [] d h = (tt, tt)
Distinct-snoc x (w ∷ ws) d h =
    (Avoids-snoc w x ws (d.0) (λ e. h.0 (sym e)), Distinct-snoc x ws (d.1) (h.1))

pub dlist_init-IsRing : (m : ℕ → DList) (head : ℕ) → IsRing (dlist_init m head) head []
unfolding dlist_init set_prev set_next
dlist_init-IsRing m head = record { chain = rw (equals head) (refl, refl); distinct = (tt, tt) }

-- In a ring, seen from any of its nodes, dlist_insert_before puts a new node in front of that node, as the
-- last of the others: the links forwards and backwards are those of the ring with that node.
pub dlist_insert_before-IsRing :
    (m : ℕ → DList) (target rookie : ℕ) (xs : List ℕ)
    → IsRing m target xs
    → Avoids rookie (target ∷ xs)
    → IsRing (dlist_insert_before m target rookie) target (xs ++ rookie ∷ [])
dlist_insert_before-IsRing m target rookie xs v n = record {
  chain =
      insert-Chain m target rookie target xs v.chain v.distinct (v.distinct.0) n (λ e. n.0 (sym e));
  distinct = Distinct-snoc rookie (target ∷ xs) v.distinct n;
}

-- In a ring, seen from any of its nodes, dlist_detach takes another node out: the links forwards and
-- backwards are those of the ring without it.
pub dlist_detach-IsRing :
    (m : ℕ → DList) (head x : ℕ) (xs ys : List ℕ)
    → IsRing m head (xs ++ x ∷ ys)
    → IsRing (dlist_detach m x) head (xs ++ ys)
dlist_detach-IsRing m head x xs ys v = record {
  chain = detach-Chain m x head head xs ys v.chain v.distinct (v.distinct.0);
  distinct = Distinct-drop x (head ∷ xs) ys v.distinct;
}
