-- ===== src/Hashtable/Visits.antt =====
-- hm_foreach: the callback on each node, until it returns false.
use byo_redis.Prelude.{
  ℕ, suc, ◌+◌, ◌<◌, ◌≡◌, refl, ap, sym, ◌∙◌, ◌⊎◌, inl, inr, Bool, true, false, not, ◌&&◌, List, [],
  ◌∷◌, ◌++◌, arith, length, length-append, leb, ◌==◌, if◌then◌else◌,
}
use mathlib.Core.List.{append_assoc}
use byo_redis.Prelude.Run.{ok, ◌>>=◌}
use byo_redis.Hashtable.{HNode, HTab, HMap, slot, visit_chain, visit_slots, h_foreach, hm_foreach}
use byo_redis.Hashtable.Bag.{nodes}
use byo_redis.Hashtable.Tables.{IsTab}
use byo_redis.Hashtable.Rehashing.{IsMap}

module _ {ℓ κ} {A : Type ℓ} {S : Type κ} (cb : HNode A → S → S × Bool) where
  -- The fold of the callback over a list of nodes: a state with the flag `false` stays as it is.
  abbrev pub visit : S × Bool → List (HNode A) → S × Bool
  visit r [] = r
  visit r (node ∷ rest) = visit (if r.1 then cb node (r.0) else r) rest

  visit-append :
      (r : S × Bool) (xs ys : List (HNode A)) → visit r (xs ++ ys) ≡ visit (visit r xs) ys
  visit-append r [] ys = refl
  visit-append r (x ∷ xs) ys = visit-append (if r.1 then cb x (r.0) else r) xs ys

  visit_stopped : (s : S) (xs : List (HNode A)) → visit (s, false) xs ≡ (s, false)
  visit_stopped s [] = refl
  visit_stopped s (x ∷ xs) = visit_stopped s xs

  visit_chain-visit : (c : List (HNode A)) (s : S) → visit_chain cb c s ≡ visit (s, true) c
  unfolding visit_chain
  visit_chain-visit [] s = refl
  visit_chain-visit (x ∷ c) s = after_cb (cb x s) (λ z. visit_chain-visit c z)
    where
      after_cb :
          (r : S × Bool)
          → ((z : S) → visit_chain cb c z ≡ visit (z, true) c)
          → (if r.1 then visit_chain cb c (r.0) else (r.0, false)) ≡ visit r c
      after_cb (z, true) h = h z
      after_cb (z, false) h = sym (visit_stopped z c)

  slot-at :
      (front rest : List (List (HNode A))) (c : List (HNode A))
      → slot (front ++ c ∷ rest) (length front) ≡ ok c
  unfolding slot
  slot-at [] rest c = refl
  slot-at (x ∷ front) rest c = slot-at front rest c

  -- the loop behind `front`
  visit_slots-visit :
      (t : HTab A) (rest front : List (List (HNode A))) (k i : ℕ) (s : S)
      → t.tab ≡ front ++ rest
      → length t.tab ≡ t.mask + 1
      → 0 < t.mask
      → i ≡ length front
      → k ≡ suc (length rest)
      → visit_slots cb k t i s ≡ ok (visit (s, true) (nodes rest))
  unfolding visit_slots
  visit_slots-visit t [] front k i s tab width more at fuel =
      let past : (not (t.mask == 0) && leb i t.mask) ≡ false =
        ground (arith, ap length tab, length-append front []) in
      rw (fuel, past) refl
  visit_slots-visit t (c ∷ rest) front k i s tab width more at fuel =
      let inside : (not (t.mask == 0) && leb i t.mask) ≡ true =
        ground (arith, ap length tab, length-append front (c ∷ rest)) in
      let found : slot t.tab i ≡ ok c =
        ap (slot t.tab) at ∙ ap (λ l. slot l (length front)) tab ∙ slot-at front rest c in
      rw (fuel, inside, found, visit_chain-visit c s, visit-append (s, true) c (nodes rest))
        (after_chain (visit (s, true) c) (λ z.
          visit_slots-visit t rest (front ++ c ∷ []) (suc (length rest)) (i + 1) z
            (tab ∙ sym (append_assoc front (c ∷ []) rest)) width more
            (omega (arith, at, length-append front (c ∷ []))) refl))
    where
      after_chain :
          (r : S × Bool)
          → ((z : S)
              → visit_slots cb (suc (length rest)) t (i + 1) z ≡ ok (visit (z, true) (nodes rest)))
          → (if r.1 then visit_slots cb (suc (length rest)) t (i + 1) (r.0) else ok (r.0, false))
            ≡ ok (visit r (nodes rest))
      after_chain (z, true) h = h z
      after_chain (z, false) h = ap ok (sym (visit_stopped z (nodes rest)))

  visit_nothing :
      (t : HTab A) (s : S) → t.mask ≡ 0 → visit_slots cb (t.mask + 2) t 0 s ≡ ok (s, true)
  unfolding visit_slots
  visit_nothing t s z = rw z refl

  h_foreach-visit :
      (t : HTab A) (s : S) → IsTab t → h_foreach cb t s ≡ ok (visit (s, true) (nodes t.tab))
  unfolding h_foreach
  h_foreach-visit t s v = by_width v.width
    where
      no_slots : (tab : List (List (HNode A))) → length tab ≡ 0 → nodes tab ≡ []
      no_slots [] e = refl
      no_slots (c ∷ tab) e = absurd (omega (arith, e))

      by_width :
          ((length t.tab ≡ 0) × (t.mask ≡ 0)) ⊎ ((length t.tab ≡ t.mask + 1) × (0 < t.mask))
          → visit_slots cb (t.mask + 2) t 0 s ≡ ok (visit (s, true) (nodes t.tab))
      by_width (inl (w, z)) = visit_nothing t s z ∙ rw (no_slots t.tab w) refl
      by_width (inr (w, z)) =
          visit_slots-visit t t.tab [] (t.mask + 2) 0 s refl w z refl (omega (arith, w))

  -- On a sound map hm_foreach ends without an access out of bounds, and its result is the fold of the callback
  -- over the nodes of the newer table and then those of the older one, slot by slot, in which
  -- nothing is called after the first `false`.
  pub hm_foreach-visit :
      (m : HMap A) (s : S)
      → IsMap m
      → hm_foreach cb m s ≡ ok ((visit (s, true) (nodes m.newer.tab ++ nodes m.older.tab)).0)
  unfolding hm_foreach
  hm_foreach-visit m s v =
      rw
        (
          h_foreach-visit m.newer s v.newer,
          visit-append (s, true) (nodes m.newer.tab) (nodes m.older.tab),
        )
        (both (visit (s, true) (nodes m.newer.tab)))
    where
      both :
          (r : S × Bool)
          → (if r.1 then (h_foreach cb m.older (r.0) >>= λ q. ok (q.0)) else ok (r.0))
            ≡ ok ((visit r (nodes m.older.tab)).0)
      both (z, true) = rw (h_foreach-visit m.older z v.older) refl
      both (z, false) = ap (λ q. ok (q.0)) (sym (visit_stopped z (nodes m.older.tab)))
