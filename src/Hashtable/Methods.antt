-- ===== src/Hashtable/Methods.antt =====
-- The operations of the map, on its bag of nodes.
use byo_redis.Prelude.{
  ℕ, suc, ◌+◌, ◌*◌, ◌%◌, ◌^◌, ◌≤◌, ◌<◌, ◌≡◌, refl, ◌∙◌, inl, inr, Bool, true, ◌&&◌, List, [], ◌∷◌,
  Option, none, some, leb, leb→le, arith, length,
}
use native.Mathlib.Nat.{pow-suc}
use native.Mathlib.Decide.{ℕ_discrete}
use byo_redis.Prelude.Run.{Run, ok, ◌>>=◌, Returns, Returns-if}
use byo_redis.Hashtable.{
  HNode, HTab, HMap, new_map, is_null, matches, deref, hm_lookup, ensure_newer, grow,
  hm_trigger_rehashing, hm_insert, hm_size,
}
use byo_redis.Hashtable.Bag.{one, tally, nodes, tally-set, power-small, slot-get_or, Split}
use byo_redis.Hashtable.Tables.{
  slot_of, IsTab-no_table, h_insert-Gains, slot-lt, Looked, absent, present, null_or,
  h_lookup-Looked, h_init-IsTab,
}
use byo_redis.Hashtable.Rehashing.{IsMap, total, all, Moved, hm_help_rehashing-Moved}

room :
    (size mask log : ℕ)
    → mask + 1 ≡ 2 ^ log
    → log < 61
    → (mask + 1) * 8 % 2 ^ 64 ≤ size
    → size < 2 ^ 60
    → log < 60
room size mask log p l a b = elim (ℕ_discrete log 60) [
  | yes e ↦ absurd (omega (arith, rw e at p))
  | no n ↦ omega arith
]

module _ {ℓ} {A : Type ℓ} where
  pub IsMap-new_map : IsMap (new_map {A = A})
  IsMap-new_map = record {
    newer = IsTab-no_table;
    older = IsTab-no_table;
    moved = λ i h. refl;
    ready = inr refl;
  }

  -- On a sound map of fewer than 2 ^ 64 nodes hm_size is the number of nodes.
  pub hm_size-total : (m : HMap A) → IsMap m → total all m < 2 ^ 64 → hm_size m ≡ total all m
  unfolding hm_size
  hm_size-total m v b = omega (arith, v.newer.size, v.older.size)

  -- the result of a lookup of the nodes of `m` that pass `q`: no node passes, or the node that is
  -- returned is one that does
  pub data Found (q : HNode A → Bool) (m : HMap A) : Option (HNode A) → Type ℓ where
    no_node : total q m ≡ 0 → Found q m none
    a_node :
        (node : HNode A)
        → q node ≡ true
        → ((p : HNode A → Bool) → one p node ≤ total p m)
        → Found q m (some node)

  deref-Split :
      (t : HTab A) (i k : ℕ) (r : HNode A × List (HNode A))
      → Split (slot_of t i) k r
      → deref t (i, k) ≡ ok (r.0)
  unfolding deref
  deref-Split t i k r s = rw (slot-get_or t.tab i (slot-lt t i k r s), s.run) refl

  part_le :
      (t : HTab A) (i k : ℕ) (r : HNode A × List (HNode A))
      → Split (slot_of t i) k r
      → (p : HNode A → Bool) → one p (r.0) ≤ tally p (nodes t.tab)
  part_le t i k r s p = omega (arith, tally-set p t.tab i [] (slot-lt t i k r s), s.bag p)

  -- the map and the result of hm_lookup
  abbrev LookedUp : (HNode A → Bool) → HMap A → HMap A × Option (HNode A) → Type ℓ
  LookedUp q m r =
      IsMap (r.0) × ((p : HNode A → Bool) → total p (r.0) ≡ total p m) × Found q m (r.1)

  in_older :
      (q : HNode A → Bool) (m m' : HMap A) (o : Option (ℕ × ℕ))
      → Moved 0 m m'
      → tally q (nodes m'.newer.tab) ≡ 0
      → Looked q m'.older o
      → Returns
          (elim o as (λ x. Run (HMap A × Option (HNode A))) [
            | some f ↦ deref m'.older f >>= λ node. ok (m', some node)
            | none ↦ ok (m', none)
          ])
          (LookedUp q m)
  in_older q m m' none k z (absent z') =
      ((m', none), refl, (k.is_map, k.bag, no_node (omega (arith, k.bag q))))
  in_older q m m' (some f) k z (present i j r s e) = (
    (m', some (r.0)),
    rw (deref-Split m'.older i j r s) refl,
    (k.is_map, k.bag, a_node (r.0) e (λ p. omega (arith, k.bag p, part_le m'.older i j r s p))),
  )

  in_newer :
      (q : HNode A → Bool) (m m' : HMap A) (o : Option (ℕ × ℕ))
      (rest : Run (HMap A × Option (HNode A)))
      → Moved 0 m m'
      → Looked q m'.newer o
      → (tally q (nodes m'.newer.tab) ≡ 0 → Returns rest (LookedUp q m))
      → Returns
          (elim o as (λ x. Run (HMap A × Option (HNode A))) [
            | some f ↦ deref m'.newer f >>= λ node. ok (m', some node)
            | none ↦ rest
          ])
          (LookedUp q m)
  in_newer q m m' none rest k (absent z') h = h z'
  in_newer q m m' (some f) rest k (present i j r s e) h = (
    (m', some (r.0)),
    rw (deref-Split m'.newer i j r s) refl,
    (k.is_map, k.bag, a_node (r.0) e (λ p. omega (arith, k.bag p, part_le m'.newer i j r s p))),
  )

  -- On a sound map of fewer than 2 ^ 64 nodes hm_lookup succeeds, keeps the map sound and the bag
  -- of nodes, and returns a node of the map that the key matches, or NULL when the key matches
  -- none.
  pub hm_lookup-Found :
      (m : HMap A) (key : HNode A) (eq : HNode A → HNode A → Bool)
      → IsMap m
      → total all m < 2 ^ 64
      → Returns (hm_lookup m key eq) (λ r.
        IsMap (r.0)
        × ((p : HNode A → Bool) → total p (r.0) ≡ total p m)
        × Found (matches eq key) m (r.1))
  unfolding hm_lookup
  hm_lookup-Found m key eq v b =
      let (m', run, k) = hm_help_rehashing-Moved m v b in
      let (o, run_newer, l) = h_lookup-Looked m'.newer key eq k.is_map.newer in
      let (o', run_older, l') = h_lookup-Looked m'.older key eq k.is_map.older in
      rw (run, run_newer)
        (in_newer (matches eq key) m m' o _ k l
          (λ z. rw run_older (in_older (matches eq key) m m' o' k z l')))

  -- ensure_newer
  ensure_newer-IsMap :
      (m : HMap A)
      → IsMap m
      → Returns (ensure_newer m) (λ m'.
        IsMap m' × ((q : HNode A → Bool) → total q m' ≡ total q m) × (0 < length m'.newer.tab))
  unfolding ensure_newer
  ensure_newer-IsMap m v = elim (null_or m.newer.tab) [
    | inl e ↦
        let (t, run, fresh) = h_init-IsTab {A = A} 2 (omega arith) (omega arith) in
        rw (e, run)
          (
            record m { newer = t },
            refl,
            (
              record { newer = fresh.0; older = v.older; moved = v.moved; ready = inl (fresh.1) },
              (λ q. omega (arith, (fresh.2) q)),
              fresh.1,
            ),
          )
    | inr (e, w) ↦ rw e (m, refl, (v, (λ q. refl), w))
  ]

  null_tally :
      (q : HNode A → Bool) (tab : List (List (HNode A)))
      → is_null tab ≡ true
      → tally q (nodes tab) ≡ 0
  null_tally q [] e = refl
  null_tally q (c ∷ cs) e = ground arith

  trigger :
      (m : HMap A)
      → IsMap m
      → total all m < 2 ^ 60
      → 0 < length m.newer.tab
      → (is_null m.older.tab ≡ true) × ((m.newer.mask + 1) * 8 % 2 ^ 64 ≤ m.newer.size)
      → Returns
          (hm_trigger_rehashing m)
          (λ m'. IsMap m' × ((q : HNode A → Bool) → total q m' ≡ total q m))
  unfolding hm_trigger_rehashing
  trigger m v b w (e, a) =
      let l =
        room m.newer.size m.newer.mask v.newer.log v.newer.power v.newer.log_small a
          (omega (arith, v.newer.size)) in
      let (t, run, fresh) = h_init-IsTab {A = A} (suc v.newer.log) (omega arith) (omega arith) in
      let twice : (m.newer.mask + 1) * 2 % 2 ^ 64 ≡ 2 ^ (suc v.newer.log) =
        omega (
          arith,
          v.newer.power,
          pow-suc 2 v.newer.log,
          power-small v.newer.log v.newer.log_small,
        ) in
      rw (twice, run)
        (
          record { newer = t; older = m.newer; migrate_pos = 0 },
          refl,
          (
            record {
              newer = fresh.0;
              older = v.newer;
              moved = λ i h. absurd (omega arith);
              ready = inl (fresh.1);
            },
            (λ q. omega (arith, (fresh.2) q, null_tally q m.older.tab e)),
          ),
        )

  grow-IsMap :
      (m : HMap A)
      → IsMap m
      → total all m < 2 ^ 60
      → 0 < length m.newer.tab
      → Returns (grow m) (λ m'. IsMap m' × ((q : HNode A → Bool) → total q m' ≡ total q m))
  unfolding grow hm_trigger_rehashing
  grow-IsMap m v b w =
      Returns-if (is_null m.older.tab && leb ((m.newer.mask + 1) * 8 % 2 ^ 64) m.newer.size)
        (λ y. trigger m v b w (full _ _ _ y)) (λ n. (m, refl, (v, (λ q. refl))))
    where
      full : (c : Bool) (a s : ℕ) → c && leb a s ≡ true → (c ≡ true) × (a ≤ s)
      full c a s h = ground (arith, leb→le a s)

  -- On a sound map of fewer than 2 ^ 60 nodes, the new one included, hm_insert succeeds and keeps
  -- the map sound, and the bag of nodes has the new one besides.
  pub hm_insert-Gains :
      (m : HMap A) (node : HNode A)
      → IsMap m
      → total all m + 1 < 2 ^ 60
      → Returns
          (hm_insert m node)
          (λ m'. IsMap m' × ((q : HNode A → Bool) → total q m' ≡ one q node + total q m))
  unfolding hm_insert
  hm_insert-Gains m node v b =
      let (m1, run1, (v1, bag1, w1)) = ensure_newer-IsMap m v in
      let (t, run2, gains) =
        h_insert-Gains m1.newer node v1.newer w1 (omega (arith, bag1 all, v1.newer.size)) in
      let v2 : IsMap (record m1 { newer = t }) = record {
        newer = gains.is_tab;
        older = v1.older;
        moved = v1.moved;
        ready = inl (omega (arith, gains.same_width));
      } in
      let bag2 : (q : HNode A → Bool) → total q (record m1 { newer = t }) ≡ one q node + total q m =
        λ q. omega (arith, gains.bag q, bag1 q) in
      let (m3, run3, (v3, bag3)) =
        grow-IsMap (record m1 { newer = t }) v2 (omega (arith, bag2 all))
          (omega (arith, gains.same_width)) in
      let (m4, run4, k) = hm_help_rehashing-Moved m3 v3 (omega (arith, bag3 all, bag2 all)) in
      (m4, rw (run1, run2, run3, run4) refl, (k.is_map, λ q. k.bag q ∙ bag3 q ∙ bag2 q))
