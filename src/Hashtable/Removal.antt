-- ===== src/Hashtable/Removal.antt =====
-- hm_delete, on the bag of nodes.
use byo_redis.Prelude.{
  ℕ, ◌+◌, ◌^◌, ◌<◌, ◌≡◌, refl, ap, sym, ◌∙◌, Bool, true, List, [], Option, none, some, arith,
}
use native.Mathlib.Decide.{ℕ_discrete}
use byo_redis.Prelude.Run.{Run, ok, ◌>>=◌, Returns}
use byo_redis.Hashtable.{HNode, HTab, HMap, matches, h_detach, hm_delete}
use byo_redis.Hashtable.Bag.{one, tally, nodes, Split}
use byo_redis.Hashtable.Tables.{
  slot_of, Loses, h_detach-Loses, Looked, absent, present, h_lookup-Looked,
}
use byo_redis.Hashtable.Rehashing.{IsMap, total, all, Moved, hm_help_rehashing-Moved}

module _ {ℓ} {A : Type ℓ} where
  -- The result of a deletion of a node that passes `q` from `m`: no node passes and all are kept,
  -- or one that passes is returned and the map has the others.
  pub data Deleted (q : HNode A → Bool) (m m' : HMap A) : Option (HNode A) → Type ℓ where
    no_node : total q m ≡ 0 → ((p : HNode A → Bool) → total p m' ≡ total p m) → Deleted q m m' none
    a_node :
        (node : HNode A)
        → q node ≡ true
        → ((p : HNode A → Bool) → total p m ≡ one p node + total p m')
        → Deleted q m m' (some node)

  -- the map and the result of hm_delete
  abbrev pub Removed : (HNode A → Bool) → HMap A → HMap A × Option (HNode A) → Type ℓ
  Removed q m r = IsMap (r.0) × Deleted q m (r.0) (r.1)

  -- a slot that was empty is still so after the removal of a node from another
  still_moved :
      (t t' : HTab A) (i k n : ℕ) (r : HNode A × List (HNode A))
      → Split (slot_of t i) k r
      → Loses t i (r.0) t'
      → ((j : ℕ) → j < n → slot_of t j ≡ [])
      → (j : ℕ) → j < n
      → slot_of t' j ≡ []
  still_moved t t' i k n r s l h j lt = elim (ℕ_discrete j i) [
    | yes e ↦ absurd (one_more _ _ (rw (sym e) at s.bag all) (ap (tally all) (h j lt)))
    | no d ↦ l.elsewhere j d ∙ h j lt
  ]
    where
      one_more : (a b : ℕ) → a ≡ 1 + b → a ≡ 0 → ⊥
      one_more a b x y = omega arith

  from_older :
      (q : HNode A → Bool) (m m' : HMap A) (o : Option (ℕ × ℕ))
      → Moved 0 m m'
      → total all m < 2 ^ 64
      → tally q (nodes m'.newer.tab) ≡ 0
      → Looked q m'.older o
      → Returns
          (elim o as (λ x. Run (HMap A × Option (HNode A))) [
            | some f ↦ h_detach m'.older f >>= λ r. ok (record m' { older = r.1 }, some (r.0))
            | none ↦ ok (m', none)
          ])
          (Removed q m)
  from_older q m m' none k b z (absent z') =
      ((m', none), refl, (k.is_map, no_node (omega (arith, k.bag q)) k.bag))
  from_older q m m' (some f) k b z (present i j r s e) =
      let (t, run, l) =
        h_detach-Loses m'.older i j r k.is_map.older (omega (arith, k.is_map.older.size, k.bag all))
          s in
      rw run (
        (record m' { older = t }, some (r.0)),
        refl,
        (
          record {
            newer = k.is_map.newer;
            older = l.is_tab;
            moved = still_moved m'.older t i j m'.migrate_pos r s l k.is_map.moved;
            ready = rw l.same_width k.is_map.ready;
          },
          a_node (r.0) e (λ p. omega (arith, k.bag p, l.bag p)),
        ),
      )

  from_newer :
      (q : HNode A → Bool) (m m' : HMap A) (o : Option (ℕ × ℕ))
      (rest : Run (HMap A × Option (HNode A)))
      → Moved 0 m m'
      → total all m < 2 ^ 64
      → Looked q m'.newer o
      → (tally q (nodes m'.newer.tab) ≡ 0 → Returns rest (Removed q m))
      → Returns
          (elim o as (λ x. Run (HMap A × Option (HNode A))) [
            | some f ↦ h_detach m'.newer f >>= λ r. ok (record m' { newer = r.1 }, some (r.0))
            | none ↦ rest
          ])
          (Removed q m)
  from_newer q m m' none rest k b (absent z) h = h z
  from_newer q m m' (some f) rest k b (present i j r s e) h =
      let (t, run, l) =
        h_detach-Loses m'.newer i j r k.is_map.newer (omega (arith, k.is_map.newer.size, k.bag all))
          s in
      rw run (
        (record m' { newer = t }, some (r.0)),
        refl,
        (
          record {
            newer = l.is_tab;
            older = k.is_map.older;
            moved = k.is_map.moved;
            ready = rw l.same_width k.is_map.ready;
          },
          a_node (r.0) e (λ p. omega (arith, k.bag p, l.bag p)),
        ),
      )

  -- On a sound map of fewer than 2 ^ 64 nodes hm_delete succeeds and keeps the map sound. It
  -- removes one node that the key matches and returns it, or returns NULL and removes none, when
  -- the key matches none.
  pub hm_delete-Deleted :
      (m : HMap A) (key : HNode A) (eq : HNode A → HNode A → Bool)
      → IsMap m
      → total all m < 2 ^ 64
      → Returns (hm_delete m key eq) (λ r. IsMap (r.0) × Deleted (matches eq key) m (r.0) (r.1))
  unfolding hm_delete
  hm_delete-Deleted m key eq v b =
      let (m', run, k) = hm_help_rehashing-Moved m v b in
      let (o, run_newer, l) = h_lookup-Looked m'.newer key eq k.is_map.newer in
      let (o', run_older, l') = h_lookup-Looked m'.older key eq k.is_map.older in
      rw (run, run_newer)
        (from_newer (matches eq key) m m' o _ k b l
          (λ z. rw run_older (from_older (matches eq key) m m' o' k b z l')))
