-- ===== src/Heap/Update.antt =====
-- heap_update: an item that may be out of order with its parent or its kids finds its place.
use byo_redis.Prelude.{
  ℕ, zero, suc, ◌+◌, ◌≤◌, ◌<◌, ◌≡◌, ◌≢◌, refl, ap, arith, length, ltb, set, List, [], ◌∷◌,
}
use byo_redis.Prelude.Run.{Returns, Returns-if}
use byo_redis.Heap.{HeapItem, Heap, heap_parent, heap_up, heap_down, heap_update}
use byo_redis.Heap.Order.{item, val_at, load-ok, IsLinked, Settled}
use byo_redis.Heap.Up.{UpInv, up_loop-Settled}
use byo_redis.Heap.Down.{DownInv, down_loop-Settled}

-- only the edges above and below `i` may be out of order
pub record OnlyAt (a : List HeapItem) (i : ℕ) : Type 0 where
  pub edges :
      (c : ℕ)
      → 0 < c
      → c < length a
      → c ≢ i
      → heap_parent c ≢ i
      → val_at a (heap_parent c) ≤ val_at a c
  pub bridged :
      (c : ℕ)
      → 0 < c
      → c < length a
      → heap_parent c ≡ i
      → 0 < i
      → val_at a (heap_parent i) ≤ val_at a c

set-item : (a : List HeapItem) (i : ℕ) → set a i (item a i) ≡ a
unfolding item
set-item [] i = refl
set-item (x ∷ a) zero = refl
set-item (x ∷ a) (suc i) = ap (◌∷◌ x) (set-item a i)

module _ (h : Heap) (pos : ℕ) (l : IsLinked h.items h.refs pos) where
  heap_up-Settled : UpInv h.items pos → Returns (heap_up h pos) (Settled h.items h.refs)
  unfolding heap_up
  heap_up-Settled v =
      let t = item h.items pos in
      let same = set-item h.items pos in
      rw (load-ok h pos l.inside) (
        rw same at
          (up_loop-Settled (pos + 1) h t pos (omega arith) l.inside (rw same v) (rw same l)))

  heap_down-Settled :
      DownInv h.items pos → Returns (heap_down h pos (length h.items)) (Settled h.items h.refs)
  unfolding heap_down
  heap_down-Settled v =
      let t = item h.items pos in
      let same = set-item h.items pos in
      rw (load-ok h pos l.inside) (
        rw same at (
          down_loop-Settled (length h.items + 1) h t pos (omega arith) l.inside (rw same v)
            (rw same l)))

  -- An array that is in order but at one index is put in order, whichever way the item has to
  -- go: the same items, every owner told its index, and no other memory changed.
  pub heap_update-Settled :
      OnlyAt h.items pos → Returns (heap_update h pos (length h.items)) (Settled h.items h.refs)
  unfolding heap_update
  heap_update-Settled v =
      let q = heap_parent pos in
      let inside = l.inside in
      rw (load-ok h pos l.inside, load-ok h q (omega arith))
        (Returns-if (ltb 0 pos)
          (λ below_root.
            Returns-if (ltb (val_at h.items pos) (val_at h.items q))
              (λ small. heap_up-Settled (record {
                inside = inside;
                edges = λ c p r n. ground (arith, v.edges c, v.bridged c);
                bridged = v.bridged;
              }))
              (λ large.
                heap_down-Settled
                  (record { edges = λ c p r n. ground (arith, v.edges c); bridged = v.bridged })))
          (λ root.
            heap_down-Settled
              (record { edges = λ c p r n. v.edges c p r (ground arith) n; bridged = v.bridged })))
