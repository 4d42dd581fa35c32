-- ===== src/Heap/Up.antt =====
-- heap_up: an item that is too small for its place rises.
use byo_redis.Prelude.{ℕ, zero, suc, ◌≤◌, ◌<◌, ◌≡◌, ◌≢◌, arith, length, ltb, length-set, List}
use byo_redis.Prelude.Run.{Returns, Returns-if, Returns-map}
use byo_redis.Heap.{HeapItem, Heap, heap_parent, up_loop}
use byo_redis.Heap.Order.{
  item, val_at, item-set, load-ok, place-ok, IsLinked, Settled, filled, moved, length-after,
  item-after, after-IsLinked, after-Settled, place-Settled,
}

-- only the edge above `i` may be out of order
pub record UpInv (a : List HeapItem) (i : ℕ) : Type 0 where
  pub inside : i < length a
  pub edges : (c : ℕ) → 0 < c → c < length a → c ≢ i → val_at a (heap_parent c) ≤ val_at a c
  pub bridged :
      (c : ℕ)
      → 0 < c
      → c < length a
      → heap_parent c ≡ i
      → 0 < i
      → val_at a (heap_parent i) ≤ val_at a c

module _ (h : Heap) (pos : ℕ) (t : HeapItem) (inside : pos < length h.items)
    (pos_lt : 0 < pos) where
  abbrev up : ℕ
  up = heap_parent pos

  rise-UpInv :
      UpInv (filled h pos t) pos
      → t.val < val_at h.items up
      → UpInv (filled (moved h pos up) up t) up
  rise-UpInv v below =
      let hq : up < length h.items = omega arith in
      let apart : pos ≢ up = omega arith in
      let at = item-after h pos up t inside hq apart in
      let size = length-after h pos up t inside hq apart in
      let own = item-set h.items pos in
      record {
        inside = omega (arith, size, length-set h.items pos t);
        edges = λ c p q r.
            ground
              (arith, size, at c, at (heap_parent c), v.edges c, v.bridged c, own pos t, own up t);
        bridged = λ c p q r s. ground (
          arith,
          size,
          at c,
          at (heap_parent up),
          v.edges c,
          v.edges up,
          v.bridged c,
          own pos t,
          own up t,
        );
      }

pub up_loop-Settled :
    (k : ℕ) (h : Heap) (t : HeapItem) (pos : ℕ)
    → pos < k
    → pos < length h.items
    → UpInv (filled h pos t) pos
    → IsLinked (filled h pos t) h.refs pos
    → Returns (up_loop k h t pos) (Settled (filled h pos t) h.refs)
unfolding up_loop
up_loop-Settled zero h t pos f inside v l = absurd (omega arith)
up_loop-Settled (suc k) h t pos f inside v l =
    let own = item-set h.items pos in
    let q = heap_parent pos in
    rw (load-ok h q (omega arith)) (
      Returns-if (ltb 0 pos)
        (λ pos_lt.
          let hq : q < length h.items = omega arith in
          let lt : 0 < pos = ground arith in
          let apart : pos ≢ q = omega arith in
          Returns-if (ltb t.val (val_at h.items q))
            (λ below. rw (place-ok h pos (item h.items q) inside) (
              Returns-map
                (up_loop-Settled k (moved h pos q) t q (omega arith) (rw length-set hq)
                  (rise-UpInv h pos t inside lt v (ground arith))
                  (after-IsLinked h pos q t inside hq apart l))
                λ g s. after-Settled h pos q t inside hq apart s))
            (λ settled.
              place-Settled h pos t inside (λ c p r. ground (arith, v.edges c, own pos t, own q t))
                l))
        (λ root. place-Settled h pos t inside (λ c p r. ground (arith, v.edges c)) l))
