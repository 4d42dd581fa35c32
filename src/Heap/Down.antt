-- ===== src/Heap/Down.antt =====
-- heap_down: an item that is too large for its place sinks.
use byo_redis.Prelude.{
  ℕ, zero, suc, ◌+◌, ◌≤◌, ◌<◌, ◌≡◌, ◌≢◌, ◌⊎◌, arith, length, ltb, ◌==◌, length-set, List, refl,
}
use byo_redis.Prelude.Run.{Returns, Returns-if, Returns-map}
use byo_redis.Heap.{
  HeapItem, Heap, heap_parent, heap_left, heap_right, min_right, min_pos, down_loop,
}
use byo_redis.Heap.Order.{
  item, val_at, item-set, load-ok, place-ok, IsLinked, Settled, filled, moved, length-after,
  item-after, after-IsLinked, after-Settled, place-Settled,
}

-- only the edges below `i` may be out of order
pub record DownInv (a : List HeapItem) (i : ℕ) : Type 0 where
  pub edges :
      (c : ℕ) → 0 < c → c < length a → heap_parent c ≢ i → val_at a (heap_parent c) ≤ val_at a c
  pub bridged :
      (c : ℕ)
      → 0 < c
      → c < length a
      → heap_parent c ≡ i
      → 0 < i
      → val_at a (heap_parent i) ≤ val_at a c

-- `m` is the index of the smallest of `t` at `pos` and the kids of `pos`
record IsLeast (h : Heap) (t : HeapItem) (pos m : ℕ) : Type 0 where
  inside : m < length h.items
  kid : (m ≢ pos) → (0 < m) × (heap_parent m ≡ pos) × (val_at h.items m < t.val)
  least :
      (m ≢ pos)
      → (c : ℕ) → 0 < c
      → c < length h.items
      → heap_parent c ≡ pos
      → val_at h.items m ≤ val_at h.items c
  stays :
      (m ≡ pos)
      → (c : ℕ) → 0 < c
      → c < length h.items
      → heap_parent c ≡ pos
      → t.val ≤ val_at h.items c

module _ (h : Heap) (t : HeapItem) (pos : ℕ) (inside : pos < length h.items) where
  min_pos-IsLeast : Returns (min_pos h t pos (length h.items)) (IsLeast h t pos)
  unfolding min_pos min_right
  min_pos-IsLeast =
      let l = heap_left pos in
      let r = heap_right pos in
      let n = length h.items in
      let kids = λ (c : ℕ) (p : 0 < c) (e : heap_parent c ≡ pos).
        let r : (c ≡ heap_left pos) ⊎ (c ≡ heap_right pos) = omega arith in r in
      Returns-if (ltb l n)
        (λ left. rw (load-ok h l (ground arith)) (
          Returns-if (ltb (val_at h.items l) t.val)
            (λ small.
              Returns-if (ltb r n)
                (λ right. rw (load-ok h r (ground arith)) (
                  _,
                  refl,
                  record {
                    inside = ground arith;
                    kid = λ n. ground arith;
                    least = λ n c p q e. ground (arith, kids c p e);
                    stays = λ n c p q e. ground (arith, kids c p e);
                  },
                ))
                (λ none. (
                  _,
                  refl,
                  record {
                    inside = ground arith;
                    kid = λ n. ground arith;
                    least = λ n c p q e. ground (arith, kids c p e);
                    stays = λ n c p q e. ground (arith, kids c p e);
                  },
                )))
            (λ large.
              Returns-if (ltb r n)
                (λ right. rw (load-ok h r (ground arith)) (
                  _,
                  refl,
                  record {
                    inside = ground arith;
                    kid = λ n. ground arith;
                    least = λ n c p q e. ground (arith, kids c p e);
                    stays = λ n c p q e. ground (arith, kids c p e);
                  },
                ))
                (λ none. (
                  _,
                  refl,
                  record {
                    inside = ground arith;
                    kid = λ n. ground arith;
                    least = λ n c p q e. ground (arith, kids c p e);
                    stays = λ n c p q e. ground (arith, kids c p e);
                  },
                )))))
        (λ leaf.
          Returns-if (ltb r n) (λ right. absurd (ground arith))
            (λ none. (
              _,
              refl,
              record {
                inside = ground arith;
                kid = λ n. ground arith;
                least = λ n c p q e. ground (arith, kids c p e);
                stays = λ n c p q e. ground (arith, kids c p e);
              },
            )))

  sink-DownInv :
      (m : ℕ)
      → DownInv (filled h pos t) pos
      → IsLeast h t pos m
      → m ≢ pos
      → DownInv (filled (moved h pos m) m t) m
  sink-DownInv m v s n =
      let apart : pos ≢ m = λ e. n (omega arith) in
      let at = item-after h pos m t inside s.inside apart in
      let size = length-after h pos m t inside s.inside apart in
      let own = item-set h.items pos in
      let base = length-set h.items pos t in
      let k = s.kid n in
      record {
        edges = λ c p q r. ground (
          arith,
          size,
          base,
          at c,
          at (heap_parent c),
          v.edges c,
          v.bridged m,
          s.least n c,
          own pos t,
          own m t,
          own c t,
        );
        bridged = λ c p q r u.
            ground (arith, size, base, at c, at (heap_parent m), v.edges c, own pos t, own m t);
      }

pub down_loop-Settled :
    (k : ℕ) (h : Heap) (t : HeapItem) (pos : ℕ)
    → length h.items < k + pos
    → pos < length h.items
    → DownInv (filled h pos t) pos
    → IsLinked (filled h pos t) h.refs pos
    → Returns (down_loop k h t pos (length h.items)) (Settled (filled h pos t) h.refs)
unfolding down_loop
down_loop-Settled zero h t pos f inside v l = absurd (omega arith)
down_loop-Settled (suc k) h t pos f inside v l =
    let own = item-set h.items pos in
    let (m, run, s) = min_pos-IsLeast h t pos inside in
    let base = length-set h.items pos t in
    rw (run, load-ok h m s.inside, place-ok h pos (item h.items m) inside)
      (Returns-if (m == pos)
        (λ still.
          let e : m ≡ pos = ground arith in
          place-Settled h pos t inside
            (λ c p r. ground (arith, base, v.edges c, s.stays e c, own c t, own (heap_parent c) t))
            l)
        (λ sinks.
          let n : m ≢ pos = ground arith in
          let apart : pos ≢ m = ground arith in
          let kid = s.kid n in
          let size = length-set h.items pos (item h.items m) in
          Returns-map
            (rw size at (
              down_loop-Settled k (moved h pos m) t m (omega arith) (rw length-set s.inside)
                (sink-DownInv h t pos inside m v s n)
                (after-IsLinked h pos m t inside s.inside apart l)))
            λ g r. after-Settled h pos m t inside s.inside apart r))
