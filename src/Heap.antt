-- ===== src/Heap.antt =====
-- include/byoredis/ds/heap.hh and src/ds/heap.cc: the array heap of expiration times. Each item
-- points back to the index that its owner keeps of it, and every move of an item updates that
-- index: `refs` is the memory behind those pointers, a `size_t` for each address.
-- An index stays below three times the length of the vector, so `size_t` does not wrap.
-- A read or a write outside the vector faults. Loops run on fuel.
pub mod Order
pub mod Up
pub mod Down
pub mod Update
pub mod Methods
pub mod Delete
use byo_redis.Prelude.{
  ℕ, zero, suc, ◌+◌, ◌-◌, ◌*◌, ◌/◌, Bool, List, [], ◌∷◌, ◌++◌, Option, none, some, length,
  get_elem?, set, take, leb, ltb, ◌==◌, if◌then◌else◌,
}
use byo_redis.Prelude.Run.{Run, ok, fault, out_of_bounds, out_of_fuel, ◌>>=◌}

pub record HeapItem : Type 0 where
  pub val : ℕ
  pub ref : ℕ

pub record Heap : Type 0 where
  pub items : List HeapItem
  pub refs : ℕ → ℕ

abbrev pub update : (ℕ → ℕ) → ℕ → ℕ → ℕ → ℕ
update f p v q = if p == q then v else f q

abbrev pub heap_parent : ℕ → ℕ
heap_parent i = (i - 1) / 2

abbrev pub heap_left : ℕ → ℕ
heap_left i = 2 * i + 1

abbrev pub heap_right : ℕ → ℕ
heap_right i = 2 * i + 2

-- `a[i]`
pub load : Heap → ℕ → Run HeapItem
load h i = elim (get_elem? h.items i) [ none ↦ fault out_of_bounds | some t ↦ ok t ]

-- `a[pos] = t; *a[pos].ref = pos;`
pub place : Heap → ℕ → HeapItem → Run Heap
place h pos t =
    if ltb pos (length h.items)
    then ok (record { items = set h.items pos t; refs = update h.refs t.ref pos })
    else fault out_of_bounds

-- the loop of heap_up and the write behind it; `t` is the item that moves
pub up_loop : ℕ → Heap → HeapItem → ℕ → Run Heap
up_loop zero h t pos = fault out_of_fuel
up_loop (suc k) h t pos =
    let rise = λ (p : HeapItem). place h pos p >>= λ h'. up_loop k h' t (heap_parent pos) in
    let step : Run Heap = do
      p ← load h (heap_parent pos)
      let rest = rise p
      if ltb t.val p.val then rest else place h pos t
    in if ltb 0 pos then step else place h pos t

pub heap_up : Heap → ℕ → Run Heap
unfolding up_loop
heap_up h pos = do t ← load h pos; up_loop (pos + 1) h t pos

-- the second test of the search: the right kid against the smallest so far
pub min_right : Heap → ℕ → ℕ → ℕ → ℕ → Run ℕ
min_right h pos len best min_val =
    if ltb (heap_right pos) len
    then (do r ← load h (heap_right pos); ok (if ltb r.val min_val then heap_right pos else best))
    else ok best

-- the index `min_pos` of the smallest of `t`, which stands for `a[pos]`, and its kids
pub min_pos : Heap → HeapItem → ℕ → ℕ → Run ℕ
unfolding min_right load
min_pos h t pos len =
    let left : Run ℕ = do
      l ← load h (heap_left pos)
      if ltb l.val t.val
          then min_right h pos len (heap_left pos) l.val
          else min_right h pos len pos t.val
    in if ltb (heap_left pos) len then left else min_right h pos len pos t.val

-- the loop of heap_down and the write behind it
pub down_loop : ℕ → Heap → HeapItem → ℕ → ℕ → Run Heap
down_loop zero h t pos len = fault out_of_fuel
down_loop (suc k) h t pos len = do
  m ← min_pos h t pos len
  let sink : Run Heap = do c ← load h m; h' ← place h pos c; down_loop k h' t m len
  if m == pos then place h pos t else sink

pub heap_down : Heap → ℕ → ℕ → Run Heap
unfolding down_loop min_pos
heap_down h pos len = do t ← load h pos; down_loop (len + 1) h t pos len

unfoldable pub heap_update : Heap → ℕ → ℕ → Run Heap
heap_update h pos len =
    let test : Run Heap = do
      t ← load h pos
      p ← load h (heap_parent pos)
      if ltb t.val p.val then heap_up h pos else heap_down h pos len
    in if ltb 0 pos then test else heap_down h pos len

unfoldable pub heap_delete : Heap → ℕ → Run Heap
heap_delete h pos =
    let n = length h.items in
    if leb n pos then ok h else do
      back ← load h (n - 1)
      let h' = record h { items = take (n - 1) (set h.items pos back) }
      if ltb pos (n - 1) then heap_update h' pos (n - 1) else ok h'

unfoldable pub heap_insert : Heap → HeapItem → Run Heap
heap_insert h t =
    let h' = record h { items = h.items ++ t ∷ [] } in
    heap_update h' (length h'.items - 1) (length h'.items)

unfoldable pub heap_upsert : Heap → ℕ → HeapItem → Run Heap
heap_upsert h pos t =
    if ltb pos (length h.items)
    then (let h' = record h { items = set h.items pos t } in heap_update h' pos (length h'.items))
    else (let h' = record h { items = h.items ++ t ∷ [] } in
        heap_update h' (length h.items) (length h'.items))
