-- ===== src/Heap/Methods.antt =====
-- heap_insert and heap_upsert.
use mathlib.Core.List.{Perm, append-nil, perm_middle}
use byo_redis.Prelude.{
  Bool, true, false, ℕ, zero, suc, ◌-◌, ◌≤◌, ◌<◌, ◌≡◌, refl, ap, sym, ◌∙◌, arith, length, ltb,
  if◌then◌else◌, set, List, [], ◌∷◌, ◌++◌, length-append, length-set,
}
use byo_redis.Prelude.Run.{Run, ok, Returns}
use byo_redis.Heap.{HeapItem, Heap, heap_parent, heap_update, heap_delete, heap_insert, heap_upsert}
use byo_redis.Heap.Order.{
  item, ref_at, item-set, IsDistinct, IsSynced, IsValid, IsLinked, NotOwner, Settled,
}
use byo_redis.Heap.Update.{OnlyAt, heap_update-Settled}

pub IsSynced-IsDistinct : (a : List HeapItem) (refs : ℕ → ℕ) → IsSynced a refs → IsDistinct a
IsSynced-IsDistinct a refs s i j p q e = sym (s i p) ∙ ap refs e ∙ s j q

item-append :
    (a : List HeapItem) (t : HeapItem) (i : ℕ) → i < length a → item (a ++ t ∷ []) i ≡ item a i
unfolding item
item-append [] t i h = elim h [ ]
item-append (x ∷ a) t zero h = refl
item-append (x ∷ a) t (suc i) h = item-append a t i (omega arith)

item-append_last : (a : List HeapItem) (t : HeapItem) → item (a ++ t ∷ []) (length a) ≡ t
unfolding item
item-append_last [] t = refl
item-append_last (x ∷ a) t = item-append_last a t

pub concat-perm : (a : List HeapItem) (t : HeapItem) → Perm (a ++ t ∷ []) (t ∷ a)
concat-perm a t = rw (append-nil a) at (perm_middle {a = t} a [])

Returns-ite :
    {x y : Run Heap} {a b : List HeapItem} {refs : ℕ → ℕ} (c : Bool)
    → (c ≡ true → Returns x (Settled a refs))
    → (c ≡ false → Returns y (Settled b refs))
    → Returns (if c then x else y) (Settled (if c then a else b) refs)
Returns-ite true p q = p refl
Returns-ite false p q = q refl

module _ (h : Heap) (v : IsValid h) where
  -- the array with a new item at its end is ready for `heap_update`
  pushed-Settled :
      (t : HeapItem)
      → NotOwner h.items t.ref
      → let h' : Heap = record h { items = h.items ++ t ∷ [] } in
        OnlyAt h'.items (length h.items) × IsLinked h'.items h'.refs (length h.items)
  pushed-Settled t new =
      let n = length h.items in
      let size = length-append h.items (t ∷ []) in
      let at = item-append h.items t in
      let last = item-append_last h.items t in
      (
        record {
          edges = λ c p q r s. ground (arith, size, v.order c, at c, at (heap_parent c));
          bridged = λ c p q r s. absurd (omega (arith, size));
        },
        record {
          inside = omega (arith, size);
          distinct = λ i j p q e. ground (
            arith,
            size,
            last,
            at i,
            at j,
            new i,
            new j,
            IsSynced-IsDistinct h.items h.refs v.synced i j,
          );
          synced = λ i p n. ground (arith, size, at i, v.synced i);
        },
      )

  -- A new item whose owner has none in a valid heap is added to it: the result is a valid heap of
  -- the old items and the new one, and every owner knows its index.
  pub heap_insert-Settled :
      (t : HeapItem)
      → NotOwner h.items t.ref
      → Returns (heap_insert h t) (Settled (h.items ++ t ∷ []) h.refs)
  unfolding heap_insert
  heap_insert-Settled t new =
      let (only, linked) = pushed-Settled t new in
      let last : length (h.items ++ t ∷ []) - 1 ≡ length h.items =
        omega (arith, length-append h.items (t ∷ [])) in
      rw last
        (heap_update-Settled (record h { items = h.items ++ t ∷ [] }) (length h.items) linked only)

  replaced-Settled :
      (pos : ℕ) (t : HeapItem)
      → pos < length h.items
      → t.ref ≡ ref_at h.items pos
      → let h' : Heap = record h { items = set h.items pos t } in
        OnlyAt h'.items pos × IsLinked h'.items h'.refs pos
  replaced-Settled pos t inside owner =
      let size = length-set h.items pos t in
      let at = λ (c : ℕ). item-set h.items pos c t inside in
      (
        record {
          edges = λ c p q r s. ground (arith, size, v.order c, at c, at (heap_parent c));
          bridged =
              λ c p q r s. ground (arith, size, v.order c, v.order pos, at c, at (heap_parent pos));
        },
        record {
          inside = omega (arith, size);
          distinct = λ i j p q e.
              ground (arith, size, at i, at j, IsSynced-IsDistinct h.items h.refs v.synced i j);
          synced = λ i p n. ground (arith, size, at i, v.synced i);
        },
      )

  -- what `heap_upsert` adds or replaces
  abbrev pub upserted : ℕ → HeapItem → List HeapItem
  upserted pos t = if ltb pos (length h.items) then set h.items pos t else h.items ++ t ∷ []

  -- On a valid heap `heap_upsert` at the index of an item of the same owner replaces that item, and
  -- at any index past the end, such as `(size_t)-1`, adds the item of a new owner; the result is a
  -- valid heap.
  pub heap_upsert-Settled :
      (pos : ℕ) (t : HeapItem)
      → (pos < length h.items → t.ref ≡ ref_at h.items pos)
      → (length h.items ≤ pos → NotOwner h.items t.ref)
      → Returns (heap_upsert h pos t) (Settled (upserted pos t) h.refs)
  unfolding heap_upsert
  heap_upsert-Settled pos t owner new = Returns-ite (ltb pos (length h.items)) replaced added
    where
      replaced :
          ltb pos (length h.items) ≡ true
          → Returns
              (heap_update
                (record h { items = set h.items pos t })
                pos
                (length (set h.items pos t)))
              (Settled (set h.items pos t) h.refs)
      replaced inside =
          let (only, linked) = replaced-Settled pos t (ground arith) (owner (ground arith)) in
          heap_update-Settled (record h { items = set h.items pos t }) pos linked only

      added :
          ltb pos (length h.items) ≡ false
          → Returns
              (heap_update
                (record h { items = h.items ++ t ∷ [] })
                (length h.items)
                (length (h.items ++ t ∷ [])))
              (Settled (h.items ++ t ∷ []) h.refs)
      added past =
          let (only, linked) = pushed-Settled t (new (ground arith)) in
          heap_update-Settled (record h { items = h.items ++ t ∷ [] }) (length h.items) linked only

  -- `heap_delete` at an index past the end changes nothing.
  pub heap_delete_past : (pos : ℕ) → length h.items ≤ pos → heap_delete h pos ≡ ok h
  unfolding heap_delete
  heap_delete_past pos past = ground arith
