-- ===== src/Tests/Heaps.antt =====
-- Tests of src/ds/heap.cc.
use byo_redis.Prelude.{ℕ, zero, suc, ◌≤◌, ◌<◌, ◌≡◌, ◌≢◌, refl, sym, ◌∙◌, [], ◌∷◌, ◌++◌, arith}
use byo_redis.Prelude.Run.{Returns}
use byo_redis.Heap.{HeapItem, Heap, heap_parent, heap_update, heap_delete, heap_insert, heap_upsert}
use byo_redis.Heap.Order.{item, val_at, ref_at, IsValid, NotOwner, Settled, IsLinked}
use byo_redis.Heap.Update.{OnlyAt, heap_update-Settled}
use byo_redis.Heap.Methods.{heap_insert-Settled, upserted, heap_upsert-Settled}
use byo_redis.Heap.Delete.{Deleted, heap_delete-Deleted}

-- three timers, of the owners 0, 1 and 2
abbrev timers : Heap
timers = record {
  items =
      record { val = 5; ref = 0 } ∷ record { val = 9; ref = 1 } ∷ record { val = 7; ref = 2 } ∷ [];
  refs = λ r. r;
}

below_three : (P : ℕ → Type 0) → P 0 → P 1 → P 2 → (i : ℕ) → i < 3 → P i
below_three P a b c zero h = a
below_three P a b c (suc zero) h = b
below_three P a b c (suc (suc zero)) h = c
below_three P a b c (suc (suc (suc i))) h = absurd (omega arith)

abbrev timer_ref : ℕ → ℕ
timer_ref i = ref_at timers.items i

timers-IsValid : IsValid timers
unfolding item
timers-IsValid = record {
  order = λ c p q.
      below_three (λ c. 0 < c → val_at timers.items (heap_parent c) ≤ val_at timers.items c)
        (λ h. absurd (omega arith)) (λ h. omega arith) (λ h. omega arith) c q p;
  synced = below_three (λ i. timer_ref i ≡ i) refl refl refl;
}

abbrev early : HeapItem
early = record { val = 1; ref = 3 }

new_owner : NotOwner timers.items 3
unfolding item
new_owner =
    below_three (λ i. timer_ref i ≢ 3) (λ e. omega arith) (λ e. omega arith) (λ e. omega arith)

heap_insert-Settled_example :
    Returns (heap_insert timers early) (Settled (timers.items ++ early ∷ []) timers.refs)
heap_insert-Settled_example = heap_insert-Settled timers timers-IsValid early new_owner

owner_kept : 1 < 3 → 1 ≡ timer_ref 1
unfolding item
owner_kept p = refl

heap_upsert-Settled_example :
    Returns
      (heap_upsert timers 1 (record { val = 1; ref = 1 }))
      (Settled (upserted timers timers-IsValid 1 (record { val = 1; ref = 1 })) timers.refs)
heap_upsert-Settled_example =
    heap_upsert-Settled timers timers-IsValid 1 (record { val = 1; ref = 1 }) owner_kept
      (λ p. absurd (omega arith))

heap_delete-Deleted_example : Returns (heap_delete timers 0) (Deleted timers 0)
heap_delete-Deleted_example = heap_delete-Deleted timers timers-IsValid 0 (omega arith)

-- the timer at 2 has been made the earliest
abbrev hurried : Heap
hurried = record {
  items =
      record { val = 5; ref = 0 } ∷ record { val = 9; ref = 1 } ∷ record { val = 3; ref = 2 } ∷ [];
  refs = λ r. r;
}

hurried-IsLinked : IsLinked hurried.items hurried.refs 2
unfolding item
hurried-IsLinked = record {
  inside = omega arith;
  distinct = λ i j p q e. sym (own i p) ∙ e ∙ own j q;
  synced = λ i p n. own i p;
}
  where
    own : (i : ℕ) → i < 3 → ref_at hurried.items i ≡ i
    own = below_three (λ i. ref_at hurried.items i ≡ i) refl refl refl

hurried-OnlyAt : OnlyAt hurried.items 2
unfolding item
hurried-OnlyAt = record {
  edges = λ c p q n m.
      below_three
        (λ c. 0 < c → c ≢ 2 → val_at hurried.items (heap_parent c) ≤ val_at hurried.items c)
        (λ h k. absurd (omega arith)) (λ h k. omega arith) (λ h k. absurd (k refl)) c q p n;
  bridged = λ c p q e h. absurd (omega arith);
}

heap_update-Settled_example : Returns (heap_update hurried 2 3) (Settled hurried.items hurried.refs)
heap_update-Settled_example = heap_update-Settled hurried 2 hurried-IsLinked hurried-OnlyAt
