-- ===== src/Heap/Delete.antt =====
-- heap_delete: the last item fills the place of the one that goes.
use mathlib.Core.List.{Perm}
use mathlib.Core.List.Perm
use byo_redis.Prelude.{
  ℕ, zero, suc, ◌-◌, ◌≤◌, ◌<◌, ◌≡◌, ◌≢◌, refl, ap, ◌∙◌, arith, length, ltb, leb, ◌==◌,
  if◌then◌else◌, set, take, List, [], ◌∷◌, ◌++◌, length-set, length-take,
}
use byo_redis.Prelude.Run.{Returns, Returns-if, Returns-map}
use byo_redis.Heap.{HeapItem, Heap, heap_parent, heap_delete}
use byo_redis.Heap.Order.{
  item, ref_at, item-set, load-ok, set-perm, IsValid, IsLinked, NotOwner, Settled,
}
use byo_redis.Heap.Update.{OnlyAt, heap_update-Settled}
use byo_redis.Heap.Methods.{IsSynced-IsDistinct, concat-perm}

item-take : (n : ℕ) (a : List HeapItem) (i : ℕ) → i < n → item (take n a) i ≡ item a i
unfolding item
item-take zero a i h = elim h [ ]
item-take (suc n) [] i h = refl
item-take (suc n) (x ∷ a) zero h = refl
item-take (suc n) (x ∷ a) (suc i) h = item-take n a i (omega arith)

take-append-item : (n : ℕ) (a : List HeapItem) → length a ≡ suc n → take n a ++ item a n ∷ [] ≡ a
unfolding item
take-append-item n [] h = absurd (omega arith)
take-append-item zero (x ∷ []) h = refl
take-append-item zero (x ∷ y ∷ a) h = absurd (omega arith)
take-append-item (suc n) (x ∷ a) h = ap (◌∷◌ x) (take-append-item n a (omega arith))

-- `g` is the heap `h` without the item at `pos`
pub record Deleted (h : Heap) (pos : ℕ) (g : Heap) : Type 0 where
  pub valid : IsValid g
  pub same : Perm (item h.items pos ∷ g.items) h.items
  pub frame : (r : ℕ) → NotOwner h.items r → g.refs r ≡ h.refs r
  pub stale : g.refs (ref_at h.items pos) ≡ pos

module _ (h : Heap) (v : IsValid h) (pos : ℕ) (inside : pos < length h.items) where
  abbrev last : ℕ
  last = length h.items - 1

  -- the array with its last item moved to `pos`
  abbrev cut : List HeapItem
  cut = take last (set h.items pos (item h.items last))

  length-cut : length cut ≡ last
  length-cut = omega (
    arith,
    length-take last (set h.items pos (item h.items last)),
    length-set h.items pos (item h.items last),
  )

  item-cut :
      (c : ℕ) → c < last → item cut c ≡ (if pos == c then item h.items last else item h.items c)
  item-cut c p = item-take last _ c p ∙ item-set h.items pos c (item h.items last) inside

  cut-perm : Perm (item h.items pos ∷ cut) h.items
  cut-perm =
      let back = item h.items last in
      let filled = set h.items pos back in
      let kept : item filled last ≡ back = ground (arith, item-set h.items pos last back) in
      let whole : cut ++ back ∷ [] ≡ filled =
        rw kept at (take-append-item last filled (omega (arith, length-set h.items pos back))) in
      let trade = set-perm h.items pos back inside in
      Perm.cons_inv (
        Perm.trans (Perm.swap (item h.items pos) back cut) (
          Perm.trans (Perm.cons (item h.items pos) (Perm.symm (concat-perm cut back)))
            (rw whole trade)))

  cut-IsLinked : pos < last → IsLinked cut h.refs pos
  cut-IsLinked p = record {
    inside = omega (arith, length-cut);
    distinct = λ i j q r e. ground (
      arith,
      length-cut,
      item-cut i,
      item-cut j,
      IsSynced-IsDistinct h.items h.refs v.synced (if pos == i then last else i)
          (if pos == j then last else j),
    );
    synced = λ i q n. ground (arith, length-cut, item-cut i, v.synced i);
  }

  cut-OnlyAt : pos < last → OnlyAt cut pos
  cut-OnlyAt p = record {
    edges =
        λ c q r s t. ground (arith, length-cut, v.order c, item-cut c, item-cut (heap_parent c));
    bridged = λ c q r s t.
        ground (arith, length-cut, v.order c, v.order pos, item-cut c, item-cut (heap_parent pos));
  }

  -- an owner of no item of `h`, or of the deleted one, owns no item of `cut`
  cut-NotOwner :
      (r : ℕ) → ((i : ℕ) → i < length h.items → i ≢ pos → ref_at h.items i ≢ r) → NotOwner cut r
  cut-NotOwner r n i p e =
      let from = if pos == i then last else i in
      n from (ground (arith, length-cut)) (ground (arith, length-cut))
        (ground (arith, length-cut, item-cut i))

  Settled-Deleted : {g : Heap} → Settled cut h.refs g → Deleted h pos g
  Settled-Deleted s = record {
    valid = s.valid;
    same = Perm.trans (Perm.cons (item h.items pos) s.same) cut-perm;
    frame = λ r n. s.frame r (cut-NotOwner r λ i p q. n i p);
    stale =
        s.frame (ref_at h.items pos) (
          cut-NotOwner _
            λ i p q e. q (IsSynced-IsDistinct h.items h.refs v.synced i pos p inside e))
        ∙ v.synced pos inside;
  }

  -- the deleted item was the last
  cut-Settled : last ≤ pos → Settled cut h.refs (record h { items = cut })
  cut-Settled p = record {
    valid = record {
      order = λ c q r. ground (arith, length-cut, v.order c, item-cut c, item-cut (heap_parent c));
      synced = λ i q. ground (arith, length-cut, item-cut i, v.synced i);
    };
    same = Perm.rfl;
    frame = λ r n. refl;
  }

  -- `heap_delete` inside the array of a valid heap takes out exactly the item at the index: what is
  -- left is a valid heap of the other items, whose owners know their places. No other memory is
  -- changed, so the owner of the deleted item still has the old index.
  pub heap_delete-Deleted : Returns (heap_delete h pos) (Deleted h pos)
  unfolding heap_delete
  heap_delete-Deleted =
      Returns-if (leb (length h.items) pos) (λ past. absurd (ground arith))
        λ _. rw (load-ok h last (omega arith)) (
          Returns-if (ltb pos last)
            (λ moves.
              let p : pos < last = ground arith in
              let run =
                heap_update-Settled (record h { items = cut }) pos (cut-IsLinked p)
                  (cut-OnlyAt p) in
              Returns-map (rw length-cut at run) λ g s. Settled-Deleted s)
            (λ stays.
              (record h { items = cut }, refl, Settled-Deleted (cut-Settled (ground arith)))))
