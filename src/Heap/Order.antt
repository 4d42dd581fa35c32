-- ===== src/Heap/Order.antt =====
-- The order of the heap, the agreement of the back references, and one exchange of two items.
use mathlib.Core.List.{Perm}
use mathlib.Core.List.Perm
use byo_redis.Prelude.{
  ℕ, zero, suc, ◌≤◌, ◌<◌, ◌≡◌, ◌≢◌, refl, ap, sym, ◌∙◌, List, [], ◌∷◌, some, arith, length,
  get_elem?, get_or, set, ◌==◌, if◌then◌else◌, length-set,
}
use byo_redis.Prelude.Run.{ok, Returns}
use byo_redis.Heap.{HeapItem, Heap, heap_parent, load, place, update}

abbrev nothing : HeapItem
nothing = record { val = 0; ref = 0 }

-- the item at an index, with a default outside the array
unfoldable pub item : List HeapItem → ℕ → HeapItem
item a i = get_or a i nothing

abbrev pub val_at : List HeapItem → ℕ → ℕ
val_at a i = (item a i).val

abbrev pub ref_at : List HeapItem → ℕ → ℕ
ref_at a i = (item a i).ref

pub item-set :
    (a : List HeapItem) (i j : ℕ) (t : HeapItem)
    → i < length a
    → item (set a i t) j ≡ (if i == j then t else item a j)
unfolding item
item-set [] i j t h = elim h [ ]
item-set (x ∷ a) zero zero t h = refl
item-set (x ∷ a) zero (suc j) t h = ground arith
item-set (x ∷ a) (suc i) zero t h = ground arith
item-set (x ∷ a) (suc i) (suc j) t h = ground (arith, item-set a i j t)

get_elem?-item : (a : List HeapItem) (i : ℕ) → i < length a → get_elem? a i ≡ some (item a i)
unfolding item
get_elem?-item [] i h = elim h [ ]
get_elem?-item (x ∷ a) zero h = refl
get_elem?-item (x ∷ a) (suc i) h = get_elem?-item a i (omega arith)

pub load-ok : (h : Heap) (i : ℕ) → i < length h.items → load h i ≡ ok (item h.items i)
unfolding load
load-ok h i l = rw (get_elem?-item h.items i l, load)

pub place-ok :
    (h : Heap) (pos : ℕ) (t : HeapItem)
    → pos < length h.items
    → place h pos t ≡ ok (record { items = set h.items pos t; refs = update h.refs t.ref pos })
unfolding place
place-ok h pos t l = ground arith

-- a write trades the old item for the new one
pub set-perm :
    (a : List HeapItem) (i : ℕ) (t : HeapItem) → i < length a → Perm (item a i ∷ set a i t) (t ∷ a)
unfolding item
set-perm [] i t h = elim h [ ]
set-perm (x ∷ a) zero t h = Perm.swap t x a
set-perm (x ∷ a) (suc i) t h =
    let rest = Perm.cons x (set-perm a i t (omega arith)) in
    Perm.trans (Perm.swap x (item a i) (set a i t)) (Perm.trans rest (Perm.swap t x a))

-- every item but the root is no smaller than its parent
abbrev pub IsHeap : List HeapItem → Type 0
IsHeap a = (c : ℕ) → 0 < c → c < length a → val_at a (heap_parent c) ≤ val_at a c

-- no two items have one owner
abbrev pub IsDistinct : List HeapItem → Type 0
IsDistinct a = (i j : ℕ) → i < length a → j < length a → ref_at a i ≡ ref_at a j → i ≡ j

-- the owner of each item knows the item's index
abbrev pub IsSynced : List HeapItem → (ℕ → ℕ) → Type 0
IsSynced a refs = (i : ℕ) → i < length a → refs (ref_at a i) ≡ i

-- a heap between calls
pub record IsValid (h : Heap) : Type 0 where
  pub order : IsHeap h.items
  pub synced : IsSynced h.items h.refs

-- the owner of no item of `a`
abbrev pub NotOwner : List HeapItem → ℕ → Type 0
NotOwner a r = (i : ℕ) → i < length a → ref_at a i ≢ r

-- The heap `h` holds the items `v` in heap order, their owners know their places, and no other
-- index is changed from `refs`.
pub record Settled (v : List HeapItem) (refs : ℕ → ℕ) (h : Heap) : Type 0 where
  pub valid : IsValid h
  pub same : Perm h.items v
  pub frame : (r : ℕ) → NotOwner v r → h.refs r ≡ refs r

-- the array with a hole at `pos`, and the item `t` that will go there: as if it stood there
abbrev pub filled : Heap → ℕ → HeapItem → List HeapItem
filled h pos t = set h.items pos t

-- the owners' indices while the item for `pos` is on its way
pub record IsLinked (v : List HeapItem) (refs : ℕ → ℕ) (pos : ℕ) : Type 0 where
  pub inside : pos < length v
  pub distinct : IsDistinct v
  pub synced : (i : ℕ) → i < length v → i ≢ pos → refs (ref_at v i) ≡ i

-- the item at `q` moves into the hole at `pos`, and the hole is now at `q`
abbrev pub moved : Heap → ℕ → ℕ → Heap
moved h pos q = record {
  items = set h.items pos (item h.items q);
  refs = update h.refs (ref_at h.items q) pos;
}

module _ (h : Heap) (pos q : ℕ) (t : HeapItem) (hp : pos < length h.items) (hq : q < length h.items)
    (apart : pos ≢ q) where
  abbrev before : List HeapItem
  before = filled h pos t

  abbrev after : List HeapItem
  after = filled (moved h pos q) q t

  length-before : length before ≡ length h.items
  length-before = length-set h.items pos t

  pub length-after : length after ≡ length before
  length-after = simp length-set

  -- one move is an exchange of two items
  pub item-after :
      (c : ℕ)
      → item after c
        ≡ (if q == c then item before pos else if pos == c then item before q else item before c)
  item-after c = ground (
    arith,
    item-set (set h.items pos (item h.items q)) q c t,
    length-set h.items pos (item h.items q),
    item-set h.items pos c (item h.items q),
    item-set h.items pos c t,
    item-set h.items pos pos t,
    item-set h.items pos q t,
  )

  -- where an item of `after` comes from
  abbrev source : ℕ → ℕ
  source c = if q == c then pos else if pos == c then q else c

  item-source : (c : ℕ) → item after c ≡ item before (source c)
  item-source c = ground (arith, item-after c)

  pub after-IsLinked : IsLinked before h.refs pos → IsLinked after (moved h pos q).refs q
  after-IsLinked l = record {
    inside = omega (arith, length-after, length-before);
    distinct = λ i j p r e. ground (
      arith,
      item-source i,
      item-source j,
      l.distinct (source i) (source j),
      length-after,
      length-before,
    );
    synced = λ i p n. ground (
      arith,
      item-source i,
      l.synced i,
      l.distinct i q,
      item-set h.items pos q t,
      length-after,
      length-before,
    );
  }

  pub after-perm : Perm after before
  after-perm =
      let x = item h.items pos in
      let y = item h.items q in
      let a = h.items in
      let a' = set a pos y in
      let kept : item a' q ≡ y = ground (arith, item-set a pos q y) in
      let first = set-perm a pos t hp in
      let second = set-perm a pos y hp in
      let third = rw kept at (set-perm a' q t (rw length-set hq)) in
      Perm.cons_inv (
        Perm.cons_inv (
          Perm.trans (Perm.cons x third) (
            Perm.trans (Perm.swap t x a') (
              Perm.trans (Perm.cons t second) (
                Perm.trans (Perm.swap y t a)
                  (Perm.trans (Perm.cons y (Perm.symm first)) (Perm.swap x y before)))))))

  pub after-Settled : {g : Heap} → Settled after (moved h pos q).refs g → Settled before h.refs g
  after-Settled s = record {
    valid = s.valid;
    same = Perm.trans s.same after-perm;
    frame = λ r n.
        let others : NotOwner after r = λ i p e.
          n (source i) (ground (arith, length-after, length-before))
            (sym (ap (λ (x : HeapItem). x.ref) (item-source i)) ∙ e) in
        ground (arith, s.frame r others, n q, item-set h.items pos q t, length-before);
  }

-- the item put into the hole, where the array is then in order
pub place-Settled :
    (h : Heap) (pos : ℕ) (t : HeapItem)
    → pos < length h.items
    → IsHeap (filled h pos t)
    → IsLinked (filled h pos t) h.refs pos
    → Returns (place h pos t) (Settled (filled h pos t) h.refs)
place-Settled h pos t inside order l = (
  record { items = filled h pos t; refs = update h.refs t.ref pos },
  place-ok h pos t inside,
  record {
    valid = record {
      order = order;
      synced =
          λ i p. ground (arith, l.synced i, l.distinct i pos, l.inside, item-set h.items pos pos t);
    };
    same = Perm.rfl;
    frame = λ r n. ground (arith, n pos, l.inside, item-set h.items pos pos t);
  },
)
