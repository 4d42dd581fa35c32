-- ===== src/Commands/Deletion.antt =====
-- do_del, on the map from keys to values.
use byo_redis.Prelude.{
  ℕ, ◌+◌, ◌<◌, ◌^◌, ◌≡◌, ◌≢◌, refl, ap, sym, ◌∙◌, ◌⊎◌, inl, inr, Bool, true, false, Bool-cases,
  List, [], ◌∷◌, ◌++◌, Option, none, some, All, map, length, ◌==◌, ==_iff, if◌then◌else◌, arith,
}
use std.Path.{subst}
use byo_redis.Prelude.Run.{Run, ok, ◌>>=◌, Returns, Returns-if}
use byo_redis.Prelude.Int.{negsuc}
use byo_redis.Buffer.{Buffer}
use byo_redis.Tlv.{out_int}
use byo_redis.Heap.{Heap, heap_delete, update}
use byo_redis.Heap.Order.{IsValid}
use byo_redis.Heap.Delete.{heap_delete-Deleted}
use byo_redis.Hashtable.{HNode, HMap}
use byo_redis.Hashtable.Bag.{one, tally}
use byo_redis.Hashtable.Rehashing.{IsMap, total}
use byo_redis.Zset.{Container, same_bytes, zset_clear}
use byo_redis.Zset.Entries.{same_bytes_lem, same_bytes_refl}
use byo_redis.Database.{
  Database, no_index, t_zset, entry_node, entry_set_ttl, entry_del_sync, entry_del,
}
use byo_redis.Database.Keys.{IsKeys, named_by, address_of, address_of-absent}
use byo_redis.Database.Addresses.{
  write_other, names_avoid, tally_avoid, address_of-avoid, address_of-listed,
}
use byo_redis.Database.Removal.{
  others, others-Avoids, others-IsUnique, others-names, others-address_of, tally-others,
  unlink_entry-Unlinked,
}
use byo_redis.Commands.{reply, run_del}
use byo_redis.Commands.Values.{
  Store, Value, value_of, value_at, store_of, Implements, IsDatabase, IsSound, AllSound,
}

-- the map without a key
abbrev pub forget : List ℕ → Store → Store
forget key σ k = if same_bytes key k then none else σ k

-- the entry has no TTL, or its index is one of the heap
abbrev pub IsIndexed : Heap → ℕ → Type 0
IsIndexed h a = (h.refs a ≡ no_index) ⊎ (h.refs a < length h.items)

-- the table is kept, and the other entries
abbrev Keeps : Database → ℕ → Database → Type 0
Keeps d a w = (w.db ≡ d.db) × ((b : ℕ) → b ≢ a → w.entries b ≡ d.entries b)

entry_set_ttl-Keeps :
    (now : ℕ) (d : Database) (a : ℕ)
    → IsValid d.heap
    → IsIndexed d.heap a
    → Returns (entry_set_ttl now d a (negsuc 0)) (Keeps d a)
unfolding entry_set_ttl
entry_set_ttl-Keeps now d a v i =
    Returns-if (d.heap.refs a == no_index) (λ e. (d, refl, (refl, λ b n. refl))) (λ e. deleted i e)
  where
    deleted :
        IsIndexed d.heap a
        → (d.heap.refs a == no_index) ≡ false
        → Returns
            (heap_delete d.heap (d.heap.refs a) >>= λ h.
              ok (record d { heap = record h { refs = update h.refs a no_index } }))
            (Keeps d a)
    deleted (inl q) e = cc ((==_iff (d.heap.refs a) no_index).1 q, e)
    deleted (inr lt) e =
        let (h, run, k) = heap_delete-Deleted d.heap v (d.heap.refs a) lt in
        (
          record d { heap = record h { refs = update h.refs a no_index } },
          rw run refl,
          (refl, λ b n. refl),
        )

sync-Keeps : (d : Database) (a : ℕ) → Keeps d a (entry_del_sync d a)
unfolding entry_del_sync
sync-Keeps d a = elim (Bool-cases ((d.entries a).kind == t_zset)) [
  | inl e ↦ rw e (
    refl,
    λ b n. write_other d a (record (d.entries a) { zset = zset_clear (d.entries a).zset }) b n,
  )
  | inr e ↦ rw e (refl, λ b n. refl)
]

entry_del-Keeps :
    (now : ℕ) (d : Database) (a : ℕ)
    → IsValid d.heap
    → IsIndexed d.heap a
    → Returns (entry_del now d a) (Keeps d a)
unfolding entry_del
entry_del-Keeps now d a v i =
    let (w, run, (db, keep)) = entry_set_ttl-Keeps now d a v i in rw run (large w db keep _)
  where
    large :
        (w : Database)
        → w.db ≡ d.db
        → ((b : ℕ) → b ≢ a → w.entries b ≡ d.entries b)
        → (c : Bool)
        → Returns
            (ok (if c then record w { queue = w.queue ++ a ∷ [] } else entry_del_sync w a))
            (Keeps d a)
    large w db keep true = (record w { queue = w.queue ++ a ∷ [] }, refl, (db, keep))
    large w db keep false =
        let (db', keep') = sync-Keeps w a in
        (entry_del_sync w a, refl, (db' ∙ db, λ b n. keep' b n ∙ keep b n))

-- a database without the entry at `a`
module _ (d w : Database) (xs key : List ℕ) (a : ℕ) (v : IsDatabase d xs)
    (name : (d.entries a).key ≡ key) (at : 0 < tally (λ b. b == a) xs)
    (agree : (b : ℕ) → b ≢ a → w.entries b ≡ d.entries b) where
  gone_address :
      (k : List ℕ)
      → address_of w.entries k (others a xs)
        ≡ (if same_bytes key k then none else address_of d.entries k xs)
  gone_address k =
      address_of-avoid w.entries d.entries a agree k (others a xs) (others-Avoids a xs)
      ∙ elim (Bool-cases (same_bytes key k)) [
        | inl e ↦ rw e (
            address_of-absent d.entries k (others a xs) (
              subst (λ n. All (λ f. f.name ≢ n) (map (named_by d.entries) (others a xs)))
                (name ∙ same_bytes_lem key k e)
                (others-names (named_by d.entries) a xs v.keys.unique at)))
        | inr e ↦ rw e (
            others-address_of d.entries a k xs
              (λ q. cc (same_bytes_refl key, ap (same_bytes key) (sym name ∙ q), e)))
      ]

  others_apart : (k : List ℕ) (b : ℕ) → address_of w.entries k (others a xs) ≡ some b → b ≢ a
  others_apart k b h = address_of-listed w.entries k (others a xs) b a h (others-Avoids a xs)

  gone-IsKeys :
      (h : HMap Container)
      → w.db ≡ h
      → IsMap h
      → ((q : HNode Container → Bool) → total q d.db ≡ one q (entry_node d.entries a) + total q h)
      → IsKeys w (others a xs)
  gone-IsKeys h db is_map bag = record {
    is_map = rw db is_map;
    unique =
        rw (names_avoid w.entries d.entries a agree (others a xs) (others-Avoids a xs))
          (others-IsUnique (named_by d.entries) a xs v.keys.unique);
    linked = λ q.
        ap (total q) db
        ∙ omega (
          arith,
          bag q,
          v.keys.linked q,
          tally-others (named_by d.entries) a (λ b. q (entry_node d.entries b)) xs v.keys.unique at,
          tally_avoid w.entries d.entries a agree q (others a xs) (others-Avoids a xs),
        );
  }

  gone-AllSound : AllSound w.entries (others a xs)
  gone-AllSound k b h =
      subst IsSound (sym (agree b (others_apart k b h)))
        (by_case (Bool-cases (same_bytes key k)) (sym (gone_address k) ∙ h))
    where
      by_case :
          (same_bytes key k ≡ true) ⊎ (same_bytes key k ≡ false)
          → (if same_bytes key k then none else address_of d.entries k xs) ≡ some b
          → IsSound (d.entries b)
      by_case (inl e) q = cc (rw e at q)
      by_case (inr e) q = v.sound k b (rw e at q)

  gone-means : (k : List ℕ) → store_of w (others a xs) k ≡ forget key (store_of d xs) k
  gone-means k = elim (Bool-cases (same_bytes key k)) [
    | inl e ↦ rw e (ap (value_at w.entries) (rw e at (gone_address k)))
    | inr e ↦ rw e (
        old (address_of w.entries k (others a xs)) refl
        ∙ ap (value_at d.entries) (gone_address k ∙ rw e refl))
  ]
    where
      old :
          (o : Option ℕ)
          → address_of w.entries k (others a xs) ≡ o
          → value_at w.entries (address_of w.entries k (others a xs))
            ≡ value_at d.entries (address_of w.entries k (others a xs))
      old none h = rw h refl
      old (some b) h = rw h (ap (λ x. some (value_of x)) (agree b (others_apart k b h)))

-- the reply of a deletion
abbrev pub del_reply : Option Value → Buffer → Run Buffer
del_reply none buf = out_int buf 0
del_reply (some v) buf = out_int buf 1

-- On a database of fewer than 2 ^ 60 keys whose heap is in order, and has an item at the index of the
-- key's entry if that has one, do_del replies with the number of keys deleted, 1 or 0, and the database
-- means the map without the key.
pub run_del-Implements :
    (now : ℕ) (d : Database) (xs : List ℕ) (name key : List ℕ) (rest : List (List ℕ)) (buf : Buffer)
    → IsDatabase d xs
    → length xs < 2 ^ 60
    → IsValid d.heap
    → ((a : ℕ) → address_of d.entries key xs ≡ some a → IsIndexed d.heap a)
    → Implements
        (forget key (store_of d xs))
        (del_reply (store_of d xs key) buf)
        (run_del now (name ∷ key ∷ rest) d buf)
unfolding run_del
run_del-Implements now d xs name key rest buf v b heap indexed =
    let ((u, o), run, k) = unlink_entry-Unlinked d xs key v.keys b in
    rw run (
      subst
        (λ x.
          Implements (forget key (store_of d xs)) (del_reply (store_of d xs key) buf) (rest_of x o))
        (sym k.rest) (branch u.db o k.is_map k.entry k.kept k.lost))
  where
    rest_of : Database → Option ℕ → Run (Database × Buffer)
    rest_of x none = reply x (out_int buf 0)
    rest_of x (some a) = entry_del now x a >>= λ w. reply w (out_int buf 1)

    branch :
        (h : HMap Container) (o : Option ℕ)
        → IsMap h
        → o ≡ address_of d.entries key xs
        → (o ≡ none → (q : HNode Container → Bool) → total q h ≡ total q d.db)
        → ((a : ℕ)
            → o ≡ some a
            → ((d.entries a).key ≡ key)
              × (0 < tally (λ b. b == a) xs)
              × ((q : HNode Container → Bool)
                  → total q d.db ≡ one q (entry_node d.entries a) + total q h))
        → Implements
            (forget key (store_of d xs))
            (del_reply (store_of d xs key) buf)
            (rest_of (record d { db = h }) o)
    branch h none is_map at kept lost = rw (sym at) (record {
      after = record d { db = h };
      addresses = xs;
      replies = refl;
      sound = record {
        keys = record {
          is_map = is_map;
          unique = v.keys.unique;
          linked = λ q. kept refl q ∙ v.keys.linked q;
        };
        sound = v.sound;
      };
      means = λ k. elim (Bool-cases (same_bytes key k)) [
        | inl e ↦ rw e (
            ap (value_at d.entries)
              (ap (λ n. address_of d.entries n xs) (sym (same_bytes_lem key k e)) ∙ sym at))
        | inr e ↦ rw e refl
      ];
    })
    branch h (some a) is_map at kept lost =
        let (its_key, there, bag) = lost a refl in
        let (w, run, (db, agree)) =
          entry_del-Keeps now (record d { db = h }) a heap (indexed a (sym at)) in
        rw (run, sym at)
          (record {
            after = w;
            addresses = others a xs;
            replies = refl;
            sound = record {
              keys = gone-IsKeys d w xs key a v its_key there agree h db is_map bag;
              sound = gone-AllSound d w xs key a v its_key there agree;
            };
            means = gone-means d w xs key a v its_key there agree;
          })
