-- ===== src/Zset/Methods.antt =====
-- zset_update, zset_insert and zset_delete, on the list of the pairs.
use byo_redis.Prelude.{
  ℕ, ◌+◌, ◌<◌, ◌^◌, ◌≡◌, ◌≢◌, refl, ap, sym, ◌∙◌, Bool, true, false, List, [], ◌∷◌, Option, none,
  some, All, ◌==◌, not, if◌then◌else◌, arith,
}
use byo_redis.Prelude.Run.{Run, ok, ◌>>=◌, Returns, Returns-map}
use byo_redis.Avl.{Tree}
use byo_redis.Avl.Shape.{inorder, count, length-inorder, IsAvl}
use byo_redis.Avl.Delete.{Avoids}
use byo_redis.Hashtable.{HNode, hm_insert}
use byo_redis.Hashtable.Bag.{one, tally, length-tally}
use byo_redis.Hashtable.Methods.{hm_insert-Gains}
use byo_redis.Zset.{
  ZNode, ZMemory, Container, in_znode, ZSet, str_hash, hnode, store, tree_insert, zset_update,
  zset_insert,
}
use byo_redis.Zset.Order.{IsNumber}
use byo_redis.Zset.Entries.{
  IsSorted, IsUnique, insert_entry, without, All-insert_entry, All-without, insert_entry-IsSorted,
  insert_entry-IsUnique, without-IsSorted, without-IsUnique, without-absent, without-eq, held,
  held-absent,
}
use byo_redis.Zset.Insertion.{entries, tree_insert-Inserted}
use byo_redis.Zset.Removal.{detach-Detached}
use byo_redis.Zset.Nodes.{
  store_other, store_self, store-Avoids, store_name, named_apart, held-there,
}
use byo_redis.Zset.Names.{
  IsZset, total-count, tally-congr, Sought, none_named, named, zset_lookup-Looked,
}

-- a tree that has a sorted set's pairs, with all that the set says of it
abbrev IsTree : ZMemory → Tree → Type 0
IsTree m t = IsAvl t × All IsNumber (entries m t) × IsSorted (entries m t) × IsUnique (entries m t)

-- what an insertion into such a tree gives
insert-IsTree :
    (m : ZMemory) (root : Tree) (a : ℕ)
    → IsNumber (m a)
    → All (λ f. f.name ≢ (m a).name) (entries m root)
    → IsTree m root
    → count root + 1 < 2 ^ 32
    → Returns (tree_insert m root a) (λ t.
      IsTree m t
      × (entries m t ≡ insert_entry (m a) (entries m root))
      × ((q : ℕ → Bool) → tally q (inorder t) ≡ one q a + tally q (inorder root)))
insert-IsTree m root a n d (v, ns, s, u) b =
    Returns-map (tree_insert-Inserted m root a n ns s v b) (λ t k. (
      (
        k.avl,
        rw k.list (All-insert_entry IsNumber (m a) (entries m root) n ns),
        rw k.list (insert_entry-IsSorted (m a) (entries m root) d s),
        rw k.list (insert_entry-IsUnique (m a) (entries m root) d u),
      ),
      k.list,
      k.bag,
    ))

same_hnode :
    (m m' : ZMemory) → ((b : ℕ) → (m' b).name ≡ (m b).name) → (b : ℕ) → hnode m' b ≡ hnode m b
same_hnode m m' e b = ap (λ name. record { hcode = str_hash name; payload = in_znode b }) (e b)

-- a set with the pairs that are left when those of `name` are taken out, and the new pair
pub record Put (m : ZMemory) (root : Tree) (name : List ℕ) (score : ℕ) (m' : ZMemory) (z' : ZSet)
    : Type 0 where
  pub sound : IsZset m' z'
  pub list :
      entries m' z'.root
      ≡ insert_entry (record { score = score; name = name }) (without name (entries m root))

-- zset_update of a node of a sound set
zset_update-Put :
    (m : ZMemory) (z : ZSet) (a score : ℕ)
    → IsZset m z
    → IsNumber (record { score = score; name = (m a).name })
    → 0 < tally (λ b. b == a) (inorder z.root)
    → count z.root + 1 < 2 ^ 32
    → Returns (zset_update m z a score) (λ r. Put m z.root (m a).name score (r.0) (r.1))
unfolding zset_update
zset_update-Put m z a score v n at b =
    let x : ZNode = record { score = score; name = (m a).name } in
    let m' = store m a x in
    let name = (m a).name in
    let (t, run, k) = detach-Detached m z.root a v.unique v.avl (omega (arith, b)) at in
    let absent : All (λ f. f.name ≢ name) (entries m t) =
      rw k.list (without-absent name (entries m z.root)) in
    let same : entries m' t ≡ entries m t =
      store-Avoids m a x (inorder t) (named_apart m a (inorder t) absent) in
    let self : m' a ≡ x = store_self m a x in
    let tree : IsTree m' t = (
      k.avl,
      rw (same, k.list) (All-without IsNumber name (entries m z.root) v.numbers),
      rw (same, k.list) (without-IsSorted name (entries m z.root) v.sorted),
      rw (same, k.list) (without-IsUnique name (entries m z.root) v.unique),
    ) in
    let small : count t + 1 < 2 ^ 32 = omega (
      arith,
      b,
      k.bag (λ c. true),
      length-tally (inorder t),
      length-inorder t,
      length-tally (inorder z.root),
      length-inorder z.root,
    ) in
    let (t', run', (tree', list, bag)) =
      insert-IsTree m' t a (rw self n) (rw (self, same) absent) tree small in
    let hs = same_hnode m m' (store_name m a x refl) in
    (
      (m', record z { root = t' }),
      rw (run, run') refl,
      record {
        sound = record {
          avl = tree'.0;
          numbers = tree'.1;
          sorted = tree'.2;
          unique = tree'.3;
          is_map = v.is_map;
          linked = λ q.
              v.linked q
              ∙ k.bag (λ c. q (hnode m c))
              ∙ sym (bag (λ c. q (hnode m c)))
              ∙ sym (tally-congr (inorder t') (λ c. ap q (hs c)));
        };
        list =
            list
            ∙ ap (λ w. insert_entry w (entries m' t)) self
            ∙ ap (insert_entry x) (same ∙ k.list);
      },
    )

-- the nodes of a set where another address is written
tally-Avoids :
    (m : ZMemory) (a : ℕ) (n : ZNode) (q : HNode Container → Bool) (xs : List ℕ)
    → Avoids a xs
    → tally (λ c. q (hnode (store m a n) c)) xs ≡ tally (λ c. q (hnode m c)) xs
tally-Avoids m a n q [] h = refl
tally-Avoids m a n q (x ∷ xs) h =
    let same : hnode (store m a n) x ≡ hnode m x =
      ap (λ z. record { hcode = str_hash z.name; payload = in_znode x })
        (store_other m a n x h.0) in
    omega (arith, tally-Avoids m a n q xs h.1, ap {B = ℕ} (λ c. if q c then 1 else 0) same)

-- the branch of zset_insert for a new name
insert_absent :
    (m : ZMemory) (z : ZSet) (fresh : ℕ) (name : List ℕ) (score : ℕ)
    → IsZset m z
    → IsNumber (record { score = score; name = name })
    → All (λ f. f.name ≢ name) (entries m z.root)
    → Avoids fresh (inorder z.root)
    → count z.root + 1 < 2 ^ 32
    → Returns
        (let m' = store m fresh (record { score = score; name = name }) in
          hm_insert z.hmap (hnode m' fresh) >>= λ hmap. tree_insert m' z.root fresh >>= λ root.
          ok (true, m', record { root = root; hmap = hmap }))
        (λ (r : Bool × ZMemory × ZSet).
          (r.0 ≡ not (held name (entries m z.root))) × Put m z.root name score (r.1) (r.2))
insert_absent m z fresh name score v n absent av b =
    let x : ZNode = record { score = score; name = name } in
    let m' = store m fresh x in
    let (h, run, (w, gained)) =
      hm_insert-Gains z.hmap (hnode m' fresh) v.is_map (omega (arith, total-count m z v, b)) in
    let same : entries m' z.root ≡ entries m z.root = store-Avoids m fresh x (inorder z.root) av in
    let self : m' fresh ≡ x = store_self m fresh x in
    let tree : IsTree m' z.root = (v.avl, rw same v.numbers, rw same v.sorted, rw same v.unique) in
    let (t, run', (tree', list, bag)) =
      insert-IsTree m' z.root fresh (rw self n) (rw (self, same) absent) tree b in
    (
      (true, m', record { root = t; hmap = h }),
      rw (run, run') refl,
      (
        sym (ap not (held-absent name (entries m z.root) absent)),
        record {
          sound = record {
            avl = tree'.0;
            numbers = tree'.1;
            sorted = tree'.2;
            unique = tree'.3;
            is_map = w;
            linked = λ q. omega (
              arith,
              gained q,
              v.linked q,
              bag (λ c. q (hnode m' c)),
              tally-Avoids m fresh x q (inorder z.root) av,
            );
          };
          list =
              list
              ∙ ap (λ y. insert_entry y (entries m' z.root)) self
              ∙ ap (insert_entry x) (same ∙ sym (without-eq name (entries m z.root) absent));
        },
      ),
    )

-- what zset_insert returns
abbrev pub Inserts : ZMemory → Tree → List ℕ → ℕ → Bool × ZMemory × ZSet → Type 0
Inserts m root name score r =
    (r.0 ≡ not (held name (entries m root))) × Put m root name score (r.1) (r.2)

-- the branch for a name that is there
insert_present :
    (m : ZMemory) (z : ZSet) (a : ℕ) (name : List ℕ) (score : ℕ)
    → IsZset m z
    → IsNumber (record { score = score; name = name })
    → (m a).name ≡ name
    → 0 < tally (λ b. b == a) (inorder z.root)
    → count z.root + 1 < 2 ^ 32
    → Returns (zset_update m z a score >>= λ r. ok (false, r.0, r.1)) (Inserts m z.root name score)
insert_present m z a name score v n e at b =
    let (r, run, k) = zset_update-Put m z a score v n at b in
    (
      (false, r.0, r.1),
      rw run refl,
      (
        sym (
            ap not
              (ap (λ x. held x (entries m z.root)) (sym e) ∙ held-there m a (inorder z.root) at)),
        record {
          sound = k.sound;
          list =
              k.list
              ∙ ap
                  (λ x.
                    insert_entry (record { score = score; name = x })
                      (without x (entries m z.root)))
                  e;
        },
      ),
    )

-- In a sound set of fewer than 2 ^ 32 - 1 pairs zset_insert of a score that is not a NaN, with a new
-- address for the node, succeeds and keeps the set sound. The pairs in order are those before, less the
-- pair of that name if there was one, with the new pair in its place, and the result says whether the
-- name was new.
pub zset_insert-Inserts :
    (m : ZMemory) (z : ZSet) (fresh : ℕ) (name : List ℕ) (score : ℕ)
    → IsZset m z
    → IsNumber (record { score = score; name = name })
    → Avoids fresh (inorder z.root)
    → count z.root + 1 < 2 ^ 32
    → Returns (zset_insert m z fresh name score) (Inserts m z.root name score)
unfolding zset_insert
zset_insert-Inserts m z fresh name score v n av b =
    let ((z1, o), run, (w, same, sought)) = zset_lookup-Looked m z name v (omega (arith, b)) in
    rw run (
      Returns-map
        (by_result z1 o w (rw (sym same) at sought) (rw (sym same) at av) (rw (sym same) at b))
        (λ r k. rw same at k))
  where
    by_result :
        (z1 : ZSet) (o : Option ℕ)
        → IsZset m z1
        → Sought m z1.root name o
        → Avoids fresh (inorder z1.root)
        → count z1.root + 1 < 2 ^ 32
        → Returns
            (elim o as (λ x. Run (Bool × ZMemory × ZSet)) [
              | some a ↦ zset_update m z1 a score >>= λ r. ok (false, r.0, r.1)
              | none ↦
                  let m' = store m fresh (record { score = score; name = name }) in
                  hm_insert z1.hmap (hnode m' fresh) >>= λ hmap.
                  tree_insert m' z1.root fresh >>= λ root.
                  ok (true, m', record { root = root; hmap = hmap })
            ])
            (Inserts m z1.root name score)
    by_result z1 none w (none_named absent) av' b' =
        insert_absent m z1 fresh name score w n absent av' b'
    by_result z1 (some a) w (named _ e at) av' b' = insert_present m z1 a name score w n e at b'
