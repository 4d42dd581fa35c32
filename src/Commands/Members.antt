-- ===== src/Commands/Members.antt =====
-- do_zrem, on the map from keys to values.
use byo_redis.Prelude.{
  ℕ, ◌<◌, ◌^◌, ◌≡◌, refl, ap, sym, ◌∙◌, inl, inr, true, Bool-cases, List, ◌∷◌, Option, none, some,
  length, ◌==◌, ==_iff, if◌then◌else◌, arith,
}
use std.Path.{subst}
use byo_redis.Prelude.Run.{Run, ◌>>=◌}
use byo_redis.Buffer.{Buffer}
use byo_redis.Tlv.{err_bad_typ, out_int, out_err}
use byo_redis.Avl.Shape.{inorder, count}
use byo_redis.Zset.{ZNode, ZSet, zset_lookup, zset_delete, same_bytes}
use byo_redis.Zset.Entries.{without, held, held-absent, same_bytes_lem}
use byo_redis.Zset.Insertion.{entries}
use byo_redis.Zset.Nodes.{held-there}
use byo_redis.Zset.Names.{IsZset, Sought, none_named, named, zset_lookup-Looked}
use byo_redis.Zset.Delete.{zset_delete-Drop}
use byo_redis.Database.{t_str, t_zset, Entry, Database, write_entry}
use byo_redis.Database.Addresses.{write_self}
use byo_redis.Database.Keys.{address_of, find_entry-Found}
use byo_redis.Database.Addresses.{address_of-same}
use byo_redis.Commands.{
  reply, run_zrem, expect_zset, expect_zset_text, Expected, empty, entry, mismatch, expected,
  set_of, write_set,
}
use byo_redis.Commands.Writes.{write-IsDatabase, write-means, same_key}
use byo_redis.Commands.Sets.{pairs_of, put-put, zset_value, text_not_zset, zset_not_text}
use byo_redis.Commands.Values.{
  Value, sorted, value_of, Store, value_at, store_of, put, Implements, IsSound, IsDatabase,
  Rehashed-IsDatabase, Rehashed-store,
}

-- the map after a removal of a member, and the reply
abbrev pub rem_store : Store → List ℕ → List ℕ → Option (List ZNode) → Store
rem_store σ key member none = σ
rem_store σ key member (some es) =
    if held member es then put key (sorted (without member es)) σ else σ

abbrev pub rem_reply : List ℕ → Option (List ZNode) → Buffer → Run Buffer
rem_reply member none buf = out_err buf err_bad_typ expect_zset_text
rem_reply member (some es) buf = out_int buf (if held member es then 1 else 0)

put_same :
    (key : List ℕ) (v : Value) (σ : Store) → σ key ≡ some v → (k : List ℕ) → put key v σ k ≡ σ k
put_same key v σ h k = elim (Bool-cases (same_bytes key k)) [
  | inl e ↦ rw e (sym h ∙ ap σ (same_bytes_lem key k e))
  | inr e ↦ rw e refl
]

-- a database with another sound set under a key
module _ (d : Database) (xs key : List ℕ) (a : ℕ) (v : IsDatabase d xs)
    (at : address_of d.entries key xs ≡ some a) (kind : (d.entries a).kind ≡ t_zset) where
  abbrev with_set : ZSet → Entry
  with_set z = record (d.entries a) { zset = z }

  set-IsDatabase :
      (z : ZSet) → IsZset (d.entries a).nodes z → IsDatabase (write_entry d a (with_set z)) xs
  set-IsDatabase z zv = write-IsDatabase d xs a (with_set z) v refl (inr (kind, zv))

  set_means :
      (z : ZSet) (k : List ℕ)
      → store_of (write_entry d a (with_set z)) xs k
        ≡ put key (sorted (entries (d.entries a).nodes z.root)) (store_of d xs) k
  set_means z k =
      write-means d xs a (with_set z) key k at refl
      ∙ ap (λ w. put key w (store_of d xs) k) (zset_value (with_set z) kind)

  set_address : (z : ZSet) → address_of (write_entry d a (with_set z)).entries key xs ≡ some a
  set_address z =
      address_of-same (write_entry d a (with_set z)).entries d.entries key xs
        (same_key d a (with_set z) refl)
      ∙ at

  set_twice :
      (z1 z2 : ZSet)
      → IsZset (d.entries a).nodes z1
      → IsZset (d.entries a).nodes z2
      → let d1 = write_entry d a (with_set z1) in
        let d2 = write_entry d1 a (record (d1.entries a) { zset = z2 }) in
        IsDatabase d2 xs
        × ((k : List ℕ)
            → store_of d2 xs k
              ≡ put key (sorted (entries (d.entries a).nodes z2.root)) (store_of d xs) k)
  set_twice z1 z2 v1 v2 =
      let d1 = write_entry d a (with_set z1) in
      let e : Entry = record (d1.entries a) { zset = z2 } in
      let same : e ≡ with_set z2 =
        ap {A = Entry} {B = Entry} (λ x. record x { zset = z2 }) (write_self d a (with_set z1)) in
      (
        write-IsDatabase d1 xs a e (set-IsDatabase z1 v1) refl
            (subst IsSound (sym same) (inr (kind, v2))),
        λ k.
            write-means d1 xs a e key k (set_address z1) refl
            ∙ ap (λ x. put key (value_of x) (store_of d1 xs) k) same
            ∙ ap (λ w. put key w (store_of d1 xs) k) (zset_value (with_set z2) kind)
            ∙ put-put key _ _ (store_of d xs) (store_of d1 xs) (set_means z1) k,
      )

-- what follows the lookup of the member
abbrev rem_found : Database → Expected → List ℕ → Buffer → Run (Database × Buffer)
rem_found d which member buf =
    let (m, z) = set_of d which in
    zset_lookup m z member >>= λ r.
    let looked = write_set d which (r.0) in
    elim r.1 [
      | none ↦ reply looked (out_int buf 0)
      | some b ↦ zset_delete m (r.0) b >>= λ z'. reply (write_set looked which z') (out_int buf 1)
    ]

rem-Implements :
    (d : Database) (xs key : List ℕ) (a : ℕ) (member : List ℕ) (buf : Buffer)
    → IsDatabase d xs
    → address_of d.entries key xs ≡ some a
    → (d.entries a).kind ≡ t_zset
    → IsZset (d.entries a).nodes (d.entries a).zset
    → count (d.entries a).zset.root < 2 ^ 32
    → let es = entries (d.entries a).nodes (d.entries a).zset.root in
      Implements
        (rem_store (store_of d xs) key member (some es))
        (rem_reply member (some es) buf)
        (rem_found d (entry a) member buf)
rem-Implements d xs key a member buf v at kind zv b =
    let ((z1, o), run, (v1, same, sought)) =
      zset_lookup-Looked (d.entries a).nodes (d.entries a).zset member zv (omega (arith, b)) in
    rw run (by_result z1 o v1 same sought)
  where
    es : List ZNode
    es = entries (d.entries a).nodes (d.entries a).zset.root

    old : store_of d xs key ≡ some (sorted es)
    old = ap (value_at d.entries) at ∙ ap some (zset_value (d.entries a) kind)

    by_result :
        (z1 : ZSet) (o : Option ℕ)
        → IsZset (d.entries a).nodes z1
        → z1.root ≡ (d.entries a).zset.root
        → Sought (d.entries a).nodes (d.entries a).zset.root member o
        → Implements
            (rem_store (store_of d xs) key member (some es))
            (rem_reply member (some es) buf)
            (elim o as (λ x. Run (Database × Buffer)) [
              | none ↦ reply (write_set d (entry a) z1) (out_int buf 0)
              | some c ↦ zset_delete (d.entries a).nodes z1 c >>= λ z'.
                  reply (write_set (write_set d (entry a) z1) (entry a) z') (out_int buf 1)
            ])
    by_result z1 none v1 same (none_named absent) = rw (held-absent member es absent) (record {
      after = write_set d (entry a) z1;
      addresses = xs;
      replies = refl;
      sound = set-IsDatabase d xs key a v at kind z1 v1;
      means = λ k.
          set_means d xs key a v at kind z1 k
          ∙ ap (λ t. put key (sorted (entries (d.entries a).nodes t)) (store_of d xs) k) same
          ∙ put_same key (sorted es) (store_of d xs) old k;
    })
    by_result z1 (some c) v1 same (named _ name there) =
        let (z2, run, k) =
          zset_delete-Drop (d.entries a).nodes z1 c v1 (rw same there) (rw same b) in
        let (sound, means) = set_twice d xs key a v at kind z1 z2 v1 k.sound in
        let is_held : held member es ≡ true =
          ap (λ n. held n es) (sym name)
          ∙ held-there (d.entries a).nodes c (inorder (d.entries a).zset.root) there in
        let list : entries (d.entries a).nodes z2.root ≡ without member es =
          k.list
          ∙ ap (λ t. without ((d.entries a).nodes c).name (entries (d.entries a).nodes t)) same
          ∙ ap (λ n. without n es) name in
        rw (is_held, run)
          (record {
            after = _;
            addresses = xs;
            replies = refl;
            sound = sound;
            means = λ i. means i ∙ ap (λ l. put key (sorted l) (store_of d xs) i) list;
          })

-- what follows the lookup of the key
abbrev zrem_found : Database → Expected → List ℕ → Buffer → Run (Database × Buffer)
zrem_found d which member buf =
    let go = rem_found d which member buf in
    elim which [
      | empty ↦ go
      | entry a ↦ go
      | mismatch ↦ reply d (out_err buf err_bad_typ expect_zset_text)
    ]

kind_mismatch :
    (d : Database) (a : ℕ) → ((d.entries a).kind == t_str) ≡ true → expected d (some a) ≡ mismatch
kind_mismatch d a c =
    rw (text_not_zset (d.entries a).kind ((==_iff (d.entries a).kind t_str).0 c)) refl

kind_entry : (d : Database) (a : ℕ) → (d.entries a).kind ≡ t_zset → expected d (some a) ≡ entry a
kind_entry d a kind = rw ((==_iff (d.entries a).kind t_zset).1 kind) refl

zrem_found-Implements :
    (d : Database) (xs : List ℕ) (o : Option ℕ) (key member : List ℕ) (buf : Buffer)
    → IsDatabase d xs
    → o ≡ address_of d.entries key xs
    → ((a : ℕ) → o ≡ some a → count (d.entries a).zset.root < 2 ^ 32)
    → let old = pairs_of (value_at d.entries o) in
      Implements
        (rem_store (store_of d xs) key member old)
        (rem_reply member old buf)
        (zrem_found d (expected d o) member buf)
unfolding zset_lookup
zrem_found-Implements d xs none key member buf v at room = record {
  after = d;
  addresses = xs;
  replies = refl;
  sound = v;
  means = λ k. refl;
}
zrem_found-Implements d xs (some a) key member buf v at room = by_kind (v.sound key a (sym at))
  where
    by_kind :
        IsSound (d.entries a)
        → let old = pairs_of (some (value_of (d.entries a))) in
          Implements
            (rem_store (store_of d xs) key member old)
            (rem_reply member old buf)
            (zrem_found d (expected d (some a)) member buf)
    by_kind (inl c) = rw c (
        subst
          (λ w.
            Implements (store_of d xs) (out_err buf err_bad_typ expect_zset_text)
              (zrem_found d w member buf))
          (sym (kind_mismatch d a c))
          (record { after = d; addresses = xs; replies = refl; sound = v; means = λ k. refl }))
    by_kind (inr (kind, zv)) =
        let es = entries (d.entries a).nodes (d.entries a).zset.root in
        rw (zset_not_text (d.entries a).kind kind) (
          subst
            (λ w.
              Implements (rem_store (store_of d xs) key member (some es))
                (rem_reply member (some es) buf) (zrem_found d w member buf))
            (sym (kind_entry d a kind))
            (rem-Implements d xs key a member buf v (sym at) kind zv (room a refl)))

-- On a sound database of fewer than 2 ^ 60 keys, where the set of the key has fewer than 2 ^ 32 pairs, do_zrem does this. For the key of a
-- string it replies with an error and the database means what it did. Else it replies with the number of pairs removed, 1 or 0, and the
-- database means the map with the set without the member under the key, where a missing set stays missing.
pub run_zrem-Implements :
    (d : Database) (xs name key member : List ℕ) (rest : List (List ℕ)) (buf : Buffer)
    → IsDatabase d xs
    → length xs < 2 ^ 60
    → ((a : ℕ) → address_of d.entries key xs ≡ some a → count (d.entries a).zset.root < 2 ^ 32)
    → Implements
        (rem_store (store_of d xs) key member (pairs_of (store_of d xs key)))
        (rem_reply member (pairs_of (store_of d xs key)) buf)
        (run_zrem (name ∷ key ∷ member ∷ rest) d buf)
unfolding run_zrem expect_zset
run_zrem-Implements d xs name key member rest buf v b room =
    let ((d', o), run, (r, at)) = find_entry-Found d xs key v.keys b in
    let at' : o ≡ address_of d'.entries key xs =
      at ∙ ap (λ y. address_of y.entries key xs) (sym r.rest) in
    rw run (
      subst
        (λ σ.
          Implements (rem_store σ key member (pairs_of (σ key)))
            (rem_reply member (pairs_of (σ key)) buf) (zrem_found d' (expected d' o) member buf))
        (Rehashed-store d xs d' r)
        (subst
          (λ p.
            Implements (rem_store (store_of d' xs) key member (pairs_of (value_at d'.entries p)))
              (rem_reply member (pairs_of (value_at d'.entries p)) buf)
              (zrem_found d' (expected d' o) member buf))
          at'
          (zrem_found-Implements d' xs o key member buf (Rehashed-IsDatabase d xs d' v r) at'
            (λ a h.
              subst (λ f. count (f a).zset.root < 2 ^ 32) (sym (ap (λ y. y.entries) r.rest))
                (room a (sym at ∙ h))))))
