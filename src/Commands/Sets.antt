-- ===== src/Commands/Sets.antt =====
-- do_zadd, on the map from keys to values.
use byo_redis.Prelude.{
  ℕ, ◌+◌, ◌<◌, ◌^◌, ◌≡◌, refl, ap, sym, ◌∙◌, inl, inr, Bool, true, false, ◌&&◌, not, List, [], ◌∷◌,
  Option, none, some, length, ◌==◌, ==_iff, if◌then◌else◌, arith,
}
use std.Path.{subst}
use byo_redis.Prelude.Run.{Run, ◌>>=◌}
use byo_redis.Prelude.Int.{ℤ}
use byo_redis.Buffer.{Buffer}
use byo_redis.Tlv.{err_bad_typ, err_bad_arg, out_int, out_err}
use byo_redis.Hashtable.Methods.{IsMap-new_map}
use byo_redis.Avl.Delete.{Avoids}
use byo_redis.Avl.Shape.{inorder, count}
use byo_redis.Zset.{ZNode, ZSet, zset_insert, same_bytes}
use byo_redis.Zset.Entries.{insert_entry, without, held}
use byo_redis.Zset.Insertion.{entries}
use byo_redis.Zset.Order.{IsNumber}
use byo_redis.Zset.Names.{IsZset}
use byo_redis.Zset.Methods.{zset_insert-Inserts}
use byo_redis.Database.{
  t_str, t_zset, Entry, Database, write_entry, empty_zset, blank_memory, entry_new, find_entry,
  link_entry,
}
use byo_redis.Database.Addresses.{write_self, write_other}
use byo_redis.Database.Keys.{address_of, find_entry-Found}
use byo_redis.Double.{isnan}
use byo_redis.Commands.{reply, c_str, run_zadd, str2dbl, expect_float, expect_zset_text}
use byo_redis.Commands.Writes.{write-IsDatabase, write-means, new-Linked}
use byo_redis.Commands.Values.{
  Value, text, sorted, value_of, Store, value_at, store_of, put, Implements, IsSound, IsDatabase,
  Rehashed-IsDatabase, Rehashed-store,
}

-- the pairs of a value, of which a missing one has none
abbrev pub pairs_of : Option Value → Option (List ZNode)
pairs_of none = some []
pairs_of (some (text s)) = none
pairs_of (some (sorted es)) = some es

-- the map after an addition of a pair, and the reply: 1 for a new name, 0 for an update
abbrev pub add_store : Store → List ℕ → ZNode → Option (List ZNode) → Store
add_store σ key x none = σ
add_store σ key x (some es) = put key (sorted (insert_entry x (without x.name es))) σ

abbrev pub add_reply : ZNode → Option (List ZNode) → Buffer → Run Buffer
add_reply x none buf = out_err buf err_bad_typ expect_zset_text
add_reply x (some es) buf = out_int buf (if not (held x.name es) then 1 else 0)

-- the set takes a new node at the address
abbrev pub HasRoom : ZSet → ℕ → Type 0
HasRoom z fresh_node = Avoids fresh_node (inorder z.root) × (count z.root + 1 < 2 ^ 32)

-- the call of zset_insert and what follows it
abbrev added : Database → ℕ → ℕ → List ℕ → ℕ → Buffer → Run (Database × Buffer)
added d a fresh_node member score buf =
    let ent = d.entries a in
    zset_insert ent.nodes ent.zset fresh_node member score >>= λ r.
    reply (write_entry d a (record ent { nodes = r.1; zset = r.2 }))
      (out_int buf (if r.0 then 1 else 0))

pub zset_value : (e : Entry) → e.kind ≡ t_zset → value_of e ≡ sorted (entries e.nodes e.zset.root)
zset_value e k = rw k refl

-- an entry with a sound set of the pairs, and room for a new node
abbrev IsReady : ℕ → List ZNode → Entry → Type 0
IsReady fresh_node es e =
    (e.kind ≡ t_zset)
    × IsZset e.nodes e.zset
    × HasRoom e.zset fresh_node
    × (entries e.nodes e.zset.root ≡ es)

add-Implements :
    (d : Database) (xs : List ℕ) (key : List ℕ) (a fresh_node : ℕ) (x : ZNode) (es : List ZNode)
    (buf : Buffer)
    → IsDatabase d xs
    → address_of d.entries key xs ≡ some a
    → IsReady fresh_node es (d.entries a)
    → IsNumber x
    → Implements
        (add_store (store_of d xs) key x (some es))
        (add_reply x (some es) buf)
        (added d a fresh_node x.name x.score buf)
add-Implements d xs key a fresh_node x es buf v at (kind, zv, (av, b), is) n =
    let ent = d.entries a in
    let ((new, m, z), run, (says, kept)) =
      zset_insert-Inserts ent.nodes ent.zset fresh_node x.name x.score zv n av b in
    let e : Entry = record ent { nodes = m; zset = z } in
    record {
      after = write_entry d a e;
      addresses = xs;
      replies = rw (run, says, is) refl;
      sound = write-IsDatabase d xs a e v refl (inr (kind, kept.sound));
      means = λ k.
          write-means d xs a e key k at refl
          ∙ ap (λ w. put key w (store_of d xs) k)
              (zset_value e kind
                ∙ ap sorted (kept.list ∙ ap (λ l. insert_entry x (without x.name l)) is));
    }

abbrev new_zset : List ℕ → Entry
new_zset key = record {
  key = key;
  kind = t_zset;
  str = [];
  nodes = blank_memory;
  zset = empty_zset;
}

IsZset-empty : IsZset blank_memory empty_zset
unfolding inorder
IsZset-empty = record {
  avl = tt;
  numbers = tt;
  sorted = tt;
  unique = tt;
  is_map = IsMap-new_map;
  linked = λ q. refl;
}

pub put-put :
    (key : List ℕ) (v w : Value) (σ τ : Store)
    → ((k : List ℕ) → τ k ≡ put key v σ k)
    → (k : List ℕ) → put key w τ k ≡ put key w σ k
put-put key v w σ τ h k = by_case (same_bytes key k) (h k)
  where
    by_case :
        (c : Bool)
        → τ k ≡ (if c then some v else σ k)
        → (if c then some w else τ k) ≡ (if c then some w else σ k)
    by_case true e = refl
    by_case false e = e

-- the branch for a new key
zadd_new :
    (d : Database) (xs : List ℕ) (key : List ℕ) (fresh fresh_node : ℕ) (x : ZNode) (buf : Buffer)
    → IsDatabase d xs
    → Avoids fresh xs
    → length xs + 1 < 2 ^ 60
    → address_of d.entries key xs ≡ none
    → IsNumber x
    → Implements (add_store (store_of d xs) key x (some [])) (add_reply x (some []) buf) (
        link_entry (entry_new d fresh t_zset key) fresh >>= λ linked.
        added linked fresh fresh_node x.name x.score buf)
unfolding inorder
zadd_new d xs key fresh fresh_node x buf v n b absent number =
    let w = entry_new d fresh t_zset key in
    let (d', run, k) =
      new-Linked d w xs fresh key (new_zset key) v n b absent refl
        (λ c. write_other d fresh (new_zset key) c) (write_self d fresh (new_zset key)) refl
        (inr (refl, IsZset-empty)) in
    let same : d'.entries fresh ≡ new_zset key =
      ap (λ f. f fresh) k.same ∙ write_self d fresh (new_zset key) in
    let ready : IsReady fresh_node [] (d'.entries fresh) =
      subst (IsReady fresh_node []) (sym same) (refl, IsZset-empty, (tt, omega arith), refl) in
    let r =
      add-Implements d' (fresh ∷ xs) key fresh fresh_node x [] buf k.sound k.at ready number in
    record {
      after = r.after;
      addresses = r.addresses;
      replies = rw run r.replies;
      sound = r.sound;
      means = λ c. r.means c ∙ put-put key _ _ (store_of d xs) (store_of d' (fresh ∷ xs)) k.means c;
    }

str2dbl-IsNumber :
    (strtod : List ℕ → ℕ × ℕ) (strtoll : List ℕ → ℤ × ℕ) (s : List ℕ) (v : ℕ)
    → str2dbl strtod strtoll s ≡ some v
    → isnan v ≡ false
str2dbl-IsNumber strtod strtoll s v h =
    by_case ((strtod (c_str s)).1 == length s) (isnan ((strtod (c_str s)).0)) refl h
  where
    by_case :
        (c n : Bool)
        → isnan ((strtod (c_str s)).0) ≡ n
        → (if c && not n then some ((strtod (c_str s)).0) else none) ≡ some v
        → isnan v ≡ false
    by_case true false e q = cc
    by_case true true e q = cc
    by_case false n e q = cc

-- the map and the reply of do_zadd, for the score that its text means
abbrev pub zadd_store : Store → List ℕ → List ℕ → Option ℕ → Store
zadd_store σ key member none = σ
zadd_store σ key member (some score) =
    add_store σ key (record { score = score; name = member }) (pairs_of (σ key))

abbrev pub zadd_reply : Option Value → List ℕ → Buffer → Option ℕ → Run Buffer
zadd_reply old member buf none = out_err buf err_bad_arg expect_float
zadd_reply old member buf (some score) =
    add_reply (record { score = score; name = member }) (pairs_of old) buf

-- what do_zadd does with the entry that the lookup has found
abbrev zadd_found : Database → Option ℕ → ℕ → ℕ → List ℕ → ZNode → Buffer → Run (Database × Buffer)
zadd_found d o fresh fresh_node key x buf = elim o [
  | none ↦ link_entry (entry_new d fresh t_zset key) fresh >>= λ linked.
      added linked fresh fresh_node x.name x.score buf
  | some a ↦
      if (d.entries a).kind == t_zset
      then added d a fresh_node x.name x.score buf
      else reply d (out_err buf err_bad_typ expect_zset_text)
]

pub text_not_zset : (k : ℕ) → k ≡ t_str → (k == t_zset) ≡ false
text_not_zset k e = rw e refl

pub zset_not_text : (k : ℕ) → k ≡ t_zset → (k == t_str) ≡ false
zset_not_text k e = rw e refl

zadd_found-Implements :
    (d : Database) (xs : List ℕ) (o : Option ℕ) (fresh fresh_node : ℕ) (key : List ℕ) (x : ZNode)
    (buf : Buffer)
    → IsDatabase d xs
    → Avoids fresh xs
    → length xs + 1 < 2 ^ 60
    → IsNumber x
    → o ≡ address_of d.entries key xs
    → ((a : ℕ) → o ≡ some a → HasRoom (d.entries a).zset fresh_node)
    → let old = pairs_of (value_at d.entries o) in
      Implements
        (add_store (store_of d xs) key x old)
        (add_reply x old buf)
        (zadd_found d o fresh fresh_node key x buf)
zadd_found-Implements d xs none fresh fresh_node key x buf v n b number at room =
    zadd_new d xs key fresh fresh_node x buf v n b (sym at) number
zadd_found-Implements d xs (some a) fresh fresh_node key x buf v n b number at room =
    by_kind (v.sound key a (sym at))
  where
    by_kind :
        IsSound (d.entries a)
        → let old = pairs_of (some (value_of (d.entries a))) in
          Implements
            (add_store (store_of d xs) key x old)
            (add_reply x old buf)
            (zadd_found d (some a) fresh fresh_node key x buf)
    by_kind (inl c) =
        rw (c, text_not_zset (d.entries a).kind ((==_iff (d.entries a).kind t_str).0 c))
          (record { after = d; addresses = xs; replies = refl; sound = v; means = λ k. refl })
    by_kind (inr (kind, zv)) =
        rw (zset_not_text (d.entries a).kind kind, (==_iff (d.entries a).kind t_zset).1 kind)
          (add-Implements d xs key a fresh_node x
            (entries (d.entries a).nodes (d.entries a).zset.root) buf v (sym at)
            (kind, zv, room a refl, refl) number)

-- On a sound database of fewer than 2 ^ 60 - 1 keys, with new addresses for an entry and for a node of
-- the set of the key, which has fewer than 2 ^ 32 - 1 pairs, do_zadd does this. When the score
-- is not a number or the value of the key is a string, it replies with an error and the database means the
-- map that it did. Else the database means the map
-- with the pair in its place under the key, where the member's former pair is taken out and a missing
-- set is an empty one, and the reply is 1 for a new member and 0 for a known one.
pub run_zadd-Implements :
    (strtod : List ℕ → ℕ × ℕ) (strtoll : List ℕ → ℤ × ℕ) (d : Database) (xs : List ℕ)
    (fresh fresh_node : ℕ) (name key score member : List ℕ) (rest : List (List ℕ)) (buf : Buffer)
    → IsDatabase d xs
    → Avoids fresh xs
    → length xs + 1 < 2 ^ 60
    → ((a : ℕ) → address_of d.entries key xs ≡ some a → HasRoom (d.entries a).zset fresh_node)
    → let parsed = str2dbl strtod strtoll score in
      Implements
        (zadd_store (store_of d xs) key member parsed)
        (zadd_reply (store_of d xs key) member buf parsed)
        (run_zadd strtod strtoll fresh fresh_node (name ∷ key ∷ score ∷ member ∷ rest) d buf)
unfolding run_zadd
run_zadd-Implements strtod strtoll d xs fresh fresh_node name key score member rest buf v n b room =
    by_score (str2dbl strtod strtoll score) refl
  where
    after_score : Option ℕ → Run (Database × Buffer)
    after_score none = reply d (out_err buf err_bad_arg expect_float)
    after_score (some x) = find_entry d key >>= λ found.
        zadd_found (found.0) (found.1) fresh fresh_node key (record { score = x; name = member })
          buf

    by_score :
        (o : Option ℕ)
        → str2dbl strtod strtoll score ≡ o
        → Implements
            (zadd_store (store_of d xs) key member o)
            (zadd_reply (store_of d xs key) member buf o)
            (after_score o)
    by_score none e = record {
      after = d;
      addresses = xs;
      replies = refl;
      sound = v;
      means = λ k. refl;
    }
    by_score (some s) e =
        let x : ZNode = record { score = s; name = member } in
        let ((d', o), run, (r, at)) = find_entry-Found d xs key v.keys (omega (arith, b)) in
        let at' : o ≡ address_of d'.entries key xs =
          at ∙ ap (λ y. address_of y.entries key xs) (sym r.rest) in
        let k =
          zadd_found-Implements d' xs o fresh fresh_node key x buf (Rehashed-IsDatabase d xs d' v r)
            n b (str2dbl-IsNumber strtod strtoll score s e) at'
            (λ a h.
              subst (λ f. HasRoom (f a).zset fresh_node) (sym (ap (λ y. y.entries) r.rest))
                (room a (sym at ∙ h))) in
        let same : value_at d'.entries o ≡ store_of d xs key =
          ap (λ y. value_at y.entries o) r.rest ∙ ap (value_at d.entries) at in
        rw run (
          subst
            (λ y.
              Implements (add_store (store_of d xs) key x (pairs_of y))
                (add_reply x (pairs_of y) buf) (zadd_found d' o fresh fresh_node key x buf))
            same
            (subst
              (λ σ.
                Implements (add_store σ key x (pairs_of (value_at d'.entries o)))
                  (add_reply x (pairs_of (value_at d'.entries o)) buf)
                  (zadd_found d' o fresh fresh_node key x buf))
              (Rehashed-store d xs d' r) k))
