-- ===== src/Commands/Strings.antt =====
-- do_get and do_set, on the map from keys to values.
use byo_redis.Prelude.{
  ℕ, ◌+◌, ◌<◌, ◌^◌, ◌≡◌, ◌≢◌, refl, ap, sym, ◌∙◌, inl, inr, Bool, true, false, Bool-cases, List, [],
  ◌∷◌, Option, none, some, length, ◌==◌, if◌then◌else◌, arith,
}
use byo_redis.Prelude.Run.{Run, ◌>>=◌}
use byo_redis.Buffer.{Buffer}
use byo_redis.Tlv.{err_bad_typ, out_nil, out_str, out_err}
use byo_redis.Avl.Delete.{Avoids}
use byo_redis.Database.{
  t_str, Entry, Database, write_entry, empty_zset, blank_memory, entry_new, link_entry,
}
use byo_redis.Database.Addresses.{write_self, write_other}
use std.Path.{subst}
use byo_redis.Database.Keys.{Rehashed, address_of, find_entry-Found}
use byo_redis.Commands.{reply, run_get, run_set, not_a_string, non_string}
use byo_redis.Commands.Writes.{write-IsDatabase, write-means, new-Linked, new-Implements}
use byo_redis.Commands.Values.{
  Value, text, sorted, value_of, Store, value_at, store_of, put, Implements, IsDatabase,
  Rehashed-IsDatabase, Rehashed-store, Rehashed-Implements,
}

-- the reply to a lookup of a string
abbrev pub get_reply : Option Value → Buffer → Run Buffer
get_reply none buf = out_nil buf
get_reply (some (text s)) buf = out_str buf s
get_reply (some (sorted es)) buf = out_err buf err_bad_typ not_a_string

get_kind :
    (e : Entry) (buf : Buffer)
    → (if e.kind == t_str then out_str buf e.str else out_err buf err_bad_typ not_a_string)
      ≡ get_reply (some (value_of e)) buf
get_kind e buf = elim (Bool-cases (e.kind == t_str)) [ inl c ↦ rw c refl | inr c ↦ rw c refl ]

-- On a database of fewer than 2 ^ 60 keys do_get replies with the string of the key, with nil for a missing key, and with an error for a
-- sorted set, and the database means what it did.
pub run_get-Implements :
    (d : Database) (xs : List ℕ) (name key : List ℕ) (rest : List (List ℕ)) (buf : Buffer)
    → IsDatabase d xs
    → length xs < 2 ^ 60
    → Implements
        (store_of d xs)
        (get_reply (store_of d xs key) buf)
        (run_get (name ∷ key ∷ rest) d buf)
unfolding run_get
run_get-Implements d xs name key rest buf v b =
    let ((d', o), run, (r, e)) = find_entry-Found d xs key v.keys b in
    rw run (rw (ap (λ x. value_at x.entries o) r.rest ∙ ap (value_at d.entries) e) at (got d' o r))
  where
    got :
        (d' : Database) (o : Option ℕ)
        → Rehashed d xs d'
        → Implements
            (store_of d xs)
            (get_reply (value_at d'.entries o) buf)
            (elim o as (λ x. Run (Database × Buffer)) [
              | none ↦ reply d' (out_nil buf)
              | some a ↦
                  let ent = d'.entries a in
                  reply d' (
                    if ent.kind == t_str
                    then out_str buf ent.str
                    else out_err buf err_bad_typ not_a_string)
            ])
    got d' none r = Rehashed-Implements d xs d' (out_nil buf) v r
    got d' (some a) r = rw (get_kind (d'.entries a) buf) (Rehashed-Implements d xs d' _ v r)

-- what do_set does to the value of a key: a sorted set refuses it
abbrev pub accepts_text : Option Value → Bool
accepts_text none = true
accepts_text (some (text s)) = true
accepts_text (some (sorted es)) = false

abbrev pub set_store : Store → List ℕ → List ℕ → Store
set_store σ key val = if accepts_text (σ key) then put key (text val) σ else σ

abbrev pub set_reply : Option Value → Buffer → Run Buffer
set_reply v buf = if accepts_text v then out_nil buf else out_err buf err_bad_typ non_string

accepts_kind : (e : Entry) → accepts_text (some (value_of e)) ≡ (e.kind == t_str)
accepts_kind e = elim (Bool-cases (e.kind == t_str)) [ inl c ↦ rw c refl | inr c ↦ rw c refl ]

text_value :
    (e : Entry) (val : List ℕ)
    → (e.kind == t_str) ≡ true
    → value_of (record e { str = val }) ≡ text val
text_value e val c = rw c refl

-- the branch for an entry that is there
set_present :
    (d : Database) (xs : List ℕ) (key val : List ℕ) (a : ℕ) (buf : Buffer)
    → IsDatabase d xs
    → address_of d.entries key xs ≡ some a
    → Implements (set_store (store_of d xs) key val) (set_reply (store_of d xs key) buf) (
        if (d.entries a).kind == t_str
        then reply (write_entry d a (record (d.entries a) { str = val })) (out_nil buf)
        else reply d (out_err buf err_bad_typ non_string))
set_present d xs key val a buf v at =
    let e : Entry = record (d.entries a) { str = val } in
    rw (at, accepts_kind (d.entries a))
      (elim (Bool-cases ((d.entries a).kind == t_str)) [
        | inl c ↦ rw c (record {
          after = write_entry d a e;
          addresses = xs;
          replies = refl;
          sound = write-IsDatabase d xs a e v refl (inl c);
          means = λ k.
              write-means d xs a e key k at refl
              ∙ ap (λ w. put key w (store_of d xs) k) (text_value (d.entries a) val c);
        })
        | inr c ↦
            rw c
              (record { after = d; addresses = xs; replies = refl; sound = v; means = λ k. refl })
      ])

abbrev new_text : List ℕ → List ℕ → Entry
new_text key val = record {
  key = key;
  kind = t_str;
  str = val;
  nodes = blank_memory;
  zset = empty_zset;
}

-- On a database of fewer than 2 ^ 60 - 1 keys, with a new address for an entry, do_set replies with nil and the database means the map
-- with the string under the key, and all else as before. For the key of a sorted set it replies with
-- an error, and the database means what it did.
pub run_set-Implements :
    (d : Database) (xs : List ℕ) (fresh : ℕ) (name key val : List ℕ) (rest : List (List ℕ))
    (buf : Buffer)
    → IsDatabase d xs
    → Avoids fresh xs
    → length xs + 1 < 2 ^ 60
    → Implements
        (set_store (store_of d xs) key val)
        (set_reply (store_of d xs key) buf)
        (run_set fresh (name ∷ key ∷ val ∷ rest) d buf)
unfolding run_set
run_set-Implements d xs fresh name key val rest buf v n b =
    let ((d', o), run, (r, e)) = find_entry-Found d xs key v.keys (omega (arith, b)) in
    rw run (
      subst (λ σ. Implements (set_store σ key val) (set_reply (σ key) buf) (rest_of d' o))
        (Rehashed-store d xs d' r)
        (branch d' o (Rehashed-IsDatabase d xs d' v r)
          (e ∙ ap (λ x. address_of x.entries key xs) (sym r.rest))))
  where
    made : Database → Database
    made d' =
        let new = entry_new d' fresh t_str key in
        write_entry new fresh (record (new.entries fresh) { str = val })

    its_entry : (d' : Database) → (made d').entries fresh ≡ new_text key val
    its_entry d' =
        let new = entry_new d' fresh t_str key in
        write_self new fresh (record (new.entries fresh) { str = val })
        ∙ ap {A = Entry} {B = Entry} (λ x. record x { str = val })
            (write_self d' fresh (new_text key []))

    agree : (d' : Database) (b : ℕ) → b ≢ fresh → (made d').entries b ≡ d'.entries b
    agree d' b m =
        let new = entry_new d' fresh t_str key in
        write_other new fresh (record (new.entries fresh) { str = val }) b m
        ∙ write_other d' fresh _ b m

    rest_of : Database → Option ℕ → Run (Database × Buffer)
    rest_of d' (some a) =
        if (d'.entries a).kind == t_str
        then reply (write_entry d' a (record (d'.entries a) { str = val })) (out_nil buf)
        else reply d' (out_err buf err_bad_typ non_string)
    rest_of d' none = link_entry (made d') fresh >>= λ linked. reply linked (out_nil buf)

    branch :
        (d' : Database) (o : Option ℕ)
        → IsDatabase d' xs
        → o ≡ address_of d'.entries key xs
        → Implements
            (set_store (store_of d' xs) key val)
            (set_reply (store_of d' xs key) buf)
            (rest_of d' o)
    branch d' none w at = rw (sym at) (
        new-Implements d' (made d') xs fresh key (new_text key val) (out_nil buf) (
          new-Linked d' (made d') xs fresh key (new_text key val) w n b (sym at) refl (agree d')
            (its_entry d') refl (inl refl)))
    branch d' (some a) w at = set_present d' xs key val a buf w (sym at)
