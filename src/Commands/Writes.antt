-- ===== src/Commands/Writes.antt =====
-- A write to an entry, on the map from keys to values.
use byo_redis.Prelude.{
  ℕ, ◌+◌, ◌<◌, ◌^◌, ◌≡◌, ◌≢◌, refl, ap, sym, ◌∙◌, ◌⊎◌, inl, inr, true, false, Bool-cases, List, ◌∷◌,
  Option, none, some, length,
}
use native.Mathlib.Decide.{ℕ_discrete}
use byo_redis.Prelude.Run.{Run, ◌>>=◌, Returns}
use byo_redis.Buffer.{Buffer}
use byo_redis.Avl.Delete.{Avoids}
use byo_redis.Hashtable.Rehashing.{total}
use byo_redis.Zset.{in_znode, str_hash, same_bytes}
use byo_redis.Zset.Entries.{same_bytes_lem, same_bytes_refl}
use byo_redis.Database.{Entry, Database, write_entry, link_entry}
use byo_redis.Database.Addresses.{
  write_self, write_other, address_of-key, address_of-same, some_inj, address_of-none,
  address_of-listed, names_avoid, tally_avoid, address_of-avoid,
}
use mathlib.Core.Path.{fun_ext, subst}
use byo_redis.Zset.Names.{tally-congr}
use byo_redis.Database.Keys.{IsKeys, address_of, named_by, link_entry-Linked}
use byo_redis.Commands.{reply}
use byo_redis.Commands.Values.{
  value_of, value_at, store_of, put, Implements, IsSound, AllSound, IsDatabase, Rehashed-means,
}

pub same_key :
    (d : Database) (a : ℕ) (e : Entry)
    → e.key ≡ (d.entries a).key
    → (b : ℕ) → ((write_entry d a e).entries b).key ≡ (d.entries b).key
same_key d a e k b = elim (ℕ_discrete b a) [
  | yes q ↦ rw q (ap (λ x. x.key) (write_self d a e) ∙ k)
  | no n ↦ ap (λ x. x.key) (write_other d a e b n)
]

-- entries of the same keys are the same nodes of the table, by name
same_names : (f g : ℕ → Entry) → ((b : ℕ) → (f b).key ≡ (g b).key) → named_by f ≡ named_by g
same_names f g h = fun_ext (λ b. ap (λ key. record { score = 0; name = key }) (h b))

-- a write to the entry of a key, which keeps the key
pub write-IsKeys :
    (d : Database) (xs : List ℕ) (a : ℕ) (e : Entry)
    → IsKeys d xs
    → e.key ≡ (d.entries a).key
    → IsKeys (write_entry d a e) xs
write-IsKeys d xs a e v k =
    let same = same_key d a e k in
    record {
      is_map = v.is_map;
      unique = rw (same_names (write_entry d a e).entries d.entries same) v.unique;
      linked = λ q.
          v.linked q
          ∙ tally-congr xs (λ b.
            ap (λ key. q (record { hcode = str_hash key; payload = in_znode b })) (sym (same b)));
    }

pub write-means :
    (d : Database) (xs : List ℕ) (a : ℕ) (e : Entry) (key k : List ℕ)
    → address_of d.entries key xs ≡ some a
    → e.key ≡ (d.entries a).key
    → store_of (write_entry d a e) xs k ≡ put key (value_of e) (store_of d xs) k
write-means d xs a e key k at same =
    rw (address_of-same (write_entry d a e).entries d.entries k xs (same_key d a e same))
      (by_case (Bool-cases (same_bytes key k)))
  where
    other :
        (o : Option ℕ)
        → address_of d.entries k xs ≡ o
        → same_bytes key k ≡ false
        → value_at (write_entry d a e).entries o ≡ value_at d.entries o
    other none h f = refl
    other (some b) h f =
        ap (λ x. some (value_of x))
          (write_other d a e b (λ q. cc (
            address_of-key d.entries key xs a at,
            address_of-key d.entries k xs b h,
            q,
            same_bytes_refl k,
            f,
          )))

    by_case :
        (same_bytes key k ≡ true) ⊎ (same_bytes key k ≡ false)
        → value_at (write_entry d a e).entries (address_of d.entries k xs)
          ≡ put key (value_of e) (store_of d xs) k
    by_case (inl f) =
        rw (f, sym (same_bytes_lem key k f), at) (ap (λ x. some (value_of x)) (write_self d a e))
    by_case (inr f) = rw f (other (address_of d.entries k xs) refl f)

pub write-IsDatabase :
    (d : Database) (xs : List ℕ) (a : ℕ) (e : Entry)
    → IsDatabase d xs
    → e.key ≡ (d.entries a).key
    → IsSound e
    → IsDatabase (write_entry d a e) xs
write-IsDatabase d xs a e v k s = record {
  keys = write-IsKeys d xs a e v.keys k;
  sound = λ key b h.
      by_case key b
        (address_of-same d.entries (write_entry d a e).entries key xs
            (λ c. sym (same_key d a e k c))
          ∙ h)
        (ℕ_discrete b a);
}
  where
    by_case :
        (key : List ℕ) (b : ℕ)
        → address_of d.entries key xs ≡ some b
        → Dec (b ≡ a)
        → IsSound ((write_entry d a e).entries b)
    by_case key b h (yes q) =
        subst IsSound (sym (write_self d a e) ∙ ap (write_entry d a e).entries (sym q)) s
    by_case key b h (no n) = subst IsSound (sym (write_other d a e b n)) (v.sound key b h)

-- what is linked: a sound database with the value under the key, and the entry at its address
pub record Linked (d w : Database) (xs : List ℕ) (a : ℕ) (key : List ℕ) (e : Entry) (d' : Database)
    : Type 0 where
  pub sound : IsDatabase d' (a ∷ xs)
  pub means : (k : List ℕ) → store_of d' (a ∷ xs) k ≡ put key (value_of e) (store_of d xs) k
  pub at : address_of d'.entries key (a ∷ xs) ≡ some a
  pub same : d'.entries ≡ w.entries

-- A database whose entries are those of `d` but for the one at `a`, which is new, and whose table has
-- that one besides.
pub new-Linked :
    (d w : Database) (xs : List ℕ) (a : ℕ) (key : List ℕ) (e : Entry)
    → IsDatabase d xs
    → Avoids a xs
    → length xs + 1 < 2 ^ 60
    → address_of d.entries key xs ≡ none
    → w.db ≡ d.db
    → ((b : ℕ) → b ≢ a → w.entries b ≡ d.entries b)
    → w.entries a ≡ e
    → e.key ≡ key
    → IsSound e
    → Returns (link_entry w a) (Linked d w xs a key e)
new-Linked d w xs a key e v n b absent db agree at named is_sound =
    let names = names_avoid w.entries d.entries a agree xs n in
    let keys : IsKeys w xs = record {
      is_map = rw db v.keys.is_map;
      unique = rw names v.keys.unique;
      linked = λ q.
          ap (total q) db ∙ v.keys.linked q ∙ sym (tally_avoid w.entries d.entries a agree q xs n);
    } in
    let its_key : (w.entries a).key ≡ key = ap (λ x. x.key) at ∙ named in
    let others = address_of-none d.entries key xs absent in
    let (d', run, r) = link_entry-Linked w xs a keys b (rw (its_key, names) others) in
    let sounds : AllSound w.entries (a ∷ xs) =
      λ k c h. found_sound k c (Bool-cases (same_bytes (w.entries a).key k)) h in
    let same : d'.entries ≡ w.entries = ap (λ x. x.entries) r.rest in
    (
      d',
      run,
      record {
        sound = record {
          keys = r.keys;
          sound = subst (λ f. AllSound f (a ∷ xs)) (sym same) sounds;
        };
        means = λ k. Rehashed-means w (a ∷ xs) d' r k ∙ means its_key k;
        at = ap (λ f. address_of f key (a ∷ xs)) same ∙ first its_key;
        same = same;
      },
    )
  where
    found_sound :
        (k : List ℕ) (c : ℕ)
        → (same_bytes (w.entries a).key k ≡ true) ⊎ (same_bytes (w.entries a).key k ≡ false)
        → address_of w.entries k (a ∷ xs) ≡ some c
        → IsSound (w.entries c)
    found_sound k c (inl f) h =
        let same : a ≡ c = some_inj (rw f at h) in
        subst IsSound (sym at ∙ ap w.entries same) is_sound
    found_sound k c (inr f) h =
        let there : address_of d.entries k xs ≡ some c =
          sym (address_of-avoid w.entries d.entries a agree k xs n) ∙ (rw f at h) in
        subst IsSound (sym (agree c (address_of-listed d.entries k xs c a there n)))
          (v.sound k c there)

    old :
        (o : Option ℕ) (k : List ℕ)
        → address_of d.entries k xs ≡ o
        → value_at w.entries o ≡ value_at d.entries o
    old none k h = refl
    old (some c) k h =
        ap (λ x. some (value_of x)) (agree c (address_of-listed d.entries k xs c a h n))

    means :
        (w.entries a).key ≡ key
        → (k : List ℕ) → store_of w (a ∷ xs) k ≡ put key (value_of e) (store_of d xs) k
    means its_key k = rw its_key (elim (Bool-cases (same_bytes key k)) [
      | inl f ↦ rw f (ap (λ x. some (value_of x)) at)
      | inr f ↦ rw f (
          ap (value_at w.entries) (address_of-avoid w.entries d.entries a agree k xs n)
          ∙ old _ k refl)
    ])

    first : (w.entries a).key ≡ key → address_of w.entries key (a ∷ xs) ≡ some a
    first its_key = rw (its_key, same_bytes_refl key) refl

pub new-Implements :
    (d w : Database) (xs : List ℕ) (a : ℕ) (key : List ℕ) (e : Entry) (out : Run Buffer)
    → Returns (link_entry w a) (Linked d w xs a key e)
    → Implements (put key (value_of e) (store_of d xs)) out (link_entry w a >>= λ d'. reply d' out)
new-Implements d w xs a key e out (d', run, k) = record {
  after = d';
  addresses = a ∷ xs;
  replies = rw run refl;
  sound = k.sound;
  means = k.means;
}
