-- ===== src/Database/Keys.antt =====
-- The top-level table holds one entry for each key, and the lookup, the insertion and the deletion of a
-- key find it.
use byo_redis.Prelude.{
  ℕ, ◌+◌, ◌<◌, ◌^◌, ◌≡◌, ◌≢◌, refl, ap, sym, ◌∙◌, ◌⊎◌, inl, inr, Bool, true, false, Bool-cases,
  List, [], ◌∷◌, Option, none, some, All, map, length, ◌==◌, ==_iff, if◌then◌else◌, arith,
}
use mathlib.Core.Path.{fun_ext}
use byo_redis.Prelude.Run.{ok, ◌>>=◌, Returns}
use byo_redis.Hashtable.{HNode, HMap, matches}
use byo_redis.Hashtable.Bag.{tally, length-tally}
use byo_redis.Hashtable.Rehashing.{IsMap, total, all}
use byo_redis.Hashtable.Methods.{Found, no_node, a_node, hm_lookup-Found, hm_insert-Gains}
use byo_redis.Zset.{
  ZMemory, Container, in_znode, in_hkey, hcmp, hkey, same_bytes, name_in, container_of,
}
use byo_redis.Zset.Entries.{IsUnique, All-map_weaken, same_bytes_refl, same_bytes_lem}
use byo_redis.Zset.Names.{by_name, is_hnode, its_name, container_some}
use byo_redis.Zset.Nodes.{one_address}
use byo_redis.Database.{Entry, Database, key_in, entry_eq, entry_node, find_entry, link_entry}

-- the entries as the named nodes of a table
abbrev pub named_by : (ℕ → Entry) → ZMemory
named_by entries a = record { score = 0; name = (entries a).key }

key_in_lem : (entries : ℕ → Entry) (c : Container) → key_in entries c ≡ name_in (named_by entries) c
key_in_lem entries (in_znode a) = refl
key_in_lem entries (in_hkey key) = refl

-- the two callbacks compare alike
pub entry_eq-hcmp : (entries : ℕ → Entry) → entry_eq entries ≡ hcmp (named_by entries)
unfolding entry_eq hcmp
entry_eq-hcmp entries =
    fun_ext
      (λ lhs. fun_ext (λ rhs. cc (key_in_lem entries lhs.payload, key_in_lem entries rhs.payload)))

-- the table holds exactly the entries at the addresses, and their keys are distinct
pub record IsKeys (d : Database) (addresses : List ℕ) : Type 0 where
  pub is_map : IsMap d.db
  pub unique : IsUnique (map (named_by d.entries) addresses)
  pub linked :
      (q : HNode Container → Bool)
      → total q d.db ≡ tally (λ a. q (entry_node d.entries a)) addresses

-- the entry of a key, among those at the addresses
abbrev pub address_of : (ℕ → Entry) → List ℕ → List ℕ → Option ℕ
address_of entries key [] = none
address_of entries key (a ∷ rest) =
    if same_bytes (entries a).key key then some a else address_of entries key rest

pub address_of-there :
    (entries : ℕ → Entry) (a : ℕ) (xs : List ℕ)
    → IsUnique (map (named_by entries) xs)
    → 0 < tally (λ b. b == a) xs
    → address_of entries (entries a).key xs ≡ some a
address_of-there entries a [] u at = absurd (omega (arith, at))
address_of-there entries a (x ∷ xs) u at =
    elim (Bool-cases (same_bytes (entries x).key (entries a).key)) [
      | inl e ↦ rw e (
          ap some (
            one_address (named_by entries) x a (x ∷ xs) u
              (omega (arith, ap {B = ℕ} (λ c. if c then 1 else 0) ((==_iff x x).1 refl))) at
              (same_bytes_lem (entries x).key (entries a).key e)))
      | inr e ↦ rw e (address_of-there entries a xs u.1 (behind (Bool-cases (x == a)) e))
    ]
  where
    behind :
        ((x == a) ≡ true) ⊎ ((x == a) ≡ false)
        → same_bytes (entries x).key (entries a).key ≡ false
        → 0 < tally (λ b. b == a) xs
    behind (inl p) e = cc (same_bytes_refl (entries a).key, ap entries ((==_iff x a).0 p), e)
    behind (inr p) e = omega (arith, at, ap {B = ℕ} (λ c. if c then 1 else 0) p)

pub address_of-absent :
    (entries : ℕ → Entry) (key : List ℕ) (xs : List ℕ)
    → All (λ f. f.name ≢ key) (map (named_by entries) xs)
    → address_of entries key xs ≡ none
address_of-absent entries key [] h = refl
address_of-absent entries key (x ∷ xs) h = elim (Bool-cases (same_bytes (entries x).key key)) [
  | inl e ↦ absurd (h.0 (same_bytes_lem (entries x).key key e))
  | inr e ↦ rw e (address_of-absent entries key xs h.1)
]

-- a database that differs in the top-level table, which holds the same entries
pub record Rehashed (d : Database) (addresses : List ℕ) (d' : Database) : Type 0 where
  pub keys : IsKeys d' addresses
  pub rest : d' ≡ record d { db = d'.db }

pub total-length :
    (d : Database) (addresses : List ℕ) → IsKeys d addresses → total all d.db ≡ length addresses
total-length d addresses v = omega (arith, v.linked all, length-tally addresses)

Found-entry :
    (d : Database) (addresses key : List ℕ) (h : HMap Container) (o : Option (HNode Container))
    → IsKeys d addresses
    → IsMap h
    → ((q : HNode Container → Bool) → total q h ≡ total q d.db)
    → Found (matches (hcmp (named_by d.entries)) (hkey key)) d.db o
    → Returns (container_of o >>= λ a. ok (record d { db = h }, a)) (λ (r : Database × Option ℕ).
      Rehashed d addresses (r.0) × (r.1 ≡ address_of d.entries key addresses))
unfolding container_of
Found-entry d addresses key h none v w bag (no_node e) = (
  (record d { db = h }, none),
  refl,
  (
    record {
      keys = record { is_map = w; unique = v.unique; linked = λ q. bag q ∙ v.linked q };
      rest = refl;
    },
    sym (
        address_of-absent d.entries key addresses (
          by_name (named_by d.entries) key addresses
            (omega (arith, e, v.linked (matches (hcmp (named_by d.entries)) (hkey key)))))),
  ),
)
Found-entry d addresses key h (some n) v w bag (a_node _ e le) =
    let m = named_by d.entries in
    let there = is_hnode m addresses n (λ p. omega (arith, le p, v.linked p)) in
    let name = its_name m key n (there.0) (there.1) e in
    (
      (record d { db = h }, some (there.0)),
      rw (container_some n (there.0) (there.1)) refl,
      (
        record {
          keys = record { is_map = w; unique = v.unique; linked = λ q. bag q ∙ v.linked q };
          rest = refl;
        },
        sym (address_of-there d.entries (there.0) addresses v.unique (there.2))
            ∙ ap (λ k. address_of d.entries k addresses) name,
      ),
    )

-- find_entry of a key finds its entry
pub find_entry-Found :
    (d : Database) (addresses key : List ℕ)
    → IsKeys d addresses
    → length addresses < 2 ^ 60
    → Returns
        (find_entry d key)
        (λ r. Rehashed d addresses (r.0) × (r.1 ≡ address_of d.entries key addresses))
unfolding find_entry
find_entry-Found d addresses key v b =
    let m = named_by d.entries in
    let (r, run, (w, bag, f)) =
      hm_lookup-Found d.db (hkey key) (hcmp m) v.is_map
        (omega (arith, total-length d addresses v, b)) in
    rw (entry_eq-hcmp d.entries, run) (Found-entry d addresses key (r.0) (r.1) v w bag f)

-- a new entry under a new key
pub link_entry-Linked :
    (d : Database) (addresses : List ℕ) (a : ℕ)
    → IsKeys d addresses
    → length addresses + 1 < 2 ^ 60
    → All (λ f. f.name ≢ (d.entries a).key) (map (named_by d.entries) addresses)
    → Returns (link_entry d a) (Rehashed d (a ∷ addresses))
unfolding link_entry
link_entry-Linked d addresses a v b absent =
    let (h, run, (w, bag)) =
      hm_insert-Gains d.db (entry_node d.entries a) v.is_map
        (omega (arith, total-length d addresses v, b)) in
    (
      record d { db = h },
      rw run refl,
      record {
        keys = record {
          is_map = w;
          unique = (All-map_weaken _ (λ f n e. n (sym e)) absent, v.unique);
          linked = λ q. omega (arith, bag q, v.linked q);
        };
        rest = refl;
      },
    )
