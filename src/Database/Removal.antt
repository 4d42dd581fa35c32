-- ===== src/Database/Removal.antt =====
-- The addresses without one of them, and the deletion of a key from the top-level table.
use byo_redis.Prelude.{
  ℕ, ◌+◌, ◌≤◌, ◌<◌, ◌^◌, ◌≡◌, ◌≢◌, refl, ap, sym, ◌∙◌, inl, inr, Bool, true, false, Bool-cases,
  List, [], ◌∷◌, Option, none, some, All, map, length, ◌==◌, ==_iff, if◌then◌else◌, arith,
}
use byo_redis.Prelude.Run.{ok, ◌>>=◌, Returns}
use byo_redis.Avl.Delete.{Avoids}
use byo_redis.Hashtable.{HNode, HMap, matches}
use byo_redis.Hashtable.Bag.{one, tally}
use byo_redis.Hashtable.Rehashing.{IsMap, total}
use byo_redis.Hashtable.Removal.{Deleted, no_node, a_node, hm_delete-Deleted}
use byo_redis.Zset.{ZNode, ZMemory, Container, in_znode, same_bytes, hcmp, hkey, container_of}
use byo_redis.Zset.Entries.{IsUnique, All-map_weaken, same_bytes_lem}
use byo_redis.Zset.Names.{by_name, is_hnode, its_name, container_some}
use byo_redis.Zset.Nodes.{named_apart, All-there}
use byo_redis.Zset.Delete.{matches-hcode}
use byo_redis.Database.{Entry, Database, entry_node, unlink_entry}
use byo_redis.Database.Addresses.{some_inj}
use byo_redis.Database.Keys.{
  IsKeys, named_by, entry_eq-hcmp, address_of, address_of-there, address_of-absent, total-length,
}

-- the list without an address
abbrev pub others : ℕ → List ℕ → List ℕ
others a [] = []
others a (x ∷ xs) = if x == a then others a xs else x ∷ others a xs

differs : (x a : ℕ) → x ≢ a → (x == a) ≡ false
differs x a n = elim (Bool-cases (x == a)) [ inl e ↦ absurd (n ((==_iff x a).0 e)) | inr e ↦ e ]

others-eq : (a : ℕ) (xs : List ℕ) → Avoids a xs → others a xs ≡ xs
others-eq a [] h = refl
others-eq a (x ∷ xs) h = rw (differs x a h.0) (ap (◌∷◌ x) (others-eq a xs h.1))

pub others-Avoids : (a : ℕ) (xs : List ℕ) → Avoids a (others a xs)
others-Avoids a [] = tt
others-Avoids a (x ∷ xs) = elim (Bool-cases (x == a)) [
  | inl e ↦ rw e (others-Avoids a xs)
  | inr e ↦ rw e ((λ q. cc ((==_iff x a).1 q, e)), others-Avoids a xs)
]

All-others {κ} :
    (P : ZNode → Type κ) (m : ZMemory) (a : ℕ) (xs : List ℕ)
    → All P (map m xs)
    → All P (map m (others a xs))
All-others P m a [] h = tt
All-others P m a (x ∷ xs) h = elim (Bool-cases (x == a)) [
  | inl e ↦ rw e (All-others P m a xs h.1)
  | inr e ↦ rw e (h.0, All-others P m a xs h.1)
]

module _ (m : ZMemory) (a : ℕ) where
  pub others-IsUnique : (xs : List ℕ) → IsUnique (map m xs) → IsUnique (map m (others a xs))
  others-IsUnique [] u = tt
  others-IsUnique (x ∷ xs) u = elim (Bool-cases (x == a)) [
    | inl e ↦ rw e (others-IsUnique xs u.1)
    | inr e ↦ rw e (All-others (λ f. (m x).name ≢ f.name) m a xs u.0, others-IsUnique xs u.1)
  ]

  rest_eq : (x : ℕ) (xs : List ℕ) → IsUnique (map m (x ∷ xs)) → x ≡ a → others a xs ≡ xs
  rest_eq x xs u e = others-eq a xs (
      named_apart m a xs
        (All-map_weaken (map m xs) (λ f n q. n (ap (λ b. (m b).name) e ∙ sym q)) u.0))

  pub tally-others :
      (q : ℕ → Bool) (xs : List ℕ)
      → IsUnique (map m xs)
      → 0 < tally (λ b. b == a) xs
      → tally q xs ≡ one q a + tally q (others a xs)
  tally-others q [] u at = absurd (omega (arith, at))
  tally-others q (x ∷ xs) u at = elim (Bool-cases (x == a)) [
    | inl e ↦
        rw (e, rest_eq x xs u ((==_iff x a).0 e))
          (ap (λ b. one q b + tally q xs) ((==_iff x a).0 e))
    | inr e ↦ rw e (
        omega (
          arith,
          tally-others q xs u.1 (omega (arith, at, ap {B = ℕ} (λ c. if c then 1 else 0) e)),
        ))
  ]

  -- no other address has the name
  pub others-names :
      (xs : List ℕ)
      → IsUnique (map m xs)
      → 0 < tally (λ b. b == a) xs
      → All (λ f. f.name ≢ (m a).name) (map m (others a xs))
  others-names [] u at = absurd (omega (arith, at))
  others-names (x ∷ xs) u at = elim (Bool-cases (x == a)) [
    | inl e ↦
        rw (e, rest_eq x xs u ((==_iff x a).0 e))
          (All-map_weaken (map m xs) (λ f n q. n (ap (λ b. (m b).name) ((==_iff x a).0 e) ∙ sym q))
            u.0)
    | inr e ↦
        let later : 0 < tally (λ b. b == a) xs =
          omega (arith, at, ap {B = ℕ} (λ c. if c then 1 else 0) e) in
        rw e (All-there (λ f. (m x).name ≢ f.name) m a xs u.0 later, others-names xs u.1 later)
  ]

-- the address of another key
pub others-address_of :
    (f : ℕ → Entry) (a : ℕ) (k : List ℕ) (xs : List ℕ)
    → (f a).key ≢ k
    → address_of f k (others a xs) ≡ address_of f k xs
others-address_of f a k [] n = refl
others-address_of f a k (x ∷ xs) n = elim (Bool-cases (x == a)) [
  | inl e ↦ rw (e, misses e) (others-address_of f a k xs n)
  | inr e ↦ rw (e, others-address_of f a k xs n) refl
]
  where
    misses : (x == a) ≡ true → same_bytes (f x).key k ≡ false
    misses e = elim (Bool-cases (same_bytes (f x).key k)) [
      | inl c ↦
          absurd (n (ap (λ b. (f b).key) (sym ((==_iff x a).0 e)) ∙ same_bytes_lem (f x).key k c))
      | inr c ↦ c
    ]

-- the database without the entry of a key, if there was one: the table has the other entries
pub record Unlinked (d : Database) (xs key : List ℕ) (r : Database × Option ℕ) : Type 0 where
  pub rest : r.0 ≡ record d { db = r.0.db }
  pub is_map : IsMap r.0.db
  pub entry : r.1 ≡ address_of d.entries key xs
  pub kept : r.1 ≡ none → (q : HNode Container → Bool) → total q r.0.db ≡ total q d.db
  pub lost :
      (a : ℕ)
      → r.1 ≡ some a
      → ((d.entries a).key ≡ key)
        × (0 < tally (λ b. b == a) xs)
        × ((q : HNode Container → Bool)
            → total q d.db ≡ one q (entry_node d.entries a) + total q r.0.db)

-- a node of the table that a key matches is that of an entry
its_entry :
    (d : Database) (xs key : List ℕ) (n : HNode Container)
    → IsKeys d xs
    → matches (hcmp (named_by d.entries)) (hkey key) n ≡ true
    → ((p : HNode Container → Bool) → one p n ≤ total p d.db)
    → (a : ℕ) × (n.payload ≡ in_znode a)
      × (n ≡ entry_node d.entries a)
      × (0 < tally (λ b. b == a) xs)
      × ((d.entries a).key ≡ key)
its_entry d xs key n v e le =
    let m = named_by d.entries in
    let there = is_hnode m xs n (λ p. omega (arith, le p, v.linked p)) in
    let name = its_name m key n (there.0) (there.1) e in
    (there.0, there.1, cc (matches-hcode m key n e, there.1, name), there.2, name)

unlinked :
    (d : Database) (xs key : List ℕ) (h : HMap Container) (o : Option (HNode Container))
    → IsKeys d xs
    → IsMap h
    → Deleted (matches (hcmp (named_by d.entries)) (hkey key)) d.db h o
    → Returns (container_of o >>= λ a. ok (record d { db = h }, a)) (Unlinked d xs key)
unfolding container_of
unlinked d xs key h none v w (no_node e keep) = (
  (record d { db = h }, none),
  refl,
  record {
    rest = refl;
    is_map = w;
    entry = sym (
        address_of-absent d.entries key xs (
          by_name (named_by d.entries) key xs
            (omega (arith, e, v.linked (matches (hcmp (named_by d.entries)) (hkey key))))));
    kept = λ s. keep;
    lost = λ a s. cc;
  },
)
unlinked d xs key h (some n) v w (a_node _ e bag) =
    let (a, payload, same, at, name) = its_entry d xs key n v e (λ p. omega (arith, bag p)) in
    (
      (record d { db = h }, some a),
      rw (container_some n a payload) refl,
      record {
        rest = refl;
        is_map = w;
        entry =
            sym (address_of-there d.entries a xs v.unique at)
            ∙ ap (λ k. address_of d.entries k xs) name;
        kept = λ s. cc;
        lost = λ b s.
            let q : a ≡ b = some_inj s in
            rw (sym q) (name, at, λ p. bag p ∙ ap (λ x. one p x + total p h) same);
      },
    )

pub unlink_entry-Unlinked :
    (d : Database) (xs key : List ℕ)
    → IsKeys d xs
    → length xs < 2 ^ 60
    → Returns (unlink_entry d key) (Unlinked d xs key)
unfolding unlink_entry
unlink_entry-Unlinked d xs key v b =
    let m = named_by d.entries in
    let (r, run, (w, k)) =
      hm_delete-Deleted d.db (hkey key) (hcmp m) v.is_map (omega (arith, total-length d xs v, b)) in
    rw (entry_eq-hcmp d.entries, run) (unlinked d xs key (r.0) (r.1) v w k)
