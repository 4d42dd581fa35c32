-- ===== src/Database/Addresses.antt =====
-- The address that a key has, where entries are written.
use byo_redis.Prelude.{
  ℕ, ◌≡◌, ◌≢◌, refl, ap, sym, ◌∙◌, ◌⊎◌, inl, inr, true, false, Bool-cases, List, [], ◌∷◌, none,
  some, All, map, ◌==◌, ==_iff, arith, if◌then◌else◌, Bool,
}
use byo_redis.Avl.Delete.{Avoids}
use byo_redis.Hashtable.{HNode}
use byo_redis.Hashtable.Bag.{tally}
use byo_redis.Zset.{Container, same_bytes}
use byo_redis.Zset.Entries.{same_bytes_lem, same_bytes_refl}
use byo_redis.Database.{Entry, Database, write_entry, entry_node}
use byo_redis.Database.Keys.{address_of, named_by}

module _ (d : Database) (a : ℕ) (e : Entry) where
  pub write_self : (write_entry d a e).entries a ≡ e
  write_self = ap (λ c. if c then e else d.entries a) ((==_iff a a).1 refl)

  pub write_other : (b : ℕ) → b ≢ a → (write_entry d a e).entries b ≡ d.entries b
  write_other b n = rw (differs (b == a) (==_iff b a).0) refl
    where
      differs : (c : Bool) → (c ≡ true → b ≡ a) → c ≡ false
      differs true q = absurd (n (q refl))
      differs false q = refl

pub some_inj : {x a : ℕ} → some x ≡ some a → x ≡ a
some_inj q = cc

-- the address of a key has that key
pub address_of-key :
    (entries : ℕ → Entry) (key : List ℕ) (xs : List ℕ) (a : ℕ)
    → address_of entries key xs ≡ some a
    → (entries a).key ≡ key
address_of-key entries key [] a h = cc
address_of-key entries key (x ∷ xs) a h =
    by_case (Bool-cases (same_bytes (entries x).key key)) (address_of-key entries key xs a)
  where
    by_case :
        (same_bytes (entries x).key key ≡ true) ⊎ (same_bytes (entries x).key key ≡ false)
        → (address_of entries key xs ≡ some a → (entries a).key ≡ key)
        → (entries a).key ≡ key
    by_case (inl e) k =
        let same : x ≡ a = some_inj (rw e at h) in
        ap (λ y. (entries y).key) (sym same) ∙ same_bytes_lem (entries x).key key e
    by_case (inr e) k = k (rw e at h)

-- entries that agree in their keys have the same addresses
pub address_of-same :
    (f g : ℕ → Entry) (key : List ℕ) (xs : List ℕ)
    → ((b : ℕ) → (f b).key ≡ (g b).key)
    → address_of f key xs ≡ address_of g key xs
address_of-same f g key [] h = refl
address_of-same f g key (x ∷ xs) h = rw (h x, address_of-same f g key xs h) refl

-- no entry has a key without an address
pub address_of-none :
    (entries : ℕ → Entry) (key : List ℕ) (xs : List ℕ)
    → address_of entries key xs ≡ none
    → All (λ f. f.name ≢ key) (map (named_by entries) xs)
address_of-none entries key [] h = tt
address_of-none entries key (x ∷ xs) h =
    by_case (Bool-cases (same_bytes (entries x).key key)) (λ k. address_of-none entries key xs k)
  where
    by_case :
        (same_bytes (entries x).key key ≡ true) ⊎ (same_bytes (entries x).key key ≡ false)
        → (address_of entries key xs ≡ none → All (λ f. f.name ≢ key) (map (named_by entries) xs))
        → All (λ f. f.name ≢ key) (map (named_by entries) (x ∷ xs))
    by_case (inl e) k = cc (rw e at h)
    by_case (inr e) k =
        ((λ q. cc (same_bytes_refl key, ap (λ n. same_bytes n key) q, e)), k (rw e at h))

-- entries that agree away from an address, for others than that
module _ (f g : ℕ → Entry) (a : ℕ) (agree : (b : ℕ) → b ≢ a → f b ≡ g b) where
  pub names_avoid : (xs : List ℕ) → Avoids a xs → map (named_by f) xs ≡ map (named_by g) xs
  names_avoid [] h = refl
  names_avoid (x ∷ xs) h = cc (ap (λ e. named_by (λ b. e) x) (agree x h.0), names_avoid xs h.1)

  pub tally_avoid :
      (q : HNode Container → Bool) (xs : List ℕ)
      → Avoids a xs
      → tally (λ b. q (entry_node f b)) xs ≡ tally (λ b. q (entry_node g b)) xs
  tally_avoid q [] h = refl
  tally_avoid q (x ∷ xs) h = omega (
    arith,
    tally_avoid q xs h.1,
    ap {B = ℕ} (λ e. if q (entry_node (λ b. e) x) then 1 else 0) (agree x h.0),
  )

  pub address_of-avoid :
      (key : List ℕ) (xs : List ℕ) → Avoids a xs → address_of f key xs ≡ address_of g key xs
  address_of-avoid key [] h = refl
  address_of-avoid key (x ∷ xs) h = rw (agree x h.0, address_of-avoid key xs h.1) refl

-- an address of the list
pub address_of-listed :
    (entries : ℕ → Entry) (key : List ℕ) (xs : List ℕ) (a b : ℕ)
    → address_of entries key xs ≡ some a
    → Avoids b xs
    → a ≢ b
address_of-listed entries key [] a b h n q = cc
address_of-listed entries key (x ∷ xs) a b h n q =
    by_case (Bool-cases (same_bytes (entries x).key key))
      (λ k. address_of-listed entries key xs a b k n.1 q)
  where
    by_case :
        (same_bytes (entries x).key key ≡ true) ⊎ (same_bytes (entries x).key key ≡ false)
        → (address_of entries key xs ≡ some a → ⊥)
        → ⊥
    by_case (inl e) k = n.0 (some_inj (rw e at h) ∙ q)
    by_case (inr e) k = k (rw e at h)
