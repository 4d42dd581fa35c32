-- ===== src/Zset/Names.antt =====
-- The hash table of a set holds the nodes of its tree, by their names.
use byo_redis.Prelude.{
  ℕ, ◌≤◌, ◌<◌, ◌^◌, ◌≡◌, ◌≢◌, refl, ap, sym, ◌∙◌, inl, inr, Bool, true, false, ◌&&◌, List, [], ◌∷◌,
  Option, none, some, All, map, length, ◌==◌, ==_iff, Bool-cases, if◌then◌else◌, arith,
}
use byo_redis.Prelude.Run.{Run, ok, fault, null_pointer, ◌>>=◌, Returns}
use byo_redis.Avl.{Tree, nil, node}
use byo_redis.Avl.Shape.{inorder, count, length-inorder, IsAvl}
use byo_redis.Hashtable.{HNode, HMap, matches}
use byo_redis.Hashtable.Bag.{one, tally, length-tally}
use byo_redis.Hashtable.Rehashing.{IsMap, total, all}
use byo_redis.Hashtable.Methods.{Found, no_node, a_node, hm_lookup-Found}
use byo_redis.Zset.{
  ZMemory, Container, in_znode, in_hkey, ZSet, same_bytes, str_hash, hcmp, hkey, hnode,
  container_of, zset_lookup, name_in,
}
use byo_redis.Zset.Order.{IsNumber}
use byo_redis.Zset.Entries.{IsSorted, IsUnique, same_bytes_lem, same_bytes_refl}
use byo_redis.Zset.Insertion.{entries}

-- The tree is in order by (score, name), scores are numbers, names are distinct, and the hash table
-- holds exactly the nodes of the tree.
pub record IsZset (m : ZMemory) (z : ZSet) : Type 0 where
  pub avl : IsAvl z.root
  pub numbers : All IsNumber (entries m z.root)
  pub sorted : IsSorted (entries m z.root)
  pub unique : IsUnique (entries m z.root)
  pub is_map : IsMap z.hmap
  pub linked :
      (q : HNode Container → Bool) → total q z.hmap ≡ tally (λ a. q (hnode m a)) (inorder z.root)

pub total-count : (m : ZMemory) (z : ZSet) → IsZset m z → total all z.hmap ≡ count z.root
total-count m z v =
    omega (arith, v.linked all, length-tally (inorder z.root), length-inorder z.root)

-- a key matches the nodes of its name
pub matches-name :
    (m : ZMemory) (name : List ℕ) (a : ℕ)
    → matches (hcmp m) (hkey name) (hnode m a) ≡ same_bytes (m a).name name
unfolding hcmp
matches-name m name a = elim (Bool-cases (same_bytes (m a).name name)) [
  | inl e ↦
      let same = same_bytes_lem (m a).name name e in
      rw
        (
          e,
          (==_iff (str_hash (m a).name) (str_hash name)).1 (ap str_hash same),
          (==_iff (length (m a).name) (length name)).1 (ap (length {A = ℕ}) same),
        )
        refl
  | inr e ↦
      rw e (false_ends (str_hash (m a).name == str_hash name) (length (m a).name == length name))
]
  where
    false_ends : (c d : Bool) → (c && (d && false)) ≡ false
    false_ends c d = ground arith

same_container : Container → Container → Bool
same_container (in_znode a) (in_znode b) = a == b
same_container (in_hkey xs) (in_hkey ys) = same_bytes xs ys
same_container _ _ = false

same_container_refl : (c : Container) → same_container c c ≡ true
unfolding same_container
same_container_refl (in_znode a) = (==_iff a a).1 refl
same_container_refl (in_hkey xs) = same_bytes_refl xs

same_container_lem : (c d : Container) → same_container c d ≡ true → c ≡ d
unfolding same_container
same_container_lem (in_znode a) (in_znode b) h = ap in_znode ((==_iff a b).0 h)
same_container_lem (in_hkey xs) (in_hkey ys) h = ap in_hkey (same_bytes_lem xs ys h)
same_container_lem (in_znode a) (in_hkey ys) h = cc
same_container_lem (in_hkey xs) (in_znode b) h = cc

pub tally-zero : (f : ℕ → Bool) (xs : List ℕ) → tally f xs ≡ 0 → All (λ a. f a ≡ false) xs
tally-zero f [] h = tt
tally-zero f (x ∷ xs) h = (ground arith, tally-zero f xs (omega arith))

pub tally-congr : {f g : ℕ → Bool} (xs : List ℕ) → ((a : ℕ) → f a ≡ g a) → tally f xs ≡ tally g xs
tally-congr [] h = refl
tally-congr (x ∷ xs) h = rw (h x) (omega (arith, tally-congr xs h))

-- an element that passes a test
pub tally-some :
    (f : ℕ → Bool) (xs : List ℕ)
    → 0 < tally f xs
    → (a : ℕ) × (f a ≡ true) × (0 < tally (λ b. b == a) xs)
tally-some f [] h = absurd (omega arith)
tally-some f (x ∷ xs) h = elim (Bool-cases (f x)) [
  | inl e ↦ (x, e, omega (arith, ap {B = ℕ} (λ c. if c then 1 else 0) ((==_iff x x).1 refl)))
  | inr e ↦
      let rest = tally-some f xs (omega (arith, ap {B = ℕ} (λ c. if c then 1 else 0) e)) in
      (rest.0, rest.1, omega (arith, rest.2))
]

-- a node of the table is the one that is embedded in a node of the tree
pub is_hnode :
    (m : ZMemory) (xs : List ℕ) (n : HNode Container)
    → ((p : HNode Container → Bool) → one p n ≤ tally (λ a. p (hnode m a)) xs)
    → (a : ℕ) × (n.payload ≡ in_znode a) × (0 < tally (λ b. b == a) xs)
is_hnode m xs n h =
    let some_of =
      tally-some (λ a. same_container (in_znode a) n.payload) xs
        (omega (
          arith,
          h (λ x. same_container x.payload n.payload),
          ap {B = ℕ} (λ c. if c then 1 else 0) (same_container_refl n.payload),
        )) in
    (some_of.0, sym (same_container_lem (in_znode (some_of.0)) n.payload (some_of.1)), some_of.2)

-- what the table says of a name is what the tree says
pub by_name :
    (m : ZMemory) (name : List ℕ) (xs : List ℕ)
    → tally (λ a. matches (hcmp m) (hkey name) (hnode m a)) xs ≡ 0
    → All (λ f. f.name ≢ name) (map m xs)
by_name m name [] h = tt
by_name m name (x ∷ xs) h = (
  (λ e. absurd (
      omega (
        arith,
        h,
        ap {B = ℕ} (λ c. if c then 1 else 0)
            (matches-name m name x ∙ ap (λ y. same_bytes y name) e ∙ same_bytes_refl name),
      ))),
  by_name m name xs (omega (arith, h)),
)

-- what a lookup of a name finds: no pair of the set has it, or the node is one that has
pub data Sought (m : ZMemory) (root : Tree) (name : List ℕ) : Option ℕ → Type 0 where
  none_named : All (λ f. f.name ≢ name) (entries m root) → Sought m root name none
  named :
      (a : ℕ)
      → (m a).name ≡ name
      → 0 < tally (λ b. b == a) (inorder root)
      → Sought m root name (some a)

abbrev pub Looked : ZMemory → ZSet → List ℕ → ZSet × Option ℕ → Type 0
Looked m z name r = IsZset m (r.0) × (r.0.root ≡ z.root) × Sought m z.root name (r.1)

with_map :
    (m : ZMemory) (z : ZSet) (h : HMap Container)
    → IsZset m z
    → IsMap h
    → ((q : HNode Container → Bool) → total q h ≡ total q z.hmap)
    → IsZset m (record z { hmap = h })
with_map m z h v w bag = record {
  avl = v.avl;
  numbers = v.numbers;
  sorted = v.sorted;
  unique = v.unique;
  is_map = w;
  linked = λ q. bag q ∙ v.linked q;
}

-- a node that a key matches has the key's name
pub matches-same :
    (m : ZMemory) (name : List ℕ) (n : HNode Container)
    → matches (hcmp m) (hkey name) n ≡ true
    → same_bytes (name_in m n.payload) name ≡ true
unfolding hcmp
matches-same m name n =
    last (n.hcode == str_hash name) (length (name_in m n.payload) == length name)
      (same_bytes (name_in m n.payload) name)
  where
    last : (b c d : Bool) → (b && (c && d)) ≡ true → d ≡ true
    last b c d = ground arith

pub its_name :
    (m : ZMemory) (name : List ℕ) (n : HNode Container) (a : ℕ)
    → n.payload ≡ in_znode a
    → matches (hcmp m) (hkey name) n ≡ true
    → (m a).name ≡ name
its_name m name n a p e =
    same_bytes_lem (m a).name name
      (ap (λ c. same_bytes (name_in m c) name) (sym p) ∙ matches-same m name n e)

pub container_some :
    (n : HNode Container) (a : ℕ) → n.payload ≡ in_znode a → container_of (some n) ≡ ok (some a)
unfolding container_of
container_some n a p =
    ap
      (λ c. elim c as (λ x. Run (Option ℕ)) [
        | in_znode b ↦ ok (some b)
        | in_hkey name ↦ fault null_pointer
      ])
      p

from_table :
    (m : ZMemory) (z : ZSet) (name : List ℕ) (h : HMap Container) (o : Option (HNode Container))
    → IsZset m z
    → IsMap h
    → ((q : HNode Container → Bool) → total q h ≡ total q z.hmap)
    → Found (matches (hcmp m) (hkey name)) z.hmap o
    → Returns (container_of o >>= λ a. ok (record z { hmap = h }, a)) (Looked m z name)
unfolding container_of
from_table m z name h none v w bag (no_node e) = (
  (record z { hmap = h }, none),
  refl,
  (
    with_map m z h v w bag,
    refl,
    none_named (
        by_name m name (inorder z.root)
          (omega (arith, e, v.linked (matches (hcmp m) (hkey name))))),
  ),
)
from_table m z name h (some n) v w bag (a_node _ e le) =
    let there = is_hnode m (inorder z.root) n (λ p. omega (arith, le p, v.linked p)) in
    (
      (record z { hmap = h }, some (there.0)),
      rw (container_some n (there.0) (there.1)) refl,
      (
        with_map m z h v w bag,
        refl,
        named (there.0) (its_name m name n (there.0) (there.1) e) (there.2),
      ),
    )

-- In a sound set of fewer than 2 ^ 64 pairs a lookup of a name succeeds, keeps the set sound and its tree
-- as it is, and finds the node of that name, or NULL when no pair has it.
pub zset_lookup-Looked :
    (m : ZMemory) (z : ZSet) (name : List ℕ)
    → IsZset m z
    → count z.root < 2 ^ 64
    → Returns (zset_lookup m z name) (Looked m z name)
unfolding zset_lookup
zset_lookup-Looked m z name v b =
    let (r, run, (w, bag, f)) =
      hm_lookup-Found z.hmap (hkey name) (hcmp m) v.is_map (omega (arith, total-count m z v, b)) in
    by_root z.root refl (rw run (from_table m z name (r.0) (r.1) v w bag f))
  where
    by_root :
        (t : Tree)
        → z.root ≡ t
        → {found : Run (ZSet × Option ℕ)} → Returns found (Looked m z name)
        → Returns
            (elim t as (λ x. Run (ZSet × Option ℕ)) [ nil ↦ ok (z, none) | node l a h s r ↦ found ])
            (Looked m z name)
    by_root nil e k = ((z, none), refl, (v, refl, none_named (rw e (unfold inorder in tt))))
    by_root (node l a h s r) e k = k
