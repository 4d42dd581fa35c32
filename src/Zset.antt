-- ===== src/Zset.antt =====
-- include/byoredis/ds/zset.hh and src/ds/zset.cc: the sorted set, an AVL tree by (score, name) and a
-- hash table by name over the same nodes.
-- A node is its address; the memory gives its score, which is the bit pattern of a double, and its
-- name, which is a list of bytes. A pointer to a node of the tree is resolved to the node and its
-- ancestors by `locate`. The address that malloc() returns is an argument of zset_insert.
pub mod Order
pub mod Entries
pub mod Insertion
pub mod Removal
pub mod Nodes
pub mod Names
pub mod Seek
pub mod Methods
pub mod Delete
use byo_redis.Prelude.{
  ℕ, zero, suc, ◌+◌, ◌*◌, ◌%◌, ◌^◌, min, Bool, true, false, ◌&&◌, List, [], ◌∷◌, Option, none, some,
  take, length, ltb, ◌==◌, if◌then◌else◌,
}
use byo_redis.Prelude.Run.{Run, ok, fault, null_pointer, assert_failed, ◌>>=◌, check}
use byo_redis.Prelude.Int.{ℤ, pos}
use byo_redis.Double.{less, unequal}
use byo_redis.Avl.{
  Tree, nil, node, in_left, in_right, Ancestors, avl_init, avl_fix, avl_del, offset_loop,
}
use byo_redis.Hashtable.{HNode, HMap, new_map, hm_lookup, hm_insert, hm_delete}

pub record ZNode : Type 0 where
  pub score : ℕ
  pub name : List ℕ

abbrev pub ZMemory : Type 0
ZMemory = ℕ → ZNode

-- what a node of the hash table is embedded in: a node of the set, or the key of a lookup
pub data Container : Type 0 where
  in_znode : (address : ℕ) → Container
  in_hkey : (name : List ℕ) → Container

pub record ZSet : Type 0 where
  pub root : Tree
  pub hmap : HMap Container

-- FNV, on a uint32_t
abbrev hash_step : ℕ → List ℕ → ℕ
hash_step h [] = h
hash_step h (byte ∷ rest) = hash_step ((h + byte) * 16777619 % 2 ^ 32) rest

unfoldable pub str_hash : List ℕ → ℕ
str_hash = hash_step 2166136261

abbrev pub same_bytes : List ℕ → List ℕ → Bool
same_bytes [] [] = true
same_bytes (x ∷ xs) (y ∷ ys) = (x == y) && same_bytes xs ys
same_bytes _ _ = false

abbrev pub name_in : ZMemory → Container → List ℕ
name_in m (in_znode a) = (m a).name
name_in m (in_hkey name) = name

unfoldable pub hcmp : ZMemory → HNode Container → HNode Container → Bool
hcmp m lhs rhs =
    let name = name_in m lhs.payload in
    let sought = name_in m rhs.payload in (length name == length sought) && same_bytes name sought

-- the node of the hash table that a lookup builds, and the one that is embedded in a node
abbrev pub hkey : List ℕ → HNode Container
hkey name = record { hcode = str_hash name; payload = in_hkey name }

abbrev pub hnode : ZMemory → ℕ → HNode Container
hnode m a = record { hcode = str_hash (m a).name; payload = in_znode a }

-- `container_of(found, ZNode, hmap)`
unfoldable pub container_of : Option (HNode Container) → Run (Option ℕ)
container_of none = ok none
container_of (some found) = elim (found.payload) [
  | in_znode a ↦ ok (some a)
  | in_hkey name ↦ fault null_pointer
]

unfoldable pub zset_lookup : ZMemory → ZSet → List ℕ → Run (ZSet × Option ℕ)
zset_lookup m z name =
    let found : Run (ZSet × Option ℕ) = do
      r ← hm_lookup z.hmap (hkey name) (hcmp m)
      a ← container_of (r.1)
      ok (record z { hmap = r.0 }, a)
    in elim z.root [ nil ↦ ok (z, none) | node l a h s r ↦ found ]

-- the sign of memcmp() on two blocks of one length
pub data Sign : Type 0 where
  negative null positive : Sign

abbrev pub memcmp : List ℕ → List ℕ → Sign
memcmp (x ∷ xs) (y ∷ ys) = if ltb x y then negative else if ltb y x then positive else memcmp xs ys
memcmp _ _ = null

unfoldable pub zless : ZNode → ZNode → Bool
zless zl zr =
    let n = min (length zl.name) (length zr.name) in
    let by_name : Bool = elim (memcmp (take n zl.name) (take n zr.name)) [
      | negative ↦ true
      | null ↦ ltb (length zl.name) (length zr.name)
      | positive ↦ false
    ] in
    if unequal zl.score zr.score then less zl.score zr.score else by_name

-- the loop of tree_insert: the way to the NULL link that the new node goes to
unfoldable pub descend : ZMemory → ZNode → Ancestors → Tree → Ancestors
descend m rookie p nil = p
descend m rookie p (node l a h s r) =
    let left = descend m rookie (in_left a h s r ∷ p) l in
    let right = descend m rookie (in_right l a h s ∷ p) r in
    if zless rookie (m a) then left else right

unfoldable pub tree_insert : ZMemory → Tree → ℕ → Run Tree
tree_insert m root a = avl_fix (descend m (m a) [] root) (avl_init a)

-- the node at an address, with its ancestors
unfoldable pub locate : ℕ → Ancestors → Tree → Option (Ancestors × Tree)
locate a p nil = none
locate a p (node l b h s r) =
    let left = locate a (in_left b h s r ∷ p) l in
    let right = locate a (in_right l b h s ∷ p) r in
    if b == a
    then some (p, node l b h s r)
    else elim left [ some found ↦ some found | none ↦ right ]

-- `avl_del(&node->tree)`
unfoldable pub detach : Tree → ℕ → Run Tree
detach root a = elim (locate a [] root) [
  | none ↦ fault null_pointer
  | some found ↦ avl_del (found.0) (found.1)
]

-- a write to the node at an address
abbrev pub store : ZMemory → ℕ → ZNode → ZMemory
store m a z b = if b == a then z else m b

unfoldable pub zset_update : ZMemory → ZSet → ℕ → ℕ → Run (ZMemory × ZSet)
zset_update m z a score = do
  rest ← detach z.root a
  let m' = store m a (record { score = score; name = (m a).name })
  root ← tree_insert m' rest a
  ok (m', record z { root = root })

-- `fresh` is the address of the memory that znode_new allocates
unfoldable pub zset_insert : ZMemory → ZSet → ℕ → List ℕ → ℕ → Run (Bool × ZMemory × ZSet)
zset_insert m z fresh name score = do
  looked ← zset_lookup m z name
  elim looked.1 [
    | some a ↦ zset_update m (looked.0) a score >>= λ r. ok (false, r.0, r.1)
    | none ↦ do
      let m' = store m fresh (record { score = score; name = name })
      hmap ← hm_insert looked.0.hmap (hnode m' fresh)
      root ← tree_insert m' looked.0.root fresh
      ok (true, m', record { root = root; hmap = hmap })
  ]

unfoldable pub zset_delete : ZMemory → ZSet → ℕ → Run ZSet
zset_delete m z a = do
  r ← hm_delete z.hmap (hkey (m a).name) (hcmp m)
  elim r.1 [
    | none ↦ fault assert_failed
    | some found ↦ detach z.root a >>= λ root. ok (record { root = root; hmap = r.0 })
  ]

-- the loop of zset_seekge, with the candidate so far
unfoldable pub seek :
    ZMemory → ZNode → Option (Ancestors × Tree) → Ancestors → Tree → Option (Ancestors × Tree)
seek m key found p nil = found
seek m key found p (node l a h s r) =
    let right = seek m key found (in_right l a h s ∷ p) r in
    let left = seek m key (some (p, node l a h s r)) (in_left a h s r ∷ p) l in
    if zless (m a) key then right else left

unfoldable pub zset_seekge : ZMemory → ZSet → ℕ → List ℕ → Option (Ancestors × Tree)
zset_seekge m z score name = seek m (record { score = score; name = name }) none [] z.root

-- avl_offset runs on the fuel `fuel`
unfoldable pub znode_offset : ℕ → Option (Ancestors × Tree) → ℤ → Run (Option (Ancestors × Tree))
znode_offset fuel none offset = ok none
znode_offset fuel (some x) offset = offset_loop fuel (x.0) (x.1) (pos 0) offset

-- the tree is freed node by node; what is left is an empty set
abbrev pub zset_clear : ZSet → ZSet
zset_clear z = record { root = nil; hmap = new_map }
