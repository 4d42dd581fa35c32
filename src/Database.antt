-- ===== src/Database.antt =====
-- include/byoredis/server/db.hh and src/server/db.cc: the keys of the server and what belongs to them,
-- which are a hash table of entries, the heap of their expiration times, and the queue of the entries
-- that a thread of the pool is to destroy.
-- An entry is its address, and `entries` is the memory behind the addresses. Its index in the heap,
-- which the items of the heap point back to, stands in the memory `refs` of the heap at the same
-- address. The nodes of a sorted set belong to that set, so that an entry has a memory for them of its
-- own. The addresses that `new` and malloc() return and the time are arguments. `freed` lists what has
-- been given back by `delete`.
pub mod Keys
pub mod Addresses
pub mod Removal
use byo_redis.Prelude.{
  ℕ, ◌+◌, ◌-◌, ◌%◌, ◌^◌, Bool, true, false, ◌&&◌, not, List, [], ◌∷◌, ◌++◌, Option, none, some, ltb,
  ◌==◌, if◌then◌else◌, length,
}
use byo_redis.Prelude.Run.{Run, ok, fault, null_pointer, ◌>>=◌}
use byo_redis.Prelude.Int.{ℤ, pos, negsuc}
use byo_redis.Avl.{Tree, nil}
use byo_redis.Heap.{Heap, HeapItem, update, heap_delete, heap_upsert}
use byo_redis.Hashtable.{HNode, HMap, new_map, hm_lookup, hm_insert, hm_delete, hm_size}
use byo_redis.Zset.{
  ZNode, ZMemory, ZSet, Container, in_znode, in_hkey, str_hash, same_bytes, hkey, container_of,
  zset_clear,
}

-- enum ENTRY_TYPE
abbrev pub t_init : ℕ
t_init = 0

abbrev pub t_str : ℕ
t_str = 1

abbrev pub t_zset : ℕ
t_zset = 2

abbrev pub k_large_container_size : ℕ
k_large_container_size = 10

pub record Entry : Type 0 where
  pub key : List ℕ
  pub kind : ℕ
  pub str : List ℕ
  pub nodes : ZMemory
  pub zset : ZSet

pub record Database : Type 0 where
  pub db : HMap Container
  pub entries : ℕ → Entry
  pub heap : Heap
  pub queue : List ℕ
  pub freed : List ℕ

-- `(size_t)-1`
abbrev pub no_index : ℕ
no_index = 2 ^ 64 - 1

-- ZSet{}
abbrev pub empty_zset : ZSet
empty_zset = record { root = nil; hmap = new_map }

abbrev pub blank_memory : ZMemory
blank_memory a = record { score = 0; name = [] }

-- a write to the entry at an address
abbrev pub write_entry : Database → ℕ → Entry → Database
write_entry d a e = record d { entries = λ b. if b == a then e else d.entries b }

-- `new Entry()` at the address `fresh`, with the members' initial values, and the type
abbrev pub entry_new : Database → ℕ → ℕ → List ℕ → Database
entry_new d fresh kind key =
    let ent : Entry = record {
      key = key;
      kind = kind;
      str = [];
      nodes = blank_memory;
      zset = empty_zset;
    } in
    record (write_entry d fresh ent) {
      heap = record (d.heap) { refs = update d.heap.refs fresh no_index };
    }

-- what the nodes of the top-level table are to its callbacks: a node of the table is embedded in an
-- entry, and the key of a lookup in a LookupKey
abbrev pub key_in : (ℕ → Entry) → Container → List ℕ
key_in entries (in_znode a) = (entries a).key
key_in entries (in_hkey key) = key

-- `==` on two std::string
abbrev pub same_string : List ℕ → List ℕ → Bool
same_string s t = (length s == length t) && same_bytes s t

unfoldable pub entry_eq : (ℕ → Entry) → HNode Container → HNode Container → Bool
entry_eq entries lhs rhs = same_string (key_in entries lhs.payload) (key_in entries rhs.payload)

-- the node that is embedded in an entry
abbrev pub entry_node : (ℕ → Entry) → ℕ → HNode Container
entry_node entries a = record { hcode = str_hash (entries a).key; payload = in_znode a }

-- set or remove the TTL of the entry at `a`, at the time `now`
unfoldable pub entry_set_ttl : ℕ → Database → ℕ → ℤ → Run Database
entry_set_ttl now d a (negsuc n) =
    let idx = d.heap.refs a in
    if idx == no_index
    then ok d
    else heap_delete d.heap idx >>= λ h.
        ok (record d { heap = record h { refs = update h.refs a no_index } })
entry_set_ttl now d a (pos ttl_ms) =
    heap_upsert d.heap (d.heap.refs a) (record { val = (now + ttl_ms) % 2 ^ 64; ref = a }) >>= λ h.
    ok (record d { heap = h })

unfoldable pub entry_del_sync : Database → ℕ → Database
entry_del_sync d a =
    let ent = d.entries a in
    let cleared =
      if ent.kind == t_zset
      then write_entry d a (record ent { zset = zset_clear ent.zset })
      else d in
    record cleared { freed = a ∷ cleared.freed }

-- a large set is left to the thread pool
unfoldable pub entry_del : ℕ → Database → ℕ → Run Database
entry_del now d a = do
  d' ← entry_set_ttl now d a (negsuc 0)
  let ent = d'.entries a
  let set_size = if ent.kind == t_zset then hm_size ent.zset.hmap else 0
  ok (
      if ltb k_large_container_size set_size
      then record d' { queue = d'.queue ++ a ∷ [] }
      else entry_del_sync d' a)

-- the lookup that the commands begin with: LookupKey, hm_lookup and container_of
unfoldable pub find_entry : Database → List ℕ → Run (Database × Option ℕ)
find_entry d key = do
  r ← hm_lookup d.db (hkey key) (entry_eq d.entries)
  a ← container_of (r.1)
  ok (record d { db = r.0 }, a)

-- the deletion that do_del begins with
unfoldable pub unlink_entry : Database → List ℕ → Run (Database × Option ℕ)
unlink_entry d key = do
  r ← hm_delete d.db (hkey key) (entry_eq d.entries)
  a ← container_of (r.1)
  ok (record d { db = r.0 }, a)

-- hm_insert of the node of an entry
unfoldable pub link_entry : Database → ℕ → Run Database
link_entry d a = do db ← hm_insert d.db (entry_node d.entries a); ok (record d { db = db })
