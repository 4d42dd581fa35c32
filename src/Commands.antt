-- ===== src/Commands.antt =====
-- src/server/commands.cc: the handlers of the commands.
-- A handler takes the words of the request, of which the first is its name, the database and the
-- buffer that the reply is appended to. `now` is what get_monotonic_msec() returns, and `fresh` and
-- `fresh_node` are the addresses that `new Entry()` and malloc() return. strtod() and strtoll() are the
-- parameters `strtod` and `strtoll`: each takes the bytes of a C string in front of its NUL and returns
-- the value, a bit pattern or an integer, and how many bytes it has read. The words of the request
-- that the handlers swap away are not used again.
pub mod Values
pub mod Writes
pub mod Strings
pub mod Sets
pub mod Ranges
pub mod Deletion
pub mod Members
use byo_redis.Prelude.{
  ℕ, zero, suc, ◌+◌, ◌-◌, ◌*◌, ◌%◌, ◌^◌, Bool, true, false, ◌&&◌, not, List, [], ◌∷◌, ◌++◌, Option,
  none, some, ltb, ◌==◌, if◌then◌else◌, length, get_elem?,
}
use byo_redis.Prelude.Run.{Run, ok, fault, out_of_bounds, null_pointer, out_of_fuel, ◌>>=◌}
use byo_redis.Prelude.Int.{ℤ, pos, negsuc, ◌-ℤ◌, ltb_ℤ}
use byo_redis.Buffer.{Buffer}
use byo_redis.Tlv.{
  err_bad_arg, err_bad_typ, out_nil, out_str, out_int, out_dbl, out_err, out_arr, out_begin_arr,
  out_end_arr,
}
use byo_redis.Double.{isnan}
use byo_redis.Avl.{Tree, nil, node, Ancestors, avl_rank}
use byo_redis.Avl.Shape.{count}
use byo_redis.Hashtable.{HNode, HMap, hm_foreach, hm_size}
use byo_redis.Heap.{HeapItem, load}
use byo_redis.Zset.{
  ZMemory, ZSet, Container, locate, zset_lookup, zset_insert, zset_delete, zset_seekge,
  znode_offset,
}
use byo_redis.Database.{
  t_str, t_zset, Entry, Database, no_index, empty_zset, blank_memory, write_entry, entry_new,
  key_in, entry_set_ttl, entry_del, find_entry, unlink_entry, link_entry,
}
use byo_redis.Response.{
  Command, do_get, do_set, do_del, do_keys, do_zadd, do_zrem, do_zscore, do_zquery, do_zrank,
  do_zcount, do_expire, do_ttl, do_unknown,
}

-- the error messages, in ASCII
-- "not a string value"
abbrev pub not_a_string : List ℕ
not_a_string =
    110 ∷ 111 ∷ 116 ∷ 32 ∷ 97 ∷ 32 ∷ 115 ∷ 116 ∷ 114 ∷ 105 ∷ 110 ∷ 103 ∷ 32 ∷ 118 ∷ 97 ∷ 108 ∷ 117
    ∷ 101 ∷ []

-- "a non-string value exists"
abbrev pub non_string : List ℕ
non_string =
    97 ∷ 32 ∷ 110 ∷ 111 ∷ 110 ∷ 45 ∷ 115 ∷ 116 ∷ 114 ∷ 105 ∷ 110 ∷ 103 ∷ 32 ∷ 118 ∷ 97 ∷ 108 ∷ 117
    ∷ 101 ∷ 32 ∷ 101 ∷ 120 ∷ 105 ∷ 115 ∷ 116 ∷ 115 ∷ []

-- "expect float"
abbrev pub expect_float : List ℕ
expect_float = 101 ∷ 120 ∷ 112 ∷ 101 ∷ 99 ∷ 116 ∷ 32 ∷ 102 ∷ 108 ∷ 111 ∷ 97 ∷ 116 ∷ []

-- "expect zset"
abbrev pub expect_zset_text : List ℕ
expect_zset_text = 101 ∷ 120 ∷ 112 ∷ 101 ∷ 99 ∷ 116 ∷ 32 ∷ 122 ∷ 115 ∷ 101 ∷ 116 ∷ []

-- "expect fp number"
abbrev expect_fp : List ℕ
expect_fp =
    101 ∷ 120 ∷ 112 ∷ 101 ∷ 99 ∷ 116 ∷ 32 ∷ 102 ∷ 112 ∷ 32 ∷ 110 ∷ 117 ∷ 109 ∷ 98 ∷ 101 ∷ 114 ∷ []

-- "expect int"
abbrev expect_int : List ℕ
expect_int = 101 ∷ 120 ∷ 112 ∷ 101 ∷ 99 ∷ 116 ∷ 32 ∷ 105 ∷ 110 ∷ 116 ∷ []

-- "expect int64"
abbrev expect_int64 : List ℕ
expect_int64 = 101 ∷ 120 ∷ 112 ∷ 101 ∷ 99 ∷ 116 ∷ 32 ∷ 105 ∷ 110 ∷ 116 ∷ 54 ∷ 52 ∷ []

-- `cmd[i]`
abbrev pub word : List (List ℕ) → ℕ → Run (List ℕ)
word cmd i = elim (get_elem? cmd i) [ none ↦ fault out_of_bounds | some s ↦ ok s ]

-- the 64-bit pattern of an int64_t
abbrev pub int64 : ℤ → ℕ
int64 (pos n) = n % 2 ^ 64
int64 (negsuc n) = 2 ^ 64 - 1 - n

-- the reply that a handler ends with
abbrev pub reply : Database → Run Buffer → Run (Database × Buffer)
reply d run = run >>= λ b. ok (d, b)

unfoldable pub run_get : List (List ℕ) → Database → Buffer → Run (Database × Buffer)
run_get cmd d buffer = do
  key ← word cmd 1
  found ← find_entry d key
  elim found.1 [
    | none ↦ reply found.0 (out_nil buffer)
    | some a ↦
        let ent = found.0.entries a in
        reply found.0 (
          if ent.kind == t_str
          then out_str buffer ent.str
          else out_err buffer err_bad_typ not_a_string)
  ]

unfoldable pub run_set : ℕ → List (List ℕ) → Database → Buffer → Run (Database × Buffer)
run_set fresh cmd d buffer = do
  key ← word cmd 1
  found ← find_entry d key
  elim found.1 [
    | some a ↦
        let ent = found.0.entries a in
        if ent.kind == t_str
        then (do
          val ← word cmd 2
          reply (write_entry found.0 a (record ent { str = val })) (out_nil buffer))
        else reply found.0 (out_err buffer err_bad_typ non_string)
    | none ↦ do
      val ← word cmd 2
      let made = entry_new found.0 fresh t_str key
      linked ← link_entry (write_entry made fresh (record (made.entries fresh) { str = val })) fresh
      reply linked (out_nil buffer)
  ]

unfoldable pub run_del : ℕ → List (List ℕ) → Database → Buffer → Run (Database × Buffer)
run_del now cmd d buffer = do
  key ← word cmd 1
  found ← unlink_entry d key
  elim found.1 [
    | none ↦ reply found.0 (out_int buffer 0)
    | some a ↦ entry_del now found.0 a >>= λ d'. reply d' (out_int buffer 1)
  ]

-- the callback always returns true; a failed append stays failed
abbrev pub cb_keys : (ℕ → Entry) → HNode Container → Run Buffer → Run Buffer × Bool
cb_keys entries n buf = (buf >>= λ b. out_str b (key_in entries n.payload), true)

unfoldable pub run_keys : List (List ℕ) → Database → Buffer → Run (Database × Buffer)
run_keys cmd d buffer =
    hm_foreach (cb_keys d.entries) d.db (out_arr buffer (hm_size d.db % 2 ^ 32)) >>= λ out.
    reply d out

-- the bytes in front of the first NUL
abbrev pub c_str : List ℕ → List ℕ
c_str [] = []
c_str (byte ∷ rest) = if byte == 0 then [] else byte ∷ c_str rest

-- expect_zset: the entry of a sorted set, `none` for the empty set that stands for a missing key
pub data Expected : Type 0 where
  empty : Expected
  entry : (address : ℕ) → Expected
  mismatch : Expected

abbrev pub expected : Database → Option ℕ → Expected
expected d none = empty
expected d (some a) = if (d.entries a).kind == t_zset then entry a else mismatch

unfoldable pub expect_zset : Database → List ℕ → Run (Database × Expected)
expect_zset d key = find_entry d key >>= λ found. ok (found.0, expected found.0 (found.1))

-- the set behind the pointer that expect_zset returns, with the memory of its nodes
abbrev pub set_of : Database → Expected → ZMemory × ZSet
set_of d empty = (blank_memory, empty_zset)
set_of d (entry a) = ((d.entries a).nodes, (d.entries a).zset)
set_of d mismatch = (blank_memory, empty_zset)

-- a change of that set; the empty set stays as it is, which it does because nothing is found in it
abbrev pub write_set : Database → Expected → ZSet → Database
write_set d empty z = d
write_set d (entry a) z = write_entry d a (record (d.entries a) { zset = z })
write_set d mismatch z = d

-- the rest of a handler behind expect_zset, for the set, or the error
abbrev with_zset :
    Database
    → List ℕ
    → Buffer
    → (Database → Expected → Run (Database × Buffer))
    → Run (Database × Buffer)
with_zset d key buffer rest = do
  r ← expect_zset d key
  let go = rest (r.0) (r.1)
  elim r.1 [
    | empty ↦ go
    | entry a ↦ go
    | mismatch ↦ reply r.0 (out_err buffer err_bad_typ expect_zset_text)
  ]

-- avl_rank of the node at an address
abbrev pub rank_at : ℕ → Tree → Run ℤ
rank_at a root = elim (locate a [] root) [
  | none ↦ fault null_pointer
  | some x ↦ ok (avl_rank (x.0) (x.1))
]

unfoldable pub run_zrem : List (List ℕ) → Database → Buffer → Run (Database × Buffer)
run_zrem cmd d buffer = do
  key ← word cmd 1
  with_zset d key buffer (λ d' which. (do
    name ← word cmd 2
    let (m, z) = set_of d' which
    r ← zset_lookup m z name
    let looked = write_set d' which (r.0)
    elim r.1 [
      | none ↦ reply looked (out_int buffer 0)
      | some a ↦
          zset_delete m (r.0) a >>= λ z'. reply (write_set looked which z') (out_int buffer 1)
    ]))

unfoldable pub run_zscore : List (List ℕ) → Database → Buffer → Run (Database × Buffer)
run_zscore cmd d buffer = do
  key ← word cmd 1
  with_zset d key buffer (λ d' which. (do
    name ← word cmd 2
    let (m, z) = set_of d' which
    r ← zset_lookup m z name
    let looked = write_set d' which (r.0)
    reply looked (elim r.1 [ none ↦ out_nil buffer | some a ↦ out_dbl buffer (m a).score ])))

unfoldable pub run_zrank : List (List ℕ) → Database → Buffer → Run (Database × Buffer)
run_zrank cmd d buffer = do
  key ← word cmd 1
  with_zset d key buffer (λ d' which. (do
    name ← word cmd 2
    let (m, z) = set_of d' which
    r ← zset_lookup m z name
    let looked = write_set d' which (r.0)
    reply looked (elim r.1 [
      | none ↦ out_nil buffer
      | some a ↦ rank_at a r.0.root >>= λ rank. out_int buffer (int64 rank)
    ])))

-- the loop of do_zquery, on fuel: the node, `n`, and the buffer; each round takes `step` for avl_offset
unfoldable pub query_loop :
    ℕ → ℕ → ZMemory → Option (Ancestors × Tree) → ℕ → ℤ → Buffer → Run (ℕ × Buffer)
query_loop zero step m o n limit buf = fault out_of_fuel
query_loop (suc k) step m none n limit buf = ok (n, buf)
query_loop (suc k) step m (some x) n limit buf =
    let work : Run (ℕ × Buffer) = elim x.1 [
      | nil ↦ fault null_pointer
      | node l a h s r ↦ do
        named ← out_str buf (m a).name
        scored ← out_dbl named (m a).score
        next ← znode_offset step (some x) (pos 1)
        query_loop k step m next (n + 1) limit scored
    ] in
    if ltb_ℤ (pos n) limit then work else ok (n, buf)

-- the reply of do_zquery to a set; the fuel is enough, since each round goes on to a node further
-- in the order, and each of the steps of avl_offset to another node
unfoldable pub query_reply : ZMemory → ZSet → ℕ → List ℕ → ℤ → ℤ → Buffer → Run Buffer
query_reply m z score name offset limit buffer =
    let size = count z.root in
    let listing : Run Buffer = do
      first ← znode_offset (2 * size + 1) (zset_seekge m z score name) offset
      begun ← out_begin_arr buffer
      r ← query_loop (size + 1) (2 * size + 1) m first 0 limit begun
      out_end_arr (r.1) (r.0 * 2 % 2 ^ 32)
    in if ltb_ℤ (pos 0) limit then listing else out_arr buffer 0

-- the rank of the node that zset_seekge finds
abbrev pub rank_found : Option (Ancestors × Tree) → Option ℤ
rank_found none = none
rank_found (some x) = some (avl_rank (x.0) (x.1))

-- the number that do_zcount replies with
unfoldable pub range_count : ZMemory → ZSet → ℕ → List ℕ → ℕ → List ℕ → ℤ
range_count m z score1 name1 score2 name2 = elim (rank_found (zset_seekge m z score1 name1)) [
  | none ↦ pos 0
  | some rank1 ↦ elim (rank_found (zset_seekge m z score2 name2)) [
    | none ↦ pos 0
    | some rank2 ↦ let n = rank2 -ℤ rank1 in if ltb_ℤ n (pos 0) then pos 0 else n
  ]
]

module _ (strtod : List ℕ → ℕ × ℕ) (strtoll : List ℕ → ℤ × ℕ) where
  abbrev pub str2dbl : List ℕ → Option ℕ
  str2dbl s =
      let (out, read) = strtod (c_str s) in
      if (read == length s) && not (isnan out) then some out else none

  abbrev pub str2int : List ℕ → Option ℤ
  str2int s = let (out, read) = strtoll (c_str s) in if read == length s then some out else none

  unfoldable pub run_zadd : ℕ → ℕ → List (List ℕ) → Database → Buffer → Run (Database × Buffer)
  run_zadd fresh fresh_node cmd d buffer =
      let add = λ (d' : Database) (a score : ℕ). (do
        name ← word cmd 3
        let ent = d'.entries a
        r ← zset_insert ent.nodes ent.zset fresh_node name score
        reply (write_entry d' a (record ent { nodes = r.1; zset = r.2 }))
            (out_int buffer (if r.0 then 1 else 0))) in
      do
        text ← word cmd 2
        elim (str2dbl text) [
          | none ↦ reply d (out_err buffer err_bad_arg expect_float)
          | some score ↦ do
            key ← word cmd 1
            found ← find_entry d key
            elim found.1 [
              | none ↦ do
                linked ← link_entry (entry_new found.0 fresh t_zset key) fresh
                add linked fresh score
              | some a ↦
                  let added = add found.0 a score in
                  if (found.0.entries a).kind == t_zset
                  then added
                  else reply found.0 (out_err buffer err_bad_typ expect_zset_text)
            ]
        ]

  unfoldable pub run_zquery : List (List ℕ) → Database → Buffer → Run (Database × Buffer)
  run_zquery cmd d buffer =
      let bad_int = reply d (out_err buffer err_bad_arg expect_int) in
      do
        text ← word cmd 2
        elim (str2dbl text) [
          | none ↦ reply d (out_err buffer err_bad_arg expect_fp)
          | some score ↦ do
            name ← word cmd 3
            offset_text ← word cmd 4
            elim (str2int offset_text) [
              | none ↦ bad_int
              | some offset ↦ do
                limit_text ← word cmd 5
                elim (str2int limit_text) [
                  | none ↦ bad_int
                  | some limit ↦ do
                    key ← word cmd 1
                    with_zset d key buffer (λ d' which.
                        (let (m, z) = set_of d' which in
                          reply d' (query_reply m z score name offset limit buffer)))
                ]
            ]
        ]

  unfoldable pub run_zcount : List (List ℕ) → Database → Buffer → Run (Database × Buffer)
  run_zcount cmd d buffer =
      let bad_number = reply d (out_err buffer err_bad_arg expect_fp) in
      do
        text1 ← word cmd 2
        elim (str2dbl text1) [
          | none ↦ bad_number
          | some score1 ↦ do
            text2 ← word cmd 4
            elim (str2dbl text2) [
              | none ↦ bad_number
              | some score2 ↦ do
                key ← word cmd 1
                with_zset d key buffer (λ d' which. (do
                  name1 ← word cmd 3
                  name2 ← word cmd 5
                  let (m, z) = set_of d' which
                  reply d' (out_int buffer (int64 (range_count m z score1 name1 score2 name2)))))
            ]
        ]

  unfoldable pub run_expire : ℕ → List (List ℕ) → Database → Buffer → Run (Database × Buffer)
  run_expire now cmd d buffer = do
    text ← word cmd 2
    elim (str2int text) [
      | none ↦ reply d (out_err buffer err_bad_arg expect_int64)
      | some ttl_ms ↦ do
        key ← word cmd 1
        found ← find_entry d key
        elim found.1 [
          | none ↦ reply found.0 (out_int buffer 0)
          | some a ↦ entry_set_ttl now found.0 a ttl_ms >>= λ d'. reply d' (out_int buffer 1)
        ]
    ]

  unfoldable pub run_ttl : ℕ → List (List ℕ) → Database → Buffer → Run (Database × Buffer)
  run_ttl now cmd d buffer = do
    key ← word cmd 1
    found ← find_entry d key
    elim found.1 [
      | none ↦ reply found.0 (out_int buffer (int64 (negsuc 1)))
      | some a ↦
          let idx = found.0.heap.refs a in
          let left : Run (Database × Buffer) = do
            item ← load found.0.heap idx
            reply found.0 (out_int buffer (if ltb now item.val then item.val - now else 0))
          in if idx == no_index then reply found.0 (out_int buffer (int64 (negsuc 0))) else left
    ]

  -- the calls of do_request_and_make_response
  abbrev pub handle :
      ℕ → ℕ → ℕ → Command → List (List ℕ) → Database → Buffer → Run (Database × Buffer)
  handle now fresh fresh_node do_get = run_get
  handle now fresh fresh_node do_set = run_set fresh
  handle now fresh fresh_node do_del = run_del now
  handle now fresh fresh_node do_keys = run_keys
  handle now fresh fresh_node do_zadd = run_zadd fresh fresh_node
  handle now fresh fresh_node do_zrem = run_zrem
  handle now fresh fresh_node do_zscore = run_zscore
  handle now fresh fresh_node do_zquery = run_zquery
  handle now fresh fresh_node do_zrank = run_zrank
  handle now fresh fresh_node do_zcount = run_zcount
  handle now fresh fresh_node do_expire = run_expire now
  handle now fresh fresh_node do_ttl = run_ttl now
  handle now fresh fresh_node do_unknown = λ cmd d buffer. ok (d, buffer)
