-- ===== src/Timers.antt =====
-- include/byoredis/server/time.hh and src/server/time.cc: the timers of idle connections and of keys.
-- The circular list of idle connections is the list of them from `idle_list.next` on, each with its
-- time of last activity; `closed` lists those that conn_destroy has taken out. The time `now` is what
-- get_monotonic_msec() returns. uint64_t sums are modulo 2 ^ 64.
pub mod Idle
pub mod Timeout
use byo_redis.Prelude.{
  ℕ, zero, suc, ◌+◌, ◌-◌, ◌*◌, ◌%◌, ◌^◌, Bool, true, false, List, [], ◌∷◌, ◌++◌, Option, none, some,
  length, ltb, leb, ◌==◌, if◌then◌else◌,
}
use byo_redis.Prelude.Run.{Run, ok, fault, assert_failed, out_of_fuel, ◌>>=◌}
use byo_redis.Prelude.Int.{ℤ, pos, negsuc}
use byo_redis.Heap.{HeapItem}
use byo_redis.Hashtable.{HNode, hm_delete}
use byo_redis.Zset.{Container, in_znode, in_hkey}
use byo_redis.Database.{Database, entry_node, entry_del}

abbrev pub k_idle_timeout_ms : ℕ
k_idle_timeout_ms = 5 * 1000

abbrev pub k_max_works : ℕ
k_max_works = 2000

pub record IdleConn : Type 0 where
  pub fd : ℕ
  pub last_active_ms : ℕ

abbrev pub idle_deadline : IdleConn → ℕ
idle_deadline c = (c.last_active_ms + k_idle_timeout_ms) % 2 ^ 64

-- a uint64_t as an int32_t
abbrev pub int32 : ℕ → ℤ
int32 n = let low = n % 2 ^ 32 in if ltb low (2 ^ 31) then pos low else negsuc (2 ^ 32 - 1 - low)

abbrev pub first_idle : List IdleConn → ℕ
first_idle [] = 2 ^ 64 - 1
first_idle (c ∷ rest) = idle_deadline c

abbrev pub first_timer : List HeapItem → ℕ → ℕ
first_timer [] next_ms = next_ms
first_timer (t ∷ rest) next_ms = if ltb t.val next_ms then t.val else next_ms

unfoldable pub next_timer_ms : ℕ → List IdleConn → List HeapItem → ℤ
next_timer_ms now idle heap =
    let next_ms = first_timer heap (first_idle idle) in
    if next_ms == 2 ^ 64 - 1
    then negsuc 0
    else if leb next_ms now
    then pos 0
    else int32 (next_ms - now)

-- the loop of process_timers over the idle connections: those that stay, and those that are closed
unfoldable pub close_idle : ℕ → List IdleConn → List IdleConn × List IdleConn
close_idle now [] = ([], [])
close_idle now (c ∷ rest) =
    let more = close_idle now rest in
    if leb now (idle_deadline c) then (c ∷ rest, []) else (more.0, c ∷ more.1)

-- the comparison of two pointers to nodes
abbrev pub hnode_same : HNode Container → HNode Container → Bool
hnode_same lhs rhs = elim lhs.payload [
  | in_znode a ↦ elim rhs.payload [ in_znode b ↦ a == b | in_hkey key ↦ false ]
  | in_hkey key ↦ false
]

-- the loop of process_timers over the heap, on fuel, with `nworks`
unfoldable pub expire_keys : ℕ → ℕ → ℕ → Database → Run Database
expire_keys zero nworks now d = fault out_of_fuel
expire_keys (suc k) nworks now d =
    let expire = λ (a : ℕ). (do
      r ← hm_delete d.db (entry_node d.entries a) hnode_same
      elim r.1 [
        | none ↦ fault assert_failed
        | some node ↦ do
          d' ← entry_del now (record d { db = r.0 }) a
          let more = expire_keys k (nworks + 1) now d'
          if leb k_max_works nworks then ok d' else more
      ]) in
    elim d.heap.items [
      | [] ↦ ok d
      | t ∷ rest ↦ let run = expire t.ref in if ltb t.val now then run else ok d
    ]

-- one round takes one item from the heap
unfoldable pub process_timers :
    ℕ → List IdleConn → Database → Run ((List IdleConn × List IdleConn) × Database)
process_timers now idle d = do
  d' ← expire_keys (suc (length d.heap.items)) 0 now d
  ok (close_idle now idle, d')
