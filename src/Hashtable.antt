-- ===== src/Hashtable.antt =====
-- include/byoredis/ds/hashtable.hh and src/ds/hashtable.cc: chained tables of a power of two of
-- slots, and the map of two tables that moves its nodes from the older table to the newer one a
-- few at a time.
-- An intrusive node is its hash code and the value that embeds it; its `next` pointer is its place
-- in a chain. The array of slots is a list of chains, and the NULL array is the empty list: an
-- array from h_init has at least one slot. A pointer to an incoming pointer (`HNode **`) is the
-- slot and the number of nodes in front. size_t and uint64_t arithmetic is modulo 2 ^ 64.
pub mod Bag
pub mod Tables
pub mod Rehashing
pub mod Methods
pub mod Removal
pub mod Visits
use Prim.Native.Nat.{bit_and, bit_or}
use byo_redis.Prelude.{
  ℕ, zero, suc, ◌+◌, ◌-◌, ◌*◌, ◌/◌, ◌%◌, ◌^◌, Bool, true, false, ◌&&◌, not, List, [], ◌∷◌, Option,
  none, some, ltb, leb, ◌==◌, if◌then◌else◌, set, get_elem?, replicate, length,
}
use byo_redis.Prelude.Run.{
  Run, ok, fault, out_of_bounds, null_pointer, assert_failed, out_of_fuel, ◌>>=◌, check,
}

pub record HNode {ℓ} (A : Type ℓ) : Type ℓ where
  pub hcode : ℕ
  pub payload : A

pub record HTab {ℓ} (A : Type ℓ) : Type ℓ where
  pub tab : List (List (HNode A))
  pub mask : ℕ
  pub size : ℕ

pub record HMap {ℓ} (A : Type ℓ) : Type ℓ where
  pub newer : HTab A
  pub older : HTab A
  pub migrate_pos : ℕ

abbrev pub k_max_load_factor : ℕ
k_max_load_factor = 8

abbrev pub k_rehashing_work : ℕ
k_rehashing_work = 128

-- `n |= n >> s`
abbrev smear : ℕ → ℕ → ℕ
smear n s = bit_or n (n / 2 ^ s)

unfoldable pub round_up_power_of_2 : ℕ → ℕ
round_up_power_of_2 n =
    let start = (n + (2 ^ 64 - 1)) % 2 ^ 64 in
    (smear (smear (smear (smear (smear (smear start 1) 2) 4) 8) 16) 32 + 1) % 2 ^ 64

module _ {ℓ} {A : Type ℓ} where
  abbrev pub is_null : List (List (HNode A)) → Bool
  is_null [] = true
  is_null (c ∷ cs) = false

  -- HTab{}
  abbrev pub no_table : HTab A
  no_table = record { tab = []; mask = 0; size = 0 }

  -- HMap{}
  abbrev pub new_map : HMap A
  new_map = record { newer = no_table; older = no_table; migrate_pos = 0 }

  unfoldable pub slot : List (List (HNode A)) → ℕ → Run (List (HNode A))
  slot tab i = elim (get_elem? tab i) [ none ↦ fault out_of_bounds | some c ↦ ok c ]

  unfoldable pub h_init : ℕ → Run (HTab A)
  h_init n =
      let m = round_up_power_of_2 n in
      check (ltb 0 m && bit_and (m - 1) m == 0) assert_failed
        (ok (record { tab = replicate m []; mask = m - 1; size = 0 }))

  unfoldable pub h_insert : HTab A → HNode A → Run (HTab A)
  h_insert t node = do
    let at = bit_and (node.hcode) (t.mask)
    next ← slot (t.tab) at
    ok (record t { tab = set (t.tab) at (node ∷ next); size = (t.size + 1) % 2 ^ 64 })

  -- the test of a candidate: the hash code first, then the callback
  abbrev pub matches : (HNode A → HNode A → Bool) → HNode A → HNode A → Bool
  matches eq key cur = (cur.hcode == key.hcode) && eq cur key

  -- the loop over a chain: how many nodes stand in front of the first match
  unfoldable pub scan : (HNode A → Bool) → List (HNode A) → Option ℕ
  scan q [] = none
  scan q (cur ∷ rest) =
      if q cur then some 0 else elim (scan q rest) [ none ↦ none | some k ↦ some (suc k) ]

  unfoldable pub h_lookup : HTab A → HNode A → (HNode A → HNode A → Bool) → Run (Option (ℕ × ℕ))
  h_lookup t key eq = if is_null (t.tab) then ok none else do
    let at = bit_and (key.hcode) (t.mask)
    chain ← slot (t.tab) at
    ok (elim (scan (matches eq key) chain) [ none ↦ none | some k ↦ some (at, k) ])

  -- `*from`, a read through the incoming pointer, and the chain without that node
  unfoldable pub split_at : List (HNode A) → ℕ → Run (HNode A × List (HNode A))
  split_at [] k = fault null_pointer
  split_at (node ∷ rest) zero = ok (node, rest)
  split_at (node ∷ rest) (suc k) = split_at rest k >>= λ r. ok (r.0, node ∷ r.1)

  unfoldable pub deref : HTab A → ℕ × ℕ → Run (HNode A)
  deref t from = do chain ← slot (t.tab) (from.0); found ← split_at chain (from.1); ok (found.0)

  unfoldable pub h_detach : HTab A → ℕ × ℕ → Run (HNode A × HTab A)
  h_detach t from = do
    chain ← slot (t.tab) (from.0)
    found ← split_at chain (from.1)
    ok (
      found.0,
      record t { tab = set (t.tab) (from.0) (found.1); size = (t.size + (2 ^ 64 - 1)) % 2 ^ 64 },
    )

  unfoldable pub hm_trigger_rehashing : HMap A → Run (HMap A)
  hm_trigger_rehashing m = do
    fresh ← h_init ((m.newer.mask + 1) * 2 % 2 ^ 64)
    ok (record { newer = fresh; older = m.newer; migrate_pos = 0 })

  -- the loop of hm_help_rehashing, on fuel, with `nwork`
  unfoldable pub help_loop : ℕ → ℕ → HMap A → Run (HMap A)
  help_loop zero nwork m = fault out_of_fuel
  help_loop (suc k) nwork m =
      let work : Run (HMap A) = do
        chain ← slot (m.older.tab) (m.migrate_pos)
        elim chain [
          | [] ↦ help_loop k nwork (record m { migrate_pos = m.migrate_pos + 1 })
          | first ∷ others ↦ do
            taken ← h_detach (m.older) (m.migrate_pos, 0)
            newer ← h_insert (m.newer) (taken.0)
            help_loop k (nwork + 1) (record m { newer = newer; older = taken.1 })
        ]
      in if ltb nwork k_rehashing_work && ltb 0 (m.older.size) then work else ok m

  -- each round moves a node or skips a slot, so that this fuel is enough
  unfoldable pub hm_help_rehashing : HMap A → Run (HMap A)
  hm_help_rehashing m = do
    moved ← help_loop (suc (k_rehashing_work + length (m.older.tab))) 0 m
    ok (
        if (moved.older.size == 0) && not (is_null (moved.older.tab))
        then record moved { older = no_table }
        else moved)

  unfoldable pub hm_lookup :
      HMap A → HNode A → (HNode A → HNode A → Bool) → Run (HMap A × Option (HNode A))
  hm_lookup m key eq = do
    m' ← hm_help_rehashing m
    from ← h_lookup (m'.newer) key eq
    elim from [
      | some f ↦ deref (m'.newer) f >>= λ node. ok (m', some node)
      | none ↦ do
        from' ← h_lookup (m'.older) key eq
        elim from' [
          | some f ↦ deref (m'.older) f >>= λ node. ok (m', some node)
          | none ↦ ok (m', none)
        ]
    ]

  unfoldable pub hm_delete :
      HMap A → HNode A → (HNode A → HNode A → Bool) → Run (HMap A × Option (HNode A))
  hm_delete m key eq = do
    m' ← hm_help_rehashing m
    from ← h_lookup (m'.newer) key eq
    elim from [
      | some f ↦ h_detach (m'.newer) f >>= λ r. ok (record m' { newer = r.1 }, some (r.0))
      | none ↦ do
        from' ← h_lookup (m'.older) key eq
        elim from' [
          | some f ↦ h_detach (m'.older) f >>= λ r. ok (record m' { older = r.1 }, some (r.0))
          | none ↦ ok (m', none)
        ]
    ]

  -- the first statement of hm_insert
  unfoldable pub ensure_newer : HMap A → Run (HMap A)
  ensure_newer m =
      if is_null (m.newer.tab) then (do t ← h_init 4; ok (record m { newer = t })) else ok m

  -- the test of the load factor, after the insertion
  unfoldable pub grow : HMap A → Run (HMap A)
  grow m =
      if is_null (m.older.tab)
        && leb ((m.newer.mask + 1) * k_max_load_factor % 2 ^ 64) (m.newer.size)
      then hm_trigger_rehashing m
      else ok m

  unfoldable pub hm_insert : HMap A → HNode A → Run (HMap A)
  hm_insert m node = do
    ready ← ensure_newer m
    t ← h_insert (ready.newer) node
    grown ← grow (record ready { newer = t })
    hm_help_rehashing grown

  abbrev pub hm_clear : HMap A → HMap A
  hm_clear m = new_map

  unfoldable pub hm_size : HMap A → ℕ
  hm_size m = (m.newer.size + m.older.size) % 2 ^ 64

-- The callback has a state, which the C++ code reaches through `arg`.
module _ {ℓ κ} {A : Type ℓ} {S : Type κ} (cb : HNode A → S → S × Bool) where
  unfoldable pub visit_chain : List (HNode A) → S → S × Bool
  visit_chain [] s = (s, true)
  visit_chain (node ∷ rest) s =
      let r = cb node s in if r.1 then visit_chain rest (r.0) else (r.0, false)

  -- the loop over the slots from `i` on, on fuel
  unfoldable pub visit_slots : ℕ → HTab A → ℕ → S → Run (S × Bool)
  visit_slots zero t i s = fault out_of_fuel
  visit_slots (suc k) t i s =
      let body : Run (S × Bool) = do
        chain ← slot (t.tab) i
        let r = visit_chain chain s
        let more = visit_slots k t (i + 1) (r.0)
        if r.1 then more else ok (r.0, false)
      in if not (t.mask == 0) && leb i (t.mask) then body else ok (s, true)

  -- the loop has at most one round for each slot
  unfoldable pub h_foreach : HTab A → S → Run (S × Bool)
  h_foreach t s = visit_slots (t.mask + 2) t 0 s

  unfoldable pub hm_foreach : HMap A → S → Run S
  hm_foreach m s = do
    r ← h_foreach (m.newer) s
    let rest = h_foreach (m.older) (r.0) >>= λ q. ok (q.0)
    if r.1 then rest else ok (r.0)
