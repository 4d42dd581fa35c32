-- ===== src/Hashtable/Rehashing.antt =====
-- The invariant of the map of two tables, and hm_help_rehashing, which moves nodes between them.
use byo_redis.Prelude.{
  ℕ, zero, suc, ◌+◌, ◌-◌, ◌^◌, ◌≤◌, ◌<◌, ◌≡◌, refl, ap, ◌∙◌, ◌⊎◌, inl, inr, Bool, true, false, ◌&&◌,
  not, List, [], ◌∷◌, ltb, ◌==◌, ==_iff, if◌then◌else◌, arith, length,
}
use byo_redis.Prelude.Run.{Run, ok, ◌>>=◌, Returns, Returns-map, Returns-if}
use byo_redis.Hashtable.{
  HNode, HTab, HMap, is_null, no_table, h_insert, h_detach, help_loop, hm_help_rehashing,
  k_rehashing_work,
}
use byo_redis.Hashtable.Bag.{
  tally, nodes, tally-le, tally-nowhere, get_or-past, slot-get_or, Split-head,
}
use byo_redis.Hashtable.Tables.{
  slot_of, IsTab, IsTab-no_table, Gains, Loses, h_insert-Gains, h_detach-Loses,
}

module _ {ℓ} {A : Type ℓ} where
  -- A sound map: both tables are in order, the slots of the older one below `migrate_pos` are empty, and there is
  -- an older table only beside a newer one.
  pub record IsMap (m : HMap A) : Type ℓ where
    pub newer : IsTab m.newer
    pub older : IsTab m.older
    pub moved : (i : ℕ) → i < m.migrate_pos → slot_of m.older i ≡ []
    pub ready : (0 < length m.newer.tab) ⊎ (length m.older.tab ≡ 0)

  -- how many nodes of the map pass a test
  abbrev pub total : (HNode A → Bool) → HMap A → ℕ
  total q m = tally q (nodes m.newer.tab) + tally q (nodes m.older.tab)

  abbrev pub all : HNode A → Bool
  all n = true

  -- the map after a run of the loop that starts with `nwork`
  pub record Moved (nwork : ℕ) (m m' : HMap A) : Type ℓ where
    pub is_map : IsMap m'
    pub bag : (q : HNode A → Bool) → total q m' ≡ total q m
    pub progress : m'.older.size ≡ m.older.size - (k_rehashing_work - nwork)

-- what the loop does on fuel `k`
abbrev Helps {ℓ} : Type ℓ → ℕ → Type ℓ
Helps A k =
    (nwork : ℕ) (m : HMap A)
    → IsMap m
    → total all m < 2 ^ 64
    → nwork ≤ k_rehashing_work
    → (k_rehashing_work - nwork) + (length m.older.tab - m.migrate_pos) < k
    → Returns (help_loop k nwork m) (Moved nwork m)

module _ {ℓ} {A : Type ℓ} where
  -- while the older table has nodes, `migrate_pos` is inside it
  migrate_pos-lt : (m : HMap A) → IsMap m → 0 < m.older.size → m.migrate_pos < length m.older.tab
  migrate_pos-lt m v b = elim (side (m.migrate_pos) (length m.older.tab)) [
    | inl lt ↦ lt
    | inr le ↦ absurd (
        omega (
          arith,
          v.older.size,
          tally-nowhere all m.older.tab (λ i. ap (tally all) (empty le i (order i m.migrate_pos))),
        ))
  ]
    where
      side : (i n : ℕ) → (i < n) ⊎ (n ≤ i)
      side i n = omega arith

      order : (i p : ℕ) → (i < p) ⊎ (p ≤ i)
      order i p = omega arith

      empty :
          length m.older.tab ≤ m.migrate_pos
          → (i : ℕ) → (i < m.migrate_pos) ⊎ (m.migrate_pos ≤ i)
          → slot_of m.older i ≡ []
      empty le i (inl lt) = v.moved i lt
      empty le i (inr ge) = get_or-past m.older.tab i (omega arith)

  round_empty :
      (k nwork : ℕ) (m : HMap A)
      → Helps A k
      → IsMap m
      → total all m < 2 ^ 64
      → nwork ≤ k_rehashing_work
      → (k_rehashing_work - nwork) + (length m.older.tab - m.migrate_pos) < suc k
      → m.migrate_pos < length m.older.tab
      → slot_of m.older m.migrate_pos ≡ []
      → Returns (help_loop k nwork (record m { migrate_pos = m.migrate_pos + 1 })) (Moved nwork m)
  round_empty k nwork m ih v b w f lt e =
      Returns-map
        (ih nwork (record m { migrate_pos = m.migrate_pos + 1 })
          (record {
            newer = v.newer;
            older = v.older;
            moved = λ i h. still i (omega arith);
            ready = v.ready;
          })
          b w (omega arith))
        (λ m' k. record { is_map = k.is_map; bag = k.bag; progress = k.progress })
    where
      still : (i : ℕ) → (i < m.migrate_pos) ⊎ (i ≡ m.migrate_pos) → slot_of m.older i ≡ []
      still i (inl h) = v.moved i h
      still i (inr h) = rw h e

  round_move :
      (k nwork : ℕ) (m : HMap A) (node : HNode A) (n o : HTab A)
      → Helps A k
      → IsMap m
      → total all m < 2 ^ 64
      → nwork < k_rehashing_work
      → (k_rehashing_work - nwork) + (length m.older.tab - m.migrate_pos) < suc k
      → Loses m.older m.migrate_pos node o
      → Gains m.newer node n
      → Returns (help_loop k (nwork + 1) (record m { newer = n; older = o })) (Moved nwork m)
  round_move k nwork m node n o ih v b w f loses gains =
      Returns-map
        (ih (nwork + 1) (record m { newer = n; older = o })
          (record {
            newer = gains.is_tab;
            older = loses.is_tab;
            moved = λ i h. loses.elsewhere i (omega arith) ∙ v.moved i h;
            ready = rw (gains.same_width, loses.same_width) v.ready;
          })
          (omega (arith, bag all)) (omega arith) (omega (arith, loses.same_width)))
        (λ m' k. record {
          is_map = k.is_map;
          bag = λ q. k.bag q ∙ bag q;
          progress = omega (arith, k.progress, v.older.size, loses.is_tab.size, loses.bag all);
        })
    where
      bag : (q : HNode A → Bool) → tally q (nodes n.tab) + tally q (nodes o.tab) ≡ total q m
      bag q = omega (arith, loses.bag q, gains.bag q)

  round_moves :
      (k nwork : ℕ) (m : HMap A) (c : List (HNode A))
      → Helps A k
      → IsMap m
      → total all m < 2 ^ 64
      → nwork < k_rehashing_work
      → 0 < m.older.size
      → (k_rehashing_work - nwork) + (length m.older.tab - m.migrate_pos) < suc k
      → m.migrate_pos < length m.older.tab
      → slot_of m.older m.migrate_pos ≡ c
      → Returns
          (elim c as (λ x. Run (HMap A)) [
            | [] ↦ help_loop k nwork (record m { migrate_pos = m.migrate_pos + 1 })
            | first ∷ others ↦ do
              taken ← h_detach m.older (m.migrate_pos, 0)
              newer ← h_insert m.newer (taken.0)
              help_loop k (nwork + 1) (record m { newer = newer; older = taken.1 })
          ])
          (Moved nwork m)
  round_moves k nwork m [] ih v b w s f lt e = round_empty k nwork m ih v b (omega arith) f lt e
  round_moves k nwork m (x ∷ xs) ih v b w s f lt e =
      let (o, run, loses) =
        h_detach-Loses m.older m.migrate_pos 0 (x, xs) v.older (omega (arith, v.older.size))
          (rw e (Split-head x xs)) in
      let (n, run', gains) =
        h_insert-Gains m.newer x v.newer (omega (arith, v.ready))
          (omega (arith, v.newer.size, v.older.size)) in
      rw (run, run') (round_move k nwork m x n o ih v b w f loses gains)

  help_loop-Moved : (k : ℕ) → Helps A k
  unfolding help_loop
  help_loop-Moved zero nwork m v b w f = absurd (omega arith)
  help_loop-Moved (suc k) nwork m v b w f =
      Returns-if (ltb nwork k_rehashing_work && ltb 0 m.older.size)
        (λ y.
          (let s = busy nwork m.older.size y in
            let lt = migrate_pos-lt m v (s.1) in
            rw (slot-get_or m.older.tab m.migrate_pos lt) (
              round_moves k nwork m (slot_of m.older m.migrate_pos) (help_loop-Moved k) v b (s.0)
                (s.1) f lt refl)))
        (λ n.
          (m, refl, record { is_map = v; bag = λ q. refl; progress = idle nwork m.older.size w n }))
    where
      busy : (n s : ℕ) → ltb n k_rehashing_work && ltb 0 s ≡ true → (n < k_rehashing_work) × (0 < s)
      busy n s h = ground arith

      idle :
          (n s : ℕ)
          → n ≤ k_rehashing_work
          → ltb n k_rehashing_work && ltb 0 s ≡ false
          → s ≡ s - (k_rehashing_work - n)
      idle n s w h = ground arith

  -- an older table without nodes is freed
  discard :
      (m m' : HMap A)
      → Moved 0 m m'
      → m'.older.size ≡ 0
      → Moved 0 m (record m' { older = no_table })
  discard m m' k e = record {
    is_map = record {
      newer = k.is_map.newer;
      older = IsTab-no_table;
      moved = λ i h. refl;
      ready = inr refl;
    };
    bag = λ q. omega (arith, k.bag q, tally-le q (nodes m'.older.tab), k.is_map.older.size);
    progress = omega (arith, k.progress);
  }

  Returns-if-ok :
      {P : HMap A → Type ℓ} (x y : HMap A) (b : Bool)
      → (b ≡ true → P x)
      → (b ≡ false → P y)
      → Returns (ok (if b then x else y)) P
  Returns-if-ok x y true p q = (x, refl, p refl)
  Returns-if-ok x y false p q = (y, refl, q refl)

  -- On a sound map of fewer than 2 ^ 64 nodes hm_help_rehashing succeeds and keeps the map sound
  -- and the bag of nodes; it moves 128 nodes out of the older table, or all when it has fewer.
  pub hm_help_rehashing-Moved :
      (m : HMap A) → IsMap m → total all m < 2 ^ 64 → Returns (hm_help_rehashing m) (Moved 0 m)
  unfolding hm_help_rehashing
  hm_help_rehashing-Moved m v b =
      let (m', run, k) =
        help_loop-Moved (suc (k_rehashing_work + length m.older.tab)) 0 m v b (omega arith)
          (omega arith) in
      rw run (
        Returns-if-ok (record m' { older = no_table }) m'
          ((m'.older.size == 0) && not (is_null m'.older.tab))
          (λ e. discard m m' k (none_left m'.older.size _ e)) (λ n. k))
    where
      none_left : (n : ℕ) (b : Bool) → (n == 0) && b ≡ true → n ≡ 0
      none_left n b e = ground (arith, ==_iff n 0)
