-- ===== src/Hashtable/Tables.antt =====
-- The invariant of one table, and what its operations do to its bag of nodes.
use Prim.Native.Nat.{bit_and}
use byo_redis.Prelude.{
  ℕ, ◌+◌, ◌-◌, ◌%◌, ◌^◌, ◌≤◌, ◌<◌, ◌≡◌, ◌≢◌, refl, ap, sym, ◌∙◌, ◌⊎◌, inl, inr, Bool, true, false,
  List, [], ◌∷◌, Option, none, some, ◌==◌, ==_iff, lt→ltb, arith, All, length, length-set, set,
  get_or, replicate, length-replicate,
}
use native.Mathlib.Decide.{ℕ_discrete}
use byo_redis.Prelude.Run.{ok, Returns}
use byo_redis.Hashtable.{
  HNode, HTab, is_null, no_table, h_init, h_insert, matches, scan, h_lookup, h_detach,
}
use byo_redis.Hashtable.Bag.{
  bit_and-le, power-fixed, one, tally, nodes, tally-set, tally-only, get_or-set_self, get_or-set_ne,
  get_or-past, nodes-replicate, get_or-replicate, slot-get_or, Home, Split, Scanned, missing, found,
  scan-Scanned,
}

module _ {ℓ} {A : Type ℓ} where
  abbrev pub slot_of : HTab A → ℕ → List (HNode A)
  slot_of t i = get_or t.tab i []

  -- NULL, or a power of two of slots; each node stands in the slot of its hash code; `size` is the
  -- number of nodes
  pub record IsTab (t : HTab A) : Type ℓ where
    pub log : ℕ
    pub log_small : log < 61
    pub power : t.mask + 1 ≡ 2 ^ log
    pub width : ((length t.tab ≡ 0) × (t.mask ≡ 0)) ⊎ ((length t.tab ≡ t.mask + 1) × (0 < t.mask))
    pub home : (i : ℕ) → All (Home t.mask i) (slot_of t i)
    pub size : t.size ≡ tally (λ n. true) (nodes t.tab)

  pub IsTab-no_table : IsTab no_table
  IsTab-no_table = record {
    log = 0;
    log_small = omega arith;
    power = refl;
    width = inl (refl, refl);
    home = λ i. tt;
    size = refl;
  }

  abbrev with_slot : HTab A → ℕ → List (HNode A) → ℕ → HTab A
  with_slot t i c size = record t { tab = set t.tab i c; size = size }

  -- `t'` has the node besides the nodes of `t`
  pub record Gains (t : HTab A) (node : HNode A) (t' : HTab A) : Type ℓ where
    pub is_tab : IsTab t'
    pub bag : (q : HNode A → Bool) → tally q (nodes t'.tab) ≡ one q node + tally q (nodes t.tab)
    pub same_width : length t'.tab ≡ length t.tab
    pub same_mask : t'.mask ≡ t.mask

  -- `t'` lacks the node
  pub record Loses (t : HTab A) (i : ℕ) (node : HNode A) (t' : HTab A) : Type ℓ where
    pub is_tab : IsTab t'
    pub bag : (q : HNode A → Bool) → tally q (nodes t.tab) ≡ one q node + tally q (nodes t'.tab)
    pub same_width : length t'.tab ≡ length t.tab
    pub elsewhere : (j : ℕ) → j ≢ i → slot_of t' j ≡ slot_of t j

  -- a write to slot `i` keeps all nodes at home
  set-Home :
      (tab : List (List (HNode A))) (mask i : ℕ) (c : List (HNode A))
      → i < length tab
      → ((j : ℕ) → All (Home mask j) (get_or tab j []))
      → All (Home mask i) c
      → (j : ℕ) → All (Home mask j) (get_or (set tab i c) j [])
  set-Home tab mask i c lt h a j =
      elim (ℕ_discrete j i) as (λ d. All (Home mask j) (get_or (set tab i c) j [])) [
        | yes e ↦ rw (e, get_or-set_self tab i c lt) a
        | no n ↦ rw (get_or-set_ne tab i j c n) (h j)
      ]

  set-IsTab :
      (t : HTab A) (i : ℕ) (c : List (HNode A)) (size : ℕ)
      → IsTab t
      → i < length t.tab
      → All (Home t.mask i) c
      → size ≡ tally (λ n. true) (nodes (set t.tab i c))
      → IsTab (with_slot t i c size)
  set-IsTab t i c size v lt a e = record {
    log = v.log;
    log_small = v.log_small;
    power = v.power;
    width = rw (length-set t.tab i c) v.width;
    home = set-Home t.tab t.mask i c lt v.home a;
    size = e;
  }

  pub home-lt :
      (t : HTab A) (code : ℕ) → IsTab t → 0 < length t.tab → bit_and code t.mask < length t.tab
  home-lt t code v w = ground (arith, bit_and-le code t.mask, v.width)

  pub h_insert-Gains :
      (t : HTab A) (node : HNode A)
      → IsTab t
      → 0 < length t.tab
      → t.size + 1 < 2 ^ 64
      → Returns (h_insert t node) (Gains t node)
  unfolding h_insert
  h_insert-Gains t node v w b =
      let at = bit_and node.hcode t.mask in
      let lt = home-lt t node.hcode v w in
      let bag : (q : HNode A → Bool)
          → tally q (nodes (set t.tab at (node ∷ slot_of t at)))
            ≡ one q node + tally q (nodes t.tab) =
        λ q. omega (arith, tally-set q t.tab at (node ∷ slot_of t at) lt) in
      (
        with_slot t at (node ∷ slot_of t at) ((t.size + 1) % 2 ^ 64),
        rw (slot-get_or t.tab at lt) refl,
        record {
          is_tab =
              set-IsTab t at (node ∷ slot_of t at) _ v lt (refl, v.home at)
                (omega (arith, bag (λ n. true), v.size));
          bag = bag;
          same_width = length-set t.tab at _;
          same_mask = refl;
        },
      )

  pub slot-lt :
      (t : HTab A) (i k : ℕ) (r : HNode A × List (HNode A))
      → Split (slot_of t i) k r
      → i < length t.tab
  slot-lt t i k r s = elim (split_lt (length t.tab) i) [
    | inl lt ↦ lt
    | inr le ↦ absurd (omega (arith, rw (get_or-past t.tab i le) at (s.bag (λ n. true))))
  ]
    where
      split_lt : (n i : ℕ) → (i < n) ⊎ (n ≤ i)
      split_lt n i = omega arith

  -- h_detach through a pointer that the table has
  pub h_detach-Loses :
      (t : HTab A) (i k : ℕ) (r : HNode A × List (HNode A))
      → IsTab t
      → t.size < 2 ^ 64
      → Split (slot_of t i) k r
      → (t' : HTab A) × (h_detach t (i, k) ≡ ok (r.0, t')) × Loses t i (r.0) t'
  unfolding h_detach
  h_detach-Loses t i k r v b s =
      let lt = slot-lt t i k r s in
      let bag : (q : HNode A → Bool)
          → tally q (nodes t.tab) ≡ one q (r.0) + tally q (nodes (set t.tab i (r.1))) =
        λ q. omega (arith, tally-set q t.tab i (r.1) lt, s.bag q) in
      (
        with_slot t i (r.1) ((t.size + (2 ^ 64 - 1)) % 2 ^ 64),
        rw (slot-get_or t.tab i lt, s.run) refl,
        record {
          is_tab =
              set-IsTab t i (r.1) _ v lt ((s.keeps t.mask i (v.home i)).1)
                (omega (arith, bag (λ n. true), v.size));
          bag = bag;
          same_width = length-set t.tab i _;
          elsewhere = λ j n. get_or-set_ne t.tab i j (r.1) n;
        },
      )

  -- what h_lookup returns: NULL when no node of the table matches, or the pointer to one that does
  pub data Looked (q : HNode A → Bool) (t : HTab A) : Option (ℕ × ℕ) → Type ℓ where
    absent : tally q (nodes t.tab) ≡ 0 → Looked q t none
    present :
        (i k : ℕ) (r : HNode A × List (HNode A))
        → Split (slot_of t i) k r
        → q (r.0) ≡ true
        → Looked q t (some (i, k))

  -- a node in another slot than that of the key's hash code does not match
  no_match :
      (eq : HNode A → HNode A → Bool) (key : HNode A) (mask j : ℕ) (c : List (HNode A))
      → j ≢ bit_and key.hcode mask
      → All (Home mask j) c
      → tally (matches eq key) c ≡ 0
  no_match eq key mask j [] n a = refl
  no_match eq key mask j (x ∷ c) n a =
      rw
        (differs (x.hcode == key.hcode)
          (λ e. n (sym (a.0) ∙ ap (λ h. bit_and h mask) ((==_iff x.hcode key.hcode).0 e))))
        (omega (arith, no_match eq key mask j c n (a.1)))
    where
      differs : (b : Bool) → ¬ (b ≡ true) → b ≡ false
      differs true h = absurd (h refl)
      differs false h = refl

  pub null_or :
      (tab : List (List (HNode A))) → ((tab ≡ [])) ⊎ ((is_null tab ≡ false) × (0 < length tab))
  null_or [] = inl refl
  null_or (c ∷ cs) = inr (refl, omega arith)

  point_to :
      (q : HNode A → Bool) (t : HTab A) (at : ℕ) (o : Option ℕ)
      → tally q (nodes t.tab) ≡ tally q (slot_of t at)
      → Scanned q (slot_of t at) o
      → Returns
          (ok (elim o as (λ x. Option (ℕ × ℕ)) [ none ↦ none | some k ↦ some (at, k) ]))
          (Looked q t)
  point_to q t at none e (missing z) = (none, refl, absent (e ∙ z))
  point_to q t at (some k) e (found j r s h) = (some (at, j), refl, present at j r s h)

  pub h_lookup-Looked :
      (t : HTab A) (key : HNode A) (eq : HNode A → HNode A → Bool)
      → IsTab t
      → Returns (h_lookup t key eq) (Looked (matches eq key) t)
  unfolding h_lookup
  h_lookup-Looked t key eq v = elim (null_or (t.tab)) [
    | inl e ↦ (none, rw e refl, absent (rw e refl))
    | inr (e, w) ↦
        let at = bit_and key.hcode t.mask in
        let lt = home-lt t key.hcode v w in
        let only : tally (matches eq key) (nodes t.tab) ≡ tally (matches eq key) (slot_of t at) =
          tally-only (matches eq key) t.tab at
            (λ j n. no_match eq key t.mask j (slot_of t j) n (v.home j)) in
        rw (e, slot-get_or t.tab at lt)
          (point_to (matches eq key) t at (scan (matches eq key) (slot_of t at)) only
            (scan-Scanned (matches eq key) (slot_of t at)))
  ]

  pub h_init-IsTab :
      (k : ℕ)
      → 0 < k
      → k < 61
      → Returns (h_init (2 ^ k)) (λ t.
        IsTab t
        × (0 < length t.tab)
        × ((q : HNode A → Bool) → tally q (nodes t.tab) ≡ 0)
        × (t.mask + 1 ≡ 2 ^ k))
  unfolding h_init
  h_init-IsTab k p b =
      let (same, zero_and, big) = power-fixed k (omega arith) in
      (
        record { tab = replicate (2 ^ k) []; mask = 2 ^ k - 1; size = 0 },
        rw (same, lt→ltb 0 (2 ^ k) (omega arith), zero_and) refl,
        (
          record {
            log = k;
            log_small = b;
            power = omega arith;
            width =
                inr (omega (arith, length-replicate {A = List (HNode A)} (2 ^ k) []), omega arith);
            home = λ i. rw (get_or-replicate (2 ^ k) i) tt;
            size = rw (nodes-replicate (2 ^ k)) refl;
          },
          omega (arith, length-replicate {A = List (HNode A)} (2 ^ k) []),
          (λ q. rw (nodes-replicate (2 ^ k)) refl),
          omega arith,
        ),
      )
