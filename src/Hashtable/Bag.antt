-- ===== src/Hashtable/Bag.antt =====
-- The nodes of a table as a bag: how many of them pass a test, and what a write to one slot and a
-- removal from one chain do to that number. Also the arithmetic of masks.
use Prim.Native.Nat.{bit_and, bit_and-bitwise, digits}
use byo_redis.Prelude.{
  ℕ, zero, suc, ◌+◌, ◌-◌, ◌/◌, ◌^◌, ◌≤◌, ◌<◌, min, ◌≡◌, ◌≢◌, refl, ap, Bool, true, false, ◌&&◌,
  List, [], ◌∷◌, ◌++◌, Option, none, some, ltb, ◌==◌, ==_iff, ltb→lt, leb, leb→le, if◌then◌else◌,
  arith, All, length, set, get_or, replicate,
}
use byo_redis.Prelude.Run.{ok}
use byo_redis.Hashtable.{HNode, scan, split_at, slot, round_up_power_of_2}

-- The law of `bit_and` for the lowest digit, from the definition that the native operation has.
abbrev and_digits : (fuel a b : ℕ) → ℕ
and_digits fuel a b = digits (λ rest. zero) min fuel a b

and_digits-le : (n a b : ℕ) → and_digits n a b ≤ b
and_digits-le zero a b = omega arith
and_digits-le (suc n) zero b = omega arith
and_digits-le (suc n) (suc a) b = omega (arith, and_digits-le n (suc a / 2) (b / 2))

pub bit_and-le : (a b : ℕ) → bit_and a b ≤ b
bit_and-le a b = omega (arith, bit_and-bitwise a b, and_digits-le a a b)

-- a test at the exponents below a bound
passes : (ℕ → Bool) → ℕ → Bool
passes test zero = true
passes test (suc bound) = passes test bound && test bound

passes-at : (test : ℕ → Bool) (k bound : ℕ) → k < bound → passes test bound ≡ true → test k ≡ true
unfolding passes
passes-at test k zero below e = absurd (omega arith)
passes-at test k (suc bound) below e = ground (arith, passes-at test k bound)

-- what h_init computes from a power of two
is_fixed_power : ℕ → Bool
is_fixed_power k =
    (round_up_power_of_2 (2 ^ k) == 2 ^ k) && ((bit_and (2 ^ k - 1) (2 ^ k) == 0) && ltb k (2 ^ k))

powers_table : passes is_fixed_power 62 ≡ true
unfolding passes is_fixed_power round_up_power_of_2
powers_table = refl

pub power-fixed :
    (k : ℕ)
    → k < 62
    → (round_up_power_of_2 (2 ^ k) ≡ 2 ^ k)
      × ((bit_and (2 ^ k - 1) (2 ^ k) == 0) ≡ true)
      × (k < 2 ^ k)
power-fixed k h =
    let (a, b, c) =
      three (round_up_power_of_2 (2 ^ k) == 2 ^ k) (bit_and (2 ^ k - 1) (2 ^ k) == 0)
        (ltb k (2 ^ k)) (unfold is_fixed_power in passes-at is_fixed_power k 62 h powers_table) in
    ((==_iff (round_up_power_of_2 (2 ^ k)) (2 ^ k)).0 a, b, ltb→lt k (2 ^ k) c)
  where
    three : (a b : Bool) (c : Bool) → a && (b && c) ≡ true → (a ≡ true) × (b ≡ true) × (c ≡ true)
    three a b c e = ground arith

small_power : ℕ → Bool
small_power k = leb (2 ^ k) (2 ^ 60)

small_powers_table : passes small_power 61 ≡ true
unfolding passes small_power
small_powers_table = refl

pub power-small : (k : ℕ) → k < 61 → 2 ^ k ≤ 2 ^ 60
power-small k h =
    leb→le (2 ^ k) (2 ^ 60) (unfold small_power in passes-at small_power k 61 h small_powers_table)

module _ {ℓ} {A : Type ℓ} where
  abbrev pub one : (A → Bool) → A → ℕ
  one q x = if q x then 1 else 0

  -- how many elements pass the test
  abbrev pub tally : (A → Bool) → List A → ℕ
  tally q [] = 0
  tally q (x ∷ xs) = one q x + tally q xs

  abbrev pub nodes : List (List A) → List A
  nodes [] = []
  nodes (c ∷ cs) = c ++ nodes cs

  pub tally-append : (q : A → Bool) (xs ys : List A) → tally q (xs ++ ys) ≡ tally q xs + tally q ys
  tally-append q [] ys = omega arith
  tally-append q (x ∷ xs) ys = omega (arith, tally-append q xs ys)

  pub length-tally : (xs : List A) → length xs ≡ tally (λ x. true) xs
  length-tally [] = refl
  length-tally (x ∷ xs) = omega (arith, length-tally xs)

  pub tally-le : (q : A → Bool) (xs : List A) → tally q xs ≤ tally (λ x. true) xs
  tally-le q [] = omega arith
  tally-le q (x ∷ xs) = ground (arith, tally-le q xs)

  pub tally-set :
      (q : A → Bool) (tab : List (List A)) (i : ℕ) (c : List A)
      → i < length tab
      → tally q (nodes (set tab i c)) + tally q (get_or tab i []) ≡ tally q (nodes tab) + tally q c
  tally-set q [] i c h = absurd (omega arith)
  tally-set q (x ∷ xs) zero c h =
      omega (arith, tally-append q x (nodes xs), tally-append q c (nodes xs))
  tally-set q (x ∷ xs) (suc i) c h = omega (
    arith,
    tally-append q x (nodes xs),
    tally-append q x (nodes (set xs i c)),
    tally-set q xs i c (omega arith),
  )

  pub tally-nowhere :
      (q : A → Bool) (tab : List (List A))
      → ((i : ℕ) → tally q (get_or tab i []) ≡ 0)
      → tally q (nodes tab) ≡ 0
  tally-nowhere q [] h = refl
  tally-nowhere q (c ∷ cs) h =
      omega (arith, tally-append q c (nodes cs), h 0, tally-nowhere q cs (λ i. h (suc i)))

  pub tally-only :
      (q : A → Bool) (tab : List (List A)) (i : ℕ)
      → ((j : ℕ) → j ≢ i → tally q (get_or tab j []) ≡ 0)
      → tally q (nodes tab) ≡ tally q (get_or tab i [])
  tally-only q [] i h = refl
  tally-only q (c ∷ cs) zero h =
      omega (arith, tally-append q c (nodes cs), tally-nowhere q cs (λ j. h (suc j) (omega arith)))
  tally-only q (c ∷ cs) (suc i) h = omega (
    arith,
    tally-append q c (nodes cs),
    h 0 (omega arith),
    tally-only q cs i (λ j n. h (suc j) (omega arith)),
  )

  pub get_or-set_self :
      (tab : List (List A)) (i : ℕ) (c : List A) → i < length tab → get_or (set tab i c) i [] ≡ c
  get_or-set_self [] i c h = absurd (omega arith)
  get_or-set_self (x ∷ xs) zero c h = refl
  get_or-set_self (x ∷ xs) (suc i) c h = get_or-set_self xs i c (omega arith)

  pub get_or-set_ne :
      (tab : List (List A)) (i j : ℕ) (c : List A)
      → j ≢ i
      → get_or (set tab i c) j [] ≡ get_or tab j []
  get_or-set_ne [] i j c n = refl
  get_or-set_ne (x ∷ xs) zero zero c n = absurd (n refl)
  get_or-set_ne (x ∷ xs) zero (suc j) c n = refl
  get_or-set_ne (x ∷ xs) (suc i) zero c n = refl
  get_or-set_ne (x ∷ xs) (suc i) (suc j) c n = get_or-set_ne xs i j c (λ e. n (ap suc e))

  pub get_or-past : (tab : List (List A)) (i : ℕ) → length tab ≤ i → get_or tab i [] ≡ []
  get_or-past [] i h = refl
  get_or-past (x ∷ xs) zero h = absurd (omega arith)
  get_or-past (x ∷ xs) (suc i) h = get_or-past xs i (omega arith)

  pub nodes-replicate : (n : ℕ) → nodes (replicate {A = List A} n []) ≡ []
  nodes-replicate zero = refl
  nodes-replicate (suc n) = nodes-replicate n

  pub get_or-replicate : (n i : ℕ) → get_or (replicate {A = List A} n []) i [] ≡ []
  get_or-replicate zero i = refl
  get_or-replicate (suc n) zero = refl
  get_or-replicate (suc n) (suc i) = get_or-replicate n i

module _ {ℓ} {A : Type ℓ} where
  pub slot-get_or :
      (tab : List (List (HNode A))) (i : ℕ) → i < length tab → slot tab i ≡ ok (get_or tab i [])
  unfolding slot
  slot-get_or [] i h = absurd (omega arith)
  slot-get_or (x ∷ xs) zero h = refl
  slot-get_or (x ∷ xs) (suc i) h = slot-get_or xs i (omega arith)

  -- the slot of a hash code under a mask
  abbrev pub Home : ℕ → ℕ → HNode A → Type 0
  Home mask i n = bit_and n.hcode mask ≡ i

  -- `r` is a node of the chain and the chain without it
  pub record Split (c : List (HNode A)) (k : ℕ) (r : HNode A × List (HNode A)) : Type ℓ where
    pub run : split_at c k ≡ ok r
    pub bag : (q : HNode A → Bool) → tally q c ≡ one q (r.0) + tally q (r.1)
    pub keeps : (mask i : ℕ) → All (Home mask i) c → Home mask i (r.0) × All (Home mask i) (r.1)

  -- what the loop over a chain finds
  pub data Scanned (q : HNode A → Bool) (c : List (HNode A)) : Option ℕ → Type ℓ where
    missing : tally q c ≡ 0 → Scanned q c none
    found :
        (k : ℕ) (r : HNode A × List (HNode A)) → Split c k r → q (r.0) ≡ true → Scanned q c (some k)

  pub Split-head : (x : HNode A) (xs : List (HNode A)) → Split (x ∷ xs) 0 (x, xs)
  unfolding split_at
  Split-head x xs = record { run = refl; bag = λ q. refl; keeps = λ mask i a. a }

  Split-tail :
      (x : HNode A) (xs : List (HNode A)) (k : ℕ) (r : HNode A × List (HNode A))
      → Split xs k r
      → Split (x ∷ xs) (suc k) (r.0, x ∷ r.1)
  unfolding split_at
  Split-tail x xs k r s = record {
    run = rw s.run refl;
    bag = λ q. omega (arith, s.bag q);
    keeps = λ mask i a. (let (n, rest) = s.keeps mask i (a.1) in (n, (a.0, rest)));
  }

  scan_step :
      (q : HNode A → Bool) (x : HNode A) (xs : List (HNode A)) (o : Option ℕ) (b : Bool)
      → q x ≡ b
      → Scanned q xs o
      → Scanned q (x ∷ xs) (if b then some 0 else elim o [ none ↦ none | some k ↦ some (suc k) ])
  scan_step q x xs o true e s = found 0 (x, xs) (Split-head x xs) e
  scan_step q x xs none false e (missing z) = missing (rw e (omega arith))
  scan_step q x xs (some j) false e (found k r s h) =
      found (suc k) (r.0, x ∷ r.1) (Split-tail x xs k r s) h

  pub scan-Scanned : (q : HNode A → Bool) (c : List (HNode A)) → Scanned q c (scan q c)
  unfolding scan
  scan-Scanned q [] = missing refl
  scan-Scanned q (x ∷ xs) = scan_step q x xs (scan q xs) (q x) refl (scan-Scanned q xs)
