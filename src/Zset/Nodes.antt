-- ===== src/Zset/Nodes.antt =====
-- The nodes of a set by their addresses, and a write to one of them.
use byo_redis.Prelude.{
  ℕ, ◌<◌, ◌≡◌, ◌≢◌, refl, ap, sym, ◌∙◌, inl, inr, Bool, true, false, List, [], ◌∷◌, All, map, ◌==◌,
  ==_iff, Bool-cases, if◌then◌else◌, arith,
}
use native.Mathlib.Decide.{ℕ_discrete}
use byo_redis.Avl.Delete.{Avoids}
use byo_redis.Hashtable.Bag.{tally}
use byo_redis.Zset.{ZNode, ZMemory, same_bytes, store}
use byo_redis.Zset.Entries.{IsUnique, held, same_bytes_refl}

-- the memory with the node `a` written, away from `a`
pub store_other : (m : ZMemory) (a : ℕ) (n : ZNode) (b : ℕ) → b ≢ a → store m a n b ≡ m b
store_other m a n b d = rw (differs (b == a) (==_iff b a).0) refl
  where
    differs : (c : Bool) → (c ≡ true → b ≡ a) → c ≡ false
    differs true e = absurd (d (e refl))
    differs false e = refl

pub store_self : (m : ZMemory) (a : ℕ) (n : ZNode) → store m a n a ≡ n
store_self m a n = ap (λ c. if c then n else m a) ((==_iff a a).1 refl)

pub store-Avoids :
    (m : ZMemory) (a : ℕ) (n : ZNode) (xs : List ℕ) → Avoids a xs → map (store m a n) xs ≡ map m xs
store-Avoids m a n [] h = refl
store-Avoids m a n (x ∷ xs) h = cc (store_other m a n x h.0, store-Avoids m a n xs h.1)

-- a write of a node's name keeps what is embedded in the table
pub store_name :
    (m : ZMemory) (a : ℕ) (n : ZNode)
    → n.name ≡ (m a).name
    → (b : ℕ) → (store m a n b).name ≡ (m b).name
store_name m a n e b = elim (ℕ_discrete b a) [
  | yes q ↦ rw q (ap (λ z. z.name) (store_self m a n) ∙ e)
  | no d ↦ ap (λ z. z.name) (store_other m a n b d)
]

pub named_apart :
    (m : ZMemory) (a : ℕ) (xs : List ℕ) → All (λ f. f.name ≢ (m a).name) (map m xs) → Avoids a xs
named_apart m a [] h = tt
named_apart m a (x ∷ xs) h = ((λ e. h.0 (ap (λ b. (m b).name) e)), named_apart m a xs h.1)

-- what holds of all elements holds of one that is there
pub All-there {κ} :
    (P : ZNode → Type κ) (m : ZMemory) (a : ℕ) (xs : List ℕ)
    → All P (map m xs)
    → 0 < tally (λ b. b == a) xs
    → P (m a)
All-there P m a [] h at = absurd (omega (arith, at))
All-there P m a (x ∷ xs) h at = elim (Bool-cases (x == a)) [
  | inl e ↦ rw (sym ((==_iff x a).0 e)) (h.0)
  | inr e ↦ All-there P m a xs h.1 (omega (arith, at, ap {B = ℕ} (λ c. if c then 1 else 0) e))
]

pub held-there :
    (m : ZMemory) (a : ℕ) (xs : List ℕ)
    → 0 < tally (λ b. b == a) xs
    → held (m a).name (map m xs) ≡ true
held-there m a [] at = absurd (omega (arith, at))
held-there m a (x ∷ xs) at = elim (Bool-cases (x == a)) [
  | inl e ↦ rw ((==_iff x a).0 e, same_bytes_refl (m a).name) refl
  | inr e ↦
      either (same_bytes (m x).name (m a).name)
        (held-there m a xs (omega (arith, at, ap {B = ℕ} (λ c. if c then 1 else 0) e)))
]
  where
    either : (c : Bool) {d : Bool} → d ≡ true → (if c then true else d) ≡ true
    either true h = refl
    either false h = h

-- in a list of distinct names two nodes of one name are one
pub one_address :
    (m : ZMemory) (a b : ℕ) (xs : List ℕ)
    → IsUnique (map m xs)
    → 0 < tally (λ c. c == a) xs
    → 0 < tally (λ c. c == b) xs
    → (m a).name ≡ (m b).name
    → a ≡ b
one_address m a b [] u at bt e = absurd (omega (arith, at))
one_address m a b (x ∷ xs) u at bt e = elim (Bool-cases (x == a)) [
  | inl p ↦ elim (Bool-cases (x == b)) [
    | inl q ↦ sym ((==_iff x a).0 p) ∙ (==_iff x b).0 q
    | inr q ↦ absurd (
        All-there (λ f. (m x).name ≢ f.name) m b xs u.0 (later b q bt)
          (ap (λ c. (m c).name) ((==_iff x a).0 p) ∙ e))
  ]
  | inr p ↦ elim (Bool-cases (x == b)) [
    | inl q ↦ absurd (
        All-there (λ f. (m x).name ≢ f.name) m a xs u.0 (later a p at)
          (ap (λ c. (m c).name) ((==_iff x b).0 q) ∙ sym e))
    | inr q ↦ one_address m a b xs u.1 (later a p at) (later b q bt) e
  ]
]
  where
    later :
        (c : ℕ) → (x == c) ≡ false → 0 < tally (λ y. y == c) (x ∷ xs) → 0 < tally (λ y. y == c) xs
    later c q h = omega (arith, h, ap {B = ℕ} (λ d. if d then 1 else 0) q)
