-- ===== src/Zset/Entries.antt =====
-- A sorted set as the list of its (score, name) pairs in order, and what an insertion and a removal
-- are on that list.
use byo_redis.Prelude.{
  ℕ, ◌≡◌, ◌≢◌, refl, ap, sym, inl, inr, Bool, true, false, List, [], ◌∷◌, ◌++◌, All, Bool-cases,
  ==_iff, if◌then◌else◌, arith,
}
use byo_redis.Zset.{ZNode, same_bytes}
use byo_redis.Zset.Order.{precedes, precedes_trans, precedes_total}

-- each pair is less than all behind it
abbrev pub IsSorted : List ZNode → Type 0
IsSorted [] = Unit
IsSorted (e ∷ es) = All (λ f. precedes e f ≡ true) es × IsSorted es

-- no two pairs have one name
abbrev pub IsUnique : List ZNode → Type 0
IsUnique [] = Unit
IsUnique (e ∷ es) = All (λ f. e.name ≢ f.name) es × IsUnique es

-- a pair in its place
abbrev pub insert_entry : ZNode → List ZNode → List ZNode
insert_entry x [] = x ∷ []
insert_entry x (e ∷ es) = if precedes x e then x ∷ e ∷ es else e ∷ insert_entry x es

-- all but the pairs of a name
abbrev pub without : List ℕ → List ZNode → List ZNode
without name [] = []
without name (e ∷ es) = if same_bytes e.name name then without name es else e ∷ without name es

-- whether a pair has the name
abbrev pub held : List ℕ → List ZNode → Bool
held name [] = false
held name (e ∷ es) = if same_bytes e.name name then true else held name es

pub same_bytes_lem : (xs ys : List ℕ) → (same_bytes xs ys ≡ true → xs ≡ ys)
same_bytes_lem [] [] h = refl
same_bytes_lem [] (y ∷ ys) h = cc
same_bytes_lem (x ∷ xs) [] h = cc
same_bytes_lem (x ∷ xs) (y ∷ ys) h = ground (arith, same_bytes_lem xs ys, ==_iff x y)

pub same_bytes_refl : (xs : List ℕ) → same_bytes xs xs ≡ true
same_bytes_refl [] = refl
same_bytes_refl (x ∷ xs) = ground (arith, same_bytes_refl xs, ==_iff x x)

pub same_bytes_ne : (xs ys : List ℕ) → xs ≢ ys → same_bytes xs ys ≡ false
same_bytes_ne xs ys n = elim (Bool-cases (same_bytes xs ys)) [
  | inl e ↦ absurd (n (same_bytes_lem xs ys e))
  | inr e ↦ e
]

pub All-map_weaken {ℓ κ} :
    {A : Type ℓ} {P Q : A → Type κ} (xs : List A) → ((a : A) → P a → Q a) → All P xs → All Q xs
All-map_weaken [] f h = tt
All-map_weaken (x ∷ xs) f h = (f x h.0, All-map_weaken xs f h.1)

pub All-append {ℓ κ} :
    {A : Type ℓ} (P : A → Type κ) (xs ys : List A) → All P xs → All P ys → All P (xs ++ ys)
All-append P [] ys h k = k
All-append P (x ∷ xs) ys h k = (h.0, All-append P xs ys h.1 k)

pub All-left {ℓ κ} : {A : Type ℓ} (P : A → Type κ) (xs ys : List A) → All P (xs ++ ys) → All P xs
All-left P [] ys h = tt
All-left P (x ∷ xs) ys h = (h.0, All-left P xs ys h.1)

pub All-right {ℓ κ} : {A : Type ℓ} (P : A → Type κ) (xs ys : List A) → All P (xs ++ ys) → All P ys
All-right P [] ys h = h
All-right P (x ∷ xs) ys h = All-right P xs ys h.1

pub All-insert_entry {κ} :
    (P : ZNode → Type κ) (x : ZNode) (es : List ZNode) → P x → All P es → All P (insert_entry x es)
All-insert_entry P x [] p h = (p, tt)
All-insert_entry P x (e ∷ es) p h = ground (arith, All-insert_entry P x es p)

pub All-without {κ} :
    (P : ZNode → Type κ) (name : List ℕ) (es : List ZNode) → All P es → All P (without name es)
All-without P name [] h = tt
All-without P name (e ∷ es) h = elim (Bool-cases (same_bytes e.name name)) [
  | inl b ↦ rw b (All-without P name es h.1)
  | inr b ↦ rw b (h.0, All-without P name es h.1)
]

-- a pair between those that do not come behind it and those that do
pub insert_entry-append :
    (x : ZNode) (before after : List ZNode)
    → All (λ e. precedes x e ≡ false) before
    → All (λ e. precedes x e ≡ true) after
    → insert_entry x (before ++ after) ≡ before ++ x ∷ after
insert_entry-append x [] [] h k = refl
insert_entry-append x [] (e ∷ after) h k = rw k.0 refl
insert_entry-append x (e ∷ before) after h k =
    rw h.0 (ap (◌∷◌ e) (insert_entry-append x before after h.1 k))

pub insert_entry-IsSorted :
    (x : ZNode) (es : List ZNode)
    → All (λ e. e.name ≢ x.name) es
    → IsSorted es
    → IsSorted (insert_entry x es)
insert_entry-IsSorted x [] n s = (tt, tt)
insert_entry-IsSorted x (e ∷ es) n s = elim (Bool-cases (precedes x e)) [
  | inl b ↦ rw b ((b, All-map_weaken es (λ f h. precedes_trans x e f b h) s.0), s)
  | inr b ↦ rw b (
    All-insert_entry (λ f. precedes e f ≡ true) x es (precedes_total x e (λ q. n.0 (sym q)) b) s.0,
    insert_entry-IsSorted x es n.1 s.1,
  )
]

pub insert_entry-IsUnique :
    (x : ZNode) (es : List ZNode)
    → All (λ e. e.name ≢ x.name) es
    → IsUnique es
    → IsUnique (insert_entry x es)
insert_entry-IsUnique x [] n s = (tt, tt)
insert_entry-IsUnique x (e ∷ es) n s = elim (Bool-cases (precedes x e)) [
  | inl b ↦ rw b (((λ q. n.0 (sym q)), All-map_weaken es (λ f h q. h (sym q)) n.1), s)
  | inr b ↦
      rw b
        (All-insert_entry (λ f. e.name ≢ f.name) x es n.0 s.0, insert_entry-IsUnique x es n.1 s.1)
]

pub without-IsSorted : (name : List ℕ) (es : List ZNode) → IsSorted es → IsSorted (without name es)
without-IsSorted name [] s = tt
without-IsSorted name (e ∷ es) s = elim (Bool-cases (same_bytes e.name name)) [
  | inl b ↦ rw b (without-IsSorted name es s.1)
  | inr b ↦ rw b (All-without (λ f. precedes e f ≡ true) name es s.0, without-IsSorted name es s.1)
]

pub without-IsUnique : (name : List ℕ) (es : List ZNode) → IsUnique es → IsUnique (without name es)
without-IsUnique name [] s = tt
without-IsUnique name (e ∷ es) s = elim (Bool-cases (same_bytes e.name name)) [
  | inl b ↦ rw b (without-IsUnique name es s.1)
  | inr b ↦ rw b (All-without (λ f. e.name ≢ f.name) name es s.0, without-IsUnique name es s.1)
]

pub without-absent : (name : List ℕ) (es : List ZNode) → All (λ f. f.name ≢ name) (without name es)
without-absent name [] = tt
without-absent name (e ∷ es) = elim (Bool-cases (same_bytes e.name name)) [
  | inl b ↦ rw b (without-absent name es)
  | inr b ↦ rw b ((λ q. cc (same_bytes_refl name, b, q)), without-absent name es)
]

-- nothing is removed where no pair has the name
pub without-eq :
    (name : List ℕ) (es : List ZNode) → All (λ f. f.name ≢ name) es → without name es ≡ es
without-eq name [] h = refl
without-eq name (e ∷ es) h =
    rw (same_bytes_ne e.name name h.0) (ap (◌∷◌ e) (without-eq name es h.1))

pub without-append :
    (name : List ℕ) (es fs : List ZNode)
    → without name (es ++ fs) ≡ without name es ++ without name fs
without-append name [] fs = refl
without-append name (e ∷ es) fs = elim (Bool-cases (same_bytes e.name name)) [
  | inl b ↦ rw b (without-append name es fs)
  | inr b ↦ rw b (ap (◌∷◌ e) (without-append name es fs))
]

pub held-absent :
    (name : List ℕ) (es : List ZNode) → All (λ f. f.name ≢ name) es → held name es ≡ false
held-absent name [] h = refl
held-absent name (e ∷ es) h = rw (same_bytes_ne e.name name h.0) (held-absent name es h.1)
