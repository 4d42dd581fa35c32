-- ===== src/Prelude/Slices.antt =====
-- Sub-ranges of an array and writes of a block into one.
use byo_redis.Prelude.{
  ℕ, zero, suc, ◌+◌, ◌-◌, ◌≤◌, ◌≡◌, refl, ap, ◌∙◌, List, [], ◌∷◌, ◌++◌, arith, length, take, drop,
  length-append, length-take, length-drop,
}
use native.Mathlib.Nat.{zero-add, suc-add, sub-zero, zero-sub, suc-sub-suc}

-- `ds` copied over `xs` from offset `off` on.
unfoldable pub patch : List ℕ → ℕ → List ℕ → List ℕ
patch xs off ds = take off xs ++ (ds ++ drop (off + length ds) xs)

module _ {ℓ} {A : Type ℓ} where
  pub take-all : (n : ℕ) (xs : List A) → length xs ≤ n → take n xs ≡ xs
  take-all zero [] h = refl
  take-all zero (x ∷ xs) h = elim h [ ]
  take-all (suc n) [] h = refl
  take-all (suc n) (x ∷ xs) h = ap (◌∷◌ x) (take-all n xs (omega arith))

  pub take-append_le : (n : ℕ) (xs ys : List A) → n ≤ length xs → take n (xs ++ ys) ≡ take n xs
  take-append_le zero xs ys h = refl
  take-append_le (suc n) [] ys h = elim h [ ]
  take-append_le (suc n) (x ∷ xs) ys h = ap (◌∷◌ x) (take-append_le n xs ys (omega arith))

  pub take-append_left : (xs ys : List A) → take (length xs) (xs ++ ys) ≡ xs
  take-append_left [] ys = refl
  take-append_left (x ∷ xs) ys = ap (◌∷◌ x) (take-append_left xs ys)

  pub drop-append_left : (xs ys : List A) → drop (length xs) (xs ++ ys) ≡ ys
  drop-append_left [] ys = refl
  drop-append_left (x ∷ xs) ys = drop-append_left xs ys

  pub drop-append_le :
      (n : ℕ) (xs ys : List A) → n ≤ length xs → drop n (xs ++ ys) ≡ drop n xs ++ ys
  drop-append_le zero xs ys h = refl
  drop-append_le (suc n) [] ys h = elim h [ ]
  drop-append_le (suc n) (x ∷ xs) ys h = drop-append_le n xs ys (omega arith)

  pub drop-nil : (n : ℕ) → drop {A = A} n [] ≡ []
  drop-nil zero = refl
  drop-nil (suc n) = refl

  pub drop_all : (n : ℕ) (xs : List A) → length xs ≤ n → drop n xs ≡ []
  drop_all n [] h = drop-nil n
  drop_all zero (x ∷ xs) h = elim h [ ]
  drop_all (suc n) (x ∷ xs) h = drop_all n xs (omega arith)

  pub take-nil : (n : ℕ) → take {A = A} n [] ≡ []
  take-nil zero = refl
  take-nil (suc n) = refl

  pub drop-drop : (m n : ℕ) (xs : List A) → drop m (drop n xs) ≡ drop (n + m) xs
  drop-drop m zero xs = rw zero-add
  drop-drop m (suc n) [] = rw suc-add (drop-nil m)
  drop-drop m (suc n) (x ∷ xs) = rw suc-add (drop-drop m n xs)

  pub take-append_more :
      (xs ys : List A) (n : ℕ) → take (length xs + n) (xs ++ ys) ≡ xs ++ take n ys
  take-append_more [] ys n = rw zero-add
  take-append_more (x ∷ xs) ys n = rw suc-add (ap (◌∷◌ x) (take-append_more xs ys n))

  pub take-take : (m n : ℕ) (xs : List A) → m ≤ n → take m (take n xs) ≡ take m xs
  take-take zero n xs h = refl
  take-take (suc m) zero xs h = elim h [ ]
  take-take (suc m) (suc n) [] h = refl
  take-take (suc m) (suc n) (x ∷ xs) h = ap (◌∷◌ x) (take-take m n xs (omega arith))

  pub drop-take : (m n : ℕ) (xs : List A) → drop m (take n xs) ≡ take (n - m) (drop m xs)
  drop-take zero n xs = rw sub-zero
  drop-take (suc m) zero xs = rw (drop-nil, zero-sub)
  drop-take (suc m) (suc n) [] = rw (take-nil)
  drop-take (suc m) (suc n) (x ∷ xs) = rw suc-sub-suc (drop-take m n xs)

  pub take-append_add :
      (j : ℕ) (xs ds rest : List A)
      → j ≤ length xs
      → take (j + length ds) (take j xs ++ (ds ++ rest)) ≡ take j xs ++ ds
  take-append_add zero xs ds rest h = rw zero-add (take-append_left ds rest)
  take-append_add (suc j) [] ds rest h = elim h [ ]
  take-append_add (suc j) (x ∷ xs) ds rest h =
      rw suc-add (ap (◌∷◌ x) (take-append_add j xs ds rest (omega arith)))

  pub drop-take-append :
      (i j : ℕ) (xs ys : List A)
      → i ≤ j
      → j ≤ length xs
      → drop i (take j xs ++ ys) ≡ take (j - i) (drop i xs) ++ ys
  drop-take-append zero j xs ys h k = rw sub-zero
  drop-take-append (suc i) zero xs ys h k = elim h [ ]
  drop-take-append (suc i) (suc j) [] ys h k = elim k [ ]
  drop-take-append (suc i) (suc j) (x ∷ xs) ys h k =
      rw suc-sub-suc (drop-take-append i j xs ys (omega arith) (omega arith))

  -- the entries from `i` up to `j`
  abbrev pub slice : List A → ℕ → ℕ → List A
  slice xs i j = take (j - i) (drop i xs)

  pub length-slice : (xs : List A) (i j : ℕ) → i ≤ j → j ≤ length xs → length (slice xs i j) ≡ j - i
  length-slice xs i j h k = omega (arith, length-take (j - i) (drop i xs), length-drop i xs)

  -- a block written behind a slice makes it longer
  pub slice-append :
      (xs ds rest : List A) (i j : ℕ)
      → i ≤ j
      → j ≤ length xs
      → slice (take j xs ++ (ds ++ rest)) i (j + length ds) ≡ slice xs i j ++ ds
  slice-append xs ds rest i j h k =
      let e : j + length ds - i ≡ j - i + length ds = omega arith in
      rw (drop-take-append i j xs (ds ++ rest) h k, e)
        (take-append_add (j - i) (drop i xs) ds rest (omega (arith, length-drop i xs)))

  pub take-add : (m n : ℕ) (xs : List A) → take (m + n) xs ≡ take m xs ++ take n (drop m xs)
  take-add zero n xs = rw zero-add
  take-add (suc m) n [] = simp take-nil
  take-add (suc m) n (x ∷ xs) = rw suc-add (ap (◌∷◌ x) (take-add m n xs))

pub length-patch :
    (xs : List ℕ) (off : ℕ) (ds : List ℕ)
    → off + length ds ≤ length xs
    → length (patch xs off ds) ≡ length xs
unfolding patch
length-patch xs off ds h = omega (
  arith,
  length-append (take off xs) (ds ++ drop (off + length ds) xs),
  length-append ds (drop (off + length ds) xs),
  length-take off xs,
  length-drop (off + length ds) xs,
)

-- a write inside a slice is a write into the slice
pub slice-patch :
    (xs ds : List ℕ) (i j off : ℕ)
    → i ≤ off
    → off + length ds ≤ j
    → j ≤ length xs
    → slice (patch xs off ds) i j ≡ patch (slice xs i j) (off - i) ds
unfolding patch
slice-patch xs ds i j off h k l =
    let zs = drop i xs in
    let n = off - i in
    let front = take n zs in
    let size : length front ≡ n = omega (arith, length-take n zs, length-drop i xs) in
    let tail = drop (off + length ds) xs in
    let r = j - off - length ds in
    let split : j - i ≡ length front + (length ds + r) = omega arith in
    let split' : j - i - (n + length ds) ≡ r = omega arith in
    let place : i + (n + length ds) ≡ off + length ds = omega arith in
    let left : take (j - i) (front ++ (ds ++ tail)) ≡ front ++ (ds ++ take r tail) = rw split (
      take-append_more front (ds ++ tail) (length ds + r)
      ∙ ap (◌++◌ front) (take-append_more ds tail r)) in
    let right : drop (n + length ds) (take (j - i) zs) ≡ take r tail =
      drop-take (n + length ds) (j - i) zs ∙ rw (split', drop-drop, place) refl in
    rw
      (
        drop-take-append i off xs (ds ++ tail) h (omega arith),
        take-take n (j - i) zs (omega arith),
        right,
      )
      left
