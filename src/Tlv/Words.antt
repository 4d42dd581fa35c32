-- ===== src/Tlv/Words.antt =====
-- Words in memory: what is written is what is read back.
use byo_redis.Prelude.{
  ℕ, ◌+◌, ◌*◌, ◌/◌, ◌%◌, ◌^◌, ◌≤◌, ◌<◌, ◌≡◌, refl, sym, ap, true, take-append-drop, length-take,
  length-append, List, [], ◌∷◌, ◌++◌, some, length, All, arith, leb, take, drop,
}
use byo_redis.Prelude.Slices.{take-append_left, drop-append_left}
use byo_redis.Tlv.{u32_bytes, read_u32, read_str}

abbrev pub IsByte : ℕ → Type 0
IsByte b = b < 256

pub length-u32_bytes : (n : ℕ) → length (u32_bytes n) ≡ 4
unfolding u32_bytes
length-u32_bytes n = refl

-- A word that is written is read back modulo 2 ^ 32, and the cursor moves behind it.
pub read_u32-u32_bytes :
    (n : ℕ) (rest : List ℕ) → read_u32 (u32_bytes n ++ rest) ≡ some (n % 2 ^ 32, rest)
unfolding read_u32 u32_bytes
read_u32-u32_bytes n rest = ap (λ w. some (w, rest)) (omega arith)

word_digits :
    (a b c d : ℕ)
    → a < 256
    → b < 256
    → c < 256
    → d < 256
    → let n = a + 256 * b + 65536 * c + 16777216 * d in
      (n % 256 ≡ a) × (n / 256 % 256 ≡ b) × (n / 65536 % 256 ≡ c) × (n / 16777216 % 256 ≡ d)
word_digits a b c d ha hb hc hd = omega arith

-- What is read as a word is the word that it is the encoding of.
pub u32_bytes-read_u32 :
    (bytes : List ℕ) {n : ℕ} {rest : List ℕ}
    → All IsByte bytes
    → read_u32 bytes ≡ some (n, rest)
    → (bytes ≡ u32_bytes n ++ rest) × (n < 2 ^ 32) × All IsByte rest
unfolding read_u32 u32_bytes
u32_bytes-read_u32 (a ∷ b ∷ c ∷ d ∷ r) {n} {rest} h e =
    let word : a + 256 * b + 65536 * c + 16777216 * d ≡ n = cc in
    let tail : r ≡ rest = cc in
    let (p, q, s, t) = word_digits a b c d h.0 h.1.0 h.1.1.0 h.1.1.1.0 in
    rw (← word, ← tail) (rw (p, q, s, t), omega arith, h.1.1.1.1)
u32_bytes-read_u32 (a ∷ b ∷ c ∷ []) h e = cc
u32_bytes-read_u32 (a ∷ b ∷ []) h e = cc
u32_bytes-read_u32 (a ∷ []) h e = cc
u32_bytes-read_u32 [] h e = cc

pub read_str-append : (s rest : List ℕ) → read_str (s ++ rest) (length s) ≡ some (s, rest)
unfolding read_str
read_str-append s rest =
    let room : leb (length s) (length (s ++ rest)) ≡ true = ground (arith, length-append s rest) in
    rw (room, take-append_left, drop-append_left)

-- What is read as a string is the front of the bytes, and its length is the one asked for.
pub read_str-eq-some :
    (bytes : List ℕ) (n : ℕ) {s rest : List ℕ}
    → read_str bytes n ≡ some (s, rest)
    → (bytes ≡ s ++ rest) × (length s ≡ n)
unfolding read_str
read_str-eq-some bytes n {s} {rest} e =
    let inside : n ≤ length bytes = ground arith in
    let front : take n bytes ≡ s = ground arith in
    let tail : drop n bytes ≡ rest = ground arith in
    rw (← front, ← tail) (sym (take-append-drop n bytes), omega (arith, length-take n bytes))

pub All-append_right : (xs ys : List ℕ) → All IsByte (xs ++ ys) → All IsByte ys
All-append_right [] ys h = h
All-append_right (x ∷ xs) ys h = All-append_right xs ys h.1
