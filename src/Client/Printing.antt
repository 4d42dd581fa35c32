-- ===== src/Client/Printing.antt =====
-- The client prints what the server has encoded.
use byo_redis.Prelude.{
  ℕ, suc, ◌+◌, ◌%◌, ◌^◌, ◌≤◌, ◌<◌, ◌≡◌, refl, ap, sym, ◌∙◌, All, map, true, false, List, [], ◌∷◌,
  ◌++◌, length, length-append, drop, ltb, leb, arith,
}
use mathlib.Core.List.{append_assoc, append-nil}
use byo_redis.Prelude.Slices.{take-append_left, drop-append_left, drop-drop}
use byo_redis.Prelude.Run.{ok}
use byo_redis.Prelude.Int.{ℤ, pos}
use byo_redis.Buffer.{read_range}
use byo_redis.Tlv.{tag_err, tag_str, tag_int, tag_dbl, tag_arr, u32_bytes, u64_bytes}
use byo_redis.Tlv.Writers.{Reply, nil, str, int, dbl, err, wire, wires}
use byo_redis.Client.{
  Line, line_nil, line_err, line_str, line_int, line_dbl, line_arr, line_end, Printed,
  little_endian, int32, shown, printed, print_elements, print_err, print_str, print_word,
  print_response, print_payload,
}

le_u32 : (n : ℕ) → little_endian (u32_bytes n) ≡ n % 2 ^ 32
unfolding u32_bytes
le_u32 n = omega arith

le_u64 : (n : ℕ) → little_endian (u64_bytes n) ≡ n % 2 ^ 64
unfolding u64_bytes
le_u64 n = omega arith

read_range-middle :
    (xs ys zs : List ℕ) (off n : ℕ)
    → off ≡ length xs
    → n ≡ length ys
    → read_range (xs ++ (ys ++ zs)) off n ≡ ok ys
unfolding read_range
read_range-middle xs ys zs off n e f =
    let room : leb (length xs + length ys) (length (xs ++ (ys ++ zs))) ≡ true =
      ground (arith, length-append xs (ys ++ zs), length-append ys zs) in
    rw (e, f, room, drop-append_left, take-append_left) refl

-- what the client shows of a reply
abbrev pub line_of : Reply → Line
line_of nil = line_nil
line_of (str s) = line_str (shown s)
line_of (int n) = line_int (n % 2 ^ 64)
line_of (dbl n) = line_dbl (n % 2 ^ 64)
line_of (err code text) = line_err (code % 2 ^ 32) (shown text)

-- the length of the reply is an int32_t
abbrev pub IsSmall : Reply → Type 0
IsSmall r = length (wire r) < 2 ^ 31

to_int : (n : ℕ) → n < 2 ^ 31 → int32 (n % 2 ^ 32) ≡ pos n
to_int n b = ground arith

print_word-int :
    (line : ℕ → Line) (tag n : ℕ) (rest : List ℕ)
    → print_word line (tag ∷ (u64_bytes n ++ rest)) ≡ ok (printed (line (n % 2 ^ 64)) (pos 9))
unfolding u64_bytes
print_word-int line tag n rest =
    let long : ltb (length (tag ∷ (u64_bytes n ++ rest))) 9 ≡ false = ground arith in
    rw (long, read_range-middle (tag ∷ []) (u64_bytes n) rest 1 8 refl refl)
      (ap (λ v. ok (printed (line v) (pos 9))) (le_u64 n))

print_str-wire :
    (s rest : List ℕ)
    → 5 + length s < 2 ^ 31
    → print_str (tag_str ∷ (u32_bytes (length s) ++ (s ++ rest)))
      ≡ ok (printed (line_str (shown s)) (pos (5 + length s)))
unfolding print_str u32_bytes
print_str-wire s rest b =
    let long : ltb (length (tag_str ∷ (u32_bytes (length s) ++ (s ++ rest)))) 5 ≡ false =
      ground arith in
    let len : little_endian (u32_bytes (length s)) ≡ length s =
      omega (arith, le_u32 (length s), b) in
    let fits : ltb (length (tag_str ∷ (u32_bytes (length s) ++ (s ++ rest))))
          ((5 + length s) % 2 ^ 32)
        ≡ false =
      ground (arith, length-append s rest) in
    rw
      (
        long,
        read_range-middle (tag_str ∷ []) (u32_bytes (length s)) (s ++ rest) 1 4 refl refl,
        len,
        fits,
        read_range-middle (tag_str ∷ u32_bytes (length s)) s rest 5 (length s) refl refl,
      )
      (ap (λ r. ok (printed (line_str (shown s)) r)) (to_int (5 + length s) b))

print_err-wire :
    (code : ℕ) (s rest : List ℕ)
    → 9 + length s < 2 ^ 31
    → print_err (tag_err ∷ (u32_bytes code ++ (u32_bytes (length s) ++ (s ++ rest))))
      ≡ ok (printed (line_err (code % 2 ^ 32) (shown s)) (pos (9 + length s)))
unfolding print_err u32_bytes
print_err-wire code s rest b =
    let whole = tag_err ∷ (u32_bytes code ++ (u32_bytes (length s) ++ (s ++ rest))) in
    let long : ltb (length whole) 9 ≡ false = ground arith in
    let len : little_endian (u32_bytes (length s)) ≡ length s =
      omega (arith, le_u32 (length s), b) in
    let fits : ltb (length whole) ((9 + length s) % 2 ^ 32) ≡ false =
      ground (arith, length-append s rest) in
    rw
      (
        long,
        read_range-middle (tag_err ∷ []) (u32_bytes code) (u32_bytes (length s) ++ (s ++ rest)) 1 4
            refl refl,
        read_range-middle (tag_err ∷ u32_bytes code) (u32_bytes (length s)) (s ++ rest) 5 4 refl
            refl,
        len,
        fits,
        read_range-middle (tag_err ∷ (u32_bytes code ++ u32_bytes (length s))) s rest 9 (length s)
            refl refl,
      )
      (ap (λ c. ok (printed (line_err c (shown s)) (int32 ((9 + length s) % 2 ^ 32)))) (le_u32 code)
        ∙ ap (λ r. ok (printed (line_err (code % 2 ^ 32) (shown s)) r)) (to_int (9 + length s) b))

-- a reply, whatever follows it
print_response-wire :
    (k : ℕ) (r : Reply) (rest : List ℕ)
    → IsSmall r
    → print_response (suc k) (wire r ++ rest) ≡ ok (printed (line_of r) (pos (length (wire r))))
unfolding print_response wire u32_bytes u64_bytes
print_response-wire k nil rest b = refl
print_response-wire k (str s) rest b =
    print_str-wire s rest (omega (arith, b))
    ∙ ap (λ n. ok (printed (line_str (shown s)) (pos n))) (omega arith)
print_response-wire k (int n) rest b = print_word-int line_int tag_int n rest
print_response-wire k (dbl n) rest b = print_word-int line_dbl tag_dbl n rest
print_response-wire k (err code s) rest b =
    print_err-wire code s rest (omega (arith, b))
    ∙ ap (λ n. ok (printed (line_err (code % 2 ^ 32) (shown s)) (pos n))) (omega arith)

print_elements-wires :
    (k : ℕ) (rs : List Reply) (off : ℕ) (payload rest : List ℕ) (lines : List Line)
    → All IsSmall rs
    → drop off payload ≡ wires rs ++ rest
    → print_elements (print_response (suc k)) (length rs) off payload lines
      ≡ ok (record {
        lines = lines ++ (map line_of rs ++ line_end ∷ []);
        result = int32 ((off + length (wires rs)) % 2 ^ 32);
      })
unfolding print_elements wires
print_elements-wires k [] off payload rest lines b e =
    ap (λ n. ok (record { lines = lines ++ line_end ∷ []; result = int32 (n % 2 ^ 32) }))
      (omega arith)
print_elements-wires k (r ∷ rs) off payload rest lines b e =
    let next : drop (off + length (wire r)) payload ≡ wires rs ++ rest =
      sym (drop-drop (length (wire r)) off payload)
      ∙ ap (drop (length (wire r))) (e ∙ append_assoc (wire r) (wires rs) rest)
      ∙ drop-append_left (wire r) (wires rs ++ rest) in
    rw
      (
        e,
        append_assoc (wire r) (wires rs) rest,
        print_response-wire k r (wires rs ++ rest) b.0,
        print_elements-wires k rs (off + length (wire r)) payload rest (lines ++ line_of r ∷ []) b.1
            next,
      )
      (same_end (append_assoc lines (line_of r ∷ []) (map line_of rs ++ line_end ∷ []))
        (omega (arith, length-append (wire r) (wires rs))))
  where
    ended : List Line → ℕ → Printed
    ended ls m = record { lines = ls; result = int32 (m % 2 ^ 32) }

    same_end :
        {ls ls' : List Line} {m n : ℕ} → ls ≡ ls' → m ≡ n → ok (ended ls m) ≡ ok (ended ls' n)
    same_end e f = cc (e, f)

length-wires : (rs : List Reply) → length rs ≤ length (wires rs)
unfolding wires wire
length-wires [] = omega arith
length-wires (nil ∷ rs) = omega (arith, length-wires rs)
length-wires (str s ∷ rs) = omega (arith, length-wires rs, length-append (wire (str s)) (wires rs))
length-wires (int n ∷ rs) = omega (arith, length-wires rs, length-append (wire (int n)) (wires rs))
length-wires (dbl n ∷ rs) = omega (arith, length-wires rs, length-append (wire (dbl n)) (wires rs))
length-wires (err code s ∷ rs) =
    omega (arith, length-wires rs, length-append (wire (err code s)) (wires rs))

-- On the encoding of a reply of fewer than 2 ^ 31 bytes print_response prints the one line of the reply, whose text
-- ends at its first NUL, and returns the length of the encoding.
pub print_payload-wire :
    (r : Reply)
    → IsSmall r
    → print_payload (wire r) ≡ ok (printed (line_of r) (pos (length (wire r))))
unfolding print_payload
print_payload-wire r b =
    ap (print_response (suc (length (wire r)))) (sym (append-nil (wire r)))
    ∙ print_response-wire (length (wire r)) r [] b

-- On the encoding of an array of replies, of fewer than 2 ^ 31 bytes in all, print_response prints the
-- number of the replies, each of them in order, and the end, and returns the length of the encoding.
pub print_payload-wires :
    (rs : List Reply)
    → All IsSmall rs
    → 5 + length (wires rs) < 2 ^ 31
    → print_payload (tag_arr ∷ (u32_bytes (length rs) ++ wires rs))
      ≡ ok (record {
        lines = line_arr (length rs) ∷ (map line_of rs ++ line_end ∷ []);
        result = pos (5 + length (wires rs));
      })
unfolding print_payload print_response u32_bytes
print_payload-wires rs b lt =
    let payload = tag_arr ∷ (u32_bytes (length rs) ++ wires rs) in
    let long : ltb (length payload) 5 ≡ false = ground arith in
    let len : little_endian (u32_bytes (length rs)) ≡ length rs =
      omega (arith, le_u32 (length rs), length-wires rs, lt) in
    rw
      (long, read_range-middle (tag_arr ∷ []) (u32_bytes (length rs)) (wires rs) 1 4 refl refl, len)
      (ap (λ f. print_elements (print_response f) (length rs) 5 payload (line_arr (length rs) ∷ []))
          deep
        ∙ print_elements-wires (4 + length (wires rs)) rs 5 payload [] (line_arr (length rs) ∷ []) b
            (sym (append-nil (wires rs)))
        ∙ ap (λ r. ok (end r)) (to_int (5 + length (wires rs)) lt))
  where
    deep : length (tag_arr ∷ (u32_bytes (length rs) ++ wires rs)) ≡ suc (4 + length (wires rs))
    deep = omega arith

    end : ℤ → Printed
    end r = record { lines = line_arr (length rs) ∷ (map line_of rs ++ line_end ∷ []); result = r }
