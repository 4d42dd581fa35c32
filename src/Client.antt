-- ===== src/Client.antt =====
-- src/client/api.cc, print_response, read_full, write_all and read_res: how the client reads a response
-- and prints it. (send_req is in Request.)
-- What is printed is a list of lines, each the value that it shows. `%.*s` shows the bytes up to the
-- first NUL; a text that the code reads beyond the payload is a fault. A failed call returns -1. The
-- functions read() and write() are the parameters `read` and `write` on a state of the socket.
pub mod Printing
use byo_redis.Prelude.{
  ℕ, zero, suc, ◌+◌, ◌-◌, ◌*◌, ◌%◌, ◌^◌, Bool, true, false, List, [], ◌∷◌, ◌++◌, Option, none, some,
  length, take, drop, ltb, leb, ◌==◌, if◌then◌else◌,
}
use byo_redis.Prelude.Run.{Run, ok, fault, assert_failed, out_of_bounds, out_of_fuel, ◌>>=◌, check}
use byo_redis.Prelude.Int.{ℤ, pos, negsuc}
use byo_redis.Buffer.{read_range}
use byo_redis.Tlv.{k_max_msg, tag_nil, tag_err, tag_str, tag_int, tag_dbl, tag_arr}

pub data Line : Type 0 where
  line_nil : Line
  line_err : (code : ℕ) (text : List ℕ) → Line
  line_str : (text : List ℕ) → Line
  line_int line_dbl : (pattern : ℕ) → Line
  line_arr : (n : ℕ) → Line
  line_end : Line

-- the lines that were printed, and the result
pub record Printed : Type 0 where
  pub lines : List Line
  pub result : ℤ

-- a number that is copied from memory
abbrev pub little_endian : List ℕ → ℕ
little_endian [] = 0
little_endian (b ∷ bs) = b + 256 * little_endian bs

-- a uint32_t as an int32_t
abbrev pub int32 : ℕ → ℤ
int32 n = if ltb n (2 ^ 31) then pos n else negsuc (2 ^ 32 - 1 - n)

-- the bytes in front of the first NUL
abbrev pub shown : List ℕ → List ℕ
shown [] = []
shown (byte ∷ rest) = if byte == 0 then [] else byte ∷ shown rest

abbrev pub failed : List Line → Printed
failed lines = record { lines = lines; result = negsuc 0 }

abbrev pub printed : Line → ℤ → Printed
printed line result = record { lines = line ∷ []; result = result }

-- the loop over the elements of an array: `i` is how many are left, `arr_bytes` is how many bytes have
-- been taken, and `print` is the recursive call
unfoldable pub print_elements : (List ℕ → Run Printed) → ℕ → ℕ → List ℕ → List Line → Run Printed
print_elements print zero arr_bytes payload lines =
    ok (record { lines = lines ++ line_end ∷ []; result = int32 (arr_bytes % 2 ^ 32) })
print_elements print (suc i) arr_bytes payload lines = do
  r ← print (drop arr_bytes payload)
  elim r.result [
    | negsuc n ↦ ok (record { lines = lines ++ r.lines; result = negsuc n })
    | pos n ↦ print_elements print i (arr_bytes + n) payload (lines ++ r.lines)
  ]

-- the case TAG_ERR, and the case TAG_STR; the sums are those of uint32_t
unfoldable pub print_err : List ℕ → Run Printed
print_err payload = if ltb (length payload) 9 then ok (failed []) else do
  code ← read_range payload 1 4
  len_bytes ← read_range payload 5 4
  let len = little_endian len_bytes
  let text : Run Printed = do
    bytes ← read_range payload 9 len
    ok (printed (line_err (little_endian code) (shown bytes)) (int32 ((9 + len) % 2 ^ 32)))
  if ltb (length payload) ((9 + len) % 2 ^ 32) then ok (failed []) else text

unfoldable pub print_str : List ℕ → Run Printed
print_str payload = if ltb (length payload) 5 then ok (failed []) else do
  len_bytes ← read_range payload 1 4
  let len = little_endian len_bytes
  let text : Run Printed = do
    bytes ← read_range payload 5 len
    ok (printed (line_str (shown bytes)) (int32 ((5 + len) % 2 ^ 32)))
  if ltb (length payload) ((5 + len) % 2 ^ 32) then ok (failed []) else text

-- the cases TAG_INT and TAG_DBL
abbrev pub print_word : (ℕ → Line) → List ℕ → Run Printed
print_word line payload =
    if ltb (length payload) 9
    then ok (failed [])
    else do val ← read_range payload 1 8; ok (printed (line (little_endian val)) (pos 9))

-- on fuel, which bounds how deep arrays are nested
unfoldable pub print_response : ℕ → List ℕ → Run Printed
print_response zero payload = fault out_of_fuel
print_response (suc k) [] = ok (failed [])
print_response (suc k) (tag ∷ rest) =
    let payload = tag ∷ rest in
    let array : Run Printed =
      (if ltb (length payload) 5 then ok (failed []) else do
        len_bytes ← read_range payload 1 4
        let len = little_endian len_bytes
        print_elements (print_response k) len 5 payload (line_arr len ∷ [])) in
    if tag == tag_nil
    then ok (printed line_nil (pos 1))
    else if tag == tag_err
    then print_err payload
    else if tag == tag_str
    then print_str payload
    else if tag == tag_int
    then print_word line_int payload
    else if tag == tag_dbl
    then print_word line_dbl payload
    else if tag == tag_arr
    then array
    else ok (failed [])

-- An array takes at least one byte of the payload that its elements do not have.
unfoldable pub print_payload : List ℕ → Run Printed
print_payload payload = print_response (suc (length payload)) payload

-- the last test of read_res: a result that is positive is the length of the payload
abbrev pub complete : ℕ → Printed → Printed
complete len r = elim r.result [
  | negsuc n ↦ r
  | pos n ↦ if n == 0 then r else if n == len then r else failed (r.lines)
]

module _ {ℓ} {S : Type ℓ} (read : S → ℕ → S × Option (List ℕ)) where
  -- on fuel, with the bytes so far; `none` is an error or the end of the file, and each other read()
  -- gives at least one byte
  unfoldable pub read_full : ℕ → S → ℕ → List ℕ → Run (S × Option (List ℕ))
  read_full k s zero got = ok (s, some got)
  read_full zero s (suc n) got = fault out_of_fuel
  read_full (suc k) s (suc n) got =
      let r = read s (suc n) in
      elim r.1 [
        | none ↦ ok (r.0, none)
        | some bytes ↦
            let rest = read_full k (r.0) (suc n - length bytes) (got ++ bytes) in
            check (leb (length bytes) (suc n)) assert_failed rest
      ]

  -- the payload of `len` bytes, and its lines
  unfoldable pub read_payload : S → ℕ → Run (S × Printed)
  read_payload s len = do
    received ← read_full len s len []
    elim received.1 [
      | none ↦ ok (received.0, failed [])
      | some payload ↦ print_payload payload >>= λ r. ok (received.0, complete len r)
    ]

  unfoldable pub read_res : S → Run (S × Printed)
  read_res s = do
    header ← read_full 4 s 4 []
    elim header.1 [
      | none ↦ ok (header.0, failed [])
      | some h ↦
          let body = read_payload (header.0) (little_endian h) in
          if ltb k_max_msg (little_endian h) then ok (header.0, failed []) else body
    ]

module _ {ℓ} {S : Type ℓ} (write : S → List ℕ → S × Option ℕ) where
  -- `none` is an error, and each other write() takes at least one byte; 0 is success
  unfoldable pub write_all : ℕ → S → List ℕ → Run (S × ℤ)
  write_all k s [] = ok (s, pos 0)
  write_all zero s (byte ∷ rest) = fault out_of_fuel
  write_all (suc k) s (byte ∷ rest) =
      let buf = byte ∷ rest in
      let r = write s buf in
      elim r.1 [
        | none ↦ ok (r.0, negsuc 0)
        | some n ↦
            let more = write_all k (r.0) (drop n buf) in
            check (leb n (length buf)) assert_failed more
      ]
