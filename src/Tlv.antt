-- ===== src/Tlv.antt =====
-- include/byoredis/proto/tlv.hh and src/proto/tlv.cc: the tag-length-value encoding of responses,
-- and the two readers that the request parser uses.
-- A `uint32_t` is a number that the writers take modulo 2 ^ 32, an `int64_t` and a `double` are
-- their 64-bit patterns, and all are laid out in the little-endian order that the code assumes.
-- The cursor pair `(cur, end)` of a reader is the list of the bytes from `cur` to `end`.
pub mod Words
pub mod Writers
pub mod Arrays
use byo_redis.Prelude.{
  ℕ, ◌+◌, ◌-◌, ◌*◌, ◌/◌, ◌%◌, ◌^◌, List, [], ◌∷◌, Option, none, some, length, take, drop, get_elem?,
  leb, ◌==◌, if◌then◌else◌,
}
use byo_redis.Prelude.Run.{Run, ok, fault, out_of_bounds, assert_failed, ◌>>=◌, check}
use byo_redis.Buffer.{Buffer, append, push_placeholder, pop_placeholder, write_at}

abbrev pub k_max_msg : ℕ
k_max_msg = 32 * 2 ^ 20

abbrev pub k_max_args : ℕ
k_max_args = 200 * 1000

-- enum TAG
abbrev pub tag_nil : ℕ
tag_nil = 0

abbrev pub tag_err : ℕ
tag_err = 1

abbrev pub tag_str : ℕ
tag_str = 2

abbrev pub tag_int : ℕ
tag_int = 3

abbrev pub tag_dbl : ℕ
tag_dbl = 4

abbrev pub tag_arr : ℕ
tag_arr = 5

-- enum TAG_ERR_CODE
abbrev pub err_unknown : ℕ
err_unknown = 1

abbrev pub err_too_big : ℕ
err_too_big = 2

abbrev pub err_bad_arg : ℕ
err_bad_arg = 3

abbrev pub err_bad_typ : ℕ
err_bad_typ = 4

-- the four bytes of a `uint32_t` in memory
unfoldable pub u32_bytes : ℕ → List ℕ
u32_bytes n = (n % 256) ∷ (n / 256 % 256) ∷ (n / 65536 % 256) ∷ (n / 16777216 % 256) ∷ []

-- the eight bytes of a 64-bit pattern in memory
unfoldable pub u64_bytes : ℕ → List ℕ
u64_bytes n =
    (n % 256)
    ∷ (n / 256 % 256)
    ∷ (n / 65536 % 256)
    ∷ (n / 16777216 % 256)
    ∷ (n / 2 ^ 32 % 256)
    ∷ (n / 2 ^ 40 % 256)
    ∷ (n / 2 ^ 48 % 256)
    ∷ (n / 2 ^ 56 % 256)
    ∷ []

-- `none` is the result `false`
unfoldable pub read_u32 : List ℕ → Option (ℕ × List ℕ)
read_u32 (a ∷ b ∷ c ∷ d ∷ rest) = some (a + 256 * b + 65536 * c + 16777216 * d, rest)
read_u32 _ = none

unfoldable pub read_str : List ℕ → ℕ → Option (List ℕ × List ℕ)
read_str bytes n = if leb n (length bytes) then some (take n bytes, drop n bytes) else none

pub buf_append_u8 : Buffer → ℕ → Run Buffer
buf_append_u8 buf byte = append buf ((byte % 256) ∷ [])

unfoldable pub buf_append_u32 : Buffer → ℕ → Run Buffer
buf_append_u32 buf n = append buf (u32_bytes n)

pub buf_append_i64 : Buffer → ℕ → Run Buffer
buf_append_i64 buf n = append buf (u64_bytes n)

pub buf_append_dbl : Buffer → ℕ → Run Buffer
buf_append_dbl buf n = append buf (u64_bytes n)

pub buf_append_str : Buffer → List ℕ → Run Buffer
buf_append_str buf bytes = append buf bytes

unfoldable pub out_nil : Buffer → Run Buffer
unfolding buf_append_u8
out_nil buf = buf_append_u8 buf tag_nil

unfoldable pub out_str : Buffer → List ℕ → Run Buffer
unfolding buf_append_u8 buf_append_u32 buf_append_str
out_str buf s = do
  b ← buf_append_u8 buf tag_str
  c ← buf_append_u32 b (length s)
  buf_append_str c s

unfoldable pub out_int : Buffer → ℕ → Run Buffer
unfolding buf_append_u8 buf_append_i64
out_int buf val = do b ← buf_append_u8 buf tag_int; buf_append_i64 b val

unfoldable pub out_dbl : Buffer → ℕ → Run Buffer
unfolding buf_append_u8 buf_append_dbl
out_dbl buf val = do b ← buf_append_u8 buf tag_dbl; buf_append_dbl b val

unfoldable pub out_err : Buffer → ℕ → List ℕ → Run Buffer
unfolding buf_append_u8 buf_append_u32 buf_append_str
out_err buf code msg = do
  b ← buf_append_u8 buf tag_err
  c ← buf_append_u32 b code
  d ← buf_append_u32 c (length msg)
  buf_append_str d msg

unfoldable pub out_arr : Buffer → ℕ → Run Buffer
unfolding buf_append_u8 buf_append_u32
out_arr buf n = do b ← buf_append_u8 buf tag_arr; buf_append_u32 b n

unfoldable pub out_begin_arr : Buffer → Run Buffer
unfolding buf_append_u8 buf_append_u32
out_begin_arr buf = do b ← buf_append_u8 buf tag_arr; buf_append_u32 (push_placeholder b) 0

-- `buf.buf[i]`
unfoldable pub byte_at : Buffer → ℕ → Run ℕ
byte_at b i = elim (get_elem? b.buf i) [ none ↦ fault out_of_bounds | some byte ↦ ok byte ]

unfoldable pub out_end_arr : Buffer → ℕ → Run Buffer
out_end_arr buf n = do
  (pos, b) ← pop_placeholder buf
  tag ← byte_at b (pos - 1)
  check (tag == tag_arr) assert_failed (write_at b pos (u32_bytes n))
