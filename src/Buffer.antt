-- ===== src/Buffer.antt =====
-- include/byoredis/proto/buffer.hh and src/proto/buffer.cc: the byte buffer that holds what a
-- connection has received or has to send, with its stack of placeholders.
-- Bytes are numbers, and a position is a number: a buffer is shorter than 2 ^ 63 bytes, so the
-- sums of positions that the code forms do not wrap. `memcpy` and `memmove` are `read_range` and
-- `write_range`, which fault where the C++ code would leave the vector.
pub mod View
pub mod Moves
pub mod Writes
use byo_redis.Prelude.{
  ℕ, zero, ◌+◌, ◌-◌, ◌*◌, min, max, Bool, List, [], ◌∷◌, map, length, take, drop, replicate, leb,
  ltb, if◌then◌else◌,
}
use byo_redis.Prelude.Run.{Run, ok, fault, out_of_bounds, assert_failed, ◌>>=◌}
use byo_redis.Prelude.Slices.{patch}

-- The head of `placeholder_stack` is the `back()` of the vector.
pub record Buffer : Type 0 where
  pub buf : List ℕ
  pub readable_begin : ℕ
  pub writable_begin : ℕ
  pub placeholder_stack : List ℕ

-- the constructor
pub new : ℕ → Buffer
new init_cap = record {
  buf = replicate init_cap 0;
  readable_begin = 0;
  writable_begin = 0;
  placeholder_stack = [];
}

abbrev pub capacity : Buffer → ℕ
capacity b = length b.buf

abbrev pub readable_size : Buffer → ℕ
readable_size b = b.writable_begin - b.readable_begin

abbrev pub writable_size : Buffer → ℕ
writable_size b = capacity b - b.writable_begin

-- `n` bytes from offset `off`
unfoldable pub read_range : List ℕ → ℕ → ℕ → Run (List ℕ)
read_range buf off n =
    if leb (off + n) (length buf) then ok (take n (drop off buf)) else fault out_of_bounds

-- the bytes `ds` to offset `off`
unfoldable pub write_range : List ℕ → ℕ → List ℕ → Run (List ℕ)
write_range buf off ds =
    if leb (off + length ds) (length buf) then ok (patch buf off ds) else fault out_of_bounds

-- the loop that adjusts the deferred placeholders
pub shift_placeholders : ℕ → List ℕ → List ℕ
shift_placeholders shift = map (λ pos. if leb shift pos then pos - shift else pos)

-- solution 1 of `ensure_writable`: the readable data moves to the front
pub move_front : Buffer → Run Buffer
move_front b = do
  let unread_len = readable_size b
  unread ← read_range b.buf b.readable_begin unread_len
  moved ← write_range b.buf 0 unread
  ok (record {
    buf = moved;
    readable_begin = 0;
    writable_begin = unread_len;
    placeholder_stack = shift_placeholders b.readable_begin b.placeholder_stack;
  })

-- solution 2, and the body of `shrink_if_wasteful`: the readable data moves to a new vector
pub relocate : Buffer → ℕ → Run Buffer
relocate b new_cap = do
  let unread_len = readable_size b
  unread ← read_range b.buf b.readable_begin unread_len
  new_buf ← write_range (replicate new_cap 0) 0 unread
  ok (record {
    buf = new_buf;
    readable_begin = 0;
    writable_begin = unread_len;
    placeholder_stack = shift_placeholders b.readable_begin b.placeholder_stack;
  })

unfoldable pub ensure_writable : Buffer → ℕ → Run Buffer
unfolding move_front relocate
ensure_writable b ensure_size =
    if leb ensure_size (writable_size b)
    then ok b
    else if leb ensure_size (b.readable_begin + writable_size b)
    then move_front b
    else relocate b (max (capacity b * 2) (readable_size b + ensure_size))

unfoldable pub append : Buffer → List ℕ → Run Buffer
unfolding ensure_writable write_range
append b bytes = do
  c ← ensure_writable b (length bytes)
  written ← write_range c.buf c.writable_begin bytes
  ok (record c { buf = written; writable_begin = c.writable_begin + length bytes })

unfoldable pub consume : Buffer → ℕ → Buffer
consume b n =
    let begin = b.readable_begin + min n (readable_size b) in
    if leb b.writable_begin begin
    then record b { readable_begin = 0; writable_begin = 0 }
    else record b { readable_begin = begin }

unfoldable pub shrink_if_wasteful : Buffer → ℕ → Run Buffer
unfolding relocate
shrink_if_wasteful b hard_min =
    if ltb (max hard_min (readable_size b * 4)) (capacity b)
    then relocate b (max hard_min (readable_size b * 2))
    else ok b

unfoldable pub push_placeholder : Buffer → Buffer
push_placeholder b = record b { placeholder_stack = b.writable_begin ∷ b.placeholder_stack }

unfoldable pub peek_placeholder : Buffer → Run ℕ
peek_placeholder b = elim b.placeholder_stack [ [] ↦ fault assert_failed | pos ∷ _ ↦ ok pos ]

unfoldable pub pop_placeholder : Buffer → Run (ℕ × Buffer)
pop_placeholder b = elim b.placeholder_stack [
  | [] ↦ fault assert_failed
  | pos ∷ rest ↦ ok (pos, record b { placeholder_stack = rest })
]

-- `memcpy(&buf.buf[pos], …)`, which fills a placeholder
unfoldable pub write_at : Buffer → ℕ → List ℕ → Run Buffer
unfolding write_range
write_at b pos bytes = do written ← write_range b.buf pos bytes; ok (record b { buf = written })
