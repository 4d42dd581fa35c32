-- ===== src/Buffer/View.antt =====
-- What a buffer means: the bytes that it holds and the distances of its placeholders from the
-- first of them. The capacity, the garbage around the readable range and its place are forgotten.
use byo_redis.Prelude.{ℕ, ◌-◌, ◌≤◌, ◌≡◌, List, map, length, All}
use byo_redis.Prelude.Slices.{slice, length-slice}
use byo_redis.Buffer.{Buffer, readable_size, capacity}

-- the readable bytes
unfoldable pub content : Buffer → List ℕ
content b = slice b.buf b.readable_begin b.writable_begin

-- the offset of each placeholder in the readable bytes
unfoldable pub marks : Buffer → List ℕ
marks b = map (λ pos. pos - b.readable_begin) b.placeholder_stack

pub record IsBuffer (b : Buffer) : Type 0 where
  pub ordered : b.readable_begin ≤ b.writable_begin
  pub fits : b.writable_begin ≤ capacity b
  pub marked : All (λ pos. (b.readable_begin ≤ pos) × (pos ≤ b.writable_begin)) b.placeholder_stack

-- `b` is well formed, holds the bytes `bytes`, and its placeholders stand at `ms`
pub record Holds (bytes ms : List ℕ) (b : Buffer) : Type 0 where
  pub valid : IsBuffer b
  pub bytes_eq : content b ≡ bytes
  pub marks_eq : marks b ≡ ms

pub length-content : (b : Buffer) → IsBuffer b → length (content b) ≡ readable_size b
unfolding content
length-content b v = length-slice b.buf b.readable_begin b.writable_begin v.ordered v.fits
