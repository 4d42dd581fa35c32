-- ===== src/Tests/Buffers.antt =====
-- Tests of include/byoredis/proto/buffer.hh, src/proto/buffer.cc and src/proto/tlv.cc.
use byo_redis.Prelude.{List, [], ◌∷◌, ◌++◌, arith}
use byo_redis.Prelude.Run.{◌>>=◌, Returns}
use byo_redis.Buffer.{Buffer, append, ensure_writable, shrink_if_wasteful}
use byo_redis.Buffer.View.{content, marks, IsBuffer, Holds}
use byo_redis.Buffer.Moves.{Ensured, ensure_writable-Ensured, Shrunk, shrink_if_wasteful-Shrunk}
use byo_redis.Buffer.Writes.{append-Holds}
use byo_redis.Tlv.{tag_arr, u32_bytes, out_begin_arr, out_end_arr}
use byo_redis.Tlv.Writers.{Reply, nil, str, wires, out_all}
use byo_redis.Tlv.Arrays.{array-Holds}

-- four bytes, of which the first is read, and a placeholder at the last
abbrev three_bytes : Buffer
three_bytes = record {
  buf = 9 ∷ 1 ∷ 2 ∷ 3 ∷ [];
  readable_begin = 1;
  writable_begin = 4;
  placeholder_stack = 3 ∷ [];
}

abbrev three_bytes-IsBuffer : IsBuffer three_bytes
three_bytes-IsBuffer = record {
  ordered = omega arith;
  fits = omega arith;
  marked = ((omega arith, omega arith), tt);
}

-- sixteen bytes of room for two
abbrev wasteful : Buffer
wasteful = record {
  buf = 7 ∷ 8 ∷ 0 ∷ 0 ∷ 0 ∷ 0 ∷ 0 ∷ 0 ∷ 0 ∷ 0 ∷ 0 ∷ 0 ∷ 0 ∷ 0 ∷ 0 ∷ 0 ∷ [];
  readable_begin = 0;
  writable_begin = 2;
  placeholder_stack = [];
}

abbrev wasteful-IsBuffer : IsBuffer wasteful
wasteful-IsBuffer = record { ordered = omega arith; fits = omega arith; marked = tt }

append-Holds_example :
    Returns
      (append three_bytes (4 ∷ 5 ∷ []))
      (Holds (content three_bytes ++ (4 ∷ 5 ∷ [])) (marks three_bytes))
append-Holds_example = append-Holds three_bytes (4 ∷ 5 ∷ []) three_bytes-IsBuffer

ensure_writable-Ensured_example : Returns (ensure_writable three_bytes 1) (Ensured three_bytes 1)
ensure_writable-Ensured_example = ensure_writable-Ensured three_bytes 1 three_bytes-IsBuffer

shrink_if_wasteful-Shrunk_example : Returns (shrink_if_wasteful wasteful 4) (Shrunk wasteful 4)
shrink_if_wasteful-Shrunk_example = shrink_if_wasteful-Shrunk wasteful 4 wasteful-IsBuffer

abbrev replies : List Reply
replies = str (104 ∷ 105 ∷ []) ∷ nil ∷ []

array-Holds_example :
    Returns (out_begin_arr three_bytes >>= out_all replies >>= λ c. out_end_arr c 2) (
      Holds (content three_bytes ++ (tag_arr ∷ (u32_bytes 2 ++ wires replies))) (marks three_bytes))
array-Holds_example = array-Holds replies three_bytes three_bytes-IsBuffer
