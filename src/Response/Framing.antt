-- ===== src/Response/Framing.antt =====
-- A response in the outgoing buffer is its length and its payload.
use mathlib.Core.List.{append_assoc}
use native.Mathlib.Nat.{mod-eq_of_lt}
use byo_redis.Prelude.{
  ℕ, ◌+◌, ◌%◌, ◌^◌, ◌≤◌, ◌≡◌, ap, sym, ◌∙◌, Bool-cases, inl, inr, if◌then◌else◌, false, List, ◌∷◌,
  ◌++◌, length, arith, ltb, length-append,
}
use byo_redis.Prelude.Run.{Run, ok, Returns, ◌>>=◌}
use byo_redis.Buffer.{Buffer, push_placeholder, pop_placeholder, write_at}
use byo_redis.Buffer.View.{content, marks, IsBuffer, Holds, length-content}
use byo_redis.Buffer.Writes.{append-Holds, push_placeholder-Holds, pop_placeholder-Popped}
use byo_redis.Tlv.{k_max_msg, u32_bytes, buf_append_u32}
use byo_redis.Tlv.Words.{length-u32_bytes}
use byo_redis.Tlv.Writers.{Reply, wire, wires, out_all, out_all-Writes}
use byo_redis.Tlv.Arrays.{fill-Holds}
use byo_redis.Response.Oversize.{MarkedTo, marks-MarkedTo, too_big_reply, reject_big-Holds}
use byo_redis.Response.{response_begin, response_size, response_end}

-- `response_size` is the number of bytes behind the header
size-ok :
    (b : Buffer) (pre ds ms : List ℕ)
    → Holds (pre ++ (u32_bytes 0 ++ ds)) (length pre ∷ ms) b
    → response_size b ≡ ok (length ds)
unfolding response_size
size-ok b pre ds ms h =
    let peeked = (pop_placeholder-Popped b (length pre) ms h.valid h.marks_eq).1 in
    let size = length-content b h.valid in
    let all : length (content b) ≡ length pre + (4 + length ds) =
      ap length h.bytes_eq
      ∙ omega (
        arith,
        length-append pre (u32_bytes 0 ++ ds),
        length-append (u32_bytes 0) ds,
        length-u32_bytes 0,
      ) in
    let ordered = h.valid.ordered in rw peeked (ap ok (omega arith))

-- the end of response_end: the length is filled in
fill_length : Buffer → Run Buffer
fill_length b = do
  len ← response_size b
  popped ← pop_placeholder b
  write_at (popped.1) (popped.0) (u32_bytes (len % 2 ^ 32))

fill_length-Holds :
    (b : Buffer) (pre ds ms : List ℕ)
    → Holds (pre ++ (u32_bytes 0 ++ ds)) (length pre ∷ ms) b
    → length ds ≤ k_max_msg
    → Returns (fill_length b) (Holds (pre ++ (u32_bytes (length ds) ++ ds)) ms)
unfolding fill_length
fill_length-Holds b pre ds ms h few =
    let size = size-ok b pre ds ms h in
    let ((pos, c), run, p) = (pop_placeholder-Popped b (length pre) ms h.valid h.marks_eq).0 in
    let c-Holds : Holds (pre ++ (u32_bytes 0 ++ ds)) ms c = record {
      valid = p.same.valid;
      bytes_eq = p.same.bytes_eq ∙ h.bytes_eq;
      marks_eq = p.same.marks_eq;
    } in
    let (d, run', k) =
      fill-Holds c pre (u32_bytes 0) (u32_bytes (length ds)) ds ms c-Holds
        (length-u32_bytes 0 ∙ sym (length-u32_bytes (length ds))) in
    let there : pos ≡ c.readable_begin + length pre = omega (arith, p.position, p.begin) in
    let word : length ds % 2 ^ 32 ≡ length ds = mod-eq_of_lt (omega arith) in
    (d, rw (size, run, word, there) run', k.0)

-- response_end on a payload of allowed size
pub end-Holds :
    (b : Buffer) (pre ds ms : List ℕ)
    → Holds (pre ++ (u32_bytes 0 ++ ds)) (length pre ∷ ms) b
    → length ds ≤ k_max_msg
    → Returns (response_end b) (Holds (pre ++ (u32_bytes (length ds) ++ ds)) ms)
unfolding response_end fill_length
end-Holds b pre ds ms h few =
    let small : ltb k_max_msg (length ds) ≡ false = ground arith in
    rw (size-ok b pre ds ms h, small) (fill_length-Holds b pre ds ms h few)

-- a payload as response_end leaves it
abbrev pub limited : List ℕ → List ℕ
limited ds = if ltb k_max_msg (length ds) then too_big_reply else ds

-- response_end on any payload
limit-Holds :
    (b : Buffer) (pre ds ms : List ℕ)
    → Holds (pre ++ (u32_bytes 0 ++ ds)) (length pre ∷ ms) b
    → MarkedTo (length pre) ms
    → Returns (response_end b) (Holds (pre ++ (u32_bytes (length (limited ds)) ++ limited ds)) ms)
unfolding response_end fill_length wire u32_bytes
limit-Holds b pre ds ms h marked = elim (Bool-cases (ltb k_max_msg (length ds))) [
  | inl big ↦
      let (c, run, k) = reject_big-Holds b pre ds ms h marked in
      rw (size-ok b pre ds ms h, big, run)
        (fill_length-Holds c pre too_big_reply ms k (omega arith))
  | inr small ↦ rw small (end-Holds b pre ds ms h (ltb_false (length ds) small))
]
  where
    ltb_false : (n : ℕ) → ltb k_max_msg n ≡ false → n ≤ k_max_msg
    ltb_false n e = ground arith

-- response_begin, the writers of the replies, and response_end succeed on every well-formed buffer.
-- What the buffer held before is kept, and behind it stand a length in four bytes and so many bytes: those of
-- the replies if they are at most k_max_msg, and else those of the error "response too big" alone.
pub response-Holds :
    (rs : List Reply) (b : Buffer)
    → IsBuffer b
    → Returns (response_begin b >>= out_all rs >>= response_end) (
        Holds
          (content b ++ (u32_bytes (length (limited (wires rs))) ++ limited (wires rs)))
          (marks b))
unfolding response_begin buf_append_u32
response-Holds rs b v =
    let p = push_placeholder-Holds b v in
    let (d, run, k) = append-Holds (push_placeholder b) (u32_bytes 0) p.valid in
    let (e, run', l) = (out_all-Writes rs).on d k.valid in
    let bytes : content e ≡ content b ++ (u32_bytes 0 ++ wires rs) =
      l.bytes_eq
      ∙ ap (λ bs. bs ++ wires rs) (k.bytes_eq ∙ ap (λ bs. bs ++ u32_bytes 0) p.bytes_eq)
      ∙ append_assoc (content b) (u32_bytes 0) (wires rs) in
    let ms : marks e ≡ length (content b) ∷ marks b = l.marks_eq ∙ k.marks_eq ∙ p.marks_eq in
    let (g, last, m) =
      limit-Holds e (content b) (wires rs) (marks b)
        (record { valid = l.valid; bytes_eq = bytes; marks_eq = ms }) (marks-MarkedTo b v) in
    (g, rw (run, run') last, m)
