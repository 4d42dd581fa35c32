-- ===== src/Response/Oversize.antt =====
-- A response that is too big is replaced by an error.
use byo_redis.Prelude.{
  ℕ, ◌+◌, ◌-◌, ◌≤◌, ◌≡◌, refl, ap, sym, ◌∙◌, List, [], ◌∷◌, ◌++◌, All, map, length, length-append,
  take, arith,
}
use mathlib.Core.List.{append_assoc}
use byo_redis.Prelude.Run.{Returns}
use byo_redis.Prelude.Slices.{take-take, take-append_left}
use byo_redis.Buffer.{Buffer}
use byo_redis.Buffer.View.{content, marks, IsBuffer, Holds, length-content}
use byo_redis.Buffer.Writes.{pop_placeholder-Popped}
use byo_redis.Tlv.{err_too_big, u32_bytes}
use byo_redis.Tlv.Words.{length-u32_bytes}
use byo_redis.Tlv.Writers.{err, wire, out-Writes}
use byo_redis.Response.{too_big, reject_big}

-- no placeholder stands behind `n`
abbrev pub MarkedTo : ℕ → List ℕ → Type 0
MarkedTo n = All (λ m. m ≤ n)

pub marks-MarkedTo : (b : Buffer) → IsBuffer b → MarkedTo (length (content b)) (marks b)
unfolding marks
marks-MarkedTo b v = by_stack b.placeholder_stack v.marked
  where
    by_stack :
        (ps : List ℕ)
        → All (λ pos. (b.readable_begin ≤ pos) × (pos ≤ b.writable_begin)) ps
        → MarkedTo (length (content b)) (map (λ pos. pos - b.readable_begin) ps)
    by_stack [] h = tt
    by_stack (p ∷ ps) h = (omega (arith, h.0.0, h.0.1, length-content b v), by_stack ps h.1)

-- the bytes behind the first `n` are given up
truncate-Holds :
    (b : Buffer) (n : ℕ)
    → IsBuffer b
    → n ≤ length (content b)
    → MarkedTo n (marks b)
    → Holds (take n (content b)) (marks b) (record b { writable_begin = b.readable_begin + n })
unfolding content marks
truncate-Holds b n v le marked =
    let size = length-content b v in
    let shorter : b.readable_begin + n - b.readable_begin ≡ n = omega arith in
    record {
      valid = record {
        ordered = omega arith;
        fits = omega (arith, le, size, v.fits, v.ordered);
        marked = by_stack b.placeholder_stack v.marked marked;
      };
      bytes_eq = rw shorter (
          sym (
            take-take n (b.writable_begin - b.readable_begin) _
              (omega (arith, le, size, v.ordered))));
      marks_eq = refl;
    }
  where
    by_stack :
        (ps : List ℕ)
        → All (λ pos. (b.readable_begin ≤ pos) × (pos ≤ b.writable_begin)) ps
        → MarkedTo n (map (λ pos. pos - b.readable_begin) ps)
        → All (λ pos. (b.readable_begin ≤ pos) × (pos ≤ b.readable_begin + n)) ps
    by_stack [] h k = tt
    by_stack (p ∷ ps) h k = ((h.0.0, omega (arith, h.0.0, k.0)), by_stack ps h.1 k.1)

MarkedTo-more : (n : ℕ) (ms : List ℕ) → MarkedTo n ms → MarkedTo (n + 4) ms
MarkedTo-more n [] h = tt
MarkedTo-more n (m ∷ ms) h = (omega (arith, h.0), MarkedTo-more n ms h.1)

-- the error in place of the payload
abbrev pub too_big_reply : List ℕ
too_big_reply = wire (err err_too_big too_big)

pub reject_big-Holds :
    (b : Buffer) (pre ds ms : List ℕ)
    → Holds (pre ++ (u32_bytes 0 ++ ds)) (length pre ∷ ms) b
    → MarkedTo (length pre) ms
    → Returns (reject_big b) (Holds (pre ++ (u32_bytes 0 ++ too_big_reply)) (length pre ∷ ms))
unfolding reject_big
reject_big-Holds b pre ds ms h marked =
    let peeked = (pop_placeholder-Popped b (length pre) ms h.valid h.marks_eq).1 in
    let n = length pre + 4 in
    let front : length (pre ++ u32_bytes 0) ≡ n =
      omega (arith, length-append pre (u32_bytes 0), length-u32_bytes 0) in
    let whole : content b ≡ (pre ++ u32_bytes 0) ++ ds =
      h.bytes_eq ∙ sym (append_assoc pre (u32_bytes 0) ds) in
    let room : n ≤ length (content b) =
      omega (arith, front, ap length whole, length-append (pre ++ u32_bytes 0) ds) in
    let all : MarkedTo n (marks b) =
      rw h.marks_eq (omega arith, MarkedTo-more (length pre) ms marked) in
    let cut = truncate-Holds b n h.valid room all in
    let kept : take n (content b) ≡ pre ++ u32_bytes 0 =
      rw (whole, ← front) (take-append_left (pre ++ u32_bytes 0) ds) in
    let (c, run, k) =
      (out-Writes (err err_too_big too_big)).on (record b { writable_begin = b.readable_begin + n })
        cut.valid in
    let there : b.readable_begin + length pre + 4 ≡ b.readable_begin + n = omega arith in
    (
      c,
      rw (peeked, there) run,
      record {
        valid = k.valid;
        bytes_eq =
            k.bytes_eq
            ∙ ap (λ l. l ++ too_big_reply) (cut.bytes_eq ∙ kept)
            ∙ append_assoc pre (u32_bytes 0) too_big_reply;
        marks_eq = k.marks_eq ∙ cut.marks_eq ∙ h.marks_eq;
      },
    )
