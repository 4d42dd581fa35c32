-- ===== src/Buffer/Moves.antt =====
-- `ensure_writable` and `shrink_if_wasteful`: they move the readable bytes and keep them.
use byo_redis.Prelude.{
  ℕ, ◌+◌, ◌-◌, ◌*◌, ◌≤◌, ◌≡◌, refl, ◌∙◌, max, List, [], ◌∷◌, map, length, take, drop, replicate,
  All, arith, leb, ltb, length-replicate,
}
use byo_redis.Prelude.Run.{ok, Returns, Returns-if, Returns-map}
use byo_redis.Prelude.Slices.{patch, length-patch, take-append_left}
use byo_redis.Buffer.{
  Buffer, capacity, readable_size, writable_size, read_range, write_range, shift_placeholders,
  move_front, relocate, ensure_writable, shrink_if_wasteful,
}
use byo_redis.Buffer.View.{content, marks, IsBuffer, Holds, length-content}

pub read_range-ok :
    (buf : List ℕ) (off n : ℕ)
    → off + n ≤ length buf
    → read_range buf off n ≡ ok (take n (drop off buf))
unfolding read_range
read_range-ok buf off n h = ground arith

pub write_range-ok :
    (buf : List ℕ) (off : ℕ) (ds : List ℕ)
    → off + length ds ≤ length buf
    → write_range buf off ds ≡ ok (patch buf off ds)
unfolding write_range
write_range-ok buf off ds h = ground arith

-- behind a move to the front a placeholder has its distance for its position
shift_placeholders-marks :
    (rb wb : ℕ) (ps : List ℕ)
    → All (λ pos. (rb ≤ pos) × (pos ≤ wb)) ps
    → (map (λ pos. pos - 0) (shift_placeholders rb ps) ≡ map (λ pos. pos - rb) ps)
      × All (λ pos. (0 ≤ pos) × (pos ≤ wb - rb)) (shift_placeholders rb ps)
unfolding shift_placeholders
shift_placeholders-marks rb wb [] h = (refl, tt)
shift_placeholders-marks rb wb (p ∷ ps) h =
    let ih = shift_placeholders-marks rb wb ps h.1 in (ground (arith, ih.0), (ground arith, ih.1))

-- the unread bytes of `b` at the front of an array `room`, and the placeholders shifted
abbrev moved : Buffer → List ℕ → Buffer
moved b room = record {
  buf = patch room 0 (content b);
  readable_begin = 0;
  writable_begin = readable_size b;
  placeholder_stack = shift_placeholders b.readable_begin b.placeholder_stack;
}

-- the bytes of `b` stand at the front of `cap` bytes
pub record Moved (b : Buffer) (cap : ℕ) (c : Buffer) : Type 0 where
  pub same : Holds (content b) (marks b) c
  pub ends : c.writable_begin ≡ readable_size b
  pub capacity_eq : capacity c ≡ cap

moved-Holds :
    (b : Buffer) (room : List ℕ)
    → IsBuffer b
    → readable_size b ≤ length room
    → Holds (content b) (marks b) (moved b room)
unfolding marks patch content
moved-Holds b room v h =
    let ms =
      shift_placeholders-marks b.readable_begin b.writable_begin b.placeholder_stack v.marked in
    let exact : readable_size b - 0 ≡ length (content b) = omega (arith, length-content b v) in
    record {
      valid = record {
        ordered = omega arith;
        fits = omega (arith, length-patch room 0 (content b), length-content b v);
        marked = ms.1;
      };
      bytes_eq = rw exact (take-append_left (content b) (drop (0 + length (content b)) room));
      marks_eq = ms.0;
    }

move_front-Holds : (b : Buffer) → IsBuffer b → Returns (move_front b) (Moved b (capacity b))
unfolding move_front content
move_front-Holds b v =
    let n = readable_size b in
    let size = length-content b v in
    (
      moved b b.buf,
      rw (
        read_range-ok b.buf b.readable_begin n (omega arith),
        write_range-ok b.buf 0 (content b) (omega arith),
      ),
      record {
        same = moved-Holds b b.buf v (omega arith);
        ends = refl;
        capacity_eq = length-patch b.buf 0 (content b) (omega arith);
      },
    )

pub relocate-Holds :
    (b : Buffer) (new_cap : ℕ)
    → IsBuffer b
    → readable_size b ≤ new_cap
    → Returns (relocate b new_cap) (Moved b new_cap)
unfolding relocate content
relocate-Holds b new_cap v h =
    let n = readable_size b in
    let size = length-content b v in
    let room = length-replicate {A = ℕ} new_cap 0 in
    (
      moved b (replicate new_cap 0),
      rw (
        read_range-ok b.buf b.readable_begin n (omega arith),
        write_range-ok (replicate new_cap 0) 0 (content b) (omega arith),
      ),
      record {
        same = moved-Holds b (replicate new_cap 0) v (omega arith);
        ends = refl;
        capacity_eq = length-patch (replicate new_cap 0) 0 (content b) (omega arith) ∙ room;
      },
    )

-- the room that a call asked for, and nothing else changed
pub record Ensured (b : Buffer) (ensure_size : ℕ) (c : Buffer) : Type 0 where
  pub same : Holds (content b) (marks b) c
  pub room : ensure_size ≤ writable_size c
  pub kept : capacity b ≤ capacity c

-- On a well-formed buffer `ensure_writable` succeeds on every branch, makes the room, and keeps the
-- bytes and the marks.
pub ensure_writable-Ensured :
    (b : Buffer) (ensure_size : ℕ)
    → IsBuffer b
    → Returns (ensure_writable b ensure_size) (Ensured b ensure_size)
unfolding ensure_writable
ensure_writable-Ensured b n v =
    Returns-if (leb n (writable_size b))
      (λ e. (
        b,
        refl,
        record {
          same = record { valid = v; bytes_eq = refl; marks_eq = refl };
          room = ground arith;
          kept = omega arith;
        },
      ))
      λ _.
        Returns-if (leb n (b.readable_begin + writable_size b))
          (λ e.
            Returns-map (move_front-Holds b v)
              λ c m. record { same = m.same; room = ground arith; kept = ground arith })
          (λ e.
            Returns-map
              (relocate-Holds b (max (capacity b * 2) (readable_size b + n)) v (omega arith))
              λ c m. record { same = m.same; room = ground arith; kept = ground arith })

-- the result of `shrink_if_wasteful`: no more room than was there
pub record Shrunk (b : Buffer) (hard_min : ℕ) (c : Buffer) : Type 0 where
  pub same : Holds (content b) (marks b) c
  pub kept : capacity c ≤ capacity b
  pub bounded : capacity c ≤ max hard_min (readable_size b * 4)

-- On a well-formed buffer `shrink_if_wasteful` succeeds on both branches and keeps the bytes and
-- the marks; the capacity never grows, and ends at most at the larger of `hard_min` and four times
-- the unread bytes.
pub shrink_if_wasteful-Shrunk :
    (b : Buffer) (hard_min : ℕ)
    → IsBuffer b
    → Returns (shrink_if_wasteful b hard_min) (Shrunk b hard_min)
unfolding shrink_if_wasteful
shrink_if_wasteful-Shrunk b k v =
    Returns-if (ltb (max k (readable_size b * 4)) (capacity b))
      (λ e.
        Returns-map (relocate-Holds b (max k (readable_size b * 2)) v (omega arith))
          λ c m. record { same = m.same; kept = ground arith; bounded = ground arith })
      (λ e. (
        b,
        refl,
        record {
          same = record { valid = v; bytes_eq = refl; marks_eq = refl };
          kept = omega arith;
          bounded = ground arith;
        },
      ))
