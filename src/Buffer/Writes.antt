-- ===== src/Buffer/Writes.antt =====
-- `append`, `consume` and the placeholders: the calls that change what a buffer holds.
use byo_redis.Prelude.{
  ℕ, ◌+◌, ◌-◌, ◌≤◌, ◌≡◌, refl, sym, ◌∙◌, ap, min, List, [], ◌∷◌, ◌++◌, map, length, take, drop, All,
  arith, leb, Bool-cases, inl, inr,
}
use byo_redis.Prelude.Run.{ok, Returns, ◌>>=◌}
use byo_redis.Prelude.Slices.{
  patch, slice-append, slice-patch, length-patch, drop-take, drop-drop, drop_all,
}
use byo_redis.Buffer.{
  Buffer, new, capacity, readable_size, append, consume, push_placeholder, pop_placeholder,
  peek_placeholder, write_at,
}
use byo_redis.Buffer.View.{content, marks, IsBuffer, Holds, length-content}
use byo_redis.Buffer.Moves.{write_range-ok, ensure_writable-Ensured}

-- A new buffer holds no byte and no placeholder.
pub new-Holds : (init_cap : ℕ) → Holds [] [] (new init_cap)
unfolding new content marks
new-Holds n = record {
  valid = record { ordered = omega arith; fits = omega arith; marked = tt };
  bytes_eq = refl;
  marks_eq = refl;
}

write-Holds :
    (c : Buffer) (ds : List ℕ)
    → IsBuffer c
    → c.writable_begin + length ds ≤ capacity c
    → Holds (content c ++ ds) (marks c) (record c {
      buf = patch c.buf c.writable_begin ds;
      writable_begin = c.writable_begin + length ds;
    })
unfolding content marks patch
write-Holds c ds v h = record {
  valid = record {
    ordered = omega arith;
    fits = omega (arith, length-patch c.buf c.writable_begin ds h);
    marked = All-weaken c.placeholder_stack v.marked;
  };
  bytes_eq =
      slice-append c.buf ds (drop (c.writable_begin + length ds) c.buf) c.readable_begin
        c.writable_begin v.ordered v.fits;
  marks_eq = refl;
}
  where
    All-weaken :
        (ps : List ℕ)
        → All (λ pos. (c.readable_begin ≤ pos) × (pos ≤ c.writable_begin)) ps
        → All (λ pos. (c.readable_begin ≤ pos) × (pos ≤ c.writable_begin + length ds)) ps
    All-weaken [] a = tt
    All-weaken (p ∷ ps) a = ((omega arith, omega arith), All-weaken ps a.1)

-- On a well-formed buffer `append` succeeds, whatever room is left, and puts the bytes behind
-- those that the buffer holds; the placeholders keep their places in the text.
pub append-Holds :
    (b : Buffer) (ds : List ℕ)
    → IsBuffer b
    → Returns (append b ds) (Holds (content b ++ ds) (marks b))
unfolding append
append-Holds b ds v =
    let (c, run, e) = ensure_writable-Ensured b (length ds) v in
    let room = e.room in
    let w = write-Holds c ds e.same.valid (omega arith) in
    (
      record c {
        buf = patch c.buf c.writable_begin ds;
        writable_begin = c.writable_begin + length ds;
      },
      rw (run, ◌>>=◌, write_range-ok c.buf c.writable_begin ds (omega arith)),
      rw (← e.same.bytes_eq, ← e.same.marks_eq) w,
    )

-- On a well-formed buffer with no placeholder `consume` drops bytes at the front, all of them if it
-- is asked for more than there are, and leaves a well-formed buffer with no placeholder.
pub consume-Holds :
    (b : Buffer) (n : ℕ)
    → IsBuffer b
    → b.placeholder_stack ≡ []
    → Holds (drop n (content b)) [] (consume b n)
unfolding consume content marks
consume-Holds b n v idle =
    let k = min n (readable_size b) in
    let size = length-content b v in
    elim (Bool-cases (leb b.writable_begin (b.readable_begin + k))) [
      | inl all ↦ rw all (record {
        valid = record { ordered = omega arith; fits = omega arith; marked = rw idle tt };
        bytes_eq = sym (drop_all n (content b) (ground arith));
        marks_eq = rw idle;
      })
      | inr part ↦
          let e : k ≡ n = ground arith in
          let left : b.writable_begin - (b.readable_begin + n) ≡ readable_size b - n =
            omega arith in
          rw part (record {
            valid = record { ordered = ground arith; fits = omega arith; marked = rw idle tt };
            bytes_eq =
                rw (e, left)
                  (sym (
                    drop-take n (readable_size b) (drop b.readable_begin b.buf)
                    ∙ ap (take (readable_size b - n)) (drop-drop n b.readable_begin b.buf)));
            marks_eq = rw idle;
          })
    ]

-- A placeholder is pushed at the end of the text.
pub push_placeholder-Holds :
    (b : Buffer)
    → IsBuffer b
    → Holds (content b) (length (content b) ∷ marks b) (push_placeholder b)
unfolding push_placeholder content marks
push_placeholder-Holds b v = record {
  valid = record {
    ordered = v.ordered;
    fits = v.fits;
    marked = ((v.ordered, omega arith), v.marked);
  };
  bytes_eq = refl;
  marks_eq = ap (λ n. n ∷ marks b) (sym (length-content b v));
}

-- what `pop_placeholder` and `peek_placeholder` give: the position of the last mark
pub record Popped (b : Buffer) (m : ℕ) (ms : List ℕ) (r : ℕ × Buffer) : Type 0 where
  pub same : Holds (content b) ms r.1
  pub position : r.0 ≡ b.readable_begin + m
  pub begin : r.1.readable_begin ≡ b.readable_begin
  pub ends : r.1.writable_begin ≡ b.writable_begin

pub pop_placeholder-Popped :
    (b : Buffer) (m : ℕ) (ms : List ℕ)
    → IsBuffer b
    → marks b ≡ m ∷ ms
    → Returns (pop_placeholder b) (Popped b m ms) × (peek_placeholder b ≡ ok (b.readable_begin + m))
unfolding pop_placeholder peek_placeholder content marks
pop_placeholder-Popped b m ms v e = go b.placeholder_stack refl
  where
    go :
        (ps : List ℕ)
        → b.placeholder_stack ≡ ps
        → Returns (pop_placeholder b) (Popped b m ms)
          × (peek_placeholder b ≡ ok (b.readable_begin + m))
    go [] q = absurd (ground arith)
    go (p ∷ ps) q =
        let dist = λ (pos : ℕ). pos - b.readable_begin in
        let e' : (p - b.readable_begin) ∷ map dist ps ≡ m ∷ ms = rw q at e in
        let all : All (λ pos. (b.readable_begin ≤ pos) × (pos ≤ b.writable_begin)) (p ∷ ps) =
          rw q at v.marked in
        let low : b.readable_begin ≤ p = all.0.0 in
        let at : p ≡ b.readable_begin + m = ground arith in
        (
          (
            (p, record b { placeholder_stack = ps }),
            rw q,
            record {
              same = record {
                valid = record { ordered = v.ordered; fits = v.fits; marked = all.1 };
                bytes_eq = refl;
                marks_eq = cc;
              };
              position = at;
              begin = refl;
              ends = refl;
            },
          ),
          rw (q, at),
        )

-- On a well-formed buffer a write over bytes that the buffer holds changes those bytes and nothing
-- else.
pub write_at-Holds :
    (b : Buffer) (m : ℕ) (ds : List ℕ)
    → IsBuffer b
    → m + length ds ≤ length (content b)
    → Returns (write_at b (b.readable_begin + m) ds) (λ c.
      Holds (patch (content b) m ds) (marks b) c
      × (c.readable_begin ≡ b.readable_begin)
      × (c.writable_begin ≡ b.writable_begin))
unfolding write_at content marks
write_at-Holds b m ds v h =
    let size = length-content b v in
    let off = b.readable_begin + m in
    let inside : off + length ds ≤ length b.buf = omega arith in
    let back : off - b.readable_begin ≡ m = omega arith in
    (
      record b { buf = patch b.buf off ds },
      rw (write_range-ok b.buf off ds inside),
      (
        record {
          valid = record {
            ordered = v.ordered;
            fits = omega (arith, length-patch b.buf off ds inside);
            marked = v.marked;
          };
          bytes_eq = rw (
            slice-patch b.buf ds b.readable_begin b.writable_begin off (omega arith) (omega arith)
                v.fits,
            back,
          );
          marks_eq = refl;
        },
        refl,
        refl,
      ),
    )
