-- ===== src/Connection/Writing.antt =====
-- handle_write keeps what the connection waits for in step with what it has to send.
use byo_redis.Prelude.{
  ℕ, ◌-◌, ◌<◌, ◌^◌, ◌≡◌, refl, ap, sym, ◌∙◌, inl, inr, Bool, true, if◌then◌else◌, false, not,
  Bool-cases, List, [], ◌∷◌, length, map, drop, ==_iff, lt→ltb, ◌==◌, arith,
}
use byo_redis.Prelude.Run.{Run, ok, Returns}
use byo_redis.Buffer.{Buffer, readable_size, consume}
use byo_redis.Buffer.View.{content, marks, IsBuffer, length-content}
use byo_redis.Buffer.Writes.{consume-Holds}
use byo_redis.Buffer.Moves.{shrink_if_wasteful-Shrunk}
use byo_redis.Connection.{
  PolledConn, Sent, write_again, write_failed, wrote, epoll_update_interest, close_later,
  with_outgoing, after_write, handle_write,
}

-- nothing is to be sent, and the connection reads, or something is, and it writes
pub record IsReady (c : PolledConn) : Type 0 where
  pub valid : IsBuffer c.conn.outgoing
  pub idle : c.conn.outgoing.placeholder_stack ≡ []
  pub reads : c.want_read ≡ (readable_size c.conn.outgoing == 0)
  pub writes : c.want_write ≡ not (readable_size c.conn.outgoing == 0)

abbrev pub sent_size : Sent → ℕ
sent_size write_again = 0
sent_size write_failed = 0
sent_size (wrote n) = n

-- write() failed, and not only because the socket was not ready
abbrev pub is_failed : Sent → Bool
is_failed write_again = false
is_failed write_failed = true
is_failed (wrote n) = false

-- What was not sent is kept, and the requests; the connection is to be closed after a failure, and only
-- then; else it is ready, and known to epoll as such.
pub record Written (sent : Sent) (c c' : PolledConn) : Type 0 where
  pub bytes : content c'.conn.outgoing ≡ drop (sent_size sent) (content c.conn.outgoing)
  pub requests : c'.conn.incoming ≡ c.conn.incoming
  pub closes : c'.conn.want_close ≡ (if is_failed sent then true else c.conn.want_close)
  pub ready : is_failed sent ≡ false → IsReady c'
  pub registers : is_failed sent ≡ false → c'.registered ≡ (c'.want_read, c'.want_write)

marks-stack : (b : Buffer) → marks b ≡ [] → b.placeholder_stack ≡ []
unfolding marks
marks-stack b h = by_stack (λ pos. pos - b.readable_begin) b.placeholder_stack h
  where
    by_stack : (f : ℕ → ℕ) (ms : List ℕ) → map f ms ≡ [] → ms ≡ []
    by_stack f [] e = refl
    by_stack f (m ∷ ms) e = cc

not_zero : (n : ℕ) → 0 < n → (n == 0) ≡ false
not_zero n h = ground arith

after_write-Written :
    (c : PolledConn) (n : ℕ)
    → IsReady c
    → 0 < readable_size c.conn.outgoing
    → Returns (after_write c n) (Written (wrote n) c)
unfolding after_write
after_write-Written c n v more =
    let pending : (readable_size c.conn.outgoing == 0) ≡ false =
      not_zero (readable_size c.conn.outgoing) more in
    let left = consume c.conn.outgoing n in
    let h = consume-Holds c.conn.outgoing n v.valid v.idle in
    let (b, run, k) = shrink_if_wasteful-Shrunk left (2 ^ 20) h.valid in
    elim (Bool-cases (readable_size left == 0)) [
      | inl e ↦
          let zero_left : (readable_size b == 0) ≡ true = (==_iff (readable_size b) 0).1 (
            omega (
              arith,
              (==_iff (readable_size left) 0).0 e,
              length-content b k.same.valid,
              length-content left h.valid,
              ap length k.same.bytes_eq,
            )) in
          rw (e, run)
            (
              epoll_update_interest
                  (record (with_outgoing c b) { want_read = true; want_write = false }),
              refl,
              record {
                bytes = k.same.bytes_eq ∙ h.bytes_eq;
                requests = refl;
                closes = refl;
                ready = λ f. record {
                  valid = k.same.valid;
                  idle = marks-stack b (k.same.marks_eq ∙ h.marks_eq);
                  reads = sym zero_left;
                  writes = sym (ap not zero_left);
                };
                registers = λ f. refl;
              },
            )
      | inr e ↦ rw e (
        epoll_update_interest (with_outgoing c left),
        refl,
        record {
          bytes = h.bytes_eq;
          requests = refl;
          closes = refl;
          ready = λ f. record {
            valid = h.valid;
            idle = marks-stack left h.marks_eq;
            reads = v.reads ∙ pending ∙ sym e;
            writes = v.writes ∙ ap not (pending ∙ sym e);
          };
          registers = λ f. refl;
        },
      )
    ]

-- When a connection that is ready has something to send, handle_write succeeds whatever write()
-- returns. The bytes that were taken are gone from the front, the others are kept, and the incoming
-- buffer is as it was. After an error want_close is set; after EAGAIN, or when bytes were taken, it is what it
-- was, the connection waits to write if something is left to send and to read if nothing is, and
-- epoll is told so.
pub handle_write-Written :
    (sent : Sent) (c : PolledConn)
    → IsReady c
    → 0 < readable_size c.conn.outgoing
    → Returns (handle_write sent c) (Written sent c)
unfolding handle_write after_write
handle_write-Written sent c v more =
    rw (lt→ltb 0 (readable_size c.conn.outgoing) more) (by_result sent)
  where
    by_result :
        (s : Sent)
        → Returns
            (elim s as (λ x. Run PolledConn) [
              | write_again ↦ ok (epoll_update_interest c)
              | write_failed ↦ ok (close_later c)
              | wrote n ↦ after_write c n
            ])
            (Written s c)
    by_result write_again = (
      epoll_update_interest c,
      refl,
      record {
        bytes = refl;
        requests = refl;
        closes = refl;
        ready = λ f. record { valid = v.valid; idle = v.idle; reads = v.reads; writes = v.writes };
        registers = λ f. refl;
      },
    )
    by_result write_failed = (
      close_later c,
      refl,
      record { bytes = refl; requests = refl; closes = refl; ready = λ f. cc; registers = λ f. cc },
    )
    by_result (wrote n) = after_write-Written c n v more
