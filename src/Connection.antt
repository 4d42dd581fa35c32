-- ===== src/Connection.antt =====
-- src/server/conn.cc, handle_read, handle_write and epoll_update_interest: the state machine of a
-- connection, which either reads requests or writes responses.
-- What read() and write() return is an argument. epoll is open, as main() makes sure before any
-- connection; `registered` is the interest that was last given to it, in EPOLLIN and EPOLLOUT.
-- try_process_one_request is in Response. The address of a connection, its place in fd2conn and its
-- idle timer are not part of the state.
pub mod Writing
use byo_redis.Prelude.{
  ℕ, zero, suc, ◌+◌, ◌*◌, ◌/◌, ◌^◌, Bool, true, false, ◌&&◌, not, List, [], ◌∷◌, Option, none, some,
  length, ltb, ◌==◌, if◌then◌else◌,
}
use byo_redis.Prelude.Run.{Run, ok, fault, assert_failed, out_of_fuel, ◌>>=◌, check}
use byo_redis.Buffer.{Buffer, readable_size, capacity, append, consume, shrink_if_wasteful}
use byo_redis.Response.{Conn, try_process_one_request}

-- a connection as the event loop sees it
pub record PolledConn : Type 0 where
  pub conn : Conn
  pub want_read : Bool
  pub want_write : Bool
  pub registered : Bool × Bool

-- the result of read(), of which 0 is the end of the file
pub data Received : Type 0 where
  read_again read_failed end_of_file : Received
  received : (bytes : List ℕ) → Received

-- the result of write()
pub data Sent : Type 0 where
  write_again write_failed : Sent
  wrote : (n : ℕ) → Sent

abbrev pub epoll_update_interest : PolledConn → PolledConn
epoll_update_interest c = record c { registered = (c.want_read, c.want_write) }

abbrev pub close_later : PolledConn → PolledConn
close_later c = record c { conn = record (c.conn) { want_close = true } }

abbrev pub with_outgoing : PolledConn → Buffer → PolledConn
with_outgoing c b = record c { conn = record (c.conn) { outgoing = b } }

-- the branch of handle_write in which data was written
unfoldable pub after_write : PolledConn → ℕ → Run PolledConn
after_write c n =
    let left = consume c.conn.outgoing n in
    let empty : Run PolledConn = do
      shrunk ← shrink_if_wasteful left (2 ^ 20)
      ok (
          epoll_update_interest
            (record (with_outgoing c shrunk) { want_read = true; want_write = false }))
    in if readable_size left == 0 then empty else ok (epoll_update_interest (with_outgoing c left))

unfoldable pub handle_write : Sent → PolledConn → Run PolledConn
handle_write sent c = check (ltb 0 (readable_size c.conn.outgoing)) assert_failed (elim sent [
  | write_again ↦ ok (epoll_update_interest c)
  | write_failed ↦ ok (close_later c)
  | wrote n ↦ after_write c n
])

module _ {ℓ} {D : Type ℓ} (run_command : List (List ℕ) → D → Buffer → Run (D × Buffer)) where
  -- `while (try_process_one_request(conn)) {}`, on fuel
  unfoldable pub process_all : ℕ → D → Conn → Run (D × Conn)
  process_all zero db conn = fault out_of_fuel
  process_all (suc k) db conn = do
    r ← try_process_one_request run_command db conn
    let more = process_all k (r.1) (r.2)
    if r.0 then more else ok (r.1, r.2)

  -- what handle_read does with the incoming buffer behind the loop
  abbrev shrink_incoming : Buffer → Run Buffer
  shrink_incoming b =
      let unread = readable_size b in
      if unread == 0
      then shrink_if_wasteful b 4096
      else if ltb (2 ^ 20) (capacity b) && ltb unread (capacity b / 8) && ltb unread 4096
      then shrink_if_wasteful b 4096
      else ok b

  -- each request takes four bytes or more from the buffer, so that this fuel is enough
  unfoldable pub handle_read : Received → Sent → D → PolledConn → Run (D × PolledConn)
  handle_read read_again sent db c = ok (db, c)
  handle_read read_failed sent db c = ok (db, close_later c)
  handle_read end_of_file sent db c = ok (db, close_later c)
  handle_read (received bytes) sent db c = do
    incoming ← append c.conn.incoming bytes
    done ← process_all (suc (readable_size incoming)) db (record (c.conn) { incoming = incoming })
    shrunk ← shrink_incoming done.1.incoming
    let c' = record c { conn = record (done.1) { incoming = shrunk } }
    let write = handle_write sent (record c' { want_read = false; want_write = true }) >>= λ w.
        ok (done.0, w)
    if ltb 0 (readable_size c'.conn.outgoing) then write else ok (done.0, epoll_update_interest c')
