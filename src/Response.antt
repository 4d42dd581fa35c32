-- ===== src/Response.antt =====
-- src/server/conn.cc, response_begin, response_size and response_end: the length in front of a
-- response, which is filled in when the response is complete; and try_process_one_request, which
-- takes one request from the incoming buffer and puts its response into the outgoing one.
-- Of a connection the model has the two buffers and the flag `want_close`; the other fields belong
-- to the event loop. The commands are the parameter `run_command`, on a database of any type, and
-- do_request_and_make_response picks the handler of a request.
pub mod Oversize
pub mod Framing
pub mod Process
use byo_redis.Prelude.{
  ℕ, ◌+◌, ◌-◌, ◌%◌, ◌^◌, Bool, true, false, List, [], ◌∷◌, Option, none, some, length, ltb, ◌==◌,
  ◌&&◌, if◌then◌else◌,
}
use byo_redis.Prelude.Run.{Run, ok, fault, aborted, ◌>>=◌}
use byo_redis.Buffer.{
  Buffer, readable_size, read_range, consume, push_placeholder, peek_placeholder, pop_placeholder,
  write_at,
}
use byo_redis.Tlv.{
  k_max_msg, err_unknown, err_too_big, u32_bytes, buf_append_u32, read_u32, out_err,
}
use byo_redis.Request.{parse_req}

unfoldable pub response_begin : Buffer → Run Buffer
response_begin buf = buf_append_u32 (push_placeholder buf) 0

unfoldable pub response_size : Buffer → Run ℕ
response_size buf = do pos ← peek_placeholder buf; ok (buf.writable_begin - pos - 4)

-- "response too big"
abbrev pub too_big : List ℕ
too_big =
    114 ∷ 101 ∷ 115 ∷ 112 ∷ 111 ∷ 110 ∷ 115 ∷ 101 ∷ 32 ∷ 116 ∷ 111 ∷ 111 ∷ 32 ∷ 98 ∷ 105 ∷ 103 ∷ []

-- the rollback to behind the header, and the error in place of the payload
unfoldable pub reject_big : Buffer → Run Buffer
reject_big buf = do
  pos ← peek_placeholder buf
  out_err (record buf { writable_begin = pos + 4 }) err_too_big too_big

unfoldable pub response_end : Buffer → Run Buffer
response_end buf = do
  msg_size ← response_size buf
  buf' ← (if ltb k_max_msg msg_size then reject_big buf else ok buf)
  len ← response_size buf'
  popped ← pop_placeholder buf'
  write_at (popped.1) (popped.0) (u32_bytes (len % 2 ^ 32))

-- the handlers of the commands; the last stands for the reply to an unknown command
pub data Command : Type 0 where
  do_get do_set do_del do_keys do_zadd do_zrem do_zscore do_zquery do_zrank do_zcount do_expire
        do_ttl :
      Command
  do_unknown : Command

abbrev same_bytes : List ℕ → List ℕ → Bool
same_bytes [] [] = true
same_bytes (x ∷ xs) (y ∷ ys) = (x == y) && same_bytes xs ys
same_bytes _ _ = false

-- `cmd.size() == n && cmd[0] == name`
abbrev is_request : ℕ → List ℕ → List (List ℕ) → Bool
is_request n name [] = false
is_request n name (s ∷ args) = (length (s ∷ args) == n) && same_bytes s name

-- the names in ASCII
pub command_of : List (List ℕ) → Command
command_of cmd =
    if is_request 2 (103 ∷ 101 ∷ 116 ∷ []) cmd
    then do_get
    else if is_request 3 (115 ∷ 101 ∷ 116 ∷ []) cmd
    then do_set
    else if is_request 2 (100 ∷ 101 ∷ 108 ∷ []) cmd
    then do_del
    else if is_request 1 (107 ∷ 101 ∷ 121 ∷ 115 ∷ []) cmd
    then do_keys
    else if is_request 4 (122 ∷ 97 ∷ 100 ∷ 100 ∷ []) cmd
    then do_zadd
    else if is_request 3 (122 ∷ 114 ∷ 101 ∷ 109 ∷ []) cmd
    then do_zrem
    else if is_request 3 (122 ∷ 115 ∷ 99 ∷ 111 ∷ 114 ∷ 101 ∷ []) cmd
    then do_zscore
    else if is_request 6 (122 ∷ 113 ∷ 117 ∷ 101 ∷ 114 ∷ 121 ∷ []) cmd
    then do_zquery
    else if is_request 3 (122 ∷ 114 ∷ 97 ∷ 110 ∷ 107 ∷ []) cmd
    then do_zrank
    else if is_request 6 (122 ∷ 99 ∷ 111 ∷ 117 ∷ 110 ∷ 116 ∷ []) cmd
    then do_zcount
    else if is_request 3 (112 ∷ 101 ∷ 120 ∷ 112 ∷ 105 ∷ 114 ∷ 101 ∷ []) cmd
    then do_expire
    else if is_request 2 (112 ∷ 116 ∷ 116 ∷ 108 ∷ []) cmd
    then do_ttl
    else do_unknown

-- "unknown command"
abbrev unknown_command : List ℕ
unknown_command =
    117 ∷ 110 ∷ 107 ∷ 110 ∷ 111 ∷ 119 ∷ 110 ∷ 32 ∷ 99 ∷ 111 ∷ 109 ∷ 109 ∷ 97 ∷ 110 ∷ 100 ∷ []

-- `handle` is the handlers, each of which changes the database and writes its reply.
pub do_request_and_make_response {ℓ} :
    {D : Type ℓ}
    → (Command → List (List ℕ) → D → Buffer → Run (D × Buffer))
    → List (List ℕ)
    → D
    → Buffer
    → Run (D × Buffer)
do_request_and_make_response handle cmd db buffer = elim (command_of cmd) [
  | do_unknown ↦ out_err buffer err_unknown unknown_command >>= λ b. ok (db, b)
  | c ↦ handle c cmd db buffer
]

pub record Conn : Type 0 where
  pub want_close : Bool
  pub incoming : Buffer
  pub outgoing : Buffer

module _ {ℓ} {D : Type ℓ} (run_command : List (List ℕ) → D → Buffer → Run (D × Buffer)) where
  -- the result of the function, the database, and the connection
  unfoldable pub try_process_one_request : D → Conn → Run (Bool × D × Conn)
  try_process_one_request db conn =
      let wait : Run (Bool × D × Conn) = ok (false, db, conn) in
      let start = conn.incoming.readable_begin in
      let answer = λ (cmd : List (List ℕ)) (len : ℕ). (do
        begun ← response_begin conn.outgoing
        done ← run_command cmd db begun
        ended ← response_end (done.1)
        ok (
          true,
          done.0,
          record conn { incoming = consume conn.incoming (4 + len); outgoing = ended },
        )) in
      let body = λ (len : ℕ).
        (if ltb (readable_size conn.incoming) (4 + len) then wait else do
          request ← read_range conn.incoming.buf (start + 4) len
          elim (parse_req request) [
            | none ↦ ok (false, db, record conn { want_close = true })
            | some cmd ↦ answer cmd len
          ]) in
      if ltb (readable_size conn.incoming) 4 then wait else do
        header ← read_range conn.incoming.buf start 4
        elim (read_u32 header) [
          | none ↦ wait
          | some (len, rest) ↦ if ltb k_max_msg len then fault aborted else body len
        ]
