-- ===== src/Request.antt =====
-- src/server/conn.cc, parse_req, and src/client/api.cc, send_req: a request on the wire is the
-- payload's length, the number of its strings, and each string behind its length.
-- A request string is the list of its bytes. `send_req` hands its bytes to `write_all`, so the
-- model of it, `request_bytes`, returns the vector that it fills.
pub mod Parse
pub mod Send
use byo_redis.Prelude.{
  ℕ, zero, suc, ◌+◌, ◌%◌, ◌^◌, List, [], ◌∷◌, ◌++◌, Option, none, some, length, replicate, ltb,
  if◌then◌else◌,
}
use byo_redis.Prelude.Run.{Run, ok, ◌>>=◌}
use byo_redis.Buffer.{write_range}
use byo_redis.Tlv.{k_max_msg, k_max_args, read_u32, read_str, u32_bytes}

-- The loop `while (out.size() < nstr)`: the first argument is `nstr - out.size()`, the last is
-- `out`. The result is the cursor and `out`, or `none` for the return of -1.
pub parse_strings : ℕ → List ℕ → List (List ℕ) → Option (List ℕ × List (List ℕ))
parse_strings zero bytes out = some (bytes, out)
parse_strings (suc left) bytes out = elim (read_u32 bytes) [
  | none ↦ none
  | some (len, rest) ↦ elim (read_str rest len) [
    | none ↦ none
    | some (s, rest') ↦ parse_strings left rest' (out ++ s ∷ [])
  ]
]

-- `data != end`: trailing garbage
at_end : Option (List ℕ × List (List ℕ)) → Option (List (List ℕ))
at_end (some ([], out)) = some out
at_end _ = none

-- `none` is the return of -1; the vector `out` is empty when the function is called.
unfoldable pub parse_req : List ℕ → Option (List (List ℕ))
unfolding parse_strings at_end
parse_req bytes = elim (read_u32 bytes) [
  | none ↦ none
  | some (nstr, rest) ↦ if ltb k_max_args nstr then none else at_end (parse_strings nstr rest [])
]

-- the loop that sums `payload_size`, a `uint32_t`
pub payload_size : ℕ → List (List ℕ) → ℕ
payload_size size [] = size
payload_size size (s ∷ cmd) = payload_size ((size + (4 + length s)) % 2 ^ 32) cmd

-- the loop that writes each string at the offset `cur`
pub write_strings : List (List ℕ) → ℕ → List ℕ → Run (List ℕ)
write_strings [] cur wbuf = ok wbuf
write_strings (s ∷ cmd) cur wbuf = do
  w ← write_range wbuf cur (u32_bytes (length s))
  w' ← write_range w (cur + 4) s
  write_strings cmd (cur + (4 + length s)) w'

-- `none`: the request is too large, and -1 is returned before anything is sent
unfoldable pub request_bytes : List (List ℕ) → Run (Option (List ℕ))
unfolding payload_size write_strings
request_bytes cmd =
    let size = payload_size 4 cmd in
    if ltb k_max_msg size then ok none else do
      w ← write_range (replicate (4 + size) 0) 0 (u32_bytes size)
      w' ← write_range w 4 (u32_bytes (length cmd))
      w'' ← write_strings cmd 8 w'
      ok (some w'')
