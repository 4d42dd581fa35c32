-- ===== src/Tests/Requests.antt =====
-- Tests of the requests of src/server/conn.cc and src/client/api.cc.
use byo_redis.Prelude.{
  ℕ, ◌≤◌, ◌≡◌, refl, List, [], ◌∷◌, ◌++◌, none, some, length, arith, drop, ltb, if◌then◌else◌,
}
use byo_redis.Prelude.Run.{ok}
use byo_redis.Prelude.Slices.{patch}
use byo_redis.Buffer.{write_range}
use byo_redis.Tlv.{k_max_args, k_max_msg, u32_bytes, read_u32, read_str}
use byo_redis.Request.{parse_req, request_bytes}
use byo_redis.Request.Parse.{strings_wire, payload, AreShort, parse_req-payload, payload-parse_req}
use byo_redis.Request.Send.{frame, request_bytes-frame, parse-request_bytes}

-- `get k`
abbrev get_k : List (List ℕ)
get_k = (103 ∷ 101 ∷ 116 ∷ []) ∷ (107 ∷ []) ∷ []

-- its payload
abbrev get_k_bytes : List ℕ
get_k_bytes = 2 ∷ 0 ∷ 0 ∷ 0 ∷ 3 ∷ 0 ∷ 0 ∷ 0 ∷ 103 ∷ 101 ∷ 116 ∷ 1 ∷ 0 ∷ 0 ∷ 0 ∷ 107 ∷ []

-- what the client sends
abbrev get_k_sent : List ℕ
get_k_sent = 16 ∷ 0 ∷ 0 ∷ 0 ∷ get_k_bytes

parse_get : parse_req get_k_bytes ≡ some get_k
unfolding parse_req read_u32 read_str
parse_get = refl

parse_garbage : parse_req (get_k_bytes ++ 0 ∷ []) ≡ none
unfolding parse_req read_u32 read_str
parse_garbage = refl

send_get : request_bytes get_k ≡ ok (some get_k_sent)
unfolding request_bytes write_range u32_bytes patch
send_get = refl

parse_req-payload_example : parse_req (payload get_k) ≡ some get_k
parse_req-payload_example = parse_req-payload get_k (omega arith) (omega arith, (omega arith, tt))

payload-parse_req_example :
    (get_k_bytes ≡ payload get_k) × (length get_k ≤ k_max_args) × AreShort get_k
payload-parse_req_example =
    payload-parse_req get_k_bytes
      (
        omega arith,
        (
          omega arith,
          (
            omega arith,
            (
              omega arith,
              (
                omega arith,
                (
                  omega arith,
                  (
                    omega arith,
                    (
                      omega arith,
                      (
                        omega arith,
                        (
                          omega arith,
                          (
                            omega arith,
                            (
                              omega arith,
                              (omega arith, (omega arith, (omega arith, (omega arith, tt)))),
                            ),
                          ),
                        ),
                      ),
                    ),
                  ),
                ),
              ),
            ),
          ),
        ),
      )
      parse_get

request_bytes-frame_example :
    request_bytes get_k
    ≡ ok (if ltb k_max_msg (length (payload get_k)) then none else some (frame get_k))
unfolding payload strings_wire u32_bytes
request_bytes-frame_example = request_bytes-frame get_k (omega arith)

parse-request_bytes_example : parse_req (drop 4 get_k_sent) ≡ some get_k
unfolding payload strings_wire u32_bytes
parse-request_bytes_example = parse-request_bytes get_k (omega arith) (omega arith) send_get
