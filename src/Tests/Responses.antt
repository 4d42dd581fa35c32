-- ===== src/Tests/Responses.antt =====
-- Tests of the requests and responses of src/server/conn.cc.
use byo_redis.Prelude.{ℕ, suc, ◌≡◌, refl, true, false, List, [], ◌∷◌, ◌++◌, length, arith}
use byo_redis.Prelude.Run.{Run, ok, Returns, ◌>>=◌}
use byo_redis.Buffer.{Buffer}
use byo_redis.Buffer.View.{content, marks, IsBuffer, Holds}
use byo_redis.Tlv.{u32_bytes, out_nil}
use byo_redis.Tlv.Writers.{Reply, nil, str, int, wire, wires, out_all, out-Holds}
use byo_redis.Request.Parse.{strings_wire, payload}
use byo_redis.Response.{Conn, response_begin, response_end, try_process_one_request}
use byo_redis.Response.Framing.{limited, response-Holds}
use byo_redis.Response.Process.{Answers, process-Answered}

-- room for one byte, behind one that is waiting
abbrev small : Buffer
small = record { buf = 9 ∷ 0 ∷ []; readable_begin = 0; writable_begin = 1; placeholder_stack = [] }

abbrev small-IsBuffer : IsBuffer small
small-IsBuffer = record { ordered = omega arith; fits = omega arith; marked = tt }

abbrev replies : List Reply
replies = int 5 ∷ str (104 ∷ 105 ∷ []) ∷ []

response-Holds_example : Returns (response_begin small >>= out_all replies >>= response_end) (
    Holds
      (content small ++ (u32_bytes (length (limited (wires replies))) ++ limited (wires replies)))
      (marks small))
response-Holds_example = response-Holds replies small small-IsBuffer

-- `get k`
abbrev get_k : List (List ℕ)
get_k = (103 ∷ 101 ∷ 116 ∷ []) ∷ (107 ∷ []) ∷ []

-- the request, and the first byte of another one
abbrev waiting : Conn
waiting = record {
  want_close = false;
  incoming = record {
    buf =
        16 ∷ 0 ∷ 0 ∷ 0 ∷ 2 ∷ 0 ∷ 0 ∷ 0 ∷ 3 ∷ 0 ∷ 0 ∷ 0 ∷ 103 ∷ 101 ∷ 116 ∷ 1 ∷ 0 ∷ 0 ∷ 0 ∷ 107 ∷ 7
        ∷ [];
    readable_begin = 0;
    writable_begin = 21;
    placeholder_stack = [];
  };
  outgoing = small;
}

waiting_incoming : IsBuffer waiting.incoming
waiting_incoming = record { ordered = omega arith; fits = omega arith; marked = tt }

-- a database that counts the commands, which all are answered with nil
abbrev count_up : List (List ℕ) → ℕ → Buffer → Run (ℕ × Buffer)
count_up cmd db b = out_nil b >>= λ c. ok (suc db, c)

count_up-Answers : Answers count_up get_k 0 1 (wire nil)
count_up-Answers b v = (let (c, run, h) = out-Holds nil b v in (c, rw run refl, h))

waiting_content :
    content waiting.incoming ≡ u32_bytes (length (payload get_k)) ++ (payload get_k ++ 7 ∷ [])
unfolding content u32_bytes payload strings_wire
waiting_content = refl

process-Answered_example : Returns (try_process_one_request count_up 0 waiting) (λ r.
    (r.0 ≡ true)
    × (r.1 ≡ 1)
    × Holds (7 ∷ []) [] (r.2.incoming)
    × Holds
        (content small ++ (u32_bytes (length (wire nil)) ++ wire nil))
        (marks small)
        (r.2.outgoing))
unfolding payload strings_wire u32_bytes wire
process-Answered_example =
    process-Answered count_up get_k 0 1 (wire nil) (7 ∷ []) waiting (omega arith)
      (omega arith, (omega arith, tt)) (omega arith) waiting_incoming refl waiting_content
      small-IsBuffer (omega arith) count_up-Answers
