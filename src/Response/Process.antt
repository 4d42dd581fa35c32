-- ===== src/Response/Process.antt =====
-- try_process_one_request on a buffer that starts with a complete request.
use mathlib.Core.List.{append_assoc, append-nil}
use native.Mathlib.Nat.{mod-eq_of_lt}
use byo_redis.Prelude.{
  ℕ, ◌+◌, ◌-◌, ◌%◌, ◌^◌, ◌≤◌, ◌≡◌, refl, ap, sym, ◌∙◌, true, false, List, [], ◌∷◌, ◌++◌, some,
  length, arith, ltb, length-append, take, drop, take-append-drop,
}
use byo_redis.Prelude.Run.{Run, ok, Returns, ◌>>=◌}
use byo_redis.Prelude.Slices.{take-append_left, drop-append_left, drop-drop}
use byo_redis.Buffer.{Buffer, readable_size, read_range, push_placeholder}
use byo_redis.Buffer.View.{content, marks, IsBuffer, Holds, length-content}
use byo_redis.Buffer.Moves.{read_range-ok}
use byo_redis.Buffer.Writes.{append-Holds, push_placeholder-Holds, consume-Holds}
use byo_redis.Tlv.{k_max_msg, k_max_args, u32_bytes, buf_append_u32, read_u32}
use byo_redis.Tlv.Words.{length-u32_bytes, read_u32-u32_bytes}
use byo_redis.Request.Parse.{payload, AreShort, parse_req-payload}
use byo_redis.Response.{Conn, response_begin, response_end, try_process_one_request}
use byo_redis.Response.Framing.{end-Holds}

-- a block of the bytes in front of a list's end is a block of the list
block_of :
    (m : ℕ) (xs pre mid post : List ℕ)
    → take m xs ≡ pre ++ (mid ++ post)
    → take (length mid) (drop (length pre) xs) ≡ mid
block_of m xs pre mid post e =
    let all : xs ≡ pre ++ (mid ++ (post ++ drop m xs)) =
      sym (take-append-drop m xs)
      ∙ ap (λ ys. ys ++ drop m xs) e
      ∙ append_assoc pre (mid ++ post) (drop m xs)
      ∙ ap (λ ys. pre ++ ys) (append_assoc mid post (drop m xs)) in
    ap (λ ys. take (length mid) (drop (length pre) ys)) all
    ∙ ap (take (length mid)) (drop-append_left pre (mid ++ (post ++ drop m xs)))
    ∙ take-append_left mid (post ++ drop m xs)

-- a block of the bytes that a buffer holds can be read
read-content :
    (b : Buffer) (pre mid post : List ℕ)
    → IsBuffer b
    → content b ≡ pre ++ (mid ++ post)
    → read_range b.buf (b.readable_begin + length pre) (length mid) ≡ ok mid
unfolding content
read-content b pre mid post v e =
    let size = length-content b v in
    let ordered = v.ordered in
    let fits = v.fits in
    let all : length (content b) ≡ length pre + (length mid + length post) =
      ap length e ∙ omega (arith, length-append pre (mid ++ post), length-append mid post) in
    read_range-ok b.buf (b.readable_begin + length pre) (length mid) (omega arith)
    ∙ ap ok (
        ap (take (length mid)) (sym (drop-drop (length pre) b.readable_begin b.buf))
        ∙ block_of (b.writable_begin - b.readable_begin) (drop b.readable_begin b.buf) pre mid post
            e)

module _ {ℓ} {D : Type ℓ} (run_command : List (List ℕ) → D → Buffer → Run (D × Buffer)) where
  -- what a handler does that appends the bytes `ds` and leaves the database `db'`
  abbrev pub Answers : List (List ℕ) → D → D → List ℕ → Type ℓ
  Answers cmd db db' ds =
      (b : Buffer)
      → IsBuffer b
      → (c : Buffer) × (run_command cmd db b ≡ ok (db', c)) × Holds (content b ++ ds) (marks b) c

  -- the response to a request
  respond :
      (cmd : List (List ℕ)) (db db' : D) (ds : List ℕ) (b : Buffer)
      → Answers cmd db db' ds
      → IsBuffer b
      → length ds ≤ k_max_msg
      → (begun : Buffer) × (c : Buffer) × (g : Buffer) × (response_begin b ≡ ok begun)
        × (run_command cmd db begun ≡ ok (db', c))
        × (response_end c ≡ ok g)
        × Holds (content b ++ (u32_bytes (length ds) ++ ds)) (marks b) g
  unfolding response_begin buf_append_u32
  respond cmd db db' ds b answers v few =
      let p = push_placeholder-Holds b v in
      let (d, run, k) = append-Holds (push_placeholder b) (u32_bytes 0) p.valid in
      let (e, run', l) = answers d k.valid in
      let bytes : content e ≡ content b ++ (u32_bytes 0 ++ ds) =
        l.bytes_eq
        ∙ ap (λ bs. bs ++ ds) (k.bytes_eq ∙ ap (λ bs. bs ++ u32_bytes 0) p.bytes_eq)
        ∙ append_assoc (content b) (u32_bytes 0) ds in
      let ms : marks e ≡ length (content b) ∷ marks b = l.marks_eq ∙ k.marks_eq ∙ p.marks_eq in
      let (g, last, m) =
        end-Holds e (content b) ds (marks b)
          (record { valid = l.valid; bytes_eq = bytes; marks_eq = ms }) few in
      (d, e, g, run, run', last, m)

  -- A connection with well-formed buffers, the incoming one without placeholders, whose incoming
  -- bytes start with a complete request of allowed size, and a handler that on this request appends
  -- a reply of allowed size: try_process_one_request succeeds with the result true and the database
  -- of the handler, it consumes the request and nothing else, and the outgoing bytes end with the
  -- length of the reply and the reply.
  pub process-Answered :
      (cmd : List (List ℕ)) (db db' : D) (ds rest : List ℕ) (conn : Conn)
      → length cmd ≤ k_max_args
      → AreShort cmd
      → length (payload cmd) ≤ k_max_msg
      → IsBuffer conn.incoming
      → conn.incoming.placeholder_stack ≡ []
      → content conn.incoming ≡ u32_bytes (length (payload cmd)) ++ (payload cmd ++ rest)
      → IsBuffer conn.outgoing
      → length ds ≤ k_max_msg
      → Answers cmd db db' ds
      → Returns (try_process_one_request run_command db conn) (λ r.
        (r.0 ≡ true)
        × (r.1 ≡ db')
        × Holds rest [] (r.2.incoming)
        × Holds
            (content conn.outgoing ++ (u32_bytes (length ds) ++ ds))
            (marks conn.outgoing)
            (r.2.outgoing))
  unfolding try_process_one_request
  process-Answered cmd db db' ds rest conn args short few v idle e w few' answers =
      let n = length (payload cmd) in
      let head = length-u32_bytes n in
      let size = length-content conn.incoming v in
      let all : length (content conn.incoming) ≡ 4 + (n + length rest) =
        ap length e
        ∙ omega (
          arith,
          length-append (u32_bytes n) (payload cmd ++ rest),
          length-append (payload cmd) rest,
          head,
        ) in
      let header : read_range conn.incoming.buf conn.incoming.readable_begin 4 ≡ ok (u32_bytes n) =
        ap (λ at. read_range conn.incoming.buf at 4) (omega arith)
        ∙ rw head at (read-content conn.incoming [] (u32_bytes n) (payload cmd ++ rest) v e) in
      let body = rw head at (read-content conn.incoming (u32_bytes n) (payload cmd) rest v e) in
      let (begun, c, g, run, run', run'', m) = respond cmd db db' ds conn.outgoing answers w few' in
      let four : ltb (readable_size conn.incoming) 4 ≡ false = ground arith in
      let enough : ltb (readable_size conn.incoming) (4 + n) ≡ false = ground arith in
      let allowed : ltb k_max_msg n ≡ false = ground arith in
      let same : n % 2 ^ 32 ≡ n = mod-eq_of_lt (omega arith) in
      let word : read_u32 (u32_bytes n) ≡ some (n, []) =
        rw append-nil at (read_u32-u32_bytes n []) ∙ ap (λ k. some (k, [])) same in
      let left : drop (4 + n) (content conn.incoming) ≡ rest =
        ap (drop (4 + n)) e
        ∙ sym (drop-drop n 4 (u32_bytes n ++ (payload cmd ++ rest)))
        ∙ ap (drop n) (rw head at (drop-append_left (u32_bytes n) (payload cmd ++ rest)))
        ∙ drop-append_left (payload cmd) rest in
      let used = consume-Holds conn.incoming (4 + n) v idle in
      rw
        (
          four,
          ◌>>=◌,
          header,
          word,
          allowed,
          enough,
          body,
          parse_req-payload cmd args short,
          run,
          run',
          run'',
        )
        (_, refl, (refl, refl, rw left at used, m))
