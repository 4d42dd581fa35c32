-- ===== src/Request/Send.antt =====
-- The client's serialiser against the format, and the round trip through the server's parser.
use byo_redis.Prelude.{
  ℕ, zero, suc, ◌+◌, ◌-◌, ◌%◌, ◌^◌, ◌≤◌, ◌<◌, ◌≡◌, refl, List, [], ◌∷◌, ◌++◌, none, some, length,
  drop, replicate, arith, ltb, if◌then◌else◌, ap, sym, ◌∙◌, length-append, length-replicate,
  Bool-cases, inl, inr,
}
use mathlib.Core.Path.{subst}
use mathlib.Core.List.{append_assoc}
use native.Mathlib.Nat.{mod-eq_of_lt, sub-zero, zero-sub, suc-sub-suc}
use byo_redis.Prelude.Run.{ok}
use byo_redis.Prelude.Slices.{patch, take-append_left, drop-append_left, drop-drop}
use byo_redis.Buffer.{write_range}
use byo_redis.Buffer.Moves.{write_range-ok}
use byo_redis.Tlv.{k_max_msg, k_max_args, u32_bytes}
use byo_redis.Tlv.Words.{length-u32_bytes}
use byo_redis.Request.{payload_size, write_strings, request_bytes, parse_req}
use byo_redis.Request.Parse.{strings_wire, payload, AreShort, parse_req-payload}

-- the bytes of a request: the payload behind its length
pub frame : List (List ℕ) → List ℕ
frame cmd = u32_bytes (length (payload cmd)) ++ payload cmd

payload_size-eq :
    (n : ℕ) (cmd : List (List ℕ))
    → n + length (strings_wire cmd) < 2 ^ 32
    → payload_size n cmd ≡ n + length (strings_wire cmd)
unfolding payload_size strings_wire
payload_size-eq n [] h = omega arith
payload_size-eq n (s ∷ cmd) h =
    let size = length-append (u32_bytes (length s)) (s ++ strings_wire cmd) in
    let size' = length-append s (strings_wire cmd) in
    let four = length-u32_bytes (length s) in
    let here : (n + (4 + length s)) % 2 ^ 32 ≡ n + (4 + length s) = mod-eq_of_lt (omega arith) in
    rw here (payload_size-eq (n + (4 + length s)) cmd (omega arith) ∙ omega arith)

drop-replicate : (k n : ℕ) → drop {A = ℕ} k (replicate n 0) ≡ replicate (n - k) 0
drop-replicate zero n = rw sub-zero
drop-replicate (suc k) zero = rw zero-sub
drop-replicate (suc k) (suc n) = rw suc-sub-suc (drop-replicate k n)

-- the vector filled up to some point: the next write goes behind that point
write_next :
    (done ds : List ℕ) (k : ℕ)
    → length ds ≤ k
    → write_range (done ++ replicate k 0) (length done) ds
      ≡ ok ((done ++ ds) ++ replicate (k - length ds) 0)
write_next done ds k h =
    let room = length-append done (replicate k 0) in
    let size = length-replicate {A = ℕ} k 0 in
    let tail : drop (length done + length ds) (done ++ replicate k 0)
        ≡ replicate (k - length ds) 0 =
      sym (drop-drop (length ds) (length done) (done ++ replicate k 0))
      ∙ rw (drop-append_left done (replicate k 0)) (drop-replicate (length ds) k) in
    write_range-ok (done ++ replicate k 0) (length done) ds (omega arith)
    ∙ ap ok (
        unfold patch in
        rw (take-append_left done (replicate k 0), tail)
          (sym (append_assoc done ds (replicate (k - length ds) 0))))

write_strings-wire :
    (cmd : List (List ℕ)) (done : List ℕ) (k : ℕ)
    → k ≡ length (strings_wire cmd)
    → write_strings cmd (length done) (done ++ replicate k 0) ≡ ok (done ++ strings_wire cmd)
unfolding write_strings strings_wire
write_strings-wire [] done k e = rw e refl
write_strings-wire (s ∷ cmd) done k e =
    let word = u32_bytes (length s) in
    let size = length-append word (s ++ strings_wire cmd) in
    let size' = length-append s (strings_wire cmd) in
    let four = length-u32_bytes (length s) in
    let next = length-append done word in
    let next' = length-append (done ++ word) s in
    let first = write_next done word k (omega arith) in
    let second = write_next (done ++ word) s (k - length word) (omega arith) in
    let at : length done + 4 ≡ length (done ++ word) = omega arith in
    let at' : length done + (4 + length s) ≡ length ((done ++ word) ++ s) = omega arith in
    rw (first, at, second, at')
      (write_strings-wire cmd ((done ++ word) ++ s) (k - length word - length s) (omega arith)
        ∙ ap ok (
            append_assoc (done ++ word) s (strings_wire cmd)
            ∙ append_assoc done word (s ++ strings_wire cmd)))

-- The request that the client sends is the frame of the command, and nothing is sent if the
-- payload is longer than `k_max_msg`; no write leaves the vector. The payload has fewer than
-- 2 ^ 32 bytes, so that its size fits the `uint32_t` that sums it.
pub request_bytes-frame :
    (cmd : List (List ℕ))
    → length (payload cmd) < 2 ^ 32
    → request_bytes cmd
      ≡ ok (if ltb k_max_msg (length (payload cmd)) then none else some (frame cmd))
unfolding request_bytes frame payload
request_bytes-frame cmd h =
    let word = u32_bytes (length cmd) in
    let all = length-append word (strings_wire cmd) in
    let four = length-u32_bytes (length cmd) in
    let n = length (word ++ strings_wire cmd) in
    let size : payload_size 4 cmd ≡ n = payload_size-eq 4 cmd (omega arith) ∙ omega arith in
    let head = u32_bytes n in
    let four' = length-u32_bytes n in
    let more = length-append head word in
    let first = write_next [] head (4 + n) (omega arith) in
    let second = write_next head word (4 + n - length head) (omega arith) in
    let third =
      write_strings-wire cmd (head ++ word) (4 + n - length head - length word) (omega arith) in
    let left = 4 + n - length head in
    let second' =
      subst
        (λ (i : ℕ).
          write_range (head ++ replicate left 0) i word
          ≡ ok ((head ++ word) ++ replicate (left - length word) 0))
        four' second in
    let eight : length (head ++ word) ≡ 8 = omega arith in
    let third' =
      subst
        (λ (i : ℕ).
          write_strings cmd i ((head ++ word) ++ replicate (left - length word) 0)
          ≡ ok ((head ++ word) ++ strings_wire cmd))
        eight third in
    elim (Bool-cases (ltb k_max_msg n)) [
      | inl large ↦ rw (size, large)
      | inr fits ↦
          rw (size, fits, first)
            (rw (second', third')
              (ap (λ bytes. ok (some bytes)) (append_assoc head word (strings_wire cmd))))
    ]

AreShort-strings_wire : (cmd : List (List ℕ)) → length (strings_wire cmd) < 2 ^ 32 → AreShort cmd
unfolding strings_wire
AreShort-strings_wire [] h = tt
AreShort-strings_wire (s ∷ cmd) h =
    let size = length-append (u32_bytes (length s)) (s ++ strings_wire cmd) in
    let size' = length-append s (strings_wire cmd) in
    (omega arith, AreShort-strings_wire cmd (omega arith))

-- What the client sends for a command, behind its four bytes of length, is what the server parses
-- back into the same command, if the request is not too large and has at most `k_max_args` strings.
pub parse-request_bytes :
    (cmd : List (List ℕ)) {sent : List ℕ}
    → length (payload cmd) < 2 ^ 32
    → length cmd ≤ k_max_args
    → request_bytes cmd ≡ ok (some sent)
    → parse_req (drop 4 sent) ≡ some cmd
parse-request_bytes cmd {sent} h few e =
    let made = request_bytes-frame cmd h in
    let body : sent ≡ frame cmd = ground arith in
    let four = length-u32_bytes (length (payload cmd)) in
    let rest =
      subst (λ (i : ℕ). drop i (frame cmd) ≡ payload cmd) four
        (unfold frame in drop-append_left (u32_bytes (length (payload cmd))) (payload cmd)) in
    let strings = length-append (u32_bytes (length cmd)) (strings_wire cmd) in
    let short = AreShort-strings_wire cmd (unfold payload in omega arith) in
    rw (body, rest) (parse_req-payload cmd few short)
