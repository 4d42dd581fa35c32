-- ===== src/Request/Parse.antt =====
-- The request parser against the format that it documents.
use byo_redis.Prelude.{
  ℕ, zero, suc, ◌^◌, ◌≤◌, ◌<◌, ◌≡◌, refl, List, [], ◌∷◌, ◌++◌, Option, none, some, length, All,
  arith, ltb, ap, sym, ◌∙◌, false, Option-cases, inl, inr,
}
use mathlib.Core.List.{append_assoc, append-nil}
use native.Mathlib.Nat.{mod-eq_of_lt}
use byo_redis.Tlv.{k_max_args, read_u32, read_str, u32_bytes}
use byo_redis.Tlv.Words.{
  IsByte, read_u32-u32_bytes, u32_bytes-read_u32, read_str-append, read_str-eq-some,
  All-append_right,
}
use byo_redis.Request.{parse_strings, at_end, parse_req}

-- the strings of a request, each behind its length
unfoldable pub strings_wire : List (List ℕ) → List ℕ
strings_wire [] = []
strings_wire (s ∷ cmd) = u32_bytes (length s) ++ (s ++ strings_wire cmd)

-- the payload that the diagram in conn.cc shows
unfoldable pub payload : List (List ℕ) → List ℕ
payload cmd = u32_bytes (length cmd) ++ strings_wire cmd

-- every string has a length that fits 32 bits
abbrev pub AreShort : List (List ℕ) → Type 0
AreShort = All (λ s. length s < 2 ^ 32)

parse_strings_step :
    (n : ℕ) (bytes : List ℕ) (out : List (List ℕ)) (len : ℕ) (tail s rest : List ℕ)
    → read_u32 bytes ≡ some (len, tail)
    → read_str tail len ≡ some (s, rest)
    → parse_strings (suc n) bytes out ≡ parse_strings n rest (out ++ s ∷ [])
unfolding parse_strings
parse_strings_step n bytes out len tail s rest word str = ground arith

parse_strings-wire :
    (cmd out : List (List ℕ)) (rest : List ℕ)
    → AreShort cmd
    → parse_strings (length cmd) (strings_wire cmd ++ rest) out ≡ some (rest, out ++ cmd)
unfolding strings_wire
parse_strings-wire [] out rest h = rw append-nil (unfold parse_strings in refl)
parse_strings-wire (s ∷ cmd) out rest h =
    let tail = strings_wire cmd ++ rest in
    let layout : (u32_bytes (length s) ++ (s ++ strings_wire cmd)) ++ rest
        ≡ u32_bytes (length s) ++ (s ++ tail) =
      append_assoc (u32_bytes (length s)) (s ++ strings_wire cmd) rest
      ∙ ap (◌++◌ (u32_bytes (length s))) (append_assoc s (strings_wire cmd) rest) in
    let word = rw (mod-eq_of_lt h.0) at (read_u32-u32_bytes (length s) (s ++ tail)) in
    rw layout (
      parse_strings_step (length cmd) _ out (length s) (s ++ tail) s tail word
        (read_str-append s tail)
      ∙ parse_strings-wire cmd (out ++ s ∷ []) rest h.1
      ∙ ap (λ all. some (rest, all)) (append_assoc out (s ∷ []) cmd))

-- what a round of the loop that goes on has read
parse_strings_round :
    (n : ℕ) (bytes : List ℕ) (out : List (List ℕ)) {r : List ℕ × List (List ℕ)}
    → parse_strings (suc n) bytes out ≡ some r
    → (len : ℕ) × (tail : List ℕ) × (s : List ℕ) × (rest : List ℕ) × (read_u32 bytes
        ≡ some (len, tail))
      × (read_str tail len ≡ some (s, rest))
      × (parse_strings n rest (out ++ s ∷ []) ≡ some r)
unfolding parse_strings
parse_strings_round n bytes out e = elim (Option-cases (read_u32 bytes)) [
  | inl bad ↦ absurd (ground arith)
  | inr ((len, tail), word) ↦ elim (Option-cases (read_str tail len)) [
    | inl bad ↦ absurd (ground arith)
    | inr ((s, rest), str) ↦ (len, tail, s, rest, word, str, ground arith)
  ]
]

parse_strings-inv :
    (n : ℕ) (bytes : List ℕ) (out : List (List ℕ)) {rest : List ℕ} {r : List (List ℕ)}
    → All IsByte bytes
    → parse_strings n bytes out ≡ some (rest, r)
    → (cmd : List (List ℕ)) × (r ≡ out ++ cmd)
      × (length cmd ≡ n)
      × AreShort cmd
      × (bytes ≡ strings_wire cmd ++ rest)
unfolding strings_wire
parse_strings-inv zero bytes out {rest} {r} h e =
    let e' : ◌≡◌ {A = Option (List ℕ × List (List ℕ))} (some (bytes, out)) (some (rest, r)) =
      unfold parse_strings in e in
    ([], cc (append-nil out), refl, tt, cc)
parse_strings-inv (suc n) bytes out {rest} {r} h e =
    let (len, tail, s, next, word, str, more) = parse_strings_round n bytes out e in
    let (at, small, tail_bytes) = u32_bytes-read_u32 bytes h word in
    let (at', size) = read_str-eq-some tail len str in
    let next_bytes = All-append_right s next (rw at' at tail_bytes) in
    let (cmd, all, count, short, layout) =
      parse_strings-inv n next (out ++ s ∷ []) next_bytes more in
    (
      s ∷ cmd,
      all ∙ append_assoc out (s ∷ []) cmd,
      ap suc count,
      (rw size small, short),
      at
          ∙ rw (← size) (
              ap (◌++◌ (u32_bytes (length s)))
                (at' ∙ ap (◌++◌ s) layout ∙ sym (append_assoc s (strings_wire cmd) rest)))
          ∙ sym (append_assoc (u32_bytes (length s)) (s ++ strings_wire cmd) rest),
    )

at_end-inv :
    (o : Option (List ℕ × List (List ℕ))) {cmd : List (List ℕ)}
    → at_end o ≡ some cmd
    → o ≡ some ([], cmd)
unfolding at_end
at_end-inv none e = cc
at_end-inv (some ([], out)) e = cc
at_end-inv (some (x ∷ xs, out)) e = cc

-- A payload of at most `k_max_args` strings, each shorter than 2 ^ 32 bytes, is parsed into
-- exactly its strings.
pub parse_req-payload :
    (cmd : List (List ℕ))
    → length cmd ≤ k_max_args
    → AreShort cmd
    → parse_req (payload cmd) ≡ some cmd
unfolding parse_req payload
parse_req-payload cmd h short =
    let word = read_u32-u32_bytes (length cmd) (strings_wire cmd) in
    let strings = rw append-nil at (parse_strings-wire cmd [] [] short) in
    ground (arith, word, strings, mod-eq_of_lt {n = length cmd} {m = 2 ^ 32})

-- The parser accepts nothing else: bytes that it parses are the payload of the strings that it
-- returns, without a byte before, between or behind them, and there are at most `k_max_args`.
pub payload-parse_req :
    (bytes : List ℕ) {cmd : List (List ℕ)}
    → All IsByte bytes
    → parse_req bytes ≡ some cmd
    → (bytes ≡ payload cmd) × (length cmd ≤ k_max_args) × AreShort cmd
unfolding parse_req payload
payload-parse_req bytes {cmd} h e = elim (Option-cases (read_u32 bytes)) [
  | inl bad ↦ absurd (ground arith)
  | inr ((nstr, rest), word) ↦
      let (at, small, rest_bytes) = u32_bytes-read_u32 bytes h word in
      let few : ltb k_max_args nstr ≡ false = ground arith in
      let ended : at_end (parse_strings nstr rest []) ≡ some cmd = ground arith in
      let (cmd', all, count, short, layout) =
        parse_strings-inv nstr rest [] rest_bytes (at_end-inv _ ended) in
      let same : cmd ≡ cmd' = all in
      let strings : rest ≡ strings_wire cmd' = layout ∙ append-nil (strings_wire cmd') in
      rw (same, count) (at ∙ ap (◌++◌ (u32_bytes nstr)) strings, ground arith, short)
]
