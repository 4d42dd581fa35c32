-- ===== src/Tlv/Writers.antt =====
-- The writers put the documented bytes behind what the buffer holds, and nothing else.
use byo_redis.Prelude.{ℕ, List, [], ◌∷◌, ◌++◌, length, ap, ◌∙◌, sym, refl}
use mathlib.Core.List.{append_assoc, append-nil}
use byo_redis.Prelude.Run.{Run, ok, Returns, ◌>>=◌}
use byo_redis.Buffer.{Buffer, append}
use byo_redis.Buffer.View.{content, marks, IsBuffer, Holds}
use byo_redis.Buffer.Writes.{append-Holds}
use byo_redis.Tlv.{
  tag_nil, tag_err, tag_str, tag_int, tag_dbl, tag_arr, u32_bytes, u64_bytes, out_nil, out_str,
  out_int, out_dbl, out_err, out_arr,
}

-- `f` puts the bytes `ds` behind those that a buffer holds; the placeholders stay.
pub record Writes (ds : List ℕ) (f : Buffer → Run Buffer) : Type 0 where
  pub on : (b : Buffer) → IsBuffer b → Returns (f b) (Holds (content b ++ ds) (marks b))

pub Writes-append : (ds : List ℕ) → Writes ds (λ b. append b ds)
Writes-append ds = record { on = λ b v. append-Holds b ds v }

-- Writers in sequence write in sequence.
pub Writes-then :
    {ds es : List ℕ} {f g : Buffer → Run Buffer}
    → Writes ds f
    → Writes es g
    → Writes (ds ++ es) (λ b. f b >>= g)
Writes-then {ds} {es} {f} {g} w x = record {
  on = λ b v.
      let (c, run, h) = w.on b v in
      let (d, run', k) = x.on c h.valid in
      (
        d,
        rw run run',
        record {
          valid = k.valid;
          bytes_eq =
              k.bytes_eq ∙ ap (λ bytes. bytes ++ es) h.bytes_eq ∙ append_assoc (content b) ds es;
          marks_eq = k.marks_eq ∙ h.marks_eq;
        },
      );
}

-- the scalar replies of the protocol
pub data Reply : Type 0 where
  nil : Reply
  str : List ℕ → Reply
  int : ℕ → Reply
  dbl : ℕ → Reply
  err : ℕ → List ℕ → Reply

-- the format that the table in tlv.hh documents
unfoldable pub wire : Reply → List ℕ
wire nil = tag_nil ∷ []
wire (str s) = tag_str ∷ (u32_bytes (length s) ++ s)
wire (int w) = tag_int ∷ u64_bytes w
wire (dbl w) = tag_dbl ∷ u64_bytes w
wire (err code text) = tag_err ∷ (u32_bytes code ++ (u32_bytes (length text) ++ text))

-- the writer that the commands call for each
abbrev pub out : Reply → Buffer → Run Buffer
out nil b = out_nil b
out (str s) b = out_str b s
out (int w) b = out_int b w
out (dbl w) b = out_dbl b w
out (err code text) b = out_err b code text

pub out-Writes : (r : Reply) → Writes (wire r) (out r)
unfolding wire out_nil out_str out_int out_dbl out_err
out-Writes nil = Writes-append (tag_nil ∷ [])
out-Writes (str s) =
    Writes-then (Writes-append (tag_str ∷ []))
      (Writes-then (Writes-append (u32_bytes (length s))) (Writes-append s))
out-Writes (int w) = Writes-then (Writes-append (tag_int ∷ [])) (Writes-append (u64_bytes w))
out-Writes (dbl w) = Writes-then (Writes-append (tag_dbl ∷ [])) (Writes-append (u64_bytes w))
out-Writes (err code text) = Writes-then (Writes-append (tag_err ∷ [])) (
    Writes-then (Writes-append (u32_bytes code))
      (Writes-then (Writes-append (u32_bytes (length text))) (Writes-append text)))

pub out_arr-Writes : (n : ℕ) → Writes (tag_arr ∷ u32_bytes n) (λ b. out_arr b n)
unfolding out_arr
out_arr-Writes n = Writes-then (Writes-append (tag_arr ∷ [])) (Writes-append (u32_bytes n))

-- Each scalar writer succeeds on every well-formed buffer, appends exactly the documented bytes of
-- the reply, and keeps the bytes before them and the placeholders.
pub out-Holds :
    (r : Reply) (b : Buffer)
    → IsBuffer b
    → Returns (out r b) (Holds (content b ++ wire r) (marks b))
out-Holds r b v = (out-Writes r).on b v

-- several replies in sequence
unfoldable pub wires : List Reply → List ℕ
wires [] = []
wires (r ∷ rs) = wire r ++ wires rs

unfoldable pub out_all : List Reply → Buffer → Run Buffer
out_all [] b = ok b
out_all (r ∷ rs) b = out r b >>= out_all rs

pub out_all-Writes : (rs : List Reply) → Writes (wires rs) (out_all rs)
unfolding wires out_all
out_all-Writes [] = record {
  on = λ b v.
      (b, refl, record { valid = v; bytes_eq = sym (append-nil (content b)); marks_eq = refl });
}
out_all-Writes (r ∷ rs) = Writes-then (out-Writes r) (out_all-Writes rs)
