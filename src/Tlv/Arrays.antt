-- ===== src/Tlv/Arrays.antt =====
-- Arrays whose length is filled in when their elements are written.
use byo_redis.Prelude.{
  ℕ, zero, suc, ◌+◌, ◌-◌, ◌≡◌, refl, List, [], ◌∷◌, ◌++◌, length, arith, ap, sym, ◌∙◌, take, drop,
  get_elem?, some, length-append,
}
use mathlib.Core.List.{append_assoc}
use byo_redis.Prelude.Run.{Run, ok, Returns, ◌>>=◌}
use byo_redis.Prelude.Slices.{patch, take-append_left, drop-append_left, drop-drop}
use native.Mathlib.Nat.{zero-add, suc-add}
use byo_redis.Buffer.{Buffer, push_placeholder, write_at}
use byo_redis.Buffer.View.{content, marks, IsBuffer, Holds}
use byo_redis.Buffer.Writes.{
  append-Holds, push_placeholder-Holds, pop_placeholder-Popped, write_at-Holds,
}
use byo_redis.Tlv.{tag_arr, u32_bytes, byte_at, out_begin_arr, out_end_arr}
use byo_redis.Tlv.Words.{length-u32_bytes}
use byo_redis.Tlv.Writers.{Writes, Reply, wires, out_all, out_all-Writes}

-- a write over the block `old` of the same length replaces it
pub patch_block :
    (xs old ys ds : List ℕ)
    → length old ≡ length ds
    → patch (xs ++ (old ++ ys)) (length xs) ds ≡ xs ++ (ds ++ ys)
unfolding patch
patch_block xs old ys ds e =
    let past : drop (length xs + length ds) (xs ++ (old ++ ys)) ≡ ys =
      sym (drop-drop (length ds) (length xs) (xs ++ (old ++ ys)))
      ∙ rw (drop-append_left xs (old ++ ys), ← e) (drop-append_left old ys) in
    rw (take-append_left xs (old ++ ys), past)

get_elem?-take :
    (xs : List ℕ) (n k : ℕ) {x : ℕ} → get_elem? (take n xs) k ≡ some x → get_elem? xs k ≡ some x
get_elem?-take xs zero k e = cc
get_elem?-take [] (suc n) k e = cc
get_elem?-take (x ∷ xs) (suc n) zero e = e
get_elem?-take (x ∷ xs) (suc n) (suc k) e = get_elem?-take xs n k e

get_elem?-drop : (xs : List ℕ) (i k : ℕ) → get_elem? (drop i xs) k ≡ get_elem? xs (i + k)
get_elem?-drop xs zero k = rw zero-add
get_elem?-drop [] (suc i) k = refl
get_elem?-drop (x ∷ xs) (suc i) k = rw suc-add (get_elem?-drop xs i k)

get_elem?-append_right : (xs ys : List ℕ) (x : ℕ) → get_elem? (xs ++ (x ∷ ys)) (length xs) ≡ some x
get_elem?-append_right [] ys x = refl
get_elem?-append_right (y ∷ xs) ys x = get_elem?-append_right xs ys x

-- a byte that the buffer holds can be read in the vector
pub byte_at-ok :
    (b : Buffer) (pre post : List ℕ) (x : ℕ)
    → content b ≡ pre ++ (x ∷ post)
    → byte_at b (b.readable_begin + length pre) ≡ ok x
unfolding byte_at content
byte_at-ok b pre post x e =
    let here = rw (← e) at (get_elem?-append_right pre post x) in
    let found =
      sym (get_elem?-drop b.buf b.readable_begin (length pre))
      ∙ get_elem?-take (drop b.readable_begin b.buf) _ (length pre) here in
    rw (found, byte_at)

-- a block in the text is replaced by one of the same length
pub fill-Holds :
    (b : Buffer) (pre old new post ms : List ℕ)
    → Holds (pre ++ (old ++ post)) ms b
    → length old ≡ length new
    → Returns
        (write_at b (b.readable_begin + length pre) new)
        (λ c. Holds (pre ++ (new ++ post)) ms c × (c.readable_begin ≡ b.readable_begin))
fill-Holds b pre old new post ms h e =
    let size : length (content b) ≡ length pre + (length old + length post) =
      ap length h.bytes_eq
      ∙ omega (arith, length-append pre (old ++ post), length-append old post) in
    let (c, run, k) = write_at-Holds b (length pre) new h.valid (omega arith) in
    (
      c,
      run,
      (
        record {
          valid = k.0.valid;
          bytes_eq = k.0.bytes_eq ∙ rw h.bytes_eq (patch_block pre old post new e);
          marks_eq = k.0.marks_eq ∙ h.marks_eq;
        },
        k.1,
      ),
    )

end_arr-Holds :
    (b : Buffer) (n : ℕ) (pre old ds ms : List ℕ)
    → Holds ((pre ++ (tag_arr ∷ [])) ++ (old ++ ds)) (length (pre ++ (tag_arr ∷ [])) ∷ ms) b
    → length old ≡ 4
    → Returns (out_end_arr b n) (Holds ((pre ++ (tag_arr ∷ [])) ++ (u32_bytes n ++ ds)) ms)
unfolding out_end_arr
end_arr-Holds b n pre old ds ms h e =
    let head = pre ++ (tag_arr ∷ []) in
    let ((pos, c), run, p) = (pop_placeholder-Popped b (length head) ms h.valid h.marks_eq).0 in
    let bytes = p.same.bytes_eq ∙ h.bytes_eq in
    let c-Holds : Holds (head ++ (old ++ ds)) ms c = record {
      valid = p.same.valid;
      bytes_eq = bytes;
      marks_eq = p.same.marks_eq;
    } in
    let (d, run', k) =
      fill-Holds c head old (u32_bytes n) ds ms c-Holds (e ∙ sym (length-u32_bytes n)) in
    let tag =
      byte_at-ok c pre (old ++ ds) tag_arr (bytes ∙ append_assoc pre (tag_arr ∷ []) (old ++ ds)) in
    let before : pos - 1 ≡ c.readable_begin + length pre =
      omega (arith, p.position, p.begin, length-append pre (tag_arr ∷ [])) in
    let there : pos ≡ c.readable_begin + length head = omega (arith, p.position, p.begin) in
    (d, rw (run, before, tag, there) run', k.0)

-- `out_begin_arr`, then a writer of the elements `ds`, then `out_end_arr` with the count `n`:
-- the buffer ends with the header of an array of `n` elements and the elements, whatever moves
-- the writes between caused, and the placeholders are those from before.
pub array-Writes :
    (n : ℕ) (ds : List ℕ) {f : Buffer → Run Buffer}
    → Writes ds f
    → Writes (tag_arr ∷ (u32_bytes n ++ ds)) (λ b. out_begin_arr b >>= f >>= λ c. out_end_arr c n)
unfolding out_begin_arr
array-Writes n ds {f} w = record {
  on = λ b v.
      let (c, run, h) = append-Holds b (tag_arr ∷ []) v in
      let p = push_placeholder-Holds c h.valid in
      let (d, run', k) = append-Holds (push_placeholder c) (u32_bytes 0) p.valid in
      let (e, run'', l) = w.on d k.valid in
      let head = content b ++ (tag_arr ∷ []) in
      let bytes : content e ≡ head ++ (u32_bytes 0 ++ ds) =
        l.bytes_eq
        ∙ ap (λ bs. bs ++ ds) (k.bytes_eq ∙ ap (λ bs. bs ++ u32_bytes 0) (p.bytes_eq ∙ h.bytes_eq))
        ∙ append_assoc head (u32_bytes 0) ds in
      let ms : marks e ≡ length head ∷ marks b =
        l.marks_eq ∙ k.marks_eq ∙ p.marks_eq ∙ cc (ap length h.bytes_eq, h.marks_eq) in
      let (g, last, m) =
        end_arr-Holds e n (content b) (u32_bytes 0) ds (marks b)
          (record { valid = l.valid; bytes_eq = bytes; marks_eq = ms }) (length-u32_bytes 0) in
      (
        g,
        rw (run, run', run'') last,
        record {
          valid = m.valid;
          bytes_eq = m.bytes_eq ∙ append_assoc (content b) (tag_arr ∷ []) (u32_bytes n ++ ds);
          marks_eq = m.marks_eq;
        },
      );
}

-- `out_begin_arr`, the writers of the elements, and `out_end_arr` with their number succeed on every
-- well-formed buffer and append the array as if its length had been known: the header with the
-- number of elements, then the elements. The bytes before and the placeholders are kept, whatever
-- moves the writes caused.
pub array-Holds :
    (rs : List Reply) (b : Buffer)
    → IsBuffer b
    → Returns
        (out_begin_arr b >>= out_all rs >>= λ c. out_end_arr c (length rs))
        (Holds (content b ++ (tag_arr ∷ (u32_bytes (length rs) ++ wires rs))) (marks b))
array-Holds rs b v = (array-Writes (length rs) (wires rs) (out_all-Writes rs)).on b v
