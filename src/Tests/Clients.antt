-- ===== src/Tests/Clients.antt =====
-- Tests of src/client/api.cc.
use byo_redis.Prelude.{◌+◌, ◌≡◌, refl, [], ◌∷◌, ◌++◌, arith}
use byo_redis.Prelude.Run.{ok, fault, out_of_bounds}
use byo_redis.Prelude.Int.{pos}
use byo_redis.Buffer.{read_range}
use byo_redis.Tlv.{tag_arr, tag_err, u32_bytes, u64_bytes}
use byo_redis.Tlv.Writers.{str, int, err, wire, wires}
use byo_redis.Client.{line_str, line_int, line_arr, line_end, printed, print_err, print_payload}
use byo_redis.Client.Printing.{line_of, print_payload-wire, print_payload-wires}

print_payload-wire_example :
    print_payload (wire (err 4 (110 ∷ 111 ∷ [])))
    ≡ ok (printed (line_of (err 4 (110 ∷ 111 ∷ []))) (pos 11))
unfolding wire u32_bytes
print_payload-wire_example = print_payload-wire (err 4 (110 ∷ 111 ∷ [])) (omega arith)

print_payload-wires_example :
    print_payload (tag_arr ∷ (u32_bytes 2 ++ wires (str (97 ∷ []) ∷ int 5 ∷ [])))
    ≡ ok (record {
      lines = line_arr 2 ∷ line_str (97 ∷ []) ∷ line_int 5 ∷ line_end ∷ [];
      result = pos 20;
    })
unfolding wires wire u32_bytes u64_bytes
print_payload-wires_example =
    print_payload-wires (str (97 ∷ []) ∷ int 5 ∷ []) (omega arith, (omega arith, tt)) (omega arith)

-- a length of 2 ^ 32 - 9 passes the test of the size, and the text is read beyond the payload
wrapped :
    print_err (tag_err ∷ (u32_bytes 1 ++ u32_bytes (4294967295 + 1 + 4294967287)))
    ≡ fault out_of_bounds
unfolding print_err read_range u32_bytes
wrapped = refl
