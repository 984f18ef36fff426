-- ===== src/Util/Tests.antt =====
-- The helpers of include/util.h on small numbers.
use tengdb.Common.{◌≤◌, ◌≡◌, arith, [], ◌∷◌, ◌++◌}
use tengdb.Common.Run.{ok}
use tengdb.Util.Arrays.{encode_array, decode_array, decode_array-encode_array}
use tengdb.Util.BitWidth.{
  decode_bit_width, width_code, get_closest_fixed_bits, get_closest_fixed_bits_least,
}
use tengdb.Util.Codec.{encode, decode, decode-encode}

get_closest_fixed_bits_least_example :
    (33 ≤ get_closest_fixed_bits 33)
    × (decode_bit_width (width_code 33) ≡ get_closest_fixed_bits 33)
    × (33 ≤ decode_bit_width 29 → get_closest_fixed_bits 33 ≤ decode_bit_width 29)
get_closest_fixed_bits_least_example = get_closest_fixed_bits_least 33 29 (omega arith)

decode-encode_example : decode 4 (encode 4 70000 ++ 9 ∷ []) ≡ ok (70000, 9 ∷ [])
decode-encode_example = decode-encode 4 70000 (9 ∷ []) (omega arith)

decode_array-encode_array_example :
    decode_array 4 2 (encode_array 4 (70000 ∷ 3 ∷ []) ++ 9 ∷ []) ≡ ok (70000 ∷ 3 ∷ [], 9 ∷ [])
decode_array-encode_array_example =
    decode_array-encode_array 4 (70000 ∷ 3 ∷ []) (9 ∷ []) (omega arith, (omega arith, tt))
