-- ===== src/Rle/Vectorized/Next.antt =====
-- src/orc/RLE2.cpp: nextDirect, nextPatched and next in a build with `__AVX2__`.
pub mod Off
use tengdb.Common.{ℕ, zero, suc, ◌+◌, ◌-◌, ◌*◌, ◌/◌, ◌^◌, Bool, false, bit_and, ltb}
use tengdb.Common.{List, [], ◌∷◌, length}
use tengdb.Common.Memory.{Memory}
use tengdb.Common.Run.{Run, Read, ok, fault, stuck, ◌>>=◌, ◌>>◌, pure, next_byte, shl}
use tengdb.ColumnInfo.EncodingInfo.{EncodingInfo, update_encoding_info}
use tengdb.ColumnInfo.RleInfo.{RleInfo}
use tengdb.Rle.Bytes.{read_long_be}
use tengdb.Rle.Direct.{Decoded}
use tengdb.Rle.Header.{width_field, run_length_field}
use tengdb.Rle.Next.{
  EncodingType, short_repeat, direct, patched_base, delta, State, encoding_of, finish_run,
}
use tengdb.Rle.Patched.{check, signed_base, add_base, apply_patches, behind, written_behind}
use tengdb.Rle.Vectorized.{vector_read_longs}
use tengdb.Rle.Vectorized.Delta.{vector_next_delta, vector_next_short_repeats}
use tengdb.Rle.Word.{sub}
use tengdb.Util.BitWidth.{decode_bit_width, get_closest_fixed_bits}

-- `vectorization` is FLAGS_vectorization.
unfoldable pub vector_next_direct : Bool → ℕ → Bool → Memory → ℕ → EncodingInfo → Read Decoded
vector_next_direct vectorization w codegen result offset info = do
  first ← next_byte
  second ← next_byte
  let bit_size = decode_bit_width (width_field first)
  let run_length = run_length_field first second
  result' ← vector_read_longs vectorization w result offset run_length bit_size info.issigned
  pure (record {
    result = result';
    info = update_encoding_info codegen info bit_size run_length;
    run_length = run_length;
  })

unfoldable pub vector_next_patched : Bool → ℕ → Bool → Memory → ℕ → EncodingInfo → Read Decoded
vector_next_patched vectorization w codegen result offset info = do
  first ← next_byte
  second ← next_byte
  third ← next_byte
  fourth ← next_byte
  let bit_size = decode_bit_width (width_field first)
  let run_length = run_length_field first second
  let byte_size = bit_and (third / 2 ^ 5) 0x07 + 1
  let patch_bit_size = decode_bit_width (bit_and third 0x1f)
  let pgw = bit_and (fourth / 2 ^ 5) 0x07 + 1
  let cfb = get_closest_fixed_bits (patch_bit_size + pgw)
  check (ltb cfb 65)
  let pl = bit_and fourth 0x1f
  check (ltb 0 pl)
  raw ← read_long_be w byte_size
  sign ← shl w 1 (byte_size * 8 - 1)
  let base = signed_base w sign raw
  tail ← vector_read_longs vectorization w (behind result offset) 0 run_length bit_size false
  unpacked ← vector_read_longs vectorization w (λ _. 0) 0 pl cfb false
  one ← shl w 1 patch_bit_size
  let based = add_base w base run_length offset (written_behind result offset tail)
  patched ← apply_patches w base bit_size patch_bit_size (sub w one 1) unpacked pl 0 offset based
  pure (record {
    result = patched;
    info = update_encoding_info codegen info bit_size run_length;
    run_length = run_length;
  })

-- One case of the switch.
unfoldable pub vector_next_run : Bool → ℕ → Bool → Bool → EncodingType → State → Read State
vector_next_run vectorization w issigned codegen short_repeat s = do
  d ←
      vector_next_short_repeats vectorization w issigned codegen s.result s.offset
        s.cinfo.repeat_info
  pure (finish_run s (λ i. record (s.cinfo) { repeat_info = i }) d)
vector_next_run vectorization w issigned codegen direct s = do
  d ← vector_next_direct vectorization w codegen s.result s.offset s.cinfo.direct_info
  pure (finish_run s (λ i. record (s.cinfo) { direct_info = i }) d)
vector_next_run vectorization w issigned codegen patched_base s = do
  d ← vector_next_patched vectorization w codegen s.result s.offset s.cinfo.patched_info
  pure (finish_run s (λ i. record (s.cinfo) { patched_info = i }) d)
vector_next_run vectorization w issigned codegen delta s = do
  d ← vector_next_delta vectorization w issigned codegen s.result s.offset s.cinfo.delta_info
  pure (finish_run s (λ i. record (s.cinfo) { delta_info = i }) d)

unfoldable pub vector_next_loop : ℕ → Bool → ℕ → Bool → Bool → State → List ℕ → Run State
vector_next_loop fuel vectorization w issigned codegen s [] = ok s
vector_next_loop zero vectorization w issigned codegen s (b ∷ bytes) = fault stuck
vector_next_loop (suc fuel) vectorization w issigned codegen s (b ∷ bytes) =
    elim (vector_next_run vectorization w issigned codegen (encoding_of b) s (b ∷ bytes)) [
      | ok (s', rest) ↦ vector_next_loop fuel vectorization w issigned codegen s' rest
      | fault e ↦ fault e
    ]

unfoldable pub vector_next : Bool → ℕ → Bool → Bool → Memory → RleInfo → List ℕ → Run State
vector_next vectorization w issigned codegen result cinfo bytes =
    vector_next_loop (length bytes) vectorization w issigned codegen
      (record { result = result; offset = 0; cinfo = cinfo }) bytes
