-- ===== src/Rle/Patched.antt =====
-- src/orc/RLE2.cpp: nextPatched.
use tengdb.Common.{ℕ, zero, suc, ◌+◌, ◌-◌, ◌*◌, ◌/◌, ◌%◌, ◌^◌, Bool, true, false, bit_and, bit_or}
use tengdb.Common.{ltb, ◌==◌, if◌then◌else◌}
use tengdb.Common.Memory.{Memory, store}
use tengdb.Common.Run.{Read, ok, fault, wide_shift, corrupt, ◌>>=◌, ◌>>◌, pure, next_byte, shl}
use tengdb.ColumnInfo.EncodingInfo.{EncodingInfo, update_encoding_info}
use tengdb.Rle.Bytes.{read_long_be}
use tengdb.Rle.Direct.{Decoded}
use tengdb.Rle.Header.{width_field, run_length_field}
use tengdb.Rle.Longs.{read_longs}
use tengdb.Rle.Word.{add, sub, is_negative}
use tengdb.Util.BitWidth.{decode_bit_width, get_closest_fixed_bits}

-- `printf(...); exit(0);` unless the test passes.
unfoldable pub check : Bool → Read (Unit {0})
check true bytes = ok (tt, bytes)
check false bytes = fault corrupt

-- The base is stored as a sign bit and a magnitude.
unfoldable pub signed_base : ℕ → ℕ → ℕ → ℕ
signed_base w mask base =
    if bit_and base mask == 0 then base else sub w 0 (bit_and base (2 ^ w - 1 - mask))

-- `for(pos = offset; pos < offset + runLength; ++pos) { result[pos] = base + result[pos]; }`
unfoldable pub add_base : ℕ → ℕ → ℕ → ℕ → Memory → Memory
add_base w base zero pos m = m
add_base w base (suc n) pos m = add_base w base n (pos + 1) (store m pos (add w base (m pos)))

-- `static_cast<uint64_t>(x) >> k` for a signed `x` of `w` bits.
unfoldable pub shift_gap : ℕ → ℕ → ℕ → Read ℕ
shift_gap w x k bytes = elim (ltb k 64) [
  | true ↦ ok ((if is_negative w x then x + 2 ^ 64 - 2 ^ w else x) / 2 ^ k, bytes)
  | false ↦ fault wide_shift
]

-- The patch list, from entry `i` on: the position moves by the gap, and the value there gets the
-- patch above its `bit_size` bits.
unfoldable pub apply_patches : ℕ → ℕ → ℕ → ℕ → ℕ → Memory → ℕ → ℕ → ℕ → Memory → Read Memory
apply_patches w base bit_size patch_width mask unpacked zero i pos m = pure m
apply_patches w base bit_size patch_width mask unpacked (suc n) i pos m = do
  gap ← shift_gap w (unpacked i) patch_width
  let pos' = (pos + gap) % 2 ^ 64
  shifted ← shl w (bit_and (unpacked i) mask) bit_size
  let patched = bit_or (sub w (m pos') base) shifted
  apply_patches w base bit_size patch_width mask unpacked n (i + 1) pos'
      (store m pos' (add w base patched))

-- `result+offset` as a pointer of its own, and `result` after a write through it.
unfoldable pub behind : Memory → ℕ → Memory
behind m offset p = m (offset + p)

unfoldable pub written_behind : Memory → ℕ → Memory → Memory
written_behind m offset tail p = if ltb p offset then m p else tail (p - offset)

-- The values of `unpackedPatch` before it is filled are not read.
unfoldable pub next_patched : ℕ → Bool → Memory → ℕ → EncodingInfo → Read Decoded
next_patched w codegen result offset info = do
  first ← next_byte
  second ← next_byte
  third ← next_byte
  fourth ← next_byte
  let bit_size = decode_bit_width (width_field first)
  let run_length = run_length_field first second
  let byte_size = bit_and (third / 2 ^ 5) 0x07 + 1
  let patch_bit_size = decode_bit_width (bit_and third 0x1f)
  let pgw = bit_and (fourth / 2 ^ 5) 0x07 + 1
  let cfb = get_closest_fixed_bits (patch_bit_size + pgw)
  check (ltb cfb 65)
  let pl = bit_and fourth 0x1f
  check (ltb 0 pl)
  raw ← read_long_be w byte_size
  sign ← shl w 1 (byte_size * 8 - 1)
  let base = signed_base w sign raw
  tail ← read_longs w (behind result offset) 0 run_length bit_size false
  unpacked ← read_longs w (λ _. 0) 0 pl cfb false
  one ← shl w 1 patch_bit_size
  let based = add_base w base run_length offset (written_behind result offset tail)
  patched ← apply_patches w base bit_size patch_bit_size (sub w one 1) unpacked pl 0 offset based
  pure (record {
    result = patched;
    info = update_encoding_info codegen info bit_size run_length;
    run_length = run_length;
  })
