-- ===== src/Rle/Bytes.antt =====
-- src/orc/RLE2.cpp: readLongBE, readVulong and readVslong.
pub mod RoundTrip
pub mod Local
use tengdb.Common.{ℕ, zero, suc, ◌+◌, ◌*◌, ◌%◌, ◌^◌, List, [], ◌∷◌, bit_and, bit_or, ltb}
use tengdb.Common.{true, false, if◌then◌else◌}
use tengdb.Common.Run.{Run, Read, ok, fault, past_end, wide_shift, promoted}
use tengdb.Common.Run.{◌>>=◌, pure, next_byte, shl}
use tengdb.Rle.Word.{un_zigzag}

-- `while (n > 0) { n--; val = data[index++]; ret |= (val << (n * 8)); }`
unfoldable pub read_long_be_loop : ℕ → ℕ → ℕ → Read ℕ
read_long_be_loop w zero ret = pure ret
read_long_be_loop w (suc n) ret = do
  val ← next_byte
  shifted ← shl w (val % 2 ^ w) (n * 8)
  read_long_be_loop w n (bit_or ret shifted)

unfoldable pub read_long_be : ℕ → ℕ → Read ℕ
read_long_be w bsz = read_long_be_loop w bsz 0

-- `do { b = data[index++]; ret |= (0x7f & b) << offset; offset += 7; } while (b >= 0x80);`
unfoldable pub read_vulong_loop : ℕ → ℕ → ℕ → Read ℕ
read_vulong_loop w ret offset [] = fault past_end
read_vulong_loop w ret offset (b ∷ bytes) =
    let ret' = bit_or ret (bit_and 0x7f b * 2 ^ offset % 2 ^ w) in
    let more = read_vulong_loop w ret' (offset + 7) bytes in
    elim (ltb offset (promoted w)) [
      | true ↦ if ltb b 0x80 then ok (ret', bytes) else more
      | false ↦ fault wide_shift
    ]

unfoldable pub read_vulong : ℕ → Read ℕ
read_vulong w = read_vulong_loop w 0 0

unfoldable pub read_vslong : ℕ → Read ℕ
read_vslong w = do value ← read_vulong w; pure (un_zigzag w value)
