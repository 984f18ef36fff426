-- ===== src/Rle/Header.antt =====
-- src/orc/RLE2.cpp: the fields of the first two bytes of a run, which three encodings share.
pub mod Fields
use tengdb.Common.{ℕ, ◌+◌, ◌*◌, ◌/◌, ◌%◌, ◌^◌, bit_and, bit_or}

-- `(firstbyte >> 1) & 0x1f`
unfoldable pub width_field : ℕ → ℕ
width_field first = bit_and (first / 2) 0x1f

-- `runLength = (firstbyte & 0x01) << 8; runLength |= secondbyte; runLength += 1;`
unfoldable pub run_length_field : ℕ → ℕ → ℕ
run_length_field first second = bit_or (bit_and first 0x01 * 2 ^ 8) second + 1

-- `(firstByte >> 6) & 0x03`
unfoldable pub encoding_field : ℕ → ℕ
encoding_field first = bit_and (first / 2 ^ 6) 0x03
