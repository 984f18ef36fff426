-- ===== src/Rle/Repeats.antt =====
-- src/orc/RLE2.cpp: nextShortRepeats in a build without `__AVX2__`.
pub mod RoundTrip
use tengdb.Common.{ℕ, zero, suc, ◌+◌, ◌/◌, ◌^◌, Bool, bit_and}
use tengdb.Common.Memory.{Memory, store}
use tengdb.Common.Run.{Read, ◌>>=◌, pure, next_byte}
use tengdb.ColumnInfo.EncodingInfo.{EncodingInfo, update_encoding_info}
use tengdb.Rle.Bytes.{read_long_be}
use tengdb.Rle.Direct.{Decoded}
use tengdb.Rle.Word.{convert}

abbrev pub min_repeat : ℕ
min_repeat = 3

-- `for(; pos < end; ++pos) { result[pos] = value; }` with `n` rounds left.
unfoldable pub fill : ℕ → ℕ → ℕ → Memory → Memory
fill zero pos value m = m
fill (suc n) pos value m = fill n (pos + 1) value (store m pos value)

-- Here the values are signed if the decoder was made so.
unfoldable pub next_short_repeats : ℕ → Bool → Bool → Memory → ℕ → EncodingInfo → Read Decoded
next_short_repeats w issigned codegen result offset info = do
  first ← next_byte
  let byte_size = bit_and (first / 2 ^ 3) 0x07 + 1
  let run_length = bit_and first 0x07 + min_repeat
  raw ← read_long_be w byte_size
  pure (record {
    result = fill run_length offset (convert w issigned raw) result;
    info = update_encoding_info codegen info byte_size run_length;
    run_length = run_length;
  })
