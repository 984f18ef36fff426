-- ===== src/Rle/Direct.antt =====
-- src/orc/RLE2.cpp: nextDirect.
pub mod RoundTrip
use tengdb.Common.{ℕ, ◌+◌, Bool}
use tengdb.Common.Memory.{Memory}
use tengdb.Common.Run.{Read, ◌>>=◌, pure, next_byte}
use tengdb.ColumnInfo.EncodingInfo.{EncodingInfo, update_encoding_info}
use tengdb.Rle.Header.{width_field, run_length_field}
use tengdb.Rle.Longs.{read_longs}
use tengdb.Util.BitWidth.{decode_bit_width}

-- What a decoder of one run leaves: `result`, `*info` and the run length that it returns.
pub record Decoded : Type 0 where
  pub result : Memory
  pub info : EncodingInfo
  pub run_length : ℕ

-- The values are signed if `info` says so; `codegen` is FLAGS_codegen.
unfoldable pub next_direct : ℕ → Bool → Memory → ℕ → EncodingInfo → Read Decoded
next_direct w codegen result offset info = do
  first ← next_byte
  second ← next_byte
  let bit_size = decode_bit_width (width_field first)
  let run_length = run_length_field first second
  result' ← read_longs w result offset run_length bit_size info.issigned
  pure (record {
    result = result';
    info = update_encoding_info codegen info bit_size run_length;
    run_length = run_length;
  })
