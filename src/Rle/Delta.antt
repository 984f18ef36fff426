-- ===== src/Rle/Delta.antt =====
-- src/orc/RLE2.cpp: nextDelta in a build without `__AVX2__`.
pub mod Loops
pub mod RoundTrip
use tengdb.Common.{ℕ, zero, suc, ◌+◌, ◌-◌, ◌%◌, ◌^◌, Bool, true, false, ◌==◌, if◌then◌else◌, not}
use tengdb.Common.Memory.{Memory, store}
use tengdb.Common.Run.{Read, ◌>>=◌, pure, next_byte}
use tengdb.ColumnInfo.EncodingInfo.{EncodingInfo, update_encoding_info}
use tengdb.Rle.Bytes.{read_vulong, read_vslong}
use tengdb.Rle.Direct.{Decoded}
use tengdb.Rle.Header.{width_field, run_length_field}
use tengdb.Rle.Longs.{read_longs}
use tengdb.Rle.Repeats.{fill}
use tengdb.Rle.Word.{add, sub, is_negative}
use tengdb.Util.BitWidth.{decode_bit_width}

-- `for ( ;pos < end;) { prevValue = result[pos++] = prevValue + deltaBase; }`
unfoldable pub add_fixed : ℕ → ℕ → ℕ → ℕ → ℕ → Memory → Memory
add_fixed w zero pos delta prev m = m
add_fixed w (suc n) pos delta prev m =
    add_fixed w n (pos + 1) delta (add w prev delta) (store m pos (add w prev delta))

-- `for ( ; pos < end; ++pos) { prevValue = result[pos] = prevValue - result[pos]; }`, and the loop
-- with `+` where the flag is off.
unfoldable pub accumulate : ℕ → Bool → ℕ → ℕ → ℕ → Memory → Memory
accumulate w down zero pos prev m = m
accumulate w down (suc n) pos prev m =
    let value = if down then sub w prev (m pos) else add w prev (m pos) in
    accumulate w down n (pos + 1) value (store m pos value)

-- The branch for `bitSize == 0`, after `result[pos++] = firstValue`; `end` is a position of an array
-- and has not wrapped.
unfoldable pub fixed_delta : ℕ → Memory → ℕ → ℕ → ℕ → ℕ → Memory
fixed_delta w result pos end first_value delta =
    if not (delta == 0)
    then add_fixed w (end - pos) pos delta first_value result
    else fill (end - pos) pos first_value result

-- The other branch: the second value is stored also where the run has one value only, and then
-- `end - pos` wraps to 2 ^ 64 - 1.
unfoldable pub packed_delta : ℕ → Memory → ℕ → ℕ → ℕ → ℕ → ℕ → Read Memory
packed_delta w result pos end first_value delta bit_size = do
  let prev = add w first_value delta
  let pos' = pos + 1
  let remaining = (end + 2 ^ 64 - pos') % 2 ^ 64
  result' ← read_longs w (store result pos prev) pos' remaining bit_size false
  pure (accumulate w (is_negative w delta) (end - pos') pos' prev result')

-- `issigned ? readVslong() : readVulong()`
unfoldable pub read_first : ℕ → Bool → Read ℕ
read_first w true = read_vslong w
read_first w false = read_vulong w

-- A width field of zero stands for the width zero.
unfoldable pub delta_width : ℕ → ℕ
delta_width field = if field == 0 then 0 else decode_bit_width field

unfoldable pub delta_values : ℕ → Memory → ℕ → ℕ → ℕ → ℕ → ℕ → Read Memory
delta_values w result pos end first_value delta bit_size bytes = elim (bit_size == 0) [
  | true ↦ pure (fixed_delta w result pos end first_value delta) bytes
  | false ↦ packed_delta w result pos end first_value delta bit_size bytes
]

unfoldable pub next_delta : ℕ → Bool → Bool → Memory → ℕ → EncodingInfo → Read Decoded
next_delta w issigned codegen result offset info = do
  first ← next_byte
  second ← next_byte
  let bit_size = delta_width (width_field first)
  let run_length = run_length_field first second
  first_value ← read_first w issigned
  delta ← read_vslong w
  result' ←
      delta_values w (store result offset first_value) (offset + 1) (offset + run_length)
        first_value delta bit_size
  pure (record {
    result = result';
    info = update_encoding_info codegen info bit_size run_length;
    run_length = run_length;
  })
