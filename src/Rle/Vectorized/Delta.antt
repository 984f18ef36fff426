-- ===== src/Rle/Vectorized/Delta.antt =====
-- src/orc/RLE2.cpp: nextDelta and nextShortRepeats under `__AVX2__`.
pub mod Prefix
pub mod Rounds
pub mod Equal
pub mod Fill
use tengdb.Common.{
  ℕ, zero, suc, ◌+◌, ◌-◌, ◌*◌, ◌/◌, ◌%◌, ◌^◌, [], ◌∷◌, Bool, true, false, ◌&&◌, not,
}
use tengdb.Common.{ltb, ◌==◌, if◌then◌else◌, bit_and}
use tengdb.Common.Memory.{Memory, store}
use tengdb.Common.Run.{Read, ◌>>=◌, pure, next_byte}
use tengdb.ColumnInfo.EncodingInfo.{EncodingInfo, update_encoding_info}
use tengdb.Rle.Bytes.{read_vslong, read_long_be}
use tengdb.Rle.Delta.{add_fixed, accumulate, read_first, delta_width}
use tengdb.Rle.Direct.{Decoded}
use tengdb.Rle.Header.{width_field, run_length_field}
use tengdb.Rle.Repeats.{fill, min_repeat}
use tengdb.Rle.Vector.{Vector, set_epi32, set1_epi32, permutevar8x32_epi32, and_si256, add_epi32}
use tengdb.Rle.Vector.{loadu_result, storeu}
use tengdb.Rle.Vectorized.{vector_read_longs}
use tengdb.Rle.Word.{add, is_negative, convert}

abbrev pub ones32 : ℕ
ones32 = 0xFFFFFFFF

-- The constants of nextDelta, the highest lane first.
unfoldable pub permute1 : Vector
permute1 = set_epi32 (6 ∷ 5 ∷ 4 ∷ 3 ∷ 2 ∷ 1 ∷ 0 ∷ 0 ∷ [])

unfoldable pub mask1 : Vector
mask1 = set_epi32 (ones32 ∷ ones32 ∷ ones32 ∷ ones32 ∷ ones32 ∷ ones32 ∷ ones32 ∷ 0 ∷ [])

unfoldable pub permute2 : Vector
permute2 = set_epi32 (5 ∷ 4 ∷ 3 ∷ 2 ∷ 1 ∷ 0 ∷ 0 ∷ 0 ∷ [])

unfoldable pub mask2 : Vector
mask2 = set_epi32 (ones32 ∷ ones32 ∷ ones32 ∷ ones32 ∷ ones32 ∷ ones32 ∷ 0 ∷ 0 ∷ [])

unfoldable pub permute4 : Vector
permute4 = set_epi32 (3 ∷ 2 ∷ 1 ∷ 0 ∷ 0 ∷ 0 ∷ 0 ∷ 0 ∷ [])

unfoldable pub mask4 : Vector
mask4 = set_epi32 (ones32 ∷ ones32 ∷ ones32 ∷ ones32 ∷ 0 ∷ 0 ∷ 0 ∷ 0 ∷ [])

unfoldable pub permute_fetch_top : Vector
permute_fetch_top = set_epi32 (7 ∷ 7 ∷ 7 ∷ 7 ∷ 7 ∷ 7 ∷ 7 ∷ 7 ∷ [])

-- `tmp = permute(x); tmp = tmp & mask; x = x + tmp;`
unfoldable pub add_shifted : Vector → Vector → Vector → Vector
add_shifted permute mask x = add_epi32 x (and_si256 (permutevar8x32_epi32 x permute) mask)

-- The three steps, and `x + base`.
unfoldable pub prefix_sum : Vector → Vector → Vector
prefix_sum base x =
    let x1 = add_shifted permute1 mask1 x in
    let x2 = add_shifted permute2 mask2 x1 in
    let x4 = add_shifted permute4 mask4 x2 in add_epi32 x4 base

-- `for (; pos < trueend ; pos += 8)` with `n` rounds left.
unfoldable pub prefix_rounds : ℕ → ℕ → Vector → Memory → Memory
prefix_rounds zero pos base m = m
prefix_rounds (suc n) pos base m =
    let x = prefix_sum base (loadu_result m pos) in
    prefix_rounds n (pos + 8) (permutevar8x32_epi32 x permute_fetch_top) (storeu 32 m pos x)

-- The branch for `deltaBase >= 0`, once the distances stand from `offset + 2` on.
unfoldable pub vector_sums : Bool → ℕ → ℕ → ℕ → ℕ → ℕ → Memory → Memory
vector_sums vectorization w offset run_length prev delta m =
    let end = offset + run_length in
    let trueend = offset + run_length / 8 * 8 in
    let folded =
      prefix_rounds (run_length / 8) offset (set1_epi32 0) (store m (offset + 1) delta) in
    if vectorization && (w / 8 == 4) && ltb 8 run_length
    then accumulate w false (end - trueend) trueend (folded (trueend - 1)) folded
    else accumulate w false (end - (offset + 2)) (offset + 2) prev m

unfoldable pub vector_packed_delta : Bool → ℕ → Memory → ℕ → ℕ → ℕ → ℕ → ℕ → Read Memory
vector_packed_delta vectorization w result offset run_length first_value delta bit_size = do
  let prev = add w first_value delta
  let pos' = offset + 2
  let end = offset + run_length
  let remaining = (end + 2 ^ 64 - pos') % 2 ^ 64
  result' ←
      vector_read_longs vectorization w (store result (offset + 1) prev) pos' remaining bit_size
        false
  pure (
      if is_negative w delta
      then accumulate w true (end - pos') pos' prev result'
      else vector_sums vectorization w offset run_length prev delta result')

-- `for(int i=0;i<fold;i++)` with the store of eight equal values.
unfoldable pub fill_rounds : ℕ → ℕ → ℕ → Memory → Memory
fill_rounds zero pos value m = m
fill_rounds (suc n) pos value m = fill_rounds n (pos + 8) value (storeu 32 m pos (set1_epi32 value))

-- The branch for `bitSize == 0`, after `result[pos++] = firstValue`.
unfoldable pub vector_fixed_delta : Bool → ℕ → Memory → ℕ → ℕ → ℕ → ℕ → Memory
vector_fixed_delta vectorization w result offset run_length first_value delta =
    let end = offset + run_length in
    let fold = run_length / 8 in
    let pos = offset + fold * 8 in
    if not (delta == 0)
    then add_fixed w (end - (offset + 1)) (offset + 1) delta first_value result
    else if vectorization && (w / 8 == 4)
    then fill (end - pos) pos first_value (fill_rounds fold offset first_value result)
    else fill (end - (offset + 1)) (offset + 1) first_value result

unfoldable pub vector_delta_values : Bool → ℕ → Memory → ℕ → ℕ → ℕ → ℕ → ℕ → Read Memory
vector_delta_values vectorization w result offset run_length first_value delta bit_size bytes =
    elim (bit_size == 0) [
      | true ↦
          pure (vector_fixed_delta vectorization w result offset run_length first_value delta) bytes
      | false ↦
          vector_packed_delta vectorization w result offset run_length first_value delta bit_size
            bytes
    ]

unfoldable pub vector_next_delta : Bool → ℕ → Bool → Bool → Memory → ℕ → EncodingInfo → Read Decoded
vector_next_delta vectorization w issigned codegen result offset info = do
  first ← next_byte
  second ← next_byte
  let bit_size = delta_width (width_field first)
  let run_length = run_length_field first second
  first_value ← read_first w issigned
  delta ← read_vslong w
  result' ←
      vector_delta_values vectorization w (store result offset first_value) offset run_length
        first_value delta bit_size
  pure (record {
    result = result';
    info = update_encoding_info codegen info bit_size run_length;
    run_length = run_length;
  })

-- nextShortRepeats: eight copies are stored first, also for a run of fewer than eight values.
unfoldable pub vector_fill : Bool → ℕ → ℕ → ℕ → ℕ → Memory → Memory
vector_fill vectorization w run_length offset value m =
    if vectorization && (w / 8 == 4)
    then fill (offset + run_length - (offset + 8)) (offset + 8) value
        (storeu 32 m offset (set1_epi32 value))
    else fill run_length offset value m

unfoldable pub vector_next_short_repeats :
    Bool → ℕ → Bool → Bool → Memory → ℕ → EncodingInfo → Read Decoded
vector_next_short_repeats vectorization w issigned codegen result offset info = do
  first ← next_byte
  let byte_size = bit_and (first / 2 ^ 3) 0x07 + 1
  let run_length = bit_and first 0x07 + min_repeat
  raw ← read_long_be w byte_size
  pure (record {
    result = vector_fill vectorization w run_length offset (convert w issigned raw) result;
    info = update_encoding_info codegen info byte_size run_length;
    run_length = run_length;
  })
