-- ===== src/Rle/Vectorized/Tests.antt =====
-- The vector code of src/orc/RLE2.cpp on concrete bytes.
use tengdb.Common.{ℕ, ◌+◌, ◌≡◌, refl, arith, true, false, List, [], ◌∷◌, inl, inr, replicate}
use tengdb.ColumnInfo.EncodingInfo.{new_info}
use tengdb.ColumnInfo.RleInfo.{RleInfo}
use tengdb.Rle.Next.{next}
use tengdb.Rle.Vectorized.Next.{vector_next}
use tengdb.Rle.Vectorized.Next.Off.{vector_next-next}
use tengdb.Common.Memory.{Memory, store}
use tengdb.Rle.Delta.{accumulate, packed_delta, fixed_delta}
use tengdb.Rle.Longs.{read_longs}
use tengdb.Rle.Repeats.{fill}
use tengdb.Rle.Vectorized.{vector_read_longs}
use tengdb.Rle.Vectorized.Equal.{vector_read_longs-read_longs}
use tengdb.Rle.Vectorized.Delta.{vector_packed_delta, vector_sums, vector_fixed_delta, vector_fill}
use tengdb.Rle.Vectorized.Delta.Equal.{vector_packed_delta-packed_delta, vector_sums-accumulate}
use tengdb.Rle.Vectorized.Delta.Fill.{vector_fixed_delta-fixed_delta, vector_fill-fill}
use tengdb.Rle.Vector.{lane32, shuffle_epi8, permutevar8x32_epi32, set_epi32, set_epi8, srlv_epi32}
use tengdb.Rle.Vector.{and_si256, sub_epi32, srai_epi32, shift_arithmetic, xor_si256, set1_epi32}
use tengdb.Rle.Vector.Masks.{mask0_4to32, mask1_4to32, shift_4to32, and_4to32, one_32, zero_32}
use tengdb.Rle.Vectorized.{spread, spread_bits, un_zigzag32}
use tengdb.Rle.Word.{add, sub, is_negative, un_zigzag}

abbrev zeros : Memory
zeros p = 0

-- Ten values of two bytes, and what a load needs behind them.
abbrev some_bytes : List ℕ
some_bytes =
    1 ∷ 0 ∷ 1 ∷ 1 ∷ 1 ∷ 2 ∷ 1 ∷ 3 ∷ 1 ∷ 4 ∷ 1 ∷ 5 ∷ 1 ∷ 6 ∷ 1 ∷ 7 ∷ 1 ∷ 8 ∷ 1 ∷ 9 ∷ replicate 24 200

vector_read_longs-read_longs_example :
    vector_read_longs true 32 zeros 3 10 16 true some_bytes
    ≡ read_longs 32 zeros 3 10 16 true some_bytes
vector_read_longs-read_longs_example =
    vector_read_longs-read_longs true zeros 3 10 16 true some_bytes (λ e. absurd (omega arith))
      (inr (omega arith)) (ground arith) (omega arith) (inr (omega arith))

vector_packed_delta-packed_delta_example :
    vector_packed_delta true 32 (store zeros 5 7) 5 12 7 3 8 some_bytes
    ≡ packed_delta 32 (store zeros 5 7) (5 + 1) (5 + 12) 7 3 8 some_bytes
vector_packed_delta-packed_delta_example =
    vector_packed_delta-packed_delta true (store zeros 5 7) 5 12 7 3 8 some_bytes (omega arith)
      (omega arith) (omega arith) refl (λ e. absurd (omega arith)) (ground arith)
      (inr (omega arith))

abbrev two_values : Memory
two_values = store (store (λ p. p) 5 7) 6 10

vector_sums-accumulate_example :
    vector_sums true 32 5 12 (add 32 7 3) 3 two_values
    ≡ accumulate 32 false 10 7 (add 32 7 3) two_values
vector_sums-accumulate_example =
    vector_sums-accumulate true 5 12 7 3 two_values (omega arith) (omega arith) refl
      (unfold add in refl)

vector_fixed_delta-fixed_delta_example :
    vector_fixed_delta true 32 (store zeros 5 7) 5 12 7 0
    ≡ fixed_delta 32 (store zeros 5 7) (5 + 1) (5 + 12) 7 0
vector_fixed_delta-fixed_delta_example =
    vector_fixed_delta-fixed_delta true (store zeros 5 7) 5 12 7 0 (omega arith) (omega arith) refl

vector_fill-fill_example : vector_fill true 32 3 5 9 zeros 7 ≡ fill 3 5 9 zeros 7
vector_fill-fill_example = vector_fill-fill true 3 5 9 zeros 7 (omega arith) (inl (omega arith))

-- A mask of 31 leaves the fifth bit of a value of four bits: here 31 for 15.
fifth_bit : lane32 (spread_bits mask0_4to32 mask1_4to32 shift_4to32 and_4to32 (λ _. 0x1f)) 1 ≡ 31
unfolding spread_bits spread shuffle_epi8 permutevar8x32_epi32 set_epi32 set_epi8 srlv_epi32
    and_si256 mask0_4to32 mask1_4to32 shift_4to32 and_4to32
fifth_bit = refl

-- The arithmetic shift copies the sign bit of a code that has 32 bits.
copied_sign :
    (lane32 (un_zigzag32 (set1_epi32 0x80000000)) 0 ≡ 0xC0000000)
    × (un_zigzag 32 0x80000000 ≡ 0x40000000)
unfolding un_zigzag32 and_si256 sub_epi32 srai_epi32 shift_arithmetic is_negative xor_si256
    set1_epi32 set_epi32 one_32 zero_32 sub un_zigzag
copied_sign = (refl, refl)

abbrev fresh_info : RleInfo
fresh_info = record {
  direct_info = new_info;
  repeat_info = new_info;
  patched_info = new_info;
  delta_info = new_info;
}

vector_next-next_example :
    vector_next false 32 true true zeros fresh_info (0x42 ∷ 0 ∷ 7 ∷ [])
    ≡ next 32 true true zeros fresh_info (0x42 ∷ 0 ∷ 7 ∷ [])
vector_next-next_example = vector_next-next 32 true true zeros fresh_info (0x42 ∷ 0 ∷ 7 ∷ [])
