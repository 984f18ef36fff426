-- ===== src/Rle/Tests.antt =====
-- The decoders of src/orc/RLE2.cpp on bytes of the ORC specification's kind.
use tengdb.Common.{ℕ, ◌^◌, ◌≤◌, ◌≡◌, ◌≢◌, refl, arith, true, false}
use tengdb.Common.{List, [], ◌∷◌, ◌++◌, length, map, replicate, ◌<◌, ◌^◌}
use tengdb.Common.Memory.{Memory, Holds, Kept}
use tengdb.Common.Run.{ok, fault, stuck, Returns}
use tengdb.ColumnInfo.EncodingInfo.{new_info, update_encoding_info}
use tengdb.Rle.Bytes.{read_long_be, read_vulong, read_vslong}
use tengdb.Rle.Bytes.RoundTrip.{read_long_be-big, read_vulong-IsVarint, read_vslong-IsVarint}
use tengdb.Rle.Delta.{next_delta}
use tengdb.Rle.Delta.Loops.{steps, running}
use tengdb.Rle.Delta.RoundTrip.{
  IsSignedCode, IsUnsignedCode, delta_run, next_delta-fixed, next_delta-packed,
}
use tengdb.Rle.Direct.{next_direct}
use tengdb.Rle.Direct.RoundTrip.{next_direct-packed}
use tengdb.Rle.Header.{encoding_field, width_field, run_length_field}
use tengdb.Rle.Header.Fields.{first_byte, second_byte, header_fields}
use tengdb.Rle.Longs.{Cursor, read_value, read_longs}
use tengdb.Rle.Longs.Unpack.{IsPacked, span, spelled, read_longs-packed}
use tengdb.Rle.Longs.Window.{weight, big, room, unread, Value, read_value_lem}
use tengdb.ColumnInfo.RleInfo.{RleInfo}
use tengdb.Rle.Next.{State, next}
use tengdb.Rle.Next.Sequence.{IsRuns, no_runs, direct_run, repeat_run, fixed_run, next-IsRuns}
use tengdb.Rle.Next.Total.{next-ne-stuck}
use tengdb.Rle.Repeats.{next_short_repeats}
use tengdb.Rle.Repeats.RoundTrip.{repeat_byte, next_short_repeats-big}
use tengdb.Rle.Word.{pos, negsuc, zigzag, pattern_of, un_zigzag, convert, add, is_negative}
use tengdb.Rle.Word.{un_zigzag-zigzag}
use tengdb.Util.BitWidth.{decode_bit_width}

abbrev empty : Memory
empty p = 0

abbrev fresh_info : RleInfo
fresh_info = record {
  direct_info = new_info;
  repeat_info = new_info;
  patched_info = new_info;
  delta_info = new_info;
}

-- 101 010 111 and seven bits of padding.
abbrev three_values : List ℕ
three_values = 5 ∷ 2 ∷ 7 ∷ []

abbrev three_bytes : List ℕ
three_bytes = 0xab ∷ 0x80 ∷ []

three_values-IsPacked : IsPacked 3 three_values three_bytes
unfolding weight big span spelled
three_values-IsPacked = record {
  pad = 7;
  padding = 0;
  short = omega arith;
  padding_fits = omega arith;
  values_fit = (omega arith, (omega arith, (omega arith, tt)));
  clean = (omega arith, (omega arith, tt));
  size = refl;
  spells = refl;
}

read_longs-packed_example :
    (m' : Memory) × (read_longs 32 empty 4 3 3 true (three_bytes ++ 9 ∷ []) ≡ ok (m', 9 ∷ []))
    × Holds m' 4 (map (convert 32 true) three_values)
    × Kept empty m' 4 3
read_longs-packed_example =
    read_longs-packed 32 3 (omega arith) (omega arith) true empty 4 three_values three_bytes
      (9 ∷ []) three_values-IsPacked (omega arith)

next-ne-stuck_example : next 32 true false empty fresh_info (0xc0 ∷ 2 ∷ []) ≢ fault stuck
next-ne-stuck_example = next-ne-stuck 32 true false empty fresh_info (0xc0 ∷ 2 ∷ [])

header_fields_example :
    (encoding_field (first_byte 3 14 300) ≡ 3)
    × (width_field (first_byte 3 14 300) ≡ 14)
    × (run_length_field (first_byte 3 14 300) (second_byte 300) ≡ 300)
header_fields_example =
    header_fields 3 14 300 (omega arith) (omega arith) (omega arith) (omega arith)

next_direct-packed_example :
    (m' : Memory) × (next_direct 32 true empty 4 new_info
        (first_byte 1 2 3 ∷ second_byte 3 ∷ three_bytes ++ 9 ∷ [])
      ≡ ok (
        record {
          result = m';
          info = update_encoding_info true new_info (decode_bit_width 2) 3;
          run_length = 3;
        },
        9 ∷ [],
      ))
    × Holds m' 4 (map (convert 32 new_info.issigned) three_values)
    × Kept empty m' 4 3
next_direct-packed_example =
    next_direct-packed 32 2 true empty 4 new_info three_values three_bytes (9 ∷ []) (omega arith)
      narrow (omega arith) (omega arith) (omega arith) packed
  where
    narrow : decode_bit_width 2 ≤ 32
    narrow = unfold decode_bit_width in omega arith

    packed : IsPacked (decode_bit_width 2) three_values three_bytes
    packed = unfold decode_bit_width in three_values-IsPacked

-- 10000 five times over: 0x0a, 0x27, 0x10.
next_short_repeats-big_example :
    (m' : Memory) × (next_short_repeats 64 false true empty 0 new_info
        (repeat_byte 2 5 ∷ 0x27 ∷ 0x10 ∷ [])
      ≡ ok (
        record { result = m'; info = update_encoding_info true new_info 2 5; run_length = 5 },
        [],
      ))
    × Holds m' 0 (replicate 5 (convert 64 false (big (0x27 ∷ 0x10 ∷ []))))
    × Kept empty m' 0 5
next_short_repeats-big_example =
    next_short_repeats-big 64 5 false true empty 0 new_info (0x27 ∷ 0x10 ∷ []) []
      (omega arith, (omega arith, tt)) (omega arith) (omega arith) (omega arith) (omega arith)
      (omega arith)

-- 300 is 0xac, 0x02 in groups of seven bits.
read_vulong-IsVarint_example : read_vulong 32 (0xac ∷ 2 ∷ 7 ∷ []) ≡ ok (300, 7 ∷ [])
read_vulong-IsVarint_example =
    read_vulong-IsVarint 32 (0xac ∷ 2 ∷ []) (7 ∷ []) 300
      (omega arith, omega arith, omega arith, (omega arith, omega arith)) (omega arith)
      (omega arith)

read_vslong-IsVarint_example :
    read_vslong 32 (0xac ∷ 2 ∷ 7 ∷ []) ≡ ok (pattern_of 32 (pos 150), 7 ∷ [])
read_vslong-IsVarint_example =
    read_vslong-IsVarint 32 (0xac ∷ 2 ∷ []) (7 ∷ []) (pos 150)
      (omega arith, omega arith, omega arith, (omega arith, omega arith)) (omega arith)
      (omega arith)

read_long_be-big_example :
    read_long_be 32 2 (0x27 ∷ 0x10 ∷ 7 ∷ []) ≡ ok (big (0x27 ∷ 0x10 ∷ []), 7 ∷ [])
read_long_be-big_example =
    read_long_be-big 32 (0x27 ∷ 0x10 ∷ []) (7 ∷ []) (omega arith, (omega arith, tt)) (omega arith)

un_zigzag-zigzag_example : un_zigzag 32 (zigzag (negsuc 4)) ≡ pattern_of 32 (negsuc 4)
un_zigzag-zigzag_example = un_zigzag-zigzag 32 (negsuc 4) (omega arith)

-- The primes of the ORC specification: 2, 3, 5, 7, 11, 13, 17, 19, 23, 29 have the first
-- differences 1 and 2, 2, 4, 2, 4, 2, 4, 6.
two_code : IsUnsignedCode 32 (2 ∷ []) 2
two_code = record { code = (omega arith, omega arith); fits = omega arith; short = omega arith }

one_code : IsSignedCode 32 (2 ∷ []) 1
one_code = record {
  number = pos 1;
  code = (omega arith, omega arith);
  fits = omega arith;
  short = omega arith;
  bits = refl;
}

abbrev gaps : List ℕ
gaps = 2 ∷ 2 ∷ 4 ∷ 2 ∷ 4 ∷ 2 ∷ 4 ∷ 6 ∷ []

abbrev gap_bytes : List ℕ
gap_bytes = 0x22 ∷ 0x42 ∷ 0x42 ∷ 0x46 ∷ []

abbrev gap_code : ℕ
gap_code = 3

next_delta-fixed_example :
    (m' : Memory) × (next_delta 32 false true empty 0 new_info
        (delta_run 0 100 (2 ∷ []) (2 ∷ []) (9 ∷ []))
      ≡ ok (
        record { result = m'; info = update_encoding_info true new_info 0 100; run_length = 100 },
        9 ∷ [],
      ))
    × Holds m' 0 (2 ∷ steps 32 1 99 2)
    × Kept empty m' 0 100
next_delta-fixed_example =
    next_delta-fixed 32 false true empty 0 new_info (2 ∷ []) (2 ∷ []) (9 ∷ []) 2 1 two_code one_code
      100 (omega arith) (omega arith)

next_delta-packed_example :
    (m' : Memory) × (next_delta 32 false true empty 0 new_info
        (delta_run gap_code 10 (2 ∷ []) (2 ∷ []) (gap_bytes ++ 9 ∷ []))
      ≡ ok (
        record {
          result = m';
          info = update_encoding_info true new_info (decode_bit_width gap_code) 10;
          run_length = 10;
        },
        9 ∷ [],
      ))
    × Holds m' 0 (2 ∷ add 32 2 1 ∷ running 32 (is_negative 32 1) (add 32 2 1) gaps)
    × Kept empty m' 0 10
next_delta-packed_example =
    next_delta-packed 32 false true empty 0 new_info (2 ∷ []) (2 ∷ []) gap_bytes (9 ∷ []) gaps
      gap_code 2 1 two_code one_code (omega arith) (omega arith) narrow (omega arith) (omega arith)
      packed
  where
    narrow : decode_bit_width gap_code ≤ 32
    narrow = unfold decode_bit_width in omega arith

    four_bits : IsPacked 4 gaps gap_bytes
    four_bits =
        unfold weight big span spelled in
        record {
          pad = 0;
          padding = 0;
          short = omega arith;
          padding_fits = omega arith;
          values_fit = (
            omega arith,
            (
              omega arith,
              (
                omega arith,
                (omega arith, (omega arith, (omega arith, (omega arith, (omega arith, tt))))),
              ),
            ),
          );
          clean = (omega arith, (omega arith, (omega arith, (omega arith, tt))));
          size = refl;
          spells = refl;
        }

    packed : IsPacked (decode_bit_width gap_code) gaps gap_bytes
    packed = unfold decode_bit_width in four_bits

-- Three of the five unread bits 01011.
read_value_lem_example :
    let c : Cursor = record { cur_byte = 0xab; bits_left = 5 } in
    Returns (read_value 32 3 c []) (Value 3 (unread c []) (2 ^ 2))
read_value_lem_example =
    let c : Cursor = record { cur_byte = 0xab; bits_left = 5 } in
    read_value_lem 32 3 (omega arith) (omega arith) (2 ^ 2) c [] (omega arith) tt
      (unfold room weight in refl)

-- Five times 10000, then 2 and 3, then 5, 2 and 7: a repeat, a delta and a direct run.
abbrev three_runs : List ℕ
three_runs =
    repeat_byte 2 5 ∷ (0x27 ∷ 0x10 ∷ [])
    ++ (first_byte 3 0 2 ∷ (second_byte 2 ∷ (2 ∷ []) ++ ((2 ∷ []) ++ []))
        ++ (first_byte 1 2 3 ∷ (second_byte 3 ∷ three_bytes) ++ []))

abbrev ten_values : List ℕ
ten_values =
    replicate 5 (convert 32 false (big (0x27 ∷ 0x10 ∷ [])))
    ++ ((2 ∷ steps 32 1 1 2) ++ (map (convert 32 false) three_values ++ []))

abbrev unsigned_runs : RleInfo
unsigned_runs = record fresh_info { direct_info = record new_info { issigned = false } }

narrow_code : decode_bit_width 2 ≤ 32
unfolding decode_bit_width
narrow_code = omega arith

three_values-IsPacked_code : IsPacked (decode_bit_width 2) three_values three_bytes
unfolding decode_bit_width
three_values-IsPacked_code = three_values-IsPacked

three_runs-IsRuns : IsRuns 32 false three_runs ten_values
three_runs-IsRuns =
    repeat_run 5 (0x27 ∷ 0x10 ∷ []) _ _ (omega arith, (omega arith, tt)) (omega arith) (omega arith)
      (omega arith) (omega arith) (omega arith)
      (fixed_run 2 2 1 (2 ∷ []) (2 ∷ []) _ _ two_code one_code (omega arith) (omega arith) (
        direct_run 2 three_values three_bytes [] [] (omega arith) narrow_code (omega arith)
          (omega arith) three_values-IsPacked_code no_runs))

few_values : length ten_values < 2 ^ 64
unfolding steps
few_values = omega arith

next-IsRuns_example :
    (s' : State) × (next 32 false true empty unsigned_runs three_runs ≡ ok s')
    × Holds s'.result 0 ten_values
    × Kept empty s'.result 0 (length ten_values)
    × (s'.offset ≡ length ten_values)
next-IsRuns_example =
    next-IsRuns 32 false true empty unsigned_runs three_runs ten_values three_runs-IsRuns refl
      few_values
