-- ===== src/ColumnInfo/Tests.antt =====
-- The statistics of include/ORCColumnInfo.h on one run.
use tengdb.Common.{◌+◌, ◌^◌, ◌<◌, ◌≡◌, refl, arith, true, [], ◌∷◌, ◌++◌}
use tengdb.Common.{length, some, ℕ, ◌%◌, ◌≢◌, leb, inr, get_or}
use tengdb.Common.Int.{pos}
use tengdb.Common.Memory.{Memory, Kept, bytes_at}
use mathlib.Core.List.{Perm}
use tengdb.ColumnInfo.Column.{is_rle_kind, is_rle_type}
use tengdb.ColumnInfo.EncodingInfo.Finalize.{finalize, is_bit_size_fixed, get_fixed_bit_size}
use tengdb.ColumnInfo.EncodingInfo.Finalize.Fixed.{
  used_count, is_bit_size_fixed-used_count, get_fixed_bit_size-only,
}
use tengdb.ColumnInfo.Info.{ColumnInfo, encode_column_info, decode_column_info}
use tengdb.ColumnInfo.Info.RoundTrip.{
  IsComplete, decoded_column_info, decode_column_info-encode_column_info,
}
use tengdb.ColumnInfo.RleInfo.{
  RleInfo, new_rle_info, encode_rle_info, decode_rle_info, finalize_rle_info,
}
use tengdb.ColumnInfo.RleInfo.RoundTrip.{
  IsCounted, decoded_rle_info, decode_rle_info-encode_rle_info,
}
use tengdb.ColumnInfo.SortData.{sort_data}
use tengdb.ColumnInfo.SortData.Order.{IsAscending}
use tengdb.ColumnInfo.SortData.Values.{IsSmall, values, total_of, sort_data-IsAscending}
use tengdb.Util.{TypeKind}
use tengdb.Common.Run.{ok}
use tengdb.ColumnInfo.EncodingInfo.{EncodingInfo, new_info, update_encoding_info}
use tengdb.ColumnInfo.EncodingInfo.Codec.{encode_to, decode_from}
use tengdb.ColumnInfo.EncodingInfo.Counts.{
  update_encoding_info-IsCounts, new_info-IsCounts, CountsRun,
}
use tengdb.ColumnInfo.EncodingInfo.Merge.{IsAlike, merge, merge-update}
use tengdb.ColumnInfo.EncodingInfo.RoundTrip.{IsCounts, decoded, decode_from-encode_to}

abbrev one_run : EncodingInfo
one_run = update_encoding_info true new_info 4 3

no_runs_num : new_info.num + 1 < 2 ^ 64
unfolding new_info
no_runs_num = omega arith

one_run-IsCounts : IsCounts one_run
one_run-IsCounts =
    (update_encoding_info-IsCounts true new_info 4 3 no_runs_num (omega arith) (omega arith)
      new_info-IsCounts).1

update_encoding_info-IsCounts_example :
    CountsRun true new_info 4 3 (update_encoding_info true new_info 4 3)
    × IsCounts (update_encoding_info true new_info 4 3)
update_encoding_info-IsCounts_example =
    update_encoding_info-IsCounts true new_info 4 3 no_runs_num (omega arith) (omega arith)
      new_info-IsCounts

decode_from-encode_to_example :
    decode_from new_info (encode_to one_run ++ 9 ∷ []) ≡ ok (decoded one_run, 9 ∷ [])
decode_from-encode_to_example = decode_from-encode_to one_run (9 ∷ []) one_run-IsCounts

alike : IsAlike one_run new_info
unfolding update_encoding_info new_info
alike = record { sizes = refl; lengths = refl; a_open = refl; b_open = refl }

merge-update_example :
    (m m' r : EncodingInfo) × (merge one_run new_info ≡ some m)
    × (merge new_info one_run ≡ some m')
    × (merge (update_encoding_info true one_run 2 5) new_info ≡ some r)
    × (m.bitsize ≡ m'.bitsize)
    × (m.run_length ≡ m'.run_length)
    × (m.num ≡ m'.num)
    × (m.total_run_length ≡ one_run.total_run_length)
    × (r.bitsize ≡ (update_encoding_info true m 2 5).bitsize)
    × (r.run_length ≡ (update_encoding_info true m 2 5).run_length)
    × (r.num ≡ (update_encoding_info true m 2 5).num)
merge-update_example = merge-update one_run new_info 2 5 alike room rounds
  where
    room : 2 < length one_run.bitsize
    room = unfold update_encoding_info new_info in omega arith

    rounds : 5 < length one_run.run_length
    rounds = unfold update_encoding_info new_info in omega arith

sort_data-IsAscending_example :
    let toplist = (sort_data (0 ∷ 3 ∷ 1 ∷ [])).0 in
    IsAscending (values (0 ∷ 3 ∷ 1 ∷ []) toplist)
    × Perm (values (0 ∷ 3 ∷ 1 ∷ []) toplist) (0 ∷ 3 ∷ 1 ∷ [])
    × ((sort_data (0 ∷ 3 ∷ 1 ∷ [])).1 ≡ total_of (0 ∷ 3 ∷ 1 ∷ []) % 2 ^ 64)
sort_data-IsAscending_example =
    sort_data-IsAscending (0 ∷ 3 ∷ 1 ∷ []) (omega arith, (omega arith, (omega arith, tt)))

-- Runs of two bits only.
abbrev two_bits : EncodingInfo
two_bits = record new_info { bitsize = 0 ∷ 0 ∷ 7 ∷ []; num = 7 }

two_bits-IsSmall : IsSmall two_bits.bitsize
two_bits-IsSmall = (omega arith, (omega arith, (omega arith, tt)))

is_bit_size_fixed-used_count_example :
    is_bit_size_fixed (finalize 0 two_bits) ≡ some (leb (used_count two_bits.bitsize) 1)
is_bit_size_fixed-used_count_example =
    is_bit_size_fixed-used_count two_bits 0 two_bits-IsSmall (omega arith)

get_fixed_bit_size-only_example :
    (get_fixed_bit_size (finalize 0 two_bits) ≡ some (pos 2))
    × ((finalize 0 two_bits).maxbitsize ≡ 2)
get_fixed_bit_size-only_example =
    get_fixed_bit_size-only two_bits 2 two_bits-IsSmall (omega arith) (omega arith) seven refl
  where
    seven : get_or two_bits.bitsize 2 0 ≢ 0
    seven e = omega arith

abbrev counted_rle_info : RleInfo
counted_rle_info = record new_rle_info { delta_info = one_run }

counted_rle_info-IsCounted : IsCounted counted_rle_info
unfolding new_rle_info
counted_rle_info-IsCounted =
    let empty = new_info-IsCounts in
    record {
      direct_counts = empty;
      repeat_counts = empty;
      patched_counts = empty;
      delta_counts = one_run-IsCounts;
    }

decode_rle_info-encode_rle_info_example :
    decode_rle_info (λ info. 5) new_rle_info (encode_rle_info counted_rle_info ++ 9 ∷ [])
    ≡ ok (finalize_rle_info (λ info. 5) (decoded_rle_info counted_rle_info), 9 ∷ [])
decode_rle_info-encode_rle_info_example =
    decode_rle_info-encode_rle_info (λ info. 5) counted_rle_info (9 ∷ []) counted_rle_info-IsCounted

abbrev key_info : ColumnInfo
key_info = record {
  column = record { name = 107 ∷ []; type = TypeKind.int };
  rleinfo = some counted_rle_info;
}

key_info-IsComplete : IsComplete key_info
unfolding is_rle_type is_rle_kind
key_info-IsComplete = record {
  name_fits = omega arith;
  statistics = inr (counted_rle_info, refl, refl, counted_rle_info-IsCounted);
}

decode_column_info-encode_column_info_example :
    (m' : Memory) × (size : ℕ) × (encode_column_info (λ p. 170) 3 key_info ≡ ok (m', size))
    × Kept (λ p. 170) m' 3 size
    × (decode_column_info (λ info. 0) (bytes_at m' 3 (size + 2))
        ≡ ok (decoded_column_info (λ info. 0) key_info, bytes_at m' (3 + size) 2))
decode_column_info-encode_column_info_example =
    decode_column_info-encode_column_info (λ info. 0) (λ p. 170) 3 2 key_info key_info-IsComplete
