-- ===== src/Scanner/Columns/Tests.antt =====
-- A column of src/exec/ORCScanner.cpp whose stream is one run.
use tengdb.Common.{ℕ, zero, suc, ◌*◌, ◌^◌, ◌<◌, ◌≡◌, refl, arith, true, false}
use tengdb.Common.{List, [], ◌∷◌, ◌++◌, length, get_or, replicate, Option, none, some}
use tengdb.Common.Memory.{Memory}
use tengdb.Common.Name.{put, same_name}
use tengdb.Common.Run.{ok}
use tengdb.ColumnInfo.Column.{Column, is_rle_kind, is_rle_type}
use tengdb.ColumnInfo.EncodingInfo.{new_info}
use tengdb.ColumnInfo.Info.{ColumnInfo}
use tengdb.ColumnInfo.RleInfo.{new_rle_info}
use tengdb.MemoryPool.{Block, DataBuffer}
use tengdb.MemoryPool.Blocks.{IsAllocator, IsBuffer}
use tengdb.Reader.{Stream, StripeInformation, has_kind, matches, stripe_streams}
use tengdb.Rle.Longs.Window.{big, weight}
use tengdb.Rle.Next.Sequence.{IsRuns, no_runs, repeat_run}
use tengdb.Rle.Repeats.RoundTrip.{repeat_byte}
use tengdb.Rle.Word.{convert, un_zigzag}
use tengdb.Scanner.Batch.Print.{value_at}
use tengdb.Scanner.Columns.{Work, result_cells, plan, generated, read_column}
use tengdb.Scanner.Columns.Runs.{read_column-IsRuns}
use tengdb.Table.Columns.{new_colmap, fill_map, insert, get_column_number}
use tengdb.Util.{TypeKind}

abbrev count : Column
count = record { name = 99 ∷ []; type = TypeKind.int }

abbrev plain_malloc : ℕ → Option Block
plain_malloc n = some (record { bytes = n; cells = λ i. 170 })

plain_malloc-IsAllocator : IsAllocator plain_malloc
plain_malloc-IsAllocator n some_n fits = (record { bytes = n; cells = λ i. 170 }, refl, omega arith)

-- Five times 10000, which stands for 5000.
abbrev run_bytes : List ℕ
run_bytes = repeat_byte 2 5 ∷ 0x27 ∷ 0x10 ∷ []

abbrev run_values : List ℕ
run_values = replicate 5 (convert 32 true (big (0x27 ∷ 0x10 ∷ []))) ++ []

run_values-IsRuns : IsRuns 32 true run_bytes run_values
run_values-IsRuns =
    repeat_run 5 (0x27 ∷ 0x10 ∷ []) [] [] (omega arith, (omega arith, tt)) (omega arith)
      (omega arith) (omega arith) (omega arith) (omega arith) no_runs

run_values_small : (i : ℕ) → i < length run_values → get_or run_values i 0 < 256 ^ 4
unfolding convert un_zigzag big weight
run_values_small zero h = omega arith
run_values_small (suc zero) h = omega arith
run_values_small (suc (suc zero)) h = omega arith
run_values_small (suc (suc (suc zero))) h = omega arith
run_values_small (suc (suc (suc (suc zero)))) h = omega arith
run_values_small (suc (suc (suc (suc (suc i))))) h = absurd (omega arith)

abbrev run_stream : Stream
run_stream = record { kind = some 1; column = 1; length = 3 }

abbrev run_file : ℕ → ℕ → Memory
run_file n offset i = get_or run_bytes i 0

abbrev one_stream : ℕ → Memory → List Stream
one_stream n footer = run_stream ∷ []

abbrev run_stripe : StripeInformation
run_stripe = record {
  offset = 3;
  index_length = 0;
  data_length = 3;
  footer_length = 5;
  number_of_rows = 5;
}

abbrev count_buffer : DataBuffer
count_buffer = record {
  buf = some (record { bytes = 40; cells = λ i. 0 });
  current_size = 40;
  current_capacity = 40;
}

count_buffer-IsBuffer : IsBuffer 1 count_buffer
count_buffer-IsBuffer = record { sized = omega arith; bounded = omega arith; backed = omega arith }

abbrev count_info : ColumnInfo
count_info = record { column = count; rleinfo = some new_rle_info }

abbrev ready : Work
ready = record {
  databuf = count_buffer;
  batch = record {
    counter = 0;
    buffers = put (λ name. none) (99 ∷ []) count_buffer;
    columns = count ∷ [];
    rownumber = 5;
    capacity = 5;
    eof = false;
  };
  colinfos = put (λ name. none) (99 ∷ []) count_info;
  gen = none;
}

read_column-IsRuns_example :
    (work' : Work) × (buf : DataBuffer) × (read_column true run_file one_stream plain_malloc
        (new_colmap (count ∷ []))
        run_stripe
        count
        (ready, 0)
      ≡ ok (work', 3))
    × (work'.batch.buffers (99 ∷ []) ≡ some buf)
    × IsBuffer 1 buf
    × ((i : ℕ)
        → i < length run_values
        → value_at 4 (result_cells buf) (i * 4) ≡ get_or run_values i 0)
unfolding is_rle_type is_rle_kind generated plan new_colmap fill_map insert get_column_number put
    same_name new_rle_info new_info stripe_streams matches has_kind
read_column-IsRuns_example =
    read_column-IsRuns true run_file one_stream plain_malloc (new_colmap (count ∷ [])) run_stripe
      plain_malloc-IsAllocator count ready 0 1 4 1 true count_info new_rle_info [] [] run_stream
      run_values refl refl refl (omega arith) refl refl refl refl count_buffer-IsBuffer
      (count_buffer, refl, count_buffer-IsBuffer, omega arith) refl tt refl (omega arith)
      (omega arith) run_values-IsRuns (omega arith) run_values_small
