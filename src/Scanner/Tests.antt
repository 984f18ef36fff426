-- ===== src/Scanner/Tests.antt =====
-- The scanner of src/exec/ORCScanner.cpp on a directory of two files, and its statistics.
use mathlib.Core.Path.{subst}
use tengdb.Common.{◌≢◌}
use tengdb.Common.Run.{Run, Gives, fault, stuck, ◌>>>◌}
use tengdb.Scanner.Columns.{generated, result_cells}
use tengdb.Scanner.Batch.Print.{value_at}
use tengdb.Scanner.Columns.Ends.{Advancing}
use tengdb.Scanner.Batches.Ends.{scan-ne-stuck}
use tengdb.Common.{ℕ, ◌+◌, ◌<◌, ◌≤◌, ◌≡◌, refl, arith, true, false}
use tengdb.Common.{List, [], ◌∷◌, ◌++◌, length, map, All, Option, none, some, inr}
use tengdb.Common.Int.{pos}
use tengdb.Common.Memory.{Memory}
use tengdb.Common.Name.{Dict, put, same_name}
use tengdb.Common.Run.{ok, fault}
use tengdb.ColumnInfo.Column.{Column, is_rle_kind, is_rle_type}
use tengdb.ColumnInfo.EncodingInfo.{new_info}
use tengdb.ColumnInfo.EncodingInfo.Codec.{encode_to}
use tengdb.ColumnInfo.EncodingInfo.Counts.{new_info-IsCounts}
use tengdb.ColumnInfo.Info.{ColumnInfo}
use tengdb.ColumnInfo.Info.RoundTrip.{decoded_column_info}
use tengdb.ColumnInfo.RleInfo.{new_rle_info, encode_rle_info}
use tengdb.ColumnInfo.RleInfo.RoundTrip.{IsCounted}
use tengdb.MemoryPool.{Block, DataBuffer}
use tengdb.MemoryPool.Blocks.{IsAllocator, IsBuffer}
use tengdb.Reader.{Stream, StripeInformation}
use tengdb.Reader.Open.{Reader}
use tengdb.Reader.Open.Tail.{file_of, create_reader-file_of}
use tengdb.Scanner.Batch.{Batch, new_batch, resize_batch}
use tengdb.Scanner.Batch.Room.{HasRoom, IsBatch, new_batch-IsBatch, resize_batch-IsBatch}
use tengdb.Scanner.Batches.{OrcScanner, is_counted, scan}
use tengdb.Scanner.Batches.Order.{stripes_of, batches}
use tengdb.Scanner.Batches.Stripes.{IsReadable, scan-stripes}
use tengdb.Scanner.Columns.{NextFunc}
use tengdb.Scanner.Statistics.{buf_size, generate}
use tengdb.Scanner.Statistics.Generation.{all_bytes, IsReady, generate-IsReady}
use tengdb.Table.Columns.{new_colmap}
use tengdb.Table.Rep.{Dirent, is_hidden, is_wanted}
use tengdb.Table.Rep.Files.{filter}
use tengdb.Util.{TypeKind}
use tengdb.Util.Codec.{encode}

abbrev key : Column
key = record { name = 107 ∷ []; type = TypeKind.int }

abbrev simple_malloc : ℕ → Option Block
simple_malloc n = some (record { bytes = n; cells = λ i. 170 })

simple_malloc-IsAllocator : IsAllocator simple_malloc
simple_malloc-IsAllocator n some_n fits =
    (record { bytes = n; cells = λ i. 170 }, refl, omega arith)

new_batch-IsBatch_example :
    (batch : Batch) × (new_batch simple_malloc (key ∷ []) 1000 ≡ ok batch)
    × IsBatch batch
    × All (λ col. HasRoom batch.buffers 8000 col.name) batch.columns
    × (batch.columns ≡ key ∷ [])
    × (batch.rownumber ≡ 0)
new_batch-IsBatch_example =
    new_batch-IsBatch simple_malloc simple_malloc-IsAllocator (key ∷ []) 1000 (omega arith)

-- Two rows, and room for three.
abbrev key_buffer : DataBuffer
key_buffer = record {
  buf = some (record { bytes = 24; cells = λ i. i });
  current_size = 16;
  current_capacity = 24;
}

abbrev two_rows : Batch
two_rows = record {
  counter = 0;
  buffers = put (λ name. none) (107 ∷ []) key_buffer;
  columns = key ∷ [];
  rownumber = 2;
  capacity = 3;
  eof = false;
}

two_rows-IsBatch : IsBatch two_rows
unfolding put same_name
two_rows-IsBatch =
    let room : 16 ≤ 24 = omega arith in
    let buffer : IsBuffer 1 key_buffer = record {
      sized = room;
      bounded = omega arith;
      backed = omega arith;
    } in
    ((key_buffer, refl, buffer, room), tt)

resize_batch-IsBatch_example :
    (batch : Batch) × (resize_batch simple_malloc two_rows 5 ≡ ok batch)
    × IsBatch batch
    × (batch.columns ≡ two_rows.columns)
    × (batch.rownumber ≡ 5)
resize_batch-IsBatch_example =
    resize_batch-IsBatch simple_malloc simple_malloc-IsAllocator two_rows 5 two_rows-IsBatch
      (omega arith)

abbrev key_info : Column → ColumnInfo
key_info col = record { column = col; rleinfo = some new_rle_info }

-- Every file of the directory has the footer of one byte and these two stripes, whose data is one
-- run: five times 5000, and five times 2.
abbrev stripe : ℕ → StripeInformation
stripe offset = record {
  offset = offset;
  index_length = 0;
  data_length = 3;
  footer_length = 0;
  number_of_rows = 5;
}

abbrev two_stripes : List ℕ → List StripeInformation
two_stripes foot = stripe 3 ∷ stripe 6 ∷ []

abbrev contents : List ℕ
contents =
    (79 ∷ 82 ∷ 67 ∷ 10 ∷ 0x27 ∷ 0x10 ∷ 10 ∷ 0 ∷ 4 ∷ []) ++ ((7 ∷ []) ++ ((1 ∷ []) ++ (1 ∷ [])))

abbrev the_reader : Dirent → Reader
the_reader file = record { stream = file_of contents; stripes = stripe 3 ∷ stripe 6 ∷ [] }

-- The files `.a`, `b` and `c`.
abbrev two_files : List Dirent
two_files =
    record { regular = true; name = 46 ∷ 97 ∷ [] }
    ∷ record { regular = true; name = 98 ∷ [] }
    ∷ record { regular = true; name = 99 ∷ [] }
    ∷ []

abbrev fresh : OrcScanner
fresh = record {
  table = record {
    registered = pos 1;
    colmap = new_colmap (key ∷ []);
    rep = record { isfile = false; path = 116 ∷ []; filename = []; dir = two_files };
    tablename = 116 ∷ [];
  };
  columns = key ∷ [];
  reader = none;
  cur_stripe = 0;
  work = record {
    databuf = key_buffer;
    batch = two_rows;
    colinfos = λ name. some (key_info key);
    gen = none;
  };
}

abbrev footer_length_of : List ℕ → ℕ
footer_length_of ps = length ps

abbrev one_stream : ℕ → Memory → List Stream
one_stream n bytes = record { kind = some 1; column = 1; length = 3 } ∷ []

readable :
    (file : Dirent)
    → IsReadable false true
        (λ path. file_of contents)
        footer_length_of
        two_stripes
        one_stream
        simple_malloc
        (116 ∷ [])
        the_reader
        file
readable file = (
  create_reader-file_of footer_length_of two_stripes
      (79 ∷ 82 ∷ 67 ∷ 10 ∷ 0x27 ∷ 0x10 ∷ 10 ∷ 0 ∷ 4 ∷ []) (7 ∷ []) (1 ∷ []) (omega arith)
      (omega arith) refl,
  omega arith,
)

All-IsReadable :
    All
      (IsReadable false true
        (λ path. file_of contents)
        footer_length_of
        two_stripes
        one_stream
        simple_malloc
        (116 ∷ [])
        the_reader)
      (filter (is_wanted false []) two_files)
unfolding filter is_wanted is_hidden
All-IsReadable = (
  readable (record { regular = true; name = 98 ∷ [] }),
  (readable (record { regular = true; name = 99 ∷ [] }), tt),
)

four_stripes : length (stripes_of (map the_reader (filter (is_wanted false []) two_files))) < 5
unfolding filter is_wanted is_hidden stripes_of
four_stripes = omega arith

-- The last of the five values of a batch.
abbrev last_value : Batch → ℕ
last_value batch = elim (batch.buffers (107 ∷ [])) [
  | none ↦ 0
  | some buf ↦ value_at 4 (result_cells buf) 16
]

abbrev pub last_values : Run (List ℕ)
last_values =
    scan false true (λ path. file_of contents) footer_length_of two_stripes one_stream simple_malloc
      5 fresh
    >>> λ bs. ok (map last_value bs)

scan-stripes_example :
    (scan false true
        (λ path. file_of contents)
        footer_length_of
        two_stripes
        one_stream
        simple_malloc
        5
        fresh
      ≡ batches false true
          (λ path. file_of contents)
          footer_length_of
          two_stripes
          one_stream
          simple_malloc
          (new_colmap (key ∷ []))
          (key ∷ [])
          (stripes_of (map the_reader (filter (is_wanted false []) two_files)))
          fresh.work)
    × Gives
        (scan false true
          (λ path. file_of contents)
          footer_length_of
          two_stripes
          one_stream
          simple_malloc
          5
          fresh)
        (λ bs.
          length bs ≡ length (stripes_of (map the_reader (filter (is_wanted false []) two_files))))
scan-stripes_example =
    scan-stripes false true (λ path. file_of contents) footer_length_of two_stripes one_stream
      simple_malloc the_reader fresh 5 refl All-IsReadable four_stripes

-- A generated function that takes a byte and stores nothing.
abbrev skip_byte : NextFunc
skip_byte bytes index offset result = (index + 1, 0, result)

abbrev with_generator : OrcScanner
with_generator = record fresh { work = record (fresh.work) { gen = some (λ name. some skip_byte) } }

skip_byte-Advancing : Advancing (some (λ name. some skip_byte))
unfolding generated
skip_byte-Advancing name f e bytes index offset result =
    let same : skip_byte ≡ f = cc in
    subst (λ (g : NextFunc). index < (g bytes index offset result).0) same (omega arith)

scan-ne-stuck_example :
    scan false true
      (λ path. file_of contents)
      footer_length_of
      two_stripes
      one_stream
      simple_malloc
      5
      with_generator
    ≢ fault stuck
scan-ne-stuck_example =
    scan-ne-stuck false true (λ path. file_of contents) footer_length_of two_stripes one_stream
      simple_malloc the_reader with_generator 5 refl All-IsReadable four_stripes skip_byte-Advancing

abbrev no_functions : Dict NextFunc
no_functions name = none

new_rle_info-IsCounted : IsCounted new_rle_info
unfolding new_rle_info
new_rle_info-IsCounted =
    let empty = new_info-IsCounts in
    record {
      direct_counts = empty;
      repeat_counts = empty;
      patched_counts = empty;
      delta_counts = empty;
    }

key-IsReady : IsReady no_functions (λ name. some (key_info key)) key_info key
unfolding is_counted is_rle_type is_rle_kind
key-IsReady = (
  refl,
  refl,
  record {
    name_fits = omega arith;
    statistics = inr (new_rle_info, refl, refl, new_rle_info-IsCounted);
  },
)

short : length (all_bytes key_info (key ∷ [])) ≤ buf_size
unfolding encode encode_to encode_rle_info new_rle_info new_info
short = omega arith

generate-IsReady_example :
    generate (λ info. 0) (λ p. 170) no_functions (λ name. some (key_info key)) (key ∷ [])
    ≡ ok (map (λ col. decoded_column_info (λ info. 0) (key_info col)) (key ∷ []))
generate-IsReady_example =
    generate-IsReady no_functions (λ name. some (key_info key)) key_info (λ info. 0) (λ p. 170)
      (key ∷ []) (key-IsReady, tt) short
