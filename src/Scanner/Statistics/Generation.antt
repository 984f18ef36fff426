-- ===== src/Scanner/Statistics/Generation.antt =====
-- src/exec/ORCScanner.cpp, the destructor: which statistics the generator gets.
use tengdb.Common.{ℕ, ◌+◌, ◌-◌, ◌≤◌, ◌≡◌, refl, ap, ◌∙◌, arith, leb, true}
use tengdb.Common.{List, [], ◌∷◌, ◌++◌, length, length-append, map, All, some}
use tengdb.Common.Memory.{Memory, Holds, Wrote, Wrote-append, bytes_at, Holds-bytes_at}
use tengdb.Common.Name.{Dict}
use tengdb.Common.Run.{Run, ok, ◌>>>◌}
use tengdb.ColumnInfo.Column.{Column}
use tengdb.ColumnInfo.EncodingInfo.{EncodingInfo}
use tengdb.ColumnInfo.Info.{ColumnInfo}
use tengdb.ColumnInfo.Info.RoundTrip.{
  IsComplete, column_bytes, decoded_column_info, encode_column_info-Wrote, decode-column_bytes,
}
use tengdb.Scanner.Batch.{followed}
use tengdb.Scanner.Batches.{is_counted}
use tengdb.Scanner.Columns.{NextFunc}
use tengdb.Scanner.Statistics.{buf_size, encode_globals, decode_globals, generate}
use mathlib.Core.List.{append_assoc}

abbrev pub all_bytes : (Column → ColumnInfo) → List Column → List ℕ
all_bytes info_of [] = []
all_bytes info_of (col ∷ columns) = column_bytes (info_of col) ++ all_bytes info_of columns

-- A function is to be generated for the column, and it has such statistics.
abbrev pub IsReady : Dict NextFunc → Dict ColumnInfo → (Column → ColumnInfo) → Column → Type 0
IsReady functions globals info_of col =
    (is_counted functions col ≡ true)
    × (globals col.name ≡ some (info_of col))
    × IsComplete (info_of col)

module _ (functions : Dict NextFunc) (globals : Dict ColumnInfo)
    (info_of : Column → ColumnInfo) where
  encode_globals_lem :
      (columns : List Column) (m : Memory) (offset : ℕ)
      → All (IsReady functions globals info_of) columns
      → offset + length (all_bytes info_of columns) ≤ buf_size
      → (m' : Memory) × (encode_globals functions globals columns m offset ≡ ok m')
        × Wrote m m' offset (all_bytes info_of columns)
  unfolding encode_globals followed
  encode_globals_lem [] m offset h fits = (m, refl, (tt, λ j out. refl))
  encode_globals_lem (col ∷ columns) m offset ((counted, known, complete), h) fits =
      let bytes = column_bytes (info_of col) in
      let (m₁, e₁, wrote₁) = encode_column_info-Wrote m offset (info_of col) complete in
      let long = length-append bytes (all_bytes info_of columns) in
      let (m₂, e₂, wrote₂) =
        encode_globals_lem columns m₁ (offset + length bytes) h (omega (arith, long)) in
      let room : leb (offset + length bytes) buf_size ≡ true = ground (arith, long) in
      (
        m₂,
        rw (counted, encode_globals, known, followed, e₁, ◌>>>◌, room) e₂,
        Wrote-append m m₁ m₂ offset bytes (all_bytes info_of columns) wrote₁ wrote₂,
      )

  decode_globals_lem :
      (beyond : EncodingInfo → ℕ) (columns : List Column) (rest : List ℕ)
      → All (IsReady functions globals info_of) columns
      → decode_globals beyond functions columns (all_bytes info_of columns ++ rest)
        ≡ ok (map (λ col. decoded_column_info beyond (info_of col)) columns)
  unfolding decode_globals
  decode_globals_lem beyond [] rest h = refl
  decode_globals_lem beyond (col ∷ columns) rest ((counted, known, complete), h) =
      let bytes = column_bytes (info_of col) in
      let behind = all_bytes info_of columns ++ rest in
      rw (
        append_assoc bytes (all_bytes info_of columns) rest,
        decode-column_bytes beyond (info_of col) behind complete,
        decode_globals_lem beyond columns rest h,
        counted,
      )

  read_back :
      (beyond : EncodingInfo → ℕ) (m : Memory) (columns : List Column) (size : ℕ)
      → All (IsReady functions globals info_of) columns
      → length (all_bytes info_of columns) ≤ size
      → Holds m 0 (all_bytes info_of columns)
      → decode_globals beyond functions columns (bytes_at m 0 size)
        ≡ ok (map (λ col. decoded_column_info beyond (info_of col)) columns)
  read_back beyond m columns size h fits holds =
      let bytes = all_bytes info_of columns in
      let n = length bytes in
      let split : size ≡ n + (size - n) = omega arith in
      ap (λ (k : ℕ). decode_globals beyond functions columns (bytes_at m 0 k)) split
      ∙ ap (decode_globals beyond functions columns) (Holds-bytes_at m 0 bytes (size - n) holds)
      ∙ decode_globals_lem beyond columns (bytes_at m (0 + n) (size - n)) h

  -- Where a function is to be generated for every column of the scan and all have statistics whose
  -- encoding fits the buffer, the generator gets the statistics of every column as they were merged,
  -- finalized, in the order of the columns.
  pub generate-IsReady :
      (beyond : EncodingInfo → ℕ) (m : Memory) (columns : List Column)
      → All (IsReady functions globals info_of) columns
      → length (all_bytes info_of columns) ≤ buf_size
      → generate beyond m functions globals columns
        ≡ ok (map (λ col. decoded_column_info beyond (info_of col)) columns)
  unfolding generate
  generate-IsReady beyond m columns h fits =
      let (m', e, (holds, _)) = encode_globals_lem columns m 0 h (omega arith) in
      ap
        (λ (r : Run Memory).
          r >>> λ memory. decode_globals beyond functions columns (bytes_at memory 0 buf_size))
        e
      ∙ read_back beyond m' columns buf_size h fits holds
