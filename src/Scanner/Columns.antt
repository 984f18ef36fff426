-- ===== src/Scanner/Columns.antt =====
-- src/exec/ORCScanner.cpp, nextBatch: how the columns of a stripe are read.
pub mod Flags
pub mod Values
pub mod Runs
pub mod Ends
mod Tests
use tengdb.Common.{ℕ, zero, suc, ◌+◌, ◌*◌, ◌/◌, ◌%◌, ◌^◌, ltb, leb, ◌==◌, Bool, true, false, not}
use tengdb.Common.{List, [], ◌∷◌, Option, none, some, if◌then◌else◌, ◌||◌}
use tengdb.Common.Memory.{Memory, bytes_at}
use tengdb.Common.Name.{Name, Dict, put}
use tengdb.Common.Run.{Run, ok, fault, outside, corrupt, stuck, ◌>>>◌}
use tengdb.ColumnInfo.Column.{Column, is_rle_type}
use tengdb.ColumnInfo.Info.{ColumnInfo}
use tengdb.ColumnInfo.RleInfo.{RleInfo}
use tengdb.MemoryPool.{Block, DataBuffer}
use tengdb.Reader.{Stream, StripeInformation, readdata}
use tengdb.Rle.Next.{State, next}
use tengdb.Scanner.Batch.{Batch, followed}
use tengdb.Scanner.Batch.Print.{value_at}
use tengdb.Table.Columns.{ColMap, get_column_number}
use tengdb.Util.{TypeKind}

-- A generated function `next`: from the data, `index`, `offset` and the bytes of the result to the
-- new `index`, what is added to `offset` and the bytes of the result.
abbrev pub NextFunc : Type 0
NextFunc = List ℕ → ℕ → ℕ → Memory → ℕ × ℕ × Memory

-- What a scanner reads into: `databuf`, `batch`, `colinfos`, and `gen`, the functions that were
-- generated; `none` is a scanner without a code generator.
pub record Work : Type 0 where
  pub databuf : DataBuffer
  pub batch : Batch
  pub colinfos : Dict ColumnInfo
  pub gen : Option (Dict NextFunc)

-- `data()` and the `datasize` bytes from there.
unfoldable pub data_bytes : DataBuffer → ℕ → Run (List ℕ)
data_bytes buf datasize = elim buf.buf [
  | none ↦ if datasize == 0 then ok [] else fault outside
  | some b ↦ if leb datasize b.bytes then ok (bytes_at b.cells 0 datasize) else fault outside
]

-- The bytes as values of `size` bytes each, and back.
unfoldable pub as_values : ℕ → Memory → Memory
as_values size cells i = value_at size cells (i * size)

unfoldable pub as_bytes : ℕ → Memory → Memory
as_bytes size values p = values (p / size) / 256 ^ (p % size) % 256

-- The buffer with the values below `offset`, of `size` bytes each, written to it. What next stores
-- behind `offset`, as the second value of a packed run of one value, is not kept.
unfoldable pub put_values : ℕ → DataBuffer → ℕ → Memory → Run DataBuffer
put_values size buf offset values = elim buf.buf [
  | none ↦ if offset == 0 then ok buf else fault outside
  | some b ↦
      if leb (offset * size) b.bytes
      then ok (record buf {
        buf = some (record {
          bytes = b.bytes;
          cells = λ p. if ltb p (offset * size) then as_bytes size values p else b.cells p;
        });
      })
      else fault outside
]

unfoldable pub result_cells : DataBuffer → Memory
result_cells buf = elim buf.buf [ none ↦ λ _. 0 | some b ↦ b.cells ]

-- The cases of the switch: the width of a value, whether it is signed, and the kind of stream;
-- `none` ends the program.
unfoldable pub plan : TypeKind → Option (ℕ × Bool × ℕ)
plan TypeKind.byte = some (8, true, 1)
plan TypeKind.short = some (16, true, 1)
plan TypeKind.int = some (32, true, 1)
plan TypeKind.long = some (64, true, 1)
plan TypeKind.date = some (16, true, 1)
plan TypeKind.string = some (32, false, 1)
plan TypeKind.varchar = some (32, false, 2)
plan _ = none

-- `kind==VARCHAR ? Stream_Kind_LENGTH : Stream_Kind_DATA`
unfoldable pub stream_kind : TypeKind → ℕ
stream_kind TypeKind.varchar = 2
stream_kind _ = 1

-- `gen&&gen->hasFunction("next_"+col.name)`, with the function.
unfoldable pub generated : Option (Dict NextFunc) → Name → Option NextFunc
generated none name = none
generated (some functions) name = functions name

-- `getColumnNumber`, which ends the program where the table has no such column.
unfoldable pub column_number : ColMap → Name → Run ℕ
column_number colmap name = elim (get_column_number colmap name) [
  | none ↦ fault corrupt
  | some n ↦ ok n
]

-- `while(index<datasize) offset += next(data,index,offset,0,result);`; a function that takes no
-- byte runs for ever.
unfoldable pub generated_loop : ℕ → NextFunc → List ℕ → ℕ → ℕ → ℕ → Memory → Run Memory
generated_loop zero next_func bytes datasize index offset result =
    if ltb index datasize then fault stuck else ok result
generated_loop (suc fuel) next_func bytes datasize index offset result =
    let (index', written, result') = next_func bytes index offset result in
    elim (ltb index datasize) [
      | false ↦ ok result
      | true ↦ generated_loop fuel next_func bytes datasize index' (offset + written) result'
    ]

unfoldable pub with_cells : DataBuffer → Memory → DataBuffer
with_cells buf cells = elim buf.buf [
  | none ↦ buf
  | some b ↦ record buf { buf = some (record { bytes = b.bytes; cells = cells }) }
]

-- `batch->data[col.name]` becomes `buf`.
unfoldable pub with_column : Work → Name → DataBuffer → Work
with_column work name buf = record work {
  batch = record (work.batch) { buffers = put work.batch.buffers name buf };
}

-- `codegen` is FLAGS_codegen. `read` stands for the bytes of the file, `parse` for protobuf's parser
-- of a stripe footer, and `malloc` for std::malloc.
module _ (codegen : Bool) (read : ℕ → ℕ → Memory) (parse : ℕ → Memory → List Stream)
    (malloc : ℕ → Option Block) (colmap : ColMap) (sinfo : StripeInformation) where
  -- `reader->readdata(curStripe, table->getColumnNumber(col.name), kind, buf, datasize)`
  unfoldable pub read_stream : Name → ℕ → DataBuffer → ℕ → Run (DataBuffer × ℕ)
  read_stream name kind buf datasize =
      column_number colmap name >>> λ n. readdata read parse malloc sinfo n kind buf datasize

  -- The data of a column without runs goes to its buffer as it is.
  unfoldable pub read_plain : Name → Work × ℕ → Run (Work × ℕ)
  read_plain name (work, datasize) = followed (work.batch.buffers name) >>> λ buf.
      read_stream name 1 buf datasize >>> λ (buf', datasize').
      ok (with_column work name buf', datasize')

  -- A case of the switch: values of `w` bits.
  unfoldable pub read_runs : Name → ℕ × Bool × ℕ → Work × ℕ → Run (Work × ℕ)
  read_runs name (w, issigned, kind) (work, datasize) =
      read_stream name kind work.databuf datasize >>> λ (databuf, datasize').
      followed (work.batch.buffers name) >>> λ buf. followed (work.colinfos name) >>> λ info.
      followed info.rleinfo >>> λ rleinfo. data_bytes databuf datasize' >>> λ bytes.
      next w issigned codegen (as_values (w / 8) (result_cells buf)) rleinfo bytes >>> λ s.
      put_values (w / 8) buf s.offset s.result >>> λ buf'. ok (
        with_column
            (record work {
              databuf = databuf;
              colinfos = put work.colinfos name (record info { rleinfo = some s.cinfo });
            })
            name buf',
        datasize',
      )

  unfoldable pub read_generated : Column → NextFunc → Work × ℕ → Run (Work × ℕ)
  read_generated col next_func (work, datasize) =
      read_stream col.name (stream_kind col.type) work.databuf datasize >>> λ (databuf, datasize').
      followed (work.batch.buffers col.name) >>> λ buf. data_bytes databuf datasize' >>> λ bytes.
      generated_loop datasize' next_func bytes datasize' 0 0 (result_cells buf) >>> λ cells.
      ok
        (with_column (record work { databuf = databuf }) col.name (with_cells buf cells), datasize')

  unfoldable pub read_column : Column → Work × ℕ → Run (Work × ℕ)
  read_column col (work, datasize) = elim (is_rle_type col) [
    | false ↦ read_plain col.name (work, datasize)
    | true ↦ elim (generated work.gen col.name) [
      | some next_func ↦ read_generated col next_func (work, datasize)
      | none ↦ elim (plan col.type) [
        | none ↦ fault corrupt
        | some p ↦ read_runs col.name p (work, datasize)
      ]
    ]
  ]

  -- `for(Column col:columns)`; `datasize` is that of the column before where a stripe has no stream
  -- for a column.
  unfoldable pub read_columns : List Column → Work × ℕ → Run (Work × ℕ)
  read_columns [] state = ok state
  read_columns (col ∷ columns) state = read_column col state >>> read_columns columns
