-- ===== src/Scanner/Batch.antt =====
-- include/ORCColumnInfo.h, struct Batch: a buffer of bytes for each column.
pub mod Room
pub mod Print
use tengdb.Common.{ℕ, ◌+◌, ◌*◌, ◌%◌, ◌^◌, ltb, Bool, true, false, List, [], ◌∷◌, Option, none, some}
use tengdb.Common.{if◌then◌else◌}
use tengdb.Common.Name.{Name, Dict, put}
use tengdb.Common.Run.{Run, ok, fault, outside, ◌>>>◌}
use tengdb.ColumnInfo.Column.{Column}
use tengdb.MemoryPool.{Block, DataBuffer, resize, new_buffer}

-- The map `data` is named buffers here.
pub record Batch : Type 0 where
  pub counter : ℕ
  pub buffers : Dict DataBuffer
  pub columns : List Column
  pub rownumber : ℕ
  pub capacity : ℕ
  pub eof : Bool

-- A pointer that is followed; NULL faults.
unfoldable pub followed : {A : Type 0} → Option A → Run A
followed none = fault outside
followed (some a) = ok a

module _ (malloc : ℕ → Option Block) where
  -- `for(Column col:columns) data[col.name] = new DataBuffer(pool, size);`
  unfoldable pub new_buffers : List Column → ℕ → Dict DataBuffer → Run (Dict DataBuffer)
  new_buffers [] size buffers = ok buffers
  new_buffers (col ∷ columns) size buffers =
      new_buffer malloc 1 size >>> λ d. new_buffers columns size (put buffers col.name d)

  -- The constructor.
  unfoldable pub new_batch : List Column → ℕ → Run Batch
  new_batch columns capacity =
      new_buffers columns (8 * capacity % 2 ^ 64) (λ _. none) >>> λ buffers. ok (record {
        counter = 0;
        buffers = buffers;
        columns = columns;
        rownumber = 0;
        capacity = capacity;
        eof = false;
      })

  -- `for(Column col:columns) data[col.name]->resize(size);`
  unfoldable pub resize_columns : List Column → ℕ → Dict DataBuffer → Run (Dict DataBuffer)
  resize_columns [] size buffers = ok buffers
  resize_columns (col ∷ columns) size buffers = followed (buffers col.name) >>> λ d.
      resize malloc 1 d size >>> λ d'. resize_columns columns size (put buffers col.name d')

  unfoldable pub resize_batch : Batch → ℕ → Run Batch
  resize_batch batch rownumber = elim (ltb batch.rownumber rownumber) [
    | true ↦ resize_columns batch.columns (rownumber * 8 % 2 ^ 64) batch.buffers >>> λ buffers.
        ok (record batch { buffers = buffers; rownumber = rownumber })
    | false ↦ ok (record batch { rownumber = rownumber })
  ]
