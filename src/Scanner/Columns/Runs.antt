-- ===== src/Scanner/Columns/Runs.antt =====
-- src/exec/ORCScanner.cpp, nextBatch: a column whose stream is a sequence of runs.
use tengdb.Common.{ℕ, ◌+◌, ◌*◌, ◌/◌, ◌^◌, ◌<◌, ◌≡◌, ap, ◌∙◌, arith, Bool, true}
use tengdb.Common.{List, ◌∷◌, ◌++◌, length, get_or, Option, none, some}
use tengdb.Common.Memory.{Memory, bytes_at}
use tengdb.Common.Name.{Name, put, put_same, same_name_self}
use tengdb.Common.Run.{ok, ◌>>>◌}
use tengdb.ColumnInfo.Column.{Column, is_rle_type}
use tengdb.ColumnInfo.Info.{ColumnInfo}
use tengdb.ColumnInfo.RleInfo.{RleInfo}
use tengdb.MemoryPool.{Block, DataBuffer}
use tengdb.MemoryPool.Blocks.{IsAllocator, IsBuffer}
use tengdb.Reader.{Stream, StripeInformation, matches, stripe_streams}
use tengdb.Reader.Streams.{Skipped, total, readdata-stream}
use tengdb.Rle.Next.{State, next}
use tengdb.Rle.Next.Sequence.{IsRuns, next-IsRuns}
use tengdb.Scanner.Batch.{followed}
use tengdb.Scanner.Batch.Print.{value_at}
use tengdb.Scanner.Batch.Room.{HasRoom}
use tengdb.Scanner.Columns.{
  Work, data_bytes, as_values, put_values, result_cells, plan, generated, column_number,
  with_column, read_stream, read_runs, read_column,
}
use tengdb.Scanner.Columns.Values.{put_values_lem, data_bytes_lem}
use tengdb.Table.Columns.{ColMap, get_column_number}
use native.Mathlib.Nat.{mul-div_cancel}

module _ (codegen : Bool) (read : ℕ → ℕ → Memory) (parse : ℕ → Memory → List Stream)
    (malloc : ℕ → Option Block) (colmap : ColMap) (sinfo : StripeInformation) where
  -- The steps of a case of the switch, one after the other.
  steps_lem :
      (name : Name) (w size kind n : ℕ) (issigned : Bool) (work : Work) (datasize : ℕ)
      (databuf buf buf' : DataBuffer) (info : ColumnInfo) (r : RleInfo) (bytes : List ℕ) (s : State)
      → w / 8 ≡ size
      → read_stream codegen read parse malloc colmap sinfo name kind work.databuf datasize
        ≡ ok (databuf, n)
      → work.batch.buffers name ≡ some buf
      → work.colinfos name ≡ some info
      → info.rleinfo ≡ some r
      → data_bytes databuf n ≡ ok bytes
      → next w issigned codegen (as_values size (result_cells buf)) r bytes ≡ ok s
      → put_values size buf s.offset s.result ≡ ok buf'
      → read_runs codegen read parse malloc colmap sinfo name (w, issigned, kind) (work, datasize)
        ≡ ok (
          with_column
              (record work {
                databuf = databuf;
                colinfos = put work.colinfos name (record info { rleinfo = some s.cinfo });
              })
              name
              buf',
          n,
        )
  unfolding read_runs followed
  steps_lem name w size kind n issigned work datasize databuf buf buf' info r bytes s whole e₁ e₂ e₃
        e₄ e₅ e₆ e₇ =
      rw (whole, e₁, ◌>>>◌, e₂, ◌>>>◌, e₃, ◌>>>◌, e₄, ◌>>>◌, e₅, ◌>>>◌, e₆, ◌>>>◌, e₇)

  dispatch_lem :
      (col : Column) (p : ℕ × Bool × ℕ) (work : Work) (datasize : ℕ)
      → is_rle_type col ≡ true
      → generated work.gen col.name ≡ none
      → plan col.type ≡ some p
      → read_column codegen read parse malloc colmap sinfo col (work, datasize)
        ≡ read_runs codegen read parse malloc colmap sinfo col.name p (work, datasize)
  unfolding read_column
  dispatch_lem col p work datasize rle plain planned = rw (rle, read_column, plain, planned)

  -- A column that has no generated function, whose kind is decoded as values of `size` bytes, and
  -- whose stream is listed by the footer of the stripe, after others that do not match, and holds
  -- direct, repeat and delta runs end to end: the column's buffer of the batch holds the values of
  -- all runs as numbers of `size` bytes each, one after the other, where the buffer has room for
  -- them and the values fit. The table has the column, its statistics agree with the kind on whether
  -- values are signed, the place and the length of the stream and the number of values fit 64 bits,
  -- and malloc returns blocks of the size that it is asked for.
  pub read_column-IsRuns :
      (alloc : IsAllocator malloc) (col : Column) (work : Work) (datasize n size kind : ℕ)
      (issigned : Bool) (info : ColumnInfo) (r : RleInfo) (before after : List Stream) (st : Stream)
      (values : List ℕ)
      → is_rle_type col ≡ true
      → generated work.gen col.name ≡ none
      → plan col.type ≡ some (size * 8, issigned, kind)
      → 0 < size
      → get_column_number colmap col.name ≡ some n
      → work.colinfos col.name ≡ some info
      → info.rleinfo ≡ some r
      → r.direct_info.issigned ≡ issigned
      → IsBuffer 1 work.databuf
      → HasRoom work.batch.buffers (length values * size) col.name
      → stripe_streams read parse malloc sinfo ≡ before ++ st ∷ after
      → Skipped kind n before
      → matches kind n st ≡ true
      → sinfo.offset + total before < 2 ^ 64
      → st.length < 2 ^ 64
      → IsRuns
          (size * 8)
          issigned
          (bytes_at (read st.length (sinfo.offset + total before)) 0 st.length)
          values
      → length values < 2 ^ 64
      → ((i : ℕ) → i < length values → get_or values i 0 < 256 ^ size)
      → (work' : Work) × (buf : DataBuffer) × (read_column codegen read parse malloc colmap sinfo
            col
            (work, datasize)
          ≡ ok (work', st.length))
        × (work'.batch.buffers col.name ≡ some buf)
        × IsBuffer 1 buf
        × ((i : ℕ)
            → i < length values
            → value_at size (result_cells buf) (i * size) ≡ get_or values i 0)
  unfolding read_stream column_number with_column
  read_column-IsRuns alloc col work datasize n size kind issigned info r before after st values rle
        plain planned some_size numbered known counted signs databuf_ok (buf, e₂, buf_ok, room)
        streams skipped found place_fits length_fits runs few small =
      let name = col.name in
      let m = read st.length (sinfo.offset + total before) in
      let (databuf, e₁, databuf_ok', enough, bytes) =
        readdata-stream read parse malloc alloc sinfo n kind work.databuf datasize before after st
          databuf_ok streams skipped found place_fits length_fits in
      let e₅ = data_bytes_lem databuf st.length m databuf_ok' enough bytes in
      let (s, e₆, holds, _, offset) =
        next-IsRuns (size * 8) issigned codegen (as_values size (result_cells buf)) r
          (bytes_at m 0 st.length) values runs signs few in
      let (buf', e₇, buf_ok', stored) =
        put_values_lem size buf s.result values buf_ok room some_size holds small in
      (
        with_column
            (record work {
              databuf = databuf;
              colinfos = put work.colinfos name (record info { rleinfo = some s.cinfo });
            })
            name buf',
        buf',
        dispatch_lem col (size * 8, issigned, kind) work datasize rle plain planned
            ∙ steps_lem name (size * 8) size kind st.length issigned work datasize databuf buf buf'
                info r (bytes_at m 0 st.length) s (mul-div_cancel size (omega arith))
                (rw (numbered, column_number) e₁) e₂ known counted e₅ e₆
                (ap (λ (k : ℕ). put_values size buf k s.result) offset ∙ e₇),
        put_same work.batch.buffers name buf' name (same_name_self name),
        buf_ok',
        stored,
      )
