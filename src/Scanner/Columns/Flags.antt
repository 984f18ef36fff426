-- ===== src/Scanner/Columns/Flags.antt =====
-- src/exec/ORCScanner.cpp, nextBatch: reading columns leaves the flag `eof` of the batch alone.
use tengdb.Common.{ℕ, ◌/◌, ◌≡◌, refl, ◌∙◌, Bool, true, false, List, [], ◌∷◌, Option, none, some}
use tengdb.Common.Memory.{Memory}
use tengdb.Common.Name.{Name}
use tengdb.Common.Run.{Run, ok, fault, corrupt, Gives, Gives-then, Gives-then_from}
use tengdb.ColumnInfo.Column.{Column, is_rle_type}
use tengdb.MemoryPool.{Block}
use tengdb.Reader.{Stream, StripeInformation}
use tengdb.Rle.Next.{next}
use tengdb.Scanner.Batch.{followed}
use tengdb.Scanner.Columns.{
  NextFunc, Work, data_bytes, as_values, result_cells, put_values, plan, generated, generated_loop,
  stream_kind, with_column, read_stream, read_plain, read_runs, read_generated, read_column,
  read_columns,
}
use tengdb.Table.Columns.{ColMap}

abbrev Same : Bool → Work × ℕ → Type 0
Same eof (work, datasize) = work.batch.eof ≡ eof

module _ (codegen : Bool) (read : ℕ → ℕ → Memory) (parse : ℕ → Memory → List Stream)
    (malloc : ℕ → Option Block) (colmap : ColMap) (sinfo : StripeInformation) where
  abbrev Stays : (Work × ℕ → Run (Work × ℕ)) → Type 0
  Stays f = (work : Work) (datasize : ℕ) → Gives (f (work, datasize)) (Same work.batch.eof)

  plain_Stays : (name : Name) → Stays (read_plain codegen read parse malloc colmap sinfo name)
  unfolding read_plain with_column
  plain_Stays name work datasize = Gives-then (followed (work.batch.buffers name)) _ _ λ buf.
      Gives-then (read_stream codegen read parse malloc colmap sinfo name 1 buf datasize) _ _
        λ (buf', datasize'). refl

  runs_Stays :
      (name : Name) (p : ℕ × Bool × ℕ)
      → Stays (read_runs codegen read parse malloc colmap sinfo name p)
  unfolding read_runs with_column
  runs_Stays name (w, issigned, kind) work datasize =
      Gives-then
        (read_stream codegen read parse malloc colmap sinfo name kind work.databuf datasize) _ _
        λ (databuf, datasize'). Gives-then (followed (work.batch.buffers name)) _ _ λ buf.
          Gives-then (followed (work.colinfos name)) _ _ λ info.
            Gives-then (followed info.rleinfo) _ _ λ rleinfo.
              Gives-then (data_bytes databuf datasize') _ _ λ bytes.
                Gives-then
                  (next w issigned codegen (as_values (w / 8) (result_cells buf)) rleinfo bytes) _ _
                  λ s. Gives-then (put_values (w / 8) buf s.offset s.result) _ _ λ buf'. refl

  generated_Stays :
      (col : Column) (next_func : NextFunc)
      → Stays (read_generated codegen read parse malloc colmap sinfo col next_func)
  unfolding read_generated with_column
  generated_Stays col next_func work datasize =
      Gives-then
        (read_stream codegen read parse malloc colmap sinfo col.name (stream_kind col.type)
          work.databuf datasize)
        _ _
        λ (databuf, datasize'). Gives-then (followed (work.batch.buffers col.name)) _ _ λ buf.
          Gives-then (data_bytes databuf datasize') _ _ λ bytes.
            Gives-then (generated_loop datasize' next_func bytes datasize' 0 0 (result_cells buf)) _
              _ λ cells. refl

  column_Stays : (col : Column) → Stays (read_column codegen read parse malloc colmap sinfo col)
  unfolding read_column
  column_Stays col work datasize =
      go (is_rle_type col) (generated work.gen col.name) (plan col.type)
    where
      go :
          (rle : Bool) (next_func : Option NextFunc) (p : Option (ℕ × Bool × ℕ))
          → Gives
              (elim rle [
                | false ↦
                    read_plain codegen read parse malloc colmap sinfo col.name (work, datasize)
                | true ↦ elim next_func [
                  | some f ↦
                      read_generated codegen read parse malloc colmap sinfo col f (work, datasize)
                  | none ↦ elim p [
                    | none ↦ fault corrupt
                    | some q ↦
                        read_runs codegen read parse malloc colmap sinfo col.name q (work, datasize)
                  ]
                ]
              ])
              (Same work.batch.eof)
      go false next_func p = plain_Stays col.name work datasize
      go true (some f) p = generated_Stays col f work datasize
      go true none (some q) = runs_Stays col.name q work datasize
      go true none none = tt

  Gives-eof : (r : Run (Work × ℕ)) (a b : Bool) → a ≡ b → Gives r (Same a) → Gives r (Same b)
  Gives-eof (ok (work, datasize)) a b e h = h ∙ e
  Gives-eof (fault f) a b e h = tt

  -- Reading columns of a stripe leaves the flag as it was.
  pub read_columns-eof :
      (columns : List Column) (work : Work) (datasize : ℕ)
      → Gives
          (read_columns codegen read parse malloc colmap sinfo columns (work, datasize))
          (λ (work', _). work'.batch.eof ≡ work.batch.eof)
  unfolding read_columns
  read_columns-eof [] work datasize = refl
  read_columns-eof (col ∷ columns) work datasize =
      Gives-then_from (read_column codegen read parse malloc colmap sinfo col (work, datasize))
        (read_columns codegen read parse malloc colmap sinfo columns) (Same work.batch.eof)
        (Same work.batch.eof) (column_Stays col work datasize)
        λ (work', datasize') e.
          Gives-eof (read_columns codegen read parse malloc colmap sinfo columns (work', datasize'))
            work'.batch.eof work.batch.eof e (read_columns-eof columns work' datasize')
