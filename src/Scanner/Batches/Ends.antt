-- ===== src/Scanner/Batches/Ends.antt =====
-- src/exec/ORCScanner.cpp: a scan ends.
use tengdb.Common.{
  ℕ, zero, suc, ◌+◌, ◌*◌, ◌%◌, ◌^◌, ◌<◌, ◌≡◌, ◌≢◌, refl, Bool, true, false, List, [], ◌∷◌, Option,
  none, some, ltb, leb, length, map, All, Bool-cases, Option-cases, inl, inr,
}
use tengdb.Common.Memory.{Memory}
use tengdb.Common.Name.{Name, Dict}
use tengdb.Common.Run.{fault, stuck}
use tengdb.Common.Run.Halts.{Halts, Ending, Halts-then, Ending-then, Halts-ne, if-Ending}
use tengdb.ColumnInfo.Column.{Column}
use tengdb.MemoryPool.{Block, DataBuffer, resize}
use tengdb.Reader.{Stream, StripeInformation}
use tengdb.Reader.Open.{FileInputStream, Reader}
use tengdb.Scanner.Batch.{Batch, followed, resize_columns, resize_batch}
use tengdb.Scanner.Batch.Print.{
  print, print_rows, cells_of, cell_at, element_at, shown_as, data_array,
}
use tengdb.Scanner.Batches.{OrcScanner, set_eof, read_stripe, scan}
use tengdb.Scanner.Batches.Order.{batches, stripes_of}
use tengdb.Scanner.Batches.Stripes.{scan-eq-batches, IsReadable}
use tengdb.Scanner.Columns.{NextFunc, Work, read_columns}
use tengdb.Scanner.Columns.Ends.{followed-Ending, resize-Ending, Advancing, SameGen, columns_halt}
use tengdb.Table.Columns.{ColMap}
use tengdb.Table.Rep.{Dirent, is_wanted}
use tengdb.Table.Rep.Files.{filter}
use tengdb.Util.{TypeKind}

element_at-Ending : (block : Option Block) (size i : ℕ) → Ending (element_at block size i)
unfolding element_at
element_at-Ending none size i = λ e. cc
element_at-Ending (some b) size i = if-Ending (leb ((i + 1) * size) b.bytes) _ _ tt (λ e. cc)

cell_at-Ending : (block : Option Block) (kind : TypeKind) (i : ℕ) → Ending (cell_at block kind i)
unfolding cell_at
cell_at-Ending block kind i = elim (Option-cases (shown_as kind)) [
  | inl e ↦ rw (e, cell_at) tt
  | inr ((size, show), e) ↦
      rw (e, cell_at)
        (Ending-then (element_at block size i) _ _ (element_at-Ending block size i) λ x. tt)
]

cells_of-Ending : (blocks : List (Option Block × TypeKind)) (i : ℕ) → Ending (cells_of blocks i)
unfolding cells_of
cells_of-Ending [] i = tt
cells_of-Ending ((block, kind) ∷ blocks) i =
    Ending-then (cell_at block kind i) _ _ (cell_at-Ending block kind i)
      λ cell. Ending-then (cells_of blocks i) _ _ (cells_of-Ending blocks i) λ cells. tt

print_rows-Ending :
    (blocks : List (Option Block × TypeKind)) (i n counter : ℕ)
    → Ending (print_rows blocks i n counter)
unfolding print_rows
print_rows-Ending blocks i zero counter = tt
print_rows-Ending blocks i (suc n) counter =
    Ending-then (cells_of blocks i) _ _ (cells_of-Ending blocks i) λ cells.
      Ending-then (print_rows blocks (i + 1) n ((counter + 1) % 2 ^ 64)) _ _
        (print_rows-Ending blocks (i + 1) n ((counter + 1) % 2 ^ 64)) λ (last, lines). tt

data_array-Ending : (batch : Batch) (columns : List Column) → Ending (data_array batch columns)
unfolding data_array
data_array-Ending batch [] = tt
data_array-Ending batch (col ∷ columns) =
    Ending-then (followed (batch.buffers col.name)) _ _ (followed-Ending _) λ buf.
      Ending-then (data_array batch columns) _ _ (data_array-Ending batch columns) λ blocks. tt

print-Ending : (shown : Bool) (batch : Batch) → Ending (print shown batch)
unfolding print
print-Ending false batch = tt
print-Ending true batch =
    Ending-then (data_array batch batch.columns) _ _ (data_array-Ending batch batch.columns)
      λ blocks.
        Ending-then (print_rows blocks 0 batch.rownumber batch.counter) _ _
          (print_rows-Ending blocks 0 batch.rownumber batch.counter) λ (counter, lines). tt

module _ (malloc : ℕ → Option Block) where
  resize_columns-Ending :
      (columns : List Column) (size : ℕ) (buffers : Dict DataBuffer)
      → Ending (resize_columns malloc columns size buffers)
  unfolding resize_columns
  resize_columns-Ending [] size buffers = tt
  resize_columns-Ending (col ∷ columns) size buffers =
      Ending-then (followed (buffers col.name)) _ _ (followed-Ending _) λ d.
        Ending-then (resize malloc 1 d size) _ _ (resize-Ending malloc d size)
          λ d'. resize_columns-Ending columns size _

  resize_batch-Ending : (batch : Batch) (n : ℕ) → Ending (resize_batch malloc batch n)
  unfolding resize_batch
  resize_batch-Ending batch n = elim (Bool-cases (ltb batch.rownumber n)) [
    | inl more ↦
        rw (more, resize_batch)
          (Ending-then (resize_columns malloc batch.columns (n * 8 % 2 ^ 64) batch.buffers) _ _
            (resize_columns-Ending batch.columns (n * 8 % 2 ^ 64) batch.buffers) λ buffers. tt)
    | inr fewer ↦ rw (fewer, resize_batch) tt
  ]

module _ (shown codegen : Bool) (files : Name → FileInputStream) (footer_length : List ℕ → ℕ)
    (footer : List ℕ → List StripeInformation) (parse : ℕ → Memory → List Stream)
    (malloc : ℕ → Option Block) where
  stripe_halts :
      (gen : Option (Dict NextFunc)) (colmap : ColMap) (columns : List Column) (reader : Reader)
      (stripe : StripeInformation) (work : Work)
      → Advancing gen
      → work.gen ≡ gen
      → Halts
          (read_stripe shown codegen files footer_length footer parse malloc colmap columns reader
            stripe work)
          (λ work'. work'.gen ≡ gen)
  unfolding read_stripe set_eof
  stripe_halts gen colmap columns reader stripe work advancing same =
      let cleared = record (work.batch) { eof = false } in
      Ending-then (resize_batch malloc cleared stripe.number_of_rows) _ _
        (resize_batch-Ending malloc cleared stripe.number_of_rows)
        λ batch.
          Halts-then
            (read_columns codegen reader.stream.read parse malloc colmap stripe columns
              (record work { batch = batch }, 0))
            _ (SameGen gen) _
            (columns_halt codegen reader.stream.read parse malloc colmap stripe gen columns
              (record work { batch = batch }) 0 advancing same)
            λ (work', datasize') same'.
              Ending-then (print shown work'.batch) _ _ (print-Ending shown work'.batch)
                λ (batch', lines). same'

  batches-Ending :
      (gen : Option (Dict NextFunc)) (colmap : ColMap) (columns : List Column)
      (stripes : List (Reader × StripeInformation)) (work : Work)
      → Advancing gen
      → work.gen ≡ gen
      → Ending (
          batches shown codegen files footer_length footer parse malloc colmap columns stripes work)
  unfolding batches
  batches-Ending gen colmap columns [] work advancing same = tt
  batches-Ending gen colmap columns ((reader, stripe) ∷ more) work advancing same =
      Halts-then _ _ (λ work'. work'.gen ≡ gen) _
        (stripe_halts gen colmap columns reader stripe work advancing same)
        λ work' same'.
          Ending-then
            (batches shown codegen files footer_length footer parse malloc colmap columns more
              work')
            _ _ (batches-Ending gen colmap columns more work' advancing same') λ others. tt

  -- A scan comes to an end, with all batches or with a fault of the program, whatever the stripes
  -- hold: where no file is open yet, every file that is wanted can be opened and has a stripe at
  -- least, and every generated function takes a byte at least when it is called. One call of
  -- nextBatch more than there are stripes is enough.
  pub scan-ne-stuck :
      (reader_of : Dirent → Reader) (s : OrcScanner) (fuel : ℕ)
      → s.reader ≡ none
      → let rep = s.table.rep in
        let dir = filter (is_wanted rep.isfile rep.filename) rep.dir in
        All
          (IsReadable shown codegen files footer_length footer parse malloc rep.path reader_of)
          dir
        → length (stripes_of (map reader_of dir)) < fuel
        → Advancing s.work.gen
        → scan shown codegen files footer_length footer parse malloc fuel s ≢ fault stuck
  scan-ne-stuck reader_of s fuel closed readable enough advancing =
      let rep = s.table.rep in
      let stripes =
        stripes_of (map reader_of (filter (is_wanted rep.isfile rep.filename) rep.dir)) in
      rw
        (scan-eq-batches shown codegen files footer_length footer parse malloc reader_of s fuel
          closed readable enough)
        (Halts-ne _ _
          (batches-Ending s.work.gen s.table.colmap s.columns stripes s.work advancing refl))
