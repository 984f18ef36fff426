-- ===== src/Scanner/Columns/Ends.antt =====
-- src/exec/ORCScanner.cpp, nextBatch: reading the columns of a stripe ends.
use tengdb.Common.{
  ℕ, zero, suc, ◌+◌, ◌/◌, ◌≡◌, ◌<◌, ◌≤◌, refl, ◌∙◌, sym, arith, Bool, true, false, List, [], ◌∷◌,
  Option, none, some,
}
use tengdb.Common.{Bool-cases, ltb, leb, ◌==◌, ◌*◌, ◌||◌, Option-cases, inl, inr}
use mathlib.Core.Path.{subst}
use tengdb.Common.Memory.{Memory}
use tengdb.Common.Name.{Name, Dict}
use tengdb.Common.Run.{Run, ok, fault}
use tengdb.Common.Run.Local.{Run-cases}
use tengdb.Common.Run.Halts.{Halts, Ending, Halts-then, Ending-then, ne-Ending, if-Ending}
use tengdb.ColumnInfo.Column.{Column, is_rle_type}
use tengdb.MemoryPool.{
  Block, DataBuffer, resize, reserve, move, clear_new, with_size, with_block, write_block, is_null,
}
use tengdb.Reader.{
  Stream, StripeInformation, readdata, make_room, with_bytes, read_into, with_datasize, locate,
  stripe_streams,
}
use tengdb.Rle.Next.{next}
use tengdb.Rle.Next.Total.{next-ne-stuck}
use tengdb.Scanner.Batch.{followed}
use tengdb.Scanner.Columns.{
  NextFunc, Work, data_bytes, as_values, result_cells, put_values, plan, generated, generated_loop,
  stream_kind, with_column, column_number, read_stream, read_plain, read_runs, read_generated,
  read_column, read_columns,
}
use tengdb.Table.Columns.{ColMap, get_column_number}

pub followed-Ending : {A : Type 0} (o : Option A) → Ending (followed o)
unfolding followed
followed-Ending none = λ e. cc
followed-Ending (some a) = tt

module _ (size_of : ℕ) where
  write_block-Ending :
      (b : Option Block) (from n : ℕ) (cells : Memory) → Ending (write_block size_of b from n cells)
  unfolding write_block
  write_block-Ending none from n cells = if-Ending (ltb 0 n) _ _ (λ e. cc) tt
  write_block-Ending (some b) from n cells =
      if-Ending (leb (size_of * from + n) b.bytes) _ _ tt (λ e. cc)

module _ (malloc : ℕ → Option Block) where
  with_block-Ending :
      (d : DataBuffer) (n : ℕ) (r : Run (Option Block))
      → Ending r
      → Ending (with_block malloc 1 d n r)
  unfolding with_block
  with_block-Ending d n (ok b) h = tt
  with_block-Ending d n (fault e) h = h

  with_size-Ending :
      (d : DataBuffer) (n : ℕ) (r : Run (Option Block))
      → Ending r
      → Ending (with_size malloc 1 d n r)
  unfolding with_size
  with_size-Ending d n (ok b) h = tt
  with_size-Ending d n (fault e) h = h

  move-Ending : (b : Option Block) (size n : ℕ) → Ending (move malloc 1 b size n)
  unfolding move
  move-Ending none size n = tt
  move-Ending (some old) size n = write_block-Ending 1 _ 0 _ old.cells

  reserve-Ending : (d : DataBuffer) (n : ℕ) → Ending (reserve malloc 1 d n)
  unfolding reserve
  reserve-Ending d n =
      if-Ending (ltb d.current_capacity n || is_null d.buf) _ _
        (with_block-Ending d n _ (move-Ending d.buf d.current_size n)) tt

  clear_new-Ending : (d : DataBuffer) (n : ℕ) → Ending (clear_new malloc 1 d n)
  unfolding clear_new
  clear_new-Ending d n =
      if-Ending (ltb d.current_size n) _ _
        (with_size-Ending d n _ (write_block-Ending 1 d.buf d.current_size _ (λ _. 0))) tt

  pub resize-Ending : (d : DataBuffer) (n : ℕ) → Ending (resize malloc 1 d n)
  unfolding resize
  resize-Ending d n = elim (Run-cases (reserve malloc 1 d n)) [
    | inl (d', e) ↦ rw (e, resize) (clear_new-Ending d' n)
    | inr (x, e) ↦ rw (e, resize) (rw e at (reserve-Ending d n))
  ]

  module _ (read : ℕ → ℕ → Memory) (parse : ℕ → Memory → List Stream) where
    with_bytes-Ending :
        (d : DataBuffer) (r : Run (Option Block))
        → Ending r
        → Ending (with_bytes read parse malloc d r)
    unfolding with_bytes
    with_bytes-Ending d (ok b) h = tt
    with_bytes-Ending d (fault e) h = h

    read_into-Ending :
        (datasize offset : ℕ) (r : Run DataBuffer)
        → Ending r
        → Ending (read_into read parse malloc datasize offset r)
    unfolding read_into
    read_into-Ending datasize offset (ok d) h =
        with_bytes-Ending d _ (write_block-Ending 1 d.buf 0 datasize (read datasize offset))
    read_into-Ending datasize offset (fault e) h = h

    with_datasize-Ending :
        (datasize : ℕ) (r : Run DataBuffer)
        → Ending r
        → Ending (with_datasize read parse malloc datasize r)
    unfolding with_datasize
    with_datasize-Ending datasize (ok d) h = tt
    with_datasize-Ending datasize (fault e) h = h

    make_room-Ending :
        (d : DataBuffer) (datasize : ℕ) → Ending (make_room read parse malloc d datasize)
    unfolding make_room
    make_room-Ending d datasize =
        elim (ltb d.current_capacity datasize)
          as (λ t. Ending (elim t [ true ↦ resize malloc 1 d datasize | false ↦ ok d ])) [
            | true ↦ resize-Ending d datasize
            | false ↦ tt
          ]

    readdata-Ending :
        (sinfo : StripeInformation) (column kind : ℕ) (d : DataBuffer) (datasize : ℕ)
        → Ending (readdata read parse malloc sinfo column kind d datasize)
    unfolding readdata
    readdata-Ending sinfo column kind d datasize =
        elim (Option-cases
          (locate kind column sinfo.offset (stripe_streams read parse malloc sinfo))) [
            | inl e ↦ rw (e, readdata) tt
            | inr ((offset, length), e) ↦
                rw (e, readdata)
                  (with_datasize-Ending length _
                    (read_into-Ending length offset _ (make_room-Ending d length)))
          ]

data_bytes-Ending : (d : DataBuffer) (datasize : ℕ) → Ending (data_bytes d datasize)
unfolding data_bytes
data_bytes-Ending d datasize = elim (Option-cases d.buf) [
  | inl e ↦ rw e (if-Ending (datasize == 0) _ _ tt (λ e. cc))
  | inr (b, e) ↦ rw e (if-Ending (leb datasize b.bytes) _ _ tt (λ e. cc))
]

put_values-Ending :
    (size : ℕ) (d : DataBuffer) (offset : ℕ) (values : Memory)
    → Ending (put_values size d offset values)
unfolding put_values
put_values-Ending size d offset values = elim (Option-cases d.buf) [
  | inl e ↦ rw e (if-Ending (offset == 0) _ _ tt (λ e. cc))
  | inr (b, e) ↦ rw e (if-Ending (leb (offset * size) b.bytes) _ _ tt (λ e. cc))
]

column_number-Ending : (colmap : ColMap) (name : Name) → Ending (column_number colmap name)
unfolding column_number
column_number-Ending colmap name = elim (Option-cases (get_column_number colmap name)) [
  | inl e ↦ rw (e, column_number) (λ e. cc)
  | inr (n, e) ↦ rw (e, column_number) tt
]

-- A generated function that takes a byte at least.
abbrev pub Advances : NextFunc → Type 0
Advances f =
    (bytes : List ℕ) (index offset : ℕ) (result : Memory) → index < (f bytes index offset result).0

-- Every function of the generator does.
abbrev pub Advancing : Option (Dict NextFunc) → Type 0
Advancing gen = (name : Name) (f : NextFunc) → generated gen name ≡ some f → Advances f

generated_loop-Ending :
    (fuel : ℕ) (f : NextFunc) (bytes : List ℕ) (datasize index offset : ℕ) (result : Memory)
    → Advances f
    → datasize ≤ index + fuel
    → Ending (generated_loop fuel f bytes datasize index offset result)
unfolding generated_loop
generated_loop-Ending zero f bytes datasize index offset result advances enough =
    let done : ltb index datasize ≡ false = ground arith in rw done tt
generated_loop-Ending (suc fuel) f bytes datasize index offset result advances enough =
    let further = advances bytes index offset result in
    let (index', written, result') = f bytes index offset result in
    let more =
      generated_loop-Ending fuel f bytes datasize index' (offset + written) result' advances
        (omega arith) in
    elim (ltb index datasize)
      as (λ t. Ending (elim t [
        | false ↦ ok result
        | true ↦ generated_loop fuel f bytes datasize index' (offset + written) result'
      ])) [ false ↦ tt | true ↦ more ]

-- The generator stays as it was.
abbrev pub SameGen : Option (Dict NextFunc) → Work × ℕ → Type 0
SameGen gen (work, datasize) = work.gen ≡ gen

module _ (codegen : Bool) (read : ℕ → ℕ → Memory) (parse : ℕ → Memory → List Stream)
    (malloc : ℕ → Option Block) (colmap : ColMap) (sinfo : StripeInformation) where
  read_stream-Ending :
      (name : Name) (kind : ℕ) (d : DataBuffer) (datasize : ℕ)
      → Ending (read_stream codegen read parse malloc colmap sinfo name kind d datasize)
  unfolding read_stream
  read_stream-Ending name kind d datasize =
      Ending-then (column_number colmap name) _ _ (column_number-Ending colmap name)
        λ n. readdata-Ending malloc read parse sinfo n kind d datasize

  plain_halts :
      (name : Name) (work : Work) (datasize : ℕ)
      → Halts
          (read_plain codegen read parse malloc colmap sinfo name (work, datasize))
          (SameGen work.gen)
  unfolding read_plain with_column
  plain_halts name work datasize =
      Ending-then (followed (work.batch.buffers name)) _ _
        (followed-Ending (work.batch.buffers name))
        λ buf.
          Ending-then (read_stream codegen read parse malloc colmap sinfo name 1 buf datasize) _ _
            (read_stream-Ending name 1 buf datasize) λ (buf', datasize'). refl

  runs_halts :
      (name : Name) (p : ℕ × Bool × ℕ) (work : Work) (datasize : ℕ)
      → Halts
          (read_runs codegen read parse malloc colmap sinfo name p (work, datasize))
          (SameGen work.gen)
  unfolding read_runs with_column
  runs_halts name (w, issigned, kind) work datasize =
      Ending-then
        (read_stream codegen read parse malloc colmap sinfo name kind work.databuf datasize) _ _
        (read_stream-Ending name kind work.databuf datasize)
        λ (databuf, datasize').
          Ending-then (followed (work.batch.buffers name)) _ _ (followed-Ending _) λ buf.
            Ending-then (followed (work.colinfos name)) _ _ (followed-Ending _) λ info.
              Ending-then (followed info.rleinfo) _ _ (followed-Ending _) λ rleinfo.
                Ending-then (data_bytes databuf datasize') _ _ (data_bytes-Ending databuf datasize')
                  λ bytes.
                    let values = as_values (w / 8) (result_cells buf) in
                    Ending-then (next w issigned codegen values rleinfo bytes) _ _
                      (ne-Ending _ (next-ne-stuck w issigned codegen values rleinfo bytes))
                      λ s.
                        Ending-then (put_values (w / 8) buf s.offset s.result) _ _
                          (put_values-Ending (w / 8) buf s.offset s.result) λ buf'. refl

  generated_halts :
      (col : Column) (f : NextFunc) (work : Work) (datasize : ℕ)
      → Advances f
      → Halts
          (read_generated codegen read parse malloc colmap sinfo col f (work, datasize))
          (SameGen work.gen)
  unfolding read_generated with_column
  generated_halts col f work datasize advances =
      Ending-then
        (read_stream codegen read parse malloc colmap sinfo col.name (stream_kind col.type)
          work.databuf datasize)
        _ _ (read_stream-Ending col.name (stream_kind col.type) work.databuf datasize)
        λ (databuf, datasize').
          Ending-then (followed (work.batch.buffers col.name)) _ _ (followed-Ending _) λ buf.
            Ending-then (data_bytes databuf datasize') _ _ (data_bytes-Ending databuf datasize')
              λ bytes.
                Ending-then (generated_loop datasize' f bytes datasize' 0 0 (result_cells buf)) _ _
                  (generated_loop-Ending datasize' f bytes datasize' 0 0 (result_cells buf) advances
                    (omega arith))
                  λ cells. refl

  column_halts :
      (col : Column) (work : Work) (datasize : ℕ)
      → Advancing work.gen
      → Halts
          (read_column codegen read parse malloc colmap sinfo col (work, datasize))
          (SameGen work.gen)
  unfolding read_column
  column_halts col work datasize advancing = elim (Bool-cases (is_rle_type col)) [
    | inr plain ↦ rw (plain, read_column) (plain_halts col.name work datasize)
    | inl rle ↦ elim (Option-cases (generated work.gen col.name)) [
      | inr (f, e) ↦
          rw (rle, e, read_column) (generated_halts col f work datasize (advancing col.name f e))
      | inl none_left ↦ elim (Option-cases (plan col.type)) [
        | inl no_plan ↦ rw (rle, none_left, no_plan, read_column) (λ e. cc)
        | inr (p, e) ↦ rw (rle, none_left, e, read_column) (runs_halts col.name p work datasize)
      ]
    ]
  ]

  pub columns_halt :
      (gen : Option (Dict NextFunc)) (columns : List Column) (work : Work) (datasize : ℕ)
      → Advancing gen
      → work.gen ≡ gen
      → Halts
          (read_columns codegen read parse malloc colmap sinfo columns (work, datasize))
          (SameGen gen)
  unfolding read_columns
  columns_halt gen [] work datasize advancing same = same
  columns_halt gen (col ∷ columns) work datasize advancing same =
      Halts-then (read_column codegen read parse malloc colmap sinfo col (work, datasize)) _
        (SameGen work.gen) _ (column_halts col work datasize (subst Advancing (sym same) advancing))
        λ (work', datasize') e. columns_halt gen columns work' datasize' advancing (e ∙ same)
