-- ===== src/Scanner/Batches.antt =====
-- src/exec/ORCScanner.cpp: a scanner, which reads a table stripe by stripe.
pub mod Order
pub mod Files
pub mod Stripes
pub mod Ends
use tengdb.Common.{ℕ, zero, suc, ◌+◌, ◌==◌, Bool, true, false, List, [], ◌∷◌, length}
use tengdb.Common.{Option, none, some}
use tengdb.Common.Memory.{Memory}
use tengdb.Common.Name.{Name, Dict, put}
use tengdb.Common.Run.{Run, ok, fault, outside, stuck, ◌>>>◌}
use tengdb.ColumnInfo.Column.{Column, is_rle_type}
use tengdb.ColumnInfo.Info.{ColumnInfo, new_column_info}
use tengdb.MemoryPool.{Block, new_buffer}
use tengdb.Reader.{Stream, StripeInformation}
use tengdb.Reader.Open.{FileInputStream, Reader, create_reader}
use tengdb.Scanner.Batch.{Batch, new_batch, resize_batch}
use tengdb.Scanner.Batch.Print.{print}
use tengdb.Scanner.Columns.{NextFunc, Work, read_columns}
use tengdb.Table.Access.{Table, reg, next_path}
use tengdb.Table.Columns.{ColMap}

-- The members of ORCScanner and of Scanner; those that are read into stand in `work`.
pub record OrcScanner : Type 0 where
  pub table : Table
  pub columns : List Column
  pub reader : Option Reader
  pub cur_stripe : ℕ
  pub work : Work

-- The constructor.
unfoldable pub new_scanner : (ℕ → Option Block) → Table → List Column → Run OrcScanner
new_scanner malloc table columns = new_buffer malloc 1 100 >>> λ databuf.
    new_batch malloc columns 1000000 >>> λ batch. ok (record {
      table = (reg table).1;
      columns = columns;
      reader = none;
      cur_stripe = 0;
      work = record { databuf = databuf; batch = batch; colinfos = λ _. none; gen = none };
    })

-- `col.isRleType()&&!gen->hasFunction("next_"+col.name)`
unfoldable pub is_counted : Dict NextFunc → Column → Bool
is_counted functions col = elim (is_rle_type col) [
  | false ↦ false
  | true ↦ elim (functions col.name) [ none ↦ true | some f ↦ false ]
]

unfoldable pub prepare_columns : Dict NextFunc → List Column → Dict ColumnInfo → Dict ColumnInfo
prepare_columns functions [] colinfos = colinfos
prepare_columns functions (col ∷ columns) colinfos =
    prepare_columns functions columns (elim (is_counted functions col) [
      | true ↦ put colinfos col.name (new_column_info col.name col.type)
      | false ↦ colinfos
    ])

-- `functions` are those of the code generator that getCodeGen returns.
unfoldable pub prepare : Dict NextFunc → OrcScanner → OrcScanner
prepare functions s = record s {
  work = record (s.work) {
    gen = some functions;
    colinfos = prepare_columns functions s.columns s.work.colinfos;
  };
}

-- `footer->stripes(i)`
unfoldable pub stripe_at : List StripeInformation → ℕ → Run StripeInformation
stripe_at [] i = fault outside
stripe_at (stripe ∷ stripes) zero = ok stripe
stripe_at (stripe ∷ stripes) (suc i) = stripe_at stripes i

-- `shown` is FLAGS_print_batch, `codegen` FLAGS_codegen; `files` stands for the files at their
-- paths, and `footer_length`, `footer` and `parse` for protobuf's parsers of a postscript, a footer
-- and the footer of a stripe.
module _ (shown codegen : Bool) (files : Name → FileInputStream) (footer_length : List ℕ → ℕ)
    (footer : List ℕ → List StripeInformation) (parse : ℕ → Memory → List Stream)
    (malloc : ℕ → Option Block) where
  unfoldable pub set_eof : Bool → Work → Work
  set_eof eof work = record work { batch = record (work.batch) { eof = eof } }

  -- From `batch->eof = false` to `batch->print()`; what is printed is not kept.
  unfoldable pub read_stripe : ColMap → List Column → Reader → StripeInformation → Work → Run Work
  read_stripe colmap columns reader stripe work =
      resize_batch malloc (set_eof false work).batch stripe.number_of_rows >>> λ batch.
      read_columns codegen reader.stream.read parse malloc colmap stripe columns
        (record work { batch = batch }, 0)
      >>> λ (work', _).
          print shown work'.batch >>> λ (batch', lines). ok (record work' { batch = batch' })

  -- `reader==NULL||curStripe==reader->getStripeSize()`
  unfoldable pub at_end : OrcScanner → Bool
  at_end s = elim s.reader [ none ↦ true | some reader ↦ s.cur_stripe == length reader.stripes ]

  unfoldable pub read_current : Reader → ℕ → OrcScanner → Run OrcScanner
  read_current reader cur_stripe s = stripe_at reader.stripes cur_stripe >>> λ stripe.
      read_stripe s.table.colmap s.columns reader stripe s.work >>> λ work.
      ok (record s { reader = some reader; cur_stripe = cur_stripe + 1; work = work })

  -- `reader = table->nextFile();` and what follows it: the end, or the file's first stripe.
  unfoldable pub open_next : Option Name × Table → OrcScanner → Run OrcScanner
  open_next (none, table) s =
      ok (record s { table = table; reader = none; work = set_eof true s.work })
  open_next (some path, table) s = create_reader footer_length footer (files path) >>> λ reader.
      read_current reader 0 (record s { table = table })

  -- The batch that is returned is that of the new state.
  unfoldable pub next_batch : OrcScanner → Run OrcScanner
  next_batch s = elim (at_end s) [
    | true ↦ open_next (next_path s.table) s
    | false ↦ elim s.reader [
      | none ↦ fault outside
      | some reader ↦ read_current reader s.cur_stripe s
    ]
  ]

  -- The loop of src/test/TestSql.cpp: the batches before the one that says that it is the end.
  unfoldable pub scan : ℕ → OrcScanner → Run (List Batch)
  scan zero s = fault stuck
  scan (suc fuel) s = next_batch s >>> λ s'. elim s'.work.batch.eof [
    | true ↦ ok []
    | false ↦ scan fuel s' >>> λ batches. ok (s'.work.batch ∷ batches)
  ]
