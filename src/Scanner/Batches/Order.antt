-- ===== src/Scanner/Batches/Order.antt =====
-- src/exec/ORCScanner.cpp: the stripes of files, read one after the other.
use tengdb.Common.{ℕ, ◌+◌, ◌≡◌, refl, ◌∙◌, arith, Bool, true, false}
use tengdb.Common.{List, [], ◌∷◌, ◌++◌, length, map, Option}
use tengdb.Common.{ltb, ◌*◌, ◌%◌, ◌^◌}
use tengdb.Common.Memory.{Memory}
use tengdb.Common.Name.{Name}
use tengdb.Common.Run.{Run, ok, Gives, Gives-then, Gives-then_from, ◌>>>◌}
use tengdb.ColumnInfo.Column.{Column}
use tengdb.MemoryPool.{Block}
use tengdb.Reader.{Stream, StripeInformation}
use tengdb.Reader.Open.{FileInputStream, Reader}
use tengdb.Scanner.Batch.{Batch, resize_batch, resize_columns}
use tengdb.Scanner.Batch.Print.{print, print_eof}
use tengdb.Scanner.Batches.{stripe_at, set_eof, read_stripe}
use tengdb.Scanner.Columns.{Work, read_columns}
use tengdb.Scanner.Columns.Flags.{read_columns-eof}
use tengdb.Table.Columns.{ColMap}

-- Every stripe of every file, in order.
unfoldable pub stripes_of : List Reader → List (Reader × StripeInformation)
stripes_of [] = []
stripes_of (reader ∷ readers) =
    map (λ stripe. (reader, stripe)) reader.stripes ++ stripes_of readers

pub length-map_stripes :
    (reader : Reader) (stripes : List StripeInformation) (more : List (Reader × StripeInformation))
    → length (map (λ stripe. (reader, stripe)) stripes ++ more) ≡ length stripes + length more
length-map_stripes reader [] more = omega arith
length-map_stripes reader (stripe ∷ stripes) more =
    omega (arith, length-map_stripes reader stripes more)

pub stripe_at-append :
    (before rest : List StripeInformation) (stripe : StripeInformation)
    → stripe_at (before ++ stripe ∷ rest) (length before) ≡ ok stripe
unfolding stripe_at
stripe_at-append [] rest stripe = refl
stripe_at-append (first ∷ before) rest stripe = stripe_at-append before rest stripe

module _ (shown codegen : Bool) (files : Name → FileInputStream) (footer_length : List ℕ → ℕ)
    (footer : List ℕ → List StripeInformation) (parse : ℕ → Memory → List Stream)
    (malloc : ℕ → Option Block) where
  -- Reading stripes one after the other, each into a batch.
  unfoldable pub batches :
      ColMap → List Column → List (Reader × StripeInformation) → Work → Run (List Batch)
  batches colmap columns [] work = ok []
  batches colmap columns ((reader, stripe) ∷ more) work =
      read_stripe shown codegen files footer_length footer parse malloc colmap columns reader stripe
        work
      >>> λ work'. batches colmap columns more work' >>> λ others. ok (work'.batch ∷ others)

  resize_eof :
      (batch : Batch) (n : ℕ) → Gives (resize_batch malloc batch n) (λ b. b.eof ≡ batch.eof)
  unfolding resize_batch
  resize_eof batch n = go (ltb batch.rownumber n)
    where
      go :
          (more : Bool)
          → Gives
              (elim more [
                | true ↦
                    resize_columns malloc batch.columns (n * 8 % 2 ^ 64) batch.buffers
                    >>> λ buffers. ok (record batch { buffers = buffers; rownumber = n })
                | false ↦ ok (record batch { rownumber = n })
              ])
              (λ b. b.eof ≡ batch.eof)
      go true =
          Gives-then (resize_columns malloc batch.columns (n * 8 % 2 ^ 64) batch.buffers) _ _
            λ buffers. refl
      go false = refl

  pub read_stripe_eof :
      (colmap : ColMap) (columns : List Column) (reader : Reader) (stripe : StripeInformation)
      (work : Work)
      → Gives
          (read_stripe shown codegen files footer_length footer parse malloc colmap columns reader
            stripe work)
          (λ work'. work'.batch.eof ≡ false)
  unfolding read_stripe set_eof
  read_stripe_eof colmap columns reader stripe work =
      let cleared = record (work.batch) { eof = false } in
      Gives-then_from (resize_batch malloc cleared stripe.number_of_rows) _ (λ b. b.eof ≡ false) _
        (resize_eof cleared stripe.number_of_rows)
        λ batch e.
          Gives-then_from
            (read_columns codegen reader.stream.read parse malloc colmap stripe columns
              (record work { batch = batch }, 0))
            _ (λ (work', _). work'.batch.eof ≡ batch.eof) _
            (read_columns-eof codegen reader.stream.read parse malloc colmap stripe columns
              (record work { batch = batch }) 0)
            λ (work', _) e'.
              Gives-then_from (print shown work'.batch) _ (λ (b, _). b.eof ≡ work'.batch.eof) _
                (print_eof shown work'.batch) λ (batch', _) e''. e'' ∙ e' ∙ e
