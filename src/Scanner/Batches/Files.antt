-- ===== src/Scanner/Batches/Files.antt =====
-- src/exec/ORCScanner.cpp, nextBatch: how it goes through the stripes of a file and on to the next.
use tengdb.Common.{ℕ, zero, suc, ◌+◌, ◌==◌, ◌<◌, ◌≡◌, refl, sym, ap, ◌∙◌, arith, Bool, true, false}
use tengdb.Common.{List, [], ◌∷◌, ◌++◌, length, length-append, map, Option, none, some}
use tengdb.Common.Memory.{Memory}
use tengdb.Common.Name.{Name}
use tengdb.Common.Run.{Run, ok, fault, Gives, ◌>>>◌}
use tengdb.ColumnInfo.Column.{Column}
use tengdb.MemoryPool.{Block}
use tengdb.Reader.{Stream, StripeInformation}
use tengdb.Reader.Open.{FileInputStream, Reader, create_reader}
use tengdb.Scanner.Batch.{Batch}
use tengdb.Scanner.Batches.{
  OrcScanner, stripe_at, set_eof, read_stripe, at_end, read_current, open_next, next_batch, scan,
}
use tengdb.Scanner.Columns.{Work}
use tengdb.Table.Access.{Table, next_path}
use mathlib.Core.List.{append_assoc}
use tengdb.Scanner.Batches.Order.{
  stripes_of, length-map_stripes, stripe_at-append, batches, read_stripe_eof,
}

module _ (shown codegen : Bool) (files : Name → FileInputStream) (footer_length : List ℕ → ℕ)
    (footer : List ℕ → List StripeInformation) (parse : ℕ → Memory → List Stream)
    (malloc : ℕ → Option Block) where
  abbrev pub within : Table → List Column → Reader → ℕ → Work → OrcScanner
  within table columns reader n work = record {
    table = table;
    columns = columns;
    reader = some reader;
    cur_stripe = n;
    work = work;
  }

  -- The files that are still to come can be opened, and they have stripes.
  abbrev pub Opens : List Reader → Option Name × Table → Type 0
  Opens [] (path, table) = path ≡ none
  Opens (reader ∷ readers) (path, table) =
      (name : Name) × (path ≡ some name)
      × (create_reader footer_length footer (files name) ≡ ok reader)
      × (0 < length reader.stripes)
      × Opens readers (next_path table)

  -- What a call of nextBatch comes to in the loop.
  unfoldable pub continue : ℕ → OrcScanner → Run (List Batch)
  continue fuel s' = elim s'.work.batch.eof [
    | true ↦ ok []
    | false ↦ scan shown codegen files footer_length footer parse malloc fuel s' >>> λ others.
        ok (s'.work.batch ∷ others)
  ]

  step_lem :
      (fuel : ℕ) (table : Table) (columns : List Column) (reader : Reader) (n : ℕ) (r : Run Work)
      (more : List (Reader × StripeInformation))
      → Gives r (λ work. work.batch.eof ≡ false)
      → ((work : Work)
          → scan shown codegen files footer_length footer parse malloc fuel
              (within table columns reader n work)
            ≡ batches shown codegen files footer_length footer parse malloc table.colmap columns
                more work)
      → ((r >>> λ work. ok (within table columns reader n work)) >>> continue fuel) ≡ (
          r >>> λ work.
          batches shown codegen files footer_length footer parse malloc table.colmap columns more
            work
          >>> λ others. ok (work.batch ∷ others))
  unfolding continue
  step_lem fuel table columns reader n (ok work) more e h =
      ap
        (λ (b : Bool). elim b [
          | true ↦ ok []
          | false ↦
              scan shown codegen files footer_length footer parse malloc fuel
                (within table columns reader n work)
              >>> λ others. ok (work.batch ∷ others)
        ])
        e
      ∙ ap (λ (b : Run (List Batch)). b >>> λ others. ok (work.batch ∷ others)) (h work)
  step_lem fuel table columns reader n (fault f) more e h = refl

  -- One stripe of an open file.
  current_lem :
      (fuel : ℕ) (table : Table) (columns : List Column) (reader : Reader) (old : OrcScanner)
      (before rest : List StripeInformation) (stripe : StripeInformation)
      (more : List (Reader × StripeInformation)) (work : Work)
      → old.table ≡ table
      → old.columns ≡ columns
      → old.work ≡ work
      → reader.stripes ≡ before ++ stripe ∷ rest
      → ((work' : Work)
          → scan shown codegen files footer_length footer parse malloc fuel
              (within table columns reader (length before + 1) work')
            ≡ batches shown codegen files footer_length footer parse malloc table.colmap columns
                more work')
      → (read_current shown codegen files footer_length footer parse malloc reader
            (length before)
            old
          >>> continue fuel)
        ≡ batches shown codegen files footer_length footer parse malloc table.colmap columns
            ((reader, stripe) ∷ more)
            work
  unfolding read_current batches
  current_lem fuel table columns reader old before rest stripe more work e₁ e₂ e₃ stripes h =
      let here : stripe_at reader.stripes (length before) ≡ ok stripe =
        ap (λ (l : List StripeInformation). stripe_at l (length before)) stripes
        ∙ stripe_at-append before rest stripe in
      let start =
        ap
          (λ (r : Run StripeInformation).
            (r >>> λ s.
            read_stripe shown codegen files footer_length footer parse malloc old.table.colmap
              old.columns reader s old.work
            >>> λ w.
                ok (record old { reader = some reader; cur_stripe = length before + 1; work = w }))
            >>> continue fuel)
          here in
      start ∙ moved old e₁ e₂ e₃
    where
      moved :
          (old : OrcScanner)
          → old.table ≡ table
          → old.columns ≡ columns
          → old.work ≡ work
          → ((read_stripe shown codegen files footer_length footer parse malloc old.table.colmap
                  old.columns reader stripe old.work
                >>> λ w.
                    ok (record old {
                      reader = some reader;
                      cur_stripe = length before + 1;
                      work = w;
                    }))
              >>> continue fuel)
            ≡ batches shown codegen files footer_length footer parse malloc table.colmap columns
                ((reader, stripe) ∷ more)
                work
      moved old e₁ e₂ e₃ =
          rw (e₁, e₂, e₃)
            (step_lem fuel table columns reader (length before + 1)
              (read_stripe shown codegen files footer_length footer parse malloc table.colmap
                columns reader stripe work)
              more
              (read_stripe_eof shown codegen files footer_length footer parse malloc table.colmap
                columns reader stripe work)
              h)

  -- With enough calls, a scanner in the middle of a file reads the rest of it and what follows.
  abbrev pub Reads : ℕ → Type 0
  Reads fuel =
      (readers : List Reader) (before rest : List StripeInformation) (reader : Reader)
      (table : Table) (columns : List Column) (work : Work)
      → reader.stripes ≡ before ++ rest
      → Opens readers (next_path table)
      → length rest + length (stripes_of readers) < fuel
      → scan shown codegen files footer_length footer parse malloc fuel
          (within table columns reader (length before) work)
        ≡ batches shown codegen files footer_length footer parse malloc table.colmap columns
            (map (λ stripe. (reader, stripe)) rest ++ stripes_of readers) work

  -- The same between two files.
  pub opened_lem :
      (fuel : ℕ)
      → Reads fuel
      → (readers : List Reader) (s : OrcScanner) → Opens readers (next_path s.table)
      → length (stripes_of readers) < suc fuel
      → (open_next shown codegen files footer_length footer parse malloc (next_path s.table) s
          >>> continue fuel)
        ≡ batches shown codegen files footer_length footer parse malloc s.table.colmap s.columns
            (stripes_of readers)
            s.work
  unfolding batches stripes_of continue open_next set_eof next_path
  opened_lem fuel reads [] s ended enough =
      let table = (next_path s.table).1 in
      ap
        (λ (path : Option Name).
          open_next shown codegen files footer_length footer parse malloc (path, table) s
          >>> continue fuel)
        ended
  opened_lem fuel reads (reader ∷ readers) s (name, next, made, some_stripes, opens) enough =
      let table = (next_path s.table).1 in
      ap
        (λ (path : Option Name).
          open_next shown codegen files footer_length footer parse malloc (path, table) s
          >>> continue fuel)
        next
      ∙ ap
          (λ (r : Run Reader).
            (r >>> λ reader.
            read_current shown codegen files footer_length footer parse malloc reader 0
              (record s { table = table }))
            >>> continue fuel)
          made
      ∙ first reader.stripes refl
    where
      first :
          (stripes : List StripeInformation)
          → reader.stripes ≡ stripes
          → (read_current shown codegen files footer_length footer parse malloc reader 0
                (record s { table = (next_path s.table).1 })
              >>> continue fuel)
            ≡ batches shown codegen files footer_length footer parse malloc s.table.colmap s.columns
                (stripes_of (reader ∷ readers))
                s.work
      first [] e =
          absurd (omega (arith, some_stripes, ap (λ (l : List StripeInformation). length l) e))
      first (stripe ∷ rest) e =
          let table = (next_path s.table).1 in
          let more = map (λ x. (reader, x)) rest ++ stripes_of readers in
          let long = length-map_stripes reader reader.stripes (stripes_of readers) in
          let same = ap (λ (l : List StripeInformation). length l) e in
          current_lem fuel table s.columns reader (record s { table = table }) [] rest stripe more
            s.work refl refl refl e
            (λ work'.
              reads readers (stripe ∷ []) rest reader table s.columns work' e opens
                (omega (arith, enough, long, same)))
          ∙ ap
              (λ (l : List StripeInformation).
                batches shown codegen files footer_length footer parse malloc s.table.colmap
                  s.columns (map (λ x. (reader, x)) l ++ stripes_of readers) s.work)
              (sym e)

  at_end_lem :
      (table : Table) (columns : List Column) (reader : Reader)
      (before rest : List StripeInformation) (work : Work)
      → reader.stripes ≡ before ++ rest
      → at_end shown codegen files footer_length footer parse malloc
          (within table columns reader (length before) work)
        ≡ (length rest == 0)
  unfolding at_end
  at_end_lem table columns reader before rest work e =
      ap (λ (l : List StripeInformation). length before == length l) e
      ∙ ap (λ (n : ℕ). length before == n) (length-append before rest)
      ∙ same (length before) (length rest)
    where
      same : (a b : ℕ) → (a == a + b) ≡ (b == 0)
      same a b = ground arith

  -- A call at the end of a file, or without one.
  pub boundary_lem :
      (fuel : ℕ) (s : OrcScanner)
      → at_end shown codegen files footer_length footer parse malloc s ≡ true
      → scan shown codegen files footer_length footer parse malloc (suc fuel) s ≡ (
          open_next shown codegen files footer_length footer parse malloc (next_path s.table) s
          >>> continue fuel)
  unfolding scan next_batch continue
  boundary_lem fuel s e = rw (e, next_batch)

  inside_lem :
      (fuel : ℕ) (table : Table) (columns : List Column) (reader : Reader) (n : ℕ) (work : Work)
      → at_end shown codegen files footer_length footer parse malloc
          (within table columns reader n work)
        ≡ false
      → scan shown codegen files footer_length footer parse malloc
          (suc fuel)
          (within table columns reader n work)
        ≡ (read_current shown codegen files footer_length footer parse malloc reader n
              (within table columns reader n work)
            >>> continue fuel)
  unfolding scan next_batch continue
  inside_lem fuel table columns reader n work e = rw (e, next_batch)

  pub reads : (fuel : ℕ) → Reads fuel
  reads zero readers before rest reader table columns work e opens enough = absurd (omega arith)
  reads (suc fuel) readers before [] reader table columns work e opens enough =
      boundary_lem fuel (within table columns reader (length before) work)
        (at_end_lem table columns reader before [] work e)
      ∙ opened_lem fuel (reads fuel) readers (within table columns reader (length before) work)
          opens (omega arith)
  reads (suc fuel) readers before (stripe ∷ rest) reader table columns work e opens enough =
      let further = reads fuel readers (before ++ stripe ∷ []) rest reader table columns in
      let e' = e ∙ sym (append_assoc before (stripe ∷ []) rest) in
      let long : length (before ++ stripe ∷ []) ≡ length before + 1 =
        length-append before (stripe ∷ []) in
      inside_lem fuel table columns reader (length before) work
        (at_end_lem table columns reader before (stripe ∷ rest) work e ∙ ground arith)
      ∙ current_lem fuel table columns reader (within table columns reader (length before) work)
          before rest stripe (map (λ x. (reader, x)) rest ++ stripes_of readers) work refl refl refl
          e
          (λ work'.
            ap
              (λ (n : ℕ).
                scan shown codegen files footer_length footer parse malloc fuel
                  (within table columns reader n work'))
              (sym long)
            ∙ further work' e' opens (omega arith))
