-- ===== src/Scanner/Batches/Stripes.antt =====
-- src/exec/ORCScanner.cpp: the batches of a scan are the stripes of the table's files.
use tengdb.Common.{ℕ, zero, suc, ◌==◌, ◌<◌, ◌≡◌, refl, sym, ap, ◌∙◌, arith, Bool, true}
use tengdb.Common.{List, [], ◌∷◌, ◌++◌, length, map, All, Option, none, some}
use tengdb.Common.{Bool-cases, inl, inr}
use tengdb.Common.Memory.{Memory}
use tengdb.Common.Name.{Name}
use tengdb.Common.Run.{Run, ok, Gives, Gives-then, Gives-then_from}
use tengdb.ColumnInfo.Column.{Column}
use tengdb.Scanner.Batch.{Batch}
use tengdb.Scanner.Columns.{Work}
use tengdb.Table.Columns.{ColMap}
use tengdb.MemoryPool.{Block}
use tengdb.Reader.{Stream, StripeInformation}
use tengdb.Reader.Open.{FileInputStream, Reader, create_reader}
use tengdb.Scanner.Batches.{OrcScanner, read_stripe, at_end, scan}
use tengdb.Table.Access.{Table, next_path}
use tengdb.Table.Rep
use tengdb.Table.Rep.{Dirent, is_wanted, next_file}
use tengdb.Table.Rep.Files.{filter, scan-true, scan-false}
use mathlib.Core.Path.{subst}
use tengdb.Scanner.Batches.Order.{stripes_of, batches}
use tengdb.Scanner.Batches.Files.{Opens, boundary_lem, opened_lem, reads}

module _ (shown codegen : Bool) (files : Name → FileInputStream) (footer_length : List ℕ → ℕ)
    (footer : List ℕ → List StripeInformation) (parse : ℕ → Memory → List Stream)
    (malloc : ℕ → Option Block) where
  -- `reader_of` is what createReader makes of a file of the directory, and the file has stripes.
  abbrev pub IsReadable : Name → (Dirent → Reader) → Dirent → Type 0
  IsReadable path reader_of file =
      (create_reader footer_length footer (files (path ++ 47 ∷ file.name)) ≡ ok (reader_of file))
      × (0 < length (reader_of file).stripes)

  abbrev found : Table → Rep.Rep → Option Dirent × List Dirent → Option Name × Table
  found table rep (file, dir) = (
    elim file [ none ↦ none | some f ↦ some (rep.path ++ 47 ∷ f.name) ],
    record table { rep = record rep { dir = dir } },
  )

  abbrev over : Table → Rep.Rep → List Dirent → Table
  over table rep dir = record table { rep = record rep { dir = dir } }

  next_path-found :
      (table : Table) (rep : Rep.Rep) (dir : List Dirent)
      → next_path (over table rep dir)
        ≡ found table rep (Rep.scan (is_wanted rep.isfile rep.filename) dir)
  unfolding next_path next_file
  next_path-found table rep dir = refl

  opens_lem :
      (reader_of : Dirent → Reader) (table : Table) (rep : Rep.Rep) (dir : List Dirent)
      → let wanted = is_wanted rep.isfile rep.filename in
        All (IsReadable rep.path reader_of) (filter wanted dir)
        → Opens shown codegen files footer_length footer parse malloc
            (map reader_of (filter wanted dir))
            (found table rep (Rep.scan wanted dir))
  opens_lem reader_of table rep [] h = unfold Rep.scan filter in refl
  opens_lem reader_of table rep (file ∷ dir) h =
      let wanted = is_wanted rep.isfile rep.filename in
      elim (Bool-cases (wanted file)) [
        | inl e ↦
            let (step, kept) = scan-true wanted file dir e in
            let ((made, some_stripes), rest) = subst (All (IsReadable rep.path reader_of)) kept h in
            let later =
              subst
                (Opens shown codegen files footer_length footer parse malloc
                  (map reader_of (filter wanted dir)))
                (sym (next_path-found table rep dir)) (opens_lem reader_of table rep dir rest) in
            subst
              (λ (fs : List Dirent).
                Opens shown codegen files footer_length footer parse malloc (map reader_of fs)
                  (found table rep (Rep.scan wanted (file ∷ dir))))
              (sym kept)
              (subst
                (λ (p : Option Dirent × List Dirent).
                  Opens shown codegen files footer_length footer parse malloc
                    (reader_of file ∷ map reader_of (filter wanted dir)) (found table rep p))
                (sym step) (rep.path ++ 47 ∷ file.name, refl, made, some_stripes, later))
        | inr e ↦
            let (step, kept) = scan-false wanted file dir e in
            let rest = subst (All (IsReadable rep.path reader_of)) kept h in
            subst
              (λ (fs : List Dirent).
                Opens shown codegen files footer_length footer parse malloc (map reader_of fs)
                  (found table rep (Rep.scan wanted (file ∷ dir))))
              (sym kept)
              (subst
                (λ (p : Option Dirent × List Dirent).
                  Opens shown codegen files footer_length footer parse malloc
                    (map reader_of (filter wanted dir)) (found table rep p))
                (sym step) (opens_lem reader_of table rep dir rest))
      ]

  batches_length :
      (colmap : ColMap) (columns : List Column) (stripes : List (Reader × StripeInformation))
      (work : Work)
      → Gives
          (batches shown codegen files footer_length footer parse malloc colmap columns stripes
            work)
          (λ bs. length bs ≡ length stripes)
  unfolding batches
  batches_length colmap columns [] work = refl
  batches_length colmap columns ((reader, stripe) ∷ more) work =
      Gives-then
        (read_stripe shown codegen files footer_length footer parse malloc colmap columns reader
          stripe work)
        _ _
        λ work'.
          Gives-then_from
            (batches shown codegen files footer_length footer parse malloc colmap columns more
              work')
            _ (λ bs. length bs ≡ length more) _ (batches_length colmap columns more work')
            λ bs e. ap suc e

  pub scan-eq-batches :
      (reader_of : Dirent → Reader) (s : OrcScanner) (fuel : ℕ)
      → s.reader ≡ none
      → let rep = s.table.rep in
        let dir = filter (is_wanted rep.isfile rep.filename) rep.dir in
        All (IsReadable rep.path reader_of) dir
        → length (stripes_of (map reader_of dir)) < fuel
        → scan shown codegen files footer_length footer parse malloc fuel s
          ≡ batches shown codegen files footer_length footer parse malloc s.table.colmap s.columns
              (stripes_of (map reader_of dir))
              s.work
  scan-eq-batches reader_of s zero e h enough = absurd (omega arith)
  scan-eq-batches reader_of s (suc fuel) e h enough =
      let rep = s.table.rep in
      let dir = filter (is_wanted rep.isfile rep.filename) rep.dir in
      boundary_lem shown codegen files footer_length footer parse malloc fuel s (
        unfold at_end in
        ap
          (λ (r : Option Reader). elim r [
            | none ↦ true
            | some reader ↦ s.cur_stripe == length reader.stripes
          ])
          e)
      ∙ opened_lem shown codegen files footer_length footer parse malloc fuel
          (reads shown codegen files footer_length footer parse malloc fuel) (map reader_of dir) s
          (subst (Opens shown codegen files footer_length footer parse malloc (map reader_of dir))
            (sym (next_path-found s.table rep rep.dir)) (opens_lem reader_of s.table rep rep.dir h))
          enough

  -- A scanner that has no file open comes to the stripes of the files that the table's directory
  -- still lists and that are wanted, the files in the directory's order and the stripes in the
  -- file's, and reads one after the other: it faults where the reading of a stripe faults, and
  -- otherwise gives a batch for each stripe and then says that it is the end. So many calls of
  -- nextBatch as there are stripes and one more are enough. A file that is wanted can be opened and
  -- has a stripe at least.
  pub scan-stripes :
      (reader_of : Dirent → Reader) (s : OrcScanner) (fuel : ℕ)
      → s.reader ≡ none
      → let rep = s.table.rep in
        let dir = filter (is_wanted rep.isfile rep.filename) rep.dir in
        let stripes = stripes_of (map reader_of dir) in
        All (IsReadable rep.path reader_of) dir
        → length stripes < fuel
        → (scan shown codegen files footer_length footer parse malloc fuel s
            ≡ batches shown codegen files footer_length footer parse malloc s.table.colmap s.columns
                stripes s.work)
          × Gives
              (scan shown codegen files footer_length footer parse malloc fuel s)
              (λ bs. length bs ≡ length stripes)
  scan-stripes reader_of s fuel e h enough =
      let rep = s.table.rep in
      let stripes =
        stripes_of (map reader_of (filter (is_wanted rep.isfile rep.filename) rep.dir)) in
      let same = scan-eq-batches reader_of s fuel e h enough in
      (
        same,
        subst (λ (r : Run (List Batch)). Gives r (λ bs. length bs ≡ length stripes)) (sym same)
            (batches_length s.table.colmap s.columns stripes s.work),
      )
