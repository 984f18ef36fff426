-- ===== src/Table/Rep/Files.antt =====
-- include/Table.h, class Rep: which files it comes to, and how it takes a path apart.
use tengdb.Common.{ℕ, zero, suc, ◌+◌, ◌<◌, ◌≡◌, refl, ap, ◌∙◌, sym, arith}
use tengdb.Common.{Bool, true, false, Bool-cases, inl, inr, List, [], ◌∷◌, ◌++◌, length}
use tengdb.Common.{Option, none, some}
use tengdb.Common.Name.{Name}
use tengdb.Table.Rep.{
  Dirent, Rep, separator, starts_with, find, take, drop, opened, new_rep, is_wanted, scan,
  next_file,
}

-- The files that calls of nextFile return until one returns NULL, with a number of calls at most.
unfoldable pub files : ℕ → Rep → List Dirent
files zero rep = []
files (suc calls) rep =
    let (file, rep') = next_file rep in
    let rest = files calls rep' in elim file [ none ↦ [] | some f ↦ f ∷ rest ]

unfoldable pub filter : (Dirent → Bool) → List Dirent → List Dirent
filter wanted [] = []
filter wanted (file ∷ dir) =
    let rest = filter wanted dir in elim (wanted file) [ true ↦ file ∷ rest | false ↦ rest ]

at : Bool → Name → Name → List Dirent → Rep
at isfile path filename dir = record {
  isfile = isfile;
  path = path;
  filename = filename;
  dir = dir;
}

pub scan-true :
    (wanted : Dirent → Bool) (file : Dirent) (dir : List Dirent)
    → wanted file ≡ true
    → (scan wanted (file ∷ dir) ≡ (some file, dir))
      × (filter wanted (file ∷ dir) ≡ file ∷ filter wanted dir)
unfolding scan filter
scan-true wanted file dir e = (rw (e, scan), rw (e, filter))

pub scan-false :
    (wanted : Dirent → Bool) (file : Dirent) (dir : List Dirent)
    → wanted file ≡ false
    → (scan wanted (file ∷ dir) ≡ scan wanted dir)
      × (filter wanted (file ∷ dir) ≡ filter wanted dir)
unfolding scan filter
scan-false wanted file dir e = (rw (e, scan), rw (e, filter))

-- A call as a function of what the scan of the directory comes to.
after_scan : ℕ → Bool → Name → Name → Option Dirent × List Dirent → List Dirent
after_scan calls isfile path filename (file, dir) = elim file [
  | none ↦ []
  | some f ↦ f ∷ files calls (at isfile path filename dir)
]

files-scan :
    (calls : ℕ) (isfile : Bool) (path filename : Name) (dir : List Dirent)
    → files (suc calls) (at isfile path filename dir)
      ≡ after_scan calls isfile path filename (scan (is_wanted isfile filename) dir)
unfolding files next_file at after_scan
files-scan calls isfile path filename dir = refl

after_found :
    (calls : ℕ) (isfile : Bool) (path filename : Name) (file : Dirent) (dir : List Dirent)
    → after_scan calls isfile path filename (some file, dir)
      ≡ file ∷ files calls (at isfile path filename dir)
unfolding after_scan
after_found calls isfile path filename file dir = refl

files_lem :
    (isfile : Bool) (path filename : Name) (dir : List Dirent) (calls : ℕ)
    → length dir < calls
    → files calls (at isfile path filename dir) ≡ filter (is_wanted isfile filename) dir
files_lem isfile path filename dir zero h = absurd (omega arith)
files_lem isfile path filename [] (suc calls) h =
    files-scan calls isfile path filename [] ∙ unfold scan filter after_scan in refl
files_lem isfile path filename (file ∷ dir) (suc calls) h =
    elim (Bool-cases (is_wanted isfile filename file)) [
      | inl e ↦
          let (step, kept) = scan-true (is_wanted isfile filename) file dir e in
          files-scan calls isfile path filename (file ∷ dir)
          ∙ ap (after_scan calls isfile path filename) step
          ∙ after_found calls isfile path filename file dir
          ∙ ap (λ (l : List Dirent). file ∷ l)
              (files_lem isfile path filename dir calls (omega arith))
          ∙ sym kept
      | inr e ↦
          let (step, kept) = scan-false (is_wanted isfile filename) file dir e in
          files-scan calls isfile path filename (file ∷ dir)
          ∙ ap (after_scan calls isfile path filename) step
          ∙ sym (files-scan calls isfile path filename dir)
          ∙ files_lem isfile path filename dir (suc calls) (omega arith)
          ∙ sym kept
    ]

pub files-filter :
    (rep : Rep) (calls : ℕ)
    → length rep.dir < calls
    → files calls rep ≡ filter (is_wanted rep.isfile rep.filename) rep.dir
files-filter rep calls h = unfold at in files_lem rep.isfile rep.path rep.filename rep.dir calls h

-- No `__` begins inside the name before it ends, also not with its last character.
abbrev pub IsPlain : Name → Type 0
IsPlain [] = Unit
IsPlain (c ∷ name) = (starts_with separator (c ∷ name ++ separator) ≡ false) × IsPlain name

starts_early :
    (c : ℕ) (name file : Name)
    → starts_with separator (c ∷ name ++ (separator ++ file))
      ≡ starts_with separator (c ∷ name ++ separator)
unfolding starts_with
starts_early c [] file = refl
starts_early c (d ∷ name) file = refl

pub find_lem :
    (path file : Name)
    → IsPlain path
    → find (path ++ (separator ++ file)) separator ≡ some (length path)
unfolding find
find_lem [] file h = unfold starts_with in refl
find_lem (c ∷ path) file (here, h) =
    rw (starts_early c path file ∙ here, find, find_lem path file h)

pub take-append : (path rest : Name) → take (length path) (path ++ rest) ≡ path
unfolding take
take-append [] rest = refl
take-append (c ∷ path) rest = ap (λ (l : Name). c ∷ l) (take-append path rest)

drop-append : (path rest : Name) (n : ℕ) → drop (length path + n) (path ++ rest) ≡ drop n rest
unfolding drop
drop-append [] rest n = ap (λ (m : ℕ). drop m rest) (omega arith)
drop-append (c ∷ path) rest n =
    ap (λ (m : ℕ). drop m (c ∷ path ++ rest)) (sum_suc (length path) n) ∙ drop-append path rest n
  where
    sum_suc : (a b : ℕ) → suc a + b ≡ suc (a + b)
    sum_suc a b = omega arith

drop-separator : (file : Name) → drop (length separator) (separator ++ file) ≡ file
unfolding drop
drop-separator file = refl

-- The path of a file of a table, the directory and the file's name with `__` between them, where
-- no `__` begins earlier and the directory can be opened: the Rep is over that directory and that
-- file.
pub new_rep-separator :
    (opendir : Name → Option (List Dirent)) (path file : Name) (entries : List Dirent)
    → IsPlain path
    → opendir path ≡ some entries
    → new_rep opendir (path ++ (separator ++ file))
      ≡ some (record { isfile = true; path = path; filename = file; dir = entries })
unfolding new_rep opened
new_rep-separator opendir path file entries plain e = rw (
  find_lem path file plain,
  new_rep,
  take-append path (separator ++ file),
  e,
  opened,
  take-append path (separator ++ file),
  drop-append path (separator ++ file) (length separator),
  drop-separator file,
)
