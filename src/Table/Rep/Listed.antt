-- ===== src/Table/Rep/Listed.antt =====
-- include/Table.h, class Rep: which files nextFile returns, without the code's test.
use tengdb.Common.{
  ℕ, ◌<◌, ◌≡◌, ◌≢◌, refl, ap, ◌∙◌, sym, arith, Bool, true, false, not, ◌&&◌, ◌||◌, Bool-cases, inl,
  inr,
}
use tengdb.Common.{List, [], ◌∷◌, length}
use tengdb.Common.Name.{Name, same_name, same_name_self, same_name_lem}
use mathlib.Core.Path.{subst}
use tengdb.Table.Rep.{Dirent, Rep, is_wanted, is_hidden}
use tengdb.Table.Rep.Files.{files, filter, files-filter}

-- What a name is without a dot in front.
abbrev pub IsShown : Name → Type 0
IsShown [] = Unit
IsShown (c ∷ name) = c ≢ 46

-- A regular file without a dot in front of its name, and the one named where the path names a file.
abbrev pub IsListed : Bool → Name → Dirent → Type 0
IsListed isfile filename file =
    (file.regular ≡ true) × IsShown file.name × (isfile ≡ true → file.name ≡ filename)

-- `ys` are the elements of `xs` with the property, in order.
pub data Selected (P : Dirent → Type 0) : List Dirent → List Dirent → Type 0 where
  none_left : Selected P [] []
  taken : (x : Dirent) (xs ys : List Dirent) → P x → Selected P xs ys → Selected P (x ∷ xs) (x ∷ ys)
  left_out : (x : Dirent) (xs ys : List Dirent) → ¬ P x → Selected P xs ys → Selected P (x ∷ xs) ys

shown_lem : (name : Name) → is_hidden name ≡ false → IsShown name
unfolding is_hidden
shown_lem [] e = tt
shown_lem (c ∷ name) e = λ same. ground arith

hidden_lem : (name : Name) → is_hidden name ≡ true → ¬ IsShown name
unfolding is_hidden
hidden_lem [] e = absurd (cc)
hidden_lem (c ∷ name) e = λ shown. shown (ground arith)

-- The code's test says whether the file is listed.
wanted-IsListed :
    (isfile : Bool) (filename : Name) (file : Dirent)
    → is_wanted isfile filename file ≡ true
    → IsListed isfile filename file
unfolding is_wanted
wanted-IsListed isfile filename file e =
    go file.regular (is_hidden file.name) isfile (same_name file.name filename) refl refl e
  where
    go :
        (r h f n : Bool)
        → is_hidden file.name ≡ h
        → same_name file.name filename ≡ n
        → ((r && not h) && (not f || n)) ≡ true
        → (r ≡ true) × IsShown file.name × (f ≡ true → file.name ≡ filename)
    go true false false n eh en e = (refl, shown_lem file.name eh, λ no. absurd (cc))
    go true false true true eh en e =
        (refl, shown_lem file.name eh, λ _. same_name_lem file.name filename en)
    go true false true false eh en e = absurd (cc)
    go true true f n eh en e = absurd (cc)
    go false h f n eh en e = absurd (cc)

unwanted-IsListed :
    (isfile : Bool) (filename : Name) (file : Dirent)
    → is_wanted isfile filename file ≡ false
    → ¬ IsListed isfile filename file
unfolding is_wanted
unwanted-IsListed isfile filename file e =
    go file.regular (is_hidden file.name) isfile (same_name file.name filename) refl refl e
  where
    go :
        (r h f n : Bool)
        → is_hidden file.name ≡ h
        → same_name file.name filename ≡ n
        → ((r && not h) && (not f || n)) ≡ false
        → ¬ ((r ≡ true) × IsShown file.name × (f ≡ true → file.name ≡ filename))
    go false h f n eh en e = λ (regular, _, _). absurd (cc)
    go true true f n eh en e = λ (_, shown, _). hidden_lem file.name eh shown
    go true false false n eh en e = absurd (cc)
    go true false true true eh en e = absurd (cc)
    go true false true false eh en e = λ (_, _, named).
        let same : file.name ≡ filename = named refl in
        let yes : same_name file.name filename ≡ true =
          ap (same_name file.name) (sym same) ∙ same_name_self file.name in
        absurd (cc)

filter-Selected :
    (isfile : Bool) (filename : Name) (dir : List Dirent)
    → Selected (IsListed isfile filename) dir (filter (is_wanted isfile filename) dir)
unfolding filter
filter-Selected isfile filename [] = none_left
filter-Selected isfile filename (file ∷ dir) =
    let rest = filter-Selected isfile filename dir in
    elim (Bool-cases (is_wanted isfile filename file)) [
      | inl e ↦ rw (e, filter) (taken file dir _ (wanted-IsListed isfile filename file e) rest)
      | inr e ↦ rw (e, filter) (left_out file dir _ (unwanted-IsListed isfile filename file e) rest)
    ]

-- Calls of nextFile, more of them than the directory has entries left, return exactly the regular
-- files whose names have no dot in front, and of these the one of the path where the path names a
-- file, each once and in the directory's order, and then NULL.
pub files-Selected :
    (rep : Rep) (calls : ℕ)
    → length rep.dir < calls
    → Selected (IsListed rep.isfile rep.filename) rep.dir (files calls rep)
files-Selected rep calls h =
    subst (Selected (IsListed rep.isfile rep.filename) rep.dir) (sym (files-filter rep calls h))
      (filter-Selected rep.isfile rep.filename rep.dir)
