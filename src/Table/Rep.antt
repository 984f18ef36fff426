-- ===== src/Table/Rep.antt =====
-- include/Table.h, class Rep: the directory of a table, or one file of it.
pub mod Files
pub mod Listed
use tengdb.Common.{
  ℕ, zero, suc, ◌+◌, ◌==◌, Bool, true, false, not, ◌&&◌, ◌||◌, List, [], ◌∷◌, ◌++◌, length,
}
use tengdb.Common.{Option, none, some, if◌then◌else◌}
use tengdb.Common.Name.{Name, same_name}

-- `__`
abbrev pub separator : Name
separator = 95 ∷ 95 ∷ []

unfoldable pub starts_with : Name → Name → Bool
starts_with [] str = true
starts_with (x ∷ xs) [] = false
starts_with (x ∷ xs) (y ∷ ys) = elim (x == y) [ true ↦ starts_with xs ys | false ↦ false ]

-- std::string::find; `none` is npos.
unfoldable pub find : Name → Name → Option ℕ
find [] from = if starts_with from [] then some 0 else none
find (c ∷ str) from = elim (starts_with from (c ∷ str)) [
  | true ↦ some 0
  | false ↦ elim (find str from) [ none ↦ none | some i ↦ some (suc i) ]
]

unfoldable pub take : ℕ → Name → Name
take zero str = []
take (suc n) [] = []
take (suc n) (c ∷ str) = c ∷ take n str

unfoldable pub drop : ℕ → Name → Name
drop zero str = str
drop (suc n) [] = []
drop (suc n) (c ∷ str) = drop n str

-- The first occurrence of `from` is replaced.
unfoldable pub replace : Name → Name → Name → Name
replace str from to = elim (find str from) [
  | none ↦ str
  | some start ↦ take start str ++ (to ++ drop (start + length from) str)
]

-- An entry of the directory: whether it is a regular file, and its name.
pub record Dirent : Type 0 where
  pub regular : Bool
  pub name : Name

-- `dir` is the entries that readdir has not returned yet.
pub record Rep : Type 0 where
  pub isfile : Bool
  pub path : Name
  pub filename : Name
  pub dir : List Dirent

-- `opendir` stands for the entries of a directory that can be opened; `none` ends the program.
unfoldable pub opened : (Name → Option (List Dirent)) → Bool → Name → Name → Option Rep
opened opendir isfile path filename = elim (opendir path) [
  | none ↦ none
  | some entries ↦
      some (record { isfile = isfile; path = path; filename = filename; dir = entries })
]

unfoldable pub new_rep : (Name → Option (List Dirent)) → Name → Option Rep
new_rep opendir path = elim (find path separator) [
  | none ↦ opened opendir false path []
  | some pos ↦ opened opendir true (take pos path) (drop (pos + length separator) path)
]

unfoldable pub reset : (Name → Option (List Dirent)) → Rep → Option Rep
reset opendir rep = opened opendir rep.isfile rep.path rep.filename

-- `file->d_name[0] != '.'`
unfoldable pub is_hidden : Name → Bool
is_hidden [] = false
is_hidden (c ∷ name) = c == 46

unfoldable pub is_wanted : Bool → Name → Dirent → Bool
is_wanted isfile filename file =
    (file.regular && not (is_hidden file.name)) && (not isfile || same_name file.name filename)

-- The next entry that is wanted and those behind it.
unfoldable pub scan : (Dirent → Bool) → List Dirent → Option Dirent × List Dirent
scan wanted [] = (none, [])
scan wanted (file ∷ dir) = elim (wanted file) [ true ↦ (some file, dir) | false ↦ scan wanted dir ]

unfoldable pub next_file : Rep → Option Dirent × Rep
next_file rep =
    let (file, dir) = scan (is_wanted rep.isfile rep.filename) rep.dir in
    (file, record rep { dir = dir })
