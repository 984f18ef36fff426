-- ===== src/Table/Columns.antt =====
-- include/Table.h, class Table: the map from column names to numbers and types.
use tengdb.Common.{ℕ, ◌+◌, ◌≡◌, refl, ap, ◌∙◌, arith}
use tengdb.Common.{false, List, [], ◌∷◌, ◌++◌, length}
use tengdb.Common.{Option, none, some, if◌then◌else◌}
use tengdb.Common.Name.{Name, same_name, same_name_self}
use tengdb.ColumnInfo.Column.{Column}
use tengdb.Util.{TypeKind}

-- `colmap`; `none` is a name that is not in it.
abbrev pub ColMap : Type 0
ColMap = Name → Option (ℕ × TypeKind)

unfoldable pub insert : ColMap → Name → ℕ × TypeKind → ColMap
insert colmap name entry other = if same_name name other then some entry else colmap other

-- `for(i) colmap[columns[i].name] = make_pair(i+1, columns[i].type);` from `i` on.
unfoldable pub fill_map : ℕ → List Column → ColMap → ColMap
fill_map i [] colmap = colmap
fill_map i (column ∷ columns) colmap =
    fill_map (i + 1) columns (insert colmap column.name (i + 1, column.type))

unfoldable pub new_colmap : List Column → ColMap
new_colmap columns = fill_map 0 columns (λ _. none)

-- `none` is `exit(0)`.
unfoldable pub get_column_number : ColMap → Name → Option ℕ
get_column_number colmap name = elim (colmap name) [ none ↦ none | some (n, kind) ↦ some n ]

unfoldable pub get_type_kind : ColMap → Name → Option TypeKind
get_type_kind colmap name = elim (colmap name) [ none ↦ none | some (n, kind) ↦ some kind ]

-- The columns that come later have other names.
abbrev pub Others : Name → List Column → Type 0
Others name [] = Unit
Others name (column ∷ columns) = (same_name column.name name ≡ false) × Others name columns

insert_self :
    (colmap : ColMap) (name : Name) (entry : ℕ × TypeKind)
    → insert colmap name entry name ≡ some entry
unfolding insert
insert_self colmap name entry = rw (same_name_self name)

insert_other :
    (colmap : ColMap) (name other : Name) (entry : ℕ × TypeKind)
    → same_name name other ≡ false
    → insert colmap name entry other ≡ colmap other
unfolding insert
insert_other colmap name other entry h = rw h

fill-Others :
    (i : ℕ) (columns : List Column) (colmap : ColMap) (name : Name)
    → Others name columns
    → fill_map i columns colmap name ≡ colmap name
unfolding fill_map
fill-Others i [] colmap name h = refl
fill-Others i (column ∷ columns) colmap name (here, h) =
    fill-Others (i + 1) columns (insert colmap column.name (i + 1, column.type)) name h
    ∙ insert_other colmap column.name name (i + 1, column.type) here

fill_lem :
    (i : ℕ) (before after : List Column) (column : Column) (colmap : ColMap)
    → Others column.name after
    → fill_map i (before ++ column ∷ after) colmap column.name
      ≡ some (i + length before + 1, column.type)
unfolding fill_map
fill_lem i [] after column colmap h =
    fill-Others (i + 1) after (insert colmap column.name (i + 1, column.type)) column.name h
    ∙ insert_self colmap column.name (i + 1, column.type)
    ∙ ap (λ (n : ℕ). some (n, column.type)) (omega arith)
fill_lem i (first ∷ before) after column colmap h =
    fill_lem (i + 1) before after column (insert colmap first.name (i + 1, first.type)) h
    ∙ ap (λ (n : ℕ). some (n, column.type)) (omega arith)

-- The last column of a name has the number of its place, counted from 1, and its type, whatever
-- columns are before it; a name that no column has ends the program.
pub new_colmap_lem :
    (before after : List Column) (column : Column) (name : Name)
    → Others column.name after
    → Others name (before ++ column ∷ after)
    → let colmap = new_colmap (before ++ column ∷ after) in
      (get_column_number colmap column.name ≡ some (length before + 1))
      × (get_type_kind colmap column.name ≡ some column.type)
      × (get_column_number colmap name ≡ none)
      × (get_type_kind colmap name ≡ none)
unfolding new_colmap get_column_number get_type_kind
new_colmap_lem before after column name last absent =
    let found = fill_lem 0 before after column (λ _. none) last in
    let lost = fill-Others 0 (before ++ column ∷ after) (λ _. none) name absent in
    (
      rw (found, get_column_number) (ap (λ (n : ℕ). some n) (omega arith)),
      rw (found, get_type_kind),
      rw (lost, get_column_number),
      rw (lost, get_type_kind),
    )
