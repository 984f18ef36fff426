-- ===== src/Sql/Select/Fields.antt =====
-- src/frontend/sql/SelectStatement.h: selectedFields gives the columns that the statement names.
use tengdb.Common.{ℕ, Bool, true, false, List, [], ◌∷◌, map, All}
use tengdb.Common.{Option, some, ◌||◌, ◌≡◌, refl, ap, sym, ◌∙◌}
use mathlib.Core.Path.{subst}
use tengdb.Common.Name.{Name, Dict, same_name, same_name_self}
use tengdb.Common.Run.{ok, ◌>>>◌}
use tengdb.ColumnInfo.Column.{Column}
use tengdb.MemoryPool.{Block}
use tengdb.Scanner.Columns.{NextFunc}
use tengdb.Sql.Expr.{Expr, ColumnSet}
use tengdb.Sql.Expr.Names.{is_in, IsIncreasing, IsAddable, names_any, add_columns-names_any}
use tengdb.Sql.Select.{
  SelectStatement, add_group, add_list, typed_columns, table_of, selected_fields,
}
use tengdb.Table.Access.{Table}
use tengdb.Table.Columns.{ColMap, get_type_kind}
use tengdb.Table.Rep.{Dirent}
use tengdb.Util.{TypeKind}

-- The type that the table has for the name.
abbrev pub HasType : ColMap → Name → Type 0
HasType colmap name = (kind : TypeKind) × (get_type_kind colmap name ≡ some kind)

All-is_in :
    (colmap : ColMap) (set : ColumnSet)
    → ((name : Name) → is_in name set ≡ true → HasType colmap name)
    → All (HasType colmap) set
unfolding is_in
All-is_in colmap [] h = tt
All-is_in colmap (key ∷ set) h = (
  h key (ap (λ (b : Bool). b || is_in key set) (same_name_self key)),
  All-is_in colmap set (λ name e. h name (behind (same_name name key) (is_in name set) e)),
)
  where
    behind : (a b : Bool) → b ≡ true → (a || b) ≡ true
    behind true b e = refl
    behind false b e = e

-- Each column has its type from the table.
typed_lem :
    (colmap : ColMap) (set : ColumnSet)
    → All (HasType colmap) set
    → (columns : List Column) × (typed_columns colmap set ≡ ok columns)
      × (map (λ col. col.name) columns ≡ set)
      × All (λ col. get_type_kind colmap col.name ≡ some col.type) columns
unfolding typed_columns
typed_lem colmap [] h = ([], refl, refl, tt)
typed_lem colmap (name ∷ set) ((kind, e), h) =
    let (columns, made, same, types) = typed_lem colmap set h in
    (
      record { name = name; type = kind } ∷ columns,
      rw (e, typed_columns, made),
      ap (λ (l : ColumnSet). name ∷ l) same,
      (e, types),
    )

module _ (opendir : Name → Option (List Dirent)) (dbpath : Name) (malloc : ℕ → Option Block)
    (functions : Dict NextFunc) where
  -- For a statement with a list of expressions and a group-by clause, with no NULL in either list and
  -- whose column references have names, over a table that can be opened and has the columns that the two name: the fields are
  -- exactly these columns, each once and in the order of their names, with their types in the table.
  pub selected_fields-names_any :
      (stmt : SelectStatement) (groups exprs : List Expr) (table : Table)
      → stmt.group_by ≡ some (some groups)
      → stmt.select_list ≡ some exprs
      → All IsAddable groups
      → All IsAddable exprs
      → table_of opendir dbpath malloc functions stmt ≡ ok table
      → ((name : Name)
          → (names_any name groups || names_any name exprs) ≡ true
          → HasType table.colmap name)
      → (columns : List Column) × (selected_fields opendir dbpath malloc functions stmt
          ≡ ok columns)
        × IsIncreasing (map (λ col. col.name) columns)
        × ((name : Name)
            → is_in name (map (λ col. col.name) columns)
              ≡ (names_any name groups || names_any name exprs))
        × All (λ col. get_type_kind table.colmap col.name ≡ some col.type) columns
  unfolding selected_fields add_group add_list is_in
  selected_fields-names_any stmt groups exprs table grouped listed named named' opened typed =
      let (set₁, e₁, h₁, in₁) = add_columns-names_any groups [] named tt in
      let (set₂, e₂, h₂, in₂) = add_columns-names_any exprs set₁ named' h₁ in
      let exact : (name : Name)
          → is_in name set₂ ≡ (names_any name groups || names_any name exprs) =
        λ name.
          in₂ name
          ∙ ap (λ (b : Bool). names_any name exprs || b) (in₁ name)
          ∙ turn (names_any name groups) (names_any name exprs) in
      let (columns, made, same, types) =
        typed_lem table.colmap set₂
          (All-is_in table.colmap set₂ (λ name e. typed name (sym (exact name) ∙ e))) in
      (
        columns,
        rw (opened, grouped, add_group, listed, add_list, e₁, ◌>>>◌, e₂) made,
        subst IsIncreasing (sym same) h₂,
        λ name. ap (is_in name) same ∙ exact name,
        types,
      )
    where
      turn : (a b : Bool) → (b || (a || false)) ≡ (a || b)
      turn true true = refl
      turn true false = refl
      turn false true = refl
      turn false false = refl
