-- ===== src/Sql/Select/Missing.antt =====
-- include/Table.h, getTypeKind, as selectedFields calls it: a column that the table does not have.
use tengdb.Common.{
  ℕ, Bool, true, false, List, [], ◌∷◌, Option, none, some, ◌||◌, ◌≡◌, refl, ap, sym, ◌∙◌, All,
  Bool-cases, Option-cases, inl, inr,
}
use tengdb.Common.Name.{Name, Dict, same_name, same_name_lem}
use tengdb.Common.Run.{ok, fault, corrupt, ◌>>>◌}
use tengdb.MemoryPool.{Block}
use tengdb.Scanner.Columns.{NextFunc}
use tengdb.Sql.Expr.{Expr, ColumnSet}
use tengdb.Sql.Expr.Names.{is_in, IsAddable, names_any, add_columns-names_any}
use tengdb.Sql.Select.{
  SelectStatement, add_group, add_list, typed_columns, table_of, selected_fields,
}
use tengdb.Table.Access.{Table}
use tengdb.Table.Columns.{ColMap, get_type_kind}
use tengdb.Table.Rep.{Dirent}

-- Whichever column it is, and also behind columns that the table has.
typed_columns-missing :
    (colmap : ColMap) (name : Name) (set : ColumnSet)
    → is_in name set ≡ true
    → get_type_kind colmap name ≡ none
    → typed_columns colmap set ≡ fault corrupt
unfolding is_in typed_columns
typed_columns-missing colmap name [] h missing = absurd (cc)
typed_columns-missing colmap name (key ∷ set) h missing = elim (Bool-cases (same_name name key)) [
  | inl same ↦
      let here : get_type_kind colmap key ≡ none =
        ap (get_type_kind colmap) (sym (same_name_lem name key same)) ∙ missing in
      rw (here, typed_columns)
  | inr differs ↦
      let behind : is_in name set ≡ true =
        sym (ap (λ (b : Bool). b || is_in name set) differs) ∙ h in
      let rest = typed_columns-missing colmap name set behind missing in
      elim (Option-cases (get_type_kind colmap key)) [
        | inl e ↦ rw (e, typed_columns)
        | inr (kind, e) ↦ rw (e, typed_columns, rest)
      ]
]

module _ (opendir : Name → Option (List Dirent)) (dbpath : Name) (malloc : ℕ → Option Block)
    (functions : Dict NextFunc) where
  -- A statement with a list of expressions and a group-by clause, with no NULL in either list and
  -- whose column references have names, over a table that can be opened: where it names, at whatever
  -- depth, a column that the table does not have, selectedFields ends the program.
  pub selected_fields-missing :
      (stmt : SelectStatement) (groups exprs : List Expr) (table : Table) (name : Name)
      → stmt.group_by ≡ some (some groups)
      → stmt.select_list ≡ some exprs
      → All IsAddable groups
      → All IsAddable exprs
      → table_of opendir dbpath malloc functions stmt ≡ ok table
      → (names_any name groups || names_any name exprs) ≡ true
      → get_type_kind table.colmap name ≡ none
      → selected_fields opendir dbpath malloc functions stmt ≡ fault corrupt
  unfolding selected_fields add_group add_list is_in
  selected_fields-missing stmt groups exprs table name grouped listed named named' opened
        named_there missing =
      let (set₁, e₁, h₁, in₁) = add_columns-names_any groups [] named tt in
      let (set₂, e₂, h₂, in₂) = add_columns-names_any exprs set₁ named' h₁ in
      let there : is_in name set₂ ≡ true =
        in₂ name
        ∙ ap (λ (b : Bool). names_any name exprs || b) (in₁ name)
        ∙ turn (names_any name groups) (names_any name exprs)
        ∙ named_there in
      rw (opened, grouped, add_group, listed, add_list, e₁, ◌>>>◌, e₂)
        (typed_columns-missing table.colmap name set₂ there missing)
    where
      turn : (a b : Bool) → (b || (a || false)) ≡ (a || b)
      turn true true = refl
      turn true false = refl
      turn false true = refl
      turn false false = refl
