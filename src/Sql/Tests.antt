-- ===== src/Sql/Tests.antt =====
-- src/frontend: `SELECT col + 1 FROM t GROUP BY col` over a table with this column.
use tengdb.Common.{
  ℕ, Bool, true, false, List, [], ◌∷◌, map, All, Option, none, some, ◌||◌, ◌≡◌, refl,
}
use tengdb.Common.{◌≢◌, sym}
use tengdb.Common.Int.{pos}
use tengdb.Common.Name.{Name, Dict, same_name, same_name_lem}
use tengdb.Common.Run.{ok, fault, corrupt}
use tengdb.Sql.Select.Missing.{selected_fields-missing}
use tengdb.ColumnInfo.Column.{Column}
use tengdb.MemoryPool.{Block}
use tengdb.Scanner.Columns.{NextFunc}
use tengdb.Sql.Expr.{Expr, make_column_ref, make_simple_binary, make_literal_int, new_fields}
use tengdb.Sql.Expr.Names.{is_in, IsIncreasing, IsAddable, names, names_any, is_own}
use tengdb.Sql.Select.{
  SelectStatement, table_of, from_name, table_ref_name, opened_table, selected_fields,
}
use tengdb.Sql.Select.Fields.{HasType, selected_fields-names_any}
use tengdb.Table.Access.{Table, new_table}
use tengdb.Table.Columns.{new_colmap, fill_map, insert, get_type_kind}
use tengdb.Table.Rep.{Dirent, find, starts_with, new_rep, opened}
use tengdb.Table.Schemas.{get_table, table_name, columns_of, is_one_of, one_column}
use tengdb.Util.{TypeKind}
use mathlib.Core.Path.{subst}

abbrev col : Name
col = 99 ∷ 111 ∷ 108 ∷ []

abbrev grouped_by : List Expr
grouped_by = make_column_ref (some col) ∷ []

abbrev selected : List Expr
selected = make_simple_binary (make_column_ref (some col)) 43 (make_literal_int (pos 1)) ∷ []

abbrev statement : SelectStatement
statement = record {
  from_table = some (record { name = some (116 ∷ []); alias = none });
  select_list = some selected;
  group_by = some (some grouped_by);
}

abbrev one_table : Table
one_table = record {
  registered = pos 0;
  colmap = new_colmap (record { name = col; type = TypeKind.int } ∷ []);
  rep = record { isfile = false; path = 47 ∷ 116 ∷ []; filename = []; dir = [] };
  tablename = 116 ∷ [];
}

abbrev no_malloc : ℕ → Option Block
no_malloc n = none

abbrev no_functions : Dict NextFunc
no_functions name = none

abbrev empty_dir : Name → Option (List Dirent)
empty_dir path = some []

IsAddable-grouped_by : All IsAddable grouped_by
unfolding make_column_ref new_fields
IsAddable-grouped_by = ((given, (tt, tt)), tt)
  where
    given : some col ≢ none
    given e = cc

IsAddable-selected : All IsAddable selected
unfolding make_column_ref make_simple_binary make_literal_int new_fields
IsAddable-selected = ((tt, ((given, (tt, tt)), (tt, (tt, tt)))), tt)
  where
    given : some col ≢ none
    given e = cc

the_table : table_of empty_dir [] no_malloc no_functions statement ≡ ok one_table
unfolding table_of from_name table_ref_name opened_table get_table table_name find starts_with
    new_table new_rep opened columns_of is_one_of one_column same_name
the_table = refl

col_type : HasType one_table.colmap col
unfolding get_type_kind new_colmap fill_map insert same_name
col_type = (TypeKind.int, refl)

only_col :
    (name : Name)
    → (names_any name grouped_by || names_any name selected) ≡ true
    → HasType one_table.colmap name
unfolding names_any names is_own make_column_ref make_simple_binary make_literal_int new_fields
only_col name h =
    subst (HasType one_table.colmap) (sym (same_name_lem name col (go (same_name name col) h)))
      col_type
  where
    go :
        (s : Bool)
        → (((s || (false || false)) || false)
            || ((false || ((s || (false || false)) || (false || (false || false)))) || false))
          ≡ true
        → s ≡ true
    go true h = refl
    go false h = h

selected_fields-names_any_example :
    (columns : List Column) × (selected_fields empty_dir [] no_malloc no_functions statement
      ≡ ok columns)
    × IsIncreasing (map (λ c. c.name) columns)
    × ((name : Name)
        → is_in name (map (λ c. c.name) columns)
          ≡ (names_any name grouped_by || names_any name selected))
    × All (λ c. get_type_kind one_table.colmap c.name ≡ some c.type) columns
selected_fields-names_any_example =
    selected_fields-names_any empty_dir [] no_malloc no_functions statement grouped_by selected
      one_table refl refl IsAddable-grouped_by IsAddable-selected the_table only_col

-- The statement also names a column that the table does not have.
abbrev other : Name
other = 100 ∷ []

abbrev selected_other : List Expr
selected_other = make_column_ref (some col) ∷ make_column_ref (some other) ∷ []

abbrev statement_other : SelectStatement
statement_other = record statement { select_list = some selected_other }

IsAddable-selected_other : All IsAddable selected_other
unfolding make_column_ref new_fields
IsAddable-selected_other = ((given, (tt, tt)), ((given', (tt, tt)), tt))
  where
    given : some col ≢ none
    given e = cc

    given' : some other ≢ none
    given' e = cc

other_named : (names_any other grouped_by || names_any other selected_other) ≡ true
unfolding names_any names is_own make_column_ref new_fields same_name
other_named = refl

other_missing : get_type_kind one_table.colmap other ≡ none
unfolding get_type_kind new_colmap fill_map insert same_name
other_missing = refl

the_other_table : table_of empty_dir [] no_malloc no_functions statement_other ≡ ok one_table
unfolding table_of from_name table_ref_name opened_table get_table table_name find starts_with
    new_table new_rep opened columns_of is_one_of one_column same_name
the_other_table = refl

selected_fields-missing_example :
    selected_fields empty_dir [] no_malloc no_functions statement_other ≡ fault corrupt
selected_fields-missing_example =
    selected_fields-missing empty_dir [] no_malloc no_functions statement_other grouped_by
      selected_other one_table other refl refl IsAddable-grouped_by IsAddable-selected_other
      the_other_table other_named other_missing
