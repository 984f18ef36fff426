-- ===== src/Sql/Print/Statements.antt =====
-- src/frontend/sqlhelper.cpp: the printers of tables and statements.
use tengdb.Common.{ℕ, ◌+◌, Bool, true, false, List, [], ◌∷◌, Option, none, some}
use tengdb.Common.Int.{ℤ}
use tengdb.Common.Name.{Name}
use tengdb.Common.Run.{Run, fault, outside}
use tengdb.Sql.Expr.{Expr}
use tengdb.Sql.Print.{
  Line, label, number, inprint, print_name, print_alias, print_nothing, print_expression,
  print_expressions, ◌then_print◌, is_null_expr,
}
use tengdb.Sql.Print.{
  join_table, left_label, right_label, join_condition, select_label, fields_label,
}
use tengdb.Sql.Print.{sources, search_conditions, union_label, order_by, ascending, descending}
use tengdb.Sql.Print.{limit_label, import_label, create_label, insert_label, columns_label}
use tengdb.Sql.Print.{values_label}

-- The members of a TableRef and of a SelectStatement that are printed: a table by its name, by a
-- select statement, by a join or by a list, each with its alias; and the list of fields, the table,
-- the where clause, the union, the order with `true` for ascending, and the limit.
mutual
  pub data TableInfo : Type 0 where
    null_table : TableInfo
    by_name : Option Name → Option Name → TableInfo
    by_select : SelectInfo → Option Name → TableInfo
    by_join : TableInfo → TableInfo → Expr → Option Name → TableInfo
    by_list : TableInfos → Option Name → TableInfo

  pub data TableInfos : Type 0 where
    no_tables : TableInfos
    one_more : TableInfo → TableInfos → TableInfos

  pub data SelectInfo : Type 0 where
    null_select : SelectInfo
    select_info :
        Option (List Expr)
        → TableInfo
        → Expr
        → SelectInfo
        → Option (Bool × Expr)
        → Option ℤ
        → SelectInfo

unfoldable pub is_null_select : SelectInfo → Bool
is_null_select null_select = true
is_null_select (select_info list from where_clause union order limit) = false

-- `for (Expr* expr : *list)`
unfoldable pub print_list : Option (List Expr) → ℕ → Run (List Line)
print_list none num_indent = fault outside
print_list (some exprs) num_indent = print_expressions exprs num_indent

unfoldable pub print_where : Expr → ℕ → Run (List Line)
print_where clause num_indent = elim (is_null_expr clause) [
  | true ↦ print_nothing
  | false ↦
      inprint (label search_conditions) (num_indent + 1)
      then_print print_expression clause (num_indent + 2)
]

unfoldable pub print_order : Option (Bool × Expr) → ℕ → Run (List Line)
print_order none num_indent = print_nothing
print_order (some (is_ascending, expr)) num_indent =
    inprint (label order_by) (num_indent + 1)
    then_print print_expression expr (num_indent + 2)
    then_print inprint (label (elim is_ascending [ true ↦ ascending | false ↦ descending ]))
        (num_indent + 2)

unfoldable pub print_limit : Option ℤ → ℕ → Run (List Line)
print_limit none num_indent = print_nothing
print_limit (some limit) num_indent =
    inprint (label limit_label) (num_indent + 1) then_print inprint (number limit) (num_indent + 2)

unfoldable mutual
  pub print_table : TableInfo → ℕ → Run (List Line)
  print_table null_table num_indent = fault outside
  print_table (by_name name alias) num_indent =
      print_name name num_indent then_print print_alias alias num_indent
  print_table (by_select select alias) num_indent =
      print_select select num_indent then_print print_alias alias num_indent
  print_table (by_join left right condition alias) num_indent =
      inprint (label join_table) num_indent
      then_print inprint (label left_label) (num_indent + 1)
      then_print print_table left (num_indent + 2)
      then_print inprint (label right_label) (num_indent + 1)
      then_print print_table right (num_indent + 2)
      then_print inprint (label join_condition) (num_indent + 1)
      then_print print_expression condition (num_indent + 2)
      then_print print_alias alias num_indent
  print_table (by_list tables alias) num_indent =
      print_tables tables num_indent then_print print_alias alias num_indent

  pub print_tables : TableInfos → ℕ → Run (List Line)
  print_tables no_tables num_indent = print_nothing
  print_tables (one_more table tables) num_indent =
      print_table table num_indent then_print print_tables tables num_indent

  pub print_select : SelectInfo → ℕ → Run (List Line)
  print_select null_select num_indent = fault outside
  print_select (select_info list from where_clause union order limit) num_indent =
      let others = print_select union (num_indent + 2) in
      inprint (label select_label) num_indent
      then_print inprint (label fields_label) (num_indent + 1)
      then_print print_list list (num_indent + 2)
      then_print inprint (label sources) (num_indent + 1)
      then_print print_table from (num_indent + 2)
      then_print print_where where_clause num_indent
      then_print (elim (is_null_select union) [
        | true ↦ print_nothing
        | false ↦ inprint (label union_label) (num_indent + 1) then_print others
      ])
      then_print print_order order num_indent
      then_print print_limit limit num_indent

-- The other statements, with what is printed of them: a file and a table, a table and a file, and a
-- table with its columns and either values or a select statement.
pub data StatementInfo : Type 0 where
  select_statement : SelectInfo → StatementInfo
  insert_values : Option Name → Option (List (Option Name)) → Option (List Expr) → StatementInfo
  insert_select : Option Name → Option (List (Option Name)) → SelectInfo → StatementInfo
  create_statement : Option Name → Option Name → StatementInfo
  import_statement : Option Name → Option Name → StatementInfo
  other_statement : StatementInfo

unfoldable pub print_import : Option Name → Option Name → ℕ → Run (List Line)
print_import file_path table_name num_indent =
    inprint (label import_label) num_indent
    then_print print_name file_path (num_indent + 1)
    then_print print_name table_name (num_indent + 1)

unfoldable pub print_create : Option Name → Option Name → ℕ → Run (List Line)
print_create table_name file_path num_indent =
    inprint (label create_label) num_indent
    then_print print_name table_name (num_indent + 1)
    then_print print_name file_path (num_indent + 1)

unfoldable pub print_names : List (Option Name) → ℕ → Run (List Line)
print_names [] num_indent = print_nothing
print_names (name ∷ names) num_indent =
    print_name name num_indent then_print print_names names num_indent

unfoldable pub print_columns : Option (List (Option Name)) → ℕ → Run (List Line)
print_columns none num_indent = print_nothing
print_columns (some names) num_indent =
    inprint (label columns_label) (num_indent + 1) then_print print_names names (num_indent + 2)

-- printInsertStatementInfo; `rest` is what its switch prints.
unfoldable pub print_insert :
    Option Name → Option (List (Option Name)) → Run (List Line) → ℕ → Run (List Line)
print_insert table_name columns rest num_indent =
    inprint (label insert_label) num_indent
    then_print print_name table_name (num_indent + 1)
    then_print print_columns columns num_indent
    then_print rest

unfoldable pub print_statement : StatementInfo → Run (List Line)
print_statement (select_statement stmt) = print_select stmt 0
print_statement (insert_values table_name columns values) =
    print_insert table_name columns (inprint (label values_label) 1 then_print print_list values 2)
      0
print_statement (insert_select table_name columns stmt) =
    print_insert table_name columns (print_select stmt 1) 0
print_statement (create_statement table_name file_path) = print_create table_name file_path 0
print_statement (import_statement file_path table_name) = print_import file_path table_name 0
print_statement other_statement = print_nothing
