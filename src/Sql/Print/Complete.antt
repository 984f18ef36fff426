-- ===== src/Sql/Print/Complete.antt =====
-- src/frontend/sqlhelper.cpp: what the printers read of a statement is there.
use tengdb.Common.{◌≡◌, Bool, List, [], Option, none, some}
use tengdb.Common.Name.{Name}
use tengdb.Sql.Expr.{Expr}
use tengdb.Sql.Print.{Line, is_null_expr}
use tengdb.Sql.Print.Outline.{HasHeading, IsGiven}
use tengdb.Sql.Print.Nested.{IsPrintable}
use tengdb.Sql.Print.Statements.{
  TableInfo, null_table, by_name, by_select, by_join, by_list, TableInfos, no_tables, one_more,
  SelectInfo, null_select, select_info, is_null_select,
}
use tengdb.Sql.Print.Statements.{
  StatementInfo, select_statement, insert_values, insert_select, create_statement, import_statement,
  other_statement,
}
use tengdb.Sql.Print.{Label, label, select_label, insert_label, create_label, import_label}
use tengdb.Common.{All, false}

-- What the code reads of a list of expressions, tables, select statements and an order is there,
-- and no list of tables is empty.
abbrev pub ArePrintable : Option (List Expr) → Type 0
ArePrintable none = ⊥
ArePrintable (some exprs) = All IsPrintable exprs

abbrev pub IsPrintableOrder : Option (Bool × Expr) → Type 0
IsPrintableOrder none = Unit
IsPrintableOrder (some (is_ascending, expr)) = IsPrintable expr

abbrev mutual
  pub IsPrintableTable : TableInfo → Type 0
  IsPrintableTable null_table = ⊥
  IsPrintableTable (by_name name alias) = IsGiven name
  IsPrintableTable (by_select select alias) = IsPrintableSelect select
  IsPrintableTable (by_join left right condition alias) =
      IsPrintableTable left × IsPrintableTable right × IsPrintable condition
  IsPrintableTable (by_list no_tables alias) = ⊥
  IsPrintableTable (by_list (one_more table tables) alias) =
      IsPrintableTable table × ArePrintableTables tables

  pub ArePrintableTables : TableInfos → Type 0
  ArePrintableTables no_tables = Unit
  ArePrintableTables (one_more table tables) = IsPrintableTable table × ArePrintableTables tables

  pub IsPrintableSelect : SelectInfo → Type 0
  IsPrintableSelect null_select = ⊥
  IsPrintableSelect (select_info list from where_clause union order limit) =
      ArePrintable list
      × IsPrintableTable from
      × (is_null_expr where_clause ≡ false → IsPrintable where_clause)
      × (is_null_select union ≡ false → IsPrintableSelect union)
      × IsPrintableOrder order

abbrev pub AreGiven : Option (List (Option Name)) → Type 0
AreGiven none = Unit
AreGiven (some names) = All IsGiven names

abbrev pub IsPrintableStatement : StatementInfo → Type 0
IsPrintableStatement (select_statement stmt) = IsPrintableSelect stmt
IsPrintableStatement (insert_values table_name columns values) =
    IsGiven table_name × AreGiven columns × ArePrintable values
IsPrintableStatement (insert_select table_name columns stmt) =
    IsGiven table_name × AreGiven columns × IsPrintableSelect stmt
IsPrintableStatement (create_statement table_name file_path) =
    IsGiven table_name × IsGiven file_path
IsPrintableStatement (import_statement file_path table_name) =
    IsGiven file_path × IsGiven table_name
IsPrintableStatement other_statement = Unit

-- The word that a statement is printed under.
abbrev pub heading_of : StatementInfo → Option Label
heading_of (select_statement stmt) = some select_label
heading_of (insert_values table_name columns values) = some insert_label
heading_of (insert_select table_name columns stmt) = some insert_label
heading_of (create_statement table_name file_path) = some create_label
heading_of (import_statement file_path table_name) = some import_label
heading_of other_statement = none

abbrev pub IsUnder : Option Label → List Line → Type 0
IsUnder none lines = lines ≡ []
IsUnder (some heading) lines = HasHeading (label heading) 0 lines
