-- ===== src/Sql/Select.antt =====
-- src/frontend/sql/SelectStatement.h and src/frontend/SQLCodegen.cpp: how a select statement
-- becomes a scan.
pub mod Fields
pub mod Missing
use tengdb.Common.{ℕ, List, [], ◌∷◌, Option, none, some}
use tengdb.Common.Name.{Name, Dict}
use tengdb.Common.Run.{Run, ok, fault, outside, corrupt, ◌>>>◌}
use tengdb.ColumnInfo.Column.{Column}
use tengdb.MemoryPool.{Block}
use tengdb.Scanner.Batches.{OrcScanner, new_scanner, prepare}
use tengdb.Scanner.Columns.{NextFunc}
use tengdb.Sql.Expr.{Expr, ColumnSet, add_columns}
use tengdb.Table.Access.{Table}
use tengdb.Table.Columns.{ColMap, get_type_kind}
use tengdb.Table.Rep.{Dirent}
use tengdb.Table.Schemas.{get_table}

-- The members of a TableRef that a scan uses; `none` is NULL.
pub record TableRef : Type 0 where
  pub name : Option Name
  pub alias : Option Name

-- The members of a SelectStatement that a scan uses; `group_by` is the list of its columns.
pub record SelectStatement : Type 0 where
  pub from_table : Option TableRef
  pub select_list : Option (List Expr)
  pub group_by : Option (Option (List Expr))

-- TableRef's getName.
unfoldable pub table_ref_name : TableRef → Option Name
table_ref_name ref = elim ref.alias [ none ↦ ref.name | some alias ↦ some alias ]

-- `std::string(this->fromTable->getName())`
unfoldable pub from_name : Option TableRef → Run Name
from_name none = fault outside
from_name (some ref) = elim (table_ref_name ref) [ none ↦ fault outside | some name ↦ ok name ]

unfoldable pub add_group : Option (Option (List Expr)) → ColumnSet → Run ColumnSet
add_group none columns = ok columns
add_group (some none) columns = fault outside
add_group (some (some exprs)) columns = add_columns exprs columns

unfoldable pub add_list : Option (List Expr) → ColumnSet → Run ColumnSet
add_list none columns = ok columns
add_list (some exprs) columns = add_columns exprs columns

-- A column that the table does not have ends the program.
unfoldable pub typed_columns : ColMap → ColumnSet → Run (List Column)
typed_columns colmap [] = ok []
typed_columns colmap (name ∷ names) = elim (get_type_kind colmap name) [
  | none ↦ fault corrupt
  | some kind ↦
      typed_columns colmap names >>> λ columns. ok (record { name = name; type = kind } ∷ columns)
]

-- A directory that cannot be opened ends the program.
unfoldable pub opened_table : Option Table → Run Table
opened_table none = fault corrupt
opened_table (some table) = ok table

-- `opendir` stands for the directories, `dbpath` for the flag of that name, and `malloc` for
-- std::malloc; `functions` are those of the table's code generator.
module _ (opendir : Name → Option (List Dirent)) (dbpath : Name) (malloc : ℕ → Option Block)
    (functions : Dict NextFunc) where
  unfoldable pub table_of : SelectStatement → Run Table
  table_of stmt = from_name stmt.from_table >>> λ name. opened_table (get_table opendir dbpath name)

  unfoldable pub selected_fields : SelectStatement → Run (List Column)
  selected_fields stmt = add_group stmt.group_by [] >>> λ grouped.
      add_list stmt.select_list grouped >>> λ names.
      table_of stmt >>> λ table. typed_columns table.colmap names

  -- The scan node holds this scanner.
  unfoldable pub codegen : SelectStatement → Run OrcScanner
  codegen stmt = selected_fields stmt >>> λ columns.
      table_of stmt >>> λ table. new_scanner malloc table columns >>> λ s. ok (prepare functions s)
