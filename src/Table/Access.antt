-- ===== src/Table/Access.antt =====
-- include/Table.h, class Table: its users, its columns and its files.
use tengdb.Common.{List, ◌∷◌, ◌++◌, Option, none, some}
use tengdb.Common.Int.{ℤ, pos, sucℤ, predℤ}
use tengdb.Common.Name.{Name}
use tengdb.ColumnInfo.Column.{Column}
use tengdb.Table.Columns.{ColMap, new_colmap}
use tengdb.Table.Rep.{Dirent, Rep, new_rep, next_file, reset}

-- The code generator and its pool are not part of the state here. The mutex makes each operation a
-- step of its own.
pub record Table : Type 0 where
  pub registered : ℤ
  pub colmap : ColMap
  pub rep : Rep
  pub tablename : Name

-- The constructor; `none` is a directory that cannot be opened, which ends the program.
unfoldable pub new_table : (Name → Option (List Dirent)) → Name → Name → List Column → Option Table
new_table opendir tablename path columns = elim (new_rep opendir path) [
  | none ↦ none
  | some rep ↦
      some (record {
        registered = pos 0;
        colmap = new_colmap columns;
        rep = rep;
        tablename = tablename;
      })
]

-- The number that is returned is the new one.
unfoldable pub reg : Table → ℤ × Table
reg table = let id = sucℤ table.registered in (id, record table { registered = id })

unfoldable pub unreg : Table → ℤ × Table
unreg table = let id = predℤ table.registered in (id, record table { registered = id })

unfoldable pub get_registered_number : Table → ℤ
get_registered_number table = table.registered

unfoldable pub reset_table : (Name → Option (List Dirent)) → Table → Option Table
reset_table opendir table = elim (reset opendir table.rep) [
  | none ↦ none
  | some rep ↦ some (record table { rep = rep })
]

-- The path of the next file, for which a reader is created; `none` is NULL.
unfoldable pub next_path : Table → Option Name × Table
next_path table =
    let (file, rep) = next_file table.rep in
    (
      elim file [ none ↦ none | some f ↦ some (table.rep.path ++ (47 ∷ f.name)) ],
      record table { rep = rep },
    )
