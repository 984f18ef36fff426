-- ===== src/Table/Schemas/Named.antt =====
-- include/Table.h, getTable: the table that a name with a file in it stands for.
use tengdb.Common.{◌≡◌, sym, List, [], ◌∷◌, ◌++◌, Option, some, true}
use tengdb.Common.Int.{pos}
use tengdb.Common.Name.{Name}
use tengdb.ColumnInfo.Column.{Column}
use tengdb.Table.Access.{new_table}
use tengdb.Table.Columns.{new_colmap}
use tengdb.Table.Rep.{Dirent, Rep, new_rep, separator}
use tengdb.Table.Rep.Files.{IsPlain, find_lem, take-append, new_rep-separator}
use tengdb.Table.Schemas.{columns_of, table_name, get_table}
use mathlib.Core.List.{append_assoc}

IsPlain-suffix : (before name : Name) → IsPlain (before ++ name) → IsPlain name
IsPlain-suffix [] name h = h
IsPlain-suffix (c ∷ before) name (_, h) = IsPlain-suffix before name h

table_name-separator :
    (table file : Name) → IsPlain table → table_name (table ++ (separator ++ file)) ≡ table
unfolding table_name
table_name-separator table file h =
    rw (find_lem table file h, table_name) (take-append table (separator ++ file))

opened_table :
    (opendir : Name → Option (List Dirent)) (tablename path : Name) (columns : List Column)
    (rep : Rep)
    → new_rep opendir path ≡ some rep
    → new_table opendir tablename path columns
      ≡ some (record {
        registered = pos 0;
        colmap = new_colmap columns;
        rep = rep;
        tablename = tablename;
      })
unfolding new_table
opened_table opendir tablename path columns rep h = rw (h, new_table)

-- The name of a table, `__` and the name of a file stand for the table with that name and the
-- columns of that name, over this one file of its directory below `dbpath`. No `__` begins earlier
-- in the path, and the directory can be opened.
pub get_table-separator :
    (opendir : Name → Option (List Dirent)) (dbpath table file : Name) (entries : List Dirent)
    → IsPlain (dbpath ++ (47 ∷ table))
    → opendir (dbpath ++ (47 ∷ table)) ≡ some entries
    → get_table opendir dbpath (table ++ (separator ++ file))
      ≡ some (record {
        registered = pos 0;
        colmap = new_colmap (columns_of table);
        rep = record {
          isfile = true;
          path = dbpath ++ (47 ∷ table);
          filename = file;
          dir = entries;
        };
        tablename = table;
      })
unfolding get_table
get_table-separator opendir dbpath table file entries plain e =
    let path = dbpath ++ (47 ∷ table) in
    let (_, plain_table) = IsPlain-suffix dbpath (47 ∷ table) plain in
    rw
      (
        table_name-separator table file plain_table,
        sym (append_assoc dbpath (47 ∷ table) (separator ++ file)),
      )
      (opened_table opendir table (path ++ (separator ++ file)) (columns_of table)
        (record { isfile = true; path = path; filename = file; dir = entries })
        (new_rep-separator opendir path file entries plain e))
