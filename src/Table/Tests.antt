-- ===== src/Table/Tests.antt =====
-- The table of include/Table.h on a small directory and three columns.
use tengdb.Common.{◌≡◌, refl, arith, true, false, List, [], ◌∷◌, ◌++◌}
use tengdb.Common.{none, some}
use tengdb.Common.Name.{Name, same_name}
use tengdb.ColumnInfo.Column.{Column}
use tengdb.Table.Columns.{Others, new_colmap, get_column_number, get_type_kind, new_colmap_lem}
use tengdb.Common.Int.{pos}
use tengdb.Table.Schemas.{columns_of, get_table}
use tengdb.Table.Schemas.Named.{get_table-separator}
use tengdb.Table.Rep.{
  Dirent, Rep, separator, starts_with, new_rep, next_file, scan, is_wanted, is_hidden,
}
use tengdb.Table.Rep.Files.{files, IsPlain, new_rep-separator}
use tengdb.Table.Rep.Listed.{Selected, IsListed, files-Selected}
use tengdb.Util.{TypeKind}

-- The files `.a`, `b` and `c`, and a directory `d`.
abbrev four_entries : List Dirent
four_entries =
    record { regular = true; name = 46 ∷ 97 ∷ [] }
    ∷ record { regular = true; name = 98 ∷ [] }
    ∷ record { regular = false; name = 100 ∷ [] }
    ∷ record { regular = true; name = 99 ∷ [] }
    ∷ []

-- The table's file `b`.
abbrev one_file : Rep
one_file = record { isfile = true; path = 116 ∷ []; filename = 98 ∷ []; dir = four_entries }

only_one : files 5 one_file ≡ record { regular = true; name = 98 ∷ [] } ∷ []
unfolding files next_file scan is_wanted is_hidden same_name
only_one = refl

files-Selected_example : Selected (IsListed true (98 ∷ [])) four_entries (files 5 one_file)
files-Selected_example = files-Selected one_file 5 (omega arith)

plain : IsPlain (116 ∷ [])
unfolding starts_with
plain = (refl, tt)

new_rep-separator_example :
    new_rep (λ path. some four_entries) ((116 ∷ []) ++ (separator ++ 98 ∷ []))
    ≡ some (record { isfile = true; path = 116 ∷ []; filename = 98 ∷ []; dir = four_entries })
new_rep-separator_example =
    new_rep-separator (λ path. some four_entries) (116 ∷ []) (98 ∷ []) four_entries plain refl

abbrev column : Name → TypeKind → Column
column name kind = record { name = name; type = kind }

abbrev key : Column
key = column (107 ∷ []) TypeKind.int

abbrev price : Column
price = column (112 ∷ []) TypeKind.double

last_price : Others (112 ∷ []) (key ∷ [])
unfolding same_name
last_price = (refl, tt)

no_tax : Others (116 ∷ []) ((key ∷ []) ++ price ∷ key ∷ [])
unfolding same_name
no_tax = (refl, (refl, (refl, tt)))

new_colmap_lem_example :
    let colmap = new_colmap ((key ∷ []) ++ price ∷ key ∷ []) in
    (get_column_number colmap (112 ∷ []) ≡ some 2)
    × (get_type_kind colmap (112 ∷ []) ≡ some TypeKind.double)
    × (get_column_number colmap (116 ∷ []) ≡ none)
    × (get_type_kind colmap (116 ∷ []) ≡ none)
new_colmap_lem_example = new_colmap_lem (key ∷ []) (key ∷ []) price (116 ∷ []) last_price no_tax

IsPlain-path : IsPlain ((100 ∷ []) ++ (47 ∷ 116 ∷ []))
unfolding starts_with
IsPlain-path = (refl, (refl, (refl, tt)))

-- The file `b` of the table `t` in the directory `d`.
get_table-separator_example :
    get_table (λ path. some four_entries) (100 ∷ []) ((116 ∷ []) ++ (separator ++ 98 ∷ []))
    ≡ some (record {
      registered = pos 0;
      colmap = new_colmap (columns_of (116 ∷ []));
      rep = record {
        isfile = true;
        path = (100 ∷ []) ++ (47 ∷ 116 ∷ []);
        filename = 98 ∷ [];
        dir = four_entries;
      };
      tablename = 116 ∷ [];
    })
get_table-separator_example =
    get_table-separator (λ path. some four_entries) (100 ∷ []) (116 ∷ []) (98 ∷ []) four_entries
      IsPlain-path refl
