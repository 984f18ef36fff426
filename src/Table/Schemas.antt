-- ===== src/Table/Schemas.antt =====
-- include/Table.h, getTable: the tables that have a schema of their own.
pub mod Named
use tengdb.Common.{ℕ, ◌+◌, Bool, true, false, ◌||◌, List, [], ◌∷◌, ◌++◌, length, Option, none, some}
use tengdb.Common.{if◌then◌else◌}
use tengdb.Common.Name.{Name, same_name}
use tengdb.ColumnInfo.Column.{Column}
use tengdb.Table.Access.{Table, new_table}
use tengdb.Table.Rep.{Dirent, separator, find, take}
use tengdb.Util.{TypeKind}

abbrev l_orderkey : Name
l_orderkey = 108 ∷ 95 ∷ 111 ∷ 114 ∷ 100 ∷ 101 ∷ 114 ∷ 107 ∷ 101 ∷ 121 ∷ []

abbrev l_partkey : Name
l_partkey = 108 ∷ 95 ∷ 112 ∷ 97 ∷ 114 ∷ 116 ∷ 107 ∷ 101 ∷ 121 ∷ []

abbrev l_suppkey : Name
l_suppkey = 108 ∷ 95 ∷ 115 ∷ 117 ∷ 112 ∷ 112 ∷ 107 ∷ 101 ∷ 121 ∷ []

abbrev l_linenumber : Name
l_linenumber = 108 ∷ 95 ∷ 108 ∷ 105 ∷ 110 ∷ 101 ∷ 110 ∷ 117 ∷ 109 ∷ 98 ∷ 101 ∷ 114 ∷ []

abbrev l_quantity : Name
l_quantity = 108 ∷ 95 ∷ 113 ∷ 117 ∷ 97 ∷ 110 ∷ 116 ∷ 105 ∷ 116 ∷ 121 ∷ []

abbrev l_extendedprice : Name
l_extendedprice =
    108 ∷ 95 ∷ 101 ∷ 120 ∷ 116 ∷ 101 ∷ 110 ∷ 100 ∷ 101 ∷ 100 ∷ 112 ∷ 114 ∷ 105 ∷ 99 ∷ 101 ∷ []

abbrev l_discount : Name
l_discount = 108 ∷ 95 ∷ 100 ∷ 105 ∷ 115 ∷ 99 ∷ 111 ∷ 117 ∷ 110 ∷ 116 ∷ []

abbrev l_tax : Name
l_tax = 108 ∷ 95 ∷ 116 ∷ 97 ∷ 120 ∷ []

abbrev l_returnflag : Name
l_returnflag = 108 ∷ 95 ∷ 114 ∷ 101 ∷ 116 ∷ 117 ∷ 114 ∷ 110 ∷ 102 ∷ 108 ∷ 97 ∷ 103 ∷ []

abbrev l_linestatus : Name
l_linestatus = 108 ∷ 95 ∷ 108 ∷ 105 ∷ 110 ∷ 101 ∷ 115 ∷ 116 ∷ 97 ∷ 116 ∷ 117 ∷ 115 ∷ []

abbrev l_shipdate : Name
l_shipdate = 108 ∷ 95 ∷ 115 ∷ 104 ∷ 105 ∷ 112 ∷ 100 ∷ 97 ∷ 116 ∷ 101 ∷ []

abbrev l_commitdate : Name
l_commitdate = 108 ∷ 95 ∷ 99 ∷ 111 ∷ 109 ∷ 109 ∷ 105 ∷ 116 ∷ 100 ∷ 97 ∷ 116 ∷ 101 ∷ []

abbrev l_receiptdate : Name
l_receiptdate = 108 ∷ 95 ∷ 114 ∷ 101 ∷ 99 ∷ 101 ∷ 105 ∷ 112 ∷ 116 ∷ 100 ∷ 97 ∷ 116 ∷ 101 ∷ []

abbrev l_shipinstruct : Name
l_shipinstruct =
    108 ∷ 95 ∷ 115 ∷ 104 ∷ 105 ∷ 112 ∷ 105 ∷ 110 ∷ 115 ∷ 116 ∷ 114 ∷ 117 ∷ 99 ∷ 116 ∷ []

abbrev l_shipmode : Name
l_shipmode = 108 ∷ 95 ∷ 115 ∷ 104 ∷ 105 ∷ 112 ∷ 109 ∷ 111 ∷ 100 ∷ 101 ∷ []

abbrev l_comment : Name
l_comment = 108 ∷ 95 ∷ 99 ∷ 111 ∷ 109 ∷ 109 ∷ 101 ∷ 110 ∷ 116 ∷ []

abbrev pub col : Name
col = 99 ∷ 111 ∷ 108 ∷ []

abbrev allsmall_table : Name
allsmall_table = 97 ∷ 108 ∷ 108 ∷ 115 ∷ 109 ∷ 97 ∷ 108 ∷ 108 ∷ []

abbrev lineitem_table : Name
lineitem_table = 108 ∷ 105 ∷ 110 ∷ 101 ∷ 105 ∷ 116 ∷ 101 ∷ 109 ∷ []

abbrev rle_table : Name
rle_table = 114 ∷ 108 ∷ 101 ∷ []

abbrev rle2_table : Name
rle2_table = 114 ∷ 108 ∷ 101 ∷ 50 ∷ []

abbrev testdelta_table : Name
testdelta_table = 116 ∷ 101 ∷ 115 ∷ 116 ∷ 100 ∷ 101 ∷ 108 ∷ 116 ∷ 97 ∷ []

abbrev testrepeat_table : Name
testrepeat_table = 116 ∷ 101 ∷ 115 ∷ 116 ∷ 114 ∷ 101 ∷ 112 ∷ 101 ∷ 97 ∷ 116 ∷ []

abbrev testpatched_table : Name
testpatched_table = 116 ∷ 101 ∷ 115 ∷ 116 ∷ 112 ∷ 97 ∷ 116 ∷ 99 ∷ 104 ∷ 101 ∷ 100 ∷ []

abbrev testdirect_table : Name
testdirect_table = 116 ∷ 101 ∷ 115 ∷ 116 ∷ 100 ∷ 105 ∷ 114 ∷ 101 ∷ 99 ∷ 116 ∷ []

abbrev testint_table : Name
testint_table = 116 ∷ 101 ∷ 115 ∷ 116 ∷ 105 ∷ 110 ∷ 116 ∷ []

abbrev testdelta2_table : Name
testdelta2_table = 116 ∷ 101 ∷ 115 ∷ 116 ∷ 100 ∷ 101 ∷ 108 ∷ 116 ∷ 97 ∷ 50 ∷ []

abbrev testdouble_table : Name
testdouble_table = 116 ∷ 101 ∷ 115 ∷ 116 ∷ 100 ∷ 111 ∷ 117 ∷ 98 ∷ 108 ∷ 101 ∷ []

unfoldable pub lineitem_columns : List Column
lineitem_columns =
    record { name = l_orderkey; type = TypeKind.int }
    ∷ record { name = l_partkey; type = TypeKind.int }
    ∷ record { name = l_suppkey; type = TypeKind.int }
    ∷ record { name = l_linenumber; type = TypeKind.int }
    ∷ record { name = l_quantity; type = TypeKind.double }
    ∷ record { name = l_extendedprice; type = TypeKind.double }
    ∷ record { name = l_discount; type = TypeKind.double }
    ∷ record { name = l_tax; type = TypeKind.double }
    ∷ record { name = l_returnflag; type = TypeKind.string }
    ∷ record { name = l_linestatus; type = TypeKind.string }
    ∷ record { name = l_shipdate; type = TypeKind.date }
    ∷ record { name = l_commitdate; type = TypeKind.date }
    ∷ record { name = l_receiptdate; type = TypeKind.date }
    ∷ record { name = l_shipinstruct; type = TypeKind.string }
    ∷ record { name = l_shipmode; type = TypeKind.string }
    ∷ record { name = l_comment; type = TypeKind.varchar }
    ∷ []

unfoldable pub rle_columns : List Column
rle_columns =
    record { name = l_comment; type = TypeKind.int }
    ∷ record { name = l_commitdate; type = TypeKind.int }
    ∷ record { name = l_linenumber; type = TypeKind.int }
    ∷ record { name = l_linestatus; type = TypeKind.int }
    ∷ record { name = l_orderkey; type = TypeKind.int }
    ∷ record { name = l_partkey; type = TypeKind.int }
    ∷ record { name = l_receiptdate; type = TypeKind.int }
    ∷ record { name = l_returnflag; type = TypeKind.int }
    ∷ record { name = l_shipdate; type = TypeKind.int }
    ∷ record { name = l_shipinstruct; type = TypeKind.int }
    ∷ record { name = l_shipmode; type = TypeKind.int }
    ∷ record { name = l_suppkey; type = TypeKind.int }
    ∷ []

unfoldable pub one_column : TypeKind → List Column
one_column kind = record { name = col; type = kind } ∷ []

-- `tablename==a||...`
unfoldable pub is_one_of : Name → List Name → Bool
is_one_of name [] = false
is_one_of name (other ∷ others) = same_name name other || is_one_of name others

unfoldable pub columns_of : Name → List Column
unfolding lineitem_columns rle_columns one_column
columns_of tablename =
    if is_one_of tablename (allsmall_table ∷ lineitem_table ∷ [])
    then lineitem_columns
    else if same_name tablename rle_table
    then rle_columns
    else if is_one_of tablename (
        rle2_table ∷ testdelta_table ∷ testrepeat_table ∷ testpatched_table ∷ testdirect_table
        ∷ testint_table ∷ testdelta2_table ∷ [])
    then one_column TypeKind.int
    else if same_name tablename testdouble_table
    then one_column TypeKind.double
    else one_column TypeKind.int

-- The table's name ends where the separator begins.
unfoldable pub table_name : Name → Name
table_name table = elim (find table separator) [ none ↦ table | some pos ↦ take pos table ]

-- `opendir` stands for the directories and `dbpath` for the flag of that name.
unfoldable pub get_table : (Name → Option (List Dirent)) → Name → Name → Option Table
get_table opendir dbpath table =
    new_table opendir (table_name table) (dbpath ++ (47 ∷ table)) (columns_of (table_name table))
