-- ===== src/ColumnInfo/Column.antt =====
-- include/ORCColumnInfo.h, struct Column.
use tengdb.Common.{Bool, true, false, []}
use tengdb.Common.Name.{Name}
use tengdb.Util.{TypeKind}

pub record Column : Type 0 where
  pub name : Name
  pub type : TypeKind

-- The constructor without arguments.
unfoldable pub new_column : Column
new_column = record { name = []; type = TypeKind.int }

-- `type!=DOUBLE&&type!=FLOAT`
unfoldable pub is_rle_kind : TypeKind → Bool
is_rle_kind TypeKind.double = false
is_rle_kind TypeKind.float = false
is_rle_kind _ = true

unfoldable pub is_rle_type : Column → Bool
is_rle_type column = is_rle_kind column.type
