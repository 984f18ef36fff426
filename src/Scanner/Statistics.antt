-- ===== src/Scanner/Statistics.antt =====
-- src/exec/ORCScanner.cpp, the destructor: the statistics of all scanners of a table are merged, and
-- the last scanner hands them to the generator of functions.
pub mod Generation
use tengdb.Common.{ℕ, ◌+◌, leb, Bool, true, false, List, [], ◌∷◌, ◌++◌, Option, none, some}
use tengdb.Common.{if◌then◌else◌}
use tengdb.Common.Int.{ℤ, pos, same_int}
use tengdb.Common.Memory.{Memory, bytes_at}
use tengdb.Common.Name.{Name, Dict, same_name}
use tengdb.Common.Run.{Run, ok, fault, outside, corrupt, Read, ◌>>>◌}
use tengdb.ColumnInfo.Column.{Column}
use tengdb.ColumnInfo.EncodingInfo.{EncodingInfo}
use tengdb.ColumnInfo.Info.{ColumnInfo, encode_column_info, decode_column_info, merge_column_info}
use tengdb.Scanner.Batch.{followed}
use tengdb.Scanner.Batches.{OrcScanner, is_counted}
use tengdb.Scanner.Columns.{NextFunc}
use tengdb.Table.Access.{Table, unreg}

-- `colinfos_global`, which all scanners share.
abbrev pub Globals : Type 0
Globals = List (Name × ColumnInfo)

unfoldable pub global_of : Globals → Dict ColumnInfo
global_of [] name = none
global_of ((key, info) ∷ globals) name = elim (same_name key name) [
  | true ↦ some info
  | false ↦ global_of globals name
]

unfoldable pub put_global : Globals → Name → ColumnInfo → Globals
put_global [] name info = (name, info) ∷ []
put_global ((key, old) ∷ globals) name info = elim (same_name key name) [
  | true ↦ (key, info) ∷ globals
  | false ↦ (key, old) ∷ put_global globals name info
]

-- The first scanner's statistics are copied, pointers to the counters and all; the local ones are
-- not used any more.
unfoldable pub copy_globals : Dict NextFunc → Dict ColumnInfo → List Column → Globals → Run Globals
copy_globals functions colinfos [] globals = ok globals
copy_globals functions colinfos (col ∷ columns) globals = elim (is_counted functions col) [
  | false ↦ copy_globals functions colinfos columns globals
  | true ↦ followed (colinfos col.name) >>> λ local.
      copy_globals functions colinfos columns (put_global globals col.name local)
]

-- `none` of a merge is a failed assertion.
unfoldable pub asserted : {A : Type 0} → Option A → Run A
asserted none = fault corrupt
asserted (some a) = ok a

unfoldable pub merge_globals : Dict NextFunc → Dict ColumnInfo → List Column → Globals → Run Globals
merge_globals functions colinfos [] globals = ok globals
merge_globals functions colinfos (col ∷ columns) globals = elim (is_counted functions col) [
  | false ↦ merge_globals functions colinfos columns globals
  | true ↦ followed (colinfos col.name) >>> λ local.
      followed (global_of globals col.name) >>> λ global.
      asserted (merge_column_info global local) >>> λ merged.
      merge_globals functions colinfos columns (put_global globals col.name merged)
]

-- What happens under the lock.
unfoldable pub share :
    Option (Dict NextFunc) → Dict ColumnInfo → List Column → Globals → Run Globals
share none colinfos columns globals = ok globals
share (some functions) colinfos columns [] = copy_globals functions colinfos columns []
share (some functions) colinfos columns (first ∷ globals) =
    merge_globals functions colinfos columns (first ∷ globals)

-- The size of `buf`.
abbrev pub buf_size : ℕ
buf_size = 100000

-- `offset += colinfo->encodeTo(buf+offset);` for the columns that are counted.
unfoldable pub encode_globals :
    Dict NextFunc → Dict ColumnInfo → List Column → Memory → ℕ → Run Memory
encode_globals functions globals [] m offset = ok m
encode_globals functions globals (col ∷ columns) m offset = elim (is_counted functions col) [
  | false ↦ encode_globals functions globals columns m offset
  | true ↦ followed (globals col.name) >>> λ info.
      encode_column_info m offset info >>> λ (m', size). elim (leb (offset + size) buf_size) [
        | true ↦ encode_globals functions globals columns m' (offset + size)
        | false ↦ fault outside
      ]
]

-- `offset += tmpinfo->decodeFrom(buf+offset);` for every column; a function is generated for those
-- that are counted.
unfoldable pub decode_globals :
    (EncodingInfo → ℕ) → Dict NextFunc → List Column → List ℕ → Run (List ColumnInfo)
decode_globals beyond functions [] bytes = ok []
decode_globals beyond functions (col ∷ columns) bytes =
    decode_column_info beyond bytes >>> λ (info, rest).
    decode_globals beyond functions columns rest >>> λ infos.
    ok (if is_counted functions col then info ∷ infos else infos)

-- The statistics that functions are generated for. `m` is what `buf` happens to hold.
unfoldable pub generate :
    (EncodingInfo → ℕ)
    → Memory
    → Dict NextFunc
    → Dict ColumnInfo
    → List Column
    → Run (List ColumnInfo)
generate beyond m functions globals columns = encode_globals functions globals columns m 0 >>> λ m'.
    decode_globals beyond functions columns (bytes_at m' 0 buf_size)

-- `if(FLAGS_codegen)`; without a code generator its pointer is followed all the same.
unfoldable pub generate_if :
    Bool
    → (EncodingInfo → ℕ)
    → Memory
    → Option (Dict NextFunc)
    → Dict ColumnInfo
    → List Column
    → Run (List ColumnInfo)
generate_if false beyond m gen globals columns = ok []
generate_if true beyond m gen globals columns =
    followed gen >>> λ functions. generate beyond m functions globals columns

-- The new globals, the table, and what functions are generated for.
unfoldable pub destroy :
    Bool
    → (EncodingInfo → ℕ)
    → Memory
    → OrcScanner
    → Globals
    → Run (Globals × Table × List ColumnInfo)
destroy codegen beyond m s globals =
    share s.work.gen s.work.colinfos s.columns globals >>> λ globals'.
    let (id, table) = unreg s.table in
    elim (same_int id (pos 0)) [
      | false ↦ ok (globals', table, [])
      | true ↦ generate_if codegen beyond m s.work.gen (global_of globals') s.columns >>> λ infos.
          ok ([], table, infos)
    ]
