-- ===== src/ColumnInfo/Info.antt =====
-- include/ORCColumnInfo.h, struct ColumnInfo: a column and its statistics.
pub mod RoundTrip
use tengdb.Common.{
  ℕ, zero, suc, ◌+◌, ◌^◌, Bool, true, false, List, [], ◌∷◌, ◌++◌, length, Option, none, some,
}
use tengdb.Common.Memory.{Memory, write_bytes}
use tengdb.Common.Name.{Name}
use tengdb.Common.Run.{Run, ok, fault, outside, Read, ◌>>=◌, pure, stop}
use tengdb.ColumnInfo.Column.{Column, new_column, is_rle_kind, is_rle_type}
use tengdb.ColumnInfo.EncodingInfo.{EncodingInfo}
use tengdb.ColumnInfo.RleInfo.{
  RleInfo, new_rle_info, encode_rle_info, decode_rle_info, finalize_rle_info, merge_rle_info,
  unsign,
}
use tengdb.Util.{TypeKind}
use tengdb.Util.Arrays.{encode_string, decode_string}
use tengdb.Util.Codec.{encode, decode}

-- `none` is NULL.
pub record ColumnInfo : Type 0 where
  pub column : Column
  pub rleinfo : Option RleInfo

-- `(int)kind`
unfoldable pub kind_code : TypeKind → ℕ
kind_code TypeKind.boolean = 0
kind_code TypeKind.byte = 1
kind_code TypeKind.short = 2
kind_code TypeKind.int = 3
kind_code TypeKind.long = 4
kind_code TypeKind.float = 5
kind_code TypeKind.double = 6
kind_code TypeKind.string = 7
kind_code TypeKind.binary = 8
kind_code TypeKind.timestamp = 9
kind_code TypeKind.list = 10
kind_code TypeKind.map = 11
kind_code TypeKind.struct = 12
kind_code TypeKind.union = 13
kind_code TypeKind.decimal = 14
kind_code TypeKind.date = 15
kind_code TypeKind.varchar = 16
kind_code TypeKind.char = 17

-- The kinds in the order of their codes.
unfoldable pub kinds : List TypeKind
kinds =
    TypeKind.boolean ∷ TypeKind.byte ∷ TypeKind.short ∷ TypeKind.int ∷ TypeKind.long
    ∷ TypeKind.float ∷ TypeKind.double ∷ TypeKind.string ∷ TypeKind.binary ∷ TypeKind.timestamp
    ∷ TypeKind.list ∷ TypeKind.map ∷ TypeKind.struct ∷ TypeKind.union ∷ TypeKind.decimal
    ∷ TypeKind.date ∷ TypeKind.varchar ∷ TypeKind.char ∷ []

unfoldable pub kind_at : List TypeKind → ℕ → Read TypeKind
kind_at [] code = stop outside
kind_at (kind ∷ more) zero = pure kind
kind_at (kind ∷ more) (suc code) = kind_at more code

-- A number that is copied over a TypeKind; where it is none, what the code does is undefined.
unfoldable pub kind_of_code : ℕ → Read TypeKind
unfolding kinds
kind_of_code code = kind_at kinds code

-- `column.type==STRING||column.type==VARCHAR`
unfoldable pub is_unsigned_kind : TypeKind → Bool
is_unsigned_kind TypeKind.string = true
is_unsigned_kind TypeKind.varchar = true
is_unsigned_kind _ = false

unfoldable pub init : Column → ColumnInfo
init column = record {
  column = column;
  rleinfo = elim (is_rle_type column) [
    | true ↦
        some (elim (is_unsigned_kind column.type) [
          | true ↦ unsign new_rle_info
          | false ↦ new_rle_info
        ])
    | false ↦ none
  ];
}

-- The constructor of a name and a kind, and the one without arguments.
unfoldable pub new_column_info : Name → TypeKind → ColumnInfo
new_column_info colname kind = init (record { name = colname; type = kind })

unfoldable pub empty_column_info : ColumnInfo
empty_column_info = record { column = new_column; rleinfo = none }

-- `offset += rleinfo->encodeTo(data+offset)` behind the `size` bytes before it.
unfoldable pub encode_statistics : Memory → ℕ → ℕ → ColumnInfo → Run (Memory × ℕ)
encode_statistics m p size info = elim (is_rle_type info.column) [
  | false ↦ ok (m, size)
  | true ↦ elim info.rleinfo [
    | none ↦ fault outside
    | some r ↦ ok (write_bytes m (p + size) (encode_rle_info r), size + length (encode_rle_info r))
  ]
]

-- The bytes that encodeTo writes from `p` on, and the number that it returns.
unfoldable pub encode_column_info : Memory → ℕ → ColumnInfo → Run (Memory × ℕ)
encode_column_info m p info =
    let (m', size) = encode_string m p info.column.name in
    encode_statistics (write_bytes m' (p + size) (encode 4 (kind_code info.column.type))) p
      (size + 4) info

unfoldable pub decode_statistics : (EncodingInfo → ℕ) → ColumnInfo → Read ColumnInfo
decode_statistics beyond info bytes = elim info.rleinfo [
  | none ↦ ok (info, bytes)
  | some r ↦ (do r' ← decode_rle_info beyond r; pure (record info { rleinfo = some r' })) bytes
]

-- What was in the ColumnInfo before is overwritten.
unfoldable pub decode_column_info : (EncodingInfo → ℕ) → Read ColumnInfo
decode_column_info beyond = do
  name ← decode_string
  code ← decode 4
  kind ← kind_of_code code
  decode_statistics beyond (init (record { name = name; type = kind }))

-- A failed assertion, or the statistics of a column that has none, ends the program.
unfoldable pub merge_column_info : ColumnInfo → ColumnInfo → Option ColumnInfo
merge_column_info a b = elim a.rleinfo [
  | none ↦ some a
  | some r ↦ elim b.rleinfo [
    | none ↦ none
    | some r' ↦ elim (merge_rle_info r r') [
      | none ↦ none
      | some merged ↦ some (record a { rleinfo = some merged })
    ]
  ]
]

unfoldable pub finalize_column_info : (EncodingInfo → ℕ) → ColumnInfo → Option ColumnInfo
finalize_column_info beyond info = elim info.rleinfo [
  | none ↦ none
  | some r ↦ some (record info { rleinfo = some (finalize_rle_info beyond r) })
]
