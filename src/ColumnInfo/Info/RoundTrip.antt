-- ===== src/ColumnInfo/Info/RoundTrip.antt =====
-- include/ORCColumnInfo.h, struct ColumnInfo: decodeFrom reads what encodeTo wrote.
use tengdb.Common.{
  ℕ, ◌+◌, ◌^◌, ◌≤◌, ◌<◌, ◌≡◌, refl, ap, ◌∙◌, arith, true, false, Bool-cases, ◌⊎◌, inl, inr,
}
use mathlib.Core.Path.{subst, sym}
use tengdb.Common.{List, [], ◌++◌, length, length-append, Option, none, some, max}
use tengdb.Common.Memory.{
  Memory, Holds, Kept, Wrote, Wrote-append, write_bytes, write_bytes_lem, bytes_at, Holds-bytes_at,
  Holds-append, Holds-Kept, Kept-widen,
}
use tengdb.Common.Run.{ok, ◌>>=◌}
use tengdb.ColumnInfo.Column.{Column, is_rle_type}
use tengdb.ColumnInfo.EncodingInfo.{EncodingInfo}
use tengdb.ColumnInfo.Info.{
  ColumnInfo, kind_code, kinds, kind_at, kind_of_code, is_unsigned_kind, init, encode_statistics,
  encode_column_info, decode_statistics, decode_column_info,
}
use tengdb.ColumnInfo.RleInfo.{RleInfo, encode_rle_info, finalize_rle_info}
use tengdb.ColumnInfo.RleInfo.RoundTrip.{
  IsCounted, decoded_rle_info, decode_rle_info-encode_rle_info, decode_rle_info-unsign,
}
use tengdb.Util.{TypeKind}
use tengdb.Util.Arrays.{encode_string, string_bytes, encode_string_lem, decode-string_bytes}
use tengdb.Util.Codec.{encode, length-encode, decode-encode}
use mathlib.Core.List.{append_assoc, append-nil}

-- The name's length fits an `int`, and the statistics are there where the column's kind has them.
pub record IsComplete (info : ColumnInfo) : Type 0 where
  pub name_fits : length info.column.name < 2 ^ 31
  pub statistics :
      ((is_rle_type info.column ≡ false) × (info.rleinfo ≡ none))
      ⊎ ((r : RleInfo) × (is_rle_type info.column ≡ true) × (info.rleinfo ≡ some r) × IsCounted r)

abbrev pub statistics_bytes : Option RleInfo → List ℕ
statistics_bytes none = []
statistics_bytes (some r) = encode_rle_info r

abbrev pub column_bytes : ColumnInfo → List ℕ
column_bytes info =
    string_bytes info.column.name
    ++ (encode 4 (kind_code info.column.type) ++ statistics_bytes info.rleinfo)

-- The column, and the counters of its statistics, finalized.
abbrev pub decoded_statistics : (EncodingInfo → ℕ) → Option RleInfo → Option RleInfo
decoded_statistics beyond none = none
decoded_statistics beyond (some r) = some (finalize_rle_info beyond (decoded_rle_info r))

abbrev pub decoded_column_info : (EncodingInfo → ℕ) → ColumnInfo → ColumnInfo
decoded_column_info beyond info = record {
  column = info.column;
  rleinfo = decoded_statistics beyond info.rleinfo;
}

kind_lem :
    (kind : TypeKind) (bytes : List ℕ) → kind_of_code (kind_code kind) bytes ≡ ok (kind, bytes)
unfolding kind_code kind_at kinds kind_of_code
kind_lem TypeKind.boolean bytes = refl
kind_lem TypeKind.byte bytes = refl
kind_lem TypeKind.short bytes = refl
kind_lem TypeKind.int bytes = refl
kind_lem TypeKind.long bytes = refl
kind_lem TypeKind.float bytes = refl
kind_lem TypeKind.double bytes = refl
kind_lem TypeKind.string bytes = refl
kind_lem TypeKind.binary bytes = refl
kind_lem TypeKind.timestamp bytes = refl
kind_lem TypeKind.list bytes = refl
kind_lem TypeKind.map bytes = refl
kind_lem TypeKind.struct bytes = refl
kind_lem TypeKind.union bytes = refl
kind_lem TypeKind.decimal bytes = refl
kind_lem TypeKind.date bytes = refl
kind_lem TypeKind.varchar bytes = refl
kind_lem TypeKind.char bytes = refl

kind_fits : (kind : TypeKind) → kind_code kind < 256 ^ 4
unfolding kind_code
kind_fits TypeKind.boolean = omega arith
kind_fits TypeKind.byte = omega arith
kind_fits TypeKind.short = omega arith
kind_fits TypeKind.int = omega arith
kind_fits TypeKind.long = omega arith
kind_fits TypeKind.float = omega arith
kind_fits TypeKind.double = omega arith
kind_fits TypeKind.string = omega arith
kind_fits TypeKind.binary = omega arith
kind_fits TypeKind.timestamp = omega arith
kind_fits TypeKind.list = omega arith
kind_fits TypeKind.map = omega arith
kind_fits TypeKind.struct = omega arith
kind_fits TypeKind.union = omega arith
kind_fits TypeKind.decimal = omega arith
kind_fits TypeKind.date = omega arith
kind_fits TypeKind.varchar = omega arith
kind_fits TypeKind.char = omega arith

-- A string and the four bytes behind it: the eight bytes of the size never reach further.
header_lem :
    (m : Memory) (p : ℕ) (name : List ℕ) (code : ℕ)
    → let (m', size) = encode_string m p name in
      (size ≡ 4 + length name)
      × Wrote m (write_bytes m' (p + size) (encode 4 code)) p (string_bytes name ++ encode 4 code)
unfolding encode_string
header_lem m p name code =
    let (m', size) = encode_string m p name in
    let string = string_bytes name in
    let type = encode 4 code in
    let m'' = write_bytes m' (p + (4 + length name)) type in
    let long : length string ≡ 4 + length name =
      length-append (encode 4 (length name)) name
      ∙ ap (λ (n : ℕ). n + length name) (length-encode 4 (length name)) in
    let short = length-encode 4 code in
    let whole = length-append string type in
    let (chars, kept) = encode_string_lem m p name in
    let (number, kept') = write_bytes_lem m' (p + (4 + length name)) type in
    let far : p + length string ≤ p + (4 + length name) = omega (arith, long) in
    let at : p + (4 + length name) ≡ p + length string = omega (arith, long) in
    let number' : Holds m'' (p + length string) type =
      subst (λ (q : ℕ). Holds m'' q type) at number in
    (
      refl,
      (
        Holds-append m'' p string type
            (Holds-Kept m' m'' p (p + (4 + length name)) (length type) string kept' (inl far) chars)
            number',
        λ j out.
            Kept-widen m' m'' (p + (4 + length name)) (length type) p (length (string ++ type))
              (omega arith) (omega (arith, long, short, whole)) kept' j out
            ∙ Kept-widen m m' p (max 8 (4 + length name)) p (length (string ++ type)) (omega arith)
                (omega (arith, long, short, whole)) kept j out,
      ),
    )

-- The statistics that a column has are written behind what stands before them.
statistics_lem :
    (m m' : Memory) (p : ℕ) (before : List ℕ) (info : ColumnInfo)
    → IsComplete info
    → Wrote m m' p before
    → (m'' : Memory) × (encode_statistics m' p (length before) info
        ≡ ok (m'', length (before ++ statistics_bytes info.rleinfo)))
      × Wrote m m'' p (before ++ statistics_bytes info.rleinfo)
unfolding encode_statistics
statistics_lem m m' p before info h wrote = elim h.statistics [
  | inl (plain, absent) ↦ (
    m',
    rw (plain, encode_statistics, absent, append-nil before),
    rw (absent, append-nil before) wrote,
  )
  | inr (r, rle, present, counted) ↦
      let bytes = encode_rle_info r in
      let m'' = write_bytes m' (p + length before) bytes in
      (
        m'',
        rw (rle, encode_statistics, present)
            (ap (λ (n : ℕ). ok (m'', n)) (sym (length-append before bytes))),
        rw present (
            Wrote-append m m' m'' p before bytes wrote
              (write_bytes_lem m' (p + length before) bytes)),
      )
]

-- encodeTo writes these bytes and nothing else, and returns their number.
pub encode_column_info-Wrote :
    (m : Memory) (p : ℕ) (info : ColumnInfo)
    → IsComplete info
    → (m' : Memory) × (encode_column_info m p info ≡ ok (m', length (column_bytes info)))
      × Wrote m m' p (column_bytes info)
unfolding encode_column_info
encode_column_info-Wrote m p info h =
    let name = info.column.name in
    let type = encode 4 (kind_code info.column.type) in
    let (m', size) = encode_string m p name in
    let m₁ = write_bytes m' (p + size) type in
    let (size_lem, wrote) = header_lem m p name (kind_code info.column.type) in
    let before = string_bytes name ++ type in
    let long : length before ≡ size + 4 =
      length-append (string_bytes name) type
      ∙ omega (
        arith,
        size_lem,
        length-encode 4 (kind_code info.column.type),
        length-encode 4 (length name),
        length-append (encode 4 (length name)) name,
      ) in
    let (m'', written, wrote') = statistics_lem m m₁ p before info h wrote in
    let join = append_assoc (string_bytes name) type (statistics_bytes info.rleinfo) in
    (
      m'',
      ap (λ (n : ℕ). encode_statistics m₁ p n info) (sym long)
          ∙ written
          ∙ ap (λ (bytes : List ℕ). ok (m'', length bytes)) join,
      subst (λ (bytes : List ℕ). Wrote m m'' p bytes) join wrote',
    )

init_plain :
    (column : Column)
    → is_rle_type column ≡ false
    → init column ≡ record { column = column; rleinfo = none }
unfolding init
init_plain column plain = rw (plain, init)

decode_statistics_lem :
    (beyond : EncodingInfo → ℕ) (info : ColumnInfo) (rest : List ℕ)
    → IsComplete info
    → decode_statistics beyond (init info.column) (statistics_bytes info.rleinfo ++ rest)
      ≡ ok (decoded_column_info beyond info, rest)
unfolding decode_statistics init
decode_statistics_lem beyond info rest h = elim h.statistics [
  | inl (plain, absent) ↦
      rw absent
        (ap (λ (i : ColumnInfo). decode_statistics beyond i rest) (init_plain info.column plain))
  | inr (r, rle, present, counted) ↦
      let decodes = decode_rle_info-encode_rle_info beyond r rest counted in
      elim (Bool-cases (is_unsigned_kind info.column.type)) [
        | inl e ↦ rw (
          rle,
          init,
          decode_statistics,
          e,
          present,
          decode_rle_info-unsign beyond (encode_rle_info r ++ rest),
          decodes,
          ◌>>=◌,
        )
        | inr e ↦ rw (rle, init, decode_statistics, e, present, decodes, ◌>>=◌)
      ]
]

-- The bytes of a column are read back, and what follows is left.
pub decode-column_bytes :
    (beyond : EncodingInfo → ℕ) (info : ColumnInfo) (rest : List ℕ)
    → IsComplete info
    → decode_column_info beyond (column_bytes info ++ rest)
      ≡ ok (decoded_column_info beyond info, rest)
unfolding decode_column_info
decode-column_bytes beyond info rest h =
    let name = info.column.name in
    let code = kind_code info.column.type in
    let more = statistics_bytes info.rleinfo in
    rw
      (
        append_assoc (string_bytes name) (encode 4 code ++ more) rest,
        decode-string_bytes name ((encode 4 code ++ more) ++ rest) h.name_fits,
        ◌>>=◌,
        append_assoc (encode 4 code) more rest,
        decode-encode 4 code (more ++ rest) (kind_fits info.column.type),
        ◌>>=◌,
        kind_lem info.column.type (more ++ rest),
        ◌>>=◌,
      )
      (decode_statistics_lem beyond info rest h)

-- What encodeTo writes for a column, decodeFrom reads back from the same place, its statistics
-- finalized, whatever follows in memory; the bytes it moves on by are those that encodeTo returns,
-- and no other byte of the memory changes. The length of the name has to fit an `int`, the counters
-- their types, and the statistics have to be there where the column's kind has them.
pub decode_column_info-encode_column_info :
    (beyond : EncodingInfo → ℕ) (m : Memory) (p k : ℕ) (info : ColumnInfo)
    → IsComplete info
    → (m' : Memory) × (size : ℕ) × (encode_column_info m p info ≡ ok (m', size))
      × Kept m m' p size
      × (decode_column_info beyond (bytes_at m' p (size + k))
          ≡ ok (decoded_column_info beyond info, bytes_at m' (p + size) k))
decode_column_info-encode_column_info beyond m p k info h =
    let (m', written, (holds, kept)) = encode_column_info-Wrote m p info h in
    let bytes = column_bytes info in
    let behind = bytes_at m' (p + length bytes) k in
    (
      m',
      length bytes,
      written,
      kept,
      ap (decode_column_info beyond) (Holds-bytes_at m' p bytes k holds)
          ∙ decode-column_bytes beyond info behind h,
    )
