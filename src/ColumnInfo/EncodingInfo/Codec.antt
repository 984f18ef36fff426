-- ===== src/ColumnInfo/EncodingInfo/Codec.antt =====
-- include/ORCColumnInfo.h: encodeTo and decodeFrom of struct EncodingInfo.
use tengdb.Common.{ℕ, zero, suc, ◌+◌, ◌%◌, true, false, ltb, ◌==◌, not}
use tengdb.Common.{List, [], ◌∷◌, ◌++◌, length, set, if◌then◌else◌}
use tengdb.Common.Run.{Read, ok, fault, stuck, outside, ◌>>=◌, pure}
use tengdb.ColumnInfo.EncodingInfo.{EncodingInfo}
use tengdb.Util.Codec.{encode, decode}

-- The `int` -1.
abbrev pub end_mark : ℕ
end_mark = 0xffffffff

-- `if(list[i]!=0){ Encode(i); Encode(list[i]); }` from `i` on.
unfoldable pub encode_pairs : ℕ → List ℕ → List ℕ
encode_pairs i [] = []
encode_pairs i (v ∷ vs) =
    let rest = encode_pairs (i + 1) vs in
    if v == 0 then rest else encode 4 i ++ (encode 4 v ++ rest)

unfoldable pub encode_lists : EncodingInfo → List ℕ
encode_lists info =
    encode_pairs 0 info.bitsize
    ++ (encode 4 end_mark ++ (encode_pairs 0 info.run_length ++ encode 4 end_mark))

-- The bytes that encodeTo writes; it returns their number.
unfoldable pub encode_to : EncodingInfo → List ℕ
encode_to info =
    encode 4 (if info.issigned then 1 else 0)
    ++ (encode 8 info.num
        ++ (encode 8 info.total_run_length ++ (if info.num == 0 then [] else encode_lists info)))

-- `list[loc] = v`
unfoldable pub put_at : List ℕ → ℕ → ℕ → Read (List ℕ)
put_at list loc v bytes = elim (ltb loc (length list)) [
  | true ↦ ok (set list loc v, bytes)
  | false ↦ fault outside
]

-- `while(true){ Decode(&loc); if(loc==-1) break; Decode(&v); list[loc] = v; }`
unfoldable pub decode_loop : ℕ → List ℕ → Read (List ℕ)
decode_loop zero list bytes = fault stuck
decode_loop (suc fuel) list bytes = elim (decode 4 bytes) [
  | fault e ↦ fault e
  | ok (loc, bytes') ↦ elim (loc == end_mark) [
    | true ↦ ok (list, bytes')
    | false ↦ (do v ← decode 4; list' ← put_at list loc v; decode_loop fuel list') bytes'
  ]
]

-- A round takes four bytes at least.
unfoldable pub decode_pairs : List ℕ → Read (List ℕ)
decode_pairs list bytes = decode_loop (suc (length bytes)) list bytes

unfoldable pub decode_lists : EncodingInfo → Read EncodingInfo
decode_lists info = do
  bitsize ← decode_pairs info.bitsize
  run_length ← decode_pairs info.run_length
  pure (record info { bitsize = bitsize; run_length = run_length })

unfoldable pub decode_counts : EncodingInfo → Read EncodingInfo
decode_counts info bytes = elim (info.num == 0) [
  | true ↦ ok (info, bytes)
  | false ↦ decode_lists info bytes
]

-- `issigned` is the lowest of the four bytes that are copied over it.
unfoldable pub decode_from : EncodingInfo → Read EncodingInfo
decode_from info = do
  sign ← decode 4
  num ← decode 8
  total ← decode 8
  decode_counts
      (record info { issigned = not (sign % 256 == 0); num = num; total_run_length = total })
