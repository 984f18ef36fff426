-- ===== src/Rle/Direct/RoundTrip.antt =====
-- src/orc/RLE2.cpp: nextDirect reads back a run of packed values.
use tengdb.Common.{ℕ, ◌+◌, ◌≤◌, ◌<◌, ◌^◌, ◌≡◌, arith, Bool, List, ◌∷◌, ◌++◌, map, length}
use tengdb.Common.Memory.{Memory, Holds, Kept}
use tengdb.Common.Run.{ok, ◌>>=◌, next_byte}
use tengdb.ColumnInfo.EncodingInfo.{EncodingInfo, update_encoding_info}
use tengdb.Rle.Direct.{next_direct}
use tengdb.Rle.Header.Fields.{first_byte, second_byte, header_fields}
use tengdb.Rle.Longs.Unpack.{IsPacked, read_longs-packed}
use tengdb.Rle.Word.{convert}
use tengdb.Util.BitWidth.{decode_bit_width, decode_bit_width_bounds}

-- A run of 1 to 512 values of a width that the type has, at positions below 2 ^ 64, with its header before them and anything
-- behind: nextDirect stores the values, decoded if `info` says that they are signed, from `offset`
-- on, changes nothing else in `result`, returns their number, counts the run, and takes no byte
-- more.
pub next_direct-packed :
    (w code : ℕ) (codegen : Bool) (m : Memory) (offset : ℕ) (info : EncodingInfo)
    (xs bytes rest : List ℕ)
    → code < 32
    → decode_bit_width code ≤ w
    → 1 ≤ length xs
    → length xs ≤ 512
    → offset + length xs < 2 ^ 64
    → IsPacked (decode_bit_width code) xs bytes
    → (m' : Memory) × (next_direct w codegen m offset info
          (first_byte 1 code (length xs) ∷ second_byte (length xs) ∷ bytes ++ rest)
        ≡ ok (
          record {
            result = m';
            info = update_encoding_info codegen info (decode_bit_width code) (length xs);
            run_length = length xs;
          },
          rest,
        ))
      × Holds m' offset (map (convert w info.issigned) xs)
      × Kept m m' offset (length xs)
unfolding next_direct next_byte
next_direct-packed w code codegen m offset info xs bytes rest hc narrow lo hi bounded p =
    let (_, width, run) = header_fields 1 code (length xs) (omega arith) hc lo hi in
    let (m', e, holds, kept) =
      read_longs-packed w (decode_bit_width code) (decode_bit_width_bounds code).0 narrow
        info.issigned m offset xs bytes rest p bounded in
    (m', rw (width, run, e, ◌>>=◌, width, run), holds, kept)
