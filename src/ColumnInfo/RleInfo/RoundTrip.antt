-- ===== src/ColumnInfo/RleInfo/RoundTrip.antt =====
-- include/ORCColumnInfo.h, struct RLEInfo: decodeFrom reads what encodeTo wrote.
use tengdb.Common.{ℕ, ◌≡◌, refl, List, ◌++◌}
use tengdb.Common.Run.{ok, ◌>>=◌}
use tengdb.ColumnInfo.EncodingInfo.{EncodingInfo}
use tengdb.ColumnInfo.EncodingInfo.Codec.{encode_to, decode_from}
use tengdb.ColumnInfo.EncodingInfo.RoundTrip.{IsCounts, decoded, decode_from-encode_to}
use tengdb.ColumnInfo.RleInfo.{
  RleInfo, new_rle_info, encode_rle_info, finalize_rle_info, decode_rle_info, unsign, unsign_info,
}
use mathlib.Core.List.{append_assoc}

-- Each of the four has the counters that encodeTo and decodeFrom rely on.
pub record IsCounted (r : RleInfo) : Type 0 where
  pub direct_counts : IsCounts r.direct_info
  pub repeat_counts : IsCounts r.repeat_info
  pub patched_counts : IsCounts r.patched_info
  pub delta_counts : IsCounts r.delta_info

-- The counters of each of the four, but not what finalize computed.
abbrev pub decoded_rle_info : RleInfo → RleInfo
decoded_rle_info r = record {
  direct_info = decoded r.direct_info;
  repeat_info = decoded r.repeat_info;
  patched_info = decoded r.patched_info;
  delta_info = decoded r.delta_info;
}

-- Four statistics are decoded, and finalized, as they were encoded, and what follows is left.
-- Each of the four is well formed, as counting leaves it.
pub decode_rle_info-encode_rle_info :
    (beyond : EncodingInfo → ℕ) (r : RleInfo) (rest : List ℕ)
    → IsCounted r
    → decode_rle_info beyond new_rle_info (encode_rle_info r ++ rest)
      ≡ ok (finalize_rle_info beyond (decoded_rle_info r), rest)
unfolding decode_rle_info encode_rle_info new_rle_info
decode_rle_info-encode_rle_info beyond r rest h =
    let direct = encode_to r.direct_info in
    let repeat = encode_to r.repeat_info in
    let patched = encode_to r.patched_info in
    let delta = encode_to r.delta_info in
    rw (
      append_assoc direct (repeat ++ (patched ++ delta)) rest,
      append_assoc repeat (patched ++ delta) rest,
      append_assoc patched delta rest,
      decode_from-encode_to r.direct_info (repeat ++ (patched ++ (delta ++ rest))) h.direct_counts,
      ◌>>=◌,
      decode_from-encode_to r.repeat_info (patched ++ (delta ++ rest)) h.repeat_counts,
      ◌>>=◌,
      decode_from-encode_to r.patched_info (delta ++ rest) h.patched_counts,
      ◌>>=◌,
      decode_from-encode_to r.delta_info rest h.delta_counts,
      ◌>>=◌,
    )

-- decodeFrom overwrites the signs, so that it does not matter whether unsign ran before.
pub decode_rle_info-unsign :
    (beyond : EncodingInfo → ℕ) (bytes : List ℕ)
    → decode_rle_info beyond (unsign new_rle_info) bytes ≡ decode_rle_info beyond new_rle_info bytes
unfolding decode_rle_info unsign unsign_info new_rle_info decode_from
decode_rle_info-unsign beyond bytes = refl
