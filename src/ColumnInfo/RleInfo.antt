-- ===== src/ColumnInfo/RleInfo.antt =====
-- include/ORCColumnInfo.h, struct RLEInfo: the statistics of a column, one for each encoding.
pub mod RoundTrip
use tengdb.Common.{ℕ, Bool, false, ltb, List, ◌++◌, Option, none, some}
use tengdb.Common.Run.{Read, ◌>>=◌, pure}
use tengdb.ColumnInfo.EncodingInfo.{EncodingInfo, new_info}
use tengdb.ColumnInfo.EncodingInfo.Codec.{encode_to, decode_from}
use tengdb.ColumnInfo.EncodingInfo.Finalize.{finalize}
use tengdb.ColumnInfo.EncodingInfo.Merge.{merge}

pub record RleInfo : Type 0 where
  pub direct_info : EncodingInfo
  pub repeat_info : EncodingInfo
  pub patched_info : EncodingInfo
  pub delta_info : EncodingInfo

-- The constructor.
unfoldable pub new_rle_info : RleInfo
new_rle_info = record {
  direct_info = new_info;
  repeat_info = new_info;
  patched_info = new_info;
  delta_info = new_info;
}

unfoldable pub has_direct : RleInfo → Bool
has_direct r = ltb 0 r.direct_info.num

unfoldable pub has_repeat : RleInfo → Bool
has_repeat r = ltb 0 r.repeat_info.num

unfoldable pub has_patched : RleInfo → Bool
has_patched r = ltb 0 r.patched_info.num

unfoldable pub has_delta : RleInfo → Bool
has_delta r = ltb 0 r.delta_info.num

unfoldable pub encode_rle_info : RleInfo → List ℕ
encode_rle_info r =
    encode_to r.direct_info
    ++ (encode_to r.repeat_info ++ (encode_to r.patched_info ++ encode_to r.delta_info))

-- `beyond` is what the read behind the array of bit sizes gives for each of the four.
unfoldable pub finalize_rle_info : (EncodingInfo → ℕ) → RleInfo → RleInfo
finalize_rle_info beyond r = record {
  direct_info = finalize (beyond r.direct_info) r.direct_info;
  repeat_info = finalize (beyond r.repeat_info) r.repeat_info;
  patched_info = finalize (beyond r.patched_info) r.patched_info;
  delta_info = finalize (beyond r.delta_info) r.delta_info;
}

unfoldable pub decode_rle_info : (EncodingInfo → ℕ) → RleInfo → Read RleInfo
decode_rle_info beyond r = do
  direct ← decode_from r.direct_info
  repeat ← decode_from r.repeat_info
  patched ← decode_from r.patched_info
  delta ← decode_from r.delta_info
  pure (
      finalize_rle_info beyond (record {
        direct_info = direct;
        repeat_info = repeat;
        patched_info = patched;
        delta_info = delta;
      }))

-- `a` then `k`, unless an assertion failed.
abbrev pub and_then : {A B : Type 0} → Option A → (A → Option B) → Option B
and_then none k = none
and_then (some a) k = k a

unfoldable pub merge_rle_info : RleInfo → RleInfo → Option RleInfo
merge_rle_info a b = and_then (merge a.direct_info b.direct_info) λ direct.
    and_then (merge a.repeat_info b.repeat_info) λ repeat.
      and_then (merge a.delta_info b.delta_info) λ delta.
        and_then (merge a.patched_info b.patched_info) λ patched. some (record {
          direct_info = direct;
          repeat_info = repeat;
          patched_info = patched;
          delta_info = delta;
        })

unfoldable pub unsign_info : EncodingInfo → EncodingInfo
unsign_info info = record info { issigned = false }

unfoldable pub unsign : RleInfo → RleInfo
unsign r = record {
  direct_info = unsign_info r.direct_info;
  repeat_info = unsign_info r.repeat_info;
  patched_info = unsign_info r.patched_info;
  delta_info = unsign_info r.delta_info;
}
