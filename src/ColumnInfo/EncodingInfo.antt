-- ===== src/ColumnInfo/EncodingInfo.antt =====
-- include/ORCColumnInfo.h, struct EncodingInfo: how often a run had each width and each length.
pub mod Codec
pub mod RoundTrip
pub mod Merge
pub mod Counts
pub mod Finalize
use tengdb.Common.{ℕ, ◌+◌, ◌%◌, ◌^◌, Bool, true, false, List, replicate, get_or, set}
use tengdb.Common.{if◌then◌else◌}

-- The counters are `int`, kept as their 32 bits. The percentages are floats that only `toString`
-- shows, and are left out.
pub record EncodingInfo : Type 0 where
  pub finalized : Bool
  pub bitsize : List ℕ
  pub run_length : List ℕ
  pub top_bit_size : List ℕ
  pub top_run_length : List ℕ
  pub maxbitsize : ℕ
  pub issigned : Bool
  pub num : ℕ
  pub total_run_length : ℕ

-- The constructor; topBitSize and topRunLength, which it leaves as they are, stand as zeros here.
unfoldable pub new_info : EncodingInfo
new_info = record {
  finalized = false;
  bitsize = replicate 65 0;
  run_length = replicate 513 0;
  top_bit_size = replicate 65 0;
  top_run_length = replicate 513 0;
  maxbitsize = 0;
  issigned = true;
  num = 0;
  total_run_length = 0;
}

-- `list[i] += v` on an `int` array. No decoder counts a run wider than 64 bits or longer than 512
-- values, so that `i` is an index of the array.
unfoldable pub bump : List ℕ → ℕ → ℕ → List ℕ
bump list i v = set list i ((get_or list i 0 + v) % 2 ^ 32)

-- src/orc/RLE2.cpp, updateEncodingInfo; the first argument is FLAGS_codegen.
unfoldable pub update_encoding_info : Bool → EncodingInfo → ℕ → ℕ → EncodingInfo
unfolding bump
update_encoding_info codegen info bsize runlength =
    if codegen
    then record info {
      bitsize = bump info.bitsize bsize 1;
      run_length = bump info.run_length runlength runlength;
      num = (info.num + 1) % 2 ^ 64;
      total_run_length = (info.total_run_length + runlength) % 2 ^ 64;
    }
    else info
