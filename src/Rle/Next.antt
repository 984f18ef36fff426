-- ===== src/Rle/Next.antt =====
-- src/orc/RLE2.cpp: next.
pub mod Total
pub mod RoundTrip
pub mod Runs
pub mod Deltas
pub mod Sequence
use tengdb.Common.{ℕ, zero, suc, ◌+◌, ◌==◌, List, [], ◌∷◌, Bool, true, false, if◌then◌else◌, length}
use tengdb.Common.Memory.{Memory}
use tengdb.Common.Run.{Run, Read, ok, fault, stuck, ◌>>=◌, pure}
use tengdb.ColumnInfo.EncodingInfo.{EncodingInfo}
use tengdb.ColumnInfo.RleInfo.{RleInfo}
use tengdb.Rle.Delta.{next_delta}
use tengdb.Rle.Direct.{Decoded, next_direct}
use tengdb.Rle.Header.{encoding_field}
use tengdb.Rle.Patched.{next_patched}
use tengdb.Rle.Repeats.{next_short_repeats}

pub data EncodingType : Type 0 where
  short_repeat direct patched_base delta : EncodingType

-- `static_cast<EncodingType>((firstByte >> 6) & 0x03)`
unfoldable pub encoding_of : ℕ → EncodingType
encoding_of first =
    let field = encoding_field first in
    if field == 0
    then short_repeat
    else if field == 1
    then direct
    else if field == 2
    then patched_base
    else delta

-- `result`, `offset` and `*cinfo`.
pub record State : Type 0 where
  pub result : Memory
  pub offset : ℕ
  pub cinfo : RleInfo

-- `offset += nextX(result, offset, cinfo->xInfo)`
unfoldable pub finish_run : State → (EncodingInfo → RleInfo) → Decoded → State
finish_run s put d = record {
  result = d.result;
  offset = s.offset + d.run_length;
  cinfo = put d.info;
}

-- One case of the switch.
unfoldable pub next_run : ℕ → Bool → Bool → EncodingType → State → Read State
next_run w issigned codegen short_repeat s = do
  d ← next_short_repeats w issigned codegen s.result s.offset s.cinfo.repeat_info
  pure (finish_run s (λ i. record (s.cinfo) { repeat_info = i }) d)
next_run w issigned codegen direct s = do
  d ← next_direct w codegen s.result s.offset s.cinfo.direct_info
  pure (finish_run s (λ i. record (s.cinfo) { direct_info = i }) d)
next_run w issigned codegen patched_base s = do
  d ← next_patched w codegen s.result s.offset s.cinfo.patched_info
  pure (finish_run s (λ i. record (s.cinfo) { patched_info = i }) d)
next_run w issigned codegen delta s = do
  d ← next_delta w issigned codegen s.result s.offset s.cinfo.delta_info
  pure (finish_run s (λ i. record (s.cinfo) { delta_info = i }) d)

-- `while (index < datasize)`; the bytes are those below `datasize`.
unfoldable pub next_loop : ℕ → ℕ → Bool → Bool → State → List ℕ → Run State
next_loop fuel w issigned codegen s [] = ok s
next_loop zero w issigned codegen s (b ∷ bytes) = fault stuck
next_loop (suc fuel) w issigned codegen s (b ∷ bytes) =
    elim (next_run w issigned codegen (encoding_of b) s (b ∷ bytes)) [
      | ok (s', rest) ↦ next_loop fuel w issigned codegen s' rest
      | fault e ↦ fault e
    ]

-- Each run takes a byte at least, so as many rounds as there are bytes are enough.
unfoldable pub next : ℕ → Bool → Bool → Memory → RleInfo → List ℕ → Run State
next w issigned codegen result cinfo bytes =
    next_loop (length bytes) w issigned codegen
      (record { result = result; offset = 0; cinfo = cinfo }) bytes
