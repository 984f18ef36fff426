-- ===== src/Rle/Repeats/RoundTrip.antt =====
-- src/orc/RLE2.cpp: nextShortRepeats reads back a repeated value.
use tengdb.Common.{
  ℕ, zero, suc, ◌+◌, ◌-◌, ◌*◌, ◌/◌, ◌^◌, ◌≤◌, ◌≡◌, refl, arith, Bool, List, ◌∷◌, ◌++◌,
}
use tengdb.Common.{bit_and, length, replicate, All}
use tengdb.Common.Bits.{and_mask}
use tengdb.Common.Memory.{Memory, store, Holds, Kept, Kept-store, Holds-store}
use tengdb.Common.Run.{ok, ◌>>=◌, next_byte}
use tengdb.ColumnInfo.EncodingInfo.{EncodingInfo, update_encoding_info}
use tengdb.Rle.Bytes.RoundTrip.{read_long_be-big}
use tengdb.Rle.Longs.Window.{IsByte, big}
use tengdb.Rle.Repeats.{fill, next_short_repeats}
use tengdb.Rle.Word.{convert}

pub fill_lem :
    (n pos value : ℕ) (m : Memory)
    → Holds (fill n pos value m) pos (replicate n value) × Kept m (fill n pos value m) pos n
unfolding fill
fill_lem zero pos value m = (tt, λ j _. refl)
fill_lem (suc n) pos value m =
    let (holds, kept) = fill_lem n (pos + 1) value (store m pos value) in
    (Holds-store m _ pos value n _ kept holds, Kept-store m _ pos value n kept)

-- The byte before the value: its size in bytes less one, and the run's length less three.
abbrev pub repeat_byte : ℕ → ℕ → ℕ
repeat_byte size n = (size - 1) * 8 + (n - 3)

-- A run of 3 to 10 copies of a value that fits the type: nextShortRepeats stores the copies,
-- decoded if the decoder is for signed values, from `offset` on, changes nothing else in `result`,
-- returns their number, counts the run, and takes no byte more.
pub next_short_repeats-big :
    (w n : ℕ) (issigned codegen : Bool) (m : Memory) (offset : ℕ) (info : EncodingInfo)
    (bytes rest : List ℕ)
    → All IsByte bytes
    → 1 ≤ length bytes
    → length bytes ≤ 8
    → length bytes * 8 ≤ w
    → 3 ≤ n
    → n ≤ 10
    → (m' : Memory) × (next_short_repeats w issigned codegen m offset info
          (repeat_byte (length bytes) n ∷ bytes ++ rest)
        ≡ ok (
          record {
            result = m';
            info = update_encoding_info codegen info (length bytes) n;
            run_length = n;
          },
          rest,
        ))
      × Holds m' offset (replicate n (convert w issigned (big bytes)))
      × Kept m m' offset n
unfolding next_short_repeats next_byte
next_short_repeats-big w n issigned codegen m offset info bytes rest clean lo hi fits few many =
    let first = repeat_byte (length bytes) n in
    let size : bit_and (first / 2 ^ 3) 0x07 + 1 ≡ length bytes =
      rw (and_mask 3 (first / 2 ^ 3)) (omega arith) in
    let count : bit_and first 0x07 + 3 ≡ n = rw (and_mask 3 first) (omega arith) in
    let (holds, kept) = fill_lem n offset (convert w issigned (big bytes)) m in
    (
      fill n offset (convert w issigned (big bytes)) m,
      rw (size, read_long_be-big w bytes rest clean fits, ◌>>=◌, size, count),
      holds,
      kept,
    )
