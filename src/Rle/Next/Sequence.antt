-- ===== src/Rle/Next/Sequence.antt =====
-- src/orc/RLE2.cpp: next on direct, repeat and delta runs, end to end.
use tengdb.Common.{
  ℕ, ◌+◌, ◌-◌, ◌*◌, ◌^◌, ◌≤◌, ◌<◌, ◌≡◌, Bool, List, [], ◌∷◌, ◌++◌, map, length, replicate, All,
}
use tengdb.Common.Memory.{Memory, Holds, Kept}
use tengdb.Common.Run.{ok}
use tengdb.Rle.Delta.Loops.{steps, running}
use tengdb.Rle.Delta.RoundTrip.{IsFirstCode, IsSignedCode}
use tengdb.Rle.Header.Fields.{first_byte, second_byte}
use tengdb.Rle.Longs.Unpack.{IsPacked}
use tengdb.Rle.Longs.Window.{IsByte, big}
use tengdb.ColumnInfo.RleInfo.{RleInfo}
use tengdb.Rle.Next.{State, next}
use tengdb.Rle.Next.Deltas.{fixed_delta-IsRun, packed_delta-IsRun}
use tengdb.Rle.Next.RoundTrip.{IsEncoded, nothing, run, next-IsEncoded}
use tengdb.Rle.Next.Runs.{direct-IsRun, repeat-IsRun}
use tengdb.Rle.Repeats.RoundTrip.{repeat_byte}
use tengdb.Rle.Word.{add, is_negative, convert}
use tengdb.Util.BitWidth.{decode_bit_width}

-- The bytes of runs end to end, as the ORC specification lays them out, and their values.
pub data IsRuns (w : ℕ) (issigned : Bool) : List ℕ → List ℕ → Type 0 where
  no_runs : IsRuns w issigned [] []
  direct_run :
      (code : ℕ) (xs bytes more others : List ℕ)
      → code < 32
      → decode_bit_width code ≤ w
      → 1 ≤ length xs
      → length xs ≤ 512
      → IsPacked (decode_bit_width code) xs bytes
      → IsRuns w issigned more others
      → IsRuns w issigned
          (first_byte 1 code (length xs) ∷ (second_byte (length xs) ∷ bytes) ++ more)
          (map (convert w issigned) xs ++ others)
  repeat_run :
      (n : ℕ) (bytes more others : List ℕ)
      → All IsByte bytes
      → 1 ≤ length bytes
      → length bytes ≤ 8
      → length bytes * 8 ≤ w
      → 3 ≤ n
      → n ≤ 10
      → IsRuns w issigned more others
      → IsRuns w issigned
          (repeat_byte (length bytes) n ∷ bytes ++ more)
          (replicate n (convert w issigned (big bytes)) ++ others)
  fixed_run :
      (n first diff : ℕ) (first_code delta_code more others : List ℕ)
      → IsFirstCode w issigned first_code first
      → IsSignedCode w delta_code diff
      → 1 ≤ n
      → n ≤ 512
      → IsRuns w issigned more others
      → IsRuns w issigned
          (first_byte 3 0 n ∷ (second_byte n ∷ first_code ++ (delta_code ++ [])) ++ more)
          ((first ∷ steps w diff (n - 1) first) ++ others)
  packed_run :
      (code first diff : ℕ) (first_code delta_code xs bytes more others : List ℕ)
      → IsFirstCode w issigned first_code first
      → IsSignedCode w delta_code diff
      → 1 ≤ code
      → code < 32
      → decode_bit_width code ≤ w
      → length xs + 2 ≤ 512
      → IsPacked (decode_bit_width code) xs bytes
      → IsRuns w issigned more others
      → IsRuns w issigned
          (first_byte 3 code (length xs + 2)
              ∷ (second_byte (length xs + 2) ∷ first_code ++ (delta_code ++ bytes))
            ++ more)
          ((first ∷ add w first diff ∷ running w (is_negative w diff) (add w first diff) xs)
            ++ others)

module _ (w : ℕ) (issigned codegen : Bool) where
  runs-IsEncoded :
      (bytes values : List ℕ)
      → IsRuns w issigned bytes values
      → IsEncoded w issigned codegen bytes values
  runs-IsEncoded bytes values no_runs = nothing
  runs-IsEncoded bytes values (direct_run code xs packed more others hc narrow lo hi p h) =
      run _ _ _ more others (direct-IsRun w issigned codegen code xs packed hc narrow lo hi p)
        (runs-IsEncoded more others h)
  runs-IsEncoded bytes values (repeat_run n value more others clean lo hi fits few many h) =
      run _ _ _ more others (repeat-IsRun w issigned codegen n value clean lo hi fits few many)
        (runs-IsEncoded more others h)
  runs-IsEncoded bytes values (fixed_run n first diff fc dc more others hf hd lo hi h) =
      run _ _ _ more others (fixed_delta-IsRun w issigned codegen fc dc first diff hf hd n lo hi)
        (runs-IsEncoded more others h)
  runs-IsEncoded bytes values
        (packed_run code first diff fc dc xs packed more others hf hd some_code hc narrow hi p h) =
      run _ _ _ more others
        (packed_delta-IsRun w issigned codegen fc dc first diff hf hd code xs packed some_code hc
          narrow hi p)
        (runs-IsEncoded more others h)

  -- For direct, repeat and delta runs end to end, of fewer than 2 ^ 64 values in all, where the
  -- statistics of the direct encoding agree with the decoder on whether values are signed: next
  -- returns, `result` holds the values of all runs, one after the other, and is unchanged behind
  -- them.
  pub next-IsRuns :
      (m : Memory) (cinfo : RleInfo) (bytes values : List ℕ)
      → IsRuns w issigned bytes values
      → cinfo.direct_info.issigned ≡ issigned
      → length values < 2 ^ 64
      → (s' : State) × (next w issigned codegen m cinfo bytes ≡ ok s')
        × Holds s'.result 0 values
        × Kept m s'.result 0 (length values)
        × (s'.offset ≡ length values)
  next-IsRuns m cinfo bytes values h sign bounded =
      next-IsEncoded w issigned codegen m cinfo bytes values (runs-IsEncoded bytes values h) sign
        bounded
