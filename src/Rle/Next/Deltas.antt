-- ===== src/Rle/Next/Deltas.antt =====
-- src/orc/RLE2.cpp: the delta runs that next takes apart.
use tengdb.Common.{ℕ, suc, ◌+◌, ◌-◌, ◌≤◌, ◌<◌, ◌≡◌, refl, arith, Bool, List, [], ◌∷◌, ◌++◌, length}
use tengdb.Common.Run.{ok, ◌>>=◌}
use tengdb.ColumnInfo.EncodingInfo.{update_encoding_info}
use tengdb.Rle.Delta.{next_delta}
use tengdb.Rle.Delta.Loops.{steps, running, length-steps, length-running}
use tengdb.Rle.Delta.RoundTrip.{
  IsFirstCode, IsSignedCode, delta_run, next_delta-fixed, next_delta-packed,
}
use tengdb.Rle.Direct.{Decoded}
use tengdb.Rle.Header.Fields.{first_byte, second_byte, header_fields}
use tengdb.Rle.Longs.Unpack.{IsPacked}
use tengdb.Rle.Next.{delta, State, finish_run, next_run}
use tengdb.Rle.Next.RoundTrip.{IsRun}
use tengdb.Rle.Next.Runs.{encoding_delta}
use tengdb.Rle.Word.{add, is_negative}
use tengdb.Util.BitWidth.{decode_bit_width}
use mathlib.Core.List.{append_assoc}

delta_case :
    (w : ℕ) (issigned codegen : Bool) (s : State) (bytes rest : List ℕ) (d : Decoded)
    → next_delta w issigned codegen s.result s.offset s.cinfo.delta_info bytes ≡ ok (d, rest)
    → next_run w issigned codegen delta s bytes
      ≡ ok (finish_run s (λ i. record (s.cinfo) { delta_info = i }) d, rest)
unfolding next_run
delta_case w issigned codegen s bytes rest d e = rw (e, ◌>>=◌)

delta_bytes :
    (code n : ℕ) (first_code delta_code bytes rest : List ℕ)
    → first_byte 3 code n ∷ (second_byte n ∷ first_code ++ (delta_code ++ bytes)) ++ rest
      ≡ delta_run code n first_code delta_code (bytes ++ rest)
delta_bytes code n first_code delta_code bytes rest =
    rw (append_assoc first_code (delta_code ++ bytes) rest, append_assoc delta_code bytes rest)

module _ (w : ℕ) (issigned codegen : Bool) (first_code delta_code : List ℕ) (first diff : ℕ)
    (first_ok : IsFirstCode w issigned first_code first)
    (delta_ok : IsSignedCode w delta_code diff) where
  -- A delta run with a width, of 2 to 512 values.
  pub packed_delta-IsRun :
      (code : ℕ) (xs bytes : List ℕ)
      → 1 ≤ code
      → code < 32
      → decode_bit_width code ≤ w
      → length xs + 2 ≤ 512
      → IsPacked (decode_bit_width code) xs bytes
      → let n = length xs + 2 in
        let second = add w first diff in
        IsRun w issigned codegen
          (first_byte 3 code n)
          (second_byte n ∷ first_code ++ (delta_code ++ bytes))
          (first ∷ second ∷ running w (is_negative w diff) second xs)
  unfolding finish_run
  packed_delta-IsRun code xs bytes some_code hc narrow hi p = record {
    decodes = λ s rest sign bounded.
        let n = length xs + 2 in
        let second = add w first diff in
        let size : suc (suc (length (running w (is_negative w diff) second xs))) ≡ n =
          omega (arith, length-running w (is_negative w diff) second xs) in
        let (m', e, holds, kept) =
          next_delta-packed w issigned codegen s.result s.offset s.cinfo.delta_info first_code
            delta_code bytes rest xs code first diff first_ok delta_ok some_code hc narrow hi
            (rw size at bounded) p in
        let (field, _, _) = header_fields 3 code n (omega arith) hc (omega arith) hi in
        (
          finish_run s (λ i. record (s.cinfo) { delta_info = i })
              (record {
                result = m';
                info = update_encoding_info codegen s.cinfo.delta_info (decode_bit_width code) n;
                run_length = n;
              }),
          rw
              (
                encoding_delta (first_byte 3 code n) field,
                delta_bytes code n first_code delta_code bytes rest,
              )
              (delta_case w issigned codegen s _ rest _ e),
          (holds, rw size kept, rw size refl, sign),
        );
  }

  -- A delta run of the width zero, of 1 to 512 values.
  pub fixed_delta-IsRun :
      (n : ℕ)
      → 1 ≤ n
      → n ≤ 512
      → IsRun w issigned codegen
          (first_byte 3 0 n)
          (second_byte n ∷ first_code ++ (delta_code ++ []))
          (first ∷ steps w diff (n - 1) first)
  unfolding finish_run
  fixed_delta-IsRun n lo hi = record {
    decodes = λ s rest sign bounded.
        let size : suc (length (steps w diff (n - 1) first)) ≡ n =
          omega (arith, length-steps w diff (n - 1) first) in
        let (m', e, holds, kept) =
          next_delta-fixed w issigned codegen s.result s.offset s.cinfo.delta_info first_code
            delta_code rest first diff first_ok delta_ok n lo hi in
        let (field, _, _) = header_fields 3 0 n (omega arith) (omega arith) lo hi in
        (
          finish_run s (λ i. record (s.cinfo) { delta_info = i })
              (record {
                result = m';
                info = update_encoding_info codegen s.cinfo.delta_info 0 n;
                run_length = n;
              }),
          rw
              (
                encoding_delta (first_byte 3 0 n) field,
                delta_bytes 0 n first_code delta_code [] rest,
              )
              (delta_case w issigned codegen s _ rest _ e),
          (holds, rw size kept, rw size refl, sign),
        );
  }
