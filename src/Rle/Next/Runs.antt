-- ===== src/Rle/Next/Runs.antt =====
-- src/orc/RLE2.cpp: the runs that next takes apart.
use tengdb.Common.{ℕ, ◌*◌, ◌/◌, ◌^◌, ◌≤◌, ◌<◌, ◌≡◌, refl, ◌∙◌, arith, Bool, true, false}
use tengdb.Common.{List, ◌∷◌, map, length, length-map, replicate, All}
use tengdb.Common.{length-replicate}
use tengdb.Common.Bits.{and_mask}
use tengdb.Common.Memory.{Memory, Holds}
use tengdb.Common.Run.{ok, ◌>>=◌}
use tengdb.ColumnInfo.EncodingInfo.{EncodingInfo, update_encoding_info}
use tengdb.Rle.Direct.{Decoded, next_direct}
use tengdb.Rle.Direct.RoundTrip.{next_direct-packed}
use tengdb.Rle.Header.{encoding_field}
use tengdb.Rle.Header.Fields.{first_byte, second_byte, header_fields}
use tengdb.Rle.Longs.Unpack.{IsPacked}
use tengdb.Rle.Longs.Window.{IsByte, big}
use tengdb.Rle.Next.{short_repeat, direct, delta, encoding_of, State, finish_run, next_run}
use tengdb.Rle.Next.RoundTrip.{IsRun}
use tengdb.Rle.Repeats.{next_short_repeats}
use tengdb.Rle.Repeats.RoundTrip.{repeat_byte, next_short_repeats-big}
use tengdb.Rle.Word.{convert}
use tengdb.Util.BitWidth.{decode_bit_width}

encoding_direct : (first : ℕ) → encoding_field first ≡ 1 → encoding_of first ≡ direct
unfolding encoding_of
encoding_direct first e = rw e

encoding_repeat : (first : ℕ) → encoding_field first ≡ 0 → encoding_of first ≡ short_repeat
unfolding encoding_of
encoding_repeat first e = rw e

pub encoding_delta : (first : ℕ) → encoding_field first ≡ 3 → encoding_of first ≡ delta
unfolding encoding_of
encoding_delta first e = rw e

update_issigned :
    (codegen : Bool) (info : EncodingInfo) (bsize n : ℕ)
    → (update_encoding_info codegen info bsize n).issigned ≡ info.issigned
unfolding update_encoding_info
update_issigned true info bsize n = refl
update_issigned false info bsize n = refl

resigned :
    (w : ℕ) (a b : Bool) (m : Memory) (p : ℕ) (xs : List ℕ)
    → a ≡ b
    → Holds m p (map (convert w a) xs)
    → Holds m p (map (convert w b) xs)
resigned w a b m p xs e h = rw e at h

-- nextDirect's case of the switch.
direct_case :
    (w : ℕ) (issigned codegen : Bool) (s : State) (bytes rest : List ℕ) (d : Decoded)
    → next_direct w codegen s.result s.offset s.cinfo.direct_info bytes ≡ ok (d, rest)
    → next_run w issigned codegen direct s bytes
      ≡ ok (finish_run s (λ i. record (s.cinfo) { direct_info = i }) d, rest)
unfolding next_run
direct_case w issigned codegen s bytes rest d e = rw (e, ◌>>=◌)

repeat_case :
    (w : ℕ) (issigned codegen : Bool) (s : State) (bytes rest : List ℕ) (d : Decoded)
    → next_short_repeats w issigned codegen s.result s.offset s.cinfo.repeat_info bytes
      ≡ ok (d, rest)
    → next_run w issigned codegen short_repeat s bytes
      ≡ ok (finish_run s (λ i. record (s.cinfo) { repeat_info = i }) d, rest)
unfolding next_run
repeat_case w issigned codegen s bytes rest d e = rw (e, ◌>>=◌)

module _ (w : ℕ) (issigned codegen : Bool) where
  -- A direct run of 1 to 512 values of a width that the type has.
  pub direct-IsRun :
      (code : ℕ) (xs bytes : List ℕ)
      → code < 32
      → decode_bit_width code ≤ w
      → 1 ≤ length xs
      → length xs ≤ 512
      → IsPacked (decode_bit_width code) xs bytes
      → IsRun w issigned codegen
          (first_byte 1 code (length xs))
          (second_byte (length xs) ∷ bytes)
          (map (convert w issigned) xs)
  unfolding finish_run
  direct-IsRun code xs bytes hc narrow lo hi p = record {
    decodes = λ s rest sign bounded.
        let n : length (map (convert w issigned) xs) ≡ length xs =
          length-map (convert w issigned) xs in
        let (m', e, holds, kept) =
          next_direct-packed w code codegen s.result s.offset s.cinfo.direct_info xs bytes rest hc
            narrow lo hi (rw n at bounded) p in
        let (field, _, _) = header_fields 1 code (length xs) (omega arith) hc lo hi in
        (
          finish_run s (λ i. record (s.cinfo) { direct_info = i })
              (record {
                result = m';
                info =
                    update_encoding_info codegen s.cinfo.direct_info (decode_bit_width code)
                      (length xs);
                run_length = length xs;
              }),
          rw (encoding_direct (first_byte 1 code (length xs)) field)
              (direct_case w issigned codegen s _ rest _ e),
          (
            resigned w s.cinfo.direct_info.issigned issigned m' s.offset xs sign holds,
            rw n kept,
            rw n refl,
            update_issigned codegen s.cinfo.direct_info (decode_bit_width code) (length xs) ∙ sign,
          ),
        );
  }

  -- A run of 3 to 10 copies of a value of 1 to 8 bytes that fits the type.
  pub repeat-IsRun :
      (n : ℕ) (bytes : List ℕ)
      → All IsByte bytes
      → 1 ≤ length bytes
      → length bytes ≤ 8
      → length bytes * 8 ≤ w
      → 3 ≤ n
      → n ≤ 10
      → IsRun w issigned codegen
          (repeat_byte (length bytes) n)
          bytes
          (replicate n (convert w issigned (big bytes)))
  unfolding finish_run
  repeat-IsRun n bytes clean lo hi fits few many = record {
    decodes = λ s rest sign bounded.
        let size : length (replicate n (convert w issigned (big bytes))) ≡ n =
          length-replicate n (convert w issigned (big bytes)) in
        let (m', e, holds, kept) =
          next_short_repeats-big w n issigned codegen s.result s.offset s.cinfo.repeat_info bytes
            rest clean lo hi fits few many in
        (
          finish_run s (λ i. record (s.cinfo) { repeat_info = i })
              (record {
                result = m';
                info = update_encoding_info codegen s.cinfo.repeat_info (length bytes) n;
                run_length = n;
              }),
          rw (encoding_repeat (repeat_byte (length bytes) n) field)
              (repeat_case w issigned codegen s _ rest _ e),
          (holds, rw size kept, rw size refl, sign),
        );
  }
    where
      field : encoding_field (repeat_byte (length bytes) n) ≡ 0
      field =
          let first = repeat_byte (length bytes) n in
          unfold encoding_field in rw (and_mask 2 (first / 2 ^ 6)) (omega arith)
