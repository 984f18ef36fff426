-- ===== src/Rle/Vectorized/Next/Off.antt =====
-- src/orc/RLE2.cpp: a build with `__AVX2__` decodes as one without it where FLAGS_vectorization is
-- off.
use tengdb.Common.{
  ℕ, zero, suc, ◌+◌, ◌≡◌, refl, ap, arith, Bool, true, false, List, [], ◌∷◌, length,
}
use tengdb.Common.Memory.{Memory, store}
use tengdb.Common.{◌==◌, Bool-cases, inl, inr}
use tengdb.Common.Run.Local.{Run-cases}
use tengdb.Common.Run.{Read, ◌>>=◌, pure, next_byte}
use tengdb.ColumnInfo.EncodingInfo.{EncodingInfo, update_encoding_info}
use tengdb.Rle.Bytes.{read_vslong}
use tengdb.Rle.Header.{width_field, run_length_field}
use tengdb.ColumnInfo.RleInfo.{RleInfo}
use tengdb.Rle.Word.{add, is_negative}
use tengdb.Common.{◌-◌, ◌%◌, ◌^◌, if◌then◌else◌}
use tengdb.Rle.Delta.{
  accumulate, read_first, delta_width, delta_values, packed_delta, fixed_delta, next_delta,
}
use tengdb.Rle.Direct.{Decoded, next_direct}
use tengdb.Rle.Longs.{read_longs}
use tengdb.Rle.Next.{EncodingType, State, finish_run, next_run, next_loop, next, encoding_of}
use tengdb.Rle.Patched.{next_patched}
use tengdb.Rle.Repeats.{next_short_repeats}
use tengdb.Rle.Vectorized.{vector_read_longs, read_folded, read_rest}
use tengdb.Rle.Vectorized.Delta.{
  vector_next_delta, vector_next_short_repeats, vector_fill, vector_sums, vector_delta_values,
  vector_packed_delta, vector_fixed_delta,
}
use tengdb.Rle.Vectorized.Next.{
  vector_next_direct, vector_next_patched, vector_next_run, vector_next_loop, vector_next,
}

module _ (w : ℕ) where
  direct_off :
      (codegen : Bool) (m : Memory) (offset : ℕ) (info : EncodingInfo)
      → vector_next_direct false w codegen m offset info ≡ next_direct w codegen m offset info
  unfolding vector_next_direct next_direct vector_read_longs read_longs read_folded read_rest
  direct_off codegen m offset info = refl

  patched_off :
      (codegen : Bool) (m : Memory) (offset : ℕ) (info : EncodingInfo)
      → vector_next_patched false w codegen m offset info ≡ next_patched w codegen m offset info
  unfolding vector_next_patched next_patched vector_read_longs read_longs read_folded read_rest
  patched_off codegen m offset info = refl

  repeats_off :
      (issigned codegen : Bool) (m : Memory) (offset : ℕ) (info : EncodingInfo)
      → vector_next_short_repeats false w issigned codegen m offset info
        ≡ next_short_repeats w issigned codegen m offset info
  unfolding vector_next_short_repeats next_short_repeats vector_fill
  repeats_off issigned codegen m offset info = refl

  sums_off :
      (m : Memory) (offset run_length prev delta : ℕ)
      → (if is_negative w delta
          then accumulate w true (offset + run_length - (offset + 2)) (offset + 2) prev m
          else vector_sums false w offset run_length prev delta m)
        ≡ accumulate w
            (is_negative w delta)
            (offset + run_length - (offset + 2))
            (offset + 2)
            prev
            m
  unfolding vector_sums
  sums_off m offset run_length prev delta = elim (Bool-cases (is_negative w delta)) [
    | inl down ↦ rw down
    | inr up ↦ rw up
  ]

  packed_off :
      (m : Memory) (offset run_length first_value delta bit_size : ℕ) (bytes : List ℕ)
      → vector_packed_delta false w m offset run_length first_value delta bit_size bytes
        ≡ packed_delta w m (offset + 1) (offset + run_length) first_value delta bit_size bytes
  unfolding vector_packed_delta packed_delta vector_read_longs read_longs read_folded read_rest
  packed_off m offset run_length first_value delta bit_size bytes =
      let next : offset + 1 + 1 ≡ offset + 2 = omega arith in
      let prev = add w first_value delta in
      let second = store m (offset + 1) prev in
      let remaining = (offset + run_length + 2 ^ 64 - (offset + 2)) % 2 ^ 64 in
      rw next (
        ap
          (λ (f : Memory → Memory).
            (read_longs w second (offset + 2) remaining bit_size false >>= λ m'. pure (f m')) bytes)
          (λ i m'. sums_off m' offset run_length prev delta i))

  values_off :
      (m : Memory) (offset run_length first_value delta bit_size : ℕ) (bytes : List ℕ)
      → vector_delta_values false w m offset run_length first_value delta bit_size bytes
        ≡ delta_values w m (offset + 1) (offset + run_length) first_value delta bit_size bytes
  unfolding vector_delta_values delta_values
  values_off m offset run_length first_value delta bit_size bytes =
      elim (Bool-cases (bit_size == 0)) [
        | inl zero_width ↦
            rw (zero_width, vector_delta_values, delta_values)
              (unfold vector_fixed_delta fixed_delta in refl)
        | inr some_width ↦
            rw (some_width, vector_delta_values, delta_values)
              (packed_off m offset run_length first_value delta bit_size bytes)
      ]

  -- nextDelta with its values left open.
  abbrev with_values : Bool → Bool → ℕ → EncodingInfo → (ℕ → ℕ → ℕ → ℕ → Read Memory) → Read Decoded
  with_values issigned codegen offset info values = do
    first ← next_byte
    second ← next_byte
    let bit_size = delta_width (width_field first)
    let run_length = run_length_field first second
    first_value ← read_first w issigned
    delta ← read_vslong w
    result' ← values run_length first_value delta bit_size
    pure (record {
      result = result';
      info = update_encoding_info codegen info bit_size run_length;
      run_length = run_length;
    })

  delta_off :
      (issigned codegen : Bool) (m : Memory) (offset : ℕ) (info : EncodingInfo)
      → vector_next_delta false w issigned codegen m offset info
        ≡ next_delta w issigned codegen m offset info
  unfolding vector_next_delta next_delta
  delta_off issigned codegen m offset info =
      ap (with_values issigned codegen offset info)
        (λ i run_length first_value delta bit_size bytes.
          values_off (store m offset first_value) offset run_length first_value delta bit_size bytes
            i)

  run_off :
      (issigned codegen : Bool) (enc : EncodingType) (s : State)
      → vector_next_run false w issigned codegen enc s ≡ next_run w issigned codegen enc s
  unfolding vector_next_run next_run
  run_off issigned codegen EncodingType.short_repeat s =
      ap
        (λ (d : Read Decoded).
          d >>= λ d'. pure (finish_run s (λ i. record (s.cinfo) { repeat_info = i }) d'))
        (repeats_off issigned codegen s.result s.offset s.cinfo.repeat_info)
  run_off issigned codegen EncodingType.direct s =
      ap
        (λ (d : Read Decoded).
          d >>= λ d'. pure (finish_run s (λ i. record (s.cinfo) { direct_info = i }) d'))
        (direct_off codegen s.result s.offset s.cinfo.direct_info)
  run_off issigned codegen EncodingType.patched_base s =
      ap
        (λ (d : Read Decoded).
          d >>= λ d'. pure (finish_run s (λ i. record (s.cinfo) { patched_info = i }) d'))
        (patched_off codegen s.result s.offset s.cinfo.patched_info)
  run_off issigned codegen EncodingType.delta s =
      ap
        (λ (d : Read Decoded).
          d >>= λ d'. pure (finish_run s (λ i. record (s.cinfo) { delta_info = i }) d'))
        (delta_off issigned codegen s.result s.offset s.cinfo.delta_info)

  loop_off :
      (fuel : ℕ) (issigned codegen : Bool) (s : State) (bytes : List ℕ)
      → vector_next_loop fuel false w issigned codegen s bytes
        ≡ next_loop fuel w issigned codegen s bytes
  unfolding vector_next_loop next_loop
  loop_off zero issigned codegen s [] = refl
  loop_off (suc fuel) issigned codegen s [] = refl
  loop_off zero issigned codegen s (b ∷ bytes) = refl
  loop_off (suc fuel) issigned codegen s (b ∷ bytes) =
      let e = ap (λ (r : Read State). r (b ∷ bytes)) (run_off issigned codegen (encoding_of b) s) in
      elim (Run-cases (next_run w issigned codegen (encoding_of b) s (b ∷ bytes))) [
        | inl ((s', rest), h) ↦
            rw (e, h, vector_next_loop, next_loop) (loop_off fuel issigned codegen s' rest)
        | inr (x, h) ↦ rw (e, h, vector_next_loop, next_loop)
      ]

-- With FLAGS_vectorization off, a build with the vector code decodes every column as a build without
-- it: the same values, the same statistics and the same faults, for every width and all bytes.
pub vector_next-next :
    (w : ℕ) (issigned codegen : Bool) (m : Memory) (cinfo : RleInfo) (bytes : List ℕ)
    → vector_next false w issigned codegen m cinfo bytes ≡ next w issigned codegen m cinfo bytes
unfolding vector_next next
vector_next-next w issigned codegen m cinfo bytes =
    loop_off w (length bytes) issigned codegen (record { result = m; offset = 0; cinfo = cinfo })
      bytes
