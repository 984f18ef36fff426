-- ===== src/Rle/Next/Total.antt =====
-- src/orc/RLE2.cpp: next ends on every input, well formed or not.
use tengdb.Common.{ℕ, zero, suc, ◌+◌, ◌-◌, ◌*◌, ◌%◌, ◌^◌, ◌≤◌, ◌≢◌, arith, Bool, true, false}
use tengdb.Common.{List, [], ◌∷◌, length, bit_and, bit_or, ltb, ◌==◌, if◌then◌else◌}
use tengdb.Common.Memory.{Memory, store}
use tengdb.Common.Run.{Run, ok, fault, stuck, next_byte, shl, promoted}
use tengdb.Common.Run.Ends.{
  EndsWith, takes, faults, Ends, bind-Ends, pure-Ends, shl-Ends, byte-Ends, first_byte-Ends,
}
use tengdb.ColumnInfo.EncodingInfo.{EncodingInfo}
use tengdb.Rle.Bytes.{read_long_be_loop, read_long_be, read_vulong_loop, read_vulong, read_vslong}
use tengdb.Rle.Delta.{read_first, delta_values, packed_delta, next_delta}
use tengdb.Rle.Direct.{next_direct}
use tengdb.Rle.Longs.{
  Cursor, refill, shift_in, drain, finish, read_value, read_longs_loop, read_longs,
}
use tengdb.ColumnInfo.RleInfo.{RleInfo}
use tengdb.Rle.Next.{State, EncodingType, next_run, next_loop, next, encoding_of}
use tengdb.Rle.Patched.{check, shift_gap, apply_patches, next_patched}
use tengdb.Rle.Repeats.{next_short_repeats}
use tengdb.Rle.Word.{un_zigzag, convert}

module _ {A : Type 0} {k : ℕ} {bytes : List ℕ} where
  if-EndsWith :
      (t : Bool) {p q : Run (A × List ℕ)}
      → EndsWith k bytes p
      → EndsWith k bytes q
      → EndsWith k bytes (if t then p else q)
  if-EndsWith true hp hq = hp
  if-EndsWith false hp hq = hq

  elim-EndsWith :
      (t : Bool) {p q : Run (A × List ℕ)}
      → EndsWith k bytes p
      → EndsWith k bytes q
      → EndsWith k bytes (elim t [ true ↦ p | false ↦ q ])
  elim-EndsWith true hp hq = hp
  elim-EndsWith false hp hq = hq

  longer-EndsWith : (b : ℕ) (r : Run (A × List ℕ)) → EndsWith k bytes r → EndsWith k (b ∷ bytes) r
  longer-EndsWith b r (takes h) = takes (omega arith)
  longer-EndsWith b r (faults h) = faults h

refill-Ends : (c : Cursor) → Ends 0 (refill c)
unfolding refill next_byte
refill-Ends c [] = elim-EndsWith (c.bits_left == 0) (faults (λ e. cc)) (takes (omega arith))
refill-Ends c (b ∷ bytes) =
    elim-EndsWith (c.bits_left == 0) (takes (omega arith)) (takes (omega arith))

drain_ends :
    (w : ℕ) (bytes : List ℕ) (raw : ℕ) (c : Cursor) (to_read : ℕ)
    → EndsWith 0 bytes (drain w raw c to_read bytes)
unfolding drain
drain_ends w [] raw c to_read =
    if-EndsWith (ltb c.bits_left to_read) (faults (λ e. cc)) (takes (omega arith))
drain_ends w (b ∷ bytes) raw c to_read =
    let raw' = shift_in w raw c.bits_left (bit_and c.cur_byte (2 ^ c.bits_left - 1)) in
    let more =
      drain_ends w bytes raw' (record { cur_byte = b; bits_left = 8 }) (to_read - c.bits_left) in
    if-EndsWith (ltb c.bits_left to_read) (longer-EndsWith b _ more) (takes (omega arith))

read_longs_loop-Ends :
    (w fb : ℕ) (issigned : Bool) (n i : ℕ) (c : Cursor) (m : Memory)
    → Ends 0 (read_longs_loop w fb issigned n i c m)
unfolding read_longs_loop read_value
read_longs_loop-Ends w fb issigned zero i c m = pure-Ends m
read_longs_loop-Ends w fb issigned (suc n) i c m =
    bind-Ends 0 (read_value w fb c) _ value_ends λ (raw, c').
      read_longs_loop-Ends w fb issigned n (i + 1) c' (store m i (convert w issigned raw))
  where
    value_ends : Ends 0 (read_value w fb c)
    value_ends = bind-Ends 0 (refill c) _ (refill-Ends c) λ c'.
        bind-Ends 0 (drain w 0 c' fb) _ (λ bytes. drain_ends w bytes 0 c' fb)
          λ out. pure-Ends (finish w out)

read_longs-Ends :
    (w : ℕ) (m : Memory) (offset len fb : ℕ) (issigned : Bool)
    → Ends 0 (read_longs w m offset len fb issigned)
unfolding read_longs
read_longs-Ends w m offset len fb issigned = read_longs_loop-Ends w fb issigned _ offset _ m

read_long_be_loop-Ends : (w n ret : ℕ) → Ends 0 (read_long_be_loop w n ret)
unfolding read_long_be_loop
read_long_be_loop-Ends w zero ret = pure-Ends ret
read_long_be_loop-Ends w (suc n) ret = byte-Ends _ λ val.
    bind-Ends 0 (shl w (val % 2 ^ w) (n * 8)) _ (shl-Ends w (val % 2 ^ w) (n * 8))
      λ shifted. read_long_be_loop-Ends w n (bit_or ret shifted)

read_long_be-Ends : (w n : ℕ) → Ends 0 (read_long_be w n)
unfolding read_long_be
read_long_be-Ends w n = read_long_be_loop-Ends w n 0

vulong_ends :
    (w : ℕ) (bytes : List ℕ) (ret offset : ℕ)
    → EndsWith 0 bytes (read_vulong_loop w ret offset bytes)
unfolding read_vulong_loop
vulong_ends w [] ret offset = faults (λ e. cc)
vulong_ends w (b ∷ bytes) ret offset =
    let ret' = bit_or ret (bit_and 0x7f b * 2 ^ offset % 2 ^ w) in
    let more = vulong_ends w bytes ret' (offset + 7) in
    elim-EndsWith (ltb offset (promoted w))
      (if-EndsWith (ltb b 0x80) (takes (omega arith)) (longer-EndsWith b _ more)) (faults (λ e. cc))

read_vulong-Ends : (w : ℕ) → Ends 0 (read_vulong w)
unfolding read_vulong
read_vulong-Ends w bytes = vulong_ends w bytes 0 0

read_vslong-Ends : (w : ℕ) → Ends 0 (read_vslong w)
unfolding read_vslong
read_vslong-Ends w =
    bind-Ends 0 (read_vulong w) _ (read_vulong-Ends w) λ v. pure-Ends (un_zigzag w v)

read_first-Ends : (w : ℕ) (issigned : Bool) → Ends 0 (read_first w issigned)
unfolding read_first
read_first-Ends w true = read_vslong-Ends w
read_first-Ends w false = read_vulong-Ends w

delta_values-Ends :
    (w : ℕ) (m : Memory) (at end first delta bit_size : ℕ)
    → Ends 0 (delta_values w m at end first delta bit_size)
unfolding delta_values packed_delta
delta_values-Ends w m at end first delta bit_size bytes =
    elim-EndsWith (bit_size == 0) (takes (omega arith)) (
      bind-Ends 0 (read_longs w _ _ _ bit_size false) _ (read_longs-Ends w _ _ _ bit_size false)
        (λ r. pure-Ends _) bytes)

module _ (w : ℕ) (issigned codegen : Bool) (m : Memory) (offset : ℕ) (info : EncodingInfo) where
  next_direct-Ends : Ends 1 (next_direct w codegen m offset info)
  unfolding next_direct
  next_direct-Ends = first_byte-Ends _ λ first. byte-Ends _ λ second.
      bind-Ends 0 (read_longs w m offset _ _ _) _ (read_longs-Ends w m offset _ _ _)
        λ r. pure-Ends _

  next_short_repeats-Ends : Ends 1 (next_short_repeats w issigned codegen m offset info)
  unfolding next_short_repeats
  next_short_repeats-Ends =
      first_byte-Ends _
        λ first. bind-Ends 0 (read_long_be w _) _ (read_long_be-Ends w _) λ raw. pure-Ends _

  next_delta-Ends : Ends 1 (next_delta w issigned codegen m offset info)
  unfolding next_delta
  next_delta-Ends = first_byte-Ends _ λ first. byte-Ends _ λ second.
      bind-Ends 0 (read_first w issigned) _ (read_first-Ends w issigned) λ first_value.
        bind-Ends 0 (read_vslong w) _ (read_vslong-Ends w) λ delta.
          bind-Ends 0 (delta_values w _ _ _ _ _ _) _ (delta_values-Ends w _ _ _ _ _ _)
            λ r. pure-Ends _

  check-Ends : (t : Bool) → Ends 0 (check t)
  unfolding check
  check-Ends true bytes = takes (omega arith)
  check-Ends false bytes = faults (λ e. cc)

  shift_gap-Ends : (x k : ℕ) → Ends 0 (shift_gap w x k)
  unfolding shift_gap
  shift_gap-Ends x k bytes = elim-EndsWith (ltb k 64) (takes (omega arith)) (faults (λ e. cc))

  apply_patches-Ends :
      (base bit_size width mask : ℕ) (unpacked : Memory) (n i at : ℕ) (m : Memory)
      → Ends 0 (apply_patches w base bit_size width mask unpacked n i at m)
  unfolding apply_patches
  apply_patches-Ends base bit_size width mask unpacked zero i at m = pure-Ends m
  apply_patches-Ends base bit_size width mask unpacked (suc n) i at m =
      bind-Ends 0 (shift_gap w (unpacked i) width) _ (shift_gap-Ends (unpacked i) width) λ gap.
        bind-Ends 0 (shl w _ bit_size) _ (shl-Ends w _ bit_size)
          λ shifted. apply_patches-Ends base bit_size width mask unpacked n (i + 1) _ _

  next_patched-Ends : Ends 1 (next_patched w codegen m offset info)
  unfolding next_patched
  next_patched-Ends = first_byte-Ends _ λ first. byte-Ends _ λ second. byte-Ends _ λ third.
      byte-Ends _ λ fourth. bind-Ends 0 (check _) _ (check-Ends _) λ _.
        bind-Ends 0 (check _) _ (check-Ends _) λ _.
          bind-Ends 0 (read_long_be w _) _ (read_long_be-Ends w _) λ raw.
            bind-Ends 0 (shl w 1 _) _ (shl-Ends w 1 _) λ sign.
              bind-Ends 0 (read_longs w _ _ _ _ _) _ (read_longs-Ends w _ _ _ _ _) λ r.
                bind-Ends 0 (read_longs w _ _ _ _ _) _ (read_longs-Ends w _ _ _ _ _) λ u.
                  bind-Ends 0 (shl w 1 _) _ (shl-Ends w 1 _) λ one.
                    bind-Ends 0 (apply_patches w _ _ _ _ u _ _ _ _) _
                      (apply_patches-Ends _ _ _ _ u _ _ _ _) λ p. pure-Ends _

module _ (w : ℕ) (issigned codegen : Bool) where
  -- A run takes a byte at least, whatever its first byte says.
  next_run-Ends : (enc : EncodingType) (s : State) → Ends 1 (next_run w issigned codegen enc s)
  unfolding next_run
  next_run-Ends EncodingType.short_repeat s =
      bind-Ends 1 (next_short_repeats w issigned codegen _ _ _) _
        (next_short_repeats-Ends w issigned codegen _ _ _) λ d. pure-Ends _
  next_run-Ends EncodingType.direct s =
      bind-Ends 1 (next_direct w codegen _ _ _) _ (next_direct-Ends w issigned codegen _ _ _)
        λ d. pure-Ends _
  next_run-Ends EncodingType.patched_base s =
      bind-Ends 1 (next_patched w codegen _ _ _) _ (next_patched-Ends w issigned codegen _ _ _)
        λ d. pure-Ends _
  next_run-Ends EncodingType.delta s =
      bind-Ends 1 (next_delta w issigned codegen _ _ _) _ (next_delta-Ends w issigned codegen _ _ _)
        λ d. pure-Ends _

  loop_ends :
      (fuel : ℕ) (s : State) (bytes : List ℕ)
      → length bytes ≤ fuel
      → next_loop fuel w issigned codegen s bytes ≢ fault stuck
  unfolding next_loop
  loop_ends zero s [] h = λ e. cc
  loop_ends (suc fuel) s [] h = λ e. cc
  loop_ends zero s (b ∷ bytes) h = absurd (omega arith)
  loop_ends (suc fuel) s (b ∷ bytes) h =
      after _ (next_run-Ends (encoding_of b) s (b ∷ bytes))
        (λ s' rest short. loop_ends fuel s' rest short)
    where
      after :
          (r : Run (State × List ℕ))
          → EndsWith 1 (b ∷ bytes) r
          → ((s' : State) (rest : List ℕ)
              → length rest ≤ fuel
              → next_loop fuel w issigned codegen s' rest ≢ fault stuck)
          → elim r [ ok (s', rest) ↦ next_loop fuel w issigned codegen s' rest | fault e ↦ fault e ]
            ≢ fault stuck
      after (ok (s', rest)) (takes short) rec = rec s' rest (omega arith)
      after (fault e) (faults h') rec = λ p. h' (ground arith)

  -- The loop over the runs of a column ends on every input, whether the bytes are well formed or
  -- not: it stores the values or faults, and as many rounds as there are bytes are enough.
  pub next-ne-stuck :
      (m : Memory) (cinfo : RleInfo) (bytes : List ℕ)
      → next w issigned codegen m cinfo bytes ≢ fault stuck
  unfolding next
  next-ne-stuck m cinfo bytes = loop_ends (length bytes) _ bytes (omega arith)
