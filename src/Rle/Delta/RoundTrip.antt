-- ===== src/Rle/Delta/RoundTrip.antt =====
-- src/orc/RLE2.cpp: nextDelta reads back a run of differences.
use tengdb.Common.{
  ℕ, zero, suc, ◌+◌, ◌-◌, ◌*◌, ◌%◌, ◌^◌, ◌≤◌, ◌<◌, ◌≡◌, refl, arith, Bool, true, false,
}
use tengdb.Common.{List, [], ◌∷◌, ◌++◌, length, map, ◌==◌, ◌∙◌}
use tengdb.Common.Memory.{Memory, store, Holds, Kept, Kept-store, Holds-store, Kept-trans}
use tengdb.Common.Run.{ok, ◌>>=◌, next_byte, promoted}
use tengdb.Rle.Bytes.RoundTrip.{IsVarint, read_vulong-IsVarint, read_vslong-IsVarint}
use tengdb.Rle.Bytes.{read_vslong}
use tengdb.Rle.Delta.{
  read_first, fixed_delta, accumulate, delta_width, delta_values, packed_delta, next_delta,
}
use tengdb.Rle.Delta.Loops.{steps, running, steps-zero, add_fixed_lem, accumulate_lem}
use tengdb.Rle.Repeats.RoundTrip.{fill_lem}
use tengdb.Rle.Header.Fields.{first_byte, second_byte, header_fields}
use tengdb.ColumnInfo.EncodingInfo.{EncodingInfo, update_encoding_info}
use tengdb.Rle.Word.{ℤ, pos, negsuc, zigzag, pattern_of, add, is_negative, convert}
use tengdb.Rle.Longs.Unpack.{IsPacked, read_longs-packed}
use tengdb.Util.BitWidth.{decode_bit_width, decode_bit_width_bounds}

-- The bytes are the code of a signed number whose bits are `value`.
pub record IsSignedCode (w : ℕ) (bytes : List ℕ) (value : ℕ) : Type 0 where
  pub number : ℤ
  pub code : IsVarint bytes (zigzag number)
  pub fits : zigzag number < 2 ^ w
  pub short : length bytes * 7 < promoted w + 7
  pub bits : value ≡ pattern_of w number

pub record IsUnsignedCode (w : ℕ) (bytes : List ℕ) (value : ℕ) : Type 0 where
  pub code : IsVarint bytes value
  pub fits : value < 2 ^ w
  pub short : length bytes * 7 < promoted w + 7

abbrev pub IsFirstCode : ℕ → Bool → List ℕ → ℕ → Type 0
IsFirstCode w true bytes value = IsSignedCode w bytes value
IsFirstCode w false bytes value = IsUnsignedCode w bytes value

pub read_signed :
    (w : ℕ) (bytes rest : List ℕ) (value : ℕ)
    → IsSignedCode w bytes value
    → read_vslong w (bytes ++ rest) ≡ ok (value, rest)
read_signed w bytes rest value c =
    rw c.bits (read_vslong-IsVarint w bytes rest c.number c.code c.fits c.short)

pub read_first_lem :
    (w : ℕ) (issigned : Bool) (bytes rest : List ℕ) (value : ℕ)
    → IsFirstCode w issigned bytes value
    → read_first w issigned (bytes ++ rest) ≡ ok (value, rest)
unfolding read_first
read_first_lem w true bytes rest value c = read_signed w bytes rest value c
read_first_lem w false bytes rest value c =
    read_vulong-IsVarint w bytes rest value c.code c.fits c.short

pattern-lt : (w : ℕ) (z : ℤ) → zigzag z < 2 ^ w → pattern_of w z < 2 ^ w
pattern-lt w (pos n) h = omega arith
pattern-lt w (negsuc n) h = omega arith

pub first-lt :
    (w : ℕ) (issigned : Bool) (bytes : List ℕ) (value : ℕ)
    → IsFirstCode w issigned bytes value
    → value < 2 ^ w
first-lt w true bytes value c = rw c.bits (pattern-lt w c.number c.fits)
first-lt w false bytes value c = c.fits

fixed_delta_lem :
    (w n at end first delta : ℕ) (m : Memory)
    → first < 2 ^ w
    → end - at ≡ n
    → Holds (fixed_delta w m at end first delta) at (steps w delta n first)
      × Kept m (fixed_delta w m at end first delta) at n
unfolding fixed_delta
fixed_delta_lem w n at end first zero m small rounds =
    rw (rounds, steps-zero w n first small) (fill_lem n at first m)
fixed_delta_lem w n at end first (suc delta) m small rounds =
    let e : (suc delta == 0) ≡ false = ground arith in
    rw (rounds, e) (add_fixed_lem w n at (suc delta) first m)

-- The bytes of a run: its header, the code of the first value, the code of the first difference,
-- and what follows.
abbrev pub delta_run : ℕ → ℕ → List ℕ → List ℕ → List ℕ → List ℕ
delta_run code n first_code delta_code rest =
    first_byte 3 code n ∷ second_byte n ∷ first_code ++ (delta_code ++ rest)

module _ (w : ℕ) (issigned codegen : Bool) (m : Memory) (offset : ℕ) (info : EncodingInfo)
    (first_code delta_code rest : List ℕ) (first delta : ℕ)
    (first_ok : IsFirstCode w issigned first_code first)
    (delta_ok : IsSignedCode w delta_code delta) where
  -- The header and the two codes are read, and the values are left to `delta_values`.
  next_delta_start :
      (code n bit_size : ℕ) (m' : Memory) (rest' : List ℕ)
      → code < 32
      → 1 ≤ n
      → n ≤ 512
      → delta_width code ≡ bit_size
      → delta_values w (store m offset first) (offset + 1) (offset + n) first delta bit_size rest
        ≡ ok (m', rest')
      → next_delta w issigned codegen m offset info (delta_run code n first_code delta_code rest)
        ≡ ok (
          record {
            result = m';
            info = update_encoding_info codegen info bit_size n;
            run_length = n;
          },
          rest',
        )
  unfolding next_delta next_byte
  next_delta_start code n bit_size m' rest' hc lo hi wide values =
      let (_, width, run) = header_fields 3 code n (omega arith) hc lo hi in
      rw (
        read_first_lem w issigned first_code (delta_code ++ rest) first first_ok,
        ◌>>=◌,
        read_signed w delta_code rest delta delta_ok,
        ◌>>=◌,
        width,
        run,
        wide,
        values,
        ◌>>=◌,
        width,
        run,
        wide,
      )

  -- A run of the width zero, of 1 to 512 values: nextDelta stores the first value and then values
  -- in steps of the difference from `offset` on, changes nothing else in `result`, counts the run,
  -- and takes no byte more.
  pub next_delta-fixed :
      (n : ℕ)
      → 1 ≤ n
      → n ≤ 512
      → (m' : Memory) × (next_delta w issigned codegen m offset info
            (delta_run 0 n first_code delta_code rest)
          ≡ ok (
            record { result = m'; info = update_encoding_info codegen info 0 n; run_length = n },
            rest,
          ))
        × Holds m' offset (first ∷ steps w delta (n - 1) first)
        × Kept m m' offset n
  unfolding delta_width delta_values
  next_delta-fixed n lo hi =
      let m₁ = store m offset first in
      let m' = fixed_delta w m₁ (offset + 1) (offset + n) first delta in
      let (holds, kept) =
        fixed_delta_lem w (n - 1) (offset + 1) (offset + n) first delta m₁
          (first-lt w issigned first_code first first_ok) (omega arith) in
      let whole : suc (n - 1) ≡ n = omega arith in
      (
        m',
        next_delta_start 0 n 0 m' rest (omega arith) lo hi refl refl,
        Holds-store m m' offset first (n - 1) _ kept holds,
        rw whole at (Kept-store m m' offset first (n - 1) kept),
      )

packed_delta_lem :
    (w code at first delta : ℕ) (m : Memory) (xs bytes rest : List ℕ)
    → decode_bit_width code ≤ w
    → at + 1 + length xs < 2 ^ 64
    → IsPacked (decode_bit_width code) xs bytes
    → let second = add w first delta in
      (m' : Memory) × (packed_delta w m at
          (at + 1 + length xs)
          first
          delta
          (decode_bit_width code)
          (bytes ++ rest)
        ≡ ok (m', rest))
      × Holds m' at (second ∷ running w (is_negative w delta) second xs)
      × Kept m m' at (suc (length xs))
unfolding packed_delta convert
packed_delta_lem w code at first delta m xs bytes rest narrow bounded p =
    let second = add w first delta in
    let left : (at + 1 + length xs + 2 ^ 64 - (at + 1)) % 2 ^ 64 ≡ length xs = omega arith in
    let rounds : at + 1 + length xs - (at + 1) ≡ length xs = omega arith in
    let (m₁, e, raw, kept₁) =
      read_longs-packed w (decode_bit_width code) (decode_bit_width_bounds code).0 narrow false
        (store m at second) (at + 1) xs bytes rest p bounded in
    let (holds, kept) =
      accumulate_lem w (is_negative w delta) (at + 1) second xs m₁
        (Holds-raw m₁ (at + 1) w xs raw) in
    let m' = accumulate w (is_negative w delta) (length xs) (at + 1) second m₁ in
    let both = Kept-trans (store m at second) m₁ m' (at + 1) (length xs) kept₁ kept in
    (
      m',
      rw (left, e, ◌>>=◌, rounds),
      Holds-store m m' at second (length xs) _ both holds,
      Kept-store m m' at second (length xs) both,
    )
  where
    Holds-raw :
        (m : Memory) (at w : ℕ) (xs : List ℕ)
        → Holds m at (map (convert w false) xs)
        → Holds m at xs
    Holds-raw m at w [] h = h
    Holds-raw m at w (x ∷ xs) (e, h) = (e, Holds-raw m (at + 1) w xs h)

some_width : (code : ℕ) → 1 ≤ code → delta_width code ≡ decode_bit_width code
unfolding delta_width
some_width zero h = absurd (omega arith)
some_width (suc code) h = ground arith

packed_values :
    (w code at end first delta : ℕ) (m : Memory) (bytes : List ℕ)
    → 1 ≤ code
    → delta_values w m at end first delta (decode_bit_width code) bytes
      ≡ packed_delta w m at end first delta (decode_bit_width code) bytes
unfolding delta_values
packed_values w code at end first delta m bytes h =
    let positive = (decode_bit_width_bounds code).0 in
    let e : (decode_bit_width code == 0) ≡ false = ground arith in rw (e, delta_values)

module _ (w : ℕ) (issigned codegen : Bool) (m : Memory) (offset : ℕ) (info : EncodingInfo)
    (first_code delta_code bytes rest xs : List ℕ) (code first delta : ℕ)
    (first_ok : IsFirstCode w issigned first_code first)
    (delta_ok : IsSignedCode w delta_code delta) where
  -- A run with a width that the type has, of 2 to 512 values at positions below 2 ^ 64: nextDelta stores the first value, that value plus the
  -- first difference, and then each value at its packed distance from the one before, downwards if
  -- the first difference is negative. It changes nothing else in `result`, counts the run, and
  -- takes no byte more.
  pub next_delta-packed :
      1 ≤ code
      → code < 32
      → decode_bit_width code ≤ w
      → length xs + 2 ≤ 512
      → offset + (length xs + 2) < 2 ^ 64
      → IsPacked (decode_bit_width code) xs bytes
      → let n = length xs + 2 in
        let second = add w first delta in
        (m' : Memory) × (next_delta w issigned codegen m offset info
            (delta_run code n first_code delta_code (bytes ++ rest))
          ≡ ok (
            record {
              result = m';
              info = update_encoding_info codegen info (decode_bit_width code) n;
              run_length = n;
            },
            rest,
          ))
        × Holds m' offset (first ∷ second ∷ running w (is_negative w delta) second xs)
        × Kept m m' offset n
  next_delta-packed some_code hc narrow hi bounded p =
      let m₁ = store m offset first in
      let n = length xs + 2 in
      let end : offset + n ≡ offset + 1 + 1 + length xs = omega arith in
      let whole : suc (suc (length xs)) ≡ n = omega arith in
      let (m', e, holds, kept) =
        packed_delta_lem w code (offset + 1) first delta m₁ xs bytes rest narrow (omega arith) p in
      let values =
        packed_values w code (offset + 1) (offset + n) first delta m₁ (bytes ++ rest) some_code in
      (
        m',
        next_delta_start w issigned codegen m offset info first_code delta_code (bytes ++ rest)
            first delta first_ok delta_ok code n (decode_bit_width code) m' rest hc (omega arith) hi
            (some_width code some_code) (values ∙ rw end e),
        Holds-store m m' offset first (suc (length xs))
            (add w first delta ∷ running w (is_negative w delta) (add w first delta) xs) kept holds,
        rw whole at (Kept-store m m' offset first (suc (length xs)) kept),
      )
