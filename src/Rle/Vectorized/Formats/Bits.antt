-- ===== src/Rle/Vectorized/Formats/Bits.antt =====
-- src/orc/RLE2.cpp, readLongs under `__AVX2__`: the branch for values of two bits.
use tengdb.Common.{
  ℕ, ◌+◌, ◌*◌, ◌/◌, ◌-◌, ◌%◌, ◌^◌, ◌≡◌, ◌≤◌, ◌<◌, refl, arith, List, [], ◌∷◌, All, length, get_or,
  map,
}
use tengdb.Common.{bit_and, ap}
use native.Mathlib.Nat.{div-le_self}
use tengdb.Common.Bits.{and_mask}
use tengdb.Common.Run.{ok, ◌>>=◌, pure, next_byte}
use tengdb.Rle.Longs.{Cursor, refill, drain, shift_in, finish, read_value}
use tengdb.Rle.Longs.Window.{IsByte, shift_in_lem}
use tengdb.Rle.Vector.{
  Vector, lane32, up_to, permutevar8x32_epi32, shuffle_epi8, set_epi32, set_epi8, skip, and_si256,
  srlv_epi32,
}
use tengdb.Rle.Vector.Lanes.{lane32-from_lanes32}
use tengdb.Rle.Vector.Masks.{mask0_2to32, mask1_2to32, shift_2to32, and_2to32}
use tengdb.Rle.Vectorized.{spread, spread_bits}
use tengdb.Rle.Vectorized.Words.{Splits, no_values, value, at, drain_enough}
use tengdb.Rle.Vectorized.Formats.{loaded, Unpacks, get_or-IsByte, All-implied}

-- The two bits of a byte above the lowest `left` ones.
abbrev two_bits : ℕ → ℕ → ℕ
two_bits b left = b / 2 ^ left % 4

-- Value `i` stands in byte `i / 4`, the first one highest.
abbrev pub crumb : List ℕ → ℕ → ℕ
crumb bytes i = two_bits (get_or bytes (i / 4) 0) (6 - 2 * (i % 4))

lane32-spread_bits :
    (p s sh m v : Vector) (i : ℕ)
    → lane32 (spread_bits p s sh m v) i
      ≡ bit_and (lane32 (spread p s v) i / 2 ^ lane32 sh i % 2 ^ 32) (lane32 m i) % 2 ^ 32
unfolding spread_bits and_si256 srlv_epi32
lane32-spread_bits p s sh m v i = rw (lane32-from_lanes32, lane32-from_lanes32)

masked : (x b n : ℕ) → x ≡ b → b < 256 → bit_and (x / 2 ^ n % 2 ^ 32) 3 % 2 ^ 32 ≡ two_bits b n
masked x b n e h =
    let small = div-le_self b (2 ^ n) in rw (e, and_mask 2 (b / 2 ^ n % 2 ^ 32)) (omega arith)

module _ (bytes : List ℕ) where
  abbrev BitLane : ℕ → Type 0
  BitLane i =
      (lane32 (spread mask0_2to32 mask1_2to32 (loaded bytes)) i ≡ get_or bytes (i / 4) 0)
      × (lane32 shift_2to32 i ≡ 6 - 2 * (i % 4))
      × (lane32 and_2to32 i ≡ 3)

  lanes_of_bits : All BitLane (up_to 8)
  unfolding spread shuffle_epi8 permutevar8x32_epi32 mask0_2to32 mask1_2to32 shift_2to32 and_2to32
      set_epi32 set_epi8
  lanes_of_bits = ground arith

  bits_lane :
      (i : ℕ)
      → All IsByte bytes
      → BitLane i
      → lane32 (spread_bits mask0_2to32 mask1_2to32 shift_2to32 and_2to32 (loaded bytes)) i
        ≡ crumb bytes i
  bits_lane i clean (same, shift, mask) =
      let b = get_or bytes (i / 4) 0 in
      rw (lane32-spread_bits, shift, mask)
        (masked _ b (6 - 2 * (i % 4)) same (get_or-IsByte bytes (i / 4) clean))

-- The next two bits of the current byte.
next_bits :
    (b left left' : ℕ) (bytes : List ℕ)
    → left ≡ left' + 2
    → left ≤ 8
    → (drain 32 0 (at b left) 2 >>= λ drained. pure (finish 32 drained)) bytes
      ≡ ok ((two_bits b left', at b left'), bytes)
unfolding finish
next_bits b left left' bytes e h =
    let left_over : left - 2 ≡ left' = omega arith in
    let low : b / 2 ^ left' % 2 ^ 2 < 2 ^ 2 = omega arith in
    let joined : shift_in 32 0 2 (b / 2 ^ left' % 2 ^ 2) ≡ 0 * 2 ^ 2 + b / 2 ^ left' % 2 ^ 2 =
      shift_in_lem 32 0 2 (b / 2 ^ left' % 2 ^ 2) (omega arith) low in
    rw (drain_enough 32 0 (at b left) 2 bytes (ground arith), ◌>>=◌, left_over)
      (rw (and_mask 2 (b / 2 ^ left'), joined)
        (ap (λ (v : ℕ). ok ((v, at b left'), bytes)) (omega arith)))

module _ (b : ℕ) (bytes : List ℕ) where
  first_bits : (x : ℕ) → read_value 32 2 (at x 0) (b ∷ bytes) ≡ ok ((two_bits b 6, at b 6), bytes)
  unfolding read_value refill next_byte
  first_bits x = next_bits b 8 6 bytes (omega arith) (omega arith)

  later_bits :
      (left' : ℕ)
      → left' ≤ 6
      → read_value 32 2 (at b (left' + 2)) bytes ≡ ok ((two_bits b left', at b left'), bytes)
  unfolding read_value
  later_bits left' h =
      let e : refill (at b (left' + 2)) bytes ≡ ok (at b (left' + 2), bytes) =
        unfold refill in ground arith in
      rw (e, ◌>>=◌) (next_bits b (left' + 2) left' bytes refl (omega arith))

split_byte :
    {xs bytes rest : List ℕ} {c : Cursor} (x b : ℕ)
    → Splits 2 (at b 0) bytes xs c rest
    → Splits 2
        (at x 0)
        (b ∷ bytes)
        (two_bits b 6 ∷ two_bits b 4 ∷ two_bits b 2 ∷ two_bits b 0 ∷ xs)
        c
        rest
split_byte {xs} {bytes} x b h = value (first_bits b bytes x) (
    value (later_bits b bytes 4 (omega arith))
      (value (later_bits b bytes 2 (omega arith)) (value (later_bits b bytes 0 (omega arith)) h)))

split_two_bytes :
    (x : ℕ) (bytes : List ℕ)
    → 32 ≤ length bytes
    → (y : ℕ) × Splits 2 (at x 0) bytes (map (crumb bytes) (up_to 8)) (at y 0) (skip 2 bytes)
unfolding skip
split_two_bytes x [] long = absurd (omega arith)
split_two_bytes x (a ∷ []) long = absurd (omega arith)
split_two_bytes x (a ∷ b ∷ bytes) long = (b, split_byte x a (split_byte a b no_values))

pub bits-Unpacks :
    Unpacks 2
      (record { unpack = spread_bits mask0_2to32 mask1_2to32 shift_2to32 and_2to32; taken = 2 })
bits-Unpacks = record {
  lane = crumb;
  unpacked = λ bytes clean.
      All-implied {P = BitLane bytes} (up_to 8) (λ i. bits_lane bytes i clean)
        (lanes_of_bits bytes);
  fits = λ bytes i h. omega arith;
  split = λ x bytes h long. split_two_bytes x bytes long;
}
