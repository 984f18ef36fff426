-- ===== src/Rle/Vectorized/Signed.antt =====
-- src/orc/RLE2.cpp: unZigZag32 against unZigZag.
use tengdb.Common.{ℕ, ◌/◌, ◌%◌, ◌^◌, ◌≡◌, ◌<◌, arith, bit_and, bit_xor, ◌∙◌, ap}
use tengdb.Common.{All, ◌==◌, Bool-cases, inl, inr}
use tengdb.Common.Bits.{and_mask, xor_ones, xor-zero}
use tengdb.Rle.Vector.{
  Vector, lane32, and_si256, xor_si256, sub_epi32, srai_epi32, shift_arithmetic, set_epi32,
}
use tengdb.Rle.Vector.{up_to}
use native.Mathlib.Nat.{mod-eq_of_lt}
use tengdb.Rle.Vectorized.Formats.{All-implied}
use tengdb.Rle.Vector.Lanes.{lane32-from_lanes32}
use tengdb.Rle.Vector.Masks.{one_32, zero_32}
use tengdb.Rle.Vectorized.{un_zigzag32}
use tengdb.Rle.Word.{un_zigzag, sub, is_negative}

abbrev Constants : ℕ → Type 0
Constants i = (lane32 one_32 i ≡ 1) × (lane32 zero_32 i ≡ 0)

constant_lanes : All Constants (up_to 8)
unfolding one_32 zero_32 set_epi32
constant_lanes = ground arith

-- A decoded value has 32 bits again.
un_zigzag-lt : (x : ℕ) → x < 2 ^ 32 → un_zigzag 32 x < 2 ^ 32
unfolding un_zigzag sub
un_zigzag-lt x h = elim (Bool-cases (x % 2 == 0)) [
  | inl even ↦
      let low : bit_and x 1 ≡ 0 = and_mask 1 x ∙ ground arith in
      rw (low, xor-zero (x / 2)) (omega arith)
  | inr odd ↦
      let low : bit_and x 1 ≡ 1 = and_mask 1 x ∙ ground arith in
      rw (low, xor_ones 32 (x / 2) (omega arith)) (omega arith)
]

-- The operations of unZigZag32 on a lane.
un_zigzag32_lane :
    (v : Vector) (i : ℕ)
    → lane32 one_32 i ≡ 1
    → lane32 zero_32 i ≡ 0
    → lane32 (un_zigzag32 v) i
      ≡ bit_xor
          (shift_arithmetic 32 (lane32 v i) 1 % 2 ^ 32)
          (sub 32 0 (bit_and (lane32 v i) 1 % 2 ^ 32) % 2 ^ 32)
        % 2 ^ 32
unfolding un_zigzag32 xor_si256 sub_epi32 srai_epi32 and_si256
un_zigzag32_lane v i one zero =
    rw (lane32-from_lanes32, lane32-from_lanes32, lane32-from_lanes32)
      (rw (lane32-from_lanes32, one, zero))

-- A lane below 2 ^ 31 is decoded as unZigZag does.
abbrev pub Decoded : Vector → ℕ → Type 0
Decoded v i = lane32 v i < 2 ^ 31 → lane32 (un_zigzag32 v) i ≡ un_zigzag 32 (lane32 v i)

pub un_zigzag32-Decoded : (v : Vector) → All (Decoded v) (up_to 8)
un_zigzag32-Decoded v =
    All-implied {P = Constants} {Q = Decoded v} (up_to 8)
      (λ i (one, zero) h. un_zigzag32_lane v i one zero ∙ plain (lane32 v i) h) constant_lanes
  where
    plain :
        (x : ℕ)
        → x < 2 ^ 31
        → bit_xor (shift_arithmetic 32 x 1 % 2 ^ 32) (sub 32 0 (bit_and x 1 % 2 ^ 32) % 2 ^ 32)
            % 2 ^ 32
          ≡ un_zigzag 32 x
    plain x h =
        let half : shift_arithmetic 32 x 1 % 2 ^ 32 ≡ x / 2 =
          unfold shift_arithmetic is_negative in ground arith in
        let bit : bit_and x 1 % 2 ^ 32 ≡ bit_and x 1 =
          ap (λ (n : ℕ). n % 2 ^ 32) (and_mask 1 x) ∙ omega (arith, and_mask 1 x) in
        let sign : sub 32 0 (bit_and x 1) % 2 ^ 32 ≡ sub 32 0 (bit_and x 1) =
          unfold sub in omega arith in
        rw (half, bit, sign) (unfold un_zigzag in mod-eq_of_lt (un_zigzag-lt x (omega arith)))
