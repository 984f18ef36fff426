-- ===== src/Rle/Word.antt =====
-- src/orc/RLE2.cpp: numbers of `w` bits, as bit patterns, and unZigZag.
use tengdb.Common.{ℕ, ◌+◌, ◌-◌, ◌*◌, ◌/◌, ◌%◌, ◌^◌, ◌<◌, ◌≡◌, bit_and, bit_xor, arith, ltb, Bool}
use tengdb.Common.{if◌then◌else◌, ◌∙◌}
use tengdb.Common.Bits.{and_mask, xor_ones, xor-zero, pow_pos}
pub use tengdb.Common.Int.{ℤ, pos, negsuc}
use native.Mathlib.Nat.{mod-eq_of_lt, mod_self}

-- Sums and differences of two patterns.
unfoldable pub add : ℕ → ℕ → ℕ → ℕ
add w a b = (a + b) % 2 ^ w

unfoldable pub sub : ℕ → ℕ → ℕ → ℕ
sub w a b = (a + 2 ^ w - b) % 2 ^ w

-- The sign bit is set.
unfoldable pub is_negative : ℕ → ℕ → Bool
is_negative w a = ltb (2 ^ w - 1) (2 * a)

-- `value >> 1 ^ -(value & 1)`
unfoldable pub un_zigzag : ℕ → ℕ → ℕ
unfolding sub
un_zigzag w value = bit_xor (value / 2) (sub w 0 (bit_and value 1))

-- `result[i] = issigned ? unZigZag(raw) : static_cast<I>(raw)`
unfoldable pub convert : ℕ → Bool → ℕ → ℕ
convert w issigned raw = if issigned then un_zigzag w raw else raw

-- The `w` bits of an integer, in two's complement.
abbrev pub pattern_of : ℕ → ℤ → ℕ
pattern_of w (pos n) = n
pattern_of w (negsuc n) = 2 ^ w - 1 - n

-- The code that a writer gives an integer: 0, -1, 1, -2, 2 are 0, 1, 2, 3, 4.
abbrev pub zigzag : ℤ → ℕ
zigzag (pos n) = 2 * n
zigzag (negsuc n) = 2 * n + 1

low_bit : (x : ℕ) → bit_and x 1 ≡ x % 2
low_bit x = and_mask 1 x

-- Every code of `w` bits decodes to the two's complement of the integer that it was given to.
pub un_zigzag-zigzag : (w : ℕ) (z : ℤ) → zigzag z < 2 ^ w → un_zigzag w (zigzag z) ≡ pattern_of w z
unfolding un_zigzag sub
un_zigzag-zigzag w (pos n) h =
    let even : 2 * n % 2 ≡ 0 = omega arith in
    let half : 2 * n / 2 ≡ n = omega arith in
    let whole : 0 + 2 ^ w - 0 ≡ 2 ^ w = omega arith in
    rw (low_bit (2 * n), even, half, whole, mod_self (2 ^ w)) (xor-zero n)
un_zigzag-zigzag w (negsuc n) h =
    let odd : (2 * n + 1) % 2 ≡ 1 = omega arith in
    let half : (2 * n + 1) / 2 ≡ n = omega arith in
    let ones : (0 + 2 ^ w - 1) % 2 ^ w ≡ 2 ^ w - 1 =
      mod-eq_of_lt (omega (arith, pow_pos w)) ∙ omega arith in
    rw (low_bit (2 * n + 1), odd, half, ones) (xor_ones w n (omega arith))
