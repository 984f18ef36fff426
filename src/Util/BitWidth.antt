-- ===== src/Util/BitWidth.antt =====
-- include/util.h: the widths that a run may have, by number and by need.
use tengdb.Common.{ℕ, ◌+◌, ◌-◌, ◌≤◌, ◌≡◌, ltb, leb, ◌==◌, if◌then◌else◌, ◌&&◌, arith}

unfoldable pub decode_bit_width : ℕ → ℕ
decode_bit_width n =
    if leb n 23
    then n + 1
    else if n == 24
    then 26
    else if n == 25
    then 28
    else if n == 26
    then 30
    else if n == 27
    then 32
    else if n == 28
    then 40
    else if n == 29
    then 48
    else if n == 30
    then 56
    else 64

unfoldable pub get_closest_fixed_bits : ℕ → ℕ
get_closest_fixed_bits n =
    if n == 0
    then 1
    else if leb 1 n && leb n 24
    then n
    else if ltb 24 n && leb n 26
    then 26
    else if ltb 26 n && leb n 28
    then 28
    else if ltb 28 n && leb n 30
    then 30
    else if ltb 30 n && leb n 32
    then 32
    else if ltb 32 n && leb n 40
    then 40
    else if ltb 40 n && leb n 48
    then 48
    else if ltb 48 n && leb n 56
    then 56
    else 64

-- Every code names a width from 1 to 64.
pub decode_bit_width_bounds : (n : ℕ) → (1 ≤ decode_bit_width n) × (decode_bit_width n ≤ 64)
unfolding decode_bit_width
decode_bit_width_bounds n = ground arith

-- The code that a writer gives to values of `n` bits.
pub width_code : ℕ → ℕ
width_code n =
    if leb n 24
    then n - 1
    else if leb n 26
    then 24
    else if leb n 28
    then 25
    else if leb n 30
    then 26
    else if leb n 32
    then 27
    else if leb n 40
    then 28
    else if leb n 48
    then 29
    else if leb n 56
    then 30
    else 31

module _ (n : ℕ) where
  closest-le_small : (m : ℕ) → n ≤ m → 1 ≤ m → m ≤ 24 → get_closest_fixed_bits n ≤ m
  unfolding get_closest_fixed_bits
  closest-le_small m h lo hi = ground arith

  closest-le_steps :
      (n ≤ 26 → get_closest_fixed_bits n ≤ 26)
      × (n ≤ 28 → get_closest_fixed_bits n ≤ 28)
      × (n ≤ 30 → get_closest_fixed_bits n ≤ 30)
      × (n ≤ 32 → get_closest_fixed_bits n ≤ 32)
      × (n ≤ 40 → get_closest_fixed_bits n ≤ 40)
      × (n ≤ 48 → get_closest_fixed_bits n ≤ 48)
      × (n ≤ 56 → get_closest_fixed_bits n ≤ 56)
      × (get_closest_fixed_bits n ≤ 64)
  unfolding get_closest_fixed_bits
  closest-le_steps = (
    λ h. ground arith,
    λ h. ground arith,
    λ h. ground arith,
    λ h. ground arith,
    λ h. ground arith,
    λ h. ground arith,
    λ h. ground arith,
    ground arith,
  )

  le-closest : n ≤ 64 → n ≤ get_closest_fixed_bits n
  unfolding get_closest_fixed_bits
  le-closest h = ground arith

  -- The closest fixed width is the width that the writer's code for `n` bits names.
  pub decode_bit_width-width_code : decode_bit_width (width_code n) ≡ get_closest_fixed_bits n
  unfolding decode_bit_width get_closest_fixed_bits width_code
  decode_bit_width-width_code = ground arith

-- For up to 64 bits the closest fixed width is at least the width asked for, a code names it, and
-- every width that a code names and that is large enough is at least as large.
pub get_closest_fixed_bits_least :
    (n c : ℕ)
    → n ≤ 64
    → (n ≤ get_closest_fixed_bits n)
      × (decode_bit_width (width_code n) ≡ get_closest_fixed_bits n)
      × (n ≤ decode_bit_width c → get_closest_fixed_bits n ≤ decode_bit_width c)
get_closest_fixed_bits_least n c small =
    (le-closest n small, decode_bit_width-width_code n, λ h. smallest h)
  where
    smallest : n ≤ decode_bit_width c → get_closest_fixed_bits n ≤ decode_bit_width c
    smallest h =
        unfold decode_bit_width in ground (arith, closest-le_small n (c + 1), closest-le_steps n)
