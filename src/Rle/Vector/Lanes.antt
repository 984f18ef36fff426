-- ===== src/Rle/Vector/Lanes.antt =====
-- The registers of src/orc/RLE2.cpp: what the lanes of the results are.
use tengdb.Common.{ℕ, ◌+◌, ◌*◌, ◌/◌, ◌%◌, ◌^◌, ◌≡◌, arith}
use tengdb.Rle.Vector.{lane32, from_lanes32}

four_bytes :
    (x : ℕ)
    → x % 2 ^ 8
        + x / 2 ^ 8 % 2 ^ 8 * 2 ^ 8
        + x / 2 ^ 16 % 2 ^ 8 * 2 ^ 16
        + x / 2 ^ 24 % 2 ^ 8 * 2 ^ 24
      ≡ x % 2 ^ 32
four_bytes x = omega arith

-- A lane keeps the low 32 bits of what is put into it.
pub lane32-from_lanes32 : (f : ℕ → ℕ) (i : ℕ) → lane32 (from_lanes32 f) i ≡ f i % 2 ^ 32
lane32-from_lanes32 f i =
    let q0 : 4 * i / 4 ≡ i = omega arith in
    let q1 : (4 * i + 1) / 4 ≡ i = omega arith in
    let q2 : (4 * i + 2) / 4 ≡ i = omega arith in
    let q3 : (4 * i + 3) / 4 ≡ i = omega arith in
    let r0 : 4 * i % 4 ≡ 0 = omega arith in
    let r1 : (4 * i + 1) % 4 ≡ 1 = omega arith in
    let r2 : (4 * i + 2) % 4 ≡ 2 = omega arith in
    let r3 : (4 * i + 3) % 4 ≡ 3 = omega arith in
    rw (q0, r0, q1, r1, q2, r2, q3, r3) (omega (arith, four_bytes (f i)))
