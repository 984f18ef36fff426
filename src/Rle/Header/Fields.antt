-- ===== src/Rle/Header/Fields.antt =====
-- src/orc/RLE2.cpp: the fields that a header of two bytes was made of.
use tengdb.Common.{ℕ, ◌+◌, ◌-◌, ◌*◌, ◌/◌, ◌%◌, ◌^◌, ◌≤◌, ◌<◌, ◌≡◌, arith}
use tengdb.Common.Bits.{and_mask, or_disjoint}
use tengdb.Rle.Header.{width_field, run_length_field, encoding_field}

-- The first two bytes of a run of `n` values: two bits for the encoding, five for the width and
-- nine for the length less one.
abbrev pub first_byte : ℕ → ℕ → ℕ → ℕ
first_byte encoding code n = encoding * 64 + code * 2 + (n - 1) / 256

abbrev pub second_byte : ℕ → ℕ
second_byte n = (n - 1) % 256

-- The three fields of such a header are read back as they were written.
pub header_fields :
    (encoding code n : ℕ)
    → encoding < 4
    → code < 32
    → 1 ≤ n
    → n ≤ 512
    → (encoding_field (first_byte encoding code n) ≡ encoding)
      × (width_field (first_byte encoding code n) ≡ code)
      × (run_length_field (first_byte encoding code n) (second_byte n) ≡ n)
unfolding encoding_field width_field run_length_field
header_fields encoding code n he hc lo hi =
    let first = first_byte encoding code n in
    let high : first % 2 ≡ (n - 1) / 256 = omega arith in
    rw (and_mask 2 (first / 2 ^ 6), and_mask 5 (first / 2), and_mask 1 first, high)
      (
        omega arith,
        omega arith,
        rw (or_disjoint 8 ((n - 1) / 256) (second_byte n) (omega arith)) (omega arith),
      )
