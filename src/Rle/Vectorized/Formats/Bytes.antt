-- ===== src/Rle/Vectorized/Formats/Bytes.antt =====
-- src/orc/RLE2.cpp, readLongs under `__AVX2__`: the branches for values of one byte to four bytes.
use mathlib.Core.Path.{subst}
use tengdb.Common.{map}
use tengdb.Rle.Vectorized.Words.{Splits, at}
use tengdb.Common.{ℕ, ◌+◌, ◌*◌, ◌≡◌, ◌≤◌, arith, List, All, length}
use tengdb.Rle.Longs.Window.{IsByte}
use tengdb.Rle.Vector.{lane32, up_to, permutevar8x32_epi32, shuffle_epi8, set_epi32, set_epi8, skip}
use tengdb.Rle.Vector.Masks.{
  mask0_8to32, mask1_8to32, mask0_16to32, mask1_16to32, mask0_24to32, mask1_24to32, mask0_32to32,
  mask1_32to32,
}
use tengdb.Rle.Vectorized.{spread}
use tengdb.Rle.Vectorized.Words.{
  word, ReadsWord, one_byte-ReadsWord, two_bytes-ReadsWord, three_bytes-ReadsWord,
  four_bytes-ReadsWord,
}
use tengdb.Rle.Vectorized.Formats.{loaded, Unpacks, split_words, word-lt}

-- The lanes are the words.
module _ (bytes : List ℕ) where
  lanes_of_one :
      All
        (λ i. lane32 (spread mask0_8to32 mask1_8to32 (loaded bytes)) i ≡ word 1 bytes (1 * i))
        (up_to 8)
  unfolding spread shuffle_epi8 permutevar8x32_epi32 mask0_8to32 mask1_8to32 set_epi32 set_epi8
  lanes_of_one = (omega arith, (omega arith, ground arith))

  lanes_of_two :
      All
        (λ i. lane32 (spread mask0_16to32 mask1_16to32 (loaded bytes)) i ≡ word 2 bytes (2 * i))
        (up_to 8)
  unfolding spread shuffle_epi8 permutevar8x32_epi32 mask0_16to32 mask1_16to32 set_epi32 set_epi8
  lanes_of_two = (omega arith, (omega arith, ground arith))

  lanes_of_three :
      All
        (λ i. lane32 (spread mask0_24to32 mask1_24to32 (loaded bytes)) i ≡ word 3 bytes (3 * i))
        (up_to 8)
  unfolding spread shuffle_epi8 permutevar8x32_epi32 mask0_24to32 mask1_24to32 set_epi32 set_epi8
  lanes_of_three = (omega arith, (omega arith, ground arith))

  lanes_of_four :
      All
        (λ i. lane32 (spread mask0_32to32 mask1_32to32 (loaded bytes)) i ≡ word 4 bytes (4 * i))
        (up_to 8)
  unfolding spread shuffle_epi8 permutevar8x32_epi32 mask0_32to32 mask1_32to32 set_epi32 set_epi8
  lanes_of_four = (omega arith, (omega arith, ground arith))

-- A branch whose lanes are the words of `k` bytes.
words-Unpacks :
    (k : ℕ) (unpack : (ℕ → ℕ) → ℕ → ℕ)
    → ReadsWord k
    → k ≤ 4
    → ((bytes : List ℕ)
        → All (λ i. lane32 (unpack (loaded bytes)) i ≡ word k bytes (k * i)) (up_to 8))
    → Unpacks (8 * k) (record { unpack = unpack; taken = 8 * k })
unfolding skip
words-Unpacks k unpack reads few lanes = record {
  lane = λ bytes i. word k bytes (k * i);
  unpacked = λ bytes h. lanes bytes;
  fits = λ bytes i h. word-lt k (k * i) bytes h;
  split = λ x bytes h long. from_start bytes h x long;
}
  where
    from_start :
        (bytes : List ℕ)
        → All IsByte bytes
        → (x : ℕ) → 32 ≤ length bytes
        → (y : ℕ) × Splits
            (8 * k)
            (at x 0)
            bytes
            (map (λ i. word k bytes (k * i)) (up_to 8))
            (at y 0)
            (skip (8 * k) bytes)
    from_start bytes h x long =
        let (y, s) = split_words k reads bytes h 8 x 0 (omega arith) in
        let values = map (λ i. word k bytes (k * i)) (up_to 8) in
        let start : k * 0 ≡ 0 = omega arith in
        let end : k * (0 + 8) ≡ 8 * k = omega arith in
        (
          y,
          subst
              (λ (p : ℕ).
                Splits (8 * k) (at x 0) (skip p bytes) values (at y 0) (skip (8 * k) bytes))
              start
              (subst
                (λ (q : ℕ).
                  Splits (8 * k) (at x 0) (skip (k * 0) bytes) values (at y 0) (skip q bytes))
                end s),
        )

pub one_byte-Unpacks : Unpacks 8 (record { unpack = spread mask0_8to32 mask1_8to32; taken = 8 })
one_byte-Unpacks = words-Unpacks 1 _ one_byte-ReadsWord (omega arith) lanes_of_one

pub two_bytes-Unpacks :
    Unpacks 16 (record { unpack = spread mask0_16to32 mask1_16to32; taken = 16 })
two_bytes-Unpacks = words-Unpacks 2 _ two_bytes-ReadsWord (omega arith) lanes_of_two

pub three_bytes-Unpacks :
    Unpacks 24 (record { unpack = spread mask0_24to32 mask1_24to32; taken = 24 })
three_bytes-Unpacks = words-Unpacks 3 _ three_bytes-ReadsWord (omega arith) lanes_of_three

pub four_bytes-Unpacks :
    Unpacks 32 (record { unpack = spread mask0_32to32 mask1_32to32; taken = 32 })
four_bytes-Unpacks = words-Unpacks 4 _ four_bytes-ReadsWord (omega arith) lanes_of_four
