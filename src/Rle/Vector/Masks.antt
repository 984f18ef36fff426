-- ===== src/Rle/Vector/Masks.antt =====
-- src/orc/RLE2.cpp: the constants under `__AVX2__`, written as there, the highest lane first. A byte
-- of -1 is 255.
use tengdb.Common.{[], ◌∷◌}
use tengdb.Rle.Vector.{Vector, set_epi32, set_epi8}

unfoldable pub mask0_32to32 : Vector
mask0_32to32 = set_epi32 (7 ∷ 6 ∷ 5 ∷ 4 ∷ 3 ∷ 2 ∷ 1 ∷ 0 ∷ [])

unfoldable pub mask1_32to32 : Vector
mask1_32to32 = set_epi8 (
    12 ∷ 13 ∷ 14 ∷ 15 ∷ 8 ∷ 9 ∷ 10 ∷ 11 ∷ 4 ∷ 5 ∷ 6 ∷ 7 ∷ 0 ∷ 1 ∷ 2 ∷ 3 ∷ 12 ∷ 13 ∷ 14 ∷ 15 ∷ 8 ∷ 9
    ∷ 10 ∷ 11 ∷ 4 ∷ 5 ∷ 6 ∷ 7 ∷ 0 ∷ 1 ∷ 2 ∷ 3 ∷ [])

unfoldable pub mask0_24to32 : Vector
mask0_24to32 = set_epi32 (6 ∷ 5 ∷ 4 ∷ 3 ∷ 3 ∷ 2 ∷ 1 ∷ 0 ∷ [])

unfoldable pub mask1_24to32 : Vector
mask1_24to32 = set_epi8 (
    255 ∷ 9 ∷ 10 ∷ 11 ∷ 255 ∷ 6 ∷ 7 ∷ 8 ∷ 255 ∷ 3 ∷ 4 ∷ 5 ∷ 255 ∷ 0 ∷ 1 ∷ 2 ∷ 255 ∷ 9 ∷ 10 ∷ 11
    ∷ 255 ∷ 6 ∷ 7 ∷ 8 ∷ 255 ∷ 3 ∷ 4 ∷ 5 ∷ 255 ∷ 0 ∷ 1 ∷ 2 ∷ [])

unfoldable pub mask0_16to32 : Vector
mask0_16to32 = set_epi32 (5 ∷ 4 ∷ 3 ∷ 2 ∷ 3 ∷ 2 ∷ 1 ∷ 0 ∷ [])

unfoldable pub mask1_16to32 : Vector
mask1_16to32 = set_epi8 (
    255 ∷ 255 ∷ 6 ∷ 7 ∷ 255 ∷ 255 ∷ 4 ∷ 5 ∷ 255 ∷ 255 ∷ 2 ∷ 3 ∷ 255 ∷ 255 ∷ 0 ∷ 1 ∷ 255 ∷ 255 ∷ 6
    ∷ 7 ∷ 255 ∷ 255 ∷ 4 ∷ 5 ∷ 255 ∷ 255 ∷ 2 ∷ 3 ∷ 255 ∷ 255 ∷ 0 ∷ 1 ∷ [])

unfoldable pub mask0_8to32 : Vector
mask0_8to32 = set_epi32 (3 ∷ 2 ∷ 1 ∷ 0 ∷ 3 ∷ 2 ∷ 1 ∷ 0 ∷ [])

unfoldable pub mask1_8to32 : Vector
mask1_8to32 = set_epi8 (
    255 ∷ 255 ∷ 255 ∷ 7 ∷ 255 ∷ 255 ∷ 255 ∷ 6 ∷ 255 ∷ 255 ∷ 255 ∷ 5 ∷ 255 ∷ 255 ∷ 255 ∷ 4 ∷ 255
    ∷ 255 ∷ 255 ∷ 3 ∷ 255 ∷ 255 ∷ 255 ∷ 2 ∷ 255 ∷ 255 ∷ 255 ∷ 1 ∷ 255 ∷ 255 ∷ 255 ∷ 0 ∷ [])

unfoldable pub mask0_4to32 : Vector
mask0_4to32 = set_epi32 (3 ∷ 2 ∷ 1 ∷ 0 ∷ 3 ∷ 2 ∷ 1 ∷ 0 ∷ [])

unfoldable pub mask1_4to32 : Vector
mask1_4to32 = set_epi8 (
    255 ∷ 255 ∷ 255 ∷ 3 ∷ 255 ∷ 255 ∷ 255 ∷ 3 ∷ 255 ∷ 255 ∷ 255 ∷ 2 ∷ 255 ∷ 255 ∷ 255 ∷ 2 ∷ 255
    ∷ 255 ∷ 255 ∷ 1 ∷ 255 ∷ 255 ∷ 255 ∷ 1 ∷ 255 ∷ 255 ∷ 255 ∷ 0 ∷ 255 ∷ 255 ∷ 255 ∷ 0 ∷ [])

unfoldable pub shift_4to32 : Vector
shift_4to32 = set_epi32 (0 ∷ 4 ∷ 0 ∷ 4 ∷ 0 ∷ 4 ∷ 0 ∷ 4 ∷ [])

unfoldable pub and_4to32 : Vector
and_4to32 = set_epi32 (31 ∷ 31 ∷ 31 ∷ 31 ∷ 31 ∷ 31 ∷ 31 ∷ 31 ∷ [])

unfoldable pub mask0_2to32 : Vector
mask0_2to32 = set_epi32 (0 ∷ 0 ∷ 1 ∷ 0 ∷ 0 ∷ 0 ∷ 1 ∷ 0 ∷ [])

unfoldable pub mask1_2to32 : Vector
mask1_2to32 = set_epi8 (
    255 ∷ 255 ∷ 255 ∷ 1 ∷ 255 ∷ 255 ∷ 255 ∷ 1 ∷ 255 ∷ 255 ∷ 255 ∷ 1 ∷ 255 ∷ 255 ∷ 255 ∷ 1 ∷ 255
    ∷ 255 ∷ 255 ∷ 0 ∷ 255 ∷ 255 ∷ 255 ∷ 0 ∷ 255 ∷ 255 ∷ 255 ∷ 0 ∷ 255 ∷ 255 ∷ 255 ∷ 0 ∷ [])

unfoldable pub shift_2to32 : Vector
shift_2to32 = set_epi32 (0 ∷ 2 ∷ 4 ∷ 6 ∷ 0 ∷ 2 ∷ 4 ∷ 6 ∷ [])

unfoldable pub and_2to32 : Vector
and_2to32 = set_epi32 (3 ∷ 3 ∷ 3 ∷ 3 ∷ 3 ∷ 3 ∷ 3 ∷ 3 ∷ [])

unfoldable pub mask0_16to16 : Vector
mask0_16to16 = set_epi32 (7 ∷ 6 ∷ 5 ∷ 4 ∷ 3 ∷ 2 ∷ 1 ∷ 0 ∷ [])

unfoldable pub mask1_16to16 : Vector
mask1_16to16 = set_epi8 (
    14 ∷ 15 ∷ 12 ∷ 13 ∷ 10 ∷ 11 ∷ 8 ∷ 9 ∷ 6 ∷ 7 ∷ 4 ∷ 5 ∷ 2 ∷ 3 ∷ 0 ∷ 1 ∷ 14 ∷ 15 ∷ 12 ∷ 13 ∷ 10
    ∷ 11 ∷ 8 ∷ 9 ∷ 6 ∷ 7 ∷ 4 ∷ 5 ∷ 2 ∷ 3 ∷ 0 ∷ 1 ∷ [])

unfoldable pub mask0_8to16 : Vector
mask0_8to16 = set_epi32 (3 ∷ 2 ∷ 1 ∷ 0 ∷ 3 ∷ 2 ∷ 1 ∷ 0 ∷ [])

unfoldable pub mask1_8to16 : Vector
mask1_8to16 = set_epi8 (
    255 ∷ 15 ∷ 255 ∷ 14 ∷ 255 ∷ 13 ∷ 255 ∷ 12 ∷ 255 ∷ 11 ∷ 255 ∷ 10 ∷ 255 ∷ 9 ∷ 255 ∷ 8 ∷ 255 ∷ 7
    ∷ 255 ∷ 6 ∷ 255 ∷ 5 ∷ 255 ∷ 4 ∷ 255 ∷ 3 ∷ 255 ∷ 2 ∷ 255 ∷ 1 ∷ 255 ∷ 0 ∷ [])

unfoldable pub mask0_4to16 : Vector
mask0_4to16 = set_epi32 (3 ∷ 2 ∷ 1 ∷ 0 ∷ 3 ∷ 2 ∷ 1 ∷ 0 ∷ [])

unfoldable pub mask1_4to16 : Vector
mask1_4to16 = set_epi8 (
    255 ∷ 7 ∷ 255 ∷ 7 ∷ 255 ∷ 6 ∷ 255 ∷ 6 ∷ 255 ∷ 5 ∷ 255 ∷ 5 ∷ 255 ∷ 4 ∷ 255 ∷ 4 ∷ 255 ∷ 3 ∷ 255
    ∷ 3 ∷ 255 ∷ 2 ∷ 255 ∷ 2 ∷ 255 ∷ 1 ∷ 255 ∷ 1 ∷ 255 ∷ 0 ∷ 255 ∷ 0 ∷ [])

unfoldable pub mask0_8to8 : Vector
mask0_8to8 = set_epi32 (7 ∷ 6 ∷ 5 ∷ 4 ∷ 3 ∷ 2 ∷ 1 ∷ 0 ∷ [])

unfoldable pub mask1_8to8 : Vector
mask1_8to8 = set_epi8 (
    15 ∷ 14 ∷ 13 ∷ 12 ∷ 11 ∷ 10 ∷ 9 ∷ 8 ∷ 7 ∷ 6 ∷ 5 ∷ 4 ∷ 3 ∷ 2 ∷ 1 ∷ 0 ∷ 15 ∷ 14 ∷ 13 ∷ 12 ∷ 11
    ∷ 10 ∷ 9 ∷ 8 ∷ 7 ∷ 6 ∷ 5 ∷ 4 ∷ 3 ∷ 2 ∷ 1 ∷ 0 ∷ [])

unfoldable pub mask0_4to8 : Vector
mask0_4to8 = set_epi32 (3 ∷ 2 ∷ 1 ∷ 0 ∷ 3 ∷ 2 ∷ 1 ∷ 0 ∷ [])

unfoldable pub mask1_4to8 : Vector
mask1_4to8 = set_epi8 (
    15 ∷ 15 ∷ 14 ∷ 14 ∷ 13 ∷ 13 ∷ 12 ∷ 12 ∷ 1 ∷ 11 ∷ 10 ∷ 10 ∷ 9 ∷ 9 ∷ 8 ∷ 8 ∷ 7 ∷ 7 ∷ 6 ∷ 6 ∷ 5 ∷ 5
    ∷ 4 ∷ 4 ∷ 3 ∷ 3 ∷ 2 ∷ 2 ∷ 1 ∷ 1 ∷ 0 ∷ 0 ∷ [])

unfoldable pub one_32 : Vector
one_32 = set_epi32 (1 ∷ 1 ∷ 1 ∷ 1 ∷ 1 ∷ 1 ∷ 1 ∷ 1 ∷ [])

unfoldable pub zero_32 : Vector
zero_32 = set_epi32 (0 ∷ 0 ∷ 0 ∷ 0 ∷ 0 ∷ 0 ∷ 0 ∷ 0 ∷ [])

unfoldable pub one_16 : Vector
one_16 = set_epi8 (
    0 ∷ 1 ∷ 0 ∷ 1 ∷ 0 ∷ 1 ∷ 0 ∷ 1 ∷ 0 ∷ 1 ∷ 0 ∷ 1 ∷ 0 ∷ 1 ∷ 0 ∷ 1 ∷ 0 ∷ 1 ∷ 0 ∷ 1 ∷ 0 ∷ 1 ∷ 0 ∷ 1
    ∷ 0 ∷ 1 ∷ 0 ∷ 1 ∷ 0 ∷ 1 ∷ 0 ∷ 1 ∷ [])

unfoldable pub zero_16 : Vector
zero_16 = set_epi32 (0 ∷ 0 ∷ 0 ∷ 0 ∷ 0 ∷ 0 ∷ 0 ∷ 0 ∷ [])
