-- ===== src/Rle/Vector.antt =====
-- The 256-bit registers of src/orc/RLE2.cpp and the AVX2 operations that it applies to them.
-- A register is its 32 bytes, the lowest first, read as eight numbers of 32 bits or sixteen of 16.
pub mod Masks
pub mod Lanes
use tengdb.Common.{ℕ, zero, suc, ◌+◌, ◌-◌, ◌*◌, ◌/◌, ◌%◌, ◌^◌, List, [], ◌∷◌, map, get_or}
use tengdb.Common.{length, ltb, ◌==◌}
use tengdb.Common.{bit_and, bit_xor, if◌then◌else◌}
use tengdb.Common.Memory.{Memory, write_bytes}
use tengdb.Common.Run.{Read, ok, fault, past_end}
use tengdb.Rle.Word.{add, sub, is_negative}

abbrev pub Vector : Type 0
Vector = ℕ → ℕ

-- The number of four bytes from `4 * i` on, and of two bytes from `2 * i` on.
abbrev pub lane32 : Vector → ℕ → ℕ
lane32 v i = v (4 * i) + v (4 * i + 1) * 2 ^ 8 + v (4 * i + 2) * 2 ^ 16 + v (4 * i + 3) * 2 ^ 24

abbrev pub lane16 : Vector → ℕ → ℕ
lane16 v i = v (2 * i) + v (2 * i + 1) * 2 ^ 8

-- The registers with given lanes.
abbrev pub from_lanes32 : (ℕ → ℕ) → Vector
from_lanes32 f j = f (j / 4) / 2 ^ (8 * (j % 4)) % 2 ^ 8

abbrev pub from_lanes16 : (ℕ → ℕ) → Vector
from_lanes16 f j = f (j / 2) / 2 ^ (8 * (j % 2)) % 2 ^ 8

-- `_mm256_set_epi32` and `_mm256_set_epi8` name the highest lane first, `_mm256_set1_epi32` all.
unfoldable pub set_epi32 : List ℕ → Vector
set_epi32 lanes = from_lanes32 (λ i. get_or lanes (7 - i) 0)

unfoldable pub set_epi8 : List ℕ → Vector
set_epi8 bytes j = get_or bytes (31 - j) 0

unfoldable pub set1_epi32 : ℕ → Vector
set1_epi32 value = from_lanes32 (λ _. value)

-- `_mm256_permutevar8x32_epi32`: each lane of the result is the lane that the index names.
unfoldable pub permutevar8x32_epi32 : Vector → Vector → Vector
permutevar8x32_epi32 v index j = v (4 * (lane32 index (j / 4) % 8) + j % 4)

-- `_mm256_shuffle_epi8`: in each half of sixteen bytes on its own, each byte of the result is the
-- byte of the same half that the mask names, and zero where the mask's highest bit is set.
unfoldable pub shuffle_epi8 : Vector → Vector → Vector
shuffle_epi8 v mask j = if ltb (mask j) 0x80 then v (j / 16 * 16 + mask j % 16) else 0

-- `_mm256_and_si256` and `_mm256_xor_si256` work on each bit: here lane by lane.
unfoldable pub and_si256 : Vector → Vector → Vector
and_si256 v v' = from_lanes32 (λ i. bit_and (lane32 v i) (lane32 v' i))

unfoldable pub xor_si256 : Vector → Vector → Vector
xor_si256 v v' = from_lanes32 (λ i. bit_xor (lane32 v i) (lane32 v' i))

-- `_mm256_add_epi32`, `_mm256_sub_epi32` and `_mm256_sub_epi16`, with the wrap-around.
unfoldable pub add_epi32 : Vector → Vector → Vector
add_epi32 v v' = from_lanes32 (λ i. add 32 (lane32 v i) (lane32 v' i))

unfoldable pub sub_epi32 : Vector → Vector → Vector
sub_epi32 v v' = from_lanes32 (λ i. sub 32 (lane32 v i) (lane32 v' i))

unfoldable pub sub_epi16 : Vector → Vector → Vector
sub_epi16 v v' = from_lanes16 (λ i. sub 16 (lane16 v i) (lane16 v' i))

-- A shift right of a pattern of `w` bits, the sign bit copied.
unfoldable pub shift_arithmetic : ℕ → ℕ → ℕ → ℕ
shift_arithmetic w x n = if is_negative w x then x / 2 ^ n + (2 ^ w - 2 ^ (w - n)) else x / 2 ^ n

-- `_mm256_srai_epi32`, `_mm256_srai_epi16` and `_mm256_srlv_epi32`, whose counts stand in lanes.
unfoldable pub srai_epi32 : Vector → ℕ → Vector
srai_epi32 v n = from_lanes32 (λ i. shift_arithmetic 32 (lane32 v i) n)

unfoldable pub srai_epi16 : Vector → ℕ → Vector
srai_epi16 v n = from_lanes16 (λ i. shift_arithmetic 16 (lane16 v i) n)

unfoldable pub srlv_epi32 : Vector → Vector → Vector
srlv_epi32 v counts = from_lanes32 (λ i. lane32 v i / 2 ^ lane32 counts i)

-- `_mm256_loadu_si256` at `&data[index]` reads 32 bytes and takes none.
unfoldable pub loadu_data : Read Vector
loadu_data bytes =
    if ltb (length bytes) 32 then fault past_end else ok ((λ j. get_or bytes j 0), bytes)

-- `index += n` behind such a load.
unfoldable pub skip : ℕ → List ℕ → List ℕ
skip zero bytes = bytes
skip (suc n) [] = []
skip (suc n) (b ∷ bytes) = skip n bytes

unfoldable pub advance : ℕ → Read (Unit {0})
advance n bytes = ok (tt, skip n bytes)

-- The numbers below `n`, in their order.
abbrev pub counted : ℕ → ℕ → List ℕ
counted zero i = []
counted (suc n) i = i ∷ counted n (i + 1)

abbrev pub up_to : ℕ → List ℕ
up_to n = counted n 0

-- The elements of a register, where these have `w` bits.
unfoldable pub lanes : ℕ → Vector → List ℕ
lanes w v =
    if w == 32
    then map (lane32 v) (up_to 8)
    else if w == 16
    then map (lane16 v) (up_to 16)
    else map v (up_to 32)

-- `_mm256_storeu_si256` at `&result[p]`, and the load from there.
unfoldable pub storeu : ℕ → Memory → ℕ → Vector → Memory
storeu w result p v = write_bytes result p (lanes w v)

unfoldable pub loadu_result : Memory → ℕ → Vector
loadu_result result p = from_lanes32 (λ i. result (p + i))
