-- ===== src/Rle/Vectorized.antt =====
-- src/orc/RLE2.cpp: the code under `__AVX2__`, which runs where FLAGS_vectorization is set: the
-- registers that readLongs unpacks, and readLongs itself.
pub mod Words
pub mod Formats
pub mod Signed
pub mod Longs
pub mod Equal
pub mod Delta
pub mod Next
mod Tests
use tengdb.Common.{ℕ, zero, suc, ◌+◌, ◌-◌, ◌*◌, ◌/◌, ◌%◌, ◌^◌, Bool, true, false, ◌&&◌, ◌||◌}
use tengdb.Common.{ltb, leb, ◌==◌, if◌then◌else◌, Option, none, some}
use tengdb.Common.Memory.{Memory}
use tengdb.Common.Run.{Read, ◌>>=◌, pure}
use tengdb.Rle.Longs.{Cursor, read_longs_loop}
use tengdb.Rle.Vector.{Vector, and_si256, sub_epi32, sub_epi16, srai_epi32, srai_epi16, xor_si256}
use tengdb.Rle.Vector.{permutevar8x32_epi32, shuffle_epi8, srlv_epi32, loadu_data, advance, storeu}
use tengdb.Rle.Vector.Masks.{
  and_2to32, and_4to32, mask0_16to16, mask0_16to32, mask0_24to32, mask0_2to32, mask0_32to32,
  mask0_4to16, mask0_4to32, mask0_8to16, mask0_8to32, mask0_8to8, mask1_16to16, mask1_16to32,
  mask1_24to32, mask1_2to32, mask1_32to32, mask1_4to16, mask1_4to32, mask1_8to16, mask1_8to32,
  mask1_8to8, one_16, one_32, shift_2to32, shift_4to32, zero_16, zero_32,
}

unfoldable pub un_zigzag32 : Vector → Vector
un_zigzag32 result =
    let and_value = and_si256 result one_32 in
    let sub_value = sub_epi32 zero_32 and_value in
    let shift_value = srai_epi32 result 1 in xor_si256 shift_value sub_value

unfoldable pub un_zigzag16 : Vector → Vector
un_zigzag16 result =
    let and_value = and_si256 result one_16 in
    let sub_value = sub_epi16 zero_16 and_value in
    let shift_value = srai_epi16 result 1 in xor_si256 shift_value sub_value

-- What a round does with the 32 bytes that it loads, and how far it moves `index`.
pub record Format : Type 0 where
  pub unpack : Vector → Vector
  pub taken : ℕ

unfoldable pub spread : Vector → Vector → Vector → Vector
spread permute shuffle data_256 = shuffle_epi8 (permutevar8x32_epi32 data_256 permute) shuffle

unfoldable pub spread_bits : Vector → Vector → Vector → Vector → Vector → Vector
spread_bits permute shuffle shift mask data_256 =
    and_si256 (srlv_epi32 (spread permute shuffle data_256) shift) mask

-- The branches for four bytes, two bytes and one byte, by `bytesize` and then by `fb`. Where none
-- of them is taken no round is made.
unfoldable pub format32 : ℕ → Option Format
format32 fb =
    let bytesize = fb / 8 in
    if bytesize == 4
    then some (record { unpack = spread mask0_32to32 mask1_32to32; taken = 8 * bytesize })
    else if bytesize == 3
    then some (record { unpack = spread mask0_24to32 mask1_24to32; taken = 8 * bytesize })
    else if bytesize == 2
    then some (record { unpack = spread mask0_16to32 mask1_16to32; taken = 8 * bytesize })
    else if bytesize == 1
    then some (record { unpack = spread mask0_8to32 mask1_8to32; taken = 8 * bytesize })
    else if fb == 4
    then some (record {
      unpack = spread_bits mask0_4to32 mask1_4to32 shift_4to32 and_4to32;
      taken = 8 / 2;
    })
    else if fb == 2
    then some (record {
      unpack = spread_bits mask0_2to32 mask1_2to32 shift_2to32 and_2to32;
      taken = 8 / 4;
    })
    else none

unfoldable pub format16 : ℕ → Option Format
format16 fb =
    let bytesize = fb / 8 in
    if bytesize == 2
    then some (record { unpack = spread mask0_16to16 mask1_16to16; taken = 16 * bytesize })
    else if bytesize == 1
    then some (record { unpack = spread mask0_8to16 mask1_8to16; taken = 16 * bytesize })
    else if fb == 4
    then some (record { unpack = spread mask0_4to16 mask1_4to16; taken = 16 / 2 })
    else none

unfoldable pub format8 : ℕ → Option Format
format8 fb =
    let bytesize = fb / 8 in
    if bytesize == 1
    then some (record { unpack = spread mask0_8to8 mask1_8to8; taken = 32 * bytesize })
    else if fb == 4
    then some (record { unpack = spread mask0_8to8 mask1_8to8; taken = 32 / 2 })
    else none

unfoldable pub format : ℕ → ℕ → Option Format
format w fb =
    if w / 8 == 4
    then format32 fb
    else if w / 8 == 2
    then format16 fb
    else if w / 8 == 1
    then format8 fb
    else none

-- `issigned ? unZigZag(value) : value`; the branches for one byte do not look at `issigned`.
unfoldable pub convert_vector : ℕ → Bool → Vector → Vector
convert_vector w issigned value =
    if w / 8 == 4
    then (if issigned then un_zigzag32 value else value)
    else if w / 8 == 2
    then (if issigned then un_zigzag16 value else value)
    else value

-- `for(int j=0;j<foldrun;j++)` with `n` rounds left.
unfoldable pub read_rounds : ℕ → ℕ → Bool → Format → ℕ → ℕ → Memory → Read Memory
read_rounds w batch issigned f zero offset result = pure result
read_rounds w batch issigned f (suc n) offset result = do
  data_256 ← loadu_data
  let value = convert_vector w issigned (f.unpack data_256)
  _ ← advance f.taken
  read_rounds w batch issigned f n (offset + batch) (storeu w result offset value)

-- `int foldrun = len/batch` keeps 32 bits; a negative one is zero here, and makes no round.
unfoldable pub fold_runs : ℕ → ℕ → ℕ
fold_runs len batch = let n = len / batch % 2 ^ 32 in if ltb n (2 ^ 31) then n else 0

-- The widths that fill whole bytes, or fill a byte together; `fb` is not 0.
unfoldable pub is_whole : ℕ → Bool
is_whole fb = (leb 8 fb && (fb % 8 == 0)) || (ltb fb 8 && (8 % fb == 0))

-- The loop over single values from `i` on, up to `end`.
unfoldable pub read_rest : ℕ → ℕ → Bool → ℕ → ℕ → Memory → Read Memory
read_rest w fb issigned i end result =
    let fresh : Cursor = record { cur_byte = 0; bits_left = 0 } in
    read_longs_loop w fb issigned (end - i) i fresh result

unfoldable pub read_folded : ℕ → Memory → ℕ → ℕ → ℕ → Bool → Option Format → Read Memory
read_folded w result offset len fb issigned none =
    read_rest w fb issigned offset ((offset + len) % 2 ^ 64) result
read_folded w result offset len fb issigned (some f) = do
  let batch = 32 / (w / 8)
  let foldrun = fold_runs len batch
  result' ← read_rounds w batch issigned f foldrun offset result
  read_rest w fb issigned (offset + foldrun * batch) ((offset + len) % 2 ^ 64) result'

unfoldable pub vector_read_longs : Bool → ℕ → Memory → ℕ → ℕ → ℕ → Bool → Read Memory
vector_read_longs vectorization w result offset len fb issigned =
    let batch = 32 / (w / 8) in
    let whole = vectorization && ltb 0 (fold_runs len batch) && is_whole fb in
    read_folded w result offset len fb issigned (if whole then format w fb else none)
