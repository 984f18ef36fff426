-- ===== src/Rle/Longs.antt =====
-- src/orc/RLE2.cpp: readLongs, the loop over single values. A build without
-- `__AVX2__` has it alone; the other is Rle/Vectorized.
pub mod Window
pub mod Unpack
pub mod Local
pub mod Frame
use tengdb.Common.{ℕ, zero, suc, ◌+◌, ◌-◌, ◌*◌, ◌/◌, ◌%◌, ◌^◌, List, [], ◌∷◌, bit_and, bit_or}
use tengdb.Common.{ltb, ◌==◌, Bool, true, false, if◌then◌else◌}
use tengdb.Common.Run.{Run, Read, ok, fault, past_end, ◌>>=◌, pure, next_byte}
use tengdb.Common.Memory.{Memory, store}
use tengdb.Rle.Word.{convert}

-- `curByte` and `bitsLeft`, the number of its low bits that are not yet read.
pub record Cursor : Type 0 where
  pub cur_byte : ℕ
  pub bits_left : ℕ

-- `if (bitsLeft==0) { curByte = data[index++]; bitsLeft = 8; }`
unfoldable pub refill : Cursor → Read Cursor
refill c bytes = elim (c.bits_left == 0) [
  | true ↦ (do b ← next_byte; pure (record { cur_byte = b; bits_left = 8 })) bytes
  | false ↦ ok (c, bytes)
]

-- `rawresult <<= n; rawresult |= bits;` for an unsigned type of `w` bits.
unfoldable pub shift_in : ℕ → ℕ → ℕ → ℕ → ℕ
shift_in w raw n bits = bit_or (raw * 2 ^ n % 2 ^ w) bits

-- The `while (bitsLeftToRead > bitsLeft)` loop; each round takes a byte. The result is `rawresult`,
-- the cursor and `bitsLeftToRead`.
unfoldable pub drain : ℕ → ℕ → Cursor → ℕ → Read (ℕ × Cursor × ℕ)
drain w raw c to_read [] =
    if ltb c.bits_left to_read then fault past_end else ok ((raw, c, to_read), [])
drain w raw c to_read (b ∷ bytes) =
    let raw' = shift_in w raw c.bits_left (bit_and c.cur_byte (2 ^ c.bits_left - 1)) in
    let c' : Cursor = record { cur_byte = b; bits_left = 8 } in
    let more = drain w raw' c' (to_read - c.bits_left) bytes in
    if ltb c.bits_left to_read then more else ok ((raw, c, to_read), b ∷ bytes)

-- The left over bits.
unfoldable pub finish : ℕ → ℕ × Cursor × ℕ → ℕ × Cursor
finish w (raw, c, to_read) =
    let left = c.bits_left - to_read in
    if ltb 0 to_read
    then (
      shift_in w raw to_read (bit_and (c.cur_byte / 2 ^ left) (2 ^ to_read - 1)),
      record c { bits_left = left },
    )
    else (raw, c)

-- One value of `fb` bits.
unfoldable pub read_value : ℕ → ℕ → Cursor → Read (ℕ × Cursor)
read_value w fb c = do c' ← refill c; drained ← drain w 0 c' fb; pure (finish w drained)

-- The `for` loop from position `i` on, with `n` rounds left.
unfoldable pub read_longs_loop : ℕ → ℕ → Bool → ℕ → ℕ → Cursor → Memory → Read Memory
read_longs_loop w fb issigned zero i c m = pure m
read_longs_loop w fb issigned (suc n) i c m = do
  (raw, c') ← read_value w fb c
  read_longs_loop w fb issigned n (i + 1) c' (store m i (convert w issigned raw))

-- `end` is a uint64_t: where `offset + len` wraps to `end <= offset` nothing is read.
unfoldable pub read_longs : ℕ → Memory → ℕ → ℕ → ℕ → Bool → Read Memory
read_longs w result offset len fb issigned =
    let end = (offset + len) % 2 ^ 64 in
    let fresh : Cursor = record { cur_byte = 0; bits_left = 0 } in
    read_longs_loop w fb issigned (end - offset) offset fresh result
