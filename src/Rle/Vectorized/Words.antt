-- ===== src/Rle/Vectorized/Words.antt =====
-- src/orc/RLE2.cpp, readLongs: what the loop over single values does where values start and end with
-- a byte.
use tengdb.Rle.Vector.{skip}
use tengdb.Common.{get_or, zero}
use tengdb.Common.{ℕ, suc, ◌+◌, ◌-◌, ◌*◌, ◌/◌, ◌%◌, ◌^◌, ◌≤◌, ◌<◌, ◌≡◌, refl, ◌∙◌, arith, Bool}
use tengdb.Common.{List, [], ◌∷◌, map, length, All, ltb, false, bit_and}
use tengdb.Common.Memory.{Memory, store, write_bytes}
use tengdb.Common.Run.{ok, ◌>>=◌, pure, next_byte}
use tengdb.Common.Bits.{and_mask}
use tengdb.Rle.Word.{convert}
use tengdb.Rle.Longs.{Cursor, refill, shift_in, drain, finish, read_value, read_longs_loop}
use tengdb.Rle.Longs.Window.{IsByte, shift_in_lem}

-- The current byte with its low bits unread.
abbrev pub at : ℕ → ℕ → Cursor
at b left = record { cur_byte = b; bits_left = left }

-- The values `xs` are read one after the other, up to the cursor and the bytes in the last indices.
pub data Splits (fb : ℕ) : Cursor → List ℕ → List ℕ → Cursor → List ℕ → Type 0 where
  no_values : {c : Cursor} {bytes : List ℕ} → Splits fb c bytes [] c bytes
  value :
      {c c' c'' : Cursor} {x : ℕ} {xs bytes rest rest' : List ℕ}
      → read_value 32 fb c bytes ≡ ok ((x, c'), rest)
      → Splits fb c' rest xs c'' rest'
      → Splits fb c bytes (x ∷ xs) c'' rest'

round_taken :
    (fb : ℕ) (issigned : Bool) (n i : ℕ) (c c' : Cursor) (x : ℕ) (bytes rest : List ℕ) (m : Memory)
    → read_value 32 fb c bytes ≡ ok ((x, c'), rest)
    → read_longs_loop 32 fb issigned (suc n) i c m bytes
      ≡ read_longs_loop 32 fb issigned n (i + 1) c' (store m i (convert 32 issigned x)) rest
unfolding read_longs_loop
round_taken fb issigned n i c c' x bytes rest m e = rw (e, ◌>>=◌)

-- The rounds for the values that are split off store them one behind the other.
pub read_longs_loop-Splits :
    (fb : ℕ) (issigned : Bool) (n : ℕ) {c c' : Cursor} {bytes xs rest : List ℕ} (i : ℕ) (m : Memory)
    → Splits fb c bytes xs c' rest
    → read_longs_loop 32 fb issigned (length xs + n) i c m bytes
      ≡ read_longs_loop 32 fb issigned n
          (i + length xs)
          c'
          (write_bytes m i (map (convert 32 issigned) xs))
          rest
unfolding write_bytes
read_longs_loop-Splits fb issigned n i m no_values =
    let none : 0 + n ≡ n = omega arith in let here : i + 0 ≡ i = omega arith in rw (none, here)
read_longs_loop-Splits fb issigned n {c} {c'} {bytes} i m (value {c' = d} {x = x} {xs = xs} e h) =
    let more : suc (length xs) + n ≡ suc (length xs + n) = omega arith in
    let next : i + suc (length xs) ≡ i + 1 + length xs = omega arith in
    rw (more, next)
      (round_taken fb issigned (length xs + n) i c d x bytes _ m e
        ∙ read_longs_loop-Splits fb issigned n (i + 1) (store m i (convert 32 issigned x)) h)

-- Enough bits are left.
pub drain_enough :
    (w raw : ℕ) (c : Cursor) (to_read : ℕ) (bytes : List ℕ)
    → ltb c.bits_left to_read ≡ false
    → drain w raw c to_read bytes ≡ ok ((raw, c, to_read), bytes)
unfolding drain
drain_enough w raw c to_read [] h = rw h
drain_enough w raw c to_read (b ∷ bytes) h = rw h

-- A whole byte behind the others, and the last byte.
byte_in :
    (raw b : ℕ)
    → raw < 2 ^ 24
    → b < 256
    → shift_in 32 raw 8 (bit_and b (2 ^ 8 - 1)) ≡ raw * 2 ^ 8 + b
byte_in raw b h hb =
    let low : b % 2 ^ 8 ≡ b = omega arith in
    rw (and_mask 8 b, low) (shift_in_lem 32 raw 8 b (omega arith) hb)

last_byte :
    (raw b : ℕ) (bytes : List ℕ)
    → raw < 2 ^ 24
    → b < 256
    → (drain 32 raw (at b 8) 8 >>= λ drained. pure (finish 32 drained)) bytes
      ≡ ok ((raw * 2 ^ 8 + b, at b 0), bytes)
unfolding finish
last_byte raw b bytes h hb =
    let whole : b / 1 ≡ b = omega arith in
    rw (drain_enough 32 raw (at b 8) 8 bytes refl, ◌>>=◌, whole, byte_in raw b h hb)

-- Values of one byte to four bytes, from a byte on.
module _ (x a b c d : ℕ) (bytes : List ℕ) (ha : a < 256) (hb : b < 256) (hc : c < 256)
    (hd : d < 256) where
  one_byte : read_value 32 8 (at x 0) (a ∷ bytes) ≡ ok ((0 * 2 ^ 8 + a, at a 0), bytes)
  unfolding read_value refill next_byte
  one_byte = last_byte 0 a bytes (omega arith) ha

  two_bytes :
      read_value 32 16 (at x 0) (a ∷ b ∷ bytes) ≡ ok (((0 * 2 ^ 8 + a) * 2 ^ 8 + b, at b 0), bytes)
  unfolding read_value refill next_byte drain
  two_bytes = rw (byte_in 0 a (omega arith) ha) (last_byte (0 * 2 ^ 8 + a) b bytes (omega arith) hb)

  three_bytes :
      read_value 32 24 (at x 0) (a ∷ b ∷ c ∷ bytes)
      ≡ ok ((((0 * 2 ^ 8 + a) * 2 ^ 8 + b) * 2 ^ 8 + c, at c 0), bytes)
  unfolding read_value refill next_byte drain
  three_bytes =
      rw (byte_in 0 a (omega arith) ha, byte_in (0 * 2 ^ 8 + a) b (omega arith) hb)
        (last_byte ((0 * 2 ^ 8 + a) * 2 ^ 8 + b) c bytes (omega arith) hc)

  four_bytes :
      read_value 32 32 (at x 0) (a ∷ b ∷ c ∷ d ∷ bytes)
      ≡ ok (((((0 * 2 ^ 8 + a) * 2 ^ 8 + b) * 2 ^ 8 + c) * 2 ^ 8 + d, at d 0), bytes)
  unfolding read_value refill next_byte drain
  four_bytes =
      rw (byte_in 0 a (omega arith) ha, byte_in (0 * 2 ^ 8 + a) b (omega arith) hb)
        (rw (byte_in ((0 * 2 ^ 8 + a) * 2 ^ 8 + b) c (omega arith) hc)
          (last_byte (((0 * 2 ^ 8 + a) * 2 ^ 8 + b) * 2 ^ 8 + c) d bytes (omega arith) hd))

-- The number that `k` bytes from position `p` on spell, the first byte highest.
abbrev pub word : ℕ → List ℕ → ℕ → ℕ
word zero bytes p = 0
word (suc k) bytes p = word k bytes p * 2 ^ 8 + get_or bytes (p + k) 0

-- A round reads the next `k` bytes.
abbrev pub ReadsWord : ℕ → Type 0
ReadsWord k =
    (x : ℕ) (bytes : List ℕ)
    → All IsByte bytes
    → k ≤ length bytes
    → (y : ℕ) × (read_value 32 (8 * k) (at x 0) bytes ≡ ok ((word k bytes 0, at y 0), skip k bytes))

pub one_byte-ReadsWord : ReadsWord 1
unfolding skip
one_byte-ReadsWord x [] h long = absurd (omega arith)
one_byte-ReadsWord x (a ∷ bytes) (ha, h) long =
    (a, one_byte x a 0 0 0 bytes ha (omega arith) (omega arith) (omega arith))

pub two_bytes-ReadsWord : ReadsWord 2
unfolding skip
two_bytes-ReadsWord x [] h long = absurd (omega arith)
two_bytes-ReadsWord x (a ∷ []) h long = absurd (omega arith)
two_bytes-ReadsWord x (a ∷ b ∷ bytes) (ha, (hb, h)) long =
    (b, two_bytes x a b 0 0 bytes ha hb (omega arith) (omega arith))

pub three_bytes-ReadsWord : ReadsWord 3
unfolding skip
three_bytes-ReadsWord x [] h long = absurd (omega arith)
three_bytes-ReadsWord x (a ∷ []) h long = absurd (omega arith)
three_bytes-ReadsWord x (a ∷ b ∷ []) h long = absurd (omega arith)
three_bytes-ReadsWord x (a ∷ b ∷ c ∷ bytes) (ha, (hb, (hc, h))) long =
    (c, three_bytes x a b c 0 bytes ha hb hc (omega arith))

pub four_bytes-ReadsWord : ReadsWord 4
unfolding skip
four_bytes-ReadsWord x [] h long = absurd (omega arith)
four_bytes-ReadsWord x (a ∷ []) h long = absurd (omega arith)
four_bytes-ReadsWord x (a ∷ b ∷ []) h long = absurd (omega arith)
four_bytes-ReadsWord x (a ∷ b ∷ c ∷ []) h long = absurd (omega arith)
four_bytes-ReadsWord x (a ∷ b ∷ c ∷ d ∷ bytes) (ha, (hb, (hc, (hd, h)))) long =
    (d, four_bytes x a b c d bytes ha hb hc hd)
