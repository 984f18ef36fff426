-- ===== src/Rle/Bytes/RoundTrip.antt =====
-- src/orc/RLE2.cpp: readLongBE and readVulong read back numbers in their two byte forms.
use tengdb.Common.{ℕ, suc, ◌+◌, ◌-◌, ◌*◌, ◌/◌, ◌%◌, ◌^◌, ◌≤◌, ◌<◌, ◌≡◌, refl, ap, ◌∙◌}
use tengdb.Common.{List, [], ◌∷◌, ◌++◌, length, All, arith, bit_and, bit_or, lt→ltb, le→ltb}
use tengdb.Common.Bits.{or_disjoint, disjoint_or, pow_pos, pow-add, mask_and}
use tengdb.Common.Run.{ok, ◌>>=◌, promoted, next_byte, shl_lem}
use tengdb.Rle.Word.{un_zigzag-zigzag, ℤ, zigzag, pattern_of}
use tengdb.Rle.Bytes.{read_long_be_loop, read_long_be, read_vulong_loop, read_vulong, read_vslong}
use tengdb.Rle.Longs.Window.{IsByte, weight, big}
use native.Mathlib.Nat.{
  mod-eq_of_lt, mul-le-mul_right, le-mul_of_pos_right, pow-le-pow_right, div-add-mod, mod-lt,
}

weight-pow : (bytes : List ℕ) → weight bytes ≡ 2 ^ (length bytes * 8)
unfolding weight
weight-pow [] = refl
weight-pow (b ∷ bytes) =
    let split : 2 ^ (suc (length bytes) * 8) ≡ 2 ^ (length bytes * 8) * 2 ^ 8 =
      ap (λ (n : ℕ). 2 ^ n) (omega arith) ∙ pow-add (length bytes * 8) 8 in
    rw (weight-pow bytes, split) (omega arith)

long_be_round :
    (w a b k ret : ℕ)
    → b < 256
    → ret ≡ a * 2 ^ (k + 8)
    → (a + 1) * 2 ^ (k + 8) ≤ 2 ^ w
    → (b % 2 ^ w ≡ b)
      × (b * 2 ^ k % 2 ^ w ≡ b * 2 ^ k)
      × (bit_or ret (b * 2 ^ k) ≡ ret + b * 2 ^ k)
      × (ret + b * 2 ^ k ≡ (a * 256 + b) * 2 ^ k)
      × ((a * 256 + b + 1) * 2 ^ k ≤ 2 ^ w)
long_be_round w a b k ret hb e fits =
    let split : 2 ^ (k + 8) ≡ 2 ^ k * 256 = pow-add k 8 in
    let product = ap (λ (n : ℕ). a * n) split in
    let small = mul-le-mul_right (2 ^ k) hb in
    let p = le-mul_of_pos_right b (pow_pos k) in
    let q = pow_pos k in
    (
      mod-eq_of_lt (omega arith),
      mod-eq_of_lt (omega arith),
      rw e (or_disjoint (k + 8) a (b * 2 ^ k) (omega arith)),
      omega arith,
      omega arith,
    )

long_be_loop :
    (w a : ℕ) (bytes rest : List ℕ) (ret : ℕ)
    → All IsByte bytes
    → ret ≡ a * 2 ^ (length bytes * 8)
    → (a + 1) * 2 ^ (length bytes * 8) ≤ 2 ^ w
    → length bytes * 8 ≤ w
    → read_long_be_loop w (length bytes) ret (bytes ++ rest) ≡ ok (ret + big bytes, rest)
unfolding read_long_be_loop big next_byte
long_be_loop w a [] rest ret clean e fits short = ap (λ (n : ℕ). ok (n, rest)) (omega arith)
long_be_loop w a (b ∷ bytes) rest ret (hb, clean) e fits short =
    let k = length bytes * 8 in
    let wider : 2 ^ (suc (length bytes) * 8) ≡ 2 ^ (k + 8) = ap (λ (n : ℕ). 2 ^ n) (omega arith) in
    let (byte, whole, joined, value, fits') =
      long_be_round w a b k ret hb (rw wider at e) (rw wider at fits) in
    let shifted = shl_lem w b k (bytes ++ rest) (omega arith) in
    let inner =
      long_be_loop w (a * 256 + b) bytes rest (ret + b * 2 ^ k) clean value fits' (omega arith) in
    rw (byte, shifted, ◌>>=◌, whole, joined, inner, weight-pow bytes)
      (ap (λ (n : ℕ). ok (n, rest)) (omega arith))

-- Where as many bytes fit the type, readLongBE reads the number that they spell, the first byte
-- highest, and takes no byte more.
pub read_long_be-big :
    (w : ℕ) (bytes rest : List ℕ)
    → All IsByte bytes
    → length bytes * 8 ≤ w
    → read_long_be w (length bytes) (bytes ++ rest) ≡ ok (big bytes, rest)
unfolding read_long_be
read_long_be-big w bytes rest clean short =
    let fits = pow-le-pow_right {n = 2} (omega arith) short in
    long_be_loop w 0 bytes rest 0 clean (omega arith) (omega arith) short
    ∙ ap (λ (n : ℕ). ok (n, rest)) (omega arith)

-- The bytes are the seven bit groups of `v`, the lowest first, all but the last marked by the top
-- bit.
abbrev pub IsVarint : List ℕ → ℕ → Type 0
IsVarint [] v = ⊥
IsVarint (b ∷ []) v = (b < 128) × (v ≡ b)
IsVarint (b ∷ c ∷ bytes) v =
    (128 ≤ b) × (b < 256) × (v % 128 ≡ b - 128) × IsVarint (c ∷ bytes) (v / 128)

-- `ret |= (0x7f & b) << offset` above the bits that are already there.
group :
    (w ret offset b : ℕ)
    → ret < 2 ^ offset
    → ret + b % 128 * 2 ^ offset < 2 ^ w
    → bit_or ret (bit_and 0x7f b * 2 ^ offset % 2 ^ w) ≡ ret + b % 128 * 2 ^ offset
group w ret offset b low fits =
    let whole : b % 128 * 2 ^ offset % 2 ^ w ≡ b % 128 * 2 ^ offset = mod-eq_of_lt (omega arith) in
    rw (mask_and 7 b, whole) (disjoint_or offset (b % 128) ret low)

vulong_last :
    (w ret offset b : ℕ) (rest : List ℕ)
    → b < 128
    → ret < 2 ^ offset
    → ret + b * 2 ^ offset < 2 ^ w
    → offset < promoted w
    → read_vulong_loop w ret offset (b ∷ rest) ≡ ok (ret + b * 2 ^ offset, rest)
unfolding read_vulong_loop
vulong_last w ret offset b rest hb low fits short =
    let digit : b % 128 ≡ b = omega arith in
    let joined = group w ret offset b low (rw digit fits) in
    rw (lt→ltb offset (promoted w) short, read_vulong_loop, lt→ltb b 128 hb, joined, digit)

vulong_more :
    (w ret offset b : ℕ) (rest : List ℕ)
    → 128 ≤ b
    → ret < 2 ^ offset
    → ret + b % 128 * 2 ^ offset < 2 ^ w
    → offset < promoted w
    → read_vulong_loop w ret offset (b ∷ rest)
      ≡ read_vulong_loop w (ret + b % 128 * 2 ^ offset) (offset + 7) rest
unfolding read_vulong_loop
vulong_more w ret offset b rest hb low fits short = rw (
  lt→ltb offset (promoted w) short,
  read_vulong_loop,
  le→ltb b 128 hb,
  group w ret offset b low fits,
)

vulong_loop :
    (w ret offset : ℕ) (bytes rest : List ℕ) (v : ℕ)
    → IsVarint bytes v
    → ret < 2 ^ offset
    → ret + v * 2 ^ offset < 2 ^ w
    → length bytes * 7 + offset < promoted w + 7
    → read_vulong_loop w ret offset (bytes ++ rest) ≡ ok (ret + v * 2 ^ offset, rest)
vulong_loop w ret offset [] rest v h low fits short = absurd h
vulong_loop w ret offset (b ∷ []) rest v (hb, same) low fits short =
    rw same (vulong_last w ret offset b rest hb low (rw same at fits) (omega arith))
vulong_loop w ret offset (b ∷ c ∷ bytes) rest v (hb, byte, digit, h) low fits short =
    let g = b % 128 in
    let same : g ≡ v % 128 = omega arith in
    let scale : 2 ^ (offset + 7) ≡ 2 ^ offset * 128 = pow-add offset 7 in
    let parts = ap (λ (n : ℕ). n * 2 ^ offset) (div-add-mod v 128) in
    let same' = ap (λ (n : ℕ). n * 2 ^ offset) same in
    let wide = ap (λ (n : ℕ). v / 128 * n) scale in
    let group_fits = mul-le-mul_right (2 ^ offset) (mod-lt v {m = 128} (omega arith)) in
    let total : ret + g * 2 ^ offset + v / 128 * 2 ^ (offset + 7) ≡ ret + v * 2 ^ offset =
      omega arith in
    let inner =
      vulong_loop w (ret + g * 2 ^ offset) (offset + 7) (c ∷ bytes) rest (v / 128) h (omega arith)
        (rw total fits) (omega arith) in
    vulong_more w ret offset b (c ∷ bytes ++ rest) hb low (omega arith) (omega arith)
    ∙ inner
    ∙ ap (λ (n : ℕ). ok (n, rest)) total

-- readVulong reads the number whose groups the bytes are, and takes no byte more, if the number
-- fits the type and no group is shifted by the width of the type or more.
pub read_vulong-IsVarint :
    (w : ℕ) (bytes rest : List ℕ) (v : ℕ)
    → IsVarint bytes v
    → v < 2 ^ w
    → length bytes * 7 < promoted w + 7
    → read_vulong w (bytes ++ rest) ≡ ok (v, rest)
unfolding read_vulong
read_vulong-IsVarint w bytes rest v h fits short =
    vulong_loop w 0 0 bytes rest v h (omega arith) (omega arith) (omega arith)
    ∙ ap (λ (n : ℕ). ok (n, rest)) (omega arith)

-- readVslong reads the integer whose zigzag code the bytes hold, in two's complement, and takes no
-- byte more, if the code fits the type and no group is shifted by the width of the type or more.
pub read_vslong-IsVarint :
    (w : ℕ) (bytes rest : List ℕ) (z : ℤ)
    → IsVarint bytes (zigzag z)
    → zigzag z < 2 ^ w
    → length bytes * 7 < promoted w + 7
    → read_vslong w (bytes ++ rest) ≡ ok (pattern_of w z, rest)
unfolding read_vslong
read_vslong-IsVarint w bytes rest z h fits short =
    rw (read_vulong-IsVarint w bytes rest (zigzag z) h fits short, ◌>>=◌, un_zigzag-zigzag w z fits)
