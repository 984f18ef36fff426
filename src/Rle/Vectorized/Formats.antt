-- ===== src/Rle/Vectorized/Formats.antt =====
-- src/orc/RLE2.cpp, readLongs under `__AVX2__`: each branch for types of four bytes against the loop
-- over single values.
pub mod Bytes
pub mod Bits
use tengdb.Common.{ℕ, zero, suc, ◌+◌, ◌-◌, ◌*◌, ◌/◌, ◌%◌, ◌^◌, ◌≤◌, ◌<◌, ◌≡◌, refl, ap, ◌∙◌, arith}
use tengdb.Common.{List, [], ◌∷◌, map, length, All, get_or}
use tengdb.Rle.Longs.{Cursor, read_value}
use tengdb.Common.{sym}
use tengdb.Common.Run.{ok}
use tengdb.Common.Bits.{pow-add}
use tengdb.Rle.Longs.Window.{IsByte}
use tengdb.Rle.Vector.{
  Vector, lane32, up_to, counted, skip, permutevar8x32_epi32, shuffle_epi8, set_epi32, set_epi8,
}
use tengdb.Rle.Vector.Masks.{
  mask0_8to32, mask1_8to32, mask0_16to32, mask1_16to32, mask0_24to32, mask1_24to32, mask0_32to32,
  mask1_32to32,
}
use tengdb.Rle.Vectorized.{Format, spread}
use tengdb.Rle.Vectorized.Words.{at, Splits, no_values, value, word, ReadsWord}

-- The bytes at the front, as a load finds them.
abbrev pub loaded : List ℕ → Vector
loaded bytes j = get_or bytes j 0

pub All-implied : {P Q : ℕ → Type 0} (xs : List ℕ) → ((i : ℕ) → P i → Q i) → All P xs → All Q xs
All-implied [] h all = tt
All-implied (x ∷ xs) h (p, all) = (h x p, All-implied xs h all)

pub All-both :
    {P Q R : ℕ → Type 0} (xs : List ℕ)
    → ((i : ℕ) → P i → Q i → R i)
    → All P xs
    → All Q xs
    → All R xs
All-both [] h ps qs = tt
All-both (x ∷ xs) h (p, ps) (q, qs) = (h x p q, All-both xs h ps qs)

-- A round of eight values is what eight rounds of the loop over single values read, and a value has
-- `fb` bits.
pub record Unpacks (fb : ℕ) (f : Format) : Type 0 where
  pub lane : List ℕ → ℕ → ℕ
  pub unpacked :
      (bytes : List ℕ)
      → All IsByte bytes
      → All (λ i. lane32 (f.unpack (loaded bytes)) i ≡ lane bytes i) (up_to 8)
  pub fits : (bytes : List ℕ) (i : ℕ) → All IsByte bytes → lane bytes i < 2 ^ fb
  pub split :
      (x : ℕ) (bytes : List ℕ)
      → All IsByte bytes
      → 32 ≤ length bytes
      → (y : ℕ) × Splits fb
          (at x 0)
          bytes
          (map (lane bytes) (up_to 8))
          (at y 0)
          (skip f.taken bytes)

pub length-skip : (n : ℕ) (bytes : List ℕ) → length (skip n bytes) ≡ length bytes - n
unfolding skip
length-skip zero bytes = omega arith
length-skip (suc n) [] = omega arith
length-skip (suc n) (b ∷ bytes) = omega (arith, length-skip n bytes)

pub All-skip : (n : ℕ) (bytes : List ℕ) → All IsByte bytes → All IsByte (skip n bytes)
unfolding skip
All-skip zero bytes h = h
All-skip (suc n) [] h = tt
All-skip (suc n) (b ∷ bytes) (hb, h) = All-skip n bytes h

skip-nil : (n : ℕ) → skip n [] ≡ []
unfolding skip
skip-nil zero = refl
skip-nil (suc n) = refl

skip-skip : (n k : ℕ) (bytes : List ℕ) → skip n (skip k bytes) ≡ skip (k + n) bytes
unfolding skip
skip-skip n zero bytes = let e : 0 + n ≡ n = omega arith in rw e
skip-skip n (suc k) [] = skip-nil n ∙ sym (skip-nil (suc k + n))
skip-skip n (suc k) (b ∷ bytes) =
    let e : suc k + n ≡ suc (k + n) = omega arith in rw e (skip-skip n k bytes)

get_or-skip : (k p : ℕ) (bytes : List ℕ) → get_or (skip k bytes) p 0 ≡ get_or bytes (k + p) 0
unfolding skip
get_or-skip zero p bytes = let e : 0 + p ≡ p = omega arith in rw e
get_or-skip (suc k) p [] = refl
get_or-skip (suc k) p (b ∷ bytes) =
    let e : suc k + p ≡ suc (k + p) = omega arith in rw e (get_or-skip k p bytes)

pub get_or-IsByte : (bytes : List ℕ) (p : ℕ) → All IsByte bytes → get_or bytes p 0 < 256
get_or-IsByte [] p h = omega arith
get_or-IsByte (b ∷ bytes) zero (hb, h) = hb
get_or-IsByte (b ∷ bytes) (suc p) (hb, h) = get_or-IsByte bytes p h

word-skip : (n k p : ℕ) (bytes : List ℕ) → word n (skip k bytes) p ≡ word n bytes (k + p)
word-skip zero k p bytes = refl
word-skip (suc n) k p bytes =
    let e : k + (p + n) ≡ k + p + n = omega arith in
    rw (word-skip n k p bytes, get_or-skip k (p + n) bytes, e)

-- Values of `k` bytes.
module _ (k : ℕ) (reads : ReadsWord k) (bytes : List ℕ) (clean : All IsByte bytes) where
  read_word :
      (x i : ℕ)
      → k * i + k ≤ length bytes
      → (y : ℕ) × (read_value 32 (8 * k) (at x 0) (skip (k * i) bytes)
          ≡ ok ((word k bytes (k * i), at y 0), skip (k * (i + 1)) bytes))
  read_word x i long =
      let here = skip (k * i) bytes in
      let (y, e) =
        reads x here (All-skip (k * i) bytes clean) (omega (arith, length-skip (k * i) bytes)) in
      let first : k * i + 0 ≡ k * i = omega arith in
      let next : k * i + k ≡ k * (i + 1) = omega arith in
      (y, rw (word-skip k (k * i) 0 bytes, first, skip-skip k (k * i) bytes, next) at e)

  pub split_words :
      (n x i : ℕ)
      → k * i + k * n ≤ length bytes
      → (y : ℕ) × Splits
          (8 * k)
          (at x 0)
          (skip (k * i) bytes)
          (map (λ j. word k bytes (k * j)) (counted n i))
          (at y 0)
          (skip (k * (i + n)) bytes)
  split_words zero x i long = let e : i + 0 ≡ i = omega arith in rw e (x, no_values)
  split_words (suc n) x i long =
      let (y, e) = read_word x i (omega arith) in
      let (z, s) = split_words n y (i + 1) (omega arith) in
      let end : i + 1 + n ≡ i + suc n = omega arith in (z, value e (rw end at s))

pub word-lt : (k p : ℕ) (bytes : List ℕ) → All IsByte bytes → word k bytes p < 2 ^ (8 * k)
word-lt zero p bytes h = omega arith
word-lt (suc k) p bytes h =
    let split : 2 ^ (8 * suc k) ≡ 2 ^ (8 * k) * 2 ^ 8 =
      ap (λ (n : ℕ). 2 ^ n) (omega arith) ∙ pow-add (8 * k) 8 in
    omega (arith, split, word-lt k p bytes h, get_or-IsByte bytes (p + k) h)
