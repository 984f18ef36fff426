-- ===== src/Rle/Vectorized/Equal.antt =====
-- src/orc/RLE2.cpp: readLongs under `__AVX2__` does what it does without.
use tengdb.Common.{ℕ, ◌+◌, ◌-◌, ◌*◌, ◌/◌, ◌%◌, ◌^◌, ◌≡◌, ◌≢◌, ◌≤◌, ◌<◌, ◌⊎◌, inl, inr, refl, arith}
use tengdb.Common.{List, All, length, Bool, Bool-cases, true, false, ltb, ◌==◌, ◌&&◌, none, some}
use mathlib.Core.Path.{subst}
use native.Mathlib.Nat.{mul-le-mul_left}
use tengdb.Common.Memory.{Memory}
use tengdb.Rle.Longs.{read_longs}
use tengdb.Rle.Longs.Window.{IsByte}
use tengdb.Rle.Vectorized.{
  Format, format, format32, is_whole, fold_runs, vector_read_longs, read_folded, read_rest,
}
use tengdb.Rle.Vectorized.Formats.{Unpacks}
use tengdb.Rle.Vectorized.Formats.Bytes.{
  one_byte-Unpacks, two_bytes-Unpacks, three_bytes-Unpacks, four_bytes-Unpacks,
}
use tengdb.Rle.Vectorized.Formats.Bits.{bits-Unpacks}
use tengdb.Rle.Vectorized.Longs.{read_rounds-lem}

-- What the branches make of a width.
abbrev Unpacked : ℕ → Type 0
Unpacked fb =
    (format 32 fb ≡ none)
    ⊎ ((f : Format) × (format 32 fb ≡ some f) × Unpacks fb f × (f.taken ≡ fb) × (fb ≤ 32))

unpacked_32 : Unpacked 32
unfolding format format32
unpacked_32 = inr (_, refl, four_bytes-Unpacks, refl, omega arith)

unpacked_24 : Unpacked 24
unfolding format format32
unpacked_24 = inr (_, refl, three_bytes-Unpacks, refl, omega arith)

unpacked_16 : Unpacked 16
unfolding format format32
unpacked_16 = inr (_, refl, two_bytes-Unpacks, refl, omega arith)

unpacked_8 : Unpacked 8
unfolding format format32
unpacked_8 = inr (_, refl, one_byte-Unpacks, refl, omega arith)

unpacked_2 : Unpacked 2
unfolding format format32
unpacked_2 = inr (_, refl, bits-Unpacks, refl, omega arith)

no_format :
    (fb : ℕ)
    → is_whole fb ≡ true
    → fb ≢ 32
    → fb ≢ 24
    → fb ≢ 16
    → fb ≢ 8
    → fb ≢ 4
    → fb ≢ 2
    → format 32 fb ≡ none
unfolding is_whole format format32
no_format fb h h32 h24 h16 h8 h4 h2 = ground arith

at_width : (n fb : ℕ) → Unpacked n → (fb == n) ≡ true → Unpacked fb
at_width n fb u e = let same : n ≡ fb = ground arith in subst Unpacked same u

unpacked : (fb : ℕ) → is_whole fb ≡ true → fb ≢ 4 → Unpacked fb
unpacked fb h h4 = elim (Bool-cases (fb == 32)) [
  | inl e ↦ at_width 32 fb unpacked_32 e
  | inr n32 ↦ elim (Bool-cases (fb == 24)) [
    | inl e ↦ at_width 24 fb unpacked_24 e
    | inr n24 ↦ elim (Bool-cases (fb == 16)) [
      | inl e ↦ at_width 16 fb unpacked_16 e
      | inr n16 ↦ elim (Bool-cases (fb == 8)) [
        | inl e ↦ at_width 8 fb unpacked_8 e
        | inr n8 ↦ elim (Bool-cases (fb == 2)) [
          | inl e ↦ at_width 2 fb unpacked_2 e
          | inr n2 ↦ inl (
              no_format fb h (differs fb 32 n32) (differs fb 24 n24) (differs fb 16 n16)
                (differs fb 8 n8) h4 (differs fb 2 n2))
        ]
      ]
    ]
  ]
]
  where
    differs : (a b : ℕ) → (a == b) ≡ false → a ≢ b
    differs a b h = ground arith

fold_runs-le : (len batch : ℕ) → fold_runs len batch ≤ len / batch
unfolding fold_runs
fold_runs-le len batch = ground arith

-- Without rounds only the loop over single values is left.
folded_none :
    (m : Memory) (offset len fb : ℕ) (issigned : Bool) (bytes : List ℕ)
    → read_folded 32 m offset len fb issigned none bytes
      ≡ read_longs 32 m offset len fb issigned bytes
unfolding read_folded read_rest read_longs
folded_none m offset len fb issigned bytes = refl

folded_some :
    (m : Memory) (offset len fb : ℕ) (issigned : Bool) (bytes : List ℕ) (f : Format)
    → Unpacks fb f
    → (issigned ≡ false) ⊎ (fb < 32)
    → All IsByte bytes
    → offset + len < 2 ^ 64
    → f.taken * fold_runs len 8 + 32 ≤ length bytes + f.taken
    → read_folded 32 m offset len fb issigned (some f) bytes
      ≡ read_longs 32 m offset len fb issigned bytes
unfolding read_folded read_rest read_longs
folded_some m offset len fb issigned bytes f u narrow clean bounded long =
    let n = fold_runs len 8 in
    let r = (offset + len) % 2 ^ 64 - (offset + n * 8) in
    let all : (offset + len) % 2 ^ 64 - offset ≡ n * 8 + r = omega (arith, fold_runs-le len 8) in
    rw all (read_rounds-lem fb f u issigned n r 0 offset bytes m narrow clean long)

-- For types of four bytes readLongs gives the same result with FLAGS_vectorization as without it,
-- whatever the bytes are: for every width but 4, for values that are unsigned or have fewer than 32
-- bits, below position 2 ^ 64, and where the last load of 32 bytes stays within the data.
pub vector_read_longs-read_longs :
    (vectorization : Bool) (m : Memory) (offset len fb : ℕ) (issigned : Bool) (bytes : List ℕ)
    → fb ≢ 4
    → (issigned ≡ false) ⊎ (fb < 32)
    → All IsByte bytes
    → offset + len < 2 ^ 64
    → (len < 8) ⊎ (fb * (len / 8) + 32 ≤ length bytes + fb)
    → vector_read_longs vectorization 32 m offset len fb issigned bytes
      ≡ read_longs 32 m offset len fb issigned bytes
unfolding vector_read_longs read_longs
vector_read_longs-read_longs vectorization m offset len fb issigned bytes h4 narrow clean bounded
      long =
    elim (Bool-cases (vectorization && ltb 0 (fold_runs len 8) && is_whole fb)) [
      | inr off ↦ rw off (folded_none m offset len fb issigned bytes)
      | inl on ↦ elim (unpacked fb (ground arith) h4) [
        | inl none_left ↦ rw (on, none_left) (folded_none m offset len fb issigned bytes)
        | inr (f, e, u, taken, narrow') ↦
            let rounds = mul-le-mul_left fb (fold_runs-le len 8) in
            let some_rounds : 0 < fold_runs len 8 = ground arith in
            let enough : f.taken * fold_runs len 8 + 32 ≤ length bytes + f.taken =
              rw taken (ground (arith, fold_runs-le len 8)) in
            rw (on, e) (folded_some m offset len fb issigned bytes f u narrow clean bounded enough)
      ]
    ]
