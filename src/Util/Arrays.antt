-- ===== src/Util/Arrays.antt =====
-- include/util.h: the arrays and strings that are encoded.
use tengdb.Common.{ℕ, zero, suc, ◌+◌, ◌^◌, ◌<◌, ◌≡◌, refl, arith, true, false, ltb, lt→ltb}
use tengdb.Common.{List, [], ◌∷◌, ◌++◌, length, All}
use tengdb.Common.{max, inl}
use tengdb.Common.Memory.{
  Memory, write_bytes, write_bytes_lem, Holds, Kept, Holds-append, Holds-Kept, Kept-trans,
  Kept-widen,
}
use tengdb.Common.Name.{Name}
use tengdb.Common.Run.{Read, ok, fault, outside, ◌>>=◌, pure, next_byte}
use tengdb.Util.Codec.{encode, decode, decode-encode}
use mathlib.Core.List.{append_assoc}

unfoldable pub encode_array : ℕ → List ℕ → List ℕ
encode_array size [] = []
encode_array size (v ∷ vs) = encode size v ++ encode_array size vs

unfoldable pub decode_array : ℕ → ℕ → Read (List ℕ)
decode_array size zero = pure []
decode_array size (suc n) = do v ← decode size; vs ← decode_array size n; pure (v ∷ vs)

-- The numbers that fit their size are decoded as they were encoded, in the same order, and what
-- follows is left.
pub decode_array-encode_array :
    (size : ℕ) (vs rest : List ℕ)
    → All (λ v. v < 256 ^ size) vs
    → decode_array size (length vs) (encode_array size vs ++ rest) ≡ ok (vs, rest)
unfolding encode_array decode_array
decode_array-encode_array size [] rest h = refl
decode_array-encode_array size (v ∷ vs) rest (hv, h) = rw (
  append_assoc (encode size v) (encode_array size vs) rest,
  decode-encode size v (encode_array size vs ++ rest) hv,
  ◌>>=◌,
  decode_array-encode_array size vs rest h,
  ◌>>=◌,
)

-- The size is written as the eight bytes of a size_t, and the characters over the last four of
-- them. The second result is the number of bytes that the caller moves on.
unfoldable pub encode_string : Memory → ℕ → Name → Memory × ℕ
encode_string m p str =
    (write_bytes (write_bytes m p (encode 8 (length str))) (p + 4) str, 4 + length str)

unfoldable pub take_bytes : ℕ → Read (List ℕ)
take_bytes zero = pure []
take_bytes (suc n) = do b ← next_byte; bs ← take_bytes n; pure (b ∷ bs)

-- The length is an `int`; an array of a negative length is undefined.
unfoldable pub decode_string : Read Name
decode_string = do
  length ← decode 4
  λ bytes. elim (ltb length (2 ^ 31)) [ true ↦ take_bytes length bytes | false ↦ fault outside ]

-- A number below 2 ^ 32 in four bytes and then the characters.
abbrev pub string_bytes : Name → List ℕ
string_bytes str = encode 4 (length str) ++ str

-- The bytes that are left behind the number are overwritten, or stand behind the result.
pub encode_string_lem :
    (m : Memory) (p : ℕ) (str : Name)
    → let (m', size) = encode_string m p str in
      Holds m' p (string_bytes str) × Kept m m' p (max 8 (4 + length str))
unfolding encode_string encode
encode_string_lem m p str =
    let n = length str in
    let m₁ = write_bytes m p (encode 8 n) in
    let m₂ = write_bytes m₁ (p + 4) str in
    let ((a, (b, (c, (d, _)))), kept) = write_bytes_lem m p (encode 8 n) in
    let (chars, kept') = write_bytes_lem m₁ (p + 4) str in
    let number : Holds m₁ p (encode 4 n) = (a, (b, (c, (d, tt)))) in
    (
      Holds-append m₂ p (encode 4 n) str
          (Holds-Kept m₁ m₂ p (p + 4) n (encode 4 n) kept' (inl (omega arith)) number) chars,
      Kept-trans m m₁ m₂ p (max 8 (4 + n))
          (Kept-widen m m₁ p 8 p (max 8 (4 + n)) (omega arith) (omega arith) kept)
          (Kept-widen m₁ m₂ (p + 4) n p (max 8 (4 + n)) (omega arith) (omega arith) kept'),
    )

take_bytes_lem : (str rest : List ℕ) → take_bytes (length str) (str ++ rest) ≡ ok (str, rest)
unfolding take_bytes next_byte
take_bytes_lem [] rest = refl
take_bytes_lem (c ∷ str) rest = rw (take_bytes_lem str rest, ◌>>=◌)

-- A string whose length fits an `int` is read back, and what follows is left.
pub decode-string_bytes :
    (str : Name) (rest : List ℕ)
    → length str < 2 ^ 31
    → decode_string (string_bytes str ++ rest) ≡ ok (str, rest)
unfolding decode_string
decode-string_bytes str rest h =
    let small = lt→ltb (length str) (2 ^ 31) h in
    rw (
      append_assoc (encode 4 (length str)) str rest,
      decode-encode 4 (length str) (str ++ rest) (omega arith),
      ◌>>=◌,
      small,
      take_bytes_lem str rest,
    )
