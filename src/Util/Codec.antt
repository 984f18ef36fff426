-- ===== src/Util/Codec.antt =====
-- include/util.h: Encode and Decode of numbers, little endian.
use tengdb.Common.{ℕ, zero, suc, ◌+◌, ◌*◌, ◌/◌, ◌%◌, ◌^◌, ◌<◌, ◌≡◌, refl, ap, arith}
use tengdb.Common.{List, [], ◌∷◌, ◌++◌, length}
use tengdb.Common.Run.{Read, ok, ◌>>=◌, pure, next_byte}
use native.Mathlib.Nat.{pow-suc}

-- The bytes that `memcpy(buf, &value, sizeof(T))` writes.
unfoldable pub encode : ℕ → ℕ → List ℕ
encode zero value = []
encode (suc size) value = value % 256 ∷ encode size (value / 256)

-- `memcpy(value, buf, sizeof(T))`
unfoldable pub decode : ℕ → Read ℕ
decode zero = pure 0
decode (suc size) = do b ← next_byte; more ← decode size; pure (b + 256 * more)

pub length-encode : (size value : ℕ) → length (encode size value) ≡ size
unfolding encode
length-encode zero value = refl
length-encode (suc size) value = ap suc (length-encode size (value / 256))

-- A number that fits its size is decoded as it was encoded, and what follows is left.
pub decode-encode :
    (size value : ℕ) (rest : List ℕ)
    → value < 256 ^ size
    → decode size (encode size value ++ rest) ≡ ok (value, rest)
unfolding encode decode next_byte
decode-encode zero value rest h = ap (λ (n : ℕ). ok (n, rest)) (omega arith)
decode-encode (suc size) value rest h =
    let wider : 256 ^ suc size ≡ 256 ^ size * 256 = pow-suc 256 size in
    let small : value / 256 < 256 ^ size = omega (arith, wider) in
    rw (decode-encode size (value / 256) rest small, ◌>>=◌)
      (ap (λ (n : ℕ). ok (n, rest)) (omega arith))
