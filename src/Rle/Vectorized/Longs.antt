-- ===== src/Rle/Vectorized/Longs.antt =====
-- src/orc/RLE2.cpp: readLongs under `__AVX2__` against the loop over single values.
use tengdb.Common.{
  ℕ, zero, suc, ◌+◌, ◌*◌, ◌^◌, ◌≡◌, ◌≤◌, ◌<◌, ◌⊎◌, inl, inr, refl, arith, ap, ◌∙◌, sym,
}
use tengdb.Common.{List, [], ◌∷◌, All, length, map, Bool, true, false, le→ltb}
use tengdb.Common.Memory.{Memory, write_bytes}
use tengdb.Common.Run.{bind-ap, ◌>>=◌}
use tengdb.Rle.Longs.{read_longs_loop, read_value, refill}
use tengdb.Rle.Longs.Window.{IsByte}
use tengdb.Rle.Vector.{lane32, up_to, storeu, lanes, loadu_data, advance, skip}
use tengdb.Rle.Vectorized.{Format, convert_vector, read_rounds}
use tengdb.Rle.Vectorized.Formats.{loaded, Unpacks, All-both, All-skip, length-skip}
use tengdb.Rle.Vectorized.Signed.{Decoded, un_zigzag32-Decoded}
use tengdb.Rle.Vectorized.Words.{at, read_longs_loop-Splits}
use tengdb.Rle.Word.{convert, un_zigzag}
use native.Mathlib.Nat.{pow-le-pow_right}

pub map-All : (f g : ℕ → ℕ) (xs : List ℕ) → All (λ i. f i ≡ g i) xs → map f xs ≡ map g xs
map-All f g [] h = refl
map-All f g (x ∷ xs) (e, h) = rw (e, map-All f g xs h)

map-map : (f g : ℕ → ℕ) (xs : List ℕ) → map f (map g xs) ≡ map (λ i. f (g i)) xs
map-map f g [] = refl
map-map f g (x ∷ xs) = rw (map-map f g xs)

-- Where no bits of the current byte are left it does not matter which byte it is.
loop_from_byte :
    (fb : ℕ) (issigned : Bool) (n i x y : ℕ) (m : Memory) (bytes : List ℕ)
    → read_longs_loop 32 fb issigned n i (at x 0) m bytes
      ≡ read_longs_loop 32 fb issigned n i (at y 0) m bytes
unfolding read_longs_loop read_value refill
loop_from_byte fb issigned zero i x y m bytes = refl
loop_from_byte fb issigned (suc n) i x y m bytes = refl

module _ (fb : ℕ) (f : Format) (u : Unpacks fb f) where
  abbrev Plain : List ℕ → ℕ → Type 0
  Plain bytes i = lane32 (f.unpack (loaded bytes)) i ≡ u.lane bytes i

  abbrev Converted : Bool → List ℕ → ℕ → Type 0
  Converted issigned bytes i =
      lane32 (convert_vector 32 issigned (f.unpack (loaded bytes))) i
      ≡ convert 32 issigned (u.lane bytes i)

  -- The decoded lanes are the decoded values.
  converted :
      (issigned : Bool) (bytes : List ℕ)
      → (issigned ≡ false) ⊎ (fb < 32)
      → All IsByte bytes
      → All (Converted issigned bytes) (up_to 8)
  unfolding convert_vector convert
  converted false bytes narrow clean = u.unpacked bytes clean
  converted true bytes (inl e) clean = cc
  converted true bytes (inr narrow) clean =
      let v = f.unpack (loaded bytes) in
      All-both {P = Plain bytes} {Q = Decoded v} {R = Converted true bytes} (up_to 8)
        (λ i same decoded.
          let small : lane32 v i < 2 ^ 31 = rw same (
            omega (
              arith,
              u.fits bytes i clean,
              pow-le-pow_right {n = 2} (omega arith) {i = fb} {j = 31} (omega arith),
            )) in
          decoded small ∙ ap (un_zigzag 32) same)
        (u.unpacked bytes clean) (un_zigzag32-Decoded v)

  -- A round stores the next eight values.
  stored :
      (issigned : Bool) (bytes : List ℕ) (p : ℕ) (m : Memory)
      → (issigned ≡ false) ⊎ (fb < 32)
      → All IsByte bytes
      → storeu 32 m p (convert_vector 32 issigned (f.unpack (loaded bytes)))
        ≡ write_bytes m p (map (convert 32 issigned) (map (u.lane bytes) (up_to 8)))
  unfolding storeu lanes
  stored issigned bytes p m narrow clean = ap (write_bytes m p) (
      map-All (lane32 (convert_vector 32 issigned (f.unpack (loaded bytes))))
        (λ i. convert 32 issigned (u.lane bytes i)) (up_to 8)
        (converted issigned bytes narrow clean)
      ∙ sym (map-map (convert 32 issigned) (u.lane bytes) (up_to 8)))

  round_lem :
      (issigned : Bool) (n p : ℕ) (bytes : List ℕ) (m : Memory)
      → (issigned ≡ false) ⊎ (fb < 32)
      → All IsByte bytes
      → 32 ≤ length bytes
      → read_rounds 32 8 issigned f (suc n) p m bytes
        ≡ read_rounds 32 8 issigned f n
            (p + 8)
            (write_bytes m p (map (convert 32 issigned) (map (u.lane bytes) (up_to 8))))
            (skip f.taken bytes)
  unfolding read_rounds loadu_data advance
  round_lem issigned n p bytes m narrow clean long =
      rw (le→ltb (length bytes) 32 long, ◌>>=◌, stored issigned bytes p m narrow clean)

  -- As many rounds as the bytes allow, and then single values, are single values from the start.
  pub read_rounds-lem :
      (issigned : Bool) (n r x p : ℕ) (bytes : List ℕ) (m : Memory)
      → (issigned ≡ false) ⊎ (fb < 32)
      → All IsByte bytes
      → f.taken * n + 32 ≤ length bytes + f.taken
      → (read_rounds 32 8 issigned f n p m >>= λ m'.
            read_longs_loop 32 fb issigned r (p + n * 8) (at 0 0) m')
          bytes
        ≡ read_longs_loop 32 fb issigned (n * 8 + r) p (at x 0) m bytes
  read_rounds-lem issigned zero r x p bytes m narrow clean long =
      let none : 0 * 8 + r ≡ r = omega arith in
      let here : p + 0 * 8 ≡ p = omega arith in
      rw (none, here) (unfold read_rounds in loop_from_byte fb issigned r p 0 x m bytes)
  read_rounds-lem issigned (suc n) r x p bytes m narrow clean long =
      let (y, s) = u.split x bytes clean (omega arith) in
      let m' = write_bytes m p (map (convert 32 issigned) (map (u.lane bytes) (up_to 8))) in
      let rest = skip f.taken bytes in
      let rec =
        read_rounds-lem issigned n r y (p + 8) rest m' narrow (All-skip f.taken bytes clean)
          (omega (arith, length-skip f.taken bytes)) in
      let more : suc n * 8 + r ≡ 8 + (n * 8 + r) = omega arith in
      let next : p + suc n * 8 ≡ p + 8 + n * 8 = omega arith in
      rw (more, next)
        (bind-ap (read_rounds 32 8 issigned f (suc n) p m)
            (read_rounds 32 8 issigned f n (p + 8) m')
            (λ m''. read_longs_loop 32 fb issigned r (p + 8 + n * 8) (at 0 0) m'') bytes rest
            (round_lem issigned n p bytes m narrow clean (omega arith))
          ∙ rec
          ∙ sym (read_longs_loop-Splits fb issigned (n * 8 + r) p m s))
