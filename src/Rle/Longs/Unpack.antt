-- ===== src/Rle/Longs/Unpack.antt =====
-- src/orc/RLE2.cpp: readLongs reads back values that stand end to end in the bytes.
use tengdb.Common.{ℕ, ◌+◌, ◌-◌, ◌*◌, ◌/◌, ◌%◌, ◌^◌, ◌≤◌, ◌<◌, ◌≡◌, refl, ap, ◌∙◌}
use tengdb.Common.{List, [], ◌∷◌, ◌++◌, map, length, length-map, All, arith, Bool, sym}
use tengdb.Common.Memory.{Memory, store, Holds, Kept, Kept-store, Holds-store}
use tengdb.Common.Bits.{pow_pos, mod_unique, div_unique}
use native.Mathlib.Nat.{mul-le-mul_right, mul-le-mul, pow-le-pow_right}
use tengdb.Common.Run.{ok, Returns, ◌>>=◌}
use tengdb.Rle.Word.{convert}
use tengdb.Rle.Longs.{Cursor, read_value, read_longs_loop, read_longs}
use tengdb.Rle.Longs.Local.{read_longs-IsLocal}
use tengdb.Rle.Longs.Window.{
  IsByte, weight, big, room, unread, unread-lt-room, read_value_lem, Value,
}

-- One more than the largest number that as many values of `fb` bits spell, and the number that the
-- values spell, the first one highest.
unfoldable pub span : ℕ → List ℕ → ℕ
span fb [] = 1
span fb (x ∷ xs) = 2 ^ fb * span fb xs

unfoldable pub spelled : ℕ → List ℕ → ℕ
spelled fb [] = 0
spelled fb (x ∷ xs) = x * span fb xs + spelled fb xs

-- The bytes are the values of `fb` bits end to end, then fewer than eight bits of padding.
pub record IsPacked (fb : ℕ) (xs bytes : List ℕ) : Type 0 where
  pub pad : ℕ
  pub padding : ℕ
  pub short : pad < 8
  pub padding_fits : padding < 2 ^ pad
  pub values_fit : All (λ x. x < 2 ^ fb) xs
  pub clean : All IsByte bytes
  pub size : weight bytes ≡ span fb xs * 2 ^ pad
  pub spells : big bytes ≡ spelled fb xs * 2 ^ pad + padding

-- Quotient and remainder are unique.
digits_unique : (w q r q' r' : ℕ) → r < w → r' < w → q * w + r ≡ q' * w + r' → (q ≡ q') × (r ≡ r')
digits_unique w q r q' r' h h' e =
    let e' : w * q + r ≡ w * q' + r' = omega (arith, e) in
    (
      sym (div_unique w q r h) ∙ ap (λ (n : ℕ). n / w) e' ∙ div_unique w q' r' h',
      sym (mod_unique w q r h) ∙ ap (λ (n : ℕ). n % w) e' ∙ mod_unique w q' r' h',
    )

abbrev Unpacked : Memory → ℕ → List ℕ → ℕ → Memory → List ℕ → Type 0
Unpacked m i values behind m' rest =
    Holds m' i values
    × Kept m m' i (length values)
    × ((c : Cursor) × (room c rest ≡ behind) × (c.bits_left < 8))

module _ (w fb : ℕ) (issigned : Bool) (behind : ℕ) where
  round_lem :
      (x : ℕ) (xs : List ℕ) (i : ℕ) (c c' : Cursor) (m : Memory) (bytes rest : List ℕ) (raw : ℕ)
      → read_value w fb c bytes ≡ ok ((raw, c'), rest)
      → raw ≡ x
      → Returns
          (read_longs_loop w fb issigned
            (length xs)
            (i + 1)
            c'
            (store m i (convert w issigned x))
            rest)
          (Unpacked (store m i (convert w issigned x)) (i + 1) (map (convert w issigned) xs) behind)
      → Returns
          (read_longs_loop w fb issigned (length (x ∷ xs)) i c m bytes)
          (Unpacked m i (map (convert w issigned) (x ∷ xs)) behind)
  unfolding read_longs_loop
  round_lem x xs i c c' m bytes rest raw e same (m', rest', e', (holds, kept, end)) =
      let v = convert w issigned x in
      let values = map (convert w issigned) xs in
      (
        m',
        rest',
        rw (e, ◌>>=◌, same) e',
        (
          Holds-store m m' i v (length values) values kept holds,
          Kept-store m m' i v (length values) kept,
          end,
        ),
      )

  -- A round reads the next value, and the unread bits spell the others.
  next_lem :
      (x : ℕ) (xs : List ℕ) (tail raw : ℕ) (c' : Cursor) (rest : List ℕ) (whole : ℕ)
      → tail < behind
      → spelled fb xs < span fb xs
      → Value fb whole (span fb xs * behind) (raw, c') rest
      → whole ≡ spelled fb (x ∷ xs) * behind + tail
      → (raw ≡ x) × (unread c' rest ≡ spelled fb xs * behind + tail)
  unfolding spelled
  next_lem x xs tail raw c' rest whole h small (_, value, space, left, clean) e =
      let t = mul-le-mul_right behind small in
      digits_unique (span fb xs * behind) raw (unread c' rest) x (spelled fb xs * behind + tail)
        (omega (arith, unread-lt-room c' rest clean, space)) (omega (arith, t))
        (omega (arith, value, e))

spelled-lt-span : (fb : ℕ) (xs : List ℕ) → All (λ x. x < 2 ^ fb) xs → spelled fb xs < span fb xs
unfolding spelled span
spelled-lt-span fb [] h = omega arith
spelled-lt-span fb (x ∷ xs) (hx, h) =
    omega (arith, mul-le-mul_right (span fb xs) hx, spelled-lt-span fb xs h)

module _ (w fb : ℕ) (wide : 0 < fb) (narrow : fb ≤ w) (issigned : Bool) (behind tail : ℕ)
    (h : tail < behind) where
  read_longs_loop_lem :
      (xs : List ℕ) (i : ℕ) (c : Cursor) (m : Memory) (bytes : List ℕ)
      → All (λ x. x < 2 ^ fb) xs
      → All IsByte bytes
      → c.bits_left < 8
      → room c bytes ≡ span fb xs * behind
      → unread c bytes ≡ spelled fb xs * behind + tail
      → Returns
          (read_longs_loop w fb issigned (length xs) i c m bytes)
          (Unpacked m i (map (convert w issigned) xs) behind)
  unfolding span
  read_longs_loop_lem [] i c m bytes fit clean left space value =
      (m, bytes, unfold read_longs_loop in refl, (tt, λ j _. refl, (c, omega (arith, space), left)))
  read_longs_loop_lem (x ∷ xs) i c m bytes fit clean left space value =
      let inner = span fb xs * behind in
      let ((raw, c'), rest, e, v) =
        read_value_lem w fb wide narrow inner c bytes left clean (omega (arith, space)) in
      let (same, later) =
        next_lem w fb issigned behind x xs tail raw c' rest _ h (spelled-lt-span fb xs fit.1) v
          value in
      round_lem w fb issigned behind x xs i c c' m bytes rest raw e same (
        read_longs_loop_lem xs (i + 1) c' (store m i (convert w issigned x)) rest fit.1 v.4 v.3 v.2
          later)

weight-pos : (bytes : List ℕ) → 0 < weight bytes
unfolding weight
weight-pos [] = omega arith
weight-pos (b ∷ bytes) = omega (arith, weight-pos bytes)

fresh_window :
    (bytes : List ℕ)
    → let fresh : Cursor = record { cur_byte = 0; bits_left = 0 } in
      (room fresh bytes ≡ weight bytes) × (unread fresh bytes ≡ big bytes)
unfolding room unread
fresh_window bytes = (omega arith, omega arith)

exhausted : (c : Cursor) (rest : List ℕ) (pad : ℕ) → room c rest ≡ 2 ^ pad → pad < 8 → rest ≡ []
unfolding room weight
exhausted c [] pad e h = refl
exhausted c (b ∷ rest) pad e h =
    let few = pow-le-pow_right {n = 2} (omega arith) {i = pad} {j = 7} (omega arith) in
    let some_bits = pow_pos c.bits_left in
    let some_bytes = weight-pos rest in
    let many = mul-le-mul some_bits some_bytes in absurd (omega arith)

module _ (w fb : ℕ) (wide : 0 < fb) (narrow : fb ≤ w) (issigned : Bool) (m : Memory)
    (offset : ℕ) where
  -- `end` does not wrap, so there is a round for each value.
  exact :
      (at n : ℕ)
      → at + n < 2 ^ 64
      → (bytes : List ℕ)
      → read_longs w m at n fb issigned bytes
        ≡ read_longs_loop w fb issigned n at (record { cur_byte = 0; bits_left = 0 }) m bytes
  unfolding read_longs
  exact at n h bytes = let e : (at + n) % 2 ^ 64 - at ≡ n = omega arith in rw e

  -- Of values of 1 bit to the width of the type, end to end and followed by anything, readLongs
  -- with positions below 2 ^ 64 stores each one, decoded if they are signed, and nothing else. It takes exactly their bytes.
  pub read_longs-packed :
      (xs bytes rest : List ℕ)
      → IsPacked fb xs bytes
      → offset + length xs < 2 ^ 64
      → (m' : Memory) × (read_longs w m offset (length xs) fb issigned (bytes ++ rest)
          ≡ ok (m', rest))
        × Holds m' offset (map (convert w issigned) xs)
        × Kept m m' offset (length xs)
  read_longs-packed xs bytes rest p bounded =
      let fresh : Cursor = record { cur_byte = 0; bits_left = 0 } in
      let (space, value) = fresh_window bytes in
      let (m', left_over, e, (holds, kept, (c, room_left, few))) =
        read_longs_loop_lem w fb wide narrow issigned (2 ^ p.pad) p.padding p.padding_fits xs offset
          fresh m bytes p.values_fit p.clean (omega arith) (space ∙ p.size) (value ∙ p.spells) in
      let whole =
        exact offset (length xs) bounded bytes
        ∙ e
        ∙ ap (λ (l : List ℕ). ok (m', l)) (exhausted c left_over p.pad room_left p.short) in
      (
        m',
        read_longs-IsLocal w m offset (length xs) fb issigned bytes rest [] m' whole,
        holds,
        rw (length-map (convert w issigned) xs) at kept,
      )
