-- ===== src/Rle/Longs/Window.antt =====
-- src/orc/RLE2.cpp, readLongs: what one round of the loop reads, in terms of the number that the
-- unread bits spell.
use tengdb.Common.{ℕ, suc, ◌+◌, ◌-◌, ◌*◌, ◌/◌, ◌%◌, ◌^◌, ◌≤◌, ◌<◌, ◌≡◌, sym, ap, ◌∙◌, ◌≢◌}
use tengdb.Common.{List, [], ◌∷◌, All, arith, ltb, ◌==◌, true, Bool-cases, inl, inr}
use tengdb.Common.{bit_and, ltb→lt, lt→ltb}
use tengdb.Common.Bits.{and_mask, or_disjoint, pow_pos, pow-add, mod-mul}
use tengdb.Common.Run.{Returns, ◌>>=◌, next_byte}
use tengdb.Rle.Longs.{Cursor, refill, shift_in, drain, finish, read_value}
use native.Mathlib.Nat.{
  pow-le-pow_right, pow-suc, mod-eq_of_lt, mod-lt, le_of_mul-le-mul_left, le-mul_of_pos_right,
  mul-le-mul_right,
}

abbrev pub IsByte : ℕ → Type 0
IsByte b = b < 256

-- One more than the largest number that as many bytes spell.
unfoldable pub weight : List ℕ → ℕ
weight [] = 1
weight (b ∷ bytes) = 256 * weight bytes

-- The number that the bytes spell, the first byte highest.
unfoldable pub big : List ℕ → ℕ
big [] = 0
big (b ∷ bytes) = b * weight bytes + big bytes

-- The same for the unread bits of the current byte and the bytes behind it.
unfoldable pub room : Cursor → List ℕ → ℕ
room c bytes = 2 ^ c.bits_left * weight bytes

unfoldable pub unread : Cursor → List ℕ → ℕ
unread c bytes = c.cur_byte % 2 ^ c.bits_left * weight bytes + big bytes

pub big-lt-weight : (bytes : List ℕ) → All IsByte bytes → big bytes < weight bytes
unfolding big weight
big-lt-weight [] h = omega arith
big-lt-weight (b ∷ bytes) (hb, h) = grind (arith, big-lt-weight bytes h)

pub unread-lt-room :
    (c : Cursor) (bytes : List ℕ) → All IsByte bytes → unread c bytes < room c bytes
unfolding unread room
unread-lt-room c bytes h =
    let low = mod-lt c.cur_byte (pow_pos c.bits_left) in grind (arith, big-lt-weight bytes h)

pub shift_in_lem :
    (w raw n x : ℕ) → (raw + 1) * 2 ^ n ≤ 2 ^ w → x < 2 ^ n → shift_in w raw n x ≡ raw * 2 ^ n + x
unfolding shift_in
shift_in_lem w raw n x fits small =
    let whole : raw * 2 ^ n % 2 ^ w ≡ raw * 2 ^ n = mod-eq_of_lt (omega arith) in
    rw whole (or_disjoint n raw x small)

-- `raw` and the unread bits still spell the number `whole`, and `room` is `2 ^ to_read * behind`.
pub record Reads (whole behind bound raw : ℕ) (c : Cursor) (to_read : ℕ) (bytes : List ℕ)
    : Type 0 where
  pub fits : (raw + 1) * 2 ^ to_read ≤ bound
  pub spells : raw * room c bytes + unread c bytes ≡ whole
  pub space : room c bytes ≡ 2 ^ to_read * behind
  pub left : c.bits_left ≤ 8
  pub clean : All IsByte bytes

mul-cancel : (k m n : ℕ) → 0 < k → k * m ≡ k * n → m ≡ n
mul-cancel k m n pos e =
    let up = le_of_mul-le-mul_left {m = m} {n = n} {k = k} (omega arith) pos in
    let down = le_of_mul-le-mul_left {m = n} {n = m} {k = k} (omega arith) pos in omega arith

space_nil :
    (c : Cursor) (to_read behind : ℕ)
    → room c [] ≡ 2 ^ to_read * behind
    → 2 ^ c.bits_left ≡ 2 ^ to_read * behind
unfolding room weight
space_nil c to_read behind e = omega (arith, e)

exceeds : (l t behind : ℕ) → l < t → 2 ^ l ≢ 2 ^ t * behind
exceeds l t behind h e =
    let d = t - l - 1 in
    let split : 2 ^ t ≡ 2 ^ l * (2 ^ d * 2) =
      ap (λ (n : ℕ). 2 ^ n) (omega arith)
      ∙ pow-add l (suc d)
      ∙ ap (λ (n : ℕ). 2 ^ l * n) (pow-suc 2 d) in
    let one =
      mul-cancel (2 ^ l) 1 (2 ^ d * 2 * behind) (pow_pos l)
        (omega (arith, e, ap (λ (n : ℕ). n * behind) split)) in
    absurd (omega arith)

module _ (w whole behind bound : ℕ) (narrow : bound ≤ 2 ^ w) where
  drain_round :
      (raw : ℕ) (c : Cursor) (to_read b : ℕ) (bytes : List ℕ)
      → c.bits_left < to_read
      → Reads whole behind bound raw c to_read (b ∷ bytes)
      → Reads whole behind bound
          (shift_in w raw c.bits_left (bit_and c.cur_byte (2 ^ c.bits_left - 1)))
          (record { cur_byte = b; bits_left = 8 })
          (to_read - c.bits_left)
          bytes
  unfolding room unread weight big
  drain_round raw c to_read b bytes more h =
      let p = c.bits_left in
      let split : 2 ^ to_read ≡ 2 ^ p * 2 ^ (to_read - p) =
        ap (λ (t : ℕ). 2 ^ t) (omega arith) ∙ pow-add p (to_read - p) in
      let q = 2 ^ (to_read - p) in
      let low = mod-lt c.cur_byte (pow_pos p) in
      let scaled = ap (λ (t : ℕ). (raw + 1) * t) split in
      let grows = le-mul_of_pos_right ((raw + 1) * 2 ^ p) (pow_pos (to_read - p)) in
      let fits : (raw + 1) * 2 ^ p ≤ 2 ^ w = omega (arith, scaled, grows) in
      let byte = ap (λ (t : ℕ). t * weight bytes) (mod-eq_of_lt h.clean.0) in
      let below = mul-le-mul_right q low in
      let space : 2 ^ 8 * weight bytes ≡ q * behind =
        mul-cancel (2 ^ p) (2 ^ 8 * weight bytes) (q * behind) (pow_pos p)
          (omega (arith, h.space, ap (λ (t : ℕ). t * behind) split)) in
      rw (and_mask p c.cur_byte, shift_in_lem w raw p (c.cur_byte % 2 ^ p) fits low)
        (record {
          fits = omega (arith, scaled, below);
          spells = omega (arith, h.spells, byte);
          space = space;
          left = omega arith;
          clean = h.clean.1;
        })

  -- The loop stops with enough bits in the current byte, and never runs out of bytes.
  drain_lem :
      (raw : ℕ) (c : Cursor) (to_read : ℕ) (bytes : List ℕ)
      → 0 < to_read
      → Reads whole behind bound raw c to_read bytes
      → Returns (drain w raw c to_read bytes) λ out rest.
        (0 < out.2) × (out.2 ≤ out.1.bits_left) × Reads whole behind bound out.0 out.1 out.2 rest
  unfolding drain
  drain_lem raw c to_read [] pos h = elim (Bool-cases (ltb c.bits_left to_read)) [
    | inl more ↦
        absurd (
          exceeds c.bits_left to_read behind (ltb→lt _ _ more) (space_nil c to_read behind h.space))
    | inr enough ↦ ((raw, c, to_read), [], rw enough, (pos, ground arith, h))
  ]
  drain_lem raw c to_read (b ∷ bytes) pos h = elim (Bool-cases (ltb c.bits_left to_read)) [
    | inl more ↦
        let lt = ltb→lt _ _ more in
        let raw' = shift_in w raw c.bits_left (bit_and c.cur_byte (2 ^ c.bits_left - 1)) in
        let c' : Cursor = record { cur_byte = b; bits_left = 8 } in
        let next = drain_round raw c to_read b bytes lt h in
        rw more (drain_lem raw' c' (to_read - c.bits_left) bytes (omega arith) next)
    | inr enough ↦ ((raw, c, to_read), b ∷ bytes, rw enough, (pos, ground arith, h))
  ]

  -- The left over bits complete the value: it and the bits that stay unread spell the number.
  finish_lem :
      (raw : ℕ) (c : Cursor) (to_read : ℕ) (bytes : List ℕ)
      → 0 < to_read
      → to_read ≤ c.bits_left
      → Reads whole behind bound raw c to_read bytes
      → Reads whole behind bound
          (finish w (raw, c, to_read)).0
          (finish w (raw, c, to_read)).1
          0
          bytes
        × ((finish w (raw, c, to_read)).1.bits_left < 8)
  unfolding finish room unread
  finish_lem raw c to_read bytes pos enough h =
      let p = c.bits_left - to_read in
      let split : 2 ^ c.bits_left ≡ 2 ^ to_read * 2 ^ p =
        ap (λ (t : ℕ). 2 ^ t) (omega arith) ∙ pow-add to_read p in
      let y = c.cur_byte / 2 ^ p % 2 ^ to_read in
      let small = mod-lt (c.cur_byte / 2 ^ p) (pow_pos to_read) in
      let joined : shift_in w raw to_read y ≡ raw * 2 ^ to_read + y =
        shift_in_lem w raw to_read y (omega (arith, h.fits)) small in
      let low : c.cur_byte % 2 ^ c.bits_left ≡ y * 2 ^ p + c.cur_byte % 2 ^ p =
        rw split (mod-mul c.cur_byte (2 ^ to_read) (2 ^ p) (pow_pos to_read) (pow_pos p)) in
      let v = weight bytes in
      let space : 2 ^ p * v ≡ 1 * behind =
        mul-cancel (2 ^ to_read) (2 ^ p * v) (1 * behind) (pow_pos to_read)
          (omega (arith, h.space, ap (λ (n : ℕ). n * v) split)) in
      rw (lt→ltb 0 to_read pos, and_mask to_read (c.cur_byte / 2 ^ p), joined)
        (
          record {
            fits = omega (arith, h.fits);
            spells =
                omega
                  (arith, h.spells, ap (λ (n : ℕ). n * v) low, ap (λ (n : ℕ). raw * (n * v)) split);
            space = space;
            left = omega (arith, h.left);
            clean = h.clean;
          },
          omega (arith, h.left),
        )

byte_taken :
    (c : Cursor) (b : ℕ) (bytes : List ℕ)
    → c.bits_left ≡ 0
    → b < 256
    → let c' : Cursor = record { cur_byte = b; bits_left = 8 } in
      (room c (b ∷ bytes) ≡ room c' bytes) × (unread c (b ∷ bytes) ≡ unread c' bytes)
unfolding room unread weight big
byte_taken c b bytes e h =
    let one = ap (λ (n : ℕ). 2 ^ n) e in
    let none : c.cur_byte % 2 ^ c.bits_left ≡ 0 = rw e (omega arith) in
    let byte : b % 256 ≡ b = omega arith in
    (
      omega (arith, ap (λ (n : ℕ). n * (256 * weight bytes)) one),
      omega (
        arith,
        ap (λ (n : ℕ). n * (256 * weight bytes)) none,
        ap (λ (n : ℕ). n * weight bytes) byte,
      ),
    )

-- What a round of the loop reads: the highest `fb` unread bits, which leave the others.
abbrev pub Value : ℕ → ℕ → ℕ → ℕ × Cursor → List ℕ → Type 0
Value fb whole behind (raw, c) rest =
    (raw < 2 ^ fb)
    × (raw * behind + unread c rest ≡ whole)
    × (room c rest ≡ behind)
    × (c.bits_left < 8)
    × All IsByte rest

module _ (w fb : ℕ) (wide : 0 < fb) (narrow : fb ≤ w) (behind : ℕ) where
  start :
      (c : Cursor) (bytes : List ℕ)
      → c.bits_left ≤ 8
      → All IsByte bytes
      → room c bytes ≡ 2 ^ fb * behind
      → Reads (unread c bytes) behind (2 ^ fb) 0 c fb bytes
  start c bytes left clean space = record {
    fits = omega arith;
    spells = omega arith;
    space = space;
    left = left;
    clean = clean;
  }

  refill_taken :
      (c : Cursor) (bytes : List ℕ)
      → (c.bits_left == 0) ≡ true
      → All IsByte bytes
      → room c bytes ≡ 2 ^ fb * behind
      → Returns (refill c bytes) λ c' rest. Reads (unread c bytes) behind (2 ^ fb) 0 c' fb rest
  unfolding refill next_byte
  refill_taken c [] e clean space =
      absurd (exceeds c.bits_left fb behind (ground arith) (space_nil c fb behind space))
  refill_taken c (b ∷ bytes) e clean space =
      let c' : Cursor = record { cur_byte = b; bits_left = 8 } in
      let (same_room, same) = byte_taken c b bytes (ground arith) clean.0 in
      (
        c',
        bytes,
        rw (e, refill),
        rw same (start c' bytes (omega arith) clean.1 (sym same_room ∙ space)),
      )

  refill_lem :
      (c : Cursor) (bytes : List ℕ)
      → c.bits_left < 8
      → All IsByte bytes
      → room c bytes ≡ 2 ^ fb * behind
      → Returns (refill c bytes) λ c' rest. Reads (unread c bytes) behind (2 ^ fb) 0 c' fb rest
  unfolding refill
  refill_lem c bytes left clean space = elim (Bool-cases (c.bits_left == 0)) [
    | inr some_left ↦ (c, bytes, rw (some_left, refill), start c bytes (omega arith) clean space)
    | inl none_left ↦ refill_taken c bytes none_left clean space
  ]

  finish-Value :
      {whole : ℕ} {out : ℕ × Cursor} {rest : List ℕ}
      → Reads whole behind (2 ^ fb) out.0 out.1 0 rest
      → out.1.bits_left < 8
      → Value fb whole behind out rest
  finish-Value {whole} {out} {rest} h left = (
    omega (arith, h.fits),
    omega (arith, h.spells, ap (λ (n : ℕ). out.0 * n) h.space),
    omega (arith, h.space),
    left,
    h.clean,
  )

  -- Where the unread bits are `fb` bits, from 1 to the width of the type, and others behind them, a
  -- round does not fault: it reads the number that the `fb` bits spell, and the others stay unread.
  pub read_value_lem :
      (c : Cursor) (bytes : List ℕ)
      → c.bits_left < 8
      → All IsByte bytes
      → room c bytes ≡ 2 ^ fb * behind
      → Returns (read_value w fb c bytes) (Value fb (unread c bytes) behind)
  unfolding read_value
  read_value_lem c bytes left clean space =
      let bound = pow-le-pow_right {n = 2} (omega arith) narrow in
      let (c', rest, e, h) = refill_lem c bytes left clean space in
      let (out, rest', e', (pos, enough, h')) =
        drain_lem w _ behind (2 ^ fb) bound 0 c' fb rest wide h in
      let (h'', few) = finish_lem w _ behind (2 ^ fb) bound out.0 out.1 out.2 rest' pos enough h' in
      (finish w out, rest', rw (e, ◌>>=◌, e', ◌>>=◌), finish-Value h'' few)
