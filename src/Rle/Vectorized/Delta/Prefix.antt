-- ===== src/Rle/Vectorized/Delta/Prefix.antt =====
-- src/orc/RLE2.cpp, nextDelta under `__AVX2__`: the sums within a register.
use tengdb.Common.{ℕ, zero, suc, ◌+◌, ◌-◌, ◌*◌, ◌/◌, ◌%◌, ◌^◌, ◌≡◌, ap, ◌∙◌, arith, bit_and}
use tengdb.Common.{All, ltb, if◌then◌else◌, Bool, true, false}
use tengdb.Common.Bits.{and_mask}
use native.Mathlib.Nat.{add-zero, mod-add-mod, add-mod-mod, mod-mod}
use tengdb.Rle.Vector.{Vector, lane32, set_epi32, up_to, permutevar8x32_epi32, and_si256, add_epi32}
use tengdb.Rle.Vector.Lanes.{lane32-from_lanes32}
use tengdb.Rle.Vectorized.Delta.{
  permute1, permute2, permute4, mask1, mask2, mask4, permute_fetch_top,
}
use tengdb.Rle.Vectorized.Delta.{add_shifted, prefix_sum, ones32}
use tengdb.Rle.Vectorized.Formats.{All-implied, All-both}
use tengdb.Rle.Word.{add}

-- Lane `i` of a permutation is the lane that the index names.
pub lane32-permute :
    (v index : Vector) (i : ℕ)
    → lane32 (permutevar8x32_epi32 v index) i ≡ lane32 v (lane32 index i % 8)
unfolding permutevar8x32_epi32
lane32-permute v index i =
    let q0 : 4 * i / 4 ≡ i = omega arith in
    let q1 : (4 * i + 1) / 4 ≡ i = omega arith in
    let q2 : (4 * i + 2) / 4 ≡ i = omega arith in
    let q3 : (4 * i + 3) / 4 ≡ i = omega arith in
    let r0 : 4 * i % 4 ≡ 0 = omega arith in
    let r1 : (4 * i + 1) % 4 ≡ 1 = omega arith in
    let r2 : (4 * i + 2) % 4 ≡ 2 = omega arith in
    let r3 : (4 * i + 3) % 4 ≡ 3 = omega arith in rw (q0, r0, q1, r1, q2, r2, q3, r3, add-zero)

-- The lane `s` places below, or zero.
abbrev below : ℕ → Vector → ℕ → ℕ
below s x i = if ltb i s then 0 else lane32 x (i - s)

-- The constants of a step by `s` lanes.
abbrev Shifts : ℕ → Vector → Vector → ℕ → Type 0
Shifts s permute mask i =
    (lane32 permute i % 8 ≡ i - s) × (lane32 mask i ≡ (if ltb i s then 0 else ones32))

shifts1 : All (Shifts 1 permute1 mask1) (up_to 8)
unfolding permute1 mask1 set_epi32
shifts1 = ground arith

shifts2 : All (Shifts 2 permute2 mask2) (up_to 8)
unfolding permute2 mask2 set_epi32
shifts2 = ground arith

shifts4 : All (Shifts 4 permute4 mask4) (up_to 8)
unfolding permute4 mask4 set_epi32
shifts4 = ground arith

abbrev Added : ℕ → Vector → Vector → Vector → ℕ → Type 0
Added s permute mask x i =
    lane32 (add_shifted permute mask x) i ≡ (lane32 x i + below s x i) % 2 ^ 32

mask_lane :
    (y : ℕ) (t : Bool)
    → bit_and y (if t then 0 else ones32) % 2 ^ 32 ≡ (if t then 0 else y) % 2 ^ 32
mask_lane y true = let none : bit_and y 0 ≡ 0 = and_mask 0 y ∙ omega arith in rw none
mask_lane y false =
    let whole : bit_and y ones32 ≡ y % 2 ^ 32 = and_mask 32 y in rw whole (omega arith)

add_shifted-Added :
    (s : ℕ) (permute mask x : Vector) (i : ℕ) → Shifts s permute mask i → Added s permute mask x i
unfolding add_shifted add_epi32 and_si256 add
add_shifted-Added s permute mask x i (index, m) =
    rw (lane32-from_lanes32, lane32-from_lanes32, lane32-permute, index, m)
      (omega (arith, mask_lane (lane32 x (i - s)) (ltb i s)))

added1 : (x : Vector) → All (Added 1 permute1 mask1 x) (up_to 8)
added1 x =
    All-implied {P = Shifts 1 permute1 mask1} {Q = Added 1 permute1 mask1 x} (up_to 8)
      (add_shifted-Added 1 permute1 mask1 x) shifts1

added2 : (x : Vector) → All (Added 2 permute2 mask2 x) (up_to 8)
added2 x =
    All-implied {P = Shifts 2 permute2 mask2} {Q = Added 2 permute2 mask2 x} (up_to 8)
      (add_shifted-Added 2 permute2 mask2 x) shifts2

added4 : (x : Vector) → All (Added 4 permute4 mask4 x) (up_to 8)
added4 x =
    All-implied {P = Shifts 4 permute4 mask4} {Q = Added 4 permute4 mask4 x} (up_to 8)
      (add_shifted-Added 4 permute4 mask4 x) shifts4

pub ruleset wrap = (mod-add-mod, add-mod-mod, mod-mod)

abbrev pub low32 : ℕ → ℕ
low32 n = n % 2 ^ 32

-- The sum of the lanes up to `i`.
abbrev pub up_to_lane : Vector → ℕ → ℕ
up_to_lane x zero = lane32 x zero
up_to_lane x (suc i) = up_to_lane x i + lane32 x (suc i)

-- Each lane of the three steps' result is the sum of the lanes up to it.
sums :
    (x : Vector)
    → All
        (λ i.
          lane32
            (add_shifted permute4 mask4 (add_shifted permute2 mask2 (add_shifted permute1 mask1 x)))
            i
          ≡ up_to_lane x i % 2 ^ 32)
        (up_to 8)
sums x =
    let y = add_shifted permute1 mask1 x in
    let z = add_shifted permute2 mask2 y in
    let (a0, (a1, (a2, (a3, (a4, (a5, (a6, (a7, _)))))))) = added1 x in
    let (b0, (b1, (b2, (b3, (b4, (b5, (b6, (b7, _)))))))) = added2 y in
    let (c0, (c1, (c2, (c3, (c4, (c5, (c6, (c7, _)))))))) = added4 z in
    (
      simp (c0, b0, a0, wrap) (ap low32 (omega arith)),
      (
        simp (c1, b1, a1, wrap) (ap low32 (omega arith)),
        (
          simp (c2, b2, a2, a0, wrap) (ap low32 (omega arith)),
          (
            simp (c3, b3, a3, a1, wrap) (ap low32 (omega arith)),
            (
              simp (c4, b4, b0, a4, a2, a0, wrap) (ap low32 (omega arith)),
              (
                simp (c5, b5, b1, a5, a3, a1, wrap) (ap low32 (omega arith)),
                (
                  simp (c6, b6, b2, a6, a4, a2, a0, wrap) (ap low32 (omega arith)),
                  (simp (c7, b7, b3, a7, a5, a3, a1, wrap) (ap low32 (omega arith)), tt),
                ),
              ),
            ),
          ),
        ),
      ),
    )

-- The lanes of a round's result, behind lanes that are all `b`.
abbrev pub Summed : Vector → Vector → ℕ → ℕ → Type 0
Summed base x b i = lane32 (prefix_sum base x) i ≡ low32 (b + up_to_lane x i)

abbrev pub IsLane : Vector → ℕ → ℕ → Type 0
IsLane v b i = lane32 v i ≡ b

abbrev Sum : Vector → ℕ → Type 0
Sum x i =
    lane32 (add_shifted permute4 mask4 (add_shifted permute2 mask2 (add_shifted permute1 mask1 x)))
      i
    ≡ low32 (up_to_lane x i)

pub prefix_sum-Summed :
    (base x : Vector) (b : ℕ) → All (IsLane base b) (up_to 8) → All (Summed base x b) (up_to 8)
unfolding prefix_sum add_epi32 add
prefix_sum-Summed base x b same =
    All-both {P = IsLane base b} {Q = Sum x} {R = Summed base x b} (up_to 8)
      (λ i e sum. rw (lane32-from_lanes32, sum, e) (simp wrap (ap low32 (omega arith)))) same
      (sums x)

-- Every lane of the next base is the highest one of the result.
tops : All (λ i. lane32 permute_fetch_top i % 8 ≡ 7) (up_to 8)
unfolding permute_fetch_top set_epi32
tops = ground arith

pub next_base :
    (x : Vector) → All (IsLane (permutevar8x32_epi32 x permute_fetch_top) (lane32 x 7)) (up_to 8)
next_base x =
    All-implied {P = λ i. lane32 permute_fetch_top i % 8 ≡ 7}
      {Q = IsLane (permutevar8x32_epi32 x permute_fetch_top) (lane32 x 7)} (up_to 8)
      (λ i e. rw (lane32-permute, e)) tops
