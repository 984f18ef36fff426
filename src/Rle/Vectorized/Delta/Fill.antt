-- ===== src/Rle/Vectorized/Delta/Fill.antt =====
-- src/orc/RLE2.cpp under `__AVX2__`: the stores of eight equal values in nextDelta and
-- nextShortRepeats.
use tengdb.Common.{ℕ, zero, suc, ◌+◌, ◌-◌, ◌*◌, ◌/◌, ◌^◌, ◌≡◌, ◌<◌, ◌≤◌, ap, ◌∙◌, sym, arith}
use tengdb.Common.{Bool, Bool-cases, true, ltb, leb, ◌==◌, ◌&&◌, not, ◌⊎◌, inl, inr}
use tengdb.Common.{if◌then◌else◌}
use tengdb.Common.Memory.{Memory, store, write_bytes}
use tengdb.Rle.Delta.{fixed_delta}
use tengdb.Rle.Repeats.{fill}
use tengdb.Rle.Vector.{lane32, lanes, set1_epi32, storeu}
use tengdb.Rle.Vector.Lanes.{lane32-from_lanes32}
use tengdb.Rle.Vectorized.Delta.{fill_rounds, vector_fixed_delta, vector_fill}
use tengdb.Rle.Vectorized.Delta.Equal.{store_same}

lane_of_value : (value i : ℕ) → value < 2 ^ 32 → lane32 (set1_epi32 value) i ≡ value
unfolding set1_epi32
lane_of_value value i h = lane32-from_lanes32 (λ _. value) i ∙ omega arith

-- The store of a register with eight equal lanes is eight rounds of the loop.
storeu-fill :
    (pos value : ℕ) (m : Memory)
    → value < 2 ^ 32
    → storeu 32 m pos (set1_epi32 value) ≡ fill 8 pos value m
unfolding storeu lanes fill write_bytes
storeu-fill pos value m h = rw (
  lane_of_value value 0 h,
  lane_of_value value 1 h,
  lane_of_value value 2 h,
  lane_of_value value 3 h,
  lane_of_value value 4 h,
  lane_of_value value 5 h,
  lane_of_value value 6 h,
  lane_of_value value 7 h,
)

fill-add :
    (a b pos value : ℕ) (m : Memory)
    → fill (a + b) pos value m ≡ fill b (pos + a) value (fill a pos value m)
unfolding fill
fill-add zero b pos value m =
    let none : 0 + b ≡ b = omega arith in let here : pos + 0 ≡ pos = omega arith in rw (none, here)
fill-add (suc a) b pos value m =
    let more : suc a + b ≡ suc (a + b) = omega arith in
    let next : pos + suc a ≡ pos + 1 + a = omega arith in
    rw (more, next) (fill-add a b (pos + 1) value (store m pos value))

fill_rounds_lem :
    (n r pos value : ℕ) (m : Memory)
    → value < 2 ^ 32
    → fill r (pos + n * 8) value (fill_rounds n pos value m) ≡ fill (n * 8 + r) pos value m
unfolding fill_rounds
fill_rounds_lem zero r pos value m h =
    let none : 0 * 8 + r ≡ r = omega arith in
    let here : pos + 0 * 8 ≡ pos = omega arith in rw (none, here)
fill_rounds_lem (suc n) r pos value m h =
    let more : suc n * 8 + r ≡ 8 + (n * 8 + r) = omega arith in
    let next : pos + suc n * 8 ≡ pos + 8 + n * 8 = omega arith in
    rw (more, next)
      (fill_rounds_lem n r (pos + 8) value (storeu 32 m pos (set1_epi32 value)) h
        ∙ rw (storeu-fill pos value m h) (sym (fill-add 8 (n * 8 + r) pos value m)))

fill_again :
    (n pos value : ℕ) (m : Memory)
    → m pos ≡ value
    → fill (suc n) pos value m ≡ fill n (pos + 1) value m
unfolding fill
fill_again n pos value m e = ap (fill n (pos + 1) value) (store_same m pos value e)

-- A run of equal steps: nextDelta gives the same buffer with FLAGS_vectorization as without it, for
-- types of four bytes and runs of a value or more.
pub vector_fixed_delta-fixed_delta :
    (vectorization : Bool) (m : Memory) (offset run_length first_value delta : ℕ)
    → 1 ≤ run_length
    → first_value < 2 ^ 32
    → m offset ≡ first_value
    → vector_fixed_delta vectorization 32 m offset run_length first_value delta
      ≡ fixed_delta 32 m (offset + 1) (offset + run_length) first_value delta
unfolding vector_fixed_delta fixed_delta
vector_fixed_delta-fixed_delta vectorization m offset run_length first_value delta one small e =
    elim (Bool-cases (not (delta == 0))) [
      | inl steps ↦ rw steps
      | inr level ↦ elim (Bool-cases (vectorization && true)) [
        | inr off ↦ rw (level, off)
        | inl on ↦
            let n = run_length / 8 in
            let r = offset + run_length - (offset + n * 8) in
            let all : n * 8 + r ≡ suc (run_length - 1) = omega arith in
            let left : offset + run_length - (offset + 1) ≡ run_length - 1 = omega arith in
            rw (level, on, left)
              (fill_rounds_lem n r offset first_value m small
                ∙ ap (λ (k : ℕ). fill k offset first_value m) all
                ∙ fill_again (run_length - 1) offset first_value m e)
      ]
    ]

fill-at :
    (n pos value : ℕ) (m : Memory) (j : ℕ)
    → fill n pos value m j ≡ (if leb pos j && ltb j (pos + n) then value else m j)
unfolding fill
fill-at zero pos value m j = ground arith
fill-at (suc n) pos value m j = rw (fill-at n (pos + 1) value (store m pos value) j) (ground arith)

-- nextShortRepeats with FLAGS_vectorization stores what it stores without it, at every position but
-- those behind a run of fewer than eight values and below the eighth, for types of four bytes.
pub vector_fill-fill :
    (vectorization : Bool) (run_length offset value : ℕ) (m : Memory) (j : ℕ)
    → value < 2 ^ 32
    → (j < offset + run_length) ⊎ (offset + 8 ≤ j)
    → vector_fill vectorization 32 run_length offset value m j ≡ fill run_length offset value m j
unfolding vector_fill
vector_fill-fill vectorization run_length offset value m j small out =
    elim (Bool-cases (vectorization && true)) [
      | inr off ↦ rw off
      | inl on ↦ rw (on, storeu-fill offset value m small, fill-at, fill-at, fill-at) (ground arith)
    ]
