-- ===== src/Rle/Vectorized/Delta/Equal.antt =====
-- src/orc/RLE2.cpp, nextDelta under `__AVX2__`: its two branches do what they do without.
use tengdb.Common.{
  ℕ, suc, ◌+◌, ◌-◌, ◌*◌, ◌/◌, ◌%◌, ◌^◌, ◌≡◌, ◌≢◌, ◌<◌, ◌≤◌, refl, ap, ◌∙◌, sym, arith,
}
use tengdb.Common.{List, All, length, Bool, Bool-cases, true, false, ltb, ◌==◌, ◌&&◌, ◌⊎◌, inl, inr}
use tengdb.Common.{if◌then◌else◌}
use tengdb.Common.Memory.{Memory, store, Kept}
use tengdb.Common.Run.{ok}
use tengdb.Rle.Delta.{accumulate, packed_delta}
use tengdb.Rle.Delta.Loops.{accumulate_step}
use tengdb.Rle.Vector.{up_to, set1_epi32}
use tengdb.Rle.Vectorized.Delta.{prefix_rounds, vector_sums, vector_packed_delta}
use tengdb.Rle.Vectorized.Delta.Prefix.{IsLane}
use tengdb.Rle.Vectorized.Delta.Rounds.{prefix_rounds_lem}
use tengdb.Rle.Word.{add, is_negative}
use tengdb.Rle.Longs.{read_longs}
use tengdb.Rle.Longs.Frame.{read_longs-Kept}
use tengdb.Rle.Longs.Window.{IsByte}
use tengdb.Common.Run.Local.{bind-congr}
use tengdb.Rle.Vectorized.{vector_read_longs}
use tengdb.Rle.Vectorized.Equal.{vector_read_longs-read_longs}

-- A store of the value that is there changes nothing.
pub store_same : (m : Memory) (p v : ℕ) → m p ≡ v → store m p v ≡ m
store_same m p v e = λ i q. at q i
  where
    at : (q : ℕ) → store m p v q ≡ m q
    at q = elim (Bool-cases (p == q)) [
      | inl here ↦ let same : p ≡ q = ground arith in rw here (sym e ∙ ap m same)
      | inr elsewhere ↦ rw elsewhere
    ]

zero_lanes : All (IsLane (set1_epi32 0) 0) (up_to 8)
unfolding set1_epi32
zero_lanes = ground arith

-- The first two sums are the first value and the second one.
first_two :
    (n offset first_value delta : ℕ) (m : Memory)
    → first_value < 2 ^ 32
    → m offset ≡ first_value
    → m (offset + 1) ≡ add 32 first_value delta
    → accumulate 32 false (suc (suc n)) offset 0 (store m (offset + 1) delta)
      ≡ accumulate 32 false n (offset + 2) (add 32 first_value delta) m
first_two n offset first_value delta m small e0 e1 =
    let m1 = store m (offset + 1) delta in
    let at0 : m1 offset ≡ first_value = ground arith in
    let v0 : add 32 0 first_value ≡ first_value = unfold add in omega arith in
    let m2 = store m1 offset first_value in
    let at1 : m2 (offset + 1) ≡ delta = ground arith in
    let second = add 32 first_value delta in
    let next : offset + 1 + 1 ≡ offset + 2 = omega arith in
    accumulate_step 32 false (suc n) offset 0 first_value m1 at0
    ∙ ap (λ (v : ℕ). accumulate 32 false (suc n) (offset + 1) v (store m1 offset v)) v0
    ∙ accumulate_step 32 false n (offset + 1) first_value delta m2 at1
    ∙ ap (λ (p : ℕ). accumulate 32 false n p second (store m2 (offset + 1) second)) next
    ∙ ap (accumulate 32 false n (offset + 2) second) (λ i q. back q i)
  where
    back :
        (q : ℕ)
        → store
            (store (store m (offset + 1) delta) offset first_value)
            (offset + 1)
            (add 32 first_value delta)
            q
          ≡ m q
    back q = elim (Bool-cases (offset + 1 == q)) [
      | inl here ↦ let same : offset + 1 ≡ q = ground arith in rw here (sym e1 ∙ ap m same)
      | inr elsewhere ↦ elim (Bool-cases (offset == q)) [
        | inl start ↦
            let same : offset ≡ q = ground arith in rw (elsewhere, start) (sym e0 ∙ ap m same)
        | inr other ↦ rw (elsewhere, other)
      ]
    ]

-- Behind the distances of an ascending run, nextDelta with FLAGS_vectorization sums them up eight at
-- a time to the same buffer as one by one, for types of four bytes and runs of two values or more.
pub vector_sums-accumulate :
    (vectorization : Bool) (offset run_length first_value delta : ℕ) (m : Memory)
    → 2 ≤ run_length
    → first_value < 2 ^ 32
    → m offset ≡ first_value
    → m (offset + 1) ≡ add 32 first_value delta
    → vector_sums vectorization 32 offset run_length (add 32 first_value delta) delta m
      ≡ accumulate 32 false (run_length - 2) (offset + 2) (add 32 first_value delta) m
unfolding vector_sums
vector_sums-accumulate vectorization offset run_length first_value delta m two small e0 e1 =
    let left : offset + run_length - (offset + 2) ≡ run_length - 2 = omega arith in
    elim (Bool-cases (vectorization && true && ltb 8 run_length)) [
      | inr off ↦ rw (off, left)
      | inl on ↦ let k = run_length / 8 - 1 in rw on (folded k (ground arith))
    ]
  where
    folded :
        (k : ℕ)
        → run_length / 8 ≡ suc k
        → let m' =
            prefix_rounds (run_length / 8) offset (set1_epi32 0) (store m (offset + 1) delta) in
          let trueend = offset + run_length / 8 * 8 in
          accumulate 32 false (offset + run_length - trueend) trueend (m' (trueend - 1)) m'
          ≡ accumulate 32 false (run_length - 2) (offset + 2) (add 32 first_value delta) m
    folded k whole =
        let r = offset + run_length - (offset + suc k * 8) in
        let rounds =
          prefix_rounds_lem k r offset 0 (store m (offset + 1) delta) (set1_epi32 0) zero_lanes in
        let start : suc k * 8 + r ≡ suc (suc (run_length - 2)) = omega (arith, whole) in
        rw whole (
          sym rounds
          ∙ ap (λ (n : ℕ). accumulate 32 false n offset 0 (store m (offset + 1) delta)) start
          ∙ first_two (run_length - 2) offset first_value delta m small e0 e1)

-- The summed branch after any readLongs that keeps the first two values.
after_reading :
    (vectorization : Bool) (offset run_length first_value delta : ℕ) (m m' : Memory)
    → 2 ≤ run_length
    → first_value < 2 ^ 32
    → m offset ≡ first_value
    → Kept (store m (offset + 1) (add 32 first_value delta)) m' (offset + 2) (run_length - 2)
    → (if is_negative 32 delta
        then accumulate 32 true
            (offset + run_length - (offset + 2))
            (offset + 2)
            (add 32 first_value delta)
            m'
        else vector_sums vectorization 32 offset run_length (add 32 first_value delta) delta m')
      ≡ accumulate 32
          (is_negative 32 delta)
          (offset + run_length - (offset + 2))
          (offset + 2)
          (add 32 first_value delta)
          m'
after_reading vectorization offset run_length first_value delta m m' two small e0 kept =
    elim (Bool-cases (is_negative 32 delta)) [
      | inl down ↦ rw down
      | inr up ↦
          let left : offset + run_length - (offset + 2) ≡ run_length - 2 = omega arith in
          let e1 : m' offset ≡ first_value = kept offset (inl (omega arith)) ∙ ground arith in
          let e2 : m' (offset + 1) ≡ add 32 first_value delta =
            kept (offset + 1) (inl (omega arith)) ∙ ground arith in
          rw (up, left)
            (vector_sums-accumulate vectorization offset run_length first_value delta m' two small
              e1 e2)
    ]

-- The bit-packed branch of nextDelta gives the same result with FLAGS_vectorization as without it,
-- whatever the bytes are: for types of four bytes, runs of two values or more below position 2 ^ 64,
-- every width of the distances but 4, and where the last load of 32 bytes stays within the data.
pub vector_packed_delta-packed_delta :
    (vectorization : Bool) (m : Memory) (offset run_length first_value delta bit_size : ℕ)
    (bytes : List ℕ)
    → 2 ≤ run_length
    → offset + run_length < 2 ^ 64
    → first_value < 2 ^ 32
    → m offset ≡ first_value
    → bit_size ≢ 4
    → All IsByte bytes
    → (run_length < 10) ⊎ (bit_size * ((run_length - 2) / 8) + 32 ≤ length bytes + bit_size)
    → vector_packed_delta vectorization 32 m offset run_length first_value delta bit_size bytes
      ≡ packed_delta 32 m (offset + 1) (offset + run_length) first_value delta bit_size bytes
unfolding vector_packed_delta packed_delta
vector_packed_delta-packed_delta vectorization m offset run_length first_value delta bit_size bytes
      two bounded small e0 h4 clean long =
    let second = store m (offset + 1) (add 32 first_value delta) in
    let next : offset + 1 + 1 ≡ offset + 2 = omega arith in
    let remaining : (offset + run_length + 2 ^ 64 - (offset + 2)) % 2 ^ 64 ≡ run_length - 2 =
      omega arith in
    let enough : (run_length - 2 < 8)
        ⊎ (bit_size * ((run_length - 2) / 8) + 32 ≤ length bytes + bit_size) =
      elim long [ inl few ↦ inl (omega arith) | inr many ↦ inr many ] in
    rw (next, remaining)
      (bind-congr
        (vector_read_longs vectorization 32 second (offset + 2) (run_length - 2) bit_size false)
        (read_longs 32 second (offset + 2) (run_length - 2) bit_size false) _ _ bytes
        (vector_read_longs-read_longs vectorization second (offset + 2) (run_length - 2) bit_size
          false bytes h4 (inl refl) clean (omega arith) enough)
        λ m' rest e.
          ap (λ (r : Memory). ok (r, rest))
            (after_reading vectorization offset run_length first_value delta m m' two small e0 (
              read_longs-Kept 32 second m' (offset + 2) (run_length - 2) bit_size false bytes rest
                (omega arith) e)))
