-- ===== src/Rle/Vectorized/Delta/Rounds.antt =====
-- src/orc/RLE2.cpp, nextDelta under `__AVX2__`: the rounds of eight values against the loop over
-- single values.
use tengdb.Common.{ℕ, zero, suc, ◌+◌, ◌-◌, ◌*◌, ◌≡◌, refl, ap, ◌∙◌, sym, arith}
use tengdb.Common.{List, [], ◌∷◌, map, All, length, false, inr}
use mathlib.Core.Path.{subst}
use tengdb.Common.Memory.{
  Memory, store, Holds, Holds-Kept, store-Kept, write_bytes, write_bytes_lem,
}
use tengdb.Rle.Delta.{accumulate}
use tengdb.Rle.Delta.Loops.{running, accumulate_step}
use tengdb.Rle.Vector.{Vector, lane32, up_to, counted, lanes, storeu, loadu_result}
use tengdb.Rle.Vector.{permutevar8x32_epi32}
use tengdb.Rle.Vector.Lanes.{lane32-from_lanes32}
use tengdb.Rle.Vectorized.Delta.{prefix_sum, prefix_rounds, permute_fetch_top}
use tengdb.Rle.Vectorized.Delta.Prefix.{up_to_lane, low32, IsLane, prefix_sum-Summed, next_base}
use tengdb.Rle.Vectorized.Longs.{map-All}
use tengdb.Rle.Word.{add}

-- The value that a loop over the distances `xs` ends with.
abbrev total : ℕ → List ℕ → ℕ
total prev [] = prev
total prev (x ∷ xs) = total (add 32 prev x) xs

-- The loop over distances that stand in memory writes the running sums.
accumulate_writes :
    (n pos prev : ℕ) (xs : List ℕ) (m : Memory)
    → Holds m pos xs
    → accumulate 32 false (length xs + n) pos prev m
      ≡ accumulate 32 false n
          (pos + length xs)
          (total prev xs)
          (write_bytes m pos (running 32 false prev xs))
unfolding running write_bytes
accumulate_writes n pos prev [] m h =
    let none : 0 + n ≡ n = omega arith in let here : pos + 0 ≡ pos = omega arith in rw (none, here)
accumulate_writes n pos prev (x ∷ xs) m (e, h) =
    let v = add 32 prev x in
    let more : suc (length xs) + n ≡ suc (length xs + n) = omega arith in
    let next : pos + suc (length xs) ≡ pos + 1 + length xs = omega arith in
    let later =
      Holds-Kept m (store m pos v) (pos + 1) pos 1 xs (store-Kept m pos v) (inr (omega arith)) h in
    rw (more, next)
      (accumulate_step 32 false (length xs + n) pos prev x m e
        ∙ accumulate_writes n (pos + 1) v xs (store m pos v) later)

-- The eight values from `pos` on.
abbrev eight : Memory → ℕ → List ℕ
eight m pos = map (λ i. m (pos + i)) (up_to 8)

Holds-counted :
    (m : Memory) (pos n i p : ℕ) → p ≡ pos + i → Holds m p (map (λ j. m (pos + j)) (counted n i))
Holds-counted m pos zero i p e = tt
Holds-counted m pos (suc n) i p e = (ap m e, Holds-counted m pos n (i + 1) (p + 1) (omega arith))

-- Sums do not depend on what lies above 32 bits.
add_low : (prev x y : ℕ) → x ≡ low32 y → add 32 prev x ≡ add 32 prev y
unfolding add
add_low prev x y e = rw e (omega arith)

running_low :
    (f g : ℕ → ℕ) (prev : ℕ) (xs : List ℕ)
    → ((i : ℕ) → f i ≡ low32 (g i))
    → running 32 false prev (map f xs) ≡ running 32 false prev (map g xs)
unfolding running
running_low f g prev [] h = refl
running_low f g prev (x ∷ xs) h =
    let same = add_low prev (f x) (g x) (h x) in
    ap (λ (v : ℕ). v ∷ running 32 false v (map f xs)) same
    ∙ ap (λ (l : List ℕ). add 32 prev (g x) ∷ l) (running_low f g (add 32 prev (g x)) xs h)

total_low :
    (f g : ℕ → ℕ) (prev : ℕ) (xs : List ℕ)
    → ((i : ℕ) → f i ≡ low32 (g i))
    → total prev (map f xs) ≡ total prev (map g xs)
total_low f g prev [] h = refl
total_low f g prev (x ∷ xs) h =
    ap (λ (v : ℕ). total v (map f xs)) (add_low prev (f x) (g x) (h x))
    ∙ total_low f g (add 32 prev (g x)) xs h

-- The sums that the register holds are the running sums.
module _ (x : Vector) (b : ℕ) where
  abbrev sum_at : ℕ → ℕ
  sum_at i = low32 (b + up_to_lane x i)

  sum_step : (i j : ℕ) → j ≡ suc i → add 32 (sum_at i) (lane32 x j) ≡ sum_at j
  unfolding add
  sum_step i j e = rw e (omega arith)

  running_sums :
      (n i j : ℕ)
      → j ≡ suc i
      → running 32 false (sum_at i) (map (lane32 x) (counted n j)) ≡ map sum_at (counted n j)
  unfolding running
  running_sums zero i j e = refl
  running_sums (suc n) i j e =
      rw (sum_step i j e)
        (ap (λ (l : List ℕ). sum_at j ∷ l) (running_sums n j (j + 1) (omega arith)))

  total_sums :
      (n i j : ℕ) → j ≡ suc i → total (sum_at i) (map (lane32 x) (counted n j)) ≡ sum_at (i + n)
  total_sums zero i j e = let here : i + 0 ≡ i = omega arith in rw here
  total_sums (suc n) i j e =
      let next : i + suc n ≡ j + n = omega arith in
      ap (λ (v : ℕ). total v (map (lane32 x) (counted n (j + 1)))) (sum_step i j e)
      ∙ rw next (total_sums n j (j + 1) (omega arith))

  all_sums :
      (running 32 false b (map (lane32 x) (up_to 8)) ≡ map sum_at (up_to 8))
      × (total b (map (lane32 x) (up_to 8)) ≡ sum_at 7)
  unfolding running add
  all_sums = (ap (λ (l : List ℕ). sum_at 0 ∷ l) (running_sums 7 0 1 refl), total_sums 7 0 1 refl)

-- A round stores the running sums of the eight values that it loads.
module _ (m : Memory) (pos b : ℕ) (base : Vector) (same : All (IsLane base b) (up_to 8)) where
  abbrev result : Vector
  result = prefix_sum base (loadu_result m pos)

  lane_low : (i : ℕ) → lane32 (loadu_result m pos) i ≡ low32 (m (pos + i))
  unfolding loadu_result
  lane_low i = lane32-from_lanes32 (λ j. m (pos + j)) i

  result_lanes : lanes 32 result ≡ running 32 false b (eight m pos)
  unfolding lanes
  result_lanes =
      let x = loadu_result m pos in
      map-All (lane32 result) (sum_at x b) (up_to 8) (prefix_sum-Summed base x b same)
      ∙ sym ((all_sums x b).0)
      ∙ running_low (lane32 x) (λ i. m (pos + i)) b (up_to 8) lane_low

  result_top : lane32 result 7 ≡ total b (eight m pos)
  result_top =
      let x = loadu_result m pos in
      let (_, (_, (_, (_, (_, (_, (_, (top, _)))))))) = prefix_sum-Summed base x b same in
      top ∙ sym ((all_sums x b).1) ∙ total_low (lane32 x) (λ i. m (pos + i)) b (up_to 8) lane_low

  stored_sums : storeu 32 m pos result ≡ write_bytes m pos (running 32 false b (eight m pos))
  unfolding storeu
  stored_sums = ap (write_bytes m pos) result_lanes

  stored_top : storeu 32 m pos result (pos + 7) ≡ lane32 result 7
  unfolding storeu lanes
  stored_top =
      let ((_, (_, (_, (_, (_, (_, (_, (top, _)))))))), _) =
        write_bytes_lem m pos (lanes 32 result) in
      let there : pos + 1 + 1 + 1 + 1 + 1 + 1 + 1 ≡ pos + 7 = omega arith in rw there at top

  -- Eight rounds of the loop over single values.
  pub one_round :
      (r : ℕ)
      → accumulate 32 false (8 + r) pos b m
        ≡ accumulate 32 false r
            (pos + 8)
            (storeu 32 m pos result (pos + 7))
            (storeu 32 m pos result)
  one_round r =
      rw (stored_top, result_top, stored_sums)
        (accumulate_writes r pos b (eight m pos) m (Holds-counted m pos 8 0 pos (omega arith)))

-- One round at least, and then single values, are single values from the start.
pub prefix_rounds_lem :
    (n r pos b : ℕ) (m : Memory) (base : Vector)
    → All (IsLane base b) (up_to 8)
    → let folded = prefix_rounds (suc n) pos base m in
      accumulate 32 false (suc n * 8 + r) pos b m
      ≡ accumulate 32 false r (pos + suc n * 8) (folded (pos + suc n * 8 - 1)) folded
unfolding prefix_rounds
prefix_rounds_lem zero r pos b m base same =
    let all : 1 * 8 + r ≡ 8 + r = omega arith in
    let end : pos + 1 * 8 ≡ pos + 8 = omega arith in
    let top : pos + 8 - 1 ≡ pos + 7 = omega arith in
    rw (all, end, top) (one_round m pos b base same r)
prefix_rounds_lem (suc n) r pos b m base same =
    let x = prefix_sum base (loadu_result m pos) in
    let m' = storeu 32 m pos x in
    let base' = permutevar8x32_epi32 x permute_fetch_top in
    let same' =
      subst (λ (v : ℕ). All (IsLane base' v) (up_to 8)) (sym (stored_top m pos b base same))
        (next_base x) in
    let all : suc (suc n) * 8 + r ≡ 8 + (suc n * 8 + r) = omega arith in
    let end : pos + suc (suc n) * 8 ≡ pos + 8 + suc n * 8 = omega arith in
    rw (all, end)
      (one_round m pos b base same (suc n * 8 + r)
        ∙ prefix_rounds_lem n r (pos + 8) (m' (pos + 7)) m' base' same')
