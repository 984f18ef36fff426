-- ===== src/Rle/Delta/Loops.antt =====
-- src/orc/RLE2.cpp, nextDelta: its loops against the sequences that they store.
use tengdb.Common.{ℕ, zero, suc, ◌+◌, ◌%◌, ◌^◌, ◌<◌, ◌≡◌, refl, arith, Bool, ap, ◌∙◌, sym}
use tengdb.Common.{List, [], ◌∷◌, length, replicate, if◌then◌else◌, inr}
use tengdb.Common.Memory.{
  Memory, store, Holds, Kept, Kept-store, Holds-store, Holds-Kept, store-Kept,
}
use tengdb.Rle.Delta.{add_fixed, accumulate}
use tengdb.Rle.Word.{add, sub}
use mathlib.Core.Path.{subst}
use native.Mathlib.Nat.{mod-eq_of_lt}

-- The `n` values behind `prev` in steps of `delta`.
unfoldable pub steps : ℕ → ℕ → ℕ → ℕ → List ℕ
steps w delta zero prev = []
steps w delta (suc n) prev = add w prev delta ∷ steps w delta n (add w prev delta)

-- The values behind `prev` at the distances `xs`, upwards or downwards.
unfoldable pub running : ℕ → Bool → ℕ → List ℕ → List ℕ
running w down prev [] = []
running w down prev (x ∷ xs) =
    let value = if down then sub w prev x else add w prev x in value ∷ running w down value xs

pub steps-zero : (w n prev : ℕ) → prev < 2 ^ w → steps w 0 n prev ≡ replicate n prev
unfolding steps add
steps-zero w zero prev h = refl
steps-zero w (suc n) prev h =
    let same : (prev + 0) % 2 ^ w ≡ prev = mod-eq_of_lt (omega arith) ∙ omega arith in
    rw (same, steps-zero w n prev h)

pub length-steps : (w delta n prev : ℕ) → length (steps w delta n prev) ≡ n
unfolding steps
length-steps w delta zero prev = refl
length-steps w delta (suc n) prev = ap suc (length-steps w delta n (add w prev delta))

pub length-running :
    (w : ℕ) (down : Bool) (prev : ℕ) (xs : List ℕ) → length (running w down prev xs) ≡ length xs
unfolding running
length-running w down prev [] = refl
length-running w down prev (x ∷ xs) =
    ap suc (length-running w down (if down then sub w prev x else add w prev x) xs)

pub add_fixed_lem :
    (w n pos delta prev : ℕ) (m : Memory)
    → Holds (add_fixed w n pos delta prev m) pos (steps w delta n prev)
      × Kept m (add_fixed w n pos delta prev m) pos n
unfolding add_fixed steps
add_fixed_lem w zero pos delta prev m = (tt, λ j _. refl)
add_fixed_lem w (suc n) pos delta prev m =
    let v = add w prev delta in
    let (holds, kept) = add_fixed_lem w n (pos + 1) delta v (store m pos v) in
    (Holds-store m _ pos v n _ kept holds, Kept-store m _ pos v n kept)

pub accumulate_step :
    (w : ℕ) (down : Bool) (n pos prev x : ℕ) (m : Memory)
    → m pos ≡ x
    → let v = if down then sub w prev x else add w prev x in
      accumulate w down (suc n) pos prev m ≡ accumulate w down n (pos + 1) v (store m pos v)
unfolding accumulate
accumulate_step w down n pos prev x m e =
    ap
      (λ (y : ℕ).
        let v = if down then sub w prev y else add w prev y in
        accumulate w down n (pos + 1) v (store m pos v))
      e

pub accumulate_lem :
    (w : ℕ) (down : Bool) (pos prev : ℕ) (xs : List ℕ) (m : Memory)
    → Holds m pos xs
    → Holds (accumulate w down (length xs) pos prev m) pos (running w down prev xs)
      × Kept m (accumulate w down (length xs) pos prev m) pos (length xs)
unfolding running
accumulate_lem w down pos prev [] m h = (tt, λ j _. unfold accumulate in refl)
accumulate_lem w down pos prev (x ∷ xs) m (e, h) =
    let v = if down then sub w prev x else add w prev x in
    let later =
      Holds-Kept m (store m pos v) (pos + 1) pos 1 xs (store-Kept m pos v) (inr (omega arith)) h in
    let (holds, kept) = accumulate_lem w down (pos + 1) v xs (store m pos v) later in
    subst
      (λ (r : Memory). Holds r pos (running w down prev (x ∷ xs)) × Kept m r pos (suc (length xs)))
      (sym (accumulate_step w down (length xs) pos prev x m e))
      (
        Holds-store m _ pos v (length xs) (running w down v xs) kept holds,
        Kept-store m _ pos v (length xs) kept,
      )
