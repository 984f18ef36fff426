-- ===== src/Common/Memory.antt =====
-- A buffer that the code writes through a pointer, as the values at its positions.
use Prim.Native.Nat.{ℕ, zero, suc, ◌+◌, ◌≤◌, ◌<◌}
use mathlib.Core.Path.{◌≡◌, ◌∙◌, refl}
use mathlib.Core.Logic.{◌⊎◌, inl, inr}
use native.Mathlib.Omega.{arith}
use mathlib.Core.List.{List, [], ◌∷◌, ◌++◌}
use tengdb.Common.Lists.{length, length-append}
use tengdb.Common.Tests.{◌==◌, if◌then◌else◌}

abbrev pub Memory : Type 0
Memory = ℕ → ℕ

-- `m[p] = v`
abbrev pub store : Memory → ℕ → ℕ → Memory
store m p v q = if p == q then v else m q

-- The values `xs` stand from `p` on.
abbrev pub Holds : Memory → ℕ → List ℕ → Type 0
Holds m p [] = Unit
Holds m p (x ∷ xs) = (m p ≡ x) × Holds m (p + 1) xs

-- `m'` differs from `m` at the `n` positions from `p` on at most.
abbrev pub Kept : Memory → Memory → ℕ → ℕ → Type 0
Kept m m' p n = (j : ℕ) → (j < p) ⊎ (p + n ≤ j) → m' j ≡ m j

pub Kept-store : (m m' : Memory) (p v n : ℕ) → Kept (store m p v) m' (p + 1) n → Kept m m' p (suc n)
Kept-store m m' p v n kept j (inl before) = kept j (inl (omega arith)) ∙ ground arith
Kept-store m m' p v n kept j (inr behind) = kept j (inr (omega arith)) ∙ ground arith

pub Kept-trans : (m m' m'' : Memory) (p n : ℕ) → Kept m m' p n → Kept m' m'' p n → Kept m m'' p n
Kept-trans m m' m'' p n h k j out = k j out ∙ h j out

-- A value that is written once and then left alone.
pub Holds-store :
    (m m' : Memory) (p v n : ℕ) (xs : List ℕ)
    → Kept (store m p v) m' (p + 1) n
    → Holds m' (p + 1) xs
    → Holds m' p (v ∷ xs)
Holds-store m m' p v n xs kept h = (kept p (inl (omega arith)) ∙ ground arith, h)

-- Values outside the positions that were written stay.
pub Holds-Kept :
    (m m' : Memory) (p q n : ℕ) (xs : List ℕ)
    → Kept m m' q n
    → (p + length xs ≤ q) ⊎ (q + n ≤ p)
    → Holds m p xs
    → Holds m' p xs
Holds-Kept m m' p q n [] kept out h = tt
Holds-Kept m m' p q n (x ∷ xs) kept (inl before) (e, h) =
    (kept p (inl (omega arith)) ∙ e, Holds-Kept m m' (p + 1) q n xs kept (inl (omega arith)) h)
Holds-Kept m m' p q n (x ∷ xs) kept (inr behind) (e, h) =
    (kept p (inr behind) ∙ e, Holds-Kept m m' (p + 1) q n xs kept (inr (omega arith)) h)

pub store-Kept : (m : Memory) (p v : ℕ) → Kept m (store m p v) p 1
store-Kept m p v j (inl before) = ground arith
store-Kept m p v j (inr behind) = ground arith

pub Holds-append :
    (m : Memory) (p : ℕ) (xs ys : List ℕ)
    → Holds m p xs
    → Holds m (p + length xs) ys
    → Holds m p (xs ++ ys)
Holds-append m p [] ys h h' = let e : p + 0 ≡ p = omega arith in rw e at h'
Holds-append m p (x ∷ xs) ys (e, h) h' =
    let next : p + suc (length xs) ≡ p + 1 + length xs = omega arith in
    (e, Holds-append m (p + 1) xs ys h (rw next at h'))

pub Kept-append :
    (m m' m'' : Memory) (p a b : ℕ) → Kept m m' p a → Kept m' m'' (p + a) b → Kept m m'' p (a + b)
Kept-append m m' m'' p a b h h' j (inl before) = h' j (inl (omega arith)) ∙ h j (inl before)
Kept-append m m' m'' p a b h h' j (inr behind) = h' j (inr (omega arith)) ∙ h j (inr (omega arith))

-- `memcpy(buf + p, bytes, n)`
unfoldable pub write_bytes : Memory → ℕ → List ℕ → Memory
write_bytes m p [] = m
write_bytes m p (b ∷ bytes) = write_bytes (store m p b) (p + 1) bytes

pub write_bytes_lem :
    (m : Memory) (p : ℕ) (bytes : List ℕ)
    → Holds (write_bytes m p bytes) p bytes × Kept m (write_bytes m p bytes) p (length bytes)
unfolding write_bytes
write_bytes_lem m p [] = (tt, λ j _. refl)
write_bytes_lem m p (b ∷ bytes) =
    let m' = write_bytes (store m p b) (p + 1) bytes in
    let (holds, kept) = write_bytes_lem (store m p b) (p + 1) bytes in
    (Holds-store m m' p b (length bytes) bytes kept holds, Kept-store m m' p b (length bytes) kept)

-- `m'` is `m` with `bytes` written at `p`.
abbrev pub Wrote : Memory → Memory → ℕ → List ℕ → Type 0
Wrote m m' p bytes = Holds m' p bytes × Kept m m' p (length bytes)

pub Kept-widen :
    (m m' : Memory) (p n q k : ℕ) → q ≤ p → p + n ≤ q + k → Kept m m' p n → Kept m m' q k
Kept-widen m m' p n q k below within kept j (inl before) = kept j (inl (omega arith))
Kept-widen m m' p n q k below within kept j (inr behind) = kept j (inr (omega arith))

-- Two writes, the second one directly behind the first.
pub Wrote-append :
    (m m' m'' : Memory) (p : ℕ) (xs ys : List ℕ)
    → Wrote m m' p xs
    → Wrote m' m'' (p + length xs) ys
    → Wrote m m'' p (xs ++ ys)
Wrote-append m m' m'' p xs ys (h, kept) (h', kept') = (
  Holds-append m'' p xs ys
      (Holds-Kept m' m'' p (p + length xs) (length ys) xs kept' (inl (omega arith)) h) h',
  Kept-widen m m'' p (length xs + length ys) p (length (xs ++ ys)) (omega arith)
      (omega (arith, length-append xs ys))
      (Kept-append m m' m'' p (length xs) (length ys) kept kept'),
)

-- The `n` bytes from `p` on.
abbrev pub bytes_at : Memory → ℕ → ℕ → List ℕ
bytes_at m p zero = []
bytes_at m p (suc n) = m p ∷ bytes_at m (p + 1) n

pub Holds-bytes_at :
    (m : Memory) (p : ℕ) (xs : List ℕ) (n : ℕ)
    → Holds m p xs
    → bytes_at m p (length xs + n) ≡ xs ++ bytes_at m (p + length xs) n
Holds-bytes_at m p [] n h =
    let none : 0 + n ≡ n = omega arith in let here : p + 0 ≡ p = omega arith in rw (none, here)
Holds-bytes_at m p (x ∷ xs) n (e, h) =
    let next : suc (length xs) + n ≡ suc (length xs + n) = omega arith in
    let behind : p + suc (length xs) ≡ p + 1 + length xs = omega arith in
    rw (next, behind, e, Holds-bytes_at m (p + 1) xs n h)
