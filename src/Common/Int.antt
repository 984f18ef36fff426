-- ===== src/Common/Int.antt =====
-- Integers over the native numbers: `negsuc n` is -(n + 1).
use Prim.Native.Nat.{ℕ, zero, suc}
use mathlib.Core.Path.{◌≡◌, refl, ap}
use mathlib.Core.Logic.{◌≢◌}
use mathlib.Core.Bool.{Bool, true, false}
use native.Mathlib.Omega.{arith}
use tengdb.Common.Tests.{◌==◌}

pub data ℤ : Type 0 where
  pos : ℕ → ℤ
  negsuc : ℕ → ℤ

abbrev pub sucℤ : ℤ → ℤ
sucℤ (pos n) = pos (suc n)
sucℤ (negsuc zero) = pos 0
sucℤ (negsuc (suc n)) = negsuc n

abbrev pub predℤ : ℤ → ℤ
predℤ (pos zero) = negsuc 0
predℤ (pos (suc n)) = pos n
predℤ (negsuc n) = negsuc (suc n)

abbrev pub same_int : ℤ → ℤ → Bool
same_int (pos m) (pos n) = m == n
same_int (negsuc m) (negsuc n) = m == n
same_int (pos m) (negsuc n) = false
same_int (negsuc m) (pos n) = false

same_lem : (m n : ℕ) → (m == n) ≡ true → m ≡ n
same_lem m n h = ground arith

pub same_int_lem : (a b : ℤ) → same_int a b ≡ true → a ≡ b
same_int_lem (pos m) (pos n) h = ap pos (same_lem m n h)
same_int_lem (negsuc m) (negsuc n) h = ap negsuc (same_lem m n h)
same_int_lem (pos m) (negsuc n) h = absurd (cc)
same_int_lem (negsuc m) (pos n) h = absurd (cc)

pub same_int_self : (a : ℤ) → same_int a a ≡ true
same_int_self (pos m) = ground arith
same_int_self (negsuc m) = ground arith

pub same_int_ne : (a b : ℤ) → a ≢ b → same_int a b ≡ false
same_int_ne a b h =
    elim (same_int a b) as (λ t. (same_int a b ≡ t) → t ≡ false) [
      | true ↦ λ e. absurd (h (same_int_lem a b e))
      | false ↦ λ e. refl
    ]
      refl
