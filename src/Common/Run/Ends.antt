-- ===== src/Common/Run/Ends.antt =====
-- Code that ends: it never runs out of fuel, and takes a number of bytes at least.
use mathlib.Core.Logic.{◌≢◌}
use mathlib.Core.List.{List, [], ◌∷◌}
use mathlib.Core.Bool.{true, false}
use Prim.Native.Nat.{ℕ, ◌+◌, ◌≤◌, ◌*◌, ◌%◌, ◌^◌}
use native.Mathlib.Omega.{arith}
use tengdb.Common.Lists.{length}
use tengdb.Common.Tests.{ltb}
use tengdb.Common.Run.{Run, Read, Fault, ok, fault, stuck, wide_shift}
use tengdb.Common.Run.{◌>>=◌, pure, next_byte, shl, promoted}

pub data EndsWith {A : Type 0} (k : ℕ) (bytes : List ℕ) : Run (A × List ℕ) → Type 0 where
  takes : {a : A} {rest : List ℕ} → length rest + k ≤ length bytes → EndsWith k bytes (ok (a, rest))
  faults : {e : Fault} → e ≢ stuck → EndsWith k bytes (fault e)

abbrev pub Ends : {A : Type 0} → ℕ → Read A → Type 0
Ends k m = (bytes : List ℕ) → EndsWith k bytes (m bytes)

later :
    {B : Type 0} (k : ℕ) (bytes rest : List ℕ)
    → length rest + k ≤ length bytes
    → (r : Run (B × List ℕ)) → EndsWith 0 rest r
    → EndsWith k bytes r
later k bytes rest h r (takes h') = takes (omega arith)
later k bytes rest h r (faults h') = faults h'

bind_outcome :
    {A B : Type 0} (k : ℕ) (f : A → Read B) (bytes : List ℕ) (r : Run (A × List ℕ))
    → EndsWith k bytes r
    → ((a : A) → Ends 0 (f a))
    → EndsWith k bytes (elim r [ ok (a, rest) ↦ f a rest | fault e ↦ fault e ])
bind_outcome k f bytes (fault e) (faults h) hf = faults h
bind_outcome k f bytes (ok (a, rest)) (takes h) hf = later k bytes rest h (f a rest) (hf a rest)

pub bind-Ends :
    {A B : Type 0} (k : ℕ) (m : Read A) (f : A → Read B)
    → Ends k m
    → ((a : A) → Ends 0 (f a))
    → Ends k (m >>= f)
bind-Ends k m f hm hf bytes = bind_outcome k f bytes (m bytes) (hm bytes) hf

pub pure-Ends : {A : Type 0} (a : A) → Ends 0 (pure a)
pure-Ends a bytes = takes (omega arith)

pub next_byte-Ends : Ends 1 next_byte
unfolding next_byte
next_byte-Ends [] = faults (λ e. cc)
next_byte-Ends (b ∷ bytes) = takes (omega arith)

pub shl-Ends : (w x k : ℕ) → Ends 0 (shl w x k)
unfolding shl
shl-Ends w x k bytes =
    elim (ltb k (promoted w))
      as (λ t.
        EndsWith 0 bytes
          (elim t [ true ↦ ok (x * 2 ^ k % 2 ^ w, bytes) | false ↦ fault wide_shift ])) [
            | true ↦ takes (omega arith)
            | false ↦ faults (λ e. cc)
          ]

pub less-EndsWith :
    {A : Type 0} (k : ℕ) (bytes : List ℕ) (r : Run (A × List ℕ))
    → EndsWith k bytes r
    → EndsWith 0 bytes r
less-EndsWith k bytes r (takes h) = takes (omega arith)
less-EndsWith k bytes r (faults h) = faults h

-- Code that takes a byte first.
pub byte-Ends : {A : Type 0} (f : ℕ → Read A) → ((b : ℕ) → Ends 0 (f b)) → Ends 0 (next_byte >>= f)
byte-Ends f h bytes =
    less-EndsWith 1 bytes ((next_byte >>= f) bytes) (bind-Ends 1 next_byte f next_byte-Ends h bytes)

pub first_byte-Ends :
    {A : Type 0} (f : ℕ → Read A) → ((b : ℕ) → Ends 0 (f b)) → Ends 1 (next_byte >>= f)
first_byte-Ends f h = bind-Ends 1 next_byte f next_byte-Ends h
