-- ===== src/Common/Run/Local.antt =====
-- Code that reads does not look past the bytes that it takes.
use mathlib.Core.Path.{◌≡◌, refl}
use mathlib.Core.Logic.{◌⊎◌, inl, inr}
use mathlib.Core.List.{List, [], ◌∷◌, ◌++◌}
use Prim.Native.Nat.{ℕ}
use native.Mathlib.Omega.{arith}
use tengdb.Common.Run.{Run, Read, Fault, ok, fault, ◌>>=◌, pure, next_byte, shl}

-- A result is the same with more bytes behind the input, and these stay unread.
abbrev pub IsLocal : {A : Type 0} → Read A → Type 0
IsLocal {A} m =
    (bytes more rest : List ℕ) (a : A)
    → m bytes ≡ ok (a, rest)
    → m (bytes ++ more) ≡ ok (a, rest ++ more)

pub Run-cases : {B : Type 0} (r : Run B) → ((b : B) × (r ≡ ok b)) ⊎ ((e : Fault) × (r ≡ fault e))
Run-cases (ok b) = inl (b, refl)
Run-cases (fault e) = inr (e, refl)

pub bind-IsLocal :
    {A B : Type 0} (m : Read A) (f : A → Read B)
    → IsLocal m
    → ((a : A) → IsLocal (f a))
    → IsLocal (m >>= f)
bind-IsLocal m f hm hf bytes more rest b h = elim (Run-cases (m bytes)) [
  | inl ((a, rest'), e) ↦
      rw (hm bytes more rest' a e, ◌>>=◌) (hf a rest' more rest b (rw (e, ◌>>=◌) at h))
  | inr (x, e) ↦ cc (rw (e, ◌>>=◌) at h)
]

-- Two steps that agree, followed by steps that agree on what the first ones return.
pub bind-congr :
    {A B : Type 0} (m m' : Read A) (f f' : A → Read B) (bytes : List ℕ)
    → m bytes ≡ m' bytes
    → ((a : A) (rest : List ℕ) → m' bytes ≡ Run.ok (a, rest) → f a rest ≡ f' a rest)
    → (m >>= f) bytes ≡ (m' >>= f') bytes
bind-congr m m' f f' bytes e h = elim (Run-cases (m' bytes)) [
  | inl ((a, rest), e') ↦ rw (◌>>=◌, e, e') (h a rest e')
  | inr (x, e') ↦ rw (◌>>=◌, e, e')
]

pub pure-IsLocal : {A : Type 0} (a : A) → IsLocal (pure a)
pure-IsLocal a bytes more rest b h = ground arith

pub next_byte-IsLocal : IsLocal next_byte
unfolding next_byte
next_byte-IsLocal [] more rest b h = cc
next_byte-IsLocal (x ∷ bytes) more rest b h = ground arith

pub shl-IsLocal : (w x k : ℕ) → IsLocal (shl w x k)
unfolding shl
shl-IsLocal w x k bytes more rest a h = ground arith
