-- ===== src/Common/Run/Halts.antt =====
-- Code that does not run for ever.
use mathlib.Core.Logic.{◌≢◌}
use mathlib.Core.Bool.{Bool, true, false}
use native.Mathlib.Omega.{arith}
use tengdb.Common.Run.{Run, ok, fault, stuck, ◌>>>◌}
use tengdb.Common.Tests.{if◌then◌else◌}

-- The code returns what satisfies `P`, or it faults in another way than by running out of fuel.
abbrev pub Halts : {A : Type 0} → Run A → (A → Type 0) → Type 0
Halts (ok a) P = P a
Halts (fault e) P = e ≢ stuck

-- The same without a condition on the result.
abbrev pub Ending : {A : Type 0} → Run A → Type 0
Ending r = Halts r (λ _. Unit {0})

pub Halts-then :
    {A B : Type 0} (r : Run A) (k : A → Run B) (P : A → Type 0) (Q : B → Type 0)
    → Halts r P
    → ((a : A) → P a → Halts (k a) Q)
    → Halts (r >>> k) Q
Halts-then (ok a) k P Q h f = f a h
Halts-then (fault e) k P Q h f = h

pub Ending-then :
    {A B : Type 0} (r : Run A) (k : A → Run B) (Q : B → Type 0)
    → Ending r
    → ((a : A) → Halts (k a) Q)
    → Halts (r >>> k) Q
Ending-then r k Q h f = Halts-then r k (λ _. Unit {0}) Q h (λ a _. f a)

pub Halts-ne : {A : Type 0} (r : Run A) (P : A → Type 0) → Halts r P → r ≢ fault stuck
Halts-ne (ok a) P h = λ e. cc
Halts-ne (fault e) P h = λ p. h (ground arith)

pub ne-Ending : {A : Type 0} (r : Run A) → r ≢ fault stuck → Ending r
ne-Ending (ok a) h = tt
ne-Ending (fault e) h = λ p. h (ground arith)

-- A choice between code and a fault, or between two ends.
pub if-Ending :
    {A : Type 0} (t : Bool) (r s : Run A) → Ending r → Ending s → Ending (if t then r else s)
if-Ending true r s h k = h
if-Ending false r s h k = k
