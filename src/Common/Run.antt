-- ===== src/Common/Run.antt =====
-- Code that may fault, and code that takes bytes from the front of its input.
pub mod Local
pub mod Ends
pub mod Halts
use mathlib.Core.Path.{◌≡◌}
use Prim.Native.Nat.{ℕ, ◌*◌, ◌%◌, ◌^◌, ◌<◌, max}
use mathlib.Core.List.{List, [], ◌∷◌}
use mathlib.Core.Bool.{true, false}
use tengdb.Common.Tests.{ltb, lt→ltb}

-- `past_end` is a read behind the last byte and `wide_shift` a shift by the width of the shifted
-- type or more, `outside` an access outside a block or array, all undefined in C++; `corrupt` is
-- `exit(0)` on bad input; `stuck` says that fuel ran out and is no behaviour of the program.
pub data Fault : Type 0 where
  past_end wide_shift outside corrupt stuck : Fault

pub data Run {ℓ} (A : Type ℓ) : Type ℓ where
  ok : A → Run A
  fault : Fault → Run A

-- `k` runs on the result of code that may fault.
infixl 5 ◌>>>◌
abbrev pub ◌>>>◌ : {A B : Type 0} → Run A → (A → Run B) → Run B
ok a >>> k = k a
fault e >>> k = fault e

-- The bytes that are not yet taken stand for `data` and `index`: `data[index++]` takes the first.
abbrev pub Read : Type 0 → Type 0
Read A = List ℕ → Run (A × List ℕ)

infixl 5 ◌>>=◌ ◌>>◌
abbrev pub ◌>>=◌ : {A B : Type 0} → Read A → (A → Read B) → Read B
◌>>=◌ m f bytes = elim (m bytes) [ ok (a, rest) ↦ f a rest | fault e ↦ fault e ]

abbrev pub ◌>>◌ : {B : Type 0} → Read (Unit {0}) → Read B → Read B
m >> k = m >>= λ _. k

abbrev pub pure : {A : Type 0} → A → Read A
pure a bytes = ok (a, bytes)

abbrev pub stop : {A : Type 0} → Fault → Read A
stop e bytes = fault e

-- `data[index++]`
unfoldable pub next_byte : Read ℕ
next_byte [] = fault past_end
next_byte (b ∷ bytes) = ok (b, bytes)

-- A type narrower than `int` is promoted before it is shifted.
abbrev pub promoted : ℕ → ℕ
promoted w = max w 32

-- `(T)(x << k)` for a type `T` of `w` bits.
unfoldable pub shl : ℕ → ℕ → ℕ → Read ℕ
shl w x k bytes = elim (ltb k (promoted w)) [
  | true ↦ ok (x * 2 ^ k % 2 ^ w, bytes)
  | false ↦ fault wide_shift
]

pub shl_lem :
    (w x k : ℕ) (bytes : List ℕ) → k < promoted w → shl w x k bytes ≡ ok (x * 2 ^ k % 2 ^ w, bytes)
unfolding shl
shl_lem w x k bytes h = rw (lt→ltb k (promoted w) h, shl)

-- What runs on equal results has equal results.
pub bind-ap :
    {A B : Type 0} (m m' : Read A) (f : A → Read B) (bytes bytes' : List ℕ)
    → m bytes ≡ m' bytes'
    → (m >>= f) bytes ≡ (m' >>= f) bytes'
bind-ap {A} m m' f bytes bytes' e = rw (◌>>=◌, e)

-- The code ends normally, with a result and unread bytes that satisfy `P`.
abbrev pub Returns : {A : Type 0} → Run (A × List ℕ) → (A → List ℕ → Type 0) → Type 0
Returns {A} r P = (a : A) × (rest : List ℕ) × (r ≡ ok (a, rest)) × P a rest

-- `P` holds of the result of code that does not fault.
abbrev pub Gives : {A : Type 0} → Run A → (A → Type 0) → Type 0
Gives (ok a) P = P a
Gives (fault e) P = Unit

pub Gives-then :
    {A B : Type 0} (r : Run A) (k : A → Run B) (P : B → Type 0)
    → ((a : A) → Gives (k a) P)
    → Gives (r >>> k) P
Gives-then (ok a) k P h = h a
Gives-then (fault e) k P h = tt

pub Gives-then_from :
    {A B : Type 0} (r : Run A) (k : A → Run B) (P : A → Type 0) (Q : B → Type 0)
    → Gives r P
    → ((a : A) → P a → Gives (k a) Q)
    → Gives (r >>> k) Q
Gives-then_from (ok a) k P Q g h = h a g
Gives-then_from (fault e) k P Q g h = tt
