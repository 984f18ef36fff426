-- ===== src/Scanner/Columns/Values.antt =====
-- src/exec/ORCScanner.cpp, nextBatch: the values that are decoded, as the bytes of a buffer.
use tengdb.Common.{ℕ, zero, suc, ◌+◌, ◌*◌, ◌/◌, ◌%◌, ◌^◌, ◌≤◌, ◌<◌, ◌≡◌, refl, sym, ap, ◌∙◌, arith}
use tengdb.Common.{ltb, leb, ◌==◌, true, List, [], ◌∷◌, length, get_or, Option, none, some}
use tengdb.Common.{Bool, if◌then◌else◌, Option-cases, inl, inr}
use mathlib.Core.Path.{subst}
use tengdb.Common.Memory.{Memory, Holds, bytes_at}
use tengdb.Common.Run.{ok, fault, outside}
use tengdb.MemoryPool.{Block, DataBuffer}
use tengdb.MemoryPool.Blocks.{IsBuffer, Backs, element}
use tengdb.Scanner.Batch.Print.{value_at}
use tengdb.Scanner.Columns.{as_bytes, put_values, result_cells, data_bytes}
use native.Mathlib.Nat.{
  mul-add-div_right, mul-add-mod_self_right, mod-eq_of_lt, div-eq_of_lt, div-div-eq-div-mul,
  pow-suc, mul-le-mul_right, div-one,
}

-- The byte `j` of the value `i` of `size` bytes.
byte_lem :
    (size : ℕ) (values : Memory) (i j : ℕ)
    → j < size
    → as_bytes size values (i * size + j) ≡ values i / 256 ^ j % 256
unfolding as_bytes
byte_lem size values i j h =
    let place : (i * size + j) / size ≡ i =
      mul-add-div_right (omega arith) i j ∙ ap (λ (n : ℕ). i + n) (div-eq_of_lt h) ∙ omega arith in
    let within : (i * size + j) % size ≡ j = mul-add-mod_self_right i size j ∙ mod-eq_of_lt h in
    rw (place, within)

-- The bytes that are left of a value from its byte `j` on.
value_lem :
    (size : ℕ) (values cells : Memory) (i k j : ℕ)
    → ((j' : ℕ) → j' < size → cells (i * size + j') ≡ as_bytes size values (i * size + j'))
    → j + k ≡ size
    → values i / 256 ^ j < 256 ^ k
    → value_at k cells (i * size + j) ≡ values i / 256 ^ j
unfolding value_at
value_lem size values cells i zero j same e small =
    let none_left : values i / 256 ^ j < 1 = small in omega (arith, none_left)
value_lem size values cells i (suc k) j same e small =
    let x = values i / 256 ^ j in
    let here : cells (i * size + j) ≡ x % 256 =
      same j (omega arith) ∙ byte_lem size values i j (omega arith) in
    let more : values i / 256 ^ (j + 1) ≡ x / 256 =
      ap (λ (n : ℕ). values i / n) (ap (λ (n : ℕ). 256 ^ n) (next j) ∙ pow-suc 256 j)
      ∙ sym (div-div-eq-div-mul (values i) (256 ^ j) 256) in
    let wider : 256 ^ suc k ≡ 256 ^ k * 256 = pow-suc 256 k in
    let smaller : x / 256 < 256 ^ k = omega (arith, small, wider) in
    let rest = value_lem size values cells i k (j + 1) same (omega arith) (rw more smaller) in
    rw (here, shift (i * size) j, rest, more) (omega arith)
  where
    next : (n : ℕ) → n + 1 ≡ suc n
    next n = omega arith

    shift : (a n : ℕ) → a + n + 1 ≡ a + (n + 1)
    shift a n = omega arith

-- A value that fits its bytes is read back.
pub value_at-as_bytes :
    (size : ℕ) (values cells : Memory) (i : ℕ)
    → ((j : ℕ) → j < size → cells (i * size + j) ≡ as_bytes size values (i * size + j))
    → values i < 256 ^ size
    → value_at size cells (i * size) ≡ values i
value_at-as_bytes size values cells i same small =
    let first : i * size + 0 ≡ i * size = omega arith in
    let whole : values i / 256 ^ 0 ≡ values i = div-one (values i) in
    ap (value_at size cells) (sym first)
    ∙ value_lem size values cells i size 0 same (omega arith) (rw whole small)
    ∙ whole

pub Holds-get_or :
    (m : Memory) (p : ℕ) (xs : List ℕ) (i : ℕ)
    → Holds m p xs
    → i < length xs
    → m (p + i) ≡ get_or xs i 0
Holds-get_or m p [] i h less = absurd (omega arith)
Holds-get_or m p (x ∷ xs) zero (e, h) less = ap m (omega arith) ∙ e
Holds-get_or m p (x ∷ xs) (suc i) (e, h) less =
    ap m (omega arith) ∙ Holds-get_or m (p + 1) xs i h (omega arith)

put_none :
    (size : ℕ) (buf : DataBuffer) (n : ℕ) (values : Memory)
    → buf.buf ≡ none
    → put_values size buf n values ≡ (if n == 0 then ok buf else fault outside)
unfolding put_values
put_none size buf n values e =
    ap
      (λ (o : Option Block). elim o [
        | none ↦ if n == 0 then ok buf else fault outside
        | some b ↦
            if leb (n * size) b.bytes
            then ok (record buf {
              buf = some (record {
                bytes = b.bytes;
                cells = λ p. if ltb p (n * size) then as_bytes size values p else b.cells p;
              });
            })
            else fault outside
      ])
      e

put_some :
    (size : ℕ) (buf : DataBuffer) (n : ℕ) (values : Memory) (b : Block)
    → buf.buf ≡ some b
    → leb (n * size) b.bytes ≡ true
    → put_values size buf n values
      ≡ ok (record buf {
        buf = some (record {
          bytes = b.bytes;
          cells = λ p. if ltb p (n * size) then as_bytes size values p else b.cells p;
        });
      })
unfolding put_values
put_some size buf n values b e test =
    ap
      (λ (o : Option Block). elim o [
        | none ↦ if n == 0 then ok buf else fault outside
        | some b ↦
            if leb (n * size) b.bytes
            then ok (record buf {
              buf = some (record {
                bytes = b.bytes;
                cells = λ p. if ltb p (n * size) then as_bytes size values p else b.cells p;
              });
            })
            else fault outside
      ])
      e
    ∙ rw test

-- The values are written to a buffer with room for them, and read back from it.
pub put_values_lem :
    (size : ℕ) (buf : DataBuffer) (values : Memory) (xs : List ℕ)
    → IsBuffer 1 buf
    → length xs * size ≤ buf.current_capacity
    → 0 < size
    → Holds values 0 xs
    → ((i : ℕ) → i < length xs → get_or xs i 0 < 256 ^ size)
    → (buf' : DataBuffer) × (put_values size buf (length xs) values ≡ ok buf')
      × IsBuffer 1 buf'
      × ((i : ℕ) → i < length xs → value_at size (result_cells buf') (i * size) ≡ get_or xs i 0)
unfolding put_values result_cells
put_values_lem size buf values xs h room some_size holds small = elim (Option-cases buf.buf) [
  | inl e ↦
      let empty : buf.current_capacity ≡ 0 = subst (Backs 1 buf.current_capacity) e h.backed in
      let nothing : length xs ≡ 0 = none_fit (length xs) (omega (arith, room, empty)) in
      let test : (length xs == 0) ≡ true = ground (arith, nothing) in
      (
        buf,
        put_none size buf (length xs) values e
            ∙ ap (λ (c : Bool). if c then ok buf else fault outside) test,
        h,
        λ i less. absurd (omega (arith, nothing)),
      )
  | inr (b, e) ↦
      let backed : 1 * buf.current_capacity ≤ b.bytes =
        subst (Backs 1 buf.current_capacity) e h.backed in
      let test : leb (length xs * size) b.bytes ≡ true = ground (arith, room, backed) in
      let cells : Memory =
        λ p. if ltb p (length xs * size) then as_bytes size values p else b.cells p in
      let buf' = record buf { buf = some (record { bytes = b.bytes; cells = cells }) } in
      (
        buf',
        put_some size buf (length xs) values b e test,
        record { sized = h.sized; bounded = h.bounded; backed = backed },
        λ i less.
            value_at-as_bytes size values cells i
              (λ j within.
                written (as_bytes size values) b.cells (length xs * size) (i * size + j)
                  (below i j less within))
              (rw (found i less) (small i less))
            ∙ found i less,
      )
]
  where
    found : (i : ℕ) → i < length xs → values i ≡ get_or xs i 0
    found i less = ap values (omega arith) ∙ Holds-get_or values 0 xs i holds less

    none_fit : (n : ℕ) → n * size ≤ 0 → n ≡ 0
    none_fit zero less = refl
    none_fit (suc n) less =
        let one : 1 ≤ suc n = omega arith in
        let step = mul-le-mul_right size one in absurd (omega (arith, step, less))

    written : (new old : Memory) (n p : ℕ) → p < n → (if ltb p n then new p else old p) ≡ new p
    written new old n p less = let test : ltb p n ≡ true = ground arith in rw test

    below : (i j : ℕ) → i < length xs → j < size → i * size + j < length xs * size
    below i j hi hj = let step = mul-le-mul_right size hi in omega (arith, step, hj)

bytes_at-same :
    (m m' : Memory) (p q n : ℕ)
    → ((i : ℕ) → i < n → m (p + i) ≡ m' (q + i))
    → bytes_at m p n ≡ bytes_at m' q n
bytes_at-same m m' p q zero same = refl
bytes_at-same m m' p q (suc n) same =
    let here : m p ≡ m' q = ap m (omega arith) ∙ same 0 (omega arith) ∙ ap m' (omega arith) in
    rw here (
      ap (λ (l : List ℕ). m' q ∷ l)
        (bytes_at-same m m' (p + 1) (q + 1) n
          (λ i less. ap m (omega arith) ∙ same (suc i) (omega arith) ∙ ap m' (omega arith))))

-- The bytes that a buffer holds.
pub data_bytes_lem :
    (buf : DataBuffer) (n : ℕ) (m : Memory)
    → IsBuffer 1 buf
    → n ≤ buf.current_capacity
    → ((i : ℕ) → i < n → element buf.buf i ≡ m i)
    → data_bytes buf n ≡ ok (bytes_at m 0 n)
unfolding data_bytes
data_bytes_lem buf n m h room same = elim (Option-cases buf.buf) [
  | inl e ↦
      let empty : buf.current_capacity ≡ 0 = subst (Backs 1 buf.current_capacity) e h.backed in
      let nothing : n ≡ 0 = omega (arith, room, empty) in rw (e, nothing)
  | inr (b, e) ↦
      let backed : 1 * buf.current_capacity ≤ b.bytes =
        subst (Backs 1 buf.current_capacity) e h.backed in
      let test : leb n b.bytes ≡ true = ground (arith, room, backed) in
      let cells : (i : ℕ) → i < n → b.cells i ≡ m i =
        λ i less. sym (ap (λ (o : Option Block). element o i) e) ∙ same i less in
      rw (e, test)
        (ap ok (
          bytes_at-same b.cells m 0 0 n
            (λ i less. ap b.cells (omega arith) ∙ cells i less ∙ ap m (omega arith))))
]
