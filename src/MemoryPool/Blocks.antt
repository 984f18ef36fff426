-- ===== src/MemoryPool/Blocks.antt =====
-- src/common/MemoryPool.cpp: the blocks behind a buffer, and what is copied into them.
use tengdb.Common.{ℕ, ◌+◌, ◌*◌, ◌/◌, ◌^◌, ◌≤◌, ◌<◌, ◌≡◌, ap, ◌∙◌, arith}
use tengdb.Common.{true, leb, Option, none, some}
use tengdb.Common.Memory.{Memory}
use tengdb.Common.Run.{ok}
use tengdb.MemoryPool.{Block, DataBuffer, bytes_of, overwrite, write_block, move}
use native.Mathlib.Nat.{mod-eq_of_lt, mul-div_cancel, mul-le-mul_right}

-- What the buffer needs of malloc: a block of the size asked for.
abbrev pub IsAllocator : (ℕ → Option Block) → Type 0
IsAllocator malloc =
    (n : ℕ) → 0 < n → n < 2 ^ 64 → (b : Block) × (malloc n ≡ some b) × (n ≤ b.bytes)

-- The block has room for the capacity.
abbrev pub Backs : ℕ → ℕ → Option Block → Type 0
Backs size_of capacity none = capacity ≡ 0
Backs size_of capacity (some b) = size_of * capacity ≤ b.bytes

pub record IsBuffer (size_of : ℕ) (d : DataBuffer) : Type 0 where
  pub sized : d.current_size ≤ d.current_capacity
  pub bounded : size_of * d.current_capacity < 2 ^ 64
  pub backed : Backs size_of d.current_capacity d.buf

-- `buf[i]`
abbrev pub element : Option Block → ℕ → ℕ
element none i = 0
element (some b) i = b.cells i

leb-true : (a b : ℕ) → a ≤ b → leb a b ≡ true
leb-true a b h = ground arith

pub written :
    (m cells : Memory) (from to i : ℕ) → from ≤ i → i < to → overwrite m from to cells i ≡ cells i
unfolding overwrite
written m cells from to i lo hi = ground arith

pub unwritten : (m cells : Memory) (from to i : ℕ) → i < from → overwrite m from to cells i ≡ m i
unfolding overwrite
unwritten m cells from to i h = ground arith

pub write_some :
    (size_of : ℕ) (b : Block) (from n : ℕ) (cells : Memory)
    → size_of * from + n ≤ b.bytes
    → write_block size_of (some b) from n cells
      ≡ ok (
          some
            (record { bytes = b.bytes; cells = overwrite b.cells from (from + n / size_of) cells }))
unfolding write_block
write_some size_of b from n cells h = rw (leb-true (size_of * from + n) b.bytes h, write_block)

module _ (malloc : ℕ → Option Block) (size_of : ℕ) (some_size : 0 < size_of)
    (alloc : IsAllocator malloc) where
  pub whole_bytes : (n : ℕ) → size_of * n < 2 ^ 64 → bytes_of size_of n ≡ size_of * n
  unfolding bytes_of
  whole_bytes n h = mod-eq_of_lt h

  pub elements : (n : ℕ) → size_of * n / size_of ≡ n
  elements n =
      let e : size_of * n ≡ n * size_of = omega arith in
      ap (λ (m : ℕ). m / size_of) e ∙ mul-div_cancel n some_size

  pub some_block :
      (n : ℕ)
      → 0 < n
      → size_of * n < 2 ^ 64
      → (b : Block) × (malloc (bytes_of size_of n) ≡ some b) × (size_of * n ≤ b.bytes)
  some_block n some_n h =
      let (b, e, enough) = alloc (size_of * n) (omega (arith, mul-le-mul_right n some_size)) h in
      (b, rw (whole_bytes n h) e, enough)

  pub moved :
      (old : Block) (size n : ℕ)
      → size < n
      → size_of * n < 2 ^ 64
      → (b : Block) × (move malloc size_of (some old) size n ≡ ok (some b))
        × (size_of * n ≤ b.bytes)
        × ((i : ℕ) → i < size → b.cells i ≡ old.cells i)
  unfolding move
  moved old size n less fits =
      let (b, e, enough) = some_block n (omega arith) fits in
      let below : size_of * size ≤ size_of * n =
        omega (arith, mul-le-mul_right size_of (weaken less)) in
      let bytes = whole_bytes size (omega arith) in
      let room : size_of * 0 + bytes_of size_of size ≤ b.bytes = rw bytes (omega arith) in
      (
        record {
          bytes = b.bytes;
          cells = overwrite b.cells 0 (0 + bytes_of size_of size / size_of) old.cells;
        },
        rw e (write_some size_of b 0 (bytes_of size_of size) old.cells room),
        enough,
        λ i h.
            written b.cells old.cells 0 (0 + bytes_of size_of size / size_of) i (omega arith)
              (rw (bytes, elements size) (omega arith)),
      )
    where
      weaken : {a b : ℕ} → a < b → a ≤ b
      weaken h = omega arith
