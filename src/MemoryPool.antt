-- ===== src/MemoryPool.antt =====
-- src/common/MemoryPool.cpp: DataBuffer, for the element types of a fixed size that it is
-- specialised to. The size of an element, `sizeof(T)`, is an argument.
pub mod Blocks
pub mod Growth
mod Tests
use tengdb.Common.{ℕ, ◌+◌, ◌-◌, ◌*◌, ◌/◌, ◌%◌, ◌^◌, Bool, true, false, ltb, leb, ◌||◌}
use tengdb.Common.{Option, none, some, if◌then◌else◌}
use tengdb.Common.Memory.{Memory}
use tengdb.Common.Run.{Run, ok, fault, outside}

-- What malloc returns: a number of bytes, and the elements that happen to stand there.
pub record Block : Type 0 where
  pub bytes : ℕ
  pub cells : Memory

pub record DataBuffer : Type 0 where
  pub buf : Option Block
  pub current_size : ℕ
  pub current_capacity : ℕ

unfoldable pub is_null : Option Block → Bool
is_null none = true
is_null (some b) = false

-- The size in bytes of `n` elements, a uint64_t.
unfoldable pub bytes_of : ℕ → ℕ → ℕ
bytes_of size_of n = size_of * n % 2 ^ 64

-- The elements from `from` to `to` become those of `cells`.
unfoldable pub overwrite : Memory → ℕ → ℕ → Memory → Memory
overwrite m from to cells i = if ltb i from then m i else if ltb i to then cells i else m i

-- A write of `n` bytes to the elements from `from` on (memcpy and memset).
unfoldable pub write_block : ℕ → Option Block → ℕ → ℕ → Memory → Run (Option Block)
write_block size_of none from n cells = if ltb 0 n then fault outside else ok none
write_block size_of (some b) from n cells =
    if leb (size_of * from + n) b.bytes
    then ok (
        some
          (record { bytes = b.bytes; cells = overwrite b.cells from (from + n / size_of) cells }))
    else fault outside

-- `malloc` stands for std::malloc; `none` is NULL.
module _ (malloc : ℕ → Option Block) (size_of : ℕ) where
  -- `buf = malloc(...); memcpy(buf, buf_old, ...); free(buf_old);`
  unfoldable pub move : Option Block → ℕ → ℕ → Run (Option Block)
  move none current_size new_capacity = ok (malloc (bytes_of size_of new_capacity))
  move (some old) current_size new_capacity =
      write_block size_of (malloc (bytes_of size_of new_capacity)) 0 (bytes_of size_of current_size)
        old.cells

  unfoldable pub with_block : DataBuffer → ℕ → Run (Option Block) → Run DataBuffer
  with_block d new_capacity (ok buf) = ok (record d { buf = buf; current_capacity = new_capacity })
  with_block d new_capacity (fault e) = fault e

  unfoldable pub reserve : DataBuffer → ℕ → Run DataBuffer
  reserve d new_capacity =
      if ltb d.current_capacity new_capacity || is_null d.buf
      then with_block d new_capacity (move d.buf d.current_size new_capacity)
      else ok d

  unfoldable pub with_size : DataBuffer → ℕ → Run (Option Block) → Run DataBuffer
  with_size d new_size (ok buf) = ok (record d { buf = buf; current_size = new_size })
  with_size d new_size (fault e) = fault e

  -- `memset(buf + currentSize, 0, (newSize - currentSize) * sizeof(T))` where the buffer grows.
  unfoldable pub clear_new : DataBuffer → ℕ → Run DataBuffer
  clear_new d new_size =
      if ltb d.current_size new_size
      then with_size d new_size (
          write_block size_of d.buf d.current_size (bytes_of size_of (new_size - d.current_size))
            (λ _. 0))
      else ok (record d { current_size = new_size })

  unfoldable pub resize : DataBuffer → ℕ → Run DataBuffer
  resize d new_size = elim (reserve d new_size) [
    | ok d' ↦ clear_new d' new_size
    | fault e ↦ fault e
  ]

  unfoldable pub new_buffer : ℕ → Run DataBuffer
  new_buffer new_size =
      resize (record { buf = none; current_size = 0; current_capacity = 0 }) new_size
