-- ===== src/MemoryPool/Tests.antt =====
-- The buffer of src/common/MemoryPool.cpp over a malloc that never fails.
use tengdb.Common.{ℕ, ◌+◌, ◌<◌, ◌≡◌, refl, arith, Option, some}
use tengdb.Common.Run.{ok}
use tengdb.MemoryPool.{Block, DataBuffer, reserve, resize, new_buffer}
use tengdb.MemoryPool.Blocks.{IsAllocator, IsBuffer, element}
use tengdb.MemoryPool.Growth.{
  IsReserved, IsResized, reserve-IsReserved, resize-IsResized, new_buffer-IsResized,
}

abbrev simple_malloc : ℕ → Option Block
simple_malloc n = some (record { bytes = n; cells = λ i. 170 })

simple_malloc-IsAllocator : IsAllocator simple_malloc
simple_malloc-IsAllocator n some_n fits =
    (record { bytes = n; cells = λ i. 170 }, refl, omega arith)

-- Two elements of eight bytes and room for a third.
abbrev two_elements : DataBuffer
two_elements = record {
  buf = some (record { bytes = 24; cells = λ i. i + 5 });
  current_size = 2;
  current_capacity = 3;
}

two_elements-IsBuffer : IsBuffer 8 two_elements
two_elements-IsBuffer = record { sized = omega arith; bounded = omega arith; backed = omega arith }

resize-IsResized_example :
    (d' : DataBuffer) × (resize simple_malloc 8 two_elements 6 ≡ ok d')
    × IsResized 8 two_elements 6 d'
resize-IsResized_example =
    resize-IsResized simple_malloc 8 (omega arith) simple_malloc-IsAllocator two_elements 6
      two_elements-IsBuffer (omega arith)

reserve-IsReserved_example :
    (d' : DataBuffer) × (reserve simple_malloc 8 two_elements 6 ≡ ok d')
    × IsReserved 8 two_elements 6 d'
reserve-IsReserved_example =
    reserve-IsReserved simple_malloc 8 (omega arith) simple_malloc-IsAllocator two_elements 6
      two_elements-IsBuffer (omega arith)

new_buffer-IsResized_example :
    (d : DataBuffer) × (new_buffer simple_malloc 8 100 ≡ ok d)
    × IsBuffer 8 d
    × (d.current_size ≡ 100)
    × ((i : ℕ) → i < 100 → element d.buf i ≡ 0)
new_buffer-IsResized_example =
    new_buffer-IsResized simple_malloc 8 (omega arith) simple_malloc-IsAllocator 100 (omega arith)
