-- ===== src/MemoryPool/Growth.antt =====
-- src/common/MemoryPool.cpp: what reserve and resize keep.
use tengdb.Common.{ℕ, zero, suc, ◌+◌, ◌-◌, ◌*◌, ◌/◌, ◌^◌, ◌≤◌, ◌<◌, ◌≡◌, refl, ap, ◌∙◌, arith}
use tengdb.Common.{Bool-cases, ltb, Option, none, some, inl, inr, ltb→lt}
use tengdb.Common.{lt→ltb}
use tengdb.Common.Run.{ok}
use tengdb.MemoryPool.{
  Block, DataBuffer, is_null, bytes_of, overwrite, move, with_block, reserve, with_size, clear_new,
  resize, new_buffer,
}
use native.Mathlib.Nat.{mul-le-mul_right}
use tengdb.MemoryPool.Blocks.{
  IsAllocator, Backs, IsBuffer, element, written, unwritten, write_some, whole_bytes, elements,
  some_block, moved,
}

-- What reserve promises of the buffer `d'` that it makes of `d`: a buffer with room for `n`
-- elements, of the same size and with the same elements.
abbrev pub IsReserved : ℕ → DataBuffer → ℕ → DataBuffer → Type 0
IsReserved size_of d n d' =
    IsBuffer size_of d'
    × (n ≤ d'.current_capacity)
    × (d'.current_size ≡ d.current_size)
    × ((i : ℕ) → i < d.current_size → element d'.buf i ≡ element d.buf i)

-- What resize promises: a buffer of `n` elements, those of `d` as far as there are any and zero
-- behind them.
abbrev pub IsResized : ℕ → DataBuffer → ℕ → DataBuffer → Type 0
IsResized size_of d n d' =
    IsBuffer size_of d'
    × (d'.current_size ≡ n)
    × ((i : ℕ) → i < n → i < d.current_size → element d'.buf i ≡ element d.buf i)
    × ((i : ℕ) → i < n → d.current_size ≤ i → element d'.buf i ≡ 0)

module _ (malloc : ℕ → Option Block) (size_of : ℕ) (some_size : 0 < size_of)
    (alloc : IsAllocator malloc) where
  reserve_grow :
      (old : Block) (size capacity n : ℕ)
      → size ≤ capacity
      → capacity < n
      → size_of * n < 2 ^ 64
      → let d : DataBuffer = record {
        buf = some old;
        current_size = size;
        current_capacity = capacity;
      } in
        (d' : DataBuffer) × (reserve malloc size_of d n ≡ ok d') × IsReserved size_of d n d'
  unfolding reserve with_block
  reserve_grow old size capacity n sized less fits =
      let (b, e, enough, same) =
        moved malloc size_of some_size alloc old size n (omega arith) fits in
      (
        record { buf = some b; current_size = size; current_capacity = n },
        rw (lt→ltb capacity n less, reserve, e, with_block),
        (record { sized = omega arith; bounded = fits; backed = enough }, omega arith, refl, same),
      )

  reserve_first :
      (n : ℕ)
      → size_of * n < 2 ^ 64
      → let d : DataBuffer = record { buf = none; current_size = 0; current_capacity = 0 } in
        (d' : DataBuffer) × (reserve malloc size_of d n ≡ ok d') × IsReserved size_of d n d'
  unfolding reserve with_block is_null move
  reserve_first zero fits = (
    record { buf = malloc (bytes_of size_of 0); current_size = 0; current_capacity = 0 },
    refl,
    (
      record {
        sized = omega arith;
        bounded = fits;
        backed = nothing (malloc (bytes_of size_of 0));
      },
      omega arith,
      refl,
      λ i h. absurd (omega arith),
    ),
  )
    where
      nothing : (o : Option Block) → Backs size_of 0 o
      nothing none = refl
      nothing (some b) = omega arith
  reserve_first (suc n) fits =
      let (b, e, enough) = some_block malloc size_of some_size alloc (suc n) (omega arith) fits in
      (
        record { buf = some b; current_size = 0; current_capacity = suc n },
        rw (lt→ltb 0 (suc n) (omega arith), e, with_block),
        (
          record { sized = omega arith; bounded = fits; backed = enough },
          omega arith,
          refl,
          λ i h. absurd (omega arith),
        ),
      )

  reserve_parts :
      (buf : Option Block) (size capacity n : ℕ)
      → let d : DataBuffer = record {
        buf = buf;
        current_size = size;
        current_capacity = capacity;
      } in
        IsBuffer size_of d
        → size_of * n < 2 ^ 64
        → (d' : DataBuffer) × (reserve malloc size_of d n ≡ ok d') × IsReserved size_of d n d'
  reserve_parts (some old) size capacity n h fits = elim (Bool-cases (ltb capacity n)) [
    | inl e ↦ reserve_grow old size capacity n h.sized (ltb→lt capacity n e) fits
    | inr e ↦ (
      record { buf = some old; current_size = size; current_capacity = capacity },
      unfold reserve is_null in rw e,
      (h, ground arith, refl, λ i _. refl),
    )
  ]
  reserve_parts none size capacity n h fits =
      let no_room : capacity ≡ 0 = h.backed in
      let no_size : size ≡ 0 = omega (arith, h.sized) in
      rw (no_room, no_size) (reserve_first n fits)

  -- Reserving room in a well formed buffer for `n` elements, whose bytes are fewer than 2 ^ 64, never writes outside the
  -- block: it succeeds, keeps the size and the elements, and leaves a buffer with room for `n`. The
  -- elements have a size, and malloc returns blocks of the size that it is asked for.
  pub reserve-IsReserved :
      (d : DataBuffer) (n : ℕ)
      → IsBuffer size_of d
      → size_of * n < 2 ^ 64
      → (d' : DataBuffer) × (reserve malloc size_of d n ≡ ok d') × IsReserved size_of d n d'
  reserve-IsReserved d n h fits = reserve_parts d.buf d.current_size d.current_capacity n h fits

  -- The new elements of a block that has room for them.
  clear_grow :
      (b : Block) (size capacity n : ℕ)
      → IsBuffer size_of (record { buf = some b; current_size = size; current_capacity = capacity })
      → n ≤ capacity
      → size < n
      → let d : DataBuffer = record {
        buf = some b;
        current_size = size;
        current_capacity = capacity;
      } in
        (d' : DataBuffer) × (clear_new malloc size_of d n ≡ ok d') × IsResized size_of d n d'
  unfolding clear_new with_size
  clear_grow b size capacity n h room less =
      let below : size_of * n ≤ size_of * capacity = omega (arith, mul-le-mul_right size_of room) in
      let split : size_of * size + size_of * (n - size) ≡ size_of * n =
        let e : size + (n - size) ≡ n = omega arith in
        omega (arith, ap (λ (m : ℕ). size_of * m) e) in
      let bytes : bytes_of size_of (n - size) ≡ size_of * (n - size) =
        whole_bytes malloc size_of some_size alloc (n - size) (omega (arith, h.bounded)) in
      let fits : size_of * size + bytes_of size_of (n - size) ≤ b.bytes =
        rw bytes (omega (arith, h.backed)) in
      let end : size + bytes_of size_of (n - size) / size_of ≡ n =
        rw (bytes, elements malloc size_of some_size alloc (n - size)) (omega arith) in
      (
        record {
          buf = some (record { bytes = b.bytes; cells = overwrite b.cells size n (λ _. 0) });
          current_size = n;
          current_capacity = capacity;
        },
        rw (
          lt→ltb size n less,
          clear_new,
          write_some size_of b size (bytes_of size_of (n - size)) (λ _. 0) fits,
          end,
          with_size,
        ),
        (
          record { sized = room; bounded = h.bounded; backed = h.backed },
          refl,
          λ i _ old. unwritten b.cells (λ _. 0) size n i old,
          λ i hi lo. written b.cells (λ _. 0) size n i lo hi,
        ),
      )

  clear_lem :
      (buf : Option Block) (size capacity n : ℕ)
      → IsBuffer size_of (record { buf = buf; current_size = size; current_capacity = capacity })
      → n ≤ capacity
      → let d : DataBuffer = record {
        buf = buf;
        current_size = size;
        current_capacity = capacity;
      } in
        (d' : DataBuffer) × (clear_new malloc size_of d n ≡ ok d') × IsResized size_of d n d'
  clear_lem buf size capacity n h room = elim (Bool-cases (ltb size n)) [
    | inl e ↦ grow buf h.backed h (ltb→lt size n e)
    | inr e ↦
        let kept : n ≤ size = ground arith in
        (
          record { buf = buf; current_size = n; current_capacity = capacity },
          unfold clear_new in rw e,
          (
            record { sized = room; bounded = h.bounded; backed = h.backed },
            refl,
            λ i _ _. refl,
            λ i hi lo. absurd (omega arith),
          ),
        )
  ]
    where
      grow :
          (buf : Option Block)
          → Backs size_of capacity buf
          → IsBuffer size_of
              (record { buf = buf; current_size = size; current_capacity = capacity })
          → size < n
          → let d : DataBuffer = record {
            buf = buf;
            current_size = size;
            current_capacity = capacity;
          } in
            (d' : DataBuffer) × (clear_new malloc size_of d n ≡ ok d') × IsResized size_of d n d'
      grow none backed h less = absurd (omega (arith, backed))
      grow (some b) backed h less = clear_grow b size capacity n h room less

  -- Resizing a well formed buffer to `n` elements, whose bytes are fewer than 2 ^ 64, never writes outside its
  -- block: it succeeds and leaves a buffer of `n` elements, the old ones as far as there are any
  -- and zeros behind them. The elements have a size, and malloc returns blocks of the size that it
  -- is asked for.
  pub resize-IsResized :
      (d : DataBuffer) (n : ℕ)
      → IsBuffer size_of d
      → size_of * n < 2 ^ 64
      → (d' : DataBuffer) × (resize malloc size_of d n ≡ ok d') × IsResized size_of d n d'
  unfolding resize
  resize-IsResized d n h fits =
      let (d₁, e₁, (h₁, room, size, same)) = reserve-IsReserved d n h fits in
      let (d₂, e₂, (h₂, sized, kept, zeros)) =
        clear_lem d₁.buf d₁.current_size d₁.current_capacity n h₁ room in
      (
        d₂,
        rw (e₁, resize) e₂,
        (
          h₂,
          sized,
          λ i hi old. kept i hi (rw size old) ∙ same i old,
          λ i hi new. zeros i hi (rw size new),
        ),
      )

  -- A new buffer of `n` elements, whose bytes are fewer than 2 ^ 64, has `n` elements, all zero. The
  -- elements have a size, and malloc returns blocks of the size that it is asked for.
  pub new_buffer-IsResized :
      (n : ℕ)
      → size_of * n < 2 ^ 64
      → (d : DataBuffer) × (new_buffer malloc size_of n ≡ ok d)
        × IsBuffer size_of d
        × (d.current_size ≡ n)
        × ((i : ℕ) → i < n → element d.buf i ≡ 0)
  unfolding new_buffer
  new_buffer-IsResized n fits =
      let (d, e, (h, size, _, zeros)) =
        resize-IsResized (record { buf = none; current_size = 0; current_capacity = 0 }) n
          (record { sized = omega arith; bounded = omega arith; backed = refl }) fits in
      (d, e, h, size, λ i hi. zeros i hi (omega arith))
