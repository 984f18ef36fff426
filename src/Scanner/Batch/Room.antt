-- ===== src/Scanner/Batch/Room.antt =====
-- include/ORCColumnInfo.h, struct Batch: every column has room for the rows.
use tengdb.Common.{ℕ, ◌*◌, ◌%◌, ◌^◌, ◌≤◌, ◌<◌, ◌≡◌, refl, ◌∙◌, arith, false, Bool-cases, ltb}
use tengdb.Common.{inl, inr, List, [], ◌∷◌, Option, none, some, All}
use tengdb.Common.Name.{Name, Dict, put, put_same, put_other, same_name, same_name_self}
use tengdb.Common.Run.{ok}
use tengdb.ColumnInfo.Column.{Column}
use tengdb.MemoryPool.{Block, DataBuffer}
use tengdb.MemoryPool.Blocks.{IsAllocator, IsBuffer}
use tengdb.MemoryPool.Growth.{resize-IsResized, new_buffer-IsResized}
use tengdb.Scanner.Batch.{Batch, followed, new_buffers, new_batch, resize_columns, resize_batch}
use native.Mathlib.Nat.{mod-eq_of_lt}

-- The name has a well formed buffer of `n` bytes at least.
abbrev pub HasRoom : Dict DataBuffer → ℕ → Name → Type 0
HasRoom buffers n name =
    (d : DataBuffer) × (buffers name ≡ some d) × IsBuffer 1 d × (n ≤ d.current_capacity)

-- Every column has room for eight bytes a row.
abbrev pub IsBatch : Batch → Type 0
IsBatch batch = All (λ col. HasRoom batch.buffers (batch.rownumber * 8) col.name) batch.columns

-- What was there stays there.
abbrev Keeps : Dict DataBuffer → Dict DataBuffer → ℕ → Type 0
Keeps buffers buffers' n =
    (k : ℕ) (name : Name) → k ≤ n → HasRoom buffers k name → HasRoom buffers' k name

All-map :
    {P Q : Column → Type 0} (columns : List Column)
    → ((col : Column) → P col → Q col)
    → All P columns
    → All Q columns
All-map [] f h = tt
All-map (col ∷ columns) f (here, h) = (f col here, All-map columns f h)

HasRoom-weaken :
    (buffers : Dict DataBuffer) (n k : ℕ) (name : Name)
    → k ≤ n
    → HasRoom buffers n name
    → HasRoom buffers k name
HasRoom-weaken buffers n k name less (d, e, h, room) = (d, e, h, omega arith)

put-Keeps :
    (buffers : Dict DataBuffer) (name : Name) (d : DataBuffer) (n : ℕ)
    → IsBuffer 1 d
    → n ≤ d.current_capacity
    → HasRoom (put buffers name d) n name × Keeps buffers (put buffers name d) n
put-Keeps buffers name d n h room = (
  (d, put_same buffers name d name (same_name_self name), h, room),
  λ k other less (d', e, h', room'). elim (Bool-cases (same_name name other)) [
    | inl same ↦ (d, put_same buffers name d other same, h, omega arith)
    | inr differs ↦ (d', put_other buffers name d other differs ∙ e, h', room')
  ],
)

module _ (malloc : ℕ → Option Block) (alloc : IsAllocator malloc) where
  resize_columns_lem :
      (columns : List Column) (n : ℕ) (buffers : Dict DataBuffer)
      → n < 2 ^ 64
      → All (λ col. HasRoom buffers 0 col.name) columns
      → (buffers' : Dict DataBuffer) × (resize_columns malloc columns n buffers ≡ ok buffers')
        × All (λ col. HasRoom buffers' n col.name) columns
        × Keeps buffers buffers' n
  unfolding resize_columns followed
  resize_columns_lem [] n buffers fits h = (buffers, refl, tt, λ k name less room. room)
  resize_columns_lem (col ∷ columns) n buffers fits ((d, e, buffer, _), h) =
      let (d', resized, (buffer', size, _, _)) =
        resize-IsResized malloc 1 (omega arith) alloc d n buffer (omega arith) in
      let (here, kept) =
        put-Keeps buffers col.name d' n buffer' (omega (arith, size, buffer'.sized)) in
      let (buffers', done, rooms, kept') =
        resize_columns_lem columns n (put buffers col.name d') fits
          (All-map columns (λ c. kept 0 c.name (omega arith)) h) in
      (
        buffers',
        rw (e, followed, resized) done,
        (kept' n col.name (omega arith) here, rooms),
        λ k name less room. kept' k name less (kept k name less room),
      )

  new_buffers_lem :
      (columns : List Column) (n : ℕ) (buffers : Dict DataBuffer)
      → n < 2 ^ 64
      → (buffers' : Dict DataBuffer) × (new_buffers malloc columns n buffers ≡ ok buffers')
        × All (λ col. HasRoom buffers' n col.name) columns
        × Keeps buffers buffers' n
  unfolding new_buffers
  new_buffers_lem [] n buffers fits = (buffers, refl, tt, λ k name less room. room)
  new_buffers_lem (col ∷ columns) n buffers fits =
      let (d, made, buffer, size, _) =
        new_buffer-IsResized malloc 1 (omega arith) alloc n (omega arith) in
      let (here, kept) =
        put-Keeps buffers col.name d n buffer (omega (arith, size, buffer.sized)) in
      let (buffers', done, rooms, kept') =
        new_buffers_lem columns n (put buffers col.name d) fits in
      (
        buffers',
        rw made done,
        (kept' n col.name (omega arith) here, rooms),
        λ k name less room. kept' k name less (kept k name less room),
      )

  -- A new batch has a buffer of eight bytes a row of its capacity for each column, and no rows yet.
  -- The bytes are fewer than 2 ^ 64, and malloc returns blocks of the size that it is asked for.
  pub new_batch-IsBatch :
      (columns : List Column) (capacity : ℕ)
      → 8 * capacity < 2 ^ 64
      → (batch : Batch) × (new_batch malloc columns capacity ≡ ok batch)
        × IsBatch batch
        × All (λ col. HasRoom batch.buffers (8 * capacity) col.name) batch.columns
        × (batch.columns ≡ columns)
        × (batch.rownumber ≡ 0)
  unfolding new_batch
  new_batch-IsBatch columns capacity fits =
      let (buffers, made, rooms, _) = new_buffers_lem columns (8 * capacity) (λ _. none) fits in
      let whole : 8 * capacity % 2 ^ 64 ≡ 8 * capacity = mod-eq_of_lt fits in
      (
        record {
          counter = 0;
          buffers = buffers;
          columns = columns;
          rownumber = 0;
          capacity = capacity;
          eof = false;
        },
        rw (whole, made),
        All-map columns (λ c. HasRoom-weaken buffers (8 * capacity) 0 c.name (omega arith)) rooms,
        rooms,
        refl,
        refl,
      )

  -- resize sets the number of rows and leaves every column room for eight bytes a row, more rows or
  -- fewer, where it had that before. The bytes are fewer than 2 ^ 64, and malloc returns blocks of
  -- the size that it is asked for.
  pub resize_batch-IsBatch :
      (batch : Batch) (rownumber : ℕ)
      → IsBatch batch
      → rownumber * 8 < 2 ^ 64
      → (batch' : Batch) × (resize_batch malloc batch rownumber ≡ ok batch')
        × IsBatch batch'
        × (batch'.columns ≡ batch.columns)
        × (batch'.rownumber ≡ rownumber)
  unfolding resize_batch
  resize_batch-IsBatch batch rownumber h fits = elim (Bool-cases (ltb batch.rownumber rownumber)) [
    | inl more ↦
        let (buffers, resized, rooms, _) =
          resize_columns_lem batch.columns (rownumber * 8) batch.buffers fits (
            All-map batch.columns
              (λ c. HasRoom-weaken batch.buffers (batch.rownumber * 8) 0 c.name (omega arith)) h) in
        let whole : rownumber * 8 % 2 ^ 64 ≡ rownumber * 8 = mod-eq_of_lt fits in
        (
          record batch { buffers = buffers; rownumber = rownumber },
          rw (more, resize_batch, whole, resized),
          rooms,
          refl,
          refl,
        )
    | inr fewer ↦ (
      record batch { rownumber = rownumber },
      rw (fewer, resize_batch),
      All-map batch.columns
          (λ c.
            HasRoom-weaken batch.buffers (batch.rownumber * 8) (rownumber * 8) c.name
              (ground arith))
          h,
      refl,
      refl,
    )
  ]
