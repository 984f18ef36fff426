-- ===== src/Scanner/Batch/Print.antt =====
-- include/ORCColumnInfo.h, struct Batch: print.
use tengdb.Common.{ℕ, zero, suc, ◌+◌, ◌-◌, ◌*◌, ◌%◌, ◌^◌, ◌==◌, ltb, leb, Bool, true, false}
use tengdb.Common.{List, [], ◌∷◌, ◌++◌, map, ◌≡◌, refl, Option, none, some, if◌then◌else◌}
use tengdb.Common.Int.{ℤ, pos, negsuc}
use tengdb.Common.Memory.{Memory}
use tengdb.Common.Name.{Name}
use tengdb.Common.Run.{Run, ok, fault, outside, Gives, Gives-then, ◌>>>◌}
use tengdb.ColumnInfo.Column.{Column}
use tengdb.MemoryPool.{Block}
use tengdb.Scanner.Batch.{Batch, followed}
use tengdb.Util.{TypeKind}

-- The value of `size` bytes, little endian, that stands at `p`.
unfoldable pub value_at : ℕ → Memory → ℕ → ℕ
value_at zero cells p = 0
value_at (suc size) cells p = cells p % 256 + 256 * value_at size cells (p + 1)

-- What stands in a row: a number of either sign, a floating point number by its bits, or the words
-- `unknown type`.
pub data Cell : Type 0 where
  number : ℤ → Cell
  double_bits float_bits : ℕ → Cell
  unknown_type : Cell

-- A line: the names of the columns, or the number of a row and its cells.
pub data Line : Type 0 where
  titles : List Name → Line
  row : ℕ → List Cell → Line

-- The value of a signed type of `w` bits.
unfoldable pub signed_value : ℕ → ℕ → ℤ
signed_value w x = if ltb x (2 ^ (w - 1)) then pos x else negsuc (2 ^ w - 1 - x)

-- The bytes of a value and how it is shown; `none` for the kinds that are not shown.
unfoldable pub shown_as : TypeKind → Option (ℕ × (ℕ → Cell))
shown_as TypeKind.double = some (8, double_bits)
shown_as TypeKind.float = some (4, float_bits)
shown_as TypeKind.long = some (8, λ x. number (signed_value 64 x))
shown_as TypeKind.string = some (4, λ x. number (signed_value 32 x))
shown_as TypeKind.int = some (4, λ x. number (signed_value 32 x))
shown_as TypeKind.varchar = some (4, λ x. number (signed_value 32 x))
shown_as TypeKind.date = some (2, λ x. number (signed_value 16 x))
shown_as TypeKind.short = some (2, λ x. number (signed_value 16 x))
shown_as TypeKind.byte = some (1, λ x. number (signed_value 8 x))
shown_as _ = none

-- `((T *)dataarray[j])[i]` for values of `size` bytes.
unfoldable pub element_at : Option Block → ℕ → ℕ → Run ℕ
element_at none size i = fault outside
element_at (some b) size i =
    if leb ((i + 1) * size) b.bytes then ok (value_at size b.cells (i * size)) else fault outside

unfoldable pub cell_at : Option Block → TypeKind → ℕ → Run Cell
cell_at block kind i = elim (shown_as kind) [
  | none ↦ ok unknown_type
  | some (size, show) ↦ element_at block size i >>> λ x. ok (show x)
]

-- `dataarray` with the kinds of the columns.
unfoldable pub data_array : Batch → List Column → Run (List (Option Block × TypeKind))
data_array batch [] = ok []
data_array batch (col ∷ columns) = followed (batch.buffers col.name) >>> λ buf.
    data_array batch columns >>> λ blocks. ok ((buf.buf, col.type) ∷ blocks)

unfoldable pub cells_of : List (Option Block × TypeKind) → ℕ → Run (List Cell)
cells_of [] i = ok []
cells_of ((block, kind) ∷ blocks) i =
    cell_at block kind i >>> λ cell. cells_of blocks i >>> λ cells. ok (cell ∷ cells)

-- `for(i<rownumber)` from `i` on for `n` rows: the counter and the lines.
unfoldable pub print_rows : List (Option Block × TypeKind) → ℕ → ℕ → ℕ → Run (ℕ × List Line)
print_rows blocks i zero counter = ok (counter, [])
print_rows blocks i (suc n) counter =
    let counter' = (counter + 1) % 2 ^ 64 in
    cells_of blocks i >>> λ cells.
    print_rows blocks (i + 1) n counter' >>> λ (last, lines). ok (last, row counter' cells ∷ lines)

-- The first argument is FLAGS_print_batch.
unfoldable pub print : Bool → Batch → Run (Batch × List Line)
print false batch = ok (batch, [])
print true batch = data_array batch batch.columns >>> λ blocks.
    print_rows blocks 0 batch.rownumber batch.counter >>> λ (counter, lines). ok (
      record batch { counter = counter },
      (if batch.counter == 0 then titles (map (λ col. col.name) batch.columns) ∷ [] else [])
          ++ lines,
    )

-- The flag of the batch stays.
pub print_eof :
    (shown : Bool) (batch : Batch) → Gives (print shown batch) (λ (b, _). b.eof ≡ batch.eof)
unfolding print
print_eof false batch = refl
print_eof true batch = Gives-then (data_array batch batch.columns) _ _ λ blocks.
    Gives-then (print_rows blocks 0 batch.rownumber batch.counter) _ _ λ (counter, lines). refl
