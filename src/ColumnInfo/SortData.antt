-- ===== src/ColumnInfo/SortData.antt =====
-- include/ORCColumnInfo.h, sortData. The percentages are floats that only `toString` shows.
pub mod Order
pub mod Values
use tengdb.Common.{ℕ, zero, suc, ◌+◌, ◌-◌, ◌%◌, ◌^◌, Bool, true, false, ltb, List, [], ◌∷◌}
use tengdb.Common.{length, get_or, replicate, if◌then◌else◌}

-- `<` on `int`s that are kept as their 32 bits.
unfoldable pub int_less : ℕ → ℕ → Bool
int_less a b = ltb ((a + 2 ^ 31) % 2 ^ 32) ((b + 2 ^ 31) % 2 ^ 32)

-- `for(i) { if(data[i]<min_value) { min_value = data[i]; min_index = i; } }` from `i` on.
unfoldable pub find_min : List ℕ → ℕ → ℕ → ℕ → ℕ
find_min [] i min_value min_index = min_index
find_min (x ∷ xs) i min_value min_index = elim (int_less x min_value) [
  | true ↦ find_min xs (i + 1) x i
  | false ↦ find_min xs (i + 1) min_value min_index
]

-- A toplist is kept from its last position to its first. The inner loop, with `x` at position `j`
-- and the positions before it: `x` moves forward while its value is larger.
unfoldable pub sift : List ℕ → ℕ → List ℕ → List ℕ
sift list x [] = x ∷ []
sift list x (y ∷ ys) = elim (int_less (get_or list y 0) (get_or list x 0)) [
  | true ↦ y ∷ sift list x ys
  | false ↦ x ∷ y ∷ ys
]

-- `toplist[listlength-1] = i;` and the inner loop.
unfoldable pub put_last : List ℕ → ℕ → List ℕ → List ℕ
put_last list i [] = []
put_last list i (last ∷ toplist) = sift list i toplist

-- `total += data[i]`: a negative `int` is extended to the 64 bits of `total`.
unfoldable pub add_int : ℕ → ℕ → ℕ
add_int total x = (total + (if ltb x (2 ^ 31) then x else x + 2 ^ 64 - 2 ^ 32)) % 2 ^ 64

-- The outer loop from `i` on, where `xs` are the values that are left.
unfoldable pub sort_loop : List ℕ → ℕ → List ℕ → ℕ → List ℕ → List ℕ × ℕ
sort_loop list i [] total toplist = (toplist, total)
sort_loop list i (x ∷ xs) total toplist =
    sort_loop list (i + 1) xs (add_int total x) (put_last list i toplist)

-- The toplist, from its last position to its first, and the total.
unfoldable pub sort_data : List ℕ → List ℕ × ℕ
sort_data list =
    let min_index = find_min list 0 (get_or list 0 0) 0 in
    sort_loop list 0 list 0 (replicate (length list) min_index)
