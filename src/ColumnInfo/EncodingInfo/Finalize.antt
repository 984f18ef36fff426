-- ===== src/ColumnInfo/EncodingInfo/Finalize.antt =====
-- include/ORCColumnInfo.h, struct EncodingInfo: finalize and what may be asked after it.
pub mod Fixed
use tengdb.Common.{ℕ, zero, suc, Bool, true, false, ◌==◌, List, [], ◌∷◌, ◌++◌, get_or, length}
use tengdb.Common.{Option, none, some}
use tengdb.Common.Int.{ℤ, pos, negsuc}
use tengdb.ColumnInfo.EncodingInfo.{EncodingInfo}
use tengdb.ColumnInfo.SortData.{sort_data}

unfoldable pub rev : List ℕ → List ℕ
rev [] = []
rev (x ∷ xs) = rev xs ++ x ∷ []

-- The toplist of `sortData`, from its first position on.
unfoldable pub top : List ℕ → List ℕ
top list = rev (sort_data list).0

-- `for(i) if(bitsize[i]!=0) { maxbitsize = i; break; }` downwards, with `i` positions left.
unfoldable pub last_used : ℕ → List ℕ → ℕ → ℕ
last_used zero list old = old
last_used (suc i) list old = elim (get_or list i 0 == 0) [ true ↦ last_used i list old | false ↦ i ]

-- The loop begins at 65, one behind the array: `beyond` is what that read gives.
unfoldable pub finalize : ℕ → EncodingInfo → EncodingInfo
finalize beyond info = record info {
  finalized = true;
  top_bit_size = top info.bitsize;
  top_run_length = top info.run_length;
  maxbitsize = last_used 66 (info.bitsize ++ beyond ∷ []) info.maxbitsize;
}

-- `assert(finalized)`; `none` is its failure.
unfoldable pub asserted : {A : Type 0} → Bool → A → Option A
asserted true a = some a
asserted false a = none

-- `bitsize[top_bitSize[1]]==0`
unfoldable pub one_size : EncodingInfo → Bool
one_size info = get_or info.bitsize (get_or info.top_bit_size 1 0) 0 == 0

unfoldable pub is_bit_size_fixed : EncodingInfo → Option Bool
is_bit_size_fixed info = asserted info.finalized (one_size info)

unfoldable pub get_fixed_bit_size : EncodingInfo → Option ℤ
get_fixed_bit_size info =
    asserted info.finalized
      (elim (one_size info) [ true ↦ pos (get_or info.top_bit_size 0 0) | false ↦ negsuc 0 ])

-- `for(i) if(runLength[i]!=0) return i;` from `i` on.
unfoldable pub first_used : ℕ → List ℕ → ℕ
first_used i [] = 0
first_used i (x ∷ xs) = elim (x == 0) [ true ↦ first_used (suc i) xs | false ↦ i ]

unfoldable pub get_min_runlength : EncodingInfo → Option ℕ
get_min_runlength info = asserted info.finalized (first_used 0 info.run_length)
