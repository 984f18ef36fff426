-- ===== src/HashTable.antt =====
-- include/HashTable.h: a table of 128 slots with linear probing.
pub mod Probe
pub mod Lookup
mod Tests
use tengdb.Common.{ℕ, zero, suc, ◌+◌, ◌%◌, ◌==◌, if◌then◌else◌, Bool, true, false}
use tengdb.Common.{Option, none, some}
use tengdb.Common.Int.{ℤ, pos, negsuc, same_int}

pub record HashEntry : Type 0 where
  pub key : ℤ
  pub value : ℤ

abbrev pub table_size : ℕ
table_size = 128

-- The slots; `none` is NULL. A table is read and written at the slots below `table_size` only.
abbrev pub HashTable : Type 0
HashTable = ℕ → Option HashEntry

-- What a call comes to: a result, a loop that never ends, or an index below the array.
pub data Outcome (A : Type 0) : Type 0 where
  done : A → Outcome A
  endless : Outcome A
  out_of_bounds : Outcome A

unfoldable pub new_table : HashTable
new_table i = none

-- `key % TABLE_SIZE`, which C++ rounds towards zero; `none` where it is negative.
unfoldable pub hash_of : ℤ → Option ℕ
hash_of (pos n) = some (n % table_size)
hash_of (negsuc n) = if suc n % table_size == 0 then some 0 else none

-- The loop stops at an empty slot and at the key's own.
unfoldable pub stops : Option HashEntry → ℤ → Bool
stops none key = true
stops (some e) key = same_int e.key key

-- `while (table[hash] != NULL && table[hash]->getKey() != key) hash = (hash + 1) % TABLE_SIZE;`
-- With a round for each slot, `none` is a loop that meets the same slots for ever.
unfoldable pub probe : ℕ → HashTable → ℕ → ℤ → Option ℕ
probe zero table hash key = none
probe (suc fuel) table hash key = elim (stops (table hash) key) [
  | true ↦ some hash
  | false ↦ probe fuel table ((hash + 1) % table_size) key
]

unfoldable pub search_from : HashTable → Option ℕ → ℤ → Outcome ℕ
search_from table none key = out_of_bounds
search_from table (some hash) key = elim (probe table_size table hash key) [
  | none ↦ endless
  | some i ↦ done i
]

-- The slot where the loop of `get` and `put` stops.
unfoldable pub search : HashTable → ℤ → Outcome ℕ
search table key = search_from table (hash_of key) key

-- -1 is also what an absent key gives.
unfoldable pub value_of : Option HashEntry → ℤ
value_of none = negsuc 0
value_of (some e) = e.value

unfoldable pub get : HashTable → ℤ → Outcome ℤ
get table key = elim (search table key) [
  | done i ↦ done (value_of (table i))
  | endless ↦ endless
  | out_of_bounds ↦ out_of_bounds
]

-- `table[i] = new HashEntry(key, value)`; the entry that was there is deleted.
unfoldable pub store_entry : HashTable → ℕ → HashEntry → HashTable
store_entry table i e j = if i == j then some e else table j

unfoldable pub put : HashTable → ℤ → ℤ → Outcome HashTable
put table key value = elim (search table key) [
  | done i ↦ done (store_entry table i (record { key = key; value = value }))
  | endless ↦ endless
  | out_of_bounds ↦ out_of_bounds
]
