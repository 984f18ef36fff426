-- ===== src/HashTable/Tests.antt =====
-- The table of include/HashTable.h on a few keys.
use tengdb.Common.{ℕ, ◌<◌, ◌≡◌, ◌↔◌, refl, false, some}
use tengdb.Common.Int.{pos}
use tengdb.HashTable.{
  HashTable, table_size, done, endless, new_table, hash_of, stops, get, put, store_entry, search,
  search_from, probe,
}
use tengdb.HashTable.Lookup.{IsStored, get-put, get-put_ne, get-endless}

-- 130 and 2 have the same first slot.
abbrev one_key : HashTable
one_key = store_entry new_table 2 (record { key = pos 130; value = pos 7 })

abbrev two_keys : HashTable
two_keys = store_entry one_key 3 (record { key = pos 2; value = pos 9 })

put_two : put one_key (pos 2) (pos 9) ≡ done two_keys
unfolding put search search_from probe stops hash_of new_table store_entry
put_two = refl

IsStored-130 : IsStored one_key (pos 130) (pos 7)
unfolding search search_from probe stops hash_of new_table store_entry
IsStored-130 = (2, refl, refl)

get-put_example : get two_keys (pos 2) ≡ done (pos 9)
get-put_example = get-put one_key two_keys (pos 2) (pos 9) put_two

get-put_ne_example :
    IsStored two_keys (pos 130) (pos 7)
    × (get one_key (pos 130) ≡ done (pos 7))
    × (get two_keys (pos 130) ≡ done (pos 7))
get-put_ne_example =
    get-put_ne one_key two_keys (pos 2) (pos 130) (pos 9) (pos 7) (λ e. cc) IsStored-130 put_two

first_slot : hash_of (pos 130) ≡ some 2
unfolding hash_of
first_slot = refl

get-endless_example :
    (get two_keys (pos 130) ≡ endless)
    ↔ ((i : ℕ) → i < table_size → stops (two_keys i) (pos 130) ≡ false)
get-endless_example = get-endless two_keys (pos 130) 2 first_slot
