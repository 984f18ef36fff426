-- ===== src/HashTable/Lookup.antt =====
-- include/HashTable.h: get after put.
use tengdb.Common.{
  ℕ, zero, suc, ◌+◌, ◌%◌, ◌<◌, ◌≡◌, ◌≢◌, ◌↔◌, ◌==◌, arith, Bool, true, false, Bool-cases, refl, sym,
  ◌∙◌,
}
use tengdb.Common.{Option, none, some, inl, inr, ◌⊎◌, Option-cases, ap}
use tengdb.Common.Int.{ℤ, same_int, same_int_lem, same_int_self, same_int_ne}
use tengdb.HashTable.{
  HashEntry, HashTable, table_size, Outcome, done, endless, out_of_bounds, hash_of, stops, probe,
  search, search_from, value_of, get, store_entry, put,
}
use tengdb.HashTable.Probe.{probe_stop, probe_step, probe-zero, probe-some, probe-stops}

store_here : (t : HashTable) (j : ℕ) (e : HashEntry) → store_entry t j e j ≡ some e
unfolding store_entry
store_here t j e = ground arith

store_there : (t : HashTable) (j i : ℕ) (e : HashEntry) → j ≢ i → store_entry t j e i ≡ t i
unfolding store_entry
store_there t j i e h = ground arith

differ : {b : Bool} → b ≡ true → b ≡ false → ⊥
differ p q = cc

some_injective : {a b : ℕ} → some a ≡ some b → a ≡ b
some_injective p = cc

-- A search that stops at `i` stops there too in a table where the slots that it passes over are
-- passed over and `i` stops it.
module _ (k : ℤ) (t t' : HashTable) (i : ℕ)
    (same : (j : ℕ) → j ≢ i → stops (t j) k ≡ false → stops (t' j) k ≡ false)
    (last : stops (t' i) k ≡ true) where
  probe_same : (fuel h : ℕ) → probe fuel t h k ≡ some i → probe fuel t' h k ≡ some i
  probe_same zero h e = absurd (probe-zero t h k i e)
  probe_same (suc fuel) h e = elim (Bool-cases (stops (t h) k)) [
    | inl stop ↦
        let here : h ≡ i = some_injective (sym (probe_stop fuel t h k stop) ∙ e) in
        probe_stop fuel t' h k (ap (λ (j : ℕ). stops (t' j) k) here ∙ last)
        ∙ ap (λ (j : ℕ). some j) here
    | inr go ↦ elim (Bool-cases (h == i)) [
      | inl p ↦
          let here : h ≡ i = ground arith in
          probe_stop fuel t' h k (ap (λ (j : ℕ). stops (t' j) k) here ∙ last)
          ∙ ap (λ (j : ℕ). some j) here
      | inr p ↦
          let away : h ≢ i = λ q. absurd (differ (ground arith) p) in
          probe_step fuel t' h k (same h away go)
          ∙ probe_same fuel ((h + 1) % table_size) (sym (probe_step fuel t h k go) ∙ e)
    ]
  ]

hash-lt : (k : ℤ) (h : ℕ) → hash_of k ≡ some h → h < table_size
unfolding hash_of
hash-lt (ℤ.pos n) h e = ground arith
hash-lt (ℤ.negsuc n) h e = ground arith

done_same : {A : Type 0} {o : Outcome A} {a b : A} → o ≡ done a → o ≡ done b → a ≡ b
done_same p q = cc

not_endless : {A : Type 0} {o : Outcome A} {a : A} → o ≡ endless → o ≡ done a → ⊥
not_endless p q = cc

not_out : {A : Type 0} {o : Outcome A} {a : A} → o ≡ out_of_bounds → o ≡ done a → ⊥
not_out p q = cc

search_of :
    (t : HashTable) (k : ℤ) (i h : ℕ)
    → hash_of k ≡ some h
    → probe table_size t h k ≡ some i
    → search t k ≡ done i
unfolding search search_from
search_of t k i h p q = rw (p, search_from, q)

search_inv :
    (t : HashTable) (k : ℤ) (i : ℕ)
    → search t k ≡ done i
    → (h : ℕ) × (hash_of k ≡ some h) × (probe table_size t h k ≡ some i)
unfolding search search_from
search_inv t k i e = elim (Option-cases (hash_of k)) [
  | inl p ↦ absurd (not_out (rw (p, search_from)) e)
  | inr (h, p) ↦ elim (Option-cases (probe table_size t h k)) [
    | inl q ↦ absurd (not_endless (rw (p, search_from, q)) e)
    | inr (j, q) ↦
        let same : j ≡ i = done_same (search_of t k j h p q) e in
        (h, p, q ∙ ap (λ (n : ℕ). some n) same)
  ]
]

put_of :
    (t : HashTable) (k v : ℤ) (i : ℕ)
    → search t k ≡ done i
    → put t k v ≡ done (store_entry t i (record { key = k; value = v }))
unfolding put
put_of t k v i p = rw (p, put)

get_of : (t : HashTable) (k : ℤ) (i : ℕ) → search t k ≡ done i → get t k ≡ done (value_of (t i))
unfolding get
get_of t k i p = rw (p, get)

Outcome-cases :
    {A : Type 0} (o : Outcome A) → ((a : A) × (o ≡ done a)) ⊎ ((o ≡ endless) ⊎ (o ≡ out_of_bounds))
Outcome-cases (done a) = inl (a, refl)
Outcome-cases endless = inr (inl refl)
Outcome-cases out_of_bounds = inr (inr refl)

put_inv :
    (t t' : HashTable) (k v : ℤ)
    → put t k v ≡ done t'
    → (i : ℕ) × (search t k ≡ done i) × (t' ≡ store_entry t i (record { key = k; value = v }))
unfolding put
put_inv t t' k v e = elim (Outcome-cases (search t k)) [
  | inl (i, p) ↦ (i, p, done_same e (put_of t k v i p))
  | inr (inl p) ↦ absurd (not_endless (rw (p, put)) e)
  | inr (inr p) ↦ absurd (not_out (rw (p, put)) e)
]

-- The key is in the table, with the value, where a search for it stops.
abbrev pub IsStored : HashTable → ℤ → ℤ → Type 0
IsStored t k v = (i : ℕ) × (search t k ≡ done i) × (t i ≡ some (record { key = k; value = v }))

stored_get : (t : HashTable) (k v : ℤ) → IsStored t k v → get t k ≡ done v
unfolding value_of
stored_get t k v (i, p, q) = get_of t k i p ∙ ap (λ (o : Option HashEntry). done (value_of o)) q

stops_own : (k k' v : ℤ) → stops (some (record { key = k; value = v })) k' ≡ same_int k k'
unfolding stops
stops_own k k' v = refl

-- After a put that ends, a get of the same key gives the value.
pub get-put : (t t' : HashTable) (k v : ℤ) → put t k v ≡ done t' → get t' k ≡ done v
get-put t t' k v e =
    let (i, p, q) = put_inv t t' k v e in
    let (h, hash, found) = search_inv t k i p in
    let last : stops (t' i) k ≡ true =
      ap (λ (o : Option HashEntry). stops o k) (at_slot i q) ∙ stops_own k k v ∙ same_int_self k in
    let same = λ (j : ℕ) (away : j ≢ i) (go : stops (t j) k ≡ false).
      ap (λ (o : Option HashEntry). stops o k) (off_slot i q j away) ∙ go in
    let found' = probe_same k t t' i same last table_size h found in
    stored_get t' k v (i, search_of t' k i h hash found', at_slot i q)
  where
    entry : HashEntry
    entry = record { key = k; value = v }

    at_slot : (i : ℕ) → t' ≡ store_entry t i entry → t' i ≡ some entry
    at_slot i q = ap (λ (f : HashTable). f i) q ∙ store_here t i entry

    off_slot : (i : ℕ) → t' ≡ store_entry t i entry → (j : ℕ) → j ≢ i → t' j ≡ t j
    off_slot i q j away =
        ap (λ (f : HashTable). f j) q ∙ store_there t i j entry (λ r. away (sym r))

-- A put that ends leaves the value of every other key that is stored.
pub get-put_ne :
    (t t' : HashTable) (k k' v v' : ℤ)
    → k ≢ k'
    → IsStored t k' v'
    → put t k v ≡ done t'
    → IsStored t' k' v' × (get t k' ≡ done v') × (get t' k' ≡ done v')
get-put_ne t t' k k' v v' other (i', p', q') e =
    let (i, p, q) = put_inv t t' k v e in
    let (h, hash, found) = search_inv t k i p in
    let (h', hash', found') = search_inv t k' i' p' in
    let entry : HashEntry = record { key = k; value = v } in
    let own : stops (t i) k ≡ true = (probe-some table_size t h k i (hash-lt k h hash) found).1 in
    let passes : stops (store_entry t i entry i) k' ≡ false =
      rw (store_here t i entry, stops_own k k' v) (same_int_ne k k' other) in
    let apart : i ≢ i' =
      λ r. other (sym (same_int_lem k' k (sym (stops_own k' k v') ∙ rw (r, q') at own))) in
    let kept : t' i' ≡ some (record { key = k'; value = v' }) =
      rw (q, store_there t i i' entry apart) q' in
    let last : stops (t' i') k' ≡ true = rw (kept, stops_own k' k' v') (same_int_self k') in
    let stored : IsStored t' k' v' = (
      i',
      search_of t' k' i' h' hash'
          (probe_same k' t t' i' (same i entry q passes) last table_size h' found'),
      kept,
    ) in
    (stored, stored_get t k' v' (i', p', q'), stored_get t' k' v' stored)
  where
    same :
        (i : ℕ) (entry : HashEntry)
        → t' ≡ store_entry t i entry
        → stops (store_entry t i entry i) k' ≡ false
        → (j : ℕ) → j ≢ i'
        → stops (t j) k' ≡ false
        → stops (t' j) k' ≡ false
    same i entry q passes j away go =
        ap (λ (f : HashTable). stops (f j) k') q
        ∙ elim (Bool-cases (i == j)) as (λ _. stops (store_entry t i entry j) k' ≡ false) [
          | inl r ↦
              let here : i ≡ j = ground arith in
              ap (λ (m : ℕ). stops (store_entry t i entry m) k') (sym here) ∙ passes
          | inr r ↦
              let there : i ≢ j = λ x. absurd (differ (ground arith) r) in
              ap (λ (o : Option HashEntry). stops o k') (store_there t i j entry there) ∙ go
        ]

get_lost :
    (t : HashTable) (k : ℤ) (h : ℕ)
    → hash_of k ≡ some h
    → probe table_size t h k ≡ none
    → get t k ≡ endless
unfolding get search search_from
get_lost t k h hash lost = rw (hash, search_from, lost, get, search)

-- For a key whose first slot is in the table, get runs for ever exactly where every slot holds
-- another key.
pub get-endless :
    (t : HashTable) (k : ℤ) (h : ℕ)
    → hash_of k ≡ some h
    → ((get t k ≡ endless) ↔ ((i : ℕ) → i < table_size → stops (t i) k ≡ false))
get-endless t k h hash = (all_blocked, runs_on)
  where
    small : h < table_size
    small = hash-lt k h hash

    all_blocked : get t k ≡ endless → (i : ℕ) → i < table_size → stops (t i) k ≡ false
    all_blocked e i bounded = elim (Option-cases (probe table_size t h k)) [
      | inr (j, found) ↦ absurd (not_endless e (get_of t k j (search_of t k j h hash found)))
      | inl lost ↦ elim (Bool-cases (stops (t i) k)) [
        | inl stop ↦ absurd (probe-stops t h i k small bounded stop lost)
        | inr go ↦ go
      ]
    ]

    runs_on : ((i : ℕ) → i < table_size → stops (t i) k ≡ false) → get t k ≡ endless
    runs_on blocked = elim (Option-cases (probe table_size t h k)) [
      | inl lost ↦ get_lost t k h hash lost
      | inr (j, found) ↦
          let (bounded, stop) = probe-some table_size t h k j small found in
          absurd (differ stop (blocked j bounded))
    ]
