-- ===== src/HashTable/Probe.antt =====
-- include/HashTable.h: where the probing loop stops.
use tengdb.Common.{
  ℕ, zero, suc, ◌+◌, ◌-◌, ◌%◌, ◌<◌, ◌≡◌, ◌≢◌, arith, Bool, true, false, Bool-cases, sym, ◌∙◌,
}
use tengdb.Common.{none, some, inl, inr}
use tengdb.Common.Int.{ℤ}
use tengdb.HashTable.{HashTable, table_size, stops, probe}

pub probe_stop :
    (fuel : ℕ) (t : HashTable) (h : ℕ) (k : ℤ)
    → stops (t h) k ≡ true
    → probe (suc fuel) t h k ≡ some h
unfolding probe
probe_stop fuel t h k e = rw (e, probe)

pub probe_step :
    (fuel : ℕ) (t : HashTable) (h : ℕ) (k : ℤ)
    → stops (t h) k ≡ false
    → probe (suc fuel) t h k ≡ probe fuel t ((h + 1) % table_size) k
unfolding probe
probe_step fuel t h k e = rw (e, probe)

pub probe-zero : (t : HashTable) (h : ℕ) (k : ℤ) (i : ℕ) → probe zero t h k ≢ some i
unfolding probe
probe-zero t h k i e = cc

clash : {i : ℕ} → some i ≢ none
clash p = cc

-- A search that does not stop has met a slot of another key in every round.
pub probe-none :
    (fuel : ℕ) (t : HashTable) (h : ℕ) (k : ℤ)
    → h < table_size
    → probe fuel t h k ≡ none
    → (d : ℕ) → d < fuel
    → stops (t ((h + d) % table_size)) k ≡ false
probe-none zero t h k small e d less = absurd (omega arith)
probe-none (suc fuel) t h k small e zero less =
    let here : (h + zero) % table_size ≡ h = omega arith in
    elim (Bool-cases (stops (t h) k)) [
      | inl stop ↦ absurd (clash (sym (probe_stop fuel t h k stop) ∙ e))
      | inr go ↦ rw (here, go)
    ]
probe-none (suc fuel) t h k small e (suc d) less =
    let there : ((h + 1) % table_size + d) % table_size ≡ (h + suc d) % table_size = omega arith in
    elim (Bool-cases (stops (t h) k)) [
      | inl stop ↦ absurd (clash (sym (probe_stop fuel t h k stop) ∙ e))
      | inr go ↦ rw there at (
          probe-none fuel t ((h + 1) % table_size) k (omega arith)
            (sym (probe_step fuel t h k go) ∙ e) d (omega arith))
    ]

-- Where a slot is empty or holds the key, the search stops.
pub probe-stops :
    (t : HashTable) (h i : ℕ) (k : ℤ)
    → h < table_size
    → i < table_size
    → stops (t i) k ≡ true
    → probe table_size t h k ≢ none
probe-stops t h i k small bounded stop e =
    let d = (i + table_size - h) % table_size in
    let there : (h + d) % table_size ≡ i = omega arith in
    let go = probe-none table_size t h k small e d (omega arith) in
    absurd (differ stop (rw there at go))
  where
    differ : {b : Bool} → b ≡ true → b ≡ false → ⊥
    differ p q = cc

-- The slot where a search stops is in the table, and empty or the key's.
pub probe-some :
    (fuel : ℕ) (t : HashTable) (h : ℕ) (k : ℤ) (i : ℕ)
    → h < table_size
    → probe fuel t h k ≡ some i
    → (i < table_size) × (stops (t i) k ≡ true)
probe-some zero t h k i small e = absurd (probe-zero t h k i e)
probe-some (suc fuel) t h k i small e = elim (Bool-cases (stops (t h) k)) [
  | inl stop ↦
      let same : h ≡ i = some_injective (sym (probe_stop fuel t h k stop) ∙ e) in
      (omega arith, rw same at stop)
  | inr go ↦
      probe-some fuel t ((h + 1) % table_size) k i (omega arith)
        (sym (probe_step fuel t h k go) ∙ e)
]
  where
    some_injective : {a b : ℕ} → some a ≡ some b → a ≡ b
    some_injective p = cc
