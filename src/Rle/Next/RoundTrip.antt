-- ===== src/Rle/Next/RoundTrip.antt =====
-- src/orc/RLE2.cpp: next reads back a sequence of runs.
use tengdb.Common.{ℕ, zero, suc, ◌+◌, ◌^◌, ◌≤◌, ◌<◌, ◌≡◌, refl, ◌∙◌, arith, Bool, inl}
use tengdb.Common.{List, [], ◌∷◌, ◌++◌, length, length-append}
use tengdb.Common.Memory.{Holds-append, Kept-append, Memory, Holds, Kept, Holds-Kept}
use tengdb.Common.Run.{ok}
use tengdb.ColumnInfo.RleInfo.{RleInfo}
use tengdb.Rle.Next.{encoding_of, State, next_run, next_loop, next}

-- The state after values were decoded: they stand from the old position on, nothing else in
-- `result` changed, and the position is behind them. Whether direct runs are signed is kept.
abbrev pub Advanced : Bool → State → List ℕ → State → Type 0
Advanced issigned s values s' =
    Holds s'.result s.offset values
    × Kept s.result s'.result s.offset (length values)
    × (s'.offset ≡ s.offset + length values)
    × (s'.cinfo.direct_info.issigned ≡ issigned)

-- A run that decodes to the values, whatever follows it.
pub record IsRun (w : ℕ) (issigned codegen : Bool) (first : ℕ) (bytes values : List ℕ)
    : Type 0 where
  pub decodes :
      (s : State) (rest : List ℕ)
      → s.cinfo.direct_info.issigned ≡ issigned
      → s.offset + length values < 2 ^ 64
      → (s' : State) × (next_run w issigned codegen (encoding_of first) s (first ∷ bytes ++ rest)
          ≡ ok (s', rest))
        × Advanced issigned s values s'

-- Runs end to end, and their values.
pub data IsEncoded (w : ℕ) (issigned codegen : Bool) : List ℕ → List ℕ → Type 0 where
  nothing : IsEncoded w issigned codegen [] []
  run :
      (first : ℕ) (bytes values more others : List ℕ)
      → IsRun w issigned codegen first bytes values
      → IsEncoded w issigned codegen more others
      → IsEncoded w issigned codegen (first ∷ bytes ++ more) (values ++ others)

module _ (w : ℕ) (issigned codegen : Bool) where
  round_of :
      (fuel first : ℕ) (bytes : List ℕ) (s s' : State) (rest : List ℕ)
      → next_run w issigned codegen (encoding_of first) s (first ∷ bytes) ≡ ok (s', rest)
      → next_loop (suc fuel) w issigned codegen s (first ∷ bytes)
        ≡ next_loop fuel w issigned codegen s' rest
  unfolding next_loop
  round_of fuel first bytes s s' rest e = rw (e, next_loop)

  loop_end : (fuel : ℕ) (s : State) → next_loop fuel w issigned codegen s [] ≡ ok s
  unfolding next_loop
  loop_end zero s = refl
  loop_end (suc fuel) s = refl

  loop_lem :
      (bytes values : List ℕ) (fuel : ℕ) (s : State)
      → IsEncoded w issigned codegen bytes values
      → length bytes ≤ fuel
      → s.cinfo.direct_info.issigned ≡ issigned
      → s.offset + length values < 2 ^ 64
      → (s' : State) × (next_loop fuel w issigned codegen s bytes ≡ ok s')
        × Advanced issigned s values s'
  loop_lem bytes values fuel s nothing enough sign bounded =
      (s, loop_end fuel s, (tt, λ j _. refl, omega arith, sign))
  loop_lem bytes values zero s (run first run_bytes xs more others r h) enough sign bounded =
      absurd (omega arith)
  loop_lem bytes values (suc fuel) s (run first run_bytes xs more others r h) enough sign bounded =
      let total = length-append xs others in
      let (s₁, e₁, (holds₁, kept₁, at₁, sign₁)) = r.decodes s more sign (omega (arith, total)) in
      let shorter = length-append run_bytes more in
      let (s₂, e₂, (holds₂, kept₂, at₂, sign₂)) =
        loop_lem more others fuel s₁ h (omega (arith, shorter)) sign₁ (omega (arith, total)) in
      (
        s₂,
        round_of fuel first (run_bytes ++ more) s s₁ more e₁ ∙ e₂,
        (
          Holds-append s₂.result s.offset xs others
              (Holds-Kept s₁.result s₂.result s.offset s₁.offset (length others) xs kept₂
                (inl (omega arith)) holds₁)
              (rw at₁ at holds₂),
          rw total (
              Kept-append s.result s₁.result s₂.result s.offset (length xs) (length others) kept₁
                (rw at₁ at kept₂)),
          omega (arith, total),
          sign₂,
        ),
      )

  pub next-IsEncoded :
      (m : Memory) (cinfo : RleInfo) (bytes values : List ℕ)
      → IsEncoded w issigned codegen bytes values
      → cinfo.direct_info.issigned ≡ issigned
      → length values < 2 ^ 64
      → (s' : State) × (next w issigned codegen m cinfo bytes ≡ ok s')
        × Holds s'.result 0 values
        × Kept m s'.result 0 (length values)
        × (s'.offset ≡ length values)
  unfolding next
  next-IsEncoded m cinfo bytes values h sign bounded =
      let start : State = record { result = m; offset = 0; cinfo = cinfo } in
      let (s', e, (holds, kept, at, _)) =
        loop_lem bytes values (length bytes) start h (omega arith) sign (omega arith) in
      (s', e, holds, kept, omega (arith, at))
