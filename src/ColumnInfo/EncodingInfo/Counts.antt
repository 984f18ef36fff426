-- ===== src/ColumnInfo/EncodingInfo/Counts.antt =====
-- src/orc/RLE2.cpp, updateEncodingInfo: the counters stay what encodeTo and decodeFrom rely on.
use tengdb.Common.{ℕ, zero, suc, ◌+◌, ◌%◌, ◌^◌, ◌<◌, ◌≡◌, refl, ◌∙◌, arith, Bool, true, false}
use tengdb.Common.{List, [], ◌∷◌, length, get_or, set, All, length-set, replicate, length-replicate}
use tengdb.Common.{◌≤◌, ◌≢◌, get_or-set_self, get_or-set_ne}
use tengdb.ColumnInfo.EncodingInfo.{EncodingInfo, new_info, bump, update_encoding_info}
use tengdb.ColumnInfo.EncodingInfo.RoundTrip.{IsCounts}

All-set :
    (xs : List ℕ) (i v : ℕ)
    → v < 2 ^ 32
    → All (λ x. x < 2 ^ 32) xs
    → All (λ x. x < 2 ^ 32) (set xs i v)
All-set [] i v hv h = tt
All-set (x ∷ xs) zero v hv (hx, h) = (hv, h)
All-set (x ∷ xs) (suc i) v hv (hx, h) = (hx, All-set xs i v hv h)

bump_fits : (xs : List ℕ) (i v : ℕ) → All (λ x. x < 2 ^ 32) xs → All (λ x. x < 2 ^ 32) (bump xs i v)
unfolding bump
bump_fits xs i v h = All-set xs i ((get_or xs i 0 + v) % 2 ^ 32) (omega arith) h

length-bump : (xs : List ℕ) (i v : ℕ) → length (bump xs i v) ≡ length xs
unfolding bump
length-bump xs i v = length-set xs i ((get_or xs i 0 + v) % 2 ^ 32)

All-replicate : (n : ℕ) → All (λ x. x < 2 ^ 32) (replicate n 0)
All-replicate zero = tt
All-replicate (suc n) = (omega arith, All-replicate n)

-- One counter of the array has grown by `v`, as an `int`, and the others are as before.
abbrev pub Grown : List ℕ → ℕ → ℕ → List ℕ → Type 0
Grown before i v after =
    (get_or after i 0 ≡ (get_or before i 0 + v) % 2 ^ 32)
    × ((j : ℕ) → i ≢ j → get_or after j 0 ≡ get_or before j 0)

-- `info'` counts one run more than `info`, of this width and length; without code generation
-- nothing is counted.
abbrev pub CountsRun : Bool → EncodingInfo → ℕ → ℕ → EncodingInfo → Type 0
CountsRun true info bsize runlength info' =
    Grown info.bitsize bsize 1 info'.bitsize
    × Grown info.run_length runlength runlength info'.run_length
    × (info'.num ≡ info.num + 1)
    × (info'.total_run_length ≡ (info.total_run_length + runlength) % 2 ^ 64)
    × (info'.issigned ≡ info.issigned)
    × (info'.finalized ≡ info.finalized)
CountsRun false info bsize runlength info' = info' ≡ info

bump-Grown : (xs : List ℕ) (i v : ℕ) → i < length xs → Grown xs i v (bump xs i v)
unfolding bump
bump-Grown xs i v h = (
  get_or-set_self xs i ((get_or xs i 0 + v) % 2 ^ 32) 0 h,
  λ j other. get_or-set_ne xs i j ((get_or xs i 0 + v) % 2 ^ 32) 0 other,
)

pub new_info-IsCounts : IsCounts new_info
unfolding new_info
new_info-IsCounts = record {
  sizes = length-replicate {A = ℕ} 65 0;
  lengths = length-replicate {A = ℕ} 513 0;
  sizes_fit = All-replicate 65;
  lengths_fit = All-replicate 513;
  num_fits = omega arith;
  total_fits = omega arith;
  no_sizes = λ _. refl;
  no_lengths = λ _. refl;
}

-- Counting a run of a width of at most 64 bits and of at most 512 values, where the number of runs
-- fits its type: the counter of the width grows by one and that of the length by the length, no
-- other counter changes, and the number of the runs and their total length grow with them; without
-- code generation nothing changes. The info stays well formed: arrays of 65 and 513 counters that
-- fit their types, and all of them zero where no run was counted.
pub update_encoding_info-IsCounts :
    (codegen : Bool) (info : EncodingInfo) (bsize runlength : ℕ)
    → info.num + 1 < 2 ^ 64
    → bsize ≤ 64
    → runlength ≤ 512
    → IsCounts info
    → CountsRun codegen info bsize runlength (update_encoding_info codegen info bsize runlength)
      × IsCounts (update_encoding_info codegen info bsize runlength)
unfolding update_encoding_info
update_encoding_info-IsCounts false info bsize runlength room narrow short h = (refl, h)
update_encoding_info-IsCounts true info bsize runlength room narrow short h = (
  (
    bump-Grown info.bitsize bsize 1 (omega (arith, h.sizes)),
    bump-Grown info.run_length runlength runlength (omega (arith, h.lengths)),
    omega arith,
    refl,
    refl,
    refl,
  ),
  record {
    sizes = length-bump info.bitsize bsize 1 ∙ h.sizes;
    lengths = length-bump info.run_length runlength runlength ∙ h.lengths;
    sizes_fit = bump_fits info.bitsize bsize 1 h.sizes_fit;
    lengths_fit = bump_fits info.run_length runlength runlength h.lengths_fit;
    num_fits = omega arith;
    total_fits = omega arith;
    no_sizes = λ e. absurd (omega arith);
    no_lengths = λ e. absurd (omega arith);
  },
)
