-- ===== src/ColumnInfo/EncodingInfo/Merge.antt =====
-- include/ORCColumnInfo.h, EncodingInfo::merge: the counters of two scanners.
use tengdb.Common.{ℕ, zero, suc, ◌+◌, ◌%◌, ◌^◌, ◌<◌, ◌≡◌, refl, ap, arith, Bool, true, false}
use tengdb.Common.{List, [], ◌∷◌, length, Option, none, some}
use tengdb.ColumnInfo.EncodingInfo.{EncodingInfo, bump, update_encoding_info}

-- `for(i) { list[i] += B->list[i]; }` on `int` arrays of one size.
unfoldable pub add_lists : List ℕ → List ℕ → List ℕ
add_lists [] ys = []
add_lists (x ∷ xs) [] = x ∷ xs
add_lists (x ∷ xs) (y ∷ ys) = (x + y) % 2 ^ 32 ∷ add_lists xs ys

-- `totalRunLength` is not added.
unfoldable pub merged : EncodingInfo → EncodingInfo → EncodingInfo
merged a b = record a {
  num = (a.num + b.num) % 2 ^ 64;
  bitsize = add_lists a.bitsize b.bitsize;
  run_length = add_lists a.run_length b.run_length;
}

-- `none` is the failed `assert(!finalized)`, which a build with NDEBUG does not test.
unfoldable pub merge : EncodingInfo → EncodingInfo → Option EncodingInfo
merge a b = elim a.finalized [ true ↦ none | false ↦ some (merged a b) ]

add_lists-bump :
    (xs ys : List ℕ) (i v : ℕ)
    → length xs ≡ length ys
    → i < length xs
    → add_lists (bump xs i v) ys ≡ bump (add_lists xs ys) i v
unfolding add_lists bump
add_lists-bump [] ys i v e h = absurd (omega arith)
add_lists-bump (x ∷ xs) [] i v e h = absurd (omega arith)
add_lists-bump (x ∷ xs) (y ∷ ys) zero v e h = ap (λ (z : ℕ). z ∷ add_lists xs ys) (omega arith)
add_lists-bump (x ∷ xs) (y ∷ ys) (suc i) v e h =
    ap (λ (l : List ℕ). (x + y) % 2 ^ 32 ∷ l) (add_lists-bump xs ys i v (omega arith) (omega arith))

add_lists_comm : (xs ys : List ℕ) → length xs ≡ length ys → add_lists xs ys ≡ add_lists ys xs
unfolding add_lists
add_lists_comm [] [] e = refl
add_lists_comm [] (y ∷ ys) e = absurd (omega arith)
add_lists_comm (x ∷ xs) [] e = absurd (omega arith)
add_lists_comm (x ∷ xs) (y ∷ ys) e =
    let head : (x + y) % 2 ^ 32 ≡ (y + x) % 2 ^ 32 = ap (λ (n : ℕ). n % 2 ^ 32) (omega arith) in
    rw (head, add_lists_comm xs ys (omega arith))

-- Two infos over the same arrays.
pub record IsAlike (a b : EncodingInfo) : Type 0 where
  pub sizes : length a.bitsize ≡ length b.bitsize
  pub lengths : length a.run_length ≡ length b.run_length
  pub a_open : a.finalized ≡ false
  pub b_open : b.finalized ≡ false

merge_open : (a b : EncodingInfo) → a.finalized ≡ false → merge a b ≡ some (merged a b)
unfolding merge
merge_open a b h = ap (λ (t : Bool). elim t [ true ↦ none | false ↦ some (merged a b) ]) h

-- Merging two infos that are not finalized gives the same counters in both orders, and a run that
-- is counted before the merge is in them as if it had been counted after it. The total run length
-- is that of the first info alone.
pub merge-update :
    (a b : EncodingInfo) (bsize runlength : ℕ)
    → IsAlike a b
    → bsize < length a.bitsize
    → runlength < length a.run_length
    → (m m' r : EncodingInfo) × (merge a b ≡ some m)
      × (merge b a ≡ some m')
      × (merge (update_encoding_info true a bsize runlength) b ≡ some r)
      × (m.bitsize ≡ m'.bitsize)
      × (m.run_length ≡ m'.run_length)
      × (m.num ≡ m'.num)
      × (m.total_run_length ≡ a.total_run_length)
      × (r.bitsize ≡ (update_encoding_info true m bsize runlength).bitsize)
      × (r.run_length ≡ (update_encoding_info true m bsize runlength).run_length)
      × (r.num ≡ (update_encoding_info true m bsize runlength).num)
unfolding merged update_encoding_info
merge-update a b bsize runlength h hb hr = (
  merged a b,
  merged b a,
  merged (update_encoding_info true a bsize runlength) b,
  merge_open a b h.a_open,
  merge_open b a h.b_open,
  merge_open (update_encoding_info true a bsize runlength) b h.a_open,
  add_lists_comm a.bitsize b.bitsize h.sizes,
  add_lists_comm a.run_length b.run_length h.lengths,
  ap (λ (n : ℕ). n % 2 ^ 64) (omega arith),
  refl,
  add_lists-bump a.bitsize b.bitsize bsize 1 h.sizes hb,
  add_lists-bump a.run_length b.run_length runlength runlength h.lengths hr,
  omega arith,
)
