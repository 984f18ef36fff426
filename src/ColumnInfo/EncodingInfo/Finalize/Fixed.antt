-- ===== src/ColumnInfo/EncodingInfo/Finalize/Fixed.antt =====
-- include/ORCColumnInfo.h: isBitSizeFixed, getFixedBitSize and maxbitsize after finalize.
use tengdb.Common.{
  ℕ, zero, suc, ◌+◌, ◌≤◌, ◌<◌, ◌≡◌, ◌≢◌, refl, ap, sym, ◌∙◌, arith, Bool, true, false, Bool-cases,
  inl, inr, leb, ltb, ltb→lt, ◌==◌, if◌then◌else◌,
}
use tengdb.Common.{List, [], ◌∷◌, ◌++◌, map, length, get_or, All, some}
use tengdb.Common.Int.{pos, negsuc}
use tengdb.ColumnInfo.EncodingInfo.{EncodingInfo}
use tengdb.ColumnInfo.EncodingInfo.Finalize.{
  rev, top, last_used, finalize, asserted, one_size, is_bit_size_fixed, get_fixed_bit_size,
}
use tengdb.ColumnInfo.SortData.{sort_data}
use tengdb.ColumnInfo.SortData.Order.{IsAscending}
use tengdb.ColumnInfo.SortData.Values.{IsSmall, values, sort_data-IsAscending}
use mathlib.Core.List.{Perm, perm_middle, append-nil, foldr}
use mathlib.Core.List.Perm
use native.Mathlib.Nat.{ℕ_set}

abbrev IsDescending : List ℕ → Type 0
IsDescending [] = Unit
IsDescending (x ∷ xs) = All (λ y. y ≤ x) xs × IsDescending xs

All-append : (P : ℕ → Type 0) (xs ys : List ℕ) → All P xs → All P ys → All P (xs ++ ys)
All-append P [] ys h h' = h'
All-append P (x ∷ xs) ys (here, h) h' = (here, All-append P xs ys h h')

All-rev : (P : ℕ → Type 0) (xs : List ℕ) → All P xs → All P (rev xs)
unfolding rev
All-rev P [] h = tt
All-rev P (x ∷ xs) (here, h) = All-append P (rev xs) (x ∷ []) (All-rev P xs h) (here, tt)

snoc-IsDescending :
    (xs : List ℕ) (x : ℕ) → IsDescending xs → All (λ y. x ≤ y) xs → IsDescending (xs ++ x ∷ [])
snoc-IsDescending [] x h low = (tt, tt)
snoc-IsDescending (y ∷ xs) x (below, h) (le, low) =
    (All-append (λ z. z ≤ y) xs (x ∷ []) below (le, tt), snoc-IsDescending xs x h low)

rev-IsDescending : (xs : List ℕ) → IsAscending xs → IsDescending (rev xs)
unfolding rev
rev-IsDescending [] h = tt
rev-IsDescending (x ∷ xs) (above, h) =
    snoc-IsDescending (rev xs) x (rev-IsDescending xs h) (All-rev (λ y. x ≤ y) xs above)

rev-perm : (xs : List ℕ) → Perm (rev xs) xs
unfolding rev
rev-perm [] = Perm.rfl
rev-perm (x ∷ xs) = Perm.trans (perm_middle (rev xs) []) (Perm.cons x (rw append-nil (rev-perm xs)))

map-append : (f : ℕ → ℕ) (xs ys : List ℕ) → map f (xs ++ ys) ≡ map f xs ++ map f ys
map-append f [] ys = refl
map-append f (x ∷ xs) ys = ap (λ (l : List ℕ). f x ∷ l) (map-append f xs ys)

map-rev : (f : ℕ → ℕ) (xs : List ℕ) → map f (rev xs) ≡ rev (map f xs)
unfolding rev
map-rev f [] = refl
map-rev f (x ∷ xs) =
    map-append f (rev xs) (x ∷ []) ∙ ap (λ (l : List ℕ). l ++ f x ∷ []) (map-rev f xs)

abbrev used : ℕ → ℕ → ℕ
used x n = (if x == 0 then 0 else 1) + n

-- How many of the counters are not zero.
abbrev pub used_count : List ℕ → ℕ
used_count xs = foldr used 0 xs

used_comm : (a b n : ℕ) → used a (used b n) ≡ used b (used a n)
used_comm a b n = omega arith

used_count-perm : (xs ys : List ℕ) → Perm xs ys → used_count xs ≡ used_count ys
used_count-perm xs ys p = Perm.foldr-eq ℕ_set used used_comm p 0

length-foldr : (xs : List ℕ) → foldr (λ x n. suc n) 0 xs ≡ length xs
length-foldr [] = refl
length-foldr (x ∷ xs) = ap suc (length-foldr xs)

length-perm : (xs ys : List ℕ) → Perm xs ys → length xs ≡ length ys
length-perm xs ys p =
    sym (length-foldr xs)
    ∙ Perm.foldr-eq ℕ_set (λ (x : ℕ) (n : ℕ). suc n) (λ a b n. refl) p 0
    ∙ length-foldr ys

-- The values at the places of the toplist: the largest first, and as many as there are counters.
record IsTop (list tops : List ℕ) : Type 0 where
  descends : IsDescending (values list tops)
  same_used : used_count (values list tops) ≡ used_count list
  same_length : length (values list tops) ≡ length list

top-IsTop : (list : List ℕ) → IsSmall list → IsTop list (top list)
unfolding top
top-IsTop list small =
    let back = (sort_data list).0 in
    let (asc, p, _) = sort_data-IsAscending list small in
    let turned = map-rev (λ (i : ℕ). get_or list i 0) back in
    let whole : Perm (values list (rev back)) list =
      rw turned (Perm.trans (rev-perm (values list back)) p) in
    record {
      descends = rw turned (rev-IsDescending (values list back) asc);
      same_used = used_count-perm (values list (rev back)) list whole;
      same_length = length-perm (values list (rev back)) list whole;
    }

All-zero : (xs : List ℕ) → All (λ y. y ≤ 0) xs → used_count xs ≡ 0
All-zero [] h = refl
All-zero (x ∷ xs) (here, h) = let e : x ≡ 0 = omega arith in rw (e, All-zero xs h)

-- What the first two values of a toplist say of the number of counters that are not zero.
first_two :
    (x y : ℕ) (xs : List ℕ)
    → IsDescending (x ∷ y ∷ xs)
    → ((y == 0) ≡ leb (used_count (x ∷ y ∷ xs)) 1) × ((used_count (x ∷ y ∷ xs) ≡ 1) → x ≢ 0)
first_two x y xs ((le, _), (below, _)) = elim (Bool-cases (y == 0)) [
  | inl e ↦
      let zero_y : y ≡ 0 = ground arith in
      let none = All-zero xs (rw zero_y at below) in
      (rw (zero_y, none) (ground arith), λ one z. absurd (ground (arith, none)))
  | inr e ↦ let some_y : y ≢ 0 = ground arith in (ground arith, λ one. ground arith)
]

two_places :
    (list tops : List ℕ)
    → 2 ≤ length (values list tops)
    → (a b : ℕ) × (rest : List ℕ) × (tops ≡ a ∷ b ∷ rest)
two_places list [] h = absurd (omega arith)
two_places list (a ∷ []) h = absurd (omega arith)
two_places list (a ∷ b ∷ rest) h = (a, b, rest, refl)

unused : (xs : List ℕ) (k : ℕ) → used_count xs ≡ 0 → get_or xs k 0 ≡ 0
unused [] k h = refl
unused (x ∷ xs) zero h = ground arith
unused (x ∷ xs) (suc k) h = unused xs k (ground arith)

-- A single counter that is not zero has one place.
only_used :
    (xs : List ℕ) (j k : ℕ) → used_count xs ≡ 1 → get_or xs j 0 ≢ 0 → get_or xs k 0 ≢ 0 → j ≡ k
only_used [] j k one hj hk = absurd (hj refl)
only_used (x ∷ xs) zero zero one hj hk = refl
only_used (x ∷ xs) zero (suc k) one hj hk = absurd (hk (unused xs k (ground arith)))
only_used (x ∷ xs) (suc j) zero one hj hk = absurd (hj (unused xs j (ground arith)))
only_used (x ∷ xs) (suc j) (suc k) one hj hk = elim (Bool-cases (x == 0)) [
  | inl e ↦ ap suc (only_used xs j k (ground arith) hj hk)
  | inr e ↦ absurd (hj (unused xs j (ground arith)))
]

module _ (info : EncodingInfo) (beyond : ℕ) (small : IsSmall info.bitsize)
    (wide : 2 ≤ length info.bitsize) where
  -- The first two places of the toplist.
  top_two :
      (a b : ℕ) × (rest : List ℕ) × (top info.bitsize ≡ a ∷ b ∷ rest)
      × ((get_or info.bitsize b 0 == 0) ≡ leb (used_count info.bitsize) 1)
      × ((used_count info.bitsize ≡ 1) → get_or info.bitsize a 0 ≢ 0)
  top_two =
      let t = top-IsTop info.bitsize small in
      let (a, b, rest, e) = two_places info.bitsize (top info.bitsize) (rw t.same_length wide) in
      let (fixed, largest) =
        first_two (get_or info.bitsize a 0) (get_or info.bitsize b 0) (values info.bitsize rest)
          (rw e at t.descends) in
      let same = rw e at t.same_used in
      (a, b, rest, e, fixed ∙ ap (λ (n : ℕ). leb n 1) same, λ one. largest (same ∙ one))

  one_size_lem : one_size (finalize beyond info) ≡ leb (used_count info.bitsize) 1
  unfolding one_size finalize
  one_size_lem = let (a, b, rest, e, fixed, _) = top_two in rw e fixed

  -- After finalize, isBitSizeFixed says whether at most one bit size was counted. The counters are
  -- not negative, and there are two of them at least.
  pub is_bit_size_fixed-used_count :
      is_bit_size_fixed (finalize beyond info) ≡ some (leb (used_count info.bitsize) 1)
  unfolding is_bit_size_fixed finalize asserted
  is_bit_size_fixed-used_count = ap some one_size_lem

last_used_lem :
    (n k : ℕ) (list : List ℕ) (old : ℕ)
    → k < n
    → get_or list k 0 ≢ 0
    → ((j : ℕ) → k < j → get_or list j 0 ≡ 0)
    → last_used n list old ≡ k
unfolding last_used
last_used_lem zero k list old h here above = absurd (omega arith)
last_used_lem (suc n) k list old h here above = elim (Bool-cases (get_or list n 0 == 0)) [
  | inl e ↦
      let other : k ≢ n = λ p. here (rw p (ground arith)) in
      rw (e, last_used) (last_used_lem n k list old (omega (arith, other)) here above)
  | inr e ↦ let top_place : n ≤ k = not_above e in rw (e, last_used) (omega arith)
]
  where
    not_above : (get_or list n 0 == 0) ≡ false → n ≤ k
    not_above e = elim (Bool-cases (ltb k n)) [
      | inl p ↦ absurd (ground (arith, above n (ltb→lt k n p)))
      | inr p ↦ ground arith
    ]

get_or-snoc_zero : (xs : List ℕ) (j : ℕ) → get_or (xs ++ 0 ∷ []) j 0 ≡ get_or xs j 0
get_or-snoc_zero [] zero = refl
get_or-snoc_zero [] (suc j) = refl
get_or-snoc_zero (x ∷ xs) zero = refl
get_or-snoc_zero (x ∷ xs) (suc j) = get_or-snoc_zero xs j

-- After finalize of counters that are not negative, of which only that of the bit size `k` is not
-- zero, getFixedBitSize is `k` and so is maxbitsize, if the place behind the array holds zero.
pub get_fixed_bit_size-only :
    (info : EncodingInfo) (k : ℕ)
    → IsSmall info.bitsize
    → 2 ≤ length info.bitsize
    → k < 65
    → get_or info.bitsize k 0 ≢ 0
    → used_count info.bitsize ≡ 1
    → (get_fixed_bit_size (finalize 0 info) ≡ some (pos k)) × ((finalize 0 info).maxbitsize ≡ k)
unfolding get_fixed_bit_size finalize asserted
get_fixed_bit_size-only info k small wide bounded here one =
    let (a, b, rest, e, fixed, largest) = top_two info 0 small wide in
    let place = only_used info.bitsize a k one (largest one) here in
    let whole = info.bitsize ++ 0 ∷ [] in
    (
      ap
            (λ (t : Bool).
              some (elim t [ true ↦ pos (get_or (top info.bitsize) 0 0) | false ↦ negsuc 0 ]))
            (one_size_lem info 0 small wide ∙ ap (λ (n : ℕ). leb n 1) one)
          ∙ ap (λ (l : List ℕ). some (pos (get_or l 0 0))) e
          ∙ ap (λ (n : ℕ). some (pos n)) place,
      last_used_lem 66 k whole info.maxbitsize (omega arith)
          (λ p. here (sym (get_or-snoc_zero info.bitsize k) ∙ p))
          λ j above. get_or-snoc_zero info.bitsize j ∙ others j above,
    )
  where
    others : (j : ℕ) → k < j → get_or info.bitsize j 0 ≡ 0
    others j above = elim (Bool-cases (get_or info.bitsize j 0 == 0)) [
      | inl e ↦ ground arith
      | inr e ↦
          let same = only_used info.bitsize j k one (λ p. absurd (ground arith)) here in
          absurd (omega (arith, same))
    ]
