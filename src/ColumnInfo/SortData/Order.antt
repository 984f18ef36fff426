-- ===== src/ColumnInfo/SortData/Order.antt =====
-- Ascending lists of numbers, and insertion in place of the least one.
use tengdb.Common.{ℕ, zero, suc, ◌≤◌, ◌≡◌, arith}
use tengdb.Common.{true, false, Bool-cases, inl, inr, ltb, ltb→lt}
use tengdb.Common.{List, [], ◌∷◌, ◌++◌, length, replicate, All}
use mathlib.Core.List.{
  Mem, Perm, mem-cons, mem-cons_self, mem-cons_of_mem, not-mem-nil, perm_middle,
}
use mathlib.Core.List.Perm
use mathlib.Core.Logic.Or
use native.Mathlib.Bridge.{le_prop}

abbrev pub IsAscending : List ℕ → Type 0
IsAscending [] = Unit
IsAscending (x ∷ xs) = All (λ y. x ≤ y) xs × IsAscending xs

-- `x` among the values of an ascending list, behind the smaller ones.
unfoldable pub place : ℕ → List ℕ → List ℕ
place x [] = x ∷ []
place x (y ∷ ys) = elim (ltb y x) [ true ↦ y ∷ place x ys | false ↦ x ∷ y ∷ ys ]

-- Each value takes the place of the first of the list.
unfoldable pub places : List ℕ → List ℕ → List ℕ
places [] l = l
places (x ∷ xs) [] = places xs []
places (x ∷ xs) (h ∷ l) = places xs (place x l)

All-of_mem : (P : ℕ → Type 0) (xs : List ℕ) → ((x : ℕ) → Mem x xs → P x) → All P xs
All-of_mem P [] h = tt
All-of_mem P (x ∷ xs) h = (h x mem-cons_self, All-of_mem P xs (λ y m. h y (mem-cons_of_mem x m)))

le_of_mem : (m x : ℕ) (xs : List ℕ) → All (λ y. m ≤ y) xs → Mem x xs → m ≤ x
le_of_mem m x [] h i = absurd (not-mem-nil i)
le_of_mem m x (y ∷ xs) h i = Or.elim le_prop (mem-cons.0 i) (λ e. rw e h.0) (le_of_mem m x xs h.1)

pub above-perm : (m : ℕ) (xs ys : List ℕ) → Perm xs ys → All (λ y. m ≤ y) ys → All (λ y. m ≤ y) xs
above-perm m xs ys p h =
    All-of_mem (λ y. m ≤ y) xs (λ x i. le_of_mem m x ys h ((Perm.mem_iff p).0 i))

weaken-All : (m n : ℕ) (xs : List ℕ) → m ≤ n → All (λ y. n ≤ y) xs → All (λ y. m ≤ y) xs
weaken-All m n [] h all = tt
weaken-All m n (x ∷ xs) h (here, all) = (omega arith, weaken-All m n xs h all)

place-perm : (x : ℕ) (ys : List ℕ) → Perm (place x ys) (x ∷ ys)
unfolding place
place-perm x [] = Perm.rfl
place-perm x (y ∷ ys) = elim (Bool-cases (ltb y x)) [
  | inl e ↦ rw (e, place) (Perm.trans (Perm.cons y (place-perm x ys)) (Perm.swap x y ys))
  | inr e ↦ rw (e, place) Perm.rfl
]

place-IsAscending : (x : ℕ) (ys : List ℕ) → IsAscending ys → IsAscending (place x ys)
unfolding place
place-IsAscending x [] h = (tt, tt)
place-IsAscending x (y ∷ ys) (above, h) = elim (Bool-cases (ltb y x)) [
  | inl e ↦
      let less = ltb→lt y x e in
      rw (e, place)
        (
          above-perm y (place x ys) (x ∷ ys) (place-perm x ys) (omega arith, above),
          place-IsAscending x ys h,
        )
  | inr e ↦
      let le : x ≤ y = ground arith in rw (e, place) ((le, weaken-All x y ys le above), (above, h))
]

above-replicate :
    (m n : ℕ) (xs : List ℕ) → All (λ y. m ≤ y) xs → All (λ y. m ≤ y) (replicate n m ++ xs)
above-replicate m zero xs h = h
above-replicate m (suc n) xs h = (omega arith, above-replicate m n xs h)

nil-ne-cons : {x : ℕ} {xs : List ℕ} → Path (List ℕ) [] (x ∷ xs) → ⊥
nil-ne-cons p = cc

-- The first of an ascending arrangement of the least value and others.
least_first :
    (m h : ℕ) (l rest : List ℕ)
    → IsAscending (h ∷ l)
    → All (λ y. m ≤ y) rest
    → Perm (h ∷ l) (m ∷ rest)
    → h ≡ m
least_first m h l rest (above, _) low p =
    let down = (above-perm m (h ∷ l) (m ∷ rest) p (omega arith, low)).0 in
    let up = (above-perm h (m ∷ rest) (h ∷ l) (Perm.symm p) (omega arith, above)).0 in omega arith

-- Values that all take the place of a least one end up in order, with those that were there.
pub places-IsAscending :
    (m : ℕ) (xs done l : List ℕ)
    → All (λ y. m ≤ y) xs
    → All (λ y. m ≤ y) done
    → IsAscending l
    → Perm l (replicate (length xs) m ++ done)
    → IsAscending (places xs l) × Perm (places xs l) (xs ++ done)
unfolding places
places-IsAscending m [] done l low low' asc p = (asc, p)
places-IsAscending m (x ∷ xs) done [] low low' asc p = absurd (nil-ne-cons (Perm.nil-eq p))
places-IsAscending m (x ∷ xs) done (h ∷ l) (low, lows) low' asc p =
    let rest = replicate (length xs) m ++ done in
    let first = least_first m h l rest asc (above-replicate m (length xs) done low') p in
    let tail : Perm l rest = Perm.cons_inv (rw first at p) in
    let moved =
      Perm.trans (place-perm x l)
        (Perm.trans (Perm.cons x tail) (Perm.symm (perm_middle (replicate (length xs) m) done))) in
    let (asc', p') =
      places-IsAscending m xs (x ∷ done) (place x l) lows (low, low') (place-IsAscending x l asc.1)
        moved in
    (asc', Perm.trans p' (perm_middle xs done))
