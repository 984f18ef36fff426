-- ===== src/ColumnInfo/SortData/Values.antt =====
-- include/ORCColumnInfo.h, sortData: the values at the places of the toplist.
use tengdb.Common.{
  ℕ, zero, suc, ◌+◌, ◌%◌, ◌^◌, ◌≤◌, ◌<◌, ◌≡◌, refl, ap, sym, ◌∙◌, arith, true, false, Bool-cases,
  inl, inr, ltb, ltb→lt,
}
use tengdb.Common.{List, [], ◌∷◌, ◌++◌, map, length, get_or, replicate, All}
use tengdb.Common.{length-append}
use tengdb.ColumnInfo.SortData.{int_less, find_min, sift, put_last, add_int, sort_loop, sort_data}
use tengdb.ColumnInfo.SortData.Order.{IsAscending, place, places, places-IsAscending}
use mathlib.Core.List.{Perm, append-nil}
use mathlib.Core.Path.{subst}
use mathlib.Core.List.Perm

-- The counters are not negative.
abbrev pub IsSmall : List ℕ → Type 0
IsSmall list = All (λ x. x < 2 ^ 31) list

pub int_less_lem : (a b : ℕ) → a < 2 ^ 31 → b < 2 ^ 31 → int_less a b ≡ ltb a b
unfolding int_less
int_less_lem a b ha hb = ground arith

pub value-lt : (list : List ℕ) (i : ℕ) → IsSmall list → get_or list i 0 < 2 ^ 31
value-lt [] i h = omega arith
value-lt (x ∷ list) zero (hx, h) = hx
value-lt (x ∷ list) (suc i) (hx, h) = value-lt list i h

abbrev pub values : List ℕ → List ℕ → List ℕ
values list toplist = map (λ i. get_or list i 0) toplist

sift-place :
    (list : List ℕ) (x : ℕ) (ys : List ℕ)
    → IsSmall list
    → values list (sift list x ys) ≡ place (get_or list x 0) (values list ys)
unfolding sift place
sift-place list x [] h = refl
sift-place list x (y ∷ ys) h =
    let less =
      int_less_lem (get_or list y 0) (get_or list x 0) (value-lt list y h) (value-lt list x h) in
    elim (Bool-cases (ltb (get_or list y 0) (get_or list x 0))) [
      | inl e ↦
          rw (less, e, sift, place)
            (ap (λ (l : List ℕ). get_or list y 0 ∷ l) (sift-place list x ys h))
      | inr e ↦ rw (less, e, sift, place)
    ]

get_or-append : (xs ys : List ℕ) (y : ℕ) → get_or (xs ++ y ∷ ys) (length xs) 0 ≡ y
get_or-append [] ys y = refl
get_or-append (x ∷ xs) ys y = get_or-append xs ys y

abbrev pub total_of : List ℕ → ℕ
total_of [] = 0
total_of (x ∷ xs) = x + total_of xs

snoc_append : (xs ys : List ℕ) (x : ℕ) → (xs ++ x ∷ []) ++ ys ≡ xs ++ x ∷ ys
snoc_append [] ys x = refl
snoc_append (y ∷ xs) ys x = ap (λ (l : List ℕ). y ∷ l) (snoc_append xs ys x)

length_snoc : (xs : List ℕ) (x : ℕ) → length (xs ++ x ∷ []) ≡ length xs + 1
length_snoc xs x = length-append xs (x ∷ [])

loop_values :
    (list before xs toplist : List ℕ) (i total : ℕ)
    → IsSmall list
    → list ≡ before ++ xs
    → i ≡ length before
    → values list (sort_loop list i xs total toplist).0 ≡ places xs (values list toplist)
unfolding sort_loop put_last places
loop_values list before [] toplist i total h e at = refl
loop_values list before (x ∷ xs) [] i total h e at =
    loop_values list (before ++ x ∷ []) xs [] (i + 1) (add_int total x) h
      (e ∙ sym (snoc_append before xs x)) (ap (λ (n : ℕ). n + 1) at ∙ sym (length_snoc before x))
loop_values list before (x ∷ xs) (last ∷ toplist) i total h e at =
    let here : get_or list i 0 ≡ x = rw (e, at) (get_or-append before xs x) in
    loop_values list (before ++ x ∷ []) xs (sift list i toplist) (i + 1) (add_int total x) h
      (e ∙ sym (snoc_append before xs x)) (ap (λ (n : ℕ). n + 1) at ∙ sym (length_snoc before x))
    ∙ ap (places xs)
        (sift-place list i toplist h ∙ ap (λ (v : ℕ). place v (values list toplist)) here)

find_min_step :
    (x : ℕ) (xs : List ℕ) (i v k : ℕ)
    → ((int_less x v ≡ true) → find_min (x ∷ xs) i v k ≡ find_min xs (i + 1) x i)
      × ((int_less x v ≡ false) → find_min (x ∷ xs) i v k ≡ find_min xs (i + 1) v k)
unfolding find_min
find_min_step x xs i v k = (λ e. rw (e, find_min), λ e. rw (e, find_min))

-- The place has a value that is at most `v` and every one of the list.
abbrev IsLeast : List ℕ → ℕ → List ℕ → ℕ → Type 0
IsLeast list v xs k = (get_or list k 0 ≤ v) × All (λ y. get_or list k 0 ≤ y) xs

find_min_lem :
    (list before xs : List ℕ) (i v k : ℕ)
    → IsSmall list
    → list ≡ before ++ xs
    → i ≡ length before
    → v ≡ get_or list k 0
    → IsLeast list v xs (find_min xs i v k)
find_min_lem list before [] i v k h e at value = unfold find_min in (omega (arith, value), tt)
find_min_lem list before (x ∷ xs) i v k h e at value =
    let here : get_or list i 0 ≡ x = rw (e, at) (get_or-append before xs x) in
    let small : x < 2 ^ 31 = rw here at (value-lt list i h) in
    let small' : v < 2 ^ 31 = rw value (value-lt list k h) in
    let less = int_less_lem x v small small' in
    let e' = e ∙ sym (snoc_append before xs x) in
    let at' = ap (λ (n : ℕ). n + 1) at ∙ sym (length_snoc before x) in
    elim (Bool-cases (ltb x v)) [
      | inl q ↦
          let smaller = ltb→lt x v q in
          let (le, all) = find_min_lem list (before ++ x ∷ []) xs (i + 1) x i h e' at' (sym here) in
          subst (IsLeast list v (x ∷ xs)) (sym ((find_min_step x xs i v k).0 (less ∙ q)))
            (omega arith, (le, all))
      | inr q ↦
          let larger : v ≤ x = ground arith in
          let (le, all) = find_min_lem list (before ++ x ∷ []) xs (i + 1) v k h e' at' value in
          subst (IsLeast list v (x ∷ xs)) (sym ((find_min_step x xs i v k).1 (less ∙ q)))
            (le, (omega arith, all))
    ]

values-replicate :
    (list : List ℕ) (n k : ℕ) → values list (replicate n k) ≡ replicate n (get_or list k 0)
values-replicate list zero k = refl
values-replicate list (suc n) k =
    ap (λ (l : List ℕ). get_or list k 0 ∷ l) (values-replicate list n k)

All-same : (m n : ℕ) → All (λ y. m ≤ y) (replicate n m)
All-same m zero = tt
All-same m (suc n) = (omega arith, All-same m n)

same-IsAscending : (m n : ℕ) → IsAscending (replicate n m)
same-IsAscending m zero = tt
same-IsAscending m (suc n) = (All-same m n, same-IsAscending m n)

loop_total :
    (list xs toplist : List ℕ) (i total : ℕ)
    → IsSmall xs
    → total < 2 ^ 64
    → (sort_loop list i xs total toplist).1 ≡ (total + total_of xs) % 2 ^ 64
unfolding sort_loop add_int
loop_total list [] toplist i total h fits = omega arith
loop_total list (x ∷ xs) toplist i total (hx, h) fits =
    let small : ltb x (2 ^ 31) ≡ true = ground arith in
    loop_total list xs (put_last list i toplist) (i + 1) (add_int total x) h (omega arith)
    ∙ rw small (omega arith)

-- For counters that are not negative, the values at the places of the toplist, read from its last
-- position to its first, are in ascending order, and they are the values of the list in another
-- order, also where the toplist names a place twice; the total is the sum of the list.
pub sort_data-IsAscending :
    (list : List ℕ)
    → IsSmall list
    → IsAscending (values list (sort_data list).0)
      × Perm (values list (sort_data list).0) list
      × ((sort_data list).1 ≡ total_of list % 2 ^ 64)
unfolding sort_data
sort_data-IsAscending list h =
    let k = find_min list 0 (get_or list 0 0) 0 in
    let m = get_or list k 0 in
    let (_, low) = find_min_lem list [] list 0 (get_or list 0 0) 0 h refl refl refl in
    let start = replicate (length list) k in
    let same = values-replicate list (length list) k in
    let asc : IsAscending (values list start) = rw same (same-IsAscending m (length list)) in
    let p : Perm (values list start) (replicate (length list) m ++ []) =
      rw (same, append-nil) Perm.rfl in
    let (asc', p') = places-IsAscending m list [] (values list start) low tt asc p in
    let e = loop_values list [] list start 0 0 h refl refl in
    (
      rw e asc',
      rw e (rw append-nil at p'),
      loop_total list list start 0 0 h (omega arith) ∙ ap (λ (n : ℕ). n % 2 ^ 64) (omega arith),
    )
