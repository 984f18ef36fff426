-- ===== src/Sql/Print/Outline.antt =====
-- src/frontend/sqlhelper.cpp: the printed lines are an outline.
use tengdb.Common.{
  ℕ, ◌+◌, ◌≤◌, ◌<◌, ◌≡◌, arith, ap, List, [], ◌∷◌, ◌++◌, All, length, Option, none, some,
}
use mathlib.Core.List.{append_assoc}
use tengdb.Common.{refl}
use tengdb.Common.Run.{Run, ok, fault}
use tengdb.Common.Name.{Name}
use tengdb.Sql.Print.{
  Line, Text, inprint, print_name, print_member, print_alias, ◌then_print◌, print_nothing,
}

-- No line has more than one tab more than the line before it, which has `p` tabs at the start.
abbrev pub Follows : ℕ → List Line → Type 0
Follows p [] = Unit
Follows p (line ∷ lines) = (line.tabs ≤ p + 1) × Follows line.tabs lines

-- An outline: every line has `n` tabs at least, and it can stand behind any line with `n - 1` tabs
-- or more.
abbrev pub Outline : ℕ → List Line → Type 0
Outline n lines = All (λ line. n ≤ line.tabs) lines × ((p : ℕ) → n ≤ p + 1 → Follows p lines)

All-append :
    (n k : ℕ) (xs ys : List Line)
    → n ≤ k
    → All (λ line. n ≤ line.tabs) xs
    → All (λ line. k ≤ line.tabs) ys
    → All (λ line. n ≤ line.tabs) (xs ++ ys)
All-append n k [] [] less h h' = tt
All-append n k [] (y ∷ ys) less h (here, h') = (omega arith, All-append n k [] ys less h h')
All-append n k (x ∷ xs) ys less (here, h) h' = (here, All-append n k xs ys less h h')

Follows-append :
    (n p : ℕ) (xs ys : List Line)
    → n ≤ p
    → All (λ line. n ≤ line.tabs) xs
    → Follows p xs
    → ((q : ℕ) → n ≤ q → Follows q ys)
    → Follows p (xs ++ ys)
Follows-append n p [] ys less h f g = g p less
Follows-append n p (x ∷ xs) ys less (here, h) (step, f) g =
    (step, Follows-append n x.tabs xs ys here h f g)

-- Lines behind others may have as many tabs, or one more where there are others.
Outline-append :
    (n k : ℕ) (xs ys : List Line)
    → n ≤ k
    → k ≤ n + 1
    → 0 < length xs
    → Outline n xs
    → Outline k ys
    → Outline n (xs ++ ys)
Outline-append n k [] ys less most some_lines h h' = absurd (omega arith)
Outline-append n k (x ∷ xs) ys less most some_lines ((here, h), f) (h', g) = (
  All-append n k (x ∷ xs) ys less (here, h) h',
  λ p before.
      let (step, rest) = f p before in
      (step, Follows-append n x.tabs xs ys here h rest (λ q above. g q (omega arith))),
)

-- The code does not fault, and `P` holds of its result.
abbrev pub Yields : {A : Type 0} → Run A → (A → Type 0) → Type 0
Yields (ok a) P = P a
Yields (fault e) P = ⊥

abbrev pub StartsAt : ℕ → List Line → Type 0
StartsAt n [] = ⊥
StartsAt n (line ∷ lines) = line.tabs ≡ n

-- The first line is this text with `n` tabs, and all others stand below it.
abbrev pub HasHeading : Text → ℕ → List Line → Type 0
HasHeading text n [] = ⊥
HasHeading text n (line ∷ lines) = (line ≡ record { tabs = n; text = text }) × Outline (n + 1) lines

-- The code prints an outline, an outline whose first line has `n` tabs, or a heading and what
-- stands below it.
abbrev pub Prints : ℕ → Run (List Line) → Type 0
Prints n r = Yields r (Outline n)

abbrev pub Begins : ℕ → Run (List Line) → Type 0
Begins n r = Yields r (λ lines. StartsAt n lines × Outline n lines)

abbrev pub Heads : Text → ℕ → Run (List Line) → Type 0
Heads text n r = Yields r (HasHeading text n)

pub Begins-Prints : (n : ℕ) (r : Run (List Line)) → Begins n r → Prints n r
Begins-Prints n (ok lines) (first, h) = h
Begins-Prints n (fault e) h = absurd h

pub Prints-nothing : (n : ℕ) → Prints n print_nothing
Prints-nothing n = (tt, λ p before. tt)

pub then-Begins :
    (n k : ℕ) (a b : Run (List Line))
    → n ≤ k
    → k ≤ n + 1
    → Begins n a
    → Prints k b
    → Begins n (a then_print b)
then-Begins n k (fault e) b less most h h' = absurd h
then-Begins n k (ok xs) (fault e) less most h h' = absurd h'
then-Begins n k (ok []) (ok ys) less most (first, h) h' = absurd first
then-Begins n k (ok (x ∷ xs)) (ok ys) less most (first, h) h' =
    (first, Outline-append n k (x ∷ xs) ys less most (omega arith) h h')

pub then-Prints :
    (n : ℕ) (a b : Run (List Line)) → Prints n a → Prints n b → Prints n (a then_print b)
then-Prints n (fault e) b h h' = absurd h
then-Prints n (ok xs) (fault e) h h' = absurd h'
then-Prints n (ok []) (ok ys) h h' = h'
then-Prints n (ok (x ∷ xs)) (ok ys) h h' =
    Outline-append n n (x ∷ xs) ys (omega arith) (omega arith) (omega arith) h h'

-- A heading with lines below it, and then what stands beside the heading.
pub heading-Begins :
    (n k : ℕ) (a b c : Run (List Line))
    → k ≡ n + 1
    → Begins n a
    → Prints k b
    → Prints n c
    → Begins n (a then_print b then_print c)
heading-Begins n k (fault e) b c same h h' h'' = absurd h
heading-Begins n k (ok xs) (fault e) c same h h' h'' = absurd h'
heading-Begins n k (ok xs) (ok ys) (fault e) same h h' h'' = absurd h''
heading-Begins n k (ok xs) (ok ys) (ok zs) same h h' h'' = rw (← append_assoc xs ys zs) (
    then-Begins n n (ok (xs ++ ys)) (ok zs) (omega arith) (omega arith)
      (then-Begins n k (ok xs) (ok ys) (omega arith) (omega arith) h h') h'')

pub inprint-Begins : (text : Text) (n : ℕ) → Begins n (inprint text n)
unfolding inprint
inprint-Begins text n = (refl, ((omega arith, tt), λ p before. (before, tt)))

-- What is printed with one tab more behind a line is below it.
pub inprint-Heads :
    (text : Text) (n : ℕ) (b : Run (List Line))
    → Prints (n + 1) b
    → Heads text n (inprint text n then_print b)
unfolding inprint
inprint-Heads text n (fault e) h = h
inprint-Heads text n (ok lines) h = (refl, h)

pub Heads-Begins : (text : Text) (n : ℕ) (r : Run (List Line)) → Heads text n r → Begins n r
Heads-Begins text n (fault e) h = h
Heads-Begins text n (ok []) h = absurd h
Heads-Begins text n (ok (line ∷ lines)) (same, (below, follows)) =
    let first : line.tabs ≡ n = ap (λ (l : Line). l.tabs) same in
    (
      first,
      (
        (omega arith, All-deeper n lines below),
        λ p before. (omega arith, follows line.tabs (omega arith)),
      ),
    )
  where
    All-deeper :
        (n : ℕ) (lines : List Line)
        → All (λ line. n + 1 ≤ line.tabs) lines
        → All (λ line. n ≤ line.tabs) lines
    All-deeper n [] h = tt
    All-deeper n (line ∷ lines) (here, h) = (omega arith, All-deeper n lines h)

-- A string that is not NULL, and a member that was set.
abbrev pub IsGiven : {A : Type 0} → Option A → Type 0
IsGiven none = ⊥
IsGiven (some a) = Unit

pub print_name-Begins : (name : Option Name) (n : ℕ) → IsGiven name → Begins n (print_name name n)
unfolding print_name
print_name-Begins none n given = absurd given
print_name-Begins (some name) n given = inprint-Begins _ n

pub print_member-Begins :
    {A : Type 0} (show : A → Text) (o : Option A) (n : ℕ)
    → IsGiven o
    → Begins n (print_member show o n)
unfolding print_member
print_member-Begins show none n given = absurd given
print_member-Begins show (some a) n given = inprint-Begins (show a) n

pub print_alias-Prints : (alias : Option Name) (n : ℕ) → Prints (n + 1) (print_alias alias n)
unfolding print_alias
print_alias-Prints none n = Prints-nothing (n + 1)
print_alias-Prints (some alias) n = Begins-Prints (n + 1) _ (
    then-Begins (n + 1) (n + 2) (inprint _ (n + 1)) (inprint _ (n + 2)) (omega arith) (omega arith)
      (inprint-Begins _ (n + 1))
      (Begins-Prints (n + 2) (inprint _ (n + 2)) (inprint-Begins _ (n + 2))))
