-- ===== src/Sql/Expr/Names.antt =====
-- src/frontend/sql/Expr.h: addColumn gathers the columns that an expression names.
use tengdb.Common.{◌==◌, ltb, Bool, true, false, List, [], ◌∷◌, Option, none, some, ◌||◌}
use tengdb.Common.{◌≡◌, ◌≢◌, refl, sym, ap, ◌∙◌, arith, Bool-cases, inl, inr, All}
use tengdb.Common.Name.{Name, same_name, same_name_lem}
use tengdb.Common.Run.{Run, ok}
use tengdb.Sql.Expr.{
  ExprType, Expr, null, node, ColumnSet, name_less, put_name, add_own, add_column, add_columns,
  column_ref, literal_float, literal_string, literal_int, star, placeholder, function_ref, operator,
}

unfoldable pub is_in : Name → ColumnSet → Bool
is_in name [] = false
is_in name (key ∷ keys) = same_name name key || is_in name keys

-- Each key is smaller than the next.
abbrev pub IsAbove : Name → ColumnSet → Type 0
IsAbove key [] = Unit
IsAbove key (next ∷ keys) = (name_less key next ≡ true) × IsAbove next keys

abbrev pub IsIncreasing : ColumnSet → Type 0
IsIncreasing [] = Unit
IsIncreasing (key ∷ keys) = IsAbove key keys

-- Whether the expression is a column of this name, or has one in it.
unfoldable pub is_own : ExprType → Option Name → Name → Bool
is_own column_ref (some name) other = same_name other name
is_own _ name other = false

unfoldable pub names : Name → Expr → Bool
names name null = false
names name (node f expr expr2) = is_own f.type f.name name || (names name expr || names name expr2)

unfoldable pub names_any : Name → List Expr → Bool
names_any name [] = false
names_any name (expr ∷ exprs) = names name expr || names_any name exprs

-- The column references have names.
abbrev pub HasName : ExprType → Option Name → Type 0
HasName column_ref name = name ≢ none
HasName _ name = Unit

abbrev pub IsNamed : Expr → Type 0
IsNamed null = Unit
IsNamed (node f expr expr2) = HasName f.type f.name × (IsNamed expr × IsNamed expr2)

-- An element of a list that addColumn is called on: it is not NULL, and its references have names.
abbrev pub IsAddable : Expr → Type 0
IsAddable null = ⊥
IsAddable (node f expr expr2) = IsNamed (node f expr expr2)

-- Of two different names one is smaller.
name_less-total :
    (a b : Name) → same_name a b ≡ false → name_less a b ≡ false → name_less b a ≡ true
unfolding same_name name_less
name_less-total [] [] h h' = absurd (cc)
name_less-total [] (y ∷ ys) h h' = absurd (cc)
name_less-total (x ∷ xs) [] h h' = refl
name_less-total (x ∷ xs) (y ∷ ys) h h' = elim (Bool-cases (x == y)) [
  | inl e ↦
      let back : (y == x) ≡ true = ground arith in
      let rest : same_name xs ys ≡ false =
        sym (ap (λ (b : Bool). elim b [ true ↦ same_name xs ys | false ↦ false ]) e) ∙ h in
      let rest' : name_less xs ys ≡ false =
        sym (ap (λ (b : Bool). elim b [ true ↦ name_less xs ys | false ↦ ltb x y ]) e) ∙ h' in
      ap (λ (b : Bool). elim b [ true ↦ name_less ys xs | false ↦ ltb y x ]) back
      ∙ name_less-total xs ys rest rest'
  | inr e ↦
      let back : (y == x) ≡ false = ground arith in
      let more : ltb x y ≡ false =
        sym (ap (λ (b : Bool). elim b [ true ↦ name_less xs ys | false ↦ ltb x y ]) e) ∙ h' in
      let less : ltb y x ≡ true = ground arith in
      ap (λ (b : Bool). elim b [ true ↦ name_less ys xs | false ↦ ltb y x ]) back ∙ less
]

put_name-IsAbove :
    (key name : Name) (set : ColumnSet)
    → name_less key name ≡ true
    → IsAbove key set
    → IsAbove key (put_name name set)
unfolding put_name
put_name-IsAbove key name [] less h = (less, tt)
put_name-IsAbove key name (next ∷ set) less (first, h) = elim (Bool-cases (same_name name next)) [
  | inl same ↦ rw (same, put_name) (first, h)
  | inr differs ↦ elim (Bool-cases (name_less name next)) [
    | inl smaller ↦ rw (differs, put_name, smaller) (less, (smaller, h))
    | inr larger ↦
        rw (differs, put_name, larger)
          (first, put_name-IsAbove next name set (name_less-total name next differs larger) h)
  ]
]

put_name-IsIncreasing :
    (name : Name) (set : ColumnSet) → IsIncreasing set → IsIncreasing (put_name name set)
unfolding put_name
put_name-IsIncreasing name [] h = tt
put_name-IsIncreasing name (next ∷ set) h = elim (Bool-cases (same_name name next)) [
  | inl same ↦ rw (same, put_name) h
  | inr differs ↦ elim (Bool-cases (name_less name next)) [
    | inl smaller ↦ rw (differs, put_name, smaller) (smaller, h)
    | inr larger ↦
        rw (differs, put_name, larger)
          (put_name-IsAbove next name set (name_less-total name next differs larger) h)
  ]
]

or_twice : (a b : Bool) → (a || b) ≡ (a || (a || b))
or_twice true b = refl
or_twice false b = refl

or_swap : (a b c : Bool) → (a || (b || c)) ≡ (b || (a || c))
or_swap true true c = refl
or_swap true false c = refl
or_swap false b c = refl

is_in-put_name :
    (other name : Name) (set : ColumnSet)
    → is_in other (put_name name set) ≡ (same_name other name || is_in other set)
unfolding put_name is_in
is_in-put_name other name [] = refl
is_in-put_name other name (key ∷ set) = elim (Bool-cases (same_name name key)) [
  | inl same ↦
      rw (same, put_name)
        (or_twice (same_name other key) (is_in other set)
          ∙ ap (λ (n : Name). same_name other n || (same_name other key || is_in other set))
              (sym (same_name_lem name key same)))
  | inr differs ↦ elim (Bool-cases (name_less name key)) [
    | inl smaller ↦ rw (differs, put_name, smaller)
    | inr larger ↦
        rw (differs, put_name, larger)
          (ap (λ (b : Bool). same_name other key || b) (is_in-put_name other name set)
            ∙ or_swap (same_name other key) (same_name other name) (is_in other set))
  ]
]

-- What adding leaves: an increasing set of the names that were there and those that are added.
abbrev pub IsAdded : Run ColumnSet → (Name → Bool) → ColumnSet → Type 0
IsAdded r added set =
    (set' : ColumnSet) × (r ≡ ok set')
    × IsIncreasing set'
    × ((name : Name) → is_in name set' ≡ (added name || is_in name set))

add_own_lem :
    (type : ExprType) (name : Option Name) (set : ColumnSet)
    → HasName type name
    → IsIncreasing set
    → IsAdded (add_own type name set) (is_own type name) set
unfolding add_own is_own
add_own_lem column_ref none set named h = absurd (named refl)
add_own_lem column_ref (some name) set named h = (
  put_name name set,
  refl,
  put_name-IsIncreasing name set h,
  λ other. is_in-put_name other name set,
)
add_own_lem literal_float name set named h = (set, refl, h, λ other. refl)
add_own_lem literal_string name set named h = (set, refl, h, λ other. refl)
add_own_lem literal_int name set named h = (set, refl, h, λ other. refl)
add_own_lem star name set named h = (set, refl, h, λ other. refl)
add_own_lem placeholder name set named h = (set, refl, h, λ other. refl)
add_own_lem function_ref name set named h = (set, refl, h, λ other. refl)
add_own_lem operator name set named h = (set, refl, h, λ other. refl)

or_assoc : (a b c : Bool) → (b || (a || c)) ≡ ((a || b) || c)
or_assoc true true c = refl
or_assoc true false c = refl
or_assoc false b c = refl

add_column_lem :
    (expr : Expr) (set : ColumnSet)
    → IsNamed expr
    → IsIncreasing set
    → IsAdded (add_column expr set) (λ name. names name expr) set
unfolding add_column names
add_column_lem null set named h = (set, refl, h, λ other. refl)
add_column_lem (node f expr expr2) set (own, (left, right)) h =
    let (set₁, e₁, h₁, in₁) = add_own_lem f.type f.name set own h in
    let (set₂, e₂, h₂, in₂) = add_column_lem expr set₁ left h₁ in
    let (set₃, e₃, h₃, in₃) = add_column_lem expr2 set₂ right h₂ in
    (
      set₃,
      rw (e₁, e₂, e₃),
      h₃,
      λ other.
          let a = is_own f.type f.name other in
          let b = names other expr in
          let c = names other expr2 in
          in₃ other
          ∙ ap (λ (t : Bool). c || t) (in₂ other ∙ ap (λ (t : Bool). b || t) (in₁ other))
          ∙ ap (λ (t : Bool). c || t) (or_assoc a b (is_in other set))
          ∙ or_assoc (a || b) c (is_in other set)
          ∙ ap (λ (t : Bool). t || is_in other set) (left_assoc a b c),
    )
  where
    left_assoc : (a b c : Bool) → ((a || b) || c) ≡ (a || (b || c))
    left_assoc true b c = refl
    left_assoc false b c = refl

-- For expressions that are not NULL and whose column references have names: addColumn on one after the other gathers
-- every column that one of them names, at whatever depth, besides those that were gathered before,
-- and no other, each once and in the order of their names.
pub add_columns-names_any :
    (exprs : List Expr) (set : ColumnSet)
    → All IsAddable exprs
    → IsIncreasing set
    → (set' : ColumnSet) × (add_columns exprs set ≡ ok set')
      × IsIncreasing set'
      × ((name : Name) → is_in name set' ≡ (names_any name exprs || is_in name set))
unfolding add_columns names_any
add_columns-names_any [] set named h = (set, refl, h, λ other. refl)
add_columns-names_any (null ∷ exprs) set (here, named) h = absurd here
add_columns-names_any (node f left right ∷ exprs) set (here, named) h =
    let expr = node f left right in
    let (set₁, e₁, h₁, in₁) = add_column_lem expr set here h in
    let (set₂, e₂, h₂, in₂) = add_columns-names_any exprs set₁ named h₁ in
    (
      set₂,
      rw e₁ e₂,
      h₂,
      λ other.
          in₂ other
          ∙ ap (λ (t : Bool). names_any other exprs || t) (in₁ other)
          ∙ or_assoc (names other expr) (names_any other exprs) (is_in other set),
    )
