-- ===== src/Common/Name.antt =====
-- Names as std::string holds them: the list of the characters.
use Prim.Native.Nat.{ℕ}
use mathlib.Core.Path.{◌≡◌, refl, sym, ap, ◌∙◌}
use mathlib.Core.Bool.{Bool, true, false}
use mathlib.Core.List.{List, [], ◌∷◌}
use mathlib.Core.Option.{Option, some}
use native.Mathlib.Omega.{arith}
use tengdb.Common.Tests.{◌==◌, Bool-cases}
use mathlib.Core.Logic.{inl, inr}

abbrev pub Name : Type 0
Name = List ℕ

-- `==` on std::string.
unfoldable pub same_name : Name → Name → Bool
same_name [] [] = true
same_name [] (y ∷ ys) = false
same_name (x ∷ xs) [] = false
same_name (x ∷ xs) (y ∷ ys) = elim (x == y) [ true ↦ same_name xs ys | false ↦ false ]

pub same_name_self : (name : Name) → same_name name name ≡ true
unfolding same_name
same_name_self [] = refl
same_name_self (c ∷ name) =
    let e : (c == c) ≡ true = ground arith in rw (e, same_name, same_name_self name)

pub same_name_lem : (a b : Name) → same_name a b ≡ true → a ≡ b
unfolding same_name
same_name_lem [] [] h = refl
same_name_lem [] (y ∷ ys) h = absurd (cc)
same_name_lem (x ∷ xs) [] h = absurd (cc)
same_name_lem (x ∷ xs) (y ∷ ys) h = elim (Bool-cases (x == y)) [
  | inl e ↦
      let here : x ≡ y = ground arith in
      let rest : same_name xs ys ≡ true =
        sym (ap (λ (b : Bool). elim b [ true ↦ same_name xs ys | false ↦ false ]) e) ∙ h in
      ap (λ (c : ℕ). c ∷ xs) here ∙ ap (λ (l : Name). y ∷ l) (same_name_lem xs ys rest)
  | inr e ↦
      let no : false ≡ true =
        sym (ap (λ (b : Bool). elim b [ true ↦ same_name xs ys | false ↦ false ]) e) ∙ h in
      absurd (cc)
]

-- std::map from names; `none` is a name that is not in it.
abbrev pub Dict : Type 0 → Type 0
Dict A = Name → Option A

-- `dict[name] = a`
unfoldable pub put : {A : Type 0} → Dict A → Name → A → Dict A
put dict name a other = elim (same_name name other) [ true ↦ some a | false ↦ dict other ]

pub put_same :
    {A : Type 0} (dict : Dict A) (name : Name) (a : A) (other : Name)
    → same_name name other ≡ true
    → put dict name a other ≡ some a
unfolding put
put_same dict name a other h = rw (h, put)

pub put_other :
    {A : Type 0} (dict : Dict A) (name : Name) (a : A) (other : Name)
    → same_name name other ≡ false
    → put dict name a other ≡ dict other
unfolding put
put_other dict name a other h = rw (h, put)
