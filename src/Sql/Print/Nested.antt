-- ===== src/Sql/Print/Nested.antt =====
-- src/frontend/sqlhelper.cpp: an expression is printed as an outline.
use tengdb.Common.{ℕ, ◌+◌, ◌≡◌, arith, Bool, true, false, List, [], ◌∷◌, Option, none, some}
use tengdb.Common.Name.{Name}
use tengdb.Common.{All}
use tengdb.Common.{refl}
use tengdb.Common.Run.{Run}
use tengdb.Sql.Expr.{Expr, ExprType, OperatorType, Fields, null, node}
use tengdb.Sql.Print.{
  Line, Text, inprint, print_name, print_alias, ◌then_print◌, print_nothing, print_operator,
  argument_name, print_case, print_expression, print_expressions, is_null_expr,
}
use tengdb.Sql.Print.Outline.{
  IsGiven, Prints, Begins, Begins-Prints, Prints-nothing, then-Begins, then-Prints, inprint-Begins,
  print_name-Begins, print_member-Begins, print_alias-Prints,
}

-- Lines one tab deeper behind a print that begins with a line.
pub deeper-Begins :
    (n : ℕ) (a b : Run (List Line)) → Begins n a → Prints (n + 1) b → Begins n (a then_print b)
deeper-Begins n a b h h' = then-Begins n (n + 1) a b (omega arith) (omega arith) h h'

-- Lines beside it.
pub beside-Begins :
    (n : ℕ) (a b : Run (List Line)) → Begins n a → Prints n b → Begins n (a then_print b)
beside-Begins n a b h h' = then-Begins n n a b (omega arith) (omega arith) h h'

-- A label with lines below it.
pub labelled-Begins :
    (n k : ℕ) (text : Text) (b : Run (List Line))
    → k ≡ n + 1
    → Prints k b
    → Begins n (inprint text n then_print b)
labelled-Begins n k text b same h =
    then-Begins n k (inprint text n) b (omega arith) (omega arith) (inprint-Begins text n) h

-- What the code reads of an operator, an argument and an expression is there.
abbrev pub IsOperator : Option OperatorType → Option ℕ → Type 0
IsOperator none op_char = ⊥
IsOperator (some OperatorType.simple_op) op_char = IsGiven op_char
IsOperator (some _) op_char = Unit

abbrev pub IsArgument : Expr → Type 0
IsArgument null = ⊥
IsArgument (node f expr expr2) = IsGiven f.name

-- `A` and `B` are what is asked of the two operands.
abbrev pub CanPrint : ExprType → Fields → Expr → Type 0 → Type 0 → Type 0
CanPrint ExprType.star f expr A B = Unit
CanPrint ExprType.column_ref f expr A B = IsGiven f.name
CanPrint ExprType.literal_float f expr A B = IsGiven f.fval
CanPrint ExprType.literal_int f expr A B = IsGiven f.ival
CanPrint ExprType.literal_string f expr A B = IsGiven f.name
CanPrint ExprType.function_ref f expr A B = IsGiven f.name × IsArgument expr
CanPrint ExprType.operator f expr A B = IsOperator f.op_type f.op_char × A × B
CanPrint ExprType.placeholder f expr A B = Unit

abbrev pub IsPrintable : Expr → Type 0
IsPrintable null = ⊥
IsPrintable (node f expr expr2) =
    CanPrint f.type f expr (IsPrintable expr) (is_null_expr expr2 ≡ false → IsPrintable expr2)

print_operator-Begins :
    (op : Option OperatorType) (op_char : Option ℕ) (n : ℕ)
    → IsOperator op op_char
    → Begins n (print_operator op op_char n)
unfolding print_operator
print_operator-Begins none op_char n given = absurd given
print_operator-Begins (some OperatorType.simple_op) op_char n given =
    print_member-Begins _ op_char n given
print_operator-Begins (some OperatorType.not_equals) op_char n given = inprint-Begins _ n
print_operator-Begins (some OperatorType.less_eq) op_char n given = inprint-Begins _ n
print_operator-Begins (some OperatorType.greater_eq) op_char n given = inprint-Begins _ n
print_operator-Begins (some OperatorType.like) op_char n given = inprint-Begins _ n
print_operator-Begins (some OperatorType.not_like) op_char n given = inprint-Begins _ n
print_operator-Begins (some OperatorType.op_and) op_char n given = inprint-Begins _ n
print_operator-Begins (some OperatorType.op_or) op_char n given = inprint-Begins _ n
print_operator-Begins (some OperatorType.op_not) op_char n given = inprint-Begins _ n
print_operator-Begins (some OperatorType.uminus) op_char n given = inprint-Begins _ n
print_operator-Begins (some OperatorType.isnull) op_char n given = inprint-Begins _ n

argument_name-Begins : (expr : Expr) (n : ℕ) → IsArgument expr → Begins n (argument_name expr n)
unfolding argument_name
argument_name-Begins null n given = absurd given
argument_name-Begins (node f expr expr2) n given = print_name-Begins f.name n given

pub unless-Prints :
    (n : ℕ) (b : Bool) (r : Run (List Line))
    → (b ≡ false → Prints n r)
    → Prints n (elim b [ true ↦ print_nothing | false ↦ r ])
unless-Prints n true r h = Prints-nothing n
unless-Prints n false r h = h refl

aliased-Prints :
    (alias : Option Name) (n : ℕ) (a : Run (List Line))
    → Begins n a
    → Prints n (a then_print print_alias alias n)
aliased-Prints alias n a begins =
    Begins-Prints n _ (deeper-Begins n a _ begins (print_alias-Prints alias n))

print_case-Prints :
    {A B : Type 0} (type : ExprType) (f : Fields) (expr : Expr) (alone : Bool)
    (first second : Run (List Line)) (n : ℕ)
    → (A → Prints (n + 1) first)
    → (B → alone ≡ false → Prints (n + 1) second)
    → CanPrint type f expr A B
    → Prints n (print_case type f expr alone first second n)
unfolding print_case
print_case-Prints ExprType.star f expr alone first second n h h' given =
    aliased-Prints f.alias n _ (inprint-Begins _ n)
print_case-Prints ExprType.column_ref f expr alone first second n h h' given =
    aliased-Prints f.alias n _ (print_name-Begins f.name n given)
print_case-Prints ExprType.literal_float f expr alone first second n h h' given =
    aliased-Prints f.alias n _ (print_member-Begins _ f.fval n given)
print_case-Prints ExprType.literal_int f expr alone first second n h h' given =
    aliased-Prints f.alias n _ (print_member-Begins _ f.ival n given)
print_case-Prints ExprType.literal_string f expr alone first second n h h' given =
    aliased-Prints f.alias n _ (print_name-Begins f.name n given)
print_case-Prints ExprType.function_ref f expr alone first second n h h' given = Begins-Prints n _ (
    deeper-Begins n (print_name f.name n) _ (print_name-Begins f.name n given.0) (
      then-Prints (n + 1) (argument_name expr (n + 1)) _
        (Begins-Prints (n + 1) _ (argument_name-Begins expr (n + 1) given.1))
        (print_alias-Prints f.alias n)))
print_case-Prints ExprType.operator f expr alone first second n h h' given = Begins-Prints n _ (
    deeper-Begins n (print_operator f.op_type f.op_char n) _
      (print_operator-Begins f.op_type f.op_char n given.0)
      (then-Prints (n + 1) first _ (h given.1) (
        then-Prints (n + 1) _ _ (unless-Prints (n + 1) alone second (h' given.2))
          (print_alias-Prints f.alias n))))
print_case-Prints ExprType.placeholder f expr alone first second n h h' given = Prints-nothing n

pub print_expression-Prints :
    (expr : Expr) (n : ℕ) → IsPrintable expr → Prints n (print_expression expr n)
unfolding print_expression
print_expression-Prints null n given = absurd given
print_expression-Prints (node f expr expr2) n given =
    print_case-Prints f.type f expr (is_null_expr expr2) _ _ n
      (λ h. print_expression-Prints expr (n + 1) h)
      (λ h some_expr. print_expression-Prints expr2 (n + 1) (h some_expr)) given

pub print_expressions-Prints :
    (exprs : List Expr) (n : ℕ) → All IsPrintable exprs → Prints n (print_expressions exprs n)
unfolding print_expressions
print_expressions-Prints [] n given = Prints-nothing n
print_expressions-Prints (expr ∷ exprs) n (here, given) =
    then-Prints n (print_expression expr n) _ (print_expression-Prints expr n here)
      (print_expressions-Prints exprs n given)
