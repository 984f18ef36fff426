-- ===== src/Sql/Print.antt =====
-- src/frontend/sqlhelper.cpp: the printers of expressions, as the lines that they write.
pub mod Statements
pub mod Outline
pub mod Nested
pub mod Complete
pub mod Whole
mod Tests
use tengdb.Common.{ℕ, ◌+◌, Bool, true, false, List, [], ◌∷◌, ◌++◌, Option, none, some}
use tengdb.Common.Int.{ℤ}
use tengdb.Common.Name.{Name}
use tengdb.Common.Run.{Run, ok, fault, outside, ◌>>>◌}
use tengdb.Sql.Expr.{ExprType, OperatorType, Fields, Expr, null, node}

-- The words that are printed as they are.
pub data Label : Type 0 where
  alias_label and_label or_label not_label star_label : Label
  join_table left_label right_label join_condition : Label
  select_label fields_label sources search_conditions union_label order_by : Label
  ascending descending limit_label : Label
  import_label create_label insert_label columns_label values_label : Label

-- What follows the tabs of a line; a float is kept by its bits.
pub data Text : Type 0 where
  label : Label → Text
  string : Name → Text
  number : ℤ → Text
  float_bits : ℕ → Text
  character : ℕ → Text
  unsigned : ℕ → Text

-- A line with the number of its tabs.
pub record Line : Type 0 where
  pub tabs : ℕ
  pub text : Text

-- `inprint(text, numIndent)`, each overload with a text of its kind; that for two strings has no
-- caller.
unfoldable pub inprint : Text → ℕ → Run (List Line)
inprint text num_indent = ok (record { tabs = num_indent; text = text } ∷ [])

-- A string that is NULL and a member that the constructor left uninitialised fault.
unfoldable pub print_name : Option Name → ℕ → Run (List Line)
print_name none num_indent = fault outside
print_name (some name) num_indent = inprint (string name) num_indent

unfoldable pub print_member : {A : Type 0} → (A → Text) → Option A → ℕ → Run (List Line)
print_member show none num_indent = fault outside
print_member show (some a) num_indent = inprint (show a) num_indent

-- One print after the other.
infixr 20 ◌then_print◌
abbrev pub ◌then_print◌ : Run (List Line) → Run (List Line) → Run (List Line)
a then_print b = a >>> λ lines. b >>> λ more. ok (lines ++ more)

abbrev pub print_nothing : Run (List Line)
print_nothing = ok []

-- `if (alias != NULL)`
unfoldable pub print_alias : Option Name → ℕ → Run (List Line)
print_alias none num_indent = print_nothing
print_alias (some alias) num_indent =
    inprint (label alias_label) (num_indent + 1) then_print inprint (string alias) (num_indent + 2)

-- The number of an operator in its enumeration.
unfoldable pub operator_code : OperatorType → ℕ
operator_code OperatorType.simple_op = 0
operator_code OperatorType.not_equals = 1
operator_code OperatorType.less_eq = 2
operator_code OperatorType.greater_eq = 3
operator_code OperatorType.like = 4
operator_code OperatorType.not_like = 5
operator_code OperatorType.op_and = 6
operator_code OperatorType.op_or = 7
operator_code OperatorType.op_not = 8
operator_code OperatorType.uminus = 9
operator_code OperatorType.isnull = 10

-- The switch of printOperatorExpression. Its caller has read the expression, which is not NULL.
unfoldable pub print_operator : Option OperatorType → Option ℕ → ℕ → Run (List Line)
print_operator none op_char num_indent = fault outside
print_operator (some OperatorType.simple_op) op_char num_indent =
    print_member character op_char num_indent
print_operator (some OperatorType.op_and) op_char num_indent = inprint (label and_label) num_indent
print_operator (some OperatorType.op_or) op_char num_indent = inprint (label or_label) num_indent
print_operator (some OperatorType.op_not) op_char num_indent = inprint (label not_label) num_indent
print_operator (some op) op_char num_indent = inprint (unsigned (operator_code op)) num_indent

-- `expr->expr->name`
unfoldable pub argument_name : Expr → ℕ → Run (List Line)
argument_name null num_indent = fault outside
argument_name (node f expr expr2) num_indent = print_name f.name num_indent

unfoldable pub is_null_expr : Expr → Bool
is_null_expr null = true
is_null_expr (node f expr expr2) = false

-- A case of the switch of printExpression, and the alias behind it; `first` and `second` print the
-- two operands one tab further. An unrecognized type prints nothing here, and no alias.
unfoldable pub print_case :
    ExprType → Fields → Expr → Bool → Run (List Line) → Run (List Line) → ℕ → Run (List Line)
print_case ExprType.star f expr alone first second n =
    inprint (label star_label) n then_print print_alias f.alias n
print_case ExprType.column_ref f expr alone first second n =
    print_name f.name n then_print print_alias f.alias n
print_case ExprType.literal_float f expr alone first second n =
    print_member float_bits f.fval n then_print print_alias f.alias n
print_case ExprType.literal_int f expr alone first second n =
    print_member number f.ival n then_print print_alias f.alias n
print_case ExprType.literal_string f expr alone first second n =
    print_name f.name n then_print print_alias f.alias n
print_case ExprType.function_ref f expr alone first second n =
    print_name f.name n then_print argument_name expr (n + 1) then_print print_alias f.alias n
print_case ExprType.operator f expr alone first second n =
    print_operator f.op_type f.op_char n
    then_print first
    then_print (elim alone [ true ↦ print_nothing | false ↦ second ])
    then_print print_alias f.alias n
print_case ExprType.placeholder f expr alone first second n = print_nothing

unfoldable pub print_expression : Expr → ℕ → Run (List Line)
print_expression null num_indent = fault outside
print_expression (node f expr expr2) num_indent =
    print_case f.type f expr (is_null_expr expr2) (print_expression expr (num_indent + 1))
      (print_expression expr2 (num_indent + 1)) num_indent

unfoldable pub print_expressions : List Expr → ℕ → Run (List Line)
print_expressions [] num_indent = print_nothing
print_expressions (expr ∷ exprs) num_indent =
    print_expression expr num_indent then_print print_expressions exprs num_indent
