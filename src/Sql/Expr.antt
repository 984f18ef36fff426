-- ===== src/Sql/Expr.antt =====
-- src/frontend/sql/Expr.h and Expr.cpp: expressions, and the columns that they name.
pub mod Names
use tengdb.Common.{ℕ, ◌==◌, ltb, Bool, true, false, List, [], ◌∷◌, Option, none, some, ◌||◌, ◌&&◌}
use tengdb.Common.{if◌then◌else◌}
use tengdb.Common.Int.{ℤ, pos}
use tengdb.Common.Name.{Name, same_name}
use tengdb.Common.Run.{Run, ok, fault, outside, ◌>>>◌}

pub data ExprType : Type 0 where
  literal_float literal_string literal_int star placeholder column_ref : ExprType
  function_ref operator : ExprType

pub data OperatorType : Type 0 where
  simple_op not_equals less_eq greater_eq like not_like op_and op_or : OperatorType
  op_not uminus isnull : OperatorType

-- The members but the two pointers to expressions. `none` is NULL for a string and stands for what
-- the constructor leaves uninitialised for the others; a float is kept by its bits.
pub record Fields : Type 0 where
  pub type : ExprType
  pub name : Option Name
  pub table : Option Name
  pub alias : Option Name
  pub fval : Option ℕ
  pub ival : Option ℤ
  pub op_type : Option OperatorType
  pub op_char : Option ℕ
  pub distinct : Option Bool

-- `node f expr expr2`, and `null` is NULL.
pub data Expr : Type 0 where
  null : Expr
  node : Fields → Expr → Expr → Expr

-- The constructor.
unfoldable pub new_fields : ExprType → Fields
new_fields type = record {
  type = type;
  name = none;
  table = none;
  alias = none;
  fval = none;
  ival = none;
  op_type = none;
  op_char = none;
  distinct = none;
}

unfoldable pub make_op_unary : OperatorType → Expr → Expr
make_op_unary op expr = node (record (new_fields operator) { op_type = some op }) expr null

unfoldable pub make_op_binary : Expr → OperatorType → Expr → Expr
make_op_binary expr1 op expr2 =
    node (record (new_fields operator) { op_type = some op; op_char = some 0 }) expr1 expr2

unfoldable pub make_simple_binary : Expr → ℕ → Expr → Expr
make_simple_binary expr1 op expr2 =
    node (record (new_fields operator) { op_type = some simple_op; op_char = some op }) expr1 expr2

unfoldable pub make_literal_int : ℤ → Expr
make_literal_int val = node (record (new_fields literal_int) { ival = some val }) null null

-- `value` is the bits of the float that the double is narrowed to.
unfoldable pub make_literal_float : ℕ → Expr
make_literal_float value = node (record (new_fields literal_float) { fval = some value }) null null

unfoldable pub make_literal_string : Option Name → Expr
make_literal_string string = node (record (new_fields literal_string) { name = string }) null null

unfoldable pub make_column_ref : Option Name → Expr
make_column_ref name = node (record (new_fields column_ref) { name = name }) null null

unfoldable pub make_table_column_ref : Option Name → Option Name → Expr
make_table_column_ref table name =
    node (record (new_fields column_ref) { name = name; table = table }) null null

unfoldable pub make_function_ref : Option Name → Expr → Bool → Expr
make_function_ref func_name expr distinct =
    node (record (new_fields function_ref) { name = func_name; distinct = some distinct }) expr null

unfoldable pub make_placeholder : ℤ → Expr
make_placeholder id = node (record (new_fields placeholder) { ival = some id }) null null

unfoldable pub is_literal : Fields → Bool
is_literal f = elim f.type [
  | literal_int ↦ true
  | literal_float ↦ true
  | literal_string ↦ true
  | placeholder ↦ true
  | _ ↦ false
]

unfoldable pub is_given : Option Name → Bool
is_given none = false
is_given (some name) = true

unfoldable pub has_alias : Fields → Bool
has_alias f = is_given f.alias

unfoldable pub has_table : Fields → Bool
has_table f = is_given f.table

unfoldable pub get_name : Fields → Option Name
get_name f = elim f.alias [ none ↦ f.name | some alias ↦ some alias ]

-- std::map<std::string, bool> whose values are all true: its keys in their order.
abbrev pub ColumnSet : Type 0
ColumnSet = List Name

-- `<` on std::string.
unfoldable pub name_less : Name → Name → Bool
name_less name [] = false
name_less [] (y ∷ ys) = true
name_less (x ∷ xs) (y ∷ ys) = elim (x == y) [ true ↦ name_less xs ys | false ↦ ltb x y ]

-- `(*colmap)[name] = true`
unfoldable pub put_name : Name → ColumnSet → ColumnSet
put_name name [] = name ∷ []
put_name name (key ∷ keys) = elim (same_name name key) [
  | true ↦ key ∷ keys
  | false ↦ elim (name_less name key) [
    | true ↦ name ∷ key ∷ keys
    | false ↦ key ∷ put_name name keys
  ]
]

-- A string is made of NULL where the name is not given.
unfoldable pub add_own : ExprType → Option Name → ColumnSet → Run ColumnSet
add_own column_ref none colmap = fault outside
add_own column_ref (some name) colmap = ok (put_name name colmap)
add_own _ name colmap = ok colmap

unfoldable pub add_column : Expr → ColumnSet → Run ColumnSet
add_column null colmap = ok colmap
add_column (node f expr expr2) colmap =
    add_own f.type f.name colmap >>> λ colmap'. add_column expr colmap' >>> add_column expr2

-- `for(Expr *expr:list) expr->addColumn(&columns);`, which reads members of every element.
unfoldable pub add_columns : List Expr → ColumnSet → Run ColumnSet
add_columns [] colmap = ok colmap
add_columns (null ∷ exprs) colmap = fault outside
add_columns (node f expr expr2 ∷ exprs) colmap =
    add_column (node f expr expr2) colmap >>> add_columns exprs
