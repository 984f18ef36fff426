-- ===== src/Sql/Print/Whole.antt =====
-- src/frontend/sqlhelper.cpp: a whole statement is printed as an outline.
use tengdb.Common.{ℕ, ◌+◌, ◌≡◌, refl, arith, Bool, List, [], ◌∷◌, Option, none, some}
use tengdb.Common.Int.{ℤ}
use tengdb.Common.Name.{Name}
use tengdb.Common.Run.{Run}
use tengdb.Sql.Expr.{Expr}
use tengdb.Sql.Print.{Line, inprint, print_name, ◌then_print◌, print_expression, is_null_expr, Text}
use tengdb.Sql.Print.Outline.{
  Yields, Heads, Heads-Begins, inprint-Heads, IsGiven, Prints, Begins, Begins-Prints,
  Prints-nothing, then-Prints, heading-Begins, inprint-Begins, print_name-Begins,
  print_alias-Prints,
}
use tengdb.Sql.Print.Nested.{
  IsPrintable, deeper-Begins, beside-Begins, labelled-Begins, unless-Prints,
  print_expression-Prints, print_expressions-Prints,
}
use tengdb.Sql.Print.Statements.{
  TableInfo, null_table, by_name, by_select, by_join, by_list, TableInfos, no_tables, one_more,
  SelectInfo, null_select, select_info, is_null_select, print_list, print_where, print_order,
  print_limit, print_table, print_tables, print_select,
}
use tengdb.Sql.Print.Statements.{
  StatementInfo, select_statement, insert_values, insert_select, create_statement, import_statement,
  other_statement, print_import, print_create, print_names, print_columns, print_insert,
  print_statement,
}
use tengdb.Sql.Print.{label, select_label, insert_label}
use tengdb.Common.{All, false}
use tengdb.Sql.Print.Complete.{
  ArePrintable, IsPrintableOrder, IsPrintableTable, ArePrintableTables, IsPrintableSelect, AreGiven,
  IsPrintableStatement, heading_of, IsUnder,
}

print_list-Prints :
    (list : Option (List Expr)) (n : ℕ) → ArePrintable list → Prints n (print_list list n)
unfolding print_list
print_list-Prints none n h = absurd h
print_list-Prints (some exprs) n h = print_expressions-Prints exprs n h

section-Prints :
    (n k : ℕ) (text : Text) (b c : Run (List Line))
    → k ≡ n + 1
    → Prints k b
    → Prints n c
    → Prints n (inprint text n then_print b then_print c)
section-Prints n k text b c same h h' =
    Begins-Prints n _ (heading-Begins n k (inprint text n) b c same (inprint-Begins text n) h h')

print_where-Prints :
    (clause : Expr) (n : ℕ)
    → (is_null_expr clause ≡ false → IsPrintable clause)
    → Prints (n + 1) (print_where clause n)
unfolding print_where
print_where-Prints clause n h = unless-Prints (n + 1) (is_null_expr clause) _ λ some_clause.
    Begins-Prints (n + 1) _ (
      labelled-Begins (n + 1) (n + 2) _ _ (omega arith)
        (print_expression-Prints clause (n + 2) (h some_clause)))

print_order-Prints :
    (order : Option (Bool × Expr)) (n : ℕ)
    → IsPrintableOrder order
    → Prints (n + 1) (print_order order n)
unfolding print_order
print_order-Prints none n h = Prints-nothing (n + 1)
print_order-Prints (some (is_ascending, expr)) n h = Begins-Prints (n + 1) _ (
    labelled-Begins (n + 1) (n + 2) _ _ (omega arith) (
      then-Prints (n + 2) (print_expression expr (n + 2)) (inprint _ (n + 2))
        (print_expression-Prints expr (n + 2) h)
        (Begins-Prints (n + 2) (inprint _ (n + 2)) (inprint-Begins _ (n + 2)))))

print_limit-Prints : (limit : Option ℤ) (n : ℕ) → Prints (n + 1) (print_limit limit n)
unfolding print_limit
print_limit-Prints none n = Prints-nothing (n + 1)
print_limit-Prints (some limit) n = Begins-Prints (n + 1) _ (
    labelled-Begins (n + 1) (n + 2) _ (inprint _ (n + 2)) (omega arith)
      (Begins-Prints (n + 2) (inprint _ (n + 2)) (inprint-Begins _ (n + 2))))

mutual
  unfolding print_table print_tables print_select

  print_table-Begins :
      (table : TableInfo) (n : ℕ) → IsPrintableTable table → Begins n (print_table table n)
  print_table-Begins null_table n h = absurd h
  print_table-Begins (by_name name alias) n h =
      deeper-Begins n (print_name name n) _ (print_name-Begins name n h)
        (print_alias-Prints alias n)
  print_table-Begins (by_select select alias) n h =
      deeper-Begins n (print_select select n) _
        (Heads-Begins _ n (print_select select n) (print_select-Heads select n h))
        (print_alias-Prints alias n)
  print_table-Begins (by_join left right condition alias) n (h, h', h'') =
      deeper-Begins n (inprint _ n) _ (inprint-Begins _ n) (
        section-Prints (n + 1) (n + 2) _ (print_table left (n + 2)) _ (omega arith)
          (Begins-Prints (n + 2) _ (print_table-Begins left (n + 2) h))
          (section-Prints (n + 1) (n + 2) _ (print_table right (n + 2)) _ (omega arith)
            (Begins-Prints (n + 2) _ (print_table-Begins right (n + 2) h'))
            (section-Prints (n + 1) (n + 2) _ (print_expression condition (n + 2)) _ (omega arith)
              (print_expression-Prints condition (n + 2) h'') (print_alias-Prints alias n))))
  print_table-Begins (by_list no_tables alias) n h = absurd h
  print_table-Begins (by_list (one_more table tables) alias) n (here, h) =
      deeper-Begins n (print_tables (one_more table tables) n) _
        (beside-Begins n (print_table table n) _ (print_table-Begins table n here)
          (print_tables-Prints tables n h))
        (print_alias-Prints alias n)

  print_tables-Prints :
      (tables : TableInfos) (n : ℕ) → ArePrintableTables tables → Prints n (print_tables tables n)
  print_tables-Prints no_tables n h = Prints-nothing n
  print_tables-Prints (one_more table tables) n (here, h) = Begins-Prints n _ (
      beside-Begins n (print_table table n) _ (print_table-Begins table n here)
        (print_tables-Prints tables n h))

  print_select-Heads :
      (select : SelectInfo) (n : ℕ)
      → IsPrintableSelect select
      → Heads (label select_label) n (print_select select n)
  print_select-Heads null_select n h = absurd h
  print_select-Heads (select_info list from where_clause union order limit) n
        (fields, table, clause, others, ordered) =
      inprint-Heads (label select_label) n _ (
        section-Prints (n + 1) (n + 2) _ (print_list list (n + 2)) _ (omega arith)
          (print_list-Prints list (n + 2) fields)
          (section-Prints (n + 1) (n + 2) _ (print_table from (n + 2)) _ (omega arith)
            (Begins-Prints (n + 2) _ (print_table-Begins from (n + 2) table))
            (then-Prints (n + 1) _ _ (print_where-Prints where_clause n clause) (
              then-Prints (n + 1) _ _
                (unless-Prints (n + 1) (is_null_select union) _ λ some_union.
                  Begins-Prints (n + 1) _ (
                    labelled-Begins (n + 1) (n + 2) _ (print_select union (n + 2)) (omega arith) (
                      Begins-Prints (n + 2) (print_select union (n + 2)) (
                        Heads-Begins _ (n + 2) (print_select union (n + 2))
                          (print_select-Heads union (n + 2) (others some_union))))))
                (then-Prints (n + 1) _ _ (print_order-Prints order n ordered)
                  (print_limit-Prints limit n))))))

named-Prints : (name : Option Name) (n : ℕ) → IsGiven name → Prints n (print_name name n)
named-Prints name n h = Begins-Prints n _ (print_name-Begins name n h)

print_names-Prints :
    (names : List (Option Name)) (n : ℕ) → All IsGiven names → Prints n (print_names names n)
unfolding print_names
print_names-Prints [] n h = Prints-nothing n
print_names-Prints (name ∷ names) n (here, h) =
    then-Prints n (print_name name n) _ (named-Prints name n here) (print_names-Prints names n h)

print_columns-Prints :
    (columns : Option (List (Option Name))) (n : ℕ)
    → AreGiven columns
    → Prints (n + 1) (print_columns columns n)
unfolding print_columns
print_columns-Prints none n h = Prints-nothing (n + 1)
print_columns-Prints (some columns) n h =
    Begins-Prints (n + 1) _
      (labelled-Begins (n + 1) (n + 2) _ _ (omega arith) (print_names-Prints columns (n + 2) h))

-- A label with two names below it, as CREATE and IMPORT are printed.
two_names-Heads :
    (text : Text) (name name' : Option Name)
    → IsGiven name
    → IsGiven name'
    → Heads text 0 (inprint text 0 then_print print_name name 1 then_print print_name name' 1)
two_names-Heads text name name' h h' =
    inprint-Heads text 0 _
      (then-Prints 1 (print_name name 1) _ (named-Prints name 1 h) (named-Prints name' 1 h'))

print_insert-Heads :
    (table_name : Option Name) (columns : Option (List (Option Name))) (rest : Run (List Line))
    → IsGiven table_name
    → AreGiven columns
    → Prints 1 rest
    → Heads (label insert_label) 0 (print_insert table_name columns rest 0)
unfolding print_insert
print_insert-Heads table_name columns rest h h' printed = inprint-Heads (label insert_label) 0 _ (
    then-Prints 1 (print_name table_name 1) _ (named-Prints table_name 1 h)
      (then-Prints 1 _ _ (print_columns-Prints columns 0 h') printed))

-- Printing a statement in which every string, list and expression that the printers read is there,
-- every number that they read was set and no list of tables is empty does not fault. A select,
-- insert, create or import statement is printed under its word, the first line and the only one
-- without tabs; behind it every line has at most one tab more than the line before it. Of any other
-- statement nothing is printed.
pub print_statement-IsUnder :
    (s : StatementInfo)
    → IsPrintableStatement s
    → Yields (print_statement s) (IsUnder (heading_of s))
unfolding print_statement print_create print_import
print_statement-IsUnder (select_statement stmt) h = print_select-Heads stmt 0 h
print_statement-IsUnder (insert_values table_name columns values) (h, h', h'') =
    print_insert-Heads table_name columns _ h h'
      (Begins-Prints 1 _ (labelled-Begins 1 2 _ _ refl (print_list-Prints values 2 h'')))
print_statement-IsUnder (insert_select table_name columns stmt) (h, h', h'') =
    print_insert-Heads table_name columns _ h h' (
      Begins-Prints 1 (print_select stmt 1)
        (Heads-Begins _ 1 (print_select stmt 1) (print_select-Heads stmt 1 h'')))
print_statement-IsUnder (create_statement table_name file_path) (h, h') =
    two_names-Heads _ table_name file_path h h'
print_statement-IsUnder (import_statement file_path table_name) (h, h') =
    two_names-Heads _ file_path table_name h h'
print_statement-IsUnder other_statement h = refl
