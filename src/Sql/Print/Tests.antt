-- ===== src/Sql/Print/Tests.antt =====
-- src/frontend/sqlhelper.cpp: the lines of `SELECT a + 1 FROM t, (SELECT a FROM u) AS v WHERE a`.
use tengdb.Common.{ℕ, ◌≡◌, refl, false, [], ◌∷◌, none, some}
use tengdb.Common.Int.{pos}
use tengdb.Common.Name.{Name}
use tengdb.Common.Run.{ok, fault, outside}
use tengdb.Sql.Expr.{
  null, node, make_column_ref, make_simple_binary, make_literal_int, make_function_ref, ExprType,
  new_fields,
}
use tengdb.Sql.Print.{
  Line, Text, inprint, print_name, print_member, print_alias, print_operator, argument_name,
  is_null_expr, print_case, print_expression, print_expressions, label, string, number, character,
}
use tengdb.Sql.Print.{select_label, fields_label, sources, search_conditions, alias_label}
use tengdb.Sql.Print.Outline.{Yields}
use tengdb.Common.{true}
use tengdb.Sql.Print.Statements.{
  by_name, by_select, by_list, no_tables, one_more, SelectInfo, null_select, select_info,
  is_null_select, print_list, print_where, print_order, print_limit, print_table, print_tables,
  print_select, select_statement, print_statement,
}
use tengdb.Sql.Print.Whole.{print_statement-IsUnder}
use tengdb.Sql.Print.Complete.{IsPrintableStatement, IsUnder, heading_of}

abbrev a : Name
a = 97 ∷ []

abbrev inner : SelectInfo
inner =
    select_info (some (make_column_ref (some a) ∷ [])) (by_name (some (117 ∷ [])) none) null
      null_select none none

abbrev outer : SelectInfo
outer =
    select_info
      (some (make_simple_binary (make_column_ref (some a)) 43 (make_literal_int (pos 1)) ∷ []))
      (by_list
        (one_more (by_name (some (116 ∷ [])) none)
          (one_more (by_select inner (some (118 ∷ []))) no_tables))
        none)
      (make_column_ref (some a)) null_select none none

abbrev at : ℕ → Text → Line
at n text = record { tabs = n; text = text }

printed :
    print_statement (select_statement outer)
    ≡ ok (
        at 0 (label select_label)
        ∷ at 1 (label fields_label)
        ∷ at 2 (character 43)
        ∷ at 3 (string a)
        ∷ at 3 (number (pos 1))
        ∷ at 1 (label sources)
        ∷ at 2 (string (116 ∷ []))
        ∷ at 2 (label select_label)
        ∷ at 3 (label fields_label)
        ∷ at 4 (string a)
        ∷ at 3 (label sources)
        ∷ at 4 (string (117 ∷ []))
        ∷ at 3 (label alias_label)
        ∷ at 4 (string (118 ∷ []))
        ∷ at 1 (label search_conditions)
        ∷ at 2 (string a)
        ∷ [])
unfolding print_statement print_select print_list print_expressions print_expression print_case
    print_operator print_member print_name print_alias print_table print_tables print_where
    print_order print_limit inprint is_null_select is_null_expr make_column_ref make_simple_binary
    make_literal_int new_fields
printed = refl

-- The argument of `COUNT(*)` is printed by its name, which a star does not have.
count_star :
    print_expression
      (make_function_ref (some a) (node (new_fields ExprType.star) null null) false)
      0
    ≡ fault outside
unfolding print_expression print_case print_name inprint argument_name make_function_ref new_fields
count_star = refl

given : IsPrintableStatement (select_statement outer)
unfolding make_column_ref make_simple_binary make_literal_int new_fields is_null_expr is_null_select
given = (((tt, tt, λ _. tt), tt), (tt, (((tt, tt), tt, no, no, tt), tt)), λ _. tt, no, tt)
  where
    no : {A : Type 0} → true ≡ false → A
    no e = absurd (cc)

print_statement-IsUnder_example :
    Yields
      (print_statement (select_statement outer))
      (IsUnder (heading_of (select_statement outer)))
print_statement-IsUnder_example = print_statement-IsUnder (select_statement outer) given
