-- ===== src/Sql/Quote/Tests.antt =====
-- quotename.go and its statements at inputs of quotename_test.go, and the theorems at such inputs.
use mssql_k8s_operator.Prelude.{
  ℕ, ◌≡◌, refl, ◌∷◌, ◌++◌, some, arith, true, false, ◌&&◌, ◌-◌, if◌then◌else◌, leb,
}
use mssql_k8s_operator.Sql.Quote.{
  code_points, has_prefix, split_two, quote_name, quote_string, replace_all,
  quote_permission_target, is_valid_permission, member,
}
use mssql_k8s_operator.Sql.Quote.Names.{
  read_name, read_literal, read_name-quote_name, read_literal-quote_string,
}
use mssql_k8s_operator.Sql.Quote.Targets.{
  grant_statement, quote_permission_target_quoted, grant_statement_bare,
}

-- `unicode.ToUpper` on ASCII letters
abbrev upper : ℕ → ℕ
upper c = if leb b'a' c && leb c b'z' then c - 32 else c

quoted_bracket : quote_name (code_points "te]st") ≡ code_points "[te]]st]"
unfolding quote_name replace_all
quoted_bracket = refl

quoted_quote : quote_string (code_points "it's") ≡ code_points "N'it''s'"
unfolding quote_string replace_all
quoted_quote = refl

quoted_schema :
    quote_permission_target upper (code_points "schema::app") ≡ code_points "SCHEMA::[app]"
unfolding quote_permission_target quote_name split_two has_prefix replace_all
quoted_schema = refl

quoted_object :
    quote_permission_target upper (code_points "OBJECT::dbo.users")
    ≡ code_points "OBJECT::[dbo].[users]"
unfolding quote_permission_target quote_name split_two has_prefix replace_all
quoted_object = refl

permissions_known :
    (is_valid_permission upper (code_points "view definition") ≡ true)
    × (is_valid_permission upper (code_points "DROP") ≡ false)
unfolding is_valid_permission member
permissions_known = (refl, refl)

read_name-quote_name_example :
    read_name (quote_name (code_points "a]; DROP") ++ code_points " x")
    ≡ some (code_points "a]; DROP", code_points " x")
read_name-quote_name_example =
    read_name-quote_name (code_points "a]; DROP") (code_points " x") (omega arith)

read_literal-quote_string_example :
    read_literal (quote_string (code_points "o'; --") ++ code_points ")")
    ≡ some (code_points "o'; --", code_points ")")
read_literal-quote_string_example =
    read_literal-quote_string (code_points "o'; --") (code_points ")") (omega arith)

quote_permission_target_quoted_example :
    (quote_permission_target upper (code_points "schema::app")
      ≡ code_points "SCHEMA::" ++ quote_name (code_points "app"))
    × (quote_permission_target upper (code_points "schema::app.t")
        ≡ code_points "SCHEMA::"
          ++ (quote_name (code_points "app") ++ (b'.' ∷ quote_name (code_points "t"))))
quote_permission_target_quoted_example =
    quote_permission_target_quoted upper (code_points "schema") (code_points "app")
      (code_points "t") (omega arith) (omega arith)

grant_statement_bare_example :
    grant_statement upper (code_points "select") (code_points "X; DROP TABLE T--") (code_points "u")
    ≡ some (code_points "GRANT SELECT ON X; DROP TABLE T-- TO " ++ quote_name (code_points "u"))
unfolding is_valid_permission member
grant_statement_bare_example =
    grant_statement_bare upper (code_points "select") (code_points "X; DROP TABLE T--")
      (code_points "u") (omega arith) refl
