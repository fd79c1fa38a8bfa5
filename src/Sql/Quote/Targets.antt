-- ===== src/Sql/Quote/Targets.antt =====
-- quotename.go, `QuotePermissionTarget`, and the statements of client.go that use it.
use mssql_k8s_operator.Prelude.{
  if◌then◌else◌, true, map, Option, ℕ, ◌≡◌, ◌≢◌, refl, [], ◌∷◌, ◌++◌, none, some, arith, nat_eq,
  All,
}
use mssql_k8s_operator.Sql.Quote.{
  quote_name, is_valid_permission, quote_permission_target, Text, code_points, has_prefix,
  split_two,
}

abbrev pub Lacks : ℕ → Text → Type 0
Lacks b = All (λ c. c ≢ b)

-- The first `::` is found right behind a scope that holds no colon.
split_two-colons :
    (scope name : Text)
    → Lacks b':' scope
    → split_two (code_points "::") (scope ++ (code_points "::" ++ name)) ≡ some (scope, name)
unfolding split_two has_prefix
split_two-colons [] name h = ground arith
split_two-colons (c ∷ scope) name h = ground (arith, split_two-colons scope name h.1)

split_two-no_colons : (s : Text) → Lacks b':' s → split_two (code_points "::") s ≡ none
unfolding split_two has_prefix
split_two-no_colons [] h = refl
split_two-no_colons (c ∷ s) h = ground (arith, split_two-no_colons s h.1)

split_two-dot :
    (schema object : Text)
    → Lacks b'.' schema
    → split_two (code_points ".") (schema ++ (b'.' ∷ object)) ≡ some (schema, object)
unfolding split_two has_prefix
split_two-dot [] object h = ground arith
split_two-dot (c ∷ schema) object h = ground (arith, split_two-dot schema object h.1)

split_two-no_dot : (s : Text) → Lacks b'.' s → split_two (code_points ".") s ≡ none
unfolding split_two has_prefix
split_two-no_dot [] h = refl
split_two-no_dot (c ∷ s) h = ground (arith, split_two-no_dot s h.1)

-- `fmt.Sprintf("GRANT %s ON %s TO %s", …)` behind the check of the permission's name; `none` is the
-- error "invalid permission".
module _ (upper : ℕ → ℕ) where
  unfoldable pub grant_statement : Text → Text → Text → Option Text
  grant_statement permission target user =
      if is_valid_permission upper permission
      then some (
          code_points "GRANT "
          ++ (map upper permission
              ++ (code_points " ON "
                  ++ (quote_permission_target upper target
                      ++ (code_points " TO " ++ quote_name user)))))
      else none

  unfoldable pub deny_statement : Text → Text → Text → Option Text
  deny_statement permission target user =
      if is_valid_permission upper permission
      then some (
          code_points "DENY "
          ++ (map upper permission
              ++ (code_points " ON "
                  ++ (quote_permission_target upper target
                      ++ (code_points " TO " ++ quote_name user)))))
      else none

  unfoldable pub revoke_statement : Text → Text → Text → Option Text
  revoke_statement permission target user =
      if is_valid_permission upper permission
      then some (
          code_points "REVOKE "
          ++ (map upper permission
              ++ (code_points " ON "
                  ++ (quote_permission_target upper target
                      ++ (code_points " FROM " ++ quote_name user)))))
      else none

  -- A target is written with each of its names delimited: after a scope with no colon, a name with
  -- no dot is one identifier, and a name with a dot is split at its first dot into two.
  pub quote_permission_target_quoted :
      (scope schema object : Text)
      → Lacks b':' scope
      → Lacks b'.' schema
      → (quote_permission_target upper (scope ++ (code_points "::" ++ schema))
          ≡ map upper scope ++ (code_points "::" ++ quote_name schema))
        × (quote_permission_target upper
              (scope ++ (code_points "::" ++ (schema ++ (b'.' ∷ object))))
            ≡ map upper scope
              ++ (code_points "::" ++ (quote_name schema ++ (b'.' ∷ quote_name object))))
  unfolding quote_permission_target
  quote_permission_target_quoted scope schema object hs hd = (
    ground (arith, split_two-colons scope schema hs, split_two-no_dot schema hd),
    ground (
      arith,
      split_two-colons scope (schema ++ (b'.' ∷ object)) hs,
      split_two-dot schema object hd,
    ),
  )

  -- A target with no colon goes into the statement in upper case and nothing else is done to it:
  -- it is neither delimited nor compared with the keyword DATABASE.
  pub grant_statement_bare :
      (permission target user : Text)
      → Lacks b':' target
      → is_valid_permission upper permission ≡ true
      → grant_statement permission target user
        ≡ some (
            code_points "GRANT "
            ++ (map upper permission
                ++ (code_points " ON "
                    ++ (map upper target ++ (code_points " TO " ++ quote_name user)))))
  unfolding grant_statement quote_permission_target
  grant_statement_bare permission target user h valid = ground (arith, split_two-no_colons target h)
