-- ===== src/Webhook/Objects.antt =====
-- The validators and defaults of database_webhook.go, login_webhook.go, databaseuser_webhook.go,
-- schema_webhook.go and permission_webhook.go.
pub mod Accept
use mssql_k8s_operator.Api.Objects.{
  Schema, Database, Permission, Login, PermissionEntry, DatabaseUser,
}
use mssql_k8s_operator.Prelude.{
  ℕ, zero, suc, ◌+◌, ◌-◌, ◌≤◌, ◌<◌, String, Bool, true, false, not, ◌&&◌, ◌||◌, Option, none, some,
  List, [], ◌∷◌, ◌++◌, map, ◌==◌, string_eq, nat_eq, int_eq, bool_eq, ℤ, pos, negsuc, if◌then◌else◌,
  ◌≡◌, ◌≢◌, refl, sym, ap, ◌∙◌, ◌⊎◌, ◌↔◌, inl, inr, arith, eq_iff, All, In, Bool-cases,
  Option-cases, lookup, lookup_or, length, take, drop,
}
use mssql_k8s_operator.Prelude.Int
use mssql_k8s_operator.Api.Objects
use mssql_k8s_operator.Api.Meta.{ServerReference, deletion_policy_retain}
use mssql_k8s_operator.Webhook.Checks.{
  errors_of, or_then, FieldErrors, ptr_equal, FieldError, PathStep, default_to, child, index,
  required, forbidden, unexpected_object,
}

abbrev pub default_port : ServerReference → ServerReference
default_port server = record server { port = default_to (pos 1433) server.port }

unfoldable pub default_database : Database → Database
default_database r = record r {
  spec = record r.spec {
    deletion_policy = default_to deletion_policy_retain r.spec.deletion_policy;
    server = default_port r.spec.server;
  };
}

unfoldable pub default_login : Login → Login
default_login r = record r {
  spec = record r.spec {
    deletion_policy = default_to deletion_policy_retain r.spec.deletion_policy;
    server = default_port r.spec.server;
  };
}

unfoldable pub default_database_user : DatabaseUser → DatabaseUser
default_database_user r = record r { spec = record r.spec { server = default_port r.spec.server } }

unfoldable pub default_schema : Schema → Schema
default_schema r = record r {
  spec = record r.spec {
    deletion_policy = default_to deletion_policy_retain r.spec.deletion_policy;
    server = default_port r.spec.server;
  };
}

unfoldable pub default_permission : Permission → Permission
default_permission r = record r { spec = record r.spec { server = default_port r.spec.server } }

-- the path `spec.a`, and `spec.server.a`
abbrev pub at_spec : String → List PathStep
at_spec field = child "spec" ∷ child field ∷ []

abbrev pub at_server : String → List PathStep
at_server field = child "spec" ∷ child "server" ∷ child field ∷ []

-- the two tests of the connection that every validator here makes
abbrev pub server_tests : ServerReference → List (Bool × FieldError)
server_tests server =
    (server.host == "", required (at_server "host"))
    ∷ (
      server.credentials_secret.name == "",
      required (child "spec" ∷ child "server" ∷ child "credentialsSecret" ∷ child "name" ∷ []),
    )
    ∷ []

-- the three tests of the connection that an update makes
abbrev pub server_changes : ServerReference → ServerReference → List (Bool × FieldError)
server_changes server old =
    (not (server.host == old.host), forbidden (at_server "host"))
    ∷ (not (ptr_equal server.port old.port), forbidden (at_server "port"))
    ∷ (not (ptr_equal server.tls old.tls), forbidden (at_server "tls"))
    ∷ []

unfoldable pub validate_database : Database → FieldErrors
validate_database r =
    errors_of
      ((r.spec.database_name == "", required (at_spec "databaseName")) ∷ server_tests r.spec.server)

-- The old object is `none` when it is not a Database; so for the other kinds.
unfoldable pub validate_database_update : Database → Option Database → FieldErrors
unfolding validate_database
validate_database_update r none = unexpected_object ∷ []
validate_database_update r (some old) =
    or_then
      (errors_of (
        (not (r.spec.database_name == old.spec.database_name), forbidden (at_spec "databaseName"))
        ∷ (not (ptr_equal r.spec.collation old.spec.collation), forbidden (at_spec "collation"))
        ∷ server_changes r.spec.server old.spec.server))
      (validate_database r)

unfoldable pub validate_login : Login → FieldErrors
validate_login r = errors_of (
    (r.spec.login_name == "", required (at_spec "loginName"))
    ∷ (server_tests r.spec.server
        ++ ((
          r.spec.password_secret.name == "",
          required (child "spec" ∷ child "passwordSecret" ∷ child "name" ∷ []),
        )
            ∷ [])))

unfoldable pub validate_login_update : Login → Option Login → FieldErrors
unfolding validate_login
validate_login_update r none = unexpected_object ∷ []
validate_login_update r (some old) =
    or_then
      (errors_of (
        (not (r.spec.login_name == old.spec.login_name), forbidden (at_spec "loginName"))
        ∷ server_changes r.spec.server old.spec.server))
      (validate_login r)

unfoldable pub validate_database_user : DatabaseUser → FieldErrors
validate_database_user r = errors_of (
    (r.spec.user_name == "", required (at_spec "userName"))
    ∷ (r.spec.database_name == "", required (at_spec "databaseName"))
    ∷ (server_tests r.spec.server
        ++ ((
          r.spec.login_ref.name == "",
          required (child "spec" ∷ child "loginRef" ∷ child "name" ∷ []),
        )
            ∷ [])))

unfoldable pub validate_database_user_update : DatabaseUser → Option DatabaseUser → FieldErrors
unfolding validate_database_user
validate_database_user_update r none = unexpected_object ∷ []
validate_database_user_update r (some old) =
    or_then
      (errors_of (
        (not (r.spec.user_name == old.spec.user_name), forbidden (at_spec "userName"))
        ∷ (not (r.spec.database_name == old.spec.database_name), forbidden (at_spec "databaseName"))
        ∷ (server_changes r.spec.server old.spec.server
            ++ ((
              not (r.spec.login_ref.name == old.spec.login_ref.name),
              forbidden (child "spec" ∷ child "loginRef" ∷ child "name" ∷ []),
            )
                ∷ []))))
      (validate_database_user r)

unfoldable pub validate_schema : Schema → FieldErrors
validate_schema r = errors_of (
    (r.spec.schema_name == "", required (at_spec "schemaName"))
    ∷ (r.spec.database_name == "", required (at_spec "databaseName"))
    ∷ server_tests r.spec.server)

unfoldable pub validate_schema_update : Schema → Option Schema → FieldErrors
unfolding validate_schema
validate_schema_update r none = unexpected_object ∷ []
validate_schema_update r (some old) =
    or_then
      (errors_of (
        (not (r.spec.schema_name == old.spec.schema_name), forbidden (at_spec "schemaName"))
        ∷ (not (r.spec.database_name == old.spec.database_name), forbidden (at_spec "databaseName"))
        ∷ server_changes r.spec.server old.spec.server))
      (validate_schema r)

-- The loop over grants or denies, from the entry at index `i`.
abbrev pub entry_errors : String → ℕ → List PermissionEntry → FieldErrors
entry_errors list i [] = []
entry_errors list i (g ∷ gs) =
    errors_of (
      (g.permission == "", required (child "spec" ∷ child list ∷ index i ∷ child "permission" ∷ []))
      ∷ (g.on == "", required (child "spec" ∷ child list ∷ index i ∷ child "on" ∷ []))
      ∷ [])
    ++ entry_errors list (suc i) gs

unfoldable pub validate_permission : Permission → FieldErrors
validate_permission r =
    errors_of (
      (r.spec.user_name == "", required (at_spec "userName"))
      ∷ (r.spec.database_name == "", required (at_spec "databaseName"))
      ∷ server_tests r.spec.server)
    ++ (entry_errors "grants" 0 r.spec.grants ++ entry_errors "denies" 0 r.spec.denies)

unfoldable pub validate_permission_update : Permission → Option Permission → FieldErrors
unfolding validate_permission
validate_permission_update r none = unexpected_object ∷ []
validate_permission_update r (some old) =
    or_then
      (errors_of (
        (not (r.spec.user_name == old.spec.user_name), forbidden (at_spec "userName"))
        ∷ (not (r.spec.database_name == old.spec.database_name), forbidden (at_spec "databaseName"))
        ∷ server_changes r.spec.server old.spec.server))
      (validate_permission r)
