-- ===== src/Webhook/Objects/Accept.antt =====
-- When the validators of Webhook.Objects accept: the fields that an update may not change, and those
-- that must be given.
use mssql_k8s_operator.Prelude.{refl}
use mssql_k8s_operator.Webhook.Checks.{accept_rules}
use mssql_k8s_operator.Api.Meta.{ServerReference}
use mssql_k8s_operator.Api.Objects.{
  PermissionEntry, Permission, Schema, DatabaseUser, Database, Login,
}
use mssql_k8s_operator.Webhook.Objects.{
  entry_errors, validate_permission_update, validate_permission, validate_database,
  validate_database_user_update, validate_login_update, validate_schema_update,
  validate_database_user, validate_schema, validate_database_update, validate_login,
}
use mssql_k8s_operator.Prelude.{
  suc, ◌∷◌, List, All, ℕ, String, some, [], string_eq, nat_eq, int_eq, bool_eq, ◌≡◌, ◌≢◌, ◌↔◌,
}

-- The connection is given in line.
abbrev pub IsServerGiven : ServerReference → Type 0
IsServerGiven server = (server.host ≢ "") × (server.credentials_secret.name ≢ "")

abbrev pub IsServerKept : ServerReference → ServerReference → Type 0
IsServerKept server old =
    (server.host ≡ old.host) × ((server.port ≡ old.port) × (server.tls ≡ old.tls))

abbrev pub IsDatabaseComplete : Database → Type 0
IsDatabaseComplete r = (r.spec.database_name ≢ "") × (IsServerGiven r.spec.server)

pub validate_database_lem : (r : Database) → (validate_database r ≡ []) ↔ IsDatabaseComplete r
unfolding validate_database
validate_database_lem r = search accept_rules depth 14

abbrev pub IsDatabaseKept : Database → Database → Type 0
IsDatabaseKept r old =
    (r.spec.database_name ≡ old.spec.database_name)
    × ((r.spec.collation ≡ old.spec.collation) × (IsServerKept r.spec.server old.spec.server))

-- An update of a Database is accepted exactly when it keeps the name, the collation and the host,
-- port and TLS setting of the server, and the new object has a name, a host and a credentials secret.
pub validate_database_update_lem :
    (r old : Database)
    → (validate_database_update r (some old) ≡ []) ↔ (IsDatabaseKept r old × IsDatabaseComplete r)
unfolding validate_database_update validate_database
validate_database_update_lem r old = search accept_rules depth 18

abbrev pub IsLoginComplete : Login → Type 0
IsLoginComplete r =
    (r.spec.login_name ≢ "")
    × ((r.spec.server.host ≢ "")
        × ((r.spec.server.credentials_secret.name ≢ "") × ((r.spec.password_secret.name ≢ ""))))

pub validate_login_lem : (r : Login) → (validate_login r ≡ []) ↔ IsLoginComplete r
unfolding validate_login
validate_login_lem r = search accept_rules depth 14

abbrev pub IsLoginKept : Login → Login → Type 0
IsLoginKept r old =
    (r.spec.login_name ≡ old.spec.login_name) × (IsServerKept r.spec.server old.spec.server)

-- An update of a Login is accepted exactly when it keeps the name and the host, port and TLS setting
-- of the server, and the new object has a name, a host, a credentials secret and a password secret.
pub validate_login_update_lem :
    (r old : Login)
    → (validate_login_update r (some old) ≡ []) ↔ (IsLoginKept r old × IsLoginComplete r)
unfolding validate_login_update validate_login
validate_login_update_lem r old = search accept_rules depth 18

abbrev pub IsDatabaseUserComplete : DatabaseUser → Type 0
IsDatabaseUserComplete r =
    (r.spec.user_name ≢ "")
    × ((r.spec.database_name ≢ "")
        × ((r.spec.server.host ≢ "")
            × ((r.spec.server.credentials_secret.name ≢ "") × ((r.spec.login_ref.name ≢ "")))))

pub validate_database_user_lem :
    (r : DatabaseUser) → (validate_database_user r ≡ []) ↔ IsDatabaseUserComplete r
unfolding validate_database_user
validate_database_user_lem r = search accept_rules depth 14

abbrev pub IsDatabaseUserKept : DatabaseUser → DatabaseUser → Type 0
IsDatabaseUserKept r old =
    (r.spec.user_name ≡ old.spec.user_name)
    × ((r.spec.database_name ≡ old.spec.database_name)
        × ((r.spec.server.host ≡ old.spec.server.host)
            × ((r.spec.server.port ≡ old.spec.server.port)
                × ((r.spec.server.tls ≡ old.spec.server.tls)
                    × ((r.spec.login_ref.name ≡ old.spec.login_ref.name))))))

-- An update of a DatabaseUser is accepted exactly when it keeps the user, the database, the login
-- reference and the host, port and TLS setting of the server, and the new object has a user, a
-- database, a host, a credentials secret and a login.
pub validate_database_user_update_lem :
    (r old : DatabaseUser)
    → (validate_database_user_update r (some old) ≡ [])
      ↔ (IsDatabaseUserKept r old × IsDatabaseUserComplete r)
unfolding validate_database_user_update validate_database_user
validate_database_user_update_lem r old = search accept_rules depth 18

abbrev pub IsSchemaComplete : Schema → Type 0
IsSchemaComplete r =
    (r.spec.schema_name ≢ "") × ((r.spec.database_name ≢ "") × (IsServerGiven r.spec.server))

pub validate_schema_lem : (r : Schema) → (validate_schema r ≡ []) ↔ IsSchemaComplete r
unfolding validate_schema
validate_schema_lem r = search accept_rules depth 14

abbrev pub IsSchemaKept : Schema → Schema → Type 0
IsSchemaKept r old =
    (r.spec.schema_name ≡ old.spec.schema_name)
    × ((r.spec.database_name ≡ old.spec.database_name)
        × (IsServerKept r.spec.server old.spec.server))

-- An update of a Schema is accepted exactly when it keeps the schema, the database and the host, port
-- and TLS setting of the server, and the new object has a schema, a database, a host and a
-- credentials secret.
pub validate_schema_update_lem :
    (r old : Schema)
    → (validate_schema_update r (some old) ≡ []) ↔ (IsSchemaKept r old × IsSchemaComplete r)
unfolding validate_schema_update validate_schema
validate_schema_update_lem r old = search accept_rules depth 18

abbrev pub IsEntryGiven : PermissionEntry → Type 0
IsEntryGiven g = (g.permission ≢ "") × (g.on ≢ "")

pub entry_errors_lem :
    (list : String) (i : ℕ) (gs : List PermissionEntry)
    → (entry_errors list i gs ≡ []) ↔ All IsEntryGiven gs
entry_errors_lem list i [] = (λ _. tt, λ _. refl)
entry_errors_lem list i (g ∷ gs) =
    let rest = entry_errors_lem list (suc i) gs in search (accept_rules, rest) depth 8

abbrev pub IsPermissionComplete : Permission → Type 0
IsPermissionComplete r =
    ((r.spec.user_name ≢ "") × ((r.spec.database_name ≢ "") × IsServerGiven r.spec.server))
    × (All IsEntryGiven r.spec.grants × All IsEntryGiven r.spec.denies)

pub validate_permission_lem :
    (r : Permission) → (validate_permission r ≡ []) ↔ IsPermissionComplete r
unfolding validate_permission
validate_permission_lem r = search (accept_rules, entry_errors_lem) depth 16

abbrev pub IsPermissionKept : Permission → Permission → Type 0
IsPermissionKept r old =
    (r.spec.user_name ≡ old.spec.user_name)
    × ((r.spec.database_name ≡ old.spec.database_name) × IsServerKept r.spec.server old.spec.server)

-- An update of a Permission is accepted exactly when it keeps the user, the database and the host,
-- port and TLS setting of the server, the new object has a user, a database, a host and a credentials
-- secret, and every grant and denial of it names a permission and a target.
pub validate_permission_update_lem :
    (r old : Permission)
    → (validate_permission_update r (some old) ≡ [])
      ↔ (IsPermissionKept r old × IsPermissionComplete r)
unfolding validate_permission_update validate_permission
validate_permission_update_lem r old = search (accept_rules, entry_errors_lem) depth 20
