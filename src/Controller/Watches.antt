-- ===== src/Controller/Watches.antt =====
-- The functions mapSecretTo* of internal/controller/helpers.go and sqlserver_controller.go: which
-- objects are reconciled when a secret changes. The argument `list` is c.List: of a namespace, or, for
-- the SQLServers, of all.
use mssql_k8s_operator.Prelude.{
  String, Bool, true, false, none, some, List, [], ◌∷◌, ◌==◌, string_eq, nat_eq, int_eq, bool_eq,
  if◌then◌else◌, ◌||◌, ◌&&◌,
}
use mssql_k8s_operator.Api.Meta.{ObjectMeta, ServerReference}
use mssql_k8s_operator.Api.Objects.{Database, Login, DatabaseUser, Schema, Permission}
use mssql_k8s_operator.Api.Backups.{Backup, Restore}
use mssql_k8s_operator.Api.AvailabilityGroup.{AvailabilityGroup, AgReplicaSpec}
use mssql_k8s_operator.Api.SqlServer.{SqlServer}
use mssql_k8s_operator.Controller.Effect.{Result, ok, err}
pub mod Covered
pub mod Tests

-- reconcile.Request
pub record Request : Type 0 where
  pub name : String
  pub namespace : String

abbrev pub request_of : ObjectMeta → Request
request_of meta = record { name = meta.name; namespace = meta.namespace }

-- the loop over the items
unfoldable pub requests_for :
    {Object : Type 0} → (Object → ObjectMeta) → (Object → Bool) → List Object → List Request
requests_for meta uses [] = []
requests_for meta uses (o ∷ os) =
    let rest = requests_for meta uses os in if uses o then request_of (meta o) ∷ rest else rest

-- without the list, no requests
abbrev pub requests_of_list :
    {Object : Type 0}
    → (Object → ObjectMeta)
    → (Object → Bool)
    → Result (List Object)
    → List Request
requests_of_list meta uses (ok items) = requests_for meta uses items
requests_of_list meta uses (err e) = []

abbrev pub is_secret_of : String → ServerReference → Bool
is_secret_of secret server = server.credentials_secret.name == secret

-- the loop over the replicas, left at the first that uses the secret
unfoldable pub is_replica_secret : String → List AgReplicaSpec → Bool
is_replica_secret secret [] = false
is_replica_secret secret (r ∷ rs) =
    let rest = is_replica_secret secret rs in if is_secret_of secret r.server then true else rest

-- A SQLServer may name a secret of another namespace.
abbrev pub is_server_secret : String → String → SqlServer → Bool
is_server_secret namespace secret server = elim server.spec.credentials_secret [
  | none ↦ false
  | some c ↦
      (c.name == secret)
      && ((elim c.namespace [ none ↦ server.meta.namespace | some other ↦ other ]) == namespace)
]

module _ {W : Type 0} where
  -- what the functions have in common
  unfoldable pub map_secret :
      {Object : Type 0}
      → (Object → ObjectMeta)
      → (Object → Bool)
      → (W → Result (List Object) × W)
      → W
      → List Request × W
  map_secret meta uses list w =
      let (items, after) = list w in (requests_of_list meta uses items, after)

  unfoldable pub map_secret_to_databases :
      (String → W → Result (List Database) × W) → String → String → W → List Request × W
  unfolding map_secret
  map_secret_to_databases list namespace secret =
      map_secret (λ d. d.meta) (λ d. is_secret_of secret d.spec.server) (list namespace)

  unfoldable pub map_secret_to_logins :
      (String → W → Result (List Login) × W) → String → String → W → List Request × W
  unfolding map_secret
  map_secret_to_logins list namespace secret =
      map_secret (λ l. l.meta)
        (λ l. is_secret_of secret l.spec.server || (l.spec.password_secret.name == secret))
        (list namespace)

  unfoldable pub map_secret_to_database_users :
      (String → W → Result (List DatabaseUser) × W) → String → String → W → List Request × W
  unfolding map_secret
  map_secret_to_database_users list namespace secret =
      map_secret (λ u. u.meta) (λ u. is_secret_of secret u.spec.server) (list namespace)

  unfoldable pub map_secret_to_schemas :
      (String → W → Result (List Schema) × W) → String → String → W → List Request × W
  unfolding map_secret
  map_secret_to_schemas list namespace secret =
      map_secret (λ s. s.meta) (λ s. is_secret_of secret s.spec.server) (list namespace)

  unfoldable pub map_secret_to_permissions :
      (String → W → Result (List Permission) × W) → String → String → W → List Request × W
  unfolding map_secret
  map_secret_to_permissions list namespace secret =
      map_secret (λ p. p.meta) (λ p. is_secret_of secret p.spec.server) (list namespace)

  unfoldable pub map_secret_to_backups :
      (String → W → Result (List Backup) × W) → String → String → W → List Request × W
  unfolding map_secret
  map_secret_to_backups list namespace secret =
      map_secret (λ b. b.meta) (λ b. is_secret_of secret b.spec.server) (list namespace)

  unfoldable pub map_secret_to_restores :
      (String → W → Result (List Restore) × W) → String → String → W → List Request × W
  unfolding map_secret
  map_secret_to_restores list namespace secret =
      map_secret (λ r. r.meta) (λ r. is_secret_of secret r.spec.server) (list namespace)

  unfoldable pub map_secret_to_ags :
      (String → W → Result (List AvailabilityGroup) × W) → String → String → W → List Request × W
  unfolding map_secret is_replica_secret
  map_secret_to_ags list namespace secret =
      map_secret (λ ag. ag.meta) (λ ag. is_replica_secret secret ag.spec.replicas) (list namespace)

  unfoldable pub map_secret_to_sql_servers :
      (W → Result (List SqlServer) × W) → String → String → W → List Request × W
  unfolding map_secret
  map_secret_to_sql_servers list namespace secret =
      map_secret (λ s. s.meta) (is_server_secret namespace secret) list
