-- ===== src/Webhook/AvailabilityGroup.antt =====
-- The validator and the defaults of availabilitygroup_webhook.go.
pub mod Accept
use mssql_k8s_operator.Webhook.Objects.{default_port, at_spec}
use mssql_k8s_operator.Webhook.Checks.{
  invalid, forbidden, or_then, duplicate, index, required, errors_of, unexpected_object,
  default_text, child, FieldErrors, FieldError, default_to, PathStep,
}
use mssql_k8s_operator.Api.AvailabilityGroup.{
  secondary_role_no, seeding_mode_automatic, availability_mode_asynchronous,
  failover_mode_automatic, availability_mode_synchronous, AgDatabaseSpec, AgListenerSpec,
  AvailabilityGroup, AgReplicaSpec,
}
use mssql_k8s_operator.Prelude.{
  ltb, ℕ, zero, suc, ◌+◌, ◌-◌, ◌≤◌, ◌<◌, String, Bool, true, false, not, ◌&&◌, ◌||◌, Option, none,
  some, List, [], ◌∷◌, ◌++◌, map, ◌==◌, string_eq, nat_eq, int_eq, bool_eq, ℤ, pos, negsuc,
  if◌then◌else◌, ◌≡◌, ◌≢◌, refl, sym, ap, ◌∙◌, ◌⊎◌, ◌↔◌, inl, inr, arith, eq_iff, All, In,
  Bool-cases, Option-cases, lookup, lookup_or, length, take, drop,
}

unfoldable pub default_replica : AgReplicaSpec → AgReplicaSpec
default_replica r = record r {
  availability_mode = default_text availability_mode_synchronous r.availability_mode;
  failover_mode = default_text failover_mode_automatic r.failover_mode;
  seeding_mode = default_text seeding_mode_automatic r.seeding_mode;
  secondary_role = default_text secondary_role_no r.secondary_role;
  server = default_port r.server;
}

unfoldable pub default_listener : Option AgListenerSpec → Option AgListenerSpec
default_listener none = none
default_listener (some l) = some (record l { port = default_to (pos 1433) l.port })

unfoldable pub default_ag : AvailabilityGroup → AvailabilityGroup
default_ag r = record r {
  spec = record r.spec {
    automated_backup_preference = default_to "Secondary" r.spec.automated_backup_preference;
    db_failover = default_to true r.spec.db_failover;
    replicas = map default_replica r.spec.replicas;
    listener = default_listener r.spec.listener;
  };
}

-- `seen` is the map of the names that the loop has passed.
abbrev pub seen_name : String → List String → Bool
seen_name name [] = false
seen_name name (n ∷ seen) = (name == n) || seen_name name seen

abbrev pub at_replica : ℕ → String → List PathStep
at_replica i field = child "spec" ∷ child "replicas" ∷ index i ∷ child field ∷ []

abbrev pub replica_tests : ℕ → List String → AgReplicaSpec → List (Bool × FieldError)
replica_tests i seen r =
    (r.server_name == "", required (at_replica i "serverName"))
    ∷ (seen_name r.server_name seen, duplicate (at_replica i "serverName"))
    ∷ (r.endpoint_url == "", required (at_replica i "endpointURL"))
    ∷ (r.server.host == "", required (at_replica i "server" ++ (child "host" ∷ [])))
    ∷ (
      r.server.credentials_secret.name == "",
      required (at_replica i "server" ++ (child "credentialsSecret" ∷ child "name" ∷ [])),
    )
    ∷ (
      (r.failover_mode == failover_mode_automatic)
          && (r.availability_mode == availability_mode_asynchronous),
      invalid (at_replica i "failoverMode"),
    )
    ∷ []

unfoldable pub replica_errors : ℕ → List String → List AgReplicaSpec → FieldErrors
replica_errors i seen [] = []
replica_errors i seen (r ∷ rs) =
    errors_of (replica_tests i seen r) ++ replica_errors (suc i) (r.server_name ∷ seen) rs

unfoldable pub database_errors : ℕ → List String → List AgDatabaseSpec → FieldErrors
database_errors i seen [] = []
database_errors i seen (db ∷ dbs) =
    errors_of (
      (db.name == "", required (child "spec" ∷ child "databases" ∷ index i ∷ child "name" ∷ []))
      ∷ (
        seen_name db.name seen,
        duplicate (child "spec" ∷ child "databases" ∷ index i ∷ child "name" ∷ []),
      )
      ∷ [])
    ++ database_errors (suc i) (db.name ∷ seen) dbs

abbrev pub is_listener_unnamed : Option AgListenerSpec → Bool
is_listener_unnamed none = false
is_listener_unnamed (some l) = l.name == ""

unfoldable pub validate_ag : AvailabilityGroup → FieldErrors
validate_ag r =
    errors_of (
      (r.spec.ag_name == "", required (at_spec "agName"))
      ∷ (ltb (length r.spec.replicas) 2, invalid (at_spec "replicas"))
      ∷ [])
    ++ (replica_errors 0 [] r.spec.replicas
        ++ (database_errors 0 [] r.spec.databases
            ++ errors_of (
                (
                  is_listener_unnamed r.spec.listener,
                  required (child "spec" ∷ child "listener" ∷ child "name" ∷ []),
                )
                ∷ [])))

unfoldable pub validate_ag_update : AvailabilityGroup → Option AvailabilityGroup → FieldErrors
unfolding validate_ag
validate_ag_update r none = unexpected_object ∷ []
validate_ag_update r (some old) =
    or_then
      (errors_of ((not (r.spec.ag_name == old.spec.ag_name), forbidden (at_spec "agName")) ∷ []))
      (validate_ag r)
