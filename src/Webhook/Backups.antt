-- ===== src/Webhook/Backups.antt =====
-- The validators and defaults of backup_webhook.go, restore_webhook.go, scheduledbackup_webhook.go
-- and agfailover_webhook.go.
pub mod Accept
use mssql_k8s_operator.Webhook.Checks.{
  child, bool_value, is_nil, invalid, or_then, required, forbidden, errors_of, default_text,
  unexpected_object, FieldErrors, default_to,
}
use mssql_k8s_operator.Webhook.Objects.{at_server, server_tests, at_spec, default_port}
use mssql_k8s_operator.Api.Backups.{backup_type_full, Restore, ScheduledBackup, Backup}
use mssql_k8s_operator.Api.AvailabilityGroup.{confirm_data_loss_annotation, AgFailover}
use mssql_k8s_operator.Prelude.{
  ℕ, zero, suc, ◌+◌, ◌-◌, ◌≤◌, ◌<◌, String, Bool, true, false, not, ◌&&◌, ◌||◌, Option, none, some,
  List, [], ◌∷◌, ◌++◌, map, ◌==◌, string_eq, nat_eq, int_eq, bool_eq, ℤ, pos, negsuc, if◌then◌else◌,
  ◌≡◌, ◌≢◌, refl, sym, ap, ◌∙◌, ◌⊎◌, ◌↔◌, inl, inr, arith, eq_iff, All, In, Bool-cases,
  Option-cases, lookup, lookup_or, length, take, drop,
}

unfoldable pub default_backup : Backup → Backup
default_backup r = record r {
  spec = record r.spec {
    server = default_port r.spec.server;
    type = default_text backup_type_full r.spec.type;
    compression = default_to false r.spec.compression;
  };
}

unfoldable pub default_restore : Restore → Restore
default_restore r = record r { spec = record r.spec { server = default_port r.spec.server } }

unfoldable pub default_scheduled_backup : ScheduledBackup → ScheduledBackup
default_scheduled_backup r = record r {
  spec = record r.spec {
    server = default_port r.spec.server;
    type = default_text backup_type_full r.spec.type;
    compression = default_to false r.spec.compression;
    suspend = default_to false r.spec.suspend;
  };
}

unfoldable pub default_ag_failover : AgFailover → AgFailover
default_ag_failover r = record r {
  spec = record r.spec {
    force = default_to false r.spec.force;
    server = default_port r.spec.server;
  };
}

unfoldable pub validate_backup : Backup → FieldErrors
validate_backup r = errors_of (
    (r.spec.database_name == "", required (at_spec "databaseName"))
    ∷ (r.spec.destination == "", required (at_spec "destination"))
    ∷ server_tests r.spec.server)

-- The update does not validate the rest of the object again.
unfoldable pub validate_backup_update : Backup → Option Backup → FieldErrors
validate_backup_update r none = unexpected_object ∷ []
validate_backup_update r (some old) = errors_of (
    (not (r.spec.database_name == old.spec.database_name), forbidden (at_spec "databaseName"))
    ∷ (not (r.spec.destination == old.spec.destination), forbidden (at_spec "destination"))
    ∷ (not (r.spec.type == old.spec.type), forbidden (at_spec "type"))
    ∷ (not (r.spec.server.host == old.spec.server.host), forbidden (at_server "host"))
    ∷ [])

unfoldable pub validate_restore : Restore → FieldErrors
validate_restore r = errors_of (
    (r.spec.database_name == "", required (at_spec "databaseName"))
    ∷ (r.spec.source == "", required (at_spec "source"))
    ∷ server_tests r.spec.server)

unfoldable pub validate_restore_update : Restore → Option Restore → FieldErrors
validate_restore_update r none = unexpected_object ∷ []
validate_restore_update r (some old) = errors_of (
    (not (r.spec.database_name == old.spec.database_name), forbidden (at_spec "databaseName"))
    ∷ (not (r.spec.source == old.spec.source), forbidden (at_spec "source"))
    ∷ (not (r.spec.server.host == old.spec.server.host), forbidden (at_server "host"))
    ∷ [])

unfoldable pub validate_ag_failover : AgFailover → FieldErrors
validate_ag_failover r =
    errors_of (
      (r.spec.ag_name == "", required (at_spec "agName"))
      ∷ (r.spec.target_replica == "", required (at_spec "targetReplica"))
      ∷ server_tests r.spec.server)
    ++ errors_of (
        (
          bool_value r.spec.force
              && not (lookup_or "" confirm_data_loss_annotation r.meta.annotations == "yes"),
          required
              (child "metadata" ∷ child "annotations" ∷ child confirm_data_loss_annotation ∷ []),
        )
        ∷ [])

unfoldable pub validate_ag_failover_update : AgFailover → Option AgFailover → FieldErrors
validate_ag_failover_update r none = unexpected_object ∷ []
validate_ag_failover_update r (some old) = errors_of (
    (not (r.spec.ag_name == old.spec.ag_name), forbidden (at_spec "agName"))
    ∷ (not (r.spec.target_replica == old.spec.target_replica), forbidden (at_spec "targetReplica"))
    ∷ (not (r.spec.server.host == old.spec.server.host), forbidden (at_server "host"))
    ∷ (not (bool_value r.spec.force == bool_value old.spec.force), forbidden (at_spec "force"))
    ∷ [])

-- `is_cron` is whether the cron package parses the text.
module _ (is_cron : String → Bool) where
  unfoldable pub validate_scheduled_backup : ScheduledBackup → FieldErrors
  validate_scheduled_backup r =
      errors_of ((r.spec.database_name == "", required (at_spec "databaseName")) ∷ [])
      ++ ((if r.spec.schedule == ""
            then required (at_spec "schedule") ∷ []
            else errors_of ((not (is_cron r.spec.schedule), invalid (at_spec "schedule")) ∷ []))
          ++ errors_of (
              (r.spec.destination_template == "", required (at_spec "destinationTemplate"))
              ∷ (
                (r.spec.server.host == "") && is_nil r.spec.server.sql_server_ref,
                required (at_spec "server"),
              )
              ∷ []))

  -- The required fields are reported first here, and a changed name only without those.
  unfoldable pub validate_scheduled_backup_update :
      ScheduledBackup → Option ScheduledBackup → FieldErrors
  unfolding validate_scheduled_backup
  validate_scheduled_backup_update r none = unexpected_object ∷ []
  validate_scheduled_backup_update r (some old) = or_then (validate_scheduled_backup r) (
      errors_of (
        (not (r.spec.database_name == old.spec.database_name), forbidden (at_spec "databaseName"))
        ∷ []))
