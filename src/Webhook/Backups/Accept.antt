-- ===== src/Webhook/Backups/Accept.antt =====
-- When the validators of Webhook.Backups accept.
use mssql_k8s_operator.Webhook.Objects.{at_spec}
use mssql_k8s_operator.Webhook.Objects.Accept.{IsServerGiven}
use mssql_k8s_operator.Webhook.Checks.{
  errors_of-cons, is_empty_iff, errors_of-last, append_iff, invalid, required, is_nil, errors_of,
  bool_value, accept_rules,
}
use mssql_k8s_operator.Api.AvailabilityGroup.{confirm_data_loss_annotation, AgFailover}
use mssql_k8s_operator.Api.Backups.{Restore, Backup, ScheduledBackup}
use mssql_k8s_operator.Webhook.Backups.{
  validate_scheduled_backup_update, validate_scheduled_backup, validate_ag_failover,
  validate_backup, validate_backup_update, validate_restore,
}
use mssql_k8s_operator.Prelude.{
  String, Bool, true, false, not, ◌&&◌, Option, none, some, [], ◌∷◌, ◌==◌, string_eq, nat_eq,
  int_eq, bool_eq, if◌then◌else◌, ◌≡◌, ◌≢◌, ◌⊎◌, ◌↔◌, arith, eq_iff, lookup_or,
}

abbrev pub IsBackupComplete : Backup → Type 0
IsBackupComplete r =
    (r.spec.database_name ≢ "") × ((r.spec.destination ≢ "") × IsServerGiven r.spec.server)

pub validate_backup_lem : (r : Backup) → (validate_backup r ≡ []) ↔ IsBackupComplete r
unfolding validate_backup
validate_backup_lem r = search accept_rules depth 14

abbrev pub IsBackupKept : Backup → Backup → Type 0
IsBackupKept r old =
    (r.spec.database_name ≡ old.spec.database_name)
    × ((r.spec.destination ≡ old.spec.destination)
        × ((r.spec.type ≡ old.spec.type) × (r.spec.server.host ≡ old.spec.server.host)))

-- An update of a Backup is accepted exactly when it keeps the database, the destination, the type and
-- the host of the server.
pub validate_backup_update_lem :
    (r old : Backup) → (validate_backup_update r (some old) ≡ []) ↔ IsBackupKept r old
unfolding validate_backup_update
validate_backup_update_lem r old = search accept_rules depth 14

abbrev pub IsRestoreComplete : Restore → Type 0
IsRestoreComplete r =
    (r.spec.database_name ≢ "") × ((r.spec.source ≢ "") × IsServerGiven r.spec.server)

pub validate_restore_lem : (r : Restore) → (validate_restore r ≡ []) ↔ IsRestoreComplete r
unfolding validate_restore
validate_restore_lem r = search accept_rules depth 14

-- A forced failover is confirmed in the annotations.
abbrev pub IsConfirmed : AgFailover → Type 0
IsConfirmed r =
    r.spec.force ≡ some true → lookup_or "" confirm_data_loss_annotation r.meta.annotations ≡ "yes"

pub is_unconfirmed_iff :
    (r : AgFailover)
    → ((bool_value r.spec.force
          && not (lookup_or "" confirm_data_loss_annotation r.meta.annotations == "yes"))
        ≡ false)
      ↔ IsConfirmed r
is_unconfirmed_iff r =
    ground (arith, eq_iff (lookup_or "" confirm_data_loss_annotation r.meta.annotations) "yes")

abbrev pub IsAgFailoverComplete : AgFailover → Type 0
IsAgFailoverComplete r =
    (r.spec.ag_name ≢ "") × ((r.spec.target_replica ≢ "") × IsServerGiven r.spec.server)

-- An AGFailover may be created exactly when it names the group, the target, a host and a credentials
-- secret and, where it is forced, is annotated with confirm-data-loss "yes".
pub validate_ag_failover_lem :
    (r : AgFailover) → (validate_ag_failover r ≡ []) ↔ (IsAgFailoverComplete r × IsConfirmed r)
unfolding validate_ag_failover
validate_ag_failover_lem r = search (accept_rules, is_unconfirmed_iff) depth 14

-- The schedule is a cron expression, and the server is named in one of two ways.
abbrev pub IsScheduleComplete : (String → Bool) → ScheduledBackup → Type 0
IsScheduleComplete is_cron r =
    (r.spec.database_name ≢ "")
    × (((r.spec.schedule ≢ "") × (is_cron r.spec.schedule ≡ true))
        × ((r.spec.destination_template ≢ "")
            × ((r.spec.server.host ≢ "") ⊎ (r.spec.server.sql_server_ref ≢ none))))

pub schedule_iff :
    (is_cron : String → Bool) (s : String)
    → ((if s == ""
          then required (at_spec "schedule") ∷ []
          else errors_of ((not (is_cron s), invalid (at_spec "schedule")) ∷ []))
        ≡ [])
      ↔ ((s ≢ "") × (is_cron s ≡ true))
unfolding errors_of
schedule_iff is_cron s = ground (arith, eq_iff s "")

pub is_unnamed_iff :
    (host : String) (ref : Option String)
    → (((host == "") && is_nil ref) ≡ false) ↔ ((host ≢ "") ⊎ (ref ≢ none))
unfolding is_nil
is_unnamed_iff host ref = ground (arith, eq_iff host "")

pub validate_scheduled_backup_lem :
    (is_cron : String → Bool) (r : ScheduledBackup)
    → (validate_scheduled_backup is_cron r ≡ []) ↔ IsScheduleComplete is_cron r
unfolding validate_scheduled_backup
validate_scheduled_backup_lem is_cron r =
    append_iff _ _ (errors_of-last _ _ (is_empty_iff r.spec.database_name)) (
      append_iff _ _ (schedule_iff is_cron r.spec.schedule) (
        errors_of-cons _ _ _ (is_empty_iff r.spec.destination_template)
          (errors_of-last _ _ (is_unnamed_iff r.spec.server.host r.spec.server.sql_server_ref))))

-- An update of a ScheduledBackup is accepted exactly when it keeps the database, and the new object
-- has a database, a schedule that the cron package parses, a destination template, and a host or a
-- reference to a SQLServer.
pub validate_scheduled_backup_update_lem :
    (is_cron : String → Bool) (r old : ScheduledBackup)
    → (validate_scheduled_backup_update is_cron r (some old) ≡ [])
      ↔ (IsScheduleComplete is_cron r × (r.spec.database_name ≡ old.spec.database_name))
unfolding validate_scheduled_backup_update
validate_scheduled_backup_update_lem is_cron r old =
    search (accept_rules, validate_scheduled_backup_lem) depth 14
