-- ===== src/Api/Backups.antt =====
-- Backups: api/v1alpha1/backup_types.go, restore_types.go and scheduledbackup_types.go.
use mssql_k8s_operator.Prelude.{String, Bool, Option, List, ℤ, ℕ}
use mssql_k8s_operator.Api.Meta.{ServerReference, ObjectMeta, Condition}

abbrev pub backup_type_full : String
backup_type_full = "Full"

abbrev pub backup_phase_running : String
backup_phase_running = "Running"

abbrev pub backup_phase_completed : String
backup_phase_completed = "Completed"

abbrev pub backup_phase_failed : String
backup_phase_failed = "Failed"

pub record BackupSpec : Type 0 where
  pub server : ServerReference
  pub database_name : String
  pub type : String
  pub destination : String
  pub compression : Option Bool

pub record BackupStatus : Type 0 where
  pub phase : String
  pub conditions : List Condition
  pub observed_generation : ℤ
  pub start_time : Option ℕ
  pub completion_time : Option ℕ
  pub backup_size : Option ℤ

pub record Backup : Type 0 where
  pub meta : ObjectMeta
  pub spec : BackupSpec
  pub status : BackupStatus

abbrev pub restore_phase_running : String
restore_phase_running = "Running"

abbrev pub restore_phase_completed : String
restore_phase_completed = "Completed"

abbrev pub restore_phase_failed : String
restore_phase_failed = "Failed"

pub record FileMapping : Type 0 where
  pub logical_name : String
  pub physical_path : String

pub record RestoreSpec : Type 0 where
  pub server : ServerReference
  pub database_name : String
  pub source : String
  pub stop_at : Option String
  pub log_source : Option String
  pub with_move : List FileMapping

pub record RestoreStatus : Type 0 where
  pub phase : String
  pub conditions : List Condition
  pub observed_generation : ℤ
  pub start_time : Option ℕ
  pub completion_time : Option ℕ

pub record Restore : Type 0 where
  pub meta : ObjectMeta
  pub spec : RestoreSpec
  pub status : RestoreStatus

pub record RetentionPolicy : Type 0 where
  pub max_count : Option ℤ
  pub max_age : Option String

pub record ScheduledBackupSpec : Type 0 where
  pub server : ServerReference
  pub database_name : String
  pub schedule : String
  pub type : String
  pub compression : Option Bool
  pub destination_template : String
  pub retention : Option RetentionPolicy
  pub suspend : Option Bool

pub record ScheduledBackupHistory : Type 0 where
  pub backup_name : String
  pub start_time : Option ℕ
  pub completion_time : Option ℕ
  pub phase : String
  pub destination : String

pub record ScheduledBackupStatus : Type 0 where
  pub conditions : List Condition
  pub observed_generation : ℤ
  pub last_schedule_time : Option ℕ
  pub next_schedule_time : Option ℕ
  pub last_successful_backup : String
  pub active_backup : String
  pub history : List ScheduledBackupHistory
  pub total_backups : ℤ
  pub successful_backups : ℤ
  pub failed_backups : ℤ

pub record ScheduledBackup : Type 0 where
  pub meta : ObjectMeta
  pub spec : ScheduledBackupSpec
  pub status : ScheduledBackupStatus
