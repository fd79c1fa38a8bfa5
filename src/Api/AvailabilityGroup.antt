-- ===== src/Api/AvailabilityGroup.antt =====
-- api/v1alpha1/availabilitygroup_types.go and agfailover_types.go: an availability group, its
-- replicas, and a failover of it. Go's string types with named constants stay texts, since the empty
-- text is a value of each before defaulting.
use mssql_k8s_operator.Prelude.{ℕ, String, Bool, Option, List, ℤ}
use mssql_k8s_operator.Api.Meta.{ServerReference, ObjectMeta, Condition}

pub record AgReplicaSpec : Type 0 where
  pub server_name : String
  pub endpoint_url : String
  pub availability_mode : String
  pub failover_mode : String
  pub seeding_mode : String
  pub secondary_role : String
  pub server : ServerReference

pub record AgListenerIp : Type 0 where
  pub ip : String
  pub subnet_mask : String

pub record AgListenerSpec : Type 0 where
  pub name : String
  pub port : Option ℤ
  pub ip_addresses : List AgListenerIp

pub record AgDatabaseSpec : Type 0 where
  pub name : String

pub record AvailabilityGroupSpec : Type 0 where
  pub ag_name : String
  pub replicas : List AgReplicaSpec
  pub databases : List AgDatabaseSpec
  pub listener : Option AgListenerSpec
  pub automated_backup_preference : Option String
  pub db_failover : Option Bool
  pub cluster_type : Option String
  pub auto_failover : Option Bool
  pub health_check_interval : Option String
  pub failover_cooldown : Option String

pub record AgReplicaStatus : Type 0 where
  pub server_name : String
  pub role : String
  pub synchronization_state : String
  pub connected : Bool

pub record AgDatabaseStatus : Type 0 where
  pub name : String
  pub synchronization_state : String
  pub joined : Bool

-- The counters are int32.
pub record AvailabilityGroupStatus : Type 0 where
  pub conditions : List Condition
  pub observed_generation : ℤ
  pub primary_replica : String
  pub replicas : List AgReplicaStatus
  pub databases : List AgDatabaseStatus
  pub last_auto_failover_time : Option ℕ
  pub auto_failover_count : ℤ
  pub last_fencing_time : Option ℕ
  pub fencing_count : ℤ
  pub consecutive_fencing_count : ℤ
  pub last_fenced_replica : String

pub record AvailabilityGroup : Type 0 where
  pub meta : ObjectMeta
  pub spec : AvailabilityGroupSpec
  pub status : AvailabilityGroupStatus

pub record AgFailoverSpec : Type 0 where
  pub ag_name : String
  pub target_replica : String
  pub force : Option Bool
  pub server : ServerReference

pub record AgFailoverStatus : Type 0 where
  pub conditions : List Condition
  pub observed_generation : ℤ
  pub phase : String
  pub start_time : Option ℕ
  pub completion_time : Option ℕ
  pub previous_primary : String
  pub new_primary : String

pub record AgFailover : Type 0 where
  pub meta : ObjectMeta
  pub spec : AgFailoverSpec
  pub status : AgFailoverStatus

abbrev pub failover_phase_pending : String
failover_phase_pending = "Pending"

abbrev pub failover_phase_running : String
failover_phase_running = "Running"

abbrev pub failover_phase_completed : String
failover_phase_completed = "Completed"

abbrev pub failover_phase_failed : String
failover_phase_failed = "Failed"

abbrev pub confirm_data_loss_annotation : String
confirm_data_loss_annotation = "mssql.popul.io/confirm-data-loss"

-- the named constants of the modes of a replica
abbrev pub availability_mode_synchronous : String
availability_mode_synchronous = "SynchronousCommit"

abbrev pub availability_mode_asynchronous : String
availability_mode_asynchronous = "AsynchronousCommit"

abbrev pub failover_mode_automatic : String
failover_mode_automatic = "Automatic"

abbrev pub seeding_mode_automatic : String
seeding_mode_automatic = "Automatic"

abbrev pub secondary_role_no : String
secondary_role_no = "No"

abbrev pub failover_mode_manual : String
failover_mode_manual = "Manual"

abbrev pub seeding_mode_manual : String
seeding_mode_manual = "Manual"

abbrev pub secondary_role_allow_all : String
secondary_role_allow_all = "AllowAllConnections"

abbrev pub secondary_role_read_intent_only : String
secondary_role_read_intent_only = "AllowReadIntentOnly"
