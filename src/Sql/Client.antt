-- ===== src/Sql/Client.antt =====
-- internal/sql/interface.go: the client of one SQL Server instance, split into the calls that change
-- the server, as values, and the questions, as functions of the outside world.
use mssql_k8s_operator.Prelude.{String, Bool, Option, List, ℤ}

pub record AgReplicaConfig : Type 0 where
  pub server_name : String
  pub endpoint_url : String
  pub availability_mode : String
  pub failover_mode : String
  pub seeding_mode : String
  pub secondary_role : String

pub record AgConfig : Type 0 where
  pub name : String
  pub replicas : List AgReplicaConfig
  pub databases : List String
  pub automated_backup_preference : String
  pub db_failover : Bool
  pub cluster_type : String

pub record AgListenerIpConfig : Type 0 where
  pub ip : String
  pub subnet_mask : String

pub record AgListenerConfig : Type 0 where
  pub name : String
  pub port : ℤ
  pub ip_addresses : List AgListenerIpConfig

pub record AgReplicaState : Type 0 where
  pub server_name : String
  pub role : String
  pub synchronization_state : String
  pub connected : Bool

pub record AgDatabaseState : Type 0 where
  pub name : String
  pub synchronization_state : String
  pub joined : Bool

pub record AgStatus : Type 0 where
  pub name : String
  pub primary_replica : String
  pub replicas : List AgReplicaState
  pub databases : List AgDatabaseState

pub record PermissionState : Type 0 where
  pub permission : String
  pub target : String
  pub state : String

-- the methods that change the server
pub data SqlCall : Type 0 where
  create_database : String → Option String → SqlCall
  drop_database : String → SqlCall
  set_database_owner : String → String → SqlCall
  create_login : String → String → SqlCall
  drop_login : String → SqlCall
  update_login_password : String → String → SqlCall
  set_login_default_database : String → String → SqlCall
  add_login_to_server_role : String → String → SqlCall
  remove_login_from_server_role : String → String → SqlCall
  create_user : String → String → String → SqlCall
  drop_user : String → String → SqlCall
  add_user_to_database_role : String → String → String → SqlCall
  remove_user_from_database_role : String → String → String → SqlCall
  create_schema : String → String → Option String → SqlCall
  drop_schema : String → String → SqlCall
  set_schema_owner : String → String → String → SqlCall
  grant_permission : String → String → String → String → SqlCall
  deny_permission : String → String → String → String → SqlCall
  revoke_permission : String → String → String → String → SqlCall
  backup_database : String → String → String → Bool → SqlCall
  restore_database : String → String → SqlCall
  restore_database_pit : String → String → String → String → SqlCall
  restore_database_with_move : String → String → List (String × String) → SqlCall
  create_ag : AgConfig → SqlCall
  add_database_to_ag : String → String → SqlCall
  remove_database_from_ag : String → String → SqlCall
  join_ag : String → String → SqlCall
  grant_ag_create_database : String → SqlCall
  add_listener_to_ag : String → AgListenerConfig → SqlCall
  drop_ag : String → SqlCall
  failover_ag : String → SqlCall
  force_failover_ag : String → SqlCall
  set_ag_role_secondary : String → SqlCall
  create_hadr_endpoint : ℤ → SqlCall
  set_database_recovery_model : String → String → SqlCall
  set_database_compatibility_level : String → ℤ → SqlCall
  set_database_option : String → String → Bool → SqlCall

-- The arguments of the client factory: a client stands for them.
pub record Endpoint : Type 0 where
  pub host : String
  pub port : ℤ
  pub username : String
  pub password : String
  pub tls_enabled : Bool

-- The methods that ask. What a server answers is outside the operator: `W` is that outside world,
-- and `Reply` the source's `(value, error)`.
pub record Questions (W : Type 0) (Reply : Type 0 → Type 0) : Type 1 where
  pub ping : Endpoint → W → Reply (Unit {0}) × W
  pub database_exists : Endpoint → String → W → Reply Bool × W
  pub get_database_owner : Endpoint → String → W → Reply String × W
  pub get_database_collation : Endpoint → String → W → Reply String × W
  pub get_database_recovery_model : Endpoint → String → W → Reply String × W
  pub get_database_compatibility_level : Endpoint → String → W → Reply ℤ × W
  pub get_database_option : Endpoint → String → String → W → Reply Bool × W
  pub login_exists : Endpoint → String → W → Reply Bool × W
  pub get_login_default_database : Endpoint → String → W → Reply String × W
  pub get_login_server_roles : Endpoint → String → W → Reply (List String) × W
  pub login_has_users : Endpoint → String → W → Reply Bool × W
  pub user_exists : Endpoint → String → String → W → Reply Bool × W
  pub get_user_database_roles : Endpoint → String → String → W → Reply (List String) × W
  pub user_owns_objects : Endpoint → String → String → W → Reply Bool × W
  pub schema_exists : Endpoint → String → String → W → Reply Bool × W
  pub get_schema_owner : Endpoint → String → String → W → Reply String × W
  pub schema_has_objects : Endpoint → String → String → W → Reply Bool × W
  pub get_permissions : Endpoint → String → String → W → Reply (List PermissionState) × W
  pub ag_exists : Endpoint → String → W → Reply Bool × W
  pub get_ag_status : Endpoint → String → W → Reply AgStatus × W
  pub get_ag_replica_role : Endpoint → String → String → W → Reply String × W
  pub get_last_hardened_lsn : Endpoint → String → W → Reply ℤ × W
  pub hadr_endpoint_exists : Endpoint → W → Reply Bool × W
