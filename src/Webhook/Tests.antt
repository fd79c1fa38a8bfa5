-- ===== src/Webhook/Tests.antt =====
-- The webhooks on small objects.
use mssql_k8s_operator.Webhook.SqlServer.Accept.{
  validate_sql_server_update_lem, IsSqlServerKept, IsSqlServerComplete,
}
use mssql_k8s_operator.Webhook.SqlServer.{
  instance_changes, validate_sql_server, validate_sql_server_update,
}
use mssql_k8s_operator.Api.SqlServer.{SqlServer, InstanceSpec}
use mssql_k8s_operator.Prelude.{
  String, Bool, true, Option, none, some, List, [], ◌∷◌, string_eq, nat_eq, int_eq, bool_eq, pos,
  ◌≡◌, ◌≢◌, refl, ◌↔◌, All,
}
use mssql_k8s_operator.Webhook.Checks.{child, forbidden, ptr_equal, or_then, is_nil, errors_of}
use mssql_k8s_operator.Webhook.AvailabilityGroup.Accept.{validate_ag_update_lem, IsAgComplete}
use mssql_k8s_operator.Controller.TestWorld.{server_at, test_meta}
use mssql_k8s_operator.Webhook.Defaults.{default_ag-states_async}
use mssql_k8s_operator.Webhook.Backups.Accept.{
  validate_ag_failover_lem, IsConfirmed, IsAgFailoverComplete,
}
use mssql_k8s_operator.Webhook.Backups.{validate_ag_failover}
use mssql_k8s_operator.Api.Objects.{
  Permission, PermissionEntry, Schema, Login, DatabaseStatus, DatabaseUser,
}
use mssql_k8s_operator.Api.AvailabilityGroup.{
  availability_mode_asynchronous, AgReplicaSpec, AvailabilityGroup, AgFailover,
}
use mssql_k8s_operator.Webhook.AvailabilityGroup.{
  database_errors, replica_errors, default_listener, default_replica, validate_ag,
  validate_ag_update, default_ag,
}

abbrev test_status : DatabaseStatus
test_status = record { conditions = []; observed_generation = pos 0 }

abbrev test_login : List String → Login
test_login roles = record {
  meta = test_meta;
  spec = record {
    server = server_at "h";
    login_name = "app";
    password_secret = record { name = "pw" };
    default_database = none;
    server_roles = roles;
    deletion_policy = none;
  };
  status = record {
    conditions = [];
    observed_generation = pos 0;
    password_secret_resource_version = "";
  };
}

abbrev test_user : String → DatabaseUser
test_user login = record {
  meta = test_meta;
  spec = record {
    server = server_at "h";
    database_name = "db";
    user_name = "u";
    login_ref = record { name = login };
    database_roles = [];
  };
  status = record { conditions = []; observed_generation = pos 0 };
}

abbrev test_schema : String → Schema
test_schema name = record {
  meta = test_meta;
  spec = record {
    server = server_at "h";
    database_name = "db";
    schema_name = name;
    owner = none;
    deletion_policy = none;
  };
  status = record { conditions = []; observed_generation = pos 0 };
}

abbrev test_permission : List PermissionEntry → Permission
test_permission grants = record {
  meta = test_meta;
  spec = record {
    server = server_at "h";
    database_name = "db";
    user_name = "u";
    grants = grants;
    denies = [];
  };
  status = record { conditions = []; observed_generation = pos 0 };
}

abbrev test_failover : Option Bool → AgFailover
test_failover force = record {
  meta = test_meta;
  spec = record { ag_name = "ag"; target_replica = "sql-1"; force = force; server = server_at "h" };
  status = record {
    conditions = [];
    observed_generation = pos 0;
    phase = "";
    start_time = none;
    completion_time = none;
    previous_primary = "";
    new_primary = "";
  };
}

validate_ag_failover_example :
    (validate_ag_failover (test_failover (some true)) ≡ [])
    ↔ (IsAgFailoverComplete (test_failover (some true)) × IsConfirmed (test_failover (some true)))
validate_ag_failover_example = validate_ag_failover_lem (test_failover (some true))

abbrev test_replica : String → String → AgReplicaSpec
test_replica name mode = record {
  server_name = name;
  endpoint_url = "tcp://h:5022";
  availability_mode = mode;
  failover_mode = "Manual";
  seeding_mode = "";
  secondary_role = "";
  server = server_at "h";
}

abbrev test_group : AvailabilityGroup
test_group = record {
  meta = test_meta;
  spec = record {
    ag_name = "ag";
    replicas = test_replica "a" "SynchronousCommit" ∷ test_replica "b" "AsynchronousCommit" ∷ [];
    databases = record { name = "db" } ∷ [];
    listener = none;
    automated_backup_preference = none;
    db_failover = none;
    cluster_type = none;
    auto_failover = none;
    health_check_interval = none;
    failover_cooldown = none;
  };
  status = record {
    conditions = [];
    observed_generation = pos 0;
    primary_replica = "";
    replicas = [];
    databases = [];
    last_auto_failover_time = none;
    auto_failover_count = pos 0;
    last_fencing_time = none;
    fencing_count = pos 0;
    consecutive_fencing_count = pos 0;
    last_fenced_replica = "";
  };
}

validate_ag_update_example :
    (validate_ag_update test_group (some test_group) ≡ [])
    ↔ ((◌≡◌ {A = String} "ag" "ag") × IsAgComplete test_group)
validate_ag_update_example = validate_ag_update_lem test_group test_group

group_accepted : validate_ag (default_ag test_group) ≡ []
unfolding validate_ag default_ag default_replica default_listener replica_errors database_errors
    errors_of
group_accepted = refl

default_ag-states_async_example :
    All
      (λ s. s.availability_mode ≡ availability_mode_asynchronous → s.failover_mode ≢ "")
      (test_replica "a" "SynchronousCommit" ∷ test_replica "b" "AsynchronousCommit" ∷ [])
default_ag-states_async_example = default_ag-states_async test_group group_accepted

abbrev test_instance : InstanceSpec
test_instance = record {
  image = none;
  sa_password_secret = record { name = "sa" };
  accept_eula = true;
  edition = some "Enterprise";
  replicas = some (pos 3);
  storage_size = none;
  storage_class_name = some "fast";
  service_type = none;
  node_selector = [];
  config = none;
  certificates = none;
  availability_group = none;
}

abbrev test_sql_server : Option InstanceSpec → SqlServer
test_sql_server managed = record {
  meta = test_meta;
  spec = record {
    host = "";
    port = none;
    auth_method = "SqlLogin";
    credentials_secret = none;
    azure_ad = none;
    managed_identity = none;
    tls = none;
    max_connections = none;
    connection_timeout = none;
    instance_spec = managed;
  };
  status = record {
    conditions = [];
    observed_generation = pos 0;
    server_version = "";
    edition = "";
    last_connected_time = none;
    host = "";
    ready_replicas = none;
    primary_replica = "";
    certificates_ready = none;
  };
}

-- A cluster that shrinks to one instance is rejected.
shrunk_cluster_is_rejected :
    validate_sql_server_update
      (test_sql_server (some (record test_instance { replicas = some (pos 1) })))
      (some (test_sql_server (some test_instance)))
    ≡ forbidden (child "spec" ∷ child "instance" ∷ child "replicas" ∷ []) ∷ []
unfolding validate_sql_server_update validate_sql_server instance_changes is_nil errors_of or_then
    ptr_equal
shrunk_cluster_is_rejected = refl

validate_sql_server_update_example :
    (validate_sql_server_update
        (test_sql_server (some test_instance))
        (some (test_sql_server (some test_instance)))
      ≡ [])
    ↔ (IsSqlServerComplete (test_sql_server (some test_instance))
        × IsSqlServerKept
            (test_sql_server (some test_instance))
            (test_sql_server (some test_instance)))
validate_sql_server_update_example =
    validate_sql_server_update_lem (test_sql_server (some test_instance))
      (test_sql_server (some test_instance))
