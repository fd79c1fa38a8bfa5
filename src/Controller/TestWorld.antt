-- ===== src/Controller/TestWorld.antt =====
-- A small outside world for tests: the state is a clock, every secret holds credentials, every call
-- succeeds, and every question has a plain answer.
use mssql_k8s_operator.Api.Objects.{Login}
use mssql_k8s_operator.Api.AvailabilityGroup.{AvailabilityGroup, AgReplicaSpec}
use mssql_k8s_operator.Prelude.{
  ℕ, String, true, false, Option, none, some, [], ◌∷◌, string_eq, nat_eq, int_eq, bool_eq, pos,
}
use mssql_k8s_operator.Controller.Object.{ObjectEnv}
use mssql_k8s_operator.Controller.Effect.{not_found, err, Result, ok}
use mssql_k8s_operator.Sql.Client.{Endpoint, Questions}
use mssql_k8s_operator.Api.Meta.{ObjectMeta, ServerReference}
use mssql_k8s_operator.Controller.Env.{Secret, Env}

abbrev pub test_secret : Secret
test_secret = record {
  contents = ("username", "sa") ∷ ("password", "pw") ∷ [];
  resource_version = "1";
}

abbrev pub test_questions : {W : Type 0} → Questions W Result
test_questions = record {
  ping = λ e w. (ok tt, w);
  database_exists = λ e n w. (ok true, w);
  get_database_owner = λ e n w. (ok "sa", w);
  get_database_collation = λ e n w. (ok "Latin1", w);
  get_database_recovery_model = λ e n w. (ok "FULL", w);
  get_database_compatibility_level = λ e n w. (ok (pos 160), w);
  get_database_option = λ e n o w. (ok false, w);
  login_exists = λ e n w. (ok true, w);
  get_login_default_database = λ e n w. (ok "master", w);
  get_login_server_roles = λ e n w. (ok [], w);
  login_has_users = λ e n w. (ok false, w);
  user_exists = λ e d u w. (ok true, w);
  get_user_database_roles = λ e d u w. (ok [], w);
  user_owns_objects = λ e d u w. (ok false, w);
  schema_exists = λ e d n w. (ok true, w);
  get_schema_owner = λ e d n w. (ok "dbo", w);
  schema_has_objects = λ e d n w. (ok false, w);
  get_permissions = λ e d u w. (ok [], w);
  ag_exists = λ e n w. (ok true, w);
  get_ag_status = λ e n w. (err not_found, w);
  get_ag_replica_role = λ e n s w. (ok "PRIMARY", w);
  get_last_hardened_lsn = λ e n w. (ok (pos 0), w);
  hadr_endpoint_exists = λ e w. (ok true, w);
}

-- with any world from which the clock can be read
abbrev pub test_env_of : {W Write : Type 0} → (W → ℕ) → Env W Write
test_env_of clock = record {
  get_secret = λ ns n w. (ok test_secret, w);
  connect = λ e w. (ok tt, w);
  exec = λ e c w. (ok tt, w);
  questions = test_questions;
  write_object = λ o w. (ok tt, w);
  now = λ w. (clock w, w);
  parse_duration = λ t. none;
  set_status_condition = λ cs c. c ∷ [];
}

abbrev pub test_env : {Write : Type 0} → Env ℕ Write
test_env = test_env_of (λ w. w)

abbrev pub server_at : String → ServerReference
server_at host = record {
  host = host;
  port = none;
  credentials_secret = record { name = "creds" };
  tls = none;
  sql_server_ref = none;
}

abbrev pub test_meta : ObjectMeta
test_meta = record {
  name = "obj";
  namespace = "ns";
  generation = pos 1;
  resource_version = "1";
  creation_timestamp = 0;
  deletion_timestamp = none;
  finalizers = [];
  labels = [];
  annotations = [];
}

-- one object, whatever the name
abbrev pub test_object_env : {Object : Type 0} → Object → ObjectEnv ℕ Object
test_object_env object = record {
  base = test_env;
  get_object = λ ns n w. (ok object, w);
  contains_finalizer = λ f m. true;
  add_finalizer = λ f m. m;
  remove_finalizer = λ f m. m;
  random_below = λ n w. (0, w);
  range_set = λ names. names;
}

abbrev pub test_client : Endpoint
test_client = record {
  host = "h";
  port = pos 1433;
  username = "sa";
  password = "pw";
  tls_enabled = false;
}

abbrev pub test_login : Option String → Login
test_login policy = record {
  meta = record test_meta { finalizers = "mssql.popul.io/finalizer" ∷ [] };
  spec = record {
    server = server_at "h";
    login_name = "app";
    password_secret = record { name = "pw" };
    default_database = none;
    server_roles = "dbcreator" ∷ [];
    deletion_policy = policy;
  };
  status = record {
    conditions = [];
    observed_generation = pos 0;
    password_secret_resource_version = "1";
  };
}

abbrev pub test_replica : String → AgReplicaSpec
test_replica name = record {
  server_name = name;
  endpoint_url = "tcp://sql:5022";
  availability_mode = "SynchronousCommit";
  failover_mode = "Automatic";
  seeding_mode = "Automatic";
  secondary_role = "No";
  server = server_at name;
}

abbrev pub test_group : Option ℕ → AvailabilityGroup
test_group last = record {
  meta = test_meta;
  spec = record {
    ag_name = "ag";
    replicas = test_replica "a" ∷ test_replica "b" ∷ [];
    databases = [];
    listener = none;
    automated_backup_preference = none;
    db_failover = none;
    cluster_type = none;
    auto_failover = some true;
    health_check_interval = none;
    failover_cooldown = none;
  };
  status = record {
    conditions = [];
    observed_generation = pos 0;
    primary_replica = "a";
    replicas = [];
    databases = [];
    last_auto_failover_time = last;
    auto_failover_count = pos 0;
    last_fencing_time = none;
    fencing_count = pos 0;
    consecutive_fencing_count = pos 0;
    last_fenced_replica = "";
  };
}
