-- ===== src/Controller/Schema/Tests.antt =====
-- A Schema that is being deleted.
use mssql_k8s_operator.Sql.Client.{drop_schema}
use mssql_k8s_operator.Controller.TestWorld.{test_client, test_object_env, server_at, test_meta}
use mssql_k8s_operator.Controller.Object.{update, ObjectWrite}
use mssql_k8s_operator.Controller.Helpers.{
  connect_to_sql, read_credentials, get_credentials_from_secret,
}
use mssql_k8s_operator.Controller.Schema.{reconcile_schema}
use mssql_k8s_operator.Api.Objects.{Schema}
use mssql_k8s_operator.Controller.Schema.Safety.{reconcile_schema-sends, IsSchemaCall}
use mssql_k8s_operator.Prelude.{
  true, none, some, List, [], ◌∷◌, string_eq, nat_eq, int_eq, bool_eq, pos, ◌≡◌, refl, All,
}
use mssql_k8s_operator.Controller.Effect.{normal, Action}

abbrev test_schema : Schema
test_schema = record {
  meta = record test_meta { deletion_timestamp = some 5 };
  spec = record {
    server = server_at "h";
    database_name = "app";
    schema_name = "sales";
    owner = none;
    deletion_policy = some "Delete";
  };
  status = record { conditions = []; observed_generation = pos 0 };
}

abbrev schema_log : List (Action (ObjectWrite Schema))
schema_log =
    (reconcile_schema (test_object_env test_schema) "ns" "obj"
      (record { outside = 0; log = [] })).1.log

deleted_schema_is_dropped : schema_log ≡ (
    Action.write (update test_schema)
    ∷ Action.event normal "SchemaDropped"
    ∷ Action.sql test_client (drop_schema "app" "sales")
    ∷ [])
unfolding reconcile_schema get_credentials_from_secret read_credentials connect_to_sql
deleted_schema_is_dropped = refl

reconcile_schema-sends_example : All (IsSchemaCall test_schema.spec true) schema_log
reconcile_schema-sends_example =
    reconcile_schema-sends (test_object_env test_schema) "ns" "obj" test_schema 0 refl
