-- ===== src/Controller/Database/Tests.antt =====
-- A Database on a small server, with another collation, and under deletion.
use mssql_k8s_operator.Sql.Client.{
  set_database_owner, drop_database, set_database_recovery_model, SqlCall,
}
use mssql_k8s_operator.Controller.Helpers.{
  connect_to_sql, read_credentials, get_credentials_from_secret,
}
use mssql_k8s_operator.Controller.TestWorld.{server_at, test_client, test_object_env, test_meta}
use mssql_k8s_operator.Controller.Object.{ObjectWrite}
use mssql_k8s_operator.Controller.Database.Reconcile.{apply_database, reconcile_database}
use mssql_k8s_operator.Controller.Database.{DatabaseEnv}
use mssql_k8s_operator.Api.Objects.{Database}
use mssql_k8s_operator.Controller.Database.Safety.{reconcile_database-sends, IsDatabaseCall}
use mssql_k8s_operator.Controller.Database.Drift.{apply_database-drift, IsDriftReport}
use mssql_k8s_operator.Prelude.{
  ℕ, true, Option, none, some, List, [], ◌∷◌, string_eq, nat_eq, int_eq, bool_eq, pos, ◌≡◌, refl,
  arith, eq_iff, All,
}
use mssql_k8s_operator.Controller.Effect.{not_found, err, St, Action}

abbrev test_database : Option ℕ → Database
test_database deleted = record {
  meta = record test_meta { deletion_timestamp = deleted };
  spec = record {
    server = server_at "h";
    database_name = "app";
    collation = some "Greek";
    owner = some "owner";
    recovery_model = some "BulkLogged";
    compatibility_level = none;
    options = [];
    deletion_policy = some "Delete";
  };
  status = record { conditions = []; observed_generation = pos 0 };
}

abbrev test_database_env : Option ℕ → DatabaseEnv ℕ
test_database_env deleted = record {
  object = test_object_env (test_database deleted);
  get_sql_server = λ ns n w. (err not_found, w);
}

-- the statements of a log, the newest first
unfoldable calls_of : {Write : Type 0} → List (Action Write) → List SqlCall
calls_of [] = []
calls_of (Action.sql client call ∷ log) = call ∷ calls_of log
calls_of (Action.write w ∷ log) = calls_of log
calls_of (Action.event t reason ∷ log) = calls_of log

abbrev start : St ℕ (ObjectWrite Database)
start = record { outside = 0; log = [] }

deleted_database_is_dropped :
    calls_of (reconcile_database (test_database_env (some 5)) "ns" "obj" start).1.log
    ≡ (drop_database "app" ∷ [])
unfolding reconcile_database calls_of get_credentials_from_secret read_credentials connect_to_sql
deleted_database_is_dropped = refl

live_database_is_configured :
    calls_of (reconcile_database (test_database_env none) "ns" "obj" start).1.log
    ≡ (set_database_recovery_model "app" "BULK_LOGGED" ∷ set_database_owner "app" "owner" ∷ [])
unfolding reconcile_database calls_of get_credentials_from_secret read_credentials connect_to_sql
live_database_is_configured = refl

reconcile_database-sends_example :
    All
      (IsDatabaseCall (test_database (some 5)).spec true)
      (reconcile_database (test_database_env (some 5)) "ns" "obj" start).1.log
reconcile_database-sends_example =
    reconcile_database-sends (test_database_env (some 5)) "ns" "obj" (test_database (some 5)) 0 refl

apply_database-drift_example :
    All
      (IsDriftReport (test_database_env none) (test_database none))
      (apply_database (test_database_env none) test_client (test_database none) start).1.log
apply_database-drift_example =
    apply_database-drift (test_database_env none) (test_database none) test_client "Greek" "Latin1"
      refl (λ h. ground (arith, eq_iff "Latin1" "Greek", h)) (λ w. refl) start (λ w. refl) tt
