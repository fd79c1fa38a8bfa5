-- ===== src/Controller/DatabaseUser/Tests.antt =====
-- A DatabaseUser on a server that has the user with no role.
use mssql_k8s_operator.Controller.Effect.Ends.{ok-injective}
use mssql_k8s_operator.Controller.TestWorld.{server_at, test_object_env, test_meta}
use mssql_k8s_operator.Controller.Object.{ObjectWrite}
use mssql_k8s_operator.Controller.DatabaseUser.Safety.{reconcile_database_user-sends, IsUserCall}
use mssql_k8s_operator.Controller.DatabaseUser.{reconcile_database_user, DatabaseUserEnv}
use mssql_k8s_operator.Api.Objects.{DatabaseUser, Login}
use mssql_k8s_operator.Prelude.{
  ℕ, false, none, [], ◌∷◌, string_eq, nat_eq, int_eq, bool_eq, pos, refl, sym, ap, All,
}
use mssql_k8s_operator.Controller.Effect.{ok, St}

abbrev test_user : DatabaseUser
test_user = record {
  meta = test_meta;
  spec = record {
    server = server_at "h";
    database_name = "app";
    user_name = "alice";
    login_ref = record { name = "alice-login" };
    database_roles = "db_datareader" ∷ [];
  };
  status = record { conditions = []; observed_generation = pos 0 };
}

abbrev user_login : Login
user_login = record {
  meta = test_meta;
  spec = record {
    server = server_at "h";
    login_name = "alice";
    password_secret = record { name = "pw" };
    default_database = none;
    server_roles = [];
    deletion_policy = none;
  };
  status = record {
    conditions = [];
    observed_generation = pos 0;
    password_secret_resource_version = "1";
  };
}

abbrev test_user_env : DatabaseUserEnv ℕ
test_user_env = record {
  object = test_object_env test_user;
  get_login = λ ns n w. (ok user_login, w);
}

abbrev user_start : St ℕ (ObjectWrite DatabaseUser)
user_start = record { outside = 0; log = [] }

reconcile_database_user-sends_example :
    All
      (IsUserCall test_user.spec "alice" false)
      (reconcile_database_user test_user_env "ns" "obj" user_start).1.log
reconcile_database_user-sends_example =
    reconcile_database_user-sends test_user_env (λ names k. refl) "ns" "obj" test_user "alice" 0
      refl (λ ns v login e. ap (λ l. l.spec.login_name) (sym (ok-injective user_login login e)))
