-- ===== src/Controller/Permission/Tests.antt =====
-- Permissions on a small server, where every call succeeds; the outside world is a clock.
use mssql_k8s_operator.Controller.Permission.Observed.{key_of}
use mssql_k8s_operator.Controller.Object.{ObjectWrite}
use mssql_k8s_operator.Controller.Permission.Sent.{Follows}
use mssql_k8s_operator.Prelude.{
  ℕ, String, true, false, List, [], ◌∷◌, string_eq, nat_eq, int_eq, bool_eq, pos, ◌≡◌, ◌≢◌, refl,
  inl, inr, arith, eq_iff,
}
use mssql_k8s_operator.Controller.Effect.{normal, Action, not_found, err}
use mssql_k8s_operator.Controller.Permission.Moved.{apply_permissions-revokes_denied}
use mssql_k8s_operator.Controller.TestWorld.{server_at, test_meta, test_env}
use mssql_k8s_operator.Sql.Client.{PermissionState, deny_permission, revoke_permission, Endpoint}
use mssql_k8s_operator.Api.Objects.{PermissionEntry, Permission}
use mssql_k8s_operator.Controller.Permission.{
  desired_of, current_set, revoke_entry, revoke_undesired, permission_key, apply_entries,
  apply_permissions, PermissionEnv,
}

abbrev small_world : PermissionEnv ℕ
small_world = record {
  object = record {
    base = test_env;
    get_object = λ ns n w. (err not_found, w);
    contains_finalizer = λ f m. true;
    add_finalizer = λ f m. m;
    remove_finalizer = λ f m. m;
    random_below = λ n w. (0, w);
    range_set = λ names. names;
  };
  to_upper = λ t. t;
  range_map = λ entries. entries;
}

abbrev test_permission : Permission
test_permission = record {
  meta = test_meta;
  spec = record {
    server = server_at "h";
    database_name = "db";
    user_name = "u";
    grants = [];
    denies = [];
  };
  status = record { conditions = []; observed_generation = pos 0 };
}

abbrev select_on_app : PermissionEntry
select_on_app = record { permission = "SELECT"; on = "SCHEMA::app" }

abbrev client : Endpoint
client = record {
  host = "h";
  port = pos 1433;
  username = "sa";
  password = "pw";
  tls_enabled = false;
}

-- One permission stays granted, and one is to be denied that the server still grants.
abbrev moved_permission : Permission
moved_permission = record test_permission {
  spec = record test_permission.spec {
    grants = record { permission = "INSERT"; on = "SCHEMA::app" } ∷ [];
    denies = select_on_app ∷ [];
  };
}

abbrev granted_state : String → PermissionState
granted_state permission = record {
  permission = permission;
  target = "SCHEMA::app";
  state = "GRANT";
}

abbrev both_granted : List PermissionState
both_granted = granted_state "INSERT" ∷ granted_state "SELECT" ∷ []

abbrev after_moving : List (Action (ObjectWrite Permission))
after_moving =
    (apply_permissions small_world client moved_permission both_granted
      (record { outside = 0; log = [] })).1.log

moving_sends_both :
    after_moving
    ≡ Action.event normal "PermissionRevoked"
      ∷ Action.sql client (revoke_permission "db" "SELECT" "SCHEMA::app" "u")
      ∷ Action.event normal "PermissionDenied"
      ∷ Action.sql client (deny_permission "db" "SELECT" "SCHEMA::app" "u")
      ∷ []
unfolding apply_permissions apply_entries revoke_undesired revoke_entry current_set desired_of
    permission_key
moving_sends_both = refl

keys_differ :
    key_of small_world (record { permission = "INSERT"; on = "SCHEMA::app" })
    ≢ key_of small_world select_on_app
unfolding permission_key
keys_differ = ground (arith, eq_iff "INSERT|SCHEMA::app" "SELECT|SCHEMA::app")

apply_permissions-revokes_denied_example :
    Follows
      (Action.sql client (revoke_permission "db" "SELECT" "SCHEMA::app" "u"))
      (Action.sql client (deny_permission "db" "SELECT" "SCHEMA::app" "u"))
      after_moving
apply_permissions-revokes_denied_example =
    apply_permissions-revokes_denied small_world client moved_permission both_granted select_on_app
      (granted_state "SELECT") 0 (λ call v. refl) (λ entries e inside. inside) (inl refl)
      (keys_differ, tt) (inr (inl refl)) (inr keys_differ, (inl refl, tt)) refl refl
