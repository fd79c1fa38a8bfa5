-- ===== src/Controller/Login/Roles.antt =====
-- The server roles of a login: on a server that keeps a list of them, a reconciliation ends with
-- exactly the roles that the specification lists.
use mssql_k8s_operator.Controller.Object.Sets.{SetLaws, reconcile_names-converges}
use mssql_k8s_operator.Prelude.{
  String, not, ◌&&◌, ◌||◌, List, [], ◌==◌, string_eq, nat_eq, int_eq, bool_eq, ◌≡◌,
}
use mssql_k8s_operator.Controller.Object.{contains_text}
use mssql_k8s_operator.Sql.Client.{
  remove_login_from_server_role, add_login_to_server_role, Endpoint,
}
use mssql_k8s_operator.Controller.Login.{reconcile_server_roles, LoginEnv}
use mssql_k8s_operator.Controller.Effect.{ok}

-- What a server promises of the roles of the login `name`, and Go of its maps.
pub record RoleLaws {W : Type 0} (env : LoginEnv W) (client : Endpoint) (name : String)
    : Type 0 where
  pub roles_of : W → List String
  pub get_roles :
      (w : W) → env.base.questions.get_login_server_roles client name w ≡ (ok (roles_of w), w)
  pub add_ok :
      (role : String) (w : W)
      → (env.base.exec client (add_login_to_server_role name role) w).0 ≡ ok tt
  pub add_role :
      (role k : String) (w : W)
      → contains_text k (roles_of (env.base.exec client (add_login_to_server_role name role) w).1)
        ≡ (contains_text k (roles_of w) || (role == k))
  pub remove_ok :
      (role : String) (w : W)
      → (env.base.exec client (remove_login_from_server_role name role) w).0 ≡ ok tt
  pub remove_role :
      (role k : String) (w : W)
      → contains_text k
          (roles_of (env.base.exec client (remove_login_from_server_role name role) w).1)
        ≡ (contains_text k (roles_of w) && not (role == k))
  pub range_keys :
      (names : List String) (k : String)
      → contains_text k (env.range_set names) ≡ contains_text k names

module _ {W : Type 0} {env : LoginEnv W} {client : Endpoint} {name : String}
    (laws : RoleLaws env client name) where
  role_set-SetLaws :
      SetLaws env.base client laws.roles_of
        (add_login_to_server_role name)
        (remove_login_from_server_role name)
  role_set-SetLaws = record {
    add_ok = laws.add_ok;
    add_name = laws.add_role;
    remove_ok = laws.remove_ok;
    remove_name = laws.remove_role;
  }

  -- On a server whose calls succeed and that keeps a list of roles, a reconciliation of the roles
  -- succeeds, and afterwards the login has a role exactly when the specification lists it.
  pub reconcile_server_roles-converges :
      (desired : List String) (k : String) (w : W)
      → ((reconcile_server_roles env client name desired (record { outside = w; log = [] })).0
          ≡ ok tt)
        × (contains_text k (
              laws.roles_of
                (reconcile_server_roles env client name desired
                  (record { outside = w; log = [] })).1.outside)
            ≡ contains_text k desired)
  unfolding reconcile_server_roles
  reconcile_server_roles-converges desired k w = rw (laws.get_roles w) (
      reconcile_names-converges env role_set-SetLaws laws.range_keys "ServerRoleAdded"
        "ServerRoleRemoved" desired k (record { outside = w; log = [] }))
