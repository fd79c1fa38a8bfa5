-- ===== src/Controller/Login/Tests.antt =====
-- Logins on a small server: the outside world is the list of the login's server roles.
use mssql_k8s_operator.Prelude.{
  String, Bool, true, false, not, ◌&&◌, ◌||◌, none, some, List, [], ◌∷◌, ◌==◌, string_eq, nat_eq,
  int_eq, bool_eq, pos, if◌then◌else◌, ◌≡◌, refl, sym, ap, ◌∙◌, inl, inr, arith, eq_iff, All,
  Bool-cases,
}
use mssql_k8s_operator.Controller.Object.Sets.{call_for_missing, reconcile_names}
use mssql_k8s_operator.Controller.Helpers.{
  endpoint_of, connect_to_sql, read_credentials, get_credentials_from_secret,
}
use mssql_k8s_operator.Controller.Effect.{not_found, err, ok, Result}
use mssql_k8s_operator.Controller.Login.Roles.{reconcile_server_roles-converges, RoleLaws}
use mssql_k8s_operator.Controller.TestWorld.{test_login, test_secret}
use mssql_k8s_operator.Controller.Object.{jittered, requeue_with_jitter, contains_text}
use mssql_k8s_operator.Controller.Login.Deletion.{
  handle_login_deletion-used, handle_login_deletion-drops, IsLoginDrop, IsNoSql,
}
use mssql_k8s_operator.Controller.Login.{
  set_login_condition, handle_login_deletion, LoginEnv, reconcile_server_roles,
}
use mssql_k8s_operator.Controller.Login.Reconcile.{
  report_login, ensure_default_database, ensure_login, apply_login, with_password,
  reconcile_live_login, ensure_login_finalizer, reconcile_login,
}
use mssql_k8s_operator.Sql.Client.{
  remove_login_from_server_role, add_login_to_server_role, Questions, SqlCall, Endpoint,
}
use mssql_k8s_operator.Prelude.{
  String, Bool, true, false, not, ◌&&◌, ◌||◌, none, some, List, [], ◌∷◌, ◌==◌, string_eq, nat_eq,
  int_eq, bool_eq, pos, ◌≡◌, refl, sym, ap, ◌∙◌, inl, inr, arith, eq_iff, All, Bool-cases,
}

-- the list without a name
unfoldable remove_text : String → List String → List String
remove_text name [] = []
remove_text name (n ∷ ns) = let rest = remove_text name ns in if n == name then rest else n ∷ rest

abbrev apply_call : SqlCall → List String → List String
apply_call (add_login_to_server_role name role) roles = role ∷ roles
apply_call (remove_login_from_server_role name role) roles = remove_text role roles
apply_call _ roles = roles

abbrev role_questions : Questions (List String) Result
role_questions = record {
  ping = λ e w. (ok tt, w);
  database_exists = λ e n w. (ok true, w);
  get_database_owner = λ e n w. (ok "sa", w);
  get_database_collation = λ e n w. (ok "Latin1", w);
  get_database_recovery_model = λ e n w. (ok "FULL", w);
  get_database_compatibility_level = λ e n w. (ok (pos 160), w);
  get_database_option = λ e n o w. (ok false, w);
  login_exists = λ e n w. (ok true, w);
  get_login_default_database = λ e n w. (ok "master", w);
  get_login_server_roles = λ e n w. (ok w, w);
  login_has_users = λ e n w. (ok true, w);
  user_exists = λ e d u w. (ok true, w);
  get_user_database_roles = λ e d u w. (ok [], w);
  user_owns_objects = λ e d u w. (ok false, w);
  schema_exists = λ e d n w. (ok true, w);
  get_schema_owner = λ e d n w. (ok "dbo", w);
  schema_has_objects = λ e d n w. (ok false, w);
  get_permissions = λ e d u w. (ok [], w);
  ag_exists = λ e n w. (ok true, w);
  get_ag_status = λ e n w. (err not_found, w);
  get_ag_replica_role = λ e n s w. (ok "PRIMARY", w);
  get_last_hardened_lsn = λ e n w. (ok (pos 0), w);
  hadr_endpoint_exists = λ e w. (ok true, w);
}

abbrev role_world : LoginEnv (List String)
role_world = record {
  base = record {
    get_secret = λ ns n w. (ok test_secret, w);
    connect = λ e w. (ok tt, w);
    exec = λ e c w. (ok tt, apply_call c w);
    questions = role_questions;
    write_object = λ o w. (ok tt, w);
    now = λ w. (0, w);
    parse_duration = λ t. none;
    set_status_condition = λ cs c. c ∷ [];
  };
  get_object = λ ns n w. (ok (test_login none), w);
  contains_finalizer = λ f m. true;
  add_finalizer = λ f m. m;
  remove_finalizer = λ f m. m;
  random_below = λ n w. (0, w);
  range_set = λ names. names;
}

abbrev client : Endpoint
client = record {
  host = "h";
  port = pos 1433;
  username = "sa";
  password = "pw";
  tls_enabled = false;
}

contains_text-remove_text :
    (role k : String) (names : List String)
    → contains_text k (remove_text role names) ≡ (contains_text k names && not (role == k))
unfolding contains_text remove_text
contains_text-remove_text role k [] = refl
contains_text-remove_text role k (n ∷ names) =
    let rest = contains_text-remove_text role k names in
    elim (Bool-cases (n == role)) [
      | inl f ↦ rw (f, ap (λ x. x == k) ((eq_iff n role).0 f)) (ground (arith, rest))
      | inr f ↦ rw f (elim (Bool-cases (role == k)) [
        | inl g ↦
            let apart : (n == k) ≡ false = ap (λ x. n == x) (sym ((eq_iff role k).0 g)) ∙ f in
            ground (arith, rest, g, apart)
        | inr g ↦ ground (arith, rest, g)
      ])
    ]

or_comm : (a b : Bool) → (a || b) ≡ (b || a)
or_comm a b = ground arith

role_laws : RoleLaws role_world client "app"
unfolding contains_text
role_laws = record {
  roles_of = λ w. w;
  get_roles = λ w. refl;
  add_ok = λ role w. refl;
  add_role = λ role k w. or_comm (role == k) (contains_text k w);
  remove_ok = λ role w. refl;
  remove_role = λ role k w. contains_text-remove_text role k w;
  range_keys = λ names k. refl;
}

reconcile_server_roles-converges_example :
    ((reconcile_server_roles role_world client "app"
        ("dbcreator" ∷ [])
        (record { outside = "sysadmin" ∷ []; log = [] })).0
      ≡ ok tt)
    × (contains_text "sysadmin" (
          role_laws.roles_of
            (reconcile_server_roles role_world client "app"
              ("dbcreator" ∷ [])
              (record { outside = "sysadmin" ∷ []; log = [] })).1.outside)
        ≡ contains_text "sysadmin" ("dbcreator" ∷ []))
reconcile_server_roles-converges_example =
    reconcile_server_roles-converges role_laws ("dbcreator" ∷ []) "sysadmin" ("sysadmin" ∷ [])

handle_login_deletion-drops_example :
    All
      (IsLoginDrop (test_login (some "Delete")))
      (handle_login_deletion role_world
        (test_login (some "Delete"))
        (record { outside = []; log = [] })).1.log
handle_login_deletion-drops_example =
    handle_login_deletion-drops role_world (test_login (some "Delete")) []

handle_login_deletion-used_example :
    All IsNoSql
      (handle_login_deletion role_world
        (test_login (some "Delete"))
        (record { outside = []; log = [] })).1.log
handle_login_deletion-used_example =
    handle_login_deletion-used role_world (test_login (some "Delete")) [] (λ c v. refl)

pub whole_login : Unit {0}
unfolding reconcile_login handle_login_deletion ensure_login_finalizer reconcile_live_login
    with_password apply_login ensure_login ensure_default_database reconcile_server_roles
    reconcile_names call_for_missing report_login set_login_condition requeue_with_jitter jittered
    contains_text remove_text get_credentials_from_secret read_credentials connect_to_sql
    endpoint_of
whole_login = tt

-- The missing role is added and the other removed.
roles_after :
    (reconcile_login role_world "ns" "obj"
      (record { outside = "sysadmin" ∷ []; log = [] })).1.outside
    ≡ "dbcreator" ∷ []
unfolding whole_login
roles_after = refl
