-- ===== src/Controller/DatabaseUser.antt =====
-- internal/controller/databaseuser_controller.go: the roles, the deletion, and Reconcile in the order
-- of its steps.
pub mod Safety
mod Tests
use mssql_k8s_operator.Api.Meta.{
  reason_connection_failed, reason_ready, reason_invalid_credentials_secret,
  reason_secret_not_found, reason_login_ref_not_found, reason_user_owns_objects, finalizer,
}
use mssql_k8s_operator.Controller.Object.Sets.{reconcile_names}
use mssql_k8s_operator.Sql.Client.{
  create_user, remove_user_from_database_role, add_user_to_database_role, drop_user, Endpoint,
}
use mssql_k8s_operator.Api.Objects.{Login, DatabaseUser}
use mssql_k8s_operator.Controller.Object.Lifecycle.{
  apply_call, reconcile_object, keep_object, Kind, release_object, set_object_condition,
  drop_object,
}
use mssql_k8s_operator.Controller.Object.{ObjectWrite, ObjectEnv}
use mssql_k8s_operator.Prelude.{
  ℕ, zero, suc, ◌+◌, ◌-◌, ◌≤◌, ◌<◌, String, Bool, true, false, not, ◌&&◌, ◌||◌, Option, none, some,
  List, [], ◌∷◌, ◌++◌, map, ◌==◌, string_eq, nat_eq, int_eq, bool_eq, ℤ, pos, negsuc, if◌then◌else◌,
  ◌≡◌, ◌≢◌, refl, sym, ap, ◌∙◌, ◌⊎◌, ◌↔◌, inl, inr, arith, eq_iff, All, In, Bool-cases,
  Option-cases, lookup, lookup_or, length, take, drop,
}
use mssql_k8s_operator.Controller.Effect.{
  warning, Action, note, wrapped, ok, err, is_not_found, on_result, pure, ask, Run, Result, ◌>>=◌,
  ◌>>◌,
}
use mssql_k8s_operator.Controller.Helpers.{connect_to_sql, get_credentials_from_secret, exec}

pub record DatabaseUserEnv (W : Type 0) : Type 1 where
  pub object : ObjectEnv W DatabaseUser
  -- r.Get of a Login, by namespace and name
  pub get_login : String → String → W → Result Login × W

abbrev pub database_user_kind : Kind DatabaseUser
database_user_kind = record {
  meta_of = λ user. user.meta;
  with_meta = λ meta user. record user { meta = meta };
  conditions_of = λ user. user.status.conditions;
  with_conditions =
      λ conditions user. record user { status = record user.status { conditions = conditions } };
  with_observed = λ generation user. record user {
    status = record user.status { observed_generation = generation };
  };
}

module _ {W : Type 0} (env : DatabaseUserEnv W) where
  unfoldable pub set_database_user_condition :
      DatabaseUser → Bool → String → Run W (ObjectWrite DatabaseUser) (Result ℕ)
  unfolding set_object_condition
  set_database_user_condition user status reason =
      set_object_condition env.object database_user_kind user status reason

  unfoldable pub reconcile_database_roles :
      Endpoint
      → String
      → String
      → List String
      → Run W (ObjectWrite DatabaseUser) (Result (Unit {0}))
  unfolding reconcile_names
  reconcile_database_roles client database user desired = do
    observed ← ask (env.object.base.questions.get_user_database_roles client database user)
    on_result observed (λ e. pure (err (wrapped "failed to get database roles" e)))
        (reconcile_names env.object client (add_user_to_database_role database user)
          (remove_user_from_database_role database user) "DatabaseRoleAdded" "DatabaseRoleRemoved"
          desired)

  unfoldable pub drop_user_of :
      Endpoint → DatabaseUser → Run W (ObjectWrite DatabaseUser) (Result ℕ)
  unfolding drop_object release_object
  drop_user_of client user = do
    drop_object env.object database_user_kind client
        (drop_user user.spec.database_name user.spec.user_name) "DatabaseUserDropped"
    release_object env.object database_user_kind user

  -- the clean-up on a connected server; an error of the question is only logged
  unfoldable pub clean_up_user :
      Endpoint → DatabaseUser → Run W (ObjectWrite DatabaseUser) (Result ℕ)
  unfolding keep_object drop_user_of
  clean_up_user client user = do
    owns ← ask (
        env.object.base.questions.user_owns_objects client user.spec.database_name
          user.spec.user_name)
    on_result owns (λ e. drop_user_of client user)
        (λ owned.
          if owned
          then keep_object env.object database_user_kind user reason_user_owns_objects
          else drop_user_of client user)

  unfoldable pub handle_user_deletion : DatabaseUser → Run W (ObjectWrite DatabaseUser) (Result ℕ)
  unfolding release_object clean_up_user
  handle_user_deletion user =
      if not (env.object.contains_finalizer finalizer user.meta) then pure (ok 0) else (do
        credentials ←
            get_credentials_from_secret env.object.base user.meta.namespace
              user.spec.server.credentials_secret.name
        on_result credentials (λ e. release_object env.object database_user_kind user)
            (λ pair. (do
              connected ← connect_to_sql env.object.base user.spec.server pair.0 pair.1
              on_result connected (λ e. release_object env.object database_user_kind user)
                  (λ client. clean_up_user client user))))

  -- steps 6 to 8
  unfoldable pub apply_user :
      Endpoint → DatabaseUser → Login → Run W (ObjectWrite DatabaseUser) (Result ℕ)
  unfolding reconcile_database_roles set_database_user_condition
  apply_user client user login = do
    exists ←
        ask
          (env.object.base.questions.user_exists client user.spec.database_name user.spec.user_name)
    on_result exists (λ e. pure (err (wrapped "failed to check user existence" e)))
        (λ there. (do
          created ←
              if there
              then pure (ok tt)
              else apply_call env.object database_user_kind client
                  (create_user user.spec.database_name user.spec.user_name login.spec.login_name)
                  "failed to create user" "DatabaseUserCreated"
          on_result created (λ e. pure (err e))
              (λ _. (do
                roles ←
                    reconcile_database_roles client user.spec.database_name user.spec.user_name
                      user.spec.database_roles
                on_result roles (λ e. pure (err e))
                    (λ _. set_database_user_condition user true reason_ready)))))

  -- steps 4 and 5
  unfoldable pub connect_user : DatabaseUser → Login → Run W (ObjectWrite DatabaseUser) (Result ℕ)
  unfolding set_database_user_condition apply_user
  connect_user user login = do
    credentials ←
        get_credentials_from_secret env.object.base user.meta.namespace
          user.spec.server.credentials_secret.name
    on_result credentials
        (λ e.
          set_database_user_condition user false
            (if is_not_found e then reason_secret_not_found else reason_invalid_credentials_secret))
        (λ pair. (do
          connected ← connect_to_sql env.object.base user.spec.server pair.0 pair.1
          on_result connected
              (λ e. (do
                note (Action.event warning reason_connection_failed)
                pure (err (wrapped "failed to connect to SQL Server" e))))
              (λ client. apply_user client user login)))

  -- from step 3 on
  unfoldable pub reconcile_live_user : DatabaseUser → Run W (ObjectWrite DatabaseUser) (Result ℕ)
  unfolding set_database_user_condition connect_user
  reconcile_live_user user = do
    fetched ← ask (env.get_login user.meta.namespace user.spec.login_ref.name)
    on_result fetched
        (λ e.
          if is_not_found e
          then set_database_user_condition user false reason_login_ref_not_found
          else pure (err e))
        (λ login. connect_user user login)

  unfoldable pub reconcile_database_user :
      String → String → Run W (ObjectWrite DatabaseUser) (Result ℕ)
  unfolding reconcile_object handle_user_deletion reconcile_live_user
  reconcile_database_user namespace name =
      reconcile_object env.object database_user_kind handle_user_deletion reconcile_live_user
        namespace name
