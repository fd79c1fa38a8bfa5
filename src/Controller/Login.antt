-- ===== src/Controller/Login.antt =====
-- internal/controller/login_controller.go: the conditions, the server roles, and the deletion.
pub mod Reconcile
pub mod Deletion
pub mod Roles
mod Tests
use mssql_k8s_operator.Controller.Object.Sets.{reconcile_names}
use mssql_k8s_operator.Prelude.{
  ℕ, zero, suc, ◌+◌, ◌-◌, ◌≤◌, ◌<◌, String, Bool, true, false, not, ◌&&◌, ◌||◌, Option, none, some,
  List, [], ◌∷◌, ◌++◌, map, ◌==◌, string_eq, nat_eq, int_eq, bool_eq, ℤ, pos, negsuc, if◌then◌else◌,
  ◌≡◌, ◌≢◌, refl, sym, ap, ◌∙◌, ◌⊎◌, ◌↔◌, inl, inr, arith, eq_iff, All, In, Bool-cases,
  Option-cases, lookup, lookup_or, length, take, drop,
}
use mssql_k8s_operator.Controller.Helpers.{
  exec, connect_to_sql, commit, get_credentials_from_secret,
}
use mssql_k8s_operator.Sql.Client.{
  update_login_password, create_login, set_login_default_database, remove_login_from_server_role,
  add_login_to_server_role, drop_login, Endpoint,
}
use mssql_k8s_operator.Api.Objects.{Login}
use mssql_k8s_operator.Api.Meta.{
  reason_invalid_credentials_secret, reason_secret_not_found, reason_login_in_use, reason_ready,
  reason_connection_failed, condition_ready, finalizer, deletion_policy_delete,
}
use mssql_k8s_operator.Controller.Object.{
  requeue_interval, update, patch_status, ObjectWrite, contains_text, ObjectEnv,
  requeue_with_jitter,
}
use mssql_k8s_operator.Controller.Effect.{
  wrapped, is_not_found, normal, err, warning, Action, ok, on_result, on_option, pure, note, ask,
  Result, Run, ◌>>=◌, ◌>>◌,
}

abbrev pub LoginEnv : Type 0 → Type 1
LoginEnv W = ObjectEnv W Login

module _ {W : Type 0} (env : LoginEnv W) where
  unfoldable pub set_login_condition : Login → Bool → String → Run W (ObjectWrite Login) (Result ℕ)
  unfolding requeue_with_jitter
  set_login_condition login status reason = do
    patched ← commit env.base (
        patch_status (record login {
          status = record login.status {
            conditions = env.base.set_status_condition login.status.conditions (record {
              type = condition_ready;
              status = status;
              reason = reason;
              observed_generation = login.meta.generation;
            });
            observed_generation = login.meta.generation;
          };
        }))
    on_result patched (λ e. pure (err e))
        (λ _.
          if status
          then (do after ← requeue_with_jitter env requeue_interval; pure (ok after))
          else pure (ok 0))

  unfoldable pub reconcile_server_roles :
      Endpoint → String → List String → Run W (ObjectWrite Login) (Result (Unit {0}))
  unfolding reconcile_names
  reconcile_server_roles client name desired = do
    observed ← ask (env.base.questions.get_login_server_roles client name)
    on_result observed (λ e. pure (err (wrapped "failed to get server roles" e)))
        (reconcile_names env client (add_login_to_server_role name)
          (remove_login_from_server_role name) "ServerRoleAdded" "ServerRoleRemoved" desired)

  -- removes the finalizer and updates the object
  unfoldable pub release_login : Login → Run W (ObjectWrite Login) (Result ℕ)
  release_login login = do
    updated ←
        commit env.base (update (record login { meta = env.remove_finalizer finalizer login.meta }))
    on_result updated (λ e. pure (err e)) (λ _. pure (ok 0))

  unfoldable pub drop_login_of : Endpoint → Login → Run W (ObjectWrite Login) (Unit {0})
  drop_login_of client login = do
    dropped ← exec env.base client (drop_login login.spec.login_name)
    on_result dropped (λ e. pure tt) (λ _. note (Action.event normal "LoginDropped"))

  -- The login has users: the condition says so, its patch's error is dropped, and the object stays.
  unfoldable pub keep_used_login : Login → Run W (ObjectWrite Login) (Result ℕ)
  unfolding requeue_with_jitter
  keep_used_login login = do
    note (Action.event warning reason_login_in_use)
    commit env.base (
        patch_status (record login {
          status = record login.status {
            conditions = env.base.set_status_condition login.status.conditions (record {
              type = condition_ready;
              status = false;
              reason = reason_login_in_use;
              observed_generation = login.meta.generation;
            });
          };
        }))
    after ← requeue_with_jitter env requeue_interval
    pure (ok after)

  -- the clean-up on a connected server; an error of the question is only logged
  unfoldable pub clean_up_login : Endpoint → Login → Run W (ObjectWrite Login) (Result ℕ)
  unfolding drop_login_of keep_used_login release_login
  clean_up_login client login = do
    has_users ← ask (env.base.questions.login_has_users client login.spec.login_name)
    on_result has_users (λ e. (do drop_login_of client login; release_login login))
        (λ used.
          if used
          then keep_used_login login
          else (do drop_login_of client login; release_login login))

  abbrev pub is_deleted_with : Option String → Bool
  is_deleted_with none = false
  is_deleted_with (some policy) = policy == deletion_policy_delete

  unfoldable pub handle_login_deletion : Login → Run W (ObjectWrite Login) (Result ℕ)
  unfolding release_login clean_up_login
  handle_login_deletion login =
      if not (env.contains_finalizer finalizer login.meta)
      then pure (ok 0)
      else if is_deleted_with login.spec.deletion_policy
      then (do
        credentials ←
            get_credentials_from_secret env.base login.meta.namespace
              login.spec.server.credentials_secret.name
        on_result credentials (λ e. release_login login)
            (λ pair. (do
              connected ← connect_to_sql env.base login.spec.server pair.0 pair.1
              on_result connected (λ e. release_login login)
                  (λ client. clean_up_login client login))))
      else release_login login
