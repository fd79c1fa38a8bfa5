-- ===== src/Controller/Login/Deletion.antt =====
-- What the deletion of a Login sends to the server.
use mssql_k8s_operator.Controller.Helpers.{connect_to_sql, get_credentials_from_secret}
use mssql_k8s_operator.Controller.Effect.Keeps.{Keeps-pure, Keeps-if, keeps_rules, Keeps}
use mssql_k8s_operator.Api.Meta.{finalizer, deletion_policy_delete}
use mssql_k8s_operator.Controller.Object.{requeue_with_jitter, ObjectWrite}
use mssql_k8s_operator.Sql.Client.{drop_login, Endpoint}
use mssql_k8s_operator.Api.Objects.{Login}
use mssql_k8s_operator.Controller.Login.{
  keep_used_login, drop_login_of, release_login, clean_up_login, handle_login_deletion,
  is_deleted_with, LoginEnv,
}
use mssql_k8s_operator.Prelude.{
  String, true, not, Option, none, some, [], string_eq, nat_eq, int_eq, bool_eq, ◌≡◌, refl, ap,
  arith, eq_iff, All,
}
use mssql_k8s_operator.Controller.Effect.{ok, EventType, Action}

abbrev pub IsLoginDrop : Login → Action (ObjectWrite Login) → Type 0
IsLoginDrop login (Action.sql client call) =
    (call ≡ drop_login login.spec.login_name)
    × (login.spec.deletion_policy ≡ some deletion_policy_delete)
IsLoginDrop login (Action.write w) = Unit
IsLoginDrop login (Action.event t reason) = Unit

abbrev pub IsNoSql : Action (ObjectWrite Login) → Type 0
IsNoSql (Action.sql client call) = ⊥
IsNoSql (Action.write w) = Unit
IsNoSql (Action.event t reason) = Unit

module _ {W : Type 0} (env : LoginEnv W) where
  module _ (login : Login) {Ok : Action (ObjectWrite Login) → Type 0}
      (written : (w : ObjectWrite Login) → Ok (Action.write w))
      (noted : (t : EventType) (reason : String) → Ok (Action.event t reason)) where
    pub release_login-Keeps : Keeps Ok (release_login env login)
    unfolding release_login
    release_login-Keeps = search (keeps_rules, written) depth 8

    pub keep_used_login-Keeps : Keeps Ok (keep_used_login env login)
    unfolding keep_used_login requeue_with_jitter
    keep_used_login-Keeps = search (keeps_rules, written, noted) depth 10

    pub drop_login_of-Keeps :
        (client : Endpoint)
        → Ok (Action.sql client (drop_login login.spec.login_name))
        → Keeps Ok (drop_login_of env client login)
    unfolding drop_login_of
    drop_login_of-Keeps client allowed = search (keeps_rules, noted) depth 8

    pub clean_up_login-Keeps :
        (client : Endpoint)
        → Ok (Action.sql client (drop_login login.spec.login_name))
        → Keeps Ok (clean_up_login env client login)
    unfolding clean_up_login
    clean_up_login-Keeps client allowed =
        search (keeps_rules, release_login-Keeps, keep_used_login-Keeps, drop_login_of-Keeps) depth
          12

    pub handle_login_deletion-Keeps :
        (is_deleted_with env login.spec.deletion_policy ≡ true
          → (client : Endpoint) → Keeps Ok (clean_up_login env client login))
        → Keeps Ok (handle_login_deletion env login)
    unfolding handle_login_deletion get_credentials_from_secret connect_to_sql
    handle_login_deletion-Keeps clean =
        Keeps-if (not (env.contains_finalizer finalizer login.meta)) _ _ (λ _. Keeps-pure (ok 0))
          (λ _.
            Keeps-if (is_deleted_with env login.spec.deletion_policy) _ _
              (λ e.
                (let cleaned = clean e in
                  search (keeps_rules, release_login-Keeps, cleaned) depth 14))
              (λ _. release_login-Keeps))

  pub is_deleted_with_lem :
      (policy : Option String)
      → is_deleted_with env policy ≡ true
      → policy ≡ some deletion_policy_delete
  is_deleted_with_lem none h = ground arith
  is_deleted_with_lem (some p) h = ap some ((eq_iff p deletion_policy_delete).0 h)

  -- The only statement that the deletion of a Login sends is the drop of its login, and it sends it
  -- only under the policy Delete.
  pub handle_login_deletion-drops :
      (login : Login) (w : W)
      → All
          (IsLoginDrop login)
          (handle_login_deletion env login (record { outside = w; log = [] })).1.log
  handle_login_deletion-drops login w =
      (handle_login_deletion-Keeps login {Ok = IsLoginDrop login} (λ _. tt) (λ _ _. tt)
          (λ e client.
            clean_up_login-Keeps login (λ _. tt) (λ _ _. tt) client
              (refl, is_deleted_with_lem login.spec.deletion_policy e))).at
        (record { outside = w; log = [] }) tt

  pub clean_up_login-used :
      (login : Login) (client : Endpoint)
      → ((w : W) → (env.base.questions.login_has_users client login.spec.login_name w).0 ≡ ok true)
      → Keeps IsNoSql (clean_up_login env client login)
  unfolding clean_up_login
  clean_up_login-used login client used = record {
    at = λ s l. rw (used s.outside) (
        (keep_used_login-Keeps login {Ok = IsNoSql} (λ _. tt) (λ _ _. tt)).at
          (record s {
            outside = (env.base.questions.login_has_users client login.spec.login_name s.outside).1;
          })
          l);
  }

  -- While the server answers that the login has users, the deletion of a Login sends no statement
  -- that changes the server.
  pub handle_login_deletion-used :
      (login : Login) (w : W)
      → ((client : Endpoint) (v : W)
          → (env.base.questions.login_has_users client login.spec.login_name v).0 ≡ ok true)
      → All IsNoSql (handle_login_deletion env login (record { outside = w; log = [] })).1.log
  handle_login_deletion-used login w used =
      (handle_login_deletion-Keeps login {Ok = IsNoSql} (λ _. tt) (λ _ _. tt)
          (λ _ client. clean_up_login-used login client (used client))).at
        (record { outside = w; log = [] }) tt
