-- ===== src/Controller/DatabaseUser/Safety.antt =====
-- Which statements a reconciliation of a DatabaseUser sends.
use mssql_k8s_operator.Prelude.{
  subst, String, Bool, true, false, List, [], string_eq, nat_eq, int_eq, bool_eq, ◌≡◌, refl, sym,
  All,
}
use mssql_k8s_operator.Api.Meta.{reason_login_ref_not_found}
use mssql_k8s_operator.Controller.Object.Sets.{reconcile_names-Keeps, reconcile_names}
use mssql_k8s_operator.Controller.Effect.Keeps.{
  Keeps-pure, Keeps-if, Keeps-ask, keeps_rules, Keeps-bind_post, Keeps,
}
use mssql_k8s_operator.Controller.Helpers.{connect_to_sql, get_credentials_from_secret}
use mssql_k8s_operator.Sql.Client.{
  drop_user, remove_user_from_database_role, add_user_to_database_role, Endpoint, create_user,
}
use mssql_k8s_operator.Controller.Object.Lifecycle.{
  is_some_lem, drop_object-Keeps, drop_object, apply_call-Keeps, reconcile_object-All,
  release_object-Keeps, apply_call, keep_object-Keeps, is_some, set_object_condition-Keeps,
  release_object, keep_object,
}
use mssql_k8s_operator.Controller.Object.{ObjectWrite, contains_text}
use mssql_k8s_operator.Api.Objects.{Login, DatabaseUser, DatabaseUserSpec}
use mssql_k8s_operator.Controller.DatabaseUser.{
  drop_user_of, clean_up_user, database_user_kind, apply_user, connect_user, reconcile_live_user,
  set_database_user_condition, reconcile_database_roles, handle_user_deletion,
  reconcile_database_user, DatabaseUserEnv,
}
use mssql_k8s_operator.Controller.Effect.{err, is_not_found, ask, Run, EventType, ok, Action}

-- A statement about the user of `spec`: it is made for the login `login_name`, given the roles that
-- are listed and stripped of those that are not, and dropped only when its object is being deleted.
abbrev pub IsUserCall :
    DatabaseUserSpec → String → Bool → Action (ObjectWrite DatabaseUser) → Type 0
IsUserCall spec login_name deleted (Action.sql client (create_user database user login)) =
    (database ≡ spec.database_name) × (user ≡ spec.user_name) × (login ≡ login_name)
IsUserCall spec login_name deleted
      (Action.sql client (add_user_to_database_role database user role)) =
    (database ≡ spec.database_name)
    × (user ≡ spec.user_name)
    × (contains_text role spec.database_roles ≡ true)
IsUserCall spec login_name deleted
      (Action.sql client (remove_user_from_database_role database user role)) =
    (database ≡ spec.database_name)
    × (user ≡ spec.user_name)
    × (contains_text role spec.database_roles ≡ false)
IsUserCall spec login_name deleted (Action.sql client (drop_user database user)) =
    (database ≡ spec.database_name) × (user ≡ spec.user_name) × (deleted ≡ true)
IsUserCall spec login_name deleted (Action.sql client _) = ⊥
IsUserCall spec login_name deleted _ = Unit

module _ {W : Type 0} (env : DatabaseUserEnv W)
    (range_keys : (names : List String) (k : String)
      → contains_text k (env.object.range_set names) ≡ contains_text k names) where
  module _ (user : DatabaseUser) (login_name : String) (deleted : Bool) where
    abbrev IsSent : Action (ObjectWrite DatabaseUser) → Type 0
    IsSent act = IsUserCall user.spec login_name deleted act

    abbrev Safe : {A : Type 0} → Run W (ObjectWrite DatabaseUser) A → Type 0
    Safe m = Keeps IsSent m

    written : (w : ObjectWrite DatabaseUser) → IsSent (Action.write w)
    written w = tt

    noted : (t : EventType) (reason : String) → IsSent (Action.event t reason)
    noted t reason = tt

    set_database_user_condition-Keeps :
        (status : Bool) (reason : String)
        → Safe (set_database_user_condition env user status reason)
    unfolding set_database_user_condition
    set_database_user_condition-Keeps status reason =
        set_object_condition-Keeps env.object database_user_kind written noted user status reason

    release-Keeps : Safe (release_object env.object database_user_kind user)
    release-Keeps = release_object-Keeps env.object database_user_kind written noted user

    keep-Keeps : (reason : String) → Safe (keep_object env.object database_user_kind user reason)
    keep-Keeps = keep_object-Keeps env.object database_user_kind written noted user

    reconcile_database_roles-Keeps :
        (client : Endpoint)
        → Safe (
            reconcile_database_roles env client user.spec.database_name user.spec.user_name
              user.spec.database_roles)
    unfolding reconcile_database_roles
    reconcile_database_roles-Keeps client =
        let both : (current : List String)
            → Safe (
                reconcile_names env.object client
                  (add_user_to_database_role user.spec.database_name user.spec.user_name)
                  (remove_user_from_database_role user.spec.database_name user.spec.user_name)
                  "DatabaseRoleAdded" "DatabaseRoleRemoved" user.spec.database_roles current) =
          λ current.
            reconcile_names-Keeps env.object client _ _ _ _ user.spec.database_roles current
              range_keys noted (λ role listed. (refl, refl, listed))
              (λ role missing. (refl, refl, missing)) in
        search (keeps_rules, both) depth 10

    apply_user-Keeps :
        (client : Endpoint) (login : Login)
        → login.spec.login_name ≡ login_name
        → Safe (apply_user env client user login)
    unfolding apply_user
    apply_user-Keeps client login same =
        let created : (context reason : String)
            → Safe (
                apply_call env.object database_user_kind client
                  (create_user user.spec.database_name user.spec.user_name login.spec.login_name)
                  context reason) =
          λ context reason.
            apply_call-Keeps env.object database_user_kind noted client _ context reason
              (refl, refl, same) in
        search
          (keeps_rules, created, reconcile_database_roles-Keeps, set_database_user_condition-Keeps)
          depth 24

    connect_user-Keeps :
        (login : Login) → login.spec.login_name ≡ login_name → Safe (connect_user env user login)
    unfolding connect_user get_credentials_from_secret connect_to_sql
    connect_user-Keeps login same =
        search (keeps_rules, noted, apply_user-Keeps, set_database_user_condition-Keeps) depth 24

    reconcile_live_user-Keeps :
        ((w : W) (login : Login)
          → (env.get_login user.meta.namespace user.spec.login_ref.name w).0 ≡ ok login
          → login.spec.login_name ≡ login_name)
        → Safe (reconcile_live_user env user)
    unfolding reconcile_live_user
    reconcile_live_user-Keeps logins =
        Keeps-bind_post (λ login. login.spec.login_name ≡ login_name)
          (ask (env.get_login user.meta.namespace user.spec.login_ref.name)) _ _ (Keeps-ask _)
          (λ s login e. logins s.outside login e)
          (λ e.
            Keeps-if (is_not_found e) _ _
              (λ _. set_database_user_condition-Keeps false reason_login_ref_not_found)
              (λ _. Keeps-pure (err e)))
          connect_user-Keeps

    handle_user_deletion-Keeps : deleted ≡ true → Safe (handle_user_deletion env user)
    unfolding handle_user_deletion clean_up_user drop_user_of get_credentials_from_secret
        connect_to_sql
    handle_user_deletion-Keeps gone =
        let drops : (client : Endpoint)
            → Safe (
                drop_object env.object database_user_kind client
                  (drop_user user.spec.database_name user.spec.user_name) "DatabaseUserDropped") =
          λ client.
            drop_object-Keeps env.object database_user_kind noted client _ _ (refl, refl, gone) in
        search (keeps_rules, release-Keeps, keep-Keeps, drops) depth 24

  -- If Go ranges over the keys of a set, and each fetch of the Login that the DatabaseUser `user`
  -- names gives the login name `login_name`, then a reconciliation that fetches `user` sends
  -- statements about that user of its database only: it creates it for that login, gives it roles
  -- that the specification lists and takes from it roles that the specification does not list, and
  -- drops it only if `user` is being deleted.
  pub reconcile_database_user-sends :
      (namespace name : String) (user : DatabaseUser) (login_name : String) (w : W)
      → (env.object.get_object namespace name w).0 ≡ ok user
      → ((ns : String) (v : W) (login : Login)
          → (env.get_login ns user.spec.login_ref.name v).0 ≡ ok login
          → login.spec.login_name ≡ login_name)
      → All
          (IsUserCall user.spec login_name (is_some user.meta.deletion_timestamp))
          (reconcile_database_user env namespace name (record { outside = w; log = [] })).1.log
  unfolding reconcile_database_user
  reconcile_database_user-sends namespace name user login_name w fetched logins =
      let deleted = is_some user.meta.deletion_timestamp in
      reconcile_object-All env.object database_user_kind (λ _. tt) (λ _ _. tt)
        (handle_user_deletion env) (reconcile_live_user env) user (λ o. o.spec ≡ user.spec) refl
        (λ meta. refl) namespace name w fetched
        (λ gone.
          handle_user_deletion-Keeps user login_name deleted
            (is_some_lem user.meta.deletion_timestamp gone))
        (λ o same. rw (sym same) (
          reconcile_live_user-Keeps o login_name deleted (λ v login e.
            logins o.meta.namespace v login (
              subst (λ x. (env.get_login o.meta.namespace x.login_ref.name v).0 ≡ ok login) same
                e))))
