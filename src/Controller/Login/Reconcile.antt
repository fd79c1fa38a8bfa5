-- ===== src/Controller/Login/Reconcile.antt =====
-- internal/controller/login_controller.go: Reconcile, in the order of its steps.
use mssql_k8s_operator.Controller.Helpers.{
  exec, connect_to_sql, commit, get_credentials_from_secret,
}
use mssql_k8s_operator.Sql.Client.{
  update_login_password, create_login, set_login_default_database, Endpoint,
}
use mssql_k8s_operator.Api.Objects.{Login}
use mssql_k8s_operator.Api.Meta.{
  reason_invalid_credentials_secret, reason_secret_not_found, reason_ready,
  reason_connection_failed, condition_ready, finalizer,
}
use mssql_k8s_operator.Controller.Object.{
  requeue_interval, update, patch_status, ObjectWrite, requeue_with_jitter,
}
use mssql_k8s_operator.Prelude.{
  ℕ, String, true, false, not, ◌==◌, string_eq, nat_eq, int_eq, bool_eq, if◌then◌else◌, lookup,
}
use mssql_k8s_operator.Controller.Effect.{
  wrapped, is_not_found, normal, err, warning, Action, ok, on_result, on_option, pure, note, ask,
  Result, Run, ◌>>=◌, ◌>>◌,
}
use mssql_k8s_operator.Controller.Login.{
  LoginEnv, set_login_condition, reconcile_server_roles, handle_login_deletion,
}

module _ {W : Type 0} (env : LoginEnv W) where
  -- step 7, the login itself; `version` is the resource version of the password's secret
  unfoldable pub ensure_login :
      Endpoint → Login → String → String → Run W (ObjectWrite Login) (Result (Unit {0}))
  ensure_login client login password version = do
    exists ← ask (env.base.questions.login_exists client login.spec.login_name)
    on_result exists (λ e. pure (err (wrapped "failed to check login existence" e)))
        (λ there.
          if not there
          then (do
            created ← exec env.base client (create_login login.spec.login_name password)
            on_result created (λ e. pure (err (wrapped "failed to create login" e)))
                (λ _. (do note (Action.event normal "LoginCreated"); pure (ok tt))))
          else if not (version == login.status.password_secret_resource_version)
          then (do
            rotated ← exec env.base client (update_login_password login.spec.login_name password)
            on_result rotated (λ e. pure (err (wrapped "failed to update login password" e)))
                (λ _. (do note (Action.event normal "LoginPasswordRotated"); pure (ok tt))))
          else pure (ok tt))

  unfoldable pub ensure_default_database :
      Endpoint → Login → Run W (ObjectWrite Login) (Result (Unit {0}))
  ensure_default_database client login =
      on_option login.spec.default_database (pure (ok tt)) (λ database. (do
        current ← ask (env.base.questions.get_login_default_database client login.spec.login_name)
        on_result current (λ e. pure (err (wrapped "failed to get default database" e)))
            (λ now. if now == database then pure (ok tt) else (do
              moved ←
                  exec env.base client (set_login_default_database login.spec.login_name database)
              on_result moved (λ e. pure (err (wrapped "failed to set default database" e)))
                  (λ _. pure (ok tt))))))

  -- step 8
  unfoldable pub report_login : Login → String → Run W (ObjectWrite Login) (Result ℕ)
  unfolding requeue_with_jitter
  report_login login version = do
    patched ← commit env.base (
        patch_status (record login {
          status = record {
            password_secret_resource_version = version;
            conditions = env.base.set_status_condition login.status.conditions (record {
              type = condition_ready;
              status = true;
              reason = reason_ready;
              observed_generation = login.meta.generation;
            });
            observed_generation = login.meta.generation;
          };
        }))
    on_result patched (λ e. pure (err e))
        (λ _. (do after ← requeue_with_jitter env requeue_interval; pure (ok after)))

  -- steps 5 to 8
  unfoldable pub apply_login :
      Login → String → String → String → String → Run W (ObjectWrite Login) (Result ℕ)
  unfolding ensure_login ensure_default_database reconcile_server_roles report_login
  apply_login login username sa_password password version = do
    connected ← connect_to_sql env.base login.spec.server username sa_password
    on_result connected
        (λ e. (do
          note (Action.event warning reason_connection_failed)
          pure (err (wrapped "failed to connect to SQL Server" e))))
        (λ client. (do
          ensured ← ensure_login client login password version
          on_result ensured (λ e. pure (err e))
              (λ _. (do
                placed ← ensure_default_database client login
                on_result placed (λ e. pure (err e))
                    (λ _. (do
                      roles ←
                          reconcile_server_roles env client login.spec.login_name
                            login.spec.server_roles
                      on_result roles (λ e. pure (err e)) (λ _. report_login login version)))))))

  -- step 4
  unfoldable pub with_password : Login → String → String → Run W (ObjectWrite Login) (Result ℕ)
  unfolding set_login_condition apply_login
  with_password login username sa_password = do
    fetched ← ask (env.base.get_secret login.meta.namespace login.spec.password_secret.name)
    on_result fetched
        (λ e.
          set_login_condition env login false
            (if is_not_found e then reason_secret_not_found else reason_connection_failed))
        (λ secret.
          on_option (lookup "password" secret.contents)
            (set_login_condition env login false reason_invalid_credentials_secret)
            (λ password. apply_login login username sa_password password secret.resource_version))

  -- from step 3 on
  unfoldable pub reconcile_live_login : Login → Run W (ObjectWrite Login) (Result ℕ)
  unfolding set_login_condition with_password
  reconcile_live_login login = do
    credentials ←
        get_credentials_from_secret env.base login.meta.namespace
          login.spec.server.credentials_secret.name
    on_result credentials
        (λ e.
          set_login_condition env login false
            (if is_not_found e then reason_secret_not_found else reason_invalid_credentials_secret))
        (λ pair. with_password login pair.0 pair.1)

  -- step 2, for an object that is not being deleted
  unfoldable pub ensure_login_finalizer : Login → Run W (ObjectWrite Login) (Result Login)
  ensure_login_finalizer login =
      let held = record login { meta = env.add_finalizer finalizer login.meta } in
      if env.contains_finalizer finalizer login.meta then pure (ok login) else (do
        updated ← commit env.base (update held)
        on_result updated (λ e. pure (err e)) (λ _. pure (ok held)))

  unfoldable pub reconcile_login : String → String → Run W (ObjectWrite Login) (Result ℕ)
  unfolding handle_login_deletion ensure_login_finalizer reconcile_live_login
  reconcile_login namespace name = do
    fetched ← ask (env.get_object namespace name)
    on_result fetched (λ e. if is_not_found e then pure (ok 0) else pure (err e))
        (λ login.
          on_option login.meta.deletion_timestamp
            (do
              held ← ensure_login_finalizer login
              on_result held (λ e. pure (err e)) reconcile_live_login)
            (λ _. handle_login_deletion env login))
