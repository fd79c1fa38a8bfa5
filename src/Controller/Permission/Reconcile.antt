-- ===== src/Controller/Permission/Reconcile.antt =====
-- internal/controller/permission_controller.go: Reconcile and the condition that it reports.
use mssql_k8s_operator.Api.Meta.{
  reason_ready, reason_connection_failed, reason_invalid_credentials_secret,
  reason_secret_not_found, condition_ready, finalizer,
}
use mssql_k8s_operator.Controller.Helpers.{connect_to_sql, commit, get_credentials_from_secret}
use mssql_k8s_operator.Controller.Object.{
  requeue_interval, update, patch_status, ObjectWrite, requeue_with_jitter,
}
use mssql_k8s_operator.Api.Objects.{Permission}
use mssql_k8s_operator.Controller.Permission.{
  apply_permissions, handle_permission_deletion, PermissionEnv,
}
use mssql_k8s_operator.Prelude.{
  ℕ, String, Bool, true, false, string_eq, nat_eq, int_eq, bool_eq, if◌then◌else◌,
}
use mssql_k8s_operator.Controller.Effect.{
  wrapped, on_option, warning, err, Action, ok, note, is_not_found, on_result, pure, ask, Result,
  Run, ◌>>=◌, ◌>>◌,
}

module _ {W : Type 0} (env : PermissionEnv W) where
  unfoldable pub set_permission_condition :
      Permission → Bool → String → Run W (ObjectWrite Permission) (Result ℕ)
  unfolding requeue_with_jitter
  set_permission_condition perm status reason = do
    patched ← commit env.object.base (
        patch_status (record perm {
          status = record {
            conditions = env.object.base.set_status_condition perm.status.conditions (record {
              type = condition_ready;
              status = status;
              reason = reason;
              observed_generation = perm.meta.generation;
            });
            observed_generation = perm.meta.generation;
          };
        }))
    on_result patched (λ e. pure (err e))
        (λ _.
          if status
          then (do after ← requeue_with_jitter env.object requeue_interval; pure (ok after))
          else pure (ok 0))

  -- steps 4 to 10
  unfoldable pub connect_and_apply :
      Permission → String → String → Run W (ObjectWrite Permission) (Result ℕ)
  unfolding set_permission_condition
  connect_and_apply perm username password = do
    connected ← connect_to_sql env.object.base perm.spec.server username password
    on_result connected
        (λ e. (do
          note (Action.event warning reason_connection_failed)
          pure (err (wrapped "failed to connect to SQL Server" e))))
        (λ client. (do
          observed ← ask (
              env.object.base.questions.get_permissions client perm.spec.database_name
                perm.spec.user_name)
          on_result observed (λ e. pure (err (wrapped "failed to get current permissions" e)))
              (λ current. (do
                applied ← apply_permissions env client perm current
                on_result applied (λ e. pure (err e))
                    (λ _. set_permission_condition perm true reason_ready)))))

  -- step 2, for an object that is not being deleted
  unfoldable pub ensure_permission_finalizer :
      Permission → Run W (ObjectWrite Permission) (Result Permission)
  ensure_permission_finalizer perm =
      let held = record perm { meta = env.object.add_finalizer finalizer perm.meta } in
      if env.object.contains_finalizer finalizer perm.meta then pure (ok perm) else (do
        updated ← commit env.object.base (update held)
        on_result updated (λ e. pure (err e)) (λ _. pure (ok held)))

  -- from step 3 on
  unfoldable pub reconcile_live_permission : Permission → Run W (ObjectWrite Permission) (Result ℕ)
  unfolding set_permission_condition connect_and_apply
  reconcile_live_permission perm = do
    credentials ←
        get_credentials_from_secret env.object.base perm.meta.namespace
          perm.spec.server.credentials_secret.name
    on_result credentials
        (λ e.
          set_permission_condition perm false
            (if is_not_found e then reason_secret_not_found else reason_invalid_credentials_secret))
        (λ pair. connect_and_apply perm pair.0 pair.1)

  unfoldable pub reconcile_permission : String → String → Run W (ObjectWrite Permission) (Result ℕ)
  unfolding handle_permission_deletion ensure_permission_finalizer reconcile_live_permission
  reconcile_permission namespace name = do
    fetched ← ask (env.object.get_object namespace name)
    on_result fetched (λ e. if is_not_found e then pure (ok 0) else pure (err e))
        (λ perm.
          on_option perm.meta.deletion_timestamp
            (do
              held ← ensure_permission_finalizer perm
              on_result held (λ e. pure (err e)) reconcile_live_permission)
            (λ _. handle_permission_deletion env perm))
