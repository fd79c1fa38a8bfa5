-- ===== src/Controller/Database/Reconcile.antt =====
-- internal/controller/database_controller.go: Reconcile, in the order of its steps.
use mssql_k8s_operator.Controller.Helpers.{connect_to_sql}
use mssql_k8s_operator.Controller.Object.{ObjectWrite}
use mssql_k8s_operator.Api.Meta.{
  reason_ready, reason_connection_failed, reason_collation_change_not_supported,
  reason_invalid_credentials_secret, reason_secret_not_found, ServerReference,
}
use mssql_k8s_operator.Sql.Client.{Endpoint}
use mssql_k8s_operator.Controller.Servers.{resolve_server_credentials, resolve_server_reference}
use mssql_k8s_operator.Api.Objects.{Database}
use mssql_k8s_operator.Controller.Object.Lifecycle.{reconcile_object}
use mssql_k8s_operator.Controller.Database.{
  database_kind, ensure_options, ensure_compatibility_level, ensure_recovery_model,
  set_database_condition, handle_database_deletion, ensure_database_owner, collation_drifts,
  ensure_database, DatabaseEnv,
}
use mssql_k8s_operator.Prelude.{
  ℕ, String, Bool, true, false, string_eq, nat_eq, int_eq, bool_eq, if◌then◌else◌,
}
use mssql_k8s_operator.Controller.Effect.{
  warning, wrapped, Action, err, pure, is_not_found, note, on_result, ask, on_option, Result, Run,
  ◌>>=◌, ◌>>◌,
}

module _ {W : Type 0} (env : DatabaseEnv W) where
  -- the end of step 6, and step 7
  unfoldable pub report_database :
      Endpoint → Database → Bool → Run W (ObjectWrite Database) (Result ℕ)
  unfolding collation_drifts set_database_condition
  report_database client db exists = do
    drifts ← collation_drifts env client db exists
    on_result drifts (λ e. pure (err e))
        (λ drifted.
          if drifted
          then (do
            note (Action.event warning reason_collation_change_not_supported)
            set_database_condition env db false reason_collation_change_not_supported)
          else set_database_condition env db true reason_ready)

  -- step 6, what is set on the database
  unfoldable pub configure_database :
      Endpoint → Database → Bool → Run W (ObjectWrite Database) (Result (Unit {0}))
  unfolding ensure_database ensure_database_owner ensure_recovery_model ensure_compatibility_level
      ensure_options
  configure_database client db exists = do
    created ← ensure_database env client db exists
    on_result created (λ e. pure (err e))
        (λ _. (do
          owned ← ensure_database_owner env client db
          on_result owned (λ e. pure (err e))
              (λ _. (do
                modelled ← ensure_recovery_model env client db exists
                on_result modelled (λ e. pure (err e))
                    (λ _. (do
                      levelled ← ensure_compatibility_level env client db exists
                      on_result levelled (λ e. pure (err e))
                          (λ _.
                            ensure_options env client db.spec.database_name db.spec.options)))))))

  -- from the observation on
  unfoldable pub apply_database : Endpoint → Database → Run W (ObjectWrite Database) (Result ℕ)
  unfolding configure_database report_database
  apply_database client db = do
    exists ← ask (env.object.base.questions.database_exists client db.spec.database_name)
    on_result exists (λ e. pure (err (wrapped "failed to check database existence" e)))
        (λ there. (do
          configured ← configure_database client db there
          on_result configured (λ e. pure (err e)) (λ _. report_database client db there)))

  -- step 5
  unfoldable pub connect_database :
      Database → ServerReference → String → String → Run W (ObjectWrite Database) (Result ℕ)
  unfolding apply_database
  connect_database db server username password = do
    connected ← connect_to_sql env.object.base server username password
    on_result connected
        (λ e. (do
          note (Action.event warning reason_connection_failed)
          pure (err (wrapped "failed to connect to SQL Server" e))))
        (λ client. apply_database client db)

  -- from step 3 on
  unfoldable pub reconcile_live_database : Database → Run W (ObjectWrite Database) (Result ℕ)
  unfolding resolve_server_reference resolve_server_credentials set_database_condition
      connect_database
  reconcile_live_database db = do
    resolved ←
        resolve_server_reference env.object.base env.get_sql_server db.meta.namespace db.spec.server
    on_option resolved.1
        (do
          credentials ←
              resolve_server_credentials env.object.base env.get_sql_server db.meta.namespace
                db.spec.server
          on_result credentials
              (λ e. set_database_condition env db false (
                if is_not_found e
                then reason_secret_not_found
                else reason_invalid_credentials_secret))
              (λ pair. connect_database db resolved.0 pair.0 pair.1))
        (λ e. set_database_condition env db false reason_connection_failed)

  unfoldable pub reconcile_database : String → String → Run W (ObjectWrite Database) (Result ℕ)
  unfolding reconcile_object handle_database_deletion reconcile_live_database
  reconcile_database namespace name =
      reconcile_object env.object database_kind (handle_database_deletion env)
        reconcile_live_database namespace name
