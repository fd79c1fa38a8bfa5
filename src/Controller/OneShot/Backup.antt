-- ===== src/Controller/OneShot/Backup.antt =====
-- internal/controller/backup_controller.go: setBackupStatus, and Reconcile in the order of its steps.
use mssql_k8s_operator.Webhook.Checks.{bool_value}
use mssql_k8s_operator.Controller.Helpers.{commit, connect_to_sql, get_credentials_from_secret}
use mssql_k8s_operator.Controller.Helpers.{exec}
use mssql_k8s_operator.Api.Meta.{
  reason_invalid_credentials_secret, reason_secret_not_found, reason_connection_failed,
  condition_ready,
}
use mssql_k8s_operator.Api.Backups.{
  backup_phase_running, backup_phase_failed, backup_phase_completed, Backup,
}
use mssql_k8s_operator.Controller.OneShot.{OneShotEnv}
use mssql_k8s_operator.Sql.Client.{backup_database, SqlCall, Endpoint}
use mssql_k8s_operator.Prelude.{
  ℕ, String, Bool, true, false, ◌||◌, some, ◌==◌, string_eq, nat_eq, int_eq, bool_eq, if◌then◌else◌,
}
use mssql_k8s_operator.Controller.Effect.{
  wrapped, ok, err, pure, is_not_found, normal, warning, on_result, Action, note, ask, on_option,
  Result, Run, ◌>>=◌, ◌>>◌,
}

abbrev pub BackupEnv : Type 0 → Type 1
BackupEnv W = OneShotEnv W Backup

module _ {W : Type 0} (env : BackupEnv W) where
  -- the status that it writes, which its caller's object has afterwards
  unfoldable pub backup_with_status : Backup → String → String → Backup
  backup_with_status backup phase reason = record backup {
    status = record backup.status {
      phase = phase;
      observed_generation = backup.meta.generation;
      conditions = env.base.set_status_condition backup.status.conditions (record {
        type = condition_ready;
        status = false;
        reason = reason;
        observed_generation = backup.meta.generation;
      });
    };
  }

  unfoldable pub set_backup_status : Backup → String → String → Run W Backup (Result ℕ)
  unfolding backup_with_status
  set_backup_status backup phase reason = do
    patched ← commit env.base (backup_with_status backup phase reason)
    on_result patched (λ e. pure (err e)) (λ _. pure (ok 0))

  -- step 5, from the second Get on: the start time is set once
  unfoldable pub start_backup : Backup → ℕ → Run W Backup (Result Backup)
  start_backup backup now =
      let started = record backup { status = record backup.status { start_time = some now } } in
      on_option backup.status.start_time
        (do
          patched ← commit env.base started
          on_result patched (λ e. pure (err e)) (λ _. pure (ok started)))
        (λ _. pure (ok backup))

  -- step 5
  unfoldable pub run_backup : String → String → Backup → Run W Backup (Result Backup)
  unfolding set_backup_status start_backup
  run_backup namespace name backup = do
    now ← ask env.base.now
    if backup.status.phase == backup_phase_running then pure (ok backup) else (do
      running ← set_backup_status backup backup_phase_running "BackupRunning"
      on_result running (λ e. pure (err e))
          (λ _. (do
            fetched ← ask (env.get_object namespace name)
            on_result fetched (λ e. pure (err e)) (λ again. start_backup again now))))

  unfoldable pub completed_backup : Backup → ℕ → Backup
  completed_backup backup now = record backup {
    status = record backup.status {
      phase = backup_phase_completed;
      completion_time = some now;
      observed_generation = backup.meta.generation;
      conditions = env.base.set_status_condition backup.status.conditions (record {
        type = condition_ready;
        status = true;
        reason = "BackupCompleted";
        observed_generation = backup.meta.generation;
      });
    };
  }

  -- step 7
  unfoldable pub complete_backup : String → String → Run W Backup (Result ℕ)
  unfolding completed_backup
  complete_backup namespace name = do
    note (Action.event normal "BackupCompleted")
    now ← ask env.base.now
    fetched ← ask (env.get_object namespace name)
    on_result fetched (λ e. pure (err e))
        (λ backup. (do
          patched ← commit env.base (completed_backup backup now)
          on_result patched (λ e. pure (err e)) (λ _. pure (ok 0))))

  abbrev pub backup_call : Backup → SqlCall
  backup_call backup =
      backup_database backup.spec.database_name backup.spec.destination backup.spec.type
        (bool_value backup.spec.compression)

  -- steps 6 and 7
  unfoldable pub execute_backup : String → String → Endpoint → Backup → Run W Backup (Result ℕ)
  unfolding complete_backup set_backup_status
  execute_backup namespace name client backup = do
    executed ← exec env.base client (backup_call backup)
    on_result executed
        (λ e. (do
          note (Action.event warning "BackupFailed")
          set_backup_status backup backup_phase_failed "BackupFailed"))
        (λ _. complete_backup namespace name)

  -- steps 4 to 7
  unfoldable pub perform_backup :
      String → String → Backup → String → String → Run W Backup (Result ℕ)
  unfolding run_backup execute_backup
  perform_backup namespace name backup username password = do
    connected ← connect_to_sql env.base backup.spec.server username password
    on_result connected
        (λ e. (do
          note (Action.event warning reason_connection_failed)
          pure (err (wrapped "failed to connect to SQL Server" e))))
        (λ client. (do
          started ← run_backup namespace name backup
          on_result started (λ e. pure (err e)) (execute_backup namespace name client)))

  -- step 3, for a backup that is not done
  unfoldable pub reconcile_open_backup : String → String → Backup → Run W Backup (Result ℕ)
  unfolding set_backup_status perform_backup
  reconcile_open_backup namespace name backup = do
    credentials ←
        get_credentials_from_secret env.base backup.meta.namespace
          backup.spec.server.credentials_secret.name
    on_result credentials
        (λ e.
          set_backup_status backup backup_phase_failed
            (if is_not_found e then reason_secret_not_found else reason_invalid_credentials_secret))
        (λ pair. perform_backup namespace name backup pair.0 pair.1)

  abbrev pub is_backup_done : Backup → Bool
  is_backup_done backup =
      (backup.status.phase == backup_phase_completed)
      || (backup.status.phase == backup_phase_failed)

  unfoldable pub reconcile_backup : String → String → Run W Backup (Result ℕ)
  unfolding reconcile_open_backup
  reconcile_backup namespace name = do
    fetched ← ask (env.get_object namespace name)
    on_result fetched (λ e. if is_not_found e then pure (ok 0) else pure (err e))
        (λ backup.
          if is_backup_done backup
          then pure (ok 0)
          else reconcile_open_backup namespace name backup)
