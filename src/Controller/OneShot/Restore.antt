-- ===== src/Controller/OneShot/Restore.antt =====
-- internal/controller/restore_controller.go: setRestoreStatus, and Reconcile in the order of its
-- steps.
use mssql_k8s_operator.Api.Meta.{
  reason_invalid_credentials_secret, reason_connection_failed, reason_secret_not_found,
  condition_ready,
}
use mssql_k8s_operator.Sql.Client.{
  restore_database_with_move, restore_database, restore_database_pit, SqlCall, Endpoint,
}
use mssql_k8s_operator.Api.Backups.{
  FileMapping, restore_phase_running, restore_phase_failed, restore_phase_completed, Restore,
  RestoreSpec,
}
use mssql_k8s_operator.Controller.OneShot.{OneShotEnv}
use mssql_k8s_operator.Prelude.{
  replace_entry, ℕ, String, Bool, true, false, ◌||◌, none, some, List, [], ◌∷◌, ◌==◌, string_eq,
  nat_eq, int_eq, bool_eq, if◌then◌else◌,
}
use mssql_k8s_operator.Controller.Effect.{
  wrapped, ok, normal, warning, err, pure, is_not_found, Action, note, ask, on_option, on_result,
  Result, Run, ◌>>=◌, ◌>>◌,
}
use mssql_k8s_operator.Controller.Helpers.{
  get_credentials_from_secret, commit, connect_to_sql, exec,
}

abbrev pub RestoreEnv : Type 0 → Type 1
RestoreEnv W = OneShotEnv W Restore

-- moves[m.LogicalName] = m.PhysicalPath, over the list
unfoldable pub add_moves : List (String × String) → List FileMapping → List (String × String)
add_moves moves [] = moves
add_moves moves (m ∷ ms) = add_moves (replace_entry m.logical_name m.physical_path moves) ms

-- without a point in time
unfoldable pub plain_restore_call : RestoreSpec → SqlCall
unfolding add_moves
plain_restore_call spec = elim spec.with_move [
  | [] ↦ restore_database spec.database_name spec.source
  | m ∷ ms ↦ restore_database_with_move spec.database_name spec.source (add_moves [] (m ∷ ms))
]

-- the switch of step 6
unfoldable pub restore_call : RestoreSpec → SqlCall
unfolding plain_restore_call
restore_call spec = elim spec.stop_at [
  | none ↦ plain_restore_call spec
  | some stop_at ↦ elim spec.log_source [
    | none ↦ plain_restore_call spec
    | some log_source ↦ restore_database_pit spec.database_name spec.source log_source stop_at
  ]
]

module _ {W : Type 0} (env : RestoreEnv W) where
  -- the status that it writes, which its caller's object has afterwards
  unfoldable pub restore_with_status : Restore → String → String → Restore
  restore_with_status restore phase reason = record restore {
    status = record restore.status {
      phase = phase;
      observed_generation = restore.meta.generation;
      conditions = env.base.set_status_condition restore.status.conditions (record {
        type = condition_ready;
        status = false;
        reason = reason;
        observed_generation = restore.meta.generation;
      });
    };
  }

  unfoldable pub set_restore_status : Restore → String → String → Run W Restore (Result ℕ)
  unfolding restore_with_status
  set_restore_status restore phase reason = do
    patched ← commit env.base (restore_with_status restore phase reason)
    on_result patched (λ e. pure (err e)) (λ _. pure (ok 0))

  -- step 5, from the second Get on: the start time is set once
  unfoldable pub start_restore : Restore → ℕ → Run W Restore (Result Restore)
  start_restore restore now =
      let started = record restore { status = record restore.status { start_time = some now } } in
      on_option restore.status.start_time
        (do
          patched ← commit env.base started
          on_result patched (λ e. pure (err e)) (λ _. pure (ok started)))
        (λ _. pure (ok restore))

  -- step 5
  unfoldable pub run_restore : String → String → Restore → Run W Restore (Result Restore)
  unfolding set_restore_status start_restore
  run_restore namespace name restore = do
    now ← ask env.base.now
    if restore.status.phase == restore_phase_running then pure (ok restore) else (do
      running ← set_restore_status restore restore_phase_running "RestoreRunning"
      on_result running (λ e. pure (err e))
          (λ _. (do
            fetched ← ask (env.get_object namespace name)
            on_result fetched (λ e. pure (err e)) (λ again. start_restore again now))))

  unfoldable pub completed_restore : Restore → ℕ → Restore
  completed_restore restore now = record restore {
    status = record restore.status {
      phase = restore_phase_completed;
      completion_time = some now;
      observed_generation = restore.meta.generation;
      conditions = env.base.set_status_condition restore.status.conditions (record {
        type = condition_ready;
        status = true;
        reason = "RestoreCompleted";
        observed_generation = restore.meta.generation;
      });
    };
  }

  -- step 7
  unfoldable pub complete_restore : String → String → Run W Restore (Result ℕ)
  unfolding completed_restore
  complete_restore namespace name = do
    note (Action.event normal "RestoreCompleted")
    now ← ask env.base.now
    fetched ← ask (env.get_object namespace name)
    on_result fetched (λ e. pure (err e))
        (λ restore. (do
          patched ← commit env.base (completed_restore restore now)
          on_result patched (λ e. pure (err e)) (λ _. pure (ok 0))))

  -- steps 6 and 7
  unfoldable pub execute_restore : String → String → Endpoint → Restore → Run W Restore (Result ℕ)
  unfolding complete_restore set_restore_status restore_call
  execute_restore namespace name client restore = do
    executed ← exec env.base client (restore_call restore.spec)
    on_result executed
        (λ e. (do
          note (Action.event warning "RestoreFailed")
          set_restore_status restore restore_phase_failed "RestoreFailed"))
        (λ _. complete_restore namespace name)

  -- steps 4 to 7
  unfoldable pub perform_restore :
      String → String → Restore → String → String → Run W Restore (Result ℕ)
  unfolding run_restore execute_restore
  perform_restore namespace name restore username password = do
    connected ← connect_to_sql env.base restore.spec.server username password
    on_result connected
        (λ e. (do
          note (Action.event warning reason_connection_failed)
          pure (err (wrapped "failed to connect to SQL Server" e))))
        (λ client. (do
          started ← run_restore namespace name restore
          on_result started (λ e. pure (err e)) (execute_restore namespace name client)))

  -- step 3, for a restore that is not done
  unfoldable pub reconcile_open_restore : String → String → Restore → Run W Restore (Result ℕ)
  unfolding set_restore_status perform_restore
  reconcile_open_restore namespace name restore = do
    credentials ←
        get_credentials_from_secret env.base restore.meta.namespace
          restore.spec.server.credentials_secret.name
    on_result credentials
        (λ e.
          set_restore_status restore restore_phase_failed
            (if is_not_found e then reason_secret_not_found else reason_invalid_credentials_secret))
        (λ pair. perform_restore namespace name restore pair.0 pair.1)

  abbrev pub is_restore_done : Restore → Bool
  is_restore_done restore =
      (restore.status.phase == restore_phase_completed)
      || (restore.status.phase == restore_phase_failed)

  unfoldable pub reconcile_restore : String → String → Run W Restore (Result ℕ)
  unfolding reconcile_open_restore
  reconcile_restore namespace name = do
    fetched ← ask (env.get_object namespace name)
    on_result fetched (λ e. if is_not_found e then pure (ok 0) else pure (err e))
        (λ restore.
          if is_restore_done restore
          then pure (ok 0)
          else reconcile_open_restore namespace name restore)
