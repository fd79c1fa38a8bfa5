-- ===== src/Controller/OneShot/Phases.antt =====
-- The three reconcilers settle their objects.
use mssql_k8s_operator.Prelude.{
  ℕ, String, true, Option, string_eq, nat_eq, int_eq, bool_eq, ◌≡◌, refl, inl, inr, arith, eq_iff,
}
use mssql_k8s_operator.Controller.OneShot.Failover.{
  check_target, failover_with_status, completed_failover, start_failover, perform_failover,
  finish_failover, set_failover_status, reconcile_open_failover, run_failover, execute_failover,
  reconcile_failover, promote, set_failover_completed, is_failover_done, FailoverEnv,
}
use mssql_k8s_operator.Api.AvailabilityGroup.{failover_phase_failed, AgFailover}
use mssql_k8s_operator.Controller.OneShot.Restore.{
  perform_restore, start_restore, restore_with_status, completed_restore, reconcile_open_restore,
  complete_restore, is_restore_done, execute_restore, run_restore, reconcile_restore,
  set_restore_status, RestoreEnv,
}
use mssql_k8s_operator.Controller.Effect.Ends.{Ends-err, Ends-ok, Ends-bind_post, ends_rules, Ends}
use mssql_k8s_operator.Controller.Helpers.{commit}
use mssql_k8s_operator.Sql.Client.{Endpoint}
use mssql_k8s_operator.Api.Meta.{ObjectMeta}
use mssql_k8s_operator.Controller.OneShot.Settles.{
  get_bind-Ends, commit-Settles, fetch-Settles, IsNamed, Settles, IsDonePhase, StoreLaws,
}
use mssql_k8s_operator.Controller.OneShot.Backup.{
  completed_backup, perform_backup, start_backup, backup_with_status, run_backup,
  reconcile_open_backup, is_backup_done, reconcile_backup, complete_backup, execute_backup,
  set_backup_status, BackupEnv,
}
use mssql_k8s_operator.Api.Backups.{restore_phase_failed, Restore, backup_phase_failed, Backup}
use mssql_k8s_operator.Controller.Effect.{ok, err, pure, on_result, ◌>>=◌}

abbrev pub backup_phase : Backup → String
backup_phase backup = backup.status.phase

abbrev pub backup_meta : Backup → ObjectMeta
backup_meta backup = backup.meta

abbrev pub restore_phase : Restore → String
restore_phase restore = restore.status.phase

abbrev pub restore_meta : Restore → ObjectMeta
restore_meta restore = restore.meta

abbrev pub failover_phase : AgFailover → String
failover_phase fo = fo.status.phase

abbrev pub failover_meta : AgFailover → ObjectMeta
failover_meta fo = fo.meta

module _ {W : Type 0} {env : BackupEnv W} {namespace name : String} {phase_at : W → Option String}
    (laws : StoreLaws env namespace name phase_at backup_meta backup_phase) where
  set_backup_status-Settles :
      (backup : Backup) (reason : String)
      → IsNamed namespace name backup.meta
      → Settles phase_at (set_backup_status env backup backup_phase_failed reason)
  unfolding set_backup_status backup_with_status
  set_backup_status-Settles backup reason named =
      commit-Settles laws (backup_with_status env backup backup_phase_failed reason) named
        (inr refl)

  run_backup-Ends :
      (backup : Backup)
      → IsNamed namespace name backup.meta
      → Ends (λ again w. IsNamed namespace name again.meta) (run_backup env namespace name backup)
  unfolding run_backup start_backup
  run_backup-Ends backup named = search (ends_rules, Ends-ok, get_bind-Ends laws) depth 14

  complete_backup-Settles : Settles phase_at (complete_backup env namespace name)
  unfolding complete_backup completed_backup
  complete_backup-Settles =
      let committed : (backup : Backup) (now : ℕ)
          → IsNamed namespace name backup.meta
          → Settles phase_at (
              commit env.base (completed_backup env backup now) >>= λ patched.
              on_result patched (λ e. pure (err e)) (λ _. pure (ok 0))) =
        λ backup now named.
          commit-Settles laws (completed_backup env backup now) named (inl refl) in
      search (ends_rules, get_bind-Ends laws, committed) depth 14

  execute_backup-Settles :
      (client : Endpoint) (backup : Backup)
      → IsNamed namespace name backup.meta
      → Settles phase_at (execute_backup env namespace name client backup)
  unfolding execute_backup
  execute_backup-Settles client backup named =
      search (ends_rules, complete_backup-Settles, set_backup_status-Settles) depth 12

  reconcile_open_backup-Settles :
      (backup : Backup)
      → IsNamed namespace name backup.meta
      → Settles phase_at (reconcile_open_backup env namespace name backup)
  unfolding reconcile_open_backup perform_backup
  reconcile_open_backup-Settles backup named =
      let started : (client : Endpoint)
          → Settles phase_at (
              run_backup env namespace name backup >>= λ started.
              on_result started (λ e. pure (err e)) (execute_backup env namespace name client)) =
        λ client.
          Ends-bind_post (λ again. IsNamed namespace name again.meta)
            (run_backup env namespace name backup) _ _ (run_backup-Ends backup named)
            (λ e. Ends-err e) (λ again. execute_backup-Settles client again) in
      search (ends_rules, started, set_backup_status-Settles) depth 16

  is_backup_done_lem :
      (backup : Backup) → is_backup_done env backup ≡ true → IsDonePhase backup.status.phase
  is_backup_done_lem backup h =
      ground (arith, eq_iff backup.status.phase "Completed", eq_iff backup.status.phase "Failed")

  pub reconcile_backup-Settles : Settles phase_at (reconcile_backup env namespace name)
  unfolding reconcile_backup
  reconcile_backup-Settles =
      fetch-Settles laws (is_backup_done env) (reconcile_open_backup env namespace name)
        is_backup_done_lem reconcile_open_backup-Settles

module _ {W : Type 0} {env : RestoreEnv W} {namespace name : String} {phase_at : W → Option String}
    (laws : StoreLaws env namespace name phase_at restore_meta restore_phase) where
  set_restore_status-Settles :
      (restore : Restore) (reason : String)
      → IsNamed namespace name restore.meta
      → Settles phase_at (set_restore_status env restore restore_phase_failed reason)
  unfolding set_restore_status restore_with_status
  set_restore_status-Settles restore reason named =
      commit-Settles laws (restore_with_status env restore restore_phase_failed reason) named
        (inr refl)

  run_restore-Ends :
      (restore : Restore)
      → IsNamed namespace name restore.meta
      → Ends (λ again w. IsNamed namespace name again.meta) (run_restore env namespace name restore)
  unfolding run_restore start_restore
  run_restore-Ends restore named = search (ends_rules, Ends-ok, get_bind-Ends laws) depth 14

  complete_restore-Settles : Settles phase_at (complete_restore env namespace name)
  unfolding complete_restore completed_restore
  complete_restore-Settles =
      let committed : (restore : Restore) (now : ℕ)
          → IsNamed namespace name restore.meta
          → Settles phase_at (
              commit env.base (completed_restore env restore now) >>= λ patched.
              on_result patched (λ e. pure (err e)) (λ _. pure (ok 0))) =
        λ restore now named.
          commit-Settles laws (completed_restore env restore now) named (inl refl) in
      search (ends_rules, get_bind-Ends laws, committed) depth 14

  execute_restore-Settles :
      (client : Endpoint) (restore : Restore)
      → IsNamed namespace name restore.meta
      → Settles phase_at (execute_restore env namespace name client restore)
  unfolding execute_restore
  execute_restore-Settles client restore named =
      search (ends_rules, complete_restore-Settles, set_restore_status-Settles) depth 12

  reconcile_open_restore-Settles :
      (restore : Restore)
      → IsNamed namespace name restore.meta
      → Settles phase_at (reconcile_open_restore env namespace name restore)
  unfolding reconcile_open_restore perform_restore
  reconcile_open_restore-Settles restore named =
      let started : (client : Endpoint)
          → Settles phase_at (
              run_restore env namespace name restore >>= λ started.
              on_result started (λ e. pure (err e)) (execute_restore env namespace name client)) =
        λ client.
          Ends-bind_post (λ again. IsNamed namespace name again.meta)
            (run_restore env namespace name restore) _ _ (run_restore-Ends restore named)
            (λ e. Ends-err e) (λ again. execute_restore-Settles client again) in
      search (ends_rules, started, set_restore_status-Settles) depth 16

  is_restore_done_lem :
      (restore : Restore) → is_restore_done env restore ≡ true → IsDonePhase restore.status.phase
  is_restore_done_lem restore h =
      ground (arith, eq_iff restore.status.phase "Completed", eq_iff restore.status.phase "Failed")

  pub reconcile_restore-Settles : Settles phase_at (reconcile_restore env namespace name)
  unfolding reconcile_restore
  reconcile_restore-Settles =
      fetch-Settles laws (is_restore_done env) (reconcile_open_restore env namespace name)
        is_restore_done_lem reconcile_open_restore-Settles

module _ {W : Type 0} {env : FailoverEnv W} {namespace name : String} {phase_at : W → Option String}
    (laws : StoreLaws env namespace name phase_at failover_meta failover_phase) where
  set_failover_status-Settles :
      (fo : AgFailover) (reason : String)
      → IsNamed namespace name fo.meta
      → Settles phase_at (set_failover_status env fo failover_phase_failed reason)
  unfolding set_failover_status failover_with_status
  set_failover_status-Settles fo reason named =
      commit-Settles laws (failover_with_status env fo failover_phase_failed reason) named
        (inr refl)

  run_failover-Ends :
      (fo : AgFailover)
      → IsNamed namespace name fo.meta
      → Ends (λ again w. IsNamed namespace name again.meta) (run_failover env namespace name fo)
  unfolding run_failover start_failover
  run_failover-Ends fo named = search (ends_rules, Ends-ok, get_bind-Ends laws) depth 14

  set_failover_completed-Settles :
      (fo : AgFailover) (previous_primary new_primary : String)
      → IsNamed namespace name fo.meta
      → Settles phase_at (set_failover_completed env fo previous_primary new_primary)
  unfolding set_failover_completed completed_failover
  set_failover_completed-Settles fo previous_primary new_primary named =
      let committed : (again : AgFailover) (now : ℕ)
          → IsNamed namespace name again.meta
          → Settles phase_at (
              commit env.base (completed_failover env again now previous_primary new_primary)
              >>= λ patched. on_result patched (λ e. pure (err e)) (λ _. pure (ok 0))) =
        λ again now same.
          commit-Settles laws (completed_failover env again now previous_primary new_primary) same
            (inl refl) in
      rw named.0 (rw named.1 (search (ends_rules, get_bind-Ends laws, committed) depth 14))

  execute_failover-Settles :
      (client : Endpoint) (fo : AgFailover)
      → IsNamed namespace name fo.meta
      → Settles phase_at (execute_failover env client fo)
  unfolding execute_failover finish_failover
  execute_failover-Settles client fo named =
      search (ends_rules, set_failover_completed-Settles, set_failover_status-Settles) depth 14

  promote-Settles :
      (client : Endpoint) (fo : AgFailover)
      → IsNamed namespace name fo.meta
      → Settles phase_at (promote env namespace name client fo)
  unfolding promote
  promote-Settles client fo named =
      Ends-bind_post (λ again. IsNamed namespace name again.meta)
        (run_failover env namespace name fo) _ _ (run_failover-Ends fo named) (λ e. Ends-err e)
        (execute_failover-Settles client)

  reconcile_open_failover-Settles :
      (fo : AgFailover)
      → IsNamed namespace name fo.meta
      → Settles phase_at (reconcile_open_failover env namespace name fo)
  unfolding reconcile_open_failover perform_failover check_target
  reconcile_open_failover-Settles fo named =
      search
        (ends_rules, promote-Settles, set_failover_completed-Settles, set_failover_status-Settles)
        depth 20

  is_failover_done_lem :
      (fo : AgFailover) → is_failover_done env fo ≡ true → IsDonePhase fo.status.phase
  is_failover_done_lem fo h =
      ground (arith, eq_iff fo.status.phase "Completed", eq_iff fo.status.phase "Failed")

  pub reconcile_failover-Settles : Settles phase_at (reconcile_failover env namespace name)
  unfolding reconcile_failover
  reconcile_failover-Settles =
      fetch-Settles laws (is_failover_done env) (reconcile_open_failover env namespace name)
        is_failover_done_lem reconcile_open_failover-Settles
