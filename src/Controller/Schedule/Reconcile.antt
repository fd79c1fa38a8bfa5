-- ===== src/Controller/Schedule/Reconcile.antt =====
-- internal/controller/scheduledbackup_controller.go: Reconcile and its handlers. A requeue is the
-- number of nanoseconds, 0 for none. A successful patch leaves the object as it was sent.
use mssql_k8s_operator.Prelude.Int
use mssql_k8s_operator.Api.Meta.{condition_ready}
use mssql_k8s_operator.Webhook.Checks.{bool_value}
use mssql_k8s_operator.Controller.Helpers.{commit}
use mssql_k8s_operator.Api.Backups.{
  backup_phase_failed, backup_phase_completed, ScheduledBackup, Backup,
}
use mssql_k8s_operator.Controller.Env.{Env}
use mssql_k8s_operator.Controller.Schedule.{
  create_backup, delete_backup, patch_status, sort_by_creation, ScheduleWrite, completed_of,
  failed_status, completed_status, to_delete_of,
}
use mssql_k8s_operator.Prelude.{
  ltb, ◌*◌, ℕ, ◌+◌, ◌-◌, String, Bool, true, false, not, Option, none, some, List, [], ◌∷◌, ◌==◌,
  string_eq, nat_eq, int_eq, bool_eq, pos, if◌then◌else◌,
}
use Prim.Native.String.{◌++◌ as append_text}
use mssql_k8s_operator.Controller.Effect.{
  warning, normal, Action, wrapped, note, ok, err, is_not_found, on_option, pure, ask, on_result,
  Result, Run, ◌>>=◌, ◌>>◌,
}

-- The cron package, the template package, the clock's text and the API server are given.
pub record ScheduleEnv (W : Type 0) : Type 1 where
  pub base : Env W ScheduleWrite
  pub get_scheduled_backup : String → String → W → Result ScheduledBackup × W
  pub get_backup : String → String → W → Result Backup × W
  -- by namespace, and by the name in the label
  pub list_backups : String → String → W → Result (List Backup) × W
  -- parser.Parse, with the schedule's Next
  pub parse_schedule : String → Option (ℕ → ℕ)
  pub format_time : ℕ → String
  -- renderDestination runs a template on the database, the time's text and the type
  pub render : String → String → String → String → Result String
  pub set_controller_reference : ScheduledBackup → Backup → Result Backup

abbrev pub Requeue : Type 0
Requeue = ℕ

abbrev pub seconds : ℕ → ℕ
seconds n = n * 1000000000

module _ {W : Type 0} (env : ScheduleEnv W) where
  unfoldable pub render_destination : String → String → ℕ → String → Result String
  render_destination template database_name time type =
      env.render template database_name (env.format_time time) type

  unfoldable pub delete_all : List Backup → Run W ScheduleWrite (Result (Unit {0}))
  delete_all [] = pure (ok tt)
  delete_all (b ∷ bs) =
      let rest = delete_all bs in
      (do
        deleted ← commit env.base (delete_backup b)
        on_result deleted
            (λ e.
              if is_not_found e then rest else pure (err (wrapped "failed to delete old backup" e)))
            (λ _. rest))

  unfoldable pub cleanup_retention : ScheduledBackup → Run W ScheduleWrite (Result (Unit {0}))
  unfolding delete_all to_delete_of completed_of sort_by_creation
  cleanup_retention sb = on_option sb.spec.retention (pure (ok tt)) (λ retention. (do
    listed ← ask (env.list_backups sb.meta.namespace sb.meta.name)
    on_result listed (λ e. pure (err (wrapped "failed to list backups" e)))
        (λ items. (do
          now ← ask env.base.now
          delete_all (
              to_delete_of env.base.parse_duration now retention
                (sort_by_creation (completed_of items)))))))

  unfoldable pub set_condition :
      ScheduledBackup → Bool → String → Run W ScheduleWrite (Result Requeue)
  set_condition sb status reason = do
    patched ← commit env.base (
        patch_status (record sb {
          status = record sb.status {
            conditions = env.base.set_status_condition sb.status.conditions (record {
              type = condition_ready;
              status = status;
              reason = reason;
              observed_generation = sb.meta.generation;
            });
            observed_generation = sb.meta.generation;
          };
        }))
    on_result patched (λ e. pure (err e)) (λ _. pure (ok 0))

  -- An error of the cleanup is only logged.
  unfoldable pub on_backup_completed :
      ScheduledBackup → Backup → Run W ScheduleWrite (Result Requeue)
  unfolding cleanup_retention completed_status
  on_backup_completed sb bak =
      let done = record sb { status = completed_status env.base.set_status_condition sb bak } in
      (do
        patched ← commit env.base (patch_status done)
        on_result patched (λ e. pure (err e))
            (λ _. (do cleanup_retention done; pure (ok (seconds 30)))))

  unfoldable pub on_backup_failed : ScheduledBackup → Backup → Run W ScheduleWrite (Result Requeue)
  unfolding failed_status
  on_backup_failed sb bak = do
    patched ←
        commit env.base
          (patch_status (record sb { status = failed_status env.base.set_status_condition sb bak }))
    on_result patched (λ e. pure (err e))
        (λ _. (do note (Action.event warning "BackupFailed"); pure (ok (seconds 30))))

  unfoldable pub clear_active_backup : ScheduledBackup → Run W ScheduleWrite (Result Requeue)
  clear_active_backup sb = do
    patched ←
        commit env.base
          (patch_status (record sb { status = record sb.status { active_backup = "" } }))
    on_result patched (λ e. pure (err e)) (λ _. pure (ok (seconds 5)))

  -- step 4
  unfoldable pub check_active : ScheduledBackup → Run W ScheduleWrite (Result Requeue)
  unfolding clear_active_backup on_backup_completed on_backup_failed
  check_active sb = do
    found ← ask (env.get_backup sb.meta.namespace sb.status.active_backup)
    on_result found (λ e. if is_not_found e then clear_active_backup sb else pure (err e))
        (λ bak.
          if bak.status.phase == backup_phase_completed
          then on_backup_completed sb bak
          else if bak.status.phase == backup_phase_failed
          then on_backup_failed sb bak
          else pure (ok (seconds 10)))

  unfoldable pub new_backup : ScheduledBackup → ℕ → String → Backup
  new_backup sb now destination = record {
    meta = record {
      name = append_text (append_text sb.meta.name "-") (env.format_time now);
      namespace = sb.meta.namespace;
      generation = pos 0;
      resource_version = "";
      creation_timestamp = 0;
      deletion_timestamp = none;
      finalizers = [];
      labels = ("mssql.popul.io/scheduled-backup", sb.meta.name) ∷ [];
      annotations = [];
    };
    spec = record {
      server = sb.spec.server;
      database_name = sb.spec.database_name;
      type = sb.spec.type;
      destination = destination;
      compression = sb.spec.compression;
    };
    status = record {
      phase = "";
      conditions = [];
      observed_generation = pos 0;
      start_time = none;
      completion_time = none;
      backup_size = none;
    };
  }

  -- step 6, when it is time
  unfoldable pub create_scheduled : ScheduledBackup → ℕ → Run W ScheduleWrite (Result Requeue)
  unfolding new_backup set_condition render_destination
  create_scheduled sb now =
      on_result
        (render_destination sb.spec.destination_template sb.spec.database_name now sb.spec.type)
        (λ e. set_condition sb false "TemplateError")
        (λ destination.
          on_result (env.set_controller_reference sb (new_backup sb now destination))
            (λ e. pure (err (wrapped "failed to set owner reference" e)))
            (λ backup. (do
              created ← commit env.base (create_backup backup)
              on_result created (λ e. pure (err (wrapped "failed to create Backup CR" e)))
                  (λ _. (do
                    note (Action.event normal "BackupCreated")
                    patched ← commit env.base (
                        patch_status (record sb {
                          status = record sb.status {
                            active_backup = backup.meta.name;
                            last_schedule_time = some now;
                            total_backups = Int.succ_int32 sb.status.total_backups;
                            observed_generation = sb.meta.generation;
                          };
                        }))
                    on_result patched (λ e. pure (err e)) (λ _. pure (ok (seconds 10))))))))

  abbrev pub last_schedule_of : ScheduledBackup → ℕ
  last_schedule_of sb = elim sb.status.last_schedule_time [
    | none ↦ sb.meta.creation_timestamp
    | some t ↦ t
  ]

  abbrev pub is_saved : Option ℕ → ℕ → Bool
  is_saved none next = false
  is_saved (some t) next = t == next

  -- step 5: the patch's error is dropped
  unfoldable pub save_next : ScheduledBackup → ℕ → Run W ScheduleWrite ScheduledBackup
  save_next sb next =
      let saved = record sb { status = record sb.status { next_schedule_time = some next } } in
      if is_saved sb.status.next_schedule_time next
      then pure sb
      else (do commit env.base (patch_status saved); pure saved)

  -- steps 5 and 6
  unfoldable pub run_schedule : ScheduledBackup → (ℕ → ℕ) → Run W ScheduleWrite (Result Requeue)
  unfolding save_next create_scheduled
  run_schedule sb next_of = do
    now ← ask env.base.now
    let next = next_of (last_schedule_of sb)
    saved ← save_next sb next
    if ltb now next then pure (ok (next - now + seconds 1)) else create_scheduled saved now

  -- from step 2 on, with the object fetched
  unfoldable pub reconcile_scheduled : ScheduledBackup → Run W ScheduleWrite (Result Requeue)
  unfolding set_condition check_active run_schedule
  reconcile_scheduled sb =
      on_option (env.parse_schedule sb.spec.schedule) (set_condition sb false "InvalidSchedule")
        (λ next_of.
          if bool_value sb.spec.suspend
          then set_condition sb true "Suspended"
          else if not (sb.status.active_backup == "")
          then check_active sb
          else run_schedule sb next_of)

  unfoldable pub reconcile : String → String → Run W ScheduleWrite (Result Requeue)
  unfolding reconcile_scheduled
  reconcile namespace name = do
    fetched ← ask (env.get_scheduled_backup namespace name)
    on_result fetched (λ e. if is_not_found e then pure (ok 0) else pure (err e))
        reconcile_scheduled
