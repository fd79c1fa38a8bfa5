-- ===== src/Controller/Schedule/Safety.antt =====
-- Which writes a reconciliation of a schedule makes.
use mssql_k8s_operator.Prelude.{eq_iff, arith, ◌==◌, string_eq, bool_eq, not, lt→ltb}
use mssql_k8s_operator.Webhook.Checks.{bool_value}
use mssql_k8s_operator.Controller.Helpers.{commit}
use mssql_k8s_operator.Controller.Effect.Keeps.{
  keeps_rules, Keeps-if, Keeps-on_result, Keeps-perform, Keeps-bind, Keeps-pure, Keeps,
}
use mssql_k8s_operator.Controller.Schedule.Retention.{
  completed_of-All, sort_by_creation-All, to_delete_of-All, IsCompleted,
}
use mssql_k8s_operator.Api.Backups.{RetentionPolicy, ScheduledBackup, Backup}
use mssql_k8s_operator.Controller.Schedule.{
  completed_of, sort_by_creation, to_delete_of, patch_status, delete_backup, create_backup,
  ScheduleWrite,
}
use mssql_k8s_operator.Controller.Schedule.Reconcile.{
  last_schedule_of, reconcile, reconcile_scheduled, run_schedule, create_scheduled,
  clear_active_backup, on_backup_failed, on_backup_completed, check_active, set_condition,
  save_next, delete_all, cleanup_retention, ScheduleEnv,
}
use mssql_k8s_operator.Controller.Effect.{
  St, wrapped, EventType, err, pure, is_not_found, ok, Action,
}
use mssql_k8s_operator.Prelude.{
  Bool-cases, false, Option-cases, lt→ltb, not, ◌<◌, ◌≢◌, ◌⊎◌, true, inr, inl, some, ◌≡◌, ℕ, String,
  Bool, List, [], ◌∷◌, string_eq, nat_eq, int_eq, bool_eq, All,
}

-- Only completed backups are deleted.
abbrev pub IsDeletionOfCompleted : Action ScheduleWrite → Type 0
IsDeletionOfCompleted (Action.write (delete_backup b)) = IsCompleted b
IsDeletionOfCompleted _ = Unit

-- No backup is created.
abbrev pub IsNoCreation : Action ScheduleWrite → Type 0
IsNoCreation (Action.write (create_backup b)) = ⊥
IsNoCreation _ = Unit

pub All-map :
    {P Q : Backup → Type 0} (bs : List Backup) → ((b : Backup) → P b → Q b) → All P bs → All Q bs
All-map [] f h = tt
All-map (b ∷ bs) f h = (f b h.0, All-map bs f h.1)

module _ {W : Type 0} (env : ScheduleEnv W) where
  pub delete_all-Keeps :
      (Ok : Action ScheduleWrite → Type 0) (bs : List Backup)
      → All (λ b. Ok (Action.write (delete_backup b))) bs
      → Keeps Ok (delete_all env bs)
  unfolding delete_all
  delete_all-Keeps Ok [] h = Keeps-pure (ok tt)
  delete_all-Keeps Ok (b ∷ bs) h =
      let rest = delete_all-Keeps Ok bs h.1 in
      Keeps-bind (commit env.base (delete_backup b)) _
        (Keeps-perform (Action.write (delete_backup b)) (env.base.write_object (delete_backup b))
          h.0)
        (λ r.
          Keeps-on_result r _ _
            (λ e.
              Keeps-if (is_not_found e) _ (pure (err (wrapped "failed to delete old backup" e)))
                (λ _. rest) (λ _. Keeps-pure (err (wrapped "failed to delete old backup" e))))
            (λ _. rest))

  -- What every deletion of a completed backup satisfies, and every change of a status, every event
  -- and every creation.
  pub record Allows (Ok : Action ScheduleWrite → Type 0) : Type 0 where
    pub deletion : (b : Backup) → IsCompleted b → Ok (Action.write (delete_backup b))
    pub patch : (sb : ScheduledBackup) → Ok (Action.write (patch_status sb))
    pub noted : (t : EventType) (reason : String) → Ok (Action.event t reason)

  module _ {Ok : Action ScheduleWrite → Type 0} (allows : Allows Ok) where
    pub deleted_completed-Keeps :
        (now : ℕ) (retention : RetentionPolicy) (items : List Backup)
        → Keeps Ok (
            delete_all env (
              to_delete_of env.base.parse_duration now retention
                (sort_by_creation (completed_of items))))
    deleted_completed-Keeps now retention items = delete_all-Keeps Ok _ (
        All-map _ (allows.deletion) (
          to_delete_of-All IsCompleted env.base.parse_duration now retention _
            (sort_by_creation-All IsCompleted (completed_of items) (completed_of-All items))))

    pub cleanup_retention-Keeps : (sb : ScheduledBackup) → Keeps Ok (cleanup_retention env sb)
    unfolding cleanup_retention
    cleanup_retention-Keeps sb = search (keeps_rules, deleted_completed-Keeps) depth 10

    pub patch_status-Keeps : (sb : ScheduledBackup) → Keeps Ok (commit env.base (patch_status sb))
    patch_status-Keeps sb = Keeps-perform _ _ (allows.patch sb)

    pub set_condition-Keeps :
        (sb : ScheduledBackup) (status : Bool) (reason : String)
        → Keeps Ok (set_condition env sb status reason)
    unfolding set_condition
    set_condition-Keeps sb status reason = search (keeps_rules, patch_status-Keeps) depth 8

    pub check_active-Keeps : (sb : ScheduledBackup) → Keeps Ok (check_active env sb)
    unfolding check_active on_backup_completed on_backup_failed clear_active_backup
    check_active-Keeps sb =
        search (keeps_rules, patch_status-Keeps, cleanup_retention-Keeps, allows.noted) depth 14

    pub save_next-Keeps : (sb : ScheduledBackup) (next : ℕ) → Keeps Ok (save_next env sb next)
    unfolding save_next
    save_next-Keeps sb next = search (keeps_rules, patch_status-Keeps) depth 10

  pub IsDeletionOfCompleted-Allows : Allows IsDeletionOfCompleted
  IsDeletionOfCompleted-Allows = record {
    deletion = λ b h. h;
    patch = λ sb. tt;
    noted = λ t reason. tt;
  }

  pub IsNoCreation-Allows : Allows IsNoCreation
  IsNoCreation-Allows = record { deletion = λ b h. tt; patch = λ sb. tt; noted = λ t reason. tt }

  module _ {Ok : Action ScheduleWrite → Type 0} (allows : Allows Ok) where
    pub create_scheduled-Keeps :
        (sb : ScheduledBackup) (now : ℕ)
        → ((b : Backup) → Ok (Action.write (create_backup b)))
        → Keeps Ok (create_scheduled env sb now)
    unfolding create_scheduled
    create_scheduled-Keeps sb now h =
        let creation : (b : Backup) → Keeps Ok (commit env.base (create_backup b)) = λ b.
          Keeps-perform {Ok = Ok} (Action.write (create_backup b))
            (env.base.write_object (create_backup b)) (h b) in
        search
          (
            keeps_rules,
            set_condition-Keeps allows,
            patch_status-Keeps allows,
            allows.noted,
            creation,
          )
          depth 14

    pub run_schedule-Keeps :
        (sb : ScheduledBackup) (next_of : ℕ → ℕ)
        → ((b : Backup) → Ok (Action.write (create_backup b)))
        → Keeps Ok (run_schedule env sb next_of)
    unfolding run_schedule
    run_schedule-Keeps sb next_of h =
        search (keeps_rules, save_next-Keeps allows, create_scheduled-Keeps) depth 12

    pub reconcile_scheduled-Keeps :
        (sb : ScheduledBackup)
        → ((b : Backup) → Ok (Action.write (create_backup b)))
        → Keeps Ok (reconcile_scheduled env sb)
    unfolding reconcile_scheduled
    reconcile_scheduled-Keeps sb h =
        search
          (keeps_rules, set_condition-Keeps allows, check_active-Keeps allows, run_schedule-Keeps)
          depth 12

  -- Every backup that a reconciliation of a schedule deletes is completed.
  pub reconcile-deletes_completed :
      (namespace name : String) (w : W)
      → All IsDeletionOfCompleted
          (reconcile env namespace name (record { outside = w; log = [] })).1.log
  unfolding reconcile
  reconcile-deletes_completed namespace name w =
      let scheduled : (sb : ScheduledBackup)
          → Keeps IsDeletionOfCompleted (reconcile_scheduled env sb) =
        λ sb. reconcile_scheduled-Keeps IsDeletionOfCompleted-Allows sb (λ b. tt) in
      let whole : Keeps IsDeletionOfCompleted (reconcile env namespace name) =
        search (keeps_rules, scheduled) depth 8 in
      whole.at (record { outside = w; log = [] }) tt

  -- A schedule that is suspended, has an active backup, or whose next time has not come.
  abbrev pub IsIdle : ScheduledBackup → W → Type 0
  IsIdle sb w =
      (sb.spec.suspend ≡ some true)
      ⊎ ((sb.status.active_backup ≢ "")
          ⊎ ((next_of : ℕ → ℕ)
              → env.parse_schedule sb.spec.schedule ≡ some next_of
              → (env.base.now w).0 < next_of (last_schedule_of env sb)))

  pub run_schedule-early :
      (sb : ScheduledBackup) (next_of : ℕ → ℕ) (w : W)
      → (env.base.now w).0 < next_of (last_schedule_of env sb)
      → All IsNoCreation (run_schedule env sb next_of (record { outside = w; log = [] })).1.log
  unfolding run_schedule
  run_schedule-early sb next_of w h =
      rw (lt→ltb (env.base.now w).0 (next_of (last_schedule_of env sb)) h) (
        (save_next-Keeps IsNoCreation-Allows sb (next_of (last_schedule_of env sb))).at
          (record { outside = (env.base.now w).1; log = [] }) tt)

  pub is_active :
      (sb : ScheduledBackup)
      → sb.status.active_backup ≢ ""
      → not (sb.status.active_backup == "") ≡ true
  is_active sb h = ground (arith, eq_iff sb.status.active_backup "")

  -- With a schedule that is suspended, has an active backup, or whose next time has not come, a
  -- reconciliation creates no backup.
  pub reconcile_scheduled-idle :
      (sb : ScheduledBackup) (w : W)
      → IsIdle sb w
      → All IsNoCreation (reconcile_scheduled env sb (record { outside = w; log = [] })).1.log
  unfolding reconcile_scheduled
  reconcile_scheduled-idle sb w idle =
      let start : St W ScheduleWrite = record { outside = w; log = [] } in
      elim (Option-cases (env.parse_schedule sb.spec.schedule)) [
        | inl e ↦
            rw e ((set_condition-Keeps IsNoCreation-Allows sb false "InvalidSchedule").at start tt)
        | inr (next_of, e) ↦ rw e (elim (Bool-cases (bool_value sb.spec.suspend)) [
          | inl f ↦ rw f ((set_condition-Keeps IsNoCreation-Allows sb true "Suspended").at start tt)
          | inr f ↦ rw f (elim (Bool-cases (not (sb.status.active_backup == ""))) [
            | inl g ↦ rw g ((check_active-Keeps IsNoCreation-Allows sb).at start tt)
            | inr g ↦ rw g (elim idle [
              | inl h ↦ ground (arith, h, f)
              | inr (inl h) ↦ ground (arith, is_active sb h, g)
              | inr (inr h) ↦ run_schedule-early sb next_of w (h next_of e)
            ])
          ])
        ])
      ]
