-- ===== src/Controller/Schedule/Tests.antt =====
-- The schedule on small objects. The state of the outside world is a clock.
use mssql_k8s_operator.Api.Backups.{ScheduledBackupHistory}
use mssql_k8s_operator.Prelude.{
  ℕ, ◌+◌, ◌-◌, ◌≤◌, String, Bool, true, Option, none, some, List, [], ◌∷◌, ◌++◌, map, string_eq,
  nat_eq, int_eq, bool_eq, pos, ◌≡◌, refl, ◌⊎◌, inl, arith, All, length, drop,
}
use mssql_k8s_operator.Controller.TestWorld.{server_at, test_env, test_meta}
use mssql_k8s_operator.Controller.Effect.{ok, St}
use mssql_k8s_operator.Controller.Schedule.Limits.{
  to_delete_of-deletes_oldest, to_delete_of-keeps_max_count,
}
use mssql_k8s_operator.Controller.Schedule.Retention.{kept_of}
use mssql_k8s_operator.Controller.Schedule.History.{add_history-newest}
use mssql_k8s_operator.Controller.Schedule.Safety.{
  reconcile-deletes_completed, reconcile_scheduled-idle, IsNoCreation, IsDeletionOfCompleted,
}
use mssql_k8s_operator.Controller.Schedule.Reconcile.{
  render_destination, new_backup, create_scheduled, save_next, run_schedule, delete_all,
  cleanup_retention, on_backup_failed, on_backup_completed, clear_active_backup, check_active,
  set_condition, ScheduleEnv, reconcile_scheduled, reconcile,
}
use mssql_k8s_operator.Controller.Schedule.{
  excess_of, has_name, add_new, append_new, add_excess, is_older, older_than, older_if, expired,
  insert_by_creation, completed_of, failed_status, completed_status, history_entry, ScheduleWrite,
  sort_by_creation, add_history, to_delete_of,
}
use mssql_k8s_operator.Api.Backups.{Backup, ScheduledBackup}

abbrev backup_at : String → ℕ → Backup
backup_at name created = record {
  meta = record test_meta { name = name; creation_timestamp = created };
  spec = record {
    server = server_at "h";
    database_name = "db";
    type = "Full";
    destination = "/b";
    compression = none;
  };
  status = record {
    phase = "Completed";
    conditions = [];
    observed_generation = pos 0;
    start_time = none;
    completion_time = none;
    backup_size = none;
  };
}

abbrev scheduled : String → Option Bool → ScheduledBackup
scheduled active suspend = record {
  meta = test_meta;
  spec = record {
    server = server_at "h";
    database_name = "db";
    schedule = "0 2 * * *";
    type = "Full";
    compression = none;
    destination_template = "/b";
    retention = some (record { max_count = some (pos 1); max_age = none });
    suspend = suspend;
  };
  status = record {
    conditions = [];
    observed_generation = pos 0;
    last_schedule_time = none;
    next_schedule_time = none;
    last_successful_backup = "";
    active_backup = active;
    history = [];
    total_backups = pos 0;
    successful_backups = pos 0;
    failed_backups = pos 0;
  };
}

abbrev three : List Backup
three = backup_at "c" 30 ∷ backup_at "a" 10 ∷ backup_at "b" 20 ∷ []

abbrev world : ScheduleEnv ℕ
world = record {
  base = test_env;
  get_scheduled_backup = λ ns n w. (ok (scheduled "c" none), w);
  get_backup = λ ns n w. (ok (backup_at "c" 30), w);
  list_backups = λ ns n w. (ok three, w);
  parse_schedule = λ s. some (λ t. t + 100);
  format_time = λ t. "now";
  render = λ t d n k. ok t;
  set_controller_reference = λ sb b. ok b;
}

abbrev started : ℕ → St ℕ ScheduleWrite
started clock = record { outside = clock; log = [] }

pub whole_schedule : Unit {0}
unfolding reconcile reconcile_scheduled set_condition check_active clear_active_backup
    on_backup_completed on_backup_failed cleanup_retention delete_all run_schedule save_next
    create_scheduled new_backup render_destination completed_status failed_status add_history
    history_entry completed_of sort_by_creation insert_by_creation to_delete_of expired older_if
    older_than is_older add_excess append_new add_new has_name excess_of
whole_schedule = tt

abbrev logged : St ℕ ScheduleWrite → ℕ
logged s = length s.log

-- A completed backup, and a limit of one: the status is saved and the two oldest are deleted.
completed_round : logged (reconcile world "ns" "obj" (started 40)).1 ≡ 3
unfolding whole_schedule
completed_round = refl

deleted_names :
    map
      (λ b. b.meta.name)
      (to_delete_of
        (λ s. none)
        40
        (record { max_count = some (pos 1); max_age = none })
        (sort_by_creation three))
    ≡ "a" ∷ "b" ∷ []
unfolding whole_schedule
deleted_names = refl

-- It is time: the next time is saved, the backup created, an event sent and the status saved.
due_round : logged (reconcile_scheduled world (scheduled "" none) (started 200)).1 ≡ 4
unfolding whole_schedule
due_round = refl

reconcile-deletes_completed_example :
    All IsDeletionOfCompleted (reconcile world "ns" "obj" (started 40)).1.log
reconcile-deletes_completed_example = reconcile-deletes_completed world "ns" "obj" 40

reconcile_scheduled-idle_example :
    All IsNoCreation (reconcile_scheduled world (scheduled "" (some true)) (started 200)).1.log
reconcile_scheduled-idle_example =
    reconcile_scheduled-idle world (scheduled "" (some true)) 200 (inl refl)

-- ten entries, so that the next one drops the oldest
abbrev full_history : List ScheduledBackupHistory
full_history =
    map (λ n. history_entry (backup_at n 10))
      ("a" ∷ "b" ∷ "c" ∷ "d" ∷ "e" ∷ "f" ∷ "g" ∷ "h" ∷ "i" ∷ "j" ∷ [])

add_history-newest_example :
    (dropped : List ScheduledBackupHistory) × (dropped
        ++ add_history full_history (history_entry (backup_at "k" 11))
      ≡ full_history ++ (history_entry (backup_at "k" 11) ∷ []))
    × (length (add_history full_history (history_entry (backup_at "k" 11))) ≤ 10)
    × ((dropped ≡ []) ⊎ (length (add_history full_history (history_entry (backup_at "k" 11))) ≡ 10))
add_history-newest_example = add_history-newest full_history (history_entry (backup_at "k" 11))

to_delete_of-keeps_max_count_example :
    length (
      kept_of
        (to_delete_of (λ s. none) 40 (record { max_count = some (pos 1); max_age = none }) three)
        three)
    ≤ 1
to_delete_of-keeps_max_count_example =
    to_delete_of-keeps_max_count (λ s. none) 40 1 none three (omega arith)

to_delete_of-deletes_oldest_example :
    All
      (λ d.
        All
          (λ k. d.meta.creation_timestamp ≤ k.meta.creation_timestamp)
          (drop (length (sort_by_creation three) - 1) (sort_by_creation three)))
      (to_delete_of
        (λ s. none)
        40
        (record { max_count = some (pos 1); max_age = none })
        (sort_by_creation three))
to_delete_of-deletes_oldest_example =
    to_delete_of-deletes_oldest (λ s. none) 40 1 three (omega arith)
