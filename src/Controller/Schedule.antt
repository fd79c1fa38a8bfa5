-- ===== src/Controller/Schedule.antt =====
-- internal/controller/scheduledbackup_controller.go: what it computes. The history, the state of the
-- schedule after a backup, and the backups that the retention policy deletes.
pub mod Reconcile
pub mod Retention
pub mod Limits
pub mod Safety
pub mod History
mod Tests
use mssql_k8s_operator.Api.Meta.{condition_ready, Condition}
use mssql_k8s_operator.Api.Backups.{
  ScheduledBackupStatus, backup_phase_completed, ScheduledBackup, Backup, RetentionPolicy,
  ScheduledBackupHistory,
}
use mssql_k8s_operator.Prelude.{
  leb, ltb, ℕ, zero, suc, ◌+◌, ◌-◌, ◌≤◌, ◌<◌, String, Bool, true, false, not, ◌&&◌, ◌||◌, Option,
  none, some, List, [], ◌∷◌, ◌++◌, map, ◌==◌, string_eq, nat_eq, int_eq, bool_eq, ℤ, pos, negsuc,
  if◌then◌else◌, ◌≡◌, ◌≢◌, refl, sym, ap, ◌∙◌, ◌⊎◌, ◌↔◌, inl, inr, arith, eq_iff, All, In,
  Bool-cases, Option-cases, lookup, lookup_or, length, take, drop,
}
use mssql_k8s_operator.Prelude.Int

abbrev pub max_history_len : ℕ
max_history_len = 10

-- What the reconciler writes to the API server.
pub data ScheduleWrite : Type 0 where
  patch_status : ScheduledBackup → ScheduleWrite
  create_backup : Backup → ScheduleWrite
  delete_backup : Backup → ScheduleWrite

unfoldable pub history_entry : Backup → ScheduledBackupHistory
history_entry bak = record {
  backup_name = bak.meta.name;
  start_time = bak.status.start_time;
  completion_time = bak.status.completion_time;
  phase = bak.status.phase;
  destination = bak.spec.destination;
}

unfoldable pub add_history :
    List ScheduledBackupHistory → ScheduledBackupHistory → List ScheduledBackupHistory
add_history history entry =
    let longer = history ++ (entry ∷ []) in
    if ltb max_history_len (length longer)
    then drop (length longer - max_history_len) longer
    else longer

module _ (set_status_condition : List Condition → Condition → List Condition) where
  unfoldable pub completed_status : ScheduledBackup → Backup → ScheduledBackupStatus
  unfolding add_history history_entry
  completed_status sb bak = record sb.status {
    active_backup = "";
    last_successful_backup = bak.meta.name;
    successful_backups = Int.succ_int32 sb.status.successful_backups;
    history = add_history sb.status.history (history_entry bak);
    conditions = set_status_condition sb.status.conditions (record {
      type = condition_ready;
      status = true;
      reason = "BackupCompleted";
      observed_generation = sb.meta.generation;
    });
  }

  unfoldable pub failed_status : ScheduledBackup → Backup → ScheduledBackupStatus
  unfolding add_history history_entry
  failed_status sb bak = record sb.status {
    active_backup = "";
    failed_backups = Int.succ_int32 sb.status.failed_backups;
    history = add_history sb.status.history (history_entry bak);
    conditions = set_status_condition sb.status.conditions (record {
      type = condition_ready;
      status = false;
      reason = "BackupFailed";
      observed_generation = sb.meta.generation;
    });
  }

unfoldable pub completed_of : List Backup → List Backup
completed_of [] = []
completed_of (b ∷ bs) =
    let rest = completed_of bs in
    if b.status.phase == backup_phase_completed then b ∷ rest else rest

-- sort.Slice by creation time. Go leaves the order of equal times open; here it is the list's.
unfoldable pub insert_by_creation : Backup → List Backup → List Backup
insert_by_creation b [] = b ∷ []
insert_by_creation b (c ∷ cs) =
    let rest = insert_by_creation b cs in
    if leb b.meta.creation_timestamp c.meta.creation_timestamp then b ∷ c ∷ cs else c ∷ rest

unfoldable pub sort_by_creation : List Backup → List Backup
unfolding insert_by_creation
sort_by_creation [] = []
sort_by_creation (b ∷ bs) = insert_by_creation b (sort_by_creation bs)

-- `now.Sub(created) > max_age`
unfoldable pub is_older : ℕ → ℤ → Backup → Bool
is_older now max_age b =
    ltb (b.meta.creation_timestamp + Int.pos_part max_age) (now + Int.neg_part max_age)

unfoldable pub older_than : ℕ → ℤ → List Backup → List Backup
unfolding is_older
older_than now max_age [] = []
older_than now max_age (b ∷ bs) =
    let rest = older_than now max_age bs in if is_older now max_age b then b ∷ rest else rest

unfoldable pub has_name : String → List Backup → Bool
has_name name [] = false
has_name name (b ∷ bs) = (b.meta.name == name) || has_name name bs

unfoldable pub add_new : List Backup → Backup → List Backup
unfolding has_name
add_new to_delete b = if has_name b.meta.name to_delete then to_delete else to_delete ++ (b ∷ [])

-- The loop over the excess: it appends each backup whose name is not yet in the list.
unfoldable pub append_new : List Backup → List Backup → List Backup
unfolding add_new
append_new to_delete [] = to_delete
append_new to_delete (b ∷ bs) = append_new (add_new to_delete b) bs

-- `completed[:len(completed)-maxCount]`, or nothing
unfoldable pub excess_of : ℤ → List Backup → List Backup
excess_of (pos zero) completed = []
excess_of (pos (suc m)) completed =
    if ltb (suc m) (length completed) then take (length completed - suc m) completed else []
excess_of (negsuc m) completed = []

-- An age that does not parse deletes nothing.
unfoldable pub older_if : ℕ → Option ℤ → List Backup → List Backup
unfolding older_than
older_if now none completed = []
older_if now (some max_age) completed = older_than now max_age completed

unfoldable pub expired : (String → Option ℤ) → ℕ → Option String → List Backup → List Backup
unfolding older_if
expired parse_duration now none completed = []
expired parse_duration now (some text) completed = older_if now (parse_duration text) completed

unfoldable pub add_excess : List Backup → Option ℤ → List Backup → List Backup
unfolding append_new excess_of
add_excess to_delete none completed = to_delete
add_excess to_delete (some m) completed = append_new to_delete (excess_of m completed)

-- `toDelete`, of the completed backups in order
unfoldable pub to_delete_of : (String → Option ℤ) → ℕ → RetentionPolicy → List Backup → List Backup
unfolding expired add_excess
to_delete_of parse_duration now retention completed =
    add_excess (expired parse_duration now retention.max_age completed) retention.max_count
      completed
