-- ===== src/Controller/Schedule/History.antt =====
-- The history of a schedule, which onBackupCompleted and onBackupFailed extend.
use mssql_k8s_operator.Prelude.{ltb-false→le, take-append-drop, take}
use mssql_k8s_operator.Prelude.{
  ◌-◌, ◌≤◌, List, [], ◌∷◌, ◌++◌, string_eq, nat_eq, int_eq, bool_eq, ◌≡◌, refl, ap, ◌⊎◌, inl, inr,
  arith, Bool-cases, length, take, drop,
}
use mssql_k8s_operator.Prelude.{length-drop, arith, string_eq, bool_eq, ap, refl, ltb}
use mssql_k8s_operator.Api.Backups.{ScheduledBackupHistory}
use mssql_k8s_operator.Controller.Schedule.{max_history_len, add_history}
use mssql_k8s_operator.Prelude.{
  ltb, ◌≤◌, ◌++◌, ◌-◌, length, Bool-cases, drop, inr, inl, ◌≡◌, List, [], ◌∷◌, string_eq, nat_eq,
  int_eq, bool_eq,
}

pub add_history-drop :
    (history : List ScheduledBackupHistory) (entry : ScheduledBackupHistory)
    → add_history history entry
      ≡ drop (length (history ++ (entry ∷ [])) - max_history_len) (history ++ (entry ∷ []))
unfolding add_history
add_history-drop history entry =
    let longer = history ++ (entry ∷ []) in
    elim (Bool-cases (ltb max_history_len (length longer))) [
      | inl e ↦ rw e refl
      | inr e ↦
          let none_dropped : 0 ≡ length longer - max_history_len =
            omega (arith, ltb-false→le max_history_len (length longer) e) in
          rw e (ap (λ n. drop n longer) none_dropped)
    ]

-- The history after a backup is what is left of the old one with the new entry behind it once some of
-- the oldest entries are dropped, has at most ten entries, and has ten where any are dropped.
pub add_history-newest :
    (history : List ScheduledBackupHistory) (entry : ScheduledBackupHistory)
    → (dropped : List ScheduledBackupHistory) × (dropped ++ add_history history entry
        ≡ history ++ (entry ∷ []))
      × (length (add_history history entry) ≤ 10)
      × ((dropped ≡ []) ⊎ (length (add_history history entry) ≡ 10))
add_history-newest history entry =
    let longer = history ++ (entry ∷ []) in
    let over = length longer - max_history_len in
    let cut = add_history-drop history entry in
    let left = length-drop over longer in
    (
      take over longer,
      rw (cut) (take-append-drop over longer),
      rw (cut) (omega (arith, left)),
      elim (Bool-cases (ltb 10 (length longer))) [
        | inl e ↦ inr (rw (cut) (ground (arith, left, e)))
        | inr e ↦
            let none_dropped : over ≡ 0 = omega (arith, ltb-false→le 10 (length longer) e) in
            inl (ap (λ n. take n longer) none_dropped)
      ],
    )
