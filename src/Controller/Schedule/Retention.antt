-- ===== src/Controller/Schedule/Retention.antt =====
-- What the retention policy deletes and what it keeps.
use mssql_k8s_operator.Prelude.{drop}
use mssql_k8s_operator.Prelude.{leb→le, All-append}
use mssql_k8s_operator.Api.Backups.{RetentionPolicy, backup_phase_completed, Backup}
use mssql_k8s_operator.Controller.Schedule.{
  add_new, older_if, add_excess, is_older, excess_of, has_name, to_delete_of, append_new,
  older_than, expired, sort_by_creation, insert_by_creation, completed_of,
}
use mssql_k8s_operator.Prelude.{
  ltb, All-append, leb, ℕ, zero, suc, ◌-◌, ◌≤◌, String, Option, none, some, List, [], ◌∷◌, ◌==◌,
  string_eq, nat_eq, int_eq, bool_eq, ℤ, pos, negsuc, if◌then◌else◌, ◌≡◌, inl, inr, arith, eq_iff,
  All, Bool-cases, length, take,
}

-- The backups whose name is not in the list.
abbrev pub kept_of : List Backup → List Backup → List Backup
kept_of gone [] = []
kept_of gone (b ∷ bs) =
    let rest = kept_of gone bs in if has_name b.meta.name gone then rest else b ∷ rest

abbrev pub IsCompleted : Backup → Type 0
IsCompleted b = b.status.phase ≡ backup_phase_completed

-- sorted by creation time
abbrev pub IsByCreation : List Backup → Type 0
IsByCreation [] = Unit
IsByCreation (b ∷ bs) =
    All (λ c. b.meta.creation_timestamp ≤ c.meta.creation_timestamp) bs × IsByCreation bs

pub completed_of-All : (bs : List Backup) → All IsCompleted (completed_of bs)
unfolding completed_of
completed_of-All [] = tt
completed_of-All (b ∷ bs) = elim (Bool-cases (b.status.phase == backup_phase_completed)) [
  | inl e ↦ rw e ((eq_iff b.status.phase backup_phase_completed).0 e, completed_of-All bs)
  | inr e ↦ rw e (completed_of-All bs)
]

module _ (P : Backup → Type 0) where
  pub insert_by_creation-All :
      (b : Backup) (bs : List Backup) → P b → All P bs → All P (insert_by_creation b bs)
  unfolding insert_by_creation
  insert_by_creation-All b [] h hs = (h, tt)
  insert_by_creation-All b (c ∷ cs) h hs =
      elim (Bool-cases (leb b.meta.creation_timestamp c.meta.creation_timestamp)) [
        | inl e ↦ rw e (h, hs)
        | inr e ↦ rw e (hs.0, insert_by_creation-All b cs h hs.1)
      ]

  pub sort_by_creation-All : (bs : List Backup) → All P bs → All P (sort_by_creation bs)
  unfolding sort_by_creation
  sort_by_creation-All [] h = tt
  sort_by_creation-All (b ∷ bs) h =
      insert_by_creation-All b (sort_by_creation bs) h.0 (sort_by_creation-All bs h.1)

  pub older_than-All : (now : ℕ) (d : ℤ) (bs : List Backup) → All P bs → All P (older_than now d bs)
  unfolding older_than
  older_than-All now d [] h = tt
  older_than-All now d (b ∷ bs) h = elim (Bool-cases (is_older now d b)) [
    | inl e ↦ rw e (h.0, older_than-All now d bs h.1)
    | inr e ↦ rw e (older_than-All now d bs h.1)
  ]

  pub drop-All : (n : ℕ) (bs : List Backup) → All P bs → All P (drop n bs)
  drop-All zero bs h = h
  drop-All (suc n) [] h = tt
  drop-All (suc n) (b ∷ bs) h = drop-All n bs h.1

  pub take-All : (n : ℕ) (bs : List Backup) → All P bs → All P (take n bs)
  take-All zero bs h = tt
  take-All (suc n) [] h = tt
  take-All (suc n) (b ∷ bs) h = (h.0, take-All n bs h.1)

  pub excess_of-All : (m : ℤ) (bs : List Backup) → All P bs → All P (excess_of m bs)
  unfolding excess_of
  excess_of-All (pos zero) bs h = tt
  excess_of-All (pos (suc m)) bs h = elim (Bool-cases (ltb (suc m) (length bs))) [
    | inl e ↦ rw e (take-All (length bs - suc m) bs h)
    | inr e ↦ rw e tt
  ]
  excess_of-All (negsuc m) bs h = tt

  pub add_new-All : (old : List Backup) (b : Backup) → All P old → P b → All P (add_new old b)
  unfolding add_new
  add_new-All old b h hb = elim (Bool-cases (has_name b.meta.name old)) [
    | inl e ↦ rw e h
    | inr e ↦ rw e (All-append P old (b ∷ []) h (hb, tt))
  ]

  pub append_new-All : (old bs : List Backup) → All P old → All P bs → All P (append_new old bs)
  unfolding append_new
  append_new-All old [] h hs = h
  append_new-All old (b ∷ bs) h hs =
      append_new-All (add_new old b) bs (add_new-All old b h hs.0) hs.1

  pub older_if-All :
      (now : ℕ) (age : Option ℤ) (bs : List Backup) → All P bs → All P (older_if now age bs)
  unfolding older_if
  older_if-All now none bs h = tt
  older_if-All now (some d) bs h = older_than-All now d bs h

  pub expired-All :
      (parse : String → Option ℤ) (now : ℕ) (age : Option String) (bs : List Backup)
      → All P bs
      → All P (expired parse now age bs)
  unfolding expired
  expired-All parse now none bs h = tt
  expired-All parse now (some text) bs h = older_if-All now (parse text) bs h

  pub add_excess-All :
      (old : List Backup) (m : Option ℤ) (bs : List Backup)
      → All P old
      → All P bs
      → All P (add_excess old m bs)
  unfolding add_excess
  add_excess-All old none bs h hs = h
  add_excess-All old (some m) bs h hs =
      append_new-All old (excess_of m bs) h (excess_of-All m bs hs)

  pub to_delete_of-All :
      (parse : String → Option ℤ) (now : ℕ) (retention : RetentionPolicy) (bs : List Backup)
      → All P bs
      → All P (to_delete_of parse now retention bs)
  unfolding to_delete_of
  to_delete_of-All parse now retention bs h =
      add_excess-All _ retention.max_count bs (expired-All parse now retention.max_age bs h) h

pub All-after :
    (s t : ℕ) (bs : List Backup)
    → s ≤ t
    → All (λ c. t ≤ c.meta.creation_timestamp) bs
    → All (λ c. s ≤ c.meta.creation_timestamp) bs
All-after s t [] h hs = tt
All-after s t (b ∷ bs) h hs = (omega (arith, h, hs.0), All-after s t bs h hs.1)

pub insert_by_creation-IsByCreation :
    (b : Backup) (bs : List Backup) → IsByCreation bs → IsByCreation (insert_by_creation b bs)
unfolding insert_by_creation
insert_by_creation-IsByCreation b [] h = (tt, tt)
insert_by_creation-IsByCreation b (c ∷ cs) h =
    elim (Bool-cases (leb b.meta.creation_timestamp c.meta.creation_timestamp)) [
      | inl e ↦ rw e (
        (
          leb→le b.meta.creation_timestamp c.meta.creation_timestamp e,
          All-after b.meta.creation_timestamp c.meta.creation_timestamp cs
              (leb→le b.meta.creation_timestamp c.meta.creation_timestamp e) h.0,
        ),
        h,
      )
      | inr e ↦ rw e (
        insert_by_creation-All (λ d. c.meta.creation_timestamp ≤ d.meta.creation_timestamp) b cs
            (ground (arith, e)) h.0,
        insert_by_creation-IsByCreation b cs h.1,
      )
    ]

pub sort_by_creation-IsByCreation : (bs : List Backup) → IsByCreation (sort_by_creation bs)
unfolding sort_by_creation
sort_by_creation-IsByCreation [] = tt
sort_by_creation-IsByCreation (b ∷ bs) =
    insert_by_creation-IsByCreation b (sort_by_creation bs) (sort_by_creation-IsByCreation bs)
