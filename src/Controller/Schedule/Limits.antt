-- ===== src/Controller/Schedule/Limits.antt =====
-- The limits of the retention policy: how many backups it keeps, and which.
use mssql_k8s_operator.Prelude.{ltb-false→le}
use mssql_k8s_operator.Prelude.{drop}
use mssql_k8s_operator.Prelude.{refl, ◌∙◌, ltb→lt}
use mssql_k8s_operator.Api.Backups.{Backup}
use mssql_k8s_operator.Controller.Schedule.{
  add_new, add_excess, excess_of, has_name, to_delete_of, append_new, expired, sort_by_creation,
}
use mssql_k8s_operator.Prelude.{
  ltb, ℕ, zero, suc, ◌-◌, ◌≤◌, String, true, ◌||◌, Option, none, some, List, [], ◌∷◌, ◌++◌,
  string_eq, nat_eq, int_eq, bool_eq, ℤ, pos, ◌≡◌, refl, ◌∙◌, inl, inr, arith, eq_iff, All,
  Bool-cases, length, take,
}
use mssql_k8s_operator.Controller.Schedule.Retention.{
  kept_of, IsByCreation, sort_by_creation-IsByCreation, append_new-All, drop-All,
}

-- Appending only makes more names known.
pub has_name-append :
    (name : String) (xs ys : List Backup)
    → has_name name (xs ++ ys) ≡ (has_name name xs || has_name name ys)
unfolding has_name
has_name-append name [] ys = refl
has_name-append name (x ∷ xs) ys = let rest = has_name-append name xs ys in ground (arith, rest)

pub has_name_self :
    (b : Backup) (old : List Backup)
    → (has_name b.meta.name old || has_name b.meta.name (b ∷ [])) ≡ true
unfolding has_name
has_name_self b old = ground (arith, eq_iff b.meta.name b.meta.name)

pub add_new-has_old :
    (name : String) (old : List Backup) (b : Backup)
    → has_name name old ≡ true
    → has_name name (add_new old b) ≡ true
unfolding add_new
add_new-has_old name old b h = elim (Bool-cases (has_name b.meta.name old)) [
  | inl e ↦ rw e h
  | inr e ↦ rw e (has_name-append name old (b ∷ []) ∙ rw h refl)
]

pub add_new-has_new : (old : List Backup) (b : Backup) → has_name b.meta.name (add_new old b) ≡ true
unfolding add_new
add_new-has_new old b = elim (Bool-cases (has_name b.meta.name old)) [
  | inl e ↦ rw e e
  | inr e ↦ rw e (has_name-append b.meta.name old (b ∷ []) ∙ has_name_self b old)
]

pub append_new-has_old :
    (name : String) (old bs : List Backup)
    → has_name name old ≡ true
    → has_name name (append_new old bs) ≡ true
unfolding append_new
append_new-has_old name old [] h = h
append_new-has_old name old (b ∷ bs) h =
    append_new-has_old name (add_new old b) bs (add_new-has_old name old b h)

pub append_new-has_new :
    (old bs : List Backup) → All (λ b. has_name b.meta.name (append_new old bs) ≡ true) bs
unfolding append_new
append_new-has_new old [] = tt
append_new-has_new old (b ∷ bs) = (
  append_new-has_old b.meta.name (add_new old b) bs (add_new-has_new old b),
  append_new-has_new (add_new old b) bs,
)

pub length-kept_of : (gone bs : List Backup) → length (kept_of gone bs) ≤ length bs
length-kept_of gone [] = omega arith
length-kept_of gone (b ∷ bs) = let rest = length-kept_of gone bs in ground (arith, rest)

-- If the first `n` are gone, no more than the others are kept.
pub length-kept_of-drop :
    (n : ℕ) (gone bs : List Backup)
    → All (λ b. has_name b.meta.name gone ≡ true) (take n bs)
    → length (kept_of gone bs) ≤ length bs - n
length-kept_of-drop zero gone bs h = omega (arith, length-kept_of gone bs)
length-kept_of-drop (suc n) gone [] h = omega arith
length-kept_of-drop (suc n) gone (b ∷ bs) h =
    rw h.0 (omega (arith, length-kept_of-drop n gone bs h.1))

-- With a limit `m` ≥ 1 in the retention policy, at most `m` of the completed backups are not named
-- among those to delete, whatever the age limit is.
pub to_delete_of-keeps_max_count :
    (parse : String → Option ℤ) (now m : ℕ) (age : Option String) (bs : List Backup)
    → 1 ≤ m
    → length (
        kept_of (to_delete_of parse now (record { max_count = some (pos m); max_age = age }) bs) bs)
      ≤ m
unfolding to_delete_of add_excess excess_of
to_delete_of-keeps_max_count parse now zero age bs h = ground arith
to_delete_of-keeps_max_count parse now (suc m) age bs h =
    elim (Bool-cases (ltb (suc m) (length bs))) [
      | inl e ↦ rw e (
          omega (
            arith,
            ltb→lt (suc m) (length bs) e,
            length-kept_of-drop (length bs - suc m)
                (append_new (expired parse now age bs) (take (length bs - suc m) bs)) bs
                (append_new-has_new (expired parse now age bs) (take (length bs - suc m) bs)),
          ))
      | inr e ↦ rw e (
          omega (
            arith,
            ltb-false→le (suc m) (length bs) e,
            length-kept_of (append_new (expired parse now age bs) []) bs,
          ))
    ]

-- Of a list in order, the first `n` are not newer than the others.
pub take-IsByCreation :
    (n : ℕ) (bs : List Backup)
    → IsByCreation bs
    → All
        (λ d. All (λ k. d.meta.creation_timestamp ≤ k.meta.creation_timestamp) (drop n bs))
        (take n bs)
take-IsByCreation zero bs h = tt
take-IsByCreation (suc n) [] h = tt
take-IsByCreation (suc n) (b ∷ bs) h = (
  drop-All (λ k. b.meta.creation_timestamp ≤ k.meta.creation_timestamp) n bs h.0,
  take-IsByCreation n bs h.1,
)

-- With a limit `m` ≥ 1 and no age limit, no backup that is deleted is newer than one of the last `m`
-- by creation time.
pub to_delete_of-deletes_oldest :
    (parse : String → Option ℤ) (now m : ℕ) (items : List Backup)
    → 1 ≤ m
    → All
        (λ d.
          All
            (λ k. d.meta.creation_timestamp ≤ k.meta.creation_timestamp)
            (drop (length (sort_by_creation items) - m) (sort_by_creation items)))
        (to_delete_of parse now
          (record { max_count = some (pos m); max_age = none })
          (sort_by_creation items))
unfolding to_delete_of add_excess excess_of expired
to_delete_of-deletes_oldest parse now zero items h = ground arith
to_delete_of-deletes_oldest parse now (suc m) items h =
    let sorted = sort_by_creation items in
    let newest : Backup → Type 0 = λ d.
      All (λ k. d.meta.creation_timestamp ≤ k.meta.creation_timestamp)
        (drop (length sorted - suc m) sorted) in
    append_new-All newest [] (excess_of (pos (suc m)) sorted) tt
      (elim (Bool-cases (ltb (suc m) (length sorted))) [
        | inl e ↦
            rw e (
              take-IsByCreation (length sorted - suc m) sorted
                (sort_by_creation-IsByCreation items))
        | inr e ↦ rw e tt
      ])
