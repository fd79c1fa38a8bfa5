-- ===== src/Controller/Fencing/Stage.antt =====
-- availabilitygroup_controller.go, step 4b of Reconcile: fencing, and the early returns behind it.
use mssql_k8s_operator.Controller.Fencing.Quiet.{failover_running-Keeps}
use mssql_k8s_operator.Controller.Fencing.Outcome.{
  log-asked_roles, asked_roles, asked_failovers, start_from,
}
use mssql_k8s_operator.Controller.Effect.Keeps.{keeps_rules, Keeps}
use mssql_k8s_operator.Api.AvailabilityGroup.{AgReplicaSpec, AvailabilityGroup}
use mssql_k8s_operator.Controller.Fencing.Detect.{
  select_rogues, is_managed_cluster, cooldown_of, detect_and_resolve_split_brain, resolve,
  record_fencing, resolve_rogues, resolve_primaries,
}
use mssql_k8s_operator.Controller.Fencing.Steps.{
  collect_replica_lsns, update_replica_role_labels_from_ag, set_pod_role_label,
}
use mssql_k8s_operator.Prelude.{
  ℕ, String, Bool, false, not, Option, none, some, List, [], ◌∷◌, ◌==◌, string_eq, nat_eq, int_eq,
  bool_eq, ℤ, if◌then◌else◌, ◌≡◌, ◌≢◌, refl, inl, inr, eq_iff, All, Bool-cases,
}
use mssql_k8s_operator.Controller.Fencing.{primaries_of, elect, ag_status, AgEnv, AgWrite}
use mssql_k8s_operator.Controller.Effect.{St, pure, write, Run, Action, ◌>>=◌}

-- 5 s in nanoseconds
abbrev pub short_requeue : ℕ
short_requeue = 5000000000

-- The delay of an early return, or none where Reconcile goes on, with the group changed in place.
module _ {W : Type 0} (env : AgEnv W) where
  unfoldable pub fencing_stage : AvailabilityGroup → Run W AgWrite (Option ℕ × AvailabilityGroup)
  fencing_stage ag = if ag.status.primary_replica == "" then pure (none, ag) else (do
    found ← detect_and_resolve_split_brain env ag
    if found.0
        then pure (some short_requeue, found.1)
        else if not (found.1.status.primary_replica == ag.status.primary_replica)
        then pure (some short_requeue, found.1)
        else pure (none, found.1))

-- no write of the group's status
abbrev pub NoStatus : Action AgWrite → Type 0
NoStatus (write (ag_status status)) = ⊥
NoStatus _ = Unit

module _ {W : Type 0} (env : AgEnv W) where
  set_pod_role_label-NoStatus :
      (ag : AvailabilityGroup) (pod role : String)
      → Keeps NoStatus (set_pod_role_label env ag pod role)
  unfolding set_pod_role_label
  set_pod_role_label-NoStatus ag pod role = search keeps_rules depth 8

  update_labels-NoStatus :
      (ag : AvailabilityGroup) (primary : String)
      → Keeps NoStatus (update_replica_role_labels_from_ag env ag primary)
  unfolding update_replica_role_labels_from_ag
  update_labels-NoStatus ag primary = search (keeps_rules, set_pod_role_label-NoStatus)

  resolve_rogues-primary :
      (ag : AvailabilityGroup) (d : ℤ) (legitimate : AgReplicaSpec) (rogues : List AgReplicaSpec)
      (s : St W AgWrite)
      → (resolve_rogues env ag d legitimate rogues s).0.0 ≡ false
      → (resolve_rogues env ag d legitimate rogues s).0.1.status.primary_replica
        ≡ ag.status.primary_replica
  unfolding resolve_rogues record_fencing
  resolve_rogues-primary ag d legitimate [] s h = refl
  resolve_rogues-primary ag d legitimate (r ∷ rs) s h = cc

  resolve-primary :
      (ag : AvailabilityGroup) (first : AgReplicaSpec) (others : List AgReplicaSpec)
      (s : St W AgWrite)
      → (resolve env ag first others s).0.0 ≡ false
      → (resolve env ag first others s).0.1.status.primary_replica ≡ ag.status.primary_replica
  unfolding resolve
  resolve-primary ag first others s h =
      let d = cooldown_of env ag in
      let found = collect_replica_lsns env ag (first ∷ others) [] s in
      let legitimate = elect ag.status.primary_replica found.0 first others in
      let chosen = select_rogues env ag d legitimate (first ∷ others) found.1 in
      resolve_rogues-primary ag d legitimate chosen.0 chosen.1 h

  resolve_primaries-NoStatus :
      (ag : AvailabilityGroup) (ps : List AgReplicaSpec) (s : St W AgWrite)
      → All NoStatus s.log
      → (resolve_primaries env ag ps s).0.0 ≡ false
      → (resolve_primaries env ag ps s).0.1.status.primary_replica ≢ ag.status.primary_replica
      → All NoStatus (resolve_primaries env ag ps s).1.log
  unfolding resolve_primaries
  resolve_primaries-NoStatus ag [] s l quiet moved = l
  resolve_primaries-NoStatus ag (p ∷ q ∷ ps) s l quiet moved =
      absurd (moved (resolve-primary ag p (q ∷ ps) s quiet))
  resolve_primaries-NoStatus ag (p ∷ []) s l quiet moved =
      let ag' = record ag { status = record (ag.status) { primary_replica = p.server_name } } in
      elim (Bool-cases (p.server_name == ag.status.primary_replica)) [
        | inl same ↦ rw same l
        | inr other ↦ rw other (tt, (update_labels-NoStatus ag' p.server_name).at s l)
      ]

module _ {W : Type 0} (env : AgEnv W) (ag : AvailabilityGroup) (w : W) where
  detect-NoStatus :
      (detect_and_resolve_split_brain env ag (start_from w)).0.0 ≡ false
      → (detect_and_resolve_split_brain env ag (start_from w)).0.1.status.primary_replica
        ≢ ag.status.primary_replica
      → All NoStatus (detect_and_resolve_split_brain env ag (start_from w)).1.log
  unfolding detect_and_resolve_split_brain
  detect-NoStatus h moved = elim (Bool-cases (ag.status.primary_replica == "")) [
    | inl unknown ↦ rw unknown tt
    | inr known ↦ rw known (elim (Bool-cases (is_managed_cluster ag)) [
      | inl managed ↦ rw managed tt
      | inr alone ↦ rw alone (elim (Bool-cases (asked_failovers env ag w).0) [
        | inl running ↦ rw running ((failover_running-Keeps env ag).at (start_from w) tt)
        | inr idle ↦ rw idle (
            resolve_primaries-NoStatus env ag
              (primaries_of (asked_roles env ag w).0 ag.spec.replicas) (asked_roles env ag w).1
              (rw (log-asked_roles env ag w) tt) (rw (known, alone, idle) at h)
              (rw (known, alone, idle) at moved))
      ])
    ])
  ]

  -- When the stage finds another single primary than the status names, it corrects the group in
  -- memory only: it ends the reconciliation with a requeue in 5 s, and none of its writes is one of
  -- the status.
  pub fencing_stage-unsaved :
      (fencing_stage env ag (start_from w)).0.1.status.primary_replica ≢ ag.status.primary_replica
      → (detect_and_resolve_split_brain env ag (start_from w)).0.0 ≡ false
      → ((fencing_stage env ag (start_from w)).0.0 ≡ some short_requeue)
        × All NoStatus (fencing_stage env ag (start_from w)).1.log
  unfolding fencing_stage
  fencing_stage-unsaved moved quiet = elim (Bool-cases (ag.status.primary_replica == "")) [
    | inl unknown ↦ absurd ((rw unknown at moved) refl)
    | inr known ↦
        elim (Bool-cases (found.0.1.status.primary_replica == ag.status.primary_replica)) [
          | inl same ↦ absurd ((rw (known, quiet, same) at moved) ((eq_iff _ _).0 same))
          | inr changed ↦
              rw (known, quiet, changed)
                (
                  refl,
                  detect-NoStatus quiet (λ e. cc (
                    (eq_iff found.0.1.status.primary_replica ag.status.primary_replica).1 e,
                    changed,
                  )),
                )
        ]
  ]
    where
      found : (Bool × AvailabilityGroup) × St W AgWrite
      found = detect_and_resolve_split_brain env ag (start_from w)
