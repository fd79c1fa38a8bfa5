-- ===== src/Controller/Fencing/Detect.antt =====
-- ag_fencing.go, detectAndResolveSplitBrain, in the order of its steps. It returns whether a replica
-- was fenced, and the group with the status that it has changed in place.
use mssql_k8s_operator.Controller.Helpers.{commit}
use mssql_k8s_operator.Controller.Fencing.Steps.{
  collect_replica_roles, fence_replica, is_hard, update_replica_role_labels_from_ag, is_exhausted,
  set_pod_role_label, collect_replica_lsns,
}
use mssql_k8s_operator.Api.Meta.{
  reason_split_brain_detected, reason_primary_changed_externally, reason_fencing_failed,
  reason_fencing_exhausted, reason_fencing_executed, condition_ready, reason_hard_fencing_executed,
  Condition,
}
use mssql_k8s_operator.Api.AvailabilityGroup.{
  AgReplicaSpec, AvailabilityGroupStatus, AvailabilityGroup,
}
use mssql_k8s_operator.Controller.Fencing.{
  primaries_of, ag_status, has_running_failover, elect, role_secondary, AgWrite, default_cooldown,
  AgEnv,
}
use mssql_k8s_operator.Prelude.{
  ℕ, String, Bool, true, false, not, none, some, List, [], ◌∷◌, ◌==◌, string_eq, ℤ, pos,
  if◌then◌else◌,
}
use mssql_k8s_operator.Prelude.Int
use mssql_k8s_operator.Controller.Effect.{
  for_each, normal, warning, Action, note, on_result, pure, ask, Run, ◌>>=◌, ◌>>◌,
}

unfoldable pub last_rogue : AgReplicaSpec → List AgReplicaSpec → AgReplicaSpec
last_rogue first [] = first
last_rogue first (r ∷ rs) = last_rogue r rs

-- The counters of step 11, before the condition is set.
unfoldable pub count_fencing :
    AvailabilityGroupStatus → String → String → ℕ → AvailabilityGroupStatus
count_fencing status legitimate rogue now = record status {
  primary_replica = legitimate;
  last_fencing_time = some now;
  fencing_count = Int.succ_int32 status.fencing_count;
  consecutive_fencing_count =
      (if status.last_fenced_replica == rogue
        then Int.succ_int32 status.consecutive_fencing_count
        else pos 1);
  last_fenced_replica = rogue;
}

unfoldable pub fencing_reason : AvailabilityGroupStatus → String
fencing_reason status =
    if Int.ltb (pos 1) status.consecutive_fencing_count
    then reason_hard_fencing_executed
    else reason_fencing_executed

-- Guard 2: a cluster manager is in charge.
unfoldable pub is_managed_cluster : AvailabilityGroup → Bool
is_managed_cluster ag = elim ag.spec.cluster_type [ none ↦ false | some ct ↦ not (ct == "None") ]

module _ {W : Type 0} (env : AgEnv W) where
  unfoldable pub ready_false : AvailabilityGroup → String → List Condition
  ready_false ag reason = env.base.set_status_condition ag.status.conditions (record {
    type = condition_ready;
    status = false;
    reason = reason;
    observed_generation = ag.meta.generation;
  })

  -- The primaries to fence: those with another name than the legitimate one, unless the
  -- circuit-breaker has given them up.
  unfoldable pub select_rogues :
      AvailabilityGroup
      → ℤ
      → AgReplicaSpec
      → List AgReplicaSpec
      → Run W AgWrite (List AgReplicaSpec)
  select_rogues ag cooldown legitimate [] = pure []
  select_rogues ag cooldown legitimate (p ∷ ps) =
      let rest = select_rogues ag cooldown legitimate ps in
      if p.server_name == legitimate.server_name then rest else (do
        exhausted ← is_exhausted env ag cooldown p
        if exhausted then rest else (do others ← rest; pure (p ∷ others)))

  -- Traffic is cut before the replica is fenced; a failure to fence is only reported.
  unfoldable pub fence_rogue : AvailabilityGroup → ℤ → AgReplicaSpec → Run W AgWrite (Unit {0})
  fence_rogue ag cooldown rogue = do
    set_pod_role_label env ag rogue.server_name role_secondary
    hard ← is_hard env ag cooldown rogue
    fenced ← fence_replica env ag rogue hard
    on_result fenced (λ e. note (Action.event warning reason_fencing_failed)) pure

  unfoldable pub cooldown_of : AvailabilityGroup → ℤ
  cooldown_of ag = elim ag.spec.failover_cooldown [
    | none ↦ default_cooldown
    | some text ↦ elim (env.base.parse_duration text) [ none ↦ default_cooldown | some d ↦ d ]
  ]

  unfoldable pub record_fencing :
      AvailabilityGroup → AgReplicaSpec → AgReplicaSpec → Run W AgWrite (Bool × AvailabilityGroup)
  unfolding ready_false count_fencing fencing_reason
  record_fencing ag legitimate rogue = do
    now ← ask env.base.now
    let counted = record ag {
      status = count_fencing ag.status legitimate.server_name rogue.server_name now;
    }
    let status = record (counted.status) {
      conditions = ready_false counted (fencing_reason counted.status);
    }
    commit env.base (ag_status status)
    pure (true, record ag { status = status })

  -- With no rogue left, the exhaustion of fencing is reported; else each rogue is fenced and the
  -- fencing is recorded.
  unfoldable pub resolve_rogues :
      AvailabilityGroup
      → ℤ
      → AgReplicaSpec
      → List AgReplicaSpec
      → Run W AgWrite (Bool × AvailabilityGroup)
  unfolding ready_false record_fencing last_rogue
  resolve_rogues ag cooldown legitimate [] = do
    let status = record (ag.status) { conditions = ready_false ag reason_fencing_exhausted }
    commit env.base (ag_status status)
    pure (false, record ag { status = status })
  resolve_rogues ag cooldown legitimate (r ∷ rs) = do
    note (Action.event warning reason_split_brain_detected)
    for_each (r ∷ rs) (fence_rogue ag cooldown)
    record_fencing ag legitimate (last_rogue r rs)

  -- Step 9 and on, for two primaries or more.
  unfoldable pub resolve :
      AvailabilityGroup
      → AgReplicaSpec
      → List AgReplicaSpec
      → Run W AgWrite (Bool × AvailabilityGroup)
  unfolding resolve_rogues cooldown_of
  resolve ag first others = do
    let cooldown = cooldown_of ag
    lsns ← collect_replica_lsns env ag (first ∷ others) []
    let legitimate = elect ag.status.primary_replica lsns first others
    rogues ← select_rogues ag cooldown legitimate (first ∷ others)
    resolve_rogues ag cooldown legitimate rogues

  -- Steps 7 to 11.
  unfoldable pub resolve_primaries :
      AvailabilityGroup → List AgReplicaSpec → Run W AgWrite (Bool × AvailabilityGroup)
  unfolding resolve
  resolve_primaries ag [] = pure (false, ag)
  resolve_primaries ag (p ∷ []) =
      if p.server_name == ag.status.primary_replica then pure (false, ag) else (do
        let ag' = record ag { status = record (ag.status) { primary_replica = p.server_name } }
        update_replica_role_labels_from_ag env ag' p.server_name
        note (Action.event normal reason_primary_changed_externally)
        pure (false, ag'))
  resolve_primaries ag (p ∷ q ∷ rest) = resolve ag p (q ∷ rest)

  -- Guard 3: an error of the listing counts as no failover.
  unfoldable pub failover_running : AvailabilityGroup → Run W AgWrite Bool
  failover_running ag = do
    failovers ← ask (env.list_failovers ag.meta.namespace)
    on_result failovers (λ e. pure false) (λ fs. pure (has_running_failover ag.spec.ag_name fs))

  unfoldable pub detect_and_resolve_split_brain :
      AvailabilityGroup → Run W AgWrite (Bool × AvailabilityGroup)
  unfolding resolve_primaries failover_running is_managed_cluster
  detect_and_resolve_split_brain ag =
      if ag.status.primary_replica == ""
      then pure (false, ag)
      else if is_managed_cluster ag
      then pure (false, ag)
      else (do
        running ← failover_running ag
        if running then pure (false, ag) else (do
          roles ← collect_replica_roles env ag ag.spec.replicas []
          resolve_primaries ag (primaries_of roles ag.spec.replicas)))
