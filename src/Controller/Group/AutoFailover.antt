-- ===== src/Controller/Group/AutoFailover.antt =====
-- availabilitygroup_controller.go: handleAutoFailover.
use mssql_k8s_operator.Api.Meta.{condition_ready}
use mssql_k8s_operator.Controller.Fencing.Stage.{short_requeue}
use mssql_k8s_operator.Sql.Client.{force_failover_ag, Endpoint}
use mssql_k8s_operator.Controller.Group.Leases.{try_acquire_lease}
use mssql_k8s_operator.Controller.Fencing.Steps.{
  connect_to_replica, update_replica_role_labels_from_ag,
}
use mssql_k8s_operator.Controller.Fencing.{ag_status, AgWrite, default_cooldown}
use mssql_k8s_operator.Controller.Group.{group_requeue, update_ag_status, GroupEnv}
use mssql_k8s_operator.Api.AvailabilityGroup.{AvailabilityGroup, AgReplicaSpec}
use mssql_k8s_operator.Prelude.{
  ℕ, ◌+◌, ◌-◌, String, false, none, some, List, [], ◌∷◌, ◌==◌, string_eq, nat_eq, int_eq, bool_eq,
  ℤ, if◌then◌else◌,
}
use mssql_k8s_operator.Controller.Effect.{
  failure, normal, err, warning, Action, ok, on_result, pure, on_option, note, ask, Result, Run,
  ◌>>=◌, ◌>>◌,
}
use mssql_k8s_operator.Prelude.Int
use mssql_k8s_operator.Controller.Helpers.{commit, exec}
use Prim.Native.String.{◌++◌ as append_text}

-- A group has at least two replicas by the schema of the resource; the source would panic with none.
abbrev pub first_name : List AgReplicaSpec → String
first_name [] = ""
first_name (r ∷ rs) = r.server_name

unfoldable pub known_primary : AvailabilityGroup → String
known_primary ag =
    if ag.status.primary_replica == ""
    then first_name ag.spec.replicas
    else ag.status.primary_replica

module _ {W : Type 0} (env : GroupEnv W) (ag : AvailabilityGroup) where
  -- a duration that does not parse is passed over
  unfoldable pub failover_cooldown_of : ℤ
  failover_cooldown_of = elim ag.spec.failover_cooldown [
    | none ↦ default_cooldown
    | some text ↦ elim (env.ag.base.parse_duration text) [ none ↦ default_cooldown | some d ↦ d ]
  ]

  -- The replica is primary already: the status is taken over, errors are dropped.
  unfoldable pub adopt_primary : Endpoint → ℕ → Run W AgWrite (Result ℕ)
  unfolding update_ag_status group_requeue
  adopt_primary client requeue = do
    observed ← ask (env.ag.base.questions.get_ag_status client ag.spec.ag_name)
    on_result observed (λ e. do after ← group_requeue env requeue; pure (ok after))
        (λ state. do
          update_ag_status env ag state
          after ← group_requeue env requeue
          pure (ok after))

  unfoldable pub record_auto_failover : AgReplicaSpec → Run W AgWrite (Result ℕ)
  unfolding update_replica_role_labels_from_ag
  record_auto_failover replica = do
    now ← ask env.ag.base.now
    commit env.ag.base (
        ag_status (record ag.status {
          primary_replica = replica.server_name;
          last_auto_failover_time = some now;
          auto_failover_count = Int.succ_int32 ag.status.auto_failover_count;
          conditions = env.ag.base.set_status_condition ag.status.conditions (record {
            type = condition_ready;
            status = false;
            reason = "AutoFailoverExecuted";
            observed_generation = ag.meta.generation;
          });
        }))
    note (Action.event normal "AutoFailoverCompleted")
    update_replica_role_labels_from_ag env.ag ag replica.server_name
    pure (ok short_requeue)

  -- The loop over the replicas.
  unfoldable pub try_failover : ℕ → List AgReplicaSpec → Run W AgWrite (Result ℕ)
  unfolding known_primary connect_to_replica adopt_primary record_auto_failover
  try_failover requeue [] = do
    note (Action.event warning "AutoFailoverNoCandidate")
    pure (err (failure "no failover candidates available"))
  try_failover requeue (replica ∷ replicas) =
      let rest = try_failover requeue replicas in
      if replica.server_name == known_primary ag then rest else (do
        connected ← connect_to_replica env.ag ag replica
        on_result connected (λ e. rest)
            (λ client. (do
              observed ← ask (
                  env.ag.base.questions.get_ag_replica_role client ag.spec.ag_name
                    replica.server_name)
              on_result observed (λ e. rest)
                  (λ role. if role == "PRIMARY" then adopt_primary client requeue else (do
                    forced ← exec env.ag.base client (force_failover_ag ag.spec.ag_name)
                    on_result forced
                        (λ e. (do note (Action.event warning "AutoFailoverFailed"); rest))
                        (λ _. record_auto_failover replica))))))

  -- the rest of the cool-down, where `elapsed < cooldown`
  unfoldable pub cooldown_left : ℕ → ℕ → ℤ → ℕ
  cooldown_left now last cooldown = (last + Int.pos_part cooldown) - (now + Int.neg_part cooldown)

  -- behind the cool-down
  unfoldable pub failover_with_lease : ℕ → Run W AgWrite (Result ℕ)
  unfolding try_acquire_lease try_failover
  failover_with_lease requeue = do
    acquired ← try_acquire_lease env ag.meta.namespace (append_text "ag-failover-" ag.spec.ag_name)
    if acquired then try_failover requeue ag.spec.replicas else pure (ok short_requeue)

  unfoldable pub handle_auto_failover : ℕ → Run W AgWrite (Result ℕ)
  unfolding failover_cooldown_of cooldown_left failover_with_lease
  handle_auto_failover requeue =
      on_option ag.status.last_auto_failover_time (failover_with_lease requeue) (λ last. (do
        now ← ask env.ag.base.now
        if Int.within now last failover_cooldown_of
            then pure (ok (cooldown_left now last failover_cooldown_of))
            else failover_with_lease requeue))
