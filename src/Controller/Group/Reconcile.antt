-- ===== src/Controller/Group/Reconcile.antt =====
-- availabilitygroup_controller.go: Reconcile, in the order of its steps, and the deletion.
use mssql_k8s_operator.Controller.Object.{requeue_interval}
use mssql_k8s_operator.Api.Meta.{
  reason_connection_failed, reason_invalid_credentials_secret, reason_secret_not_found, finalizer,
}
use mssql_k8s_operator.Webhook.Checks.{bool_value}
use mssql_k8s_operator.Controller.Fencing.{group_updated, AgWrite}
use mssql_k8s_operator.Controller.Group.Steps.{apply_group}
use mssql_k8s_operator.Controller.Fencing.Steps.{connect_to_replica}
use mssql_k8s_operator.Controller.Group.AutoFailover.{handle_auto_failover}
use mssql_k8s_operator.Controller.Fencing.Stage.{fencing_stage}
use mssql_k8s_operator.Sql.Client.{drop_ag, Endpoint}
use mssql_k8s_operator.Controller.Group.{group_requeue, set_group_condition, GroupEnv}
use mssql_k8s_operator.Api.AvailabilityGroup.{AvailabilityGroup, AgReplicaSpec}
use mssql_k8s_operator.Prelude.{
  ℕ, String, Bool, false, not, Option, none, some, List, [], ◌∷◌, ◌==◌, string_eq, nat_eq, int_eq,
  bool_eq, if◌then◌else◌,
}
use mssql_k8s_operator.Controller.Effect.{
  wrapped, warning, normal, Action, note, failure, is_not_found, ok, err, on_option, ask, pure,
  on_result, Result, Run, ◌>>=◌, ◌>>◌,
}
use mssql_k8s_operator.Controller.Helpers.{
  connect_to_sql, commit, get_credentials_from_secret, exec,
}
use mssql_k8s_operator.Prelude.Int

-- the replica that the status names, or the first one
unfoldable pub find_replica : String → AgReplicaSpec → List AgReplicaSpec → AgReplicaSpec
find_replica name first [] = first
find_replica name first (r ∷ rs) =
    let rest = find_replica name first rs in if r.server_name == name then r else rest

unfoldable pub primary_replica_of : AvailabilityGroup → AgReplicaSpec → AgReplicaSpec
unfolding find_replica
primary_replica_of ag first =
    if ag.status.primary_replica == ""
    then first
    else find_replica ag.status.primary_replica first ag.spec.replicas

module _ {W : Type 0} (env : GroupEnv W) where
  module _ (ag : AvailabilityGroup) where
    -- An automatic failover whose error only asks for another run.
    unfoldable pub auto_failover_or_requeue : ℕ → Run W AgWrite (Result ℕ)
    unfolding handle_auto_failover group_requeue
    auto_failover_or_requeue requeue = do
      failed_over ← handle_auto_failover env ag requeue
      on_result failed_over (λ e. do after ← group_requeue env requeue; pure (ok after))
          (λ after. pure (ok after))

    -- behind step 4: with the automatic failover, a primary that does not answer is failed over
    unfoldable pub check_primary : Endpoint → Bool → ℕ → Run W AgWrite (Result (Option ℕ))
    unfolding auto_failover_or_requeue
    check_primary client auto requeue = if not auto then pure (ok none) else (do
      answered ← ask (env.ag.base.questions.ping client)
      on_result answered
          (λ e. (do
            failed_over ← auto_failover_or_requeue requeue
            on_result failed_over (λ e. pure (err e)) (λ after. pure (ok (some after)))))
          (λ _. pure (ok none)))

  -- step 4b, and the rest for the group that it leaves
  unfoldable pub fence_and_apply : AvailabilityGroup → Endpoint → ℕ → Run W AgWrite (Result ℕ)
  unfolding fencing_stage apply_group
  fence_and_apply ag client requeue = do
    fenced ← fencing_stage env.ag ag
    on_option fenced.0 (apply_group env fenced.1 client requeue) (λ after. pure (ok after))

  -- from step 4 on
  unfoldable pub connect_group :
      AvailabilityGroup → AgReplicaSpec → Bool → ℕ → Run W AgWrite (Result ℕ)
  unfolding set_group_condition auto_failover_or_requeue check_primary fence_and_apply
  connect_group ag primary auto requeue = do
    credentials ←
        get_credentials_from_secret env.ag.base ag.meta.namespace
          primary.server.credentials_secret.name
    on_result credentials
        (λ e.
          set_group_condition env ag false
            (if is_not_found e then reason_secret_not_found else reason_invalid_credentials_secret))
        (λ pair. (do
          connected ← connect_to_sql env.ag.base primary.server pair.0 pair.1
          on_result connected
              (λ e. (do
                note (Action.event warning reason_connection_failed)
                if auto
                    then auto_failover_or_requeue ag requeue
                    else pure (err (wrapped "failed to connect to primary replica" e))))
              (λ client. (do
                checked ← check_primary ag client auto requeue
                on_result checked (λ e. pure (err e))
                    (λ early.
                      on_option early (fence_and_apply ag client requeue)
                        (λ after. pure (ok after)))))))

  -- removes the finalizer and updates the object
  unfoldable pub release_group : AvailabilityGroup → Run W AgWrite (Result ℕ)
  release_group ag = do
    updated ←
        commit env.ag.base
          (group_updated (record ag { meta = env.remove_finalizer finalizer ag.meta }))
    on_result updated (λ e. pure (err e)) (λ _. pure (ok 0))

  -- the clean-up on the primary, whose errors are only logged
  unfoldable pub drop_group : AvailabilityGroup → AgReplicaSpec → Run W AgWrite (Unit {0})
  unfolding connect_to_replica
  drop_group ag primary = do
    connected ← connect_to_replica env.ag ag primary
    on_result connected (λ e. pure tt)
        (λ client. (do
          dropped ← exec env.ag.base client (drop_ag ag.spec.ag_name)
          on_result dropped (λ e. pure tt)
              (λ _. note (Action.event normal "AvailabilityGroupDropped"))))

  unfoldable pub handle_group_deletion :
      AvailabilityGroup → AgReplicaSpec → Run W AgWrite (Result ℕ)
  unfolding drop_group release_group primary_replica_of
  handle_group_deletion ag first =
      if not (env.contains_finalizer finalizer ag.meta)
      then pure (ok 0)
      else (do drop_group ag (primary_replica_of ag first); release_group ag)

  -- step 3: the interval is the library's ℤ; a negative one would panic in rand.Int63n
  unfoldable pub health_check_interval_of : AvailabilityGroup → ℕ
  health_check_interval_of ag = elim ag.spec.health_check_interval [
    | none ↦ 10000000000
    | some text ↦ elim (env.ag.base.parse_duration text) [
      | none ↦ 10000000000
      | some d ↦ Int.pos_part d
    ]
  ]

  -- the rest of step 2, and steps 3 and 4
  unfoldable pub reconcile_live_group : AvailabilityGroup → AgReplicaSpec → Run W AgWrite (Result ℕ)
  unfolding health_check_interval_of primary_replica_of connect_group
  reconcile_live_group ag first =
      let auto = bool_value ag.spec.auto_failover in
      connect_group ag (primary_replica_of ag first) auto
        (if auto then health_check_interval_of ag else requeue_interval)

  unfoldable pub ensure_group_finalizer :
      AvailabilityGroup → Run W AgWrite (Result AvailabilityGroup)
  ensure_group_finalizer ag =
      let held = record ag { meta = env.add_finalizer finalizer ag.meta } in
      if env.contains_finalizer finalizer ag.meta then pure (ok ag) else (do
        updated ← commit env.ag.base (group_updated held)
        on_result updated (λ e. pure (err e)) (λ _. pure (ok held)))

  -- of a group that has been fetched; `first` is its first replica
  unfoldable pub reconcile_fetched_group :
      AvailabilityGroup → AgReplicaSpec → Run W AgWrite (Result ℕ)
  unfolding handle_group_deletion ensure_group_finalizer reconcile_live_group
  reconcile_fetched_group ag first =
      on_option ag.meta.deletion_timestamp
        (do
          held ← ensure_group_finalizer ag
          on_result held (λ e. pure (err e)) (λ live. reconcile_live_group live first))
        (λ _. handle_group_deletion ag first)

  -- The schema of the resource asks for two replicas; with none the source panics, here it is an
  -- error.
  unfoldable pub reconcile_group : String → String → Run W AgWrite (Result ℕ)
  unfolding reconcile_fetched_group
  reconcile_group namespace name = do
    fetched ← ask (env.get_group namespace name)
    on_result fetched (λ e. if is_not_found e then pure (ok 0) else pure (err e))
        (λ ag. elim ag.spec.replicas [
          | [] ↦ pure (err (failure "index out of range"))
          | first ∷ others ↦ reconcile_fetched_group ag first
        ])
