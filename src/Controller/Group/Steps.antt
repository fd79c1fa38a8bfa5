-- ===== src/Controller/Group/Steps.antt =====
-- availabilitygroup_controller.go: steps 5 to 9 of Reconcile and what they call.
use mssql_k8s_operator.Controller.Fencing.{AgWrite}
use mssql_k8s_operator.Controller.Object.Sets.{call_for_missing}
use mssql_k8s_operator.Controller.Fencing.Steps.{
  update_replica_role_labels_from_ag, map_cluster_type, try_rejoin_replica, connect_to_replica,
}
use mssql_k8s_operator.Controller.Group.Config.{database_name_of, listener_config, config_of}
use mssql_k8s_operator.Api.AvailabilityGroup.{
  seeding_mode_automatic, AgReplicaSpec, AvailabilityGroup,
}
use mssql_k8s_operator.Sql.Client.{
  grant_ag_create_database, remove_database_from_ag, add_database_to_ag, join_ag, create_ag,
  create_hadr_endpoint, add_listener_to_ag, AgStatus, Endpoint, AgReplicaState,
}
use mssql_k8s_operator.Controller.Group.{group_requeue, update_ag_status, GroupEnv}
use mssql_k8s_operator.Prelude.{
  ℕ, String, Bool, true, false, not, none, some, List, [], ◌∷◌, map, ◌==◌, string_eq, nat_eq,
  int_eq, bool_eq, pos, if◌then◌else◌, drop,
}
use mssql_k8s_operator.Controller.Effect.{
  warning, normal, Action, wrapped, note, when, ok, err, ask, pure, on_result, on_option, Result,
  for_each, Run, ◌>>=◌, ◌>>◌,
}
use mssql_k8s_operator.Controller.Helpers.{exec}

-- the state that a status gives of a replica: the last one of its name
unfoldable pub is_connected : String → List AgReplicaState → Bool → Bool
is_connected name [] connected = connected
is_connected name (r ∷ rs) connected =
    is_connected name rs (if r.server_name == name then r.connected else connected)

module _ {W : Type 0} (env : GroupEnv W) where
  -- step 5, and the same of each secondary
  unfoldable pub ensure_endpoint : Endpoint → String → Run W AgWrite (Result Bool)
  ensure_endpoint client context = do
    exists ← ask (env.ag.base.questions.hadr_endpoint_exists client)
    on_result exists (λ e. pure (err (wrapped "failed to check HADR endpoint" e)))
        (λ there. if there then pure (ok false) else (do
          created ← exec env.ag.base client (create_hadr_endpoint (pos 5022))
          on_result created (λ e. pure (err (wrapped context e))) (λ _. pure (ok true))))

  module _ (ag : AvailabilityGroup) where
    unfoldable pub join_secondary : AgReplicaSpec → Run W AgWrite (Result (Unit {0}))
    unfolding connect_to_replica ensure_endpoint map_cluster_type
    join_secondary replica = do
      connected ← connect_to_replica env.ag ag replica
      on_result connected (λ e. pure (err (wrapped "failed to connect to replica" e)))
          (λ client. (do
            ensured ← ensure_endpoint client "failed to create HADR endpoint"
            on_result ensured (λ e. pure (err e))
                (λ _. (do
                  joined ← exec env.ag.base client (
                      join_ag ag.spec.ag_name (elim ag.spec.cluster_type [
                        | none ↦ "EXTERNAL"
                        | some ct ↦ map_cluster_type ct
                      ]))
                  on_result joined (λ e. pure (err (wrapped "failed to join AG" e)))
                      (λ _. (do
                        granted ←
                            if replica.seeding_mode == seeding_mode_automatic
                            then exec env.ag.base client (grant_ag_create_database ag.spec.ag_name)
                            else pure (ok tt)
                        on_result granted
                            (λ e. pure (err (wrapped "failed to grant create database" e)))
                            (λ _. (do
                              note (Action.event normal "ReplicaJoined")
                              pure (ok tt)))))))))

    -- the loop over the replicas behind the first
    unfoldable pub join_all : List AgReplicaSpec → Run W AgWrite (Result (Unit {0}))
    unfolding join_secondary
    join_all [] = pure (ok tt)
    join_all (r ∷ rs) =
        let rest = join_all rs in
        do joined ← join_secondary r; on_result joined (λ e. pure (err e)) (λ _. rest)

    unfoldable pub join_secondaries : Run W AgWrite (Result (Unit {0}))
    unfolding join_all
    join_secondaries = join_all (drop 1 ag.spec.replicas)

    unfoldable pub reconcile_databases : Endpoint → Run W AgWrite (Result (Unit {0}))
    unfolding call_for_missing
    reconcile_databases client = do
      observed ← ask (env.ag.base.questions.get_ag_status client ag.spec.ag_name)
      on_result observed (λ e. pure (err e))
          (λ state.
            let desired = map database_name_of ag.spec.databases in
            let current = map (λ d. d.name) state.databases in
            (do
              added ←
                  call_for_missing env.ag.base client (add_database_to_ag ag.spec.ag_name)
                    "failed to add database to AG" "DatabaseAddedToAG" current
                    (env.range_set desired)
              on_result added (λ e. pure (err e))
                  (λ _.
                    call_for_missing env.ag.base client (remove_database_from_ag ag.spec.ag_name)
                      "failed to remove database from AG" "DatabaseRemovedFromAG" desired
                      (env.range_set current))))

    -- An error may mean that the listener is there already.
    unfoldable pub reconcile_listener : Endpoint → Run W AgWrite (Unit {0})
    unfolding listener_config
    reconcile_listener client = on_option ag.spec.listener (pure tt) (λ listener. (do
      added ←
          exec env.ag.base client (add_listener_to_ag ag.spec.ag_name (listener_config listener))
      on_result added (λ e. pure tt) (λ _. note (Action.event normal "ListenerCreated"))))

    -- step 6; an error of the secondaries only gives an event
    unfoldable pub ensure_group : Endpoint → Run W AgWrite (Result (Unit {0}))
    unfolding config_of join_secondaries
    ensure_group client = do
      exists ← ask (env.ag.base.questions.ag_exists client ag.spec.ag_name)
      on_result exists (λ e. pure (err (wrapped "failed to check AG existence" e)))
          (λ there. if there then pure (ok tt) else (do
            created ← exec env.ag.base client (create_ag (config_of ag.spec))
            on_result created (λ e. pure (err (wrapped "failed to create availability group" e)))
                (λ _. (do
                  note (Action.event normal "AvailabilityGroupCreated")
                  joined ← join_secondaries
                  on_result joined
                      (λ e. (do note (Action.event warning "SecondaryJoinFailed"); pure (ok tt)))
                      (λ _. pure (ok tt))))))

    -- of the replicas other than the primary, those that are not known as connected
    unfoldable pub rejoin : AgStatus → Run W AgWrite (Unit {0})
    unfolding is_connected try_rejoin_replica
    rejoin state = for_each ag.spec.replicas (λ r.
        if r.server_name == state.primary_replica
        then pure tt
        else if is_connected r.server_name state.replicas false
        then pure tt
        else try_rejoin_replica env.ag ag r)

    -- step 9 and what is behind it
    unfoldable pub observe_group : Endpoint → ℕ → Run W AgWrite (Result ℕ)
    unfolding update_ag_status rejoin update_replica_role_labels_from_ag group_requeue
    observe_group client requeue = do
      observed ← ask (env.ag.base.questions.get_ag_status client ag.spec.ag_name)
      on_result observed (λ e. pure (err (wrapped "failed to get AG status" e)))
          (λ state. (do
            updated ← update_ag_status env ag state
            on_result updated (λ e. pure (err e))
                (λ _. (do
                  rejoin state
                  when (not (state.primary_replica == ""))
                      (update_replica_role_labels_from_ag env.ag ag state.primary_replica)
                  after ← group_requeue env requeue
                  pure (ok after)))))

    -- steps 5 to 9; errors of steps 7 and 8 are only logged
    unfoldable pub apply_group : Endpoint → ℕ → Run W AgWrite (Result ℕ)
    unfolding ensure_endpoint ensure_group reconcile_databases reconcile_listener observe_group
    apply_group client requeue = do
      ensured ← ensure_endpoint client "failed to create HADR endpoint"
      on_result ensured (λ e. pure (err e))
          (λ created. (do
            when created (note (Action.event normal "HADREndpointCreated"))
            grouped ← ensure_group client
            on_result grouped (λ e. pure (err e))
                (λ _. (do
                  reconcile_databases client
                  reconcile_listener client
                  observe_group client requeue))))
