-- ===== src/Controller/Fencing/Steps.antt =====
-- ag_fencing.go: what is asked of each replica, and the fencing of one.
use mssql_k8s_operator.Api.Meta.{reason_fencing_executed, reason_hard_fencing_executed}
use mssql_k8s_operator.Prelude.{
  String, Bool, false, ◌&&◌, none, some, List, [], ◌∷◌, ◌==◌, string_eq, ℤ, pos, if◌then◌else◌,
}
use mssql_k8s_operator.Prelude.Int
use mssql_k8s_operator.Api.AvailabilityGroup.{AgReplicaSpec, AvailabilityGroup}
use mssql_k8s_operator.Controller.Effect.{
  on_option, ok, warning, normal, Action, note, err, on_result, ask, ◌>>=◌, ◌>>◌,
}
use mssql_k8s_operator.Sql.Client.{Endpoint, drop_ag, set_ag_role_secondary, join_ag}
use mssql_k8s_operator.Controller.Fencing.{
  connect_to_sql, exec, commit, get_credentials_from_secret, pure, Result, for_each, Run, AgWrite,
  pod_role, AgEnv, role_secondary, role_primary, max_fencing_attempts,
}

-- mapClusterType of availabilitygroup_controller.go
unfoldable pub map_cluster_type : String → String
map_cluster_type ct = if ct == "WSFC" then "WSFC" else if ct == "None" then "NONE" else "EXTERNAL"

module _ {W : Type 0} (env : AgEnv W) (ag : AvailabilityGroup) where
  -- The connection to a replica, by the credentials of its secret.
  unfoldable pub connect_to_replica : AgReplicaSpec → Run W AgWrite (Result Endpoint)
  connect_to_replica replica = do
    credentials ←
        get_credentials_from_secret env.base ag.meta.namespace
          replica.server.credentials_secret.name
    on_result credentials (λ e. pure (err e)) (λ c. connect_to_sql env.base replica.server c.0 c.1)

  -- The empty text stands for a replica that cannot be asked.
  unfoldable pub observe_role : AgReplicaSpec → Run W AgWrite String
  observe_role replica = do
    connection ← connect_to_replica replica
    on_result connection (λ e. pure "")
        (λ conn. do
          role ←
              ask (env.base.questions.get_ag_replica_role conn ag.spec.ag_name replica.server_name)
          on_result role (λ e. pure "") pure)

  unfoldable pub collect_replica_roles :
      List AgReplicaSpec → List (String × String) → Run W AgWrite (List (String × String))
  collect_replica_roles [] roles = pure roles
  collect_replica_roles (x ∷ xs) roles = do
    role ← observe_role x
    collect_replica_roles xs ((x.server_name, role) ∷ roles)

  unfoldable pub observe_lsn : AgReplicaSpec → Run W AgWrite ℤ
  observe_lsn replica = do
    connection ← connect_to_replica replica
    on_result connection (λ e. pure (pos 0))
        (λ conn. do
          lsn ← ask (env.base.questions.get_last_hardened_lsn conn ag.spec.ag_name)
          on_result lsn (λ e. pure (pos 0)) pure)

  unfoldable pub collect_replica_lsns :
      List AgReplicaSpec → List (String × ℤ) → Run W AgWrite (List (String × ℤ))
  collect_replica_lsns [] lsns = pure lsns
  collect_replica_lsns (x ∷ xs) lsns = do
    lsn ← observe_lsn x
    collect_replica_lsns xs ((x.server_name, lsn) ∷ lsns)

  -- A pod that is not found, or has the role already, is left alone; a failure is ignored.
  unfoldable pub set_pod_role_label : String → String → Run W AgWrite (Unit {0})
  set_pod_role_label pod role = do
    label ← ask (env.get_pod_role ag.meta.namespace pod)
    on_result label (λ e. pure tt)
        (λ current.
          if current == role
          then pure tt
          else (commit env.base (pod_role ag.meta.namespace pod role) >> pure tt))

  unfoldable pub update_replica_role_labels_from_ag : String → Run W AgWrite (Unit {0})
  update_replica_role_labels_from_ag primary = for_each ag.spec.replicas (λ x.
      set_pod_role_label x.server_name
        (if x.server_name == primary then role_primary else role_secondary))

  -- Hard fencing drops the group on the replica, soft fencing makes the replica a secondary.
  unfoldable pub fence_replica : AgReplicaSpec → Bool → Run W AgWrite (Result (Unit {0}))
  fence_replica replica hard = do
    connection ← connect_to_replica replica
    on_result connection (λ e. pure (err e))
        (λ conn.
          if hard
          then (do
            r ← exec env.base conn (drop_ag ag.spec.ag_name)
            on_result r (λ e. pure (err e))
                (λ u. do note (Action.event warning reason_hard_fencing_executed); pure (ok u)))
          else (do
            r ← exec env.base conn (set_ag_role_secondary ag.spec.ag_name)
            on_result r (λ e. pure (err e))
                (λ u. do note (Action.event normal reason_fencing_executed); pure (ok u))))

  -- `time.Since(*LastFencingTime) < cooldown`, the clock read only if the time is set
  unfoldable pub fenced_recently : ℤ → Run W AgWrite Bool
  fenced_recently cooldown =
      on_option ag.status.last_fencing_time (pure false)
        (λ t. do now ← ask env.base.now; pure (Int.within now t cooldown))

  -- `isExhausted`, its tests in the order of the source
  unfoldable pub is_exhausted : ℤ → AgReplicaSpec → Run W AgWrite Bool
  unfolding fenced_recently
  is_exhausted cooldown p =
      if ag.status.last_fenced_replica == p.server_name
        && Int.leb max_fencing_attempts ag.status.consecutive_fencing_count
      then fenced_recently cooldown
      else pure false

  unfoldable pub is_hard : ℤ → AgReplicaSpec → Run W AgWrite Bool
  unfolding fenced_recently
  is_hard cooldown p =
      if ag.status.last_fenced_replica == p.server_name
      then fenced_recently cooldown
      else pure false

  unfoldable pub try_rejoin_replica : AgReplicaSpec → Run W AgWrite (Unit {0})
  unfolding map_cluster_type
  try_rejoin_replica replica = do
    connection ← connect_to_replica replica
    on_result connection (λ e. pure tt)
        (λ conn. do
          r ← exec env.base conn (
              join_ag ag.spec.ag_name
                (elim ag.spec.cluster_type [ none ↦ "EXTERNAL" | some ct ↦ map_cluster_type ct ]))
          on_result r (λ e. pure tt) (λ _. note (Action.event normal "ReplicaRejoined")))
