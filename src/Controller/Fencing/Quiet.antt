-- ===== src/Controller/Fencing/Quiet.antt =====
-- ag_fencing.go: the steps that only ask add nothing to the log, whatever the log may hold.
use mssql_k8s_operator.Prelude.{String, List, [], ◌∷◌, string_eq, nat_eq, int_eq, bool_eq, ℤ}
use mssql_k8s_operator.Controller.Fencing.Detect.{select_rogues, failover_running}
use mssql_k8s_operator.Controller.Helpers.{connect_to_sql, get_credentials_from_secret}
use mssql_k8s_operator.Controller.Effect.Keeps.{
  Keeps-pure, Keeps-if, Keeps-bind, keeps_rules, Keeps,
}
use mssql_k8s_operator.Controller.Fencing.Steps.{
  is_hard, is_exhausted, observe_lsn, connect_to_replica, collect_replica_roles,
  collect_replica_lsns, observe_role, fenced_recently,
}
use mssql_k8s_operator.Controller.Effect.{Action}
use mssql_k8s_operator.Api.AvailabilityGroup.{AgReplicaSpec, AvailabilityGroup}
use mssql_k8s_operator.Controller.Fencing.{AgEnv, AgWrite}

module _ {W : Type 0} (env : AgEnv W) (ag : AvailabilityGroup) {Ok : Action AgWrite → Type 0} where
  pub connect_to_replica-Keeps : (x : AgReplicaSpec) → Keeps Ok (connect_to_replica env ag x)
  unfolding connect_to_replica get_credentials_from_secret connect_to_sql
  connect_to_replica-Keeps x = search keeps_rules

  observe_role-Keeps : (x : AgReplicaSpec) → Keeps Ok (observe_role env ag x)
  unfolding observe_role
  observe_role-Keeps x = search (keeps_rules, connect_to_replica-Keeps)

  pub collect_replica_roles-Keeps :
      (xs : List AgReplicaSpec) (roles : List (String × String))
      → Keeps Ok (collect_replica_roles env ag xs roles)
  unfolding collect_replica_roles
  collect_replica_roles-Keeps [] roles = search keeps_rules
  collect_replica_roles-Keeps (x ∷ xs) roles =
      Keeps-bind (observe_role env ag x) _ (observe_role-Keeps x)
        (λ role. collect_replica_roles-Keeps xs ((x.server_name, role) ∷ roles))

  observe_lsn-Keeps : (x : AgReplicaSpec) → Keeps Ok (observe_lsn env ag x)
  unfolding observe_lsn
  observe_lsn-Keeps x = search (keeps_rules, connect_to_replica-Keeps)

  pub collect_replica_lsns-Keeps :
      (xs : List AgReplicaSpec) (lsns : List (String × ℤ))
      → Keeps Ok (collect_replica_lsns env ag xs lsns)
  unfolding collect_replica_lsns
  collect_replica_lsns-Keeps [] lsns = search keeps_rules
  collect_replica_lsns-Keeps (x ∷ xs) lsns =
      Keeps-bind (observe_lsn env ag x) _ (observe_lsn-Keeps x)
        (λ lsn. collect_replica_lsns-Keeps xs ((x.server_name, lsn) ∷ lsns))

  fenced_recently-Keeps : (d : ℤ) → Keeps Ok (fenced_recently env ag d)
  unfolding fenced_recently
  fenced_recently-Keeps d = search keeps_rules

  pub is_exhausted-Keeps : (d : ℤ) (p : AgReplicaSpec) → Keeps Ok (is_exhausted env ag d p)
  unfolding is_exhausted
  is_exhausted-Keeps d p = search (keeps_rules, fenced_recently-Keeps)

  pub is_hard-Keeps : (d : ℤ) (p : AgReplicaSpec) → Keeps Ok (is_hard env ag d p)
  unfolding is_hard
  is_hard-Keeps d p = search (keeps_rules, fenced_recently-Keeps)

  pub select_rogues-Keeps :
      (d : ℤ) (legitimate : AgReplicaSpec) (ps : List AgReplicaSpec)
      → Keeps Ok (select_rogues env ag d legitimate ps)
  unfolding select_rogues
  select_rogues-Keeps d legitimate [] = search keeps_rules
  select_rogues-Keeps d legitimate (p ∷ ps) =
      let rest = select_rogues-Keeps d legitimate ps in
      Keeps-if _ _ _ (λ _. rest)
        (λ _. Keeps-bind _ _ (is_exhausted-Keeps d p) (λ exhausted.
          Keeps-if exhausted _ _ (λ _. rest)
            (λ _. Keeps-bind _ _ rest (λ others. Keeps-pure (p ∷ others)))))

  pub failover_running-Keeps : Keeps Ok (failover_running env ag)
  unfolding failover_running
  failover_running-Keeps = search keeps_rules
