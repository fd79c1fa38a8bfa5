-- ===== src/Controller/Fencing/Safety.antt =====
-- ag_fencing.go: what split-brain resolution may do to SQL Server and to the pods' labels.
use mssql_k8s_operator.Api.Meta.{reason_split_brain_detected, reason_fencing_failed}
use mssql_k8s_operator.Controller.Fencing.Detect.{
  count_fencing, record_fencing, resolve_rogues, select_rogues, fence_rogue,
}
use mssql_k8s_operator.Prelude.{
  String, Bool, true, List, [], ◌∷◌, ◌==◌, string_eq, nat_eq, int_eq, bool_eq, ℤ, ◌≡◌, ◌≢◌, refl,
  inl, inr, arith, eq_iff, All, In, Bool-cases,
}
use mssql_k8s_operator.Controller.Fencing.Quiet.{is_hard-Keeps, connect_to_replica-Keeps}
use mssql_k8s_operator.Controller.Effect.Keeps.{
  Keeps-note, keeps_rules, Keeps-on_result, Keeps-pure, Keeps-bind, Keeps-bind_post, Keeps,
}
use mssql_k8s_operator.Controller.Helpers.{get_credentials_from_secret, connect_to_sql}
use mssql_k8s_operator.Controller.Fencing.Steps.{
  is_hard, is_exhausted, connect_to_replica, set_pod_role_label, fence_replica,
}
use mssql_k8s_operator.Controller.Effect.{warning, for_each, ok, event, err, St, write, sql, Action}
use mssql_k8s_operator.Api.AvailabilityGroup.{AgReplicaSpec, AvailabilityGroup}
use mssql_k8s_operator.Sql.Client.{Endpoint, drop_ag, set_ag_role_secondary, SqlCall}
use mssql_k8s_operator.Controller.Fencing.{pod_role, role_secondary, AgEnv, AgWrite}

-- the statements that take the primary role from a replica
pub data Demotes (name : String) : SqlCall → Type 0 where
  step_down : Demotes name (set_ag_role_secondary name)
  leave : Demotes name (drop_ag name)

-- An action that leaves the replica `kept` alone: SQL is sent to other replicas of the group only,
-- and only to demote them, and other pods only are labelled, as secondaries.
abbrev pub Spares : AvailabilityGroup → String → Action AgWrite → Type 0
Spares ag kept (sql conn call) =
    (x : AgReplicaSpec) × In x ag.spec.replicas
    × (x.server_name ≢ kept)
    × (conn.host ≡ x.server.host)
    × Demotes ag.spec.ag_name call
Spares ag kept (write (pod_role namespace pod role)) =
    (namespace ≡ ag.meta.namespace) × (pod ≢ kept) × (role ≡ role_secondary)
Spares ag kept (write _) = Unit
Spares ag kept (event type reason) = Unit

-- A primary that may be fenced while `kept` is spared.
abbrev pub Rogue : AvailabilityGroup → String → AgReplicaSpec → Type 0
Rogue ag kept x = In x ag.spec.replicas × (x.server_name ≢ kept)

module _ {W : Type 0} (env : AgEnv W) (ag : AvailabilityGroup) where
  pub host-connect_to_replica :
      (x : AgReplicaSpec) (s : St W AgWrite) (conn : Endpoint)
      → (connect_to_replica env ag x s).0 ≡ ok conn
      → conn.host ≡ x.server.host
  unfolding connect_to_replica connect_to_sql get_credentials_from_secret
  host-connect_to_replica x s conn h = ground arith

  module _ (kept : String) where
    set_pod_role_label-Keeps :
        (pod : String)
        → pod ≢ kept
        → Keeps (Spares ag kept) (set_pod_role_label env ag pod role_secondary)
    unfolding set_pod_role_label
    set_pod_role_label-Keeps pod h =
        let allowed : Spares ag kept (write (pod_role ag.meta.namespace pod role_secondary)) =
          (refl, h, refl) in
        search keeps_rules depth 8

    fence_replica-Keeps :
        (x : AgReplicaSpec) (hard : Bool)
        → Rogue ag kept x
        → Keeps (Spares ag kept) (fence_replica env ag x hard)
    unfolding fence_replica
    fence_replica-Keeps x hard (mem, other) =
        Keeps-bind_post (λ conn. conn.host ≡ x.server.host) (connect_to_replica env ag x) _ _
          (connect_to_replica-Keeps env ag x) (host-connect_to_replica x) (λ e. Keeps-pure (err e))
          (λ conn at_host.
            let dropped : Spares ag kept (sql conn (drop_ag ag.spec.ag_name)) =
              (x, mem, other, at_host, leave) in
            let stepped : Spares ag kept (sql conn (set_ag_role_secondary ag.spec.ag_name)) =
              (x, mem, other, at_host, step_down) in
            search keeps_rules depth 8)

    fence_rogue-Keeps :
        (d : ℤ) (x : AgReplicaSpec)
        → Rogue ag kept x
        → Keeps (Spares ag kept) (fence_rogue env ag d x)
    unfolding fence_rogue
    fence_rogue-Keeps d x rogue =
        let labelled = set_pod_role_label-Keeps x.server_name rogue.1 in
        let fenced : (b : Bool) → Keeps (Spares ag kept) (fence_replica env ag x b) =
          λ b. fence_replica-Keeps x b rogue in
        Keeps-bind (set_pod_role_label env ag x.server_name role_secondary) _ labelled (λ _.
          Keeps-bind (is_hard env ag d x) _ (is_hard-Keeps env ag d x) (λ b.
            Keeps-bind (fence_replica env ag x b) _ (fenced b) (λ r.
              Keeps-on_result r _ _ (λ e. Keeps-note (event warning reason_fencing_failed) tt)
                (λ u. Keeps-pure u))))

    fence_rogues-Keeps :
        (d : ℤ) (xs : List AgReplicaSpec)
        → All (Rogue ag kept) xs
        → Keeps (Spares ag kept) (for_each xs (fence_rogue env ag d))
    unfolding for_each
    fence_rogues-Keeps d [] h = Keeps-pure tt
    fence_rogues-Keeps d (x ∷ xs) h =
        Keeps-bind _ _ (fence_rogue-Keeps d x h.0) (λ _. fence_rogues-Keeps d xs h.1)

  pub select_rogues-Rogue :
      (d : ℤ) (legitimate : AgReplicaSpec) (ps : List AgReplicaSpec) (s : St W AgWrite)
      → All (λ p. In p ag.spec.replicas) ps
      → All (Rogue ag legitimate.server_name) (select_rogues env ag d legitimate ps s).0
  unfolding select_rogues
  select_rogues-Rogue d legitimate [] s h = tt
  select_rogues-Rogue d legitimate (p ∷ ps) s h =
      elim (Bool-cases (p.server_name == legitimate.server_name)) [
        | inl same ↦ rw same (select_rogues-Rogue d legitimate ps s h.1)
        | inr other ↦ rw other (elim (Bool-cases (is_exhausted env ag d p s).0) [
          | inl given_up ↦
              rw given_up (select_rogues-Rogue d legitimate ps (is_exhausted env ag d p s).1 h.1)
          | inr open_to ↦ rw open_to (
            (h.0, ground (arith, eq_iff p.server_name legitimate.server_name)),
            select_rogues-Rogue d legitimate ps (is_exhausted env ag d p s).1 h.1,
          )
        ])
      ]

  -- A round with rogues to fence ends with the legitimate primary in the status; one with none keeps
  -- the status' primary and does not count as fencing.
  pub resolve_rogues-result :
      (d : ℤ) (legitimate : AgReplicaSpec) (rogues : List AgReplicaSpec) (s : St W AgWrite)
      → (resolve_rogues env ag d legitimate rogues s).0.0 ≡ true
      → (resolve_rogues env ag d legitimate rogues s).0.1.status.primary_replica
        ≡ legitimate.server_name
  unfolding resolve_rogues record_fencing count_fencing
  resolve_rogues-result d legitimate [] s h = cc
  resolve_rogues-result d legitimate (r ∷ rs) s h = refl

  pub resolve_rogues-Keeps :
      (d : ℤ) (legitimate : AgReplicaSpec) (rogues : List AgReplicaSpec)
      → All (Rogue ag legitimate.server_name) rogues
      → Keeps (Spares ag legitimate.server_name) (resolve_rogues env ag d legitimate rogues)
  unfolding resolve_rogues record_fencing
  resolve_rogues-Keeps d legitimate [] h = record { at = λ s l. (tt, l) }
  resolve_rogues-Keeps d legitimate (r ∷ rs) h = record {
    at = λ s l. (
      tt,
      (fence_rogues-Keeps legitimate.server_name d (r ∷ rs) h).at
          (record s { log = event warning reason_split_brain_detected ∷ s.log }) (tt, l),
    );
  }
