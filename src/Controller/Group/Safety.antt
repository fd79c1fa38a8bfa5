-- ===== src/Controller/Group/Safety.antt =====
-- What an automatic failover sends, and when it does nothing.
use mssql_k8s_operator.Prelude.{
  subst, ℕ, String, Bool, true, false, List, [], ◌∷◌, ◌==◌, string_eq, nat_eq, int_eq, bool_eq,
  if◌then◌else◌, ◌≡◌, ◌≢◌, refl, ◌⊎◌, inl, inr, arith, eq_iff, All, In, Bool-cases,
}
use mssql_k8s_operator.Controller.Group.AutoFailover.{first_name}
use mssql_k8s_operator.Controller.Fencing.Safety.{host-connect_to_replica}
use mssql_k8s_operator.Controller.Fencing.Quiet.{connect_to_replica-Keeps}
use mssql_k8s_operator.Controller.Effect.Keeps.{
  Keeps-bind_post, Keeps-if, Keeps-pure, Keeps-perform, Keeps-note, Keeps, Keeps-bind, keeps_rules,
}
use mssql_k8s_operator.Sql.Client.{force_failover_ag, Endpoint}
use mssql_k8s_operator.Controller.Fencing.Steps.{
  connect_to_replica, set_pod_role_label, update_replica_role_labels_from_ag,
}
use mssql_k8s_operator.Controller.Group.Leases.{write_lease, acquire_from, try_acquire_lease}
use mssql_k8s_operator.Controller.Fencing.{AgWrite}
use mssql_k8s_operator.Controller.Group.AutoFailover.{
  known_primary, failover_with_lease, try_failover, record_auto_failover, handle_auto_failover,
  adopt_primary,
}
use mssql_k8s_operator.Api.AvailabilityGroup.{AgReplicaSpec, AvailabilityGroup}
use mssql_k8s_operator.Controller.Group.{group_requeue, update_ag_status, GroupEnv}
use mssql_k8s_operator.Controller.Effect.{
  failure, err, on_result, ask, warning, note, Result, Run, EventType, Action, ◌>>=◌, ◌>>◌,
}
use mssql_k8s_operator.Controller.Helpers.{exec}

-- The replica is not the first of the list.
abbrev pub IsNotFirst : List AgReplicaSpec → AgReplicaSpec → Type 0
IsNotFirst replicas r =
    (first : AgReplicaSpec) × (others : List AgReplicaSpec) × (replicas ≡ first ∷ others)
    × (r.server_name ≢ first.server_name)

-- The replica is not the primary that the status names; where it names none, not the first replica.
abbrev pub IsOtherThanPrimary : AvailabilityGroup → AgReplicaSpec → Type 0
IsOtherThanPrimary ag r =
    ((ag.status.primary_replica ≢ "") × (r.server_name ≢ ag.status.primary_replica))
    ⊎ ((ag.status.primary_replica ≡ "") × (IsNotFirst ag.spec.replicas r))

differs : (a b : String) → (a == b) ≡ false → a ≢ b
differs a b h = ground (arith, h, eq_iff a b)

first_name-IsNotFirst :
    (replicas : List AgReplicaSpec) (r : AgReplicaSpec)
    → In r replicas
    → (r.server_name == first_name replicas) ≡ false
    → IsNotFirst replicas r
first_name-IsNotFirst [] r i h = absurd i
first_name-IsNotFirst (x ∷ xs) r i h = (x, xs, refl, differs r.server_name x.server_name h)

known_primary-IsOtherThanPrimary :
    (ag : AvailabilityGroup) (r : AgReplicaSpec)
    → In r ag.spec.replicas
    → (r.server_name == known_primary ag) ≡ false
    → IsOtherThanPrimary ag r
unfolding known_primary
known_primary-IsOtherThanPrimary ag r inside other =
    let chosen = λ (b : Bool) (e : (ag.status.primary_replica == "") ≡ b).
      subst
        (λ b.
          (r.server_name == (if b then first_name ag.spec.replicas else ag.status.primary_replica))
          ≡ false)
        e other in
    elim (Bool-cases (ag.status.primary_replica == "")) [
      | inl unset ↦ inr (
        (eq_iff ag.status.primary_replica "").0 unset,
        first_name-IsNotFirst ag.spec.replicas r inside (chosen true unset),
      )
      | inr set ↦ inl (
        differs ag.status.primary_replica "" set,
        differs r.server_name ag.status.primary_replica (chosen false set),
      )
    ]

-- a forced failover of the group, on a replica of it other than its primary
abbrev pub IsAutoFailover : AvailabilityGroup → Action AgWrite → Type 0
IsAutoFailover ag (Action.sql client call) =
    (r : AgReplicaSpec) × In r ag.spec.replicas
    × IsOtherThanPrimary ag r
    × (client.host ≡ r.server.host)
    × (call ≡ force_failover_ag ag.spec.ag_name)
IsAutoFailover ag _ = Unit

module _ {W : Type 0} (env : GroupEnv W) (ag : AvailabilityGroup) where
  abbrev Safe : {A : Type 0} → Run W AgWrite A → Type 0
  Safe m = Keeps (IsAutoFailover ag) m

  written : (w : AgWrite) → IsAutoFailover ag (Action.write w)
  written w = tt

  noted : (t : EventType) (reason : String) → IsAutoFailover ag (Action.event t reason)
  noted t reason = tt

  adopt_primary-Keeps :
      (client : Endpoint) (requeue : ℕ) → Safe (adopt_primary env ag client requeue)
  unfolding adopt_primary update_ag_status group_requeue
  adopt_primary-Keeps client requeue = search (keeps_rules, written) depth 14

  labels-Keeps : (primary : String) → Safe (update_replica_role_labels_from_ag env.ag ag primary)
  unfolding update_replica_role_labels_from_ag set_pod_role_label
  labels-Keeps primary = search (keeps_rules, written) depth 14

  record_auto_failover-Keeps : (r : AgReplicaSpec) → Safe (record_auto_failover env ag r)
  unfolding record_auto_failover
  record_auto_failover-Keeps r = search (keeps_rules, written, noted, labels-Keeps) depth 14

  try_acquire_lease-Keeps : (namespace name : String) → Safe (try_acquire_lease env namespace name)
  unfolding try_acquire_lease acquire_from write_lease
  try_acquire_lease-Keeps namespace name = search (keeps_rules, written) depth 14

  -- one turn of the loop: `rest` is what the loop goes on to
  try_replica-Keeps :
      (requeue : ℕ) (r : AgReplicaSpec) (client : Endpoint) (rest : Run W AgWrite (Result ℕ))
      → ((u : Unit {0}) → Safe (exec env.ag.base client (force_failover_ag ag.spec.ag_name)))
      → ((u : Unit {0}) → Safe rest)
      → Safe (
          ask (env.ag.base.questions.get_ag_replica_role client ag.spec.ag_name r.server_name)
          >>= λ observed.
              on_result observed
                (λ e. rest)
                (λ role. if role == "PRIMARY" then adopt_primary env ag client requeue else (do
                  forced ← exec env.ag.base client (force_failover_ag ag.spec.ag_name)
                  on_result forced
                      (λ e. (do note (Action.event warning "AutoFailoverFailed"); rest))
                      (λ _. record_auto_failover env ag r))))
  try_replica-Keeps requeue r client rest send going =
      search (keeps_rules, noted, adopt_primary-Keeps, record_auto_failover-Keeps, going, send)
        depth 20

  try_failover-Keeps :
      (requeue : ℕ) (replicas : List AgReplicaSpec)
      → ((r : AgReplicaSpec) → In r replicas → In r ag.spec.replicas)
      → Safe (try_failover env ag requeue replicas)
  unfolding try_failover
  try_failover-Keeps requeue [] inside =
      Keeps-bind (note (Action.event warning "AutoFailoverNoCandidate")) _ (Keeps-note _ tt)
        (λ _. Keeps-pure (err (failure "no failover candidates available")))
  try_failover-Keeps requeue (r ∷ replicas) inside =
      let rest : Safe (try_failover env ag requeue replicas) =
        try_failover-Keeps requeue replicas (λ x h. inside x (inr h)) in
      Keeps-if (r.server_name == known_primary ag) _ _ (λ _. rest)
        (λ other.
          Keeps-bind_post (λ client. client.host ≡ r.server.host) (connect_to_replica env.ag ag r) _
            _ (connect_to_replica-Keeps env.ag ag r) (host-connect_to_replica env.ag ag r)
            (λ e. rest)
            (λ client host.
              try_replica-Keeps requeue r client (try_failover env ag requeue replicas)
                (λ u. Keeps-perform _ _ (
                  r,
                  inside r (inl refl),
                  known_primary-IsOtherThanPrimary ag r (inside r (inl refl)) other,
                  host,
                  refl,
                ))
                (λ u. rest)))

  -- Every statement that an automatic failover sends is a forced failover of the group, on a
  -- replica of the group other than the primary that the status names (the first replica, if it
  -- names none).
  pub handle_auto_failover-sends :
      (requeue : ℕ) (w : W)
      → All
          (IsAutoFailover ag)
          (handle_auto_failover env ag requeue (record { outside = w; log = [] })).1.log
  unfolding handle_auto_failover failover_with_lease
  handle_auto_failover-sends requeue w =
      let tried : (u : Unit {0}) → Safe (try_failover env ag requeue ag.spec.replicas) =
        λ u. try_failover-Keeps requeue ag.spec.replicas (λ r h. h) in
      let whole : Safe (handle_auto_failover env ag requeue) =
        search (keeps_rules, try_acquire_lease-Keeps, tried) depth 14 in
      whole.at (record { outside = w; log = [] }) tt
