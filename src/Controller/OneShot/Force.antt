-- ===== src/Controller/OneShot/Force.antt =====
-- Which statements a failover sends.
use mssql_k8s_operator.Api.Meta.{reason_connection_failed, ServerReference}
use mssql_k8s_operator.Controller.Env.{Env}
use mssql_k8s_operator.Prelude.{
  String, true, false, not, some, [], ◌==◌, string_eq, nat_eq, int_eq, bool_eq, ◌≡◌, ◌≢◌, refl, sym,
  ap, ◌∙◌, inl, inr, arith, eq_iff, All, Option-cases,
}
use mssql_k8s_operator.Controller.Helpers.{get_credentials_from_secret, endpoint_of, connect_to_sql}
use mssql_k8s_operator.Controller.Effect.Ends.{Ends-bind_post, Ends-ok, ends_rules, Ends}
use mssql_k8s_operator.Controller.Effect.Keeps.{
  Keeps-note, Keeps-if, Keeps-bind, Keeps-ask, Keeps-pure, Keeps-bind_post, keeps_rules, Keeps,
}
use mssql_k8s_operator.Sql.Client.{failover_ag, force_failover_ag, Endpoint}
use mssql_k8s_operator.Controller.OneShot.Failover.{
  is_failover_done, reconcile_failover, reconcile_open_failover, promote, perform_failover,
  check_target, finish_failover, start_failover, execute_failover, run_failover,
  set_failover_status, set_failover_completed, FailoverEnv, failover_call,
}
use mssql_k8s_operator.Api.AvailabilityGroup.{AgFailover, AgFailoverSpec}
use mssql_k8s_operator.Controller.Effect.{
  is_not_found, warning, wrapped, on_result, ask, err, Result, Run, Error, ok, EventType, Action,
  ◌>>=◌,
}

-- A statement of this failover: on the target's host, for its group, and forced just when the
-- failover says so.
abbrev pub IsFailoverOf : AgFailoverSpec → Action AgFailover → Type 0
IsFailoverOf spec (Action.sql client (force_failover_ag ag_name)) =
    (ag_name ≡ spec.ag_name) × (spec.force ≡ some true) × (client.host ≡ spec.server.host)
IsFailoverOf spec (Action.sql client (failover_ag ag_name)) =
    (ag_name ≡ spec.ag_name) × (spec.force ≢ some true) × (client.host ≡ spec.server.host)
IsFailoverOf spec (Action.sql client _) = ⊥
IsFailoverOf spec _ = Unit

abbrev pub IsNoStatement : Action AgFailover → Type 0
IsNoStatement (Action.sql client call) = ⊥
IsNoStatement _ = Unit

failover_call-IsFailoverOf :
    (spec : AgFailoverSpec) (client : Endpoint)
    → client.host ≡ spec.server.host
    → IsFailoverOf spec (Action.sql client (failover_call spec))
unfolding failover_call
failover_call-IsFailoverOf spec client h = elim (Option-cases spec.force) [
  | inl e ↦ rw e (refl, (λ f. ground arith), h)
  | inr (true, e) ↦ rw e (refl, refl, h)
  | inr (false, e) ↦ rw e (refl, (λ f. ground (arith, f)), h)
]

module _ {W : Type 0} (env : FailoverEnv W) (namespace name : String) (spec : AgFailoverSpec)
    (fixed : (w : W) (o : AgFailover)
      → (env.get_object namespace name w).0 ≡ ok o
      → o.spec ≡ spec) where
  get_bind-Ends :
      {A : Type 0} {Q : A → W → Type 0} (h : Error → Run W AgFailover (Result A))
      (k : AgFailover → Run W AgFailover (Result A))
      → ((e : Error) → Ends Q (h e))
      → ((o : AgFailover) → o.spec ≡ spec → Ends Q (k o))
      → Ends Q (ask (env.get_object namespace name) >>= λ r. on_result r h k)
  get_bind-Ends h k kh kk =
      Ends-bind_post (λ o. o.spec ≡ spec) (ask (env.get_object namespace name)) h k
        (record { at = λ s o e. fixed s.outside o e }) kh kk

  run_failover-HasSpec :
      (fo : AgFailover)
      → fo.spec ≡ spec
      → Ends (λ o w. o.spec ≡ spec) (run_failover env namespace name fo)
  unfolding run_failover start_failover
  run_failover-HasSpec fo has = search (ends_rules, Ends-ok, get_bind-Ends) depth 14

module _ {W Write : Type 0} (env : Env W Write) (server : ServerReference)
    (username password : String) where
  connect_to_sql-host :
      Ends (λ client w. client.host ≡ server.host) (connect_to_sql env server username password)
  unfolding connect_to_sql endpoint_of
  connect_to_sql-host = search (ends_rules, Ends-ok) depth 8

  connect_to_sql-Keeps :
      {Ok : Action Write → Type 0} → Keeps Ok (connect_to_sql env server username password)
  unfolding connect_to_sql
  connect_to_sql-Keeps = search keeps_rules depth 8

module _ {W : Type 0} (env : FailoverEnv W) {Ok : Action AgFailover → Type 0}
    (written : (w : AgFailover) → Ok (Action.write w))
    (noted : (t : EventType) (reason : String) → Ok (Action.event t reason)) where
  set_failover_status-Keeps :
      (fo : AgFailover) (phase reason : String) → Keeps Ok (set_failover_status env fo phase reason)
  unfolding set_failover_status
  set_failover_status-Keeps fo phase reason = search (keeps_rules, written) depth 8

  set_failover_completed-Keeps :
      (fo : AgFailover) (previous_primary new_primary : String)
      → Keeps Ok (set_failover_completed env fo previous_primary new_primary)
  unfolding set_failover_completed
  set_failover_completed-Keeps fo previous_primary new_primary =
      search (keeps_rules, written) depth 12

  execute_failover-Keeps :
      (client : Endpoint) (fo : AgFailover)
      → Ok (Action.sql client (failover_call fo.spec))
      → Keeps Ok (execute_failover env client fo)
  unfolding execute_failover finish_failover
  execute_failover-Keeps client fo allowed =
      search (keeps_rules, noted, set_failover_status-Keeps, set_failover_completed-Keeps) depth 14

  run_failover-Keeps :
      (namespace name : String) (fo : AgFailover) → Keeps Ok (run_failover env namespace name fo)
  unfolding run_failover start_failover
  run_failover-Keeps namespace name fo =
      search (keeps_rules, written, set_failover_status-Keeps) depth 14

  module _ (namespace name : String) (spec : AgFailoverSpec)
      (fixed : (w : W) (o : AgFailover)
        → (env.get_object namespace name w).0 ≡ ok o
        → o.spec ≡ spec) where
    promote-Keeps :
        (client : Endpoint) (fo : AgFailover)
        → fo.spec ≡ spec
        → Ok (Action.sql client (failover_call spec))
        → Keeps Ok (promote env namespace name client fo)
    unfolding promote
    promote-Keeps client fo has allowed =
        Keeps-bind_post (λ o. o.spec ≡ spec) (run_failover env namespace name fo) _ _
          (run_failover-Keeps namespace name fo)
          ((run_failover-HasSpec env namespace name spec fixed fo has).at) (λ e. Keeps-pure (err e))
          (λ again same. execute_failover-Keeps client again (rw same allowed))

    check_target-Keeps :
        (client : Endpoint) (fo : AgFailover)
        → fo.spec ≡ spec
        → Ok (Action.sql client (failover_call spec))
        → Keeps Ok (check_target env namespace name client fo)
    unfolding check_target
    check_target-Keeps client fo has allowed =
        search (keeps_rules, promote-Keeps, set_failover_status-Keeps, set_failover_completed-Keeps)
          depth 16

    perform_failover-Keeps :
        (fo : AgFailover) (username password : String)
        → fo.spec ≡ spec
        → ((client : Endpoint)
            → client.host ≡ spec.server.host
            → Keeps Ok (check_target env namespace name client fo))
        → Keeps Ok (perform_failover env namespace name fo username password)
    unfolding perform_failover
    perform_failover-Keeps fo username password has checked =
        Keeps-bind_post (λ client. client.host ≡ spec.server.host)
          (connect_to_sql env.base fo.spec.server username password) _ _
          (connect_to_sql-Keeps env.base fo.spec.server username password)
          (λ s client e.
            (connect_to_sql-host env.base fo.spec.server username password).at s client e
            ∙ ap (λ x. x.server.host) has)
          (λ e.
            Keeps-bind _ _ (Keeps-note _ (noted warning reason_connection_failed))
              (λ _. Keeps-pure (err (wrapped "failed to connect to target replica" e))))
          checked

    reconcile_open_failover-Keeps :
        (fo : AgFailover)
        → fo.spec ≡ spec
        → ((client : Endpoint)
            → client.host ≡ spec.server.host
            → Keeps Ok (check_target env namespace name client fo))
        → Keeps Ok (reconcile_open_failover env namespace name fo)
    unfolding reconcile_open_failover get_credentials_from_secret
    reconcile_open_failover-Keeps fo has checked =
        search (keeps_rules, perform_failover-Keeps, set_failover_status-Keeps) depth 14

    reconcile_failover-Keeps :
        ((client : Endpoint) (fo : AgFailover)
          → client.host ≡ spec.server.host
          → fo.spec ≡ spec
          → Keeps Ok (check_target env namespace name client fo))
        → Keeps Ok (reconcile_failover env namespace name)
    unfolding reconcile_failover
    reconcile_failover-Keeps checked =
        Keeps-bind_post (λ o. o.spec ≡ spec) (ask (env.get_object namespace name)) _ _
          (Keeps-ask (env.get_object namespace name)) (λ s o e. fixed s.outside o e)
          (λ e. Keeps-if (is_not_found e) _ _ (λ _. Keeps-pure (ok 0)) (λ _. Keeps-pure (err e)))
          (λ o has.
            Keeps-if (is_failover_done env o) _ _ (λ _. Keeps-pure (ok 0))
              (λ _. reconcile_open_failover-Keeps o has (λ client host. checked client o host has)))

module _ {W : Type 0} (env : FailoverEnv W) (namespace name : String) (spec : AgFailoverSpec)
    (fixed : (w : W) (o : AgFailover)
      → (env.get_object namespace name w).0 ≡ ok o
      → o.spec ≡ spec) where
  -- If every fetch of an AGFailover gives the same spec, each statement that its reconciler sends is
  -- a failover of that spec's group on that spec's server: the forced one if the spec says force,
  -- and the unforced one if it does not.
  pub reconcile_failover-sends :
      (w : W)
      → All
          (IsFailoverOf spec)
          (reconcile_failover env namespace name (record { outside = w; log = [] })).1.log
  reconcile_failover-sends w =
      (reconcile_failover-Keeps env {Ok = IsFailoverOf spec} (λ _. tt) (λ _ _. tt) namespace name
          spec fixed
          (λ client fo host has.
            check_target-Keeps env (λ _. tt) (λ _ _. tt) namespace name spec fixed client fo has
              (failover_call-IsFailoverOf spec client host))).at
        (record { outside = w; log = [] }) tt

  check_target-not_secondary :
      (client : Endpoint) (fo : AgFailover)
      → fo.spec ≡ spec
      → ((v : W)
          → (env.base.questions.get_ag_replica_role client spec.ag_name spec.target_replica v).0
            ≢ ok "SECONDARY")
      → Keeps IsNoStatement (check_target env namespace name client fo)
  unfolding check_target
  check_target-not_secondary client fo has other =
      Keeps-bind_post (λ role. role ≢ "SECONDARY")
        (ask (env.base.questions.get_ag_replica_role client fo.spec.ag_name fo.spec.target_replica))
        _ _ (Keeps-ask _)
        (λ s role e f. other s.outside (
          ap
            (λ x.
              (env.base.questions.get_ag_replica_role client x.ag_name x.target_replica
                s.outside).0)
            (sym has)
          ∙ e
          ∙ ap ok f))
        (λ e. Keeps-pure (err (wrapped "failed to get replica role" e)))
        (λ role not_secondary.
          Keeps-if (role == "PRIMARY") _ _
            (λ _. set_failover_completed-Keeps env (λ _. tt) (λ _ _. tt) fo _ _)
            (λ _.
              Keeps-if (not (role == "SECONDARY")) _ _
                (λ _. set_failover_status-Keeps env (λ _. tt) (λ _ _. tt) fo _ _)
                (λ h. absurd (not_secondary (ground (arith, h, eq_iff role "SECONDARY"))))))

  -- If every fetch of an AGFailover gives the same spec and no server ever answers that the target
  -- is a secondary of the group, its reconciler sends no statement that changes a server.
  pub reconcile_failover-not_secondary :
      (w : W)
      → ((client : Endpoint) (v : W)
          → (env.base.questions.get_ag_replica_role client spec.ag_name spec.target_replica v).0
            ≢ ok "SECONDARY")
      → All IsNoStatement
          (reconcile_failover env namespace name (record { outside = w; log = [] })).1.log
  reconcile_failover-not_secondary w other =
      (reconcile_failover-Keeps env {Ok = IsNoStatement} (λ _. tt) (λ _ _. tt) namespace name spec
          fixed (λ client fo host has. check_target-not_secondary client fo has (other client))).at
        (record { outside = w; log = [] }) tt
