-- ===== src/Controller/OneShot/Failover.antt =====
-- internal/controller/agfailover_controller.go: setFailoverStatus, setFailoverCompleted, and
-- Reconcile in the order of its steps.
use mssql_k8s_operator.Controller.Helpers.{
  get_credentials_from_secret, commit, exec, connect_to_sql,
}
use mssql_k8s_operator.Api.Meta.{
  reason_invalid_credentials_secret, reason_connection_failed, reason_secret_not_found,
  condition_ready,
}
use mssql_k8s_operator.Webhook.Checks.{bool_value}
use mssql_k8s_operator.Sql.Client.{
  failover_ag, force_failover_ag, SqlCall, AgReplicaState, Endpoint,
}
use mssql_k8s_operator.Api.AvailabilityGroup.{
  failover_phase_running, failover_phase_failed, failover_phase_completed, AgFailover,
  AgFailoverSpec,
}
use mssql_k8s_operator.Controller.OneShot.{OneShotEnv}
use mssql_k8s_operator.Prelude.{
  ℕ, String, Bool, true, false, not, ◌&&◌, ◌||◌, some, List, [], ◌∷◌, ◌==◌, string_eq, nat_eq,
  int_eq, bool_eq, if◌then◌else◌,
}
use mssql_k8s_operator.Controller.Effect.{
  wrapped, ok, normal, warning, err, pure, is_not_found, Action, note, ask, on_option, on_result,
  Result, Run, ◌>>=◌, ◌>>◌,
}

abbrev pub FailoverEnv : Type 0 → Type 1
FailoverEnv W = OneShotEnv W AgFailover

-- the search for the previous primary: the first secondary other than the target
unfoldable pub previous_primary_of : String → List AgReplicaState → String
previous_primary_of target [] = "unknown"
previous_primary_of target (r ∷ rs) =
    let rest = previous_primary_of target rs in
    if not (r.server_name == target) && (r.role == "SECONDARY") then r.server_name else rest

abbrev pub is_forced : AgFailoverSpec → Bool
is_forced spec = bool_value spec.force

-- step 7: the statement
unfoldable pub failover_call : AgFailoverSpec → SqlCall
failover_call spec =
    if is_forced spec then force_failover_ag spec.ag_name else failover_ag spec.ag_name

module _ {W : Type 0} (env : FailoverEnv W) where
  -- the status that it writes, which its caller's object has afterwards
  unfoldable pub failover_with_status : AgFailover → String → String → AgFailover
  failover_with_status fo phase reason = record fo {
    status = record fo.status {
      phase = phase;
      observed_generation = fo.meta.generation;
      conditions = env.base.set_status_condition fo.status.conditions (record {
        type = condition_ready;
        status = false;
        reason = reason;
        observed_generation = fo.meta.generation;
      });
    };
  }

  unfoldable pub set_failover_status : AgFailover → String → String → Run W AgFailover (Result ℕ)
  unfolding failover_with_status
  set_failover_status fo phase reason = do
    patched ← commit env.base (failover_with_status fo phase reason)
    on_result patched (λ e. pure (err e)) (λ _. pure (ok 0))

  unfoldable pub completed_failover : AgFailover → ℕ → String → String → AgFailover
  completed_failover fo now previous_primary new_primary = record fo {
    status = record fo.status {
      phase = failover_phase_completed;
      completion_time = some now;
      previous_primary = previous_primary;
      new_primary = new_primary;
      observed_generation = fo.meta.generation;
      conditions = env.base.set_status_condition fo.status.conditions (record {
        type = condition_ready;
        status = true;
        reason = "FailoverCompleted";
        observed_generation = fo.meta.generation;
      });
    };
  }

  unfoldable pub set_failover_completed : AgFailover → String → String → Run W AgFailover (Result ℕ)
  unfolding completed_failover
  set_failover_completed fo previous_primary new_primary = do
    now ← ask env.base.now
    fetched ← ask (env.get_object fo.meta.namespace fo.meta.name)
    on_result fetched (λ e. pure (err e))
        (λ again. (do
          patched ← commit env.base (completed_failover again now previous_primary new_primary)
          on_result patched (λ e. pure (err e)) (λ _. pure (ok 0))))

  -- step 6, from the second Get on: the start time is set once
  unfoldable pub start_failover : AgFailover → ℕ → Run W AgFailover (Result AgFailover)
  start_failover fo now =
      let started = record fo { status = record fo.status { start_time = some now } } in
      on_option fo.status.start_time
        (do
          patched ← commit env.base started
          on_result patched (λ e. pure (err e)) (λ _. pure (ok started)))
        (λ _. pure (ok fo))

  -- step 6
  unfoldable pub run_failover : String → String → AgFailover → Run W AgFailover (Result AgFailover)
  unfolding set_failover_status start_failover
  run_failover namespace name fo = do
    now ← ask env.base.now
    if fo.status.phase == failover_phase_running then pure (ok fo) else (do
      running ← set_failover_status fo failover_phase_running "FailoverRunning"
      on_result running (λ e. pure (err e))
          (λ _. (do
            fetched ← ask (env.get_object namespace name)
            on_result fetched (λ e. pure (err e)) (λ again. start_failover again now))))

  -- step 8
  unfoldable pub finish_failover : Endpoint → AgFailover → Run W AgFailover (Result ℕ)
  unfolding previous_primary_of set_failover_completed
  finish_failover client fo = do
    note (Action.event normal "FailoverCompleted")
    observed ← ask (env.base.questions.get_ag_status client fo.spec.ag_name)
    on_result observed (λ e. set_failover_completed fo "unknown" fo.spec.target_replica)
        (λ state.
          set_failover_completed fo (previous_primary_of fo.spec.target_replica state.replicas)
            fo.spec.target_replica)

  -- steps 7 and 8
  unfoldable pub execute_failover : Endpoint → AgFailover → Run W AgFailover (Result ℕ)
  unfolding failover_call set_failover_status finish_failover
  execute_failover client fo = do
    executed ← exec env.base client (failover_call fo.spec)
    on_result executed
        (λ e. (do
          note (Action.event warning "FailoverFailed")
          set_failover_status fo failover_phase_failed "FailoverFailed"))
        (λ _. finish_failover client fo)

  -- from step 6 on: the target is a secondary
  unfoldable pub promote : String → String → Endpoint → AgFailover → Run W AgFailover (Result ℕ)
  unfolding run_failover execute_failover
  promote namespace name client fo = do
    started ← run_failover namespace name fo
    on_result started (λ e. pure (err e)) (execute_failover client)

  -- from step 5 on
  unfoldable pub check_target :
      String → String → Endpoint → AgFailover → Run W AgFailover (Result ℕ)
  unfolding set_failover_completed set_failover_status promote
  check_target namespace name client fo = do
    observed ←
        ask (env.base.questions.get_ag_replica_role client fo.spec.ag_name fo.spec.target_replica)
    on_result observed (λ e. pure (err (wrapped "failed to get replica role" e)))
        (λ role.
          if role == "PRIMARY"
          then set_failover_completed fo fo.spec.target_replica fo.spec.target_replica
          else if not (role == "SECONDARY")
          then set_failover_status fo failover_phase_failed "TargetNotSecondary"
          else promote namespace name client fo)

  -- from step 4 on
  unfoldable pub perform_failover :
      String → String → AgFailover → String → String → Run W AgFailover (Result ℕ)
  unfolding check_target
  perform_failover namespace name fo username password = do
    connected ← connect_to_sql env.base fo.spec.server username password
    on_result connected
        (λ e. (do
          note (Action.event warning reason_connection_failed)
          pure (err (wrapped "failed to connect to target replica" e))))
        (λ client. check_target namespace name client fo)

  -- step 3, for a failover that is not done
  unfoldable pub reconcile_open_failover :
      String → String → AgFailover → Run W AgFailover (Result ℕ)
  unfolding set_failover_status perform_failover
  reconcile_open_failover namespace name fo = do
    credentials ←
        get_credentials_from_secret env.base fo.meta.namespace
          fo.spec.server.credentials_secret.name
    on_result credentials
        (λ e.
          set_failover_status fo failover_phase_failed
            (if is_not_found e then reason_secret_not_found else reason_invalid_credentials_secret))
        (λ pair. perform_failover namespace name fo pair.0 pair.1)

  abbrev pub is_failover_done : AgFailover → Bool
  is_failover_done fo =
      (fo.status.phase == failover_phase_completed) || (fo.status.phase == failover_phase_failed)

  unfoldable pub reconcile_failover : String → String → Run W AgFailover (Result ℕ)
  unfolding reconcile_open_failover
  reconcile_failover namespace name = do
    fetched ← ask (env.get_object namespace name)
    on_result fetched (λ e. if is_not_found e then pure (ok 0) else pure (err e))
        (λ fo.
          if is_failover_done fo then pure (ok 0) else reconcile_open_failover namespace name fo)
