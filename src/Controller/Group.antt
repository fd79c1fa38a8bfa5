-- ===== src/Controller/Group.antt =====
-- internal/controller/availabilitygroup_controller.go: what the reconciler of availability groups is
-- given besides what fencing needs, and the status that it reports.
mod Tests
pub mod Leases
pub mod Config
pub mod Words
pub mod Steps
pub mod AutoFailover
pub mod Safety
pub mod Quiet
pub mod Race
pub mod Reconcile
pub mod Health
use mssql_k8s_operator.Api.Meta.{reason_ready, condition_ready, ObjectMeta, Lease}
use mssql_k8s_operator.Controller.Fencing.{ag_status, AgWrite, AgEnv}
use mssql_k8s_operator.Controller.Object.{jittered}
use mssql_k8s_operator.Sql.Client.{AgStatus, AgDatabaseState, AgReplicaState}
use mssql_k8s_operator.Api.AvailabilityGroup.{
  AvailabilityGroupStatus, AgReplicaStatus, AgDatabaseStatus, AvailabilityGroup,
}
use mssql_k8s_operator.Prelude.{
  ◌*◌, ◌/◌, ℕ, zero, suc, ◌+◌, ◌-◌, ◌≤◌, ◌<◌, String, Bool, true, false, not, ◌&&◌, ◌||◌, Option,
  none, some, List, [], ◌∷◌, ◌++◌, map, ◌==◌, string_eq, nat_eq, int_eq, bool_eq, ℤ, pos, negsuc,
  if◌then◌else◌, ◌≡◌, ◌≢◌, refl, sym, ap, ◌∙◌, ◌⊎◌, ◌↔◌, inl, inr, arith, eq_iff, All, In,
  Bool-cases, Option-cases, lookup, lookup_or, length, take, drop,
}
use mssql_k8s_operator.Controller.Effect.{ok, err, on_result, pure, ask, Run, Result, ◌>>=◌, ◌>>◌}
use mssql_k8s_operator.Controller.Helpers.{commit, exec}

pub record GroupEnv (W : Type 0) : Type 1 where
  pub ag : AgEnv W
  pub get_group : String → String → W → Result AvailabilityGroup × W
  -- r.Get of a Lease, by namespace and name
  pub get_lease : String → String → W → Result Lease × W
  -- the operator's host name and process id
  pub holder : String
  pub contains_finalizer : String → ObjectMeta → Bool
  pub add_finalizer : String → ObjectMeta → ObjectMeta
  pub remove_finalizer : String → ObjectMeta → ObjectMeta
  pub random_below : ℕ → W → ℕ × W
  pub range_set : List String → List String

abbrev pub replica_status_of : AgReplicaState → AgReplicaStatus
replica_status_of r = record {
  server_name = r.server_name;
  role = r.role;
  synchronization_state = r.synchronization_state;
  connected = r.connected;
}

abbrev pub database_status_of : AgDatabaseState → AgDatabaseStatus
database_status_of d = record {
  name = d.name;
  synchronization_state = d.synchronization_state;
  joined = d.joined;
}

unfoldable pub is_replica_healthy : AgReplicaState → Bool
is_replica_healthy r =
    r.connected
    && ((r.synchronization_state == "SYNCHRONIZED") || (r.synchronization_state == "SYNCHRONIZING"))

unfoldable pub all_healthy : List AgReplicaState → Bool
unfolding is_replica_healthy
all_healthy [] = true
all_healthy (r ∷ rs) = is_replica_healthy r && all_healthy rs

module _ {W : Type 0} (env : GroupEnv W) where
  unfoldable pub observed_status : AvailabilityGroup → AgStatus → AvailabilityGroupStatus
  unfolding all_healthy
  observed_status ag observed = record ag.status {
    primary_replica = observed.primary_replica;
    observed_generation = ag.meta.generation;
    replicas = map replica_status_of observed.replicas;
    databases = map database_status_of observed.databases;
    conditions = env.ag.base.set_status_condition ag.status.conditions (record {
      type = condition_ready;
      status = all_healthy observed.replicas;
      reason = if all_healthy observed.replicas then reason_ready else "ReplicaNotHealthy";
      observed_generation = ag.meta.generation;
    });
  }

  unfoldable pub update_ag_status :
      AvailabilityGroup → AgStatus → Run W AgWrite (Result AvailabilityGroup)
  unfolding observed_status
  update_ag_status ag observed = do
    let changed = record ag { status = observed_status ag observed }
    patched ← commit env.ag.base (ag_status changed.status)
    on_result patched (λ e. pure (err e)) (λ _. pure (ok changed))

  -- the group's own helper, which has no further run in any case
  unfoldable pub set_group_condition : AvailabilityGroup → Bool → String → Run W AgWrite (Result ℕ)
  set_group_condition ag status reason = do
    patched ← commit env.ag.base (
        ag_status (record ag.status {
          conditions = env.ag.base.set_status_condition ag.status.conditions (record {
            type = condition_ready;
            status = status;
            reason = reason;
            observed_generation = ag.meta.generation;
          });
          observed_generation = ag.meta.generation;
        }))
    on_result patched (λ e. pure (err e)) (λ _. pure (ok 0))

  unfoldable pub group_requeue : ℕ → Run W AgWrite ℕ
  unfolding jittered
  group_requeue interval = do
    random ← ask (env.random_below (interval * 2 / 5))
    pure (jittered interval random)
