-- ===== src/Controller/Fencing.antt =====
-- internal/controller/ag_fencing.go: split-brain detection and fencing of an availability group.
pub mod Steps
pub mod Detect
pub mod Election
pub mod Quiet
pub mod Safety
pub mod Outcome
pub mod Breaker
pub mod Rivals
pub mod Stage
mod Tests
use mssql_k8s_operator.Prelude.{
  ℕ, String, Bool, true, false, not, ◌&&◌, ◌||◌, Option, none, some, List, [], ◌∷◌, ◌==◌, string_eq,
  nat_eq, ℤ, pos, int_eq, lookup_or, if◌then◌else◌, length, leb,
}
use mssql_k8s_operator.Prelude.Int
use mssql_k8s_operator.Api.Meta.{
  Lease, Condition, condition_ready, reason_split_brain_detected, reason_fencing_executed,
  reason_hard_fencing_executed, reason_fencing_failed, reason_fencing_exhausted,
  reason_primary_changed_externally,
}
use mssql_k8s_operator.Api.AvailabilityGroup.{
  AgReplicaSpec, AvailabilityGroup, AvailabilityGroupStatus, AgFailover, failover_phase_running,
}
use mssql_k8s_operator.Sql.Client.{Endpoint, drop_ag, set_ag_role_secondary, join_ag}
use mssql_k8s_operator.Controller.Effect.{
  Result, ok, err, Run, Action, normal, warning, pure, ask, note, on_result, for_each, ◌>>=◌, ◌>>◌,
  when,
}
use mssql_k8s_operator.Controller.Env.{Env}
use mssql_k8s_operator.Controller.Helpers.{
  get_credentials_from_secret, connect_to_sql, exec, commit,
}

-- what the reconciler of availability groups writes to the API server
pub data AgWrite : Type 0 where
  pod_role : String → String → String → AgWrite  -- namespace, pod, role
  ag_status : AvailabilityGroupStatus → AgWrite
  group_updated : AvailabilityGroup → AgWrite
  lease_created : Lease → AgWrite
  -- a merge patch, with the resource version that it requires the stored lease to have, if any
  lease_patched : Option String → Lease → AgWrite

pub record AgEnv (W : Type 0) : Type 1 where
  pub base : Env W AgWrite
  pub list_failovers : String → W → Result (List AgFailover) × W
  -- the role label of a pod, empty if it has none
  pub get_pod_role : String → String → W → Result String × W

abbrev pub max_fencing_attempts : ℤ
max_fencing_attempts = pos 5

abbrev pub role_primary : String
role_primary = "primary"

abbrev pub role_secondary : String
role_secondary = "secondary"

-- 60 s in nanoseconds
abbrev pub default_cooldown : ℤ
default_cooldown = pos 60000000000

-- The replicas that reported the role PRIMARY.
unfoldable pub primaries_of : List (String × String) → List AgReplicaSpec → List AgReplicaSpec
primaries_of roles [] = []
primaries_of roles (x ∷ xs) =
    let rest = primaries_of roles xs in
    if lookup_or "" x.server_name roles == "PRIMARY" then x ∷ rest else rest

-- One round of the tiebreaker: a higher LSN wins, and on equal LSNs the known primary does.
unfoldable pub pick : String → AgReplicaSpec → ℤ → AgReplicaSpec → ℤ → AgReplicaSpec
pick known best highest p lsn =
    if Int.ltb highest lsn then p else if lsn == highest && p.server_name == known then p else best

unfoldable pub raise : ℤ → ℤ → ℤ
raise highest lsn = if Int.ltb highest lsn then lsn else highest

-- The loop of the tiebreaker over the other primaries, from the best so far and its LSN.
unfoldable pub elect_from :
    String → List (String × ℤ) → AgReplicaSpec → ℤ → List AgReplicaSpec → AgReplicaSpec
elect_from known lsns best highest [] = best
elect_from known lsns best highest (p ∷ ps) =
    let lsn = lookup_or (pos 0) p.server_name lsns in
    elect_from known lsns (pick known best highest p lsn) (raise highest lsn) ps

unfoldable pub elect :
    String → List (String × ℤ) → AgReplicaSpec → List AgReplicaSpec → AgReplicaSpec
elect known lsns first others =
    elect_from known lsns first (lookup_or (pos 0) first.server_name lsns) others

unfoldable pub has_running_failover : String → List AgFailover → Bool
has_running_failover name [] = false
has_running_failover name (f ∷ fs) =
    (f.spec.ag_name == name && f.status.phase == failover_phase_running)
    || has_running_failover name fs
