-- ===== src/Controller/Group/Leases.antt =====
-- availabilitygroup_controller.go: tryAcquireLease.
use mssql_k8s_operator.Controller.Helpers.{commit}
use mssql_k8s_operator.Controller.Fencing.{lease_created, lease_patched, AgWrite}
use mssql_k8s_operator.Api.Meta.{Lease}
use mssql_k8s_operator.Controller.Group.{GroupEnv}
use mssql_k8s_operator.Prelude.{
  ◌*◌, ℕ, ◌+◌, String, Bool, true, false, Option, none, some, ◌==◌, string_eq, nat_eq, int_eq,
  bool_eq, ℤ, pos, if◌then◌else◌, ltb,
}
use mssql_k8s_operator.Controller.Effect.{is_not_found, pure, on_result, ask, Run, ◌>>=◌}
use mssql_k8s_operator.Prelude.Int

abbrev pub is_held_by : String → Option String → Bool
is_held_by holder none = false
is_held_by holder (some other) = other == holder

-- `time.Now().After(expiry)`, with 10⁹ nanoseconds a second; without both texts of the lease, never
abbrev pub is_expired : ℕ → Option ℕ → Option ℤ → Bool
is_expired now none duration = false
is_expired now (some renewed) none = false
is_expired now (some renewed) (some seconds) =
    ltb (renewed + Int.pos_part seconds * 1000000000) (now + Int.neg_part seconds * 1000000000)

module _ {W : Type 0} (env : GroupEnv W) where
  unfoldable pub write_lease : AgWrite → Run W AgWrite Bool
  write_lease w = do
    written ← commit env.ag.base w
    on_result written (λ e. pure false) (λ _. pure true)

  -- What is done with the lease that Get returned; `now` was read before it. `client.MergeFrom` without
  -- its option of an optimistic lock sends no resource version.
  unfoldable pub acquire_from : ℕ → Lease → Run W AgWrite Bool
  unfolding write_lease
  acquire_from now lease =
      if is_held_by env.holder lease.holder_identity
      then write_lease (lease_patched none (record lease { renew_time = some now }))
      else (do
        later ← ask env.ag.base.now
        if is_expired later lease.renew_time lease.lease_duration_seconds
            then write_lease (
                lease_patched none (record lease {
                  holder_identity = some env.holder;
                  acquire_time = some now;
                  renew_time = some now;
                }))
            else pure false)

  unfoldable pub try_acquire_lease : String → String → Run W AgWrite Bool
  unfolding write_lease acquire_from
  try_acquire_lease namespace name = do
    now ← ask env.ag.base.now
    fetched ← ask (env.get_lease namespace name)
    on_result fetched
        (λ e.
          if is_not_found e
          then write_lease (
              lease_created (record {
                name = name;
                namespace = namespace;
                resource_version = "";
                holder_identity = some env.holder;
                lease_duration_seconds = some (pos 30);
                acquire_time = some now;
                renew_time = some now;
              }))
          else pure false)
        (acquire_from now)
