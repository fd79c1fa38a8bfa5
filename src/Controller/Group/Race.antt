-- ===== src/Controller/Group/Race.antt =====
-- availabilitygroup_controller.go, tryAcquireLease: two operators at one expired lease.
use mssql_k8s_operator.Controller.Group.Leases.{write_lease, is_expired, acquire_from, is_held_by}
use mssql_k8s_operator.Api.Meta.{Lease}
use mssql_k8s_operator.Controller.Effect.{ok, St, Result}
use mssql_k8s_operator.Controller.Fencing.{lease_patched, AgWrite}
use mssql_k8s_operator.Controller.Group.{GroupEnv}
use mssql_k8s_operator.Prelude.{
  ℕ, String, Bool, true, false, none, some, string_eq, nat_eq, int_eq, bool_eq, ◌≡◌, ◌≢◌, refl,
}

-- What an API server does with patches of a lease that it stores: one that requires no resource version
-- is merged into it, whatever its version is, and one that requires another version is refused.
pub record MergesLeases {W : Type 0} (write_object : AgWrite → W → Result (Unit {0}) × W)
    (stored : W → Lease) : Type 0 where
  pub accepted : (l : Lease) (w : W) → (write_object (lease_patched none l) w).0 ≡ ok tt
  pub merged :
      (l : Lease) (w : W)
      → (stored (write_object (lease_patched none l) w).1).holder_identity ≡ l.holder_identity
  pub refused :
      (version : String) (l : Lease) (w : W)
      → version ≢ (stored w).resource_version
      → (write_object (lease_patched (some version) l) w).0 ≢ ok tt

module _ {W : Type 0} (env : GroupEnv W) (stored : W → Lease)
    (server : MergesLeases env.ag.base.write_object stored) where
  -- The lease is another operator's, and has expired at every reading of the clock.
  abbrev pub IsFreeFor : String → Lease → Type 0
  IsFreeFor holder lease =
      (is_held_by holder lease.holder_identity ≡ false)
      × ((w : W)
          → is_expired (env.ag.base.now w).0 lease.renew_time lease.lease_duration_seconds ≡ true)

  -- The operator has been told that it holds the lease, and the stored lease says so.
  abbrev pub HasAcquired : String → Bool × St W AgWrite → Type 0
  HasAcquired holder turn =
      (turn.0 ≡ true) × ((stored turn.1.outside).holder_identity ≡ some holder)

  -- the same API server and clock, for the operator of that name
  abbrev pub operator : String → GroupEnv W
  operator holder = record env { holder = holder }

  acquire_from-HasAcquired :
      (holder : String) (now : ℕ) (lease : Lease) (s : St W AgWrite)
      → IsFreeFor holder lease
      → HasAcquired holder (acquire_from (operator holder) now lease s)
  unfolding acquire_from write_lease
  acquire_from-HasAcquired holder now lease s free =
      rw (free.0, free.1 s.outside, server.accepted _ _) (refl, server.merged _ _)

  -- Against an API server that merges a patch without a resource version into the lease that it stores:
  -- when two operators have fetched the same lease, which is neither's and has expired, the one that
  -- goes on first is told that it holds the lease, and the stored lease names it; and the one that goes
  -- on then is told so too, and the stored lease names that one.
  pub both_acquire :
      (one other : String) (now later : ℕ) (lease : Lease) (s : St W AgWrite)
      → IsFreeFor one lease
      → IsFreeFor other lease
      → (HasAcquired one (acquire_from (operator one) now lease s))
        × (HasAcquired other
            (acquire_from (operator other) later lease (acquire_from (operator one) now lease s).1))
  both_acquire one other now later lease s mine yours = (
    acquire_from-HasAcquired one now lease s mine,
    acquire_from-HasAcquired other later lease (acquire_from (operator one) now lease s).1 yours,
  )
