-- ===== src/Controller/Group/Quiet.antt =====
-- When an automatic failover does nothing.
use mssql_k8s_operator.Prelude.{
  ℕ, String, Bool, true, false, some, List, string_eq, nat_eq, int_eq, bool_eq, if◌then◌else◌, ◌≡◌,
  refl, ap, ◌∙◌, ◌⊎◌, inl, inr, Bool-cases, Option-cases,
}
use mssql_k8s_operator.Controller.Fencing.{AgWrite}
use mssql_k8s_operator.Api.Meta.{Lease}
use mssql_k8s_operator.Controller.Group.AutoFailover.{
  cooldown_left, failover_cooldown_of, handle_auto_failover, failover_with_lease,
}
use mssql_k8s_operator.Api.AvailabilityGroup.{AvailabilityGroup}
use mssql_k8s_operator.Controller.Group.Leases.{
  is_expired, is_held_by, try_acquire_lease, acquire_from,
}
use mssql_k8s_operator.Controller.Group.{GroupEnv}
use mssql_k8s_operator.Controller.Effect.{pure, ask, Action, Result, Run, on_option, ok, St, ◌>>=◌}
use mssql_k8s_operator.Prelude.Int
use Prim.Native.String.{◌++◌ as append_text}

module _ {W : Type 0} (env : GroupEnv W) where
  -- a lease of another operator that has not expired at any reading of the clock
  abbrev pub IsForeign : Lease → Type 0
  IsForeign lease =
      (is_held_by env.holder lease.holder_identity ≡ false)
      × ((w : W)
          → is_expired (env.ag.base.now w).0 lease.renew_time lease.lease_duration_seconds ≡ false)

  -- An automatic failover is held back while the cool-down of the last one runs, or while the lease
  -- of the group is another operator's and has not expired.
  abbrev pub IsHeldBack : AvailabilityGroup → Type 0
  IsHeldBack ag =
      ((last : ℕ) × (ag.status.last_auto_failover_time ≡ some last)
        × ((w : W) → Int.within (env.ag.base.now w).0 last (failover_cooldown_of env ag) ≡ true))
      ⊎ ((lease : Lease) × IsForeign lease
          × ((w : W)
              → (env.get_lease ag.meta.namespace (append_text "ag-failover-" ag.spec.ag_name) w).0
                ≡ ok lease))

  acquire_from-foreign :
      (now : ℕ) (lease : Lease) (s : St W AgWrite)
      → IsForeign lease
      → ((acquire_from env now lease s).0 ≡ false) × ((acquire_from env now lease s).1.log ≡ s.log)
  unfolding acquire_from
  acquire_from-foreign now lease s foreign = rw (foreign.0, foreign.1 s.outside) (refl, refl)

  try_acquire_lease-foreign :
      (namespace name : String) (lease : Lease) (s : St W AgWrite)
      → IsForeign lease
      → ((w : W) → (env.get_lease namespace name w).0 ≡ ok lease)
      → ((try_acquire_lease env namespace name s).0 ≡ false)
        × ((try_acquire_lease env namespace name s).1.log ≡ s.log)
  unfolding try_acquire_lease
  try_acquire_lease-foreign namespace name lease s foreign found =
      let w = (env.ag.base.now s.outside).1 in
      rw (found w) (
        acquire_from-foreign (env.ag.base.now s.outside).0 lease
          (record s { outside = (env.get_lease namespace name w).1 }) foreign)

  failover_with_lease-foreign :
      (ag : AvailabilityGroup) (requeue : ℕ) (lease : Lease) (s : St W AgWrite)
      → IsForeign lease
      → ((w : W)
          → (env.get_lease ag.meta.namespace (append_text "ag-failover-" ag.spec.ag_name) w).0
            ≡ ok lease)
      → (failover_with_lease env ag requeue s).1.log ≡ s.log
  unfolding failover_with_lease
  failover_with_lease-foreign ag requeue lease s foreign found =
      let held =
        try_acquire_lease-foreign ag.meta.namespace (append_text "ag-failover-" ag.spec.ag_name)
          lease s foreign found in
      rw (held.0) (held.1)

  -- behind the test of the cool-down, with the last failover at `last`
  abbrev behind_cooldown : AvailabilityGroup → ℕ → ℕ → Run W AgWrite (Result ℕ)
  behind_cooldown ag requeue last = do
    now ← ask env.ag.base.now
    if Int.within now last (failover_cooldown_of env ag)
        then pure (ok (cooldown_left env ag now last (failover_cooldown_of env ag)))
        else failover_with_lease env ag requeue

  abbrev log_after : St W AgWrite → Run W AgWrite (Result ℕ) → List (Action AgWrite)
  log_after s m = (m s).1.log

  -- what is left of it once the clock is read
  behind_cooldown-log :
      (ag : AvailabilityGroup) (requeue last : ℕ) (s : St W AgWrite) (cooling : Bool)
      → Int.within (env.ag.base.now s.outside).0 last (failover_cooldown_of env ag) ≡ cooling
      → log_after s (behind_cooldown ag requeue last)
        ≡ log_after
            (record s { outside = (env.ag.base.now s.outside).1 })
            (if cooling then pure (ok 0) else failover_with_lease env ag requeue)
  behind_cooldown-log ag requeue last s true e =
      let now = (env.ag.base.now s.outside).0 in
      ap
        (λ b.
          log_after (record s { outside = (env.ag.base.now s.outside).1 })
            (if b
              then pure (ok (cooldown_left env ag now last (failover_cooldown_of env ag)))
              else failover_with_lease env ag requeue))
        e
  behind_cooldown-log ag requeue last s false e =
      let now = (env.ag.base.now s.outside).0 in
      ap
        (λ b.
          log_after (record s { outside = (env.ag.base.now s.outside).1 })
            (if b
              then pure (ok (cooldown_left env ag now last (failover_cooldown_of env ag)))
              else failover_with_lease env ag requeue))
        e

  behind_cooldown-foreign :
      (ag : AvailabilityGroup) (requeue last : ℕ) (lease : Lease) (s : St W AgWrite)
      → IsForeign lease
      → ((w : W)
          → (env.get_lease ag.meta.namespace (append_text "ag-failover-" ag.spec.ag_name) w).0
            ≡ ok lease)
      → log_after s (behind_cooldown ag requeue last) ≡ s.log
  behind_cooldown-foreign ag requeue last lease s foreign found =
      let w = s.outside in
      elim (Bool-cases (Int.within (env.ag.base.now w).0 last (failover_cooldown_of env ag))) [
        | inl e ↦ behind_cooldown-log ag requeue last s true e
        | inr e ↦
            behind_cooldown-log ag requeue last s false e
            ∙ failover_with_lease-foreign ag requeue lease
                (record s { outside = (env.ag.base.now w).1 }) foreign found
      ]

  -- While the cool-down of the last automatic failover runs, or another operator holds the group's
  -- lease and it has not expired, an automatic failover sends no statement and writes nothing.
  pub handle_auto_failover-quiet :
      (ag : AvailabilityGroup) (requeue : ℕ) (s : St W AgWrite)
      → IsHeldBack ag
      → (handle_auto_failover env ag requeue s).1.log ≡ s.log
  unfolding handle_auto_failover
  handle_auto_failover-quiet ag requeue s held = elim held [
    | inl (last, e, cooling) ↦
        ap
          (λ o.
            log_after s
              (on_option o (failover_with_lease env ag requeue) (behind_cooldown ag requeue)))
          e
        ∙ behind_cooldown-log ag requeue last s true (cooling s.outside)
    | inr (lease, foreign, found) ↦ elim (Option-cases ag.status.last_auto_failover_time) [
      | inl e ↦
          ap
            (λ o.
              log_after s
                (on_option o (failover_with_lease env ag requeue) (behind_cooldown ag requeue)))
            e
          ∙ failover_with_lease-foreign ag requeue lease s foreign found
      | inr (last, e) ↦
          ap
            (λ o.
              log_after s
                (on_option o (failover_with_lease env ag requeue) (behind_cooldown ag requeue)))
            e
          ∙ behind_cooldown-foreign ag requeue last lease s foreign found
    ]
  ]
