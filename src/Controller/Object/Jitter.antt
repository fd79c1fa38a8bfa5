-- ===== src/Controller/Object/Jitter.antt =====
-- The jitter of requeueWithJitter stays within a fifth of the interval.
use mssql_k8s_operator.Controller.Effect.{St}
use mssql_k8s_operator.Controller.Object.{ObjectWrite, ObjectEnv, jittered, requeue_with_jitter}
use mssql_k8s_operator.Prelude.{ℕ, ◌+◌, ◌-◌, ◌≤◌, ◌<◌, string_eq, nat_eq, int_eq, bool_eq, arith}
use Prim.Native.Nat.{◌*◌, ◌/◌}

-- If the random source keeps its bound and the interval is at least 3 ns, the next reconciliation is
-- at most a fifth of the interval earlier or later than the interval.
pub requeue_with_jitter-bounds :
    {W Object : Type 0} (env : ObjectEnv W Object)
    → ((n : ℕ) (w : W) → 0 < n → (env.random_below n w).0 < n)
    → (interval : ℕ) (s : St W (ObjectWrite Object)) → 3 ≤ interval
    → (interval - interval / 5 ≤ (requeue_with_jitter env interval s).0)
      × ((requeue_with_jitter env interval s).0 ≤ interval + interval / 5)
unfolding requeue_with_jitter jittered
requeue_with_jitter-bounds env below interval s h =
    let positive : 0 < interval * 2 / 5 = omega (arith, h) in
    let r = below (interval * 2 / 5) s.outside positive in (omega (arith, r), omega (arith, r))
