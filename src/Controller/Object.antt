-- ===== src/Controller/Object.antt =====
-- What the reconcilers of one kind of object share: the writes, sets of names, and from
-- internal/controller/helpers.go the interval of the next reconciliation, in nanoseconds (0 for none).
pub mod Jitter
pub mod Sets
pub mod Lifecycle
use mssql_k8s_operator.Controller.Effect.{pure, ask, ◌>>=◌}
use mssql_k8s_operator.Api.Meta.{ObjectMeta}
use mssql_k8s_operator.Controller.Env.{Env}
use mssql_k8s_operator.Controller.Effect.{Result, Run}
use Prim.Native.Nat.{◌*◌, ◌/◌}
use mssql_k8s_operator.Prelude.{
  ℕ, ◌+◌, ◌-◌, String, Bool, false, ◌||◌, List, [], ◌∷◌, ◌==◌, string_eq, nat_eq, int_eq, bool_eq,
  if◌then◌else◌,
}

-- r.Update and r.Status().Patch
pub data ObjectWrite (Object : Type 0) : Type 0 where
  update : Object → ObjectWrite Object
  patch_status : Object → ObjectWrite Object

pub record ObjectEnv (W Object : Type 0) : Type 1 where
  pub base : Env W (ObjectWrite Object)
  pub get_object : String → String → W → Result Object × W
  -- controllerutil.ContainsFinalizer, AddFinalizer and RemoveFinalizer, by the finalizer's name
  pub contains_finalizer : String → ObjectMeta → Bool
  pub add_finalizer : String → ObjectMeta → ObjectMeta
  pub remove_finalizer : String → ObjectMeta → ObjectMeta
  -- rand.Int63n
  pub random_below : ℕ → W → ℕ × W
  -- the order in which Go ranges over the keys of a set that was made from a list
  pub range_set : List String → List String

abbrev pub requeue_interval : ℕ
requeue_interval = 30 * 1000000000

-- base + (random below base*2/5) - base/5; what is subtracted is at most the base
unfoldable pub jittered : ℕ → ℕ → ℕ
jittered interval random = (interval + random) - interval / 5

module _ {W Object : Type 0} (env : ObjectEnv W Object) where
  unfoldable pub requeue_with_jitter : ℕ → Run W (ObjectWrite Object) ℕ
  unfolding jittered
  requeue_with_jitter interval = do
    random ← ask (env.random_below (interval * 2 / 5))
    pure (jittered interval random)

-- toSet, as far as it is read: membership in the list that the set is made from
unfoldable pub contains_text : String → List String → Bool
contains_text name [] = false
contains_text name (n ∷ ns) = (n == name) || contains_text name ns
