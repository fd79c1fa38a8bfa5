-- ===== src/Controller/Group/Tests.antt =====
-- A group of two replicas whose status names the first as primary.
use mssql_k8s_operator.Controller.Group.Race.{both_acquire, HasAcquired, operator, MergesLeases}
use mssql_k8s_operator.Prelude.{
  ℕ, String, Bool, true, false, none, some, [], ◌∷◌, ◌==◌, string_eq, nat_eq, int_eq, bool_eq, pos,
  if◌then◌else◌, ◌≡◌, refl, inl, inr, arith, eq_iff, All,
}
use mssql_k8s_operator.Controller.Group.Health.{healthy, all_healthy-health_word}
use mssql_k8s_operator.Controller.Helpers.{
  connect_to_sql, read_credentials, get_credentials_from_secret,
}
use mssql_k8s_operator.Controller.Fencing.{lease_patched, AgWrite}
use mssql_k8s_operator.Controller.Group.Config.{config_of}
use mssql_k8s_operator.Controller.TestWorld.{test_group, test_questions, test_env_of}
use mssql_k8s_operator.Controller.Group.Quiet.{handle_auto_failover-quiet}
use mssql_k8s_operator.Controller.Group.Leases.{acquire_from}
use mssql_k8s_operator.Controller.Group.AutoFailover.{handle_auto_failover}
use mssql_k8s_operator.Api.Meta.{Lease}
use mssql_k8s_operator.Sql.Client.{AgReplicaState}
use mssql_k8s_operator.Controller.Group.Safety.{handle_auto_failover-sends, IsAutoFailover}
use mssql_k8s_operator.Controller.Group.{all_healthy, GroupEnv}
use mssql_k8s_operator.Controller.Group.Words.{config_of-IsWorded, IsWorded}
use mssql_k8s_operator.Controller.Effect.{not_found, err, ok, Result, St}

abbrev held_lease : Lease
held_lease = record {
  name = "ag-failover-ag";
  namespace = "ns";
  resource_version = "7";
  holder_identity = some "other/1";
  lease_duration_seconds = some (pos 30);
  acquire_time = some 0;
  renew_time = some 0;
}

-- The clock stands; `answer` is what Get of the lease gives; every replica says it is a secondary.
abbrev test_group_env : String → ℕ → Result Lease → GroupEnv ℕ
test_group_env holder time answer = record {
  ag = record {
    base = record (test_env_of (λ w. time)) {
      questions = record test_questions { get_ag_replica_role = λ e n s w. (ok "SECONDARY", w) };
    };
    list_failovers = λ ns w. (ok [], w);
    get_pod_role = λ ns n w. (err not_found, w);
  };
  get_group = λ ns n w. (ok (test_group none), w);
  get_lease = λ ns n w. (answer, w);
  holder = holder;
  contains_finalizer = λ f m. true;
  add_finalizer = λ f m. m;
  remove_finalizer = λ f m. m;
  random_below = λ n w. (0, w);
  range_set = λ names. names;
}

abbrev start : St ℕ AgWrite
start = record { outside = 0; log = [] }

abbrev free : GroupEnv ℕ
free = test_group_env "me/1" 0 (err not_found)

-- with no lease yet, the second replica is failed over to
auto_failover_runs : (handle_auto_failover free (test_group none) 10 start).0 ≡ ok 5000000000
unfolding handle_auto_failover get_credentials_from_secret read_credentials connect_to_sql
auto_failover_runs = refl

handle_auto_failover-sends_example :
    All
      (IsAutoFailover (test_group none))
      (handle_auto_failover free (test_group none) 10 start).1.log
handle_auto_failover-sends_example = handle_auto_failover-sends free (test_group none) 10 0

abbrev waiting : GroupEnv ℕ
waiting = test_group_env "me/1" 5 (ok held_lease)

handle_auto_failover-quiet_example :
    (handle_auto_failover waiting (test_group none) 10 start).1.log ≡ []
handle_auto_failover-quiet_example =
    handle_auto_failover-quiet waiting (test_group none) 10 start
      (inr (held_lease, (refl, λ w. refl), λ w. refl))

-- An API server that stores one lease, 31 s after it was renewed.
abbrev patch_lease : AgWrite → Lease → Result (Unit {0}) × Lease
patch_lease (lease_patched none l) stored = (ok tt, l)
patch_lease (lease_patched (some version) l) stored =
    if version == stored.resource_version then (ok tt, l) else (err not_found, stored)
patch_lease w stored = (ok tt, stored)

abbrev lease_world : GroupEnv Lease
lease_world = record {
  ag = record {
    base = record (test_env_of (λ w. 31000000000)) { write_object = patch_lease };
    list_failovers = λ ns w. (ok [], w);
    get_pod_role = λ ns n w. (err not_found, w);
  };
  get_group = λ ns n w. (ok (test_group none), w);
  get_lease = λ ns n w. (ok w, w);
  holder = "me/1";
  contains_finalizer = λ f m. true;
  add_finalizer = λ f m. m;
  remove_finalizer = λ f m. m;
  random_below = λ n w. (0, w);
  range_set = λ names. names;
}

patch_lease-MergesLeases : MergesLeases patch_lease (λ w. w)
patch_lease-MergesLeases = record {
  accepted = λ l w. refl;
  merged = λ l w. refl;
  refused = λ version l w other. ground (arith, other, eq_iff version w.resource_version);
}

abbrev lease_start : St Lease AgWrite
lease_start = record { outside = held_lease; log = [] }

abbrev first_goes : Bool × St Lease AgWrite
first_goes =
    acquire_from (operator lease_world (λ w. w) patch_lease-MergesLeases "me/1") 31000000000
      held_lease lease_start

both_acquire_example :
    (HasAcquired lease_world (λ w. w) patch_lease-MergesLeases "me/1" first_goes)
    × (HasAcquired lease_world
        (λ w. w)
        patch_lease-MergesLeases
        "you/1"
        (acquire_from
          (operator lease_world (λ w. w) patch_lease-MergesLeases "you/1")
          31000000001
          held_lease
          first_goes.1))
both_acquire_example =
    both_acquire lease_world (λ w. w) patch_lease-MergesLeases "me/1" "you/1" 31000000000
      31000000001 held_lease lease_start (refl, λ w. refl) (refl, λ w. refl)

config_of-IsWorded_example : IsWorded (config_of (test_group none).spec)
config_of-IsWorded_example = config_of-IsWorded (test_group none).spec

abbrev healthy_replica : AgReplicaState
healthy_replica = record {
  server_name = "a";
  role = "PRIMARY";
  synchronization_state = "HEALTHY";
  connected = true;
}

all_healthy-health_word_example : all_healthy (healthy_replica ∷ []) ≡ false
all_healthy-health_word_example =
    all_healthy-health_word (healthy_replica ∷ []) healthy_replica (inl refl) healthy
