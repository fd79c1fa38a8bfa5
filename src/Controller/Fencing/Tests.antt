-- ===== src/Controller/Fencing/Tests.antt =====
-- ag_fencing.go at small inputs, and the theorems at such inputs.
use mssql_k8s_operator.Controller.Fencing.Rivals.{resolve_three_primaries, IsReachable, HasFenced}
use mssql_k8s_operator.Prelude.{
  ◌≤ℤ◌, ℕ, String, Bool, true, false, Option, none, some, List, [], ◌∷◌, ◌==◌, string_eq, nat_eq,
  int_eq, bool_eq, ℤ, pos, if◌then◌else◌, ◌≡◌, ◌≢◌, refl, ◌⊎◌, inl, inr, arith, eq_iff, All, In,
}
use mssql_k8s_operator.Controller.Helpers.{
  connect_to_sql, read_credentials, get_credentials_from_secret,
}
use mssql_k8s_operator.Controller.Fencing.Steps.{
  update_replica_role_labels_from_ag, set_pod_role_label, fence_replica, is_hard, is_exhausted,
  observe_lsn, connect_to_replica, observe_role, collect_replica_roles, collect_replica_lsns,
}
use mssql_k8s_operator.Controller.Fencing.Breaker.{exhaustion_report, resolve_exhausted}
use mssql_k8s_operator.Controller.Fencing.Election.{elect-maximal, elect-known, lsn_of}
use mssql_k8s_operator.Controller.Fencing.Stage.{
  fencing_stage-unsaved, NoStatus, short_requeue, fencing_stage,
}
use mssql_k8s_operator.Controller.Effect.{for_each, St, ok}
use mssql_k8s_operator.Controller.Fencing.Outcome.{
  detect-spares_primary, detect-quiet, Spared, NoSql, start_from,
}
use mssql_k8s_operator.Controller.TestWorld.{
  test_secret, test_questions, server_at, test_meta, test_env,
}
use mssql_k8s_operator.Controller.Fencing.Detect.{
  fence_rogue, resolve_rogues, select_rogues, resolve, cooldown_of, detect_and_resolve_split_brain,
}
use mssql_k8s_operator.Api.AvailabilityGroup.{
  AvailabilityGroup, AvailabilityGroupStatus, AgReplicaSpec,
}
use mssql_k8s_operator.Prelude.Int
use mssql_k8s_operator.Controller.Fencing.{
  raise, pick, elect_from, primaries_of, has_running_failover, elect, AgEnv, AgWrite,
}

abbrev replica : String → AgReplicaSpec
replica name = record {
  server_name = name;
  endpoint_url = "TCP://x:5022";
  availability_mode = "SynchronousCommit";
  failover_mode = "Automatic";
  seeding_mode = "Automatic";
  secondary_role = "No";
  server = server_at name;
}

abbrev lsn_by_host : String → ℤ
lsn_by_host host = if host == "b" then pos 9 else pos 4

-- Every replica answers PRIMARY, and `b` has hardened most.
abbrev split : AgEnv ℕ
split = record {
  base = record test_env {
    questions = record test_questions {
      get_last_hardened_lsn = λ e n w. (ok (lsn_by_host e.host), w);
    };
  };
  list_failovers = λ ns w. (ok [], w);
  get_pod_role = λ ns pod w. (ok "primary", w);
}

abbrev status_of : String → String → ℤ → Option ℕ → AvailabilityGroupStatus
status_of primary fenced count time = record {
  conditions = [];
  observed_generation = pos 1;
  primary_replica = primary;
  replicas = [];
  databases = [];
  last_auto_failover_time = none;
  auto_failover_count = pos 0;
  last_fencing_time = time;
  fencing_count = count;
  consecutive_fencing_count = count;
  last_fenced_replica = fenced;
}

abbrev group : List AgReplicaSpec → AvailabilityGroupStatus → AvailabilityGroup
group replicas status = record {
  meta = test_meta;
  spec = record {
    ag_name = "ag1";
    replicas = replicas;
    databases = [];
    listener = none;
    automated_backup_preference = none;
    db_failover = none;
    cluster_type = some "None";
    auto_failover = none;
    health_check_interval = none;
    failover_cooldown = none;
  };
  status = status;
}

abbrev pair : AvailabilityGroup
pair = group (replica "a" ∷ replica "b" ∷ []) (status_of "a" "" (pos 0) none)

-- Unfolding this runs the whole round.
whole_round : Unit {0}
unfolding detect_and_resolve_split_brain has_running_failover primaries_of collect_replica_roles
    observe_role connect_to_replica get_credentials_from_secret read_credentials connect_to_sql
    select_rogues elect elect_from pick raise collect_replica_lsns observe_lsn is_exhausted
    resolve_rogues fence_rogue is_hard fence_replica set_pod_role_label for_each
    update_replica_role_labels_from_ag fencing_stage resolve cooldown_of
whole_round = tt

abbrev at_once : (Bool × AvailabilityGroup) × St ℕ AgWrite
at_once = detect_and_resolve_split_brain split pair (start_from 7)

-- `b` is elected, the pod of `a` is relabelled, and `a` is made a secondary.
pair_log :
    (at_once.0.0 ≡ true)
    × (at_once.0.1.status.primary_replica ≡ "b")
    × (at_once.0.1.status.last_fencing_time ≡ some 7)
    × (at_once.0.1.status.last_fenced_replica ≡ "a")
unfolding whole_round
pair_log = (refl, refl, refl, refl)

elect-maximal_example :
    In
      (elect "a" (("a", pos 1) ∷ ("b", pos 2) ∷ []) (replica "a") (replica "b" ∷ []))
      (replica "a" ∷ replica "b" ∷ [])
    × ((q : AgReplicaSpec)
        → In q (replica "a" ∷ replica "b" ∷ [])
        → lsn_of (("a", pos 1) ∷ ("b", pos 2) ∷ []) q
          ≤ℤ lsn_of
              (("a", pos 1) ∷ ("b", pos 2) ∷ [])
              (elect "a" (("a", pos 1) ∷ ("b", pos 2) ∷ []) (replica "a") (replica "b" ∷ [])))
elect-maximal_example =
    elect-maximal "a" (("a", pos 1) ∷ ("b", pos 2) ∷ []) (replica "a") (replica "b" ∷ [])

b_is_highest :
    (x : AgReplicaSpec)
    → In x (replica "a" ∷ replica "b" ∷ [])
    → lsn_of (("a", pos 3) ∷ ("b", pos 3) ∷ []) x ≤ℤ pos 3
b_is_highest x (inl e) = rw e (omega arith)
b_is_highest x (inr (inl e)) = rw e (omega arith)
b_is_highest x (inr (inr h)) = absurd h

elect-known_example :
    (elect "b" (("a", pos 3) ∷ ("b", pos 3) ∷ []) (replica "a") (replica "b" ∷ [])).server_name
    ≡ "b"
elect-known_example =
    elect-known "b" (("a", pos 3) ∷ ("b", pos 3) ∷ []) (replica "a") (replica "b" ∷ [])
      (replica "b") (inr (inl refl)) refl b_is_highest

detect-spares_primary_example : Spared pair at_once
detect-spares_primary_example = detect-spares_primary split pair 7 pair_log.0

-- One primary, and the status names another replica.
abbrev moved : AvailabilityGroup
moved = group (replica "b" ∷ []) (status_of "a" "" (pos 0) none)

moved_quiet : (detect_and_resolve_split_brain split moved (start_from 7)).0.0 ≡ false
unfolding whole_round
moved_quiet = refl

detect-quiet_example : All NoSql (detect_and_resolve_split_brain split moved (start_from 7)).1.log
detect-quiet_example = detect-quiet split moved 7 moved_quiet

moved_status : (fencing_stage split moved (start_from 7)).0.1.status.primary_replica ≢ "a"
unfolding whole_round
moved_status = ground (arith, eq_iff "b" "a")

fencing_stage-unsaved_example :
    ((fencing_stage split moved (start_from 7)).0.0 ≡ some short_requeue)
    × All NoStatus (fencing_stage split moved (start_from 7)).1.log
fencing_stage-unsaved_example = fencing_stage-unsaved split moved 7 moved_status moved_quiet

names_differ : (◌≢◌ {A = String} "a" "b") × (◌≢◌ {A = String} "a" "c") × (◌≢◌ {A = String} "b" "c")
names_differ =
    (ground (arith, eq_iff "a" "b"), ground (arith, eq_iff "a" "c"), ground (arith, eq_iff "b" "c"))

-- Nine fencings of `c` in a row do not stop the next one.
abbrev three : AvailabilityGroup
three = group (replica "a" ∷ replica "b" ∷ replica "c" ∷ []) (status_of "a" "c" (pos 9) (some 7))

three_inside : All (λ p. In p three.spec.replicas) three.spec.replicas
three_inside = (inl refl, (inr (inl refl), (inr (inr (inl refl)), tt)))

split_reachable : IsReachable split three
unfolding read_credentials
split_reachable = ((λ name w. (test_secret, ("sa", "pw"), refl, refl)), λ endpoint w. refl)

resolve_three_primaries_example :
    HasFenced split three
      (resolve split three (replica "a") (replica "b" ∷ replica "c" ∷ []) (start_from 7))
resolve_three_primaries_example =
    resolve_three_primaries split three split_reachable (replica "a") (replica "b") (replica "c")
      (replica "a") (replica "b" ∷ replica "c" ∷ []) (start_from 7) three_inside (inl refl)
      (inr (inl refl)) (inr (inr (inl refl))) names_differ.0 names_differ.1 names_differ.2

-- `a` was fenced five times in a row, the last time at 7; a clock that stands still at 8.
abbrev tired : AvailabilityGroup
tired = group (replica "a" ∷ replica "b" ∷ []) (status_of "b" "a" (pos 5) (some 7))

abbrev stopped_clock : AgEnv ℕ
stopped_clock = record split { base = record (split.base) { now = λ w. (8, w) } }

tired_elects :
    (elect "b"
      (collect_replica_lsns stopped_clock tired
        (replica "a" ∷ replica "b" ∷ [])
        []
        (start_from 8)).0
      (replica "a")
      (replica "b" ∷ [])).server_name
    ≡ "b"
unfolding whole_round
tired_elects = refl

tired_recent :
    (w : ℕ) → Int.within (stopped_clock.base.now w).0 7 (cooldown_of stopped_clock tired) ≡ true
unfolding whole_round
tired_recent w = refl

resolve_exhausted_example :
    ((Int.leb (pos 5) tired.status.consecutive_fencing_count ≡ true)
      × ((resolve stopped_clock tired (replica "a") (replica "b" ∷ []) (start_from 8)).0.0 ≡ false)
      × ((resolve stopped_clock tired (replica "a") (replica "b" ∷ []) (start_from 8)).1.log
          ≡ exhaustion_report stopped_clock tired ∷ []))
    ⊎ ((Int.leb (pos 5) tired.status.consecutive_fencing_count ≡ false)
        × ((resolve stopped_clock tired (replica "a") (replica "b" ∷ []) (start_from 8)).0.0
            ≡ true))
resolve_exhausted_example =
    resolve_exhausted stopped_clock tired (replica "a") (replica "b" ∷ []) (replica "a") 8 7 refl
      tired_recent tired_elects (inr refl, (inl refl, tt)) (inl refl) names_differ.0
