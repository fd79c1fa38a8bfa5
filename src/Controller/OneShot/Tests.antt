-- ===== src/Controller/OneShot/Tests.antt =====
-- Backups, restores and failovers against an API server that holds one object: the outside world is
-- the object's phase.
use mssql_k8s_operator.Controller.OneShot.Done.{
  no_run, one_more, reconcile_backup-ends, reconcile_restore-ends, reconcile_failover-ends, IsOver,
}
use mssql_k8s_operator.Controller.OneShot.Phases.{
  failover_meta, restore_meta, backup_meta, failover_phase, restore_phase, backup_phase,
}
use mssql_k8s_operator.Controller.Helpers.{
  connect_to_sql, read_credentials, get_credentials_from_secret,
}
use mssql_k8s_operator.Prelude.{
  subst, String, true, Option, none, some, [], string_eq, nat_eq, int_eq, bool_eq, pos, ◌≡◌, refl,
  sym, ap, arith, eq_iff, All,
}
use mssql_k8s_operator.Controller.Effect.Ends.{ok-injective, err≢ok}
use mssql_k8s_operator.Controller.TestWorld.{test_questions, server_at, test_meta, test_env_of}
use mssql_k8s_operator.Controller.OneShot.{OneShotEnv}
use mssql_k8s_operator.Api.Backups.{Backup, Restore}
use mssql_k8s_operator.Api.Meta.{ObjectMeta}
use mssql_k8s_operator.Controller.OneShot.Backup.{reconcile_backup, BackupEnv}
use mssql_k8s_operator.Controller.OneShot.Force.{
  reconcile_failover-not_secondary, reconcile_failover-sends, IsFailoverOf, IsNoStatement,
}
use mssql_k8s_operator.Controller.OneShot.Settles.{IsNamed, StoreLaws}
use mssql_k8s_operator.Controller.OneShot.Restore.{reconcile_restore, RestoreEnv}
use mssql_k8s_operator.Api.AvailabilityGroup.{AgFailover, AgFailoverSpec}
use mssql_k8s_operator.Controller.OneShot.Failover.{reconcile_failover, FailoverEnv}
use mssql_k8s_operator.Controller.Effect.{is_not_found, ok, not_found, Error, err, Result, St}

abbrev test_backup : String → Backup
test_backup phase = record {
  meta = test_meta;
  spec = record {
    server = server_at "sql";
    database_name = "app";
    type = "Full";
    destination = "/b/app.bak";
    compression = none;
  };
  status = record {
    phase = phase;
    conditions = [];
    observed_generation = pos 0;
    start_time = none;
    completion_time = none;
    backup_size = none;
  };
}

abbrev test_restore : String → Restore
test_restore phase = record {
  meta = test_meta;
  spec = record {
    server = server_at "sql";
    database_name = "app";
    source = "/b/app.bak";
    stop_at = none;
    log_source = none;
    with_move = [];
  };
  status = record {
    phase = phase;
    conditions = [];
    observed_generation = pos 0;
    start_time = none;
    completion_time = none;
  };
}

abbrev test_failover_spec : AgFailoverSpec
test_failover_spec = record {
  ag_name = "ag";
  target_replica = "sql-1";
  force = some true;
  server = server_at "sql-1";
}

abbrev test_failover : String → AgFailover
test_failover phase = record {
  meta = test_meta;
  spec = test_failover_spec;
  status = record {
    conditions = [];
    observed_generation = pos 0;
    phase = phase;
    start_time = none;
    completion_time = none;
    previous_primary = "";
    new_primary = "";
  };
}

module _ {Object : Type 0} (make : String → Object) (phase_of : Object → String) where
  abbrev stored_as : Option String → Result Object
  stored_as none = err not_found
  stored_as (some phase) = ok (make phase)

  abbrev store_env : String → OneShotEnv (Option String) Object
  store_env role = record {
    base = record (test_env_of (λ w. 7)) {
      write_object = λ o w. (ok tt, some (phase_of o));
      questions = record test_questions { get_ag_replica_role = λ e n s w. (ok role, w) };
    };
    get_object = λ ns n w. (stored_as w, w);
  }

  module _ (meta_of : Object → ObjectMeta) (role : String)
      (made : (phase : String) → phase_of (make phase) ≡ phase)
      (named : (phase : String) → meta_of (make phase) ≡ test_meta) where
    stored_as-ok :
        (w : Option String) (o : Object)
        → stored_as w ≡ ok o
        → IsNamed "ns" "obj" (meta_of o) × (w ≡ some (phase_of o))
    stored_as-ok none o h = absurd (err≢ok not_found o h)
    stored_as-ok (some phase) o h =
        subst (λ x. IsNamed "ns" "obj" (meta_of x) × (some phase ≡ some (phase_of x)))
          (ok-injective (make phase) o h)
          (
            (ap (λ m. m.namespace) (named phase), ap (λ m. m.name) (named phase)),
            ap some (sym (made phase)),
          )

    stored_as-not_found :
        (w : Option String) (e : Error) → stored_as w ≡ err e → is_not_found e ≡ true → w ≡ none
    stored_as-not_found none e h f = refl
    stored_as-not_found (some phase) e h f = absurd (err≢ok e (make phase) (sym h))

    store_laws : StoreLaws (store_env role) "ns" "obj" (λ w. w) meta_of phase_of
    store_laws = record {
      get_ok = stored_as-ok;
      get_not_found = stored_as-not_found;
      get_kept = λ w. refl;
      patch_ok = λ w o h e. refl;
    }

abbrev backups : BackupEnv (Option String)
backups = store_env test_backup backup_phase ""

abbrev restores : RestoreEnv (Option String)
restores = store_env test_restore restore_phase ""

abbrev failovers : FailoverEnv (Option String)
failovers = store_env test_failover failover_phase "SECONDARY"

backup_laws : StoreLaws backups "ns" "obj" (λ w. w) backup_meta backup_phase
backup_laws = store_laws test_backup backup_phase backup_meta "" (λ p. refl) (λ p. refl)

restore_laws : StoreLaws restores "ns" "obj" (λ w. w) restore_meta restore_phase
restore_laws = store_laws test_restore restore_phase restore_meta "" (λ p. refl) (λ p. refl)

failover_laws : StoreLaws failovers "ns" "obj" (λ w. w) failover_meta failover_phase
failover_laws =
    store_laws test_failover failover_phase failover_meta "SECONDARY" (λ p. refl) (λ p. refl)

abbrev fresh : {Object : Type 0} → St (Option String) Object
fresh = record { outside = some ""; log = [] }

-- each is carried out, and ends as completed
backup_completes : (reconcile_backup backups "ns" "obj" fresh).1.outside ≡ some "Completed"
unfolding reconcile_backup get_credentials_from_secret read_credentials connect_to_sql
backup_completes = refl

backup_returns : (reconcile_backup backups "ns" "obj" fresh).0 ≡ ok 0
unfolding reconcile_backup get_credentials_from_secret read_credentials connect_to_sql
backup_returns = refl

restore_completes : (reconcile_restore restores "ns" "obj" fresh).1.outside ≡ some "Completed"
unfolding reconcile_restore get_credentials_from_secret read_credentials connect_to_sql
restore_completes = refl

restore_returns : (reconcile_restore restores "ns" "obj" fresh).0 ≡ ok 0
unfolding reconcile_restore get_credentials_from_secret read_credentials connect_to_sql
restore_returns = refl

failover_completes : (reconcile_failover failovers "ns" "obj" fresh).1.outside ≡ some "Completed"
unfolding reconcile_failover get_credentials_from_secret read_credentials connect_to_sql
failover_completes = refl

failover_returns : (reconcile_failover failovers "ns" "obj" fresh).0 ≡ ok 0
unfolding reconcile_failover get_credentials_from_secret read_credentials connect_to_sql
failover_returns = refl

reconcile_backup-ends_example :
    IsOver
      (λ w. w)
      (reconcile_backup backups "ns" "obj" fresh).1
      (reconcile_backup backups "ns" "obj" (reconcile_backup backups "ns" "obj" fresh).1).1
reconcile_backup-ends_example =
    reconcile_backup-ends backup_laws fresh
      (reconcile_backup backups "ns" "obj" (reconcile_backup backups "ns" "obj" fresh).1).1 0
      backup_returns (one_more no_run)

reconcile_restore-ends_example :
    IsOver
      (λ w. w)
      (reconcile_restore restores "ns" "obj" fresh).1
      (reconcile_restore restores "ns" "obj" (reconcile_restore restores "ns" "obj" fresh).1).1
reconcile_restore-ends_example =
    reconcile_restore-ends restore_laws fresh
      (reconcile_restore restores "ns" "obj" (reconcile_restore restores "ns" "obj" fresh).1).1 0
      restore_returns (one_more no_run)

reconcile_failover-ends_example :
    IsOver
      (λ w. w)
      (reconcile_failover failovers "ns" "obj" fresh).1
      (reconcile_failover failovers "ns" "obj" (reconcile_failover failovers "ns" "obj" fresh).1).1
reconcile_failover-ends_example =
    reconcile_failover-ends failover_laws fresh
      (reconcile_failover failovers "ns" "obj" (reconcile_failover failovers "ns" "obj" fresh).1).1
      0 failover_returns (one_more no_run)

test_failover-fixed :
    (role : String) (w : Option String) (o : AgFailover)
    → ((store_env test_failover failover_phase role).get_object "ns" "obj" w).0 ≡ ok o
    → o.spec ≡ test_failover_spec
test_failover-fixed role none o h = absurd (err≢ok not_found o h)
test_failover-fixed role (some phase) o h =
    ap (λ x. x.spec) (sym (ok-injective (test_failover phase) o h))

reconcile_failover-sends_example :
    All (IsFailoverOf test_failover_spec) (reconcile_failover failovers "ns" "obj" fresh).1.log
reconcile_failover-sends_example =
    reconcile_failover-sends failovers "ns" "obj" test_failover_spec
      (test_failover-fixed "SECONDARY") (some "")

abbrev resolving : FailoverEnv (Option String)
resolving = store_env test_failover failover_phase "RESOLVING"

reconcile_failover-not_secondary_example :
    All IsNoStatement (reconcile_failover resolving "ns" "obj" fresh).1.log
reconcile_failover-not_secondary_example =
    reconcile_failover-not_secondary resolving "ns" "obj" test_failover_spec
      (test_failover-fixed "RESOLVING") (some "")
      (λ client v h.
        ground (arith, eq_iff "RESOLVING" "SECONDARY", ok-injective "RESOLVING" "SECONDARY" h))
