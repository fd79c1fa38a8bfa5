-- ===== src/Controller/Database/Drift.antt =====
-- A database whose collation is another one than the specification's.
use mssql_k8s_operator.Controller.Effect.Ends.{ok-injective, Ends}
use mssql_k8s_operator.Prelude.{
  String, Bool, true, false, some, List, ◌==◌, string_eq, nat_eq, int_eq, bool_eq, ◌≡◌, ◌≢◌, refl,
  sym, arith, eq_iff, All,
}
use mssql_k8s_operator.Controller.Database.Safety.{ensure_options-Keeps}
use mssql_k8s_operator.Api.Meta.{reason_collation_change_not_supported}
use mssql_k8s_operator.Controller.Effect.Keeps.{
  Keeps-note, Keeps-bind_post, keeps_rules, Keeps-pure, Keeps-on_result, Keeps-bind, Keeps,
}
use mssql_k8s_operator.Controller.Object.Lifecycle.{set_object_condition-allowed, with_ready}
use mssql_k8s_operator.Controller.Object.{patch_status, ObjectWrite}
use mssql_k8s_operator.Controller.Database.Reconcile.{
  apply_database, report_database, configure_database,
}
use mssql_k8s_operator.Sql.Client.{SqlCall, Endpoint}
use mssql_k8s_operator.Api.Objects.{DatabaseOption, Database}
use mssql_k8s_operator.Controller.Database.{
  ensure_options, ensure_compatibility_level, ensure_recovery_model, ensure_database_owner,
  database_kind, collation_drifts, ensure_database, set_database_condition, DatabaseEnv,
}
use mssql_k8s_operator.Controller.Effect.{warning, note, err, EventType, St, ok, Action}

module _ {W : Type 0} (env : DatabaseEnv W) where
  -- the only status that may be written: not ready, for the collation
  abbrev pub IsDriftReport : Database → Action (ObjectWrite Database) → Type 0
  IsDriftReport db (Action.write w) =
      w
      ≡ patch_status (
          database_kind.with_observed db.meta.generation
            (with_ready env.object database_kind db false reason_collation_change_not_supported))
  IsDriftReport db _ = Unit

  module _ (db : Database) (client : Endpoint) where
    configure_database-Keeps :
        (exists : Bool) → Keeps (IsDriftReport db) (configure_database env client db exists)
    unfolding configure_database ensure_database ensure_database_owner ensure_recovery_model
        ensure_compatibility_level
    configure_database-Keeps exists =
        let noted : (t : EventType) (reason : String) → IsDriftReport db (Action.event t reason) =
          λ t reason. tt in
        let sent : (call : SqlCall) → IsDriftReport db (Action.sql client call) = λ call. tt in
        let options : (name : String) (options : List DatabaseOption)
            → Keeps (IsDriftReport db) (ensure_options env client name options) =
          λ name options.
            ensure_options-Keeps env {Ok = IsDriftReport db} noted client name options
              (λ _ _. tt) in
        search (keeps_rules, sent, options) depth 30

    report_drift-Keeps :
        Keeps
          (IsDriftReport db)
          (set_database_condition env db false reason_collation_change_not_supported)
    unfolding set_database_condition
    report_drift-Keeps =
        set_object_condition-allowed env.object database_kind {Ok = IsDriftReport db} (λ _ _. tt) db
          false reason_collation_change_not_supported refl

    module _ (desired current : String) (wanted : db.spec.collation ≡ some desired)
        (other : current ≢ desired)
        (found : (w : W)
          → (env.object.base.questions.get_database_collation client db.spec.database_name w).0
            ≡ ok current) where
      collation_drifts-drifted :
          Ends (λ drifts w. drifts ≡ true) (collation_drifts env client db true)
      unfolding collation_drifts
      collation_drifts-drifted = record {
        at = λ s b h.
            let differs : (current == desired) ≡ false =
              ground (arith, eq_iff current desired, other) in
            sym (ok-injective true b (rw (wanted, found s.outside, differs) at h));
      }

      collation_drifts-Keeps : Keeps (IsDriftReport db) (collation_drifts env client db true)
      unfolding collation_drifts
      collation_drifts-Keeps = search keeps_rules depth 12

      report_database-Keeps : Keeps (IsDriftReport db) (report_database env client db true)
      unfolding report_database
      report_database-Keeps =
          Keeps-bind_post (λ drifts. drifts ≡ true) (collation_drifts env client db true) _ _
            collation_drifts-Keeps (collation_drifts-drifted.at) (λ e. Keeps-pure (err e))
            (λ drifts e. rw e (
              Keeps-bind (note (Action.event warning reason_collation_change_not_supported)) _
                (Keeps-note _ tt) (λ _. report_drift-Keeps)))

      -- If the server answers that the database is there with another collation than the one that the
      -- specification asks for, each status that the reconciliation writes from then on says that the
      -- database is not ready since a change of the collation is not supported.
      pub apply_database-drift :
          (s : St W (ObjectWrite Database))
          → ((w : W)
              → (env.object.base.questions.database_exists client db.spec.database_name w).0
                ≡ ok true)
          → All (IsDriftReport db) s.log
          → All (IsDriftReport db) (apply_database env client db s).1.log
      unfolding apply_database
      apply_database-drift s there l = rw (there s.outside) (
          (Keeps-bind (configure_database env client db true) _ (configure_database-Keeps true)
              (λ r.
                Keeps-on_result r _ _ (λ e. Keeps-pure (err e)) (λ _. report_database-Keeps))).at
            (record s {
              outside =
                  (env.object.base.questions.database_exists client db.spec.database_name
                    s.outside).1;
            })
            l)
