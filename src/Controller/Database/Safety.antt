-- ===== src/Controller/Database/Safety.antt =====
-- Which statements a reconciliation of a Database sends.
use mssql_k8s_operator.Prelude.{
  String, Bool, true, not, Option, none, some, List, [], ◌∷◌, ◌==◌, string_eq, nat_eq, int_eq,
  bool_eq, ◌≡◌, refl, sym, ap, arith, eq_iff, All,
}
use mssql_k8s_operator.Controller.Servers.{
  resolve_server_credentials-Keeps, resolve_server_reference-Keeps,
}
use mssql_k8s_operator.Controller.Database.Reconcile.{
  connect_database, reconcile_database, reconcile_live_database, configure_database,
  report_database, apply_database,
}
use mssql_k8s_operator.Controller.Object.Lifecycle.{
  is_some_lem, is_some, reconcile_object-All, drop_object-Keeps, release_object-Keeps, drop_object,
  set_object_condition-Keeps, apply_call-Keeps, apply_call,
}
use mssql_k8s_operator.Controller.Helpers.{connect_to_sql}
use mssql_k8s_operator.Controller.Effect.Keeps.{
  Keeps-when, Keeps-option_eq, Keeps-if, Keeps-on_result, Keeps-ask, Keeps-bind, keeps_rules,
  Keeps-pure, Keeps,
}
use mssql_k8s_operator.Api.Meta.{finalizer, deletion_policy_delete}
use mssql_k8s_operator.Sql.Client.{
  SqlCall, set_database_compatibility_level, set_database_recovery_model, set_database_option,
  set_database_owner, Endpoint, drop_database, create_database,
}
use mssql_k8s_operator.Controller.Object.{ObjectWrite}
use mssql_k8s_operator.Api.Objects.{DatabaseSpec, DatabaseOption, Database}
use mssql_k8s_operator.Controller.Database.{
  is_database_deleted_with, handle_database_deletion, clean_up_database, collation_drifts,
  set_database_condition, ensure_compatibility_level, ensure_recovery_model, ensure_database_owner,
  ensure_database, database_kind, ensure_options, DatabaseEnv,
}
use mssql_k8s_operator.Controller.Effect.{Run, wrapped, err, ask, ok, EventType, Action}

-- A statement about the database of `spec`; a drop only when its object is being deleted under Delete.
abbrev pub IsDatabaseCall : DatabaseSpec → Bool → Action (ObjectWrite Database) → Type 0
IsDatabaseCall spec deleted (Action.sql client (create_database name collation)) =
    (name ≡ spec.database_name) × (collation ≡ spec.collation)
IsDatabaseCall spec deleted (Action.sql client (drop_database name)) =
    (name ≡ spec.database_name)
    × (spec.deletion_policy ≡ some deletion_policy_delete)
    × (deleted ≡ true)
IsDatabaseCall spec deleted (Action.sql client (set_database_owner name owner)) =
    (name ≡ spec.database_name) × (spec.owner ≡ some owner)
IsDatabaseCall spec deleted (Action.sql client (set_database_recovery_model name model)) =
    name ≡ spec.database_name
IsDatabaseCall spec deleted (Action.sql client (set_database_compatibility_level name level)) =
    (name ≡ spec.database_name) × (spec.compatibility_level ≡ some level)
IsDatabaseCall spec deleted (Action.sql client (set_database_option name option value)) =
    name ≡ spec.database_name
IsDatabaseCall spec deleted (Action.sql client _) = ⊥
IsDatabaseCall spec deleted _ = Unit

module _ {W : Type 0} (env : DatabaseEnv W) where
  is_database_deleted_with_lem :
      (policy : Option String)
      → is_database_deleted_with env policy ≡ true
      → policy ≡ some deletion_policy_delete
  is_database_deleted_with_lem none h = ground arith
  is_database_deleted_with_lem (some p) h = ap some ((eq_iff p deletion_policy_delete).0 h)

  pub ensure_options-Keeps :
      {Ok : Action (ObjectWrite Database) → Type 0}
      (noted : (t : EventType) (reason : String) → Ok (Action.event t reason)) (client : Endpoint)
      (name : String) (options : List DatabaseOption)
      → ((option : String) (value : Bool)
          → Ok (Action.sql client (set_database_option name option value)))
      → Keeps Ok (ensure_options env client name options)
  unfolding ensure_options
  ensure_options-Keeps noted client name [] sent = Keeps-pure (ok tt)
  ensure_options-Keeps {Ok = Ok} noted client name (option ∷ options) sent =
      let rest : Keeps Ok (ensure_options env client name options) =
        ensure_options-Keeps {Ok = Ok} noted client name options sent in
      Keeps-bind (ask (env.object.base.questions.get_database_option client name option.name)) _
        (Keeps-ask _)
        (λ r.
          Keeps-on_result r _ _ (λ e. Keeps-pure (err (wrapped "failed to get database option" e)))
            (λ now.
              Keeps-if (now == option.value) _ _ (λ _. rest)
                (λ _.
                  Keeps-bind
                    (apply_call env.object database_kind client
                      (set_database_option name option.name option.value)
                      "failed to set database option" "DatabaseOptionUpdated")
                    _
                    (apply_call-Keeps env.object database_kind noted client _ _ _
                      (sent option.name option.value))
                    (λ set. Keeps-on_result set _ _ (λ e. Keeps-pure (err e)) (λ _. rest)))))

  module _ (db : Database) (deleted : Bool) where
    abbrev Safe : {A : Type 0} → Run W (ObjectWrite Database) A → Type 0
    Safe m = Keeps (IsDatabaseCall db.spec deleted) m

    written : (w : ObjectWrite Database) → IsDatabaseCall db.spec deleted (Action.write w)
    written w = tt

    noted :
        (t : EventType) (reason : String) → IsDatabaseCall db.spec deleted (Action.event t reason)
    noted t reason = tt

    sent-Keeps :
        (client : Endpoint) (call : SqlCall) (context reason : String)
        → IsDatabaseCall db.spec deleted (Action.sql client call)
        → Safe (apply_call env.object database_kind client call context reason)
    sent-Keeps = apply_call-Keeps env.object database_kind noted

    set_database_condition-Keeps :
        (status : Bool) (reason : String) → Safe (set_database_condition env db status reason)
    unfolding set_database_condition
    set_database_condition-Keeps status reason =
        set_object_condition-Keeps env.object database_kind written noted db status reason

    ensure_database-Keeps :
        (client : Endpoint) (exists : Bool) → Safe (ensure_database env client db exists)
    unfolding ensure_database
    ensure_database-Keeps client exists =
        Keeps-if exists _ _ (λ _. Keeps-pure (ok tt)) (λ _. sent-Keeps client _ _ _ (refl, refl))

    ensure_database_owner-Keeps : (client : Endpoint) → Safe (ensure_database_owner env client db)
    unfolding ensure_database_owner
    ensure_database_owner-Keeps client =
        Keeps-option_eq db.spec.owner _ _ (Keeps-pure (ok tt))
          (λ owner e. search (keeps_rules, sent-Keeps, e) depth 12)

    ensure_recovery_model-Keeps :
        (client : Endpoint) (exists : Bool) → Safe (ensure_recovery_model env client db exists)
    unfolding ensure_recovery_model
    ensure_recovery_model-Keeps client exists =
        let send : (model : String)
            → Safe (
                apply_call env.object database_kind client
                  (set_database_recovery_model db.spec.database_name model)
                  "failed to set recovery model" "RecoveryModelUpdated") =
          λ model. sent-Keeps client _ _ _ refl in
        search (keeps_rules, send) depth 12

    ensure_compatibility_level-Keeps :
        (client : Endpoint) (exists : Bool) → Safe (ensure_compatibility_level env client db exists)
    unfolding ensure_compatibility_level
    ensure_compatibility_level-Keeps client exists =
        Keeps-option_eq db.spec.compatibility_level _ _ (Keeps-pure (ok tt))
          (λ level e. search (keeps_rules, sent-Keeps, e) depth 14)

    report_database-Keeps :
        (client : Endpoint) (exists : Bool) → Safe (report_database env client db exists)
    unfolding report_database collation_drifts
    report_database-Keeps client exists =
        search (keeps_rules, noted, set_database_condition-Keeps) depth 14

    apply_database-Keeps : (client : Endpoint) → Safe (apply_database env client db)
    unfolding apply_database configure_database
    apply_database-Keeps client =
        let options : (name : String) (options : List DatabaseOption)
            → name ≡ db.spec.database_name
            → Safe (ensure_options env client name options) =
          λ name options e.
            ensure_options-Keeps {Ok = IsDatabaseCall db.spec deleted} noted client name options
              (λ _ _. e) in
        search
          (
            keeps_rules, ensure_database-Keeps, ensure_database_owner-Keeps,
            ensure_recovery_model-Keeps, ensure_compatibility_level-Keeps, options,
            report_database-Keeps,
          )
          depth 24

    reconcile_live_database-Keeps : Safe (reconcile_live_database env db)
    unfolding reconcile_live_database connect_database connect_to_sql
    reconcile_live_database-Keeps =
        search
          (
            keeps_rules, noted, resolve_server_reference-Keeps, resolve_server_credentials-Keeps,
            set_database_condition-Keeps, apply_database-Keeps,
          )
          depth 20

    clean_up_database-Keeps :
        db.spec.deletion_policy ≡ some deletion_policy_delete
        → deleted ≡ true
        → Safe (clean_up_database env db)
    unfolding clean_up_database connect_to_sql
    clean_up_database-Keeps policy gone =
        let dropped : (client : Endpoint)
            → Safe (
                drop_object env.object database_kind client (drop_database db.spec.database_name)
                  "DatabaseDropped") =
          λ client.
            drop_object-Keeps env.object database_kind noted client _ _ (refl, policy, gone) in
        search
          (keeps_rules, resolve_server_reference-Keeps, resolve_server_credentials-Keeps, dropped)
          depth 20

    handle_database_deletion-Keeps : deleted ≡ true → Safe (handle_database_deletion env db)
    unfolding handle_database_deletion
    handle_database_deletion-Keeps gone =
        Keeps-if (not (env.object.contains_finalizer finalizer db.meta)) _ _
          (λ _. Keeps-pure (ok 0))
          (λ _.
            Keeps-bind _ _
              (Keeps-when (is_database_deleted_with env db.spec.deletion_policy) _ (λ e.
                clean_up_database-Keeps (is_database_deleted_with_lem db.spec.deletion_policy e)
                  gone))
              (λ _. release_object-Keeps env.object database_kind written noted db))

  -- A reconciliation that fetches the Database `db` sends statements about the database of that name
  -- only: it creates it with the specification's collation, sets the owner and the level that the
  -- specification gives, a recovery model and options, and drops it only if `db` is being deleted and
  -- its policy is Delete.
  pub reconcile_database-sends :
      (namespace name : String) (db : Database) (w : W)
      → (env.object.get_object namespace name w).0 ≡ ok db
      → All
          (IsDatabaseCall db.spec (is_some db.meta.deletion_timestamp))
          (reconcile_database env namespace name (record { outside = w; log = [] })).1.log
  unfolding reconcile_database
  reconcile_database-sends namespace name db w fetched =
      let deleted = is_some db.meta.deletion_timestamp in
      reconcile_object-All env.object database_kind (λ _. tt) (λ _ _. tt)
        (handle_database_deletion env) (reconcile_live_database env) db (λ o. o.spec ≡ db.spec) refl
        (λ meta. refl) namespace name w fetched
        (λ gone.
          handle_database_deletion-Keeps db deleted (is_some_lem db.meta.deletion_timestamp gone))
        (λ o same. rw (sym same) (reconcile_live_database-Keeps o deleted))
