-- ===== src/Controller/Schema/Safety.antt =====
-- Which statements a reconciliation of a Schema sends.
use mssql_k8s_operator.Controller.Helpers.{connect_to_sql, get_credentials_from_secret}
use mssql_k8s_operator.Api.Meta.{finalizer, deletion_policy_delete}
use mssql_k8s_operator.Controller.Effect.Keeps.{
  Keeps-if, keeps_rules, Keeps-pure, Keeps, Keeps-option_eq,
}
use mssql_k8s_operator.Sql.Client.{drop_schema, set_schema_owner, SqlCall, create_schema, Endpoint}
use mssql_k8s_operator.Controller.Object.Lifecycle.{
  drop_object-Keeps, is_some_lem, drop_object, apply_call-Keeps, reconcile_object-All,
  keep_object-Keeps, is_some, release_object-Keeps, apply_call, set_object_condition-Keeps,
  keep_object, release_object,
}
use mssql_k8s_operator.Controller.Schema.{
  drop_schema_of, clean_up_schema, apply_schema, schema_kind, reconcile_live_schema,
  ensure_schema_owner, is_schema_deleted_with, handle_schema_deletion, set_schema_condition,
  reconcile_schema,
}
use mssql_k8s_operator.Api.Objects.{Schema, SchemaSpec}
use mssql_k8s_operator.Controller.Object.{ObjectWrite, ObjectEnv}
use mssql_k8s_operator.Prelude.{
  String, Bool, true, not, Option, none, some, [], string_eq, nat_eq, int_eq, bool_eq, ◌≡◌, refl,
  sym, ap, arith, eq_iff, All,
}
use mssql_k8s_operator.Controller.Effect.{ok, EventType, Run, Action}

-- A statement about the schema of `spec`; a drop only when its object is being deleted under Delete.
abbrev pub IsSchemaCall : SchemaSpec → Bool → Action (ObjectWrite Schema) → Type 0
IsSchemaCall spec deleted (Action.sql client (create_schema database name owner)) =
    (database ≡ spec.database_name) × (name ≡ spec.schema_name) × (owner ≡ spec.owner)
IsSchemaCall spec deleted (Action.sql client (set_schema_owner database name owner)) =
    (database ≡ spec.database_name) × (name ≡ spec.schema_name) × (spec.owner ≡ some owner)
IsSchemaCall spec deleted (Action.sql client (drop_schema database name)) =
    (database ≡ spec.database_name)
    × (name ≡ spec.schema_name)
    × (spec.deletion_policy ≡ some deletion_policy_delete)
    × (deleted ≡ true)
IsSchemaCall spec deleted (Action.sql client _) = ⊥
IsSchemaCall spec deleted _ = Unit

module _ {W : Type 0} (env : ObjectEnv W Schema) where
  is_schema_deleted_with_lem :
      (policy : Option String)
      → is_schema_deleted_with env policy ≡ true
      → policy ≡ some deletion_policy_delete
  is_schema_deleted_with_lem none h = ground arith
  is_schema_deleted_with_lem (some p) h = ap some ((eq_iff p deletion_policy_delete).0 h)

  module _ (schema : Schema) (deleted : Bool) where
    abbrev Safe : {A : Type 0} → Run W (ObjectWrite Schema) A → Type 0
    Safe m = Keeps (IsSchemaCall schema.spec deleted) m

    written : (w : ObjectWrite Schema) → IsSchemaCall schema.spec deleted (Action.write w)
    written w = tt

    noted :
        (t : EventType) (reason : String) → IsSchemaCall schema.spec deleted (Action.event t reason)
    noted t reason = tt

    sent-Keeps :
        (client : Endpoint) (call : SqlCall) (context reason : String)
        → IsSchemaCall schema.spec deleted (Action.sql client call)
        → Safe (apply_call env schema_kind client call context reason)
    sent-Keeps = apply_call-Keeps env schema_kind noted

    set_schema_condition-Keeps :
        (status : Bool) (reason : String) → Safe (set_schema_condition env schema status reason)
    unfolding set_schema_condition
    set_schema_condition-Keeps status reason =
        set_object_condition-Keeps env schema_kind written noted schema status reason

    release-Keeps : Safe (release_object env schema_kind schema)
    release-Keeps = release_object-Keeps env schema_kind written noted schema

    keep-Keeps : (reason : String) → Safe (keep_object env schema_kind schema reason)
    keep-Keeps = keep_object-Keeps env schema_kind written noted schema

    ensure_schema_owner-Keeps : (client : Endpoint) → Safe (ensure_schema_owner env client schema)
    unfolding ensure_schema_owner
    ensure_schema_owner-Keeps client =
        Keeps-option_eq schema.spec.owner _ _ (Keeps-pure (ok tt))
          (λ owner e. search (keeps_rules, sent-Keeps, e) depth 12)

    reconcile_live_schema-Keeps : Safe (reconcile_live_schema env schema)
    unfolding reconcile_live_schema apply_schema get_credentials_from_secret connect_to_sql
    reconcile_live_schema-Keeps =
        search
          (keeps_rules, noted, sent-Keeps, set_schema_condition-Keeps, ensure_schema_owner-Keeps)
          depth 30

    handle_schema_deletion-Keeps : deleted ≡ true → Safe (handle_schema_deletion env schema)
    unfolding handle_schema_deletion clean_up_schema drop_schema_of get_credentials_from_secret
        connect_to_sql
    handle_schema_deletion-Keeps gone =
        let dropped : schema.spec.deletion_policy ≡ some deletion_policy_delete
            → (client : Endpoint)
            → Safe (
                drop_object env schema_kind client
                  (drop_schema schema.spec.database_name schema.spec.schema_name) "SchemaDropped") =
          λ policy client.
            drop_object-Keeps env schema_kind noted client _ _ (refl, refl, policy, gone) in
        Keeps-if (not (env.contains_finalizer finalizer schema.meta)) _ _ (λ _. Keeps-pure (ok 0))
          (λ _.
            Keeps-if (is_schema_deleted_with env schema.spec.deletion_policy) _ _
              (λ e.
                (let drops = dropped (is_schema_deleted_with_lem schema.spec.deletion_policy e) in
                  search (keeps_rules, release-Keeps, keep-Keeps, drops) depth 20))
              (λ _. release-Keeps))

  -- A reconciliation that fetches the Schema `schema` sends statements about that schema of its
  -- database only: it creates it with the specification's owner, sets that owner, and drops it only
  -- if `schema` is being deleted and its policy is Delete.
  pub reconcile_schema-sends :
      (namespace name : String) (schema : Schema) (w : W)
      → (env.get_object namespace name w).0 ≡ ok schema
      → All
          (IsSchemaCall schema.spec (is_some schema.meta.deletion_timestamp))
          (reconcile_schema env namespace name (record { outside = w; log = [] })).1.log
  unfolding reconcile_schema
  reconcile_schema-sends namespace name schema w fetched =
      let deleted = is_some schema.meta.deletion_timestamp in
      reconcile_object-All env schema_kind (λ _. tt) (λ _ _. tt) (handle_schema_deletion env)
        (reconcile_live_schema env) schema (λ o. o.spec ≡ schema.spec) refl (λ meta. refl) namespace
        name w fetched
        (λ gone.
          handle_schema_deletion-Keeps schema deleted
            (is_some_lem schema.meta.deletion_timestamp gone))
        (λ o same. rw (sym same) (reconcile_live_schema-Keeps o deleted))
