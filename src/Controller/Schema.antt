-- ===== src/Controller/Schema.antt =====
-- internal/controller/schema_controller.go: the deletion, and Reconcile in the order of its steps.
pub mod Safety
mod Tests
use mssql_k8s_operator.Sql.Client.{create_schema, set_schema_owner, drop_schema, Endpoint}
use mssql_k8s_operator.Api.Meta.{
  reason_connection_failed, reason_ready, reason_invalid_credentials_secret,
  reason_secret_not_found, reason_schema_not_empty, finalizer, deletion_policy_delete,
}
use mssql_k8s_operator.Api.Objects.{Schema}
use mssql_k8s_operator.Controller.Object.Lifecycle.{
  apply_call, reconcile_object, keep_object, release_object, drop_object, set_object_condition,
  Kind,
}
use mssql_k8s_operator.Controller.Object.{ObjectWrite, ObjectEnv}
use mssql_k8s_operator.Prelude.{
  ℕ, zero, suc, ◌+◌, ◌-◌, ◌≤◌, ◌<◌, String, Bool, true, false, not, ◌&&◌, ◌||◌, Option, none, some,
  List, [], ◌∷◌, ◌++◌, map, ◌==◌, string_eq, nat_eq, int_eq, bool_eq, ℤ, pos, negsuc, if◌then◌else◌,
  ◌≡◌, ◌≢◌, refl, sym, ap, ◌∙◌, ◌⊎◌, ◌↔◌, inl, inr, arith, eq_iff, All, In, Bool-cases,
  Option-cases, lookup, lookup_or, length, take, drop,
}
use mssql_k8s_operator.Controller.Effect.{
  warning, Action, note, wrapped, ok, err, is_not_found, on_result, pure, ask, on_option, Result,
  Run, ◌>>=◌, ◌>>◌,
}
use mssql_k8s_operator.Controller.Helpers.{connect_to_sql, get_credentials_from_secret, exec}

abbrev pub schema_kind : Kind Schema
schema_kind = record {
  meta_of = λ schema. schema.meta;
  with_meta = λ meta schema. record schema { meta = meta };
  conditions_of = λ schema. schema.status.conditions;
  with_conditions = λ conditions schema. record schema {
    status = record schema.status { conditions = conditions };
  };
  with_observed = λ generation schema. record schema {
    status = record schema.status { observed_generation = generation };
  };
}

module _ {W : Type 0} (env : ObjectEnv W Schema) where
  unfoldable pub set_schema_condition :
      Schema → Bool → String → Run W (ObjectWrite Schema) (Result ℕ)
  unfolding set_object_condition
  set_schema_condition schema status reason =
      set_object_condition env schema_kind schema status reason

  unfoldable pub drop_schema_of : Endpoint → Schema → Run W (ObjectWrite Schema) (Result ℕ)
  unfolding drop_object release_object
  drop_schema_of client schema = do
    drop_object env schema_kind client
        (drop_schema schema.spec.database_name schema.spec.schema_name) "SchemaDropped"
    release_object env schema_kind schema

  -- the clean-up on a connected server; an error of the question is only logged
  unfoldable pub clean_up_schema : Endpoint → Schema → Run W (ObjectWrite Schema) (Result ℕ)
  unfolding keep_object drop_schema_of
  clean_up_schema client schema = do
    has_objects ← ask (
        env.base.questions.schema_has_objects client schema.spec.database_name
          schema.spec.schema_name)
    on_result has_objects (λ e. drop_schema_of client schema)
        (λ used.
          if used
          then keep_object env schema_kind schema reason_schema_not_empty
          else drop_schema_of client schema)

  abbrev pub is_schema_deleted_with : Option String → Bool
  is_schema_deleted_with none = false
  is_schema_deleted_with (some policy) = policy == deletion_policy_delete

  unfoldable pub handle_schema_deletion : Schema → Run W (ObjectWrite Schema) (Result ℕ)
  unfolding release_object clean_up_schema
  handle_schema_deletion schema =
      if not (env.contains_finalizer finalizer schema.meta)
      then pure (ok 0)
      else if is_schema_deleted_with schema.spec.deletion_policy
      then (do
        credentials ←
            get_credentials_from_secret env.base schema.meta.namespace
              schema.spec.server.credentials_secret.name
        on_result credentials (λ e. release_object env schema_kind schema)
            (λ pair. (do
              connected ← connect_to_sql env.base schema.spec.server pair.0 pair.1
              on_result connected (λ e. release_object env schema_kind schema)
                  (λ client. clean_up_schema client schema))))
      else release_object env schema_kind schema

  unfoldable pub ensure_schema_owner :
      Endpoint → Schema → Run W (ObjectWrite Schema) (Result (Unit {0}))
  ensure_schema_owner client schema = on_option schema.spec.owner (pure (ok tt)) (λ owner. (do
    current ← ask (
        env.base.questions.get_schema_owner client schema.spec.database_name
          schema.spec.schema_name)
    on_result current (λ e. pure (err (wrapped "failed to get schema owner" e)))
        (λ now.
          if now == owner
          then pure (ok tt)
          else apply_call env schema_kind client
              (set_schema_owner schema.spec.database_name schema.spec.schema_name owner)
              "failed to set schema owner" "SchemaOwnerUpdated")))

  -- steps 5 to 7
  unfoldable pub apply_schema : Endpoint → Schema → Run W (ObjectWrite Schema) (Result ℕ)
  unfolding ensure_schema_owner set_schema_condition
  apply_schema client schema = do
    exists ←
        ask (
          env.base.questions.schema_exists client schema.spec.database_name schema.spec.schema_name)
    on_result exists (λ e. pure (err (wrapped "failed to check schema existence" e)))
        (λ there. (do
          created ←
              if there
              then pure (ok tt)
              else apply_call env schema_kind client
                  (create_schema schema.spec.database_name schema.spec.schema_name
                    schema.spec.owner)
                  "failed to create schema" "SchemaCreated"
          on_result created (λ e. pure (err e))
              (λ _. (do
                owned ← ensure_schema_owner client schema
                on_result owned (λ e. pure (err e))
                    (λ _. set_schema_condition schema true reason_ready)))))

  -- from step 3 on
  unfoldable pub reconcile_live_schema : Schema → Run W (ObjectWrite Schema) (Result ℕ)
  unfolding set_schema_condition apply_schema
  reconcile_live_schema schema = do
    credentials ←
        get_credentials_from_secret env.base schema.meta.namespace
          schema.spec.server.credentials_secret.name
    on_result credentials
        (λ e.
          set_schema_condition schema false
            (if is_not_found e then reason_secret_not_found else reason_invalid_credentials_secret))
        (λ pair. (do
          connected ← connect_to_sql env.base schema.spec.server pair.0 pair.1
          on_result connected
              (λ e. (do
                note (Action.event warning reason_connection_failed)
                pure (err (wrapped "failed to connect to SQL Server" e))))
              (λ client. apply_schema client schema)))

  unfoldable pub reconcile_schema : String → String → Run W (ObjectWrite Schema) (Result ℕ)
  unfolding reconcile_object handle_schema_deletion reconcile_live_schema
  reconcile_schema namespace name =
      reconcile_object env schema_kind handle_schema_deletion reconcile_live_schema namespace name
