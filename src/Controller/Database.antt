-- ===== src/Controller/Database.antt =====
-- internal/controller/database_controller.go: the conditions, what is set on a database that is there,
-- and the deletion.
pub mod Reconcile
pub mod Safety
mod Tests
pub mod Drift
use mssql_k8s_operator.Api.SqlServer.{SqlServer}
use mssql_k8s_operator.Api.Objects.{DatabaseOption, Database}
use mssql_k8s_operator.Sql.Client.{
  set_database_recovery_model, set_database_owner, set_database_option,
  set_database_compatibility_level, create_database, drop_database, Endpoint,
}
use mssql_k8s_operator.Api.Meta.{finalizer, deletion_policy_delete}
use mssql_k8s_operator.Controller.Servers.{resolve_server_reference, resolve_server_credentials}
use mssql_k8s_operator.Controller.Object.{ObjectWrite, ObjectEnv}
use mssql_k8s_operator.Controller.Object.Lifecycle.{
  apply_call, drop_object, Kind, set_object_condition, release_object,
}
use mssql_k8s_operator.Prelude.{
  ℕ, zero, suc, ◌+◌, ◌-◌, ◌≤◌, ◌<◌, String, Bool, true, false, not, ◌&&◌, ◌||◌, Option, none, some,
  List, [], ◌∷◌, ◌++◌, map, ◌==◌, string_eq, nat_eq, int_eq, bool_eq, ℤ, pos, negsuc, if◌then◌else◌,
  ◌≡◌, ◌≢◌, refl, sym, ap, ◌∙◌, ◌⊎◌, ◌↔◌, inl, inr, arith, eq_iff, All, In, Bool-cases,
  Option-cases, lookup, lookup_or, length, take, drop,
}
use mssql_k8s_operator.Controller.Effect.{
  wrapped, err, ask, when, ok, on_result, on_option, pure, Result, Run, ◌>>=◌, ◌>>◌,
}
use mssql_k8s_operator.Controller.Helpers.{connect_to_sql, exec}

pub record DatabaseEnv (W : Type 0) : Type 1 where
  pub object : ObjectEnv W Database
  -- r.Get of a SQLServer, by namespace and name
  pub get_sql_server : String → String → W → Result SqlServer × W

abbrev pub database_kind : Kind Database
database_kind = record {
  meta_of = λ db. db.meta;
  with_meta = λ meta db. record db { meta = meta };
  conditions_of = λ db. db.status.conditions;
  with_conditions =
      λ conditions db. record db { status = record db.status { conditions = conditions } };
  with_observed =
      λ generation db. record db { status = record db.status { observed_generation = generation } };
}

-- SQL Server returns "FULL", "SIMPLE" or "BULK_LOGGED".
unfoldable pub recovery_model_sql : String → String
recovery_model_sql desired = if desired == "BulkLogged" then "BULK_LOGGED" else desired

module _ {W : Type 0} (env : DatabaseEnv W) where
  unfoldable pub set_database_condition :
      Database → Bool → String → Run W (ObjectWrite Database) (Result ℕ)
  unfolding set_object_condition
  set_database_condition db status reason =
      set_object_condition env.object database_kind db status reason

  -- step 6, the database itself
  unfoldable pub ensure_database :
      Endpoint → Database → Bool → Run W (ObjectWrite Database) (Result (Unit {0}))
  ensure_database client db exists =
      if exists
      then pure (ok tt)
      else apply_call env.object database_kind client
          (create_database db.spec.database_name db.spec.collation) "failed to create database"
          "DatabaseCreated"

  unfoldable pub ensure_database_owner :
      Endpoint → Database → Run W (ObjectWrite Database) (Result (Unit {0}))
  ensure_database_owner client db = on_option db.spec.owner (pure (ok tt)) (λ owner. (do
    current ← ask (env.object.base.questions.get_database_owner client db.spec.database_name)
    on_result current (λ e. pure (err (wrapped "failed to get database owner" e)))
        (λ now.
          if now == owner
          then pure (ok tt)
          else apply_call env.object database_kind client
              (set_database_owner db.spec.database_name owner) "failed to set database owner"
              "DatabaseOwnerUpdated")))

  -- only for a database that was there
  unfoldable pub ensure_recovery_model :
      Endpoint → Database → Bool → Run W (ObjectWrite Database) (Result (Unit {0}))
  unfolding recovery_model_sql
  ensure_recovery_model client db exists =
      on_option db.spec.recovery_model (pure (ok tt)) (λ desired.
        if not exists then pure (ok tt) else (do
          current ←
              ask
                (env.object.base.questions.get_database_recovery_model client db.spec.database_name)
          on_result current (λ e. pure (err (wrapped "failed to get recovery model" e)))
              (λ now.
                if now == recovery_model_sql desired
                then pure (ok tt)
                else apply_call env.object database_kind client
                    (set_database_recovery_model db.spec.database_name (recovery_model_sql desired))
                    "failed to set recovery model" "RecoveryModelUpdated")))

  unfoldable pub ensure_compatibility_level :
      Endpoint → Database → Bool → Run W (ObjectWrite Database) (Result (Unit {0}))
  ensure_compatibility_level client db exists =
      on_option db.spec.compatibility_level (pure (ok tt)) (λ desired.
        if not exists then pure (ok tt) else (do
          current ← ask (
              env.object.base.questions.get_database_compatibility_level client
                db.spec.database_name)
          on_result current (λ e. pure (err (wrapped "failed to get compatibility level" e)))
              (λ now.
                if now == desired
                then pure (ok tt)
                else apply_call env.object database_kind client
                    (set_database_compatibility_level db.spec.database_name desired)
                    "failed to set compatibility level" "CompatibilityLevelUpdated")))

  -- `for _, opt := range db.Spec.Options`
  unfoldable pub ensure_options :
      Endpoint → String → List DatabaseOption → Run W (ObjectWrite Database) (Result (Unit {0}))
  ensure_options client name [] = pure (ok tt)
  ensure_options client name (option ∷ options) =
      let rest = ensure_options client name options in
      do
        current ← ask (env.object.base.questions.get_database_option client name option.name)
        on_result current (λ e. pure (err (wrapped "failed to get database option" e)))
            (λ now. if now == option.value then rest else (do
              set ←
                  apply_call env.object database_kind client
                    (set_database_option name option.name option.value)
                    "failed to set database option" "DatabaseOptionUpdated"
              on_result set (λ e. pure (err e)) (λ _. rest)))

  -- The collation is immutable: whether it is another one than the specification's.
  unfoldable pub collation_drifts :
      Endpoint → Database → Bool → Run W (ObjectWrite Database) (Result Bool)
  collation_drifts client db exists = on_option db.spec.collation (pure (ok false)) (λ desired.
      if not exists then pure (ok false) else (do
        current ←
            ask (env.object.base.questions.get_database_collation client db.spec.database_name)
        on_result current (λ e. pure (err (wrapped "failed to get database collation" e)))
            (λ now. pure (ok (not (now == desired))))))

  abbrev pub is_database_deleted_with : Option String → Bool
  is_database_deleted_with none = false
  is_database_deleted_with (some policy) = policy == deletion_policy_delete

  -- the clean-up under the policy Delete; the second error of the reference is dropped
  unfoldable pub clean_up_database : Database → Run W (ObjectWrite Database) (Unit {0})
  unfolding resolve_server_credentials resolve_server_reference drop_object
  clean_up_database db = do
    credentials ←
        resolve_server_credentials env.object.base env.get_sql_server db.meta.namespace
          db.spec.server
    on_result credentials (λ e. pure tt)
        (λ pair. (do
          resolved ←
              resolve_server_reference env.object.base env.get_sql_server db.meta.namespace
                db.spec.server
          connected ← connect_to_sql env.object.base resolved.0 pair.0 pair.1
          on_result connected (λ e. pure tt)
              (λ client.
                drop_object env.object database_kind client (drop_database db.spec.database_name)
                  "DatabaseDropped")))

  unfoldable pub handle_database_deletion : Database → Run W (ObjectWrite Database) (Result ℕ)
  unfolding clean_up_database release_object
  handle_database_deletion db =
      if not (env.object.contains_finalizer finalizer db.meta) then pure (ok 0) else (do
        when (is_database_deleted_with db.spec.deletion_policy) (clean_up_database db)
        release_object env.object database_kind db)
