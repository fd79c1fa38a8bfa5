-- ===== src/Api/Objects.antt =====
-- The resources of a database server: api/v1alpha1/database_types.go, login_types.go,
-- databaseuser_types.go, schema_types.go and permission_types.go.
use mssql_k8s_operator.Prelude.{String, Bool, Option, List, ℤ}
use mssql_k8s_operator.Api.Meta.{
  ServerReference, SecretReference, LoginReference, ObjectMeta, Condition,
}

pub record DatabaseOption : Type 0 where
  pub name : String
  pub value : Bool

pub record DatabaseSpec : Type 0 where
  pub server : ServerReference
  pub database_name : String
  pub collation : Option String
  pub owner : Option String
  pub recovery_model : Option String
  pub compatibility_level : Option ℤ
  pub options : List DatabaseOption
  pub deletion_policy : Option String

pub record DatabaseStatus : Type 0 where
  pub conditions : List Condition
  pub observed_generation : ℤ

pub record Database : Type 0 where
  pub meta : ObjectMeta
  pub spec : DatabaseSpec
  pub status : DatabaseStatus

pub record LoginSpec : Type 0 where
  pub server : ServerReference
  pub login_name : String
  pub password_secret : SecretReference
  pub default_database : Option String
  pub server_roles : List String
  pub deletion_policy : Option String

pub record LoginStatus : Type 0 where
  pub conditions : List Condition
  pub observed_generation : ℤ
  pub password_secret_resource_version : String

pub record Login : Type 0 where
  pub meta : ObjectMeta
  pub spec : LoginSpec
  pub status : LoginStatus

pub record DatabaseUserSpec : Type 0 where
  pub server : ServerReference
  pub database_name : String
  pub user_name : String
  pub login_ref : LoginReference
  pub database_roles : List String

pub record DatabaseUserStatus : Type 0 where
  pub conditions : List Condition
  pub observed_generation : ℤ

pub record DatabaseUser : Type 0 where
  pub meta : ObjectMeta
  pub spec : DatabaseUserSpec
  pub status : DatabaseUserStatus

pub record SchemaSpec : Type 0 where
  pub server : ServerReference
  pub database_name : String
  pub schema_name : String
  pub owner : Option String
  pub deletion_policy : Option String

pub record SchemaStatus : Type 0 where
  pub conditions : List Condition
  pub observed_generation : ℤ

pub record Schema : Type 0 where
  pub meta : ObjectMeta
  pub spec : SchemaSpec
  pub status : SchemaStatus

pub record PermissionEntry : Type 0 where
  pub permission : String
  pub on : String

pub record PermissionSpec : Type 0 where
  pub server : ServerReference
  pub database_name : String
  pub user_name : String
  pub grants : List PermissionEntry
  pub denies : List PermissionEntry

pub record PermissionStatus : Type 0 where
  pub conditions : List Condition
  pub observed_generation : ℤ

pub record Permission : Type 0 where
  pub meta : ObjectMeta
  pub spec : PermissionSpec
  pub status : PermissionStatus
