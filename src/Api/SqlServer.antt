-- ===== src/Api/SqlServer.antt =====
-- api/v1alpha1/sqlserver_types.go: a server, which may be an instance that the operator runs.
use mssql_k8s_operator.Prelude.{ℕ, String, Bool, Option, List, ℤ}
use mssql_k8s_operator.Api.Meta.{SecretReference, ObjectMeta, Condition}

-- the named constants of the authentication method, a text that is empty before defaulting
abbrev pub auth_sql_login : String
auth_sql_login = "SqlLogin"

abbrev pub auth_azure_ad : String
auth_azure_ad = "AzureAD"

abbrev pub auth_managed_identity : String
auth_managed_identity = "ManagedIdentity"

pub record CrossNamespaceSecretReference : Type 0 where
  pub name : String
  pub namespace : Option String

pub record AzureAdAuth : Type 0 where
  pub client_id : String
  pub tenant_id : String
  pub client_secret_ref : Option CrossNamespaceSecretReference

pub record ManagedIdentityAuth : Type 0 where
  pub client_id : Option String

pub record CertManagerIssuerRef : Type 0 where
  pub name : String
  pub kind : Option String
  pub group : Option String

abbrev pub certificate_mode_self_signed : String
certificate_mode_self_signed = "SelfSigned"

abbrev pub certificate_mode_cert_manager : String
certificate_mode_cert_manager = "CertManager"

pub record CertificateSpec : Type 0 where
  pub mode : Option String
  pub issuer_ref : Option CertManagerIssuerRef
  pub duration : Option String
  pub renew_before : Option String

pub record ManagedAgSpec : Type 0 where
  pub ag_name : Option String
  pub availability_mode : Option String
  pub auto_failover : Option Bool
  pub health_check_interval : Option String
  pub failover_cooldown : Option String
  pub databases : List String

-- Without resources, tolerations, affinity and topology spread constraints, which are of types of
-- Kubernetes and which the operator only passes on.
pub record InstanceSpec : Type 0 where
  pub image : Option String
  pub sa_password_secret : SecretReference
  pub accept_eula : Bool
  pub edition : Option String
  pub replicas : Option ℤ  -- int32
  pub storage_size : Option String
  pub storage_class_name : Option String
  pub service_type : Option String
  pub node_selector : List (String × String)
  pub config : Option String
  pub certificates : Option CertificateSpec
  pub availability_group : Option ManagedAgSpec

-- The numbers are int32.
pub record SqlServerSpec : Type 0 where
  pub host : String
  pub port : Option ℤ
  pub auth_method : String
  pub credentials_secret : Option CrossNamespaceSecretReference
  pub azure_ad : Option AzureAdAuth
  pub managed_identity : Option ManagedIdentityAuth
  pub tls : Option Bool
  pub max_connections : Option ℤ
  pub connection_timeout : Option ℤ
  pub instance_spec : Option InstanceSpec

pub record SqlServerStatus : Type 0 where
  pub conditions : List Condition
  pub observed_generation : ℤ
  pub server_version : String
  pub edition : String
  pub last_connected_time : Option ℕ
  pub host : String
  pub ready_replicas : Option ℤ
  pub primary_replica : String
  pub certificates_ready : Option Bool

pub record SqlServer : Type 0 where
  pub meta : ObjectMeta
  pub spec : SqlServerSpec
  pub status : SqlServerStatus
