-- ===== src/Api/Meta.antt =====
-- api/v1alpha1/common_types.go, and the metadata of a Kubernetes object that the operator reads.
use mssql_k8s_operator.Prelude.{ℕ, String, Bool, Option, List, ℤ}

pub record SecretReference : Type 0 where
  pub name : String

pub record LoginReference : Type 0 where
  pub name : String

-- A nil pointer is `none`.
pub record ServerReference : Type 0 where
  pub host : String
  pub port : Option ℤ  -- int32
  pub credentials_secret : SecretReference
  pub tls : Option Bool
  pub sql_server_ref : Option String

-- metav1.Condition, without its message and its time of transition
pub record Condition : Type 0 where
  pub type : String
  pub status : Bool  -- ConditionTrue or ConditionFalse
  pub reason : String
  pub observed_generation : ℤ

-- metav1.ObjectMeta; times are nanoseconds
pub record ObjectMeta : Type 0 where
  pub name : String
  pub namespace : String
  pub generation : ℤ
  pub resource_version : String
  pub creation_timestamp : ℕ
  pub deletion_timestamp : Option ℕ
  pub finalizers : List String
  pub labels : List (String × String)
  pub annotations : List (String × String)

-- coordinationv1.Lease; times are nanoseconds
pub record Lease : Type 0 where
  pub name : String
  pub namespace : String
  pub resource_version : String
  pub holder_identity : Option String
  pub lease_duration_seconds : Option ℤ
  pub acquire_time : Option ℕ
  pub renew_time : Option ℕ

abbrev pub deletion_policy_delete : String
deletion_policy_delete = "Delete"

abbrev pub deletion_policy_retain : String
deletion_policy_retain = "Retain"

abbrev pub condition_ready : String
condition_ready = "Ready"

abbrev pub finalizer : String
finalizer = "mssql.popul.io/finalizer"

-- the reasons of a condition
abbrev pub reason_ready : String
reason_ready = "Ready"

abbrev pub reason_connection_failed : String
reason_connection_failed = "ConnectionFailed"

abbrev pub reason_secret_not_found : String
reason_secret_not_found = "SecretNotFound"

abbrev pub reason_invalid_credentials_secret : String
reason_invalid_credentials_secret = "InvalidCredentialsSecret"

abbrev pub reason_immutable_field_changed : String
reason_immutable_field_changed = "ImmutableFieldChanged"

abbrev pub reason_collation_change_not_supported : String
reason_collation_change_not_supported = "CollationChangeNotSupported"

abbrev pub reason_login_in_use : String
reason_login_in_use = "LoginInUse"

abbrev pub reason_login_ref_not_found : String
reason_login_ref_not_found = "LoginRefNotFound"

abbrev pub reason_login_not_ready : String
reason_login_not_ready = "LoginNotReady"

abbrev pub reason_user_owns_objects : String
reason_user_owns_objects = "UserOwnsObjects"

abbrev pub reason_invalid_server_role : String
reason_invalid_server_role = "InvalidServerRole"

abbrev pub reason_database_provisioning : String
reason_database_provisioning = "DatabaseProvisioning"

abbrev pub reason_schema_not_empty : String
reason_schema_not_empty = "SchemaNotEmpty"

abbrev pub reason_deployment_provisioning : String
reason_deployment_provisioning = "DeploymentProvisioning"

abbrev pub reason_deployment_ready : String
reason_deployment_ready = "DeploymentReady"

abbrev pub reason_eula_not_accepted : String
reason_eula_not_accepted = "EULANotAccepted"

abbrev pub reason_certificates_provisioning : String
reason_certificates_provisioning = "CertificatesProvisioning"

abbrev pub reason_ag_provisioning : String
reason_ag_provisioning = "AGProvisioning"

abbrev pub reason_split_brain_detected : String
reason_split_brain_detected = "SplitBrainDetected"

abbrev pub reason_fencing_executed : String
reason_fencing_executed = "FencingExecuted"

abbrev pub reason_hard_fencing_executed : String
reason_hard_fencing_executed = "HardFencingExecuted"

abbrev pub reason_fencing_failed : String
reason_fencing_failed = "FencingFailed"

abbrev pub reason_fencing_exhausted : String
reason_fencing_exhausted = "FencingExhausted"

abbrev pub reason_primary_changed_externally : String
reason_primary_changed_externally = "PrimaryChangedExternally"
