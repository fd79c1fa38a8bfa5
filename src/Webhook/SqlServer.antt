-- ===== src/Webhook/SqlServer.antt =====
-- The validator and the defaults of sqlserver_webhook.go.
pub mod Accept
use mssql_k8s_operator.Prelude.{
  ℕ, zero, suc, ◌+◌, ◌-◌, ◌≤◌, ◌<◌, String, Bool, true, false, not, ◌&&◌, ◌||◌, Option, none, some,
  List, [], ◌∷◌, ◌++◌, map, ◌==◌, string_eq, nat_eq, int_eq, bool_eq, ℤ, pos, negsuc, if◌then◌else◌,
  ◌≡◌, ◌≢◌, refl, sym, ap, ◌∙◌, ◌⊎◌, ◌↔◌, inl, inr, arith, eq_iff, All, In, Bool-cases,
  Option-cases, lookup, lookup_or, length, take, drop,
}
use mssql_k8s_operator.Prelude.Int
use Prim.Native.String.{◌++◌ as append_text}
use mssql_k8s_operator.Api.SqlServer.{
  SqlServer, InstanceSpec, CertificateSpec, ManagedAgSpec, CertManagerIssuerRef, auth_sql_login,
  auth_azure_ad, certificate_mode_self_signed, certificate_mode_cert_manager,
}
use mssql_k8s_operator.Api.AvailabilityGroup.{availability_mode_synchronous}
use mssql_k8s_operator.Webhook.Objects.{at_spec}
use mssql_k8s_operator.Webhook.Checks.{
  errors_of, or_then, FieldErrors, ptr_equal, FieldError, PathStep, default_to, default_text, child,
  required, forbidden, unexpected_object, is_nil,
}

-- `replicas > 1`, with one replica where the number is not given
abbrev pub is_cluster : InstanceSpec → Bool
is_cluster managed = Int.ltb (pos 1) (elim managed.replicas [ none ↦ pos 1 | some n ↦ n ])

-- `&CertificateSpec{}` and `&ManagedAGSpec{}`
abbrev no_certificates : CertificateSpec
no_certificates = record { mode = none; issuer_ref = none; duration = none; renew_before = none }

abbrev no_managed_ag : ManagedAgSpec
no_managed_ag = record {
  ag_name = none;
  availability_mode = none;
  auto_failover = none;
  health_check_interval = none;
  failover_cooldown = none;
  databases = [];
}

unfoldable pub default_certificates : Option CertificateSpec → CertificateSpec
default_certificates given =
    let certificates : CertificateSpec = elim given [ none ↦ no_certificates | some c ↦ c ] in
    record certificates {
      mode = default_to certificate_mode_self_signed certificates.mode;
      duration = default_to "8760h" certificates.duration;
      renew_before = default_to "720h" certificates.renew_before;
    }

unfoldable pub default_managed_ag : String → Option ManagedAgSpec → ManagedAgSpec
default_managed_ag name given =
    let ag : ManagedAgSpec = elim given [ none ↦ no_managed_ag | some a ↦ a ] in
    record ag {
      ag_name = default_to (append_text name "-ag") ag.ag_name;
      availability_mode = default_to availability_mode_synchronous ag.availability_mode;
      auto_failover = default_to true ag.auto_failover;
      health_check_interval = default_to "10s" ag.health_check_interval;
      failover_cooldown = default_to "60s" ag.failover_cooldown;
    }

unfoldable pub default_instance : String → InstanceSpec → InstanceSpec
unfolding default_certificates default_managed_ag
default_instance name given =
    let managed = record given {
      image = default_to "mcr.microsoft.com/mssql/server:2022-latest" given.image;
      edition = default_to "Developer" given.edition;
      replicas = default_to (pos 1) given.replicas;
      storage_size = default_to "10Gi" given.storage_size;
      service_type = default_to "ClusterIP" given.service_type;
    } in
    if is_cluster managed
    then record managed {
      certificates = some (default_certificates managed.certificates);
      availability_group = some (default_managed_ag name managed.availability_group);
    }
    else managed

unfoldable pub default_sql_server : SqlServer → SqlServer
unfolding default_instance
default_sql_server r = record r {
  spec = record r.spec {
    port = default_to (pos 1433) r.spec.port;
    auth_method = default_text auth_sql_login r.spec.auth_method;
    tls = default_to false r.spec.tls;
    max_connections = default_to (pos 10) r.spec.max_connections;
    connection_timeout = default_to (pos 30) r.spec.connection_timeout;
    instance_spec = elim r.spec.instance_spec [
      | none ↦ none
      | some managed ↦ some (default_instance r.meta.name managed)
    ];
  };
}

-- `p != nil && *p == t`
abbrev pub points_to : Option String → String → Bool
points_to none t = false
points_to (some s) t = s == t

abbrev pub certificate_mode_of : InstanceSpec → Option String
certificate_mode_of managed = elim managed.certificates [ none ↦ none | some c ↦ c.mode ]

abbrev pub issuer_of : InstanceSpec → Option CertManagerIssuerRef
issuer_of managed = elim managed.certificates [ none ↦ none | some c ↦ c.issuer_ref ]

abbrev pub at_instance : String → List PathStep
at_instance field = child "spec" ∷ child "instance" ∷ child field ∷ []

-- The two branches of validate; the switch on the method is a test for each case that tests.
unfoldable pub validate_sql_server : SqlServer → FieldErrors
unfolding is_nil
validate_sql_server r = elim r.spec.instance_spec [
  | none ↦ errors_of (
      (r.spec.host == "", required (at_spec "host"))
      ∷ (
        (r.spec.auth_method == auth_sql_login) && is_nil r.spec.credentials_secret,
        required (at_spec "credentialsSecret"),
      )
      ∷ (
        (r.spec.auth_method == auth_azure_ad) && is_nil r.spec.azure_ad,
        required (at_spec "azureAD"),
      )
      ∷ [])
  | some managed ↦ errors_of (
      (not (r.spec.host == ""), forbidden (at_spec "host"))
      ∷ (not managed.accept_eula, required (at_instance "acceptEULA"))
      ∷ (
        managed.sa_password_secret.name == "",
        required (child "spec" ∷ child "instance" ∷ child "saPasswordSecret" ∷ child "name" ∷ []),
      )
      ∷ (
        is_cluster managed && points_to managed.edition "Express",
        forbidden (at_instance "edition"),
      )
      ∷ (
        is_cluster managed
            && (points_to (certificate_mode_of managed) certificate_mode_cert_manager
                && is_nil (issuer_of managed)),
        required (child "spec" ∷ child "instance" ∷ child "certificates" ∷ child "issuerRef" ∷ []),
      )
      ∷ [])
]

-- what an update may not change of an instance that is there before and after it
unfoldable pub instance_changes : Option InstanceSpec → Option InstanceSpec → FieldErrors
instance_changes (some managed) (some old) = errors_of (
    (
      not (ptr_equal managed.storage_class_name old.storage_class_name),
      forbidden (at_instance "storageClassName"),
    )
    ∷ (not (is_cluster old == is_cluster managed), forbidden (at_instance "replicas"))
    ∷ [])
instance_changes _ _ = []

-- The errors of the object itself come first, and alone.
unfoldable pub validate_sql_server_update : SqlServer → Option SqlServer → FieldErrors
unfolding validate_sql_server instance_changes is_nil
validate_sql_server_update r none = unexpected_object ∷ []
validate_sql_server_update r (some old) = or_then (validate_sql_server r) (
    errors_of (
      (
        is_nil r.spec.instance_spec && not (r.spec.host == old.spec.host),
        forbidden (at_spec "host"),
      )
      ∷ (
        not (is_nil r.spec.instance_spec == is_nil old.spec.instance_spec),
        forbidden (at_spec "instance"),
      )
      ∷ [])
    ++ instance_changes r.spec.instance_spec old.spec.instance_spec)
