-- ===== src/Webhook/SqlServer/Accept.antt =====
-- When an update of a SQLServer is accepted.
use mssql_k8s_operator.Prelude.{
  String, Bool, true, false, not, ◌&&◌, Option, none, some, [], ◌==◌, string_eq, nat_eq, int_eq,
  bool_eq, ◌≡◌, ◌≢◌, refl, ◌↔◌, inl, inr, arith, eq_iff, Option-cases,
}
use mathlib.Core.Bool.{true≢false, false≢true}
use mssql_k8s_operator.Api.SqlServer.{
  SqlServer, InstanceSpec, auth_sql_login, auth_azure_ad, certificate_mode_cert_manager,
}
use mssql_k8s_operator.Webhook.Checks.{accept_rules, is_nil}
use mssql_k8s_operator.Webhook.SqlServer.{
  is_cluster, points_to, certificate_mode_of, issuer_of, validate_sql_server, instance_changes,
  validate_sql_server_update,
}

guard_iff : {P : Type 0} (a b : Bool) → (b ≡ false) ↔ P → ((a && b) ≡ false) ↔ (a ≡ true → P)
guard_iff true b h = (λ e _. h.0 e, λ f. h.1 (f refl))
guard_iff false b h = (λ _ e. elim (false≢true e) [ ], λ _. refl)

equal_guard_iff :
    {P : Type 0} (s t : String) (b : Bool)
    → (b ≡ false) ↔ P
    → (((s == t) && b) ≡ false) ↔ (s ≡ t → P)
equal_guard_iff s t b h = (
  λ e same. (guard_iff (s == t) b h).0 e ((eq_iff s t).1 same),
  λ f. (guard_iff (s == t) b h).1 (λ e. f ((eq_iff s t).0 e)),
)

is_given_iff : {A : Type 0} (o : Option A) → (is_nil o ≡ false) ↔ (o ≢ none)
unfolding is_nil
is_given_iff none = (λ e. elim (true≢false e) [ ], λ h. elim (h refl) [ ])
is_given_iff (some a) = ground arith

is_true_iff : (b : Bool) → (not b ≡ false) ↔ (b ≡ true)
is_true_iff true = (λ _. refl, λ _. refl)
is_true_iff false = ground arith

points_elsewhere_iff : (o : Option String) (t : String) → (points_to o t ≡ false) ↔ (o ≢ some t)
points_elsewhere_iff none t = ground arith
points_elsewhere_iff (some s) t = ground (arith, eq_iff s t)

points_guard_iff :
    {P : Type 0} (o : Option String) (t : String) (b : Bool)
    → (b ≡ false) ↔ P
    → ((points_to o t && b) ≡ false) ↔ (o ≡ some t → P)
points_guard_iff none t b h = ground arith
points_guard_iff (some s) t b h = ground (arith, eq_iff s t, h)

ruleset sql_server_rules = (
  accept_rules, guard_iff, equal_guard_iff, is_given_iff, is_true_iff, points_elsewhere_iff,
  points_guard_iff,
)

-- An instance that the operator is to run.
abbrev pub IsInstanceComplete : InstanceSpec → Type 0
IsInstanceComplete managed =
    (managed.accept_eula ≡ true)
    × ((managed.sa_password_secret.name ≢ "")
        × ((is_cluster managed ≡ true → managed.edition ≢ some "Express")
            × (is_cluster managed ≡ true
                → certificate_mode_of managed ≡ some certificate_mode_cert_manager
                → issuer_of managed ≢ none)))

-- A server that runs elsewhere has a host and what its authentication asks for; one that the operator
-- runs has no host.
abbrev pub IsSqlServerComplete : SqlServer → Type 0
IsSqlServerComplete r = elim r.spec.instance_spec [
  | none ↦
      (r.spec.host ≢ "")
      × ((r.spec.auth_method ≡ auth_sql_login → r.spec.credentials_secret ≢ none)
          × (r.spec.auth_method ≡ auth_azure_ad → r.spec.azure_ad ≢ none))
  | some managed ↦ (r.spec.host ≡ "") × IsInstanceComplete managed
]

abbrev pub IsInstanceKept : Option InstanceSpec → Option InstanceSpec → Type 0
IsInstanceKept (some managed) (some old) =
    (managed.storage_class_name ≡ old.storage_class_name) × (is_cluster old ≡ is_cluster managed)
IsInstanceKept _ _ = Unit

abbrev pub IsSqlServerKept : SqlServer → SqlServer → Type 0
IsSqlServerKept r old =
    ((is_nil r.spec.instance_spec ≡ true → r.spec.host ≡ old.spec.host)
      × (is_nil r.spec.instance_spec ≡ is_nil old.spec.instance_spec))
    × IsInstanceKept r.spec.instance_spec old.spec.instance_spec

validate_sql_server_lem : (r : SqlServer) → (validate_sql_server r ≡ []) ↔ IsSqlServerComplete r
unfolding validate_sql_server
validate_sql_server_lem r = elim (Option-cases r.spec.instance_spec) [
  | inl e ↦ rw (e) (search sql_server_rules depth 14)
  | inr (managed, e) ↦ rw (e) (search sql_server_rules depth 14)
]

instance_changes_lem :
    (managed old : Option InstanceSpec)
    → (instance_changes managed old ≡ []) ↔ IsInstanceKept managed old
unfolding instance_changes
instance_changes_lem (some managed) (some old) = search sql_server_rules depth 14
instance_changes_lem (some managed) none = (λ _. tt, λ _. refl)
instance_changes_lem none (some old) = (λ _. tt, λ _. refl)
instance_changes_lem none none = (λ _. tt, λ _. refl)

-- An update of a SQLServer is accepted exactly when the new object is complete, an instance is given
-- before and after or neither before nor after, the host stays where none is given, and a given one
-- keeps its storage class and whether it has more than one replica.
pub validate_sql_server_update_lem :
    (r old : SqlServer)
    → (validate_sql_server_update r (some old) ≡ [])
      ↔ (IsSqlServerComplete r × IsSqlServerKept r old)
unfolding validate_sql_server_update
validate_sql_server_update_lem r old =
    search (sql_server_rules, validate_sql_server_lem, instance_changes_lem) depth 18
