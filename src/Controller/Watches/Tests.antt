-- ===== src/Controller/Watches/Tests.antt =====
-- Tests of what a change of a secret asks to reconcile: a login and a group, and the secrets that they
-- use.
use mssql_k8s_operator.Prelude.{
  ℕ, String, ◌&&◌, none, List, [], ◌∷◌, ◌==◌, string_eq, nat_eq, int_eq, bool_eq, if◌then◌else◌,
  ◌≡◌, refl, ◌⊎◌, inl, All, In,
}
use mssql_k8s_operator.Controller.TestWorld.{
  test_replica, test_secret, test_group, test_login, test_env,
}
use mssql_k8s_operator.Api.Objects.{Login}
use mssql_k8s_operator.Api.AvailabilityGroup.{AvailabilityGroup}
use mssql_k8s_operator.Controller.Effect.{not_found, ok, err, Result}
use mssql_k8s_operator.Controller.Env.{Secret, Env}
use mssql_k8s_operator.Controller.Watches.{
  map_secret_to_ags, requests_for, map_secret, request_of, map_secret_to_logins,
}
use mssql_k8s_operator.Controller.Watches.Covered.{
  map_secret_to_ags-covers, map_secret_to_logins-covers, IsUnaffected, IsChangeOf,
}

abbrev plain_env : Env ℕ (Unit {0})
plain_env = test_env

-- the API server without one secret
abbrev without : String → String → String → String → ℕ → Result Secret × ℕ
without namespace secret ns name =
    if (ns == namespace) && (name == secret)
    then (λ w. (err not_found, w))
    else (λ w. (ok test_secret, w))

without-IsChangeOf :
    (namespace secret : String) → IsChangeOf plain_env (without namespace secret) namespace secret
without-IsChangeOf namespace secret ns name off = rw (off) refl

abbrev list_logins : String → ℕ → Result (List Login) × ℕ
list_logins ns w = (ok (test_login none ∷ []), w)

abbrev list_groups : String → ℕ → Result (List AvailabilityGroup) × ℕ
list_groups ns w = (ok (test_group none ∷ []), w)

password_is_watched :
    (map_secret_to_logins list_logins "ns" "pw" 0).0
    ≡ record { name = "obj"; namespace = "ns" } ∷ []
unfolding map_secret_to_logins map_secret requests_for
password_is_watched = refl

other_is_not : (map_secret_to_logins list_logins "ns" "other" 0).0 ≡ []
unfolding map_secret_to_logins map_secret requests_for
other_is_not = refl

map_secret_to_logins-covers_example :
    In (request_of (test_login none).meta) (map_secret_to_logins list_logins "ns" "other" 0).0
    ⊎ (IsUnaffected plain_env (without "ns" "other") "ns" (test_login none).spec.server
        × (plain_env.get_secret "ns" "pw" ≡ without "ns" "other" "ns" "pw"))
map_secret_to_logins-covers_example =
    map_secret_to_logins-covers plain_env (without "ns" "other") list_logins "ns" "other" 0
      (test_login none ∷ []) (test_login none) refl (inl refl) (without-IsChangeOf "ns" "other")

map_secret_to_ags-covers_example :
    In (request_of (test_group none).meta) (map_secret_to_ags list_groups "ns" "other" 0).0
    ⊎ All
        (λ replica. IsUnaffected plain_env (without "ns" "other") "ns" replica.server)
        (test_replica "a" ∷ test_replica "b" ∷ [])
map_secret_to_ags-covers_example =
    map_secret_to_ags-covers plain_env (without "ns" "other") list_groups "ns" "other" 0
      (test_group none ∷ []) (test_group none) refl (inl refl) (without-IsChangeOf "ns" "other")
