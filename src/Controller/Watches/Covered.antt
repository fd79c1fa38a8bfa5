-- ===== src/Controller/Watches/Covered.antt =====
-- What a change of a secret may be left unseen by: an object of the secret's namespace for which there
-- is no request reads the same from the API server before and after the change.
use mssql_k8s_operator.Prelude.{
  String, Bool, true, false, ◌&&◌, ◌||◌, List, [], ◌∷◌, ◌==◌, string_eq, nat_eq, int_eq, bool_eq,
  if◌then◌else◌, ◌≡◌, refl, sym, ap, ◌∙◌, ◌⊎◌, inl, inr, All, In, Bool-cases,
}
use mathlib.Core.Bool.{true≢false}
use mssql_k8s_operator.Api.Objects.{Login}
use mssql_k8s_operator.Controller.Helpers.{get_credentials_from_secret}
use mssql_k8s_operator.Api.Meta.{ServerReference, ObjectMeta}
use mssql_k8s_operator.Controller.Effect.{ok, Result}
use mssql_k8s_operator.Api.AvailabilityGroup.{AvailabilityGroup, AgReplicaSpec}
use mssql_k8s_operator.Controller.Env.{Secret, Env}
use mssql_k8s_operator.Controller.Watches.{
  map_secret, map_secret_to_logins, map_secret_to_ags, is_secret_of, request_of, requests_for,
  is_replica_secret,
}

and_false : (a b : Bool) → b ≡ false → (a && b) ≡ false
and_false true b e = e
and_false false b e = refl

or_true : (a b : Bool) → b ≡ true → (a || b) ≡ true
or_true true b e = refl
or_true false b e = e

neither : (a b : Bool) → (if a then true else b) ≡ false → (a ≡ false) × (b ≡ false)
neither true b e = elim (true≢false e) [ ]
neither false b e = (refl, e)

requests_for-In :
    {Object : Type 0} (meta : Object → ObjectMeta) (uses : Object → Bool) (o : Object)
    (items : List Object)
    → In o items
    → uses o ≡ true
    → In (request_of (meta o)) (requests_for meta uses items)
unfolding requests_for
requests_for-In meta uses o [] there used = elim there [ ]
requests_for-In meta uses o (p ∷ ps) (inl same) used =
    rw ((sym (ap uses same)) ∙ used) (inl (ap (λ q. request_of (meta q)) same))
requests_for-In meta uses o (p ∷ ps) (inr there) used = elim (Bool-cases (uses p)) [
  | inl e ↦ rw (e) (inr (requests_for-In meta uses o ps there used))
  | inr e ↦ rw (e) (requests_for-In meta uses o ps there used)
]

module _ {W Write : Type 0} (env : Env W Write)
    (get_changed : String → String → W → Result Secret × W) where
  -- what the API server is once the secret has changed
  abbrev pub changed_env : Env W Write
  changed_env = record env { get_secret = get_changed }

  -- Only that secret has changed.
  abbrev pub IsChangeOf : String → String → Type 0
  IsChangeOf namespace secret =
      (ns name : String)
      → ((ns == namespace) && (name == secret)) ≡ false
      → env.get_secret ns name ≡ get_changed ns name

  -- The credentials of a server are the same before and after the change.
  abbrev pub IsUnaffected : String → ServerReference → Type 0
  IsUnaffected namespace server =
      get_credentials_from_secret env namespace server.credentials_secret.name
      ≡ get_credentials_from_secret changed_env namespace server.credentials_secret.name

  unchanged :
      (namespace secret ns name : String)
      → IsChangeOf namespace secret
      → (name == secret) ≡ false
      → env.get_secret ns name ≡ get_changed ns name
  unchanged namespace secret ns name change other =
      change ns name (and_false (ns == namespace) (name == secret) other)

  get_credentials-IsUnaffected :
      (namespace secret ns : String) (server : ServerReference)
      → IsChangeOf namespace secret
      → is_secret_of secret server ≡ false
      → IsUnaffected ns server
  unfolding get_credentials_from_secret
  get_credentials-IsUnaffected namespace secret ns server change other =
      rw (unchanged namespace secret ns server.credentials_secret.name change other) refl

  -- If the objects listed for the namespace of a secret include a login, and if nothing but that secret
  -- changes at the API server, then either the login is among the requests of the change, or the
  -- credentials that its reconciler fetches and its password secret are the same as before.
  pub map_secret_to_logins-covers :
      (list : String → W → Result (List Login) × W) (namespace secret : String) (w : W)
      (items : List Login) (login : Login)
      → (list namespace w).0 ≡ ok items
      → In login items
      → IsChangeOf namespace secret
      → In (request_of login.meta) (map_secret_to_logins list namespace secret w).0
        ⊎ (IsUnaffected login.meta.namespace login.spec.server
            × (env.get_secret login.meta.namespace login.spec.password_secret.name
                ≡ get_changed login.meta.namespace login.spec.password_secret.name))
  unfolding map_secret_to_logins map_secret
  map_secret_to_logins-covers list namespace secret w items login found here change =
      let requested =
        requests_for-In (λ l. l.meta)
          (λ l. is_secret_of secret l.spec.server || (l.spec.password_secret.name == secret)) login
          items here in
      elim (Bool-cases (login.spec.password_secret.name == secret)) [
        | inl e ↦ inl (rw (found) (requested (or_true (is_secret_of secret login.spec.server) _ e)))
        | inr e ↦ elim (Bool-cases (is_secret_of secret login.spec.server)) [
          | inl e' ↦ inl (rw (found) (requested (rw (e') refl)))
          | inr e' ↦ inr (
            get_credentials-IsUnaffected namespace secret login.meta.namespace login.spec.server
                change e',
            unchanged namespace secret login.meta.namespace login.spec.password_secret.name change
                e,
          )
        ]
      ]

  All-IsUnaffected :
      (namespace secret ns : String)
      → IsChangeOf namespace secret
      → (rs : List AgReplicaSpec) → is_replica_secret secret rs ≡ false
      → All (λ replica. IsUnaffected ns replica.server) rs
  unfolding is_replica_secret
  All-IsUnaffected namespace secret ns change [] none_used = tt
  All-IsUnaffected namespace secret ns change (r ∷ rs) none_used =
      let (unused, others_unused) =
        neither (is_secret_of secret r.server) (is_replica_secret secret rs) none_used in
      (
        get_credentials-IsUnaffected namespace secret ns r.server change unused,
        All-IsUnaffected namespace secret ns change rs others_unused,
      )

  -- If the objects listed for the namespace of a secret include a group, and if nothing but that secret
  -- changes at the API server, then either the group is among the requests of the change, or the
  -- credentials of each of its replicas are the same as before.
  pub map_secret_to_ags-covers :
      (list : String → W → Result (List AvailabilityGroup) × W) (namespace secret : String) (w : W)
      (items : List AvailabilityGroup) (ag : AvailabilityGroup)
      → (list namespace w).0 ≡ ok items
      → In ag items
      → IsChangeOf namespace secret
      → In (request_of ag.meta) (map_secret_to_ags list namespace secret w).0
        ⊎ All (λ replica. IsUnaffected ag.meta.namespace replica.server) ag.spec.replicas
  unfolding map_secret_to_ags map_secret
  map_secret_to_ags-covers list namespace secret w items ag found here change =
      elim (Bool-cases (is_replica_secret secret ag.spec.replicas)) [
        | inl e ↦ inl (
            rw (found) (
              requests_for-In (λ a. a.meta) (λ a. is_replica_secret secret a.spec.replicas) ag items
                here e))
        | inr e ↦
            inr (All-IsUnaffected namespace secret ag.meta.namespace change ag.spec.replicas e)
      ]
