-- ===== src/Webhook/Defaults.antt =====
-- The defaults of an availability group: once set they stay, and what the validator makes of them.
use mssql_k8s_operator.Webhook.AvailabilityGroup.Accept.{validate_ag_lem, IsReplicaComplete}
use mssql_k8s_operator.Api.AvailabilityGroup.{
  availability_mode_synchronous, failover_mode_automatic, availability_mode_asynchronous,
  AvailabilityGroup, AgListenerSpec, AgReplicaSpec,
}
use mssql_k8s_operator.Webhook.AvailabilityGroup.{
  validate_ag, default_listener, default_ag, default_replica,
}
use mssql_k8s_operator.Webhook.Checks.{default_to, default_text}
use mssql_k8s_operator.Prelude.{
  String, Option, none, some, List, [], ◌∷◌, map, string_eq, nat_eq, int_eq, bool_eq, ◌≡◌, ◌≢◌,
  refl, ap, arith, eq_iff, All,
}

pub default_to-idempotent :
    {A : Type 0} (a : A) (o : Option A) → default_to a (default_to a o) ≡ default_to a o
default_to-idempotent a none = refl
default_to-idempotent a (some b) = refl

pub default_text-idempotent : (a t : String) → default_text a (default_text a t) ≡ default_text a t
default_text-idempotent a t = ground (arith, eq_iff t "", eq_iff a "")

pub default_replica-idempotent :
    (r : AgReplicaSpec) → default_replica (default_replica r) ≡ default_replica r
unfolding default_replica
default_replica-idempotent r = simp (default_to-idempotent, default_text-idempotent)

pub default_listener-idempotent :
    (l : Option AgListenerSpec) → default_listener (default_listener l) ≡ default_listener l
unfolding default_listener
default_listener-idempotent none = refl
default_listener-idempotent (some l) = simp default_to-idempotent

pub map-default_replica-idempotent :
    (rs : List AgReplicaSpec)
    → map default_replica (map default_replica rs) ≡ map default_replica rs
map-default_replica-idempotent [] = refl
map-default_replica-idempotent (r ∷ rs) =
    simp (default_replica-idempotent, map-default_replica-idempotent rs)

-- Defaulting an availability group a second time changes nothing.
pub default_ag-idempotent : (r : AvailabilityGroup) → default_ag (default_ag r) ≡ default_ag r
unfolding default_ag
default_ag-idempotent r =
    simp (default_to-idempotent, map-default_replica-idempotent, default_listener-idempotent)

pub IsReplicaComplete→is_stated :
    (r : AgReplicaSpec)
    → IsReplicaComplete (default_replica r)
    → r.availability_mode ≡ availability_mode_asynchronous
    → r.failover_mode ≢ ""
unfolding default_replica
IsReplicaComplete→is_stated r h e f =
    h.1.1.1 (ap (default_text failover_mode_automatic) f)
      (ap (default_text availability_mode_synchronous) e)

pub All-is_stated :
    (rs : List AgReplicaSpec)
    → All IsReplicaComplete (map default_replica rs)
    → All (λ r. r.availability_mode ≡ availability_mode_asynchronous → r.failover_mode ≢ "") rs
All-is_stated [] h = tt
All-is_stated (r ∷ rs) h = (IsReplicaComplete→is_stated r h.0, All-is_stated rs h.1)

-- If the validator accepts a group after defaulting, then each of its asynchronous replicas states a
-- failover mode: the default for a missing one is the mode that such a replica may not have.
pub default_ag-states_async :
    (r : AvailabilityGroup)
    → validate_ag (default_ag r) ≡ []
    → All
        (λ s. s.availability_mode ≡ availability_mode_asynchronous → s.failover_mode ≢ "")
        r.spec.replicas
unfolding default_ag
default_ag-states_async r h =
    All-is_stated r.spec.replicas ((validate_ag_lem (default_ag r)).0 h).are_replicas_complete
