-- ===== src/Webhook/AvailabilityGroup/Accept.antt =====
-- When the validator of an availability group accepts it.
use mssql_k8s_operator.Webhook.Checks.{
  accept_rules, errors_of-last, is_empty_iff, errors_of-cons, append_iff, errors_of,
}
use mssql_k8s_operator.Prelude.{ltb, refl, subst}
use mssql_k8s_operator.Webhook.Objects.Accept.{IsServerGiven}
use mssql_k8s_operator.Webhook.AvailabilityGroup.{
  validate_ag_update, validate_ag, replica_tests, is_listener_unnamed, database_errors,
  replica_errors, seen_name,
}
use mssql_k8s_operator.Api.AvailabilityGroup.{
  AgDatabaseSpec, AvailabilityGroup, AgListenerSpec, availability_mode_asynchronous,
  failover_mode_automatic, AgReplicaSpec,
}
use mssql_k8s_operator.Prelude.{
  ℕ, suc, ◌≤◌, String, false, ◌&&◌, Option, none, some, List, [], ◌∷◌, map, ◌==◌, string_eq, nat_eq,
  int_eq, bool_eq, ◌≡◌, ◌≢◌, refl, ◌↔◌, inl, inr, arith, eq_iff, All, In, length,
}

abbrev pub IsDistinct : List String → Type 0
IsDistinct [] = Unit
IsDistinct (n ∷ ns) = ¬ (In n ns) × IsDistinct ns

-- No name stands in `seen`, and none twice.
abbrev pub IsFresh : List String → List String → Type 0
IsFresh seen [] = Unit
IsFresh seen (n ∷ ns) = ¬ (In n seen) × IsFresh (n ∷ seen) ns

pub seen_name_iff :
    (name : String) (seen : List String) → (seen_name name seen ≡ false) ↔ (¬ (In name seen))
seen_name_iff name [] = (λ _ x. x, λ _. refl)
seen_name_iff name (n ∷ seen) = ground (arith, eq_iff name n, seen_name_iff name seen)

pub IsFresh→not-In :
    (seen : List String) (ns : List String) (n : String) → IsFresh seen ns → In n seen → ¬ (In n ns)
IsFresh→not-In seen [] n h i = λ x. x
IsFresh→not-In seen (m ∷ ns) n h i =
    let later = IsFresh→not-In (m ∷ seen) ns n h.1 (inr i) in
    λ w. elim w [ inl e ↦ h.0 (subst (λ x. In x seen) e i) | inr j ↦ later j ]

pub IsFresh→Distinct : (seen ns : List String) → IsFresh seen ns → IsDistinct ns
IsFresh→Distinct seen [] h = tt
IsFresh→Distinct seen (n ∷ ns) h =
    (IsFresh→not-In (n ∷ seen) ns n h.1 (inl refl), IsFresh→Distinct (n ∷ seen) ns h.1)

-- A replica that may stand in a group: named, reachable, and synchronous if its failover is
-- automatic.
abbrev pub IsReplicaComplete : AgReplicaSpec → Type 0
IsReplicaComplete r =
    (r.server_name ≢ "")
    × ((r.endpoint_url ≢ "")
        × (IsServerGiven r.server
            × (r.failover_mode ≡ failover_mode_automatic
                → r.availability_mode ≢ availability_mode_asynchronous)))

pub is_automatic_async_iff :
    (f a : String)
    → (((f == failover_mode_automatic) && (a == availability_mode_asynchronous)) ≡ false)
      ↔ (f ≡ failover_mode_automatic → a ≢ availability_mode_asynchronous)
is_automatic_async_iff f a =
    ground (arith, eq_iff f failover_mode_automatic, eq_iff a availability_mode_asynchronous)

pub replica_tests_lem :
    (i : ℕ) (seen : List String) (r : AgReplicaSpec)
    → (errors_of (replica_tests i seen r) ≡ []) ↔ (
        (r.server_name ≢ "")
        × (¬ (In r.server_name seen)
            × ((r.endpoint_url ≢ "")
                × ((r.server.host ≢ "")
                    × ((r.server.credentials_secret.name ≢ "")
                        × (r.failover_mode ≡ failover_mode_automatic
                            → r.availability_mode ≢ availability_mode_asynchronous))))))
replica_tests_lem i seen r = errors_of-cons _ _ _ (is_empty_iff _) (
    errors_of-cons _ _ _ (seen_name_iff r.server_name seen) (
      errors_of-cons _ _ _ (is_empty_iff _) (
        errors_of-cons _ _ _ (is_empty_iff _) (
          errors_of-cons _ _ _ (is_empty_iff _)
            (errors_of-last _ _ (is_automatic_async_iff r.failover_mode r.availability_mode))))))

pub replica_errors_lem :
    (i : ℕ) (seen : List String) (rs : List AgReplicaSpec)
    → (replica_errors i seen rs ≡ [])
      ↔ (All IsReplicaComplete rs × IsFresh seen (map AgReplicaSpec.server_name rs))
unfolding replica_errors
replica_errors_lem i seen [] = (λ _. (tt, tt), λ _. refl)
replica_errors_lem i seen (r ∷ rs) =
    let both =
      append_iff _ _ (replica_tests_lem i seen r)
        (replica_errors_lem (suc i) (r.server_name ∷ seen) rs) in
    (
      λ e.
          (let p = both.0 e in
            (
              ((p.0.0, (p.0.1.1.0, ((p.0.1.1.1.0, p.0.1.1.1.1.0), p.0.1.1.1.1.1))), p.1.0),
              (p.0.1.0, p.1.1),
            )),
      λ q. both.1 (
        (q.0.0.0, (q.1.0, (q.0.0.1.0, (q.0.0.1.1.0.0, (q.0.0.1.1.0.1, q.0.0.1.1.1))))),
        (q.0.1, q.1.1),
      ),
    )

pub database_errors_lem :
    (i : ℕ) (seen : List String) (dbs : List AgDatabaseSpec)
    → (database_errors i seen dbs ≡ [])
      ↔ (All (λ db. db.name ≢ "") dbs × IsFresh seen (map AgDatabaseSpec.name dbs))
unfolding database_errors
database_errors_lem i seen [] = (λ _. (tt, tt), λ _. refl)
database_errors_lem i seen (db ∷ dbs) =
    let both =
      append_iff _ _
        (errors_of-cons _ _ _ (is_empty_iff db.name)
          (errors_of-last _ _ (seen_name_iff db.name seen)))
        (database_errors_lem (suc i) (db.name ∷ seen) dbs) in
    (
      λ e. (let p = both.0 e in ((p.0.0, p.1.0), (p.0.1, p.1.1))),
      λ q. both.1 ((q.0.0, q.1.0), (q.0.1, q.1.1)),
    )

abbrev pub IsListenerNamed : Option AgListenerSpec → Type 0
IsListenerNamed none = Unit
IsListenerNamed (some l) = l.name ≢ ""

pub is_listener_unnamed_iff :
    (l : Option AgListenerSpec) → (is_listener_unnamed l ≡ false) ↔ IsListenerNamed l
is_listener_unnamed_iff none = (λ _. tt, λ _. refl)
is_listener_unnamed_iff (some l) = is_empty_iff l.name

-- A group that may be created.
pub record IsAgComplete (r : AvailabilityGroup) : Type 0 where
  pub is_named : r.spec.ag_name ≢ ""
  pub has_two : 2 ≤ length r.spec.replicas
  pub are_replicas_complete : All IsReplicaComplete r.spec.replicas
  pub are_replicas_distinct : IsDistinct (map AgReplicaSpec.server_name r.spec.replicas)
  pub are_databases_named : All (λ db. db.name ≢ "") r.spec.databases
  pub are_databases_distinct : IsDistinct (map AgDatabaseSpec.name r.spec.databases)
  pub is_listener_named : IsListenerNamed r.spec.listener

pub Distinct→IsFresh :
    (seen ns : List String)
    → ((n : String) → In n seen → ¬ (In n ns))
    → IsDistinct ns
    → IsFresh seen ns
Distinct→IsFresh seen [] apart h = tt
Distinct→IsFresh seen (n ∷ ns) apart h = (
  λ i. apart n i (inl refl),
  Distinct→IsFresh (n ∷ seen) ns
      (λ m i j. elim i [ inl e ↦ h.0 (subst (λ x. In x ns) e j) | inr k ↦ apart m k (inr j) ]) h.1,
)

pub IsFresh-iff : (ns : List String) → IsFresh [] ns ↔ IsDistinct ns
IsFresh-iff ns = (IsFresh→Distinct [] ns, Distinct→IsFresh [] ns (λ n i j. i))

pub is_short_iff : (n : ℕ) → (ltb n 2 ≡ false) ↔ (2 ≤ n)
is_short_iff n = ground arith

pub validate_ag_lem : (r : AvailabilityGroup) → (validate_ag r ≡ []) ↔ IsAgComplete r
unfolding validate_ag
validate_ag_lem r =
    let whole =
      append_iff _ _
        (errors_of-cons _ _ _ (is_empty_iff r.spec.ag_name)
          (errors_of-last _ _ (is_short_iff (length r.spec.replicas))))
        (append_iff _ _ (replica_errors_lem 0 [] r.spec.replicas) (
          append_iff _ _ (database_errors_lem 0 [] r.spec.databases)
            (errors_of-last _ _ (is_listener_unnamed_iff r.spec.listener)))) in
    let replicas = IsFresh-iff (map AgReplicaSpec.server_name r.spec.replicas) in
    let databases = IsFresh-iff (map AgDatabaseSpec.name r.spec.databases) in
    (
      λ e.
          (let p = whole.0 e in
            record {
              is_named = p.0.0;
              has_two = p.0.1;
              are_replicas_complete = p.1.0.0;
              are_replicas_distinct = replicas.0 p.1.0.1;
              are_databases_named = p.1.1.0.0;
              are_databases_distinct = databases.0 p.1.1.0.1;
              is_listener_named = p.1.1.1;
            }),
      λ c. whole.1 (
        (c.is_named, c.has_two),
        (
          (c.are_replicas_complete, replicas.1 c.are_replicas_distinct),
          ((c.are_databases_named, databases.1 c.are_databases_distinct), c.is_listener_named),
        ),
      ),
    )

-- An update of an availability group is accepted exactly when it keeps the group's name, and the new
-- group is named, has at least two replicas, each complete and none with the name of another, has
-- databases with distinct, non-empty names, and its listener, if there is one, has a name.
pub validate_ag_update_lem :
    (r old : AvailabilityGroup)
    → (validate_ag_update r (some old) ≡ [])
      ↔ ((r.spec.ag_name ≡ old.spec.ag_name) × IsAgComplete r)
unfolding validate_ag_update
validate_ag_update_lem r old = search (accept_rules, validate_ag_lem) depth 10
