-- ===== src/Controller/Fencing/Outcome.antt =====
-- ag_fencing.go, detectAndResolveSplitBrain as a whole, from an empty log.
use mssql_k8s_operator.Controller.Effect.Keeps.{keeps_rules, Keeps}
use mssql_k8s_operator.Controller.Fencing.Election.{elect-maximal}
use mssql_k8s_operator.Controller.Fencing.Quiet.{
  failover_running-Keeps, collect_replica_roles-Keeps, collect_replica_lsns-Keeps,
  select_rogues-Keeps,
}
use mssql_k8s_operator.Controller.Fencing.Steps.{
  collect_replica_roles, set_pod_role_label, update_replica_role_labels_from_ag,
  collect_replica_lsns,
}
use mssql_k8s_operator.Controller.Fencing.Safety.{
  select_rogues-Rogue, resolve_rogues-Keeps, resolve_rogues-result, Spares,
}
use mssql_k8s_operator.Controller.Fencing.Detect.{
  is_managed_cluster, detect_and_resolve_split_brain, failover_running, record_fencing,
  resolve_primaries, resolve_rogues, select_rogues, cooldown_of, resolve,
}
use mssql_k8s_operator.Controller.Effect.{event, write, sql, Action, St}
use mssql_k8s_operator.Api.AvailabilityGroup.{AvailabilityGroup, AgReplicaSpec}
use mssql_k8s_operator.Prelude.{
  ℤ, false, subst, String, Bool, true, List, [], ◌∷◌, ◌==◌, string_eq, nat_eq, int_eq, bool_eq, ◌≡◌,
  refl, sym, inl, inr, All, In, Bool-cases, lookup_or,
}
use mssql_k8s_operator.Controller.Fencing.{elect, primaries_of, AgEnv, AgWrite}

-- no statement that changes a server
abbrev pub NoSql : Action AgWrite → Type 0
NoSql (sql conn call) = ⊥
NoSql (write w) = Unit
NoSql (event type reason) = Unit

-- The state in which a reconciler starts.
abbrev pub start_from : {W : Type 0} → W → St W AgWrite
start_from w = record { outside = w; log = [] }

primaries_of-In :
    (roles : List (String × String)) (xs all : List AgReplicaSpec)
    → All (λ x. In x all) xs
    → All (λ x. In x all) (primaries_of roles xs)
unfolding primaries_of
primaries_of-In roles [] all h = tt
primaries_of-In roles (x ∷ xs) all h =
    elim (Bool-cases (lookup_or "" x.server_name roles == "PRIMARY")) [
      | inl y ↦ rw y (h.0, primaries_of-In roles xs all h.1)
      | inr n ↦ rw n (primaries_of-In roles xs all h.1)
    ]

All-weaken :
    (xs : List AgReplicaSpec) (y : AgReplicaSpec) (all : List AgReplicaSpec)
    → All (λ x. In x all) xs
    → All (λ x. In x (y ∷ all)) xs
All-weaken [] y all h = tt
All-weaken (x ∷ xs) y all h = (inr h.0, All-weaken xs y all h.1)

All-In-self : (xs : List AgReplicaSpec) → All (λ x. In x xs) xs
All-In-self [] = tt
All-In-self (x ∷ xs) = (inl refl, All-weaken xs x xs (All-In-self xs))

In-All :
    (P : AgReplicaSpec → Type 0) (xs : List AgReplicaSpec) (x : AgReplicaSpec)
    → All P xs
    → In x xs
    → P x
In-All P [] x h m = absurd m
In-All P (y ∷ ys) x h (inl e) = subst P (sym e) h.0
In-All P (y ∷ ys) x h (inr m) = In-All P ys x h.1 m

-- The primary that a fencing leaves in the status is spared by all that was done, and is a replica
-- of the group.
abbrev pub Spared :
    {W : Type 0} → AvailabilityGroup → (Bool × AvailabilityGroup) × St W AgWrite → Type 0
Spared ag r =
    All (Spares ag r.0.1.status.primary_replica) r.1.log
    × (x : AgReplicaSpec) × In x ag.spec.replicas
    × (x.server_name ≡ r.0.1.status.primary_replica)

module _ {W : Type 0} (env : AgEnv W) (ag : AvailabilityGroup) where
  resolve-Spared :
      (first : AgReplicaSpec) (others : List AgReplicaSpec) (s : St W AgWrite)
      → s.log ≡ []
      → All (λ x. In x ag.spec.replicas) (first ∷ others)
      → (resolve env ag first others s).0.0 ≡ true
      → Spared ag (resolve env ag first others s)
  unfolding resolve
  resolve-Spared first others s empty mem fenced =
      let d = cooldown_of env ag in
      let found = collect_replica_lsns env ag (first ∷ others) [] s in
      let legitimate = elect ag.status.primary_replica found.0 first others in
      let chosen = select_rogues env ag d legitimate (first ∷ others) found.1 in
      let same = resolve_rogues-result env ag d legitimate chosen.0 chosen.1 fenced in
      let nothing : All (Spares ag legitimate.server_name) s.log = rw empty tt in
      let done =
        (resolve_rogues-Keeps env ag d legitimate chosen.0
            (select_rogues-Rogue env ag d legitimate (first ∷ others) found.1 mem)).at
          chosen.1
          ((select_rogues-Keeps env ag d legitimate (first ∷ others)).at found.1
            ((collect_replica_lsns-Keeps env ag (first ∷ others) []).at s nothing)) in
      (
        rw same done,
        legitimate,
        In-All (λ x. In x ag.spec.replicas) (first ∷ others) legitimate mem
            (elect-maximal ag.status.primary_replica found.0 first others).0,
        sym same,
      )

  resolve_rogues-quiet :
      (d : ℤ) (legitimate : AgReplicaSpec) (rogues : List AgReplicaSpec) (s : St W AgWrite)
      → All NoSql s.log
      → (resolve_rogues env ag d legitimate rogues s).0.0 ≡ false
      → All NoSql (resolve_rogues env ag d legitimate rogues s).1.log
  unfolding resolve_rogues record_fencing
  resolve_rogues-quiet d legitimate [] s l h = (tt, l)
  resolve_rogues-quiet d legitimate (r ∷ rs) s l h = cc

  resolve-quiet :
      (first : AgReplicaSpec) (others : List AgReplicaSpec) (s : St W AgWrite)
      → All NoSql s.log
      → (resolve env ag first others s).0.0 ≡ false
      → All NoSql (resolve env ag first others s).1.log
  unfolding resolve
  resolve-quiet first others s l h =
      let d = cooldown_of env ag in
      let found = collect_replica_lsns env ag (first ∷ others) [] s in
      let legitimate = elect ag.status.primary_replica found.0 first others in
      let chosen = select_rogues env ag d legitimate (first ∷ others) found.1 in
      resolve_rogues-quiet d legitimate chosen.0 chosen.1
        ((select_rogues-Keeps env ag d legitimate (first ∷ others)).at found.1
          ((collect_replica_lsns-Keeps env ag (first ∷ others) []).at s l))
        h

module _ {W : Type 0} (env : AgEnv W) where
  set_pod_role_label-NoSql :
      (ag : AvailabilityGroup) (pod role : String)
      → Keeps NoSql (set_pod_role_label env ag pod role)
  unfolding set_pod_role_label
  set_pod_role_label-NoSql ag pod role = search keeps_rules depth 8

  update_labels-NoSql :
      (ag : AvailabilityGroup) (primary : String)
      → Keeps NoSql (update_replica_role_labels_from_ag env ag primary)
  unfolding update_replica_role_labels_from_ag
  update_labels-NoSql ag primary = search (keeps_rules, set_pod_role_label-NoSql)

  resolve_primaries-quiet :
      (ag : AvailabilityGroup) (ps : List AgReplicaSpec) (s : St W AgWrite)
      → All NoSql s.log
      → (resolve_primaries env ag ps s).0.0 ≡ false
      → All NoSql (resolve_primaries env ag ps s).1.log
  unfolding resolve_primaries
  resolve_primaries-quiet ag [] s l h = l
  resolve_primaries-quiet ag (p ∷ q ∷ ps) s l h = resolve-quiet env ag p (q ∷ ps) s l h
  resolve_primaries-quiet ag (p ∷ []) s l h =
      let ag' = record ag { status = record (ag.status) { primary_replica = p.server_name } } in
      elim (Bool-cases (p.server_name == ag.status.primary_replica)) [
        | inl same ↦ rw same l
        | inr other ↦ rw other (tt, (update_labels-NoSql ag' p.server_name).at s l)
      ]

  resolve_primaries-Spared :
      (ag : AvailabilityGroup) (ps : List AgReplicaSpec) (s : St W AgWrite)
      → s.log ≡ []
      → All (λ x. In x ag.spec.replicas) ps
      → (resolve_primaries env ag ps s).0.0 ≡ true
      → Spared ag (resolve_primaries env ag ps s)
  unfolding resolve_primaries
  resolve_primaries-Spared ag [] s e mem h = cc
  resolve_primaries-Spared ag (p ∷ q ∷ ps) s e mem h = resolve-Spared env ag p (q ∷ ps) s e mem h
  resolve_primaries-Spared ag (p ∷ []) s e mem h =
      elim (Bool-cases (p.server_name == ag.status.primary_replica)) [
        | inl same ↦ cc (rw same at h)
        | inr other ↦ cc (rw other at h)
      ]

nil_of_none : {Write : Type 0} (l : List (Action Write)) → All (λ _. ⊥) l → l ≡ []
nil_of_none [] h = refl
nil_of_none (a ∷ l) h = absurd h.0

-- After the guards and the roles, the log is as it was: only questions were asked.
module _ {W : Type 0} (env : AgEnv W) (ag : AvailabilityGroup) (w : W) where
  abbrev pub asked_failovers : Bool × St W AgWrite
  asked_failovers = failover_running env ag (start_from w)

  abbrev pub asked_roles : List (String × String) × St W AgWrite
  asked_roles = collect_replica_roles env ag ag.spec.replicas [] asked_failovers.1

  pub log-asked_roles : asked_roles.1.log ≡ []
  log-asked_roles = nil_of_none asked_roles.1.log (
      (collect_replica_roles-Keeps env ag ag.spec.replicas []).at asked_failovers.1
        ((failover_running-Keeps env ag).at (start_from w) tt))

  -- When a round has fenced, every SQL statement it sent went to the host of a replica of the group
  -- other than the primary that the status now names, and only demoted it; the labels it wrote made
  -- other pods secondaries; and the primary that the status now names is a replica of the group.
  pub detect-spares_primary :
      (detect_and_resolve_split_brain env ag (start_from w)).0.0 ≡ true
      → Spared ag (detect_and_resolve_split_brain env ag (start_from w))
  unfolding detect_and_resolve_split_brain
  detect-spares_primary h = elim (Bool-cases (ag.status.primary_replica == "")) [
    | inl unknown ↦ cc (rw unknown at h)
    | inr known ↦ rw known (elim (Bool-cases (is_managed_cluster ag)) [
      | inl managed ↦ cc (rw (known, managed) at h)
      | inr alone ↦ rw alone (elim (Bool-cases asked_failovers.0) [
        | inl running ↦ cc (rw (known, alone, running) at h)
        | inr idle ↦ rw idle (
            resolve_primaries-Spared env ag (primaries_of asked_roles.0 ag.spec.replicas)
              asked_roles.1 log-asked_roles
              (primaries_of-In asked_roles.0 ag.spec.replicas ag.spec.replicas
                (All-In-self ag.spec.replicas))
              (rw (known, alone, idle) at h))
      ])
    ])
  ]

  -- When a round has not fenced, it has sent no statement that changes a server.
  pub detect-quiet :
      (detect_and_resolve_split_brain env ag (start_from w)).0.0 ≡ false
      → All NoSql (detect_and_resolve_split_brain env ag (start_from w)).1.log
  unfolding detect_and_resolve_split_brain
  detect-quiet h = elim (Bool-cases (ag.status.primary_replica == "")) [
    | inl unknown ↦ rw unknown tt
    | inr known ↦ rw known (elim (Bool-cases (is_managed_cluster ag)) [
      | inl managed ↦ rw managed tt
      | inr alone ↦ rw alone (elim (Bool-cases asked_failovers.0) [
        | inl running ↦ rw running ((failover_running-Keeps env ag).at (start_from w) tt)
        | inr idle ↦ rw idle (
            resolve_primaries-quiet env ag (primaries_of asked_roles.0 ag.spec.replicas)
              asked_roles.1 (rw log-asked_roles tt) (rw (known, alone, idle) at h))
      ])
    ])
  ]
