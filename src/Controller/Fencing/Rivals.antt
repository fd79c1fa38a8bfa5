-- ===== src/Controller/Fencing/Rivals.antt =====
-- ag_fencing.go, a round with rogues to fence: the last of them is sent a demotion, once it can be
-- reached; and with primaries of three names there always is a rogue.
use mssql_k8s_operator.Prelude.{
  String, Bool, true, false, List, [], ◌∷◌, string_eq, nat_eq, int_eq, bool_eq, ℤ, ◌≡◌, ◌≢◌, refl,
  ◌⊎◌, inl, inr, arith, eq_iff, All, In,
}
use mssql_k8s_operator.Api.Meta.{
  reason_fencing_executed, reason_hard_fencing_executed, reason_fencing_failed,
  reason_split_brain_detected,
}
use mssql_k8s_operator.Controller.Fencing.Breaker.{is_exhausted-other, select_rogues-ne-nil}
use mssql_k8s_operator.Controller.Fencing.Safety.{
  step_down, Rogue, select_rogues-Rogue, leave, Demotes,
}
use mssql_k8s_operator.Sql.Client.{set_ag_role_secondary, drop_ag, SqlCall, Endpoint}
use mssql_k8s_operator.Controller.Helpers.{
  exec, endpoint_of, connect_to_sql, read_credentials, get_credentials_from_secret,
}
use mssql_k8s_operator.Controller.Effect.{
  ◌>>◌, normal, warning, err, event, pure, sql, note, on_result, Result, for_each, ok, St, Action,
}
use mssql_k8s_operator.Controller.Env.{Secret}
use mssql_k8s_operator.Controller.Fencing.Steps.{
  is_hard, set_pod_role_label, collect_replica_lsns, fence_replica, connect_to_replica,
}
use mssql_k8s_operator.Api.AvailabilityGroup.{AgReplicaSpec, AvailabilityGroup}
use mssql_k8s_operator.Controller.Fencing.Detect.{
  count_fencing, record_fencing, fence_rogue, resolve_rogues, select_rogues, cooldown_of, resolve,
  last_rogue,
}
use mssql_k8s_operator.Controller.Fencing.{role_secondary, elect, AgWrite, AgEnv}

-- Of three different names, one differs from both of two given names.
one_of_three :
    (a b c x y : String)
    → a ≢ b
    → a ≢ c
    → b ≢ c
    → ((a ≢ x) × (a ≢ y)) ⊎ (((b ≢ x) × (b ≢ y)) ⊎ ((c ≢ x) × (c ≢ y)))
one_of_three a b c x y ab ac bc =
    ground (arith, eq_iff a x, eq_iff a y, eq_iff b x, eq_iff b y, eq_iff c x, eq_iff c y)

last_rogue-All :
    (P : AgReplicaSpec → Type 0) (r : AgReplicaSpec) (rs : List AgReplicaSpec)
    → All P (r ∷ rs)
    → P (last_rogue r rs)
unfolding last_rogue
last_rogue-All P r [] h = h.0
last_rogue-All P r (q ∷ qs) h = last_rogue-All P q qs h.1

module _ {W : Type 0} (env : AgEnv W) (ag : AvailabilityGroup) where
  -- The log has a statement that was sent to the host of the replica and demotes it.
  abbrev pub IsDemoted : AgReplicaSpec → List (Action AgWrite) → Type 0
  IsDemoted r log =
      (conn : Endpoint) × (call : SqlCall) × (conn.host ≡ r.server.host)
      × (Demotes ag.spec.ag_name call)
      × (In (Action.sql conn call) log)

  -- Every secret of the group's namespace holds credentials, and every connection opens.
  abbrev pub IsReachable : Type 0
  IsReachable =
      ((name : String) (w : W)
        → (secret : Secret) × (pair : String × String) × ((env.base.get_secret ag.meta.namespace
              name w).0
            ≡ ok secret)
          × (read_credentials secret ≡ ok pair))
      × ((endpoint : Endpoint) (w : W) → (env.base.connect endpoint w).0 ≡ ok tt)

  connect_to_replica-ok :
      IsReachable
      → (r : AgReplicaSpec) (s : St W AgWrite)
      → (conn : Endpoint) × (conn.host ≡ r.server.host)
        × ((connect_to_replica env ag r s).0 ≡ ok conn)
  unfolding connect_to_replica get_credentials_from_secret connect_to_sql endpoint_of
  connect_to_replica-ok reachable r s =
      let name = r.server.credentials_secret.name in
      let (secret, pair, fetched, read) = reachable.0 name s.outside in
      let conn = endpoint_of r.server pair.0 pair.1 in
      (
        conn,
        refl,
        rw
            (
              fetched,
              read,
              reachable.1 conn (env.base.get_secret ag.meta.namespace name s.outside).1,
            )
            refl,
      )

  -- What is reported of a statement leaves it in the log.
  In-noted :
      (act told : Action AgWrite) (r : Result (Unit {0})) (t : St W AgWrite)
      → In act t.log
      → In act (on_result r (λ e. pure (err e)) (λ u. do note told; pure (ok u)) t).1.log
  In-noted act told (ok u) t h = inr h
  In-noted act told (err e) t h = h

  In-warned :
      (act told : Action AgWrite) (r : Result (Unit {0})) (t : St W AgWrite)
      → In act t.log
      → In act (on_result r (λ e. note told) pure t).1.log
  In-warned act told (ok u) t h = h
  In-warned act told (err e) t h = inr h

  -- Fencing sends a demotion, whether or not the server accepts it, and reports what came of it.
  fence_replica-demotes :
      IsReachable
      → (r : AgReplicaSpec) (hard : Bool) (s : St W AgWrite)
      → IsDemoted r (fence_replica env ag r hard s).1.log
  unfolding fence_replica
  fence_replica-demotes reachable r true s =
      let (conn, host, opened) = connect_to_replica-ok reachable r s in
      let connected = (connect_to_replica env ag r s).1 in
      let call = drop_ag ag.spec.ag_name in
      rw opened (
        conn,
        call,
        host,
        leave,
        In-noted (sql conn call) (event warning reason_hard_fencing_executed)
            (exec env.base conn call connected).0 (exec env.base conn call connected).1 (inl refl),
      )
  fence_replica-demotes reachable r false s =
      let (conn, host, opened) = connect_to_replica-ok reachable r s in
      let connected = (connect_to_replica env ag r s).1 in
      let call = set_ag_role_secondary ag.spec.ag_name in
      rw opened (
        conn,
        call,
        host,
        step_down,
        In-noted (sql conn call) (event normal reason_fencing_executed)
            (exec env.base conn call connected).0 (exec env.base conn call connected).1 (inl refl),
      )

  fence_rogue-demotes :
      IsReachable
      → (d : ℤ) (r : AgReplicaSpec) (s : St W AgWrite)
      → IsDemoted r (fence_rogue env ag d r s).1.log
  unfolding fence_rogue
  fence_rogue-demotes reachable d r s =
      let labelled = (set_pod_role_label env ag r.server_name role_secondary s).1 in
      let (hard, asked) = is_hard env ag d r labelled in
      let (conn, call, host, demotes, sent) = fence_replica-demotes reachable r hard asked in
      (
        conn,
        call,
        host,
        demotes,
        In-warned (sql conn call) (event warning reason_fencing_failed)
            (fence_replica env ag r hard asked).0 (fence_replica env ag r hard asked).1 sent,
      )

  fence_rogues-demote_last :
      IsReachable
      → (d : ℤ) (r : AgReplicaSpec) (rs : List AgReplicaSpec) (s : St W AgWrite)
      → IsDemoted (last_rogue r rs) (for_each (r ∷ rs) (fence_rogue env ag d) s).1.log
  unfolding for_each last_rogue
  fence_rogues-demote_last reachable d r [] s = fence_rogue-demotes reachable d r s
  fence_rogues-demote_last reachable d r (q ∷ qs) s =
      fence_rogues-demote_last reachable d q qs (fence_rogue env ag d r s).1

  -- the replica that the status records as the one fenced last is a rogue, and was sent a demotion
  abbrev pub HasFenced : (Bool × AvailabilityGroup) × St W AgWrite → Type 0
  HasFenced round =
      (round.0.0 ≡ true)
      × (r : AgReplicaSpec) × In r ag.spec.replicas
      × (round.0.1.status.last_fenced_replica ≡ r.server_name)
      × (r.server_name ≢ round.0.1.status.primary_replica)
      × IsDemoted r round.1.log

  resolve_rogues-HasFenced :
      IsReachable
      → (d : ℤ) (legitimate : AgReplicaSpec) (rogues : List AgReplicaSpec) (s : St W AgWrite)
      → rogues ≢ []
      → All (Rogue ag legitimate.server_name) rogues
      → HasFenced (resolve_rogues env ag d legitimate rogues s)
  unfolding resolve_rogues record_fencing count_fencing
  resolve_rogues-HasFenced reachable d legitimate [] s h rogue = absurd (h refl)
  resolve_rogues-HasFenced reachable d legitimate (r ∷ rs) s h rogue =
      let told = record s { log = event warning reason_split_brain_detected ∷ s.log } in
      let (inside, other) = last_rogue-All (Rogue ag legitimate.server_name) r rs rogue in
      let (conn, call, host, demotes, sent) = fence_rogues-demote_last reachable d r rs told in
      (refl, last_rogue r rs, inside, refl, other, (conn, call, host, demotes, inr sent))

  -- With primaries of three different names, all of them replicas of the group, and if the group's
  -- secrets hold credentials and connections open, every round fences: whatever the counters, the clock
  -- and the cool-down are, the status afterwards records a replica of the group as fenced last that is
  -- not the primary the status then names, and this round has sent a demotion of the group to its host.
  pub resolve_three_primaries :
      IsReachable
      → (a b c first : AgReplicaSpec) (others : List AgReplicaSpec) (s : St W AgWrite)
      → All (λ p. In p ag.spec.replicas) (first ∷ others)
      → In a (first ∷ others)
      → In b (first ∷ others)
      → In c (first ∷ others)
      → a.server_name ≢ b.server_name
      → a.server_name ≢ c.server_name
      → b.server_name ≢ c.server_name
      → HasFenced (resolve env ag first others s)
  unfolding resolve
  resolve_three_primaries reachable a b c first others s inside ia ib ic ab ac bc =
      let d = cooldown_of env ag in
      let found = collect_replica_lsns env ag (first ∷ others) [] s in
      let legitimate = elect ag.status.primary_replica found.0 first others in
      let chosen = select_rogues env ag d legitimate (first ∷ others) found.1 in
      let found_rogue =
        λ (p : AgReplicaSpec) (i : In p (first ∷ others))
            (h : (p.server_name ≢ legitimate.server_name)
              × (p.server_name ≢ ag.status.last_fenced_replica)).
          select_rogues-ne-nil env ag d legitimate p (first ∷ others) found.1 i h.0
            (λ t. is_exhausted-other env ag d p t h.1) in
      resolve_rogues-HasFenced reachable d legitimate chosen.0 chosen.1
        (elim (one_of_three a.server_name b.server_name c.server_name legitimate.server_name
          ag.status.last_fenced_replica ab ac bc) [
            | inl x ↦ found_rogue a ia x
            | inr (inl y) ↦ found_rogue b ib y
            | inr (inr z) ↦ found_rogue c ic z
          ])
        (select_rogues-Rogue env ag d legitimate (first ∷ others) found.1 inside)
