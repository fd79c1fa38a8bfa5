-- ===== src/Controller/Fencing/Breaker.antt =====
-- ag_fencing.go, the circuit-breaker: which rogues it gives up.
use mssql_k8s_operator.Controller.Fencing.Quiet.{select_rogues-Keeps, collect_replica_lsns-Keeps}
use mssql_k8s_operator.Controller.Effect.Keeps.{Keeps}
use mssql_k8s_operator.Controller.Fencing.Outcome.{start_from}
use mssql_k8s_operator.Prelude.{
  subst, ℕ, true, false, some, List, [], ◌∷◌, ◌==◌, string_eq, nat_eq, int_eq, bool_eq, ℤ, pos, ◌≡◌,
  ◌≢◌, refl, sym, ap, ◌∙◌, ◌⊎◌, inl, inr, arith, eq_iff, All, In, Bool-cases,
}
use mssql_k8s_operator.Controller.Effect.{Action, St}
use mssql_k8s_operator.Controller.Fencing.Detect.{
  ready_false, record_fencing, cooldown_of, resolve, resolve_rogues, select_rogues,
}
use mssql_k8s_operator.Controller.Fencing.Steps.{collect_replica_lsns, is_exhausted}
use mssql_k8s_operator.Api.AvailabilityGroup.{AgReplicaSpec, AvailabilityGroup}
use mssql_k8s_operator.Prelude.Int
use mssql_k8s_operator.Controller.Fencing.{ag_status, elect, AgEnv, AgWrite}

module _ {W : Type 0} (env : AgEnv W) (ag : AvailabilityGroup) (d : ℤ) where
  -- A replica that is not the one fenced last is never given up, and neither is one that was fenced
  -- less than five times in a row.
  pub is_exhausted-other :
      (p : AgReplicaSpec) (s : St W AgWrite)
      → p.server_name ≢ ag.status.last_fenced_replica
      → (is_exhausted env ag d p s).0 ≡ false
  unfolding is_exhausted
  is_exhausted-other p s h = ground (arith, eq_iff ag.status.last_fenced_replica p.server_name)

  is_exhausted-fresh :
      (p : AgReplicaSpec) (s : St W AgWrite)
      → Int.leb (pos 5) ag.status.consecutive_fencing_count ≡ false
      → (is_exhausted env ag d p s).0 ≡ false
  unfolding is_exhausted
  is_exhausted-fresh p s fresh =
      elim (Bool-cases (ag.status.last_fenced_replica == p.server_name)) [
        | inl e ↦ rw (e, fresh) refl
        | inr e ↦ rw e refl
      ]

  pub select_rogues-ne-nil :
      (legitimate p : AgReplicaSpec) (ps : List AgReplicaSpec) (s : St W AgWrite)
      → In p ps
      → p.server_name ≢ legitimate.server_name
      → ((t : St W AgWrite) → (is_exhausted env ag d p t).0 ≡ false)
      → (select_rogues env ag d legitimate ps s).0 ≢ []
  unfolding select_rogues
  select_rogues-ne-nil legitimate p [] s m h k = absurd m
  select_rogues-ne-nil legitimate p (q ∷ qs) s (inl e) h k =
      let other : (q.server_name == legitimate.server_name) ≡ false =
        ground (arith, eq_iff q.server_name legitimate.server_name) in
      let open_to : (is_exhausted env ag d q s).0 ≡ false =
        ap (λ r. (is_exhausted env ag d r s).0) (sym e) ∙ k s in
      rw (other, open_to) (λ nil. cc nil)
  select_rogues-ne-nil legitimate p (q ∷ qs) s (inr m) h k =
      elim (Bool-cases (q.server_name == legitimate.server_name)) [
        | inl same ↦ rw same (select_rogues-ne-nil legitimate p qs s m h k)
        | inr other ↦ rw other (elim (Bool-cases (is_exhausted env ag d q s).0) [
          | inl given_up ↦
              rw given_up (select_rogues-ne-nil legitimate p qs (is_exhausted env ag d q s).1 m h k)
          | inr open_to ↦ rw open_to (λ nil. cc nil)
        ])
      ]

  -- While every reading of the clock lies within the cool-down of the last fencing.
  module _ (t : ℕ) (last : ag.status.last_fencing_time ≡ some t)
      (recent : (w : W) → Int.within (env.base.now w).0 t d ≡ true)
      (worn : Int.leb (pos 5) ag.status.consecutive_fencing_count ≡ true) where
    is_exhausted-last :
        (p : AgReplicaSpec) (s : St W AgWrite)
        → p.server_name ≡ ag.status.last_fenced_replica
        → (is_exhausted env ag d p s).0 ≡ true
    unfolding is_exhausted
    is_exhausted-last p s h =
        ground
          (arith, eq_iff ag.status.last_fenced_replica p.server_name, recent s.outside, worn, last)

    select_rogues-nil :
        (legitimate : AgReplicaSpec) (ps : List AgReplicaSpec) (s : St W AgWrite)
        → All
            (λ p.
              (p.server_name ≡ legitimate.server_name)
              ⊎ (p.server_name ≡ ag.status.last_fenced_replica))
            ps
        → (select_rogues env ag d legitimate ps s).0 ≡ []
    unfolding select_rogues
    select_rogues-nil legitimate [] s h = refl
    select_rogues-nil legitimate (p ∷ ps) s h =
        elim (Bool-cases (p.server_name == legitimate.server_name)) [
          | inl same ↦ rw same (select_rogues-nil legitimate ps s h.1)
          | inr other ↦
              let fenced : p.server_name ≡ ag.status.last_fenced_replica =
                ground (arith, h.0, eq_iff p.server_name legitimate.server_name) in
              rw (other, is_exhausted-last p s fenced)
                (select_rogues-nil legitimate ps (is_exhausted env ag d p s).1 h.1)
        ]

-- A run that may log nothing leaves an empty log empty.
abbrev Silent : Action AgWrite → Type 0
Silent a = ⊥

Silent-nil : (log : List (Action AgWrite)) → All Silent log → log ≡ []
Silent-nil [] h = refl
Silent-nil (a ∷ log) h = absurd h.0

module _ {W : Type 0} (env : AgEnv W) (ag : AvailabilityGroup) where
  -- the write of the status that reports the exhaustion of fencing, and changes nothing else
  abbrev pub exhaustion_report : Action AgWrite
  exhaustion_report = Action.write (
      ag_status (record ag.status {
        conditions = env.base.set_status_condition ag.status.conditions (record {
          type = "Ready";
          status = false;
          reason = "FencingExhausted";
          observed_generation = ag.meta.generation;
        });
      }))

  fenced_of_rogues :
      (d : ℤ) (legitimate : AgReplicaSpec) (rogues : List AgReplicaSpec) (s : St W AgWrite)
      → rogues ≢ []
      → (resolve_rogues env ag d legitimate rogues s).0.0 ≡ true
  unfolding resolve_rogues record_fencing
  fenced_of_rogues d legitimate [] s h = absurd (h refl)
  fenced_of_rogues d legitimate (r ∷ rs) s h = refl

  -- With the status' primary elected, all other primaries named like the replica fenced last, and at
  -- least one of these, while the clock stays within the cool-down of the last fencing: from five
  -- fencings in a row on, a round reports that it has not fenced, and all that it does is to write the
  -- status with the condition that fencing is exhausted; below five it reports that it has fenced.
  pub resolve_exhausted :
      (first : AgReplicaSpec) (others : List AgReplicaSpec) (rogue : AgReplicaSpec) (w : W) (t : ℕ)
      → ag.status.last_fencing_time ≡ some t
      → ((v : W) → Int.within (env.base.now v).0 t (cooldown_of env ag) ≡ true)
      → (elect ag.status.primary_replica
          (collect_replica_lsns env ag (first ∷ others) [] (start_from w)).0
          first
          others).server_name
        ≡ ag.status.primary_replica
      → All
          (λ p.
            (p.server_name ≡ ag.status.primary_replica)
            ⊎ (p.server_name ≡ ag.status.last_fenced_replica))
          (first ∷ others)
      → In rogue (first ∷ others)
      → rogue.server_name ≢ ag.status.primary_replica
      → ((Int.leb (pos 5) ag.status.consecutive_fencing_count ≡ true)
          × ((resolve env ag first others (start_from w)).0.0 ≡ false)
          × ((resolve env ag first others (start_from w)).1.log ≡ exhaustion_report ∷ []))
        ⊎ ((Int.leb (pos 5) ag.status.consecutive_fencing_count ≡ false)
            × ((resolve env ag first others (start_from w)).0.0 ≡ true))
  unfolding resolve resolve_rogues ready_false
  resolve_exhausted first others rogue w t last recent kept names inside other =
      let d = cooldown_of env ag in
      let found = collect_replica_lsns env ag (first ∷ others) [] (start_from w) in
      let legitimate = elect ag.status.primary_replica found.0 first others in
      let chosen = select_rogues env ag d legitimate (first ∷ others) found.1 in
      elim (Bool-cases (Int.leb (pos 5) ag.status.consecutive_fencing_count)) [
        | inl worn ↦
            let none_left =
              select_rogues-nil env ag d t last recent worn legitimate (first ∷ others) found.1 (
                subst
                  (λ n.
                    All (λ p. (p.server_name ≡ n) ⊎ (p.server_name ≡ ag.status.last_fenced_replica))
                      (first ∷ others))
                  (sym kept) names) in
            let asked : Keeps Silent (collect_replica_lsns env ag (first ∷ others) []) =
              collect_replica_lsns-Keeps env ag (first ∷ others) [] in
            let picked : Keeps Silent (select_rogues env ag d legitimate (first ∷ others)) =
              select_rogues-Keeps env ag d legitimate (first ∷ others) in
            let nothing_logged =
              Silent-nil chosen.1.log (picked.at found.1 (asked.at (start_from w) tt)) in
            inl (
              worn,
              rw none_left refl,
              rw none_left (ap (λ log. exhaustion_report ∷ log) nothing_logged),
            )
        | inr fresh ↦ inr (
          fresh,
          fenced_of_rogues d legitimate chosen.0 chosen.1 (
              select_rogues-ne-nil env ag d legitimate rogue (first ∷ others) found.1 inside
                (λ e. other (e ∙ kept)) (λ s. is_exhausted-fresh env ag d rogue s fresh)),
        )
      ]
