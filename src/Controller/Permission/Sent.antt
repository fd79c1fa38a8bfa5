-- ===== src/Controller/Permission/Sent.antt =====
-- permission_controller.go: what steps 7 to 9 send while every call succeeds.
use mssql_k8s_operator.Controller.Permission.Observed.{key_of}
use mssql_k8s_operator.Prelude.{
  subst, String, Bool, true, false, ◌&&◌, List, [], ◌∷◌, ◌++◌, ◌==◌, string_eq, nat_eq, int_eq,
  bool_eq, if◌then◌else◌, ◌≡◌, refl, sym, ap, inl, inr, In, Bool-cases, lookup,
}
use mssql_k8s_operator.Controller.Object.{ObjectWrite}
use mssql_k8s_operator.Api.Objects.{Permission, PermissionEntry}
use mssql_k8s_operator.Controller.Permission.{
  revoke_undesired, revoke_entry, is_missing, is_state, apply_entries, desired_of, PermissionEnv,
}
use mssql_k8s_operator.Controller.Effect.{
  normal, err, pure, on_result, ◌>>=◌, St, Result, Run, ok, Action,
}
use mssql_k8s_operator.Sql.Client.{revoke_permission, SqlCall, Endpoint, PermissionState}

-- In the log, whose newest entry stands first: one action was taken at some time after another.
abbrev pub Follows : {Write : Type 0} → Action Write → Action Write → List (Action Write) → Type 0
Follows {Write} later earlier log =
    (after : List (Action Write)) × (before : List (Action Write)) × (log
      ≡ after ++ (later ∷ before))
    × In earlier before

-- While every call succeeds.
module _ {W : Type 0} (env : PermissionEnv W) (client : Endpoint)
    (succeeds : (call : SqlCall) (v : W) → (env.object.base.exec client call v).0 ≡ ok tt) where
  -- a step without error goes on
  goes_on :
      (m : Run W (ObjectWrite Permission) (Result (Unit {0})))
      (k : Run W (ObjectWrite Permission) (Result (Unit {0}))) (s : St W (ObjectWrite Permission))
      → (m s).0 ≡ ok tt
      → (m >>= λ r. on_result r (λ e. pure (err e)) (λ _. k)) s ≡ k (m s).1
  goes_on m k s h = rw h refl

  -- what stays true of a log that grows
  module _ (P : List (Action (ObjectWrite Permission)) → Type 0)
      (grows : (a : Action (ObjectWrite Permission)) (log : List (Action (ObjectWrite Permission)))
        → P log
        → P (a ∷ log)) where
    apply_entries-keeps :
        (statement : String → String → SqlCall) (state reason : String)
        (current : List (String × PermissionState)) (entries : List PermissionEntry)
        (s : St W (ObjectWrite Permission))
        → P s.log
        → P (apply_entries env statement state reason client current entries s).1.log
    unfolding apply_entries
    apply_entries-keeps statement state reason current [] s h = h
    apply_entries-keeps statement state reason current (g ∷ gs) s h =
        elim (Bool-cases (is_state env state (lookup (key_of env g) current))) [
          | inl e ↦ rw e (apply_entries-keeps statement state reason current gs s h)
          | inr e ↦
              rw (e, succeeds (statement g.permission g.on) s.outside)
                (apply_entries-keeps statement state reason current gs _ (grows _ _ (grows _ _ h)))
        ]

    -- one of the two tests of a turn of step 9
    revoke_if-keeps :
        (perm : Permission) (cur : PermissionState) (b : Bool) (s : St W (ObjectWrite Permission))
        → P s.log
        → P ((if b then revoke_entry env client perm cur else pure (ok tt)) s).1.log
    unfolding revoke_entry
    revoke_if-keeps perm cur true s h =
        rw
          (succeeds
            (revoke_permission perm.spec.database_name cur.permission cur.target
              perm.spec.user_name)
            s.outside)
          (grows _ _ (grows _ _ h))
    revoke_if-keeps perm cur false s h = h

  pub apply_entries-ok :
      (statement : String → String → SqlCall) (state reason : String)
      (current : List (String × PermissionState)) (entries : List PermissionEntry)
      (s : St W (ObjectWrite Permission))
      → (apply_entries env statement state reason client current entries s).0 ≡ ok tt
  unfolding apply_entries
  apply_entries-ok statement state reason current [] s = refl
  apply_entries-ok statement state reason current (g ∷ gs) s =
      elim (Bool-cases (is_state env state (lookup (key_of env g) current))) [
        | inl e ↦ rw e (apply_entries-ok statement state reason current gs s)
        | inr e ↦
            rw (e, succeeds (statement g.permission g.on) s.outside)
              (apply_entries-ok statement state reason current gs _)
      ]

  pub apply_entries-sends :
      (statement : String → String → SqlCall) (state reason : String)
      (current : List (String × PermissionState)) (entries : List PermissionEntry)
      (g : PermissionEntry) (s : St W (ObjectWrite Permission))
      → In g entries
      → is_state env state (lookup (key_of env g) current) ≡ false
      → In
          (Action.sql client (statement g.permission g.on))
          (apply_entries env statement state reason client current entries s).1.log
  unfolding apply_entries
  apply_entries-sends statement state reason current [] g s inside h = absurd inside
  apply_entries-sends statement state reason current (x ∷ xs) g s (inl same) h =
      let e : is_state env state (lookup (key_of env x) current) ≡ false = rw (← same) h in
      rw (e, succeeds (statement x.permission x.on) s.outside)
        (apply_entries-keeps (In (Action.sql client (statement g.permission g.on)))
          (λ a log i. inr i) statement state reason current xs _ (inr (inl (rw same refl))))
  apply_entries-sends statement state reason current (x ∷ xs) g s (inr there) h =
      elim (Bool-cases (is_state env state (lookup (key_of env x) current))) [
        | inl e ↦ rw e (apply_entries-sends statement state reason current xs g s there h)
        | inr e ↦
            rw (e, succeeds (statement x.permission x.on) s.outside)
              (apply_entries-sends statement state reason current xs g _ there h)
      ]

  module _ (perm : Permission) where
    abbrev revocation : PermissionState → Action (ObjectWrite Permission)
    revocation cur =
        Action.sql client
          (revoke_permission perm.spec.database_name cur.permission cur.target perm.spec.user_name)

    abbrev revoke_if : PermissionState → Bool → Run W (ObjectWrite Permission) (Result (Unit {0}))
    revoke_if cur b = if b then revoke_entry env client perm cur else pure (ok tt)

    revoke_if-ok :
        (cur : PermissionState) (b : Bool) (s : St W (ObjectWrite Permission))
        → (revoke_if cur b s).0 ≡ ok tt
    unfolding revoke_entry
    revoke_if-ok cur true s =
        rw
          (succeeds
            (revoke_permission perm.spec.database_name cur.permission cur.target
              perm.spec.user_name)
            s.outside)
          refl
    revoke_if-ok cur false s = refl

    -- the tests of a turn of step 9
    abbrev pub is_undesired : String → List PermissionEntry → String → PermissionState → Bool
    is_undesired state desired key cur =
        (cur.state == state) && is_missing env (lookup key (desired_of env desired))

    abbrev granted_turn :
        String → PermissionState → St W (ObjectWrite Permission) → St W (ObjectWrite Permission)
    granted_turn key cur s = (revoke_if cur (is_undesired "GRANT" perm.spec.grants key cur) s).1

    abbrev whole_turn :
        String → PermissionState → St W (ObjectWrite Permission) → St W (ObjectWrite Permission)
    whole_turn key cur s =
        (revoke_if cur (is_undesired "DENY" perm.spec.denies key cur) (granted_turn key cur s)).1

    revoke_undesired-turn :
        (key : String) (cur : PermissionState) (entries : List (String × PermissionState))
        (s : St W (ObjectWrite Permission))
        → revoke_undesired env client perm ((key, cur) ∷ entries) s
          ≡ revoke_undesired env client perm entries (whole_turn key cur s)
    unfolding revoke_undesired
    revoke_undesired-turn key cur entries s =
        rw
          (
            revoke_if-ok cur (is_undesired "GRANT" perm.spec.grants key cur) s,
            revoke_if-ok cur (is_undesired "DENY" perm.spec.denies key cur)
                (granted_turn key cur s),
          )
          refl

    denied_turn-keeps :
        (P : List (Action (ObjectWrite Permission)) → Type 0)
        → ((a : Action (ObjectWrite Permission)) (log : List (Action (ObjectWrite Permission)))
            → P log
            → P (a ∷ log))
        → (key : String) (cur : PermissionState) (s : St W (ObjectWrite Permission))
        → P (granted_turn key cur s).log
        → P (whole_turn key cur s).log
    denied_turn-keeps P grows key cur s h =
        revoke_if-keeps P grows perm cur (is_undesired "DENY" perm.spec.denies key cur)
          (granted_turn key cur s) h

    granted_turn-keeps :
        (P : List (Action (ObjectWrite Permission)) → Type 0)
        → ((a : Action (ObjectWrite Permission)) (log : List (Action (ObjectWrite Permission)))
            → P log
            → P (a ∷ log))
        → (key : String) (cur : PermissionState) (s : St W (ObjectWrite Permission)) → P s.log
        → P (granted_turn key cur s).log
    granted_turn-keeps P grows key cur s h =
        revoke_if-keeps P grows perm cur (is_undesired "GRANT" perm.spec.grants key cur) s h

    revoke_undesired-keeps :
        (P : List (Action (ObjectWrite Permission)) → Type 0)
        → ((a : Action (ObjectWrite Permission)) (log : List (Action (ObjectWrite Permission)))
            → P log
            → P (a ∷ log))
        → (entries : List (String × PermissionState)) (s : St W (ObjectWrite Permission)) → P s.log
        → P (revoke_undesired env client perm entries s).1.log
    unfolding revoke_undesired
    revoke_undesired-keeps P grows [] s h = h
    revoke_undesired-keeps P grows ((key, cur) ∷ entries) s h =
        subst (λ r. P r.1.log) (sym (revoke_undesired-turn key cur entries s))
          (revoke_undesired-keeps P grows entries (whole_turn key cur s)
            (denied_turn-keeps P grows key cur s (granted_turn-keeps P grows key cur s h)))

    Follows-grows :
        (later earlier a : Action (ObjectWrite Permission))
        (log : List (Action (ObjectWrite Permission)))
        → Follows later earlier log
        → Follows later earlier (a ∷ log)
    Follows-grows later earlier a log (after, before, e, i) =
        (a ∷ after, before, ap (λ l. a ∷ l) e, i)

    revoke_entry-Follows :
        (cur : PermissionState) (earlier : Action (ObjectWrite Permission))
        (s : St W (ObjectWrite Permission))
        → In earlier s.log
        → Follows (revocation cur) earlier (revoke_entry env client perm cur s).1.log
    unfolding revoke_entry
    revoke_entry-Follows cur earlier s i =
        rw
          (succeeds
            (revoke_permission perm.spec.database_name cur.permission cur.target
              perm.spec.user_name)
            s.outside)
          (Action.event normal "PermissionRevoked" ∷ [], s.log, refl, i)

    pub revoke_undesired-Follows :
        (entries : List (String × PermissionState)) (key : String) (cur : PermissionState)
        (earlier : Action (ObjectWrite Permission)) (s : St W (ObjectWrite Permission))
        → In (key, cur) entries
        → is_undesired "GRANT" perm.spec.grants key cur ≡ true
        → In earlier s.log
        → Follows (revocation cur) earlier (revoke_undesired env client perm entries s).1.log
    unfolding revoke_undesired
    revoke_undesired-Follows [] key cur earlier s inside undesired i = absurd inside
    revoke_undesired-Follows ((k, p) ∷ entries) key cur earlier s (inl same) undesired i =
        let keeps = Follows-grows (revocation cur) earlier in
        let revoked : Follows (revocation cur) earlier (granted_turn key cur s).log =
          subst (λ b. Follows (revocation cur) earlier (revoke_if cur b s).1.log) (sym undesired)
            (revoke_entry-Follows cur earlier s i) in
        subst
          (λ e.
            Follows (revocation cur) earlier
              (revoke_undesired env client perm (e ∷ entries) s).1.log)
          same
          (subst (λ r. Follows (revocation cur) earlier r.1.log)
            (sym (revoke_undesired-turn key cur entries s))
            (revoke_undesired-keeps (Follows (revocation cur) earlier) keeps entries
              (whole_turn key cur s)
              (denied_turn-keeps (Follows (revocation cur) earlier) keeps key cur s revoked)))
    revoke_undesired-Follows ((k, p) ∷ entries) key cur earlier s (inr there) undesired i =
        subst (λ r. Follows (revocation cur) earlier r.1.log)
          (sym (revoke_undesired-turn k p entries s))
          (revoke_undesired-Follows entries key cur earlier (whole_turn k p s) there undesired (
            denied_turn-keeps (In earlier) (λ a log h. inr h) k p s
              (granted_turn-keeps (In earlier) (λ a log h. inr h) k p s i)))
