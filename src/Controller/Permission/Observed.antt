-- ===== src/Controller/Permission/Observed.antt =====
-- permission_controller.go: what the maps of steps 6 to 9 hold of an observed and of a desired permission.
use mssql_k8s_operator.Prelude.{
  replace_entry, subst, String, Bool, true, false, none, some, List, [], ◌∷◌, ◌==◌, string_eq,
  nat_eq, int_eq, bool_eq, if◌then◌else◌, ◌≡◌, ◌≢◌, refl, ap, ◌∙◌, ◌⊎◌, inl, inr, arith, eq_iff,
  All, In, Bool-cases, lookup,
}
use mssql_k8s_operator.Api.Objects.{PermissionEntry}
use mssql_k8s_operator.Controller.Permission.{
  desired_of, current_set, permission_key, PermissionEnv,
}
use mssql_k8s_operator.Sql.Client.{PermissionState}

lookup-replace_same :
    (k : String) (v : PermissionState) (entries : List (String × PermissionState))
    → lookup k (replace_entry k v entries) ≡ some v
lookup-replace_same k v [] = rw ((eq_iff k k).1 refl) refl
lookup-replace_same k v ((name, old) ∷ entries) = elim (Bool-cases (name == k)) [
  | inl e ↦ rw (e, (eq_iff k k).1 refl) refl
  | inr e ↦ rw (e, e) (lookup-replace_same k v entries)
]

lookup-replace_other :
    (k other : String) (v : PermissionState) (entries : List (String × PermissionState))
    → other ≢ k
    → lookup k (replace_entry other v entries) ≡ lookup k entries
lookup-replace_other k other v [] h =
    let e : (other == k) ≡ false = ground (arith, h, eq_iff other k) in rw e refl
lookup-replace_other k other v ((name, old) ∷ entries) h =
    let e : (other == k) ≡ false = ground (arith, h, eq_iff other k) in
    elim (Bool-cases (name == other)) [
      | inl same ↦
          let e' : (name == k) ≡ false = ground (arith, same, e, eq_iff name other) in
          rw (same, e, e') refl
      | inr differs ↦ elim (Bool-cases (name == k)) [
        | inl here ↦ rw (differs, here) refl
        | inr there ↦ rw (differs, there) (lookup-replace_other k other v entries h)
      ]
    ]

pub In-lookup :
    (k : String) (v : PermissionState) (entries : List (String × PermissionState))
    → lookup k entries ≡ some v
    → In (k, v) entries
In-lookup k v [] h = ground (arith, h)
In-lookup k v ((name, old) ∷ entries) h =
    let found = λ (b : Bool) (e : (name == k) ≡ b).
      subst (λ b. (if b then some old else lookup k entries) ≡ some v) e h in
    elim (Bool-cases (name == k)) [
      | inl e ↦
          let key : name ≡ k = (eq_iff name k).0 e in
          let value : old ≡ v = ap (λ o. elim o [ none ↦ old | some x ↦ x ]) (found true e) in
          inl (rw (key, value) refl)
      | inr e ↦ inr (In-lookup k v entries (found false e))
    ]

module _ {W : Type 0} (env : PermissionEnv W) where
  abbrev pub key_of : PermissionEntry → String
  key_of g = permission_key env g.permission g.on

  abbrev pub key_of_state : PermissionState → String
  key_of_state p = permission_key env p.permission p.target

  pub lookup-desired_of :
      (k : String) (entries : List PermissionEntry)
      → All (λ g. key_of g ≢ k) entries
      → lookup k (desired_of env entries) ≡ none
  unfolding desired_of
  lookup-desired_of k [] h = refl
  lookup-desired_of k (g ∷ gs) h =
      let e : (key_of g == k) ≡ false = ground (arith, h.0, eq_iff (key_of g) k) in
      rw e (lookup-desired_of k gs h.1)

  module _ (cur : PermissionState) where
    -- No other state of the same key is reported.
    abbrev pub IsAlone : List PermissionState → Type 0
    IsAlone observed = All (λ p. (p ≡ cur) ⊎ (key_of_state p ≢ key_of_state cur)) observed

    lookup-current_set :
        (seen : List (String × PermissionState)) (observed : List PermissionState)
        → IsAlone observed
        → lookup (key_of_state cur) seen ≡ some cur
        → lookup (key_of_state cur) (current_set env seen observed) ≡ some cur
    unfolding current_set
    lookup-current_set seen [] alone h = h
    lookup-current_set seen (p ∷ ps) alone h =
        lookup-current_set (replace_entry (key_of_state p) p seen) ps alone.1 (elim (alone.0) [
          | inl same ↦ rw same (lookup-replace_same (key_of_state cur) cur seen)
          | inr other ↦ lookup-replace_other (key_of_state cur) (key_of_state p) p seen other ∙ h
        ])

    pub current_set-lookup :
        (seen : List (String × PermissionState)) (observed : List PermissionState)
        → In cur observed
        → IsAlone observed
        → lookup (key_of_state cur) (current_set env seen observed) ≡ some cur
    unfolding current_set
    current_set-lookup seen [] inside alone = absurd inside
    current_set-lookup seen (p ∷ ps) (inl same) alone =
        lookup-current_set (replace_entry (key_of_state p) p seen) ps alone.1
          (rw (← same) (lookup-replace_same (key_of_state cur) cur seen))
    current_set-lookup seen (p ∷ ps) (inr there) alone =
        current_set-lookup (replace_entry (key_of_state p) p seen) ps there alone.1
