-- ===== src/Controller/Permission/Moved.antt =====
-- A permission that moves from the grants to the denials. Step 9 looks at the state that was observed
-- before steps 7 and 8, and REVOKE removes a denial as well as a grant.
use mssql_k8s_operator.Controller.Permission.Sent.{
  apply_entries-sends, revoke_undesired-Follows, apply_entries-ok, is_undesired, Follows,
}
use mssql_k8s_operator.Controller.Permission.Observed.{
  In-lookup, lookup-desired_of, current_set-lookup, key_of_state, IsAlone, key_of,
}
use mssql_k8s_operator.Prelude.{
  subst, String, true, false, some, List, [], string_eq, nat_eq, int_eq, bool_eq, ◌≡◌, ◌≢◌, refl,
  All, In, lookup,
}
use mssql_k8s_operator.Controller.Object.{ObjectWrite}
use mssql_k8s_operator.Api.Objects.{Permission, PermissionEntry}
use mssql_k8s_operator.Controller.Permission.{
  apply_permissions, is_state, apply_entries, current_set, PermissionEnv,
}
use mssql_k8s_operator.Controller.Effect.{St, ok, Action}
use mssql_k8s_operator.Sql.Client.{
  grant_permission, deny_permission, revoke_permission, SqlCall, Endpoint, PermissionState,
}

-- If the specification denies an entry and grants none of its key, the server reports the same key
-- once, as granted, its calls succeed, and Go visits every entry of a map that it ranges over: then
-- steps 6 to 9 of a reconciliation send the denial of the entry, and at some time after it the
-- revocation of what the server reported.
pub apply_permissions-revokes_denied :
    {W : Type 0} (env : PermissionEnv W) (client : Endpoint) (perm : Permission)
    (observed : List PermissionState) (entry : PermissionEntry) (cur : PermissionState) (w : W)
    → ((call : SqlCall) (v : W) → (env.object.base.exec client call v).0 ≡ ok tt)
    → ((entries : List (String × PermissionState)) (e : String × PermissionState)
        → In e entries
        → In e (env.range_map entries))
    → In entry perm.spec.denies
    → All (λ g. key_of env g ≢ key_of env entry) perm.spec.grants
    → In cur observed
    → IsAlone env cur observed
    → key_of_state env cur ≡ key_of env entry
    → cur.state ≡ "GRANT"
    → Follows
        (Action.sql client
          (revoke_permission perm.spec.database_name cur.permission cur.target perm.spec.user_name))
        (Action.sql client
          (deny_permission perm.spec.database_name entry.permission entry.on perm.spec.user_name))
        (apply_permissions env client perm observed (record { outside = w; log = [] })).1.log
unfolding apply_permissions
apply_permissions-revokes_denied {W = W} env client perm observed entry cur w succeeds visits denied
      ungranted inside alone same granted =
    let start : St W (ObjectWrite Permission) = record { outside = w; log = [] } in
    let current = current_set env [] observed in
    let found : lookup (key_of env entry) current ≡ some cur =
      subst (λ k. lookup k current ≡ some cur) same
        (current_set-lookup env cur [] observed inside alone) in
    let grant : String → String → SqlCall =
      λ p t. grant_permission perm.spec.database_name p t perm.spec.user_name in
    let deny : String → String → SqlCall =
      λ p t. deny_permission perm.spec.database_name p t perm.spec.user_name in
    let after_grants =
      apply_entries env grant "GRANT" "PermissionGranted" client current perm.spec.grants start in
    let undenied : is_state env "DENY" (lookup (key_of env entry) current) ≡ false =
      rw (found, granted) refl in
    let undesired : is_undesired env client succeeds perm "GRANT" perm.spec.grants
          (key_of env entry) cur
        ≡ true =
      rw (granted, lookup-desired_of env (key_of env entry) perm.spec.grants ungranted) refl in
    rw
      (
        apply_entries-ok env client succeeds grant "GRANT" "PermissionGranted" current
            perm.spec.grants start,
        apply_entries-ok env client succeeds deny "DENY" "PermissionDenied" current perm.spec.denies
            after_grants.1,
      )
      (revoke_undesired-Follows env client succeeds perm (env.range_map current) (key_of env entry)
        cur _ _
        (visits current (key_of env entry, cur) (In-lookup (key_of env entry) cur current found))
        undesired
        (apply_entries-sends env client succeeds deny "DENY" "PermissionDenied" current
          perm.spec.denies entry after_grants.1 denied undenied))
