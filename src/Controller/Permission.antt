-- ===== src/Controller/Permission.antt =====
-- internal/controller/permission_controller.go: the observation, the differences and the clean-up.
pub mod Reconcile
pub mod Observed
pub mod Sent
pub mod Moved
mod Tests
use mssql_k8s_operator.Controller.Helpers.{
  exec, connect_to_sql, get_credentials_from_secret, commit,
}
use mssql_k8s_operator.Api.Meta.{finalizer}
use mssql_k8s_operator.Sql.Client.{
  deny_permission, revoke_permission, grant_permission, SqlCall, PermissionState, Endpoint,
}
use mssql_k8s_operator.Controller.Object.{update, ObjectWrite, ObjectEnv}
use mssql_k8s_operator.Api.Objects.{Permission, PermissionEntry}
use mssql_k8s_operator.Prelude.{
  replace_entry, ℕ, zero, suc, ◌+◌, ◌-◌, ◌≤◌, ◌<◌, String, Bool, true, false, not, ◌&&◌, ◌||◌,
  Option, none, some, List, [], ◌∷◌, ◌++◌, map, ◌==◌, string_eq, nat_eq, int_eq, bool_eq, ℤ, pos,
  negsuc, if◌then◌else◌, ◌≡◌, ◌≢◌, refl, sym, ap, ◌∙◌, ◌⊎◌, ◌↔◌, inl, inr, arith, eq_iff, All, In,
  Bool-cases, Option-cases, lookup, lookup_or, length, take, drop,
}
use Prim.Native.String.{◌++◌ as append_text}
use mssql_k8s_operator.Controller.Effect.{
  normal, Action, note, wrapped, err, ok, on_result, pure, Result, Run, for_each, ◌>>=◌, ◌>>◌,
}

pub record PermissionEnv (W : Type 0) : Type 1 where
  pub object : ObjectEnv W Permission
  -- strings.ToUpper
  pub to_upper : String → String
  -- the order in which Go ranges over the entries of a map
  pub range_map : List (String × PermissionState) → List (String × PermissionState)

module _ {W : Type 0} (env : PermissionEnv W) where
  unfoldable pub permission_key : String → String → String
  permission_key permission target =
      append_text (append_text (env.to_upper permission) "|") (env.to_upper target)

  -- desiredGrants and desiredDenies, of which only the keys are read
  unfoldable pub desired_of : List PermissionEntry → List (String × String)
  unfolding permission_key
  desired_of [] = []
  desired_of (g ∷ gs) = (permission_key g.permission g.on, g.on) ∷ desired_of gs

  -- currentSet: a later entry replaces an earlier one of the same key
  unfoldable pub current_set :
      List (String × PermissionState) → List PermissionState → List (String × PermissionState)
  unfolding permission_key
  current_set seen [] = seen
  current_set seen (p ∷ ps) =
      current_set (replace_entry (permission_key p.permission p.target) p seen) ps

  abbrev pub is_state : String → Option PermissionState → Bool
  is_state state none = false
  is_state state (some p) = p.state == state

  -- step 7, and step 8 with the other statement and state
  unfoldable pub apply_entries :
      (String → String → SqlCall)
      → String
      → String
      → Endpoint
      → List (String × PermissionState)
      → List PermissionEntry
      → Run W (ObjectWrite Permission) (Result (Unit {0}))
  unfolding permission_key
  apply_entries statement state reason client current [] = pure (ok tt)
  apply_entries statement state reason client current (g ∷ gs) =
      let rest = apply_entries statement state reason client current gs in
      if is_state state (lookup (permission_key g.permission g.on) current) then rest else (do
        applied ← exec env.object.base client (statement g.permission g.on)
        on_result applied (λ e. pure (err (wrapped "failed to apply" e)))
            (λ _. (do note (Action.event normal reason); rest)))

  abbrev pub is_missing : {A : Type 0} → Option A → Bool
  is_missing none = true
  is_missing (some a) = false

  unfoldable pub revoke_entry :
      Endpoint → Permission → PermissionState → Run W (ObjectWrite Permission) (Result (Unit {0}))
  revoke_entry client perm cur = do
    revoked ←
        exec env.object.base client
          (revoke_permission perm.spec.database_name cur.permission cur.target perm.spec.user_name)
    on_result revoked (λ e. pure (err (wrapped "failed to revoke" e)))
        (λ _. (do note (Action.event normal "PermissionRevoked"); pure (ok tt)))

  -- step 9, over the state that was observed before steps 7 and 8
  unfoldable pub revoke_undesired :
      Endpoint
      → Permission
      → List (String × PermissionState)
      → Run W (ObjectWrite Permission) (Result (Unit {0}))
  unfolding revoke_entry desired_of
  revoke_undesired client perm [] = pure (ok tt)
  revoke_undesired client perm ((key, cur) ∷ entries) =
      let rest = revoke_undesired client perm entries in
      (do
        granted ←
            (if (cur.state == "GRANT") && is_missing (lookup key (desired_of perm.spec.grants))
              then revoke_entry client perm cur
              else pure (ok tt))
        on_result granted (λ e. pure (err e))
            (λ _. (do
              denied ←
                  (if (cur.state == "DENY") && is_missing (lookup key (desired_of perm.spec.denies))
                    then revoke_entry client perm cur
                    else pure (ok tt))
              on_result denied (λ e. pure (err e)) (λ _. rest))))

  -- steps 6 to 9
  unfoldable pub apply_permissions :
      Endpoint
      → Permission
      → List PermissionState
      → Run W (ObjectWrite Permission) (Result (Unit {0}))
  unfolding apply_entries revoke_undesired current_set
  apply_permissions client perm observed =
      let current = current_set [] observed in
      (do
        granted ←
            apply_entries (λ p t. grant_permission perm.spec.database_name p t perm.spec.user_name)
              "GRANT" "PermissionGranted" client current perm.spec.grants
        on_result granted (λ e. pure (err e))
            (λ _. (do
              denied ←
                  apply_entries
                    (λ p t. deny_permission perm.spec.database_name p t perm.spec.user_name) "DENY"
                    "PermissionDenied" client current perm.spec.denies
              on_result denied (λ e. pure (err e))
                  (λ _. revoke_undesired client perm (env.range_map current)))))

  -- The loops of the clean-up: an error is only logged.
  unfoldable pub revoke_all :
      Endpoint → Permission → List PermissionEntry → Run W (ObjectWrite Permission) (Unit {0})
  unfolding for_each
  revoke_all client perm entries = for_each entries (λ g. (do
    exec env.object.base client
        (revoke_permission perm.spec.database_name g.permission g.on perm.spec.user_name)
    pure tt))

  unfoldable pub release_permission : Permission → Run W (ObjectWrite Permission) (Result ℕ)
  release_permission perm = do
    updated ←
        commit env.object.base
          (update (record perm { meta = env.object.remove_finalizer finalizer perm.meta }))
    on_result updated (λ e. pure (err e)) (λ _. pure (ok 0))

  unfoldable pub handle_permission_deletion : Permission → Run W (ObjectWrite Permission) (Result ℕ)
  unfolding revoke_all release_permission
  handle_permission_deletion perm =
      if not (env.object.contains_finalizer finalizer perm.meta) then pure (ok 0) else (do
        credentials ←
            get_credentials_from_secret env.object.base perm.meta.namespace
              perm.spec.server.credentials_secret.name
        on_result credentials (λ e. release_permission perm)
            (λ pair. (do
              connected ← connect_to_sql env.object.base perm.spec.server pair.0 pair.1
              on_result connected (λ e. release_permission perm)
                  (λ client. (do
                    revoke_all client perm perm.spec.grants
                    revoke_all client perm perm.spec.denies
                    note (Action.event normal "PermissionsRevoked")
                    release_permission perm)))))
