-- ===== src/Controller/Object/Lifecycle.antt =====
-- What the reconcilers of databases, users and schemas do alike with their object: its condition, its
-- finalizer, and what its deletion may send. Each names the parts of its object in a `Kind`.
use mssql_k8s_operator.Prelude.{
  ℕ, String, Bool, true, false, Option, none, some, List, [], string_eq, nat_eq, int_eq, bool_eq, ℤ,
  if◌then◌else◌, ◌≡◌, ◌≢◌, refl, arith, All,
}
use mssql_k8s_operator.Controller.Effect.Ends.{ends_rules, Ends-ok, Ends}
use mssql_k8s_operator.Controller.Effect.Keeps.{
  Keeps-option_eq, Keeps-pure, Keeps-bind_post, keeps_rules, Keeps,
}
use mssql_k8s_operator.Sql.Client.{SqlCall, Endpoint}
use mssql_k8s_operator.Api.Meta.{finalizer, Condition, condition_ready, ObjectMeta}
use mssql_k8s_operator.Controller.Object.{
  requeue_interval, update, patch_status, ObjectWrite, requeue_with_jitter, ObjectEnv,
}
use mssql_k8s_operator.Controller.Effect.{
  wrapped, on_option, err, normal, ok, is_not_found, warning, pure, ask, note, EventType, Result,
  on_result, Run, Action, ◌>>=◌, ◌>>◌,
}
use mssql_k8s_operator.Controller.Helpers.{commit, exec}

abbrev pub is_some : {A : Type 0} → Option A → Bool
is_some none = false
is_some (some a) = true

pub is_some_lem : {A : Type 0} (o : Option A) → o ≢ none → is_some o ≡ true
is_some_lem none h = absurd (h refl)
is_some_lem (some a) h = refl

pub record Kind (Object : Type 0) : Type 0 where
  pub meta_of : Object → ObjectMeta
  pub with_meta : ObjectMeta → Object → Object
  pub conditions_of : Object → List Condition
  pub with_conditions : List Condition → Object → Object
  pub with_observed : ℤ → Object → Object

module _ {W Object : Type 0} (env : ObjectEnv W Object) (kind : Kind Object) where
  -- meta.SetStatusCondition of the condition Ready
  abbrev pub with_ready : Object → Bool → String → Object
  with_ready object status reason =
      kind.with_conditions
        (env.base.set_status_condition (kind.conditions_of object) (record {
          type = condition_ready;
          status = status;
          reason = reason;
          observed_generation = (kind.meta_of object).generation;
        }))
        object

  unfoldable pub set_object_condition :
      Object → Bool → String → Run W (ObjectWrite Object) (Result ℕ)
  unfolding requeue_with_jitter
  set_object_condition object status reason = do
    patched ← commit env.base (
        patch_status
          (kind.with_observed (kind.meta_of object).generation (with_ready object status reason)))
    on_result patched (λ e. pure (err e))
        (λ _.
          if status
          then (do after ← requeue_with_jitter env requeue_interval; pure (ok after))
          else pure (ok 0))

  -- removes the finalizer and updates the object
  unfoldable pub release_object : Object → Run W (ObjectWrite Object) (Result ℕ)
  release_object object = do
    updated ←
        commit env.base
          (update (kind.with_meta (env.remove_finalizer finalizer (kind.meta_of object)) object))
    on_result updated (λ e. pure (err e)) (λ _. pure (ok 0))

  -- The deletion waits: the condition says why, its patch's error is dropped, and the object stays.
  unfoldable pub keep_object : Object → String → Run W (ObjectWrite Object) (Result ℕ)
  unfolding requeue_with_jitter
  keep_object object reason = do
    note (Action.event warning reason)
    commit env.base (patch_status (with_ready object false reason))
    after ← requeue_with_jitter env requeue_interval
    pure (ok after)

  -- a drop, whose error is only logged
  unfoldable pub drop_object : Endpoint → SqlCall → String → Run W (ObjectWrite Object) (Unit {0})
  drop_object client call reason = do
    dropped ← exec env.base client call
    on_result dropped (λ e. pure tt) (λ _. note (Action.event normal reason))

  unfoldable pub ensure_object_finalizer : Object → Run W (ObjectWrite Object) (Result Object)
  ensure_object_finalizer object =
      let held = kind.with_meta (env.add_finalizer finalizer (kind.meta_of object)) object in
      if env.contains_finalizer finalizer (kind.meta_of object) then pure (ok object) else (do
        updated ← commit env.base (update held)
        on_result updated (λ e. pure (err e)) (λ _. pure (ok held)))

  -- A call that changes the server, with the event of its success.
  abbrev pub apply_call :
      Endpoint → SqlCall → String → String → Run W (ObjectWrite Object) (Result (Unit {0}))
  apply_call client call context reason = do
    applied ← exec env.base client call
    on_result applied (λ e. pure (err (wrapped context e)))
        (λ _. (do note (Action.event normal reason); pure (ok tt)))

  -- steps 1 and 2 of Reconcile: the deletion or, with the finalizer, the rest
  unfoldable pub reconcile_object :
      (Object → Run W (ObjectWrite Object) (Result ℕ))
      → (Object → Run W (ObjectWrite Object) (Result ℕ))
      → String
      → String
      → Run W (ObjectWrite Object) (Result ℕ)
  unfolding ensure_object_finalizer
  reconcile_object delete live namespace name = do
    fetched ← ask (env.get_object namespace name)
    on_result fetched (λ e. if is_not_found e then pure (ok 0) else pure (err e))
        (λ object.
          on_option (kind.meta_of object).deletion_timestamp
            (do held ← ensure_object_finalizer object; on_result held (λ e. pure (err e)) live)
            (λ _. delete object))

  module _ (object : Object) (Held : Object → Type 0) (held : Held object)
      (kept : (meta : ObjectMeta) → Held (kind.with_meta meta object)) where
    ensure_object_finalizer-Ends : Ends (λ o w. Held o) (ensure_object_finalizer object)
    unfolding ensure_object_finalizer
    ensure_object_finalizer-Ends = search (ends_rules, Ends-ok, kept) depth 12

  module _ {Ok : Action (ObjectWrite Object) → Type 0}
      (noted : (t : EventType) (reason : String) → Ok (Action.event t reason)) where
    pub set_object_condition-allowed :
        (object : Object) (status : Bool) (reason : String)
        → Ok (
            Action.write (
              patch_status (
                kind.with_observed
                  (kind.meta_of object).generation
                  (with_ready object status reason))))
        → Keeps Ok (set_object_condition object status reason)
    unfolding set_object_condition requeue_with_jitter
    set_object_condition-allowed object status reason allowed = search keeps_rules depth 10

    pub drop_object-Keeps :
        (client : Endpoint) (call : SqlCall) (reason : String)
        → Ok (Action.sql client call)
        → Keeps Ok (drop_object client call reason)
    unfolding drop_object
    drop_object-Keeps client call reason allowed = search (keeps_rules, noted) depth 8

    pub apply_call-Keeps :
        (client : Endpoint) (call : SqlCall) (context reason : String)
        → Ok (Action.sql client call)
        → Keeps Ok (apply_call client call context reason)
    apply_call-Keeps client call context reason allowed = search (keeps_rules, noted) depth 10

  module _ {Ok : Action (ObjectWrite Object) → Type 0}
      (written : (w : ObjectWrite Object) → Ok (Action.write w))
      (noted : (t : EventType) (reason : String) → Ok (Action.event t reason)) where
    pub set_object_condition-Keeps :
        (object : Object) (status : Bool) (reason : String)
        → Keeps Ok (set_object_condition object status reason)
    unfolding set_object_condition requeue_with_jitter
    set_object_condition-Keeps object status reason = search (keeps_rules, written) depth 10

    pub release_object-Keeps : (object : Object) → Keeps Ok (release_object object)
    unfolding release_object
    release_object-Keeps object = search (keeps_rules, written) depth 8

    pub keep_object-Keeps :
        (object : Object) (reason : String) → Keeps Ok (keep_object object reason)
    unfolding keep_object requeue_with_jitter
    keep_object-Keeps object reason = search (keeps_rules, written, noted) depth 10

    pub ensure_object_finalizer-Keeps :
        (object : Object) → Keeps Ok (ensure_object_finalizer object)
    unfolding ensure_object_finalizer
    ensure_object_finalizer-Keeps object = search (keeps_rules, written) depth 10

    -- The rest of a reconciliation has what its object had and no change of its metadata takes away.
    module _ (delete live : Object → Run W (ObjectWrite Object) (Result ℕ)) (object : Object)
        (Held : Object → Type 0) (held : Held object)
        (kept : (meta : ObjectMeta) → Held (kind.with_meta meta object)) where
      live_object-Keeps :
          ((o : Object) → Held o → Keeps Ok (live o))
          → Keeps Ok (ensure_object_finalizer object >>= λ r. on_result r (λ e. pure (err e)) live)
      live_object-Keeps lively =
          Keeps-bind_post Held (ensure_object_finalizer object) _ _
            (ensure_object_finalizer-Keeps object)
            ((ensure_object_finalizer-Ends object Held held kept).at) (λ e. Keeps-pure (err e))
            lively

      pub reconcile_object-All :
          (namespace name : String) (w : W)
          → (env.get_object namespace name w).0 ≡ ok object
          → ((kind.meta_of object).deletion_timestamp ≢ none → Keeps Ok (delete object))
          → ((o : Object) → Held o → Keeps Ok (live o))
          → All Ok
              (reconcile_object delete live namespace name (record { outside = w; log = [] })).1.log
      unfolding reconcile_object
      reconcile_object-All namespace name w fetched deleting lively = rw fetched (
          (Keeps-option_eq (kind.meta_of object).deletion_timestamp _ _ (live_object-Keeps lively)
              (λ time e. deleting (λ f. ground (arith, e, f)))).at
            (record { outside = (env.get_object namespace name w).1; log = [] }) tt)
