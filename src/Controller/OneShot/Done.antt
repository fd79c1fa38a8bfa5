-- ===== src/Controller/OneShot/Done.antt =====
-- A done object in any number of further runs of its reconciler.
use mssql_k8s_operator.Api.AvailabilityGroup.{AgFailover}
use mssql_k8s_operator.Api.Backups.{Backup, Restore}
use mssql_k8s_operator.Prelude.{
  ℕ, String, Bool, true, Option, string_eq, nat_eq, int_eq, bool_eq, ◌≡◌, refl, ap, ◌∙◌, inl, inr,
  arith, eq_iff, Bool-cases,
}
use mssql_k8s_operator.Controller.OneShot.Phases.{
  reconcile_failover-Settles, reconcile_backup-Settles, reconcile_restore-Settles, failover_phase,
  failover_meta, restore_phase, restore_meta, backup_phase, backup_meta,
}
use mssql_k8s_operator.Controller.OneShot.Failover.{
  reconcile_open_failover, is_failover_done, FailoverEnv, reconcile_failover,
}
use mssql_k8s_operator.Controller.OneShot.Restore.{
  reconcile_open_restore, is_restore_done, RestoreEnv, reconcile_restore,
}
use mssql_k8s_operator.Controller.OneShot.Backup.{
  reconcile_open_backup, is_backup_done, BackupEnv, reconcile_backup,
}
use mssql_k8s_operator.Controller.OneShot.Settles.{IsSettled, after_get, StoreLaws, IsDonePhase}
use mssql_k8s_operator.Api.Meta.{ObjectMeta}
use mssql_k8s_operator.Controller.OneShot.{OneShotEnv}
use mssql_k8s_operator.Controller.Effect.{is_not_found, err, ok, ask, Result, St, Run, ◌>>=◌}

-- `t` is what some number of runs of `m`, one after the other, make of `s`.
pub data Runs {W Object : Type 0} (m : Run W Object (Result ℕ))
    : St W Object → St W Object → Type 0 where
  no_run : {s : St W Object} → Runs m s s
  one_more : {s t : St W Object} → Runs m (m s).1 t → Runs m s t

-- nothing logged, and the phase as it was
abbrev pub IsUntouched :
    {W Object : Type 0} → (W → Option String) → St W Object → St W Object → Type 0
IsUntouched phase_at s t = (t.log ≡ s.log) × (phase_at t.outside ≡ phase_at s.outside)

-- settled, and no entry of the log but those of `s`
abbrev pub IsOver : {W Object : Type 0} → (W → Option String) → St W Object → St W Object → Type 0
IsOver phase_at s t = (t.log ≡ s.log) × IsSettled (phase_at t.outside)

module _ {W Object : Type 0} (phase_at : W → Option String) (m : Run W Object (Result ℕ))
    (once : (s : St W Object)
      → IsSettled (phase_at s.outside)
      → IsUntouched phase_at s (m s).1) where
  Runs-IsOver :
      (s t : St W Object) → IsSettled (phase_at s.outside) → Runs m s t → IsOver phase_at s t
  Runs-IsOver s t settled no_run = (refl, settled)
  Runs-IsOver s t settled (one_more runs) =
      let first = once s settled in
      let rest = Runs-IsOver (m s).1 t (rw (first.1) settled) runs in (rest.0 ∙ first.0, rest.1)

module _ {W Object : Type 0} (is_done : Object → Bool) (m : Object → Run W Object (Result ℕ)) where
  after_get-done :
      (r : Result Object) (t : St W Object)
      → ((o : Object) → r ≡ ok o → is_done o ≡ true)
      → (after_get is_done m r t).1 ≡ t
  after_get-done (ok o) t f = rw (f o refl) refl
  after_get-done (err e) t f = elim (Bool-cases (is_not_found e)) [
    | inl g ↦ rw g refl
    | inr g ↦ rw g refl
  ]

module _ {W Object : Type 0} {env : OneShotEnv W Object} {namespace name : String}
    {phase_at : W → Option String} {meta_of : Object → ObjectMeta} {phase_of : Object → String}
    (laws : StoreLaws env namespace name phase_at meta_of phase_of) (is_done : Object → Bool)
    (m : Object → Run W Object (Result ℕ))
    (done : (o : Object) → IsDonePhase (phase_of o) → is_done o ≡ true) where
  fetch-IsUntouched :
      (s : St W Object)
      → IsSettled (phase_at s.outside)
      → IsUntouched phase_at s ((ask (env.get_object namespace name) >>= after_get is_done m) s).1
  fetch-IsUntouched s settled =
      let w = s.outside in
      let same =
        after_get-done is_done m (env.get_object namespace name w).0
          (record s { outside = (env.get_object namespace name w).1 })
          (λ o e. done o (rw ((laws.get_ok w o e).1) at settled)) in
      (ap (λ u. u.log) same, ap (λ u. phase_at u.outside) same ∙ laws.get_kept w)

module _ {W : Type 0} {env : BackupEnv W} {namespace name : String} {phase_at : W → Option String}
    (laws : StoreLaws env namespace name phase_at backup_meta backup_phase) where
  -- Against an API server that keeps its objects and sets the phase of a status patch that it
  -- accepts: after a run of the reconciler of a Backup that returns no error, and any number of further
  -- runs, the object is gone, completed or failed, and the further runs have sent no statement,
  -- written nothing and recorded no event.
  pub reconcile_backup-ends :
      (s t : St W Backup) (n : ℕ)
      → (reconcile_backup env namespace name s).0 ≡ ok n
      → Runs (reconcile_backup env namespace name) (reconcile_backup env namespace name s).1 t
      → IsOver phase_at (reconcile_backup env namespace name s).1 t
  unfolding reconcile_backup
  reconcile_backup-ends s t n returned runs =
      Runs-IsOver phase_at (reconcile_backup env namespace name)
        (fetch-IsUntouched laws (is_backup_done env) (reconcile_open_backup env namespace name)
          (λ o h.
            ground (arith, eq_iff o.status.phase "Completed", eq_iff o.status.phase "Failed")))
        (reconcile_backup env namespace name s).1 t
        ((reconcile_backup-Settles laws).at s n returned) runs

module _ {W : Type 0} {env : RestoreEnv W} {namespace name : String} {phase_at : W → Option String}
    (laws : StoreLaws env namespace name phase_at restore_meta restore_phase) where
  -- Against an API server that keeps its objects and sets the phase of a status patch that it
  -- accepts: after a run of the reconciler of a Restore that returns no error, and any number of further
  -- runs, the object is gone, completed or failed, and the further runs have sent no statement,
  -- written nothing and recorded no event.
  pub reconcile_restore-ends :
      (s t : St W Restore) (n : ℕ)
      → (reconcile_restore env namespace name s).0 ≡ ok n
      → Runs (reconcile_restore env namespace name) (reconcile_restore env namespace name s).1 t
      → IsOver phase_at (reconcile_restore env namespace name s).1 t
  unfolding reconcile_restore
  reconcile_restore-ends s t n returned runs =
      Runs-IsOver phase_at (reconcile_restore env namespace name)
        (fetch-IsUntouched laws (is_restore_done env) (reconcile_open_restore env namespace name)
          (λ o h.
            ground (arith, eq_iff o.status.phase "Completed", eq_iff o.status.phase "Failed")))
        (reconcile_restore env namespace name s).1 t
        ((reconcile_restore-Settles laws).at s n returned) runs

module _ {W : Type 0} {env : FailoverEnv W} {namespace name : String} {phase_at : W → Option String}
    (laws : StoreLaws env namespace name phase_at failover_meta failover_phase) where
  -- Against an API server that keeps its objects and sets the phase of a status patch that it
  -- accepts: after a run of the reconciler of an AGFailover that returns no error, and any number of further
  -- runs, the object is gone, completed or failed, and the further runs have sent no statement,
  -- written nothing and recorded no event.
  pub reconcile_failover-ends :
      (s t : St W AgFailover) (n : ℕ)
      → (reconcile_failover env namespace name s).0 ≡ ok n
      → Runs (reconcile_failover env namespace name) (reconcile_failover env namespace name s).1 t
      → IsOver phase_at (reconcile_failover env namespace name s).1 t
  unfolding reconcile_failover
  reconcile_failover-ends s t n returned runs =
      Runs-IsOver phase_at (reconcile_failover env namespace name)
        (fetch-IsUntouched laws (is_failover_done env) (reconcile_open_failover env namespace name)
          (λ o h.
            ground (arith, eq_iff o.status.phase "Completed", eq_iff o.status.phase "Failed")))
        (reconcile_failover env namespace name s).1 t
        ((reconcile_failover-Settles laws).at s n returned) runs
