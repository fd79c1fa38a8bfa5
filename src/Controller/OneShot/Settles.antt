-- ===== src/Controller/OneShot/Settles.antt =====
-- What the three reconcilers rely on in the API server, and how they read an object and end it.
use mssql_k8s_operator.Prelude.{
  ℕ, String, Bool, true, Option, none, some, string_eq, nat_eq, int_eq, bool_eq, if◌then◌else◌, ◌≡◌,
  refl, ◌⊎◌, inl, inr, Bool-cases,
}
use mssql_k8s_operator.Controller.Effect.Ends.{Ends-bind_post, Result-cases, err≢ok, Ends}
use mssql_k8s_operator.Controller.Helpers.{commit}
use mssql_k8s_operator.Api.Meta.{ObjectMeta}
use mssql_k8s_operator.Controller.OneShot.{OneShotEnv}
use mssql_k8s_operator.Controller.Effect.{
  pure, err, is_not_found, ask, Error, St, on_result, ok, Result, Run, ◌>>=◌,
}

-- the phases that end an object, which are the same texts for the three kinds
abbrev pub IsDonePhase : String → Type 0
IsDonePhase phase = (phase ≡ "Completed") ⊎ (phase ≡ "Failed")

-- of an object that may be gone
abbrev pub IsSettled : Option String → Type 0
IsSettled none = Unit
IsSettled (some phase) = IsDonePhase phase

abbrev pub IsNamed : String → String → ObjectMeta → Type 0
IsNamed namespace name meta = (meta.namespace ≡ namespace) × (meta.name ≡ name)

-- What the API server does with the object of one name: `phase_at` is the phase of that object, if
-- there is one; `meta_of` and `phase_of` read a value of the object's type.
pub record StoreLaws {W Object : Type 0} (env : OneShotEnv W Object) (namespace name : String)
    (phase_at : W → Option String) (meta_of : Object → ObjectMeta) (phase_of : Object → String)
    : Type 0 where
  pub get_ok :
      (w : W) (o : Object)
      → (env.get_object namespace name w).0 ≡ ok o
      → IsNamed namespace name (meta_of o) × (phase_at w ≡ some (phase_of o))
  pub get_not_found :
      (w : W) (e : Error)
      → (env.get_object namespace name w).0 ≡ err e
      → is_not_found e ≡ true
      → phase_at w ≡ none
  pub get_kept : (w : W) → phase_at (env.get_object namespace name w).1 ≡ phase_at w
  -- a status patch that is accepted leaves its object with the phase that it sets
  pub patch_ok :
      (w : W) (o : Object)
      → IsNamed namespace name (meta_of o)
      → (env.base.write_object o w).0 ≡ ok tt
      → phase_at (env.base.write_object o w).1 ≡ some (phase_of o)

-- A run that returns no error leaves the object settled.
abbrev pub Settles : {W Object : Type 0} → (W → Option String) → Run W Object (Result ℕ) → Type 0
Settles phase_at m = Ends (λ _ w. IsSettled (phase_at w)) m

-- what a reconciler does with the answer of its first Get
abbrev pub after_get :
    {W Object : Type 0}
    → (Object → Bool)
    → (Object → Run W Object (Result ℕ))
    → Result Object
    → Run W Object (Result ℕ)
after_get is_done m r =
    on_result r (λ e. if is_not_found e then pure (ok 0) else pure (err e))
      (λ o. if is_done o then pure (ok 0) else m o)

module _ {W Object : Type 0} {phase_at : W → Option String} {env : OneShotEnv W Object}
    {namespace name : String} {meta_of : Object → ObjectMeta} {phase_of : Object → String}
    (laws : StoreLaws env namespace name phase_at meta_of phase_of) where
  pub get-Ends :
      Ends
        (λ o w. IsNamed namespace name (meta_of o))
        (ask {Write = Object} (env.get_object namespace name))
  get-Ends = record { at = λ s o h. (laws.get_ok s.outside o h).0 }

  -- what follows a Get may use the name of the object
  pub get_bind-Ends :
      {A : Type 0} {Q : A → W → Type 0} (h : Error → Run W Object (Result A))
      (k : Object → Run W Object (Result A))
      → ((e : Error) → Ends Q (h e))
      → ((o : Object) → IsNamed namespace name (meta_of o) → Ends Q (k o))
      → Ends Q (ask (env.get_object namespace name) >>= λ r. on_result r h k)
  get_bind-Ends h k kh kk =
      Ends-bind_post (λ o. IsNamed namespace name (meta_of o)) (ask (env.get_object namespace name))
        h k get-Ends kh kk

  -- the patch of a status whose phase ends the object, as the last step
  pub commit-Settles :
      (o : Object)
      → IsNamed namespace name (meta_of o)
      → IsDonePhase (phase_of o)
      → Settles phase_at (
          commit env.base o >>= λ patched. on_result patched (λ e. pure (err e)) (λ _. pure (ok 0)))
  commit-Settles o named done = record {
    at = λ s n h. elim (Result-cases (env.base.write_object o s.outside).0) [
      | inl (e, f) ↦ absurd (err≢ok e n (rw f at h))
      | inr (tt, f) ↦ rw f (rw (laws.patch_ok s.outside o named f) done)
    ];
  }

  module _ (is_done : Object → Bool) (m : Object → Run W Object (Result ℕ)) where
    module _ (done : (o : Object) → is_done o ≡ true → IsDonePhase (phase_of o))
        (unfinished : (o : Object)
          → IsNamed namespace name (meta_of o)
          → Settles phase_at (m o)) where
      after_get-Settles :
          (r : Result Object) (t : St W Object) (n : ℕ)
          → ((o : Object)
              → r ≡ ok o
              → IsNamed namespace name (meta_of o) × (phase_at t.outside ≡ some (phase_of o)))
          → ((e : Error) → r ≡ err e → is_not_found e ≡ true → phase_at t.outside ≡ none)
          → (after_get is_done m r t).0 ≡ ok n
          → IsSettled (phase_at (after_get is_done m r t).1.outside)
      after_get-Settles (ok o) t n found gone h = elim (Bool-cases (is_done o)) [
        | inl f ↦ rw f (rw ((found o refl).1) (done o f))
        | inr f ↦ rw f ((unfinished o (found o refl).0).at t n (rw f at h))
      ]
      after_get-Settles (err e) t n found gone h = elim (Bool-cases (is_not_found e)) [
        | inl f ↦ rw f (rw (gone e refl f) tt)
        | inr f ↦ absurd (err≢ok e n (rw f at h))
      ]

      -- the object is fetched, and done or gone, or the rest settles it
      pub fetch-Settles :
          Settles phase_at (ask (env.get_object namespace name) >>= after_get is_done m)
      fetch-Settles = record {
        at = λ s n h.
            let w = s.outside in
            after_get-Settles (env.get_object namespace name w).0
              (record s { outside = (env.get_object namespace name w).1 }) n
              (λ o e. rw (laws.get_kept w) (laws.get_ok w o e))
              (λ e f g. rw (laws.get_kept w) (laws.get_not_found w e f g)) h;
      }
