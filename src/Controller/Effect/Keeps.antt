-- ===== src/Controller/Effect/Keeps.antt =====
-- Which entries a run may add to the log: one rule for each way to build a run.
use mssql_k8s_operator.Prelude.{
  none, some, Option, ◌≡◌, refl, Bool, true, false, List, [], ◌∷◌, All, if◌then◌else◌,
}
use mssql_k8s_operator.Controller.Effect.{
  on_option, Error, Result, ok, err, Action, St, Run, pure, ask, perform, note, on_result, when,
  for_each, ◌>>=◌,
}

-- Every entry that `m` adds satisfies `Ok`.
pub record Keeps {W Write A : Type 0} (Ok : Action Write → Type 0) (m : Run W Write A)
    : Type 0 where
  pub at : (s : St W Write) → All Ok s.log → All Ok (m s).1.log

module _ {W Write : Type 0} {Ok : Action Write → Type 0} where
  pub Keeps-pure : {A : Type 0} (a : A) → Keeps Ok (pure {W = W} a)
  Keeps-pure a = record { at = λ s h. h }

  pub Keeps-ask : {A : Type 0} (q : W → A × W) → Keeps Ok (ask {Write = Write} q)
  Keeps-ask q = record { at = λ s h. h }

  pub Keeps-perform :
      {A : Type 0} (act : Action Write) (q : W → A × W) → Ok act → Keeps Ok (perform act q)
  Keeps-perform act q allowed = record { at = λ s h. (allowed, h) }

  pub Keeps-note : (act : Action Write) → Ok act → Keeps Ok (note {W = W} act)
  Keeps-note act allowed = record { at = λ s h. (allowed, h) }

  pub Keeps-bind :
      {A B : Type 0} (m : Run W Write A) (f : A → Run W Write B)
      → Keeps Ok m
      → ((a : A) → Keeps Ok (f a))
      → Keeps Ok (m >>= f)
  Keeps-bind m f km kf = record { at = λ s h. (kf (m s).0).at (m s).1 (km.at s h) }

  pub Keeps-on_result :
      {A B : Type 0} (r : Result A) (h : Error → Run W Write B) (k : A → Run W Write B)
      → ((e : Error) → Keeps Ok (h e))
      → ((a : A) → Keeps Ok (k a))
      → Keeps Ok (on_result r h k)
  Keeps-on_result (ok a) h k kh kk = kk a
  Keeps-on_result (err e) h k kh kk = kh e

  pub Keeps-on_option :
      {A B : Type 0} (o : Option A) (n : Run W Write B) (k : A → Run W Write B)
      → Keeps Ok n
      → ((a : A) → Keeps Ok (k a))
      → Keeps Ok (on_option o n k)
  Keeps-on_option none n k kn kk = kn
  Keeps-on_option (some a) n k kn kk = kk a

  -- with what is known of the value
  pub Keeps-option_eq :
      {A B : Type 0} (o : Option A) (n : Run W Write B) (k : A → Run W Write B)
      → Keeps Ok n
      → ((a : A) → o ≡ some a → Keeps Ok (k a))
      → Keeps Ok (on_option o n k)
  Keeps-option_eq none n k kn kk = kn
  Keeps-option_eq (some a) n k kn kk = kk a refl

  pub Keeps-when :
      (b : Bool) (m : Run W Write (Unit {0})) → (b ≡ true → Keeps Ok m) → Keeps Ok (when b m)
  Keeps-when true m k = k refl
  Keeps-when false m k = Keeps-pure tt

  pub Keeps-if :
      {A : Type 0} (b : Bool) (m n : Run W Write A)
      → (b ≡ true → Keeps Ok m)
      → (b ≡ false → Keeps Ok n)
      → Keeps Ok (if b then m else n)
  Keeps-if true m n km kn = km refl
  Keeps-if false m n km kn = kn refl

  -- The rest of a run may use what is known of a value that was returned without error.
  pub Keeps-bind_post :
      {A B : Type 0} (Post : A → Type 0) (m : Run W Write (Result A)) (h : Error → Run W Write B)
      (k : A → Run W Write B)
      → Keeps Ok m
      → ((s : St W Write) (a : A) → (m s).0 ≡ ok a → Post a)
      → ((e : Error) → Keeps Ok (h e))
      → ((a : A) → Post a → Keeps Ok (k a))
      → Keeps Ok (m >>= λ r. on_result r h k)
  Keeps-bind_post {A} Post m h k km post kh kk = record {
    at = λ s l. continue (m s).0 (m s).1 (post s) (km.at s l);
  }
    where
      continue :
          (r : Result A) (t : St W Write)
          → ((a : A) → r ≡ ok a → Post a)
          → All Ok t.log
          → All Ok (on_result r h k t).1.log
      continue (ok a) t post l = (kk a (post a refl)).at t l
      continue (err e) t post l = (kh e).at t l

  pub Keeps-for_each :
      {A : Type 0} (xs : List A) (f : A → Run W Write (Unit {0}))
      → ((x : A) → Keeps Ok (f x))
      → Keeps Ok (for_each xs f)
  unfolding for_each
  Keeps-for_each [] f k = Keeps-pure tt
  Keeps-for_each (x ∷ xs) f k =
      Keeps-bind (f x) (λ _. for_each xs f) (k x) (λ _. Keeps-for_each xs f k)

pub ruleset keeps_rules = (
  Keeps-pure, Keeps-ask, Keeps-perform, Keeps-note, Keeps-bind, Keeps-on_result, Keeps-on_option,
  Keeps-when, Keeps-if, Keeps-for_each,
)
