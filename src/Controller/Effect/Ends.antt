-- ===== src/Controller/Effect/Ends.antt =====
-- What holds when a run returns without error: one rule for each way to build a run.
use mssql_k8s_operator.Prelude.{
  subst, Bool, true, false, Option, none, some, string_eq, nat_eq, int_eq, bool_eq, if◌then◌else◌,
  ◌≡◌, ◌≢◌, refl, ◌⊎◌, inl, inr, arith,
}
use mssql_k8s_operator.Controller.Effect.{
  on_option, on_result, St, err, Result, Run, Error, pure, ok, ◌>>=◌,
}

-- `Q` holds of what `m` returns and of the world that it leaves, unless it returns an error.
pub record Ends {W Write A : Type 0} (Q : A → W → Type 0) (m : Run W Write (Result A))
    : Type 0 where
  pub at : (s : St W Write) (a : A) → (m s).0 ≡ ok a → Q a (m s).1.outside

pub err≢ok : {A : Type 0} (e : Error) (a : A) → err e ≢ ok a
err≢ok e a h = ground arith

pub ok-injective : {A : Type 0} (a b : A) → ok a ≡ ok b → a ≡ b
ok-injective a b h = cc

pub Result-cases :
    {A : Type 0} (r : Result A) → ((e : Error) × (r ≡ err e)) ⊎ ((a : A) × (r ≡ ok a))
Result-cases (err e) = inl (e, refl)
Result-cases (ok a) = inr (a, refl)

module _ {W Write A : Type 0} {Q : A → W → Type 0} where
  pub Ends-err : (e : Error) → Ends {Write = Write} Q (pure (err e))
  Ends-err e = record { at = λ s a h. absurd (err≢ok e a h) }

  pub Ends-ok : (a : A) → ((w : W) → Q a w) → Ends {Write = Write} Q (pure (ok a))
  Ends-ok a q = record {
    at = λ s b h. subst (λ c. Q c s.outside) (ok-injective a b h) (q s.outside);
  }

  pub Ends-bind :
      {B : Type 0} (m : Run W Write B) (f : B → Run W Write (Result A))
      → ((b : B) → Ends Q (f b))
      → Ends Q (m >>= f)
  Ends-bind m f k = record { at = λ s a h. (k (m s).0).at (m s).1 a h }

  pub Ends-on_result :
      {B : Type 0} (r : Result B) (h : Error → Run W Write (Result A))
      (k : B → Run W Write (Result A))
      → ((e : Error) → Ends Q (h e))
      → ((b : B) → Ends Q (k b))
      → Ends Q (on_result r h k)
  Ends-on_result (ok b) h k kh kk = kk b
  Ends-on_result (err e) h k kh kk = kh e

  pub Ends-on_option :
      {B : Type 0} (o : Option B) (n : Run W Write (Result A)) (k : B → Run W Write (Result A))
      → Ends Q n
      → ((b : B) → Ends Q (k b))
      → Ends Q (on_option o n k)
  Ends-on_option none n k kn kk = kn
  Ends-on_option (some b) n k kn kk = kk b

  pub Ends-if :
      (b : Bool) (m n : Run W Write (Result A)) → Ends Q m → Ends Q n → Ends Q (if b then m else n)
  Ends-if true m n km kn = km
  Ends-if false m n km kn = kn

  -- The rest of a run may use what holds of a value that was returned without error.
  pub Ends-bind_post :
      {B : Type 0} (Post : B → Type 0) (m : Run W Write (Result B))
      (h : Error → Run W Write (Result A)) (k : B → Run W Write (Result A))
      → Ends (λ b w. Post b) m
      → ((e : Error) → Ends Q (h e))
      → ((b : B) → Post b → Ends Q (k b))
      → Ends Q (m >>= λ r. on_result r h k)
  Ends-bind_post Post m h k post kh kk = record {
    at = λ s a e. elim (Result-cases (m s).0) [
      | inl (x, f) ↦ rw f ((kh x).at (m s).1 a (rw f at e))
      | inr (b, f) ↦ rw f ((kk b (post.at s b f)).at (m s).1 a (rw f at e))
    ];
  }

pub ruleset ends_rules = (Ends-err, Ends-bind, Ends-on_result, Ends-on_option, Ends-if)
