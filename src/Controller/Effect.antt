-- ===== src/Controller/Effect.antt =====
-- The effects of a reconciler: it passes on the world outside the operator, and a log of what it
-- did there with the newest entry first. Go's `(value, error)` is a `Result`.
pub mod Keeps
pub mod Ends
use mssql_k8s_operator.Prelude.{none, some, Option, String, Bool, List, ◌∷◌, true, false}
use mssql_k8s_operator.Sql.Client.{SqlCall, Endpoint}

pub data Error : Type 0 where
  not_found : Error  -- apierrors.IsNotFound
  failure : String → Error
  wrapped : String → Error → Error  -- fmt.Errorf("…: %w", err)

-- apierrors.IsNotFound unwraps.
abbrev pub is_not_found : Error → Bool
is_not_found not_found = true
is_not_found (failure m) = false
is_not_found (wrapped m e) = is_not_found e

pub data Result {ℓ} (Value : Type ℓ) : Type ℓ where
  ok : Value → Result Value
  err : Error → Result Value

pub data EventType : Type 0 where
  normal warning : EventType

-- `Write` is what a reconciler writes to the API server.
pub data Action (Write : Type 0) : Type 0 where
  sql : Endpoint → SqlCall → Action Write
  write : Write → Action Write
  event : EventType → String → Action Write

pub record St (W Write : Type 0) : Type 0 where
  pub outside : W
  pub log : List (Action Write)

abbrev pub Run : Type 0 → Type 0 → Type 0 → Type 0
Run W Write A = St W Write → A × St W Write

infixl 5 ◌>>=◌ ◌>>◌
abbrev pub ◌>>=◌ : {W Write A B : Type 0} → Run W Write A → (A → Run W Write B) → Run W Write B
◌>>=◌ m f s = let (a, t) = m s in f a t

abbrev pub ◌>>◌ : {W Write A B : Type 0} → Run W Write A → Run W Write B → Run W Write B
m >> k = m >>= λ _. k

module _ {W Write : Type 0} where
  abbrev pub pure : {A : Type 0} → A → Run W Write A
  pure a s = (a, s)

  -- a call that leaves no entry in the log: it asks, or opens a connection
  abbrev pub ask : {A : Type 0} → (W → A × W) → Run W Write A
  ask q s = let (a, w) = q s.outside in (a, record s { outside = w })

  -- a call that is logged, whatever it returns
  abbrev pub perform : {A : Type 0} → Action Write → (W → A × W) → Run W Write A
  perform act q s = let (a, w) = q s.outside in (a, record s { outside = w; log = act ∷ s.log })

  abbrev pub note : Action Write → Run W Write (Unit {0})
  note act s = (tt, record s { log = act ∷ s.log })

  -- `v, err := …; if err != nil { … }; …`
  abbrev pub on_result :
      {A B : Type 0} → Result A → (Error → Run W Write B) → (A → Run W Write B) → Run W Write B
  on_result (ok a) h k = k a
  on_result (err e) h k = h e

  -- `if p != nil { … }`, with what is done at nil
  abbrev pub on_option :
      {A B : Type 0} → Option A → Run W Write B → (A → Run W Write B) → Run W Write B
  on_option none n k = n
  on_option (some a) n k = k a

  abbrev pub when : Bool → Run W Write (Unit {0}) → Run W Write (Unit {0})
  when true m = m
  when false m = pure tt

  -- `for _, x := range xs { … }`
  unfoldable pub for_each :
      {A : Type 0} → List A → (A → Run W Write (Unit {0})) → Run W Write (Unit {0})
  for_each List.[] f = pure tt
  for_each (x ∷ xs) f = let rest = for_each xs f in f x >> rest
