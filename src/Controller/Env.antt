-- ===== src/Controller/Env.antt =====
-- What a reconciler is given: the API server, the client factory, the clock. None of it is code of
-- the operator, so it is a parameter; the theorems hold for every value of it.
use mssql_k8s_operator.Prelude.{ℤ, ℕ, String, Option, List}
use mssql_k8s_operator.Api.Meta.{Condition}
use mssql_k8s_operator.Sql.Client.{SqlCall, Endpoint, Questions}
use mssql_k8s_operator.Controller.Effect.{Result}

-- corev1.Secret: its data and its resource version
pub record Secret : Type 0 where
  pub contents : List (String × String)
  pub resource_version : String

pub record Env (W Write : Type 0) : Type 1 where
  -- r.Get of a Secret, by namespace and name
  pub get_secret : String → String → W → Result Secret × W
  -- the client factory
  pub connect : Endpoint → W → Result (Unit {0}) × W
  pub exec : Endpoint → SqlCall → W → Result (Unit {0}) × W
  pub questions : Questions W Result
  -- r.Update, r.Create, r.Patch, r.Status().Patch
  pub write_object : Write → W → Result (Unit {0}) × W
  pub now : W → ℕ × W
  -- time.ParseDuration, in nanoseconds
  pub parse_duration : String → Option ℤ
  -- meta.SetStatusCondition
  pub set_status_condition : List Condition → Condition → List Condition
