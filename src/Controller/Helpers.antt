-- ===== src/Controller/Helpers.antt =====
-- internal/controller/helpers.go: credentials and connections.
use mssql_k8s_operator.Prelude.{String, false, none, some, pos, lookup}
use mssql_k8s_operator.Api.Meta.{ServerReference}
use mssql_k8s_operator.Sql.Client.{SqlCall, Endpoint}
use mssql_k8s_operator.Controller.Effect.{
  Result, ok, err, failure, Run, Action, pure, ask, perform, on_result, ◌>>=◌,
}
use mssql_k8s_operator.Controller.Env.{Env, Secret}

-- The credentials that a secret holds under its two keys.
unfoldable pub read_credentials : Secret → Result (String × String)
read_credentials secret = elim (lookup "username" secret.contents) [
  | none ↦ err (failure "missing 'username' key")
  | some username ↦ elim (lookup "password" secret.contents) [
    | none ↦ err (failure "missing 'password' key")
    | some password ↦ ok (username, password)
  ]
]

unfoldable pub read_sa_password : Secret → Result (String × String)
read_sa_password secret = elim (lookup "MSSQL_SA_PASSWORD" secret.contents) [
  | none ↦ err (failure "missing 'MSSQL_SA_PASSWORD' key")
  | some password ↦ ok ("sa", password)
]

-- The arguments of the factory: port 1433 and no encryption unless the reference says otherwise.
unfoldable pub endpoint_of : ServerReference → String → String → Endpoint
endpoint_of server username password = record {
  host = server.host;
  port = elim server.port [ none ↦ pos 1433 | some port ↦ port ];
  username = username;
  password = password;
  tls_enabled = elim server.tls [ none ↦ false | some tls ↦ tls ];
}

module _ {W Write : Type 0} (env : Env W Write) where
  unfoldable pub get_credentials_from_secret :
      String → String → Run W Write (Result (String × String))
  get_credentials_from_secret namespace secret_name = do
    secret ← ask (env.get_secret namespace secret_name)
    on_result secret (λ e. pure (err e)) (λ s. pure (read_credentials s))

  unfoldable pub get_credentials_from_sa_password_secret :
      String → String → Run W Write (Result (String × String))
  get_credentials_from_sa_password_secret namespace secret_name = do
    secret ← ask (env.get_secret namespace secret_name)
    on_result secret (λ e. pure (err e)) (λ s. pure (read_sa_password s))

  -- The client is the endpoint that it is bound to.
  unfoldable pub connect_to_sql : ServerReference → String → String → Run W Write (Result Endpoint)
  unfolding endpoint_of
  connect_to_sql server username password = do
    let endpoint = endpoint_of server username password
    opened ← ask (env.connect endpoint)
    on_result opened (λ e. pure (err e)) (λ _. pure (ok endpoint))

  -- a method of the client that changes the server
  abbrev pub exec : Endpoint → SqlCall → Run W Write (Result (Unit {0}))
  exec endpoint call = perform (Action.sql endpoint call) (env.exec endpoint call)

  -- a write to the API server
  abbrev pub commit : Write → Run W Write (Result (Unit {0}))
  commit w = perform (Action.write w) (env.write_object w)
