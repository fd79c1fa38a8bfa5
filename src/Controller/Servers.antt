-- ===== src/Controller/Servers.antt =====
-- internal/controller/helpers.go: a reference to a server that may name a SQLServer.
use mssql_k8s_operator.Controller.Effect.Keeps.{keeps_rules, Keeps}
use mssql_k8s_operator.Controller.Helpers.{
  get_credentials_from_sa_password_secret, get_credentials_from_secret,
}
use mssql_k8s_operator.Api.Meta.{ServerReference}
use mssql_k8s_operator.Controller.Env.{Env}
use mssql_k8s_operator.Api.SqlServer.{SqlServer}
use mssql_k8s_operator.Prelude.{
  String, Option, none, some, ◌==◌, string_eq, nat_eq, int_eq, bool_eq, if◌then◌else◌,
}
use mssql_k8s_operator.Controller.Effect.{
  wrapped, on_result, err, pure, ask, on_option, Action, Run, failure, Result, Error, ◌>>=◌,
}

abbrev no_server_credentials : Error
no_server_credentials = failure "no credentialsSecret and not in managed mode"

-- In managed mode the host of the specification is empty, and the status has it.
unfoldable pub reference_to : SqlServer → ServerReference
reference_to server = record {
  host = if server.spec.host == "" then server.status.host else server.spec.host;
  port = server.spec.port;
  credentials_secret = record {
    name = elim server.spec.credentials_secret [ none ↦ "" | some secret ↦ secret.name ];
  };
  tls = server.spec.tls;
  sql_server_ref = none;
}

module _ {W Write : Type 0} (env : Env W Write)
    (get_sql_server : String → String → W → Result SqlServer × W) where
  -- With an error it returns the reference that it was given, next to the error.
  unfoldable pub resolve_server_reference :
      String → ServerReference → Run W Write (ServerReference × Option Error)
  unfolding reference_to
  resolve_server_reference namespace ref = on_option ref.sql_server_ref (pure (ref, none)) (λ name.
      (do
        fetched ← ask (get_sql_server namespace name)
        on_result fetched (λ e. pure (ref, some (wrapped "failed to resolve SQLServer" e)))
            (λ server. pure (reference_to server, none))))

  unfoldable pub credentials_of_server : String → SqlServer → Run W Write (Result (String × String))
  unfolding get_credentials_from_secret get_credentials_from_sa_password_secret
  credentials_of_server namespace server =
      on_option server.spec.credentials_secret
        (on_option server.spec.instance_spec (pure (err no_server_credentials)) (λ managed.
          get_credentials_from_sa_password_secret env namespace managed.sa_password_secret.name))
        (λ secret.
          get_credentials_from_secret env
            (elim secret.namespace [ none ↦ namespace | some other ↦ other ]) secret.name)

  unfoldable pub resolve_server_credentials :
      String → ServerReference → Run W Write (Result (String × String))
  unfolding get_credentials_from_secret credentials_of_server
  resolve_server_credentials namespace ref =
      on_option ref.sql_server_ref
        (get_credentials_from_secret env namespace ref.credentials_secret.name)
        (λ name. (do
          fetched ← ask (get_sql_server namespace name)
          on_result fetched (λ e. pure (err (wrapped "failed to resolve SQLServer" e)))
              (credentials_of_server namespace)))

  module _ {Ok : Action Write → Type 0} where
    pub resolve_server_reference-Keeps :
        (namespace : String) (ref : ServerReference)
        → Keeps Ok (resolve_server_reference namespace ref)
    unfolding resolve_server_reference
    resolve_server_reference-Keeps namespace ref = search keeps_rules depth 12

    pub resolve_server_credentials-Keeps :
        (namespace : String) (ref : ServerReference)
        → Keeps Ok (resolve_server_credentials namespace ref)
    unfolding resolve_server_credentials credentials_of_server get_credentials_from_secret
        get_credentials_from_sa_password_secret
    resolve_server_credentials-Keeps namespace ref = search keeps_rules depth 14
