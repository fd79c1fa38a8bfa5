-- ===== src/Controller/OneShot.antt =====
-- The reconcilers of objects that are carried out once: internal/controller/backup_controller.go,
-- restore_controller.go and agfailover_controller.go.
pub mod Backup
pub mod Restore
pub mod Failover
pub mod Settles
mod Tests
pub mod Force
pub mod Done
pub mod Phases
use mssql_k8s_operator.Prelude.{String}
use mssql_k8s_operator.Controller.Env.{Env}
use mssql_k8s_operator.Controller.Effect.{Result}

-- What such a reconciler is given. All that it writes are statuses, each with its object.
pub record OneShotEnv (W Object : Type 0) : Type 1 where
  pub base : Env W Object
  -- r.Get of the object, by namespace and name
  pub get_object : String → String → W → Result Object × W
