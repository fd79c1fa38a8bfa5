-- ===== src/Lib.antt =====
-- Verification of the SQL Server operator for Kubernetes.
--
-- The program. The operator watches custom resources (databases, logins, users, schemas, permissions,
-- backups, availability groups, …). For each kind a reconciler reads the resource and its secrets from
-- the API server, connects to a SQL Server instance, compares, sends statements, and patches the
-- resource's status. Admission webhooks default and validate the resources.
--
-- The files.
--   Prelude            names of the libraries, tests on numbers and texts, lists, maps, Go's integers
--   Sql.Quote          internal/sql/quotename.go, and the permission statements of internal/sql/client.go
--   Sql.Client         internal/sql/interface.go: SqlCall is a method that changes a server, as a value;
--                      Questions are the methods that ask; a client is its factory's arguments, Endpoint
--   Api                the types of api/v1alpha1: Meta is common_types.go and the Lease of Kubernetes,
--                      AvailabilityGroup is availabilitygroup_types.go and agfailover_types.go, Objects
--                      the kinds of a server's objects, Backups the kinds of backups, SqlServer the
--                      instances
--   Webhook            the validators and defaults of api/v1alpha1/*_webhook.go: a validator returns the
--                      list of its errors; each Accept states when that list is empty
--   Controller.Effect  a reconciler's run: it passes on the outside world and a log of its actions. Keeps
--                      is about what a run logs, Ends about what it returns and leaves outside
--   Controller.Env     the API server, the client factory, the clock: parameters of every run
--   Controller.Helpers internal/controller/helpers.go: secrets and connections; Servers is its references
--                      to a SQLServer, Watches its map functions from a secret to the objects that use it
--   Controller.Fencing internal/controller/ag_fencing.go; the functions keep their names in snake case.
--                      Steps asks and fences one replica, Detect is detectAndResolveSplitBrain cut at its
--                      numbered steps, Stage is step 4b of Reconcile in availabilitygroup_controller.go;
--                      Breaker and Rivals are about its circuit-breaker
--   Controller.Group   internal/controller/availabilitygroup_controller.go: Leases is tryAcquireLease,
--                      AutoFailover handleAutoFailover, Config the names of SQL Server's options, Steps
--                      what Reconcile calls, Reconcile the order of its steps with the Stage above;
--                      Race is about two operators at one lease
--   Controller.OneShot the objects that are carried out once: backup_controller.go, restore_controller.go
--                      and agfailover_controller.go of internal/controller
--   Controller.Schedule internal/controller/scheduledbackup_controller.go: what it computes, Reconcile
--                      with its writes, and in Retention and Limits what the retention policy deletes
--   Controller.Object  what the reconcilers of one kind of object share, with requeueWithJitter: Lifecycle
--                      is their conditions, finalizers and deletion, Sets the two loops over names
--   Controller.Database, DatabaseUser, Schema, Login, Permission
--                      the reconcilers internal/controller/database_controller.go and so on; Reconcile is
--                      the order of the steps
--   Tests              in each part: small runs, and the theorems at concrete objects
--
-- How it is modelled. A Go function with effects is a function from a state (the outside world W, an
-- arbitrary type, and the log) to a result and a state; a pointer that it changes in place is returned.
-- Go's maps are association lists; where the program ranges over one, the order is a parameter. An index
-- into a slice is the element. Loops are recursions on the list they range over, so there is no fuel.
-- Times are natural numbers of nanoseconds, durations integers; time.Since(t) < d is a comparison of
-- sums, as long as the difference fits Go's Duration (292 years). int32 counters wrap.
--
-- Not modelled: contexts and timeouts, closing of connections, log lines, metrics, the texts of events
-- and of conditions, the messages of field errors, the reconciler of SQLServer, the statements of
-- internal/sql/client.go other than those on permissions, the set-up of the manager, resource versions
-- and conflicts of writes other than of a lease (a write's result is whatever the outside world says),
-- owner references, and the changes that a successful patch makes to the object in memory.
mod Prelude
pub mod Sql
pub mod Api
pub mod Controller
pub mod Webhook
