-- ===== src/Controller/Group/Config.antt =====
-- availabilitygroup_controller.go: the words of T-SQL for the words of the resource, and the
-- configuration that createAG and reconcileListener make of a group.
use mssql_k8s_operator.Prelude.{
  String, true, none, some, map, ◌==◌, string_eq, nat_eq, int_eq, bool_eq, pos, if◌then◌else◌,
}
use mssql_k8s_operator.Sql.Client.{AgConfig, AgListenerIpConfig, AgListenerConfig, AgReplicaConfig}
use mssql_k8s_operator.Controller.Fencing.Steps.{map_cluster_type}
use mssql_k8s_operator.Api.AvailabilityGroup.{
  AvailabilityGroupSpec, secondary_role_read_intent_only, AgListenerIp, AgReplicaSpec,
  AgListenerSpec, AgDatabaseSpec, secondary_role_allow_all, seeding_mode_manual,
  availability_mode_asynchronous, failover_mode_manual,
}

unfoldable pub map_availability_mode : String → String
map_availability_mode mode =
    if mode == availability_mode_asynchronous then "ASYNCHRONOUS_COMMIT" else "SYNCHRONOUS_COMMIT"

unfoldable pub map_failover_mode : String → String
map_failover_mode mode = if mode == failover_mode_manual then "MANUAL" else "AUTOMATIC"

unfoldable pub map_seeding_mode : String → String
map_seeding_mode mode = if mode == seeding_mode_manual then "MANUAL" else "AUTOMATIC"

unfoldable pub map_secondary_role : String → String
map_secondary_role role =
    if role == secondary_role_allow_all
    then "ALL"
    else if role == secondary_role_read_intent_only
    then "READ_ONLY"
    else "NO"

unfoldable pub map_backup_preference : String → String
map_backup_preference pref =
    if pref == "Primary"
    then "PRIMARY"
    else if pref == "SecondaryOnly"
    then "SECONDARY_ONLY"
    else if pref == "None"
    then "NONE"
    else "SECONDARY"

unfoldable pub replica_config : AgReplicaSpec → AgReplicaConfig
unfolding map_availability_mode map_failover_mode map_seeding_mode map_secondary_role
replica_config r = record {
  server_name = r.server_name;
  endpoint_url = r.endpoint_url;
  availability_mode = map_availability_mode r.availability_mode;
  failover_mode = map_failover_mode r.failover_mode;
  seeding_mode = map_seeding_mode r.seeding_mode;
  secondary_role = map_secondary_role r.secondary_role;
}

abbrev pub database_name_of : AgDatabaseSpec → String
database_name_of d = d.name

unfoldable pub config_of : AvailabilityGroupSpec → AgConfig
unfolding map_backup_preference map_cluster_type replica_config
config_of spec = record {
  name = spec.ag_name;
  replicas = map replica_config spec.replicas;
  databases = map database_name_of spec.databases;
  automated_backup_preference = elim spec.automated_backup_preference [
    | none ↦ "SECONDARY"
    | some pref ↦ map_backup_preference pref
  ];
  db_failover = elim spec.db_failover [ none ↦ true | some b ↦ b ];
  cluster_type = elim spec.cluster_type [ none ↦ "" | some ct ↦ map_cluster_type ct ];
}

abbrev pub listener_ip_config : AgListenerIp → AgListenerIpConfig
listener_ip_config ip = record { ip = ip.ip; subnet_mask = ip.subnet_mask }

unfoldable pub listener_config : AgListenerSpec → AgListenerConfig
listener_config listener = record {
  name = listener.name;
  port = elim listener.port [ none ↦ pos 1433 | some port ↦ port ];
  ip_addresses = map listener_ip_config listener.ip_addresses;
}
