-- ===== src/Controller/Group/Words.antt =====
-- The keywords of the configuration of a group.
-- The words that CREATE AVAILABILITY GROUP takes.
use mssql_k8s_operator.Api.AvailabilityGroup.{
  secondary_role_read_intent_only, AvailabilityGroupSpec, secondary_role_allow_all, AgReplicaSpec,
}
use mssql_k8s_operator.Sql.Client.{AgReplicaConfig, AgConfig}
use mssql_k8s_operator.Controller.Fencing.Steps.{map_cluster_type}
use mssql_k8s_operator.Controller.Group.Config.{
  map_seeding_mode, map_failover_mode, map_availability_mode, map_secondary_role, replica_config,
  config_of, map_backup_preference,
}
use mssql_k8s_operator.Prelude.{
  String, Bool, true, false, Option, none, some, List, [], ◌∷◌, map, ◌==◌, string_eq, nat_eq,
  int_eq, bool_eq, if◌then◌else◌, inl, inr, All, Bool-cases,
}

pub data IsAvailabilityWord : String → Type 0 where
  synchronous_commit : IsAvailabilityWord "SYNCHRONOUS_COMMIT"
  asynchronous_commit : IsAvailabilityWord "ASYNCHRONOUS_COMMIT"

pub data IsModeWord : String → Type 0 where
  automatic : IsModeWord "AUTOMATIC"
  manual : IsModeWord "MANUAL"

pub data IsRoleWord : String → Type 0 where
  no_connections : IsRoleWord "NO"
  all_connections : IsRoleWord "ALL"
  read_only : IsRoleWord "READ_ONLY"

pub data IsPreferenceWord : String → Type 0 where
  primary : IsPreferenceWord "PRIMARY"
  secondary : IsPreferenceWord "SECONDARY"
  secondary_only : IsPreferenceWord "SECONDARY_ONLY"
  no_preference : IsPreferenceWord "NONE"

-- A configuration whose keywords, which its statement does not quote, are all words of T-SQL.
pub record IsReplicaWorded (r : AgReplicaConfig) : Type 0 where
  pub availability : IsAvailabilityWord r.availability_mode
  pub failover : IsModeWord r.failover_mode
  pub seeding : IsModeWord r.seeding_mode
  pub secondary : IsRoleWord r.secondary_role

pub data IsClusterWord : String → Type 0 where
  wsfc : IsClusterWord "WSFC"
  external : IsClusterWord "EXTERNAL"
  no_cluster : IsClusterWord "NONE"
  not_given : IsClusterWord ""

abbrev pub IsWorded : AgConfig → Type 0
IsWorded config =
    All IsReplicaWorded config.replicas
    × IsPreferenceWord config.automated_backup_preference
    × IsClusterWord config.cluster_type

map_secondary_role-IsRoleWord : (role : String) → IsRoleWord (map_secondary_role role)
unfolding map_secondary_role
map_secondary_role-IsRoleWord role = elim (Bool-cases (role == secondary_role_allow_all)) [
  | inl e ↦ rw e all_connections
  | inr e ↦ rw e (elim (Bool-cases (role == secondary_role_read_intent_only)) [
    | inl f ↦ rw f read_only
    | inr f ↦ rw f no_connections
  ])
]

choose-IsModeWord : (b : Bool) → IsModeWord (if b then "MANUAL" else "AUTOMATIC")
choose-IsModeWord true = manual
choose-IsModeWord false = automatic

choose-IsAvailabilityWord :
    (b : Bool) → IsAvailabilityWord (if b then "ASYNCHRONOUS_COMMIT" else "SYNCHRONOUS_COMMIT")
choose-IsAvailabilityWord true = asynchronous_commit
choose-IsAvailabilityWord false = synchronous_commit

choose-IsPreferenceWord :
    (a b c : Bool)
    → IsPreferenceWord
        (if a then "PRIMARY" else if b then "SECONDARY_ONLY" else if c then "NONE" else "SECONDARY")
choose-IsPreferenceWord true b c = primary
choose-IsPreferenceWord false true c = secondary_only
choose-IsPreferenceWord false false true = no_preference
choose-IsPreferenceWord false false false = secondary

choose-IsClusterWord :
    (a b : Bool) → IsClusterWord (if a then "WSFC" else if b then "NONE" else "EXTERNAL")
choose-IsClusterWord true b = wsfc
choose-IsClusterWord false true = no_cluster
choose-IsClusterWord false false = external

replica_config-IsReplicaWorded : (r : AgReplicaSpec) → IsReplicaWorded (replica_config r)
unfolding replica_config map_availability_mode map_failover_mode map_seeding_mode
replica_config-IsReplicaWorded r = record {
  availability = choose-IsAvailabilityWord _;
  failover = choose-IsModeWord _;
  seeding = choose-IsModeWord _;
  secondary = map_secondary_role-IsRoleWord r.secondary_role;
}

replicas-IsReplicaWorded : (rs : List AgReplicaSpec) → All IsReplicaWorded (map replica_config rs)
replicas-IsReplicaWorded [] = tt
replicas-IsReplicaWorded (r ∷ rs) = (replica_config-IsReplicaWorded r, replicas-IsReplicaWorded rs)

preference-IsPreferenceWord :
    (pref : Option String)
    → IsPreferenceWord (elim pref [ none ↦ "SECONDARY" | some p ↦ map_backup_preference p ])
unfolding map_backup_preference
preference-IsPreferenceWord none = secondary
preference-IsPreferenceWord (some p) = choose-IsPreferenceWord _ _ _

cluster-IsClusterWord :
    (ct : Option String) → IsClusterWord (elim ct [ none ↦ "" | some c ↦ map_cluster_type c ])
unfolding map_cluster_type
cluster-IsClusterWord none = not_given
cluster-IsClusterWord (some c) = choose-IsClusterWord _ _

-- Whatever texts the specification of a group holds, each keyword of the configuration that the
-- creation of the group is given is one of the words that T-SQL has in its place: of each replica the
-- availability mode, the failover mode, the seeding mode and the connections of the secondary, and of
-- the group the backup preference and the cluster type, which may be left out.
pub config_of-IsWorded : (spec : AvailabilityGroupSpec) → IsWorded (config_of spec)
unfolding config_of
config_of-IsWorded spec = (
  replicas-IsReplicaWorded spec.replicas,
  preference-IsPreferenceWord spec.automated_backup_preference,
  cluster-IsClusterWord spec.cluster_type,
)
