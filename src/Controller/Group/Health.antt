-- ===== src/Controller/Group/Health.antt =====
-- Whether a group is reported ready, for what GetAGStatus of internal/sql/client.go reads: the column
-- synchronization_health_desc of a replica.
use mssql_k8s_operator.Prelude.{
  String, Bool, false, ◌&&◌, ◌||◌, List, [], ◌∷◌, ◌==◌, string_eq, nat_eq, int_eq, bool_eq, ◌≡◌,
  refl, sym, ap, ◌∙◌, inl, inr, arith, In,
}
use mssql_k8s_operator.Sql.Client.{AgReplicaState}
use mssql_k8s_operator.Controller.Group.{all_healthy, is_replica_healthy}

-- The values of that column; NOT_HEALTHY stands for a missing one too.
pub data IsHealthWord : String → Type 0 where
  not_healthy : IsHealthWord "NOT_HEALTHY"
  partially_healthy : IsHealthWord "PARTIALLY_HEALTHY"
  healthy : IsHealthWord "HEALTHY"

abbrev is_synchronous_word : String → Bool
is_synchronous_word state = (state == "SYNCHRONIZED") || (state == "SYNCHRONIZING")

is_synchronous_word-health_word :
    (word : String) → IsHealthWord word → is_synchronous_word word ≡ false
is_synchronous_word-health_word _ not_healthy = refl
is_synchronous_word-health_word _ partially_healthy = refl
is_synchronous_word-health_word _ healthy = refl

-- A status that lists a replica whose state is a value of the column that GetAGStatus reads is not
-- reported as healthy, whatever the other replicas are.
pub all_healthy-health_word :
    (rs : List AgReplicaState) (r : AgReplicaState)
    → In r rs
    → IsHealthWord r.synchronization_state
    → all_healthy rs ≡ false
unfolding all_healthy is_replica_healthy
all_healthy-health_word [] r mem word = elim mem [ ]
all_healthy-health_word (x ∷ rs) r (inl same) word =
    let unhealthy = is_synchronous_word-health_word r.synchronization_state word in
    let here : is_synchronous_word x.synchronization_state ≡ false =
      ap (λ y. is_synchronous_word y.synchronization_state) (sym same) ∙ unhealthy in
    ap (λ b. (x.connected && b) && all_healthy rs) here ∙ (ground arith)
all_healthy-health_word (x ∷ rs) r (inr mem) word =
    let rest = all_healthy-health_word rs r mem word in
    ap (λ b. is_replica_healthy x && b) rest ∙ (ground arith)
