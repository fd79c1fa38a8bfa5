-- ===== src/Controller/Object/Sets.antt =====
-- Two sets of names, one that a server keeps and one that a specification lists: the loop that the
-- reconcilers of logins and users run over each, and what the two loops come to.
use mssql_k8s_operator.Prelude.{
  String, Bool, true, false, not, ◌&&◌, ◌||◌, List, [], ◌∷◌, ◌==◌, string_eq, nat_eq, int_eq,
  bool_eq, if◌then◌else◌, ◌≡◌, refl, sym, ap, ◌∙◌, inl, inr, arith, eq_iff, Bool-cases,
}
use mssql_k8s_operator.Controller.Effect.Keeps.{
  Keeps-note, Keeps-on_result, Keeps-bind, Keeps-if, Keeps-perform, Keeps-pure, Keeps,
}
use mssql_k8s_operator.Sql.Client.{SqlCall, Endpoint}
use mssql_k8s_operator.Controller.Env.{Env}
use mssql_k8s_operator.Controller.Object.{ObjectWrite, ObjectEnv, contains_text}
use mssql_k8s_operator.Controller.Effect.{
  note, wrapped, err, on_result, pure, normal, Result, EventType, ok, St, Run, Action, ◌>>=◌, ◌>>◌,
}
use mssql_k8s_operator.Controller.Helpers.{exec}

module _ {W Write : Type 0} (env : Env W Write) where
  -- `for name := range names`, less those that are in `known`: the call for each, until one fails
  unfoldable pub call_for_missing :
      Endpoint
      → (String → SqlCall)
      → String
      → String
      → List String
      → List String
      → Run W Write (Result (Unit {0}))
  unfolding contains_text
  call_for_missing client call context reason known [] = pure (ok tt)
  call_for_missing client call context reason known (name ∷ names) =
      let rest = call_for_missing client call context reason known names in
      if contains_text name known then rest else (do
        called ← exec env client (call name)
        on_result called (λ e. pure (err (wrapped context e)))
            (λ _. (do note (Action.event normal reason); rest)))

  pub call_for_missing-Keeps :
      {Ok : Action Write → Type 0} (client : Endpoint) (call : String → SqlCall)
      (context reason : String) (known names : List String)
      → ((t : EventType) (reason : String) → Ok (Action.event t reason))
      → ((name : String)
          → contains_text name names ≡ true
          → contains_text name known ≡ false
          → Ok (Action.sql client (call name)))
      → Keeps Ok (call_for_missing client call context reason known names)
  unfolding call_for_missing contains_text
  call_for_missing-Keeps client call context reason known [] noted sent = Keeps-pure (ok tt)
  call_for_missing-Keeps {Ok = Ok} client call context reason known (name ∷ names) noted sent =
      let rest : Keeps Ok (call_for_missing client call context reason known names) =
        call_for_missing-Keeps {Ok = Ok} client call context reason known names noted
          (λ k here. sent k (ground (arith, here))) in
      Keeps-if (contains_text name known) _ _ (λ _. rest)
        (λ missing.
          Keeps-bind (exec env client (call name)) _
            (Keeps-perform (Action.sql client (call name)) (env.exec client (call name))
              (sent name (ground (arith, eq_iff name name)) missing))
            (λ r.
              Keeps-on_result r _ _ (λ e. Keeps-pure (err (wrapped context e)))
                (λ _. Keeps-bind _ _ (Keeps-note _ (noted normal reason)) (λ _. rest))))

module _ {W Object : Type 0} (env : ObjectEnv W Object) where
  -- the names that are missing are added, then those that are not desired are removed
  unfoldable pub reconcile_names :
      Endpoint
      → (String → SqlCall)
      → (String → SqlCall)
      → String
      → String
      → List String
      → List String
      → Run W (ObjectWrite Object) (Result (Unit {0}))
  unfolding call_for_missing
  reconcile_names client add remove added_reason removed_reason desired current = do
    added ←
        call_for_missing env.base client add "failed to add role" added_reason current
          (env.range_set desired)
    on_result added (λ e. pure (err e))
        (λ _.
          call_for_missing env.base client remove "failed to remove role" removed_reason desired
            (env.range_set current))

  pub reconcile_names-Keeps :
      {Ok : Action (ObjectWrite Object) → Type 0} (client : Endpoint)
      (add remove : String → SqlCall) (added_reason removed_reason : String)
      (desired current : List String)
      → ((names : List String) (k : String)
          → contains_text k (env.range_set names) ≡ contains_text k names)
      → ((t : EventType) (reason : String) → Ok (Action.event t reason))
      → ((name : String) → contains_text name desired ≡ true → Ok (Action.sql client (add name)))
      → ((name : String)
          → contains_text name desired ≡ false
          → Ok (Action.sql client (remove name)))
      → Keeps Ok (reconcile_names client add remove added_reason removed_reason desired current)
  unfolding reconcile_names
  reconcile_names-Keeps client add remove added_reason removed_reason desired current range_keys
        noted adding removing =
      Keeps-bind _ _
        (call_for_missing-Keeps env.base client add "failed to add role" added_reason current
          (env.range_set desired) noted
          (λ name here _. adding name (sym (range_keys desired name) ∙ here)))
        (λ r.
          Keeps-on_result r _ _ (λ e. Keeps-pure (err e))
            (λ _.
              call_for_missing-Keeps env.base client remove "failed to remove role" removed_reason
                desired (env.range_set current) noted (λ name _ missing. removing name missing)))

-- What a server promises of a set of names that it keeps: `add` and `remove` change it.
pub record SetLaws {W Write : Type 0} (env : Env W Write) (client : Endpoint)
    (names_of : W → List String) (add remove : String → SqlCall) : Type 0 where
  pub add_ok : (name : String) (w : W) → (env.exec client (add name) w).0 ≡ ok tt
  pub add_name :
      (name k : String) (w : W)
      → contains_text k (names_of (env.exec client (add name) w).1)
        ≡ (contains_text k (names_of w) || (name == k))
  pub remove_ok : (name : String) (w : W) → (env.exec client (remove name) w).0 ≡ ok tt
  pub remove_name :
      (name k : String) (w : W)
      → contains_text k (names_of (env.exec client (remove name) w).1)
        ≡ (contains_text k (names_of w) && not (name == k))

-- The truth tables of one step of each loop.
or_false : (a : Bool) → a ≡ (a || false)
or_false true = refl
or_false false = refl

and_true : (a : Bool) → a ≡ (a && true)
and_true true = refl
and_true false = refl

same_contains :
    (name k : String) (names : List String)
    → (name == k) ≡ true
    → contains_text k names ≡ contains_text name names
same_contains name k names f = ap (λ x. contains_text x names) (sym ((eq_iff name k).0 f))

skip_lem :
    (name k : String) (names : List String) (rest : Bool)
    → contains_text name names ≡ true
    → (rest && not (contains_text k names)) ≡ (((name == k) || rest) && not (contains_text k names))
skip_lem name k names rest e = elim (Bool-cases (name == k)) [
  | inl f ↦ rw (f, same_contains name k names f, e) (ground arith)
  | inr f ↦ rw f refl
]

add_lem :
    (name k : String) (names : List String) (had rest : Bool)
    → contains_text name names ≡ false
    → ((had || (name == k)) || (rest && not (contains_text k names)))
      ≡ (had || (((name == k) || rest) && not (contains_text k names)))
add_lem name k names had rest e = elim (Bool-cases (name == k)) [
  | inl f ↦ rw (f, same_contains name k names f, e) (ground arith)
  | inr f ↦ rw f (ground arith)
]

remove_lem :
    (name k : String) (names : List String) (had rest : Bool)
    → contains_text name names ≡ false
    → ((had && not (name == k)) && not (rest && not (contains_text k names)))
      ≡ (had && not (((name == k) || rest) && not (contains_text k names)))
remove_lem name k names had rest e = elim (Bool-cases (name == k)) [
  | inl f ↦ rw (f, same_contains name k names f, e) (ground arith)
  | inr f ↦ rw f (ground arith)
]

module _ {W Write : Type 0} {env : Env W Write} {client : Endpoint} {names_of : W → List String}
    {add remove : String → SqlCall} (laws : SetLaws env client names_of add remove)
    (context reason : String) where
  pub add_missing-result :
      (current names : List String) (k : String) (s : St W Write)
      → ((call_for_missing env client add context reason current names s).0 ≡ ok tt)
        × (contains_text k
              (names_of (call_for_missing env client add context reason current names s).1.outside)
            ≡ (contains_text k (names_of s.outside)
                || (contains_text k names && not (contains_text k current))))
  unfolding call_for_missing contains_text
  add_missing-result current [] k s = (refl, or_false (contains_text k (names_of s.outside)))
  add_missing-result current (name ∷ names) k s = elim (Bool-cases (contains_text name current)) [
    | inl e ↦ rw e (
        let rest = add_missing-result current names k s in
        (
          rest.0,
          rest.1
              ∙ ap (λ b. contains_text k (names_of s.outside) || b)
                  (skip_lem name k current (contains_text k names) e),
        ))
    | inr e ↦
        rw (e, laws.add_ok name s.outside)
          (let rest = add_missing-result current names k (record {
            outside = (env.exec client (add name) s.outside).1;
            log = Action.event normal reason ∷ Action.sql client (add name) ∷ s.log;
          }) in
            (
              rest.0,
              rest.1
                  ∙ ap (λ b. b || (contains_text k names && not (contains_text k current)))
                      (laws.add_name name k s.outside)
                  ∙ add_lem name k current (contains_text k (names_of s.outside))
                      (contains_text k names) e,
            ))
  ]

  pub remove_missing-result :
      (desired names : List String) (k : String) (s : St W Write)
      → ((call_for_missing env client remove context reason desired names s).0 ≡ ok tt)
        × (contains_text k (
              names_of
                (call_for_missing env client remove context reason desired names s).1.outside)
            ≡ (contains_text k (names_of s.outside)
                && not (contains_text k names && not (contains_text k desired))))
  unfolding call_for_missing contains_text
  remove_missing-result desired [] k s = (refl, and_true (contains_text k (names_of s.outside)))
  remove_missing-result desired (name ∷ names) k s =
      elim (Bool-cases (contains_text name desired)) [
        | inl e ↦ rw e (
            let rest = remove_missing-result desired names k s in
            (
              rest.0,
              rest.1
                  ∙ ap (λ b. contains_text k (names_of s.outside) && not b)
                      (skip_lem name k desired (contains_text k names) e),
            ))
        | inr e ↦
            rw (e, laws.remove_ok name s.outside)
              (let rest = remove_missing-result desired names k (record {
                outside = (env.exec client (remove name) s.outside).1;
                log = Action.event normal reason ∷ Action.sql client (remove name) ∷ s.log;
              }) in
                (
                  rest.0,
                  rest.1
                      ∙ ap (λ b. b && not (contains_text k names && not (contains_text k desired)))
                          (laws.remove_name name k s.outside)
                      ∙ remove_lem name k desired (contains_text k (names_of s.outside))
                          (contains_text k names) e,
                ))
      ]

both_lem :
    (current desired : Bool)
    → ((current || (desired && not current)) && not (current && not desired)) ≡ desired
both_lem current desired = ground arith

module _ {W Object : Type 0} (env : ObjectEnv W Object) {client : Endpoint}
    {names_of : W → List String} {add remove : String → SqlCall}
    (laws : SetLaws env.base client names_of add remove)
    (range_keys : (names : List String) (k : String)
      → contains_text k (env.range_set names) ≡ contains_text k names) where
  -- What the two loops come to: the names are those that are desired.
  pub reconcile_names-converges :
      (added_reason removed_reason : String) (desired : List String) (k : String)
      (s : St W (ObjectWrite Object))
      → ((reconcile_names env client add remove added_reason removed_reason desired
            (names_of s.outside)
            s).0
          ≡ ok tt)
        × (contains_text k (
              names_of
                (reconcile_names env client add remove added_reason removed_reason desired
                  (names_of s.outside)
                  s).1.outside)
            ≡ contains_text k desired)
  unfolding reconcile_names
  reconcile_names-converges added_reason removed_reason desired k s =
      let current = names_of s.outside in
      let added =
        add_missing-result laws "failed to add role" added_reason current (env.range_set desired) k
          s in
      let removed =
        remove_missing-result laws "failed to remove role" removed_reason desired
          (env.range_set current) k
          (call_for_missing env.base client add "failed to add role" added_reason current
            (env.range_set desired) s).1 in
      rw (added.0) (
        removed.0,
        removed.1
            ∙ ap
                (λ b.
                  b
                  && not (contains_text k (env.range_set current) && not (contains_text k desired)))
                added.1
            ∙ rw (range_keys desired k, range_keys current k)
                (both_lem (contains_text k current) (contains_text k desired)),
      )
