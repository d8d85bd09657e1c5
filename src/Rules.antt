-- ===== src/Rules.antt =====
-- src/routers/_rules.py: which parts a contract may join.
pub mod Pairs
use titan_tyr.Prelude.{
  Bool, true, false, ◌&&◌, not, Option, none, some, List, [], ◌∷◌, map, any, ◌==◌, Result, ok, err,
  key_error, if◌then◌else◌,
}
use titan_tyr.Models.Kinds.{
  PartSubtype, software, container, image, pod, compose, deployment, statefulset, service, ingress,
  secret, configmap, job, chart, PartSubtype-eq, ContractSubtype, interaction, binding, connection,
  ConnectionType, builds_from, instantiates, runs, composes, depends_on, submodule, serves_static,
  selects, routes_to, consumed_by,
}

abbrev pub binding_owner_subtypes : List PartSubtype
binding_owner_subtypes = container ∷ pod ∷ []

-- CONNECTION_RULES
unfoldable pub connection_rules : ConnectionType → List (PartSubtype × PartSubtype)
connection_rules builds_from = (software, image) ∷ []
connection_rules instantiates = (image, container) ∷ (image, pod) ∷ []
connection_rules runs = (container, software) ∷ (pod, software) ∷ []
connection_rules composes =
    (compose, container)
    ∷ (deployment, pod)
    ∷ (statefulset, pod)
    ∷ (job, pod)
    ∷ (pod, container)
    ∷ (chart, deployment)
    ∷ (chart, statefulset)
    ∷ (chart, job)
    ∷ (chart, service)
    ∷ (chart, ingress)
    ∷ (chart, secret)
    ∷ (chart, configmap)
    ∷ []
connection_rules depends_on = (container, container) ∷ []
connection_rules submodule = (software, software) ∷ []
connection_rules serves_static = (software, software) ∷ []
connection_rules selects = (service, deployment) ∷ (service, statefulset) ∷ []
connection_rules routes_to = (ingress, service) ∷ []
connection_rules consumed_by =
    (secret, deployment)
    ∷ (secret, statefulset)
    ∷ (secret, job)
    ∷ (configmap, deployment)
    ∷ (configmap, statefulset)
    ∷ (configmap, job)
    ∷ []

-- `x in xs`
unfoldable pub member : PartSubtype → List PartSubtype → Bool
member x xs = any (λ y. x == y) xs

abbrev owner_of : PartSubtype × PartSubtype → PartSubtype
owner_of p = p.0

abbrev counterparty_of : PartSubtype × PartSubtype → PartSubtype
counterparty_of p = p.1

-- `{p[0] for p in …}` and `{p[1] for p in …}`, of which only membership is read.
unfoldable pub allowed_owner_subtypes : ConnectionType → List PartSubtype
allowed_owner_subtypes t = map owner_of (connection_rules t)

unfoldable pub allowed_counterparty_subtypes : ConnectionType → List PartSubtype
allowed_counterparty_subtypes t = map counterparty_of (connection_rules t)

unfoldable pub is_pair_allowed : ConnectionType → PartSubtype → PartSubtype → Bool
is_pair_allowed t o c =
    any (λ (p : PartSubtype × PartSubtype). o == p.0 && c == p.1) (connection_rules t)

-- Which of the checks on the endpoints fails first.
pub data Violation : Type 0 where
  owner_subtype counterparty_subtype pair : Violation

-- The checks of a `binding` contract, on the subtypes of its owner and counterparty.
unfoldable pub binding_violation : PartSubtype → PartSubtype → Option Violation
binding_violation o c =
    if not (member o binding_owner_subtypes)
    then some owner_subtype
    else if not (c == software)
    then some counterparty_subtype
    else none

-- The checks of a `connection` contract with a given label.
unfoldable pub connection_violation : ConnectionType → PartSubtype → PartSubtype → Option Violation
connection_violation t o c =
    if not (member o (allowed_owner_subtypes t))
    then some owner_subtype
    else if not (member c (allowed_counterparty_subtypes t))
    then some counterparty_subtype
    else if not (is_pair_allowed t o c)
    then some pair
    else none

-- `_check_contract_shift_source_target` and `_check_endpoint_shift_source_target`: `none` is 'pass'.
-- A `connection` with no label looks up `CONNECTION_RULES[None]`.
unfoldable pub check_source_target :
    PartSubtype → PartSubtype → ContractSubtype → Option ConnectionType → Result (Option Violation)
check_source_target o c interaction t = ok none
check_source_target o c binding t = ok (binding_violation o c)
check_source_target o c connection none = err key_error
check_source_target o c connection (some t) = ok (connection_violation t o c)
