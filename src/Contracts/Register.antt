-- ===== src/Contracts/Register.antt =====
-- `register_contract` of src/routers/contracts.py
pub mod Checks
pub mod Written
pub mod Admission
use titan_tyr.Prelude.{
  ℕ, Bool, true, false, ◌&&◌, ◌||◌, not, Option, none, some, List, [], ◌∷◌, ◌++◌, String, Result,
  ok, err, http, key_error, ◌>>=◌, ◌>>◌, raise_if, ◌==◌, ℕ-eq, String-eq, Option-eq, select, any,
}
use titan_tyr.Models.Kinds.{
  PartSubtype, software, container, image, pod, compose, deployment, statefulset, service, ingress,
  secret, configmap, job, chart, ContractSubtype, interaction, binding, connection,
  ContractSubtype-eq, ConnectionType, ConnectionType-eq, active,
}
use titan_tyr.Models.Rows.{Uuid, Part, Contract, ContractVersion, Db}
use titan_tyr.Rules.{
  Violation, member, binding_violation, connection_violation, allowed_owner_subtypes,
  allowed_counterparty_subtypes,
}
use titan_tyr.Session.Queries.{Call, scalar_one_or_none, or_raise}
use titan_tyr.Session.Live.{is_live, live_parts_named, same_key, add_contract}
use titan_tyr.Session.Versions.{validated, add_contract_version}
use titan_tyr.Session.Projects.{resolve_project_slug}
use titan_tyr.Versioning.{Version}
use titan_tyr.Versioning.Text.{parse, show}

pub record ContractCreate : Type 0 where
  pub owner_part : String
  pub counterparty_part : String
  pub subtype : ContractSubtype
  pub connection_type : Option ConnectionType
  pub markdown : List ℕ
  pub version : List ℕ
  pub project : Option String

pub record ContractCreateResponse : Type 0 where
  pub contract_id : Uuid
  pub owner : String
  pub counterparty : String
  pub subtype : ContractSubtype
  pub connection_type : Option ConnectionType
  pub version : List ℕ
  pub project : Option String

-- `_PART_SUBTYPES_IMPLEMENTED`
abbrev part_subtypes_implemented : List PartSubtype
part_subtypes_implemented =
    software ∷ container ∷ image ∷ pod ∷ compose ∷ deployment ∷ statefulset ∷ service ∷ ingress
    ∷ secret ∷ configmap ∷ job ∷ chart ∷ []

-- `_check_part_subtype_implemented`: some required subtype is not implemented, and none is.
unfoldable pub check_part_subtype_implemented : List PartSubtype → Result (Unit {0})
check_part_subtype_implemented required =
    raise_if
      (any (λ s. not (member s part_subtypes_implemented)) required
        && not (any (λ s. member s part_subtypes_implemented) required))
      422

-- `_resolve_part`
unfoldable pub resolve_part : Db → String → Result Part
resolve_part db name = do found ← scalar_one_or_none (live_parts_named db name); or_raise 404 found

abbrev pub is_connection : ContractSubtype → Bool
is_connection connection = true
is_connection _ = false

abbrev pub is_none {ℓ} : {A : Type ℓ} → Option A → Bool
is_none none = true
is_none (some _) = false

abbrev pub violates : Option Violation → Bool
violates none = false
violates (some _) = true

-- `connection_type` is required exactly for a `connection`: both failures are a 422.
unfoldable pub check_connection_type : ContractSubtype → Option ConnectionType → Result (Unit {0})
check_connection_type subtype connection_type = do
  raise_if (is_connection subtype && is_none connection_type) 422
  raise_if (not (is_connection subtype) && not (is_none connection_type)) 422

-- The source and target checks of `register_contract`.
unfoldable pub check_register_endpoints :
    ContractSubtype → Option ConnectionType → PartSubtype → PartSubtype → Result (Unit {0})
check_register_endpoints interaction t o c = ok tt
check_register_endpoints binding t o c = raise_if (violates (binding_violation o c)) 422
check_register_endpoints connection none o c = err key_error
check_register_endpoints connection (some t) o c = do
  check_part_subtype_implemented (allowed_owner_subtypes t)
  check_part_subtype_implemented (allowed_counterparty_subtypes t)
  raise_if (violates (connection_violation t o c)) 422

-- The row that the handler builds.
abbrev pub new_contract : Call → ContractCreate → Uuid → Uuid → Option Uuid → Contract
new_contract call payload owner_id counterparty_id project_id = record {
  id = call.new_id;
  owner_part_id = owner_id;
  counterparty_part_id = counterparty_id;
  subtype = payload.subtype;
  connection_type = payload.connection_type;
  created_at = call.server_now;
  subtype_shifted_from = none;
  connection_type_shifted_from = none;
  subtype_shifted_at = none;
  owner_actor = call.x_actor;
  project_id = project_id;
  endpoint_shifted_from_owner = none;
  endpoint_shifted_from_counterparty = none;
  endpoint_shifted_at = none;
  deleted_at = none;
  deleted_by_proposer_actor = none;
  deleted_by_acceptor_actor = none;
  deletion_rationale = none;
  deletion_single_operator_override = false;
}

-- Its first version, which is active at once.
abbrev pub first_version : Call → ContractCreate → Version → ContractVersion
first_version call payload version = record {
  id = call.new_version_id;
  contract_id = call.new_id;
  version_major = version.major;
  version_minor = version.minor;
  version_patch = version.patch;
  prerelease = none;
  markdown = payload.markdown;
  status = active;
  created_at = call.server_now;
  accepted_at = none;
  promoted_from_prerelease = none;
  proposer_actor = none;
  acceptor_actor = none;
  single_operator_override = false;
}

-- The existence check: live rows with the key of the new one.
unfoldable pub contracts_with_key : Db → Contract → List Contract
contracts_with_key db c =
    select (λ (d : Contract). same_key c d && is_live d.deleted_at) db.contracts

-- `POST /contracts`. The version is parsed by the payload's validator before anything else.
unfoldable pub register_contract : Call → ContractCreate → Db → Result (ContractCreateResponse × Db)
register_contract call payload db = do
  version ← validated (parse false payload.version)
  raise_if (payload.owner_part == payload.counterparty_part) 422
  check_connection_type payload.subtype payload.connection_type
  owner ← resolve_part db payload.owner_part
  counterparty ← resolve_part db payload.counterparty_part
  check_register_endpoints payload.subtype payload.connection_type owner.subtype
      counterparty.subtype
  existing ←
      scalar_one_or_none
        (contracts_with_key db (new_contract call payload owner.id counterparty.id none))
  raise_if (not (is_none existing)) 409
  project_id ← resolve_project_slug db payload.project
  db1 ← add_contract (new_contract call payload owner.id counterparty.id project_id) db
  db2 ← add_contract_version (first_version call payload version) db1
  ok (
    record {
      contract_id = call.new_id;
      owner = owner.name;
      counterparty = counterparty.name;
      subtype = payload.subtype;
      connection_type = payload.connection_type;
      version = show version;
      project = payload.project;
    },
    db2,
  )
