-- ===== src/Contracts/Subtype.antt =====
-- `propose_contract_subtype_shift` and `accept_contract_subtype_shift` of src/routers/contracts.py
pub mod Accept
use titan_tyr.Prelude.{
  ℕ, Bool, true, false, ◌&&◌, not, Option, none, some, List, [], ◌∷◌, ◌++◌, String, Result, ok,
  ◌>>=◌, ◌>>◌, raise_if, ◌==◌, ℕ-eq, Option-eq, select, update,
}
use titan_tyr.Models.Kinds.{
  ContractSubtype, interaction, binding, connection, ContractSubtype-eq, ConnectionType,
  ConnectionType-eq, proposal, accepted,
}
use titan_tyr.Models.Rows.{
  Uuid, Timestamp, Actor, Contract, ContractSubtypeProposal, ContractVersion, Db,
}
use titan_tyr.Rules.{check_source_target}
use titan_tyr.Session.Queries.{Call, scalar_one_or_none, or_raise, attribute}
use titan_tyr.Session.Live.{get_part_row, save_contract}
use titan_tyr.Session.Versions.{latest_active_contract_version}
use titan_tyr.Handshake.{enforce_two_party}
use titan_tyr.Texts.{codes, body_realign_required}
use titan_tyr.Contracts.Register.{is_connection, is_none, violates}
use titan_tyr.Contracts.Common.{live_contract, is_open}

pub record ContractSubtypeShiftCreate : Type 0 where
  pub new_subtype : ContractSubtype
  pub new_connection_type : Option ConnectionType
  pub rationale : String

-- The contract's new subtype as the name of a template.
abbrev pub contract_kind : ContractSubtype → List ℕ
contract_kind interaction = codes "interaction"
contract_kind binding = codes "binding"
contract_kind connection = codes "connection"

-- The contract is already of that kind.
abbrev pub is_noop : Contract → ContractSubtype → Option ConnectionType → Bool
is_noop c new_subtype new_connection_type =
    new_subtype == c.subtype && new_connection_type == c.connection_type

-- `_validate_contract_shift_payload`
unfoldable pub validate_contract_shift_payload :
    Contract → ContractSubtypeShiftCreate → Result (Unit {0})
validate_contract_shift_payload current payload = do
  raise_if (is_connection payload.new_subtype && is_none payload.new_connection_type) 422
  raise_if (not (is_connection payload.new_subtype) && not (is_none payload.new_connection_type))
      422
  raise_if (is_noop current payload.new_subtype payload.new_connection_type) 409

-- `latest.markdown if latest else None`
abbrev pub markdown_of : Option ContractVersion → Option (List ℕ)
markdown_of none = none
markdown_of (some r) = some r.markdown

pub record ContractSubtypeShiftCreateResponse : Type 0 where
  pub proposal_id : Uuid
  pub contract_id : Uuid
  pub current_subtype : ContractSubtype
  pub current_connection_type : Option ConnectionType
  pub new_subtype : ContractSubtype
  pub new_connection_type : Option ConnectionType
  pub body_realign_required : Bool

-- `POST /contracts/{contract_id}/subtype-proposals`
unfoldable pub propose_contract_subtype_shift :
    Call → Uuid → ContractSubtypeShiftCreate → Db → Result (ContractSubtypeShiftCreateResponse × Db)
propose_contract_subtype_shift call contract_id payload db = do
  contract ← live_contract db contract_id
  validate_contract_shift_payload contract payload
  owner ← attribute (get_part_row db contract.owner_part_id)
  counterparty ← attribute (get_part_row db contract.counterparty_part_id)
  validation ←
      check_source_target owner.subtype counterparty.subtype payload.new_subtype
        payload.new_connection_type
  raise_if (violates validation) 422
  let body_md = markdown_of (latest_active_contract_version db contract.id)
  let realign = body_realign_required body_md (contract_kind payload.new_subtype)
  ok (
    record {
      proposal_id = call.new_id;
      contract_id = contract.id;
      current_subtype = contract.subtype;
      current_connection_type = contract.connection_type;
      new_subtype = payload.new_subtype;
      new_connection_type = payload.new_connection_type;
      body_realign_required = realign;
    },
    record db {
      contract_subtype_proposals =
          db.contract_subtype_proposals
          ++ record {
            id = call.new_id;
            contract_id = contract.id;
            current_subtype_at_propose = contract.subtype;
            current_connection_type_at_propose = contract.connection_type;
            new_subtype = payload.new_subtype;
            new_connection_type = payload.new_connection_type;
            rationale = payload.rationale;
            proposer_actor = call.x_actor;
            body_realign_required = realign;
            status = proposal;
            created_at = call.server_now;
            accepted_at = none;
            accepted_by = none;
            single_operator_override = false;
          }
            ∷ [];
    },
  )

pub record ContractSubtypeShiftAcceptResponse : Type 0 where
  pub proposal_id : Uuid
  pub contract_id : Uuid
  pub shifted_from_subtype : ContractSubtype
  pub shifted_to_subtype : ContractSubtype
  pub shifted_from_connection_type : Option ConnectionType
  pub shifted_to_connection_type : Option ConnectionType
  pub accepted_at : Timestamp
  pub accepted_by : Actor
  pub body_realign_required : Bool
  pub single_operator_override : Bool

-- The contract that an accepted shift writes.
abbrev pub shifted : Call → Contract → ContractSubtypeProposal → Contract
shifted call contract p = record contract {
  subtype = p.new_subtype;
  connection_type = p.new_connection_type;
  subtype_shifted_from = some contract.subtype;
  connection_type_shifted_from = contract.connection_type;
  subtype_shifted_at = some call.now;
}

-- The proposal after the acceptance.
abbrev pub settle : Call → Bool → ContractSubtypeProposal → ContractSubtypeProposal
settle call single_operator p = record p {
  status = accepted;
  accepted_at = some call.now;
  accepted_by = call.x_actor;
  single_operator_override = single_operator;
}

-- The rows with the proposal's identifier, under the contract.
unfoldable pub shift_proposals : Db → Uuid → Uuid → List ContractSubtypeProposal
shift_proposals db proposal_id contract_id =
    select (λ (p : ContractSubtypeProposal). p.id == proposal_id && p.contract_id == contract_id)
      db.contract_subtype_proposals

-- `POST /contracts/{contract_id}/subtype-proposals/{proposal_id}/accept`
unfoldable pub accept_contract_subtype_shift :
    Call → Uuid → Uuid → Bool → Db → Result (ContractSubtypeShiftAcceptResponse × Db)
accept_contract_subtype_shift call contract_id proposal_id single_operator db = do
  contract ← live_contract db contract_id
  found ← scalar_one_or_none (shift_proposals db proposal_id contract.id)
  p ← or_raise 404 found
  raise_if (not (is_open p.status)) 409
  enforce_two_party p.proposer_actor call.x_actor single_operator
  owner ← attribute (get_part_row db contract.owner_part_id)
  counterparty ← attribute (get_part_row db contract.counterparty_part_id)
  validation ←
      check_source_target owner.subtype counterparty.subtype p.new_subtype p.new_connection_type
  raise_if (violates validation) 422
  raise_if (is_noop contract p.new_subtype p.new_connection_type) 409
  db1 ← save_contract (shifted call contract p) db
  ok (
    record {
      proposal_id = p.id;
      contract_id = contract.id;
      shifted_from_subtype = contract.subtype;
      shifted_to_subtype = p.new_subtype;
      shifted_from_connection_type = contract.connection_type;
      shifted_to_connection_type = p.new_connection_type;
      accepted_at = call.now;
      accepted_by = call.x_actor;
      body_realign_required = p.body_realign_required;
      single_operator_override = single_operator;
    },
    record db1 {
      contract_subtype_proposals =
          update (λ (q : ContractSubtypeProposal). q.id == p.id) (settle call single_operator)
            db1.contract_subtype_proposals;
    },
  )
