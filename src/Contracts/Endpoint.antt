-- ===== src/Contracts/Endpoint.antt =====
-- `propose_contract_endpoint_shift` and `accept_contract_endpoint_shift` of src/routers/contracts.py
pub mod Accept
pub mod Moved
use titan_tyr.Prelude.{
  ℕ, Bool, true, false, ◌&&◌, not, Option, none, some, List, [], ◌∷◌, ◌++◌, String, Result, ok, err,
  http, ◌>>=◌, ◌>>◌, raise_if, ◌==◌, ℕ-eq, select, update,
}
use titan_tyr.Models.Kinds.{proposal, accepted}
use titan_tyr.Models.Rows.{Uuid, Timestamp, Actor, Part, Contract, ContractEndpointProposal, Db}
use titan_tyr.Rules.{check_source_target}
use titan_tyr.Session.Queries.{Call, scalar_one_or_none, or_raise, attribute}
use titan_tyr.Session.Live.{is_live, get_part_row, same_key, save_contract}
use titan_tyr.Handshake.{enforce_two_party}
use titan_tyr.Contracts.Register.{resolve_part, is_none, violates}
use titan_tyr.Contracts.Common.{live_contract, is_open}

pub record ContractEndpointShiftCreate : Type 0 where
  pub new_owner : Option String
  pub new_counterparty : Option String
  pub rationale : String

-- `new_part.id if new_part is not None else current_id`
abbrev pub id_or : Option Part → Uuid → Uuid
id_or none current = current
id_or (some p) current = p.id

-- `_resolve_endpoint_shift_targets`: a shift that changes nothing or joins a part to itself is a 422.
unfoldable pub resolve_endpoint_shift_targets :
    Contract → Option Part → Option Part → Result (Uuid × Uuid)
resolve_endpoint_shift_targets current new_owner_part new_counterparty_part = do
  let new_owner_id = id_or new_owner_part current.owner_part_id
  let new_cp_id = id_or new_counterparty_part current.counterparty_part_id
  raise_if (new_owner_id == current.owner_part_id && new_cp_id == current.counterparty_part_id) 422
  raise_if (new_owner_id == new_cp_id) 422
  ok (new_owner_id, new_cp_id)

-- The contract at its new endpoints.
abbrev pub moved : Contract → Uuid → Uuid → Contract
moved contract owner_id counterparty_id = record contract {
  owner_part_id = owner_id;
  counterparty_part_id = counterparty_id;
}

-- The live rows, other than the contract itself, with the key that it would have.
unfoldable pub endpoint_clashes : Db → Contract → Uuid → Uuid → List Contract
endpoint_clashes db contract new_owner_id new_cp_id =
    select
      (λ (d : Contract).
        not (d.id == contract.id)
        && (same_key (moved contract new_owner_id new_cp_id) d && is_live d.deleted_at))
      db.contracts

-- `_check_endpoint_uniqueness`
unfoldable pub check_endpoint_uniqueness : Db → Contract → Uuid → Uuid → Result (Unit {0})
check_endpoint_uniqueness db contract new_owner_id new_cp_id = do
  clash ← scalar_one_or_none (endpoint_clashes db contract new_owner_id new_cp_id)
  raise_if (not (is_none clash)) 409

-- `None`, or the live part of that name.
abbrev pub resolve_optional : Db → Option String → Result (Option Part)
resolve_optional db none = ok none
resolve_optional db (some name) = do p ← resolve_part db name; ok (some p)

-- `new_part or await session.get(Part, current_id)`
abbrev pub part_or : Db → Option Part → Uuid → Result Part
part_or db none current_id = attribute (get_part_row db current_id)
part_or db (some p) current_id = ok p

abbrev id_of : Option Part → Option Uuid
id_of none = none
id_of (some p) = some p.id

abbrev pub name_of : Option Part → Option String
name_of none = none
name_of (some p) = some p.name

pub record ContractEndpointShiftCreateResponse : Type 0 where
  pub proposal_id : Uuid
  pub contract_id : Uuid
  pub current_owner : String
  pub current_counterparty : String
  pub new_owner : Option String
  pub new_counterparty : Option String
  pub rationale : String
  pub proposer_actor : Actor

-- `POST /contracts/{contract_id}/endpoint-proposals`
unfoldable pub propose_contract_endpoint_shift :
    Call
    → Uuid
    → ContractEndpointShiftCreate
    → Db
    → Result (ContractEndpointShiftCreateResponse × Db)
propose_contract_endpoint_shift call contract_id payload db = do
  contract ← live_contract db contract_id
  raise_if (is_none payload.new_owner && is_none payload.new_counterparty) 422
  new_owner_part ← resolve_optional db payload.new_owner
  new_cp_part ← resolve_optional db payload.new_counterparty
  (new_owner_id, new_cp_id) ← resolve_endpoint_shift_targets contract new_owner_part new_cp_part
  final_owner ← part_or db new_owner_part contract.owner_part_id
  final_cp ← part_or db new_cp_part contract.counterparty_part_id
  validation ←
      check_source_target final_owner.subtype final_cp.subtype contract.subtype
        contract.connection_type
  raise_if (violates validation) 422
  check_endpoint_uniqueness db contract new_owner_id new_cp_id
  current_owner_part ← attribute (get_part_row db contract.owner_part_id)
  current_cp_part ← attribute (get_part_row db contract.counterparty_part_id)
  ok (
    record {
      proposal_id = call.new_id;
      contract_id = contract.id;
      current_owner = current_owner_part.name;
      current_counterparty = current_cp_part.name;
      new_owner = name_of new_owner_part;
      new_counterparty = name_of new_cp_part;
      rationale = payload.rationale;
      proposer_actor = call.x_actor;
    },
    record db {
      contract_endpoint_proposals =
          db.contract_endpoint_proposals
          ++ record {
            id = call.new_id;
            contract_id = contract.id;
            current_owner_at_propose = current_owner_part.name;
            current_counterparty_at_propose = current_cp_part.name;
            new_owner_part_id = id_of new_owner_part;
            new_counterparty_part_id = id_of new_cp_part;
            rationale = payload.rationale;
            proposer_actor = call.x_actor;
            status = proposal;
            created_at = call.server_now;
            accepted_at = none;
            accepted_by = none;
            single_operator_override = false;
          }
            ∷ [];
    },
  )

abbrev or_conflict : Option Part → Result (Option Part)
or_conflict none = err (http 409)
or_conflict (some p) = ok (some p)

-- The part that a proposal names by identifier; a 409 where the row is gone.
abbrev pub proposed_part : Db → Option Uuid → Result (Option Part)
proposed_part db none = ok none
proposed_part db (some id) = or_conflict (get_part_row db id)

pub record ContractEndpointShiftAcceptResponse : Type 0 where
  pub proposal_id : Uuid
  pub contract_id : Uuid
  pub shifted_from_owner : String
  pub shifted_to_owner : String
  pub shifted_from_counterparty : String
  pub shifted_to_counterparty : String
  pub accepted_at : Timestamp
  pub accepted_by : Actor
  pub single_operator_override : Bool

-- `name if new_part is not None else None`
abbrev from_name : Option Part → String → Option String
from_name none name = none
from_name (some p) name = some name

-- The contract that an accepted shift writes, from the names of its endpoints before.
abbrev pub relocated :
    Call → Contract → Option Part → Option Part → Uuid → Uuid → String → String → Contract
relocated call contract new_owner new_cp owner_id cp_id from_owner from_cp = record contract {
  owner_part_id = owner_id;
  counterparty_part_id = cp_id;
  endpoint_shifted_from_owner = from_name new_owner from_owner;
  endpoint_shifted_from_counterparty = from_name new_cp from_cp;
  endpoint_shifted_at = some call.now;
}

-- The proposal after the acceptance.
abbrev pub settle : Call → Bool → ContractEndpointProposal → ContractEndpointProposal
settle call single_operator p = record p {
  status = accepted;
  accepted_at = some call.now;
  accepted_by = call.x_actor;
  single_operator_override = single_operator;
}

-- The rows with the proposal's identifier, under the contract.
unfoldable pub endpoint_proposals : Db → Uuid → Uuid → List ContractEndpointProposal
endpoint_proposals db proposal_id contract_id =
    select (λ (p : ContractEndpointProposal). p.id == proposal_id && p.contract_id == contract_id)
      db.contract_endpoint_proposals

-- `POST /contracts/{contract_id}/endpoint-proposals/{proposal_id}/accept`
unfoldable pub accept_contract_endpoint_shift :
    Call → Uuid → Uuid → Bool → Db → Result (ContractEndpointShiftAcceptResponse × Db)
accept_contract_endpoint_shift call contract_id proposal_id single_operator db = do
  contract ← live_contract db contract_id
  found ← scalar_one_or_none (endpoint_proposals db proposal_id contract.id)
  p ← or_raise 404 found
  raise_if (not (is_open p.status)) 409
  enforce_two_party p.proposer_actor call.x_actor single_operator
  new_owner_part ← proposed_part db p.new_owner_part_id
  new_cp_part ← proposed_part db p.new_counterparty_part_id
  (new_owner_id, new_cp_id) ← resolve_endpoint_shift_targets contract new_owner_part new_cp_part
  final_owner ← part_or db new_owner_part contract.owner_part_id
  final_cp ← part_or db new_cp_part contract.counterparty_part_id
  validation ←
      check_source_target final_owner.subtype final_cp.subtype contract.subtype
        contract.connection_type
  raise_if (violates validation) 422
  check_endpoint_uniqueness db contract new_owner_id new_cp_id
  current_owner_part ← attribute (get_part_row db contract.owner_part_id)
  current_cp_part ← attribute (get_part_row db contract.counterparty_part_id)
  let row =
      relocated call contract new_owner_part new_cp_part new_owner_id new_cp_id
        current_owner_part.name current_cp_part.name
  db1 ← save_contract row db
  ok (
    record {
      proposal_id = p.id;
      contract_id = contract.id;
      shifted_from_owner = current_owner_part.name;
      shifted_to_owner = final_owner.name;
      shifted_from_counterparty = current_cp_part.name;
      shifted_to_counterparty = final_cp.name;
      accepted_at = call.now;
      accepted_by = call.x_actor;
      single_operator_override = single_operator;
    },
    record db1 {
      contract_endpoint_proposals =
          update (λ (q : ContractEndpointProposal). q.id == p.id) (settle call single_operator)
            db1.contract_endpoint_proposals;
    },
  )
