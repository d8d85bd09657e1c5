-- ===== src/Contracts/Proposed.antt =====
-- src/routers/contracts.py: the lists of a contract's proposals.
use titan_tyr.Prelude.{
  Bool, Option, none, some, List, String, Result, ok, ◌>>=◌, select, sort_by, map, ltb, ◌==◌, ℕ-eq,
  false,
}
use titan_tyr.Models.Kinds.{ContractSubtype, ConnectionType, ProposalStatus}
use titan_tyr.Models.Rows.{
  Uuid, Timestamp, Actor, Part, ContractSubtypeProposal, ContractEndpointProposal,
  ContractDeletionProposal, Db,
}
use titan_tyr.Session.Queries.{attribute}
use titan_tyr.Session.Live.{get_part_row}
use titan_tyr.Contracts.History.{shown_contract}

pub record ContractSubtypeShiftEntry : Type 0 where
  pub proposal_id : Uuid
  pub current_subtype : ContractSubtype
  pub current_connection_type : Option ConnectionType
  pub new_subtype : ContractSubtype
  pub new_connection_type : Option ConnectionType
  pub rationale : String
  pub proposer_actor : Actor
  pub body_realign_required : Bool
  pub status : ProposalStatus
  pub created_at : Timestamp
  pub accepted_at : Option Timestamp
  pub accepted_by : Actor
  pub single_operator_override : Bool

abbrev subtype_shift_entry : ContractSubtypeProposal → ContractSubtypeShiftEntry
subtype_shift_entry r = record {
  proposal_id = r.id;
  current_subtype = r.current_subtype_at_propose;
  current_connection_type = r.current_connection_type_at_propose;
  new_subtype = r.new_subtype;
  new_connection_type = r.new_connection_type;
  rationale = r.rationale;
  proposer_actor = r.proposer_actor;
  body_realign_required = r.body_realign_required;
  status = r.status;
  created_at = r.created_at;
  accepted_at = r.accepted_at;
  accepted_by = r.accepted_by;
  single_operator_override = r.single_operator_override;
}

pub record ContractSubtypeShiftListResponse : Type 0 where
  pub contract_id : Uuid
  pub current_subtype : ContractSubtype
  pub current_connection_type : Option ConnectionType
  pub proposals : List ContractSubtypeShiftEntry

-- `GET /contracts/{contract_id}/subtype-proposals`
unfoldable pub list_contract_subtype_shifts : Uuid → Db → Result ContractSubtypeShiftListResponse
list_contract_subtype_shifts contract_id db = do
  contract ← shown_contract db contract_id false
  ok (record {
    contract_id = contract.id;
    current_subtype = contract.subtype;
    current_connection_type = contract.connection_type;
    proposals = map subtype_shift_entry (
        sort_by (λ (a b : ContractSubtypeProposal). ltb b.created_at a.created_at)
          (select (λ (r : ContractSubtypeProposal). r.contract_id == contract_id)
            db.contract_subtype_proposals));
  })

pub record ContractEndpointShiftEntry : Type 0 where
  pub proposal_id : Uuid
  pub current_owner_at_propose : String
  pub current_counterparty_at_propose : String
  pub new_owner : Option String
  pub new_counterparty : Option String
  pub rationale : String
  pub proposer_actor : Actor
  pub status : ProposalStatus
  pub created_at : Timestamp
  pub accepted_at : Option Timestamp
  pub accepted_by : Actor
  pub single_operator_override : Bool

abbrev named : Option Part → Option String
named none = none
named (some p) = some p.name

-- The name of the part that a proposal moves an end to.
abbrev new_end : Db → Option Uuid → Option String
new_end db none = none
new_end db (some id) = named (get_part_row db id)

abbrev endpoint_shift_entry : Db → ContractEndpointProposal → ContractEndpointShiftEntry
endpoint_shift_entry db r = record {
  proposal_id = r.id;
  current_owner_at_propose = r.current_owner_at_propose;
  current_counterparty_at_propose = r.current_counterparty_at_propose;
  new_owner = new_end db r.new_owner_part_id;
  new_counterparty = new_end db r.new_counterparty_part_id;
  rationale = r.rationale;
  proposer_actor = r.proposer_actor;
  status = r.status;
  created_at = r.created_at;
  accepted_at = r.accepted_at;
  accepted_by = r.accepted_by;
  single_operator_override = r.single_operator_override;
}

pub record ContractEndpointShiftListResponse : Type 0 where
  pub contract_id : Uuid
  pub current_owner : String
  pub current_counterparty : String
  pub proposals : List ContractEndpointShiftEntry

-- `GET /contracts/{contract_id}/endpoint-proposals`
unfoldable pub list_contract_endpoint_shifts : Uuid → Db → Result ContractEndpointShiftListResponse
list_contract_endpoint_shifts contract_id db = do
  contract ← shown_contract db contract_id false
  owner ← attribute (get_part_row db contract.owner_part_id)
  cp ← attribute (get_part_row db contract.counterparty_part_id)
  ok (record {
    contract_id = contract.id;
    current_owner = owner.name;
    current_counterparty = cp.name;
    proposals = map (endpoint_shift_entry db) (
        sort_by (λ (a b : ContractEndpointProposal). ltb b.created_at a.created_at)
          (select (λ (r : ContractEndpointProposal). r.contract_id == contract_id)
            db.contract_endpoint_proposals));
  })

pub record ContractDeletionProposalEntry : Type 0 where
  pub proposal_id : Uuid
  pub rationale : String
  pub proposer_actor : Actor
  pub status : ProposalStatus
  pub created_at : Timestamp
  pub accepted_at : Option Timestamp
  pub accepted_by : Actor
  pub single_operator_override : Bool

abbrev contract_deletion_entry : ContractDeletionProposal → ContractDeletionProposalEntry
contract_deletion_entry r = record {
  proposal_id = r.id;
  rationale = r.rationale;
  proposer_actor = r.proposer_actor;
  status = r.status;
  created_at = r.created_at;
  accepted_at = r.accepted_at;
  accepted_by = r.accepted_by;
  single_operator_override = r.single_operator_override;
}

pub record ContractDeletionProposalListResponse : Type 0 where
  pub contract_id : Uuid
  pub proposals : List ContractDeletionProposalEntry

-- `GET /contracts/{contract_id}/deletion-proposals`
unfoldable pub list_contract_deletion_proposals :
    Uuid → Bool → Db → Result ContractDeletionProposalListResponse
list_contract_deletion_proposals contract_id include_deleted db = do
  contract ← shown_contract db contract_id include_deleted
  ok (record {
    contract_id = contract.id;
    proposals = map contract_deletion_entry (
        sort_by (λ (a b : ContractDeletionProposal). ltb b.created_at a.created_at)
          (select (λ (r : ContractDeletionProposal). r.contract_id == contract_id)
            db.contract_deletion_proposals));
  })
