-- ===== src/Contracts/Deletion.antt =====
-- `propose_contract_deletion` and `accept_contract_deletion` of src/routers/contracts.py
pub mod Accept
use titan_tyr.Prelude.{
  ℕ, ◌+◌, Bool, true, false, ◌&&◌, not, Option, none, some, List, [], ◌∷◌, ◌++◌, String, Result, ok,
  ◌>>=◌, ◌>>◌, raise_if, ◌==◌, ℕ-eq, Option-eq, select, update, length, if◌then◌else◌,
}
use titan_tyr.Models.Kinds.{proposal, accepted}
use titan_tyr.Models.Rows.{
  Uuid, Timestamp, Actor, Part, PartVersion, Contract, ContractVersion, ContractSubtypeProposal,
  ContractEndpointProposal, ContractDeletionProposal, Db,
}
use titan_tyr.Session.Queries.{Call, scalar_one_or_none, or_raise, attribute}
use titan_tyr.Session.Live.{get_part_row, save_contract}
use titan_tyr.Session.Versions.{is_active, latest_part_version}
use titan_tyr.Handshake.{enforce_two_party}
use titan_tyr.Texts.{codes, mentions}
use titan_tyr.Contracts.Common.{live_contract, is_open}

pub record ContractDeletionImpact : Type 0 where
  pub referenced_in_part_bodies : List String
  pub referenced_in_open_proposals : ℕ
  pub active_history_entries : ℕ

abbrev pub body_mentions : List ℕ → Option PartVersion → Bool
body_mentions name none = false
body_mentions name (some r) = mentions name r.markdown

-- The part's name, if the latest body of the part mentions the other one.
unfoldable pub referencing : Db → Part → String → List String
referencing db side other_name =
    if body_mentions (codes other_name) (latest_part_version db side.id) then side.name ∷ [] else []

-- `ContractDeletionProposal.id != exclude_proposal_id`, where one is given.
abbrev pub kept : Option Uuid → Uuid → Bool
kept none id = true
kept (some excluded) id = not (id == excluded)

-- The proposals on the contract that are open, the excluded one aside.
unfoldable pub open_proposals : Db → Uuid → Option Uuid → ℕ
open_proposals db id exclude =
    length (
      select (λ (r : ContractVersion). r.contract_id == id && not (is_active r.status))
        db.contract_versions)
    + length (
        select (λ (p : ContractSubtypeProposal). p.contract_id == id && is_open p.status)
          db.contract_subtype_proposals)
    + length (
        select (λ (p : ContractEndpointProposal). p.contract_id == id && is_open p.status)
          db.contract_endpoint_proposals)
    + length (
        select
          (λ (p : ContractDeletionProposal).
            p.contract_id == id && (is_open p.status && kept exclude p.id))
          db.contract_deletion_proposals)

-- The active versions of the contract and its accepted shifts.
unfoldable pub history_entries : Db → Uuid → ℕ
history_entries db id =
    length (
      select (λ (r : ContractVersion). r.contract_id == id && is_active r.status)
        db.contract_versions)
    + length (
        select (λ (p : ContractSubtypeProposal). p.contract_id == id && not (is_open p.status))
          db.contract_subtype_proposals)
    + length (
        select (λ (p : ContractEndpointProposal). p.contract_id == id && not (is_open p.status))
          db.contract_endpoint_proposals)

-- `_compute_deletion_impact`
unfoldable pub compute_deletion_impact : Db → Contract → Option Uuid → Result ContractDeletionImpact
compute_deletion_impact db contract exclude_proposal_id = do
  owner_part ← attribute (get_part_row db contract.owner_part_id)
  cp_part ← attribute (get_part_row db contract.counterparty_part_id)
  ok (record {
    referenced_in_part_bodies =
        referencing db owner_part cp_part.name ++ referencing db cp_part owner_part.name;
    referenced_in_open_proposals = open_proposals db contract.id exclude_proposal_id;
    active_history_entries = history_entries db contract.id;
  })

pub record ContractDeletionProposalCreateResponse : Type 0 where
  pub proposal_id : Uuid
  pub contract_id : Uuid
  pub rationale : String
  pub proposer_actor : Actor
  pub impact : ContractDeletionImpact

-- `POST /contracts/{contract_id}/deletion-proposals`
unfoldable pub propose_contract_deletion :
    Call → Uuid → String → Db → Result (ContractDeletionProposalCreateResponse × Db)
propose_contract_deletion call contract_id rationale db = do
  contract ← live_contract db contract_id
  impact ← compute_deletion_impact db contract none
  ok (
    record {
      proposal_id = call.new_id;
      contract_id = contract.id;
      rationale = rationale;
      proposer_actor = call.x_actor;
      impact = impact;
    },
    record db {
      contract_deletion_proposals =
          db.contract_deletion_proposals
          ++ record {
            id = call.new_id;
            contract_id = contract.id;
            rationale = rationale;
            proposer_actor = call.x_actor;
            status = proposal;
            created_at = call.server_now;
            accepted_at = none;
            accepted_by = none;
            single_operator_override = false;
          }
            ∷ [];
    },
  )

pub record ContractDeletionAcceptResponse : Type 0 where
  pub proposal_id : Uuid
  pub contract_id : Uuid
  pub deleted_at : Timestamp
  pub proposer_actor : Actor
  pub acceptor_actor : Actor
  pub rationale : String
  pub impact : ContractDeletionImpact
  pub single_operator_override : Bool

-- The contract that an accepted deletion writes.
abbrev pub deleted : Call → Bool → Contract → ContractDeletionProposal → Contract
deleted call single_operator contract p = record contract {
  deleted_at = some call.now;
  deleted_by_proposer_actor = p.proposer_actor;
  deleted_by_acceptor_actor = call.x_actor;
  deletion_rationale = some p.rationale;
  deletion_single_operator_override = single_operator;
}

-- The proposal after the acceptance.
abbrev pub settle : Call → Bool → ContractDeletionProposal → ContractDeletionProposal
settle call single_operator p = record p {
  status = accepted;
  accepted_at = some call.now;
  accepted_by = call.x_actor;
  single_operator_override = single_operator;
}

-- The rows with the proposal's identifier, under the contract.
unfoldable pub deletion_proposals : Db → Uuid → Uuid → List ContractDeletionProposal
deletion_proposals db proposal_id contract_id =
    select (λ (p : ContractDeletionProposal). p.id == proposal_id && p.contract_id == contract_id)
      db.contract_deletion_proposals

-- `POST /contracts/{contract_id}/deletion-proposals/{proposal_id}/accept`
unfoldable pub accept_contract_deletion :
    Call → Uuid → Uuid → Bool → Db → Result (ContractDeletionAcceptResponse × Db)
accept_contract_deletion call contract_id proposal_id single_operator db = do
  contract ← live_contract db contract_id
  found ← scalar_one_or_none (deletion_proposals db proposal_id contract.id)
  p ← or_raise 404 found
  raise_if (not (is_open p.status)) 409
  enforce_two_party p.proposer_actor call.x_actor single_operator
  impact ← compute_deletion_impact db contract (some p.id)
  db1 ← save_contract (deleted call single_operator contract p) db
  ok (
    record {
      proposal_id = p.id;
      contract_id = contract.id;
      deleted_at = call.now;
      proposer_actor = p.proposer_actor;
      acceptor_actor = call.x_actor;
      rationale = p.rationale;
      impact = impact;
      single_operator_override = single_operator;
    },
    record db1 {
      contract_deletion_proposals =
          update (λ (q : ContractDeletionProposal). q.id == p.id) (settle call single_operator)
            db1.contract_deletion_proposals;
    },
  )
