-- ===== src/Parts/Deletion.antt =====
-- `propose_part_deletion` and `accept_part_deletion` of src/routers/parts.py
pub mod Accept
pub mod Aftermath
use Prim.Native.String.{◌++◌ as concat}
use titan_tyr.Prelude.{
  ℕ, ◌+◌, Bool, true, false, ◌&&◌, ◌||◌, not, Option, none, some, List, [], ◌∷◌, ◌++◌, map, String,
  Result, ok, ◌>>=◌, ◌>>◌, raise_if, ◌==◌, ℕ-eq, select, update, length, if◌then◌else◌,
}
use titan_tyr.Models.Kinds.{ContractSubtype, ConnectionType, proposal, accepted}
use titan_tyr.Models.Rows.{
  Uuid, Timestamp, Actor, Part, PartVersion, Contract, PartSubtypeProposal, PartNameProposal,
  PartDeletionProposal, Db,
}
use titan_tyr.Session.Queries.{Call, scalar_one_or_none, or_raise, attribute}
use titan_tyr.Session.Live.{is_live, get_part_row, save_part}
use titan_tyr.Session.Versions.{latest_part_version}
use titan_tyr.Handshake.{enforce_two_party, enforce_human_confirmation, get_active_agent_actors}
use titan_tyr.Texts.{codes}
use titan_tyr.Contracts.Common.{is_open}
use titan_tyr.Contracts.Deletion.{body_mentions}
use titan_tyr.Parts.Common.{locked_part}

pub record TouchingContractRef : Type 0 where
  pub contract_id : Uuid
  pub owner : String
  pub counterparty : String
  pub subtype : ContractSubtype
  pub connection_type : Option ConnectionType

pub record PartDeletionImpact : Type 0 where
  pub touching_contracts : List TouchingContractRef
  pub referenced_in_part_bodies : List String
  pub active_history_entries : ℕ

-- A live contract with the part on either side.
abbrev pub touches : Uuid → Contract → Bool
touches id c = (c.owner_part_id == id || c.counterparty_part_id == id) && is_live c.deleted_at

unfoldable pub touching : Db → Uuid → List Contract
touching db id = select (touches id) db.contracts

unfoldable pub touching_refs : Db → List Contract → Result (List TouchingContractRef)
touching_refs db [] = ok []
touching_refs db (c ∷ cs) = do
  owner ← attribute (get_part_row db c.owner_part_id)
  cp ← attribute (get_part_row db c.counterparty_part_id)
  rest ← touching_refs db cs
  ok (
      record {
        contract_id = c.id;
        owner = owner.name;
        counterparty = cp.name;
        subtype = c.subtype;
        connection_type = c.connection_type;
      }
      ∷ rest)

-- The other live parts whose latest body mentions the part.
unfoldable pub referencing_parts : Db → Part → List String
referencing_parts db part =
    map (λ (q : Part). q.name)
      (select
        (λ (q : Part).
          not (q.id == part.id)
          && (is_live q.deleted_at
              && body_mentions (codes part.name) (latest_part_version db q.id)))
        db.parts)

unfoldable pub part_history_entries : Db → Uuid → ℕ
part_history_entries db id =
    length (select (λ (r : PartVersion). r.part_id == id) db.part_versions)
    + length (
        select (λ (p : PartSubtypeProposal). p.part_id == id && not (is_open p.status))
          db.part_subtype_proposals)
    + length (
        select (λ (p : PartNameProposal). p.part_id == id && not (is_open p.status))
          db.part_name_proposals)

-- `_compute_part_deletion_impact`
unfoldable pub compute_part_deletion_impact :
    Db → Part → Result (PartDeletionImpact × List Contract)
compute_part_deletion_impact db part = do
  refs ← touching_refs db (touching db part.id)
  ok (
    record {
      touching_contracts = refs;
      referenced_in_part_bodies = referencing_parts db part;
      active_history_entries = part_history_entries db part.id;
    },
    touching db part.id,
  )

pub record PartDeletionProposalCreateResponse : Type 0 where
  pub proposal_id : Uuid
  pub part_name : String
  pub rationale : String
  pub proposer_actor : Actor
  pub impact : PartDeletionImpact

-- `POST /parts/{name}/deletion-proposals`
unfoldable pub propose_part_deletion :
    Call → String → String → Db → Result (PartDeletionProposalCreateResponse × Db)
propose_part_deletion call name rationale db = do
  part ← locked_part db name
  (impact, _) ← compute_part_deletion_impact db part
  ok (
    record {
      proposal_id = call.new_id;
      part_name = part.name;
      rationale = rationale;
      proposer_actor = call.x_actor;
      impact = impact;
    },
    record db {
      part_deletion_proposals =
          db.part_deletion_proposals
          ++ record {
            id = call.new_id;
            part_id = part.id;
            rationale = rationale;
            proposer_actor = call.x_actor;
            status = proposal;
            created_at = call.server_now;
            accepted_at = none;
            accepted_by = none;
            single_operator_override = false;
            cascade = false;
          }
            ∷ [];
    },
  )

pub record PartDeletionAcceptResponse : Type 0 where
  pub proposal_id : Uuid
  pub part_name : String
  pub deleted_at : Timestamp
  pub proposer_actor : Actor
  pub acceptor_actor : Actor
  pub rationale : String
  pub impact : PartDeletionImpact
  pub cascade : Bool
  pub cascaded_contract_ids : List Uuid

abbrev cascade_rationale : Part → PartDeletionProposal → String
cascade_rationale part p =
    concat "cascaded from /propose-part-deletion on '" (concat part.name (concat "': " p.rationale))

-- A contract that the cascade deletes.
abbrev pub cascaded : Call → Part → PartDeletionProposal → Contract → Contract
cascaded call part p c = record c {
  deleted_at = some call.now;
  deleted_by_proposer_actor = p.proposer_actor;
  deleted_by_acceptor_actor = call.x_actor;
  deletion_rationale = some (cascade_rationale part p);
  deletion_single_operator_override = false;
}

-- The part that an accepted deletion writes.
abbrev pub deleted_part : Call → Part → PartDeletionProposal → Part
deleted_part call part p = record part {
  deleted_at = some call.now;
  deleted_by_proposer_actor = p.proposer_actor;
  deleted_by_acceptor_actor = call.x_actor;
  deletion_rationale = some p.rationale;
  deletion_single_operator_override = false;
}

abbrev pub settle : Call → Bool → PartDeletionProposal → PartDeletionProposal
settle call cascade p = record p {
  status = accepted;
  accepted_at = some call.now;
  accepted_by = call.x_actor;
  single_operator_override = false;
  cascade = cascade;
}

unfoldable pub part_deletions : Db → Uuid → Uuid → List PartDeletionProposal
part_deletions db proposal_id part_id =
    select (λ (p : PartDeletionProposal). p.id == proposal_id && p.part_id == part_id)
      db.part_deletion_proposals

abbrev pub is_empty : List Contract → Bool
is_empty [] = true
is_empty (c ∷ cs) = false

-- The contracts after the cascade. A deleted row is in no unique key, so the flush raises nothing.
unfoldable pub cascade_contracts : Call → Part → PartDeletionProposal → Bool → Db → Db
cascade_contracts call part p cascade db = record db {
  contracts =
      if cascade
      then update (touches part.id) (cascaded call part p) db.contracts
      else db.contracts;
}

-- `POST /parts/{name}/deletion-proposals/{proposal_id}/accept`
unfoldable pub accept_part_deletion :
    Call → String → Uuid → Bool → Bool → Db → Result (PartDeletionAcceptResponse × Db)
accept_part_deletion call name proposal_id single_operator cascade db = do
  raise_if single_operator 422
  part ← locked_part db name
  found ← scalar_one_or_none (part_deletions db proposal_id part.id)
  p ← or_raise 404 found
  raise_if (not (is_open p.status)) 409
  enforce_two_party p.proposer_actor call.x_actor false
  enforce_human_confirmation call.x_actor (get_active_agent_actors db)
  (impact, contracts) ← compute_part_deletion_impact db part
  raise_if (not (is_empty contracts) && not cascade) 422
  db1 ← save_part (deleted_part call part p) (cascade_contracts call part p cascade db)
  ok (
    record {
      proposal_id = p.id;
      part_name = part.name;
      deleted_at = call.now;
      proposer_actor = p.proposer_actor;
      acceptor_actor = call.x_actor;
      rationale = p.rationale;
      impact = impact;
      cascade = cascade;
      cascaded_contract_ids = if cascade then map (λ (c : Contract). c.id) contracts else [];
    },
    record db1 {
      part_deletion_proposals =
          update (λ (q : PartDeletionProposal). q.id == p.id) (settle call cascade)
            db1.part_deletion_proposals;
    },
  )
