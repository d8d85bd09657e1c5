-- ===== src/Parts/Proposed.antt =====
-- src/routers/parts.py: the lists of a part's proposals.
use titan_tyr.Prelude.{
  Bool, false, ◌&&◌, not, Option, List, String, Result, ok, ◌>>=◌, ◌>>◌, raise_if, select, sort_by,
  map, ltb, ◌==◌, ℕ-eq,
}
use titan_tyr.Models.Kinds.{PartSubtype, ProposalStatus}
use titan_tyr.Models.Rows.{
  Uuid, Timestamp, Actor, Part, PartSubtypeProposal, PartNameProposal, PartDeletionProposal, Db,
}
use titan_tyr.Session.Queries.{scalar_one_or_none, or_raise}
use titan_tyr.Session.Live.{is_live, parts_named}

-- The one row of the name, and its deletion.
unfoldable pub listed_part : Db → String → Bool → Result Part
listed_part db name include_deleted = do
  found ← scalar_one_or_none (parts_named db name)
  part ← or_raise 404 found
  raise_if (not (is_live part.deleted_at) && not include_deleted) 404
  ok part

pub record PartSubtypeShiftEntry : Type 0 where
  pub proposal_id : Uuid
  pub current_subtype : PartSubtype
  pub new_subtype : PartSubtype
  pub rationale : String
  pub proposer_actor : Actor
  pub body_realign_required : Bool
  pub status : ProposalStatus
  pub created_at : Timestamp
  pub accepted_at : Option Timestamp
  pub accepted_by : Actor
  pub single_operator_override : Bool

abbrev part_subtype_entry : PartSubtypeProposal → PartSubtypeShiftEntry
part_subtype_entry r = record {
  proposal_id = r.id;
  current_subtype = r.current_subtype_at_propose;
  new_subtype = r.new_subtype;
  rationale = r.rationale;
  proposer_actor = r.proposer_actor;
  body_realign_required = r.body_realign_required;
  status = r.status;
  created_at = r.created_at;
  accepted_at = r.accepted_at;
  accepted_by = r.accepted_by;
  single_operator_override = r.single_operator_override;
}

pub record PartSubtypeShiftListResponse : Type 0 where
  pub part_name : String
  pub current_subtype : PartSubtype
  pub proposals : List PartSubtypeShiftEntry

-- `GET /parts/{name}/subtype-proposals`
unfoldable pub list_part_subtype_shifts : String → Db → Result PartSubtypeShiftListResponse
list_part_subtype_shifts name db = do
  part ← listed_part db name false
  ok (record {
    part_name = name;
    current_subtype = part.subtype;
    proposals = map part_subtype_entry (
        sort_by (λ (a b : PartSubtypeProposal). ltb b.created_at a.created_at)
          (select (λ (r : PartSubtypeProposal). r.part_id == part.id) db.part_subtype_proposals));
  })

pub record PartNameShiftEntry : Type 0 where
  pub proposal_id : Uuid
  pub current_name_at_propose : String
  pub new_name : String
  pub rationale : String
  pub proposer_actor : Actor
  pub status : ProposalStatus
  pub created_at : Timestamp
  pub accepted_at : Option Timestamp
  pub accepted_by : Actor
  pub single_operator_override : Bool

abbrev part_name_entry : PartNameProposal → PartNameShiftEntry
part_name_entry r = record {
  proposal_id = r.id;
  current_name_at_propose = r.current_name_at_propose;
  new_name = r.new_name;
  rationale = r.rationale;
  proposer_actor = r.proposer_actor;
  status = r.status;
  created_at = r.created_at;
  accepted_at = r.accepted_at;
  accepted_by = r.accepted_by;
  single_operator_override = r.single_operator_override;
}

pub record PartNameShiftListResponse : Type 0 where
  pub part_name : String
  pub current_name : String
  pub proposals : List PartNameShiftEntry

-- `GET /parts/{name}/name-proposals`
unfoldable pub list_part_name_shifts : String → Db → Result PartNameShiftListResponse
list_part_name_shifts name db = do
  part ← listed_part db name false
  ok (record {
    part_name = part.name;
    current_name = part.name;
    proposals = map part_name_entry (
        sort_by (λ (a b : PartNameProposal). ltb b.created_at a.created_at)
          (select (λ (r : PartNameProposal). r.part_id == part.id) db.part_name_proposals));
  })

pub record PartDeletionProposalEntry : Type 0 where
  pub proposal_id : Uuid
  pub rationale : String
  pub proposer_actor : Actor
  pub status : ProposalStatus
  pub created_at : Timestamp
  pub accepted_at : Option Timestamp
  pub accepted_by : Actor
  pub single_operator_override : Bool
  pub cascade : Bool

abbrev part_deletion_entry : PartDeletionProposal → PartDeletionProposalEntry
part_deletion_entry r = record {
  proposal_id = r.id;
  rationale = r.rationale;
  proposer_actor = r.proposer_actor;
  status = r.status;
  created_at = r.created_at;
  accepted_at = r.accepted_at;
  accepted_by = r.accepted_by;
  single_operator_override = r.single_operator_override;
  cascade = r.cascade;
}

pub record PartDeletionProposalListResponse : Type 0 where
  pub part_name : String
  pub proposals : List PartDeletionProposalEntry

-- `GET /parts/{name}/deletion-proposals`
unfoldable pub list_part_deletion_proposals :
    String → Bool → Db → Result PartDeletionProposalListResponse
list_part_deletion_proposals name include_deleted db = do
  part ← listed_part db name include_deleted
  ok (record {
    part_name = part.name;
    proposals = map part_deletion_entry (
        sort_by (λ (a b : PartDeletionProposal). ltb b.created_at a.created_at)
          (select (λ (r : PartDeletionProposal). r.part_id == part.id) db.part_deletion_proposals));
  })
