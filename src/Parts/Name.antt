-- ===== src/Parts/Name.antt =====
-- `propose_part_name_shift` and `accept_part_name_shift` of src/routers/parts.py
pub mod Accept
pub mod Renamed
use titan_tyr.Prelude.{
  ℕ, Bool, true, false, ◌&&◌, not, Option, none, some, List, [], ◌∷◌, ◌++◌, String, Result, ok,
  ◌>>=◌, ◌>>◌, raise_if, ◌==◌, ℕ-eq, String-eq, select, update,
}
use titan_tyr.Models.Kinds.{proposal, accepted}
use titan_tyr.Models.Rows.{Uuid, Timestamp, Actor, Part, PartNameProposal, Db}
use titan_tyr.Session.Queries.{Call, scalar_one_or_none, or_raise}
use titan_tyr.Session.Live.{is_live, live_parts_named, save_part}
use titan_tyr.Handshake.{enforce_two_party}
use titan_tyr.Contracts.Register.{is_none}
use titan_tyr.Contracts.Common.{is_open}
use titan_tyr.Parts.Common.{locked_part}

pub record PartNameShiftCreate : Type 0 where
  pub new_name : String
  pub rationale : String

pub record PartNameShiftCreateResponse : Type 0 where
  pub proposal_id : Uuid
  pub part_name : String
  pub current_name : String
  pub new_name : String
  pub rationale : String
  pub proposer_actor : Actor

-- `POST /parts/{name}/name-proposals`
unfoldable pub propose_part_name_shift :
    Call → String → PartNameShiftCreate → Db → Result (PartNameShiftCreateResponse × Db)
propose_part_name_shift call name payload db = do
  part ← locked_part db name
  raise_if (payload.new_name == part.name) 409
  clash ← scalar_one_or_none (live_parts_named db payload.new_name)
  raise_if (not (is_none clash)) 409
  ok (
    record {
      proposal_id = call.new_id;
      part_name = name;
      current_name = part.name;
      new_name = payload.new_name;
      rationale = payload.rationale;
      proposer_actor = call.x_actor;
    },
    record db {
      part_name_proposals =
          db.part_name_proposals
          ++ record {
            id = call.new_id;
            part_id = part.id;
            current_name_at_propose = part.name;
            new_name = payload.new_name;
            rationale = payload.rationale;
            proposer_actor = call.x_actor;
            status = proposal;
            created_at = call.server_now;
            accepted_at = none;
            accepted_by = none;
            single_operator_override = false;
          }
            ∷ [];
    },
  )

pub record PartNameShiftAcceptResponse : Type 0 where
  pub proposal_id : Uuid
  pub part_id : Uuid
  pub shifted_from_name : String
  pub shifted_to_name : String
  pub accepted_at : Timestamp
  pub accepted_by : Actor
  pub single_operator_override : Bool

unfoldable pub name_proposals : Db → Uuid → Uuid → List PartNameProposal
name_proposals db proposal_id part_id =
    select (λ (p : PartNameProposal). p.id == proposal_id && p.part_id == part_id)
      db.part_name_proposals

-- Another live part with the name.
unfoldable pub name_clashes : Db → String → Uuid → List Part
name_clashes db name id =
    select (λ (q : Part). q.name == name && (not (q.id == id) && is_live q.deleted_at)) db.parts

-- The part that an accepted shift writes.
abbrev pub renamed : Call → Part → PartNameProposal → Part
renamed call part p = record part {
  name = p.new_name;
  name_shifted_from = some part.name;
  name_shifted_at = some call.now;
}

abbrev pub settle : Call → Bool → PartNameProposal → PartNameProposal
settle call single_operator p = record p {
  status = accepted;
  accepted_at = some call.now;
  accepted_by = call.x_actor;
  single_operator_override = single_operator;
}

-- `POST /parts/{name}/name-proposals/{proposal_id}/accept`
unfoldable pub accept_part_name_shift :
    Call → String → Uuid → Bool → Db → Result (PartNameShiftAcceptResponse × Db)
accept_part_name_shift call name proposal_id single_operator db = do
  part ← locked_part db name
  found ← scalar_one_or_none (name_proposals db proposal_id part.id)
  p ← or_raise 404 found
  raise_if (not (is_open p.status)) 409
  enforce_two_party p.proposer_actor call.x_actor single_operator
  raise_if (p.new_name == part.name) 409
  clash ← scalar_one_or_none (name_clashes db p.new_name part.id)
  raise_if (not (is_none clash)) 409
  db1 ← save_part (renamed call part p) db
  ok (
    record {
      proposal_id = p.id;
      part_id = part.id;
      shifted_from_name = part.name;
      shifted_to_name = p.new_name;
      accepted_at = call.now;
      accepted_by = call.x_actor;
      single_operator_override = single_operator;
    },
    record db1 {
      part_name_proposals =
          update (λ (q : PartNameProposal). q.id == p.id) (settle call single_operator)
            db1.part_name_proposals;
    },
  )
