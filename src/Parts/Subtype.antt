-- ===== src/Parts/Subtype.antt =====
-- `propose_part_subtype_shift` and `accept_part_subtype_shift` of src/routers/parts.py
pub mod Impact
use titan_tyr.Prelude.{
  ℕ, Bool, true, false, ◌&&◌, ◌||◌, not, Option, none, some, List, [], ◌∷◌, ◌++◌, String, Result,
  ok, ◌>>=◌, ◌>>◌, raise_if, ◌==◌, ℕ-eq, select, update, if◌then◌else◌,
}
use titan_tyr.Models.Kinds.{
  PartSubtype, software, container, image, pod, compose, deployment, statefulset, service, ingress,
  secret, configmap, job, chart, PartSubtype-eq, ContractSubtype, ConnectionType, interaction,
  binding, connection, proposal, accepted,
}
use titan_tyr.Models.Rows.{
  Uuid, Timestamp, Actor, Part, PartVersion, Contract, PartSubtypeProposal, Db,
}
use titan_tyr.Rules.{Violation, binding_violation, connection_violation}
use titan_tyr.Session.Queries.{Call, scalar_one_or_none, or_raise, attribute}
use titan_tyr.Session.Live.{get_part_row, save_part}
use titan_tyr.Session.Versions.{latest_part_version}
use titan_tyr.Handshake.{enforce_two_party}
use titan_tyr.Texts.{codes, body_realign_required}
use titan_tyr.Contracts.Common.{is_open}
use titan_tyr.Parts.Common.{locked_part}

-- The part's new subtype as the name of a template.
abbrev pub part_kind : PartSubtype → List ℕ
part_kind software = codes "software"
part_kind container = codes "container"
part_kind image = codes "image"
part_kind pod = codes "pod"
part_kind compose = codes "compose"
part_kind deployment = codes "deployment"
part_kind statefulset = codes "statefulset"
part_kind service = codes "service"
part_kind ingress = codes "ingress"
part_kind secret = codes "secret"
part_kind configmap = codes "configmap"
part_kind job = codes "job"
part_kind chart = codes "chart"

-- `reason` is the violation that the text describes.
pub record RelatedRowAffected : Type 0 where
  pub contract_id : Uuid
  pub owner : String
  pub counterparty : String
  pub subtype : ContractSubtype
  pub reason : Violation

pub record SubtypeShiftImpact : Type 0 where
  pub body_realign_required : Bool
  pub related_rows_potentially_affected : List RelatedRowAffected

-- A contract with the part on either side, deleted or not.
unfoldable pub contracts_of : Db → Uuid → List Contract
contracts_of db id =
    select (λ (c : Contract). c.owner_part_id == id || c.counterparty_part_id == id) db.contracts

-- The rule that a contract of the kind breaks with these subtypes at its ends.
unfoldable pub broken_rule :
    ContractSubtype → Option ConnectionType → PartSubtype → PartSubtype → Option Violation
broken_rule interaction t owner_st cp_st = none
broken_rule binding t owner_st cp_st = binding_violation owner_st cp_st
broken_rule connection none owner_st cp_st = none
broken_rule connection (some t) owner_st cp_st = connection_violation t owner_st cp_st

-- The subtype of a part that a contract names.
abbrev pub subtype_of : Db → Uuid → Result PartSubtype
subtype_of db id = do part ← attribute (get_part_row db id); ok part.subtype

-- The subtypes at the ends: the new one on the part's side, which is the owner's where it is on both.
unfoldable pub ends_after : Db → Uuid → PartSubtype → Contract → Result (PartSubtype × PartSubtype)
ends_after db id new_subtype c =
    if c.owner_part_id == id
    then (do cp_st ← subtype_of db c.counterparty_part_id; ok (new_subtype, cp_st))
    else (do owner_st ← subtype_of db c.owner_part_id; ok (owner_st, new_subtype))

abbrev affected_row : Db → Contract → Option Violation → Result (List RelatedRowAffected)
affected_row db c none = ok []
affected_row db c (some v) = do
  owner ← attribute (get_part_row db c.owner_part_id)
  cp ← attribute (get_part_row db c.counterparty_part_id)
  ok (
      record {
        contract_id = c.id;
        owner = owner.name;
        counterparty = cp.name;
        subtype = c.subtype;
        reason = v;
      }
      ∷ [])

unfoldable pub affected_rows :
    Db → Uuid → PartSubtype → List Contract → Result (List RelatedRowAffected)
affected_rows db id new_subtype [] = ok []
affected_rows db id new_subtype (c ∷ cs) = do
  (owner_st, cp_st) ← ends_after db id new_subtype c
  row ← affected_row db c (broken_rule c.subtype c.connection_type owner_st cp_st)
  rest ← affected_rows db id new_subtype cs
  ok (row ++ rest)

abbrev pub body_of : Option PartVersion → Option (List ℕ)
body_of none = none
body_of (some r) = some r.markdown

-- `_part_shift_impact`
unfoldable pub part_shift_impact :
    Db → Uuid → PartSubtype → Option (List ℕ) → Result SubtypeShiftImpact
part_shift_impact db id new_subtype body_markdown = do
  affected ← affected_rows db id new_subtype (contracts_of db id)
  ok (record {
    body_realign_required = body_realign_required body_markdown (part_kind new_subtype);
    related_rows_potentially_affected = affected;
  })

pub record PartSubtypeShiftCreate : Type 0 where
  pub new_subtype : PartSubtype
  pub rationale : String

pub record PartSubtypeShiftCreateResponse : Type 0 where
  pub proposal_id : Uuid
  pub part_name : String
  pub current_subtype : PartSubtype
  pub new_subtype : PartSubtype
  pub impact : SubtypeShiftImpact

-- `POST /parts/{name}/subtype-proposals`
unfoldable pub propose_part_subtype_shift :
    Call → String → PartSubtypeShiftCreate → Db → Result (PartSubtypeShiftCreateResponse × Db)
propose_part_subtype_shift call name payload db = do
  part ← locked_part db name
  raise_if (payload.new_subtype == part.subtype) 409
  impact ←
      part_shift_impact db part.id payload.new_subtype (body_of (latest_part_version db part.id))
  ok (
    record {
      proposal_id = call.new_id;
      part_name = name;
      current_subtype = part.subtype;
      new_subtype = payload.new_subtype;
      impact = impact;
    },
    record db {
      part_subtype_proposals =
          db.part_subtype_proposals
          ++ record {
            id = call.new_id;
            part_id = part.id;
            current_subtype_at_propose = part.subtype;
            new_subtype = payload.new_subtype;
            rationale = payload.rationale;
            proposer_actor = call.x_actor;
            body_realign_required = impact.body_realign_required;
            status = proposal;
            created_at = call.server_now;
            accepted_at = none;
            accepted_by = none;
            single_operator_override = false;
          }
            ∷ [];
    },
  )

pub record PartSubtypeShiftAcceptResponse : Type 0 where
  pub proposal_id : Uuid
  pub part_name : String
  pub shifted_from : PartSubtype
  pub shifted_to : PartSubtype
  pub accepted_at : Timestamp
  pub accepted_by : Actor
  pub body_realign_required : Bool
  pub single_operator_override : Bool

unfoldable pub part_subtype_proposals_of : Db → Uuid → Uuid → List PartSubtypeProposal
part_subtype_proposals_of db proposal_id part_id =
    select (λ (p : PartSubtypeProposal). p.id == proposal_id && p.part_id == part_id)
      db.part_subtype_proposals

-- The part that an accepted shift writes.
abbrev pub reclassified : Call → Part → PartSubtypeProposal → Part
reclassified call part p = record part {
  subtype = p.new_subtype;
  subtype_shifted_from = some part.subtype;
  subtype_shifted_at = some call.now;
}

abbrev pub settle : Call → Bool → PartSubtypeProposal → PartSubtypeProposal
settle call single_operator p = record p {
  status = accepted;
  accepted_at = some call.now;
  accepted_by = call.x_actor;
  single_operator_override = single_operator;
}

-- `POST /parts/{name}/subtype-proposals/{proposal_id}/accept`
unfoldable pub accept_part_subtype_shift :
    Call → String → Uuid → Bool → Db → Result (PartSubtypeShiftAcceptResponse × Db)
accept_part_subtype_shift call name proposal_id single_operator db = do
  part ← locked_part db name
  found ← scalar_one_or_none (part_subtype_proposals_of db proposal_id part.id)
  p ← or_raise 404 found
  raise_if (not (is_open p.status)) 409
  enforce_two_party p.proposer_actor call.x_actor single_operator
  raise_if (p.new_subtype == part.subtype) 409
  db1 ← save_part (reclassified call part p) db
  ok (
    record {
      proposal_id = p.id;
      part_name = name;
      shifted_from = part.subtype;
      shifted_to = p.new_subtype;
      accepted_at = call.now;
      accepted_by = call.x_actor;
      body_realign_required = p.body_realign_required;
      single_operator_override = single_operator;
    },
    record db1 {
      part_subtype_proposals =
          update (λ (q : PartSubtypeProposal). q.id == p.id) (settle call single_operator)
            db1.part_subtype_proposals;
    },
  )
