-- ===== src/Contracts/Endpoint/Moved.antt =====
-- The contract and the proposal after an accepted endpoint shift, column by column:
-- src/routers/contracts.py, `accept_contract_endpoint_shift`.
use titan_tyr.Prelude.{
  ◌≡◌, refl, sym, ap, ◌∙◌, Bool, true, ◌&&◌, Option, none, some, [], ◌∷◌, ok, err, http, arith,
  ◌==◌, ==-refl, ==→eq, ℕ-eq, update, String, In-select, inl, select-update, ok-injective,
}
use titan_tyr.Models.Kinds.{accepted}
use titan_tyr.Models.Rows.{Uuid, Part, Contract, ContractEndpointProposal, Db}
use titan_tyr.Session.Queries.{Call, scalar_one_or_none}
use titan_tyr.Session.Inversion.{attribute-ok}
use titan_tyr.Session.Live.{get_contract_row, connection_type_fits}
use titan_tyr.Session.Rows.{get-rewritten, get_contract_row-id, get_part_row-id}
use titan_tyr.Contracts.Common.{live_contract-ok}
use titan_tyr.Contracts.Endpoint.{
  ContractEndpointShiftAcceptResponse, id_or, part_or, from_name, settle, endpoint_proposals,
  accept_contract_endpoint_shift,
}
use titan_tyr.Contracts.Endpoint.Accept.{
  IsMovable, at_new_ends, after_move, accept_contract_endpoint_shift-after_move,
}

-- The name that a side had, where the proposal changes the side.
abbrev pub left_behind : Option Part → Part → Option String
left_behind none old = none
left_behind (some new) old = some old.name

-- The contract has the new ends and the stamps of the shift, and is as it was otherwise.
pub record IsMoved (call : Call) (contract : Contract) (new_owner new_cp : Option Part)
    (owner counterparty old_owner old_cp : Part) (row : Contract) : Type 0 where
  pub at_owner : row.owner_part_id ≡ owner.id
  pub at_counterparty : row.counterparty_part_id ≡ counterparty.id
  pub stamped : row.endpoint_shifted_at ≡ some call.now
  pub from_owner : row.endpoint_shifted_from_owner ≡ left_behind new_owner old_owner
  pub from_counterparty : row.endpoint_shifted_from_counterparty ≡ left_behind new_cp old_cp
  pub kept : row ≡ record contract {
    owner_part_id = row.owner_part_id;
    counterparty_part_id = row.counterparty_part_id;
    endpoint_shifted_at = row.endpoint_shifted_at;
    endpoint_shifted_from_owner = row.endpoint_shifted_from_owner;
    endpoint_shifted_from_counterparty = row.endpoint_shifted_from_counterparty;
  }

-- The proposal is accepted, by the acceptor at the time, and is as it was otherwise.
pub record IsSettled (call : Call) (single_operator : Bool) (p q : ContractEndpointProposal)
    : Type 0 where
  pub closed : q.status ≡ accepted
  pub at : q.accepted_at ≡ some call.now
  pub by : q.accepted_by ≡ call.x_actor
  pub overridden : q.single_operator_override ≡ single_operator
  pub kept : q ≡ record p {
    status = q.status;
    accepted_at = q.accepted_at;
    accepted_by = q.accepted_by;
    single_operator_override = q.single_operator_override;
  }

from_name_lem : (new : Option Part) (old : Part) → from_name new old.name ≡ left_behind new old
from_name_lem none old = refl
from_name_lem (some p) old = refl

-- The part at an end has the identifier that the end gets.
part_or-id :
    (db : Db) (new : Option Part) (current : Uuid) (part : Part)
    → part_or db new current ≡ ok part
    → id_or new current ≡ part.id
part_or-id db none current part h = sym (get_part_row-id db current (attribute-ok _ h))
part_or-id db (some p) current part h = ap (λ (q : Part). q.id) (ok-injective h)

-- The one row of a proposal is the proposal's, and the acceptance rewrites it.
settled_row :
    (call : Call) (single_operator : Bool) (db db1 : Db) (proposal_id contract_id : Uuid)
    (p : ContractEndpointProposal)
    → endpoint_proposals db proposal_id contract_id ≡ p ∷ []
    → db1.contract_endpoint_proposals
      ≡ update
          (λ (q : ContractEndpointProposal). q.id == p.id)
          (settle call single_operator)
          db.contract_endpoint_proposals
    → endpoint_proposals db1 proposal_id contract_id ≡ settle call single_operator p ∷ []
unfolding endpoint_proposals
settled_row call single_operator db db1 proposal_id contract_id p h e =
    let picks : ContractEndpointProposal → Bool =
      λ q. q.id == proposal_id && q.contract_id == contract_id in
    let (_, t) = In-select picks p db.contract_endpoint_proposals (rw h (inl refl)) in
    let same : p.id ≡ proposal_id = ==→eq p.id proposal_id (ground arith) in
    rw
      (
        e,
        select-update picks (λ (q : ContractEndpointProposal). q.id == p.id)
            (settle call single_operator) db.contract_endpoint_proposals (λ q. refl)
            (λ q k. rw same (ground arith)),
        h,
      )
      refl

-- A movable contract whose label fits its subtype is moved: the constraints of the database do not
-- refuse its row. The contract then reads as one with the new ends and the stamps of the shift, and
-- as it was otherwise; the other rows of contracts are as they were. The proposal reads as accepted by
-- the acceptor, and accepting it again, by whom and how ever, is a 409.
pub accept_contract_endpoint_shift-moves :
    (call : Call) (contract_id proposal_id : Uuid) (single_operator : Bool) (db : Db)
    (contract : Contract) (p : ContractEndpointProposal) (new_owner new_cp : Option Part)
    (owner counterparty old_owner old_cp : Part) (again : Call) (override : Bool)
    → connection_type_fits contract.subtype contract.connection_type ≡ true
    → IsMovable call contract_id proposal_id single_operator db contract p new_owner new_cp owner
        counterparty old_owner old_cp
    → (r : ContractEndpointShiftAcceptResponse × Db) × (row : Contract)
      × (q : ContractEndpointProposal) × (accept_contract_endpoint_shift call contract_id
            proposal_id single_operator db
          ≡ ok r)
      × (get_contract_row r.1 contract_id ≡ some row)
      × IsMoved call contract new_owner new_cp owner counterparty old_owner old_cp row
      × (r.1.contracts ≡ update (λ (d : Contract). d.id == contract_id) (λ _. row) db.contracts)
      × (endpoint_proposals r.1 proposal_id contract_id ≡ q ∷ [])
      × IsSettled call single_operator p q
      × (accept_contract_endpoint_shift again contract_id proposal_id override r.1 ≡ err (http 409))
unfolding accept_contract_endpoint_shift scalar_one_or_none
accept_contract_endpoint_shift-moves call contract_id proposal_id single_operator db contract p
      new_owner new_cp owner counterparty old_owner old_cp again override fits s =
    let row = at_new_ends call contract new_owner new_cp old_owner old_cp in
    let r =
      after_move call single_operator contract p new_owner new_cp owner counterparty old_owner
        old_cp db in
    let same : contract.id ≡ contract_id = get_contract_row-id db contract_id s.contract_row in
    let reads : get_contract_row r.1 contract_id ≡ some row =
      rw (get-rewritten row db r.1 refl contract_id)
        (rw same (rw (==-refl contract_id, s.contract_row))) in
    let settled : endpoint_proposals r.1 proposal_id contract.id
        ≡ settle call single_operator p ∷ [] =
      settled_row call single_operator db r.1 proposal_id contract.id p s.proposal_row refl in
    (
      r,
      row,
      settle call single_operator p,
      accept_contract_endpoint_shift-after_move call contract_id proposal_id single_operator db
          contract p new_owner new_cp owner counterparty old_owner old_cp fits s,
      reads,
      record {
        at_owner = part_or-id db new_owner contract.owner_part_id owner s.owner_row;
        at_counterparty =
            part_or-id db new_cp contract.counterparty_part_id counterparty s.counterparty_row;
        stamped = refl;
        from_owner = from_name_lem new_owner old_owner;
        from_counterparty = from_name_lem new_cp old_cp;
        kept = refl;
      },
      rw (← same) refl,
      ap (λ i. endpoint_proposals r.1 proposal_id i) (sym same) ∙ settled,
      record { closed = refl; at = refl; by = refl; overridden = refl; kept = refl },
      rw ((live_contract-ok r.1 contract_id row).1 (reads, s.contract_live), settled) refl,
    )
