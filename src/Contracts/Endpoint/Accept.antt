-- ===== src/Contracts/Endpoint/Accept.antt =====
-- What an accepted endpoint shift has met and what it writes.
use titan_tyr.Prelude.{
  ◌≡◌, refl, ap, Bool, true, false, not, ◌&&◌, Option, none, some, [], ◌∷◌, ok, arith, ◌==◌,
  ==-refl, ℕ-eq, any-none, any, update, String,
}
use titan_tyr.Models.Kinds.{proposal}
use titan_tyr.Models.Rows.{Uuid, Part, Contract, ContractEndpointProposal, Db, Timestamp}
use titan_tyr.Rules.Pairs.{Admits, check-Admits}
use titan_tyr.Session.Queries.{Call, scalar_one_or_none}
use titan_tyr.Session.Live.{
  is_live, get_part_row, get_contract_row, same_key, connection_type_fits, contract_checks,
  contract_clashes,
}
use titan_tyr.Session.Inversion.{with_contract, save_contract-saved}
use titan_tyr.Session.Rows.{get-rewritten, get_contract_row-id}
use titan_tyr.Handshake.Laws.{TwoParty, enforce_two_party_lem}
use titan_tyr.Contracts.Common.{live_contract-ok, is_open}
use titan_tyr.Contracts.Endpoint.{
  ContractEndpointShiftAcceptResponse, id_or, moved, endpoint_clashes,
  resolve_endpoint_shift_targets, check_endpoint_uniqueness, part_or, proposed_part, relocated,
  settle, endpoint_proposals, accept_contract_endpoint_shift,
}

-- What the handler asks of the contract, the proposal, the acceptor and the endpoints to be.
pub record IsMovable (call : Call) (contract_id proposal_id : Uuid) (single_operator : Bool)
    (db : Db) (contract : Contract) (p : ContractEndpointProposal) (new_owner new_cp : Option Part)
    (owner counterparty old_owner old_cp : Part) : Type 0 where
  pub contract_row : get_contract_row db contract_id ≡ some contract
  pub contract_live : contract.deleted_at ≡ none
  pub proposal_row : endpoint_proposals db proposal_id contract.id ≡ p ∷ []
  pub proposal_open : p.status ≡ proposal
  pub two_party : TwoParty p.proposer_actor call.x_actor single_operator
  pub new_owner_row : proposed_part db p.new_owner_part_id ≡ ok new_owner
  pub new_cp_row : proposed_part db p.new_counterparty_part_id ≡ ok new_cp
  pub moves :
      (id_or new_owner contract.owner_part_id == contract.owner_part_id
        && id_or new_cp contract.counterparty_part_id == contract.counterparty_part_id)
      ≡ false
  pub ends_apart :
      (id_or new_owner contract.owner_part_id == id_or new_cp contract.counterparty_part_id) ≡ false
  pub owner_row : part_or db new_owner contract.owner_part_id ≡ ok owner
  pub counterparty_row : part_or db new_cp contract.counterparty_part_id ≡ ok counterparty
  pub ends_admitted :
      Admits contract.subtype contract.connection_type owner.subtype counterparty.subtype
  pub key_free :
      endpoint_clashes db contract
        (id_or new_owner contract.owner_part_id)
        (id_or new_cp contract.counterparty_part_id)
      ≡ []
  pub old_owner_row : get_part_row db contract.owner_part_id ≡ some old_owner
  pub old_cp_row : get_part_row db contract.counterparty_part_id ≡ some old_cp

-- The row at its new endpoints.
abbrev pub at_new_ends : Call → Contract → Option Part → Option Part → Part → Part → Contract
at_new_ends call contract new_owner new_cp old_owner old_cp =
    relocated call contract new_owner new_cp (id_or new_owner contract.owner_part_id)
      (id_or new_cp contract.counterparty_part_id) old_owner.name old_cp.name

abbrev clashing : Contract → Contract → Bool
clashing c d = not (d.id == c.id) && (same_key c d && is_live d.deleted_at)

module _ (db : Db) (contract : Contract) (o c : Uuid) where
  unique-free :
      endpoint_clashes db contract o c ≡ [] → check_endpoint_uniqueness db contract o c ≡ ok tt
  unfolding check_endpoint_uniqueness scalar_one_or_none
  unique-free h = rw h

  free-clashes :
      (call : Call) (new_owner new_cp : Option Part) (from_owner from_cp : String)
      → endpoint_clashes db contract o c ≡ []
      → contract_clashes
          (relocated call contract new_owner new_cp o c from_owner from_cp)
          db.contracts
        ≡ false
  unfolding endpoint_clashes contract_clashes
  free-clashes call new_owner new_cp from_owner from_cp h =
      let e : any (clashing (moved contract o c)) db.contracts ≡ false =
        any-none _ db.contracts h in
      ground arith

targets-ok :
    (contract : Contract) (new_owner new_cp : Option Part)
    → (id_or new_owner contract.owner_part_id == contract.owner_part_id
        && id_or new_cp contract.counterparty_part_id == contract.counterparty_part_id)
      ≡ false
    → (id_or new_owner contract.owner_part_id == id_or new_cp contract.counterparty_part_id) ≡ false
    → resolve_endpoint_shift_targets contract new_owner new_cp
      ≡ ok (id_or new_owner contract.owner_part_id, id_or new_cp contract.counterparty_part_id)
unfolding resolve_endpoint_shift_targets
targets-ok contract new_owner new_cp h k = rw (h, k)

relocated-checks :
    (call : Call) (contract : Contract) (new_owner new_cp : Option Part) (old_owner old_cp : Part)
    → (id_or new_owner contract.owner_part_id == id_or new_cp contract.counterparty_part_id) ≡ false
    → connection_type_fits contract.subtype contract.connection_type ≡ true
    → contract_checks (at_new_ends call contract new_owner new_cp old_owner old_cp) ≡ true
unfolding contract_checks
relocated-checks call contract new_owner new_cp old_owner old_cp h k = rw (h, k)

-- The reply to an accepted shift and the database after it.
abbrev pub after_move :
    Call
    → Bool
    → Contract
    → ContractEndpointProposal
    → Option Part
    → Option Part
    → Part
    → Part
    → Part
    → Part
    → Db
    → ContractEndpointShiftAcceptResponse × Db
after_move call single_operator contract p new_owner new_cp owner counterparty old_owner old_cp db =
    (
      record {
        proposal_id = p.id;
        contract_id = contract.id;
        shifted_from_owner = old_owner.name;
        shifted_to_owner = owner.name;
        shifted_from_counterparty = old_cp.name;
        shifted_to_counterparty = counterparty.name;
        accepted_at = call.now;
        accepted_by = call.x_actor;
        single_operator_override = single_operator;
      },
      record (with_contract (at_new_ends call contract new_owner new_cp old_owner old_cp) db) {
        contract_endpoint_proposals =
            update (λ (q : ContractEndpointProposal). q.id == p.id) (settle call single_operator)
              db.contract_endpoint_proposals;
      },
    )

-- A movable contract whose label fits its subtype is moved, and the constraints of the database do
-- not refuse the row.
pub accept_contract_endpoint_shift-after_move :
    (call : Call) (contract_id proposal_id : Uuid) (single_operator : Bool) (db : Db)
    (contract : Contract) (p : ContractEndpointProposal) (new_owner new_cp : Option Part)
    (owner counterparty old_owner old_cp : Part)
    → connection_type_fits contract.subtype contract.connection_type ≡ true
    → IsMovable call contract_id proposal_id single_operator db contract p new_owner new_cp owner
        counterparty old_owner old_cp
    → accept_contract_endpoint_shift call contract_id proposal_id single_operator db
      ≡ ok (
          after_move call single_operator contract p new_owner new_cp owner counterparty old_owner
            old_cp db)
unfolding accept_contract_endpoint_shift scalar_one_or_none
accept_contract_endpoint_shift-after_move call contract_id proposal_id single_operator db contract p
      new_owner new_cp owner counterparty old_owner old_cp fits s =
    rw (
      (live_contract-ok db contract_id contract).1 (s.contract_row, s.contract_live),
      s.proposal_row,
      ap (λ st. not (is_open st)) s.proposal_open,
      (enforce_two_party_lem _ _ _).1 s.two_party,
      s.new_owner_row,
      s.new_cp_row,
      targets-ok contract new_owner new_cp s.moves s.ends_apart,
      s.owner_row,
      s.counterparty_row,
      (check-Admits _ _ _ _).1 s.ends_admitted,
      unique-free db contract _ _ s.key_free,
      s.old_owner_row,
      s.old_cp_row,
      save_contract-saved (at_new_ends call contract new_owner new_cp old_owner old_cp) db
          (relocated-checks call contract new_owner new_cp old_owner old_cp s.ends_apart fits)
          (free-clashes db contract _ _ call new_owner new_cp old_owner.name old_cp.name
            s.key_free),
    )

-- The shift of a movable contract whose label fits is accepted where its new owner has been deleted
-- since: the contract, which is live, then has the deleted part for its owner.
pub accept_contract_endpoint_shift-dead_owner :
    (call : Call) (contract_id proposal_id : Uuid) (single_operator : Bool) (db : Db)
    (contract : Contract) (p : ContractEndpointProposal) (dead : Part) (new_cp : Option Part)
    (owner counterparty old_owner old_cp : Part) (t : Timestamp)
    → connection_type_fits contract.subtype contract.connection_type ≡ true
    → IsMovable call contract_id proposal_id single_operator db contract p
        (some dead)
        new_cp
        owner
        counterparty
        old_owner
        old_cp
    → dead.deleted_at ≡ some t
    → (r : ContractEndpointShiftAcceptResponse × Db) × (c : Contract)
      × (accept_contract_endpoint_shift call contract_id proposal_id single_operator db ≡ ok r)
      × (get_contract_row r.1 contract_id ≡ some c)
      × (c.deleted_at ≡ none)
      × (c.owner_part_id ≡ dead.id)
accept_contract_endpoint_shift-dead_owner call contract_id proposal_id single_operator db contract p
      dead new_cp owner counterparty old_owner old_cp t fits s _ =
    let row = at_new_ends call contract (some dead) new_cp old_owner old_cp in
    let r =
      after_move call single_operator contract p (some dead) new_cp owner counterparty old_owner
        old_cp db in
    let same : contract.id ≡ contract_id = get_contract_row-id db contract_id s.contract_row in
    (
      r,
      row,
      accept_contract_endpoint_shift-after_move call contract_id proposal_id single_operator db
          contract p (some dead) new_cp owner counterparty old_owner old_cp fits s,
      rw (get-rewritten row db r.1 refl contract_id)
          (rw same (rw (==-refl contract_id, s.contract_row))),
      s.contract_live,
      refl,
    )
