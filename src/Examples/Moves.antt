-- ===== src/Examples/Moves.antt =====
-- Moves of a contract to other parts, and deletions.
use titan_tyr.Handshake.{enforce_two_party}
use titan_tyr.Session.Queries.{scalar_one_or_none, first}
use titan_tyr.Prelude.{
  select, update, true, [], ◌∷◌, err, http, ◌==◌, ℕ-eq, ◌≡◌, refl, false, none, some, ok, inl,
}
use titan_tyr.Models.Rows.{Contract, ContractEndpointProposal, ContractDeletionProposal, Db}
use titan_tyr.Session.Live.{
  contract_clashes, contract_checks, save_contract, get_part_row, get_contract_row,
}
use titan_tyr.Contracts.Common.{live_contract}
use titan_tyr.Contracts.Endpoint.{
  endpoint_clashes, endpoint_proposals, ContractEndpointShiftAcceptResponse,
  accept_contract_endpoint_shift,
}
use titan_tyr.Contracts.Endpoint.Accept.{IsMovable, accept_contract_endpoint_shift-dead_owner}
use titan_tyr.Contracts.Endpoint.Moved.{IsMoved, IsSettled, accept_contract_endpoint_shift-moves}
use titan_tyr.Contracts.Deletion.{
  compute_deletion_impact, deletion_proposals, accept_contract_deletion,
}
use titan_tyr.Contracts.Deletion.Accept.{IsDeletion, accept_contract_deletion-IsDeletion}
use titan_tyr.Examples.Data.{after, parties, svc, app, box, old, binds, move_proposal, call, db}

to_box : IsMovable call 10 30 false db binds (move_proposal 30 5) (some box) none box app svc app
unfolding get_contract_row first select endpoint_proposals get_part_row endpoint_clashes
to_box = record {
  contract_row = refl;
  contract_live = refl;
  proposal_row = refl;
  proposal_open = refl;
  two_party = parties;
  new_owner_row = refl;
  new_cp_row = refl;
  moves = refl;
  ends_apart = refl;
  owner_row = refl;
  counterparty_row = refl;
  ends_admitted = (inl refl, refl);
  key_free = refl;
  old_owner_row = refl;
  old_cp_row = refl;
}

to_old : IsMovable call 10 31 false db binds (move_proposal 31 4) (some old) none old app svc app
unfolding get_contract_row first select endpoint_proposals get_part_row endpoint_clashes
to_old = record {
  contract_row = refl;
  contract_live = refl;
  proposal_row = refl;
  proposal_open = refl;
  two_party = parties;
  new_owner_row = refl;
  new_cp_row = refl;
  moves = refl;
  ends_apart = refl;
  owner_row = refl;
  counterparty_row = refl;
  ends_admitted = (inl refl, refl);
  key_free = refl;
  old_owner_row = refl;
  old_cp_row = refl;
}

accept_contract_endpoint_shift-moves_example :
    (r : ContractEndpointShiftAcceptResponse × Db) × (row : Contract)
    × (q : ContractEndpointProposal) × (accept_contract_endpoint_shift call 10 30 false db ≡ ok r)
    × (get_contract_row r.1 10 ≡ some row)
    × IsMoved call binds (some box) none box app svc app row
    × (r.1.contracts ≡ update (λ (d : Contract). d.id == 10) (λ _. row) db.contracts)
    × (endpoint_proposals r.1 30 10 ≡ q ∷ [])
    × IsSettled call false (move_proposal 30 5) q
    × (accept_contract_endpoint_shift call 10 30 true r.1 ≡ err (http 409))
accept_contract_endpoint_shift-moves_example =
    accept_contract_endpoint_shift-moves call 10 30 false db binds (move_proposal 30 5) (some box)
      none box app svc app call true refl to_box

accept_contract_endpoint_shift-dead_owner_example :
    (r : ContractEndpointShiftAcceptResponse × Db) × (c : Contract)
    × (accept_contract_endpoint_shift call 10 31 false db ≡ ok r)
    × (get_contract_row r.1 10 ≡ some c)
    × (c.deleted_at ≡ none)
    × (c.owner_part_id ≡ 4)
accept_contract_endpoint_shift-dead_owner_example =
    accept_contract_endpoint_shift-dead_owner call 10 31 false db binds (move_proposal 31 4) old
      none old app svc app 50 refl to_old refl

accept_contract_deletion-IsDeletion_example :
    (contract : Contract) × (p : ContractDeletionProposal) × IsDeletion call 10 40 false db
      (after (accept_contract_deletion call 10 40 false db))
      contract
      p
unfolding accept_contract_deletion live_contract get_contract_row first select scalar_one_or_none
    deletion_proposals enforce_two_party compute_deletion_impact get_part_row save_contract
    contract_checks contract_clashes
accept_contract_deletion-IsDeletion_example =
    accept_contract_deletion-IsDeletion call 10 40 false db refl
