-- ===== src/Examples/Shifts.antt =====
-- Shifts of a contract's kind.
use titan_tyr.Rules.{connection_rules, check_source_target}
use titan_tyr.Handshake.{enforce_two_party}
use titan_tyr.Session.Queries.{scalar_one_or_none, first}
use titan_tyr.Prelude.{any, select, ◌≡◌, refl, false, some, err, integrity_error, inl}
use titan_tyr.Models.Kinds.{ConnectionType-discrete, ContractSubtype-discrete, connection, runs}
use titan_tyr.Models.Rows.{Part, Contract, ContractSubtypeProposal}
use titan_tyr.Session.Live.{
  contract_checks, save_contract, get_part_row, get_contract_row, contract_clashes,
}
use titan_tyr.Session.Inversion.{with_contract}
use titan_tyr.Contracts.Common.{live_contract}
use titan_tyr.Contracts.Subtype.{shift_proposals, shifted, accept_contract_subtype_shift}
use titan_tyr.Contracts.Subtype.Accept.{
  IsShiftable, accept_contract_subtype_shift-IsShiftable, accept_contract_subtype_shift-clash,
}
use titan_tyr.Examples.Data.{after, parties, svc, app, binds, kind_proposal, call, db}

accept_contract_subtype_shift-IsShiftable_example :
    (contract : Contract) × (p : ContractSubtypeProposal) × (owner : Part) × (counterparty : Part)
    × IsShiftable call 10 21 false db contract p owner counterparty
    × (contract_clashes (shifted call contract p) db.contracts ≡ false)
    × ((after (accept_contract_subtype_shift call 10 21 false db)).contracts
        ≡ (with_contract (shifted call contract p) db).contracts)
unfolding accept_contract_subtype_shift live_contract get_contract_row first select
    scalar_one_or_none shift_proposals enforce_two_party get_part_row check_source_target
    ContractSubtype-discrete save_contract contract_checks contract_clashes any
accept_contract_subtype_shift-IsShiftable_example =
    accept_contract_subtype_shift-IsShiftable call 10 21 false db refl

accept_contract_subtype_shift-clash_example :
    accept_contract_subtype_shift call 10 20 false db ≡ err integrity_error
unfolding get_contract_row first select shift_proposals get_part_row connection_rules
    ContractSubtype-discrete contract_clashes any ConnectionType-discrete
accept_contract_subtype_shift-clash_example =
    accept_contract_subtype_shift-clash call 10 20 false db binds
      (kind_proposal 20 connection (some runs)) svc app
      (record {
        contract_row = refl;
        contract_live = refl;
        proposal_row = refl;
        proposal_open = refl;
        two_party = parties;
        owner_row = refl;
        counterparty_row = refl;
        ends_admitted = inl refl;
        changes = refl;
      })
      refl
