-- ===== src/Contracts/Subtype/Accept.antt =====
-- What an accepted subtype shift of a contract has met and what it writes; where the database refuses
-- one.
use titan_tyr.Prelude.{
  ◌≡◌, sym, ap, Bool, true, false, not, Option, none, some, [], ◌∷◌, ok, err, integrity_error,
  Result, raise_if, >>=-elim, ok-injective, ◌∙◌, arith,
}
use titan_tyr.Models.Kinds.{proposal}
use titan_tyr.Models.Rows.{Uuid, Part, Contract, ContractSubtypeProposal, Db}
use titan_tyr.Rules.{check_source_target}
use titan_tyr.Rules.Pairs.{Admits, check-Admits}
use titan_tyr.Session.Queries.{Call, scalar_one_or_none, or_raise, attribute}
use titan_tyr.Session.Live.{get_part_row, get_contract_row, contract_clashes, save_contract}
use titan_tyr.Session.Inversion.{
  raise_if-ok, or_raise-ok, attribute-ok, scalar-one, with_contract, save_contract-ok,
  save_contract-clash,
}
use titan_tyr.Handshake.{enforce_two_party}
use titan_tyr.Handshake.Laws.{TwoParty, enforce_two_party_lem}
use titan_tyr.Contracts.Register.{violates}
use titan_tyr.Contracts.Common.{live_contract, live_contract-ok, is_open}
use titan_tyr.Contracts.Subtype.{
  ContractSubtypeShiftAcceptResponse, is_noop, shifted, shift_proposals,
  accept_contract_subtype_shift,
}

-- What the handler asks of the contract, the proposal, the acceptor and the endpoints.
pub record IsShiftable (call : Call) (contract_id proposal_id : Uuid) (single_operator : Bool)
    (db : Db) (contract : Contract) (p : ContractSubtypeProposal) (owner counterparty : Part)
    : Type 0 where
  pub contract_row : get_contract_row db contract_id ≡ some contract
  pub contract_live : contract.deleted_at ≡ none
  pub proposal_row : shift_proposals db proposal_id contract.id ≡ p ∷ []
  pub proposal_open : p.status ≡ proposal
  pub two_party : TwoParty p.proposer_actor call.x_actor single_operator
  pub owner_row : get_part_row db contract.owner_part_id ≡ some owner
  pub counterparty_row : get_part_row db contract.counterparty_part_id ≡ some counterparty
  pub ends_admitted : Admits p.new_subtype p.new_connection_type owner.subtype counterparty.subtype
  pub changes : is_noop contract p.new_subtype p.new_connection_type ≡ false

no_violation :
    (r : Result (Option _)) → ((v : Option _) × (r ≡ ok v) × (violates v ≡ false)) → r ≡ ok none
no_violation r (none, e, f) = e
no_violation r (some v, e, f) = cc

open_status : (p : ContractSubtypeProposal) → not (is_open p.status) ≡ false → p.status ≡ proposal
open_status p h = ground arith

-- An accepted shift was shiftable: it had an open proposal and admitted endpoints, and met the
-- two-party rule (the override was set, or an actor was unknown, or the acceptor was not the proposer).
-- No other live contract had the new key, and the contracts after it are those before with this one
-- row at its new kind.
pub accept_contract_subtype_shift-IsShiftable :
    (call : Call) (contract_id proposal_id : Uuid) (single_operator : Bool) (db : Db)
    {r : ContractSubtypeShiftAcceptResponse × Db}
    → accept_contract_subtype_shift call contract_id proposal_id single_operator db ≡ ok r
    → (contract : Contract) × (p : ContractSubtypeProposal) × (owner : Part) × (counterparty : Part)
      × IsShiftable call contract_id proposal_id single_operator db contract p owner counterparty
      × (contract_clashes (shifted call contract p) db.contracts ≡ false)
      × (r.1.contracts ≡ (with_contract (shifted call contract p) db).contracts)
unfolding accept_contract_subtype_shift
accept_contract_subtype_shift-IsShiftable call contract_id proposal_id single_operator db h =
    >>=-elim (live_contract db contract_id) _ h λ contract h1 k1.
      >>=-elim (scalar_one_or_none (shift_proposals db proposal_id contract.id)) _ k1 λ found h2 k2.
        >>=-elim (or_raise 404 found) _ k2 λ p h3 k3.
          >>=-elim (raise_if (not (is_open p.status)) 409) _ k3 λ u4 h4 k4.
            >>=-elim (enforce_two_party p.proposer_actor call.x_actor single_operator) _ k4
              λ u5 h5 k5.
                >>=-elim (attribute (get_part_row db contract.owner_part_id)) _ k5 λ owner h6 k6.
                  >>=-elim (attribute (get_part_row db contract.counterparty_part_id)) _ k6
                    λ counterparty h7 k7.
                      >>=-elim
                        (check_source_target owner.subtype counterparty.subtype p.new_subtype
                          p.new_connection_type)
                        _ k7
                        λ v h8 k8. >>=-elim (raise_if (violates v) 422) _ k8 λ u9 h9 k9.
                          >>=-elim
                            (raise_if (is_noop contract p.new_subtype p.new_connection_type) 409) _
                            k9
                            λ u10 h10 k10.
                              >>=-elim (save_contract (shifted call contract p) db) _ k10
                                λ db1 h11 k11.
                                  let (checks, free, e) =
                                    save_contract-ok (shifted call contract p) db h11 in
                                  (
                                    contract,
                                    p,
                                    owner,
                                    counterparty,
                                    record {
                                      contract_row =
                                          ((live_contract-ok db contract_id contract).0 h1).0;
                                      contract_live =
                                          ((live_contract-ok db contract_id contract).0 h1).1;
                                      proposal_row =
                                          scalar-one _ (rw (← or_raise-ok 404 found h3) h2);
                                      proposal_open = open_status p (raise_if-ok _ _ h4);
                                      two_party = (enforce_two_party_lem _ _ _).0 h5;
                                      owner_row = attribute-ok _ h6;
                                      counterparty_row = attribute-ok _ h7;
                                      ends_admitted =
                                          (check-Admits _ _ _ _).0
                                            (no_violation _ (v, h8, raise_if-ok _ _ h9));
                                      changes = raise_if-ok _ _ h10;
                                    },
                                    free,
                                    ap
                                          (λ (x : ContractSubtypeShiftAcceptResponse × Db).
                                            x.1.contracts)
                                          (sym (ok-injective k11))
                                        ∙ ap (λ (x : Db). x.contracts) e,
                                  )

-- A shift that is shiftable, but whose new key another live contract holds, ends in the database's
-- integrity error.
pub accept_contract_subtype_shift-clash :
    (call : Call) (contract_id proposal_id : Uuid) (single_operator : Bool) (db : Db)
    (contract : Contract) (p : ContractSubtypeProposal) (owner counterparty : Part)
    → IsShiftable call contract_id proposal_id single_operator db contract p owner counterparty
    → contract_clashes (shifted call contract p) db.contracts ≡ true
    → accept_contract_subtype_shift call contract_id proposal_id single_operator db
      ≡ err integrity_error
unfolding accept_contract_subtype_shift scalar_one_or_none
accept_contract_subtype_shift-clash call contract_id proposal_id single_operator db contract p owner
      counterparty s clash =
    rw (
      (live_contract-ok db contract_id contract).1 (s.contract_row, s.contract_live),
      s.proposal_row,
      ap (λ st. not (is_open st)) s.proposal_open,
      (enforce_two_party_lem _ _ _).1 s.two_party,
      s.owner_row,
      s.counterparty_row,
      (check-Admits _ _ _ _).1 s.ends_admitted,
      s.changes,
      save_contract-clash (shifted call contract p) db clash,
    )
