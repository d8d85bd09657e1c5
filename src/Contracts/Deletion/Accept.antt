-- ===== src/Contracts/Deletion/Accept.antt =====
-- Accepted deletions of contracts: `accept_contract_deletion` of src/routers/contracts.py
use titan_tyr.Prelude.{
  ◌≡◌, sym, ap, ◌∙◌, Bool, false, not, none, some, [], ◌∷◌, ok, err, http, raise_if, >>=-elim,
  ok-injective, arith, ==-refl, ◌==◌, ℕ-eq,
}
use titan_tyr.Models.Kinds.{proposal}
use titan_tyr.Models.Rows.{Uuid, Contract, ContractDeletionProposal, Db}
use titan_tyr.Session.Queries.{Call, scalar_one_or_none, or_raise}
use titan_tyr.Session.Live.{get_contract_row, save_contract}
use titan_tyr.Session.Inversion.{
  raise_if-ok, or_raise-ok, scalar-one, with_contract, save_contract-ok,
}
use titan_tyr.Session.Rows.{get-rewritten, get_contract_row-id}
use titan_tyr.Handshake.{enforce_two_party}
use titan_tyr.Handshake.Laws.{TwoParty, enforce_two_party_lem}
use titan_tyr.Contracts.Common.{live_contract, live_contract-ok, is_open}
use titan_tyr.Contracts.Deletion.{
  ContractDeletionAcceptResponse, compute_deletion_impact, deleted, deletion_proposals,
  accept_contract_deletion,
}

open_status : (p : ContractDeletionProposal) → not (is_open p.status) ≡ false → p.status ≡ proposal
open_status p h = ground arith

-- What the acceptance has met, and the row that it wrote.
pub record IsDeletion (call : Call) (contract_id proposal_id : Uuid) (single_operator : Bool)
    (db db' : Db) (contract : Contract) (p : ContractDeletionProposal) : Type 0 where
  pub contract_row : get_contract_row db contract_id ≡ some contract
  pub contract_live : contract.deleted_at ≡ none
  pub proposal_row : deletion_proposals db proposal_id contract.id ≡ p ∷ []
  pub proposal_open : p.status ≡ proposal
  pub two_party : TwoParty p.proposer_actor call.x_actor single_operator
  pub contracts_after :
      db'.contracts ≡ (with_contract (deleted call single_operator contract p) db).contracts

-- An accepted deletion had a live contract and an open proposal, and met the two-party rule (the
-- override was set, or an actor was unknown, or the acceptor was not the proposer); it rewrote this
-- contract only.
pub accept_contract_deletion-IsDeletion :
    (call : Call) (contract_id proposal_id : Uuid) (single_operator : Bool) (db : Db)
    {r : ContractDeletionAcceptResponse × Db}
    → accept_contract_deletion call contract_id proposal_id single_operator db ≡ ok r
    → (contract : Contract) × (p : ContractDeletionProposal) × IsDeletion call contract_id
        proposal_id single_operator db r.1 contract p
unfolding accept_contract_deletion
accept_contract_deletion-IsDeletion call contract_id proposal_id single_operator db h =
    >>=-elim (live_contract db contract_id) _ h λ contract h1 k1.
      >>=-elim (scalar_one_or_none (deletion_proposals db proposal_id contract.id)) _ k1
        λ found h2 k2. >>=-elim (or_raise 404 found) _ k2 λ p h3 k3.
          >>=-elim (raise_if (not (is_open p.status)) 409) _ k3 λ u4 h4 k4.
            >>=-elim (enforce_two_party p.proposer_actor call.x_actor single_operator) _ k4
              λ u5 h5 k5.
                >>=-elim (compute_deletion_impact db contract (some p.id)) _ k5 λ impact h6 k6.
                  >>=-elim (save_contract (deleted call single_operator contract p) db) _ k6
                    λ db1 h7 k7.
                      let (checks, free, e) =
                        save_contract-ok (deleted call single_operator contract p) db h7 in
                      (
                        contract,
                        p,
                        record {
                          contract_row = ((live_contract-ok db contract_id contract).0 h1).0;
                          contract_live = ((live_contract-ok db contract_id contract).0 h1).1;
                          proposal_row = scalar-one _ (rw (← or_raise-ok 404 found h3) h2);
                          proposal_open = open_status p (raise_if-ok _ _ h4);
                          two_party = (enforce_two_party_lem _ _ _).0 h5;
                          contracts_after =
                              ap (λ (x : ContractDeletionAcceptResponse × Db). x.1.contracts)
                                (sym (ok-injective k7))
                              ∙ ap (λ (x : Db). x.contracts) e;
                        },
                      )

gone :
    (call : Call) (single_operator : Bool) (db : Db) (contract_id : Uuid) (contract : Contract)
    (p : ContractDeletionProposal)
    → get_contract_row db contract_id ≡ some (deleted call single_operator contract p)
    → live_contract db contract_id ≡ err (http 404)
unfolding live_contract
gone call single_operator db contract_id contract p h = rw h

-- After an accepted deletion the lock that the write handlers take on the contract is a 404.
accept_contract_deletion-gone :
    (call : Call) (contract_id proposal_id : Uuid) (single_operator : Bool) (db : Db)
    {r : ContractDeletionAcceptResponse × Db}
    → accept_contract_deletion call contract_id proposal_id single_operator db ≡ ok r
    → live_contract r.1 contract_id ≡ err (http 404)
accept_contract_deletion-gone call contract_id proposal_id single_operator db {r} h =
    let (contract, p, d) =
      accept_contract_deletion-IsDeletion call contract_id proposal_id single_operator db h in
    let reads = get-rewritten (deleted call single_operator contract p) db r.1 d.contracts_after in
    let same : contract.id ≡ contract_id = get_contract_row-id db contract_id d.contract_row in
    gone call single_operator r.1 contract_id contract p
      (rw (reads contract_id) (rw same (rw (==-refl contract_id, d.contract_row))))

-- An accepted deletion leaves the reading of every other contract as it was.
pub accept_contract_deletion-others :
    (call : Call) (contract_id proposal_id : Uuid) (single_operator : Bool) (db : Db)
    {r : ContractDeletionAcceptResponse × Db} (i : Uuid)
    → accept_contract_deletion call contract_id proposal_id single_operator db ≡ ok r
    → (contract_id == i) ≡ false
    → get_contract_row r.1 i ≡ get_contract_row db i
accept_contract_deletion-others call contract_id proposal_id single_operator db {r} i h ne =
    let (contract, p, d) =
      accept_contract_deletion-IsDeletion call contract_id proposal_id single_operator db h in
    let reads = get-rewritten (deleted call single_operator contract p) db r.1 d.contracts_after in
    let same : contract.id ≡ contract_id = get_contract_row-id db contract_id d.contract_row in
    rw (reads i) (rw same (rw ne))
