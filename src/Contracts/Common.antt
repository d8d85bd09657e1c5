-- ===== src/Contracts/Common.antt =====
-- What the write handlers of src/routers/contracts.py share: the row that they lock.
use titan_tyr.Prelude.{
  Bool, true, false, not, Result, ◌>>=◌, ◌>>◌, ok, raise_if, ◌≡◌, ◌↔◌, none, some, arith,
}
use titan_tyr.Models.Kinds.{ProposalStatus, proposal, accepted}
use titan_tyr.Models.Rows.{Uuid, Contract, Db}
use titan_tyr.Session.Queries.{or_raise}
use titan_tyr.Session.Live.{is_live, get_contract_row}

-- `select(Contract).where(Contract.id == contract_id).with_for_update()`, and a 404 where there is no
-- such row or it is deleted.
unfoldable pub live_contract : Db → Uuid → Result Contract
live_contract db contract_id = do
  contract ← or_raise 404 (get_contract_row db contract_id)
  raise_if (not (is_live contract.deleted_at)) 404
  ok contract

-- `status == "proposal"`
abbrev pub is_open : ProposalStatus → Bool
is_open proposal = true
is_open accepted = false

-- The locked row is the row of that identifier, and it is live.
pub live_contract-ok :
    (db : Db) (contract_id : Uuid) (c : Contract)
    → (live_contract db contract_id ≡ ok c)
      ↔ ((get_contract_row db contract_id ≡ some c) × (c.deleted_at ≡ none))
unfolding live_contract
live_contract-ok db contract_id c = (ground arith, ground arith)
