-- ===== src/Contracts/History/Walk.antt =====
-- src/routers/contracts.py: reading a contract's history to its end.
use titan_tyr.Prelude.{
  ℕ, suc, ◌≡◌, ◌≤◌, Bool, false, ◌||◌, some, none, map, ok, arith, length, sort_by, ltb,
}
use titan_tyr.Models.Rows.{Uuid, Contract, Db}
use titan_tyr.Pagination.{Codec, newer, validate_limit, max_limit}
use titan_tyr.Pagination.Cursor.{ReadsBack}
use titan_tyr.Pagination.Descending.{DistinctKeys}
use titan_tyr.Pagination.Walk.{walk}
use titan_tyr.History.{Entry, history_item}
use titan_tyr.History.Pages.{walk-history_page}
use titan_tyr.Contracts.History.{contract_entries, shown_contract, get_contract_history}

-- Where cursors are read back, the contract is shown and no two of its events share the time and the
-- row, a client that follows the cursors with a limit from 1 to 100 reads every event of the history
-- once, newest first, in no more requests than there are events, and one.
pub walk-get_contract_history :
    (codec : Codec) (contract_id : Uuid) (limit : ℕ) (include_deleted : Bool) (db : Db)
    (contract : Contract)
    → ReadsBack codec
    → DistinctKeys
        (λ (e : Entry). e.at)
        (λ (e : Entry). e.row_id)
        (contract_entries db contract_id include_deleted)
    → 1 ≤ limit
    → limit ≤ 100
    → shown_contract db contract_id include_deleted ≡ ok contract
    → walk
        (λ after. get_contract_history codec contract_id after limit include_deleted db)
        (suc (length (contract_entries db contract_id include_deleted)))
        none
      ≡ some (
          map history_item (
            sort_by
              (newer (λ (e : Entry). e.at) (λ (e : Entry). e.row_id))
              (contract_entries db contract_id include_deleted)))
unfolding get_contract_history validate_limit
walk-get_contract_history codec contract_id limit include_deleted db contract b d low high shown =
    let inside : (ltb limit 1 || ltb max_limit limit) ≡ false = ground arith in
    rw (inside, shown)
      (walk-history_page codec limit (contract_entries db contract_id include_deleted) b d low)
