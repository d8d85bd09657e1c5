-- ===== src/Proposals/Listing.antt =====
-- src/routers/proposals.py: `list_proposals`.
use titan_tyr.Prelude.{
  ℕ, Bool, false, ◌&&◌, not, Option, none, some, List, Result, ok, ◌>>=◌, select, sort_by, map,
  ◌==◌, ℕ-eq,
}
use titan_tyr.Models.Rows.{Uuid, Timestamp, Actor, ContractVersion, Db}
use titan_tyr.Session.Versions.{
  is_active, version_of, listed_before, not_above, latest_active_contract_version,
}
use titan_tyr.Versioning.{Version}
use titan_tyr.Versioning.Text.{show}
use titan_tyr.Contracts.History.{stable_of, shown_contract}

pub record ProposalEntry : Type 0 where
  pub version : List ℕ
  pub markdown : List ℕ
  pub created_at : Timestamp
  pub proposer_actor : Actor
  pub acceptor_actor : Actor
  pub single_operator_override : Bool

abbrev proposal_entry : ContractVersion → ProposalEntry
proposal_entry r = record {
  version = show (version_of r);
  markdown = r.markdown;
  created_at = r.created_at;
  proposer_actor = r.proposer_actor;
  acceptor_actor = r.acceptor_actor;
  single_operator_override = r.single_operator_override;
}

pub record ProposalListResponse : Type 0 where
  pub contract_id : Uuid
  pub active_version : Option (List ℕ)
  pub proposals : List ProposalEntry

-- `Version(…)` of the triple of the latest active row.
abbrev active_triple : Option ContractVersion → Option Version
active_triple none = none
active_triple (some r) = some (stable_of r)

abbrev shown : Option Version → Option (List ℕ)
shown none = none
shown (some v) = some (show v)

-- The open proposals above the active version, in the order of the list.
unfoldable pub open_rows : Db → Uuid → Option Version → List ContractVersion
open_rows db contract_id active_v =
    select (λ (r : ContractVersion). not (not_above (version_of r) active_v))
      (sort_by (λ (q r : ContractVersion). listed_before (version_of q) (version_of r))
        (select (λ (r : ContractVersion). r.contract_id == contract_id && not (is_active r.status))
          db.contract_versions))

-- `GET /contracts/{contract_id}/proposals`
unfoldable pub list_proposals : Uuid → Db → Result ProposalListResponse
list_proposals contract_id db = do
  contract ← shown_contract db contract_id false
  let active_v = active_triple (latest_active_contract_version db contract_id)
  ok (record {
    contract_id = contract_id;
    active_version = shown active_v;
    proposals = map proposal_entry (open_rows db contract_id active_v);
  })
