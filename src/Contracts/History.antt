-- ===== src/Contracts/History.antt =====
-- src/routers/contracts.py: `get_contract_history`.
pub mod Walk
pub mod Events
use titan_tyr.Prelude.{
  ℕ, Bool, true, false, ◌&&◌, not, Option, none, some, List, [], ◌∷◌, ◌++◌, Result, ◌>>=◌, ◌>>◌, ok,
  raise_if, select, map, ◌==◌, ℕ-eq, if◌then◌else◌,
}
use titan_tyr.Models.Rows.{
  Uuid, Timestamp, Contract, ContractVersion, ContractSubtypeProposal, ContractEndpointProposal,
  ContractDeletionProposal, Db,
}
use titan_tyr.Session.Queries.{or_raise}
use titan_tyr.Session.Live.{is_live, get_contract_row}
use titan_tyr.Session.Versions.{is_active}
use titan_tyr.Versioning.{Version}
use titan_tyr.Versioning.Text.{show}
use titan_tyr.Contracts.Common.{is_open}
use titan_tyr.Pagination.{Codec, Page, validate_limit}
use titan_tyr.History.{
  body_bump, subtype_shift, endpoint_shift, deletion_accepted, Body, Entry, VersionHistoryItem,
  accepted_entry, proposed_entry, history_page,
}

-- `r.accepted_at or r.created_at`
abbrev pub effective_at : ContractVersion → Timestamp
effective_at r = elim r.accepted_at [ none ↦ r.created_at | some t ↦ t ]

abbrev pub stable_of : ContractVersion → Version
stable_of r = record {
  major = r.version_major;
  minor = r.version_minor;
  patch = r.version_patch;
  prerelease = none;
}

abbrev pub contract_body : ContractVersion → Body
contract_body r = record { at = effective_at r; version = stable_of r }

abbrev pub bump_entry : ContractVersion → Entry
bump_entry r = record {
  at = effective_at r;
  row_id = r.id;
  kind = body_bump;
  version = show (stable_of r);
  proposer_actor = r.proposer_actor;
  acceptor_actor = r.acceptor_actor;
  single_operator_override = r.single_operator_override;
}

abbrev subtype_entries : List Body → List ContractSubtypeProposal → List Entry
subtype_entries body [] = []
subtype_entries body (r ∷ rs) =
    accepted_entry body r.id subtype_shift r.accepted_at r.proposer_actor r.accepted_by
      r.single_operator_override (subtype_entries body rs)

abbrev endpoint_entries : List Body → List ContractEndpointProposal → List Entry
endpoint_entries body [] = []
endpoint_entries body (r ∷ rs) =
    accepted_entry body r.id endpoint_shift r.accepted_at r.proposer_actor r.accepted_by
      r.single_operator_override (endpoint_entries body rs)

abbrev deletion_entries : List Body → List ContractDeletionProposal → List Entry
deletion_entries body [] = []
deletion_entries body (r ∷ rs) =
    proposed_entry body r.id r.created_at r.proposer_actor
    ∷ accepted_entry body r.id deletion_accepted r.accepted_at r.proposer_actor r.accepted_by
        r.single_operator_override (deletion_entries body rs)

-- `ContractVersion.contract_id == contract_id, ContractVersion.status == "active"`
unfoldable pub body_rows : Db → Uuid → List ContractVersion
body_rows db id =
    select (λ (r : ContractVersion). r.contract_id == id && is_active r.status) db.contract_versions

-- `entries`, in the order in which the handler collects them.
unfoldable pub contract_entries : Db → Uuid → Bool → List Entry
contract_entries db id include_deleted =
    let body = map contract_body (body_rows db id) in
    map bump_entry (body_rows db id)
    ++ (subtype_entries body (
          select (λ (p : ContractSubtypeProposal). p.contract_id == id && not (is_open p.status))
            db.contract_subtype_proposals)
        ++ (endpoint_entries body (
              select
                (λ (p : ContractEndpointProposal). p.contract_id == id && not (is_open p.status))
                db.contract_endpoint_proposals)
            ++ (if include_deleted
                then deletion_entries body (
                    select (λ (p : ContractDeletionProposal). p.contract_id == id)
                      db.contract_deletion_proposals)
                else [])))

-- The row of a contract that a read returns.
unfoldable pub shown_contract : Db → Uuid → Bool → Result Contract
shown_contract db id include_deleted = do
  contract ← or_raise 404 (get_contract_row db id)
  raise_if (not (is_live contract.deleted_at) && not include_deleted) 404
  ok contract

-- `GET /contracts/{contract_id}/history`
unfoldable pub get_contract_history :
    Codec → Uuid → Option (List ℕ) → ℕ → Bool → Db → Result (Page VersionHistoryItem)
get_contract_history codec contract_id after limit include_deleted db = do
  limit' ← validate_limit limit
  contract ← shown_contract db contract_id include_deleted
  history_page codec limit' after (contract_entries db contract_id include_deleted)
