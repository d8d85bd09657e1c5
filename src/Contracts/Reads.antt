-- ===== src/Contracts/Reads.antt =====
-- src/routers/contracts.py: `get_contract`, `update_contract` and `reassign_contract_owner`.
pub mod Echo
use titan_tyr.Prelude.{ℕ, Bool, Option, none, some, List, String, Result, ok, err, ◌>>=◌}
use titan_tyr.Models.Kinds.{ContractSubtype, ConnectionType}
use titan_tyr.Models.Rows.{Uuid, Timestamp, Actor, Contract, ContractVersion, Db}
use titan_tyr.Session.Queries.{Call, or_raise, attribute}
use titan_tyr.Session.Live.{get_part_row, save_contract}
use titan_tyr.Session.Versions.{latest_active_contract_version}
use titan_tyr.Session.Filters.{project_name}
use titan_tyr.Versioning.Text.{show}
use titan_tyr.Contracts.Common.{live_contract}
use titan_tyr.Contracts.History.{effective_at, stable_of, shown_contract}
use titan_tyr.Parts.Update.{Field, OwnerReassignCreate, OwnerReassignResponse, project_or_kept}

-- `ContractDetail`, and `ContractUpdateResponse`, which has the same fields.
pub record ContractDetail : Type 0 where
  pub contract_id : Uuid
  pub owner : String
  pub counterparty : String
  pub subtype : ContractSubtype
  pub connection_type : Option ConnectionType
  pub version : List ℕ
  pub markdown : List ℕ
  pub updated_at : Timestamp
  pub owner_actor : Actor
  pub project : Option String
  pub deleted_at : Option Timestamp
  pub deleted_by_proposer_actor : Actor
  pub deleted_by_acceptor_actor : Actor
  pub deletion_rationale : Option String

-- The part of both handlers from the latest active version on, with the row whose stamps of a deletion
-- the reply has.
unfoldable pub contract_detail : Db → Contract → Contract → Result ContractDetail
contract_detail db contract stamps = do
  latest ← or_raise 404 (latest_active_contract_version db contract.id)
  owner ← attribute (get_part_row db contract.owner_part_id)
  counterparty ← attribute (get_part_row db contract.counterparty_part_id)
  ok (record {
    contract_id = contract.id;
    owner = owner.name;
    counterparty = counterparty.name;
    subtype = contract.subtype;
    connection_type = contract.connection_type;
    version = show (stable_of latest);
    markdown = latest.markdown;
    updated_at = effective_at latest;
    owner_actor = contract.owner_actor;
    project = project_name db contract.project_id;
    deleted_at = stamps.deleted_at;
    deleted_by_proposer_actor = stamps.deleted_by_proposer_actor;
    deleted_by_acceptor_actor = stamps.deleted_by_acceptor_actor;
    deletion_rationale = stamps.deletion_rationale;
  })

-- `GET /contracts/{contract_id}`
unfoldable pub get_contract : Uuid → Bool → Db → Result ContractDetail
get_contract contract_id include_deleted db = do
  contract ← shown_contract db contract_id include_deleted
  contract_detail db contract contract

abbrev pub retagged : Option Uuid → Contract → Contract
retagged project_id contract = record contract { project_id = project_id }

-- The reply's defaults: no stamps of a deletion.
abbrev pub unstamped : Contract → Contract
unstamped contract = record contract {
  deleted_at = none;
  deleted_by_proposer_actor = none;
  deleted_by_acceptor_actor = none;
  deletion_rationale = none;
}

-- The part of `update_contract` up to its commit.
unfoldable pub retag_contract : Uuid → Field (Option String) → Db → Result (Contract × Db)
retag_contract contract_id project db = do
  contract ← live_contract db contract_id
  project_id ← project_or_kept db project contract.project_id
  db1 ← save_contract (retagged project_id contract) db
  ok (retagged project_id contract, db1)

abbrev pub answer : Db → Result (Contract × Db) → Result ContractDetail × Db
answer db (err fault) = (err fault, db)
answer db (ok r) = (contract_detail r.1 r.0 (unstamped r.0), r.1)

-- `PUT /contracts/{contract_id}`: the reply, and the database after it. The handler commits before it
-- reads the latest version, so that a fault from there on leaves the change.
unfoldable pub update_contract : Uuid → Field (Option String) → Db → Result ContractDetail × Db
update_contract contract_id project db = answer db (retag_contract contract_id project db)

-- `PUT /contracts/{contract_id}/owner`
unfoldable pub reassign_contract_owner :
    Call → Uuid → OwnerReassignCreate → Db → Result (OwnerReassignResponse × Db)
reassign_contract_owner call contract_id payload db = do
  contract ← live_contract db contract_id
  db1 ← save_contract (record contract { owner_actor = some payload.new_owner_actor }) db
  ok (
    record {
      previous_owner_actor = contract.owner_actor;
      new_owner_actor = payload.new_owner_actor;
      reassigned_by_actor = call.x_actor;
      reassigned_at = call.now;
      rationale = payload.rationale;
    },
    db1,
  )
