-- ===== src/Proposals.antt =====
-- src/routers/proposals.py: proposals of a contract's next version.
pub mod Create
pub mod Latest
pub mod Accept
pub mod Invariant
pub mod History
pub mod Listing
use titan_tyr.Prelude.{
  ℕ, Bool, true, false, ◌&&◌, not, Option, none, some, List, [], ◌∷◌, ◌++◌, Result, ok, ◌>>=◌, ◌>>◌,
  raise_if, ◌==◌, ℕ-eq, select, update, if◌then◌else◌,
}
use titan_tyr.Models.Kinds.{active, proposal}
use titan_tyr.Models.Rows.{Uuid, Timestamp, Actor, ContractVersion, Db}
use titan_tyr.Session.Queries.{Call, scalar_one_or_none, or_raise}
use titan_tyr.Session.Versions.{
  is_active, validated, version_of, same_version, bind_columns, latest_any_version, not_above,
  add_contract_version,
}
use titan_tyr.Handshake.{enforce_two_party}
use titan_tyr.Versioning.{Version, stable, is_prerelease}
use titan_tyr.Versioning.Text.{parse, show}
use titan_tyr.Contracts.Register.{is_none}
use titan_tyr.Contracts.Common.{live_contract}

pub record ProposalCreate : Type 0 where
  pub version : List ℕ
  pub markdown : List ℕ

pub record ProposalCreateResponse : Type 0 where
  pub contract_id : Uuid
  pub version : List ℕ

-- The row that a new proposal adds.
abbrev pub new_proposal : Call → Uuid → List ℕ → Version → ContractVersion
new_proposal call contract_id markdown v = record {
  id = call.new_id;
  contract_id = contract_id;
  version_major = v.major;
  version_minor = v.minor;
  version_patch = v.patch;
  prerelease = v.prerelease;
  markdown = markdown;
  status = proposal;
  created_at = call.server_now;
  accepted_at = none;
  promoted_from_prerelease = none;
  proposer_actor = call.x_actor;
  acceptor_actor = none;
  single_operator_override = false;
}

-- `POST /contracts/{contract_id}/proposals`. The payload's validator has parsed the version.
unfoldable pub create_proposal :
    Call → Uuid → ProposalCreate → Db → Result (ProposalCreateResponse × Db)
create_proposal call contract_id payload db = do
  new_version ← validated (parse true payload.version)
  contract ← live_contract db contract_id
  raise_if (not_above new_version (latest_any_version db contract_id)) 409
  db1 ← add_contract_version (new_proposal call contract_id payload.markdown new_version) db
  ok (record { contract_id = contract_id; version = show new_version }, db1)

pub record ProposalAcceptResponse : Type 0 where
  pub contract_id : Uuid
  pub promoted_from_version : List ℕ
  pub active_version : List ℕ
  pub accepted_at : Timestamp
  pub proposer_actor : Actor
  pub acceptor_actor : Actor
  pub single_operator_override : Bool

-- The rows of the contract with exactly that version.
unfoldable pub rows_of_version : Db → Uuid → Version → List ContractVersion
rows_of_version db contract_id v =
    select (λ (r : ContractVersion). r.contract_id == contract_id && same_version (version_of r) v)
      db.contract_versions

-- The proposal of a stable version, activated.
abbrev pub activated : Call → Bool → ContractVersion → ContractVersion
activated call single_operator r = record r {
  status = active;
  accepted_at = some call.now;
  acceptor_actor = call.x_actor;
  single_operator_override = single_operator;
}

-- The stable row that a release candidate is promoted to.
abbrev pub promoted : Call → Bool → Uuid → Version → ContractVersion → ContractVersion
promoted call single_operator contract_id target r = record {
  id = call.new_id;
  contract_id = contract_id;
  version_major = target.major;
  version_minor = target.minor;
  version_patch = target.patch;
  prerelease = none;
  markdown = r.markdown;
  status = active;
  created_at = call.server_now;
  accepted_at = some call.now;
  promoted_from_prerelease = target.prerelease;
  proposer_actor = r.proposer_actor;
  acceptor_actor = call.x_actor;
  single_operator_override = single_operator;
}

-- The rows with one of them rewritten.
abbrev pub with_version : ContractVersion → Db → Db
with_version r db = record db {
  contract_versions = update (λ (q : ContractVersion). q.id == r.id) (λ _. r) db.contract_versions;
}

abbrev reply : Call → Bool → Uuid → Version → Version → ContractVersion → ProposalAcceptResponse
reply call single_operator contract_id target active_version r = record {
  contract_id = contract_id;
  promoted_from_version = show target;
  active_version = show active_version;
  accepted_at = call.now;
  proposer_actor = r.proposer_actor;
  acceptor_actor = call.x_actor;
  single_operator_override = single_operator;
}

-- The part of the handler for a stable version.
unfoldable pub activate :
    Call → Bool → Uuid → Version → ContractVersion → Db → Result (ProposalAcceptResponse × Db)
activate call single_operator contract_id target r db = ok (
  reply call single_operator contract_id target target r,
  with_version (activated call single_operator r) db,
)

-- The part of the handler for a release candidate.
unfoldable pub promote :
    Call → Bool → Uuid → Version → ContractVersion → Db → Result (ProposalAcceptResponse × Db)
promote call single_operator contract_id target r db = do
  existing_stable ← scalar_one_or_none (rows_of_version db contract_id (stable target))
  raise_if (not (is_none existing_stable)) 409
  let db1 = with_version (record r { single_operator_override = single_operator }) db
  db2 ← add_contract_version (promoted call single_operator contract_id target r) db1
  ok (reply call single_operator contract_id target (stable target) r, db2)

-- `POST /contracts/{contract_id}/proposals/{version}/accept`
unfoldable pub accept_proposal :
    Call → Uuid → List ℕ → Bool → Db → Result (ProposalAcceptResponse × Db)
accept_proposal call contract_id version single_operator db = do
  contract ← live_contract db contract_id
  target ← validated (parse true version)
  bind_columns target
  found ← scalar_one_or_none (rows_of_version db contract_id target)
  r ← or_raise 404 found
  raise_if (is_active r.status) 409
  enforce_two_party r.proposer_actor call.x_actor single_operator
  if is_prerelease target
      then promote call single_operator contract_id target r db
      else activate call single_operator contract_id target r db
