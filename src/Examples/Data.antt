-- ===== src/Examples/Data.antt =====
-- A database of five parts, one of them deleted, and two contracts with open proposals of each kind.
use titan_tyr.Prelude.{ℕ, inr, false, Option, none, some, List, [], ◌∷◌, String, Result, ok, err}
use titan_tyr.Models.Kinds.{
  PartSubtype, software, container, image, ContractSubtype, interaction, binding, connection,
  ConnectionType, runs, proposal, VersionStatus, active,
}
use titan_tyr.Models.Rows.{
  PartVersion, PartNameProposal, PartDeletionProposal, Uuid, Timestamp, Part, Contract,
  ContractVersion, ContractSubtypeProposal, ContractEndpointProposal, ContractDeletionProposal,
  AgentActor, Template, TemplateVersion, Db,
}
use titan_tyr.Session.Queries.{Call}
use titan_tyr.Handshake.Laws.{TwoParty}
use titan_tyr.Texts.{codes}

abbrev pub part : Uuid → String → PartSubtype → Option Timestamp → Part
part id name subtype deleted_at = record {
  id = id;
  name = name;
  subtype = subtype;
  repo_uri = "https://git.example";
  issue_tracker_uri = none;
  aliases = [];
  created_at = 1;
  subtype_shifted_from = none;
  subtype_shifted_at = none;
  owner_actor = some "alice";
  project_id = none;
  name_shifted_from = none;
  name_shifted_at = none;
  deleted_at = deleted_at;
  deleted_by_proposer_actor = none;
  deleted_by_acceptor_actor = none;
  deletion_rationale = none;
  deletion_single_operator_override = false;
}

abbrev pub svc : Part
svc = part 1 "svc" container none

abbrev pub app : Part
app = part 2 "app" software none

abbrev pub img : Part
img = part 3 "img" image none

abbrev pub old : Part
old = part 4 "old" container (some 50)

abbrev pub box : Part
box = part 5 "box" container none

abbrev pub contract : Uuid → ContractSubtype → Option ConnectionType → Contract
contract id subtype connection_type = record {
  id = id;
  owner_part_id = 1;
  counterparty_part_id = 2;
  subtype = subtype;
  connection_type = connection_type;
  created_at = 2;
  subtype_shifted_from = none;
  connection_type_shifted_from = none;
  subtype_shifted_at = none;
  owner_actor = some "alice";
  project_id = none;
  endpoint_shifted_from_owner = none;
  endpoint_shifted_from_counterparty = none;
  endpoint_shifted_at = none;
  deleted_at = none;
  deleted_by_proposer_actor = none;
  deleted_by_acceptor_actor = none;
  deletion_rationale = none;
  deletion_single_operator_override = false;
}

-- `svc` binds `app`, and `svc` runs `app`.
abbrev pub binds : Contract
binds = contract 10 binding none

abbrev pub runs_app : Contract
runs_app = contract 11 connection (some runs)

abbrev pub version_row : Uuid → ℕ → Option (List ℕ) → VersionStatus → ContractVersion
version_row id minor prerelease status = record {
  id = id;
  contract_id = 10;
  version_major = 1;
  version_minor = minor;
  version_patch = 0;
  prerelease = prerelease;
  markdown = codes "body";
  status = status;
  created_at = 3;
  accepted_at = none;
  promoted_from_prerelease = none;
  proposer_actor = some "alice";
  acceptor_actor = none;
  single_operator_override = false;
}

abbrev pub first_row : ContractVersion
first_row = version_row 60 0 none active

abbrev pub candidate : ContractVersion
candidate = version_row 61 1 (some (codes "1")) proposal

abbrev pub kind_proposal : Uuid → ContractSubtype → Option ConnectionType → ContractSubtypeProposal
kind_proposal id new_subtype new_connection_type = record {
  id = id;
  contract_id = 10;
  current_subtype_at_propose = binding;
  current_connection_type_at_propose = none;
  new_subtype = new_subtype;
  new_connection_type = new_connection_type;
  rationale = "why";
  proposer_actor = some "alice";
  body_realign_required = false;
  status = proposal;
  created_at = 4;
  accepted_at = none;
  accepted_by = none;
  single_operator_override = false;
}

abbrev pub move_proposal : Uuid → Uuid → ContractEndpointProposal
move_proposal id new_owner = record {
  id = id;
  contract_id = 10;
  current_owner_at_propose = "svc";
  current_counterparty_at_propose = "app";
  new_owner_part_id = some new_owner;
  new_counterparty_part_id = none;
  rationale = "why";
  proposer_actor = some "alice";
  status = proposal;
  created_at = 5;
  accepted_at = none;
  accepted_by = none;
  single_operator_override = false;
}

abbrev pub removal : ContractDeletionProposal
removal = record {
  id = 40;
  contract_id = 10;
  rationale = "why";
  proposer_actor = some "alice";
  status = proposal;
  created_at = 6;
  accepted_at = none;
  accepted_by = none;
  single_operator_override = false;
}

abbrev pub svc_version : PartVersion
svc_version = record {
  id = 62;
  part_id = 1;
  version_major = 1;
  version_minor = 2;
  version_patch = 0;
  markdown = codes "uses app";
  created_at = 3;
}

abbrev pub new_name : PartNameProposal
new_name = record {
  id = 80;
  part_id = 1;
  current_name_at_propose = "svc";
  new_name = "web";
  rationale = "why";
  proposer_actor = some "alice";
  status = proposal;
  created_at = 7;
  accepted_at = none;
  accepted_by = none;
  single_operator_override = false;
}

abbrev pub farewell : PartDeletionProposal
farewell = record {
  id = 90;
  part_id = 1;
  rationale = "why";
  proposer_actor = some "alice";
  status = proposal;
  created_at = 8;
  accepted_at = none;
  accepted_by = none;
  single_operator_override = false;
  cascade = false;
}

abbrev pub agent : AgentActor
agent = record {
  id = 50;
  actor = "robot";
  description = "";
  registered_at = 1;
  registered_by_actor = some "alice";
  revoked_at = none;
  revoked_by_actor = none;
  revoke_rationale = none;
}

abbrev pub pod_template : Template
pod_template = record { id = 10; kind = "pod"; created_at = 1 }

abbrev pub pod_row : Uuid → ℕ → Option (List ℕ) → VersionStatus → TemplateVersion
pod_row id minor prerelease status = record {
  id = id;
  template_id = 10;
  version_major = 1;
  version_minor = minor;
  version_patch = 0;
  prerelease = prerelease;
  markdown = codes "template";
  status = status;
  created_at = 3;
  accepted_at = none;
  promoted_from_prerelease = none;
  proposer_actor = some "alice";
  acceptor_actor = none;
  single_operator_override = false;
}

abbrev pub db : Db
db = record {
  projects = [];
  parts = svc ∷ app ∷ img ∷ old ∷ box ∷ [];
  part_versions = svc_version ∷ [];
  contracts = binds ∷ runs_app ∷ [];
  contract_versions = first_row ∷ candidate ∷ [];
  part_subtype_proposals = [];
  part_name_proposals = new_name ∷ [];
  part_deletion_proposals = farewell ∷ [];
  contract_subtype_proposals =
      kind_proposal 20 connection (some runs) ∷ kind_proposal 21 interaction none ∷ [];
  contract_endpoint_proposals = move_proposal 30 5 ∷ move_proposal 31 4 ∷ [];
  contract_deletion_proposals = removal ∷ [];
  templates = pod_template ∷ [];
  template_versions = pod_row 110 0 none active ∷ pod_row 111 1 (some (codes "1")) proposal ∷ [];
  agent_actors = agent ∷ [];
  auth_tokens = [];
}

-- A request by another actor than the proposals'.
abbrev pub call : Call
call = record { x_actor = some "bob"; now = 100; server_now = 99; new_id = 70; new_version_id = 71 }

-- The proposer and the acceptor are two.
pub parties : TwoParty (some "alice") (some "bob") false
parties = inr (inr (inr λ e. cc))

-- The database after a run; where it raised, that before.
abbrev pub after {ℓ} : {A : Type ℓ} → Result (A × Db) → Db
after (ok r) = r.1
after (err e) = db
