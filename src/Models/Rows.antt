-- ===== src/Models/Rows.antt =====
-- The tables of src/models.py. A column that is nullable is an `Option`; a markdown body is the list of
-- its code points.
use titan_tyr.Prelude.{ℕ, Bool, Option, List, String}
use titan_tyr.Models.Kinds.{
  PartSubtype, ContractSubtype, ConnectionType, ProposalStatus, VersionStatus, Scope,
}

abbrev pub Uuid : Type 0
Uuid = ℕ

abbrev pub Timestamp : Type 0
Timestamp = ℕ

-- An actor, as `X-Actor` or the token gives it.
abbrev pub Actor : Type 0
Actor = Option String

pub record Project : Type 0 where
  pub id : Uuid
  pub name : String
  pub description : Option String
  pub created_at : Timestamp
  pub owner_actor : Actor

pub record Part : Type 0 where
  pub id : Uuid
  pub name : String
  pub subtype : PartSubtype
  pub repo_uri : String
  pub issue_tracker_uri : Option String
  pub aliases : List String
  pub created_at : Timestamp
  pub subtype_shifted_from : Option PartSubtype
  pub subtype_shifted_at : Option Timestamp
  pub owner_actor : Actor
  pub project_id : Option Uuid
  pub name_shifted_from : Option String
  pub name_shifted_at : Option Timestamp
  pub deleted_at : Option Timestamp
  pub deleted_by_proposer_actor : Actor
  pub deleted_by_acceptor_actor : Actor
  pub deletion_rationale : Option String
  pub deletion_single_operator_override : Bool

pub record PartVersion : Type 0 where
  pub id : Uuid
  pub part_id : Uuid
  pub version_major : ℕ
  pub version_minor : ℕ
  pub version_patch : ℕ
  pub markdown : List ℕ
  pub created_at : Timestamp

pub record Contract : Type 0 where
  pub id : Uuid
  pub owner_part_id : Uuid
  pub counterparty_part_id : Uuid
  pub subtype : ContractSubtype
  pub connection_type : Option ConnectionType
  pub created_at : Timestamp
  pub subtype_shifted_from : Option ContractSubtype
  pub connection_type_shifted_from : Option ConnectionType
  pub subtype_shifted_at : Option Timestamp
  pub owner_actor : Actor
  pub project_id : Option Uuid
  pub endpoint_shifted_from_owner : Option String
  pub endpoint_shifted_from_counterparty : Option String
  pub endpoint_shifted_at : Option Timestamp
  pub deleted_at : Option Timestamp
  pub deleted_by_proposer_actor : Actor
  pub deleted_by_acceptor_actor : Actor
  pub deletion_rationale : Option String
  pub deletion_single_operator_override : Bool

-- `prerelease` holds the digits of `rcN`.
pub record ContractVersion : Type 0 where
  pub id : Uuid
  pub contract_id : Uuid
  pub version_major : ℕ
  pub version_minor : ℕ
  pub version_patch : ℕ
  pub prerelease : Option (List ℕ)
  pub markdown : List ℕ
  pub status : VersionStatus
  pub created_at : Timestamp
  pub accepted_at : Option Timestamp
  pub promoted_from_prerelease : Option (List ℕ)
  pub proposer_actor : Actor
  pub acceptor_actor : Actor
  pub single_operator_override : Bool

pub record Template : Type 0 where
  pub id : Uuid
  pub kind : String
  pub created_at : Timestamp

pub record TemplateVersion : Type 0 where
  pub id : Uuid
  pub template_id : Uuid
  pub version_major : ℕ
  pub version_minor : ℕ
  pub version_patch : ℕ
  pub prerelease : Option (List ℕ)
  pub markdown : List ℕ
  pub status : VersionStatus
  pub created_at : Timestamp
  pub accepted_at : Option Timestamp
  pub promoted_from_prerelease : Option (List ℕ)
  pub proposer_actor : Actor
  pub acceptor_actor : Actor
  pub single_operator_override : Bool

pub record PartSubtypeProposal : Type 0 where
  pub id : Uuid
  pub part_id : Uuid
  pub current_subtype_at_propose : PartSubtype
  pub new_subtype : PartSubtype
  pub rationale : String
  pub proposer_actor : Actor
  pub body_realign_required : Bool
  pub status : ProposalStatus
  pub created_at : Timestamp
  pub accepted_at : Option Timestamp
  pub accepted_by : Actor
  pub single_operator_override : Bool

pub record PartNameProposal : Type 0 where
  pub id : Uuid
  pub part_id : Uuid
  pub current_name_at_propose : String
  pub new_name : String
  pub rationale : String
  pub proposer_actor : Actor
  pub status : ProposalStatus
  pub created_at : Timestamp
  pub accepted_at : Option Timestamp
  pub accepted_by : Actor
  pub single_operator_override : Bool

pub record PartDeletionProposal : Type 0 where
  pub id : Uuid
  pub part_id : Uuid
  pub rationale : String
  pub proposer_actor : Actor
  pub status : ProposalStatus
  pub created_at : Timestamp
  pub accepted_at : Option Timestamp
  pub accepted_by : Actor
  pub single_operator_override : Bool
  pub cascade : Bool

pub record ContractSubtypeProposal : Type 0 where
  pub id : Uuid
  pub contract_id : Uuid
  pub current_subtype_at_propose : ContractSubtype
  pub current_connection_type_at_propose : Option ConnectionType
  pub new_subtype : ContractSubtype
  pub new_connection_type : Option ConnectionType
  pub rationale : String
  pub proposer_actor : Actor
  pub body_realign_required : Bool
  pub status : ProposalStatus
  pub created_at : Timestamp
  pub accepted_at : Option Timestamp
  pub accepted_by : Actor
  pub single_operator_override : Bool

pub record ContractEndpointProposal : Type 0 where
  pub id : Uuid
  pub contract_id : Uuid
  pub current_owner_at_propose : String
  pub current_counterparty_at_propose : String
  pub new_owner_part_id : Option Uuid
  pub new_counterparty_part_id : Option Uuid
  pub rationale : String
  pub proposer_actor : Actor
  pub status : ProposalStatus
  pub created_at : Timestamp
  pub accepted_at : Option Timestamp
  pub accepted_by : Actor
  pub single_operator_override : Bool

pub record ContractDeletionProposal : Type 0 where
  pub id : Uuid
  pub contract_id : Uuid
  pub rationale : String
  pub proposer_actor : Actor
  pub status : ProposalStatus
  pub created_at : Timestamp
  pub accepted_at : Option Timestamp
  pub accepted_by : Actor
  pub single_operator_override : Bool

pub record AgentActor : Type 0 where
  pub id : Uuid
  pub actor : String
  pub description : String
  pub registered_at : Timestamp
  pub registered_by_actor : Actor
  pub revoked_at : Option Timestamp
  pub revoked_by_actor : Actor
  pub revoke_rationale : Option String

pub record AuthToken : Type 0 where
  pub id : Uuid
  pub token_hash : String
  pub token_prefix : String
  pub actor : String
  pub description : String
  pub scopes : List Scope
  pub issued_at : Timestamp
  pub issued_by_actor : Actor
  pub expires_at : Option Timestamp
  pub last_used_at : Option Timestamp
  pub revoked_at : Option Timestamp
  pub revoked_by_actor : Actor
  pub revoke_rationale : Option String

-- The database, in the order in which a query without ORDER BY returns the rows.
pub record Db : Type 0 where
  pub projects : List Project
  pub parts : List Part
  pub part_versions : List PartVersion
  pub contracts : List Contract
  pub contract_versions : List ContractVersion
  pub part_subtype_proposals : List PartSubtypeProposal
  pub part_name_proposals : List PartNameProposal
  pub part_deletion_proposals : List PartDeletionProposal
  pub contract_subtype_proposals : List ContractSubtypeProposal
  pub contract_endpoint_proposals : List ContractEndpointProposal
  pub contract_deletion_proposals : List ContractDeletionProposal
  pub templates : List Template
  pub template_versions : List TemplateVersion
  pub agent_actors : List AgentActor
  pub auth_tokens : List AuthToken
