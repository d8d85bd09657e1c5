-- ===== src/Parts/Register.antt =====
-- `register_part` of src/routers/parts.py
pub mod Names
use titan_tyr.Prelude.{
  ℕ, Bool, true, false, not, Option, none, some, List, [], ◌∷◌, ◌++◌, String, Result, ok, ◌>>=◌,
  ◌>>◌, raise_if,
}
use titan_tyr.Models.Kinds.{PartSubtype}
use titan_tyr.Models.Rows.{Uuid, Timestamp, Actor, Part, PartVersion, Db}
use titan_tyr.Session.Queries.{Call, scalar_one_or_none}
use titan_tyr.Session.Live.{live_parts_named, add_part}
use titan_tyr.Session.Versions.{validated, add_part_version}
use titan_tyr.Session.Projects.{resolve_project_slug}
use titan_tyr.Versioning.{Version}
use titan_tyr.Versioning.Text.{parse, show}
use titan_tyr.Contracts.Register.{is_none}

pub record PartCreate : Type 0 where
  pub name : String
  pub subtype : PartSubtype
  pub repo_uri : String
  pub issue_tracker_uri : Option String
  pub aliases : List String
  pub version : List ℕ
  pub markdown : List ℕ
  pub project : Option String

pub record PartCreateResponse : Type 0 where
  pub id : Uuid
  pub name : String
  pub subtype : PartSubtype
  pub repo_uri : String
  pub issue_tracker_uri : Option String
  pub aliases : List String
  pub version : List ℕ
  pub markdown : List ℕ
  pub updated_at : Timestamp
  pub owner_actor : Actor
  pub project : Option String

abbrev pub new_part : Call → PartCreate → Option Uuid → Part
new_part call payload project_id = record {
  id = call.new_id;
  name = payload.name;
  subtype = payload.subtype;
  repo_uri = payload.repo_uri;
  issue_tracker_uri = payload.issue_tracker_uri;
  aliases = payload.aliases;
  created_at = call.server_now;
  subtype_shifted_from = none;
  subtype_shifted_at = none;
  owner_actor = call.x_actor;
  project_id = project_id;
  name_shifted_from = none;
  name_shifted_at = none;
  deleted_at = none;
  deleted_by_proposer_actor = none;
  deleted_by_acceptor_actor = none;
  deletion_rationale = none;
  deletion_single_operator_override = false;
}

abbrev pub first_part_version : Call → PartCreate → Version → PartVersion
first_part_version call payload version = record {
  id = call.new_version_id;
  part_id = call.new_id;
  version_major = version.major;
  version_minor = version.minor;
  version_patch = version.patch;
  markdown = payload.markdown;
  created_at = call.server_now;
}

-- `POST /parts`. The project of the reply has the name that the payload gives, by which it was found.
unfoldable pub register_part : Call → PartCreate → Db → Result (PartCreateResponse × Db)
register_part call payload db = do
  version ← validated (parse false payload.version)
  existing ← scalar_one_or_none (live_parts_named db payload.name)
  raise_if (not (is_none existing)) 409
  project_id ← resolve_project_slug db payload.project
  db1 ← add_part (new_part call payload project_id) db
  db2 ← add_part_version (first_part_version call payload version) db1
  ok (
    record {
      id = call.new_id;
      name = payload.name;
      subtype = payload.subtype;
      repo_uri = payload.repo_uri;
      issue_tracker_uri = payload.issue_tracker_uri;
      aliases = payload.aliases;
      version = show version;
      markdown = payload.markdown;
      updated_at = call.server_now;
      owner_actor = call.x_actor;
      project = payload.project;
    },
    db2,
  )
