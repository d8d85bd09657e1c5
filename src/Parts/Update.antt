-- ===== src/Parts/Update.antt =====
-- `update_part` and `reassign_part_owner` of src/routers/parts.py
pub mod Versions
use titan_tyr.Prelude.{
  ℕ, Bool, true, false, not, Option, none, some, List, [], ◌∷◌, String, Result, ok, ◌>>=◌, ◌>>◌,
  raise_if, map,
}
use titan_tyr.Models.Kinds.{PartSubtype}
use titan_tyr.Models.Rows.{Uuid, Timestamp, Actor, Project, Part, PartVersion, Db}
use titan_tyr.Session.Queries.{Call, first}
use titan_tyr.Session.Live.{save_part}
use titan_tyr.Session.Versions.{
  validated, part_version_of, latest_part_version, not_above, add_part_version,
}
use titan_tyr.Session.Projects.{resolve_project_slug, get_project_row}
use titan_tyr.Versioning.{Version}
use titan_tyr.Versioning.Text.{parse, show}
use titan_tyr.Parts.Common.{locked_part}

-- A field in `model_fields_set`: absent, or set to a value.
pub data Field (A : Type 0) : Type 0 where
  absent : Field A
  given : A → Field A

pub record PartUpdate : Type 0 where
  pub version : List ℕ
  pub markdown : List ℕ
  pub repo_uri : Field String
  pub issue_tracker_uri : Field (Option String)
  pub aliases : Field (Option (List String))
  pub project : Field (Option String)

pub record PartUpdateResponse : Type 0 where
  pub id : Uuid
  pub name : String
  pub subtype : PartSubtype
  pub repo_uri : String
  pub issue_tracker_uri : Option String
  pub aliases : List String
  pub version : List ℕ
  pub markdown : List ℕ
  pub updated_at : Timestamp
  pub owner_actor : Actor
  pub project : Option String

abbrev pub or_kept : {A : Type 0} → Field A → A → A
or_kept absent old = old
or_kept (given a) old = a

-- `payload.aliases or []`
abbrev pub aliases_or_kept : Field (Option (List String)) → List String → List String
aliases_or_kept absent old = old
aliases_or_kept (given none) old = []
aliases_or_kept (given (some names)) old = names

abbrev pub project_or_kept : Db → Field (Option String) → Option Uuid → Result (Option Uuid)
project_or_kept db absent old = ok old
project_or_kept db (given slug) old = resolve_project_slug db slug

abbrev pub latest_of : Option PartVersion → Option Version
latest_of none = none
latest_of (some r) = some (part_version_of r)

-- The part with the fields that the payload sets.
abbrev pub patched : PartUpdate → Option Uuid → Part → Part
patched payload project_id part = record part {
  repo_uri = or_kept payload.repo_uri part.repo_uri;
  issue_tracker_uri = or_kept payload.issue_tracker_uri part.issue_tracker_uri;
  aliases = aliases_or_kept payload.aliases part.aliases;
  project_id = project_id;
}

abbrev pub next_part_version : Call → Part → PartUpdate → Version → PartVersion
next_part_version call part payload v = record {
  id = call.new_version_id;
  part_id = part.id;
  version_major = v.major;
  version_minor = v.minor;
  version_patch = v.patch;
  markdown = payload.markdown;
  created_at = call.server_now;
}

-- `PUT /parts/{name}`. The version is parsed by the payload's validator before anything else.
unfoldable pub update_part : Call → String → PartUpdate → Db → Result (PartUpdateResponse × Db)
update_part call name payload db = do
  new_version ← validated (parse false payload.version)
  part ← locked_part db name
  raise_if (not_above new_version (latest_of (latest_part_version db part.id))) 409
  project_id ← project_or_kept db payload.project part.project_id
  let row = patched payload project_id part
  db1 ← save_part row db
  db2 ← add_part_version (next_part_version call part payload new_version) db1
  ok (
    record {
      id = row.id;
      name = row.name;
      subtype = row.subtype;
      repo_uri = row.repo_uri;
      issue_tracker_uri = row.issue_tracker_uri;
      aliases = row.aliases;
      version = show new_version;
      markdown = payload.markdown;
      updated_at = call.server_now;
      owner_actor = row.owner_actor;
      project = project_name db project_id;
    },
    db2,
  )
  where
    project_name : Db → Option Uuid → Option String
    project_name db none = none
    project_name db (some id) = elim (get_project_row db id) [ none ↦ none | some p ↦ some p.name ]

pub record OwnerReassignCreate : Type 0 where
  pub new_owner_actor : String
  pub rationale : String

pub record OwnerReassignResponse : Type 0 where
  pub previous_owner_actor : Actor
  pub new_owner_actor : String
  pub reassigned_by_actor : Actor
  pub reassigned_at : Timestamp
  pub rationale : String

-- `PUT /parts/{name}/owner`
unfoldable pub reassign_part_owner :
    Call → String → OwnerReassignCreate → Db → Result (OwnerReassignResponse × Db)
reassign_part_owner call name payload db = do
  part ← locked_part db name
  db1 ← save_part (record part { owner_actor = some payload.new_owner_actor }) db
  ok (
    record {
      previous_owner_actor = part.owner_actor;
      new_owner_actor = payload.new_owner_actor;
      reassigned_by_actor = call.x_actor;
      reassigned_at = call.now;
      rationale = payload.rationale;
    },
    db1,
  )
