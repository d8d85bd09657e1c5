-- ===== src/Projects.antt =====
-- src/routers/projects.py: the projects that parts and contracts are tagged with.
pub mod Tags
use titan_tyr.Prelude.{
  ℕ, Bool, true, false, ◌&&◌, not, Option, none, some, List, [], ◌∷◌, ◌++◌, String, Result, ok, err,
  integrity_error, ◌>>=◌, ◌>>◌, raise_if, select, any, update, length, ◌==◌, ℕ-eq, String-eq,
  Option-eq, if◌then◌else◌,
}
use titan_tyr.Models.Rows.{Uuid, Timestamp, Actor, Project, Part, Contract, Db}
use titan_tyr.Session.Queries.{Call, scalar_one_or_none, or_raise}
use titan_tyr.Session.Live.{is_live}
use titan_tyr.Contracts.Register.{is_none}
use titan_tyr.Parts.Update.{Field, or_kept}
use titan_tyr.Pagination.{Codec, Page, validate_limit, list_page}

pub record ProjectCreate : Type 0 where
  pub name : String
  pub description : Option String

pub record ProjectCreateResponse : Type 0 where
  pub name : String
  pub description : Option String
  pub created_at : Timestamp
  pub owner_actor : Actor

pub record ProjectDetail : Type 0 where
  pub name : String
  pub description : Option String
  pub created_at : Timestamp
  pub owner_actor : Actor
  pub part_count : ℕ
  pub contract_count : ℕ

-- `_project_counts`
unfoldable pub project_counts : Db → Uuid → ℕ × ℕ
project_counts db id = (
  length (select (λ (p : Part). p.project_id == some id && is_live p.deleted_at) db.parts),
  length (select (λ (c : Contract). c.project_id == some id && is_live c.deleted_at) db.contracts),
)

abbrev pub project_detail : Db → Project → ProjectDetail
project_detail db proj = record {
  name = proj.name;
  description = proj.description;
  created_at = proj.created_at;
  owner_actor = proj.owner_actor;
  part_count = (project_counts db proj.id).0;
  contract_count = (project_counts db proj.id).1;
}

-- `select(Project).where(Project.name == name)`
unfoldable pub projects_named : Db → String → List Project
projects_named db name = select (λ (p : Project). p.name == name) db.projects

abbrev pub new_project : Call → ProjectCreate → Project
new_project call payload = record {
  id = call.new_id;
  name = payload.name;
  description = payload.description;
  created_at = call.server_now;
  owner_actor = call.x_actor;
}

-- The flush of a new row, under the unique column `name`.
unfoldable pub add_project : Project → Db → Result Db
add_project proj db =
    if any (λ (p : Project). p.name == proj.name) db.projects
    then err integrity_error
    else ok (record db { projects = db.projects ++ proj ∷ [] })

-- `POST /projects`
unfoldable pub create_project : Call → ProjectCreate → Db → Result (ProjectCreateResponse × Db)
create_project call payload db = do
  existing ← scalar_one_or_none (projects_named db payload.name)
  raise_if (not (is_none existing)) 409
  db1 ← add_project (new_project call payload) db
  ok (
    record {
      name = payload.name;
      description = payload.description;
      created_at = call.server_now;
      owner_actor = call.x_actor;
    },
    db1,
  )

-- `GET /projects`
unfoldable pub list_projects : Codec → Option (List ℕ) → ℕ → Db → Result (Page ProjectDetail)
list_projects codec after limit db = do
  limit' ← validate_limit limit
  list_page (λ (p : Project). p.created_at) (λ (p : Project). p.id) codec (project_detail db) limit'
      after db.projects

-- `GET /projects/{name}`
unfoldable pub get_project : String → Db → Result ProjectDetail
get_project name db = do
  found ← scalar_one_or_none (projects_named db name)
  proj ← or_raise 404 found
  ok (project_detail db proj)

abbrev pub with_project : Project → Db → Db
with_project proj db = record db {
  projects = update (λ (p : Project). p.id == proj.id) (λ _. proj) db.projects;
}

-- `PUT /projects/{name}`
unfoldable pub update_project : String → Field (Option String) → Db → Result (ProjectDetail × Db)
update_project name description db = do
  found ← scalar_one_or_none (projects_named db name)
  proj ← or_raise 404 found
  let patched = record proj { description = or_kept description proj.description }
  ok (project_detail (with_project patched db) patched, with_project patched db)
