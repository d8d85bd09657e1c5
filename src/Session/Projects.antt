-- ===== src/Session/Projects.antt =====
-- src/routers/_projects.py
use titan_tyr.Prelude.{Option, none, some, String, Result, ok, ◌>>=◌, ◌==◌, String-eq, ℕ-eq, select}
use titan_tyr.Models.Rows.{Uuid, Project, Db}
use titan_tyr.Session.Queries.{scalar_one_or_none, first, or_raise}

-- `resolve_project_slug`
unfoldable pub resolve_project_slug : Db → Option String → Result (Option Uuid)
resolve_project_slug db none = ok none
resolve_project_slug db (some slug) = do
  found ← scalar_one_or_none (select (λ (p : Project). p.name == slug) db.projects)
  project ← or_raise 422 found
  ok (some project.id)

-- `session.get(Project, id)`
unfoldable pub get_project_row : Db → Uuid → Option Project
get_project_row db id = first (select (λ (p : Project). p.id == id) db.projects)
