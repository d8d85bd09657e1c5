-- ===== src/Templates/Rows.antt =====
-- src/routers/templates.py: queries on the rows of a template, and src/models.py: their unique key.
use titan_tyr.Prelude.{
  ◌&&◌, not, Option, none, some, List, [], ◌∷◌, ◌++◌, String, Result, ok, err, integrity_error,
  data_error, ◌==◌, ℕ-eq, String-eq, if◌then◌else◌, select, any, map, update, sort_by,
}
use titan_tyr.Models.Rows.{Uuid, Template, TemplateVersion, Db}
use titan_tyr.Session.Versions.{
  is_active, triple_above, listed_before, max_version, not_above, same_version, fits_columns,
}
use titan_tyr.Versioning.{Version}

-- `Version(r.version_major, r.version_minor, r.version_patch, r.prerelease)`
abbrev pub template_version_of : TemplateVersion → Version
template_version_of r = record {
  major = r.version_major;
  minor = r.version_minor;
  patch = r.version_patch;
  prerelease = r.prerelease;
}

-- `select(Template).where(Template.kind == kind)`
unfoldable pub templates_of_kind : Db → String → List Template
templates_of_kind db kind = select (λ (t : Template). t.kind == kind) db.templates

-- `order_by(… desc()).limit(1)`
unfoldable pub top_template_version :
    Option TemplateVersion → List TemplateVersion → Option TemplateVersion
top_template_version best [] = best
top_template_version none (r ∷ rs) = top_template_version (some r) rs
top_template_version (some b) (r ∷ rs) =
    top_template_version
      (some (if triple_above (template_version_of r) (template_version_of b) then r else b)) rs

-- `_latest_active_template_version`
unfoldable pub latest_active_template_version : Db → Uuid → Option TemplateVersion
latest_active_template_version db id = top_template_version none (
    select (λ (r : TemplateVersion). r.template_id == id && is_active r.status)
      db.template_versions)

-- `_latest_any_template_version`
unfoldable pub latest_any_template_version : Db → Uuid → Option Version
latest_any_template_version db id = max_version (
    map template_version_of
      (select (λ (r : TemplateVersion). r.template_id == id) db.template_versions))

-- `Version(latest_active.version_major, latest_active.version_minor, latest_active.version_patch)`
abbrev pub triple_of : Option TemplateVersion → Option Version
triple_of none = none
triple_of (some r) = some (record {
  major = r.version_major;
  minor = r.version_minor;
  patch = r.version_patch;
  prerelease = none;
})

-- The open proposals above the active version, in the order of the list.
unfoldable pub listed_proposals : Db → Uuid → Option Version → List TemplateVersion
listed_proposals db id active_v =
    select (λ (r : TemplateVersion). not (not_above (template_version_of r) active_v))
      (sort_by
        (λ (q r : TemplateVersion). listed_before (template_version_of q) (template_version_of r))
        (select (λ (r : TemplateVersion). r.template_id == id && not (is_active r.status))
          db.template_versions))

-- `TemplateVersion.template_id == template.id`, and exactly that version.
unfoldable pub rows_of_template_version : Db → Uuid → Version → List TemplateVersion
rows_of_template_version db template_id v =
    select
      (λ (r : TemplateVersion).
        r.template_id == template_id && same_version (template_version_of r) v)
      db.template_versions

-- The flush of a new row, under `uq_template_versions_template_id_version_prerelease`.
unfoldable pub add_template_version : TemplateVersion → Db → Result Db
add_template_version r db =
    if not (fits_columns (template_version_of r))
    then err data_error
    else if any
        (λ (q : TemplateVersion).
          q.template_id == r.template_id
          && same_version (template_version_of q) (template_version_of r))
        db.template_versions
    then err integrity_error
    else ok (record db { template_versions = db.template_versions ++ r ∷ [] })

-- The rows with one of them rewritten.
abbrev pub with_template_version : TemplateVersion → Db → Db
with_template_version r db = record db {
  template_versions = update (λ (q : TemplateVersion). q.id == r.id) (λ _. r) db.template_versions;
}
