-- ===== src/Parts/Listing.antt =====
-- src/routers/parts.py: `get_part`, `list_parts` and `list_part_contracts`.
use titan_tyr.Prelude.{
  ℕ, Bool, true, ◌&&◌, ◌||◌, Option, none, some, List, [], ◌∷◌, ◌++◌, String, Result, ok, ◌>>=◌,
  select, ◌==◌, ℕ-eq, Option-eq, String-eq, if◌then◌else◌,
}
use titan_tyr.Models.Kinds.{PartSubtype, PartSubtype-eq}
use titan_tyr.Models.Rows.{Uuid, Timestamp, Actor, Part, PartVersion, Db}
use titan_tyr.Session.Queries.{or_raise}
use titan_tyr.Session.Live.{is_live}
use titan_tyr.Session.Versions.{part_version_of, latest_part_version}
use titan_tyr.Session.Filters.{
  part_subtypes, valid_filter, matches, ProjectFilter, project_filter, in_filter, project_name,
  any_project,
}
use titan_tyr.Versioning.Text.{show}
use titan_tyr.Pagination.{Codec, Page, validate_limit, list_page}
use titan_tyr.Contracts.Listing.{Filters, ContractListItem, has_owner, list_active_contracts}
use titan_tyr.Parts.History.{shown_part}
use titan_tyr.Parts.Proposed.{listed_part}

pub record PartDetail : Type 0 where
  pub id : Uuid
  pub name : String
  pub subtype : PartSubtype
  pub repo_uri : String
  pub issue_tracker_uri : Option String
  pub aliases : List String
  pub version : List ℕ
  pub markdown : List ℕ
  pub updated_at : Timestamp
  pub owner_actor : Actor
  pub project : Option String
  pub deleted_at : Option Timestamp
  pub deleted_by_proposer_actor : Actor
  pub deleted_by_acceptor_actor : Actor
  pub deletion_rationale : Option String

-- `GET /parts/{name}`
unfoldable pub get_part : String → Bool → Db → Result PartDetail
get_part name include_deleted db = do
  part ← shown_part db name include_deleted
  latest ← or_raise 500 (latest_part_version db part.id)
  ok (record {
    id = part.id;
    name = part.name;
    subtype = part.subtype;
    repo_uri = part.repo_uri;
    issue_tracker_uri = part.issue_tracker_uri;
    aliases = part.aliases;
    version = show (part_version_of latest);
    markdown = latest.markdown;
    updated_at = latest.created_at;
    owner_actor = part.owner_actor;
    project = project_name db part.project_id;
    deleted_at = part.deleted_at;
    deleted_by_proposer_actor = part.deleted_by_proposer_actor;
    deleted_by_acceptor_actor = part.deleted_by_acceptor_actor;
    deletion_rationale = part.deletion_rationale;
  })

-- The parameters of `GET /parts`.
pub record PartQuery : Type 0 where
  pub after : Option (List ℕ)
  pub limit : ℕ
  pub name_match : Option (List ℕ)
  pub subtype : Option String
  pub project : Option String
  pub owner_actor : Actor
  pub include_deleted : Bool

-- The codes of `\`, `%` and `_`.
abbrev backslash : ℕ
backslash = 92

abbrev percent : ℕ
percent = 37

abbrev underscore : ℕ
underscore = 95

-- `text.replace(c, "\\" + c)`
unfoldable pub escaped_code : ℕ → List ℕ → List ℕ
escaped_code code [] = []
escaped_code code (c ∷ cs) =
    let rest = escaped_code code cs in if c == code then backslash ∷ c ∷ rest else c ∷ rest

-- `match` with the wildcards of the pattern escaped.
unfoldable pub escaped : List ℕ → List ℕ
escaped text = escaped_code underscore (escaped_code percent (escaped_code backslash text))

-- A part with its latest version.
pub record PartRow : Type 0 where
  pub part : Part
  pub latest : PartVersion

abbrev join_part : Part → Option PartVersion → List PartRow → List PartRow
join_part p none rest = rest
join_part p (some latest) rest = record { part = p; latest = latest } ∷ rest

-- The inner join with the latest versions.
unfoldable pub part_rows : Db → List Part → List PartRow
part_rows db [] = []
part_rows db (p ∷ ps) = join_part p (latest_part_version db p.id) (part_rows db ps)

pub record PartListItem : Type 0 where
  pub id : Uuid
  pub name : String
  pub subtype : PartSubtype
  pub repo_uri : String
  pub issue_tracker_uri : Option String
  pub aliases : List String
  pub version : List ℕ
  pub updated_at : Timestamp
  pub owner_actor : Actor
  pub project : Option String
  pub deleted_at : Option Timestamp

abbrev pub part_item : Db → PartRow → PartListItem
part_item db r = record {
  id = r.part.id;
  name = r.part.name;
  subtype = r.part.subtype;
  repo_uri = r.part.repo_uri;
  issue_tracker_uri = r.part.issue_tracker_uri;
  aliases = r.part.aliases;
  version = show (part_version_of r.latest);
  updated_at = r.latest.created_at;
  owner_actor = r.part.owner_actor;
  project = project_name db r.part.project_id;
  deleted_at = r.part.deleted_at;
}

abbrev pub part_listed_at : PartRow → Timestamp
part_listed_at r = r.latest.created_at

abbrev pub part_listed_id : PartRow → Uuid
part_listed_id r = r.part.id

-- The database's `ILIKE` with the backslash for its escapes, and `array_to_string` with the separator
-- U+001F, are arguments.
module _ (ilike : String → List ℕ → Bool) (array_to_string : List String → String) where
  abbrev matches_text : Option (List ℕ) → Part → Bool
  matches_text none p = true
  matches_text (some text) p =
      let pattern = percent ∷ (escaped text ++ percent ∷ []) in
      ilike p.name pattern || ilike (array_to_string p.aliases) pattern

  -- The `where` clauses.
  unfoldable pub part_kept : PartQuery → Option PartSubtype → ProjectFilter → Part → Bool
  part_kept q subtype project p =
      matches (λ (a b : PartSubtype). a == b) subtype p.subtype
      && ((q.include_deleted || is_live p.deleted_at)
          && (in_filter project p.project_id
              && (has_owner q.owner_actor p.owner_actor && matches_text q.name_match p)))

  -- `GET /parts`
  unfoldable pub list_parts : Codec → PartQuery → Db → Result (Page PartListItem)
  list_parts codec q db = do
    limit ← validate_limit q.limit
    subtype ← valid_filter part_subtypes q.subtype
    project ← project_filter db q.project
    list_page part_listed_at part_listed_id codec (part_item db) limit q.after
        (part_rows db (select (part_kept q subtype project) db.parts))

pub record PartContractsListResponse : Type 0 where
  pub part : String
  pub page : Page ContractListItem

abbrev pub part_filters : Uuid → Actor → Bool → Filters
part_filters id owner_actor include_deleted = record {
  touching_part_id = some id;
  subtype = none;
  connection_type = none;
  project = any_project;
  owner_actor = owner_actor;
  include_deleted = include_deleted;
}

-- `GET /parts/{name}/contracts`
unfoldable pub list_part_contracts :
    Codec → String → Option (List ℕ) → ℕ → Actor → Bool → Db → Result PartContractsListResponse
list_part_contracts codec name after limit owner_actor include_deleted db = do
  limit' ← validate_limit limit
  part ← listed_part db name include_deleted
  page ←
      list_active_contracts codec after limit' (part_filters part.id owner_actor include_deleted) db
  ok (record { part = part.name; page = page })
