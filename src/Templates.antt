-- ===== src/Templates.antt =====
-- src/routers/templates.py: the bodies that parts and contracts are written from, and the proposals
-- of their next versions.
pub mod Rows
pub mod Agreement
use titan_tyr.Prelude.{
  ℕ, Bool, true, false, not, Option, none, some, List, [], ◌∷◌, String, Result, ok, err, http,
  ◌>>=◌, ◌>>◌, raise_if, if◌then◌else◌,
}
use titan_tyr.Models.Kinds.{active, proposal}
use titan_tyr.Models.Rows.{Timestamp, Actor, Template, TemplateVersion, Uuid, Db}
use titan_tyr.Session.Queries.{Call, scalar_one_or_none, or_raise}
use titan_tyr.Session.Versions.{is_active, validated, bind_columns, not_above}
use titan_tyr.Handshake.{contains, enforce_two_party}
use titan_tyr.Versioning.{Version, stable, is_prerelease}
use titan_tyr.Versioning.Text.{parse, show}
use titan_tyr.Contracts.Register.{is_none}
use titan_tyr.Templates.Rows.{
  templates_of_kind, latest_active_template_version, latest_any_template_version,
  rows_of_template_version, add_template_version, with_template_version, listed_proposals,
  triple_of, template_version_of,
}

-- VALID_KINDS
abbrev pub valid_kinds : List String
valid_kinds =
    "software" ∷ "container" ∷ "image" ∷ "pod" ∷ "compose" ∷ "interaction" ∷ "binding"
    ∷ "connection" ∷ "deployment" ∷ "statefulset" ∷ "service" ∷ "ingress" ∷ "secret" ∷ "configmap"
    ∷ "job" ∷ "chart" ∷ []

-- `_validate_kind`
unfoldable pub validate_kind : String → Result (Unit {0})
validate_kind kind = raise_if (not (contains valid_kinds kind)) 404

-- `_get_template`
unfoldable pub template_row : Db → String → Result Template
template_row db kind = do
  validate_kind kind
  found ← scalar_one_or_none (templates_of_kind db kind)
  or_raise 404 found

-- `GET /templates/{kind}`
unfoldable pub get_template : String → Db → Result (List ℕ)
get_template kind db = do
  template ← template_row db kind
  latest ← or_raise 500 (latest_active_template_version db template.id)
  ok latest.markdown

pub record TemplateProposalCreate : Type 0 where
  pub version : List ℕ
  pub markdown : List ℕ

pub record TemplateProposalCreateResponse : Type 0 where
  pub kind : String
  pub version : List ℕ

-- The row that a new proposal adds.
abbrev pub new_template_proposal : Call → Uuid → List ℕ → Version → TemplateVersion
new_template_proposal call template_id markdown v = record {
  id = call.new_id;
  template_id = template_id;
  version_major = v.major;
  version_minor = v.minor;
  version_patch = v.patch;
  prerelease = v.prerelease;
  markdown = markdown;
  status = proposal;
  created_at = call.server_now;
  accepted_at = none;
  promoted_from_prerelease = none;
  proposer_actor = call.x_actor;
  acceptor_actor = none;
  single_operator_override = false;
}

-- `POST /templates/{kind}/proposals`. The payload's validator has parsed the version.
unfoldable pub create_template_proposal :
    Call → String → TemplateProposalCreate → Db → Result (TemplateProposalCreateResponse × Db)
create_template_proposal call kind payload db = do
  new_version ← validated (parse true payload.version)
  template ← template_row db kind
  raise_if (not_above new_version (latest_any_template_version db template.id)) 409
  db1 ←
      add_template_version (new_template_proposal call template.id payload.markdown new_version) db
  ok (record { kind = kind; version = show new_version }, db1)

pub record TemplateProposalEntry : Type 0 where
  pub version : List ℕ
  pub markdown : List ℕ
  pub created_at : Timestamp
  pub proposer_actor : Actor
  pub acceptor_actor : Actor
  pub single_operator_override : Bool

pub record TemplateProposalListResponse : Type 0 where
  pub kind : String
  pub active_version : Option (List ℕ)
  pub proposals : List TemplateProposalEntry

abbrev template_entries : List TemplateVersion → List TemplateProposalEntry
template_entries [] = []
template_entries (r ∷ rs) =
    record {
      version = show (template_version_of r);
      markdown = r.markdown;
      created_at = r.created_at;
      proposer_actor = r.proposer_actor;
      acceptor_actor = r.acceptor_actor;
      single_operator_override = r.single_operator_override;
    }
    ∷ template_entries rs

abbrev shown : Option Version → Option (List ℕ)
shown none = none
shown (some v) = some (show v)

-- `GET /templates/{kind}/proposals`
unfoldable pub list_template_proposals : String → Db → Result TemplateProposalListResponse
list_template_proposals kind db = do
  template ← template_row db kind
  let active_v = triple_of (latest_active_template_version db template.id)
  ok (record {
    kind = kind;
    active_version = shown active_v;
    proposals = template_entries (listed_proposals db template.id active_v);
  })

pub record TemplateProposalAcceptResponse : Type 0 where
  pub kind : String
  pub promoted_from_version : List ℕ
  pub active_version : List ℕ
  pub accepted_at : Timestamp
  pub proposer_actor : Actor
  pub acceptor_actor : Actor
  pub single_operator_override : Bool

-- The proposal of a stable version, activated.
abbrev pub activated_template : Call → Bool → TemplateVersion → TemplateVersion
activated_template call single_operator r = record r {
  status = active;
  accepted_at = some call.now;
  acceptor_actor = call.x_actor;
  single_operator_override = single_operator;
}

-- The stable row that a release candidate is promoted to.
abbrev pub promoted_template : Call → Bool → Uuid → Version → TemplateVersion → TemplateVersion
promoted_template call single_operator template_id target r = record {
  id = call.new_id;
  template_id = template_id;
  version_major = target.major;
  version_minor = target.minor;
  version_patch = target.patch;
  prerelease = none;
  markdown = r.markdown;
  status = active;
  created_at = call.server_now;
  accepted_at = some call.now;
  promoted_from_prerelease = target.prerelease;
  proposer_actor = r.proposer_actor;
  acceptor_actor = call.x_actor;
  single_operator_override = single_operator;
}

abbrev pub template_reply :
    Call → Bool → String → Version → Version → TemplateVersion → TemplateProposalAcceptResponse
template_reply call single_operator kind target active_version r = record {
  kind = kind;
  promoted_from_version = show target;
  active_version = show active_version;
  accepted_at = call.now;
  proposer_actor = r.proposer_actor;
  acceptor_actor = call.x_actor;
  single_operator_override = single_operator;
}

-- The part of the handler for a stable version.
unfoldable pub activate_template :
    Call
    → Bool
    → String
    → Version
    → TemplateVersion
    → Db
    → Result (TemplateProposalAcceptResponse × Db)
activate_template call single_operator kind target r db = ok (
  template_reply call single_operator kind target target r,
  with_template_version (activated_template call single_operator r) db,
)

-- The part of the handler for a release candidate.
unfoldable pub promote_template :
    Call
    → Bool
    → Template
    → String
    → Version
    → TemplateVersion
    → Db
    → Result (TemplateProposalAcceptResponse × Db)
promote_template call single_operator template kind target r db = do
  existing_stable ← scalar_one_or_none (rows_of_template_version db template.id (stable target))
  raise_if (not (is_none existing_stable)) 409
  let db1 = with_template_version (record r { single_operator_override = single_operator }) db
  db2 ← add_template_version (promoted_template call single_operator template.id target r) db1
  ok (template_reply call single_operator kind target (stable target) r, db2)

-- `POST /templates/{kind}/proposals/{version}/accept`
unfoldable pub accept_template_proposal :
    Call → String → List ℕ → Bool → Db → Result (TemplateProposalAcceptResponse × Db)
accept_template_proposal call kind version single_operator db = do
  template ← template_row db kind
  target ← validated (parse true version)
  bind_columns target
  found ← scalar_one_or_none (rows_of_template_version db template.id target)
  r ← or_raise 404 found
  raise_if (is_active r.status) 409
  enforce_two_party r.proposer_actor call.x_actor single_operator
  if is_prerelease target
      then promote_template call single_operator template kind target r db
      else activate_template call single_operator kind target r db
