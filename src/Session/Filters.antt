-- ===== src/Session/Filters.antt =====
-- The filters that the list handlers share: src/routers/parts.py and src/routers/contracts.py.
use titan_tyr.Prelude.{
  Bool, true, false, Option, none, some, List, [], ◌∷◌, String, Result, ok, err, http, ◌>>=◌, ◌==◌,
  ℕ-eq, String-eq, Option-eq, if◌then◌else◌,
}
use titan_tyr.Models.Kinds.{
  PartSubtype, software, container, image, pod, compose, deployment, statefulset, service, ingress,
  secret, configmap, job, chart, ContractSubtype, interaction, binding, connection, ConnectionType,
  builds_from, instantiates, runs, composes, depends_on, submodule, serves_static, selects,
  routes_to, consumed_by,
}
use titan_tyr.Models.Rows.{Uuid, Project, Db}
use titan_tyr.Session.Projects.{resolve_project_slug, get_project_row}

-- The columns' texts.
abbrev pub part_subtypes : List (String × PartSubtype)
part_subtypes =
    ("software", software)
    ∷ ("container", container)
    ∷ ("image", image)
    ∷ ("pod", pod)
    ∷ ("compose", compose)
    ∷ ("deployment", deployment)
    ∷ ("statefulset", statefulset)
    ∷ ("service", service)
    ∷ ("ingress", ingress)
    ∷ ("secret", secret)
    ∷ ("configmap", configmap)
    ∷ ("job", job)
    ∷ ("chart", chart)
    ∷ []

abbrev pub contract_subtypes : List (String × ContractSubtype)
contract_subtypes =
    ("interaction", interaction) ∷ ("binding", binding) ∷ ("connection", connection) ∷ []

abbrev pub connection_types : List (String × ConnectionType)
connection_types =
    ("builds-from", builds_from)
    ∷ ("instantiates", instantiates)
    ∷ ("runs", runs)
    ∷ ("composes", composes)
    ∷ ("depends-on", depends_on)
    ∷ ("submodule", submodule)
    ∷ ("serves-static", serves_static)
    ∷ ("selects", selects)
    ∷ ("routes-to", routes_to)
    ∷ ("consumed-by", consumed_by)
    ∷ []

-- The value with that text.
unfoldable pub named_value : {A : Type 0} → List (String × A) → String → Option A
named_value [] text = none
named_value (v ∷ vs) text = let rest = named_value vs text in if v.0 == text then some v.1 else rest

-- `if value is not None and value not in VALUES: raise 422`
abbrev pub valid_filter : {A : Type 0} → List (String × A) → Option String → Result (Option A)
valid_filter values none = ok none
valid_filter values (some text) = elim (named_value values text) [
  | none ↦ err (http 422)
  | some a ↦ ok (some a)
]

-- `if value is not None: stmt = stmt.where(column == value)`
abbrev pub matches {ℓ} : {A : Type ℓ} → (A → A → Bool) → Option A → A → Bool
matches test none column = true
matches test (some a) column = test column a

pub data ProjectFilter : Type 0 where
  any_project : ProjectFilter
  unprojected : ProjectFilter
  in_project : Uuid → ProjectFilter

-- The three modes of `project`; PROJECT_NONE_SENTINEL is `__none__`.
unfoldable pub project_filter : Db → Option String → Result ProjectFilter
project_filter db none = ok any_project
project_filter db (some slug) =
    if slug == ""
    then ok any_project
    else if slug == "__none__"
    then ok unprojected
    else (resolve_project_slug db (some slug) >>= λ id. ok (by_id id))
  where
    by_id : Option Uuid → ProjectFilter
    by_id none = any_project
    by_id (some id) = in_project id

abbrev pub in_filter : ProjectFilter → Option Uuid → Bool
in_filter any_project id = true
in_filter unprojected none = true
in_filter unprojected (some _) = false
in_filter (in_project wanted) id = id == some wanted

abbrev name_of_row : Option Project → Option String
name_of_row none = none
name_of_row (some p) = some p.name

-- The name of a row's project.
abbrev pub project_name : Db → Option Uuid → Option String
project_name db none = none
project_name db (some id) = name_of_row (get_project_row db id)
