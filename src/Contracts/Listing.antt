-- ===== src/Contracts/Listing.antt =====
-- `_list_active_contracts` of src/routers/parts.py, and `list_or_search_contracts` of
-- src/routers/contracts.py
pub mod Hidden
use titan_tyr.Prelude.{
  ℕ, Bool, true, false, ◌&&◌, ◌||◌, not, Option, none, some, List, [], ◌∷◌, String, Result, ok, err,
  http, ◌>>=◌, ◌>>◌, raise_if, select, ◌==◌, ℕ-eq, String-eq, Option-eq, if◌then◌else◌,
}
use titan_tyr.Models.Kinds.{
  ContractSubtype, connection, ContractSubtype-eq, ConnectionType, ConnectionType-eq,
}
use titan_tyr.Models.Rows.{Uuid, Timestamp, Actor, Part, Contract, ContractVersion, Db}
use titan_tyr.Session.Queries.{or_raise, attribute}
use titan_tyr.Session.Live.{is_live, get_part_row}
use titan_tyr.Session.Versions.{latest_active_contract_version}
use titan_tyr.Session.Filters.{
  contract_subtypes, connection_types, valid_filter, matches, ProjectFilter, project_filter,
  in_filter, project_name,
}
use titan_tyr.Versioning.Text.{show}
use titan_tyr.Pagination.{Codec, Page, validate_limit, list_page}
use titan_tyr.Contracts.Register.{resolve_part}
use titan_tyr.Contracts.History.{effective_at, stable_of}

-- What a list or a search asks for.
pub record Filters : Type 0 where
  pub touching_part_id : Option Uuid
  pub subtype : Option ContractSubtype
  pub connection_type : Option ConnectionType
  pub project : ProjectFilter
  pub owner_actor : Actor
  pub include_deleted : Bool

-- A side of the contract is the part.
abbrev pub at_part : Option Uuid → Contract → Bool
at_part none c = true
at_part (some id) c = c.owner_part_id == id || c.counterparty_part_id == id

abbrev pub has_label : Option ConnectionType → Option ConnectionType → Bool
has_label none column = true
has_label (some label) column = column == some label

abbrev pub has_owner : Actor → Actor → Bool
has_owner none column = true
has_owner (some actor) column = column == some actor

-- The `where` clauses.
unfoldable pub passes : Filters → Contract → Bool
passes f c =
    at_part f.touching_part_id c
    && (matches (λ (a b : ContractSubtype). a == b) f.subtype c.subtype
        && (has_label f.connection_type c.connection_type
            && (has_owner f.owner_actor c.owner_actor
                && ((f.include_deleted || is_live c.deleted_at)
                    && in_filter f.project c.project_id))))

-- A joined row: the contract, its latest active version and its two parts.
pub record Joined : Type 0 where
  pub contract : Contract
  pub latest : ContractVersion
  pub owner : Part
  pub counterparty : Part

abbrev pub join_row :
    Contract → Option ContractVersion → Option Part → Option Part → List Joined → List Joined
join_row c (some latest) (some owner) (some cp) rest =
    record { contract = c; latest = latest; owner = owner; counterparty = cp } ∷ rest
join_row c _ _ _ rest = rest

-- The inner joins: a contract without an active version or without one of its parts is left out.
unfoldable pub joined_rows : Db → List Contract → List Joined
joined_rows db [] = []
joined_rows db (c ∷ cs) =
    join_row c (latest_active_contract_version db c.id) (get_part_row db c.owner_part_id)
      (get_part_row db c.counterparty_part_id) (joined_rows db cs)

pub record ContractListItem : Type 0 where
  pub contract_id : Uuid
  pub owner : String
  pub counterparty : String
  pub subtype : ContractSubtype
  pub connection_type : Option ConnectionType
  pub version : List ℕ
  pub updated_at : Timestamp
  pub owner_actor : Actor
  pub project : Option String
  pub deleted_at : Option Timestamp

abbrev pub contract_item : Db → Joined → ContractListItem
contract_item db j = record {
  contract_id = j.contract.id;
  owner = j.owner.name;
  counterparty = j.counterparty.name;
  subtype = j.contract.subtype;
  connection_type = j.contract.connection_type;
  version = show (stable_of j.latest);
  updated_at = effective_at j.latest;
  owner_actor = j.contract.owner_actor;
  project = project_name db j.contract.project_id;
  deleted_at = j.contract.deleted_at;
}

-- `latest_active.c.cv_created_at` and `Contract.id`, by which the rows are listed.
abbrev pub listed_at : Joined → Timestamp
listed_at j = j.latest.created_at

abbrev pub listed_id : Joined → Uuid
listed_id j = j.contract.id

unfoldable pub listed_contracts : Filters → Db → List Joined
listed_contracts filters db = joined_rows db (select (passes filters) db.contracts)

-- `_list_active_contracts`
unfoldable pub list_active_contracts :
    Codec → Option (List ℕ) → ℕ → Filters → Db → Result (Page ContractListItem)
list_active_contracts codec after limit filters db =
    list_page listed_at listed_id codec (contract_item db) limit after (listed_contracts filters db)

-- The parameters of `GET /contracts`.
pub record ContractQuery : Type 0 where
  pub owner : Option String
  pub counterparty : Option String
  pub subtype : Option String
  pub connection_type : Option String
  pub project : Option String
  pub owner_actor : Actor
  pub after : Option (List ℕ)
  pub limit : ℕ
  pub include_deleted : Bool

pub record ContractSearchResult : Type 0 where
  pub contract_id : Uuid
  pub owner : String
  pub counterparty : String
  pub subtype : ContractSubtype
  pub connection_type : Option ConnectionType
  pub version : List ℕ
  pub markdown : List ℕ
  pub updated_at : Timestamp
  pub owner_actor : Actor
  pub project : Option String

-- `ContractListResponse` or `ContractSearchResponse`
pub data ContractReply : Type 0 where
  listed : Page ContractListItem → ContractReply
  searched : List ContractSearchResult → ContractReply

-- `connection_type` goes with `subtype` absent or `connection`.
abbrev pub label_misplaced : Option ConnectionType → Option ContractSubtype → Bool
label_misplaced none _ = false
label_misplaced (some label) none = false
label_misplaced (some label) (some subtype) = not (subtype == connection)

-- The two directions between two parts.
abbrev pub between : Uuid → Uuid → Contract → Bool
between a b c =
    (c.owner_part_id == a && c.counterparty_part_id == b)
    || (c.owner_part_id == b && c.counterparty_part_id == a)

abbrev search_result : Db → Contract → ContractVersion → Part → Part → ContractSearchResult
search_result db c latest owner cp = record {
  contract_id = c.id;
  owner = owner.name;
  counterparty = cp.name;
  subtype = c.subtype;
  connection_type = c.connection_type;
  version = show (stable_of latest);
  markdown = latest.markdown;
  updated_at = effective_at latest;
  owner_actor = c.owner_actor;
  project = project_name db c.project_id;
}

abbrev pub found_contract :
    Db
    → Contract
    → Option ContractVersion
    → Result (List ContractSearchResult)
    → Result (List ContractSearchResult)
found_contract db c none rest = rest
found_contract db c (some latest) rest = do
  owner ← attribute (get_part_row db c.owner_part_id)
  cp ← attribute (get_part_row db c.counterparty_part_id)
  results ← rest
  ok (search_result db c latest owner cp ∷ results)

-- The loop of the search.
unfoldable pub search_results : Db → List Contract → Result (List ContractSearchResult)
search_results db [] = ok []
search_results db (c ∷ cs) =
    found_contract db c (latest_active_contract_version db c.id) (search_results db cs)

-- Search mode, with the names of the two parts.
unfoldable pub search_contracts :
    Filters → String → String → Db → Result (List ContractSearchResult)
search_contracts filters owner counterparty db = do
  a ← resolve_part db owner
  b ← resolve_part db counterparty
  search_results db
      (select (λ (c : Contract). between a.id b.id c && passes filters c) db.contracts)

abbrev pub filters_of :
    ContractQuery → Option ContractSubtype → Option ConnectionType → ProjectFilter → Filters
filters_of q subtype label project = record {
  touching_part_id = none;
  subtype = subtype;
  connection_type = label;
  project = project;
  owner_actor = q.owner_actor;
  include_deleted = q.include_deleted;
}

-- The mode that the two names choose: both or neither.
abbrev pub list_or_search :
    Codec → ContractQuery → Option String → Option String → Filters → Db → Result ContractReply
list_or_search codec q none none filters db = do
  limit ← validate_limit q.limit
  page ← list_active_contracts codec q.after limit filters db
  ok (listed page)
list_or_search codec q (some owner) (some counterparty) filters db = do
  results ← search_contracts filters owner counterparty db
  ok (searched results)
list_or_search codec q _ _ filters db = err (http 422)

abbrev pub alone : Option String → Option String → Bool
alone none (some _) = true
alone (some _) none = true
alone _ _ = false

-- `GET /contracts`
unfoldable pub list_or_search_contracts : Codec → ContractQuery → Db → Result ContractReply
list_or_search_contracts codec q db = do
  raise_if (alone q.owner q.counterparty) 422
  subtype ← valid_filter contract_subtypes q.subtype
  label ← valid_filter connection_types q.connection_type
  raise_if (label_misplaced label subtype) 422
  project ← project_filter db q.project
  list_or_search codec q q.owner q.counterparty (filters_of q subtype label project) db
