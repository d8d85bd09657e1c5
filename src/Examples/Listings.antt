-- ===== src/Examples/Listings.antt =====
-- Lists, histories and reads.
use titan_tyr.Contracts.Reads.{retag_contract, contract_detail}
use titan_tyr.Session.Projects.{resolve_project_slug, get_project_row}
use titan_tyr.Versioning.Text.{show_digits, show_number}
use titan_tyr.Models.Kinds.{ContractSubtype-discrete, ConnectionType-discrete}
use titan_tyr.Contracts.Common.{live_contract}
use titan_tyr.Session.Live.{
  get_contract_row, get_part_row, save_contract, contract_checks, contract_clashes,
}
use titan_tyr.Session.Queries.{first, scalar_one_or_none}
use titan_tyr.Contracts.Deletion.{
  deletion_proposals, compute_deletion_impact, history_entries, open_proposals, referencing,
}
use titan_tyr.Handshake.{enforce_two_party}
use titan_tyr.Session.Filters.{project_filter}
use titan_tyr.Pagination.{validate_limit, cut, keyset, list_page, last_key}
use titan_tyr.Contracts.Listing.{list_active_contracts, joined_rows, passes, listed_contracts}
use titan_tyr.Prelude.{All, select, any, update, insert_by}
use titan_tyr.Session.Versions.{
  latest_active_contract_version, top_version, latest_part_version, top_part_version, triple_above,
}
use titan_tyr.Versioning.{lex}
use titan_tyr.Prelude.{
  insert_by, ℕ, ◌≡◌, ◌≤◌, refl, true, false, none, some, List, [], ◌∷◌, map, sort_by, length, ok,
  arith, String,
}
use titan_tyr.Models.Rows.{Uuid, Project, Db}
use titan_tyr.Versioning.Text.{show}
use titan_tyr.Texts.{codes}
use titan_tyr.Pagination.{keyset, cut, list_page, validate_limit, newer, Page}
use titan_tyr.Pagination.Walk.{walk}
use titan_tyr.Projects.{ProjectDetail, project_detail, list_projects}
use titan_tyr.Projects.Tags.{walk-list_projects, length-list_projects}
use titan_tyr.History.{Body, Entry, history_item}
use titan_tyr.Contracts.History.Events.{IsBody, IsDated, contract_entries-IsDated}
use titan_tyr.Contracts.History.{
  contract_body, shown_contract, body_rows, contract_entries, get_contract_history,
}
use titan_tyr.Contracts.History.Walk.{walk-get_contract_history}
use titan_tyr.Contracts.Deletion.{accept_contract_deletion}
use titan_tyr.Contracts.Listing.{ContractQuery, listed, list_or_search_contracts}
use titan_tyr.Contracts.Listing.Hidden.{Shows, accept_contract_deletion-list_or_search_contracts}
use titan_tyr.Contracts.Reads.{ContractDetail, update_contract, get_contract}
use titan_tyr.Contracts.Reads.Echo.{get_contract-update_contract}
use titan_tyr.Parts.Update.{given}
use titan_tyr.Examples.Cursors.{small_codec, small_codec-ReadsBack}
use titan_tyr.Examples.Data.{binds, call, db}

abbrev project : Uuid → String → ℕ → Project
project id name created_at = record {
  id = id;
  name = name;
  description = none;
  created_at = created_at;
  owner_actor = none;
}

-- Three projects, two of them of one time.
abbrev tagged : Db
tagged = record db { projects = project 1 "a" 5 ∷ project 2 "b" 6 ∷ project 3 "c" 5 ∷ [] }

walk-list_projects_example :
    walk (λ after. list_projects small_codec after 2 tagged) 4 none
    ≡ some (
        map
          (project_detail tagged)
          (sort_by (newer (λ (p : Project). p.created_at) (λ (p : Project). p.id)) tagged.projects))
walk-list_projects_example =
    walk-list_projects small_codec 2 tagged small_codec-ReadsBack
      (((λ e i. omega arith), ((λ e i. omega arith), tt)), (((λ e i. omega arith), tt), (tt, tt)))
      (omega arith) (omega arith)

abbrev first_page : Page ProjectDetail
first_page = record {
  results = project_detail tagged (project 2 "b" 6) ∷ project_detail tagged (project 3 "c" 5) ∷ [];
  next = some (65 ∷ 65 ∷ 67 ∷ 67 ∷ 67 ∷ 67 ∷ 65 ∷ 65 ∷ 65 ∷ 65 ∷ []);
}

length-list_projects_example : (length first_page.results ≤ 2) × (1 ≤ 2) × (2 ≤ 100)
unfolding list_projects validate_limit list_page cut keyset sort_by insert_by
length-list_projects_example = length-list_projects small_codec none 2 tagged refl

abbrev bodies : List Body
bodies =
    record { at = 3; version = record { major = 1; minor = 0; patch = 0; prerelease = none } }
    ∷ record { at = 8; version = record { major = 1; minor = 1; patch = 0; prerelease = none } }
    ∷ []

contract_entries-IsDated_example :
    All (IsBody db 10) (map contract_body (body_rows db 10))
    × All (IsDated (map contract_body (body_rows db 10))) (contract_entries db 10 true)
contract_entries-IsDated_example = contract_entries-IsDated db 10 true

walk-get_contract_history_example :
    walk (λ after. get_contract_history small_codec 10 after 1 true db) 3 none
    ≡ some (
        map history_item (
          sort_by
            (newer (λ (e : Entry). e.at) (λ (e : Entry). e.row_id))
            (contract_entries db 10 true)))
unfolding contract_entries body_rows select shown_contract get_contract_row first
walk-get_contract_history_example =
    walk-get_contract_history small_codec 10 1 true db binds small_codec-ReadsBack
      (((λ e i. omega arith), tt), (tt, tt)) (omega arith) (omega arith) refl

abbrev everything : ContractQuery
everything = record {
  owner = none;
  counterparty = none;
  subtype = none;
  connection_type = none;
  project = none;
  owner_actor = none;
  after = none;
  limit = 50;
  include_deleted = false;
}

accept_contract_deletion-list_or_search_contracts_example :
    ¬ Shows (listed (record { results = []; next = none })) 10
unfolding accept_contract_deletion live_contract get_contract_row first select scalar_one_or_none
    deletion_proposals enforce_two_party compute_deletion_impact get_part_row save_contract
    contract_checks contract_clashes list_or_search_contracts project_filter validate_limit
    list_active_contracts history_entries open_proposals referencing joined_rows passes
    listed_contracts cut keyset list_page any update insert_by sort_by
    latest_active_contract_version top_version latest_part_version top_part_version triple_above lex
    last_key
accept_contract_deletion-list_or_search_contracts_example =
    accept_contract_deletion-list_or_search_contracts call 10 40 false db small_codec everything
      refl refl refl

abbrev retagged_detail : ContractDetail
retagged_detail = record {
  contract_id = 10;
  owner = "svc";
  counterparty = "app";
  subtype = binds.subtype;
  connection_type = none;
  version = codes "1.0.0";
  markdown = codes "body";
  updated_at = 3;
  owner_actor = some "alice";
  project = some "b";
  deleted_at = none;
  deleted_by_proposer_actor = none;
  deleted_by_acceptor_actor = none;
  deletion_rationale = none;
}

get_contract-update_contract_example :
    get_contract 10 false (update_contract 10 (given (some "b")) tagged).1 ≡ ok retagged_detail
unfolding get_contract_row first select update_contract retag_contract live_contract
    resolve_project_slug scalar_one_or_none save_contract contract_checks contract_clashes any
    contract_detail latest_active_contract_version top_version get_part_row update get_project_row
    triple_above show show_digits show_number lex ContractSubtype-discrete ConnectionType-discrete
get_contract-update_contract_example =
    get_contract-update_contract 10 (given (some "b")) tagged binds refl refl refl
