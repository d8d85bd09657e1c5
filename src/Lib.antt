-- ===== src/Lib.antt =====
-- titan-tyr is a registry of the parts of a system and of the contracts between them: a FastAPI
-- application over PostgreSQL. This library models the program's rules and handlers.
--
-- A handler becomes a function from the request, its payload and the database to a reply with the
-- database that it commits, or to a fault (Prelude/Faults.antt): an HTTP status, or an exception that
-- nothing catches. A handler that raises commits nothing. The handlers of contracts lock the row
-- they change, so that two of them on one contract run one after the other; a run of one handler is
-- one step here. The clocks, the actor and the fresh identifiers come with the request (record `Call`).
--
-- Files and the code they model:
-- - Prelude.antt: library names and the helpers that the modules share; Prelude/Tests.antt,
--   Prelude/Lists.antt, Prelude/Faults.antt.
-- - Versioning.antt: src/versioning.py, class Version. Versioning/Text.antt has `parse` and `str`,
--   Versioning/Order.antt and Versioning/RoundTrip.antt their laws.
-- - Models.antt: src/models.py, a record for each table (Models/Rows.antt), and the enumerations
--   (Models/Kinds.antt).
-- - Rules.antt: src/routers/_rules.py and the endpoint check of src/routers/contracts.py.
--   Rules/Pairs.antt has its laws.
-- - Session.antt: what the handlers use of the session: queries (Session/Queries.antt), rows by key and
--   the constraints at a flush (Session/Live.antt, Session/Versions.antt), project slugs
--   (Session/Projects.antt, src/routers/_projects.py). Session/Inversion.antt, Session/Keys.antt and
--   Session/Rows.antt have lemmas.
-- - Handshake.antt: the two gates of src/routers/_subtype_helpers.py. Texts.antt: its template stamp,
--   and the whole-word search of `_compute_deletion_impact`.
-- - Contracts.antt: src/routers/contracts.py. Contracts/Register.antt, Contracts/Subtype.antt,
--   Contracts/Endpoint.antt and Contracts/Deletion.antt have the handlers `register_contract`,
--   `propose_contract_…` and `accept_contract_…`; the files below them what these ensure.
-- - Proposals.antt: src/routers/proposals.py, `create_proposal` and `accept_proposal`.
-- - Parts.antt: src/routers/parts.py. Parts/Common.antt has the lookup of a name, Parts/Register.antt
--   `register_part`, Parts/Update.antt `update_part` and `reassign_part_owner`, Parts/Subtype.antt,
--   Parts/Name.antt and Parts/Deletion.antt the handlers `propose_part_…` and `accept_part_…`.
-- - Auth.antt: src/auth.py and src/routers/auth_tokens.py. Auth/Scopes.antt has `expand_scopes` and
--   `require_scope`, Auth/Tokens.antt `issue_auth_token` and `revoke_auth_token`, Auth/Bearer.antt
--   `require_token`, whose hash and OpenID check are arguments; the other files their laws.
--   Auth/Oidc.antt is src/oidc.py, with the packages jwt and httpx as arguments.
-- - Pagination.antt: src/pagination.py and the keyset queries of the list handlers, with the JSON and
--   base 64 of the standard library as arguments. Pagination/Descending.antt, Pagination/Walk.antt and
--   Pagination/Members.antt have the lemmas on pages.
-- - History.antt: what the two history handlers share; Contracts/History.antt and Parts/History.antt
--   collect their events. Contracts/Reads.antt has `get_contract`, `update_contract` and
--   `reassign_contract_owner`, Contracts/Listing.antt the list and the search of contracts,
--   Parts/Listing.antt `get_part`, `list_parts` and `list_part_contracts`; Contracts/Proposed.antt,
--   Parts/Proposed.antt, Proposals/Listing.antt and Auth/Listing.antt the lists of proposals and tokens.
-- - Templates.antt: src/routers/templates.py. Templates/Rows.antt has its queries, and
--   Templates/Agreement.antt reads the rows of a template as those of a contract.
-- - Projects.antt: src/routers/projects.py. Agents.antt: src/routers/agent_actors.py.
--   Cors.antt: src/cors.py, with urlparse as an argument. Cli.antt: src/cli.py, the commands
--   `issue-token` (Cli/IssueToken.antt, Cli/Bootstrap.antt) and `k8s-init-token` (Cli/InitToken.antt,
--   Cli/Handoff.antt), with what the services answer as an argument.
-- - Examples.antt: runs on a small database.
--
-- Numbers are natural numbers without a bound, as Python's are; the columns of a version hold 31 bits
-- and a sign, and a larger number is refused where a row is added or a query compares the columns
-- (`fits_columns`, `bind_columns`). Loops are recursion on a list; a number is printed with as many
-- digits of fuel as its value plus one, which is enough since each step divides by ten. Texts of bodies
-- and versions are lists of ASCII codes; names, rationales and actors are strings that are only
-- compared.
--
-- Not modelled: HTTP and the validation of fields by pydantic beyond versions,
-- the text constraints of the tables, the check `active_must_be_stable`,
-- exceptions of packages that the handlers do not catch, the minting of tokens and the migrations.
pub mod Prelude
pub mod Versioning
pub mod Models
pub mod Rules
pub mod Session
pub mod Pagination
pub mod History
pub mod Templates
pub mod Handshake
pub mod Texts
pub mod Contracts
pub mod Proposals
pub mod Parts
pub mod Projects
pub mod Agents
pub mod Auth
pub mod Cors
pub mod Cli
pub mod Examples
