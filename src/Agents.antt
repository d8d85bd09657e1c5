-- ===== src/Agents.antt =====
-- src/routers/agent_actors.py: the allowlist of agents.
pub mod Allowlist
use titan_tyr.Prelude.{
  ℕ, Bool, true, false, ◌&&◌, ◌||◌, not, Option, none, some, List, [], ◌∷◌, ◌++◌, String, Result,
  ok, err, integrity_error, ◌>>=◌, ◌>>◌, raise_if, select, any, update, sort_by, ltb, ◌==◌, ℕ-eq,
  String-eq, if◌then◌else◌,
}
use titan_tyr.Models.Rows.{Timestamp, Actor, AgentActor, Db}
use titan_tyr.Session.Queries.{Call, scalar_one_or_none, first, or_raise}
use titan_tyr.Session.Live.{is_live}
use titan_tyr.Handshake.{get_active_agent_actors, enforce_human_confirmation}
use titan_tyr.Contracts.Register.{is_none}
use titan_tyr.Pagination.{Codec, Page, validate_limit, list_page}

pub record AgentActorRegister : Type 0 where
  pub actor : String
  pub description : String

pub record AgentActorDetail : Type 0 where
  pub actor : String
  pub description : String
  pub registered_at : Timestamp
  pub registered_by_actor : Actor
  pub revoked_at : Option Timestamp
  pub revoked_by_actor : Actor
  pub revoke_rationale : Option String

-- `AgentActorDetail.model_validate(row)`
abbrev pub agent_detail : AgentActor → AgentActorDetail
agent_detail row = record {
  actor = row.actor;
  description = row.description;
  registered_at = row.registered_at;
  registered_by_actor = row.registered_by_actor;
  revoked_at = row.revoked_at;
  revoked_by_actor = row.revoked_by_actor;
  revoke_rationale = row.revoke_rationale;
}

-- `AgentActor.actor == actor, AgentActor.revoked_at.is_(None)`
abbrev pub is_agent : String → AgentActor → Bool
is_agent actor row = row.actor == actor && is_live row.revoked_at

unfoldable pub live_agents_of : Db → String → List AgentActor
live_agents_of db actor = select (is_agent actor) db.agent_actors

abbrev pub new_agent : Call → AgentActorRegister → AgentActor
new_agent call payload = record {
  id = call.new_id;
  actor = payload.actor;
  description = payload.description;
  registered_at = call.server_now;
  registered_by_actor = call.x_actor;
  revoked_at = none;
  revoked_by_actor = none;
  revoke_rationale = none;
}

-- The flush of a new row, under `uq_agent_actors_actor_live`.
unfoldable pub add_agent : AgentActor → Db → Result Db
add_agent row db =
    if is_live row.revoked_at && any (is_agent row.actor) db.agent_actors
    then err integrity_error
    else ok (record db { agent_actors = db.agent_actors ++ row ∷ [] })

-- `POST /agent-actors`
unfoldable pub register_agent_actor :
    Call → AgentActorRegister → Db → Result (AgentActorDetail × Db)
register_agent_actor call payload db = do
  existing ← scalar_one_or_none (live_agents_of db payload.actor)
  raise_if (not (is_none existing)) 409
  db1 ← add_agent (new_agent call payload) db
  ok (agent_detail (new_agent call payload), db1)

-- The rows that a query reads unless the revoked ones are asked for.
abbrev listed_agents : Bool → List AgentActor → List AgentActor
listed_agents include_revoked rows =
    if include_revoked then rows else select (λ (a : AgentActor). is_live a.revoked_at) rows

-- `GET /agent-actors`
unfoldable pub list_agent_actors :
    Codec → Option (List ℕ) → ℕ → Bool → Db → Result (Page AgentActorDetail)
list_agent_actors codec after limit include_revoked db = do
  limit' ← validate_limit limit
  list_page (λ (a : AgentActor). a.registered_at) (λ (a : AgentActor). a.id) codec agent_detail
      limit' after (listed_agents include_revoked db.agent_actors)

-- `order_by(revoked_at.is_(None).desc(), registered_at.desc())`
abbrev preferred : AgentActor → AgentActor → Bool
preferred a b =
    (is_live a.revoked_at && not (is_live b.revoked_at))
    || (not (not (is_live a.revoked_at) && is_live b.revoked_at)
        && ltb b.registered_at a.registered_at)

-- `GET /agent-actors/{actor}`
unfoldable pub get_agent_actor : String → Bool → Db → Result AgentActorDetail
get_agent_actor actor include_revoked db = do
  row ← or_raise 404 (
      first (
        sort_by preferred (
          select (λ (a : AgentActor). a.actor == actor)
            (listed_agents include_revoked db.agent_actors))))
  ok (agent_detail row)

-- The row of a revoked agent.
abbrev pub revoked_agent : Call → String → AgentActor → AgentActor
revoked_agent call rationale row = record row {
  revoked_at = some call.server_now;
  revoked_by_actor = call.x_actor;
  revoke_rationale = some rationale;
}

abbrev pub with_agent : AgentActor → Db → Db
with_agent row db = record db {
  agent_actors = update (λ (a : AgentActor). a.id == row.id) (λ _. row) db.agent_actors;
}

-- `POST /agent-actors/{actor}/revoke`
unfoldable pub revoke_agent_actor : Call → String → String → Db → Result (AgentActorDetail × Db)
revoke_agent_actor call actor rationale db = do
  enforce_human_confirmation call.x_actor (get_active_agent_actors db)
  found ← scalar_one_or_none (live_agents_of db actor)
  row ← or_raise 404 found
  let done = revoked_agent call rationale row
  ok (agent_detail done, with_agent done db)
