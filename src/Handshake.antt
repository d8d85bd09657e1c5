-- ===== src/Handshake.antt =====
-- src/routers/_subtype_helpers.py: who may accept a proposal.
pub mod Laws
use titan_tyr.Prelude.{
  Bool, true, false, ◌&&◌, Option, none, some, List, map, String, Result, ok, err, http, any,
  select, ◌==◌, String-eq, if◌then◌else◌,
}
use titan_tyr.Models.Rows.{Actor, AgentActor, Db}
use titan_tyr.Session.Live.{is_live}

-- `get_active_agent_actors`
unfoldable pub get_active_agent_actors : Db → List String
get_active_agent_actors db =
    map (λ (a : AgentActor). a.actor)
      (select (λ (a : AgentActor). is_live a.revoked_at) db.agent_actors)

-- `x in xs`
unfoldable pub contains : List String → String → Bool
contains xs x = any (λ y. x == y) xs

unfoldable pub enforce_human_confirmation : Actor → List String → Result (Unit {0})
unfolding contains
enforce_human_confirmation none known_agents = err (http 422)
enforce_human_confirmation (some a) known_agents =
    if contains known_agents a then err (http 403) else ok tt

abbrev same_actor : Actor → Actor → Result (Unit {0})
same_actor none acceptor = ok tt
same_actor (some p) none = ok tt
same_actor (some p) (some a) = if p == a then err (http 422) else ok tt

unfoldable pub enforce_two_party : Actor → Actor → Bool → Result (Unit {0})
enforce_two_party proposer acceptor single_operator =
    if single_operator then ok tt else same_actor proposer acceptor
