-- ===== src/Examples/Agents.antt =====
-- The allowlist of agents, and OpenID tokens.
use titan_tyr.Prelude.{
  any, select, ℕ, ◌≡◌, ◌≢◌, ◌↔◌, refl, sym, ◌∙◌, Result, Option, none, some, List, [], ◌∷◌, String,
  In, inl, inr, ok, err, http, arith,
}
use titan_tyr.Session.Queries.{scalar_one_or_none, Call}
use titan_tyr.Handshake.{get_active_agent_actors, enforce_human_confirmation}
use titan_tyr.Handshake.Laws.{IsHuman}
use titan_tyr.Agents.{
  add_agent, live_agents_of, AgentActorRegister, register_agent_actor, revoke_agent_actor,
}
use titan_tyr.Agents.Allowlist.{
  Requests, done, registers, Requests-get_active_agent_actors, KeyedAgents,
  revoke_agent_actor-get_active_agent_actors,
}
use titan_tyr.Auth.Oidc.{
  new_keys, refresh, get_key, JwksCache, Reading, find_key, Header, Claims, Decoded, claims,
  OidcSettings, given_text, actor_of, algorithm_of, validate_oidc_token,
}
use titan_tyr.Auth.Oidc.Stale.{IsWarm, validate_oidc_token-IsWarm, validate_oidc_token-IsSigned}
use titan_tyr.Texts.{codes}
use titan_tyr.Examples.Data.{after, call, db}

-- The agent `robot` registers a peer.
abbrev by_robot : Call
by_robot = record call { x_actor = some "robot" }

abbrev peer : AgentActorRegister
peer = record { actor = "droid"; description = "d" }

two_agents : Requests ("robot" ∷ []) db (after (register_agent_actor by_robot peer db))
unfolding register_agent_actor scalar_one_or_none live_agents_of select add_agent any
two_agents = registers by_robot peer db _ _ (inl refl) refl (done _)

Requests-get_active_agent_actors_example :
    In "robot" (get_active_agent_actors (after (register_agent_actor by_robot peer db)))
unfolding get_active_agent_actors select
Requests-get_active_agent_actors_example =
    Requests-get_active_agent_actors ("robot" ∷ []) db
      (after (register_agent_actor by_robot peer db)) (inl refl, tt) two_agents "robot" (inl refl)

one_agent : KeyedAgents db
one_agent a c (inl p) (inl q) e = p ∙ sym q
one_agent a c (inl p) (inr q) e = absurd q
one_agent a c (inr p) m e = absurd p

revoke_agent_actor-get_active_agent_actors_example :
    IsHuman (some "bob") (get_active_agent_actors db)
    × In "robot" (get_active_agent_actors db)
    × (enforce_human_confirmation
          (some "robot")
          (get_active_agent_actors (after (revoke_agent_actor call "robot" "why" db)))
        ≡ ok tt)
    × ((b : String)
        → b ≢ "robot"
        → In b (get_active_agent_actors db)
          ↔ In b (get_active_agent_actors (after (revoke_agent_actor call "robot" "why" db))))
unfolding revoke_agent_actor enforce_human_confirmation any get_active_agent_actors select
    scalar_one_or_none live_agents_of
revoke_agent_actor-get_active_agent_actors_example =
    revoke_agent_actor-get_active_agent_actors call "robot" "why" db one_agent refl

-- Keys are numbers; a token that is one code names its key.
abbrev header_of : List ℕ → Option Header
header_of token = some (record { kid = some "k2"; alg = none })

abbrev decodes : List ℕ → Option ℕ → String → Option String → String → Decoded
decodes token key algorithm audience issuer =
    claims (record { preferred_username = some "carol"; sub = none })

abbrev oidc : OidcSettings
oidc = record {
  keycloak_issuer = some "https://issuer";
  keycloak_audience = none;
  keycloak_jwks_ttl_seconds = 600;
}

-- A cache with the key `k1`, fetched at 10; the issuer now serves `k2`.
abbrev cache : JwksCache ℕ
cache = record { keys = ("k1", 1) ∷ []; fetched_at = 10 }

abbrev reading : ℕ → Reading ℕ
reading t = record { asked = t; locked = t; done = t; jwks = ok ((some "k2", 2) ∷ []) }

warm : IsWarm 600 (reading 100) cache
warm = record { head = ("k1", 1); tail = []; filled = refl; within = omega arith }

validate_oidc_token-IsWarm_example :
    validate_oidc_token header_of decodes oidc
      (codes "t")
      (reading 100)
      (reading 100)
      (reading 100)
      cache
    ≡ (err (http 401), cache)
unfolding find_key
validate_oidc_token-IsWarm_example =
    validate_oidc_token-IsWarm header_of decodes oidc (codes "t") (reading 100) (reading 100)
      (reading 100) cache "https://issuer" "k2" (record { kid = some "k2"; alg = none }) refl refl
      refl refl warm warm

abbrev later : Result String × JwksCache ℕ
later =
    validate_oidc_token header_of decodes oidc (codes "t") (reading 1000) (reading 1000)
      (reading 1000) cache

validate_oidc_token-IsSigned_example :
    (issuer : String) × (header : Header) × (kid : String) × (c : Claims) × (given_text
        oidc.keycloak_issuer
      ≡ some issuer)
    × (header_of (codes "t") ≡ some header)
    × (given_text header.kid ≡ some kid)
    × (decodes
          (codes "t")
          (find_key later.1.keys kid)
          (algorithm_of (given_text header.alg))
          (given_text oidc.keycloak_audience)
          issuer
        ≡ claims c)
    × (actor_of c ≡ some "carol")
unfolding validate_oidc_token get_key find_key refresh new_keys
validate_oidc_token-IsSigned_example =
    validate_oidc_token-IsSigned header_of decodes oidc (codes "t") (reading 1000) (reading 1000)
      (reading 1000) cache "carol" refl
