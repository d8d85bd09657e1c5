-- ===== src/Auth/Listing.antt =====
-- src/routers/auth_tokens.py: `list_auth_tokens`.
use titan_tyr.Prelude.{
  ℕ, Bool, Option, none, some, List, String, Result, ◌>>=◌, select, ◌==◌, String-eq, if◌then◌else◌,
}
use titan_tyr.Models.Kinds.{Scope}
use titan_tyr.Models.Rows.{Uuid, Timestamp, Actor, AuthToken, Db}
use titan_tyr.Session.Live.{is_live}
use titan_tyr.Pagination.{Codec, Page, validate_limit, list_page}

-- `AuthTokenDetail`, without the hash.
pub record AuthTokenDetail : Type 0 where
  pub id : Uuid
  pub actor : String
  pub description : String
  pub scopes : List Scope
  pub issued_at : Timestamp
  pub issued_by_actor : Actor
  pub expires_at : Option Timestamp
  pub last_used_at : Option Timestamp
  pub token_prefix : String
  pub revoked_at : Option Timestamp
  pub revoked_by_actor : Actor
  pub revoke_rationale : Option String

abbrev token_detail : AuthToken → AuthTokenDetail
token_detail t = record {
  id = t.id;
  actor = t.actor;
  description = t.description;
  scopes = t.scopes;
  issued_at = t.issued_at;
  issued_by_actor = t.issued_by_actor;
  expires_at = t.expires_at;
  last_used_at = t.last_used_at;
  token_prefix = t.token_prefix;
  revoked_at = t.revoked_at;
  revoked_by_actor = t.revoked_by_actor;
  revoke_rationale = t.revoke_rationale;
}

abbrev of_actor : Option String → List AuthToken → List AuthToken
of_actor none rows = rows
of_actor (some actor) rows = select (λ (t : AuthToken). t.actor == actor) rows

abbrev unrevoked : Bool → List AuthToken → List AuthToken
unrevoked include_revoked rows =
    if include_revoked then rows else select (λ (t : AuthToken). is_live t.revoked_at) rows

-- `GET /auth/tokens`
unfoldable pub list_auth_tokens :
    Codec → Option String → Option (List ℕ) → ℕ → Bool → Db → Result (Page AuthTokenDetail)
list_auth_tokens codec actor after limit include_revoked db = do
  limit' ← validate_limit limit
  list_page (λ (t : AuthToken). t.issued_at) (λ (t : AuthToken). t.id) codec token_detail limit'
      after (of_actor actor (unrevoked include_revoked db.auth_tokens))
