-- ===== src/Auth/Tokens.antt =====
-- `issue_auth_token` and `revoke_auth_token` of src/routers/auth_tokens.py
use titan_tyr.Prelude.{
  ℕ, Bool, true, false, ◌&&◌, not, Option, none, some, List, [], ◌∷◌, ◌++◌, String, Result, ok, err,
  integrity_error, ◌>>=◌, ◌>>◌, raise_if, ◌==◌, ℕ-eq, String-eq, any, select, update, if◌then◌else◌,
}
use titan_tyr.Models.Kinds.{Scope, read, write, revoke_agent}
use titan_tyr.Models.Rows.{Uuid, Timestamp, Actor, AuthToken, Db}
use titan_tyr.Session.Queries.{Call, scalar_one_or_none, or_raise}
use titan_tyr.Session.Live.{is_live}
use titan_tyr.Auth.Scopes.{expand_scopes, has_scope, require_scope}

pub record AuthTokenIssue : Type 0 where
  pub actor : String
  pub description : String
  pub scopes : List Scope
  pub expires_at : Option Timestamp

-- The result of `mint_token`, whose random source and hash are library code.
pub record Minted : Type 0 where
  pub plaintext : List ℕ
  pub token_hash : String
  pub prefix : String

pub record AuthTokenIssueResponse : Type 0 where
  pub id : Uuid
  pub actor : String
  pub description : String
  pub scopes : List Scope
  pub issued_at : Timestamp
  pub issued_by_actor : Actor
  pub expires_at : Option Timestamp
  pub token_prefix : String
  pub token : List ℕ

-- `requested_effective - issuer_effective`
unfoldable pub exceeding : List Scope → List Scope → List Scope
exceeding requested issuer = select (λ s. not (has_scope s issuer)) requested

abbrev pub is_nil : List Scope → Bool
is_nil [] = true
is_nil (s ∷ ss) = false

-- `sorted(set(scopes))`, in the order of the names.
unfoldable pub sorted_scopes : List Scope → List Scope
sorted_scopes scopes = select (λ s. has_scope s scopes) (read ∷ revoke_agent ∷ write ∷ [])

abbrev pub new_token : Call → AuthTokenIssue → Minted → AuthToken
new_token call payload minted = record {
  id = call.new_id;
  token_hash = minted.token_hash;
  token_prefix = minted.prefix;
  actor = payload.actor;
  description = payload.description;
  scopes = sorted_scopes payload.scopes;
  issued_at = call.server_now;
  issued_by_actor = call.x_actor;
  expires_at = payload.expires_at;
  last_used_at = none;
  revoked_at = none;
  revoked_by_actor = none;
  revoke_rationale = none;
}

-- The flush of a new row, under `uq_auth_tokens_hash_live`.
unfoldable pub add_token : AuthToken → Db → Result Db
add_token t db =
    if any (λ (q : AuthToken). q.token_hash == t.token_hash && is_live q.revoked_at) db.auth_tokens
    then err integrity_error
    else ok (record db { auth_tokens = db.auth_tokens ++ t ∷ [] })

-- `POST /auth-tokens`, for a request with the given effective scopes.
unfoldable pub issue_auth_token :
    Call → List Scope → AuthTokenIssue → Minted → Db → Result (AuthTokenIssueResponse × Db)
issue_auth_token call issuer_effective payload minted db = do
  require_scope write issuer_effective
  raise_if (not (is_nil (exceeding (expand_scopes payload.scopes) issuer_effective))) 403
  db1 ← add_token (new_token call payload minted) db
  ok (
    record {
      id = call.new_id;
      actor = payload.actor;
      description = payload.description;
      scopes = sorted_scopes payload.scopes;
      issued_at = call.server_now;
      issued_by_actor = call.x_actor;
      expires_at = payload.expires_at;
      token_prefix = minted.prefix;
      token = minted.plaintext;
    },
    db1,
  )

-- The live token of that identifier.
unfoldable pub live_tokens_of : Db → Uuid → List AuthToken
live_tokens_of db id = select (λ (t : AuthToken). t.id == id && is_live t.revoked_at) db.auth_tokens

abbrev pub revoked : Call → String → AuthToken → AuthToken
revoked call rationale t = record t {
  revoked_at = some call.now;
  revoked_by_actor = call.x_actor;
  revoke_rationale = some rationale;
}

-- `POST /auth-tokens/{token_id}/revoke`, where the path holds an identifier; another text is a 404.
unfoldable pub revoke_auth_token :
    Call → List Scope → Option Uuid → String → Db → Result (AuthToken × Db)
revoke_auth_token call scopes token_id rationale db = do
  require_scope revoke_agent scopes
  tid ← or_raise 404 token_id
  found ← scalar_one_or_none (live_tokens_of db tid)
  row ← or_raise 404 found
  ok (
    revoked call rationale row,
    record db {
      auth_tokens =
          update (λ (t : AuthToken). t.id == row.id) (λ _. revoked call rationale row)
            db.auth_tokens;
    },
  )
