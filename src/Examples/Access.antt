-- ===== src/Examples/Access.antt =====
-- Tokens: issued, presented and revoked, with the identity for the hash.
use titan_tyr.Session.Queries.{scalar_one_or_none}
use titan_tyr.Prelude.{
  if◌then◌else◌, ℕ, ◌≡◌, ◌≢◌, refl, true, false, Option, none, some, List, [], ◌∷◌, ◌++◌, All,
  String, Result, err, http, select, update, any,
}
use titan_tyr.Models.Kinds.{Scope, Scope-discrete, read, write, revoke_agent}
use titan_tyr.Models.Rows.{AuthToken, Db}
use titan_tyr.Texts.{codes, same_text}
use titan_tyr.Auth.Scopes.{scope_implies, expand_scopes, require_scope, has_scope}
use titan_tyr.Auth.Tokens.{
  live_tokens_of, sorted_scopes, add_token, exceeding, AuthTokenIssue, Minted, issue_auth_token,
  revoke_auth_token,
}
use titan_tyr.Auth.Escalation.{issue_auth_token-granted}
use titan_tyr.Auth.Bearer.{
  by_token, tokens_with_hash, split_dots, looks_like_jwt, Settings, require_token,
}
use titan_tyr.Auth.Revoked.{IsToken, require_token-IsToken, revoke_auth_token-require_token}
use titan_tyr.Examples.Data.{after, call, db}

abbrev token : String → AuthToken
token token_hash = record {
  id = 95;
  token_hash = token_hash;
  token_prefix = "k";
  actor = "carol";
  description = "d";
  scopes = write ∷ [];
  issued_at = 1;
  issued_by_actor = none;
  expires_at = some 500;
  last_used_at = none;
  revoked_at = none;
  revoked_by_actor = none;
  revoke_rationale = none;
}

abbrev second : AuthToken
second = record (token "q") { id = 96 }

abbrev tokens : Db
tokens = record db { auth_tokens = token "k" ∷ second ∷ [] }

-- A hash that tells the two bearers from the others.
unfoldable hash : List ℕ → String
unfolding same_text
hash bearer =
    if same_text bearer (107 ∷ []) then "k" else if same_text bearer (113 ∷ []) then "q" else ""

abbrev no_oidc : List ℕ → Result String
no_oidc bearer = err (http 401)

abbrev settings : Settings
settings = record { keycloak_issuer = true; bearer_password = [] }

abbrev wish : AuthTokenIssue
wish = record { actor = "dave"; description = "d"; scopes = write ∷ []; expires_at = none }

abbrev minted : Minted
minted = record { plaintext = codes "n"; token_hash = "n"; prefix = "n" }

issue_auth_token-granted_example :
    (t : AuthToken) × (after (issue_auth_token call (read ∷ write ∷ []) wish minted tokens)
      ≡ record tokens { auth_tokens = tokens.auth_tokens ++ t ∷ [] })
    × (t.actor ≡ "dave")
    × (t.token_hash ≡ "n")
    × ((write ∷ []) ≡ t.scopes)
    × ((s : Scope) → has_scope s t.scopes ≡ has_scope s (write ∷ []))
    × All (λ s. has_scope s (read ∷ write ∷ []) ≡ true) (expand_scopes t.scopes)
unfolding issue_auth_token require_scope has_scope any Scope-discrete exceeding select expand_scopes
    scope_implies add_token sorted_scopes
issue_auth_token-granted_example =
    issue_auth_token-granted call (read ∷ write ∷ []) wish minted tokens refl

require_token-IsToken_example :
    (t : AuthToken) × (t.id ≡ 95)
    × IsToken hash 100
        (107 ∷ [])
        tokens
        (record { actor = some "carol"; scopes = read ∷ write ∷ []; token_id = some 95 })
        t
unfolding require_token looks_like_jwt split_dots scalar_one_or_none tokens_with_hash select hash
    by_token expand_scopes scope_implies
require_token-IsToken_example =
    require_token-IsToken hash no_oidc settings 100 false (107 ∷ []) none tokens 95 refl refl

revoke_auth_token-require_token_example : ◌≢◌ {A = Option ℕ} (some 96) (some 95)
unfolding revoke_auth_token require_scope has_scope any Scope-discrete scalar_one_or_none
    live_tokens_of select require_token looks_like_jwt split_dots tokens_with_hash update hash
    by_token
revoke_auth_token-require_token_example =
    revoke_auth_token-require_token hash no_oidc call (read ∷ write ∷ revoke_agent ∷ []) 95 "gone"
      tokens settings 100 false (113 ∷ []) none refl refl
