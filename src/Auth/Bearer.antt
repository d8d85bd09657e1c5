-- ===== src/Auth/Bearer.antt =====
-- `require_token` of src/auth.py. The hash of a bearer and the check of an OpenID token are arguments;
-- a bearer is a text of ASCII codes.
use titan_tyr.Prelude.{
  ℕ, Bool, true, false, ◌&&◌, not, Option, none, some, List, [], ◌∷◌, ◌++◌, String, Result, ok, err,
  http, ◌>>=◌, ◌>>◌, raise_if, ◌==◌, ℕ-eq, String-eq, select, update, leb, if◌then◌else◌,
}
use titan_tyr.Models.Kinds.{Scope, read, write, revoke_agent}
use titan_tyr.Models.Rows.{Uuid, Timestamp, Actor, AuthToken, Db}
use titan_tyr.Session.Queries.{scalar_one_or_none}
use titan_tyr.Session.Live.{is_live}
use titan_tyr.Texts.{same_text}
use titan_tyr.Auth.Scopes.{expand_scopes}

-- What `require_token` stamps onto the request.
pub record Identity : Type 0 where
  pub actor : Actor
  pub scopes : List Scope
  pub token_id : Option Uuid

-- `keycloak_issuer` is set; the shared bearer.
pub record Settings : Type 0 where
  pub keycloak_issuer : Bool
  pub bearer_password : List ℕ

abbrev pub all_scopes : List Scope
all_scopes = read ∷ write ∷ revoke_agent ∷ []

-- `bearer.split(".")`, from the piece before.
unfoldable pub split_dots : List ℕ → List ℕ → List (List ℕ)
split_dots piece [] = piece ∷ []
split_dots piece (c ∷ cs) =
    if c == 46 then piece ∷ split_dots [] cs else split_dots (piece ++ c ∷ []) cs

abbrev pub is_blank : List ℕ → Bool
is_blank [] = true
is_blank (c ∷ cs) = false

abbrev three_pieces : List (List ℕ) → Bool
three_pieces (a ∷ b ∷ c ∷ []) = not (is_blank a) && (not (is_blank b) && not (is_blank c))
three_pieces _ = false

unfoldable pub looks_like_jwt : List ℕ → Bool
looks_like_jwt bearer = three_pieces (split_dots [] bearer)

unfoldable pub tokens_with_hash : Db → String → List AuthToken
tokens_with_hash db h =
    select (λ (t : AuthToken). t.token_hash == h && is_live t.revoked_at) db.auth_tokens

-- `row.expires_at is not None and row.expires_at <= now`
abbrev pub is_expired : Timestamp → AuthToken → Bool
is_expired now t = elim t.expires_at [ none ↦ false | some e ↦ leb e now ]

-- The touch of `last_used_at`, which may fail without failing the request.
abbrev pub touched : Timestamp → Bool → AuthToken → Db → Db
touched now commits t db =
    if commits
    then record db {
      auth_tokens =
          update (λ (q : AuthToken). q.id == t.id)
            (λ (q : AuthToken). record q { last_used_at = some now }) db.auth_tokens;
    }
    else db

module _ (hash_token : List ℕ → String) (validate_oidc_token : List ℕ → Result String) where
  -- The per-caller token, then the shared bearer.
  unfoldable pub by_token :
      Settings → Timestamp → Bool → List ℕ → Actor → Db → Option AuthToken → Result (Identity × Db)
  by_token settings now commits bearer x_actor_header db (some row) = do
    raise_if (is_expired now row) 401
    ok (
      record { actor = some row.actor; scopes = expand_scopes row.scopes; token_id = some row.id },
      touched now commits row db,
    )
  by_token settings now commits bearer x_actor_header db none =
      if not (is_blank settings.bearer_password) && same_text bearer settings.bearer_password
      then ok (record { actor = x_actor_header; scopes = all_scopes; token_id = none }, db)
      else err (http 401)

  unfoldable pub require_token :
      Settings → Timestamp → Bool → Option (List ℕ) → Actor → Db → Result (Identity × Db)
  require_token settings now commits none x_actor_header db = err (http 401)
  require_token settings now commits (some bearer) x_actor_header db =
      if settings.keycloak_issuer && looks_like_jwt bearer
      then (do
        actor ← validate_oidc_token bearer
        ok (record { actor = some actor; scopes = all_scopes; token_id = none }, db))
      else (do
        row ← scalar_one_or_none (tokens_with_hash db (hash_token bearer))
        by_token settings now commits bearer x_actor_header db row)
