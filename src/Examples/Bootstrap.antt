-- ===== src/Examples/Bootstrap.antt =====
-- The first token of a deployment, and a request with it.
use titan_tyr.Prelude.{
  ℕ, ◌<◌, true, false, Option, none, some, List, [], ◌∷◌, String, Result, ok, err, http, ◌≡◌, ◌&&◌,
  any, select, refl, if◌then◌else◌, arith,
}
use titan_tyr.Models.Kinds.{Scope, Scope-discrete, read, write}
use titan_tyr.Models.Rows.{Timestamp, Db}
use titan_tyr.Texts.{codes, same_text}
use titan_tyr.Cors.{split_commas, stripped}
use titan_tyr.Auth.Scopes.{expand_scopes, has_scope}
use titan_tyr.Auth.Tokens.{Minted, sorted_scopes}
use titan_tyr.Auth.Bearer.{Settings, looks_like_jwt, split_dots, require_token}
use titan_tyr.Cli.IssueToken.{
  IssueArguments, scopes_named, bootstrap_token, refused, printed, cmd_issue_token, expiry_of,
  replace_z,
}
use titan_tyr.Cli.Bootstrap.{cmd_issue_token-require_token}
use titan_tyr.Examples.Data.{db}

some_injective : {A : Type 0} {a b : A} → some a ≡ some b → a ≡ b
some_injective h = cc

-- A reading of times that knows one day.
unfoldable one_day : List ℕ → Option Timestamp
unfolding same_text
one_day text = if same_text text (codes "2030-01-01T00:00:00+00:00") then some 500 else none

unfoldable hash_of : List ℕ → String
unfolding same_text
hash_of text = if same_text text (codes "secret") then "h1" else "h2"

abbrev no_oidc : List ℕ → Result String
no_oidc bearer = err (http 401)

abbrev asked_for : IssueArguments
asked_for = record {
  actor = "ops";
  description = "bootstrap";
  scopes = codes "write, read";
  expires_at = some (codes "2030-01-01T00:00:00Z");
  issued_by = "bootstrap-cli";
}

abbrev made : Minted
made = record { plaintext = codes "secret"; token_hash = "h1"; prefix = "secret" }

abbrev empty : Db
empty = record db { auth_tokens = [] }

abbrev filled : Db
filled = record db {
  auth_tokens = bootstrap_token 1 10 asked_for (read ∷ write ∷ []) (some 500) made ∷ [];
}

issues : cmd_issue_token one_day 1 10 asked_for made empty ≡ ok (printed (codes "secret") filled)
unfolding cmd_issue_token one_day sorted_scopes select has_scope any Scope-discrete
issues = refl

unknown_refused :
    cmd_issue_token one_day 1 10 (record asked_for { scopes = codes "write, admin" }) made empty
    ≡ ok refused
unfolding cmd_issue_token
unknown_refused = refl

abbrev settings : Settings
settings = record { keycloak_issuer = true; bearer_password = [] }

hashed : hash_of (codes "secret") ≡ "h1"
unfolding hash_of
hashed = refl

opaque_secret : (true && looks_like_jwt (codes "secret")) ≡ false
unfolding looks_like_jwt split_dots
opaque_secret = refl

later_than : (e : Timestamp) → expiry_of one_day asked_for.expires_at ≡ some (some e) → 400 < e
unfolding replace_z one_day
later_than e h = rw (← some_injective (some_injective h)) (omega arith)

cmd_issue_token-require_token_example :
    (scopes : List Scope) × (db2 : Db) × (scopes_named (stripped (split_commas asked_for.scopes))
      ≡ some scopes)
    × (require_token hash_of no_oidc settings 400 true (some (codes "secret")) none filled
        ≡ ok (
          record {
            actor = some "ops";
            scopes = expand_scopes (sorted_scopes scopes);
            token_id = some 1;
          },
          db2,
        ))
cmd_issue_token-require_token_example =
    cmd_issue_token-require_token one_day hash_of no_oidc 1 10 asked_for made empty filled
      (codes "secret") settings 400 true none issues hashed opaque_secret later_than
