-- ===== src/Cli/IssueToken.antt =====
-- src/cli.py: the command `issue-token`, which inserts a token into the database.
use titan_tyr.Prelude.{
  ℕ, Option, none, some, List, [], ◌∷◌, ◌++◌, String, Result, ok, ◌>>=◌, ◌==◌, ℕ-eq, if◌then◌else◌,
}
use titan_tyr.Models.Kinds.{Scope, read, write, revoke_agent}
use titan_tyr.Models.Rows.{Uuid, Timestamp, AuthToken, Db}
use titan_tyr.Texts.{codes, same_text}
use titan_tyr.Cors.{split_commas, stripped}
use titan_tyr.Auth.Tokens.{Minted, sorted_scopes, add_token}

-- The arguments of the command line.
pub record IssueArguments : Type 0 where
  pub actor : String
  pub description : String
  pub scopes : List ℕ
  pub expires_at : Option (List ℕ)
  pub issued_by : String

-- A scope by its name in AUTH_TOKEN_SCOPES.
unfoldable pub scope_named : List ℕ → Option Scope
unfolding same_text
scope_named s =
    if same_text s (codes "read")
    then some read
    else if same_text s (codes "write")
    then some write
    else if same_text s (codes "revoke-agent")
    then some revoke_agent
    else none

abbrev both : Option Scope → Option (List Scope) → Option (List Scope)
both (some s) (some ss) = some (s ∷ ss)
both _ _ = none

-- The scopes of the names, and `none` where `bad` has one.
unfoldable pub scopes_named : List (List ℕ) → Option (List Scope)
unfolding scope_named
scopes_named [] = some []
scopes_named (s ∷ ss) = both (scope_named s) (scopes_named ss)

-- `s.replace("Z", "+00:00")`
unfoldable pub replace_z : List ℕ → List ℕ
replace_z [] = []
replace_z (c ∷ cs) =
    let rest = replace_z cs in if c == b'Z' then codes "+00:00" ++ rest else c ∷ rest

-- The row that `_issue_token` inserts, with the identifier and the time that the database gives.
abbrev pub bootstrap_token :
    Uuid → Timestamp → IssueArguments → List Scope → Option Timestamp → Minted → AuthToken
bootstrap_token id now args scopes expires_at minted = record {
  id = id;
  token_hash = minted.token_hash;
  token_prefix = minted.prefix;
  actor = args.actor;
  description = args.description;
  scopes = sorted_scopes scopes;
  issued_at = now;
  issued_by_actor = some args.issued_by;
  expires_at = expires_at;
  last_used_at = none;
  revoked_at = none;
  revoked_by_actor = none;
  revoke_rationale = none;
}

-- `_issue_token`
unfoldable pub issue_token :
    Uuid
    → Timestamp
    → IssueArguments
    → List Scope
    → Option Timestamp
    → Minted
    → Db
    → Result (List ℕ × Db)
unfolding add_token
issue_token id now args scopes expires_at minted db = do
  db1 ← add_token (bootstrap_token id now args scopes expires_at minted) db
  ok (minted.plaintext, db1)

-- How the command ends: with the exit code 2 and nothing written, or with 0, the plaintext that it
-- prints and the database.
pub data Exit : Type 0 where
  refused : Exit
  printed : List ℕ → Db → Exit

-- `datetime.fromisoformat` is an argument, where `none` is its `ValueError`.
module _ (fromisoformat : List ℕ → Option Timestamp) where
  -- The time of expiry that was asked for, if any; `none` where it cannot be parsed.
  abbrev pub expiry_of : Option (List ℕ) → Option (Option Timestamp)
  expiry_of none = some none
  expiry_of (some text) = elim (fromisoformat (replace_z text)) [
    | none ↦ none
    | some t ↦ some (some t)
  ]

  abbrev pub issue_with :
      Uuid
      → Timestamp
      → IssueArguments
      → Option (List Scope)
      → Option (Option Timestamp)
      → Minted
      → Db
      → Result Exit
  issue_with id now args none expires_at minted db = ok refused
  issue_with id now args (some scopes) none minted db = ok refused
  issue_with id now args (some scopes) (some expires_at) minted db = do
    (plaintext, db1) ← issue_token id now args scopes expires_at minted db
    ok (printed plaintext db1)

  -- `_cmd_issue_token`
  unfoldable pub cmd_issue_token : Uuid → Timestamp → IssueArguments → Minted → Db → Result Exit
  unfolding scopes_named split_commas stripped replace_z issue_token
  cmd_issue_token id now args minted db =
      issue_with id now args (scopes_named (stripped (split_commas args.scopes)))
        (expiry_of args.expires_at) minted db
