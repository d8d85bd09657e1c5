-- ===== src/Cli/Bootstrap.antt =====
-- The first token of a deployment, and the requests that it authenticates: src/cli.py, src/auth.py.
use titan_tyr.Prelude.{
  ℕ, Bool, false, ◌&&◌, Option, none, some, List, [], ◌∷◌, String, Result, ok, err, integrity_error,
  any, select-alone, >>=-elim, Bool-cases, ok-injective, ◌==◌, String-eq, ==-refl, ◌≡◌, refl, sym,
  ap, ◌∙◌, arith, Option-cases, inl, inr, ◌<◌,
}
use titan_tyr.Models.Kinds.{Scope}
use titan_tyr.Models.Rows.{Uuid, Timestamp, Actor, AuthToken, Db}
use titan_tyr.Session.Queries.{scalar_one_or_none}
use titan_tyr.Session.Live.{is_live}
use titan_tyr.Cors.{split_commas, stripped}
use titan_tyr.Auth.Scopes.{expand_scopes}
use titan_tyr.Auth.Tokens.{Minted, sorted_scopes, add_token}
use titan_tyr.Auth.Bearer.{
  Settings, looks_like_jwt, tokens_with_hash, is_expired, touched, by_token, require_token,
}
use titan_tyr.Cli.IssueToken.{
  IssueArguments, scopes_named, bootstrap_token, issue_token, refused, printed, expiry_of,
  issue_with, cmd_issue_token,
}

err-ok : {A : Type 0} {a : A} → err integrity_error ≡ ok a → ⊥
err-ok h = cc

refused-printed : {plaintext : List ℕ} {db : Db} → refused ≡ printed plaintext db → ⊥
refused-printed h = cc

printed-injective : {a b : List ℕ} {d e : Db} → printed a d ≡ printed b e → (a ≡ b) × (d ≡ e)
printed-injective h = (cc, cc)

-- The row of a token that was added is the one live row of its hash.
add_token-tokens_with_hash :
    (t : AuthToken) (db db1 : Db)
    → t.revoked_at ≡ none
    → add_token t db ≡ ok db1
    → tokens_with_hash db1 t.token_hash ≡ t ∷ []
unfolding add_token tokens_with_hash
add_token-tokens_with_hash t db db1 live h =
    let same = λ (q : AuthToken). q.token_hash == t.token_hash && is_live q.revoked_at in
    elim (Bool-cases (any same db.auth_tokens)) [
      | inl clash ↦ absurd (err-ok (rw clash at h))
      | inr free ↦
          let added = ok-injective (rw free at h) in
          rw (← added)
            (select-alone same db.auth_tokens t free (rw (==-refl t.token_hash, live) refl))
    ]

is_expired-unexpired :
    (asked : Timestamp) (t : AuthToken)
    → ((e : Timestamp) → t.expires_at ≡ some e → asked < e)
    → is_expired asked t ≡ false
is_expired-unexpired asked t h = elim (Option-cases t.expires_at) [
  | inl never ↦ rw never refl
  | inr (e, q) ↦ let later = h e q in rw q (ground arith)
]

-- What a run that prints a token did.
issue_with-printed :
    (fromisoformat : List ℕ → Option Timestamp) (id : Uuid) (now : Timestamp)
    (args : IssueArguments) (named : Option (List Scope)) (expiry : Option (Option Timestamp))
    (minted : Minted) (db : Db) {plaintext : List ℕ} {db1 : Db}
    → issue_with fromisoformat id now args named expiry minted db ≡ ok (printed plaintext db1)
    → (scopes : List Scope) × (expires_at : Option Timestamp) × (named ≡ some scopes)
      × (expiry ≡ some expires_at)
      × (plaintext ≡ minted.plaintext)
      × (add_token (bootstrap_token id now args scopes expires_at minted) db ≡ ok db1)
unfolding issue_token
issue_with-printed f id now args none expiry minted db h = absurd (refused-printed (ok-injective h))
issue_with-printed f id now args (some scopes) none minted db h =
    absurd (refused-printed (ok-injective h))
issue_with-printed f id now args (some scopes) (some e) minted db {plaintext} {db1} h =
    >>=-elim (issue_token id now args scopes e minted db) _ h λ r e1 h1.
      >>=-elim (add_token (bootstrap_token id now args scopes e minted) db) _ e1 λ db2 e2 h2.
        let r_eq = ok-injective h2 in
        let (text, after) = printed-injective (ok-injective h1) in
        let last : db2 ≡ db1 = ap (λ (q : List ℕ × Db). q.1) r_eq ∙ after in
        let shown : minted.plaintext ≡ plaintext = ap (λ (q : List ℕ × Db). q.0) r_eq ∙ text in
        (scopes, e, refl, refl, sym shown, rw last at e2)

-- A token that issue-token prints authenticates requests as its actor, with what its scopes imply:
-- where the hash is that of the minted token, the token is not sent to the OpenID check for its
-- looks, and the time of expiry, if one was asked for, is later than the request.
pub cmd_issue_token-require_token :
    (fromisoformat : List ℕ → Option Timestamp) (hash_token : List ℕ → String)
    (validate_oidc_token : List ℕ → Result String) (id : Uuid) (now : Timestamp)
    (args : IssueArguments) (minted : Minted) (db db1 : Db) (plaintext : List ℕ)
    (settings : Settings) (asked : Timestamp) (commits : Bool) (x_actor : Actor)
    → cmd_issue_token fromisoformat id now args minted db ≡ ok (printed plaintext db1)
    → hash_token minted.plaintext ≡ minted.token_hash
    → (settings.keycloak_issuer && looks_like_jwt minted.plaintext) ≡ false
    → ((e : Timestamp) → expiry_of fromisoformat args.expires_at ≡ some (some e) → asked < e)
    → (scopes : List Scope) × (db2 : Db) × (scopes_named (stripped (split_commas args.scopes))
        ≡ some scopes)
      × (require_token hash_token validate_oidc_token settings asked commits
            (some plaintext)
            x_actor
            db1
          ≡ ok (
            record {
              actor = some args.actor;
              scopes = expand_scopes (sorted_scopes scopes);
              token_id = some id;
            },
            db2,
          ))
unfolding cmd_issue_token require_token by_token scalar_one_or_none
cmd_issue_token-require_token f hash oidc id now args minted db db1 plaintext settings asked commits
      x_actor h hashed opaque unexpired =
    let (scopes, expires_at, named, expiry, shown, added) =
      issue_with-printed f id now args (scopes_named (stripped (split_commas args.scopes)))
        (expiry_of f args.expires_at) minted db h in
    let t = bootstrap_token id now args scopes expires_at minted in
    let found = add_token-tokens_with_hash t db db1 refl added in
    let fresh = is_expired-unexpired asked t (λ e q. unexpired e (expiry ∙ ap some q)) in
    (scopes, touched asked commits t db1, named, rw (shown, opaque, hashed, found, fresh) refl)
