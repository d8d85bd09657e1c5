-- ===== src/Auth/Revoked.antt =====
-- Which token authenticates a request: src/auth.py, after `revoke_auth_token` of
-- src/routers/auth_tokens.py
use titan_tyr.Prelude.{
  ℕ, ◌≡◌, ◌≢◌, refl, sym, ap, ◌∙◌, Bool, true, false, ◌&&◌, Option, none, some, List, [], ◌∷◌,
  String, Result, ok, raise_if, >>=-elim, ok-injective, arith, select, update, In, In-select,
  select-In, Bool-cases, inl, inr, ◌==◌, ℕ-eq, String-eq, ==→eq, eq→==,
}
use titan_tyr.Models.Kinds.{Scope, revoke_agent}
use titan_tyr.Models.Rows.{Uuid, Timestamp, Actor, AuthToken, Db}
use titan_tyr.Session.Queries.{Call, scalar_one_or_none, or_raise}
use titan_tyr.Session.Inversion.{raise_if-ok, or_raise-ok, scalar-one}
use titan_tyr.Session.Live.{is_live}
use titan_tyr.Auth.Scopes.{expand_scopes, require_scope}
use titan_tyr.Auth.Tokens.{live_tokens_of, revoked, revoke_auth_token}
use titan_tyr.Auth.Bearer.{
  Identity, Settings, is_expired, looks_like_jwt, tokens_with_hash, by_token, require_token,
}

-- A live row of the table whose hash is the bearer's, not expired, and whose scopes the request has.
pub record IsToken (hash_token : List ℕ → String) (now : Timestamp) (bearer : List ℕ) (db : Db)
    (who : Identity) (t : AuthToken) : Type 0 where
  pub stored : In t db.auth_tokens
  pub hashed : t.token_hash ≡ hash_token bearer
  pub token_live : is_live t.revoked_at ≡ true
  pub unexpired : is_expired now t ≡ false
  pub granted : who.scopes ≡ expand_scopes t.scopes
  pub named : who.actor ≡ some t.actor

row_of_hash :
    (db : Db) (h : String) (t : AuthToken)
    → tokens_with_hash db h ≡ t ∷ []
    → In t db.auth_tokens × (t.token_hash ≡ h) × (is_live t.revoked_at ≡ true)
unfolding tokens_with_hash
row_of_hash db h t e =
    let (m, p) =
      In-select (λ (q : AuthToken). q.token_hash == h && is_live q.revoked_at) t db.auth_tokens
        (rw e (inl refl)) in
    (m, ==→eq t.token_hash h (ground arith), ground arith)

module _ (hash_token : List ℕ → String) (validate_oidc_token : List ℕ → Result String) where
  by_token-row :
      (settings : Settings) (now : Timestamp) (commits : Bool) (bearer : List ℕ) (x_actor : Actor)
      (db : Db) (row : Option AuthToken) (id : Uuid) {r : Identity × Db}
      → by_token hash_token validate_oidc_token settings now commits bearer x_actor db row ≡ ok r
      → r.0.token_id ≡ some id
      → (t : AuthToken) × (row ≡ some t)
        × (t.id ≡ id)
        × (is_expired now t ≡ false)
        × (r.0.scopes ≡ expand_scopes t.scopes)
        × (r.0.actor ≡ some t.actor)
  unfolding by_token
  by_token-row settings now commits bearer x_actor db none id h k = ground arith
  by_token-row settings now commits bearer x_actor db (some t) id h k =
      >>=-elim (raise_if (is_expired now t) 401) _ h λ u h1 k1.
        let e = ap (λ (x : Identity × Db). x.0) (ok-injective k1) in
        let same : some t.id ≡ some id = ap (λ (x : Identity). x.token_id) e ∙ k in
        (
          t,
          refl,
          cc (same),
          raise_if-ok _ _ h1,
          sym (ap (λ (x : Identity). x.scopes) e),
          sym (ap (λ (x : Identity). x.actor) e),
        )

  -- A request that is authenticated by a token presents a live token that has not expired, and has the
  -- token's actor and the scopes that the token's scopes imply.
  pub require_token-IsToken :
      (settings : Settings) (now : Timestamp) (commits : Bool) (bearer : List ℕ) (x_actor : Actor)
      (db : Db) (id : Uuid) {r : Identity × Db}
      → require_token hash_token validate_oidc_token settings now commits (some bearer) x_actor db
        ≡ ok r
      → r.0.token_id ≡ some id
      → (t : AuthToken) × (t.id ≡ id) × IsToken hash_token now bearer db r.0 t
  unfolding require_token
  require_token-IsToken settings now commits bearer x_actor db id h k =
      elim (Bool-cases (settings.keycloak_issuer && looks_like_jwt bearer)) [
        | inl t ↦ >>=-elim (validate_oidc_token bearer) _ (rw t at h) λ actor h1 k1.
            let e = ap (λ (x : Identity × Db). x.0.token_id) (ok-injective k1) in cc (e, k)
        | inr f ↦
            >>=-elim (scalar_one_or_none (tokens_with_hash db (hash_token bearer))) _ (rw f at h)
              λ row h1 k1.
                let (t, er, ei, fresh, scopes, actor) =
                  by_token-row settings now commits bearer x_actor db row id k1 k in
                let (m, eh, lives) =
                  row_of_hash db (hash_token bearer) t (scalar-one _ (rw er at h1)) in
                (
                  t,
                  ei,
                  record {
                    stored = m;
                    hashed = eh;
                    token_live = lives;
                    unexpired = fresh;
                    granted = scopes;
                    named = actor;
                  },
                )
      ]

overwritten :
    (id : Uuid) (dead : AuthToken) (rows : List AuthToken)
    → dead.id ≡ id
    → is_live dead.revoked_at ≡ false
    → select
        (λ (t : AuthToken). t.id == id && is_live t.revoked_at)
        (update (λ (t : AuthToken). t.id == dead.id) (λ _. dead) rows)
      ≡ []
unfolding select update
overwritten id dead [] e d = refl
overwritten id dead (t ∷ ts) e d =
    let rest = overwritten id dead ts e d in
    elim (Bool-cases (t.id == dead.id)) [
      | inl y ↦ rw (y, d) (ground arith)
      | inr n ↦ let other : (t.id == id) ≡ false = rw (← e) n in rw (n, other) rest
    ]

live_row : (db : Db) (id : Uuid) (t : AuthToken) → live_tokens_of db id ≡ t ∷ [] → t.id ≡ id
unfolding live_tokens_of
live_row db id t e =
    let (m, p) =
      In-select (λ (q : AuthToken). q.id == id && is_live q.revoked_at) t db.auth_tokens
        (rw e (inl refl)) in
    ==→eq t.id id (ground arith)

-- After a revocation no live token has the identifier.
none_live :
    (call : Call) (scopes : List Scope) (id : Uuid) (rationale : String) (db : Db)
    {r : AuthToken × Db}
    → revoke_auth_token call scopes (some id) rationale db ≡ ok r
    → live_tokens_of r.1 id ≡ []
unfolding revoke_auth_token live_tokens_of
none_live call scopes id rationale db h =
    >>=-elim (require_scope revoke_agent scopes) _ h λ u1 h1 k1.
      >>=-elim (scalar_one_or_none (live_tokens_of db id)) _ k1 λ found h3 k3.
        >>=-elim (or_raise 404 found) _ k3 λ row h4 k4.
          let same : row.id ≡ id =
            live_row db id row (scalar-one _ (rw (or_raise-ok 404 found h4) at h3)) in
          ap
            (λ (x : AuthToken × Db).
              select (λ (t : AuthToken). t.id == id && is_live t.revoked_at) x.1.auth_tokens)
            (sym (ok-injective k4))
          ∙ overwritten id (revoked call rationale row) db.auth_tokens same refl

live-In :
    (db : Db) (id : Uuid) (t : AuthToken)
    → In t db.auth_tokens
    → t.id ≡ id
    → is_live t.revoked_at ≡ true
    → In t (live_tokens_of db id)
unfolding live_tokens_of
live-In db id t m e a =
    select-In (λ (q : AuthToken). q.id == id && is_live q.revoked_at) t db.auth_tokens m
      (rw (eq→== t.id id e, a))

-- In the database after the revocation of a token, no bearer authenticates a request by that token.
pub revoke_auth_token-require_token :
    (hash_token : List ℕ → String) (validate_oidc_token : List ℕ → Result String) (call : Call)
    (scopes : List Scope) (id : Uuid) (rationale : String) (db : Db) (settings : Settings)
    (now : Timestamp) (commits : Bool) (bearer : List ℕ) (x_actor : Actor) {r : AuthToken × Db}
    {who : Identity × Db}
    → revoke_auth_token call scopes (some id) rationale db ≡ ok r
    → require_token hash_token validate_oidc_token settings now commits (some bearer) x_actor r.1
      ≡ ok who
    → who.0.token_id ≢ some id
revoke_auth_token-require_token hash_token validate_oidc_token call scopes id rationale db settings
      now commits bearer x_actor {r} {who} h k named =
    let (t, e, row) =
      require_token-IsToken hash_token validate_oidc_token settings now commits bearer x_actor r.1
        id k named in
    let found = live-In r.1 id t row.stored e row.token_live in
    rw (none_live call scopes id rationale db h) at found
