-- ===== src/Auth/Escalation.antt =====
-- The scopes of a token and of its issuer: src/routers/auth_tokens.py
use titan_tyr.Prelude.{
  ◌≡◌, refl, sym, ap, ◌∙◌, ◌++◌, All, In-All, ok-injective, arith, true, false, not, List, [], ◌∷◌,
  ok, raise_if, >>=-elim, In, In-select, select-In, Bool, Bool-cases, inl, inr,
}
use titan_tyr.Models.Kinds.{Scope, read, write, revoke_agent}
use titan_tyr.Models.Rows.{AuthToken, Db}
use titan_tyr.Session.Queries.{Call}
use titan_tyr.Session.Inversion.{raise_if-ok}
use titan_tyr.Auth.Scopes.{
  expand_scopes, has_scope, require_scope, has_scope-In, In-has_scope, expand-granted,
  granted-expand,
}
use titan_tyr.Auth.Tokens.{
  AuthTokenIssue, AuthTokenIssueResponse, Minted, exceeding, is_nil, sorted_scopes,
  issue_auth_token, new_token, add_token,
}

stored_granted : (s : Scope) (scopes : List Scope) → In s (sorted_scopes scopes) → In s scopes
unfolding sorted_scopes
stored_granted s scopes m =
    let (_, t) =
      In-select (λ (q : Scope). has_scope q scopes) s (read ∷ revoke_agent ∷ write ∷ []) m in
    has_scope-In s scopes t

covered :
    (s : Scope) (requested issuer : List Scope)
    → exceeding requested issuer ≡ []
    → In s requested
    → has_scope s issuer ≡ true
unfolding exceeding
covered s requested issuer h m = elim (Bool-cases (has_scope s issuer)) [
  | inl t ↦ t
  | inr f ↦
      absurd
        (rw h at (select-In (λ (q : Scope). not (has_scope q issuer)) s requested m (rw f refl)))
]

nothing_over : (over : List Scope) → not (is_nil over) ≡ false → over ≡ []
nothing_over [] h = refl
nothing_over (s ∷ ss) h = cc

-- The scopes that are stored are those that were asked for.
every_scope : (s : Scope) → In s (read ∷ revoke_agent ∷ write ∷ [])
every_scope read = inl refl
every_scope revoke_agent = inr (inl refl)
every_scope write = inr (inr (inl refl))

stored_same :
    (s : Scope) (scopes : List Scope) → has_scope s (sorted_scopes scopes) ≡ has_scope s scopes
unfolding sorted_scopes
stored_same s scopes =
    let kept : Scope → Bool = λ q. has_scope q scopes in
    elim (Bool-cases (has_scope s scopes)) [
      | inl t ↦ In-has_scope s _ (select-In kept s _ (every_scope s) t) ∙ sym t
      | inr f ↦ elim (Bool-cases (has_scope s (sorted_scopes scopes))) [
        | inl t ↦
            absurd (cc (f, In-has_scope s scopes (stored_granted s scopes (has_scope-In s _ t))))
        | inr g ↦ g ∙ sym f
      ]
    ]

added :
    (t : AuthToken) (db : Db) {db1 : Db}
    → add_token t db ≡ ok db1
    → db1 ≡ record db { auth_tokens = db.auth_tokens ++ t ∷ [] }
unfolding add_token
added t db h = ground arith

-- An accepted issue adds one row, for the actor and under the hash of the minted token, that has the
-- scopes that were asked for and the reply shows; every scope that the row grants is one that the
-- issuer has.
pub issue_auth_token-granted :
    (call : Call) (issuer : List Scope) (payload : AuthTokenIssue) (minted : Minted) (db : Db)
    {r : AuthTokenIssueResponse × Db}
    → issue_auth_token call issuer payload minted db ≡ ok r
    → (t : AuthToken) × (r.1 ≡ record db { auth_tokens = db.auth_tokens ++ t ∷ [] })
      × (t.actor ≡ payload.actor)
      × (t.token_hash ≡ minted.token_hash)
      × (r.0.scopes ≡ t.scopes)
      × ((s : Scope) → has_scope s t.scopes ≡ has_scope s payload.scopes)
      × All (λ s. has_scope s issuer ≡ true) (expand_scopes t.scopes)
unfolding issue_auth_token
issue_auth_token-granted call issuer payload minted db {r} h =
    >>=-elim (require_scope write issuer) _ h λ u1 h1 k1.
      >>=-elim (raise_if (not (is_nil (exceeding (expand_scopes payload.scopes) issuer))) 403) _ k1
        λ u2 h2 k2. >>=-elim (add_token (new_token call payload minted) db) _ k2 λ db1 h3 k3.
          let granted : (s : Scope)
              → In s (expand_scopes (sorted_scopes payload.scopes))
              → has_scope s issuer ≡ true =
            λ s m.
              let (g, stored, implied) = expand-granted s (sorted_scopes payload.scopes) m in
              covered s (expand_scopes payload.scopes) issuer (nothing_over _ (raise_if-ok _ _ h2))
                (granted-expand s g payload.scopes (stored_granted g payload.scopes stored)
                  implied) in
          let e = ok-injective k3 in
          (
            new_token call payload minted,
            ap (λ (x : AuthTokenIssueResponse × Db). x.1) (sym e) ∙ added _ db h3,
            refl,
            refl,
            ap (λ (x : AuthTokenIssueResponse × Db). x.0.scopes) (sym e),
            (λ s. stored_same s payload.scopes),
            In-All _ _ granted,
          )
