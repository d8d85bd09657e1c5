-- ===== src/Auth/Oidc/Stale.antt =====
-- src/oidc.py: which keys decide, and when they are fetched.
use titan_tyr.Prelude.{
  ℕ, ◌≡◌, ◌≤◌, ◌+◌, refl, sym, ap, Bool, true, false, Option, none, some, List, ◌∷◌, String, Result,
  ok, err, http, arith, leb, ok-injective, if◌then◌else◌, inl, inr, Option-cases,
}
use titan_tyr.Auth.Oidc.{
  JwksCache, Reading, find_key, refresh, get_key, looked_up, Header, Claims, Decoded, claims,
  OidcSettings, given_text, actor_of, validate_oidc_token, actor_or_refusal, retried, decoded,
  with_second_key, with_key, algorithm_of, invalid_signature, invalid_token,
}

module _ {Key : Type 0} where
  -- The cache has keys, and the clock is within the time to live.
  pub record IsWarm (ttl : ℕ) (reading : Reading Key) (cache : JwksCache Key) : Type 0 where
    pub head : String × Key
    pub tail : List (String × Key)
    pub filled : cache.keys ≡ head ∷ tail
    pub within : reading.locked ≤ cache.fetched_at + ttl

  refresh-IsWarm :
      (ttl : ℕ) (reading : Reading Key) (cache : JwksCache Key)
      → IsWarm ttl reading cache
      → refresh ttl reading cache ≡ (ok tt, cache)
  unfolding refresh
  refresh-IsWarm ttl reading cache w =
      let low : leb reading.locked (cache.fetched_at + ttl) ≡ true =
        let k = w.within in ground arith in
      rw (low, w.filled) refl

  get_key-IsWarm :
      (ttl : ℕ) (reading : Reading Key) (kid : String) (force_refresh : Bool)
      (cache : JwksCache Key)
      → IsWarm ttl reading cache
      → find_key cache.keys kid ≡ none
      → get_key ttl reading kid force_refresh cache ≡ (ok none, cache)
  unfolding get_key
  get_key-IsWarm ttl reading kid true cache w h = rw (refresh-IsWarm ttl reading cache w, h) refl
  get_key-IsWarm ttl reading kid false cache w h =
      rw (h, refresh-IsWarm ttl reading cache w) (rw h refl)

  -- A key that a look-up gives is the one that the cache then has.
  abbrev IsCurrent : String → Result (Option Key) × JwksCache Key → Type 0
  IsCurrent kid p = (key : Option Key) → p.0 ≡ ok key → key ≡ find_key p.1.keys kid

  looked_up-IsCurrent :
      (kid : String) (p : Result (Unit {0}) × JwksCache Key) → IsCurrent kid (looked_up kid p)
  looked_up-IsCurrent kid (err fault, cache) key h = cc
  looked_up-IsCurrent kid (ok u, cache) key h = sym (ok-injective h)

  get_key-IsCurrent :
      (ttl : ℕ) (reading : Reading Key) (kid : String) (force_refresh : Bool)
      (cache : JwksCache Key)
      → IsCurrent kid (get_key ttl reading kid force_refresh cache)
  unfolding get_key
  get_key-IsCurrent ttl reading kid force_refresh cache =
      chosen (looked_up kid (refresh ttl reading cache)) (ok (find_key cache.keys kid), cache) _
        (looked_up-IsCurrent kid (refresh ttl reading cache)) (λ key h. sym (ok-injective h))
    where
      chosen :
          (p q : Result (Option Key) × JwksCache Key) (b : Bool)
          → IsCurrent kid p
          → IsCurrent kid q
          → IsCurrent kid (if b then p else q)
      chosen p q true c d = c
      chosen p q false c d = d

  -- An actor that is returned is named by the claims that the token has under that key.
  abbrev IsSigned : (Option Key → Decoded) → String → Result String × JwksCache Key → Type 0
  IsSigned try kid o =
      (actor : String)
      → o.0 ≡ ok actor
      → (c : Claims) × (try (find_key o.1.keys kid) ≡ claims c) × (actor_of c ≡ some actor)

  claims-IsSigned :
      (try : Option Key → Decoded) (kid : String) (cache : JwksCache Key) (d : Decoded)
      → try (find_key cache.keys kid) ≡ d
      → IsSigned try kid (actor_or_refusal d, cache)
  claims-IsSigned try kid cache (claims c) e actor h = (c, e, ground arith)
  claims-IsSigned try kid cache invalid_signature e actor h = cc
  claims-IsSigned try kid cache invalid_token e actor h = cc

module _ {Key : Type 0} (get_unverified_header : List ℕ → Option Header)
    (decode : List ℕ → Option Key → String → Option String → String → Decoded) where
  retried-IsSigned :
      (try : Option Key → Decoded) (kid : String) (p : Result (Option Key) × JwksCache Key)
      → IsCurrent kid p
      → IsSigned try kid (retried get_unverified_header decode try p)
  retried-IsSigned try kid (err fault, cache) c = λ actor h. cc
  retried-IsSigned try kid (ok key, cache) c =
      claims-IsSigned try kid cache (try key) (ap try (sym (c key refl)))

  decoded-IsSigned :
      (try : Option Key → Decoded) (d : Decoded) (ttl : ℕ) (reading : Reading Key) (kid : String)
      (cache : JwksCache Key)
      → try (find_key cache.keys kid) ≡ d
      → IsSigned try kid (decoded get_unverified_header decode try d ttl reading kid cache)
  decoded-IsSigned try (claims c) ttl reading kid cache e =
      claims-IsSigned try kid cache (claims c) e
  decoded-IsSigned try invalid_token ttl reading kid cache e =
      claims-IsSigned try kid cache invalid_token e
  decoded-IsSigned try invalid_signature ttl reading kid cache e =
      retried-IsSigned try kid (get_key ttl reading kid true cache)
        (get_key-IsCurrent ttl reading kid true cache)

  second-IsSigned :
      (try : Option Key → Decoded) (ttl : ℕ) (last : Reading Key) (kid : String)
      (p : Result (Option Key) × JwksCache Key)
      → IsCurrent kid p
      → IsSigned try kid (with_second_key get_unverified_header decode try ttl last kid p)
  second-IsSigned try ttl last kid (err fault, cache) c = λ actor h. cc
  second-IsSigned try ttl last kid (ok none, cache) c = λ actor h. cc
  second-IsSigned try ttl last kid (ok (some key), cache) c =
      decoded-IsSigned try (try (some key)) ttl last kid cache (ap try (sym (c (some key) refl)))

  with_key-IsSigned :
      (try : Option Key → Decoded) (ttl : ℕ) (again last : Reading Key) (kid : String)
      (p : Result (Option Key) × JwksCache Key)
      → IsCurrent kid p
      → IsSigned try kid (with_key get_unverified_header decode try ttl again last kid p)
  with_key-IsSigned try ttl again last kid (err fault, cache) c = λ actor h. cc
  with_key-IsSigned try ttl again last kid (ok none, cache) c =
      second-IsSigned try ttl last kid (get_key ttl again kid true cache)
        (get_key-IsCurrent ttl again kid true cache)
  with_key-IsSigned try ttl again last kid (ok (some key), cache) c =
      decoded-IsSigned try (try (some key)) ttl last kid cache (ap try (sym (c (some key) refl)))

  -- An accepted token has a header with a `kid`, decodes under the key that the cache then has for
  -- it, for the configured audience and issuer, and its claims name the actor.
  pub validate_oidc_token-IsSigned :
      (settings : OidcSettings) (token : List ℕ) (first_reading again last : Reading Key)
      (cache : JwksCache Key) (actor : String)
      → (validate_oidc_token get_unverified_header decode settings token first_reading again last
          cache).0
        ≡ ok actor
      → (issuer : String) × (header : Header) × (kid : String) × (c : Claims) × (given_text
            settings.keycloak_issuer
          ≡ some issuer)
        × (get_unverified_header token ≡ some header)
        × (given_text header.kid ≡ some kid)
        × (decode token
              (find_key
                (validate_oidc_token get_unverified_header decode settings token first_reading again
                  last cache).1.keys
                kid)
              (algorithm_of (given_text header.alg))
              (given_text settings.keycloak_audience)
              issuer
            ≡ claims c)
        × (actor_of c ≡ some actor)
  unfolding validate_oidc_token
  validate_oidc_token-IsSigned settings token first_reading again last cache actor h =
      elim (Option-cases (given_text settings.keycloak_issuer)) [
        | inl e ↦ absurd (refused (rw e at h))
        | inr (issuer, e) ↦ elim (Option-cases (get_unverified_header token)) [
          | inl f ↦ absurd (refused (rw (e, f) at h))
          | inr (header, f) ↦ elim (Option-cases (given_text header.kid)) [
            | inl g ↦ absurd (refused (rw (e, f, g) at h))
            | inr (kid, g) ↦
                let ttl = settings.keycloak_jwks_ttl_seconds in
                let (c, d, named) =
                  with_key-IsSigned
                    (λ key.
                      decode token key (algorithm_of (given_text header.alg))
                        (given_text settings.keycloak_audience) issuer)
                    ttl again last kid (get_key ttl first_reading kid false cache)
                    (get_key-IsCurrent ttl first_reading kid false cache) actor
                    (rw (e, f, g) at h) in
                (issuer, header, kid, c, e, f, g, rw (e, f, g) d, named)
          ]
        ]
      ]
    where
      refused : {a : String} → err (http 401) ≡ ok a → ⊥
      refused h = cc

  -- A token signed with a key that is not in a cache that has keys is refused within the time to live,
  -- whatever keys the issuer now serves, and the forced refresh fetches nothing.
  pub validate_oidc_token-IsWarm :
      (settings : OidcSettings) (token : List ℕ) (first_reading again last : Reading Key)
      (cache : JwksCache Key) (issuer kid : String) (header : Header)
      → given_text settings.keycloak_issuer ≡ some issuer
      → get_unverified_header token ≡ some header
      → given_text header.kid ≡ some kid
      → find_key cache.keys kid ≡ none
      → IsWarm settings.keycloak_jwks_ttl_seconds first_reading cache
      → IsWarm settings.keycloak_jwks_ttl_seconds again cache
      → validate_oidc_token get_unverified_header decode settings token first_reading again last
          cache
        ≡ (err (http 401), cache)
  unfolding validate_oidc_token
  validate_oidc_token-IsWarm settings token first_reading again last cache issuer kid header i h k
        missing w v =
      rw
        (
          i,
          h,
          k,
          get_key-IsWarm settings.keycloak_jwks_ttl_seconds first_reading kid false cache w missing,
          get_key-IsWarm settings.keycloak_jwks_ttl_seconds again kid true cache v missing,
        )
        refl
