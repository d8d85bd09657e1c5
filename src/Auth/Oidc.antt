-- ===== src/Auth/Oidc.antt =====
-- src/oidc.py: the cache of signing keys and the validation of OpenID tokens.
pub mod Stale
use titan_tyr.Prelude.{
  ℕ, ◌+◌, Bool, true, false, ◌&&◌, ◌||◌, not, Option, none, some, List, [], ◌∷◌, String, Result, ok,
  err, http, leb, ltb, ◌==◌, String-eq, if◌then◌else◌,
}

-- Keys, claims and tokens are those of the packages `jwt` and `httpx`.
-- `JWKSCache`: the keys by `kid`, and the second of the last fetch.
pub record JwksCache (Key : Type 0) : Type 0 where
  pub keys : List (String × Key)
  pub fetched_at : ℕ

-- One call of `get_key`: what the clock shows when it is called, when the lock is held and when the
-- fetch is done, and what a fetch would give.
pub record Reading (Key : Type 0) : Type 0 where
  pub asked : ℕ
  pub locked : ℕ
  pub done : ℕ
  pub jwks : Result (List (Option String × Key))

module _ {Key : Type 0} where
  -- `self._keys.get(kid)`
  unfoldable pub find_key : List (String × Key) → String → Option Key
  find_key [] kid = none
  find_key (k ∷ ks) kid = let rest = find_key ks kid in if k.0 == kid then some k.1 else rest

  -- The loop over `jwks["keys"]`: an entry without a `kid` is skipped, and a later one wins.
  unfoldable pub new_keys : List (String × Key) → List (Option String × Key) → List (String × Key)
  new_keys keys [] = keys
  new_keys keys ((none, key) ∷ raws) = new_keys keys raws
  new_keys keys ((some kid, key) ∷ raws) =
      new_keys (if kid == "" then keys else (kid, key) ∷ keys) raws

  abbrev is_empty : List (String × Key) → Bool
  is_empty [] = true
  is_empty (k ∷ ks) = false

  abbrev fetched :
      JwksCache Key
      → Reading Key
      → Result (List (Option String × Key))
      → Result (Unit {0}) × JwksCache Key
  fetched cache reading (err fault) = (err fault, cache)
  fetched cache reading (ok raws) =
      (ok tt, record { keys = new_keys [] raws; fetched_at = reading.done })

  -- `_refresh`: no fetch within the time to live of a cache that has keys.
  unfoldable pub refresh : ℕ → Reading Key → JwksCache Key → Result (Unit {0}) × JwksCache Key
  refresh ttl reading cache =
      if leb reading.locked (cache.fetched_at + ttl) && not (is_empty cache.keys)
      then (ok tt, cache)
      else fetched cache reading reading.jwks

  abbrev is_missing : Option Key → Bool
  is_missing none = true
  is_missing (some key) = false

  abbrev looked_up :
      String → Result (Unit {0}) × JwksCache Key → Result (Option Key) × JwksCache Key
  looked_up kid (err fault, cache) = (err fault, cache)
  looked_up kid (ok u, cache) = (ok (find_key cache.keys kid), cache)

  -- `get_key`
  unfoldable pub get_key :
      ℕ → Reading Key → String → Bool → JwksCache Key → Result (Option Key) × JwksCache Key
  get_key ttl reading kid force_refresh cache =
      if force_refresh
        || (is_missing (find_key cache.keys kid) || ltb (cache.fetched_at + ttl) reading.asked)
      then looked_up kid (refresh ttl reading cache)
      else (ok (find_key cache.keys kid), cache)

-- `jwt.get_unverified_header(token)`, as far as it is read.
pub record Header : Type 0 where
  pub kid : Option String
  pub alg : Option String

-- The claims that are read.
pub record Claims : Type 0 where
  pub preferred_username : Option String
  pub sub : Option String

-- How `jwt.decode` ends: claims, `InvalidSignatureError`, or another `InvalidTokenError`.
pub data Decoded : Type 0 where
  claims : Claims → Decoded
  invalid_signature : Decoded
  invalid_token : Decoded

-- The settings that the validation reads.
pub record OidcSettings : Type 0 where
  pub keycloak_issuer : Option String
  pub keycloak_audience : Option String
  pub keycloak_jwks_ttl_seconds : ℕ

-- A text that is set and not empty.
abbrev pub given_text : Option String → Option String
given_text none = none
given_text (some text) = if text == "" then none else some text

abbrev or_sub : Option String → Option String → Option String
or_sub none sub = given_text sub
or_sub (some name) sub = some name

-- `claims.get("preferred_username") or claims.get("sub")`
abbrev pub actor_of : Claims → Option String
actor_of c = or_sub (given_text c.preferred_username) c.sub

-- `header.get("alg") or "RS256"`
abbrev pub algorithm_of : Option String → String
algorithm_of none = "RS256"
algorithm_of (some alg) = alg

-- The end of `validate_oidc_token`.
abbrev pub actor_or_refusal : Decoded → Result String
actor_or_refusal (claims c) = elim (actor_of c) [ none ↦ err (http 401) | some actor ↦ ok actor ]
actor_or_refusal invalid_signature = err (http 401)
actor_or_refusal invalid_token = err (http 401)

-- The package's reading of the token's header and its decoding, by the key, the algorithm, the
-- audience and the issuer, are arguments.
module _ {Key : Type 0} (get_unverified_header : List ℕ → Option Header)
    (decode : List ℕ → Option Key → String → Option String → String → Decoded) where
  abbrev pub retried :
      (Option Key → Decoded) → Result (Option Key) × JwksCache Key → Result String × JwksCache Key
  retried try (err fault, cache) = (err fault, cache)
  retried try (ok key, cache) = (actor_or_refusal (try key), cache)

  -- From the first decoding on; a bad signature asks for the key again.
  abbrev pub decoded :
      (Option Key → Decoded)
      → Decoded
      → ℕ
      → Reading Key
      → String
      → JwksCache Key
      → Result String × JwksCache Key
  decoded try invalid_signature ttl reading kid cache =
      retried try (get_key ttl reading kid true cache)
  decoded try first_result ttl reading kid cache = (actor_or_refusal first_result, cache)

  -- With the key that the forced refresh gives.
  abbrev pub with_second_key :
      (Option Key → Decoded)
      → ℕ
      → Reading Key
      → String
      → Result (Option Key) × JwksCache Key
      → Result String × JwksCache Key
  with_second_key try ttl last kid (err fault, cache) = (err fault, cache)
  with_second_key try ttl last kid (ok none, cache) = (err (http 401), cache)
  with_second_key try ttl last kid (ok (some key), cache) =
      decoded try (try (some key)) ttl last kid cache

  -- With the key of the first look-up: where there is none, one more with a forced refresh.
  abbrev pub with_key :
      (Option Key → Decoded)
      → ℕ
      → Reading Key
      → Reading Key
      → String
      → Result (Option Key) × JwksCache Key
      → Result String × JwksCache Key
  with_key try ttl again last kid (err fault, cache) = (err fault, cache)
  with_key try ttl again last kid (ok none, cache) =
      with_second_key try ttl last kid (get_key ttl again kid true cache)
  with_key try ttl again last kid (ok (some key), cache) =
      decoded try (try (some key)) ttl last kid cache

  abbrev pub by_kid :
      OidcSettings
      → String
      → List ℕ
      → Option String
      → Option String
      → Reading Key
      → Reading Key
      → Reading Key
      → JwksCache Key
      → Result String × JwksCache Key
  by_kid settings issuer token none alg first_reading again last cache = (err (http 401), cache)
  by_kid settings issuer token (some kid) alg first_reading again last cache =
      with_key
        (λ key. decode token key (algorithm_of alg) (given_text settings.keycloak_audience) issuer)
        settings.keycloak_jwks_ttl_seconds again last kid
        (get_key settings.keycloak_jwks_ttl_seconds first_reading kid false cache)

  abbrev pub by_header :
      OidcSettings
      → String
      → List ℕ
      → Option Header
      → Reading Key
      → Reading Key
      → Reading Key
      → JwksCache Key
      → Result String × JwksCache Key
  by_header settings issuer token none first_reading again last cache = (err (http 401), cache)
  by_header settings issuer token (some header) first_reading again last cache =
      by_kid settings issuer token (given_text header.kid) (given_text header.alg) first_reading
        again last cache

  abbrev pub by_issuer :
      OidcSettings
      → Option String
      → List ℕ
      → Reading Key
      → Reading Key
      → Reading Key
      → JwksCache Key
      → Result String × JwksCache Key
  by_issuer settings none token first_reading again last cache = (err (http 401), cache)
  by_issuer settings (some issuer) token first_reading again last cache =
      by_header settings issuer token (get_unverified_header token) first_reading again last cache

  -- `validate_oidc_token`, with what its up to three calls of `get_key` meet.
  unfoldable pub validate_oidc_token :
      OidcSettings
      → List ℕ
      → Reading Key
      → Reading Key
      → Reading Key
      → JwksCache Key
      → Result String × JwksCache Key
  validate_oidc_token settings token first_reading again last cache =
      by_issuer settings (given_text settings.keycloak_issuer) token first_reading again last cache
