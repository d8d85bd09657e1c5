-- ===== src/Cors.antt =====
-- src/cors.py: the configuration of CORS, from the environment. A text is the list of its code points;
-- the variables are read by name.
pub mod Origins
use titan_tyr.Prelude.{
  ℕ, ◌+◌, Bool, true, false, ◌&&◌, ◌||◌, not, Option, none, some, List, [], ◌∷◌, String, any, leb,
  ◌==◌, ℕ-eq, if◌then◌else◌,
}
use titan_tyr.Texts.{codes, is_space, skip_spaces, same_text}

-- `CorsConfig`
pub record CorsConfig : Type 0 where
  pub allow_origins : Option (List (List ℕ))
  pub allow_origin_regex : Option String

-- `DEFAULT_ALLOW_ORIGIN_REGEX`
abbrev pub default_allow_origin_regex : String
default_allow_origin_regex = "^https://(.*\\.)?digitalforge\\.app$|^https?://localhost(:\\d+)?$"

-- What `urlparse` gives, as far as it is read; `hostname` may be missing.
pub record Url : Type 0 where
  pub scheme : List ℕ
  pub hostname : Option (List ℕ)
  pub path : List ℕ
  pub params : List ℕ
  pub query : List ℕ
  pub fragment : List ℕ

-- How the resolution ends: with a value, with `InvalidCorsOrigin`, or with the `ValueError` that
-- `urlparse` raises.
pub data Resolved {ℓ} (A : Type ℓ) : Type ℓ where
  resolved : A → Resolved A
  invalid_cors_origin : Resolved A
  value_error : Resolved A

infixl 5 ◌>>=◌
abbrev pub ◌>>=◌ {ℓ κ} : {A : Type ℓ} {B : Type κ} → Resolved A → (A → Resolved B) → Resolved B
resolved a >>= rest = rest a
invalid_cors_origin >>= rest = invalid_cors_origin
value_error >>= rest = value_error

abbrev pub is_blank : List ℕ → Bool
is_blank [] = true
is_blank (c ∷ cs) = false

-- `not parsed.hostname`
abbrev pub no_host : Option (List ℕ) → Bool
no_host none = true
no_host (some host) = is_blank host

-- `s.rstrip()`
unfoldable pub rstrip : List ℕ → List ℕ
rstrip [] = []
rstrip (c ∷ cs) = let rest = rstrip cs in if is_space c && is_blank rest then [] else c ∷ rest

-- `s.strip()`
unfoldable pub strip : List ℕ → List ℕ
unfolding skip_spaces rstrip
strip s = rstrip (skip_spaces s)

-- `s.lower()` on the letters A to Z; it is compared with an ASCII word that no other letter gives.
unfoldable pub lower : List ℕ → List ℕ
lower [] = []
lower (c ∷ cs) = (if leb b'A' c && leb c b'Z' then c + 32 else c) ∷ lower cs

abbrev pub put_first : ℕ → List (List ℕ) → List (List ℕ)
put_first c [] = (c ∷ []) ∷ []
put_first c (piece ∷ pieces) = (c ∷ piece) ∷ pieces

-- `s.split(",")`
unfoldable pub split_commas : List ℕ → List (List ℕ)
split_commas [] = [] ∷ []
split_commas (c ∷ cs) =
    let pieces = split_commas cs in if c == b',' then [] ∷ pieces else put_first c pieces

-- `[s.strip() for s in … if s.strip()]`
unfoldable pub stripped : List (List ℕ) → List (List ℕ)
unfolding strip
stripped [] = []
stripped (s ∷ ss) = let rest = stripped ss in if is_blank (strip s) then rest else strip s ∷ rest

-- `e.get(name, "")`
abbrev pub env_get : (String → Option (List ℕ)) → String → List ℕ
env_get env name = elim (env name) [ none ↦ [] | some text ↦ text ]

-- The test on `CORS_ALLOW_ANY_ORIGIN`.
unfoldable pub any_origin : (String → Option (List ℕ)) → Bool
unfolding strip lower same_text
any_origin env = same_text (lower (strip (env_get env "CORS_ALLOW_ANY_ORIGIN"))) (codes "true")

-- The entries of `CORS_ALLOWED_ORIGINS`.
unfoldable pub allowed_origins : (String → Option (List ℕ)) → List (List ℕ)
unfolding strip stripped split_commas
allowed_origins env =
    let raw = strip (env_get env "CORS_ALLOWED_ORIGINS") in
    if is_blank raw then [] else stripped (split_commas raw)

-- The package's reading of a URL is an argument; `none` is its `ValueError`.
module _ (urlparse : List ℕ → Option Url) where
  -- `_validate_origin` on what `urlparse` gave.
  abbrev pub validate_url : List ℕ → Option Url → Resolved (List ℕ)
  validate_url origin none = value_error
  validate_url origin (some parsed) =
      if not (same_text parsed.scheme (codes "http") || same_text parsed.scheme (codes "https"))
      then invalid_cors_origin
      else if no_host parsed.hostname
      then invalid_cors_origin
      else if not (is_blank parsed.path)
          || (not (is_blank parsed.params)
              || (not (is_blank parsed.query) || not (is_blank parsed.fragment)))
      then invalid_cors_origin
      else if any (λ c. c == b'*') origin
      then invalid_cors_origin
      else resolved origin

  -- `_validate_origin`
  unfoldable pub validate_origin : List ℕ → Resolved (List ℕ)
  unfolding same_text any
  validate_origin origin =
      if same_text origin (codes "*")
      then invalid_cors_origin
      else validate_url origin (urlparse origin)

  -- `[_validate_origin(o) for o in origins]`
  unfoldable pub validate_origins : List (List ℕ) → Resolved (List (List ℕ))
  unfolding validate_origin
  validate_origins [] = resolved []
  validate_origins (o ∷ os) = do
    validated ← validate_origin o
    rest ← validate_origins os
    resolved (validated ∷ rest)

  -- The end of `resolve_cors_config`, by the entries.
  abbrev pub resolve_origins : List (List ℕ) → Resolved CorsConfig
  resolve_origins [] =
      resolved
        (record { allow_origins = none; allow_origin_regex = some default_allow_origin_regex })
  resolve_origins (o ∷ os) = do
    validated ← validate_origins (o ∷ os)
    resolved (record { allow_origins = some validated; allow_origin_regex = none })

  -- `resolve_cors_config`
  unfoldable pub resolve_cors_config : (String → Option (List ℕ)) → Resolved CorsConfig
  unfolding any_origin allowed_origins validate_origins
  resolve_cors_config env =
      if any_origin env
      then resolved (record { allow_origins = some (codes "*" ∷ []); allow_origin_regex = none })
      else resolve_origins (allowed_origins env)
