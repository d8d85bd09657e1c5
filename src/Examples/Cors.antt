-- ===== src/Examples/Cors.antt =====
-- The resolution of CORS at an environment that lists two origins.
use titan_tyr.Prelude.{
  ℕ, false, Option, none, some, List, [], ◌∷◌, String, ◌==◌, String-eq, if◌then◌else◌, ◌≡◌, ◌↔◌,
  refl,
}
use titan_tyr.Texts.{codes, literal}
use titan_tyr.Cors.{
  CorsConfig, default_allow_origin_regex, Url, resolved, invalid_cors_origin, any_origin,
  resolve_cors_config,
}
use titan_tyr.Cors.Origins.{IsDecided, resolve_cors_config-IsDecided}

abbrev at_host : Option (List ℕ) → Url
at_host none = record {
  scheme = [];
  hostname = none;
  path = [];
  params = [];
  query = [];
  fragment = [];
}
at_host (some rest) = record {
  scheme = codes "https";
  hostname = some rest;
  path = [];
  params = [];
  query = [];
  fragment = [];
}

-- A reading that knows the scheme https alone.
abbrev https_only : List ℕ → Option Url
https_only text = some (at_host (literal (codes "https://") text))

abbrev listing : String → String → Option (List ℕ)
listing text name = if name == "CORS_ALLOWED_ORIGINS" then some (codes text) else none

abbrev two : CorsConfig
two = record {
  allow_origins = some (codes "https://a.io" ∷ codes "https://b.io" ∷ []);
  allow_origin_regex = none;
}

closed_two : any_origin (listing " https://a.io, https://b.io ") ≡ false
unfolding any_origin
closed_two = refl

resolve_two : resolve_cors_config https_only (listing " https://a.io, https://b.io ") ≡ resolved two
unfolding resolve_cors_config literal
resolve_two = refl

wildcard_refused : resolve_cors_config https_only (listing "https://*.io") ≡ invalid_cors_origin
unfolding resolve_cors_config literal
wildcard_refused = refl

-- A variable with separators alone is as one that is not set.
commas_default :
    resolve_cors_config https_only (listing " , ,")
    ≡ resolved
        (record { allow_origins = none; allow_origin_regex = some default_allow_origin_regex })
unfolding resolve_cors_config literal
commas_default = refl

resolve_cors_config-IsDecided_example :
    (resolve_cors_config https_only (listing " https://a.io, https://b.io ") ≡ resolved two)
    ↔ IsDecided https_only (listing " https://a.io, https://b.io ") two
resolve_cors_config-IsDecided_example =
    resolve_cors_config-IsDecided https_only (listing " https://a.io, https://b.io ") two closed_two
