-- ===== src/Cli.antt =====
-- src/cli.py: the requests and the files of `k8s-init-token`, which hands a live token to the main
-- container. A text is the list of its code points. The world is the files by path and the requests
-- sent so far, in order.
pub mod InitToken
pub mod Handoff
pub mod IssueToken
pub mod Bootstrap
use titan_tyr.Prelude.{
  ℕ, Bool, true, false, ◌&&◌, ◌||◌, not, Option, none, some, List, [], ◌∷◌, ◌++◌, String, any,
  select, ◌==◌, ℕ-eq, String-eq, if◌then◌else◌,
}
use titan_tyr.Texts.{codes, same_text}
use titan_tyr.Cors.{is_blank, strip, split_commas, stripped, env_get}

-- What a request carries: nothing, the fields of a token to issue, or a key of a Secret.
pub data Payload : Type 0 where
  no_data : Payload
  token_fields : List ℕ → List ℕ → List (List ℕ) → Option (List ℕ) → Payload
  secret_data : String → List ℕ → Payload

-- The arguments of `_http_request`; each of its calls sends a bearer.
pub record Request : Type 0 where
  pub url : List ℕ
  pub method : String
  pub bearer : List ℕ
  pub content_type : Option String
  pub data_sent : Payload
  pub ca_path : Option String

pub record World : Type 0 where
  pub files : List (String × List ℕ)
  pub sent : List Request

-- A run that returns, or that an exception ends.
pub data Outcome {ℓ} (A : Type ℓ) : Type ℓ where
  returned : A → World → Outcome A
  raised : World → Outcome A

infixl 5 ◌>>=◌
abbrev pub ◌>>=◌ {ℓ κ} : {A : Type ℓ} {B : Type κ} → Outcome A → (A × World → Outcome B) → Outcome B
returned a w >>= rest = rest (a, w)
raised w >>= rest = raised w

-- The arguments of the command line.
pub record Arguments : Type 0 where
  pub actor : List ℕ
  pub description : List ℕ
  pub scopes : List ℕ
  pub ui_secret : List ℕ
  pub admin_token_file : String
  pub existing_token_file : String
  pub handoff_file : String
  pub expires_at : Option (List ℕ)

abbrev pub sa_token_path : String
sa_token_path = "/var/run/secrets/kubernetes.io/serviceaccount/token"

abbrev pub sa_ca_path : String
sa_ca_path = "/var/run/secrets/kubernetes.io/serviceaccount/ca.crt"

abbrev pub k8s_api : List ℕ
k8s_api = codes "https://kubernetes.default.svc"

abbrev pub auth_token_scopes : List (List ℕ)
auth_token_scopes = codes "read" ∷ codes "write" ∷ codes "revoke-agent" ∷ []

abbrev pub is_nil : List (List ℕ) → Bool
is_nil [] = true
is_nil (s ∷ ss) = false

-- `[s for s in scopes if s not in AUTH_TOKEN_SCOPES]`
unfoldable pub unknown_scopes : List (List ℕ) → List (List ℕ)
unfolding any select same_text
unknown_scopes scopes = select (λ s. not (any (same_text s) auth_token_scopes)) scopes

unfoldable pub content_of : List (String × List ℕ) → String → Option (List ℕ)
content_of [] path = none
content_of (file ∷ files) path =
    let rest = content_of files path in if file.0 == path then some file.1 else rest

abbrev pub non_blank : List ℕ → Option (List ℕ)
non_blank [] = none
non_blank (c ∷ cs) = some (c ∷ cs)

-- `_read_file_or_none`
unfoldable pub read_file_or_none : World → String → Option (List ℕ)
unfolding content_of strip
read_file_or_none w path = elim (content_of w.files path) [
  | none ↦ none
  | some content ↦ non_blank (strip content)
]

-- `with open(path, "w") as f: f.write(text)`
abbrev pub write_file : String → List ℕ → World → World
write_file path text w = record w { files = (path, text) ∷ w.files }

-- `s.rstrip("/")`
unfoldable pub rstrip_slashes : List ℕ → List ℕ
rstrip_slashes [] = []
rstrip_slashes (c ∷ cs) =
    let rest = rstrip_slashes cs in if c == b'/' && is_blank rest then [] else c ∷ rest

abbrev pub probe_request : List ℕ → List ℕ → Request
probe_request api_url token = record {
  url = rstrip_slashes api_url ++ codes "/parts?limit=1";
  method = "GET";
  bearer = token;
  content_type = none;
  data_sent = no_data;
  ca_path = none;
}

-- `if expires_at: body["expires_at"] = expires_at`
abbrev pub given_expiry : Option (List ℕ) → Option (List ℕ)
given_expiry none = none
given_expiry (some text) = non_blank text

abbrev pub issue_request : List ℕ → List ℕ → Arguments → List (List ℕ) → Request
issue_request api_url admin_token args scopes = record {
  url = rstrip_slashes api_url ++ codes "/auth-tokens";
  method = "POST";
  bearer = admin_token;
  content_type = some "application/json";
  data_sent = token_fields args.actor args.description scopes (given_expiry args.expires_at);
  ca_path = none;
}

-- The patch of one key of a Secret; `encoded` is the base 64 of the token.
abbrev pub patch_request : List ℕ → List ℕ → List ℕ → String → List ℕ → Request
patch_request sa_token namespace secret_name key encoded = record {
  url =
      k8s_api ++ (codes "/api/v1/namespaces/" ++ (namespace ++ (codes "/secrets/" ++ secret_name)));
  method = "PATCH";
  bearer = sa_token;
  content_type = some "application/strategic-merge-patch+json";
  data_sent = secret_data key encoded;
  ca_path = some sa_ca_path;
}
