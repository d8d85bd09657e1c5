-- ===== src/Examples/Init.antt =====
-- A start of a pod whose token was revoked: a new one is issued, stored and handed off.
use titan_tyr.Prelude.{
  ℕ, ◌+◌, Option, none, some, List, [], ◌∷◌, String, map, ◌==◌, String-eq, if◌then◌else◌, ◌≡◌, refl,
}
use titan_tyr.Texts.{codes}
use titan_tyr.Cli.{
  Request, World, returned, Arguments, sa_token_path, probe_request, issue_request, patch_request,
}
use titan_tyr.Cli.InitToken.{cmd_k8s_init_token}
use titan_tyr.Cli.Handoff.{Ends, cmd_k8s_init_token-Ends}

-- A service that refuses the probe, issues a token and takes the patch.
abbrev services : List Request → Request → Option (ℕ × List ℕ)
services sent request =
    if request.method == "GET"
    then some (401, [])
    else if request.method == "POST"
    then some (201, codes "fresh")
    else some (200, [])

abbrev encoded : List ℕ → List ℕ
encoded = map (λ c. c + 1)

abbrev env : String → Option (List ℕ)
env name =
    if name == "TITAN_TYR_URL"
    then some (codes "http://tyr/")
    else if name == "POD_NAMESPACE"
    then some (codes "prod")
    else none

abbrev args : Arguments
args = record {
  actor = codes "ui";
  description = codes "the UI";
  scopes = codes "read, write";
  ui_secret = codes "ui-token";
  admin_token_file = "/admin/TITAN_TYR_TOKEN";
  existing_token_file = "/ui-secret/TITAN_TYR_TOKEN";
  handoff_file = "/handoff/TITAN_TYR_TOKEN";
  expires_at = none;
}

abbrev pod : World
pod = record {
  files =
      ("/ui-secret/TITAN_TYR_TOKEN", codes "stale\n")
      ∷ ("/admin/TITAN_TYR_TOKEN", codes "root\n")
      ∷ (sa_token_path, codes "sa")
      ∷ [];
  sent = [];
}

rotates :
    cmd_k8s_init_token services some encoded env args pod
    ≡ returned 0 (record {
      files = ("/handoff/TITAN_TYR_TOKEN", codes "fresh") ∷ pod.files;
      sent =
          probe_request (codes "http://tyr") (codes "stale")
          ∷ issue_request
              (codes "http://tyr")
              (codes "root")
              args
              (codes "read" ∷ codes "write" ∷ [])
          ∷ patch_request
              (codes "sa")
              (codes "prod")
              (codes "ui-token")
              "TITAN_TYR_TOKEN"
              (encoded (codes "fresh"))
          ∷ [];
    })
unfolding cmd_k8s_init_token
rotates = refl

cmd_k8s_init_token-Ends_example :
    Ends services some encoded
      (codes "http://tyr/")
      (codes "prod")
      args
      pod.files
      (cmd_k8s_init_token services some encoded env args pod)
cmd_k8s_init_token-Ends_example = cmd_k8s_init_token-Ends services some encoded env args pod
