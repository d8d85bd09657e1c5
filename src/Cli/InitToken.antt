-- ===== src/Cli/InitToken.antt =====
-- src/cli.py: `_cmd_k8s_init_token` and what it calls.
use titan_tyr.Prelude.{
  ℕ, Bool, ◌||◌, not, Option, none, some, List, [], ◌∷◌, ◌++◌, String, ◌==◌, ℕ-eq, if◌then◌else◌,
}
use titan_tyr.Cors.{is_blank, split_commas, stripped, env_get}
use titan_tyr.Cli.{
  Request, World, Outcome, returned, raised, ◌>>=◌, Arguments, sa_token_path, is_nil,
  unknown_scopes, read_file_or_none, write_file, rstrip_slashes, probe_request, issue_request,
  patch_request,
}

-- Arguments: what the services answer to a request after those that were sent before, where `none` is
-- a failure of the transport; the `token` of an answer's JSON, where `none` is an exception; base 64.
module _ (answer : List Request → Request → Option (ℕ × List ℕ))
    (token_of : List ℕ → Option (List ℕ)) (b64encode : List ℕ → List ℕ) where
  abbrev pub answered : Option (ℕ × List ℕ) → World → Outcome (ℕ × List ℕ)
  answered none w = raised w
  answered (some reply) w = returned reply w

  -- `_http_request`
  unfoldable pub http_request : Request → World → Outcome (ℕ × List ℕ)
  http_request request w =
      answered (answer w.sent request) (record w { sent = w.sent ++ request ∷ [] })

  -- `_probe`
  unfoldable pub probe : List ℕ → List ℕ → World → Outcome Bool
  unfolding http_request rstrip_slashes
  probe api_url token w = do
    ((status, _), w1) ← http_request (probe_request api_url token) w
    returned (status == 200) w1

  abbrev pub token_or_raise : Option (List ℕ) → World → Outcome (List ℕ)
  token_or_raise none w = raised w
  token_or_raise (some token) w = returned token w

  -- `_issue_via_api`
  unfoldable pub issue_via_api :
      List ℕ → List ℕ → Arguments → List (List ℕ) → World → Outcome (List ℕ)
  unfolding http_request rstrip_slashes
  issue_via_api api_url admin_token args scopes w = do
    ((status, response), w1) ← http_request (issue_request api_url admin_token args scopes) w
    if not (status == 201) then raised w1 else token_or_raise (token_of response) w1

  abbrev pub patch_by :
      Option (List ℕ) → List ℕ → List ℕ → String → List ℕ → World → Outcome (Unit {0})
  patch_by none namespace secret_name key plaintext w = raised w
  patch_by (some sa_token) namespace secret_name key plaintext w = do
    ((status, response), w1) ←
        http_request (patch_request sa_token namespace secret_name key (b64encode plaintext)) w
    if not (status == 200 || status == 201) then raised w1 else returned tt w1

  -- `_patch_k8s_secret`
  unfoldable pub patch_k8s_secret : List ℕ → List ℕ → String → List ℕ → World → Outcome (Unit {0})
  unfolding http_request read_file_or_none
  patch_k8s_secret namespace secret_name key plaintext w =
      patch_by (read_file_or_none w sa_token_path) namespace secret_name key plaintext w

  -- Steps 3 and 4, with the token of step 2.
  abbrev pub persist : List ℕ → Arguments → List ℕ → World → Outcome ℕ
  persist namespace args plaintext w = do
    (_, w1) ← patch_k8s_secret namespace args.ui_secret "TITAN_TYR_TOKEN" plaintext w
    returned 0 (write_file args.handoff_file plaintext w1)

  -- Step 2, with the admin's token.
  abbrev pub rotate_by :
      Option (List ℕ) → List ℕ → List ℕ → Arguments → List (List ℕ) → World → Outcome ℕ
  rotate_by none api_url namespace args scopes w = returned 2 w
  rotate_by (some admin) api_url namespace args scopes w = do
    (plaintext, w1) ← issue_via_api api_url admin args scopes w
    persist namespace args plaintext w1

  abbrev pub rotate : List ℕ → List ℕ → Arguments → List (List ℕ) → World → Outcome ℕ
  rotate api_url namespace args scopes w =
      rotate_by (read_file_or_none w args.admin_token_file) api_url namespace args scopes w

  -- Step 1, with the token that the Secret's mount has.
  abbrev pub reuse_by :
      Option (List ℕ) → List ℕ → List ℕ → Arguments → List (List ℕ) → World → Outcome ℕ
  reuse_by none api_url namespace args scopes w = rotate api_url namespace args scopes w
  reuse_by (some existing) api_url namespace args scopes w = do
    (live, w1) ← probe api_url existing w
    if live
        then returned 0 (write_file args.handoff_file existing w1)
        else rotate api_url namespace args scopes w1

  -- The part behind the checks on the environment.
  abbrev pub init_token : List ℕ → List ℕ → Arguments → World → Outcome ℕ
  init_token api_url namespace args w =
      let scopes = stripped (split_commas args.scopes) in
      if not (is_nil (unknown_scopes scopes))
      then returned 2 w
      else reuse_by (read_file_or_none w args.existing_token_file) api_url namespace args scopes w

  -- `_cmd_k8s_init_token`
  unfoldable pub cmd_k8s_init_token : (String → Option (List ℕ)) → Arguments → World → Outcome ℕ
  unfolding stripped split_commas unknown_scopes read_file_or_none probe issue_via_api
      patch_k8s_secret
  cmd_k8s_init_token env args w =
      let api_url = env_get env "TITAN_TYR_URL" in
      let namespace = env_get env "POD_NAMESPACE" in
      if is_blank api_url
      then returned 2 w
      else if is_blank namespace
      then returned 2 w
      else init_token api_url namespace args w
