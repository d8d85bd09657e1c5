-- ===== src/Cli/Handoff.antt =====
-- The token that `k8s-init-token` hands off, and the files it leaves: src/cli.py.
use titan_tyr.Prelude.{
  ℕ, true, ◌||◌, Option, some, List, [], ◌∷◌, ◌++◌, String, Option-cases, Bool-cases, ◌==◌, ℕ-eq,
  ◌≡◌, inl, inr, refl, ==→eq,
}
use titan_tyr.Cors.{is_blank, split_commas, stripped, env_get}
use titan_tyr.Cli.{
  Request, World, Outcome, returned, raised, Arguments, sa_token_path, is_nil, unknown_scopes,
  read_file_or_none, probe_request, issue_request, patch_request,
}
use titan_tyr.Cli.InitToken.{
  http_request, probe, issue_via_api, patch_k8s_secret, persist, rotate, reuse_by, init_token,
  cmd_k8s_init_token,
}

-- What a file reads as, before any request.
abbrev read_of : List (String × List ℕ) → String → Option (List ℕ)
read_of files path = read_file_or_none (record { files = files; sent = [] }) path

read_of_lem : (w : World) (path : String) → read_file_or_none w path ≡ read_of w.files path
unfolding read_file_or_none
read_of_lem w path = refl

module _ (answer : List Request → Request → Option (ℕ × List ℕ))
    (token_of : List ℕ → Option (List ℕ)) (b64encode : List ℕ → List ℕ) (api_url : List ℕ)
    (namespace : List ℕ) (args : Arguments) where
  -- Where the token comes from: the mount of the Secret, and it passed the probe; or the service
  -- issued it to the admin's token, and the Secret was patched with it just after.
  pub data IsSupplied (files : List (String × List ℕ)) (token : List ℕ) : Type 0 where
    reused :
        {before : List Request} {body : List ℕ}
        → read_of files args.existing_token_file ≡ some token
        → answer before (probe_request api_url token) ≡ some (200, body)
        → IsSupplied files token
    rotated :
        {before : List Request} {admin sa_token body reply : List ℕ} {status : ℕ}
        → read_of files args.admin_token_file ≡ some admin
        → answer before (issue_request api_url admin args (stripped (split_commas args.scopes)))
          ≡ some (201, body)
        → token_of body ≡ some token
        → read_of files sa_token_path ≡ some sa_token
        → answer
            (before ++ issue_request api_url admin args (stripped (split_commas args.scopes)) ∷ [])
            (patch_request sa_token namespace args.ui_secret "TITAN_TYR_TOKEN" (b64encode token))
          ≡ some (status, reply)
        → (status == 200 || status == 201) ≡ true
        → IsSupplied files token

  -- The end of a run: an exception or the exit code 2 and the files as they were, or the exit code 0
  -- and the handoff file written with a supplied token.
  pub data Ends (files : List (String × List ℕ)) : Outcome ℕ → Type 0 where
    raises : {w : World} → w.files ≡ files → Ends files (raised w)
    refuses : {w : World} → w.files ≡ files → Ends files (returned 2 w)
    hands_off :
        {w : World} (token : List ℕ)
        → w.files ≡ (args.handoff_file, token) ∷ files
        → IsSupplied files token
        → Ends files (returned 0 w)

  abbrev issued : List ℕ → Request
  issued admin = issue_request api_url admin args (stripped (split_commas args.scopes))

  persist-Ends :
      (admin body token : List ℕ) (before : List Request) (w : World)
      → read_of w.files args.admin_token_file ≡ some admin
      → answer before (issued admin) ≡ some (201, body)
      → token_of body ≡ some token
      → w.sent ≡ before ++ issued admin ∷ []
      → Ends w.files (persist answer token_of b64encode namespace args token w)
  unfolding patch_k8s_secret http_request
  persist-Ends admin body token before w e1 e2 e3 sent =
      rw (read_of_lem w sa_token_path) (elim (Option-cases (read_of w.files sa_token_path)) [
        | inl missing ↦ rw missing (raises refl)
        | inr (sa_token, e4) ↦
            let patch =
              patch_request sa_token namespace args.ui_secret "TITAN_TYR_TOKEN" (b64encode token) in
            rw e4 (elim (Option-cases (answer w.sent patch)) [
              | inl failed ↦ rw failed (raises refl)
              | inr ((status, reply), e5) ↦
                  rw e5 (elim (Bool-cases (status == 200 || status == 201)) [
                    | inl t ↦ rw t (hands_off token refl (rotated e1 e2 e3 e4 (rw sent at e5) t))
                    | inr f ↦ rw f (raises refl)
                  ])
            ])
      ])

  rotate-Ends :
      (w : World)
      → Ends w.files (
          rotate answer token_of b64encode api_url namespace args
            (stripped (split_commas args.scopes))
            w)
  unfolding issue_via_api http_request
  rotate-Ends w =
      rw (read_of_lem w args.admin_token_file)
        (elim (Option-cases (read_of w.files args.admin_token_file)) [
          | inl missing ↦ rw missing (refuses refl)
          | inr (admin, e1) ↦ rw e1 (elim (Option-cases (answer w.sent (issued admin))) [
            | inl failed ↦ rw failed (raises refl)
            | inr ((status, body), e2) ↦ rw e2 (elim (Bool-cases (status == 201)) [
              | inl t ↦ rw t (elim (Option-cases (token_of body)) [
                | inl bad ↦ rw bad (raises refl)
                | inr (token, e3) ↦ rw e3 (
                    persist-Ends admin body token w.sent _ e1 (rw (==→eq status 201 t) at e2) e3
                      refl)
              ])
              | inr f ↦ rw f (raises refl)
            ])
          ])
        ])

  reuse-Ends :
      (w : World)
      → Ends w.files (
          reuse_by answer token_of b64encode
            (read_file_or_none w args.existing_token_file)
            api_url
            namespace
            args
            (stripped (split_commas args.scopes))
            w)
  unfolding probe http_request
  reuse-Ends w =
      rw (read_of_lem w args.existing_token_file)
        (elim (Option-cases (read_of w.files args.existing_token_file)) [
          | inl missing ↦ rw missing (rotate-Ends w)
          | inr (token, e1) ↦
              rw e1 (elim (Option-cases (answer w.sent (probe_request api_url token))) [
                | inl failed ↦ rw failed (raises refl)
                | inr ((status, body), e2) ↦ rw e2 (elim (Bool-cases (status == 200)) [
                  | inl t ↦ rw t (hands_off token refl (reused e1 (rw (==→eq status 200 t) at e2)))
                  | inr f ↦ rw f (rotate-Ends _)
                ])
              ])
        ])

  init_token-Ends :
      (w : World) → Ends w.files (init_token answer token_of b64encode api_url namespace args w)
  init_token-Ends w =
      elim (Bool-cases (is_nil (unknown_scopes (stripped (split_commas args.scopes))))) [
        | inl known ↦ rw known (reuse-Ends w)
        | inr unknown ↦ rw unknown (refuses refl)
      ]

-- A run of k8s-init-token ends in one of three ways: with an exception, or with the exit code 2, and
-- then no file is changed; or with the exit code 0, and then the handoff file alone is written, with a
-- token that either was in the mount of the Secret and passed the probe, or that the service issued
-- to the admin's token and whose base 64 the Secret was patched with just after.
pub cmd_k8s_init_token-Ends :
    (answer : List Request → Request → Option (ℕ × List ℕ)) (token_of : List ℕ → Option (List ℕ))
    (b64encode : List ℕ → List ℕ) (env : String → Option (List ℕ)) (args : Arguments) (w : World)
    → Ends answer token_of b64encode
        (env_get env "TITAN_TYR_URL")
        (env_get env "POD_NAMESPACE")
        args
        w.files
        (cmd_k8s_init_token answer token_of b64encode env args w)
unfolding cmd_k8s_init_token
cmd_k8s_init_token-Ends answer token_of b64encode env args w =
    let api_url = env_get env "TITAN_TYR_URL" in
    let namespace = env_get env "POD_NAMESPACE" in
    elim (Bool-cases (is_blank api_url)) [
      | inl unset ↦ rw unset (refuses refl)
      | inr set ↦ rw set (elim (Bool-cases (is_blank namespace)) [
        | inl unset ↦ rw unset (refuses refl)
        | inr set ↦ rw set (init_token-Ends answer token_of b64encode api_url namespace args w)
      ])
    ]
