-- ===== src/Cors/Origins.antt =====
-- The origins that a configuration of CORS lists: src/cors.py.
use titan_tyr.Prelude.{
  ℕ, Bool, true, false, ◌&&◌, ◌||◌, not, Option, none, some, List, [], ◌∷◌, String, any, In, All,
  Bool-cases, if◌then◌else◌, ◌==◌, ℕ-eq, ◌≡◌, ◌≢◌, ◌⊎◌, ◌↔◌, inl, inr, refl, sym, ◌∙◌, arith,
}
use titan_tyr.Texts.{codes, is_space, skip_spaces, same_text, same_text-eq}
use titan_tyr.Cors.{
  CorsConfig, default_allow_origin_regex, Url, Resolved, resolved, invalid_cors_origin, value_error,
  ◌>>=◌, is_blank, no_host, rstrip, strip, put_first, split_commas, stripped, any_origin,
  allowed_origins, validate_url, validate_origin, validate_origins, env_get, resolve_origins,
  resolve_cors_config,
}

-- A text without a character.
abbrev Lacks : ℕ → List ℕ → Type 0
Lacks c text = ¬ (In c text)

any-Lacks : (x : ℕ) (text : List ℕ) → any (λ c. c == x) text ≡ false → Lacks x text
unfolding any
any-Lacks x [] h m = m
any-Lacks x (c ∷ cs) h (inl here) = ground arith
any-Lacks x (c ∷ cs) h (inr later) = any-Lacks x cs (ground arith) later

Lacks-any : (x : ℕ) (text : List ℕ) → Lacks x text → any (λ c. c == x) text ≡ false
unfolding any
Lacks-any x [] h = refl
Lacks-any x (c ∷ cs) h = elim (Bool-cases (c == x)) [
  | inl t ↦ absurd (h (inl (ground arith)))
  | inr f ↦ rw (f, Lacks-any x cs (λ m. h (inr m))) refl
]

skip_spaces-Lacks : (x : ℕ) (text : List ℕ) → Lacks x text → Lacks x (skip_spaces text)
unfolding skip_spaces
skip_spaces-Lacks x [] h = h
skip_spaces-Lacks x (c ∷ cs) h = elim (Bool-cases (is_space c)) [
  | inl t ↦ rw t (skip_spaces-Lacks x cs (λ m. h (inr m)))
  | inr f ↦ rw f h
]

rstrip-Lacks : (x : ℕ) (text : List ℕ) → Lacks x text → Lacks x (rstrip text)
unfolding rstrip
rstrip-Lacks x [] h = h
rstrip-Lacks x (c ∷ cs) h = elim (Bool-cases (is_space c && is_blank (rstrip cs))) [
  | inl t ↦ rw t (λ m. m)
  | inr f ↦ rw f (λ m. elim m [
    | inl here ↦ h (inl here)
    | inr later ↦ rstrip-Lacks x cs (λ n. h (inr n)) later
  ])
]

strip-Lacks : (x : ℕ) (text : List ℕ) → Lacks x text → Lacks x (strip text)
unfolding strip
strip-Lacks x text h = rstrip-Lacks x (skip_spaces text) (skip_spaces-Lacks x text h)

put_first-Lacks :
    (c : ℕ) (pieces : List (List ℕ))
    → c ≢ b','
    → All (Lacks b',') pieces
    → All (Lacks b',') (put_first c pieces)
put_first-Lacks c [] n h = ((λ m. elim m [ inl here ↦ ground arith | inr later ↦ later ]), tt)
put_first-Lacks c (p ∷ ps) n h =
    ((λ m. elim m [ inl here ↦ ground arith | inr later ↦ h.0 later ]), h.1)

-- No piece has the separator.
split_commas-Lacks : (text : List ℕ) → All (Lacks b',') (split_commas text)
unfolding split_commas
split_commas-Lacks [] = ((λ m. m), tt)
split_commas-Lacks (c ∷ cs) = elim (Bool-cases (c == b',')) [
  | inl t ↦ rw t ((λ m. m), split_commas-Lacks cs)
  | inr f ↦ rw f (put_first-Lacks c (split_commas cs) (λ e. ground arith) (split_commas-Lacks cs))
]

-- An entry as the list takes it: not empty, and without a comma.
abbrev IsEntry : List ℕ → Type 0
IsEntry o = (is_blank o ≡ false) × Lacks b',' o

stripped-IsEntry : (ss : List (List ℕ)) → All (Lacks b',') ss → All IsEntry (stripped ss)
unfolding stripped
stripped-IsEntry [] h = tt
stripped-IsEntry (s ∷ ss) h = elim (Bool-cases (is_blank (strip s))) [
  | inl t ↦ rw t (stripped-IsEntry ss h.1)
  | inr f ↦ rw f ((f, strip-Lacks b',' s h.0), stripped-IsEntry ss h.1)
]

allowed_origins-IsEntry : (env : String → Option (List ℕ)) → All IsEntry (allowed_origins env)
unfolding allowed_origins
allowed_origins-IsEntry env =
    let raw = strip (env_get env "CORS_ALLOWED_ORIGINS") in
    elim (Bool-cases (is_blank raw)) [
      | inl t ↦ rw t tt
      | inr f ↦ rw f (stripped-IsEntry (split_commas raw) (split_commas-Lacks raw))
    ]

is_blank-eq : (s : List ℕ) → is_blank s ≡ true → s ≡ []
is_blank-eq [] h = refl
is_blank-eq (c ∷ cs) h = cc

no_host-eq :
    (h : Option (List ℕ))
    → no_host h ≡ false
    → (host : List ℕ) × ((h ≡ some host) × (is_blank host ≡ false))
no_host-eq none h = cc
no_host-eq (some host) h = (host, (refl, h))

-- A bind that did not raise.
>>=-elim {ℓ κ μ} :
    {A : Type ℓ} {B : Type κ} {C : Type μ} (m : Resolved A) (f : A → Resolved B) {b : B}
    → (m >>= f) ≡ resolved b
    → ((a : A) → m ≡ resolved a → f a ≡ resolved b → C)
    → C
>>=-elim (resolved a) f h k = k a refl h
>>=-elim invalid_cors_origin f h k = cc
>>=-elim value_error f h k = cc

resolved-injective {ℓ} : {A : Type ℓ} {a b : A} → resolved a ≡ resolved b → a ≡ b
resolved-injective h = cc

All-both :
    {A : Type 0} (P Q : A → Type 0) (xs : List A) → All P xs → All Q xs → All (λ x. P x × Q x) xs
All-both P Q [] h k = tt
All-both P Q (x ∷ xs) h k = ((h.0, k.0), All-both P Q xs h.1 k.1)

-- A guard that did not raise.
passed {ℓ} :
    {A : Type ℓ} (b : Bool) (rest : Resolved A) {a : A}
    → (if b then invalid_cors_origin else rest) ≡ resolved a
    → (b ≡ false) × (rest ≡ resolved a)
passed true rest h = cc
passed false rest h = (refl, h)

true_of : (a b : Bool) → not (a || b) ≡ false → (a ≡ true) ⊎ (b ≡ true)
true_of true b h = inl refl
true_of false b h = inr (ground arith)

all_blank :
    (p q r t : List ℕ)
    → (not (is_blank p) || (not (is_blank q) || (not (is_blank r) || not (is_blank t)))) ≡ false
    → (p ≡ []) × ((q ≡ []) × ((r ≡ []) × (t ≡ [])))
all_blank [] [] [] [] h = (refl, (refl, (refl, refl)))
all_blank (_ ∷ _) q r t h = cc
all_blank [] (_ ∷ _) r t h = cc
all_blank [] [] (_ ∷ _) t h = cc
all_blank [] [] [] (_ ∷ _) h = cc

module _ (urlparse : List ℕ → Option Url) where
  -- A scheme, a host and perhaps a port, and no wildcard.
  pub record IsBareUrl (origin : List ℕ) : Type 0 where
    pub url : Url
    pub read : urlparse origin ≡ some url
    pub web : (url.scheme ≡ codes "http") ⊎ (url.scheme ≡ codes "https")
    pub hosted : (host : List ℕ) × ((url.hostname ≡ some host) × (is_blank host ≡ false))
    pub no_path : url.path ≡ []
    pub no_params : url.params ≡ []
    pub no_query : url.query ≡ []
    pub no_fragment : url.fragment ≡ []
    pub no_wildcard : Lacks b'*' origin

  validate_url-IsBareUrl :
      (o : List ℕ) (parsed : Option Url) {v : List ℕ}
      → urlparse o ≡ parsed
      → validate_url urlparse o parsed ≡ resolved v
      → (v ≡ o) × IsBareUrl o
  validate_url-IsBareUrl o none e h = cc
  validate_url-IsBareUrl o (some u) e h =
      let (scheme, h1) = passed _ _ h in
      let (host, h2) = passed _ _ h1 in
      let (bare, h3) = passed _ _ h2 in
      let (star, h4) = passed _ _ h3 in
      let (p, (q, (r, t))) = all_blank u.path u.params u.query u.fragment bare in
      (
        cc,
        record {
          url = u;
          read = e;
          web =
              elim (true_of (same_text u.scheme (codes "http")) (same_text u.scheme (codes "https"))
                scheme) [
                  | inl http ↦ inl (same_text-eq u.scheme (codes "http") http)
                  | inr https ↦ inr (same_text-eq u.scheme (codes "https") https)
                ];
          hosted = no_host-eq u.hostname host;
          no_path = p;
          no_params = q;
          no_query = r;
          no_fragment = t;
          no_wildcard = any-Lacks b'*' o star;
        },
      )

  validate_origin-IsBareUrl :
      (o : List ℕ) {v : List ℕ} → validate_origin urlparse o ≡ resolved v → (v ≡ o) × IsBareUrl o
  unfolding validate_origin
  validate_origin-IsBareUrl o h =
      let (_, rest) = passed (same_text o (codes "*")) (validate_url urlparse o (urlparse o)) h in
      validate_url-IsBareUrl o (urlparse o) refl rest

  validate_origins-IsBareUrl :
      (os vs : List (List ℕ))
      → validate_origins urlparse os ≡ resolved vs
      → (vs ≡ os) × All IsBareUrl os
  unfolding validate_origins
  validate_origins-IsBareUrl [] vs h = (cc, tt)
  validate_origins-IsBareUrl (o ∷ os) vs h = >>=-elim (validate_origin urlparse o) _ h λ v e1 h1.
      >>=-elim (validate_origins urlparse os) _ h1 λ rest e2 h2.
        let (same, bare) = validate_origin-IsBareUrl o e1 in
        let (sames, bares) = validate_origins-IsBareUrl os rest e2 in (cc, (bare, bares))

  -- The default pattern and no list, or no pattern and a list of the entries of the variable, each
  -- of them bare, of which there is at least one.
  pub data IsDecided (env : String → Option (List ℕ)) : CorsConfig → Type 0 where
    by_default :
        allowed_origins env ≡ []
        → IsDecided env
            (record { allow_origins = none; allow_origin_regex = some default_allow_origin_regex })
    by_list :
        (allowed_origins env ≢ [])
        → All (λ o. IsBareUrl o × IsEntry o) (allowed_origins env)
        → IsDecided env
            (record { allow_origins = some (allowed_origins env); allow_origin_regex = none })

  resolve_origins-IsDecided :
      (env : String → Option (List ℕ)) (os : List (List ℕ)) {c : CorsConfig}
      → allowed_origins env ≡ os
      → resolve_origins urlparse os ≡ resolved c
      → IsDecided env c
  resolve_origins-IsDecided env [] e h = rw (← resolved-injective h) (by_default e)
  resolve_origins-IsDecided env (o ∷ os) e h =
      >>=-elim (validate_origins urlparse (o ∷ os)) _ h λ vs e1 h1.
        let (same, bare) = validate_origins-IsBareUrl (o ∷ os) vs e1 in
        let listed : vs ≡ allowed_origins env = same ∙ sym e in
        let entries =
          All-both IsBareUrl IsEntry (allowed_origins env) (rw e bare)
            (allowed_origins-IsEntry env) in
        rw (← resolved-injective h1) (rw listed (by_list (λ n. cc) entries))

  IsBareUrl-validate_url :
      (o : List ℕ) → IsBareUrl o → validate_url urlparse o (urlparse o) ≡ resolved o
  unfolding same_text
  IsBareUrl-validate_url o b =
      let (host, (hosted, filled)) = b.hosted in
      let star = Lacks-any b'*' o b.no_wildcard in
      rw (b.read) (elim b.web [
        | inl http ↦
            rw (http, hosted, filled, b.no_path, b.no_params, b.no_query, b.no_fragment, star) refl
        | inr https ↦
            rw (https, hosted, filled, b.no_path, b.no_params, b.no_query, b.no_fragment, star) refl
      ])

  IsBareUrl-validate_origin : (o : List ℕ) → IsBareUrl o → validate_origin urlparse o ≡ resolved o
  unfolding validate_origin
  IsBareUrl-validate_origin o b = elim (Bool-cases (same_text o (codes "*"))) [
    | inl t ↦ absurd (b.no_wildcard (rw (same_text-eq o (codes "*") t) (inl refl)))
    | inr f ↦ rw f (IsBareUrl-validate_url o b)
  ]

  IsBareUrl-validate_origins :
      (os : List (List ℕ))
      → All (λ o. IsBareUrl o × IsEntry o) os
      → validate_origins urlparse os ≡ resolved os
  unfolding validate_origins
  IsBareUrl-validate_origins [] h = refl
  IsBareUrl-validate_origins (o ∷ os) h =
      rw (IsBareUrl-validate_origin o h.0.0, IsBareUrl-validate_origins os h.1) refl

  IsBareUrl-resolve_origins :
      (os : List (List ℕ))
      → os ≢ []
      → All (λ o. IsBareUrl o × IsEntry o) os
      → resolve_origins urlparse os
        ≡ resolved (record { allow_origins = some os; allow_origin_regex = none })
  IsBareUrl-resolve_origins [] n h = absurd (n refl)
  IsBareUrl-resolve_origins (o ∷ os) n h = rw (IsBareUrl-validate_origins (o ∷ os) h) refl

  IsDecided-resolve_origins :
      (env : String → Option (List ℕ)) (c : CorsConfig)
      → IsDecided env c
      → resolve_origins urlparse (allowed_origins env) ≡ resolved c
  IsDecided-resolve_origins env _ (by_default e) = rw e refl
  IsDecided-resolve_origins env _ (by_list n h) =
      IsBareUrl-resolve_origins (allowed_origins env) n h

  -- Unless CORS_ALLOW_ANY_ORIGIN asks for every origin, the resolution ends with a configuration
  -- exactly where this is the default pattern alone and CORS_ALLOWED_ORIGINS has no entry, or the
  -- list of its entries alone, in their order, of which there is at least one, each of them a http
  -- or https URL with a host, without path, parameters, query and fragment, an asterisk or a comma.
  pub resolve_cors_config-IsDecided :
      (env : String → Option (List ℕ)) (c : CorsConfig)
      → any_origin env ≡ false
      → (resolve_cors_config urlparse env ≡ resolved c) ↔ IsDecided env c
  unfolding resolve_cors_config
  resolve_cors_config-IsDecided env c closed = (
    (λ h. resolve_origins-IsDecided env (allowed_origins env) refl (rw closed at h)),
    (λ d. rw closed (IsDecided-resolve_origins env c d)),
  )
