-- ===== src/Templates/Agreement.antt =====
-- src/routers/templates.py and src/routers/proposals.py: the two handshakes on versions, run side by
-- side.
use titan_tyr.Prelude.{
  ℕ, ◌≡◌, refl, sym, ap, ◌∙◌, Bool, true, ◌&&◌, not, List, [], ◌∷◌, ◌++◌, map, String, Result, ok,
  err, ◌>>=◌, raise_if, select, any, update, ◌==◌, ℕ-eq, Bool-cases, inl, inr,
}
use titan_tyr.Models.Rows.{Uuid, Template, TemplateVersion, Contract, ContractVersion, Db}
use titan_tyr.Session.Queries.{Call, scalar_one_or_none, or_raise}
use titan_tyr.Session.Versions.{
  is_active, validated, version_of, same_version, latest_any_version, max_version, not_above,
  add_contract_version, bind_columns, fits_columns,
}
use titan_tyr.Handshake.{enforce_two_party}
use titan_tyr.Versioning.{Version, stable, is_prerelease}
use titan_tyr.Versioning.Text.{parse}
use titan_tyr.Contracts.Register.{is_none}
use titan_tyr.Contracts.Common.{live_contract}
use titan_tyr.Proposals.{
  ProposalCreateResponse, ProposalAcceptResponse, create_proposal, accept_proposal, rows_of_version,
  activate, promote, with_version,
}
use titan_tyr.Templates.{
  TemplateProposalCreate, TemplateProposalCreateResponse, TemplateProposalAcceptResponse,
  template_row, create_template_proposal, accept_template_proposal, activate_template,
  promote_template, new_template_proposal, promoted_template, activated_template, template_reply,
}
use titan_tyr.Templates.Rows.{
  template_version_of, latest_any_template_version, rows_of_template_version, add_template_version,
  with_template_version,
}

-- A row of a template, as a row of the contract with the template's identifier.
abbrev pub as_contract_version : TemplateVersion → ContractVersion
as_contract_version r = record {
  id = r.id;
  contract_id = r.template_id;
  version_major = r.version_major;
  version_minor = r.version_minor;
  version_patch = r.version_patch;
  prerelease = r.prerelease;
  markdown = r.markdown;
  status = r.status;
  created_at = r.created_at;
  accepted_at = r.accepted_at;
  promoted_from_prerelease = r.promoted_from_prerelease;
  proposer_actor = r.proposer_actor;
  acceptor_actor = r.acceptor_actor;
  single_operator_override = r.single_operator_override;
}

-- The rows of all templates, read so.
abbrev pub mirrored : Db → List ContractVersion
mirrored db = map as_contract_version db.template_versions

-- What a request on templates returns and commits, read so.
abbrev pub template_outcome :
    {X Y : Type 0} → (X → Y) → Result (X × Db) → Result (Y × List ContractVersion)
template_outcome f (err e) = err e
template_outcome f (ok r) = ok (f r.0, mirrored r.1)

-- What a request on contracts returns, and the version rows that it commits.
abbrev pub contract_outcome : {Y : Type 0} → Result (Y × Db) → Result (Y × List ContractVersion)
contract_outcome (err e) = err e
contract_outcome (ok r) = ok (r.0, r.1.contract_versions)

abbrev pub as_create_reply : Uuid → TemplateProposalCreateResponse → ProposalCreateResponse
as_create_reply id r = record { contract_id = id; version = r.version }

abbrev pub as_accept_reply : Uuid → TemplateProposalAcceptResponse → ProposalAcceptResponse
as_accept_reply id r = record {
  contract_id = id;
  promoted_from_version = r.promoted_from_version;
  active_version = r.active_version;
  accepted_at = r.accepted_at;
  proposer_actor = r.proposer_actor;
  acceptor_actor = r.acceptor_actor;
  single_operator_override = r.single_operator_override;
}

module _ {A B : Type 0} (f : A → B) where
  select-map : (p : B → Bool) (xs : List A) → select p (map f xs) ≡ map f (select (λ x. p (f x)) xs)
  unfolding select
  select-map p [] = refl
  select-map p (x ∷ xs) = elim (Bool-cases (p (f x))) [
    | inl t ↦ rw (t, select-map p xs)
    | inr u ↦ rw (u, select-map p xs)
  ]

  any-map : (p : B → Bool) (xs : List A) → any p (map f xs) ≡ any (λ x. p (f x)) xs
  unfolding any
  any-map p [] = refl
  any-map p (x ∷ xs) = rw (any-map p xs)

  map-snoc : (xs : List A) (x : A) → map f (xs ++ x ∷ []) ≡ map f xs ++ f x ∷ []
  map-snoc [] x = refl
  map-snoc (y ∷ ys) x = rw (map-snoc ys x)

map-versions :
    (rs : List TemplateVersion)
    → map version_of (map as_contract_version rs) ≡ map template_version_of rs
map-versions [] = refl
map-versions (r ∷ rs) = rw (map-versions rs)

update-rows :
    (r : TemplateVersion) (rs : List TemplateVersion)
    → update
        (λ (q : ContractVersion). q.id == r.id)
        (λ _. as_contract_version r)
        (map as_contract_version rs)
      ≡ map as_contract_version (update (λ (q : TemplateVersion). q.id == r.id) (λ _. r) rs)
unfolding update
update-rows r [] = refl
update-rows r (q ∷ qs) = elim (Bool-cases (q.id == r.id)) [
  | inl t ↦ rw (t, update-rows r qs)
  | inr u ↦ rw (u, update-rows r qs)
]

module _ (db db' : Db) (same : db'.contract_versions ≡ mirrored db) where
  rows-agree :
      (id : Uuid) (v : Version)
      → rows_of_version db' id v ≡ map as_contract_version (rows_of_template_version db id v)
  unfolding rows_of_version rows_of_template_version
  rows-agree id v = rw same (select-map as_contract_version _ db.template_versions)

  latest-agrees : (id : Uuid) → latest_any_version db' id ≡ latest_any_template_version db id
  unfolding latest_any_version latest_any_template_version
  latest-agrees id = rw same (
      ap max_version (
        ap (map version_of) (select-map as_contract_version _ db.template_versions)
        ∙ map-versions _))

  with-agrees :
      (r : TemplateVersion)
      → (with_version (as_contract_version r) db').contract_versions
        ≡ mirrored (with_template_version r db)
  with-agrees r = rw same (update-rows r db.template_versions)

  add-agrees :
      {X Y : Type 0} (f : X → Y) (x : X) (r : TemplateVersion)
      → template_outcome f (add_template_version r db >>= λ db1. ok (x, db1))
        ≡ contract_outcome
            (add_contract_version (as_contract_version r) db' >>= λ db1. ok (f x, db1))
  unfolding add_template_version add_contract_version
  add-agrees f x r =
      let e : any
            (λ (q : ContractVersion).
              q.contract_id == r.template_id && same_version (version_of q) (template_version_of r))
            db'.contract_versions
          ≡ any
              (λ (q : TemplateVersion).
                q.template_id == r.template_id
                && same_version (template_version_of q) (template_version_of r))
              db.template_versions =
        rw same (any-map as_contract_version _ db.template_versions) in
      elim (Bool-cases (fits_columns (template_version_of r))) [
        | inr wide ↦ rw wide refl
        | inl fit ↦
            rw fit
              (elim (Bool-cases (
                any
                  (λ (q : TemplateVersion).
                    q.template_id == r.template_id
                    && same_version (template_version_of q) (template_version_of r))
                  db.template_versions)) [
                    | inl t ↦ rw (e, t) refl
                    | inr u ↦
                        rw (e, u)
                          (rw same (
                            ap (λ rows. ok (f x, rows))
                              (map-snoc as_contract_version db.template_versions r)))
                  ])
      ]

-- One step that both take, then agreeing rests.
bind-agrees :
    {X Y Z : Type 0} (f : X → Y) (m : Result Z) (g : Z → Result (X × Db)) (h : Z → Result (Y × Db))
    → ((z : Z) → template_outcome f (g z) ≡ contract_outcome (h z))
    → template_outcome f (m >>= g) ≡ contract_outcome (m >>= h)
bind-agrees f (err e) g h k = refl
bind-agrees f (ok z) g h k = k z

-- The one row of a version.
found-agrees :
    {X Y : Type 0} (f : X → Y) (rs : List TemplateVersion) (g : TemplateVersion → Result (X × Db))
    (h : ContractVersion → Result (Y × Db))
    → ((r : TemplateVersion)
        → template_outcome f (g r) ≡ contract_outcome (h (as_contract_version r)))
    → template_outcome f (scalar_one_or_none rs >>= λ found. or_raise 404 found >>= g)
      ≡ contract_outcome
          (scalar_one_or_none (map as_contract_version rs) >>= λ found. or_raise 404 found >>= h)
unfolding scalar_one_or_none
found-agrees f [] g h k = refl
found-agrees f (r ∷ []) g h k = k r
found-agrees f (r ∷ s ∷ rs) g h k = refl

-- No row of a version.
none-agrees :
    {X Y : Type 0} (f : X → Y) (rs : List TemplateVersion) (g : Result (X × Db))
    (h : Result (Y × Db))
    → template_outcome f g ≡ contract_outcome h
    → template_outcome f
        (scalar_one_or_none rs >>= λ found. raise_if (not (is_none found)) 409 >>= λ u. g)
      ≡ contract_outcome (
          scalar_one_or_none (map as_contract_version rs) >>= λ found.
          raise_if (not (is_none found)) 409 >>= λ u. h)
unfolding scalar_one_or_none
none-agrees f [] g h k = k
none-agrees f (r ∷ []) g h k = refl
none-agrees f (r ∷ s ∷ rs) g h k = refl

-- Where a template and a live contract have one identifier, and the rows of all contracts are those of
-- all templates, a proposal to the template fails as the same proposal to the contract does, or
-- returns the same version and commits the same rows.
pub create_template_proposal-create_proposal :
    (call : Call) (kind : String) (payload : TemplateProposalCreate) (db db' : Db)
    (template : Template) (contract : Contract)
    → template_row db kind ≡ ok template
    → live_contract db' template.id ≡ ok contract
    → db'.contract_versions ≡ mirrored db
    → template_outcome (as_create_reply template.id) (create_template_proposal call kind payload db)
      ≡ contract_outcome (
          create_proposal call template.id
            (record { version = payload.version; markdown = payload.markdown })
            db')
unfolding create_template_proposal create_proposal
create_template_proposal-create_proposal call kind payload db db' template contract t c same =
    rw (t, c)
      (bind-agrees (as_create_reply template.id) (validated (parse true payload.version)) _ _ λ v.
        rw (latest-agrees db db' same template.id) (
          bind-agrees (as_create_reply template.id)
            (raise_if (not_above v (latest_any_template_version db template.id)) 409) _ _
            λ u.
              add-agrees db db' same (as_create_reply template.id) _
                (new_template_proposal call template.id payload.markdown v)))

promote-agrees :
    (call : Call) (single_operator : Bool) (template : Template) (kind : String) (target : Version)
    (r : TemplateVersion) (db db' : Db)
    → db'.contract_versions ≡ mirrored db
    → template_outcome
        (as_accept_reply template.id)
        (promote_template call single_operator template kind target r db)
      ≡ contract_outcome
          (promote call single_operator template.id target (as_contract_version r) db')
unfolding promote_template promote
promote-agrees call single template kind target r db db' same =
    rw (rows-agree db db' same template.id (stable target)) (
      none-agrees (as_accept_reply template.id)
        (rows_of_template_version db template.id (stable target)) _ _
        (let marked : TemplateVersion = record r { single_operator_override = single } in
          add-agrees (with_template_version marked db)
            (with_version (as_contract_version marked) db') (with-agrees db db' same marked)
            (as_accept_reply template.id) _ (promoted_template call single template.id target r)))

-- Where a template and a live contract have one identifier, and the rows of all contracts are those of
-- all templates, accepting a proposal to the template fails as accepting it on the contract does, or
-- returns the same reply but for the name and commits the same rows.
pub accept_template_proposal-accept_proposal :
    (call : Call) (kind : String) (version : List ℕ) (single_operator : Bool) (db db' : Db)
    (template : Template) (contract : Contract)
    → template_row db kind ≡ ok template
    → live_contract db' template.id ≡ ok contract
    → db'.contract_versions ≡ mirrored db
    → template_outcome
        (as_accept_reply template.id)
        (accept_template_proposal call kind version single_operator db)
      ≡ contract_outcome (accept_proposal call template.id version single_operator db')
unfolding accept_template_proposal accept_proposal activate_template activate
accept_template_proposal-accept_proposal call kind version single db db' template contract t c
      same =
    let f : TemplateProposalAcceptResponse → ProposalAcceptResponse = as_accept_reply template.id in
    rw (t, c)
      (bind-agrees f (validated (parse true version)) _ _ λ target.
        bind-agrees f (bind_columns target) _ _ λ y.
          rw (rows-agree db db' same template.id target) (
            found-agrees f (rows_of_template_version db template.id target) _ _ λ r.
              bind-agrees f (raise_if (is_active r.status) 409) _ _ λ u.
                bind-agrees f (enforce_two_party r.proposer_actor call.x_actor single) _ _ λ w.
                  elim (Bool-cases (is_prerelease target)) [
                    | inl rc ↦ rw rc (promote-agrees call single template kind target r db db' same)
                    | inr final ↦ rw final (
                        ap (λ rows. ok (f (template_reply call single kind target target r), rows))
                          (sym (with-agrees db db' same (activated_template call single r))))
                  ]))
