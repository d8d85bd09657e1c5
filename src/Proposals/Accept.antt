-- ===== src/Proposals/Accept.antt =====
-- Who accepts a proposal and what an acceptance writes.
use titan_tyr.Prelude.{
  ℕ, ◌≡◌, refl, sym, ap, ◌∙◌, Bool, true, false, ◌&&◌, not, some, List, [], ◌∷◌, ◌++◌, ok, raise_if,
  >>=-elim, ok-injective, arith, update, In, In-select, ◌==◌, ℕ-eq, ==→eq, eq→==, Bool-cases, inl,
  inr, if◌then◌else◌,
}
use titan_tyr.Models.Kinds.{active}
use titan_tyr.Models.Rows.{Uuid, ContractVersion, Db}
use titan_tyr.Session.Queries.{Call, scalar_one_or_none, or_raise}
use titan_tyr.Session.Inversion.{raise_if-ok, validated-ok, or_raise-ok, scalar-one}
use titan_tyr.Session.Rewrites.{In-snoc}
use titan_tyr.Session.Versions.{
  is_active, validated, version_of, same_version, bind_columns, add_contract_version,
}
use titan_tyr.Handshake.{enforce_two_party}
use titan_tyr.Handshake.Laws.{TwoParty, enforce_two_party_lem}
use titan_tyr.Versioning.{Version, stable, is_prerelease}
use titan_tyr.Versioning.Text.{parse}
use titan_tyr.Contracts.Register.{is_none}
use titan_tyr.Contracts.Common.{live_contract}
use titan_tyr.Proposals.{
  ProposalAcceptResponse, rows_of_version, activated, promoted, with_version, activate, promote,
  accept_proposal,
}
use titan_tyr.Proposals.Create.{same_version-eq}

-- What an accepted proposal was: the one row of its version, not active, under the two-party rule.
pub record IsAcceptable (call : Call) (contract_id : Uuid) (version : List ℕ)
    (single_operator : Bool) (db : Db) (target : Version) (r : ContractVersion) : Type 0 where
  pub parsed : parse true version ≡ some target
  pub row : rows_of_version db contract_id target ≡ r ∷ []
  pub row_open : is_active r.status ≡ false
  pub two_party : TwoParty r.proposer_actor call.x_actor single_operator

pub add_version-ok :
    (r : ContractVersion) (db : Db) {db1 : Db}
    → add_contract_version r db ≡ ok db1
    → db1 ≡ record db { contract_versions = db.contract_versions ++ r ∷ [] }
unfolding add_contract_version
add_version-ok r db h = ground arith

-- The rows after the acceptance of `r`.
abbrev pub rows_after : Call → Bool → Uuid → Version → ContractVersion → Db → List ContractVersion
rows_after call single_operator contract_id target r db =
    if is_prerelease target
    then (with_version (record r { single_operator_override = single_operator })
        db).contract_versions
      ++ promoted call single_operator contract_id target r ∷ []
    else (with_version (activated call single_operator r) db).contract_versions

module _ (call : Call) (single_operator : Bool) (contract_id : Uuid) (target : Version)
    (r : ContractVersion) (db : Db) {reply : ProposalAcceptResponse × Db} where
  promote-rows :
      promote call single_operator contract_id target r db ≡ ok reply
      → reply.1.contract_versions
        ≡ (with_version
            (record r { single_operator_override = single_operator })
            db).contract_versions
          ++ promoted call single_operator contract_id target r ∷ []
  unfolding promote
  promote-rows h =
      >>=-elim (scalar_one_or_none (rows_of_version db contract_id (stable target))) _ h
        λ found h1 k1. >>=-elim (raise_if (not (is_none found)) 409) _ k1 λ u2 h2 k2.
          >>=-elim
            (add_contract_version (promoted call single_operator contract_id target r)
              (with_version (record r { single_operator_override = single_operator }) db))
            _ k2
            λ db2 h3 k3.
              ap (λ (x : ProposalAcceptResponse × Db). x.1.contract_versions)
                (sym (ok-injective k3))
              ∙ ap (λ (x : Db). x.contract_versions) (add_version-ok _ _ h3)

  step-rows :
      (if is_prerelease target
          then promote call single_operator contract_id target r db
          else activate call single_operator contract_id target r db)
        ≡ ok reply
      → reply.1.contract_versions ≡ rows_after call single_operator contract_id target r db
  unfolding activate
  step-rows h = elim (Bool-cases (is_prerelease target)) [
    | inl t ↦ rw t (promote-rows (rw t at h))
    | inr f ↦ rw f (
        ap (λ (x : ProposalAcceptResponse × Db). x.1.contract_versions)
          (sym (ok-injective (rw f at h))))
  ]

-- An accepted proposal was acceptable, and the rows after it are those before with its row
-- rewritten and, for a release candidate, the promoted row added.
pub accept_proposal-IsAcceptable :
    (call : Call) (contract_id : Uuid) (version : List ℕ) (single_operator : Bool) (db : Db)
    {reply : ProposalAcceptResponse × Db}
    → accept_proposal call contract_id version single_operator db ≡ ok reply
    → (target : Version) × (r : ContractVersion) × IsAcceptable call contract_id version
        single_operator db target r
      × (reply.1.contract_versions ≡ rows_after call single_operator contract_id target r db)
unfolding accept_proposal
accept_proposal-IsAcceptable call contract_id version single_operator db h =
    >>=-elim (live_contract db contract_id) _ h λ contract h1 k1.
      >>=-elim (validated (parse true version)) _ k1 λ target h2 k2.
        >>=-elim (bind_columns target) _ k2 λ u h2b k2b.
          >>=-elim (scalar_one_or_none (rows_of_version db contract_id target)) _ k2b λ found h3 k3.
            >>=-elim (or_raise 404 found) _ k3 λ r h4 k4.
              >>=-elim (raise_if (is_active r.status) 409) _ k4 λ u5 h5 k5.
                >>=-elim (enforce_two_party r.proposer_actor call.x_actor single_operator) _ k5
                  λ u6 h6 k6. (
                    target,
                    r,
                    record {
                      parsed = validated-ok _ target h2;
                      row = scalar-one _ (rw (← or_raise-ok 404 found h4) h3);
                      row_open = raise_if-ok _ _ h5;
                      two_party = (enforce_two_party_lem _ _ _).0 h6;
                    },
                    step-rows call single_operator contract_id target r db k6,
                  )

-- The row that is found is a row of the contract, at the version that the path names.
pub found_row :
    (db : Db) (contract_id : Uuid) (target : Version) (r : ContractVersion)
    → rows_of_version db contract_id target ≡ r ∷ []
    → In r db.contract_versions × (r.contract_id ≡ contract_id) × (version_of r ≡ target)
unfolding rows_of_version
found_row db contract_id target r h =
    let (m, t) =
      In-select
        (λ (q : ContractVersion).
          q.contract_id == contract_id && same_version (version_of q) target)
        r db.contract_versions (rw h (inl refl)) in
    (
      m,
      ==→eq r.contract_id contract_id (ground arith),
      same_version-eq (version_of r) target (ground arith),
    )

In-rewritten :
    (r s : ContractVersion) (rs : List ContractVersion)
    → s.id ≡ r.id
    → In r rs
    → In s (update (λ (q : ContractVersion). q.id == s.id) (λ _. s) rs)
unfolding update
In-rewritten r s [] e m = absurd m
In-rewritten r s (q ∷ qs) e (inl here) =
    let same : (q.id == s.id) ≡ true =
      eq→== _ _ (ap (λ (x : ContractVersion). x.id) (sym here) ∙ sym e) in
    rw same (inl refl)
In-rewritten r s (q ∷ qs) e (inr later) = inr (In-rewritten r s qs e later)

not_rc : (v : Version) → is_prerelease v ≡ false → stable v ≡ v
unfolding is_prerelease stable
not_rc v h = ground arith

-- The stable version of the accepted proposal is active, in a row of the contract.
abbrev pub Published : Call → Uuid → Version → Db → Type 0
Published call contract_id target db =
    (s : ContractVersion) × In s db.contract_versions
    × (s.contract_id ≡ contract_id)
    × (s.status ≡ active)
    × (version_of s ≡ stable target)
    × (s.accepted_at ≡ some call.now)

published :
    (call : Call) (single_operator : Bool) (contract_id : Uuid) (target : Version)
    (r : ContractVersion) (db db' : Db)
    → In r db.contract_versions
    → r.contract_id ≡ contract_id
    → version_of r ≡ target
    → db'.contract_versions ≡ rows_after call single_operator contract_id target r db
    → Published call contract_id target db'
unfolding stable
published call single_operator contract_id target r db db' m ec ev h =
    elim (Bool-cases (is_prerelease target)) [
      | inl t ↦
          let e = rw t at h in
          (
            promoted call single_operator contract_id target r,
            rw e (In-snoc _ _),
            refl,
            refl,
            refl,
            refl,
          )
      | inr f ↦
          let e = rw f at h in
          (
            activated call single_operator r,
            rw e (In-rewritten r (activated call single_operator r) db.contract_versions refl m),
            ec,
            refl,
            ev ∙ sym (unfold stable in not_rc target f),
            refl,
          )
    ]

-- An acceptance makes the stable version of its proposal active, stamped with the time of the call.
pub accept_proposal-Published :
    (call : Call) (contract_id : Uuid) (version : List ℕ) (single_operator : Bool) (db : Db)
    {reply : ProposalAcceptResponse × Db}
    → accept_proposal call contract_id version single_operator db ≡ ok reply
    → (target : Version) × (parse true version ≡ some target)
      × Published call contract_id target reply.1
accept_proposal-Published call contract_id version single_operator db {reply} h =
    let (target, r, a, rows) =
      accept_proposal-IsAcceptable call contract_id version single_operator db h in
    let (m, ec, ev) = found_row db contract_id target r a.row in
    (target, a.parsed, published call single_operator contract_id target r db reply.1 m ec ev rows)
