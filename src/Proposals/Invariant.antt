-- ===== src/Proposals/Invariant.antt =====
-- Release candidates among the active rows, under the handlers of src/routers/proposals.py.
use titan_tyr.Prelude.{
  ℕ, ◌≡◌, refl, ap, ◌∙◌, Bool, true, false, ◌&&◌, List, [], ◌∷◌, ◌++◌, ok, raise_if, >>=-elim,
  ok-injective, All, All-update, All-snoc, ◌==◌, ℕ-eq, Bool-cases, inl, inr,
}
use titan_tyr.Models.Rows.{Uuid, ContractVersion, Db}
use titan_tyr.Session.Queries.{Call}
use titan_tyr.Session.Versions.{
  is_active, validated, version_of, latest_any_version, not_above, add_contract_version,
}
use titan_tyr.Versioning.{Version, is_prerelease}
use titan_tyr.Versioning.Text.{parse}
use titan_tyr.Contracts.Common.{live_contract}
use titan_tyr.Proposals.{
  ProposalCreate, ProposalCreateResponse, ProposalAcceptResponse, new_proposal, promoted,
  create_proposal, accept_proposal,
}
use titan_tyr.Proposals.Accept.{rows_after, found_row, add_version-ok, accept_proposal-IsAcceptable}

-- An active row has no prerelease.
abbrev pub IsStable : ContractVersion → Type 0
IsStable r = (is_active r.status && is_prerelease (version_of r)) ≡ false

abbrev pub ActiveStable : Db → Type 0
ActiveStable db = All IsStable db.contract_versions

rows_after-IsStable :
    (call : Call) (single_operator : Bool) (contract_id : Uuid) (target : Version)
    (r : ContractVersion) (db : Db)
    → is_active r.status ≡ false
    → version_of r ≡ target
    → ActiveStable db
    → All IsStable (rows_after call single_operator contract_id target r db)
rows_after-IsStable call single_operator contract_id target r db idle ev h =
    elim (Bool-cases (is_prerelease target)) [
      | inl t ↦ rw t (
          All-snoc IsStable _ (promoted call single_operator contract_id target r)
            (All-update IsStable (λ (q : ContractVersion). q.id == r.id) _ db.contract_versions h
              (λ a m k e. rw idle refl))
            (unfold is_prerelease in refl))
      | inr f ↦ rw f (
          All-update IsStable (λ (q : ContractVersion). q.id == r.id) _ db.contract_versions h
            (λ a m k e. ap is_prerelease ev ∙ f))
    ]

-- Where no active row is a release candidate, none is after an accepted proposal.
pub accept_proposal-ActiveStable :
    (call : Call) (contract_id : Uuid) (version : List ℕ) (single_operator : Bool) (db : Db)
    {reply : ProposalAcceptResponse × Db}
    → ActiveStable db
    → accept_proposal call contract_id version single_operator db ≡ ok reply
    → ActiveStable reply.1
accept_proposal-ActiveStable call contract_id version single_operator db {reply} s h =
    let (target, r, a, rows) =
      accept_proposal-IsAcceptable call contract_id version single_operator db h in
    let (m, ec, ev) = found_row db contract_id target r a.row in
    rw rows (rows_after-IsStable call single_operator contract_id target r db a.row_open ev s)

-- Where no active row is a release candidate, none is after a created proposal.
pub create_proposal-ActiveStable :
    (call : Call) (contract_id : Uuid) (payload : ProposalCreate) (db : Db)
    {r : ProposalCreateResponse × Db}
    → ActiveStable db
    → create_proposal call contract_id payload db ≡ ok r
    → ActiveStable r.1
unfolding create_proposal
create_proposal-ActiveStable call contract_id payload db s h =
    >>=-elim (validated (parse true payload.version)) _ h λ v h1 k1.
      >>=-elim (live_contract db contract_id) _ k1 λ contract h2 k2.
        >>=-elim (raise_if (not_above v (latest_any_version db contract_id)) 409) _ k2 λ u3 h3 k3.
          >>=-elim (add_contract_version (new_proposal call contract_id payload.markdown v) db) _ k3
            λ db1 h4 k4.
              let e : db1.contract_versions
                  ≡ db.contract_versions ++ new_proposal call contract_id payload.markdown v ∷ [] =
                ap (λ (x : Db). x.contract_versions) (add_version-ok _ _ h4) in
              rw (← ok-injective k4) (rw e (All-snoc IsStable _ _ s refl))
