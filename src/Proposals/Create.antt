-- ===== src/Proposals/Create.antt =====
-- Which versions `create_proposal` of src/routers/proposals.py takes.
use titan_tyr.Prelude.{
  ℕ, ◌≡◌, refl, ap, true, false, ◌&&◌, Option, none, some, List, [], ◌∷◌, ◌++◌, map, ok, raise_if,
  >>=-elim, arith, select, any, All, ◌==◌, ℕ-eq, Bool-cases, inl, inr,
}
use titan_tyr.Models.Rows.{Uuid, Contract, ContractVersion, Db}
use titan_tyr.Session.Queries.{Call}
use titan_tyr.Session.Inversion.{raise_if-ok, validated-ok}
use titan_tyr.Session.Versions.{
  validated, version_of, same_version, same_tag, max_version, latest_any_version, not_above,
  add_contract_version, fits_columns,
}
use titan_tyr.Texts.{same_text-eq}
use titan_tyr.Versioning.{Version, lt}
use titan_tyr.Versioning.Order.{Below, max_from-Below, Below-max_from, lt_irrefl}
use titan_tyr.Versioning.Text.{parse, show}
use titan_tyr.Contracts.Common.{live_contract}
use titan_tyr.Proposals.{ProposalCreate, ProposalCreateResponse, new_proposal, create_proposal}

abbrev RowBelow : Version → ContractVersion → Type 0
RowBelow v r = lt (version_of r) v ≡ true

-- Every version of the contract, active or proposed, is below `v`.
abbrev pub AllBelow : Db → Uuid → Version → Type 0
AllBelow db contract_id v =
    All (RowBelow v)
      (select (λ (r : ContractVersion). r.contract_id == contract_id) db.contract_versions)

All-map :
    (v : Version) (rs : List ContractVersion)
    → All (Below v) (map version_of rs)
    → All (RowBelow v) rs
All-map v [] h = tt
All-map v (r ∷ rs) h = (h.0, All-map v rs h.1)

map-All :
    (v : Version) (rs : List ContractVersion)
    → All (RowBelow v) rs
    → All (Below v) (map version_of rs)
map-All v [] h = tt
map-All v (r ∷ rs) h = (h.0, map-All v rs h.1)

above_max :
    (v : Version) (rs : List ContractVersion)
    → not_above v (max_version (map version_of rs)) ≡ false
    → All (RowBelow v) rs
above_max v [] h = tt
above_max v (r ∷ rs) h =
    let (a, b) = max_from-Below v (version_of r) (map version_of rs) (ground arith) in
    (a, All-map v rs b)

max_above :
    (v : Version) (rs : List ContractVersion)
    → All (RowBelow v) rs
    → not_above v (max_version (map version_of rs)) ≡ false
max_above v [] h = refl
max_above v (r ∷ rs) h =
    rw (Below-max_from v (version_of r) (map version_of rs) h.0 (map-All v rs h.1))

same_tag-eq : (a b : Option (List ℕ)) → same_tag a b ≡ true → a ≡ b
same_tag-eq none none h = refl
same_tag-eq none (some b) h = cc
same_tag-eq (some a) none h = cc
same_tag-eq (some a) (some b) h = ap some (same_text-eq a b h)

-- Equal columns are equal versions.
pub same_version-eq : (w v : Version) → same_version w v ≡ true → w ≡ v
unfolding same_version
same_version-eq w v h = ground (arith, same_tag-eq w.prerelease v.prerelease)

same_version-lt : (w v : Version) → lt w v ≡ true → same_version w v ≡ false
same_version-lt w v h = elim (Bool-cases (same_version w v)) [
  | inl t ↦ let up : lt v v ≡ true = rw (same_version-eq w v t) at h in cc (up, lt_irrefl v)
  | inr f ↦ f
]

no_duplicate :
    (v : Version) (contract_id : Uuid) (rs : List ContractVersion)
    → All (RowBelow v) (select (λ (r : ContractVersion). r.contract_id == contract_id) rs)
    → any
        (λ (r : ContractVersion). r.contract_id == contract_id && same_version (version_of r) v)
        rs
      ≡ false
unfolding select any
no_duplicate v i [] h = refl
no_duplicate v i (r ∷ rs) h = elim (Bool-cases (r.contract_id == i)) [
  | inl t ↦
      let k : All (RowBelow v) (r ∷ select (λ (q : ContractVersion). q.contract_id == i) rs) =
        rw t at h in
      rw (t, same_version-lt (version_of r) v k.0) (no_duplicate v i rs k.1)
  | inr f ↦ rw f (no_duplicate v i rs (rw f at h))
]

-- The version of a created proposal parses, its contract is live, and it is above all versions of the
-- contract.
pub create_proposal-above :
    (call : Call) (contract_id : Uuid) (payload : ProposalCreate) (db : Db)
    {r : ProposalCreateResponse × Db}
    → create_proposal call contract_id payload db ≡ ok r
    → (v : Version) × (contract : Contract) × (parse true payload.version ≡ some v)
      × (live_contract db contract_id ≡ ok contract)
      × AllBelow db contract_id v
unfolding create_proposal
create_proposal-above call contract_id payload db h =
    >>=-elim (validated (parse true payload.version)) _ h λ v h1 k1.
      >>=-elim (live_contract db contract_id) _ k1 λ contract h2 k2.
        >>=-elim (raise_if (not_above v (latest_any_version db contract_id)) 409) _ k2 λ u3 h3 k3. (
          v,
          contract,
          validated-ok _ v h1,
          h2,
          unfold latest_any_version in above_max v _ (raise_if-ok _ _ h3),
        )

-- A version above all those of a live contract, whose numbers fit their columns, can be proposed: the
-- row is added, and the unique key of the table does not refuse it.
create_proposal-accepts :
    (call : Call) (contract_id : Uuid) (payload : ProposalCreate) (db : Db) (v : Version)
    (contract : Contract)
    → parse true payload.version ≡ some v
    → live_contract db contract_id ≡ ok contract
    → fits_columns v ≡ true
    → AllBelow db contract_id v
    → create_proposal call contract_id payload db
      ≡ ok (
        record { contract_id = contract_id; version = show v },
        record db {
          contract_versions =
              db.contract_versions ++ new_proposal call contract_id payload.markdown v ∷ [];
        },
      )
unfolding create_proposal latest_any_version add_contract_version
create_proposal-accepts call contract_id payload db v contract parsed live fits below =
    rw (parsed, live, max_above v _ below)
      (rw (fits, no_duplicate v contract_id db.contract_versions below))
