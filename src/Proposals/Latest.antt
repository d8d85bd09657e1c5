-- ===== src/Proposals/Latest.antt =====
-- The version that reads return: the greatest active one.
use titan_tyr.Prelude.{
  ◌≡◌, ◌≢◌, refl, sym, Bool, true, false, ◌&&◌, none, some, List, [], ◌∷◌, arith, select, In,
  In-select, select-In, All, ◌==◌, ==→eq, eq→==, ℕ-eq, Bool-cases, inl, inr, ◌⊎◌,
}
use titan_tyr.Models.Rows.{Uuid, ContractVersion, Db}
use titan_tyr.Session.Order.{triple_irrefl, lower_trans, above_not}
use titan_tyr.Session.Versions.{
  is_active, version_of, triple_above, top_version, latest_active_contract_version,
}

-- The first row does not come behind the second.
abbrev pub NotAbove : ContractVersion → ContractVersion → Type 0
NotAbove t r = triple_above (version_of r) (version_of t) ≡ false

top_found :
    (b t : ContractVersion) (rs : List ContractVersion)
    → top_version (some b) rs ≡ some t
    → ((t ≡ b) ⊎ In t rs) × NotAbove t b × All (NotAbove t) rs
unfolding top_version
top_found b t [] h = let e : b ≡ t = cc in (inl (sym e), rw e (triple_irrefl (version_of t)), tt)
top_found b t (r ∷ rs) h = elim (Bool-cases (triple_above (version_of r) (version_of b))) [
  | inl up ↦
      let (place, low, all) = top_found r t rs (rw up at h) in
      (
        inr place,
        lower_trans _ (version_of r) (version_of b) low
            (above_not (version_of r) (version_of b) up),
        (low, all),
      )
  | inr stay ↦
      let (place, low, all) = top_found b t rs (rw stay at h) in
      (weaken place, low, (lower_trans _ (version_of b) (version_of r) low stay, all))
]
  where
    weaken : (t ≡ b) ⊎ In t rs → (t ≡ b) ⊎ ((t ≡ r) ⊎ In t rs)
    weaken (inl e) = inl e
    weaken (inr m) = inr (inr m)

top_some : (rs : List ContractVersion) (b : ContractVersion) → top_version (some b) rs ≢ none
unfolding top_version
top_some [] b h = cc
top_some (r ∷ rs) b h = top_some rs _ h

top_none :
    (rs : List ContractVersion) → top_version none rs ≡ none → (r : ContractVersion) → In r rs → ⊥
unfolding top_version
top_none [] h r m = m
top_none (q ∷ rs) h r m = top_some rs q h

top_of :
    (t : ContractVersion) (rs : List ContractVersion)
    → top_version none rs ≡ some t
    → In t rs × All (NotAbove t) rs
unfolding top_version
top_of t [] h = cc
top_of t (r ∷ rs) h = let (place, low, all) = top_found r t rs h in (place, (low, all))

abbrev pub active_of : Uuid → ContractVersion → Bool
active_of id r = r.contract_id == id && is_active r.status

-- The version that reads return is an active row of the contract, and no active row of the contract
-- has a greater triple.
pub latest_active_greatest :
    (db : Db) (id : Uuid) (t : ContractVersion)
    → latest_active_contract_version db id ≡ some t
    → In t db.contract_versions
      × (t.contract_id ≡ id)
      × (is_active t.status ≡ true)
      × All (NotAbove t) (select (active_of id) db.contract_versions)
unfolding latest_active_contract_version
latest_active_greatest db id t h =
    let (m, all) = top_of t (select (active_of id) db.contract_versions) h in
    let (in_table, test) = In-select (active_of id) t db.contract_versions m in
    (in_table, ==→eq t.contract_id id (ground arith), ground arith, all)

-- Where a contract has an active row, reads return a version.
pub latest_active_exists :
    (db : Db) (r : ContractVersion)
    → In r db.contract_versions
    → is_active r.status ≡ true
    → latest_active_contract_version db r.contract_id ≢ none
unfolding latest_active_contract_version
latest_active_exists db r m a h =
    top_none (select (active_of r.contract_id) db.contract_versions) h r (
      select-In (active_of r.contract_id) r db.contract_versions m
        (rw (eq→== r.contract_id r.contract_id refl, a)))
