-- ===== src/Contracts/Reads/Echo.antt =====
-- src/routers/contracts.py: a read of a contract after its update.
use titan_tyr.Prelude.{
  ◌≡◌, refl, sym, ap, ◌∙◌, ◌⊎◌, inl, inr, true, false, Option, none, some, Result, ok, err,
  >>=-elim, ok-injective, arith, ◌==◌, ℕ-eq, ==-refl, String,
}
use titan_tyr.Models.Rows.{Uuid, Contract, Db}
use titan_tyr.Session.Live.{get_contract_row, save_contract}
use titan_tyr.Session.Inversion.{with_contract, save_contract-ok}
use titan_tyr.Session.Rows.{get-with_contract, get_contract_row-id}
use titan_tyr.Contracts.Common.{live_contract, live_contract-ok}
use titan_tyr.Contracts.History.{shown_contract}
use titan_tyr.Contracts.Reads.{
  ContractDetail, contract_detail, get_contract, retagged, unstamped, retag_contract,
  update_contract,
}
use titan_tyr.Parts.Update.{Field, project_or_kept}

-- What an update has written when it commits.
pub retag_contract-row :
    (contract_id : Uuid) (project : Field (Option String)) (db : Db) {r : Contract × Db}
    → retag_contract contract_id project db ≡ ok r
    → (c : Contract) × (project_id : Option Uuid) × (get_contract_row db contract_id ≡ some c)
      × (c.deleted_at ≡ none)
      × (project_or_kept db project c.project_id ≡ ok project_id)
      × (r ≡ (retagged project_id c, with_contract (retagged project_id c) db))
unfolding retag_contract
retag_contract-row contract_id project db h = >>=-elim (live_contract db contract_id) _ h λ c h1 k1.
    >>=-elim (project_or_kept db project c.project_id) _ k1 λ project_id h2 k2.
      >>=-elim (save_contract (retagged project_id c) db) _ k2 λ db1 h3 k3.
        let (found, live) = (live_contract-ok db contract_id c).0 h1 in
        let (_, _, e) = save_contract-ok (retagged project_id c) db h3 in
        (
          c,
          project_id,
          found,
          live,
          h2,
          sym (ok-injective k3) ∙ ap (λ (d : Db). (retagged project_id c, d)) e,
        )

-- The row that is written is the one that is read.
read_back :
    (contract_id : Uuid) (project_id : Option Uuid) (c : Contract) (db : Db)
    → get_contract_row db contract_id ≡ some c
    → get_contract_row (with_contract (retagged project_id c) db) contract_id
      ≡ some (retagged project_id c)
read_back contract_id project_id c db h =
    let same : (c.id == contract_id) ≡ true =
      rw (get_contract_row-id db contract_id h) (==-refl contract_id) in
    get-with_contract (retagged project_id c) db contract_id ∙ rw (same, h) refl

shown_contract-live :
    (db : Db) (contract_id : Uuid) (c : Contract)
    → get_contract_row db contract_id ≡ some c
    → c.deleted_at ≡ none
    → shown_contract db contract_id false ≡ ok c
unfolding shown_contract
shown_contract-live db contract_id c h live = ground arith

result-cases {ℓ} :
    {A : Type ℓ} (m : Result A) → ((a : A) × (m ≡ ok a)) ⊎ ((fault : _) × (m ≡ err fault))
result-cases (ok a) = inl (a, refl)
result-cases (err e) = inr (e, refl)

-- The reply of an update is what a read of the contract then returns, where the contract bears no
-- stamps of a deletion.
pub get_contract-update_contract :
    (contract_id : Uuid) (project : Field (Option String)) (db : Db) (c : Contract)
    {reply : ContractDetail}
    → get_contract_row db contract_id ≡ some c
    → unstamped c ≡ c
    → (update_contract contract_id project db).0 ≡ ok reply
    → get_contract contract_id false (update_contract contract_id project db).1 ≡ ok reply
unfolding update_contract get_contract
get_contract-update_contract contract_id project db c there clean h =
    elim (result-cases (retag_contract contract_id project db)) [
      | inr (fault, e) ↦ let k : err fault ≡ ok _ = rw e at h in absurd (cc k)
      | inl (r, e) ↦
          let (c', project_id, found, live, _, written) =
            retag_contract-row contract_id project db e in
          let same : c ≡ c' = cc (there, found) in
          let row = retagged project_id c' in
          let clean' : unstamped row ≡ row = ap (retagged project_id) (rw same at clean) in
          let said : contract_detail (with_contract row db) row (unstamped row) ≡ ok _ =
            rw (e, written) at h in
          rw
            (
              e,
              written,
              shown_contract-live (with_contract row db) contract_id row
                  (read_back contract_id project_id c' db found) live,
            )
            (rw clean' at said)
    ]
