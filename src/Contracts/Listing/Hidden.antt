-- ===== src/Contracts/Listing/Hidden.antt =====
-- src/routers/parts.py and src/routers/contracts.py: the lists and searches after a deletion.
use titan_tyr.Prelude.{
  ℕ, ◌≡◌, refl, sym, ap, ◌∙◌, ◌⊎◌, inl, inr, Bool, true, false, ◌&&◌, Option, none, some, List, [],
  ◌∷◌, Result, ok, >>=-elim, ok-injective, arith, In, In-select, ℕ-eq, String,
}
use titan_tyr.Models.Rows.{Uuid, Part, Contract, ContractVersion, Db}
use titan_tyr.Session.Queries.{Call, attribute}
use titan_tyr.Session.Live.{is_live, get_part_row}
use titan_tyr.Session.Versions.{latest_active_contract_version}
use titan_tyr.Session.Rows.{get_contract_row-id}
use titan_tyr.Session.Rewrites.{In-rewrite_row}
use titan_tyr.Pagination.{Codec, Page}
use titan_tyr.Pagination.Members.{In-list_page}
use titan_tyr.Contracts.Register.{resolve_part}
use titan_tyr.Contracts.Deletion.{ContractDeletionAcceptResponse, deleted, accept_contract_deletion}
use titan_tyr.Contracts.Deletion.Accept.{accept_contract_deletion-IsDeletion}
use titan_tyr.Contracts.Listing.{
  Filters, passes, Joined, join_row, joined_rows, ContractListItem, contract_item, listed_at,
  listed_id, listed_contracts, list_active_contracts, ContractSearchResult, between, found_contract,
  search_results, search_contracts, ContractReply, listed, searched, ContractQuery, list_or_search,
  alone, label_misplaced, filters_of, list_or_search_contracts,
}
use titan_tyr.Session.Filters.{valid_filter, contract_subtypes, connection_types, project_filter}
use titan_tyr.Pagination.{validate_limit}
use titan_tyr.Prelude.{raise_if}

In-join_row :
    (c : Contract) (v : Option ContractVersion) (o p : Option Part) (rest : List Joined)
    (j : Joined)
    → In j (join_row c v o p rest)
    → (j.contract ≡ c) ⊎ In j rest
In-join_row c none o p rest j m = inr m
In-join_row c (some v) none p rest j m = inr m
In-join_row c (some v) (some o) none rest j m = inr m
In-join_row c (some v) (some o) (some p) rest j (inl here) =
    inl (ap (λ (q : Joined). q.contract) here)
In-join_row c (some v) (some o) (some p) rest j (inr later) = inr later

In-joined_rows :
    (db : Db) (cs : List Contract) (j : Joined) → In j (joined_rows db cs) → In j.contract cs
unfolding joined_rows
In-joined_rows db [] j m = absurd m
In-joined_rows db (c ∷ cs) j m =
    elim (In-join_row c (latest_active_contract_version db c.id) (get_part_row db c.owner_part_id)
      (get_part_row db c.counterparty_part_id) (joined_rows db cs) j m) [
        | inl e ↦ inl e
        | inr k ↦ inr (In-joined_rows db cs j k)
      ]

-- A listed contract is a row that the filters keep.
In-list_active_contracts :
    (codec : Codec) (after : Option (List ℕ)) (limit : ℕ) (filters : Filters) (db : Db)
    {page : Page ContractListItem}
    → list_active_contracts codec after limit filters db ≡ ok page
    → (item : ContractListItem) → In item page.results
    → (c : Contract) × In c db.contracts × (passes filters c ≡ true) × (item.contract_id ≡ c.id)
unfolding list_active_contracts listed_contracts
In-list_active_contracts codec after limit filters db h item m =
    let (j, k, e) =
      In-list_page listed_at listed_id codec (contract_item db) limit after
        (listed_contracts filters db) h item m in
    let (n, t) = In-select (passes filters) j.contract db.contracts (In-joined_rows db _ j k) in
    (j.contract, n, t, ap (λ (i : ContractListItem). i.contract_id) e)

passes-live :
    (filters : Filters) (c : Contract)
    → filters.include_deleted ≡ false
    → passes filters c ≡ true
    → is_live c.deleted_at ≡ true
unfolding passes
passes-live filters c e h = ground arith

-- After an accepted deletion every row of the contract bears its stamp.
stamped :
    (call : Call) (contract_id proposal_id : Uuid) (single_operator : Bool) (db : Db)
    {r : ContractDeletionAcceptResponse × Db}
    → accept_contract_deletion call contract_id proposal_id single_operator db ≡ ok r
    → (c : Contract) → In c r.1.contracts
    → c.id ≡ contract_id
    → is_live c.deleted_at ≡ false
stamped call contract_id proposal_id single_operator db {r} h c m e =
    let (contract, p, d) =
      accept_contract_deletion-IsDeletion call contract_id proposal_id single_operator db h in
    let same : contract.id ≡ contract_id = get_contract_row-id db contract_id d.contract_row in
    let row = deleted call single_operator contract p in
    elim (In-rewrite_row (λ (q : Contract). q.id) row db.contracts c (rw d.contracts_after at m)) [
      | inl gone ↦ rw gone refl
      | inr old ↦ absurd (old.1 (e ∙ sym same))
    ]

In-found_contract :
    (db : Db) (c : Contract) (v : Option ContractVersion)
    (rest : Result (List ContractSearchResult)) {results : List ContractSearchResult}
    → found_contract db c v rest ≡ ok results
    → (x : ContractSearchResult) → In x results
    → (x.contract_id ≡ c.id)
      ⊎ ((later : List ContractSearchResult) × (rest ≡ ok later) × In x later)
In-found_contract db c none rest h x m = inr (_, h, m)
In-found_contract db c (some v) rest h x m =
    >>=-elim (attribute (get_part_row db c.owner_part_id)) _ h λ owner h1 k1.
      >>=-elim (attribute (get_part_row db c.counterparty_part_id)) _ k1 λ cp h2 k2.
        >>=-elim rest _ k2 λ later h3 k3. elim (rw (← ok-injective k3) at m) [
          | inl here ↦ inl (ap (λ (q : ContractSearchResult). q.contract_id) here)
          | inr k ↦ inr (later, h3, k)
        ]

In-search_results :
    (db : Db) (cs : List Contract) {results : List ContractSearchResult}
    → search_results db cs ≡ ok results
    → (x : ContractSearchResult) → In x results
    → (c : Contract) × In c cs × (x.contract_id ≡ c.id)
unfolding search_results
In-search_results db [] h x m = absurd (rw (← ok-injective h) at m)
In-search_results db (c ∷ cs) h x m =
    elim (In-found_contract db c (latest_active_contract_version db c.id) (search_results db cs) h x
      m) [
        | inl e ↦ (c, inl refl, e)
        | inr (later, k, n) ↦ let (d, i, e) = In-search_results db cs k x n in (d, inr i, e)
      ]

-- A found contract is a row that the filters keep.
In-search_contracts :
    (filters : Filters) (owner counterparty : String) (db : Db)
    {results : List ContractSearchResult}
    → search_contracts filters owner counterparty db ≡ ok results
    → (x : ContractSearchResult) → In x results
    → (c : Contract) × In c db.contracts × (passes filters c ≡ true) × (x.contract_id ≡ c.id)
unfolding search_contracts
In-search_contracts filters owner counterparty db h x m =
    >>=-elim (resolve_part db owner) _ h λ a h1 k1.
      >>=-elim (resolve_part db counterparty) _ k1 λ b h2 k2.
        let (c, k, e) = In-search_results db _ k2 x m in
        let (n, t) =
          In-select (λ (d : Contract). between a.id b.id d && passes filters d) c db.contracts k in
        (c, n, ground arith, e)

-- A reply that has the contract among its results.
abbrev pub Shows : ContractReply → Uuid → Type 0
Shows (listed page) id = (item : ContractListItem) × In item page.results × (item.contract_id ≡ id)
Shows (searched results) id = (x : ContractSearchResult) × In x results × (x.contract_id ≡ id)

Shows-list_or_search :
    (codec : Codec) (q : ContractQuery) (o p : Option String) (filters : Filters) (db : Db)
    {reply : ContractReply} (id : Uuid)
    → list_or_search codec q o p filters db ≡ ok reply
    → Shows reply id
    → (c : Contract) × In c db.contracts × (passes filters c ≡ true) × (c.id ≡ id)
Shows-list_or_search codec q none none filters db id h s =
    >>=-elim (validate_limit q.limit) _ h λ limit h1 k1.
      >>=-elim (list_active_contracts codec q.after limit filters db) _ k1 λ page h2 k2.
        let (item, m, e) = rw (← ok-injective k2) at s in
        let (c, k, t, same) = In-list_active_contracts codec q.after limit filters db h2 item m in
        (c, k, t, sym same ∙ e)
Shows-list_or_search codec q (some owner) (some counterparty) filters db id h s =
    >>=-elim (search_contracts filters owner counterparty db) _ h λ results h1 k1.
      let (x, m, e) = rw (← ok-injective k1) at s in
      let (c, k, t, same) = In-search_contracts filters owner counterparty db h1 x m in
      (c, k, t, sym same ∙ e)
Shows-list_or_search codec q none (some p) filters db id h s = cc
Shows-list_or_search codec q (some o) none filters db id h s = cc

-- After an accepted deletion no list and no search of contracts, whatever its filters and its cursor,
-- shows the contract, unless deleted rows are asked for.
pub accept_contract_deletion-list_or_search_contracts :
    (call : Call) (contract_id proposal_id : Uuid) (single_operator : Bool) (db : Db)
    {r : ContractDeletionAcceptResponse × Db} (codec : Codec) (q : ContractQuery)
    {reply : ContractReply}
    → accept_contract_deletion call contract_id proposal_id single_operator db ≡ ok r
    → q.include_deleted ≡ false
    → list_or_search_contracts codec q r.1 ≡ ok reply
    → ¬ Shows reply contract_id
unfolding list_or_search_contracts
accept_contract_deletion-list_or_search_contracts call contract_id proposal_id single_operator db
      {r} codec q h live asked shown =
    >>=-elim (raise_if (alone q.owner q.counterparty) 422) _ asked λ u h1 k1.
      >>=-elim (valid_filter contract_subtypes q.subtype) _ k1 λ subtype h2 k2.
        >>=-elim (valid_filter connection_types q.connection_type) _ k2 λ label h3 k3.
          >>=-elim (raise_if (label_misplaced label subtype) 422) _ k3 λ w h4 k4.
            >>=-elim (project_filter r.1 q.project) _ k4 λ project h5 k5.
              let (c, k, t, same) =
                Shows-list_or_search codec q q.owner q.counterparty
                  (filters_of q subtype label project) r.1 contract_id k5 shown in
              let dead = stamped call contract_id proposal_id single_operator db h c k same in
              let alive = passes-live (filters_of q subtype label project) c live t in
              cc (dead, alive)
