-- ===== src/Contracts/History/Events.antt =====
-- The versions of a contract's events: src/routers/contracts.py, `get_contract_history`.
use titan_tyr.Prelude.{
  In-select, ==→eq, Option-cases, ◌≡◌, ◌<◌, refl, ◌⊎◌, inl, inr, Bool, true, false, ◌&&◌, not,
  Option, none, some, List, [], ◌∷◌, ◌++◌, map, select, arith, In, All, if◌then◌else◌, ◌==◌, ℕ-eq,
}
use titan_tyr.Models.Rows.{
  Uuid, Timestamp, Actor, ContractVersion, ContractSubtypeProposal, ContractEndpointProposal,
  ContractDeletionProposal, Db,
}
use titan_tyr.Models.Kinds.{active}
use titan_tyr.Versioning.{stable}
use titan_tyr.Session.Versions.{is_active, version_of}
use titan_tyr.Versioning.Text.{show}
use titan_tyr.Texts.{codes}
use titan_tyr.Contracts.Common.{is_open}
use titan_tyr.History.{HistoryKind, Body, Entry, accepted_entry}
use titan_tyr.History.Standing.{Stands, version_at-Stands}
use titan_tyr.Contracts.History.{
  contract_body, effective_at, bump_entry, subtype_entries, endpoint_entries, deletion_entries,
  body_rows, contract_entries,
}

-- The version of an event is that of a row that stood at its time, or 0.0.0 where all are later.
abbrev pub IsDated : List Body → Entry → Type 0
IsDated rows e =
    ((r : Body) × Stands rows e.at r × (e.version ≡ show r.version))
    ⊎ (((s : Body) → In s rows → e.at < s.at) × (e.version ≡ codes "0.0.0"))

All-append : (P : Entry → Type 0) (xs ys : List Entry) → All P xs → All P ys → All P (xs ++ ys)
All-append P [] ys h k = k
All-append P (x ∷ xs) ys h k = (h.0, All-append P xs ys h.1 k)

In-map :
    (f : ContractVersion → Body) (r : ContractVersion) (rs : List ContractVersion)
    → In r rs
    → In (f r) (map f rs)
In-map f r [] h = h
In-map f r (x ∷ xs) (inl e) = inl (cc e)
In-map f r (x ∷ xs) (inr h) = inr (In-map f r xs h)

module _ (body : List Body) where
  bumps-IsDated :
      (rs : List ContractVersion)
      → ((r : ContractVersion) → In r rs → In (contract_body r) body)
      → All (IsDated body) (map bump_entry rs)
  bumps-IsDated [] h = tt
  bumps-IsDated (r ∷ rs) h = (
    inl (contract_body r, (h r (inl refl), omega arith, λ s m k. k), refl),
    bumps-IsDated rs (λ q m. h q (inr m)),
  )

  accepted-IsDated :
      (id : Uuid) (kind : HistoryKind) (t : Option Timestamp) (proposer acceptor : Actor)
      (override : Bool) (rest : List Entry)
      → All (IsDated body) rest
      → All (IsDated body) (accepted_entry body id kind t proposer acceptor override rest)
  accepted-IsDated id kind none proposer acceptor override rest h = h
  accepted-IsDated id kind (some t) proposer acceptor override rest h =
      (version_at-Stands body t, h)

  subtypes-IsDated :
      (ps : List ContractSubtypeProposal) → All (IsDated body) (subtype_entries body ps)
  subtypes-IsDated [] = tt
  subtypes-IsDated (p ∷ ps) = accepted-IsDated _ _ p.accepted_at _ _ _ _ (subtypes-IsDated ps)

  endpoints-IsDated :
      (ps : List ContractEndpointProposal) → All (IsDated body) (endpoint_entries body ps)
  endpoints-IsDated [] = tt
  endpoints-IsDated (p ∷ ps) = accepted-IsDated _ _ p.accepted_at _ _ _ _ (endpoints-IsDated ps)

  deletions-IsDated :
      (ps : List ContractDeletionProposal) → All (IsDated body) (deletion_entries body ps)
  deletions-IsDated [] = tt
  deletions-IsDated (p ∷ ps) = (
    version_at-Stands body p.created_at,
    accepted-IsDated _ _ p.accepted_at _ _ _ _ (deletions-IsDated ps),
  )

  if-IsDated :
      (b : Bool) (es : List Entry)
      → All (IsDated body) es
      → All (IsDated body) (if b then es else [])
  if-IsDated true es h = h
  if-IsDated false es h = tt

  entries-IsDated :
      (rs : List ContractVersion) (ss : List ContractSubtypeProposal)
      (es : List ContractEndpointProposal) (ds : List ContractDeletionProposal) (shown : Bool)
      → ((r : ContractVersion) → In r rs → In (contract_body r) body)
      → All (IsDated body) (
          map bump_entry rs
          ++ (subtype_entries body ss
              ++ (endpoint_entries body es ++ (if shown then deletion_entries body ds else []))))
  entries-IsDated rs ss es ds shown h =
      let last = if shown then deletion_entries body ds else [] in
      let moves = endpoint_entries body es in
      let kinds = subtype_entries body ss in
      All-append (IsDated body) (map bump_entry rs) (kinds ++ (moves ++ last)) (bumps-IsDated rs h)
        (All-append (IsDated body) kinds (moves ++ last) (subtypes-IsDated ss) (
          All-append (IsDated body) moves last (endpoints-IsDated es)
            (if-IsDated shown (deletion_entries body ds) (deletions-IsDated ds))))

-- A body row is an active version of the contract, without a tag, at the time of its acceptance or,
-- where none is recorded, of its creation.
pub record IsBody (db : Db) (id : Uuid) (b : Body) : Type 0 where
  pub row : ContractVersion
  pub stored : In row db.contract_versions
  pub of_contract : row.contract_id ≡ id
  pub activated : row.status ≡ active
  pub numbered : b.version ≡ stable (version_of row)
  pub dated : (row.accepted_at ≡ some b.at) ⊎ ((row.accepted_at ≡ none) × (row.created_at ≡ b.at))

active_status : (r : ContractVersion) → is_active r.status ≡ true → r.status ≡ active
active_status r h = ground arith

effective :
    (r : ContractVersion)
    → (r.accepted_at ≡ some (effective_at r))
      ⊎ ((r.accepted_at ≡ none) × (r.created_at ≡ effective_at r))
effective r = elim (Option-cases r.accepted_at) [
  | inl e ↦ inr (e, rw e refl)
  | inr (t, e) ↦ inl (rw e refl)
]

contract_body-IsBody :
    (db : Db) (id : Uuid) (r : ContractVersion)
    → In r (body_rows db id)
    → IsBody db id (contract_body r)
unfolding body_rows stable
contract_body-IsBody db id r m =
    let (stored, t) =
      In-select (λ (q : ContractVersion). q.contract_id == id && is_active q.status) r
        db.contract_versions m in
    record {
      row = r;
      stored = stored;
      of_contract = ==→eq r.contract_id id (ground arith);
      activated = active_status r (ground arith);
      numbered = refl;
      dated = effective r;
    }

rows-IsBody :
    (db : Db) (id : Uuid) (rs : List ContractVersion)
    → ((r : ContractVersion) → In r rs → In r (body_rows db id))
    → All (IsBody db id) (map contract_body rs)
rows-IsBody db id [] h = tt
rows-IsBody db id (r ∷ rs) h =
    (contract_body-IsBody db id r (h r (inl refl)), rows-IsBody db id rs (λ q m. h q (inr m)))

-- Every event of a contract's history has the version of a body row that stood at the event's time:
-- one that is no later than the event, and than which no other such row is later; where every body
-- row is later, the version is `0.0.0`. The body rows are active versions of the contract, each at the
-- time of its acceptance or, where none is recorded, of its creation.
pub contract_entries-IsDated :
    (db : Db) (id : Uuid) (include_deleted : Bool)
    → All (IsBody db id) (map contract_body (body_rows db id))
      × All (IsDated (map contract_body (body_rows db id))) (contract_entries db id include_deleted)
unfolding contract_entries
contract_entries-IsDated db id include_deleted =
    let rows = body_rows db id in
    let body = map contract_body rows in
    (
      rows-IsBody db id rows (λ r m. m),
      entries-IsDated body rows
          (select (λ (p : ContractSubtypeProposal). p.contract_id == id && not (is_open p.status))
            db.contract_subtype_proposals)
          (select (λ (p : ContractEndpointProposal). p.contract_id == id && not (is_open p.status))
            db.contract_endpoint_proposals)
          (select (λ (p : ContractDeletionProposal). p.contract_id == id)
            db.contract_deletion_proposals)
          include_deleted (λ r m. In-map contract_body r rows m),
    )
