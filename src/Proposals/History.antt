-- ===== src/Proposals/History.antt =====
-- src/routers/proposals.py: the published versions of a contract along sequences of requests.
use titan_tyr.Prelude.{
  ℕ, ◌≡◌, ◌≢◌, refl, sym, ap, ◌∙◌, Bool, true, false, some, List, [], ◌∷◌, ◌++◌, ok, raise_if,
  >>=-elim, ok-injective, In, All-In, select-In, Bool-cases, inl, inr, Option-cases, ℕ-eq, eq→==,
}
use titan_tyr.Models.Rows.{Uuid, ContractVersion, Db}
use titan_tyr.Session.Queries.{Call}
use titan_tyr.Session.Rewrites.{
  In-append, Keyed, IsFresh, rewrite_row-In, rewrite_row-Keyed, rewrite_row-IsFresh, snoc-Keyed,
}
use titan_tyr.Session.Versions.{
  is_active, version_of, validated, latest_any_version, not_above, add_contract_version,
  latest_active_contract_version,
}
use titan_tyr.Versioning.{Version, is_prerelease}
use titan_tyr.Versioning.Text.{parse}
use titan_tyr.Contracts.Common.{live_contract}
use titan_tyr.Proposals.{
  ProposalCreate, ProposalCreateResponse, ProposalAcceptResponse, new_proposal, activated, promoted,
  create_proposal, accept_proposal,
}
use titan_tyr.Proposals.Accept.{rows_after, found_row, add_version-ok, accept_proposal-IsAcceptable}
use titan_tyr.Proposals.Invariant.{
  IsStable, ActiveStable, create_proposal-ActiveStable, accept_proposal-ActiveStable,
}
use titan_tyr.Proposals.Latest.{NotAbove, active_of, latest_active_greatest, latest_active_exists}

abbrev version_id : ContractVersion → Uuid
version_id r = r.id

-- The rows of the versions under their primary key.
abbrev pub KeyedVersions : Db → Type 0
KeyedVersions db = Keyed version_id db.contract_versions

-- The identifier that the database draws is new to the table.
abbrev pub DrawsFresh : Call → Db → Type 0
DrawsFresh call db = IsFresh version_id call.new_id db.contract_versions

-- Requests that were accepted, in their order, on whatever contracts.
pub data Releases : Db → Db → Type 0 where
  still : (db : Db) → Releases db db
  proposes :
      (call : Call) (contract_id : Uuid) (payload : ProposalCreate) (db : Db)
      (r : ProposalCreateResponse × Db) (last : Db)
      → DrawsFresh call db
      → create_proposal call contract_id payload db ≡ ok r
      → Releases r.1 last
      → Releases db last
  accepts :
      (call : Call) (contract_id : Uuid) (version : List ℕ) (single_operator : Bool) (db : Db)
      (r : ProposalAcceptResponse × Db) (last : Db)
      → DrawsFresh call db
      → accept_proposal call contract_id version single_operator db ≡ ok r
      → Releases r.1 last
      → Releases db last

-- What a step keeps: the key of the table, the published rows, and that these are stable.
pub record Keeps (db db' : Db) : Type 0 where
  pub keyed : KeyedVersions db'
  pub published :
      (s : ContractVersion)
      → In s db.contract_versions
      → is_active s.status ≡ true
      → In s db'.contract_versions

created_rows :
    (call : Call) (contract_id : Uuid) (payload : ProposalCreate) (db : Db)
    {r : ProposalCreateResponse × Db}
    → create_proposal call contract_id payload db ≡ ok r
    → (v : Version) × (r.1.contract_versions
        ≡ db.contract_versions ++ new_proposal call contract_id payload.markdown v ∷ [])
unfolding create_proposal
created_rows call contract_id payload db h =
    >>=-elim (validated (parse true payload.version)) _ h λ v h1 k1.
      >>=-elim (live_contract db contract_id) _ k1 λ contract h2 k2.
        >>=-elim (raise_if (not_above v (latest_any_version db contract_id)) 409) _ k2 λ u3 h3 k3.
          >>=-elim (add_contract_version (new_proposal call contract_id payload.markdown v) db) _ k3
            λ db1 h4 k4. (
              v,
              ap (λ (x : ProposalCreateResponse × Db). x.1.contract_versions)
                    (sym (ok-injective k4))
                  ∙ ap (λ (x : Db). x.contract_versions) (add_version-ok _ _ h4),
            )

create_proposal-Keeps :
    (call : Call) (contract_id : Uuid) (payload : ProposalCreate) (db : Db)
    {r : ProposalCreateResponse × Db}
    → KeyedVersions db
    → DrawsFresh call db
    → create_proposal call contract_id payload db ≡ ok r
    → Keeps db r.1
create_proposal-Keeps call contract_id payload db k f h =
    let (v, e) = created_rows call contract_id payload db h in
    record {
      keyed = rw e (snoc-Keyed version_id _ db.contract_versions k f);
      published = λ s m a. rw e (In-append s db.contract_versions _ m);
    }

rows_after-Keeps :
    (call : Call) (single_operator : Bool) (contract_id : Uuid) (target : Version)
    (r : ContractVersion) (db db' : Db)
    → In r db.contract_versions
    → is_active r.status ≡ false
    → KeyedVersions db
    → DrawsFresh call db
    → db'.contract_versions ≡ rows_after call single_operator contract_id target r db
    → Keeps db db'
rows_after-Keeps call single contract_id target r db db' m idle k f h =
    let other : (s : ContractVersion)
        → In s db.contract_versions
        → is_active s.status ≡ true
        → s.id ≢ r.id =
      λ s n a e.
        let same : s ≡ r = k s r n m e in
        let t : is_active r.status ≡ true = rw (← same) a in cc (t, idle) in
    elim (Bool-cases (is_prerelease target)) [
      | inl t ↦
          let marked : ContractVersion = record r { single_operator_override = single } in
          let e = rw t at h in
          record {
            keyed = rw e (
                snoc-Keyed version_id (promoted call single contract_id target r) _
                  (rewrite_row-Keyed version_id marked db.contract_versions k)
                  (rewrite_row-IsFresh version_id marked r db.contract_versions call.new_id m refl
                    f));
            published = λ s n a. rw e (
                In-append s _ _
                  (rewrite_row-In version_id marked db.contract_versions s n (other s n a)));
          }
      | inr u ↦
          let e = rw u at h in
          record {
            keyed =
                rw e
                  (rewrite_row-Keyed version_id (activated call single r) db.contract_versions k);
            published = λ s n a. rw e (
                rewrite_row-In version_id (activated call single r) db.contract_versions s n
                  (other s n a));
          }
    ]

accept_proposal-Keeps :
    (call : Call) (contract_id : Uuid) (version : List ℕ) (single_operator : Bool) (db : Db)
    {r : ProposalAcceptResponse × Db}
    → KeyedVersions db
    → DrawsFresh call db
    → accept_proposal call contract_id version single_operator db ≡ ok r
    → Keeps db r.1
accept_proposal-Keeps call contract_id version single_operator db {r} k f h =
    let (target, row, a, rows) =
      accept_proposal-IsAcceptable call contract_id version single_operator db h in
    let (m, _, _) = found_row db contract_id target row a.row in
    rows_after-Keeps call single_operator contract_id target row db r.1 m a.row_open k f rows

-- However many proposals are created and accepted after it, on whatever contracts, a published version
-- keeps its row as it is, under the primary key and where each request draws a new identifier.
pub Releases-published :
    (db last : Db)
    → KeyedVersions db
    → Releases db last
    → (s : ContractVersion) → In s db.contract_versions
    → is_active s.status ≡ true
    → In s last.contract_versions
Releases-published _ _ k (still db) s m a = m
Releases-published _ _ k (proposes call id payload db r last f h rest) s m a =
    let kept = create_proposal-Keeps call id payload db k f h in
    Releases-published r.1 last kept.keyed rest s (kept.published s m a) a
Releases-published _ _ k (accepts call id version single db r last f h rest) s m a =
    let kept = accept_proposal-Keeps call id version single db k f h in
    Releases-published r.1 last kept.keyed rest s (kept.published s m a) a

-- No release candidate becomes active.
Releases-ActiveStable : (db last : Db) → ActiveStable db → Releases db last → ActiveStable last
Releases-ActiveStable _ _ a (still db) = a
Releases-ActiveStable _ _ a (proposes call id payload db r last f h rest) =
    Releases-ActiveStable r.1 last (create_proposal-ActiveStable call id payload db a h) rest
Releases-ActiveStable _ _ a (accepts call id version single db r last f h rest) =
    Releases-ActiveStable r.1 last (accept_proposal-ActiveStable call id version single db a h) rest

-- Under the primary key, where each request draws a new identifier and no active version is a release
-- candidate at the start, the version that reads of a contract return never goes down, however many
-- proposals are created and accepted, on whatever contracts, and it is never a release candidate.
pub Releases-latest_active :
    (db last : Db) (id : Uuid) (t : ContractVersion)
    → KeyedVersions db
    → ActiveStable db
    → Releases db last
    → latest_active_contract_version db id ≡ some t
    → (u : ContractVersion) × (latest_active_contract_version last id ≡ some u)
      × NotAbove u t
      × (is_prerelease (version_of u) ≡ false)
Releases-latest_active db last id t k stable steps h =
    let (m, named, a, _) = latest_active_greatest db id t h in
    let there = Releases-published db last k steps t m a in
    elim (Option-cases (latest_active_contract_version last id)) [
      | inl gone ↦ absurd (latest_active_exists last t there a (rw named gone))
      | inr (u, e) ↦
          let (n, _, b, best) = latest_active_greatest last id u e in
          let kept : IsStable u =
            All-In IsStable u last.contract_versions (Releases-ActiveStable db last stable steps)
              n in
          (
            u,
            e,
            All-In (NotAbove u) t _ best (
                select-In (active_of id) t last.contract_versions there
                  (rw (eq→== t.contract_id id named, a))),
            rw b at kept,
          )
    ]
