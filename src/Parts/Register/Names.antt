-- ===== src/Parts/Register/Names.antt =====
-- Which registrations of parts are accepted; a name that is registered again after its part was
-- deleted.
use titan_tyr.Prelude.{
  ◌≡◌, refl, sym, ap, ◌∙◌, true, false, ◌&&◌, not, Option, none, some, List, select-snoc,
  select-alone, [], ◌∷◌, ◌++◌, ok, err, multiple_results_found, raise_if, >>=-elim, ok-injective,
  arith, any, any-and, any-select_nil, ◌==◌, ==-refl, ℕ-eq, String-eq,
}
use titan_tyr.Models.Rows.{Uuid, Part, PartVersion, Db}
use titan_tyr.Session.Queries.{Call, scalar_one_or_none}
use titan_tyr.Session.Live.{is_live, live_parts_named, parts_named, part_clashes, add_part}
use titan_tyr.Session.Versions.{
  validated, part_version_of, same_version, fits_columns, latest_part_version, top_part_version,
  add_part_version,
}
use titan_tyr.Session.Projects.{resolve_project_slug}
use titan_tyr.Versioning.{Version}
use titan_tyr.Versioning.Text.{parse, show}
use titan_tyr.Contracts.Register.{is_none, resolve_part}
use titan_tyr.Contracts.Register.Written.{parse-untagged}
use titan_tyr.Parts.Common.{locked_part}
use titan_tyr.Parts.Register.{
  PartCreate, PartCreateResponse, new_part, first_part_version, register_part,
}

-- What the row of a new part holds, column by column.
pub record IsNewPart (call : Call) (payload : PartCreate) (project_id : Option Uuid) (p : Part)
    : Type 0 where
  pub identified : p.id ≡ call.new_id
  pub named : p.name ≡ payload.name
  pub kind : p.subtype ≡ payload.subtype
  pub repo : p.repo_uri ≡ payload.repo_uri
  pub tracker : p.issue_tracker_uri ≡ payload.issue_tracker_uri
  pub known_as : p.aliases ≡ payload.aliases
  pub tagged : p.project_id ≡ project_id
  pub owned : p.owner_actor ≡ call.x_actor
  pub created : p.created_at ≡ call.server_now
  pub live : p.deleted_at ≡ none

-- What its first version holds.
pub record IsFirstPartVersion (call : Call) (payload : PartCreate) (version : Version)
    (r : PartVersion) : Type 0 where
  pub of_part : r.part_id ≡ call.new_id
  pub numbered : part_version_of r ≡ version
  pub body : r.markdown ≡ payload.markdown
  pub created : r.created_at ≡ call.server_now

-- The first version of a part is its latest.
latest-first :
    (r : PartVersion) (rows : List PartVersion) (db : Db)
    → db.part_versions ≡ rows ++ r ∷ []
    → any (λ (q : PartVersion). q.part_id == r.part_id) rows ≡ false
    → latest_part_version db r.part_id ≡ some r
unfolding latest_part_version top_part_version
latest-first r rows db e fresh = rw e (
    rw
      (select-alone (λ (q : PartVersion). q.part_id == r.part_id) rows r fresh (==-refl r.part_id)))

-- A live part that is added is found by its name, where no other live part has it.
resolves :
    (db db1 : Db) (p : Part)
    → db1.parts ≡ db.parts ++ p ∷ []
    → live_parts_named db p.name ≡ []
    → p.deleted_at ≡ none
    → resolve_part db1 p.name ≡ ok p
unfolding resolve_part live_parts_named scalar_one_or_none
resolves db db1 p e free live =
    let here : (p.name == p.name && is_live p.deleted_at) ≡ true = rw (==-refl p.name, live) refl in
    rw (
      e,
      select-snoc (λ (q : Part). q.name == p.name && is_live q.deleted_at) db.parts p here,
      free,
    )

module _ (call : Call) (payload : PartCreate) (version : Version) (project_id : Option Uuid)
    (db : Db) where
  unclashed :
      live_parts_named db payload.name ≡ []
      → part_clashes (new_part call payload project_id) db.parts ≡ false
  unfolding live_parts_named part_clashes
  unclashed h =
      any-select_nil (λ (q : Part). q.name == payload.name && is_live q.deleted_at)
        (λ (q : Part). not (q.id == call.new_id)) db.parts h

  unversioned :
      any (λ (r : PartVersion). r.part_id == call.new_id) db.part_versions ≡ false
      → any
          (λ (r : PartVersion).
            r.part_id == call.new_id
            && same_version
                (part_version_of r)
                (part_version_of (first_part_version call payload version)))
          db.part_versions
        ≡ false
  unversioned h = any-and (λ (r : PartVersion). r.part_id == call.new_id) _ db.part_versions h

-- A registration with a stable version whose numbers fit their columns, a name that no live part has
-- and a known project is accepted, where the new identifier has no versions: the unique keys do not
-- refuse its rows. It adds one part, which is live, with the columns that were asked for, owned by the
-- caller, and is found by its name; and one version of it, the one that the payload's text names, with
-- the payload's body, which is then the latest of the part.
pub register_part-accepts :
    (call : Call) (payload : PartCreate) (db : Db) (version : Version) (project_id : Option Uuid)
    → parse false payload.version ≡ some version
    → fits_columns version ≡ true
    → live_parts_named db payload.name ≡ []
    → resolve_project_slug db payload.project ≡ ok project_id
    → any (λ (r : PartVersion). r.part_id == call.new_id) db.part_versions ≡ false
    → (p : Part) × (r : PartVersion) × (db1 : Db) × (db1
        ≡ record db { parts = db.parts ++ p ∷ []; part_versions = db.part_versions ++ r ∷ [] })
      × (register_part call payload db
          ≡ ok (
            record {
              id = call.new_id;
              name = payload.name;
              subtype = payload.subtype;
              repo_uri = payload.repo_uri;
              issue_tracker_uri = payload.issue_tracker_uri;
              aliases = payload.aliases;
              version = show version;
              markdown = payload.markdown;
              updated_at = call.server_now;
              owner_actor = call.x_actor;
              project = payload.project;
            },
            db1,
          ))
      × IsNewPart call payload project_id p
      × IsFirstPartVersion call payload version r
      × (resolve_part db1 payload.name ≡ ok p)
      × (latest_part_version db1 call.new_id ≡ some r)
unfolding register_part scalar_one_or_none add_part add_part_version
register_part-accepts call payload db version project_id parsed fits free known fresh =
    let p = new_part call payload project_id in
    let r = first_part_version call payload version in
    let db1 : Db = record db {
      parts = db.parts ++ p ∷ [];
      part_versions = db.part_versions ++ r ∷ [];
    } in
    (
      p,
      r,
      db1,
      refl,
      rw (parsed, free, known)
          (rw (
            unclashed call payload version project_id db free,
            fits,
            unversioned call payload version project_id db fresh,
          )),
      record {
        identified = refl;
        named = refl;
        kind = refl;
        repo = refl;
        tracker = refl;
        known_as = refl;
        tagged = refl;
        owned = refl;
        created = refl;
        live = refl;
      },
      record {
        of_part = refl;
        numbered =
            ap (λ t. record version { prerelease = t })
              (sym (parse-untagged payload.version version parsed));
        body = refl;
        created = refl;
      },
      resolves db db1 p refl free refl,
      latest-first r db.part_versions db1 refl fresh,
    )

rows_after :
    (call : Call) (payload : PartCreate) (db : Db) {r : PartCreateResponse × Db}
    → register_part call payload db ≡ ok r
    → (project_id : Option Uuid) × (r.1.parts ≡ db.parts ++ new_part call payload project_id ∷ [])
unfolding register_part add_part add_part_version
rows_after call payload db h =
    >>=-elim (validated (parse false payload.version)) _ h λ version h1 k1.
      >>=-elim (scalar_one_or_none (live_parts_named db payload.name)) _ k1 λ existing h2 k2.
        >>=-elim (raise_if (not (is_none existing)) 409) _ k2 λ u3 h3 k3.
          >>=-elim (resolve_project_slug db payload.project) _ k3 λ project_id h4 k4.
            >>=-elim (add_part (new_part call payload project_id) db) _ k4 λ db1 h5 k5.
              >>=-elim (add_part_version (first_part_version call payload version) db1) _ k5
                λ db2 h6 k6.
                  let one : db1.parts ≡ db.parts ++ new_part call payload project_id ∷ [] =
                    ground arith in
                  let two : db2.parts ≡ db1.parts = ground arith in
                  (
                    project_id,
                    ap (λ (x : PartCreateResponse × Db). x.1.parts) (sym (ok-injective k6))
                        ∙ (two ∙ one),
                  )

two_rows :
    {A : Type 0} (a b : A) (rest : List A)
    → scalar_one_or_none (a ∷ rest ++ b ∷ []) ≡ err multiple_results_found
unfolding scalar_one_or_none
two_rows a b [] = refl
two_rows a b (x ∷ rest) = refl

-- Where a part is registered under a name that some row already has, the lookup by which the
-- handlers of parts find a name raises: it sees both rows.
pub register_part-locked_part :
    (call : Call) (payload : PartCreate) (db : Db) (old : Part) (rest : List Part)
    {r : PartCreateResponse × Db}
    → parts_named db payload.name ≡ old ∷ rest
    → register_part call payload db ≡ ok r
    → locked_part r.1 payload.name ≡ err multiple_results_found
unfolding locked_part parts_named
register_part-locked_part call payload db old rest named h =
    let (project_id, e) = rows_after call payload db h in
    rw e (
      rw (
        select-snoc (λ (q : Part). q.name == payload.name) db.parts
            (new_part call payload project_id) (==-refl payload.name),
        named,
        two_rows old (new_part call payload project_id) rest,
      ))
