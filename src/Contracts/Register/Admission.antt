-- ===== src/Contracts/Register/Admission.antt =====
-- Which registrations of contracts are accepted, and what they write.
use titan_tyr.Prelude.{
  ◌≡◌, ◌≢◌, refl, any, Bool, true, false, Option, none, some, [], ◌∷◌, ◌++◌, String, ok, raise_if,
  not, ◌==◌, In, In-select, any, inl, ◌&&◌, ℕ-eq, ==-refl, ne→==, String-eq, >>=-elim, arith, ==→eq,
  sym, ap,
}
use titan_tyr.Models.Rows.{Part, Contract, ContractVersion, Uuid, Db}
use titan_tyr.Rules.Pairs.{Admits}
use titan_tyr.Session.Queries.{Call, scalar_one_or_none}
use titan_tyr.Session.Inversion.{raise_if-ok, validated-ok}
use titan_tyr.Session.Keys.{KeyedParts, one_row}
use titan_tyr.Session.Live.{live_parts_named, connection_type_fits, is_live}
use titan_tyr.Session.Versions.{validated, fits_columns, latest_active_contract_version}
use titan_tyr.Session.Projects.{resolve_project_slug}
use titan_tyr.Versioning.{Version}
use titan_tyr.Versioning.Text.{parse, show}
use titan_tyr.Contracts.Register.Checks.{
  resolve_part-live, connection_type-fits, register_endpoints-Admits, not_found, add_contract-ok,
  latest-first, add_contract_version-ok,
}
use titan_tyr.Contracts.Register.Written.{IsNewContract, IsFirstVersion, parse-untagged}
use titan_tyr.Contracts.Register.{
  ContractCreate, ContractCreateResponse, resolve_part, check_connection_type,
  check_register_endpoints, new_contract, first_version, contracts_with_key, register_contract,
  is_none,
}

-- What a registration asks of its payload, of the two parts, and of the database.
pub record IsAdmissible (call : Call) (payload : ContractCreate) (db : Db)
    (owner counterparty : Part) (version : Version) (project_id : Option Uuid) : Type 0 where
  pub versioned : parse false payload.version ≡ some version
  pub ends_differ : payload.owner_part ≢ payload.counterparty_part
  pub labelled : connection_type_fits payload.subtype payload.connection_type ≡ true
  pub owner_live : live_parts_named db payload.owner_part ≡ owner ∷ []
  pub counterparty_live : live_parts_named db payload.counterparty_part ≡ counterparty ∷ []
  pub ends_admitted :
      Admits payload.subtype payload.connection_type owner.subtype counterparty.subtype
  pub key_free :
      contracts_with_key db (new_contract call payload owner.id counterparty.id none) ≡ []
  pub project_known : resolve_project_slug db payload.project ≡ ok project_id

-- An accepted registration was admissible.
pub register_contract-IsAdmissible :
    (call : Call) (payload : ContractCreate) (db : Db) {r : ContractCreateResponse × Db}
    → register_contract call payload db ≡ ok r
    → (owner counterparty : Part) × (version : Version) × (project_id : Option Uuid) × IsAdmissible
        call payload db owner counterparty version project_id
unfolding register_contract
register_contract-IsAdmissible call payload db h =
    >>=-elim (validated (parse false payload.version)) _ h λ v h1 k1.
      >>=-elim (raise_if (payload.owner_part == payload.counterparty_part) 422) _ k1 λ u2 h2 k2.
        >>=-elim (check_connection_type payload.subtype payload.connection_type) _ k2 λ u3 h3 k3.
          >>=-elim (resolve_part db payload.owner_part) _ k3 λ owner h4 k4.
            >>=-elim (resolve_part db payload.counterparty_part) _ k4 λ counterparty h5 k5.
              >>=-elim
                (check_register_endpoints payload.subtype payload.connection_type owner.subtype
                  counterparty.subtype)
                _ k5
                λ u6 h6 k6.
                  >>=-elim
                    (scalar_one_or_none (
                      contracts_with_key db
                        (new_contract call payload owner.id counterparty.id none)))
                    _ k6
                    λ found h7 k7. >>=-elim (raise_if (not (is_none found)) 409) _ k7 λ u8 h8 k8.
                      >>=-elim (resolve_project_slug db payload.project) _ k8 λ project_id h9 k9. (
                        owner,
                        counterparty,
                        v,
                        project_id,
                        record {
                          versioned = validated-ok _ v h1;
                          ends_differ =
                              ground (arith, raise_if-ok _ _ h2, ==-refl payload.owner_part);
                          labelled = (connection_type-fits _ _).0 h3;
                          owner_live = (resolve_part-live db _ owner).0 h4;
                          counterparty_live = (resolve_part-live db _ counterparty).0 h5;
                          ends_admitted = (register_endpoints-Admits _ _ _ _).0 h6;
                          key_free = not_found _ found h7 (raise_if-ok _ _ h8);
                          project_known = h9;
                        },
                      )

abbrev names : String → Part → Bool
names name p = p.name == name && is_live p.deleted_at

found_named :
    (db : Db) (name : String) (p : Part)
    → live_parts_named db name ≡ p ∷ []
    → In p db.parts × (p.name ≡ name)
unfolding live_parts_named
found_named db name p h =
    let (m, t) = In-select (names name) p db.parts (rw h (inl refl)) in
    (m, ==→eq p.name name (ground arith))

-- Two parts of different names have different identifiers.
ends_apart :
    {call : Call} {payload : ContractCreate} {db : Db} {owner counterparty : Part}
    {version : Version} {project_id : Option Uuid}
    → KeyedParts db
    → IsAdmissible call payload db owner counterparty version project_id
    → (owner.id == counterparty.id) ≡ false
ends_apart {call} {payload} {db} {owner} {counterparty} keyed a =
    ne→== owner.id counterparty.id λ e.
      let (mo, eo) = found_named db _ owner a.owner_live in
      let (mc, ec) = found_named db _ counterparty a.counterparty_live in
      a.ends_differ (cc (eo, ec, one_row db.parts keyed owner counterparty mo mc e))

-- Where no two parts have one identifier, the new contract's identifier has no versions yet and the
-- numbers of the version fit their columns, an admissible registration is accepted: the constraints of
-- the database do not refuse its rows. It adds one contract, which is live, between the two parts, of
-- the kind, with the label and the project that were asked for, owned by the caller; and one version
-- of it, the one that the payload's text names, active, with the payload's body, which reads of the
-- contract then return.
pub register_contract-accepts :
    (call : Call) (payload : ContractCreate) (db : Db) (owner counterparty : Part)
    (version : Version) (project_id : Option Uuid)
    → KeyedParts db
    → any (λ (r : ContractVersion). r.contract_id == call.new_id) db.contract_versions ≡ false
    → fits_columns version ≡ true
    → IsAdmissible call payload db owner counterparty version project_id
    → (c : Contract) × (r : ContractVersion) × (db1 : Db) × (db1 ≡ record db {
      contracts = db.contracts ++ c ∷ [];
      contract_versions = db.contract_versions ++ r ∷ [];
    })
      × (register_contract call payload db
          ≡ ok (
            record {
              contract_id = call.new_id;
              owner = payload.owner_part;
              counterparty = payload.counterparty_part;
              subtype = payload.subtype;
              connection_type = payload.connection_type;
              version = show version;
              project = payload.project;
            },
            db1,
          ))
      × IsNewContract call payload owner.id counterparty.id project_id c
      × IsFirstVersion call payload version r
      × (latest_active_contract_version db1 call.new_id ≡ some r)
unfolding register_contract
register_contract-accepts call payload db owner counterparty version project_id keyed fresh fits a =
    let c = new_contract call payload owner.id counterparty.id project_id in
    let r = first_version call payload version in
    let db1 : Db = record db {
      contracts = db.contracts ++ c ∷ [];
      contract_versions = db.contract_versions ++ r ∷ [];
    } in
    (
      c,
      r,
      db1,
      refl,
      rw
          (
            a.versioned,
            ne→== _ _ a.ends_differ,
            (connection_type-fits _ _).1 a.labelled,
            (resolve_part-live db _ owner).1 a.owner_live,
            (resolve_part-live db _ counterparty).1 a.counterparty_live,
            (register_endpoints-Admits _ _ _ _).1 a.ends_admitted,
            a.key_free,
            a.project_known,
          )
          (unfold scalar_one_or_none in
            rw (
              add_contract-ok c db refl (ends_apart keyed a) a.labelled
                  (unfold contracts_with_key in a.key_free),
              add_contract_version-ok r (record db { contracts = db.contracts ++ c ∷ [] }) fits
                  fresh,
              sym ((found_named db _ owner a.owner_live).1),
              sym ((found_named db _ counterparty a.counterparty_live).1),
            )),
      record {
        identified = refl;
        owner_end = refl;
        counterparty_end = refl;
        kind = refl;
        label = refl;
        tagged = refl;
        owned = refl;
        created = refl;
        live = refl;
        kind_unshifted = refl;
        ends_unshifted = refl;
      },
      record {
        of_contract = refl;
        numbered =
            ap (λ t. record version { prerelease = t })
              (sym (parse-untagged payload.version version a.versioned));
        body = refl;
        activated = refl;
        created = refl;
        unpromoted = refl;
        unaccepted = refl;
      },
      latest-first r db.contract_versions db1 refl fresh refl,
    )
