-- ===== src/Contracts/Register/Checks.antt =====
-- The steps of `register_contract`, and the flush of its rows: src/routers/contracts.py.
use titan_tyr.Prelude.{
  ◌≡◌, ◌↔◌, refl, any, true, false, Option, none, some, List, [], ◌∷◌, ◌++◌, String, ok, not, ◌==◌,
  any, ◌&&◌, ℕ-eq, ==-refl, any-and, any-select_nil, String-eq, arith, select-alone,
}
use titan_tyr.Models.Kinds.{
  PartSubtype, ContractSubtype, interaction, binding, connection, ConnectionType, builds_from,
  PartSubtype-discrete,
}
use titan_tyr.Models.Rows.{Part, Contract, ContractVersion, Db}
use titan_tyr.Rules.{
  allowed_owner_subtypes, allowed_counterparty_subtypes, member, connection_rules,
}
use titan_tyr.Rules.Pairs.{Admits, connection-Admits, binding-Admits}
use titan_tyr.Session.Queries.{scalar_one_or_none}
use titan_tyr.Session.Live.{
  live_parts_named, connection_type_fits, add_contract, is_live, same_key, contract_clashes,
  contract_checks,
}
use titan_tyr.Session.Versions.{
  same_version, version_of, fits_columns, is_active, top_version, latest_active_contract_version,
  add_contract_version,
}
use titan_tyr.Contracts.Register.{
  check_part_subtype_implemented, resolve_part, check_connection_type, check_register_endpoints,
  contracts_with_key, is_none,
}

-- A name resolves to a part exactly where that part is the one live row with the name.
pub resolve_part-live :
    (db : Db) (name : String) (p : Part)
    → (resolve_part db name ≡ ok p) ↔ (live_parts_named db name ≡ p ∷ [])
unfolding resolve_part scalar_one_or_none
resolve_part-live db name p = (ground arith, ground arith)

pub connection_type-fits :
    (s : ContractSubtype) (t : Option ConnectionType)
    → (check_connection_type s t ≡ ok tt) ↔ (connection_type_fits s t ≡ true)
unfolding check_connection_type
connection_type-fits s t = (ground arith, ground arith)

-- Every subtype that a rule names is implemented.
rules_implemented :
    (t : ConnectionType)
    → (check_part_subtype_implemented (allowed_owner_subtypes t) ≡ ok tt)
      × (check_part_subtype_implemented (allowed_counterparty_subtypes t) ≡ ok tt)
unfolding check_part_subtype_implemented allowed_owner_subtypes allowed_counterparty_subtypes member
    any connection_rules PartSubtype-discrete
rules_implemented builds_from = (refl, refl)
rules_implemented _ = (refl, refl)

pub register_endpoints-Admits :
    (s : ContractSubtype) (t : Option ConnectionType) (o c : PartSubtype)
    → (check_register_endpoints s t o c ≡ ok tt) ↔ Admits s t o c
unfolding check_register_endpoints
register_endpoints-Admits interaction t o c = ((λ _. tt), λ _. refl)
register_endpoints-Admits binding t o c = ground (arith, binding-Admits o c)
register_endpoints-Admits connection none o c = ((λ h. cc), λ h. absurd h)
register_endpoints-Admits connection (some t) o c =
    rw ((rules_implemented t).0, (rules_implemented t).1) (ground (arith, connection-Admits o c t))

pub not_found :
    (xs : List Contract) (o : Option Contract)
    → scalar_one_or_none xs ≡ ok o
    → not (is_none o) ≡ false
    → xs ≡ []
unfolding scalar_one_or_none
not_found xs o h k = ground arith

module _ (c : Contract) (db : Db) (lives : c.deleted_at ≡ none) where
  no_clash : contracts_with_key db c ≡ [] → contract_clashes c db.contracts ≡ false
  unfolding contracts_with_key contract_clashes
  no_clash h = rw lives (
      any-select_nil (λ (d : Contract). same_key c d && is_live d.deleted_at)
        (λ (d : Contract). not (d.id == c.id)) db.contracts h)

  pub add_contract-ok :
      (c.owner_part_id == c.counterparty_part_id) ≡ false
      → connection_type_fits c.subtype c.connection_type ≡ true
      → contracts_with_key db c ≡ []
      → add_contract c db ≡ ok (record db { contracts = db.contracts ++ c ∷ [] })
  unfolding add_contract contract_checks
  add_contract-ok apart fits free = rw (apart, fits, no_clash free)

pub add_contract_version-ok :
    (r : ContractVersion) (db : Db)
    → fits_columns (version_of r) ≡ true
    → any (λ (q : ContractVersion). q.contract_id == r.contract_id) db.contract_versions ≡ false
    → add_contract_version r db
      ≡ ok (record db { contract_versions = db.contract_versions ++ r ∷ [] })
unfolding add_contract_version
add_contract_version-ok r db fits fresh = rw (
  fits,
  any-and (λ (q : ContractVersion). q.contract_id == r.contract_id)
      (λ (q : ContractVersion). same_version (version_of q) (version_of r)) db.contract_versions
      fresh,
)

-- The first version of a contract is the one that reads of it return.
pub latest-first :
    (r : ContractVersion) (rows : List ContractVersion) (db : Db)
    → db.contract_versions ≡ rows ++ r ∷ []
    → any (λ (q : ContractVersion). q.contract_id == r.contract_id) rows ≡ false
    → is_active r.status ≡ true
    → latest_active_contract_version db r.contract_id ≡ some r
unfolding latest_active_contract_version top_version
latest-first r rows db e fresh shown = rw e (
    rw (
      select-alone (λ (q : ContractVersion). q.contract_id == r.contract_id && is_active q.status)
        rows r
        (any-and (λ (q : ContractVersion). q.contract_id == r.contract_id)
          (λ (q : ContractVersion). is_active q.status) rows fresh)
        (rw (==-refl r.contract_id, shown) refl)))
