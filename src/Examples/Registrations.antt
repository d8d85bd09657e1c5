-- ===== src/Examples/Registrations.antt =====
-- Registrations of contracts, the endpoint rules, and the two gates of an acceptance.
use titan_tyr.Prelude.{
  err, data_error, true, ◌++◌, ◌∷◌, [], select, any, ◌==◌, eq→==, String-eq, any, ◌≡◌, ◌≢◌, refl,
  true, Option, none, some, ok, inl, ◌↔◌,
}
use titan_tyr.Models.Kinds.{
  ConnectionType-discrete, ContractSubtype-discrete, PartSubtype-discrete, image, container,
  service, deployment, connection, runs, selects,
}
use titan_tyr.Models.Rows.{Contract, ContractVersion, Db, Uuid, Part}
use titan_tyr.Rules.{
  connection_rules, member, allowed_owner_subtypes, allowed_counterparty_subtypes,
  check_source_target, connection_violation, is_pair_allowed,
}
use titan_tyr.Rules.Pairs.{Admits, check-Admits, connection_violation-pair}
use titan_tyr.Versioning.{Version}
use titan_tyr.Versioning.Text.{
  parse, show, match_version, digits, span_digits, expect, at_end, suffix,
}
use titan_tyr.Session.Queries.{scalar_one_or_none}
use titan_tyr.Session.Live.{live_parts_named, add_contract, contract_checks, contract_clashes}
use titan_tyr.Session.Versions.{
  fits_columns, add_contract_version, same_version, latest_active_contract_version,
}
use titan_tyr.Session.Projects.{resolve_project_slug}
use titan_tyr.Versioning.{is_digit, read_digits}
use titan_tyr.Texts.{codes}
use titan_tyr.Contracts.Register.{
  check_connection_type, contracts_with_key, resolve_part, check_register_endpoints,
  check_part_subtype_implemented, ContractCreate, register_contract,
}
use titan_tyr.Contracts.Register.Admission.{
  IsAdmissible, register_contract-IsAdmissible, register_contract-accepts,
}
use titan_tyr.Contracts.Register.Written.{IsNewContract, IsFirstVersion}
use titan_tyr.Examples.Data.{app, box, call, db}

-- `box` is to run `app`.
abbrev order : ContractCreate
order = record {
  owner_part = "box";
  counterparty_part = "app";
  subtype = connection;
  connection_type = some runs;
  markdown = codes "body";
  version = codes "2.0.1";
  project = none;
}

abbrev version : Version
version = record { major = 2; minor = 0; patch = 1; prerelease = none }

two_names : order.owner_part ≢ order.counterparty_part
two_names e = let same : (order.owner_part == order.counterparty_part) ≡ true = eq→== _ _ e in cc

admissible : IsAdmissible call order db box app version none
unfolding parse match_version digits span_digits is_digit read_digits expect at_end suffix
    live_parts_named select connection_rules contracts_with_key resolve_project_slug
    ConnectionType-discrete ContractSubtype-discrete
admissible = record {
  versioned = refl;
  ends_differ = two_names;
  labelled = refl;
  owner_live = refl;
  counterparty_live = refl;
  ends_admitted = inl refl;
  key_free = refl;
  project_known = refl;
}

register_contract-accepts_example :
    (c : Contract) × (r : ContractVersion) × (db1 : Db) × (db1 ≡ record db {
      contracts = db.contracts ++ c ∷ [];
      contract_versions = db.contract_versions ++ r ∷ [];
    })
    × (register_contract call order db
        ≡ ok (
          record {
            contract_id = 70;
            owner = "box";
            counterparty = "app";
            subtype = connection;
            connection_type = some runs;
            version = show version;
            project = none;
          },
          db1,
        ))
    × IsNewContract call order 5 2 none c
    × IsFirstVersion call order version r
    × (latest_active_contract_version db1 70 ≡ some r)
unfolding any
register_contract-accepts_example =
    register_contract-accepts call order db box app version none
      (refl, (refl, (refl, (refl, (refl, tt))))) refl refl admissible

-- The largest version that the columns hold, and the one above it.
widest :
    fits_columns (record { major = 2147483647; minor = 0; patch = 0; prerelease = none }) ≡ true
widest = refl

too_wide :
    register_contract call (record order { version = codes "2147483648.0.0" }) db ≡ err data_error
unfolding parse match_version digits span_digits is_digit read_digits expect at_end suffix
    live_parts_named select connection_rules contracts_with_key resolve_project_slug
    ConnectionType-discrete ContractSubtype-discrete register_contract resolve_part
    scalar_one_or_none check_register_endpoints check_part_subtype_implemented any member
    allowed_owner_subtypes allowed_counterparty_subtypes connection_violation is_pair_allowed
    PartSubtype-discrete add_contract contract_checks contract_clashes add_contract_version
    check_connection_type
too_wide = refl

register_contract-IsAdmissible_example :
    (owner counterparty : Part) × (v : Version) × (project_id : Option Uuid) × IsAdmissible call
      order db owner counterparty v project_id
unfolding parse match_version digits span_digits is_digit read_digits expect at_end suffix
    live_parts_named select connection_rules contracts_with_key resolve_project_slug
    ConnectionType-discrete ContractSubtype-discrete register_contract resolve_part
    scalar_one_or_none check_register_endpoints check_part_subtype_implemented any member
    allowed_owner_subtypes allowed_counterparty_subtypes connection_violation is_pair_allowed
    PartSubtype-discrete add_contract contract_checks contract_clashes add_contract_version
    same_version check_connection_type
register_contract-IsAdmissible_example = register_contract-IsAdmissible call order db refl

check-Admits_example :
    (check_source_target service deployment connection (some selects) ≡ ok none)
    ↔ Admits connection (some selects) service deployment
check-Admits_example = check-Admits service deployment connection (some selects)

connection_violation-pair_example :
    (connection_violation runs container image ≡ none)
    ↔ (is_pair_allowed runs container image ≡ true)
connection_violation-pair_example = connection_violation-pair runs container image
