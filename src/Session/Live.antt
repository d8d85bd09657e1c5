-- ===== src/Session/Live.antt =====
-- Rows by name and by key, live rows, and the constraints on `parts` and `contracts`.
use titan_tyr.Prelude.{
  Bool, true, false, ◌&&◌, not, Option, none, some, List, [], ◌∷◌, ◌++◌, String, Result, ok, err,
  integrity_error, ◌==◌, ℕ-eq, String-eq, Option-eq, if◌then◌else◌, select, any, update,
}
use titan_tyr.Models.Kinds.{
  ContractSubtype, interaction, binding, connection, ContractSubtype-eq, ConnectionType,
  ConnectionType-eq,
}
use titan_tyr.Models.Rows.{Uuid, Timestamp, Part, Contract, Db}
use titan_tyr.Session.Queries.{first}

-- `deleted_at IS NULL`
abbrev pub is_live : Option Timestamp → Bool
is_live none = true
is_live (some _) = false

-- `select(Part).where(Part.name == name, Part.deleted_at.is_(None))`
unfoldable pub live_parts_named : Db → String → List Part
live_parts_named db name = select (λ (p : Part). p.name == name && is_live p.deleted_at) db.parts

-- `select(Part).where(Part.name == name)`
unfoldable pub parts_named : Db → String → List Part
parts_named db name = select (λ (p : Part). p.name == name) db.parts

-- `session.get(Part, id)`
unfoldable pub get_part_row : Db → Uuid → Option Part
get_part_row db id = first (select (λ (p : Part). p.id == id) db.parts)

-- `session.get(Contract, id)`, and the same row by `select … with_for_update`.
unfoldable pub get_contract_row : Db → Uuid → Option Contract
get_contract_row db id = first (select (λ (c : Contract). c.id == id) db.contracts)

-- The columns of the index `uq_contracts_subtype_pair`.
abbrev pub same_key : Contract → Contract → Bool
same_key c d =
    d.owner_part_id == c.owner_part_id
    && (d.counterparty_part_id == c.counterparty_part_id
        && (d.subtype == c.subtype && d.connection_type == c.connection_type))

-- `uq_parts_name`, which covers live rows only.
unfoldable pub part_clashes : Part → List Part → Bool
part_clashes p rows =
    is_live p.deleted_at
    && any (λ (q : Part). not (q.id == p.id) && (q.name == p.name && is_live q.deleted_at)) rows

-- `uq_contracts_subtype_pair`, which covers live rows only.
unfoldable pub contract_clashes : Contract → List Contract → Bool
contract_clashes c rows =
    is_live c.deleted_at
    && any (λ (d : Contract). not (d.id == c.id) && (same_key c d && is_live d.deleted_at)) rows

-- `ck_contracts_connection_type_required`
abbrev pub connection_type_fits : ContractSubtype → Option ConnectionType → Bool
connection_type_fits connection none = false
connection_type_fits connection (some _) = true
connection_type_fits interaction none = true
connection_type_fits interaction (some _) = false
connection_type_fits binding none = true
connection_type_fits binding (some _) = false

-- `owner_ne_counterparty` and `ck_contracts_connection_type_required`
unfoldable pub contract_checks : Contract → Bool
contract_checks c =
    not (c.owner_part_id == c.counterparty_part_id)
    && connection_type_fits c.subtype c.connection_type

-- The flush of a new row.
unfoldable pub add_part : Part → Db → Result Db
add_part p db =
    if part_clashes p db.parts
    then err integrity_error
    else ok (record db { parts = db.parts ++ p ∷ [] })

unfoldable pub add_contract : Contract → Db → Result Db
add_contract c db =
    if contract_checks c && not (contract_clashes c db.contracts)
    then ok (record db { contracts = db.contracts ++ c ∷ [] })
    else err integrity_error

-- The flush of a changed row: the row with that identifier is replaced.
unfoldable pub save_part : Part → Db → Result Db
save_part p db =
    if part_clashes p db.parts
    then err integrity_error
    else ok (record db { parts = update (λ (q : Part). q.id == p.id) (λ _. p) db.parts })

unfoldable pub save_contract : Contract → Db → Result Db
save_contract c db =
    if contract_checks c && not (contract_clashes c db.contracts)
    then ok
        (record db { contracts = update (λ (d : Contract). d.id == c.id) (λ _. c) db.contracts })
    else err integrity_error
