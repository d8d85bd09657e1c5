-- ===== src/Session/Rows.antt =====
-- Reading a row by its primary key after a row has been rewritten.
use titan_tyr.Prelude.{
  ℕ, ◌≡◌, ap, ◌∙◌, Option, none, some, List, [], ◌∷◌, arith, select, update, ◌==◌, ℕ-eq,
  if◌then◌else◌,
}
use titan_tyr.Models.Rows.{Uuid, Part, Contract, Db}
use titan_tyr.Session.Queries.{first}
use titan_tyr.Session.Live.{get_part_row, get_contract_row}
use titan_tyr.Session.Inversion.{with_part, with_contract}

-- The new value stands where an old one did.
abbrev pub overwrite {ℓ} : {A : Type ℓ} → A → Option A → Option A
overwrite a none = none
overwrite a (some b) = some a

module _ {ℓ} {A : Type ℓ} (key : A → ℕ) (a : A) where
  first-update :
      (i : ℕ) (rows : List A)
      → first (select (λ x. key x == i) (update (λ x. key x == key a) (λ _. a) rows)) ≡ (
          if key a == i
          then overwrite a (first (select (λ x. key x == i) rows))
          else first (select (λ x. key x == i) rows))
  unfolding select update first
  first-update i [] = ground arith
  first-update i (x ∷ rows) = ground (arith, first-update i rows)

pub get-with_contract :
    (c : Contract) (db : Db) (i : Uuid)
    → get_contract_row (with_contract c db) i
      ≡ (if c.id == i then overwrite c (get_contract_row db i) else get_contract_row db i)
unfolding get_contract_row
get-with_contract c db i = first-update (λ (d : Contract). d.id) c i db.contracts

pub get-with_part :
    (p : Part) (db : Db) (i : Uuid)
    → get_part_row (with_part p db) i
      ≡ (if p.id == i then overwrite p (get_part_row db i) else get_part_row db i)
unfolding get_part_row
get-with_part p db i = first-update (λ (q : Part). q.id) p i db.parts

module _ {ℓ} {A : Type ℓ} (key : A → ℕ) where
  first-key :
      (i : ℕ) (rows : List A) (a : A) → first (select (λ x. key x == i) rows) ≡ some a → key a ≡ i
  unfolding select first
  first-key i [] a h = cc
  first-key i (x ∷ rows) a h = ground (arith, first-key i rows a)

-- A row that is read by a key has that key.
pub get_contract_row-id :
    (db : Db) (i : Uuid) {c : Contract} → get_contract_row db i ≡ some c → c.id ≡ i
unfolding get_contract_row
get_contract_row-id db i {c} h = first-key (λ (d : Contract). d.id) i db.contracts c h

pub get_part_row-id : (db : Db) (i : Uuid) {p : Part} → get_part_row db i ≡ some p → p.id ≡ i
unfolding get_part_row
get_part_row-id db i {p} h = first-key (λ (d : Part). d.id) i db.parts p h

-- The same for a database that has those rows.
pub get-rewritten :
    (c : Contract) (db db' : Db)
    → db'.contracts ≡ (with_contract c db).contracts
    → (i : Uuid)
    → get_contract_row db' i
      ≡ (if c.id == i then overwrite c (get_contract_row db i) else get_contract_row db i)
unfolding get_contract_row
get-rewritten c db db' e i =
    ap (λ rows. first (select (λ (d : Contract). d.id == i) rows)) e ∙ get-with_contract c db i

pub part-rewritten :
    (p : Part) (db db' : Db)
    → db'.parts ≡ (with_part p db).parts
    → (i : Uuid)
    → get_part_row db' i
      ≡ (if p.id == i then overwrite p (get_part_row db i) else get_part_row db i)
unfolding get_part_row
part-rewritten p db db' e i =
    ap (λ rows. first (select (λ (q : Part). q.id == i) rows)) e ∙ get-with_part p db i
