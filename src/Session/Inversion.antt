-- ===== src/Session/Inversion.antt =====
-- What a step of a handler that did not raise has established.
use titan_tyr.Prelude.{
  ℕ, ◌≡◌, refl, Bool, true, false, Option, none, some, List, [], ◌∷◌, ok, err, integrity_error,
  raise_if, arith, update, ◌==◌, ℕ-eq,
}
use titan_tyr.Models.Rows.{Part, Contract, Db}
use titan_tyr.Session.Queries.{scalar_one_or_none, or_raise, attribute}
use titan_tyr.Session.Live.{
  contract_checks, contract_clashes, part_clashes, save_contract, save_part,
}
use titan_tyr.Versioning.{Version}
use titan_tyr.Session.Versions.{validated}

pub raise_if-ok : (b : Bool) (n : ℕ) {u : Unit {0}} → raise_if b n ≡ ok u → b ≡ false
raise_if-ok b n h = ground arith

pub validated-ok : (o : Option Version) (v : Version) → validated o ≡ ok v → o ≡ some v
validated-ok o v h = ground arith

module _ {ℓ} {A : Type ℓ} where
  pub or_raise-ok : (n : ℕ) (o : Option A) {a : A} → or_raise n o ≡ ok a → o ≡ some a
  or_raise-ok n none h = cc
  or_raise-ok n (some b) h = cc

  pub attribute-ok : (o : Option A) {a : A} → attribute o ≡ ok a → o ≡ some a
  attribute-ok none h = cc
  attribute-ok (some b) h = cc

  pub scalar-one : (xs : List A) {x : A} → scalar_one_or_none xs ≡ ok (some x) → xs ≡ x ∷ []
  unfolding scalar_one_or_none
  scalar-one [] h = cc
  scalar-one (x ∷ []) h = cc
  scalar-one (x ∷ y ∷ xs) h = cc

  pub scalar-none : (xs : List A) → scalar_one_or_none xs ≡ ok none → xs ≡ []
  unfolding scalar_one_or_none
  scalar-none [] h = refl
  scalar-none (x ∷ []) h = cc
  scalar-none (x ∷ y ∷ xs) h = cc

-- The rows of `contracts` with one of them rewritten.
abbrev pub with_contract : Contract → Db → Db
with_contract c db = record db {
  contracts = update (λ (d : Contract). d.id == c.id) (λ _. c) db.contracts;
}

abbrev pub with_part : Part → Db → Db
with_part p db = record db { parts = update (λ (q : Part). q.id == p.id) (λ _. p) db.parts }

pub save_contract-ok :
    (c : Contract) (db : Db) {db1 : Db}
    → save_contract c db ≡ ok db1
    → (contract_checks c ≡ true)
      × (contract_clashes c db.contracts ≡ false)
      × (db1 ≡ with_contract c db)
unfolding save_contract
save_contract-ok c db h = ground arith

pub save_part-ok :
    (p : Part) (db : Db) {db1 : Db}
    → save_part p db ≡ ok db1
    → (part_clashes p db.parts ≡ false) × (db1 ≡ with_part p db)
unfolding save_part
save_part-ok p db h = ground arith

pub save_contract-clash :
    (c : Contract) (db : Db)
    → contract_clashes c db.contracts ≡ true
    → save_contract c db ≡ err integrity_error
unfolding save_contract
save_contract-clash c db h = ground arith

pub save_contract-saved :
    (c : Contract) (db : Db)
    → contract_checks c ≡ true
    → contract_clashes c db.contracts ≡ false
    → save_contract c db ≡ ok (with_contract c db)
unfolding save_contract
save_contract-saved c db h k = ground arith
