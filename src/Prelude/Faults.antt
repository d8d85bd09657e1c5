-- ===== src/Prelude/Faults.antt =====
-- How a request ends without a reply. `http` carries the status code of the `HTTPException`; the
-- others are exceptions that no handler catches: of the database layer (a query with two rows, a
-- constraint, a number that its column cannot hold), of a missing row, of a missing key.
use mathlib.Core.Path.{◌≡◌, refl}
use mathlib.Core.Bool.{Bool, true, false}
use Prim.Native.Nat.{ℕ}

pub data Fault : Type 0 where
  http : ℕ → Fault
  multiple_results_found : Fault
  integrity_error data_error : Fault
  attribute_error key_error : Fault

pub data Result {ℓ} (A : Type ℓ) : Type ℓ where
  ok : A → Result A
  err : Fault → Result A

-- A step, then the rest of the handler with its value; a fault ends the handler.
infixl 5 ◌>>=◌
abbrev pub ◌>>=◌ {κ μ} : {X : Type κ} {Y : Type μ} → Result X → (X → Result Y) → Result Y
err fault >>= rest = err fault
ok x >>= rest = rest x

-- A step with no value.
infixl 5 ◌>>◌
abbrev pub ◌>>◌ {μ} : {Y : Type μ} → Result (Unit {0}) → Result Y → Result Y
check >> rest = check >>= λ _. rest

-- `if test: raise HTTPException(status)`
abbrev pub raise_if : Bool → ℕ → Result (Unit {0})
raise_if true status = err (http status)
raise_if false status = ok tt

pub ok-injective {ℓ} : {A : Type ℓ} {a b : A} → ok a ≡ ok b → a ≡ b
ok-injective h = cc

-- A bind that did not raise: its parts, as variables.
pub >>=-elim {ℓ κ μ} :
    {A : Type ℓ} {B : Type κ} {C : Type μ} (m : Result A) (f : A → Result B) {b : B}
    → (m >>= f) ≡ ok b
    → ((a : A) → m ≡ ok a → f a ≡ ok b → C)
    → C
>>=-elim (ok a) f h k = k a refl h
>>=-elim (err e) f h k = cc
