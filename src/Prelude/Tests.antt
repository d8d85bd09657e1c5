-- ===== src/Prelude/Tests.antt =====
-- Boolean tests, the conditional, and equality tests as an interface.
use Prim.Native.Nat.{ℕ, compare, Ordering}
use Prim.Native.String.{String}
use mathlib.Core.Path.{◌≡◌, refl}
use mathlib.Core.Logic.{◌↔◌, ◌⊎◌, inl, inr}
use mathlib.Core.Bool.{Bool, true, false}
use mathlib.Core.Option.{Option, none, some}
use native.Mathlib.Omega.{arith}
use text.Mathlib.Text.{◌==◌ as str_eq}
use text.Mathlib.TextEquality.{eq_iff}

abbrev pub ltb : ℕ → ℕ → Bool
ltb a b = elim (compare a b) [ Ordering.lt ↦ true | _ ↦ false ]

abbrev pub leb : ℕ → ℕ → Bool
leb a b = elim (compare a b) [ Ordering.gt ↦ false | _ ↦ true ]

abbrev nat_eqb : ℕ → ℕ → Bool
nat_eqb a b = elim (compare a b) [ Ordering.eq ↦ true | _ ↦ false ]

infix 1 if◌then◌else◌
abbrev pub if◌then◌else◌ {ℓ} : {A : Type ℓ} → Bool → A → A → A
if true then x else y = x
if false then x else y = y

pub Bool-cases : (b : Bool) → (b ≡ true) ⊎ (b ≡ false)
Bool-cases true = inl refl
Bool-cases false = inr refl

pub Option-cases {ℓ} : {A : Type ℓ} (o : Option A) → (o ≡ none) ⊎ ((a : A) × (o ≡ some a))
Option-cases none = inl refl
Option-cases (some a) = inr (a, refl)

-- A type whose values the program compares by `==`.
pub record Eq {ℓ} (A : Type ℓ) : Type ℓ where
  pub test : A → A → Bool
  pub test_iff : (a b : A) → (test a b ≡ true) ↔ (a ≡ b)

infix 50 ◌==◌
abbrev pub ◌==◌ {ℓ} : {A : Type ℓ} ⦃e : Eq A⦄ → A → A → Bool
◌==◌ ⦃e⦄ = e.test

module _ {ℓ} {A : Type ℓ} ⦃e : Eq A⦄ where
  pub ==-refl : (a : A) → (a == a) ≡ true
  ==-refl a = (e.test_iff a a).1 refl

  pub ==→eq : (a b : A) → (a == b) ≡ true → a ≡ b
  ==→eq a b h = (e.test_iff a b).0 h

  pub eq→== : (a b : A) → a ≡ b → (a == b) ≡ true
  eq→== a b h = (e.test_iff a b).1 h

  pub ne→== : (a b : A) → ¬ (a ≡ b) → (a == b) ≡ false
  ne→== a b h = elim (Bool-cases (a == b)) [ inl t ↦ absurd (h (==→eq a b t)) | inr f ↦ f ]

pub nat_eqb_iff : (a b : ℕ) → (nat_eqb a b ≡ true) ↔ (a ≡ b)
nat_eqb_iff a b = ground arith

instance abbrev pub ℕ-eq : Eq ℕ
ℕ-eq = record { test = nat_eqb; test_iff = nat_eqb_iff }

instance abbrev pub String-eq : Eq String
String-eq = record { test = str_eq; test_iff = eq_iff }

-- Types with decidable equality.
abbrev dec_test {ℓ} : {A : Type ℓ} → Discrete A → A → A → Bool
dec_test d a b = elim (d a b) [ yes _ ↦ true | no _ ↦ false ]

pub dec_test_iff {ℓ} : {A : Type ℓ} (d : Discrete A) (a b : A) → (dec_test d a b ≡ true) ↔ (a ≡ b)
dec_test_iff d a b = go (d a b)
  where
    go : (r : Dec (a ≡ b)) → ((elim r [ yes _ ↦ true | no _ ↦ false ]) ≡ true) ↔ (a ≡ b)
    go (yes p) = ((λ _. p), (λ _. refl))
    go (no n) = ((λ h. cc), (λ p. absurd (n p)))

abbrev pub eq_by {ℓ} : {A : Type ℓ} → Discrete A → Eq A
eq_by d = record { test = dec_test d; test_iff = dec_test_iff d }

-- Optional values: SQL's `IS NOT DISTINCT FROM`.
module _ {ℓ} {A : Type ℓ} ⦃e : Eq A⦄ where
  abbrev option_test : Option A → Option A → Bool
  option_test none none = true
  option_test (some a) (some b) = a == b
  option_test _ _ = false

  pub option_test_iff : (a b : Option A) → (option_test a b ≡ true) ↔ (a ≡ b)
  option_test_iff none none = ground arith
  option_test_iff none (some b) = ground arith
  option_test_iff (some a) none = ground arith
  option_test_iff (some a) (some b) = ground (arith, e.test_iff a b)

  instance abbrev pub Option-eq : Eq (Option A)
  Option-eq = record { test = option_test; test_iff = option_test_iff }
