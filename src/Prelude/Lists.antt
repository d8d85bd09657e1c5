-- ===== src/Prelude/Lists.antt =====
-- Lists over the native numbers, and the searches of the program's queries.
use Prim.Native.Nat.{ℕ, zero, suc}
use mathlib.Core.Bool.{Bool, true, false, ◌||◌, ◌&&◌, not}
use mathlib.Core.Path.{◌≡◌, refl}
use mathlib.Core.Logic.{◌⊎◌, inl, inr}
use mathlib.Core.List.{List, [], ◌∷◌, ◌++◌, map}
use native.Mathlib.Omega.{arith}
use titan_tyr.Prelude.Tests.{if◌then◌else◌, Bool-cases}

module _ {ℓ} {A : Type ℓ} where
  abbrev pub length : List A → ℕ
  length [] = 0
  length (x ∷ xs) = suc (length xs)

  abbrev pub take : ℕ → List A → List A
  take zero xs = []
  take (suc n) [] = []
  take (suc n) (x ∷ xs) = x ∷ take n xs

  -- The rows that a `WHERE` clause keeps.
  unfoldable pub select : (A → Bool) → List A → List A
  select p [] = []
  select p (x ∷ xs) = let rest = select p xs in if p x then x ∷ rest else rest

  unfoldable pub any : (A → Bool) → List A → Bool
  any p [] = false
  any p (x ∷ xs) = p x || any p xs

  -- The rows after a change of those that `p` picks.
  unfoldable pub update : (A → Bool) → (A → A) → List A → List A
  update p f [] = []
  update p f (x ∷ xs) = (if p x then f x else x) ∷ update p f xs

  pub any-select_nil :
      (p q : A → Bool) (xs : List A) → select p xs ≡ [] → any (λ x. q x && p x) xs ≡ false
  unfolding select any
  any-select_nil p q [] h = refl
  any-select_nil p q (x ∷ xs) h = ground (arith, any-select_nil p q xs)

  pub any-select : (p q : A → Bool) (xs : List A) → any (λ x. p x && q x) xs ≡ any q (select p xs)
  unfolding select any
  any-select p q [] = refl
  any-select p q (x ∷ xs) = ground (arith, any-select p q xs)

  pub any-none : (p : A → Bool) (xs : List A) → select p xs ≡ [] → any p xs ≡ false
  unfolding select any
  any-none p [] h = refl
  any-none p (x ∷ xs) h = ground (arith, any-none p xs)

  pub any-and : (p q : A → Bool) (xs : List A) → any p xs ≡ false → any (λ x. p x && q x) xs ≡ false
  unfolding any
  any-and p q [] h = refl
  any-and p q (x ∷ xs) h = ground (arith, any-and p q xs)

  pub select-snoc :
      (p : A → Bool) (xs : List A) (a : A)
      → p a ≡ true
      → select p (xs ++ a ∷ []) ≡ select p xs ++ a ∷ []
  unfolding select
  select-snoc p [] a h = rw h refl
  select-snoc p (x ∷ xs) a h = ground (arith, select-snoc p xs a h)

  -- Where a change keeps what a test says, and reaches all that it picks, it changes what is picked.
  pub select-update :
      (p u : A → Bool) (f : A → A) (xs : List A)
      → ((x : A) → p (f x) ≡ p x)
      → ((x : A) → p x ≡ true → u x ≡ true)
      → select p (update u f xs) ≡ map f (select p xs)
  unfolding select update
  select-update p u f [] h k = refl
  select-update p u f (x ∷ xs) h k = ground (arith, select-update p u f xs h k, h x, k x)

  -- Where all that a test picks is replaced by a row that it does not pick, it picks nothing.
  pub select-gone :
      (p u : A → Bool) (b : A) (xs : List A)
      → p b ≡ false
      → any (λ x. p x && not (u x)) xs ≡ false
      → select p (update u (λ _. b) xs) ≡ []
  unfolding select update any
  select-gone p u b [] h k = refl
  select-gone p u b (x ∷ xs) h k = ground (arith, select-gone p u b xs h)

  -- A row that is added is the only one that a test picks, where it picked none before.
  pub select-alone :
      (p : A → Bool) (xs : List A) (a : A)
      → any p xs ≡ false
      → p a ≡ true
      → select p (xs ++ a ∷ []) ≡ a ∷ []
  unfolding select any
  select-alone p [] a h k = rw k refl
  select-alone p (x ∷ xs) a h k = ground (arith, select-alone p xs a)

module _ {A : Type 0} where
  -- Membership, with the place.
  abbrev pub In : A → List A → Type 0
  In a [] = ⊥
  In a (x ∷ xs) = (a ≡ x) ⊎ In a xs

  pub In-select : (p : A → Bool) (a : A) (xs : List A) → In a (select p xs) → In a xs × (p a ≡ true)
  unfolding select
  In-select p a [] h = absurd h
  In-select p a (x ∷ xs) h = elim (Bool-cases (p x)) [
    | inl kept ↦ elim (rw kept at h) [
      | inl here ↦ (inl here, rw here kept)
      | inr later ↦ let (m, t) = In-select p a xs later in (inr m, t)
    ]
    | inr dropped ↦ let (m, t) = In-select p a xs (rw dropped at h) in (inr m, t)
  ]

  pub select-In : (p : A → Bool) (a : A) (xs : List A) → In a xs → p a ≡ true → In a (select p xs)
  unfolding select
  select-In p a [] h k = absurd h
  select-In p a (x ∷ xs) h k = elim h [
    | inl here ↦ let kept : p x ≡ true = rw (← here) k in rw kept (inl here)
    | inr later ↦ elim (Bool-cases (p x)) [
      | inl kept ↦ rw kept (inr (select-In p a xs later k))
      | inr dropped ↦ rw dropped (select-In p a xs later k)
    ]
  ]

  -- A predicate on every row.
  abbrev pub All : (A → Type 0) → List A → Type 0
  All P [] = Unit
  All P (x ∷ xs) = P x × All P xs

  pub All-In : (P : A → Type 0) (a : A) (xs : List A) → All P xs → In a xs → P a
  All-In P a [] h m = absurd m
  All-In P a (x ∷ xs) h m = elim m [ inl here ↦ rw here h.0 | inr later ↦ All-In P a xs h.1 later ]

  pub In-All : (P : A → Type 0) (xs : List A) → ((a : A) → In a xs → P a) → All P xs
  In-All P [] h = tt
  In-All P (x ∷ xs) h = (h x (inl refl), In-All P xs (λ a m. h a (inr m)))

  pub All-snoc : (P : A → Type 0) (xs : List A) (a : A) → All P xs → P a → All P (xs ++ a ∷ [])
  All-snoc P [] a h k = (k, tt)
  All-snoc P (x ∷ xs) a h k = (h.0, All-snoc P xs a h.1 k)

  pub All-update :
      (P : A → Type 0) (p : A → Bool) (f : A → A) (xs : List A)
      → All P xs
      → ((a : A) → In a xs → P a → p a ≡ true → P (f a))
      → All P (update p f xs)
  unfolding update
  All-update P p f [] h k = tt
  All-update P p f (x ∷ xs) h k =
      let rest = All-update P p f xs h.1 (λ a m. k a (inr m)) in
      elim (Bool-cases (p x)) [
        | inl t ↦ rw t (k x (inl refl) h.0 t, rest)
        | inr u ↦ rw u (h.0, rest)
      ]
