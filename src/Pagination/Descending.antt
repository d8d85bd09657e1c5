-- ===== src/Pagination/Descending.antt =====
-- src/pagination.py: rows in the descending order of the keyset queries.
use titan_tyr.Prelude.{
  ℕ, zero, suc, ◌≡◌, ◌≢◌, refl, sym, Bool, true, false, some, List, [], ◌∷◌, arith, take, select,
  insert_by, sort_by, In, All, All-In, Bool-cases, inl, inr, ℕ-eq, if◌then◌else◌,
}
use titan_tyr.Models.Rows.{Uuid, Timestamp}
use titan_tyr.Pagination.{precedes, newer, last_key}

-- The rows without the first ones.
abbrev pub drop {ℓ} : {A : Type ℓ} → ℕ → List A → List A
drop zero xs = xs
drop (suc n) [] = []
drop (suc n) (x ∷ xs) = drop n xs

module _ {A : Type 0} (p : A → Bool) (q : A → Bool) where
  pub select-select :
      ((a : A) → q a ≡ true → p a ≡ true) → (xs : List A) → select q (select p xs) ≡ select q xs
  unfolding select
  select-select h [] = refl
  select-select h (x ∷ xs) = elim (Bool-cases (p x)) [
    | inl t ↦ rw (t, select-select h xs)
    | inr f ↦ let g : q x ≡ false = ground (arith, h x) in rw (f, g, select-select h xs)
  ]

module _ {A : Type 0} (q : A → Bool) where
  select_whole : (xs : List A) → All (λ a. q a ≡ true) xs → select q xs ≡ xs
  unfolding select
  select_whole [] h = refl
  select_whole (x ∷ xs) h = rw (h.0, select_whole xs h.1)

module _ {A : Type 0} (stamp : A → Timestamp) (id : A → Uuid) where
  -- Two rows that differ in the time or in the identifier.
  abbrev pub Apart : A → A → Type 0
  Apart a b = stamp a ≡ stamp b → id a ≢ id b

  -- No two rows share both.
  abbrev pub DistinctKeys : List A → Type 0
  DistinctKeys [] = Unit
  DistinctKeys (a ∷ rows) = All (Apart a) rows × DistinctKeys rows

  -- Every row comes before those behind it.
  abbrev pub Descending : List A → Type 0
  Descending [] = Unit
  Descending (a ∷ rows) = All (λ b. newer stamp id a b ≡ true) rows × Descending rows

  pub newer_trans :
      (a b c : A)
      → newer stamp id a b ≡ true
      → newer stamp id b c ≡ true
      → newer stamp id a c ≡ true
  newer_trans a b c h k = ground arith

  pub newer_asym : (a b : A) → newer stamp id a b ≡ true → newer stamp id b a ≡ false
  newer_asym a b h = ground arith

  pub newer_irrefl : (a : A) → newer stamp id a a ≡ false
  newer_irrefl a = ground arith

  newer_other : (a b : A) → Apart a b → newer stamp id b a ≡ false → newer stamp id a b ≡ true
  newer_other a b h k = ground arith

  All-newer :
      (a b : A) (rows : List A)
      → newer stamp id a b ≡ true
      → All (λ c. newer stamp id b c ≡ true) rows
      → All (λ c. newer stamp id a c ≡ true) rows
  All-newer a b [] h k = tt
  All-newer a b (c ∷ rows) h k = (newer_trans a b c h k.0, All-newer a b rows h k.1)

  All-insert_by :
      (P : A → Type 0) (x : A) (ys : List A)
      → P x
      → All P ys
      → All P (insert_by (newer stamp id) x ys)
  unfolding insert_by
  All-insert_by P x [] h k = (h, tt)
  All-insert_by P x (y ∷ ys) h k = elim (Bool-cases (newer stamp id y x)) [
    | inl t ↦ rw t (k.0, All-insert_by P x ys h k.1)
    | inr f ↦ rw f (h, k)
  ]

  All-sort_by : (P : A → Type 0) (xs : List A) → All P xs → All P (sort_by (newer stamp id) xs)
  unfolding sort_by
  All-sort_by P [] h = tt
  All-sort_by P (x ∷ xs) h = All-insert_by P x _ h.0 (All-sort_by P xs h.1)

  insert_by-Descending :
      (x : A) (ys : List A)
      → All (Apart x) ys
      → Descending ys
      → Descending (insert_by (newer stamp id) x ys)
  unfolding insert_by
  insert_by-Descending x [] h d = (tt, tt)
  insert_by-Descending x (y ∷ ys) h d = elim (Bool-cases (newer stamp id y x)) [
    | inl t ↦ rw t (
      All-insert_by (λ c. newer stamp id y c ≡ true) x ys t d.0,
      insert_by-Descending x ys h.1 d.1,
    )
    | inr f ↦ let up = newer_other x y h.0 f in rw f ((up, All-newer x y ys up d.0), d)
  ]

  -- The query's order is descending where no two rows share their keys.
  pub sort_by-Descending :
      (rows : List A) → DistinctKeys rows → Descending (sort_by (newer stamp id) rows)
  unfolding sort_by
  sort_by-Descending [] h = tt
  sort_by-Descending (x ∷ xs) h =
      insert_by-Descending x _ (All-sort_by (Apart x) xs h.0) (sort_by-Descending xs h.1)

  insert_by-front :
      (x : A) (ys : List A)
      → All (λ c. newer stamp id x c ≡ true) ys
      → insert_by (newer stamp id) x ys ≡ x ∷ ys
  unfolding insert_by
  insert_by-front x [] h = refl
  insert_by-front x (y ∷ ys) h = rw (newer_asym x y h.0) refl

  All-select : (P : A → Type 0) (p : A → Bool) (xs : List A) → All P xs → All P (select p xs)
  unfolding select
  All-select P p [] h = tt
  All-select P p (x ∷ xs) h = elim (Bool-cases (p x)) [
    | inl t ↦ rw t (h.0, All-select P p xs h.1)
    | inr f ↦ rw f (All-select P p xs h.1)
  ]

  pub select-Descending : (p : A → Bool) (xs : List A) → Descending xs → Descending (select p xs)
  unfolding select
  select-Descending p [] h = tt
  select-Descending p (x ∷ xs) h = elim (Bool-cases (p x)) [
    | inl t ↦ rw t (All-select _ p xs h.0, select-Descending p xs h.1)
    | inr f ↦ rw f (select-Descending p xs h.1)
  ]

  select-insert_by :
      (p : A → Bool) (x : A) (ys : List A)
      → All (Apart x) ys
      → Descending ys
      → select p (insert_by (newer stamp id) x ys)
        ≡ (if p x then insert_by (newer stamp id) x (select p ys) else select p ys)
  unfolding insert_by select
  select-insert_by p x [] h d = refl
  select-insert_by p x (y ∷ ys) h d = elim (Bool-cases (newer stamp id y x)) [
    | inl t ↦
        let rest = select-insert_by p x ys h.1 d.1 in
        elim (Bool-cases (p x)) [
          | inl a ↦ elim (Bool-cases (p y)) [
            | inl b ↦ rw (t, b, rest, a, t) refl
            | inr b ↦ rw (t, b, rest, a) refl
          ]
          | inr a ↦ rw (t, rest, a) refl
        ]
    | inr f ↦
        let up = newer_other x y h.0 f in
        let front : All (λ c. newer stamp id x c ≡ true) (y ∷ ys) = (up, All-newer x y ys up d.0) in
        elim (Bool-cases (p x)) [
          | inl a ↦ rw (f, a) (sym (insert_by-front x _ (All-select _ p (y ∷ ys) front)))
          | inr a ↦ rw (f, a) refl
        ]
  ]

  -- Filtering commutes with the query's order.
  pub select-sort_by :
      (p : A → Bool) (rows : List A)
      → DistinctKeys rows
      → select p (sort_by (newer stamp id) rows) ≡ sort_by (newer stamp id) (select p rows)
  unfolding sort_by select
  select-sort_by p [] h = refl
  select-sort_by p (x ∷ xs) h =
      let e = select-insert_by p x _ (All-sort_by (Apart x) xs h.0) (sort_by-Descending xs h.1) in
      elim (Bool-cases (p x)) [
        | inl a ↦ rw (e, a, select-sort_by p xs h.1) refl
        | inr a ↦ rw (e, a, select-sort_by p xs h.1) refl
      ]

  -- The rows behind the last of the first ones.
  pub behind_last :
      (n : ℕ) (x : A) (xs : List A)
      → Descending (x ∷ xs)
      → (z : A) × In z (x ∷ xs)
        × (last_key stamp id (take (suc n) (x ∷ xs)) ≡ some (stamp z, id z))
        × (select (precedes stamp id (stamp z, id z)) (x ∷ xs) ≡ drop n xs)
  unfolding select last_key
  behind_last zero x xs d = (
    x,
    inl refl,
    refl,
    rw (newer_irrefl x) (select_whole (precedes stamp id (stamp x, id x)) xs d.0),
  )
  behind_last (suc n) x [] d = (x, inl refl, refl, rw (newer_irrefl x) refl)
  behind_last (suc n) x (y ∷ ys) d =
      let (z, m, last, behind) = behind_last n y ys d.1 in
      (
        z,
        inr m,
        rw last refl,
        rw (newer_asym x z (All-In (λ c. newer stamp id x c ≡ true) z (y ∷ ys) d.0 m)) behind,
      )
