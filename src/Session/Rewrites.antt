-- ===== src/Session/Rewrites.antt =====
-- The rows of a table after one of them has been rewritten, or a new one added, by the primary key.
use titan_tyr.Prelude.{
  ℕ, ◌≡◌, ◌≢◌, refl, sym, ap, ◌∙◌, ◌⊎◌, inl, inr, true, false, List, [], ◌∷◌, ◌++◌, update, In,
  ◌==◌, ℕ-eq, eq→==, ne→==, Bool-cases,
}

module _ {A : Type 0} where
  pub In-append : (a : A) (xs ys : List A) → In a xs → In a (xs ++ ys)
  In-append a [] ys m = absurd m
  In-append a (x ∷ xs) ys (inl here) = inl here
  In-append a (x ∷ xs) ys (inr later) = inr (In-append a xs ys later)

  pub In-snoc : (a : A) (xs : List A) → In a (xs ++ a ∷ [])
  In-snoc a [] = inl refl
  In-snoc a (x ∷ xs) = inr (In-snoc a xs)

  pub snoc-In : (a b : A) (xs : List A) → In a (xs ++ b ∷ []) → In a xs ⊎ (a ≡ b)
  snoc-In a b [] (inl here) = inr here
  snoc-In a b [] (inr later) = absurd later
  snoc-In a b (x ∷ xs) (inl here) = inl (inl here)
  snoc-In a b (x ∷ xs) (inr later) = deeper (snoc-In a b xs later)
    where
      deeper : In a xs ⊎ (a ≡ b) → ((a ≡ x) ⊎ In a xs) ⊎ (a ≡ b)
      deeper (inl m) = inl (inr m)
      deeper (inr e) = inr e

module _ {A : Type 0} (id : A → ℕ) where
  -- The primary key: two rows of one identifier are one.
  abbrev pub Keyed : List A → Type 0
  Keyed rows = (a c : A) → In a rows → In c rows → id a ≡ id c → a ≡ c

  -- No row has the identifier.
  abbrev pub IsFresh : ℕ → List A → Type 0
  IsFresh n rows = (a : A) → In a rows → id a ≢ n

  abbrev pub rewrite_row : A → List A → List A
  rewrite_row done rows = update (λ q. id q == id done) (λ _. done) rows

  -- A row after a rewriting is the new one, or an old one of another identifier.
  pub In-rewrite_row :
      (done : A) (rows : List A) (a : A)
      → In a (rewrite_row done rows)
      → (a ≡ done) ⊎ (In a rows × (id a ≢ id done))
  unfolding update
  In-rewrite_row done [] a m = absurd m
  In-rewrite_row done (x ∷ rows) a m = elim (Bool-cases (id x == id done)) [
    | inl t ↦ elim (rw t at m) [
      | inl here ↦ inl here
      | inr later ↦ weaken (In-rewrite_row done rows a later)
    ]
    | inr f ↦ elim (rw f at m) [
      | inl here ↦ inr (
        inl here,
        λ e. let t : (id x == id done) ≡ true = eq→== _ _ (ap id (sym here) ∙ e) in cc (t, f),
      )
      | inr later ↦ weaken (In-rewrite_row done rows a later)
    ]
  ]
    where
      weaken :
          (a ≡ done) ⊎ (In a rows × (id a ≢ id done))
          → (a ≡ done) ⊎ (((a ≡ x) ⊎ In a rows) × (id a ≢ id done))
      weaken (inl e) = inl e
      weaken (inr k) = inr (inr k.0, k.1)

  pub rewrite_row-In :
      (done : A) (rows : List A) (a : A) → In a rows → id a ≢ id done → In a (rewrite_row done rows)
  unfolding update
  rewrite_row-In done [] a m n = absurd m
  rewrite_row-In done (x ∷ rows) a (inl here) n =
      let f : (id x == id done) ≡ false = ne→== _ _ (λ e. n (ap id here ∙ e)) in rw f (inl here)
  rewrite_row-In done (x ∷ rows) a (inr later) n = inr (rewrite_row-In done rows a later n)

  pub rewrite_row-Keyed : (done : A) (rows : List A) → Keyed rows → Keyed (rewrite_row done rows)
  rewrite_row-Keyed done rows k a c m n e = elim (In-rewrite_row done rows a m) [
    | inl p ↦ elim (In-rewrite_row done rows c n) [
      | inl q ↦ p ∙ sym q
      | inr q ↦ absurd (q.1 (sym e ∙ ap id p))
    ]
    | inr p ↦ elim (In-rewrite_row done rows c n) [
      | inl q ↦ absurd (p.1 (e ∙ ap id q))
      | inr q ↦ k a c p.0 q.0 e
    ]
  ]

  pub rewrite_row-IsFresh :
      (done r : A) (rows : List A) (n : ℕ)
      → In r rows
      → id r ≡ id done
      → IsFresh n rows
      → IsFresh n (rewrite_row done rows)
  rewrite_row-IsFresh done r rows n m e f a k same = elim (In-rewrite_row done rows a k) [
    | inl p ↦ f r m (e ∙ ap id (sym p) ∙ same)
    | inr p ↦ f a p.0 same
  ]

  pub snoc-Keyed :
      (new : A) (rows : List A) → Keyed rows → IsFresh (id new) rows → Keyed (rows ++ new ∷ [])
  snoc-Keyed new rows k f a c m n e = elim (snoc-In a new rows m) [
    | inl p ↦ elim (snoc-In c new rows n) [
      | inl q ↦ k a c p q e
      | inr q ↦ absurd (f a p (e ∙ ap id q))
    ]
    | inr p ↦ elim (snoc-In c new rows n) [
      | inl q ↦ absurd (f c q (sym e ∙ ap id p))
      | inr q ↦ p ∙ sym q
    ]
  ]
