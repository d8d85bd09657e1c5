-- ===== src/Pagination/Members.antt =====
-- src/pagination.py: where the rows of a page come from.
use titan_tyr.Prelude.{
  ℕ, zero, suc, ◌≡◌, refl, ap, ◌⊎◌, inl, inr, Bool, Option, none, some, List, [], ◌∷◌, map, ok,
  >>=-elim, ok-injective, take, insert_by, sort_by, In, In-select, Bool-cases,
}
use titan_tyr.Models.Rows.{Uuid, Timestamp}
use titan_tyr.Pagination.{
  Codec, Page, precedes, newer, after_cursor, cut, keyset, list_page, decode_after,
}

In-map :
    {A X : Type 0} (f : A → X) (x : X) (xs : List A)
    → In x (map f xs)
    → (a : A) × In a xs × (x ≡ f a)
In-map f x [] m = absurd m
In-map f x (y ∷ ys) (inl here) = (y, inl refl, here)
In-map f x (y ∷ ys) (inr later) = let (a, m, e) = In-map f x ys later in (a, inr m, e)

module _ {A : Type 0} where
  In-take : (n : ℕ) (a : A) (xs : List A) → In a (take n xs) → In a xs
  In-take zero a xs m = absurd m
  In-take (suc n) a [] m = absurd m
  In-take (suc n) a (x ∷ xs) (inl here) = inl here
  In-take (suc n) a (x ∷ xs) (inr later) = inr (In-take n a xs later)

  In-insert_by :
      (before : A → A → Bool) (x : A) (ys : List A) (a : A)
      → In a (insert_by before x ys)
      → (a ≡ x) ⊎ In a ys
  unfolding insert_by
  In-insert_by before x [] a m = m
  In-insert_by before x (y ∷ ys) a m = elim (Bool-cases (before y x)) [
    | inl t ↦ elim (rw t at m) [
      | inl here ↦ inr (inl here)
      | inr later ↦ weaken (In-insert_by before x ys a later)
    ]
    | inr f ↦ rw f at m
  ]
    where
      weaken : (a ≡ x) ⊎ In a ys → (a ≡ x) ⊎ ((a ≡ y) ⊎ In a ys)
      weaken (inl e) = inl e
      weaken (inr k) = inr (inr k)

  pub In-sort_by :
      (before : A → A → Bool) (rows : List A) (a : A) → In a (sort_by before rows) → In a rows
  unfolding sort_by
  In-sort_by before [] a m = m
  In-sort_by before (r ∷ rs) a m = elim (In-insert_by before r (sort_by before rs) a m) [
    | inl e ↦ inl e
    | inr k ↦ inr (In-sort_by before rs a k)
  ]

  In-after_cursor :
      (stamp : A → Timestamp) (id : A → Uuid) (key : Option (Timestamp × Uuid)) (rows : List A)
      (a : A)
      → In a (after_cursor stamp id key rows)
      → In a rows
  In-after_cursor stamp id none rows a m = m
  In-after_cursor stamp id (some key) rows a m = (In-select (precedes stamp id key) a rows m).0

-- An item of a page is that of a row.
pub In-list_page :
    {A X : Type 0} (stamp : A → Timestamp) (id : A → Uuid) (codec : Codec) (item : A → X)
    (limit : ℕ) (after : Option (List ℕ)) (rows : List A) {page : Page X}
    → list_page stamp id codec item limit after rows ≡ ok page
    → (x : X) → In x page.results
    → (a : A) × In a rows × (x ≡ item a)
unfolding list_page keyset cut
In-list_page stamp id codec item limit after rows h x m =
    >>=-elim (decode_after codec after) _ h λ key h1 k1.
      let e = ap (λ (q : Page _). q.results) (ok-injective k1) in
      let (a, k, same) = In-map item x _ (rw (← e) at m) in
      (
        a,
        In-after_cursor stamp id key rows a
            (In-sort_by (newer stamp id) _ a (In-take (suc limit) a _ (In-take limit a _ k))),
        same,
      )
