-- ===== src/Pagination/Walk.antt =====
-- src/pagination.py: a client that follows the cursors of a list.
use titan_tyr.Prelude.{
  ℕ, zero, suc, ◌≤◌, ◌<◌, ◌≡◌, refl, sym, ap, ◌∙◌, false, Option, none, some, List, [], ◌∷◌, ◌++◌,
  map, Result, ok, err, >>=-elim, ok-injective, arith, length, take, select, sort_by,
  length-sort_by, ltb, In, In-select, Bool-cases, inl, inr, if◌then◌else◌,
}
use titan_tyr.Models.Rows.{Uuid, Timestamp}
use titan_tyr.Pagination.{
  Codec, Page, precedes, newer, after_cursor, last_key, cut, keyset, list_page, decode_after,
  encode_next, encode_cursor,
}
use titan_tyr.Pagination.Cursor.{ReadsBack, decode_cursor-encode_cursor}
use titan_tyr.Pagination.Descending.{
  drop, DistinctKeys, Descending, select-select, select-Descending, select-sort_by,
  sort_by-Descending, behind_last,
}

abbrev joined {ℓ} : {A : Type ℓ} → List A → Option (List A) → Option (List A)
joined xs none = none
joined xs (some ys) = some (xs ++ ys)

abbrev onward :
    {X : Type 0} → (List ℕ → Option (List X)) → List X → Option (List ℕ) → Option (List X)
onward rest results none = some results
onward rest results (some cursor) = joined results (rest cursor)

abbrev follow : {X : Type 0} → (List ℕ → Option (List X)) → Result (Page X) → Option (List X)
follow rest (err e) = none
follow rest (ok page) = onward rest page.results page.next

-- The results of the pages that a client reads, from the cursor on to the page without a next one;
-- none where a page fails or the count of pages is used up.
unfoldable pub walk :
    {X : Type 0} → (Option (List ℕ) → Result (Page X)) → ℕ → Option (List ℕ) → Option (List X)
walk ask zero after = none
walk ask (suc count) after = follow (λ cursor. walk ask count (some cursor)) (ask after)

module _ {A : Type 0} where
  take-take : (n : ℕ) (xs : List A) → take n (take (suc n) xs) ≡ take n xs
  take-take zero xs = refl
  take-take (suc n) [] = refl
  take-take (suc n) (x ∷ xs) = rw (take-take n xs)

  length-take_more : (n : ℕ) (xs : List A) → ltb n (length (take (suc n) xs)) ≡ ltb n (length xs)
  length-take_more zero [] = refl
  length-take_more zero (x ∷ xs) = ground arith
  length-take_more (suc n) [] = refl
  length-take_more (suc n) (x ∷ xs) = ground (arith, length-take_more n xs)

  take-whole : (n : ℕ) (xs : List A) → ltb n (length xs) ≡ false → take n xs ≡ xs
  take-whole zero [] h = refl
  take-whole zero (x ∷ xs) h = ground arith
  take-whole (suc n) [] h = refl
  take-whole (suc n) (x ∷ xs) h = rw (take-whole n xs (ground arith)) refl

  length-drop : (n : ℕ) (xs : List A) → length (drop n xs) ≤ length xs
  length-drop zero xs = omega arith
  length-drop (suc n) [] = omega arith
  length-drop (suc n) (x ∷ xs) = let k = length-drop n xs in omega arith

  map-take-drop :
      {X : Type 0} (f : A → X) (n : ℕ) (xs : List A)
      → map f (take n xs) ++ map f (drop n xs) ≡ map f xs
  map-take-drop f zero xs = refl
  map-take-drop f (suc n) [] = refl
  map-take-drop f (suc n) (x ∷ xs) = rw (map-take-drop f n xs)

  pub length-map : {X : Type 0} (f : A → X) (xs : List A) → length (map f xs) ≡ length xs
  length-map f [] = refl
  length-map f (x ∷ xs) = rw (length-map f xs)

  pub length-take : (n : ℕ) (xs : List A) → length (take n xs) ≤ n
  length-take zero xs = omega arith
  length-take (suc n) [] = omega arith
  length-take (suc n) (x ∷ xs) = let k = length-take n xs in omega arith

module _ {A X : Type 0} (stamp : A → Timestamp) (id : A → Uuid) (codec : Codec) (item : A → X) where
  order_behind :
      (key : Option (Timestamp × Uuid)) (rows here : List A)
      → DistinctKeys stamp id rows
      → after_cursor stamp id key (sort_by (newer stamp id) rows) ≡ here
      → Descending stamp id here
  order_behind none rows here d e = rw (← e) (sort_by-Descending stamp id rows d)
  order_behind (some key) rows here d e =
      rw (← e)
        (select-Descending stamp id (precedes stamp id key) _ (sort_by-Descending stamp id rows d))

  -- Behind a row that is behind the cursor, what is behind it in all is what is behind it here.
  deeper :
      (key : Option (Timestamp × Uuid)) (z : A) (rows here : List A)
      → In z here
      → after_cursor stamp id key (sort_by (newer stamp id) rows) ≡ here
      → after_cursor stamp id (some (stamp z, id z)) (sort_by (newer stamp id) rows)
        ≡ select (precedes stamp id (stamp z, id z)) here
  deeper none z rows here m e = ap (select (precedes stamp id (stamp z, id z))) e
  deeper (some key) z rows here m e =
      let (_, up) = In-select (precedes stamp id key) z (sort_by (newer stamp id) rows) (rw e m) in
      sym (
        select-select (precedes stamp id key) (precedes stamp id (stamp z, id z))
          (λ a h. ground arith) (sort_by (newer stamp id) rows))
      ∙ ap (select (precedes stamp id (stamp z, id z))) e

  abbrev pub page_behind : ℕ → List A → Page X
  page_behind limit here = record {
    results = map item (take limit here);
    next =
        encode_next codec
          (if ltb limit (length here) then last_key stamp id (take limit here) else none);
  }

  -- A page, from the rows that are behind its cursor.
  list_page-behind :
      (limit : ℕ) (key : Option (Timestamp × Uuid)) (rows here : List A)
      → ReadsBack codec
      → DistinctKeys stamp id rows
      → after_cursor stamp id key (sort_by (newer stamp id) rows) ≡ here
      → list_page stamp id codec item limit (encode_next codec key) rows
        ≡ ok (page_behind limit here)
  unfolding list_page keyset cut
  list_page-behind limit none rows here b d e =
      rw (e, take-take limit here, length-take_more limit here) refl
  list_page-behind limit (some key) rows here b d e =
      rw
        (
          decode_cursor-encode_cursor codec b key.0 key.1,
          ← select-sort_by stamp id (precedes stamp id key) rows d,
          e,
          take-take limit here,
          length-take_more limit here,
        )
        refl

  -- Requests that give the page behind each cursor.
  abbrev pub Serves : (Option (List ℕ) → Result (Page X)) → ℕ → List A → Type 0
  Serves ask limit rows =
      (key : Option (Timestamp × Uuid)) (here : List A)
      → after_cursor stamp id key (sort_by (newer stamp id) rows) ≡ here
      → ask (encode_next codec key) ≡ ok (page_behind limit here)

  walk-behind :
      (ask : Option (List ℕ) → Result (Page X)) (limit count : ℕ) (key : Option (Timestamp × Uuid))
      (rows here : List A)
      → Serves ask limit rows
      → DistinctKeys stamp id rows
      → 1 ≤ limit
      → after_cursor stamp id key (sort_by (newer stamp id) rows) ≡ here
      → length here < count
      → walk ask count (encode_next codec key) ≡ some (map item here)
  unfolding walk
  walk-behind ask limit zero key rows here b d l e c = absurd (omega arith)
  walk-behind ask zero (suc count) key rows here b d l e c = absurd (omega arith)
  walk-behind ask (suc n) (suc count) key rows [] b d l e c =
      let low : ltb (suc n) 0 ≡ false = ground arith in rw (b key [] e, low) refl
  walk-behind ask (suc n) (suc count) key rows (x ∷ xs) b d l e c =
      elim (Bool-cases (ltb (suc n) (length (x ∷ xs)))) [
        | inl more ↦
            let (z, m, last, behind) =
              behind_last stamp id n x xs (order_behind key rows (x ∷ xs) d e) in
            let rest : walk ask count (some (encode_cursor codec (stamp z) (id z)))
                ≡ some (map item (drop n xs)) =
              walk-behind ask (suc n) count (some (stamp z, id z)) rows (drop n xs) b d l
                (deeper key z rows (x ∷ xs) m e ∙ behind)
                (let k = length-drop n xs in omega arith) in
            rw (b key (x ∷ xs) e, more, last, rest) (ap some (map-take-drop item (suc n) (x ∷ xs)))
        | inr done ↦
            rw (b key (x ∷ xs) e, done)
              (ap (λ ys. some (map item ys)) (take-whole (suc n) (x ∷ xs) done))
      ]

  -- From the first page on.
  pub walk-Serves :
      (ask : Option (List ℕ) → Result (Page X)) (limit : ℕ) (rows : List A)
      → Serves ask limit rows
      → DistinctKeys stamp id rows
      → 1 ≤ limit
      → walk ask (suc (length rows)) none ≡ some (map item (sort_by (newer stamp id) rows))
  walk-Serves ask limit rows b d l =
      walk-behind ask limit (suc (length rows)) none rows (sort_by (newer stamp id) rows) b d l refl
        (let k = length-sort_by (newer stamp id) rows in omega arith)

  -- From the first page on, the pages of a list are all its rows, in the order of the query, each
  -- once, and no more requests are needed than there are rows, and one.
  pub walk-list_page :
      (limit : ℕ) (rows : List A)
      → ReadsBack codec
      → DistinctKeys stamp id rows
      → 1 ≤ limit
      → walk (λ after. list_page stamp id codec item limit after rows) (suc (length rows)) none
        ≡ some (map item (sort_by (newer stamp id) rows))
  walk-list_page limit rows b d l =
      walk-Serves (λ after. list_page stamp id codec item limit after rows) limit rows
        (λ key here e. list_page-behind limit key rows here b d e) d l

  -- No page is longer than its limit.
  pub length-list_page :
      (limit : ℕ) (after : Option (List ℕ)) (rows : List A) {page : Page X}
      → list_page stamp id codec item limit after rows ≡ ok page
      → length page.results ≤ limit
  unfolding list_page cut
  length-list_page limit after rows {page} h = >>=-elim (decode_after codec after) _ h λ key h1 k1.
      let e = ap (λ (q : Page X). q.results) (ok-injective k1) in
      rw (← e) (
        rw (length-map item (take limit (keyset stamp id limit key rows)))
          (length-take limit (keyset stamp id limit key rows)))
