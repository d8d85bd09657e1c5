-- ===== src/History/Standing.antt =====
-- Which version stood at a time: `_version_at` of the two histories.
use titan_tyr.Prelude.{
  ◌≡◌, ◌≤◌, ◌<◌, refl, sym, ◌⊎◌, inl, inr, Bool, Option, none, some, List, [], ◌∷◌, arith, leb, ltb,
  insert_by, sort_by, In, All, All-In, Bool-cases, Option-cases,
}
use titan_tyr.Models.Rows.{Timestamp}
use titan_tyr.Versioning.Text.{show}
use titan_tyr.Texts.{codes}
use titan_tyr.History.{Body, body_sorted, last_until, version_at}

abbrev earlier : Body → Body → Bool
earlier a b = ltb a.at b.at

abbrev Ascending : List Body → Type 0
Ascending [] = Unit
Ascending (r ∷ rs) = All (λ (s : Body). r.at ≤ s.at) rs × Ascending rs

All-insert :
    (P : Body → Type 0) (x : Body) (ys : List Body)
    → P x
    → All P ys
    → All P (insert_by earlier x ys)
unfolding insert_by
All-insert P x [] h k = (h, tt)
All-insert P x (y ∷ ys) h k = elim (Bool-cases (earlier y x)) [
  | inl t ↦ rw t (k.0, All-insert P x ys h k.1)
  | inr f ↦ rw f (h, k)
]

All-later :
    (x y : Body) (ys : List Body)
    → x.at ≤ y.at
    → All (λ (s : Body). y.at ≤ s.at) ys
    → All (λ (s : Body). x.at ≤ s.at) ys
All-later x y [] h k = tt
All-later x y (s ∷ ys) h k = (omega arith, All-later x y ys h k.1)

insert-Ascending : (x : Body) (ys : List Body) → Ascending ys → Ascending (insert_by earlier x ys)
unfolding insert_by
insert-Ascending x [] d = (tt, tt)
insert-Ascending x (y ∷ ys) d = elim (Bool-cases (earlier y x)) [
  | inl t ↦
      rw t
        (All-insert (λ (s : Body). y.at ≤ s.at) x ys (ground arith) d.0, insert-Ascending x ys d.1)
  | inr f ↦ let low : x.at ≤ y.at = ground arith in rw f ((low, All-later x y ys low d.0), d)
]

sort-Ascending : (rs : List Body) → Ascending (sort_by earlier rs)
unfolding sort_by
sort-Ascending [] = tt
sort-Ascending (r ∷ rs) = insert-Ascending r _ (sort-Ascending rs)

In-insert :
    (x : Body) (ys : List Body) (a : Body) → In a (insert_by earlier x ys) → (a ≡ x) ⊎ In a ys
unfolding insert_by
In-insert x [] a m = m
In-insert x (y ∷ ys) a m = elim (Bool-cases (earlier y x)) [
  | inl t ↦ elim (rw t at m) [
    | inl here ↦ inr (inl here)
    | inr later ↦ weaken (In-insert x ys a later)
  ]
  | inr f ↦ rw f at m
]
  where
    weaken : (a ≡ x) ⊎ In a ys → (a ≡ x) ⊎ ((a ≡ y) ⊎ In a ys)
    weaken (inl e) = inl e
    weaken (inr k) = inr (inr k)

insert-In :
    (x : Body) (ys : List Body) (a : Body) → (a ≡ x) ⊎ In a ys → In a (insert_by earlier x ys)
unfolding insert_by
insert-In x [] a m = m
insert-In x (y ∷ ys) a m = elim (Bool-cases (earlier y x)) [
  | inl t ↦ rw t (elim m [
    | inl e ↦ inr (insert-In x ys a (inl e))
    | inr k ↦ elim k [ inl here ↦ inl here | inr later ↦ inr (insert-In x ys a (inr later)) ]
  ])
  | inr f ↦ rw f m
]

In-sort : (rs : List Body) (a : Body) → In a (sort_by earlier rs) → In a rs
unfolding sort_by
In-sort [] a m = m
In-sort (r ∷ rs) a m = elim (In-insert r (sort_by earlier rs) a m) [
  | inl e ↦ inl e
  | inr k ↦ inr (In-sort rs a k)
]

sort-In : (rs : List Body) (a : Body) → In a rs → In a (sort_by earlier rs)
unfolding sort_by
sort-In [] a m = m
sort-In (r ∷ rs) a (inl e) = insert-In r _ a (inl e)
sort-In (r ∷ rs) a (inr k) = insert-In r _ a (inr (sort-In rs a k))

-- The body row that stands at a time: no later than it, and no other such row is later.
abbrev pub Stands : List Body → Timestamp → Body → Type 0
Stands rows t r = In r rows × (r.at ≤ t) × ((s : Body) → In s rows → s.at ≤ t → s.at ≤ r.at)

abbrev After : Timestamp → Body → Type 0
After t s = t < s.at

All-After :
    (t : Timestamp) (x : Body) (xs : List Body)
    → t < x.at
    → All (λ (s : Body). x.at ≤ s.at) xs
    → All (After t) xs
All-After t x [] h k = tt
All-After t x (s ∷ xs) h k = (omega arith, All-After t x xs h k.1)

abbrev Outcome : Option Body → List Body → Timestamp → Option Body → Type 0
Outcome b rs t none = (b ≡ none) × All (After t) rs
Outcome b rs t (some r) = ((b ≡ some r) × All (After t) rs) ⊎ Stands rs t r

stay : (b : Option Body) (rs : List Body) (t : Timestamp) → All (After t) rs → Outcome b rs t b
stay none rs t h = (refl, h)
stay (some r) rs t h = inl (refl, h)

move :
    (b : Option Body) (x : Body) (xs : List Body) (t : Timestamp) (o : Option Body)
    → x.at ≤ t
    → All (λ (s : Body). x.at ≤ s.at) xs
    → Outcome (some x) xs t o
    → Outcome b (x ∷ xs) t o
move b x xs t none low up h = absurd (cc (h.0))
move b x xs t (some r) low up (inl h) =
    let e : x ≡ r = cc (h.0) in
    inr (
      inl (sym e),
      rw (← e) low,
      λ s m k. elim m [
        | inl here ↦ rw (here, e) (omega arith)
        | inr later ↦ let late : t < s.at = All-In (After t) s xs h.1 later in absurd (omega arith)
      ],
    )
move b x xs t (some r) low up (inr (m, k, best)) = inr (
  inr m,
  k,
  λ s i j. elim i [
    | inl here ↦ rw here (All-In (λ (s : Body). x.at ≤ s.at) r xs up m)
    | inr later ↦ best s later j
  ],
)

last_until-Outcome :
    (b : Option Body) (rs : List Body) (t : Timestamp)
    → Ascending rs
    → Outcome b rs t (last_until b rs t)
unfolding last_until
last_until-Outcome b [] t d = stay b [] t tt
last_until-Outcome b (x ∷ xs) t d = elim (Bool-cases (leb x.at t)) [
  | inl low ↦ rw low (move b x xs t _ (ground arith) d.0 (last_until-Outcome (some x) xs t d.1))
  | inr high ↦
      let up : t < x.at = ground arith in rw high (stay b (x ∷ xs) t (up, All-After t x xs up d.0))
]

-- The version at a time is that of a body row that stood then: one that is no later than the time, and
-- than which no other such row is later; where every body row is later, it is `0.0.0`.
pub version_at-Stands :
    (rows : List Body) (t : Timestamp)
    → ((r : Body) × Stands rows t r × (version_at rows t ≡ show r.version))
      ⊎ (((s : Body) → In s rows → t < s.at) × (version_at rows t ≡ codes "0.0.0"))
unfolding version_at body_sorted
version_at-Stands rows t = elim (Option-cases (last_until none (sort_by earlier rows) t)) [
  | inl e ↦
      let o : Outcome none (sort_by earlier rows) t none =
        rw e at (last_until-Outcome none (sort_by earlier rows) t (sort-Ascending rows)) in
      inr ((λ s m. All-In (After t) s (sort_by earlier rows) o.1 (sort-In rows s m)), rw e refl)
  | inr (r, e) ↦
      let o : Outcome none (sort_by earlier rows) t (some r) =
        rw e at (last_until-Outcome none (sort_by earlier rows) t (sort-Ascending rows)) in
      elim o [
        | inl no_row ↦ absurd (cc (no_row.0))
        | inr stands ↦
            let (m, k, best) = stands in
            inl (r, (In-sort rows r m, k, λ s i. best s (sort-In rows s i)), rw e refl)
      ]
]
