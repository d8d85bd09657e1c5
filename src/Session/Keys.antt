-- ===== src/Session/Keys.antt =====
-- src/models.py: the primary key of `parts`.
use titan_tyr.Prelude.{
  ◌≡◌, ◌≢◌, sym, ap, ◌∙◌, true, false, List, [], ◌∷◌, any, In, inl, inr, arith, ◌==◌, ℕ-eq, eq→==,
}
use titan_tyr.Models.Rows.{Part, Db}

-- No two rows have one identifier.
abbrev pub DistinctIds : List Part → Type 0
DistinctIds [] = Unit
DistinctIds (p ∷ ps) = (any (λ (q : Part). q.id == p.id) ps ≡ false) × DistinctIds ps

-- `parts` under its primary key.
abbrev pub KeyedParts : Db → Type 0
KeyedParts db = DistinctIds db.parts

absent :
    (p : Part) (ps : List Part)
    → any (λ (q : Part). q.id == p.id) ps ≡ false
    → (q : Part) → In q ps
    → q.id ≢ p.id
unfolding any
absent p [] h q m e = absurd m
absent p (x ∷ xs) h q (inl here) e =
    let k : (x.id == p.id) ≡ true = eq→== x.id p.id (ap (λ (y : Part). y.id) (sym here) ∙ e) in
    ground arith
absent p (x ∷ xs) h q (inr later) e = absent p xs (ground arith) q later e

-- A table with that key has one row for each identifier.
pub one_row :
    (ps : List Part) → DistinctIds ps → (p q : Part) → In p ps → In q ps → p.id ≡ q.id → p ≡ q
one_row [] d p q m k e = absurd m
one_row (x ∷ xs) d p q (inl m) (inl k) e = m ∙ sym k
one_row (x ∷ xs) d p q (inl m) (inr k) e =
    absurd (absent x xs d.0 q k (sym e ∙ ap (λ (y : Part). y.id) m))
one_row (x ∷ xs) d p q (inr m) (inl k) e =
    absurd (absent x xs d.0 p m (e ∙ ap (λ (y : Part). y.id) k))
one_row (x ∷ xs) d p q (inr m) (inr k) e = one_row xs d.1 p q m k e
