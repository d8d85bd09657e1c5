-- ===== src/Auth/Scopes.antt =====
-- src/schemas.py: the scopes and what each implies.
use titan_tyr.Prelude.{
  ◌≡◌, refl, ◌⊎◌, inl, inr, Bool, true, List, [], ◌∷◌, ◌++◌, In, any, arith, ◌==◌, ==→eq, eq→==,
  Result, raise_if, not,
}
use titan_tyr.Models.Kinds.{Scope, read, write, revoke_agent, Scope-eq}

-- `_SCOPE_IMPLIES`
unfoldable pub scope_implies : Scope → List Scope
scope_implies read = read ∷ []
scope_implies write = read ∷ write ∷ []
scope_implies revoke_agent = read ∷ write ∷ revoke_agent ∷ []

-- `expand_scopes`: the set as a list, of which only the members count.
unfoldable pub expand_scopes : List Scope → List Scope
expand_scopes [] = []
expand_scopes (s ∷ ss) = scope_implies s ++ expand_scopes ss

-- `s in scopes`
unfoldable pub has_scope : Scope → List Scope → Bool
has_scope s scopes = any (λ t. s == t) scopes

-- `require_scope`
unfoldable pub require_scope : Scope → List Scope → Result (Unit {0})
require_scope needed scopes = raise_if (not (has_scope needed scopes)) 403

pub has_scope-In : (s : Scope) (scopes : List Scope) → has_scope s scopes ≡ true → In s scopes
unfolding has_scope any
has_scope-In s [] h = cc
has_scope-In s (t ∷ ts) h = ground (arith, has_scope-In s ts, ==→eq s t)

pub In-has_scope : (s : Scope) (scopes : List Scope) → In s scopes → has_scope s scopes ≡ true
unfolding has_scope any
In-has_scope s [] h = absurd h
In-has_scope s (t ∷ ts) h = ground (arith, In-has_scope s ts, eq→== s t)

pub In-append : {A : Type 0} (a : A) (xs ys : List A) → In a (xs ++ ys) → In a xs ⊎ In a ys
In-append a [] ys h = inr h
In-append a (x ∷ xs) ys (inl e) = inl (inl e)
In-append a (x ∷ xs) ys (inr h) = elim (In-append a xs ys h) [ inl l ↦ inl (inr l) | inr r ↦ inr r ]

pub append-In : {A : Type 0} (a : A) (xs ys : List A) → In a xs ⊎ In a ys → In a (xs ++ ys)
append-In a [] ys (inl h) = absurd h
append-In a [] ys (inr h) = h
append-In a (x ∷ xs) ys (inl (inl e)) = inl e
append-In a (x ∷ xs) ys (inl (inr h)) = inr (append-In a xs ys (inl h))
append-In a (x ∷ xs) ys (inr h) = inr (append-In a xs ys (inr h))

-- A scope is effective exactly where some granted scope implies it.
pub expand-granted :
    (s : Scope) (granted : List Scope)
    → In s (expand_scopes granted)
    → (g : Scope) × In g granted × In s (scope_implies g)
unfolding expand_scopes
expand-granted s [] h = absurd h
expand-granted s (g ∷ gs) h = elim (In-append s (scope_implies g) (expand_scopes gs) h) [
  | inl here ↦ (g, inl refl, here)
  | inr later ↦ let (k, m, i) = expand-granted s gs later in (k, inr m, i)
]

pub granted-expand :
    (s g : Scope) (granted : List Scope)
    → In g granted
    → In s (scope_implies g)
    → In s (expand_scopes granted)
unfolding expand_scopes
granted-expand s g [] m i = absurd m
granted-expand s g (k ∷ ks) (inl e) i =
    append-In s (scope_implies k) (expand_scopes ks) (inl (rw (← e) i))
granted-expand s g (k ∷ ks) (inr m) i =
    append-In s (scope_implies k) (expand_scopes ks) (inr (granted-expand s g ks m i))
