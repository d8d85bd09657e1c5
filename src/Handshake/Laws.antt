-- ===== src/Handshake/Laws.antt =====
-- Whom the two gates let pass.
use titan_tyr.Prelude.{
  Bool, true, false, ◌≡◌, ◌≢◌, ◌↔◌, ◌⊎◌, ap, none, some, List, [], ◌∷◌, String, ok, arith, any,
  String-eq, ==→eq, ==-refl, ne→==, In, Bool-cases, inl, inr, refl,
}
use titan_tyr.Models.Rows.{Actor}
use titan_tyr.Handshake.{contains, enforce_human_confirmation, enforce_two_party}

-- The override is set, or one of the actors is unknown, or the two differ.
abbrev pub TwoParty : Actor → Actor → Bool → Type 0
TwoParty proposer acceptor single_operator =
    (single_operator ≡ true) ⊎ ((proposer ≡ none) ⊎ ((acceptor ≡ none) ⊎ (proposer ≢ acceptor)))

differing :
    (x y : String)
    → enforce_two_party (some x) (some y) false ≡ ok tt
    → TwoParty (some x) (some y) false
unfolding enforce_two_party
differing x y h = inr (inr (inr λ e. ground (arith, ==-refl x)))

passing :
    (x y : String)
    → TwoParty (some x) (some y) false
    → enforce_two_party (some x) (some y) false ≡ ok tt
unfolding enforce_two_party
passing x y (inl h) = cc
passing x y (inr (inl h)) = cc
passing x y (inr (inr (inl h))) = cc
passing x y (inr (inr (inr h))) = rw (ne→== x y (λ e. h (ap some e)))

-- The two-party rule passes exactly where the override is set, an actor is unknown, or the two differ.
pub enforce_two_party_lem :
    (proposer acceptor : Actor) (single_operator : Bool)
    → (enforce_two_party proposer acceptor single_operator ≡ ok tt)
      ↔ TwoParty proposer acceptor single_operator
unfolding enforce_two_party
enforce_two_party_lem none acceptor single = ((λ h. inr (inl refl)), λ h. ground arith)
enforce_two_party_lem (some x) none single = ((λ h. inr (inr (inl refl))), λ h. ground arith)
enforce_two_party_lem (some x) (some y) true = ((λ h. inl refl), λ h. refl)
enforce_two_party_lem (some x) (some y) false = (differing x y, passing x y)

-- An actor confirms a destructive step as a human: known, and no live agent.
abbrev pub IsHuman : Actor → List String → Type 0
IsHuman none agents = ⊥
IsHuman (some a) agents = ¬ (In a agents)

contains-In : (a : String) (agents : List String) → In a agents → contains agents a ≡ true
unfolding contains any
contains-In a [] h = absurd h
contains-In a (b ∷ bs) h = ground (arith, contains-In a bs, ==-refl a)

In-contains : (a : String) (agents : List String) → contains agents a ≡ true → In a agents
unfolding contains any
In-contains a [] h = cc
In-contains a (b ∷ bs) h = ground (arith, In-contains a bs, ==→eq a b)

-- The human-confirmation rule passes exactly for a known actor outside the allowlist of agents.
pub enforce_human_confirmation_lem :
    (acceptor : Actor) (agents : List String)
    → (enforce_human_confirmation acceptor agents ≡ ok tt) ↔ IsHuman acceptor agents
unfolding enforce_human_confirmation
enforce_human_confirmation_lem none agents = ((λ h. cc), λ h. absurd h)
enforce_human_confirmation_lem (some a) agents = (
  (λ h m. ground (arith, contains-In a agents)),
  λ h. elim (Bool-cases (contains agents a)) [
    | inl t ↦ absurd (h (In-contains a agents t))
    | inr f ↦ rw f
  ],
)
