-- ===== src/Rules/Pairs.antt =====
-- What the checks on the two endpoints amount to.
use titan_tyr.Prelude.{
  true, ◌&&◌, List, [], ◌∷◌, map, any, ◌==◌, ap, ==→eq, eq→==, ◌≡◌, ◌↔◌, ◌⊎◌, refl, arith, Option,
  none, some, ok,
}
use titan_tyr.Models.Kinds.{
  PartSubtype, software, container, pod, PartSubtype-eq, PartSubtype-discrete, ContractSubtype,
  interaction, binding, connection, ConnectionType,
}
use titan_tyr.Rules.{
  member, connection_rules, allowed_owner_subtypes, allowed_counterparty_subtypes, is_pair_allowed,
  binding_violation, connection_violation, check_source_target,
}

-- Membership, with the place.
abbrev pub In : PartSubtype × PartSubtype → List (PartSubtype × PartSubtype) → Type 0
In p [] = ⊥
In p (q ∷ l) = (p ≡ q) ⊎ In p l

-- Which endpoints a contract of each kind may join.
abbrev pub Admits : ContractSubtype → Option ConnectionType → PartSubtype → PartSubtype → Type 0
Admits interaction t o c = Unit
Admits binding t o c = ((o ≡ container) ⊎ (o ≡ pod)) × (c ≡ software)
Admits connection none o c = ⊥
Admits connection (some t) o c = In (o, c) (connection_rules t)

-- A pair of the list has its owner among the owners and its counterparty among the counterparties.
pair_sides :
    (o c : PartSubtype) (l : List (PartSubtype × PartSubtype))
    → any (λ (p : PartSubtype × PartSubtype). o == p.0 && c == p.1) l ≡ true
    → (member o (map (λ (p : PartSubtype × PartSubtype). p.0) l) ≡ true)
      × (member c (map (λ (p : PartSubtype × PartSubtype). p.1) l) ≡ true)
unfolding any member
pair_sides o c [] h = (cc, cc)
pair_sides o c ((a, b) ∷ l) h = ground (arith, pair_sides o c l)

In-any :
    (o c : PartSubtype) (l : List (PartSubtype × PartSubtype))
    → any (λ (p : PartSubtype × PartSubtype). o == p.0 && c == p.1) l ≡ true
    → In (o, c) l
unfolding any
In-any o c [] h = cc
In-any o c ((a, b) ∷ l) h = ground (arith, In-any o c l, ==→eq o a, ==→eq c b)

any-In :
    (o c : PartSubtype) (l : List (PartSubtype × PartSubtype))
    → In (o, c) l
    → any (λ (p : PartSubtype × PartSubtype). o == p.0 && c == p.1) l ≡ true
unfolding any
any-In o c [] h = absurd h
any-In o c ((a, b) ∷ l) h = ground (arith, any-In o c l, eq→== o a, eq→== c b)

pair_allowed-sides :
    (t : ConnectionType) (o c : PartSubtype)
    → is_pair_allowed t o c ≡ true
    → (member o (allowed_owner_subtypes t) ≡ true)
      × (member c (allowed_counterparty_subtypes t) ≡ true)
unfolding is_pair_allowed allowed_owner_subtypes allowed_counterparty_subtypes
pair_allowed-sides t o c h = pair_sides o c (connection_rules t) h

-- For a label, the three checks pass exactly where the last of them, on the pair, does.
pub connection_violation-pair :
    (t : ConnectionType) (o c : PartSubtype)
    → (connection_violation t o c ≡ none) ↔ (is_pair_allowed t o c ≡ true)
unfolding connection_violation
connection_violation-pair t o c = (ground arith, λ h. ground (arith, pair_allowed-sides t o c))

pair_allowed-In :
    (t : ConnectionType) (o c : PartSubtype)
    → (is_pair_allowed t o c ≡ true) ↔ In (o, c) (connection_rules t)
unfolding is_pair_allowed
pair_allowed-In t o c = (In-any o c (connection_rules t), any-In o c (connection_rules t))

pub connection-Admits :
    (o c : PartSubtype) (t : ConnectionType)
    → (connection_violation t o c ≡ none) ↔ In (o, c) (connection_rules t)
connection-Admits o c t = (
  λ h. (pair_allowed-In t o c).0 ((connection_violation-pair t o c).0 h),
  λ h. (connection_violation-pair t o c).1 ((pair_allowed-In t o c).1 h),
)

pub binding-Admits :
    (o c : PartSubtype)
    → (binding_violation o c ≡ none) ↔ (((o ≡ container) ⊎ (o ≡ pod)) × (c ≡ software))
unfolding binding_violation member any PartSubtype-discrete
binding-Admits o c = (ground arith, ground arith)

-- The checks on the endpoints pass exactly for the pairs that the kind of contract admits.
pub check-Admits :
    (o c : PartSubtype) (s : ContractSubtype) (t : Option ConnectionType)
    → (check_source_target o c s t ≡ ok none) ↔ Admits s t o c
unfolding check_source_target
check-Admits o c interaction t = ((λ _. tt), λ _. refl)
check-Admits o c binding t = ground (arith, binding-Admits o c)
check-Admits o c connection none = ((λ h. cc), λ h. absurd h)
check-Admits o c connection (some t) =
    ((λ h. (connection-Admits o c t).0 (cc)), λ h. ap ok ((connection-Admits o c t).1 h))
