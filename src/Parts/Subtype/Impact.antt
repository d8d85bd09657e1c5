-- ===== src/Parts/Subtype/Impact.antt =====
-- What the impact of a part's subtype shift lists.
use titan_tyr.Prelude.{◌≡◌, ◌↔◌, refl, Option, none, some, true}
use titan_tyr.Models.Kinds.{
  PartSubtype, ContractSubtype, interaction, binding, connection, ConnectionType,
}
use titan_tyr.Session.Live.{connection_type_fits}
use titan_tyr.Rules.Pairs.{Admits, binding-Admits, connection-Admits}
use titan_tyr.Parts.Subtype.{broken_rule}

-- A kind of contract whose label fits its subtype breaks no rule of the preview at two ends exactly
-- where it admits them.
pub broken_rule-Admits :
    (s : ContractSubtype) (t : Option ConnectionType) (o cp : PartSubtype)
    → connection_type_fits s t ≡ true
    → (broken_rule s t o cp ≡ none) ↔ Admits s t o cp
unfolding broken_rule
broken_rule-Admits interaction t o cp fits = ((λ _. tt), λ _. refl)
broken_rule-Admits binding t o cp fits = binding-Admits o cp
broken_rule-Admits connection none o cp fits = cc
broken_rule-Admits connection (some t) o cp fits = connection-Admits o cp t
