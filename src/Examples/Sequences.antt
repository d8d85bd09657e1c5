-- ===== src/Examples/Sequences.antt =====
-- Sequences of proposals, and the same handshake on templates.
use titan_tyr.Session.Versions.{latest_any_version, same_version, add_contract_version, top_version}
use titan_tyr.Versioning.{lt, max_from, stable}
use titan_tyr.Contracts.Common.{live_contract}
use titan_tyr.Session.Live.{get_contract_row}
use titan_tyr.Session.Queries.{first, scalar_one_or_none}
use titan_tyr.Versioning.Text.{parse}
use titan_tyr.Proposals.{rows_of_version, promote}
use titan_tyr.Texts.{same_text}
use titan_tyr.Handshake.{enforce_two_party}
use titan_tyr.Prelude.{select, update}
use titan_tyr.Session.Live.{get_contract_row}
use titan_tyr.Contracts.Common.{live_contract}
use titan_tyr.Templates.Rows.{templates_of_kind}
use titan_tyr.Handshake.{contains}
use titan_tyr.Prelude.{
  select, ℕ, ◌≡◌, ◌≢◌, refl, sym, ◌∙◌, true, false, some, List, [], ◌∷◌, In, inl, inr, arith, ap,
  any, ◌==◌, ℕ-eq, eq→==,
}
use titan_tyr.Models.Rows.{Uuid, ContractVersion, Db}
use titan_tyr.Session.Queries.{first, scalar_one_or_none, Call}
use titan_tyr.Session.Versions.{version_of, latest_active_contract_version}
use titan_tyr.Versioning.{is_prerelease}
use titan_tyr.Texts.{codes}
use titan_tyr.Proposals.{ProposalCreate, create_proposal, accept_proposal}
use titan_tyr.Proposals.Latest.{NotAbove}
use titan_tyr.Proposals.History.{
  KeyedVersions, Releases, still, proposes, accepts, Releases-published, Releases-latest_active,
}
use titan_tyr.Templates.{validate_kind, template_row, accept_template_proposal}
use titan_tyr.Templates.Agreement.{
  mirrored, template_outcome, contract_outcome, as_accept_reply,
  accept_template_proposal-accept_proposal,
}
use titan_tyr.Examples.Data.{after, binds, first_row, candidate, pod_template, call, db}

abbrev patch : ProposalCreate
patch = record { version = codes "1.1.0-rc2"; markdown = codes "body" }

abbrev later_call : Call
later_call = record call { new_id = 75 }

abbrev row_id : ContractVersion → Uuid
row_id r = r.id

apart : ¬ (row_id first_row ≡ row_id candidate)
apart e = omega arith

-- An identifier that a search does not find is new.
unused :
    (n : ℕ) (rows : List ContractVersion)
    → any (λ (r : ContractVersion). r.id == n) rows ≡ false
    → (r : ContractVersion) → In r rows
    → r.id ≢ n
unfolding any
unused n [] h r m e = absurd m
unused n (x ∷ xs) h r (inl p) e =
    let t : (x.id == n) ≡ true = eq→== x.id n (sym (ap row_id p) ∙ e) in ground arith
unused n (x ∷ xs) h r (inr m) e = unused n xs (ground arith) r m e

-- A second release candidate is proposed, then the first one accepted.
abbrev proposed : Db
proposed = after (create_proposal call 10 patch db)

abbrev released : Db
released = after (accept_proposal later_call 10 (codes "1.1.0-rc1") false proposed)

then_accepts : Releases proposed released
unfolding create_proposal latest_any_version lt max_from accept_proposal live_contract
    get_contract_row first select parse scalar_one_or_none rows_of_version same_version same_text
    enforce_two_party promote stable add_contract_version any update
then_accepts =
    accepts later_call 10 (codes "1.1.0-rc1") false proposed _ _
      (unused 75 proposed.contract_versions refl) refl (still _)

steps : Releases db released
unfolding create_proposal latest_any_version lt max_from live_contract get_contract_row first select
    parse same_version same_text add_contract_version any
steps = proposes call 10 patch db _ _ (unused 70 db.contract_versions refl) refl then_accepts

keyed : KeyedVersions db
keyed a c (inl p) (inl q) e = p ∙ sym q
keyed a c (inl p) (inr (inl q)) e = absurd (apart (sym (ap row_id p) ∙ e ∙ ap row_id q))
keyed a c (inl p) (inr (inr q)) e = absurd q
keyed a c (inr (inl p)) (inl q) e = absurd (apart (sym (ap row_id q) ∙ sym e ∙ ap row_id p))
keyed a c (inr (inl p)) (inr (inl q)) e = p ∙ sym q
keyed a c (inr (inl p)) (inr (inr q)) e = absurd q
keyed a c (inr (inr p)) n e = absurd p

Releases-published_example : In first_row released.contract_versions
Releases-published_example = Releases-published db released keyed steps first_row (inl refl) refl

Releases-latest_active_example :
    (u : ContractVersion) × (latest_active_contract_version released 10 ≡ some u)
    × NotAbove u first_row
    × (is_prerelease (version_of u) ≡ false)
unfolding is_prerelease latest_active_contract_version top_version select
Releases-latest_active_example =
    Releases-latest_active db released 10 first_row keyed (refl, (refl, tt)) steps refl

-- Contracts whose versions are those of the templates.
abbrev as_contracts : Db
as_contracts = record db { contract_versions = mirrored db }

accept_template_proposal-accept_proposal_example :
    template_outcome
      (as_accept_reply 10)
      (accept_template_proposal call "pod" (codes "1.1.0-rc1") false db)
    ≡ contract_outcome (accept_proposal call 10 (codes "1.1.0-rc1") false as_contracts)
unfolding template_row validate_kind contains any scalar_one_or_none templates_of_kind select
    live_contract get_contract_row first
accept_template_proposal-accept_proposal_example =
    accept_template_proposal-accept_proposal call "pod" (codes "1.1.0-rc1") false db as_contracts
      pod_template binds refl refl refl
