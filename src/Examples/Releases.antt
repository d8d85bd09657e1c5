-- ===== src/Examples/Releases.antt =====
-- Proposals of versions: created, accepted, and read.
use titan_tyr.Handshake.{enforce_two_party}
use titan_tyr.Session.Queries.{scalar_one_or_none, first}
use titan_tyr.Session.Live.{get_contract_row}
use titan_tyr.Prelude.{update, any, ◌≡◌, refl, true, false, some, ok, select}
use titan_tyr.Models.Rows.{Contract, ContractVersion}
use titan_tyr.Session.Versions.{same_version, add_contract_version, latest_any_version}
use titan_tyr.Versioning.{stable, max_from, lt, Version}
use titan_tyr.Versioning.Text.{parse}
use titan_tyr.Texts.{same_text, codes}
use titan_tyr.Contracts.Common.{live_contract}
use titan_tyr.Proposals.{promote, rows_of_version, ProposalCreate, create_proposal, accept_proposal}
use titan_tyr.Proposals.Create.{AllBelow, create_proposal-above}
use titan_tyr.Proposals.Accept.{
  IsAcceptable, Published, rows_after, accept_proposal-IsAcceptable, accept_proposal-Published,
}
use titan_tyr.Examples.Data.{after, call, db}

abbrev next : ProposalCreate
next = record { version = codes "1.1.0-rc2"; markdown = codes "body" }

abbrev next_version : Version
next_version = record { major = 1; minor = 1; patch = 0; prerelease = some (codes "2") }

create_proposal-above_example :
    (v : Version) × (contract : Contract) × (parse true next.version ≡ some v)
    × (live_contract db 10 ≡ ok contract)
    × AllBelow db 10 v
unfolding create_proposal parse live_contract get_contract_row first select latest_any_version lt
    max_from add_contract_version any same_version same_text
create_proposal-above_example = create_proposal-above call 10 next db refl

accept_proposal-IsAcceptable_example :
    (target : Version) × (r : ContractVersion) × IsAcceptable call 10
      (codes "1.1.0-rc1")
      false
      db
      target
      r
    × ((after (accept_proposal call 10 (codes "1.1.0-rc1") false db)).contract_versions
        ≡ rows_after call false 10 target r db)
unfolding accept_proposal live_contract get_contract_row first select parse scalar_one_or_none
    rows_of_version same_version same_text enforce_two_party promote stable add_contract_version any
    update
accept_proposal-IsAcceptable_example =
    accept_proposal-IsAcceptable call 10 (codes "1.1.0-rc1") false db refl

accept_proposal-Published_example :
    (target : Version) × (parse true (codes "1.1.0-rc1") ≡ some target)
    × Published call 10 target (after (accept_proposal call 10 (codes "1.1.0-rc1") false db))
unfolding accept_proposal live_contract get_contract_row first select parse scalar_one_or_none
    rows_of_version same_version same_text enforce_two_party promote stable add_contract_version any
    update
accept_proposal-Published_example =
    accept_proposal-Published call 10 (codes "1.1.0-rc1") false db refl
